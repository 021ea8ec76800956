-- ===== src/PlainObject/Claims.antt =====
-- How one delivery of a plain client object keeps the account of its calls
-- (cpp/implementations/plain/plain_logos_object.cpp).
use logos_protocol.Base.{
  ℕ, ◌+◌, ◌≡◌, ◌⊎◌, refl, sym, ◌∙◌, ap, Bool, true, false, not, ◌&&◌, ◌||◌, Option, none, some,
  Option-cases, Bool-cases, inl, inr, List, [], ◌∷◌, ◌++◌, text_key, nat_eq, lookup, arith, ==→eq,
  ◌==◌,
}
use logos_protocol.Client.{CallError}
use logos_protocol.PlainObject.{
  AsyncCall, CallState, Effect, post, refuse, cancel_pending, arm_timer, send_call, Run, member,
  delete, is_nil, busy, drop_unclaimed_if_idle,
}
use logos_protocol.PlainObject.Calls.{unregister, claim, deliver, deliver_number}

abbrev pub one_if : Bool → ℕ
one_if true = 1
one_if false = 0

abbrev pub is_some : Option AsyncCall → Bool
is_some none = false
is_some (some c) = true

pub member-delete : (n m : ℕ) (ns : List ℕ) → member n (delete m ns) ≡ not (m == n) && member n ns
unfolding member delete
member-delete n m [] = ground arith
member-delete n m (k ∷ ns) = ground (arith, member-delete n m ns)

pub same_member : (m n : ℕ) (ns : List ℕ) → m == n ≡ true → member m ns ≡ member n ns
same_member m n ns h = ap (λ k. member k ns) (==→eq m n h)

pub member_cons : (n m : ℕ) (ns : List ℕ) → member n (m ∷ ns) ≡ m == n || member n ns
unfolding member
member_cons n m ns = refl

pub is_nil-delete : (m : ℕ) (ns : List ℕ) → is_nil ns ≡ true → is_nil (delete m ns) ≡ true
unfolding delete
is_nil-delete m [] h = refl
is_nil-delete m (k ∷ ns) h = cc

module _ {V : Type 0} where
  -- How often the callback of the call is posted.
  unfoldable pub posts : ℕ → List (Effect V) → ℕ
  posts n [] = 0
  posts n (post m callback v err ∷ es) = one_if (m == n) + posts n es
  posts n (e ∷ es) = posts n es

  pub posts-append :
      (n : ℕ) (xs ys : List (Effect V)) → posts n (xs ++ ys) ≡ posts n xs + posts n ys
  unfolding posts
  posts-append n [] ys = omega arith
  posts-append n (post m c v err ∷ xs) ys = omega (arith, posts-append n xs ys)
  posts-append n (refuse c err ∷ xs) ys = posts-append n xs ys
  posts-append n (cancel_pending m ∷ xs) ys = posts-append n xs ys
  posts-append n (arm_timer m ms ∷ xs) ys = posts-append n xs ys
  posts-append n (send_call m ∷ xs) ys = posts-append n xs ys

  unfoldable pub is_known : ℕ → CallState V → Bool
  is_known n s = is_some (lookup n s.calls)

  -- A call that was started is delivered, or in flight, where a release finds it.
  unfoldable pub accounted : ℕ → CallState V → Bool
  accounted n s = not (is_known n s) || (member n s.delivered || member n s.inflight)

  -- After a release nothing is in flight.
  unfoldable pub closed : CallState V → Bool
  closed s = not s.stopping || is_nil s.inflight

-- What an operation does to the call: it posts its callback exactly if it claims it. Where `b` holds,
-- the call is in a list that is being delivered.
pub record Keeps {V : Type 0} (b : Bool) (n : ℕ) (s : CallState V) (r : Run V) : Type 0 where
  pub counts : posts n r.1 + one_if (member n s.delivered) ≡ one_if (member n r.0.delivered)
  pub finds : accounted n r.0 || b ≡ true
  pub closes : closed r.0 ≡ true

module _ {V : Type 0} (b : Bool) (n : ℕ) where
  drop_fields :
      (s : CallState V)
      → let d = drop_unclaimed_if_idle s in
        (d.inflight ≡ s.inflight)
        × (d.delivered ≡ s.delivered)
        × (d.calls ≡ s.calls)
        × (d.stopping ≡ s.stopping)
  unfolding drop_unclaimed_if_idle
  drop_fields s = elim (Bool-cases (busy s)) [
    | inl e ↦ rw (drop_unclaimed_if_idle, e) (refl, refl, refl, refl)
    | inr e ↦ rw (drop_unclaimed_if_idle, e) (refl, refl, refl, refl)
  ]

  claim-Keeps :
      (m : ℕ) (call : AsyncCall) (v : V) (err : CallError) (s : CallState V)
      → (m == n ≡ true) ⊎ (accounted n s || b ≡ true)
      → closed s ≡ true
      → Keeps b n s (claim m call v err s)
  unfolding claim accounted closed is_known posts
  claim-Keeps m call v err s h c =
      let same = same_member m n s.delivered in
      elim (Bool-cases (member m s.delivered)) [
        | inl e ↦
            rw (claim, e)
              (record { counts = omega arith; finds = ground (arith, h, e, same); closes = c })
        | inr e ↦
            rw (claim, e)
              (record {
                counts = ground (arith, e, same, member_cons n m s.delivered);
                finds = ground (arith, h, e, same, member_cons n m s.delivered);
                closes = c;
              })
      ]

  -- From a state with the same deliveries.
  pub rebase :
      (s s' : CallState V) (r : Run V) → s'.delivered ≡ s.delivered → Keeps b n s' r → Keeps b n s r
  rebase s s' r e k = record {
    counts = ap (λ (ds : List ℕ). posts n r.1 + one_if (member n ds)) (sym e) ∙ k.counts;
    finds = k.finds;
    closes = k.closes;
  }

  unregister_fields :
      (m : ℕ) (call : AsyncCall) (s : CallState V)
      → let d = unregister m call s in
        (d.inflight ≡ delete m s.inflight)
        × (d.delivered ≡ s.delivered)
        × (d.calls ≡ s.calls)
        × (d.stopping ≡ s.stopping)
  unfolding unregister
  unregister_fields m call s = drop_fields _

  unregister-accounted :
      (m : ℕ) (call : AsyncCall) (s : CallState V)
      → m == n ≡ false
      → accounted n s || b ≡ true
      → accounted n (unregister m call s) || b ≡ true
  unfolding accounted is_known
  unregister-accounted m call s e h =
      let f = unregister_fields m call s in
      rw (f.0, f.1, f.2) (ground (arith, h, e, member-delete n m s.inflight))

  unregister-closed :
      (m : ℕ) (call : AsyncCall) (s : CallState V)
      → closed s ≡ true
      → closed (unregister m call s) ≡ true
  unfolding closed
  unregister-closed m call s h =
      let f = unregister_fields m call s in
      rw (f.0, f.3) (ground (arith, h, is_nil-delete m s.inflight))

  pub deliver-Keeps :
      (m : ℕ) (call : AsyncCall) (v : V) (err : CallError) (s : CallState V)
      → (m == n ≡ true) ⊎ (accounted n s || b ≡ true)
      → closed s ≡ true
      → Keeps b n s (deliver m call v err s)
  unfolding deliver
  deliver-Keeps m call v err s h c =
      let u = unregister m call s in
      rebase s u _ (unregister_fields m call s).1 (
        claim-Keeps m call v err u
          (elim (Bool-cases (m == n)) [
            | inl e ↦ inl e
            | inr e ↦ inr (unregister-accounted m call s e (elim h [ inl k ↦ cc | inr k ↦ k ]))
          ])
          (unregister-closed m call s c))

  -- Nothing of the calls changes.
  pub still :
      (s s' : CallState V)
      → s'.inflight ≡ s.inflight
      → s'.delivered ≡ s.delivered
      → s'.calls ≡ s.calls
      → s'.stopping ≡ s.stopping
      → accounted n s || b ≡ true
      → closed s ≡ true
      → Keeps b n s (s', [])
  unfolding accounted closed is_known posts
  still s s' i d k t h c = record {
    counts = omega (arith, ap (λ (ds : List ℕ). one_if (member n ds)) d);
    finds = rw (i, d, k) h;
    closes = rw (i, t) c;
  }

  pub deliver_number-Keeps :
      (m : ℕ) (v : V) (err : CallError) (s : CallState V)
      → accounted n s || b ≡ true
      → closed s ≡ true
      → Keeps b n s (deliver_number m v err s)
  unfolding deliver_number
  deliver_number-Keeps m v err s h c = elim (Option-cases (lookup m s.calls)) [
    | inl e ↦ rw (deliver_number, e) (still s s refl refl refl refl h c)
    | inr (call, e) ↦ rw (deliver_number, e) (deliver-Keeps m call v err s (inr h) c)
  ]
