-- ===== src/PlainObject/Deliveries.antt =====
-- The callbacks of a plain client object's calls
-- (cpp/implementations/plain/plain_logos_object.cpp).
use logos_protocol.Base.{
  ℕ, ◌≤◌, ◌≡◌, ◌⊎◌, refl, Bool, true, false, ◌||◌, Option-cases, Bool-cases, inl, inr, List, [],
  ◌∷◌, ◌++◌, Text, text_key, nat_eq, lookup, put, erase, arith, ◌==◌,
}
use logos_protocol.Client.{no_error}
use logos_protocol.Client.Status.{Variants}
use logos_protocol.PlainObject.{
  AsyncCall, CallState, Run, member, emplace_number, is_nil, busy, park_completion, park_new,
  take_completion, pending_call, is_parked,
}
use logos_protocol.PlainObject.Calls.{
  on_complete, register_call, call_async, defer, defer_unless, on_pending, on_value,
}
use logos_protocol.PlainObject.Claims.{
  one_if, is_some, posts, posts-append, is_known, accounted, closed, Keeps, same_member,
  member_cons, deliver-Keeps, rebase, still, deliver_number-Keeps,
}

pub one_if-bound : (b : Bool) → one_if b ≤ 1
one_if-bound true = omega arith
one_if-bound false = omega arith

-- Nothing is in a list that is empty.
pub member-is_nil : (n : ℕ) (ns : List ℕ) → is_nil ns ≡ true → member n ns ≡ false
unfolding member
member-is_nil n [] h = refl
member-is_nil n (m ∷ ns) h = cc

pub member_nil : (n : ℕ) → member n [] ≡ false
unfolding member
member_nil n = refl

known_put :
    (n m : ℕ) (call : AsyncCall) (cs : List (ℕ × AsyncCall))
    → is_some (lookup n (put m call cs)) ≡ m == n || is_some (lookup n cs)
unfolding lookup put
known_put n m call [] = ground arith
known_put n m call ((k, d) ∷ cs) = ground (arith, known_put n m call cs)

member-emplace_number :
    (n m : ℕ) (ns : List ℕ) → member n (emplace_number m ns) ≡ m == n || member n ns
unfolding emplace_number
member-emplace_number n m ns = elim (Bool-cases (member m ns)) [
  | inl e ↦ rw (emplace_number, e) (ground (arith, e, same_member m n ns))
  | inr e ↦ rw (emplace_number, e) (member_cons n m ns)
]

module _ {V : Type 0} (n : ℕ) where
  park-Keeps :
      (id : Text) (v : V) (s : CallState V)
      → accounted n s || false ≡ true
      → closed s ≡ true
      → Keeps false n s (park_completion id v s, [])
  unfolding park_completion park_new
  park-Keeps id v s h c = elim (Bool-cases (busy s)) [
    | inl e ↦ elim (Bool-cases (is_parked (lookup id s.completions))) [
      | inl p ↦ rw (park_completion, e, p) (still false n s _ refl refl refl refl h c)
      | inr p ↦ rw (park_completion, e, p) (still false n s _ refl refl refl refl h c)
    ]
    | inr e ↦ rw (park_completion, e) (still false n s s refl refl refl refl h c)
  ]

  pub take-Keeps :
      (id : Text) (s : CallState V)
      → accounted n s || false ≡ true
      → closed s ≡ true
      → Keeps false n s (take_completion id s, [])
  unfolding take_completion
  take-Keeps id s h c = elim (Bool-cases (is_parked (lookup id s.completions))) [
    | inl p ↦ rw (take_completion, p) (still false n s _ refl refl refl refl h c)
    | inr p ↦ rw (take_completion, p) (still false n s s refl refl refl refl h c)
  ]

  pub complete-Keeps :
      (id : Text) (v : V) (s : CallState V)
      → accounted n s || false ≡ true
      → closed s ≡ true
      → Keeps false n s (on_complete id v s)
  unfolding on_complete accounted is_known closed
  complete-Keeps id v s h c = elim (Option-cases (lookup id s.deferred)) [
    | inl e ↦ rw (on_complete, e) (park-Keeps id v s h c)
    | inr (m, e) ↦
        let u : CallState V = record s { deferred = erase id s.deferred } in
        rw (on_complete, e)
          (rebase false n s u _ refl (deliver_number-Keeps false n m v no_error u h c))
  ]

  -- A deferred call is one that is known already.
  defer-Keeps :
      (q : Variants V) (m : ℕ) (call : AsyncCall) (id : Text) (s : CallState V)
      → (m == n ≡ true → is_known n s ≡ true)
      → accounted n s || false ≡ true
      → closed s ≡ true
      → Keeps false n s (defer q m call id s)
  unfolding defer accounted is_known closed posts
  defer-Keeps q m call id s k h c = record {
    counts = omega arith;
    finds = ground (arith, h, k, known_put n m (record call { call_id = id }) s.calls);
    closes = c;
  }

  -- One operation after another.
  pub append-Keeps :
      (b b' : Bool) (s : CallState V) (r r' : Run V)
      → Keeps b n s r
      → Keeps b' n r.0 r'
      → Keeps b' n s (r'.0, r.1 ++ r'.1)
  append-Keeps b b' s r r' h k = record {
    counts = omega (arith, h.counts, k.counts, posts-append n r.1 r'.1);
    finds = k.finds;
    closes = k.closes;
  }

  accounted-known :
      (m : ℕ) (call : AsyncCall) (s : CallState V)
      → accounted n s || false ≡ true
      → (m == n ≡ true) ⊎ (accounted n (record s { calls = put m call s.calls }) || false ≡ true)
  unfolding accounted is_known
  accounted-known m call s h = elim (Bool-cases (m == n)) [
    | inl e ↦ inl e
    | inr e ↦ inr (ground (arith, h, e, known_put n m call s.calls))
  ]

  register-Keeps :
      (q : Variants V) (b : Bool) (m : ℕ) (call : AsyncCall) (s : CallState V)
      → s.stopping ≡ b
      → accounted n s || false ≡ true
      → closed s ≡ true
      → Keeps false n s (register_call q b m call (record s { calls = put m call s.calls }))
  unfolding register_call closed accounted is_known posts
  register-Keeps q true m call s e h c =
      let u : CallState V = record s { calls = put m call s.calls } in
      rebase false n s u _ refl
        (deliver-Keeps false n m call q.invalid _ u (accounted-known m call s h) c)
  register-Keeps q false m call s e h c = record {
    counts = omega arith;
    finds = ground (arith, h, known_put n m call s.calls, member-emplace_number n m s.inflight);
    closes = ground (arith, e);
  }

  pub call-Keeps :
      (q : Variants V) (m : ℕ) (call : AsyncCall) (is_open : Bool) (s : CallState V)
      → accounted n s || false ≡ true
      → closed s ≡ true
      → Keeps false n s (call_async q m call is_open s)
  unfolding call_async posts
  call-Keeps q m call true s h c =
      let k = register-Keeps q s.stopping m call s refl h c in
      record { counts = k.counts; finds = k.finds; closes = k.closes }
  call-Keeps q m call false s h c = record { counts = omega arith; finds = h; closes = c }

  pending-Keeps :
      (q : Variants V) (b : Bool) (m : ℕ) (call : AsyncCall) (id : Text) (s : CallState V)
      → (m == n ≡ true → is_known n s ≡ true)
      → accounted n s || false ≡ true
      → closed s ≡ true
      → Keeps false n s (defer_unless q b m call id s)
  unfolding defer_unless
  pending-Keeps q true m call id s k h c = deliver-Keeps false n m call q.invalid _ s (inr h) c
  pending-Keeps q false m call id s k h c = defer-Keeps q m call id s k h c

  pub value-Keeps :
      (q : Variants V) (m : ℕ) (call : AsyncCall) (v : V) (s : CallState V)
      → (m == n ≡ true → is_known n s ≡ true)
      → accounted n s || false ≡ true
      → closed s ≡ true
      → Keeps false n s (on_value q m call v s)
  unfolding on_value on_pending
  value-Keeps q m call v s k h c = elim (Option-cases (pending_call q v)) [
    | inl e ↦ rw (on_value, e) (deliver-Keeps false n m call v no_error s (inr h) c)
    | inr (id, e) ↦ elim (Bool-cases (member m s.delivered)) [
      | inl d ↦ rw (on_value, e, d) (still false n s s refl refl refl refl h c)
      | inr d ↦ elim (Option-cases (lookup id s.completions)) [
        | inl l ↦ rw (on_value, e, d, on_pending, l) (pending-Keeps q s.stopping m call id s k h c)
        | inr (w, l) ↦
            let t = take-Keeps id s h c in
            rw (on_value, e, d, on_pending, l)
              (append-Keeps false false s _ _ t
                (deliver-Keeps false n m call w no_error _ (inr t.finds) t.closes))
      ]
    ]
  ]
