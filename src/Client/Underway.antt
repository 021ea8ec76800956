-- ===== src/Client/Underway.antt =====
-- How many waits for an object, and requests for a token to it, are under way at a client
-- (cpp/logos_api_client.cpp).
use logos_protocol.Base.{
  ℕ, zero, suc, ◌+◌, ◌≤◌, ◌≡◌, refl, Bool, true, false, ite, if_pos, if_neg, none, some,
  Option-cases, inl, inr, List, [], ◌∷◌, ◌++◌, length, Text, text_discrete, text_key, lookup, erase,
  arith, lookup-erase, if◌then◌else◌,
}
use logos_protocol.Client.{Call, Readiness, Client}
use logos_protocol.Client.Status.{Variants}
use logos_protocol.Client.Handshake.{
  nth, without_nth, finish, register, queue_of, dispatch, continue_call, continue_all,
  drain_pending_handshakes,
}

unfoldable pub same : Text → Text → ℕ
same n m = ite (text_discrete m n) 1 0

-- Waits for the object that have not answered.
unfoldable pub live : Text → List Readiness → ℕ
live n [] = 0
live n (r ∷ rs) = (if r.done then 0 else same n r.awaited) + live n rs

unfoldable pub among : Text → List Text → ℕ
among n [] = 0
among n (m ∷ ms) = same n m + among n ms

unfoldable pub busy {ℓ} : {A : Type ℓ} → List A → ℕ
busy [] = 0
busy (x ∷ xs) = 1

pub busy-append {ℓ} : {A : Type ℓ} (xs : List A) (x : A) → ◌≡◌ {A = ℕ} (busy (xs ++ x ∷ [])) 1
unfolding busy
busy-append [] x = refl
busy-append (y ∷ ys) x = refl

pub busy-bound {ℓ} : {A : Type ℓ} (xs : List A) → busy xs ≤ 1
unfolding busy
busy-bound [] = omega arith
busy-bound (x ∷ xs) = omega arith

pub live-append :
    (n : Text) (rs : List Readiness) (r : Readiness)
    → live n (rs ++ r ∷ []) ≡ live n rs + (if r.done then 0 else same n r.awaited)
unfolding live
live-append n [] r = omega arith
live-append n (s ∷ rs) r = omega (arith, live-append n rs r)

pub among-append :
    (n : Text) (ms : List Text) (m : Text) → among n (ms ++ m ∷ []) ≡ among n ms + same n m
unfolding among
among-append n [] m = omega arith
among-append n (k ∷ ms) m = omega (arith, among-append n ms m)

pub live-finish :
    (n : Text) (i : ℕ) (rs : List Readiness) (r : Readiness)
    → nth i rs ≡ some r
    → r.done ≡ false
    → live n rs ≡ live n (finish i rs) + same n r.awaited
unfolding live finish nth
live-finish n i [] r h d = cc
live-finish n zero (s ∷ rs) r h d = ground (arith, h)
live-finish n (suc i) (s ∷ rs) r h d = omega (arith, live-finish n i rs r h d)

pub live-register :
    (n : Text) (i id : ℕ) (rs : List Readiness) → live n (register i id rs) ≡ live n rs
unfolding live register
live-register n i id [] = refl
live-register n zero id (s ∷ rs) = refl
live-register n (suc i) id (s ∷ rs) = omega (arith, live-register n i id rs)

pub nth-append {ℓ} : {A : Type ℓ} (xs : List A) (x : A) → nth (length xs) (xs ++ x ∷ []) ≡ some x
unfolding nth
nth-append [] x = refl
nth-append (y ∷ ys) x = nth-append ys x

pub among-without_nth :
    (n : Text) (i : ℕ) (ms : List Text) (m : Text)
    → nth i ms ≡ some m
    → among n ms ≡ among n (without_nth i ms) + same n m
unfolding among without_nth nth
among-without_nth n i [] m h = cc
among-without_nth n zero (k ∷ ms) m h = ground (arith, h)
among-without_nth n (suc i) (k ∷ ms) m h = omega (arith, among-without_nth n i ms m h)

unfoldable pub underway : Text → Client → ℕ
underway n c = live n c.waits + among n c.minting

-- What sending and draining leave alone.
module _ {V : Type 0} (q : Variants V) where
  pub continue_all_keeps :
      (token : Text) (reachable : Bool) (calls : List Call) (c : Client)
      → let d = (continue_all q token reachable calls c).0 in
        (d.waits ≡ c.waits)
        × (d.minting ≡ c.minting)
        × (d.pending_handshakes ≡ c.pending_handshakes)
  unfolding continue_all continue_call dispatch
  continue_all_keeps token reachable [] c = (refl, refl, refl)
  continue_all_keeps token true (call ∷ calls) c =
      continue_all_keeps token true calls (record c { flights = c.flights ++ call ∷ [] })
  continue_all_keeps token false (call ∷ calls) c = continue_all_keeps token false calls c

  -- Without a queue, draining does nothing.
  pub drain_nothing :
      (name token : Text) (reachable : Bool) (c : Client)
      → lookup name c.pending_handshakes ≡ none
      → drain_pending_handshakes q name token reachable c ≡ (c, [])
  unfolding drain_pending_handshakes
  drain_nothing name token reachable c e = rw (drain_pending_handshakes, e) refl

  pub drain_queue :
      (name token : Text) (reachable : Bool) (c : Client) (calls : List Call)
      → lookup name c.pending_handshakes ≡ some calls
      → drain_pending_handshakes q name token reachable c
        ≡ continue_all q token reachable calls
            (record c { pending_handshakes = erase name c.pending_handshakes })
  unfolding drain_pending_handshakes
  drain_queue name token reachable c calls e = rw (drain_pending_handshakes, e) refl

  pub underway-drain :
      (n name token : Text) (reachable : Bool) (c : Client)
      → underway n (drain_pending_handshakes q name token reachable c).0 ≡ underway n c
  unfolding underway
  underway-drain n name token reachable c = elim (Option-cases (lookup name c.pending_handshakes)) [
    | inl e ↦ rw (drain_nothing name token reachable c e) refl
    | inr (calls, e) ↦
        let (p, r, s) =
          continue_all_keeps token reachable calls
            (record c { pending_handshakes = erase name c.pending_handshakes }) in
        rw (drain_queue name token reachable c calls e, p, r) refl
  ]

  -- The queue of the drained object is empty, and the others are as they were.
  pub queue_of-drain :
      (n name token : Text) (reachable : Bool) (c : Client)
      → queue_of n (drain_pending_handshakes q name token reachable c).0
        ≡ ite (text_discrete name n) [] (queue_of n c)
  unfolding queue_of
  queue_of-drain n name token reachable c = elim (Option-cases (lookup name c.pending_handshakes)) [
    | inl e ↦ rw (drain_nothing name token reachable c e) (elim (text_discrete name n) [
      | yes p ↦ rw (if_pos _ p) (rw (← p, e) refl)
      | no p ↦ rw (if_neg _ p) refl
    ])
    | inr (calls, e) ↦
        let (p, r, s) =
          continue_all_keeps token reachable calls
            (record c { pending_handshakes = erase name c.pending_handshakes }) in
        rw (drain_queue name token reachable c calls e, s)
          (ground (arith, lookup-erase name n c.pending_handshakes))
  ]
