-- ===== src/Client/Coalesced.antt =====
-- How the steps of a request for a token keep a client coalesced (cpp/logos_api_client.cpp).
use logos_protocol.Base.{
  ℕ, ltb, ◌+◌, ◌≡◌, refl, Bool, true, false, if_pos, if_neg, some, Option-cases, Bool-cases, inl,
  inr, List, [], ◌∷◌, ◌++◌, length, Text, text_discrete, text_key, arith, if◌then◌else◌,
}
use logos_protocol.Tokens.{TokenManager}
use logos_protocol.Client.{Call, Readiness, Client}
use logos_protocol.Client.Status.{Variants}
use logos_protocol.Client.Handshake.{
  Availability, fires, refuses, registers, nth, finish, queue_of, drain_pending_handshakes,
  start_capability_handshake, answer_readiness, give_up, on_readiness, on_deadline, begin_readiness,
  finish_readiness, new_wait,
}
use logos_protocol.Client.Underway.{
  same, busy, underway, live-append, among-append, live-finish, live-register, nth-append,
  busy-bound, underway-drain, queue_of-drain,
}

-- What an object has under way, next to whether calls are queued for it.
abbrev pub Coalesced : Client → Type 0
Coalesced c = (n : Text) → underway n c ≡ busy (queue_of n c)

-- An object has one thing less under way than its queue wants.
abbrev pub Settling : Text → Client → Type 0
Settling name c = (n : Text) → underway n c + same n name ≡ busy (queue_of n c)

-- Calls in flight and tokens have no part in it.
pub untouched :
    (flights : List Call) (tokens : TokenManager) (c : Client)
    → Coalesced c
    → Coalesced (record c { flights = flights; token_manager = tokens })
unfolding underway queue_of
untouched flights tokens c h n = h n

-- Whether a queue had a call before the last one.
pub queue_length :
    (xs : List Call) (x : Call) {b : Bool}
    → ltb 1 (length (xs ++ x ∷ [])) ≡ b
    → busy xs ≡ (if b then 1 else 0)
unfolding busy
queue_length [] x h = ground (arith, h)
queue_length (y ∷ []) x h = ground (arith, h)
queue_length (y ∷ z ∷ xs) x h = ground (arith, h)

module _ {V : Type 0} (q : Variants V) where
  pub drain-Coalesced :
      (name token : Text) (reachable : Bool) (c : Client)
      → Settling name c
      → Coalesced (drain_pending_handshakes q name token reachable c).0
  unfolding busy same
  drain-Coalesced name token reachable c h n =
      let k = h n in
      rw (underway-drain q n name token reachable c, queue_of-drain q n name token reachable c)
        (elim (text_discrete name n) [
          | yes p ↦ rw (if_pos _ p) (ground (arith, k, p, busy-bound (queue_of n c)))
          | no p ↦ rw (if_neg _ p) (ground (arith, k, p))
        ])

  pub start-Coalesced :
      (name : Text) (timeout : ℕ) (c : Client)
      → Settling name c
      → Coalesced (start_capability_handshake q name timeout c).0
  unfolding start_capability_handshake underway queue_of
  start-Coalesced name timeout c h n = omega (arith, h n, among-append n c.minting name)

  finish-Settling :
      (i : ℕ) (r : Readiness) (c : Client)
      → nth i c.waits ≡ some r
      → r.done ≡ false
      → Coalesced c
      → Settling r.awaited (finish_readiness r.awaited (record c { waits = finish i c.waits }))
  unfolding finish_readiness underway queue_of
  finish-Settling i r c e d h n = omega (arith, h n, live-finish n i c.waits r e d)

  answer-Coalesced :
      (i : ℕ) (r : Readiness) (ready : Bool) (c : Client)
      → nth i c.waits ≡ some r
      → r.done ≡ false
      → Coalesced c
      → Coalesced (answer_readiness q i r ready c).0
  unfolding answer_readiness
  answer-Coalesced i r true c e d h =
      start-Coalesced r.awaited r.budget_ms _ (finish-Settling i r c e d h)
  answer-Coalesced i r false c e d h =
      drain-Coalesced r.awaited [] false _ (finish-Settling i r c e d h)

  give_up-Coalesced :
      (i : ℕ) (r : Readiness) (c : Client)
      → nth i c.waits ≡ some r
      → r.done ≡ false
      → Coalesced c
      → Coalesced (give_up q i r c).0
  unfolding give_up
  give_up-Coalesced i r c e d h = drain-Coalesced r.awaited [] false _ (finish-Settling i r c e d h)

  pub on_readiness-Coalesced :
      (i : ℕ) (ready : Bool) (c : Client) → Coalesced c → Coalesced (on_readiness q i ready c).0
  unfolding on_readiness answer_readiness
  on_readiness-Coalesced i ready c h = elim (Option-cases (nth i c.waits)) [
    | inl e ↦ rw (on_readiness, e) h
    | inr (r, e) ↦ elim (Bool-cases r.done) [
      | inl d ↦ rw (on_readiness, e, d) h
      | inr d ↦ rw (on_readiness, e, d) (answer-Coalesced i r ready c e d h)
    ]
  ]

  pub on_deadline-Coalesced : (i : ℕ) (c : Client) → Coalesced c → Coalesced (on_deadline q i c).0
  unfolding on_deadline give_up
  on_deadline-Coalesced i c h = elim (Option-cases (nth i c.waits)) [
    | inl e ↦ rw (on_deadline, e) h
    | inr (r, e) ↦ elim (Bool-cases r.done) [
      | inl d ↦ rw (on_deadline, e, d) h
      | inr d ↦ rw (on_deadline, e, d) (give_up-Coalesced i r c e d h)
    ]
  ]

  pub begin-Coalesced :
      (available : Availability) (name : Text) (timeout : ℕ) (c : Client)
      → Settling name c
      → Coalesced (begin_readiness q available name timeout c).0
  unfolding begin_readiness underway queue_of
  begin-Coalesced (fires ready) name timeout c h =
      on_readiness-Coalesced (length c.waits) ready _
        (λ n. omega (arith, h n, live-append n c.waits (new_wait name timeout)))
  begin-Coalesced refuses name timeout c h = drain-Coalesced name [] false _ (λ n. omega (
    arith,
    h n,
    live-append n c.waits (new_wait name timeout),
    live-finish n (length c.waits) (c.waits ++ new_wait name timeout ∷ []) (new_wait name timeout)
        (nth-append c.waits (new_wait name timeout)) refl,
  ))
  begin-Coalesced (registers id) name timeout c h = λ n. omega (
    arith,
    h n,
    live-append n c.waits (new_wait name timeout),
    live-register n (length c.waits) id (c.waits ++ new_wait name timeout ∷ []),
  )
