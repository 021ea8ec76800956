-- ===== src/Client/Operations.antt =====
-- The operations of a client keep the books on what it owes (cpp/logos_api_client.cpp).
use logos_protocol.Base.{
  KeysOnce, KeysOnce-put, ℕ, ◌+◌, ◌-◌, ◌≡◌, refl, Bool, true, false, ◌&&◌, some, Option-cases,
  Bool-cases, inl, inr, [], ◌∷◌, ◌++◌, Text, text_key, lookup, length, ltb, arith,
}
use logos_protocol.Tokens.{is_empty, get_token}
use logos_protocol.Host.{or_nil}
use logos_protocol.Client.{CallError, Call, Client, is_eligible, unauthorized}
use logos_protocol.Client.Status.{
  Variants, is_unauthorized_sentinel, is_unauthorized_sentinel_invalid,
}
use logos_protocol.Client.Handshake.{
  cancel_subscription, deliver, Run, Availability, fires, refuses, registers, nth, without_nth,
  enqueue, queue_of, finish_readiness, answer_readiness, give_up, on_readiness, on_deadline,
  begin_readiness, invoke_call, on_result, on_reply, on_minted,
}
use logos_protocol.Client.Ledger.{
  weight-append, weight-without_nth, weight_queues-put, mine, may_retry, may_send, owed, sendable,
  delivered, sent, Balance,
}
use logos_protocol.Client.Balances.{
  rest-Balance, dispatch-Balance, equal-Balance, drain-Balance, start-Balance,
}

module _ {V : Type 0} (q : Variants V) (id : ℕ) where
  pub on_readiness-Balance :
      (i : ℕ) (ready : Bool) (c : Client)
      → KeysOnce c.pending_handshakes
      → Balance q id (owed id c) (sendable id c) (on_readiness q i ready c)
  unfolding on_readiness answer_readiness finish_readiness owed sendable
  on_readiness-Balance i ready c o = elim (Option-cases (nth i c.waits)) [
    | inl e ↦ rw (on_readiness, e) (rest-Balance q id c o)
    | inr (r, e) ↦ elim (Bool-cases r.done) [
      | inl d ↦ rw (on_readiness, e, d) (rest-Balance q id c o)
      | inr d ↦ elim (Bool-cases ready) [
        | inl y ↦ rw (on_readiness, e, d, y) (start-Balance q id r.awaited r.budget_ms _ o)
        | inr y ↦ rw (on_readiness, e, d, y) (drain-Balance q id r.awaited [] false _ o)
      ]
    ]
  ]

  cancel-Balance :
      (a s subscription : ℕ) (r : Run V)
      → Balance q id a s r
      → Balance q id a s (r.0, cancel_subscription subscription ∷ r.1)
  unfolding delivered sent
  cancel-Balance a s subscription r h = record {
    owes = h.owes;
    sends = h.sends;
    once = h.once;
    clean = (tt, h.clean);
  }

  pub on_deadline-Balance :
      (i : ℕ) (c : Client)
      → KeysOnce c.pending_handshakes
      → Balance q id (owed id c) (sendable id c) (on_deadline q i c)
  unfolding on_deadline give_up finish_readiness owed sendable delivered sent
  on_deadline-Balance i c o = elim (Option-cases (nth i c.waits)) [
    | inl e ↦ rw (on_deadline, e) (rest-Balance q id c o)
    | inr (r, e) ↦ elim (Bool-cases r.done) [
      | inl d ↦ rw (on_deadline, e, d) (rest-Balance q id c o)
      | inr d ↦
          rw (on_deadline, e, d)
            (cancel-Balance _ _ _ _ (drain-Balance q id r.awaited [] false _ o))
    ]
  ]

  pub begin-Balance :
      (available : Availability) (name : Text) (timeout : ℕ) (c : Client)
      → KeysOnce c.pending_handshakes
      → Balance q id (owed id c) (sendable id c) (begin_readiness q available name timeout c)
  unfolding begin_readiness owed sendable
  begin-Balance (fires ready) name timeout c o = on_readiness-Balance (length c.waits) ready _ o
  begin-Balance refuses name timeout c o = drain-Balance q id name [] false _ o
  begin-Balance (registers sub) name timeout c o = rest-Balance q id _ o

  -- The queue of the object has one more call.
  enqueued :
      (call : Call) (c : Client)
      → (owed id (enqueue call c) ≡ owed id c + mine id call)
        × (sendable id (enqueue call c) ≡ sendable id c + may_send id call)
  unfolding owed sendable enqueue queue_of
  enqueued call c =
      let queue = or_nil (lookup call.object_name c.pending_handshakes) in
      (
        omega (
          arith,
          weight_queues-put (mine id) call.object_name (queue ++ call ∷ []) c.pending_handshakes,
          weight-append (mine id) queue call,
        ),
        omega (
          arith,
          weight_queues-put (may_send id) call.object_name (queue ++ call ∷ [])
              c.pending_handshakes,
          weight-append (may_send id) queue call,
        ),
      )

  enqueue-KeysOnce :
      (call : Call) (c : Client)
      → KeysOnce c.pending_handshakes
      → KeysOnce (enqueue call c).pending_handshakes
  unfolding enqueue
  enqueue-KeysOnce call c o = KeysOnce-put call.object_name _ c.pending_handshakes o

  pub invoke-Balance :
      (available : Text → Availability) (call : Call) (c : Client)
      → KeysOnce c.pending_handshakes
      → Balance q id
          (owed id c + mine id call)
          (sendable id c + may_send id call)
          (invoke_call q available call c)
  unfolding invoke_call
  invoke-Balance available call c o =
      let k = enqueued call c in
      let o' = enqueue-KeysOnce call c o in
      elim (Bool-cases
        (is_empty (get_token call.object_name c.token_manager) && is_eligible call.object_name c)) [
          | inl e ↦
              elim (Bool-cases (ltb 1 (length (queue_of call.object_name (enqueue call c))))) [
                | inl l ↦
                    rw (e, l)
                      (equal-Balance q id _ _ _ _ _ (rest-Balance q id (enqueue call c) o') k.0
                        (omega (arith, k.1)))
                | inr l ↦
                    rw (e, l)
                      (equal-Balance q id _ _ _ _ _
                        (begin-Balance (available call.object_name) call.object_name call.timeout_ms
                          (enqueue call c) o')
                        k.0 (omega (arith, k.1)))
              ]
          | inr e ↦
              rw e (dispatch-Balance q id (get_token call.object_name c.token_manager) call c o)
        ]

  deliver-Balance :
      (call : Call) (result : V) (err : CallError) (c : Client)
      → is_unauthorized_sentinel q result ≡ false
      → KeysOnce c.pending_handshakes
      → Balance q id
          (owed id c + mine id call)
          (sendable id c + may_retry id call)
          (c, deliver call.callback result err ∷ [])
  unfolding delivered sent mine
  deliver-Balance call result err c u o = record {
    owes = omega arith;
    sends = omega arith;
    once = o;
    clean = (u, tt);
  }

  -- A retry is a call that may be sent as often as the call in flight might.
  retried :
      (call : Call)
      → ltb 0 call.retries_left ≡ true
      → (mine id (record call { retries_left = call.retries_left - 1 }) ≡ mine id call)
        × (may_send id (record call { retries_left = call.retries_left - 1 }) ≡ may_retry id call)
  unfolding mine may_send may_retry
  retried call h = (refl, ground (arith, h))

  on_result-Balance :
      (available : Text → Availability) (call : Call) (result : V) (err : CallError) (c : Client)
      → KeysOnce c.pending_handshakes
      → Balance q id
          (owed id c + mine id call)
          (sendable id c + may_retry id call)
          (on_result q available call result err c)
  unfolding on_result owed sendable
  on_result-Balance available call result err c o =
      elim (Bool-cases (
        ltb 0 call.retries_left
        && (is_eligible call.object_name c && is_unauthorized_sentinel q result))) [
          | inl e ↦
              let k = retried call (ground (arith, e)) in
              rw e (
                equal-Balance q id _ _ _ _ _
                  (invoke-Balance available (record call { retries_left = call.retries_left - 1 }) _
                    o)
                  (omega (arith, k.0)) (omega (arith, k.1)))
          | inr e ↦ elim (Bool-cases (is_unauthorized_sentinel q result)) [
            | inl u ↦
                rw (e, u)
                  (deliver-Balance call q.invalid (unauthorized call.object_name) c
                    (is_unauthorized_sentinel_invalid q) o)
            | inr u ↦ rw (e, u) (deliver-Balance call result err c u o)
          ]
        ]

  answered :
      (i : ℕ) (call : Call) (c : Client)
      → nth i c.flights ≡ some call
      → let d : Client = record c { flights = without_nth i c.flights } in
        (owed id d + mine id call ≡ owed id c) × (sendable id d + may_retry id call ≡ sendable id c)
  unfolding owed sendable
  answered i call c e = (
    omega (arith, weight-without_nth (mine id) i c.flights call e),
    omega (arith, weight-without_nth (may_retry id) i c.flights call e),
  )

  pub on_reply-Balance :
      (available : Text → Availability) (i : ℕ) (result : V) (err : CallError) (c : Client)
      → KeysOnce c.pending_handshakes
      → Balance q id (owed id c) (sendable id c) (on_reply q available i result err c)
  unfolding on_reply
  on_reply-Balance available i result err c o = elim (Option-cases (nth i c.flights)) [
    | inl e ↦ rw (on_reply, e) (rest-Balance q id c o)
    | inr (call, e) ↦
        let k = answered i call c e in
        rw (on_reply, e)
          (equal-Balance q id _ _ _ _ _ (on_result-Balance available call result err _ o) k.0
            (omega (arith, k.1)))
  ]

  pub on_minted-Balance :
      (i : ℕ) (token : Text) (c : Client)
      → KeysOnce c.pending_handshakes
      → Balance q id (owed id c) (sendable id c) (on_minted q i token c)
  unfolding on_minted owed sendable
  on_minted-Balance i token c o = elim (Option-cases (nth i c.minting)) [
    | inl e ↦ rw (on_minted, e) (rest-Balance q id c o)
    | inr (name, e) ↦ rw (on_minted, e) (drain-Balance q id name token true _ o)
  ]
