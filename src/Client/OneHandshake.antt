-- ===== src/Client/OneHandshake.antt =====
-- Concurrent calls to an object share one request for its token (cpp/logos_api_client.cpp).
use logos_protocol.Base.{
  ℕ, ltb, ◌+◌, ◌≡◌, refl, ◌∙◌, ap, true, ite, if_pos, if_neg, some, Option-cases, Bool-cases, inl,
  inr, List, [], ◌∷◌, ◌++◌, length, Text, text_discrete, text_key, lookup, arith, lookup-put,
  lookup-put_self, sym, ◌&&◌,
}
use logos_protocol.Tokens.{TokenManager, is_empty, get_token}
use logos_protocol.Client.{CallError, Call, Client, connect, is_eligible}
use logos_protocol.Client.Status.{Variants, is_unauthorized_sentinel}
use logos_protocol.Client.Handshake.{
  Availability, nth, without_nth, queue_of, enqueue, invoke_call, on_result, on_reply, on_minted,
  dispatch,
}
use logos_protocol.Client.Events.{
  Event, invokes, is_ready, times_out, mints, replies, adopts, handle, handle_all,
}
use logos_protocol.Client.Underway.{
  same, live, among, busy, underway, among-without_nth, busy-append,
}
use logos_protocol.Client.Coalesced.{
  drain-Coalesced, on_readiness-Coalesced, on_deadline-Coalesced, begin-Coalesced, Coalesced,
  Settling, untouched, queue_length,
}

module _ {V : Type 0} (q : Variants V) where
  busy-enqueue :
      (n : Text) (call : Call) (c : Client)
      → busy (queue_of n (enqueue call c))
        ≡ ite (text_discrete call.object_name n) 1 (busy (queue_of n c))
  unfolding queue_of enqueue
  busy-enqueue n call c =
      rw
        (lookup-put call.object_name n (queue_of call.object_name c ++ call ∷ [])
          c.pending_handshakes)
        (elim (text_discrete call.object_name n) [
          | yes p ↦ rw (if_pos _ p, if_pos _ p) (busy-append (queue_of call.object_name c) call)
          | no p ↦ rw (if_neg _ p, if_neg _ p) refl
        ])

  underway-enqueue :
      (n : Text) (call : Call) (c : Client) → underway n (enqueue call c) ≡ underway n c
  unfolding underway enqueue
  underway-enqueue n call c = refl

  -- A call that is the first of its queue leaves its object without anything under way.
  enqueue-Settling :
      (call : Call) (c : Client)
      → busy (queue_of call.object_name c) ≡ 0
      → Coalesced c
      → Settling call.object_name (enqueue call c)
  unfolding same
  enqueue-Settling call c e h n =
      rw (underway-enqueue n call c, busy-enqueue n call c)
        (elim (text_discrete call.object_name n) [
          | yes p ↦
              rw (if_pos _ p, if_pos _ p)
                (omega (arith, h call.object_name, e, ap (λ m. underway m c) p))
          | no p ↦ rw (if_neg _ p, if_neg _ p) (omega (arith, h n))
        ])

  enqueue-Coalesced :
      (call : Call) (c : Client)
      → busy (queue_of call.object_name c) ≡ 1
      → Coalesced c
      → Coalesced (enqueue call c)
  enqueue-Coalesced call c e h n =
      rw (underway-enqueue n call c, busy-enqueue n call c)
        (elim (text_discrete call.object_name n) [
          | yes p ↦ rw (if_pos _ p) (omega (arith, h call.object_name, e, ap (λ m. underway m c) p))
          | no p ↦ rw (if_neg _ p) (h n)
        ])

  queue_of-enqueue :
      (call : Call) (c : Client)
      → queue_of call.object_name (enqueue call c) ≡ queue_of call.object_name c ++ call ∷ []
  unfolding queue_of enqueue
  queue_of-enqueue call c = rw (lookup-put_self call.object_name _ c.pending_handshakes) refl

  invoke-Coalesced :
      (available : Text → Availability) (call : Call) (c : Client)
      → Coalesced c
      → Coalesced (invoke_call q available call c).0
  unfolding invoke_call dispatch
  invoke-Coalesced available call c h =
      elim (Bool-cases
        (is_empty (get_token call.object_name c.token_manager) && is_eligible call.object_name c)) [
          | inl e ↦
              elim (Bool-cases (ltb 1 (length (queue_of call.object_name (enqueue call c))))) [
                | inl l ↦
                    rw (e, l)
                      (enqueue-Coalesced call c
                        (queue_length _ call
                          (ap (λ xs. ltb 1 (length xs)) (sym (queue_of-enqueue call c)) ∙ l))
                        h)
                | inr l ↦
                    rw (e, l)
                      (begin-Coalesced q (available call.object_name) call.object_name
                        call.timeout_ms (enqueue call c)
                        (enqueue-Settling call c
                          (queue_length _ call
                            (ap (λ xs. ltb 1 (length xs)) (sym (queue_of-enqueue call c)) ∙ l))
                          h))
              ]
          | inr e ↦ rw e (untouched _ _ c h)
        ]

  on_result-Coalesced :
      (available : Text → Availability) (call : Call) (result : V) (err : CallError) (c : Client)
      → Coalesced c
      → Coalesced (on_result q available call result err c).0
  unfolding on_result
  on_result-Coalesced available call result err c h =
      elim (Bool-cases (
        ltb 0 call.retries_left
        && (is_eligible call.object_name c && is_unauthorized_sentinel q result))) [
          | inl e ↦ rw e (invoke-Coalesced available _ _ (untouched _ _ c h))
          | inr e ↦ elim (Bool-cases (is_unauthorized_sentinel q result)) [
            | inl u ↦ rw (e, u) h
            | inr u ↦ rw (e, u) h
          ]
        ]

  on_reply-Coalesced :
      (available : Text → Availability) (i : ℕ) (result : V) (err : CallError) (c : Client)
      → Coalesced c
      → Coalesced (on_reply q available i result err c).0
  unfolding on_reply
  on_reply-Coalesced available i result err c h = elim (Option-cases (nth i c.flights)) [
    | inl e ↦ rw (on_reply, e) h
    | inr (call, e) ↦
        rw (on_reply, e) (on_result-Coalesced available call result err _ (untouched _ _ c h))
  ]

  minted-Settling :
      (i : ℕ) (name : Text) (tokens : TokenManager) (c : Client)
      → nth i c.minting ≡ some name
      → Coalesced c
      → Settling name (record c { minting = without_nth i c.minting; token_manager = tokens })
  unfolding underway queue_of
  minted-Settling i name tokens c e h n = omega (arith, h n, among-without_nth n i c.minting name e)

  on_minted-Coalesced :
      (i : ℕ) (token : Text) (c : Client) → Coalesced c → Coalesced (on_minted q i token c).0
  unfolding on_minted
  on_minted-Coalesced i token c h = elim (Option-cases (nth i c.minting)) [
    | inl e ↦ rw (on_minted, e) h
    | inr (name, e) ↦
        rw (on_minted, e) (drain-Coalesced q name token true _ (minted-Settling i name _ c e h))
  ]

  handle-Coalesced :
      (available : Text → Availability) (e : Event V) (c : Client)
      → Coalesced c
      → Coalesced (handle q available e c).0
  unfolding handle
  handle-Coalesced available (invokes call) c h = invoke-Coalesced available _ c h
  handle-Coalesced available (is_ready i ready) c h = on_readiness-Coalesced q i ready c h
  handle-Coalesced available (times_out i) c h = on_deadline-Coalesced q i c h
  handle-Coalesced available (mints i token) c h = on_minted-Coalesced i token c h
  handle-Coalesced available (replies i result err) c h =
      on_reply-Coalesced available i result err c h
  handle-Coalesced available (adopts tokens) c h = untouched c.flights tokens c h

  handle_all-Coalesced :
      (es : List ((Text → Availability) × Event V)) (c : Client)
      → Coalesced c
      → Coalesced (handle_all q es c).0
  unfolding handle_all
  handle_all-Coalesced [] c h = h
  handle_all-Coalesced ((available, e) ∷ es) c h =
      handle_all-Coalesced es (handle q available e c).0 (handle-Coalesced available e c h)

connect-Coalesced :
    (to origin : Text) (tokens : TokenManager) → Coalesced (connect to origin tokens)
unfolding underway queue_of live among busy lookup
connect-Coalesced to origin tokens n = refl

-- After any history of a new client, an object that calls are queued for has exactly one thing
-- under way that will send or fail them, a wait for it or a request for a token, and an object
-- without queued calls has none.
pub one_handshake :
    {V : Type 0} (q : Variants V) (to origin : Text) (tokens : TokenManager)
    (es : List ((Text → Availability) × Event V)) (n : Text)
    → let c = (handle_all q es (connect to origin tokens)).0 in
      live n c.waits + among n c.minting ≡ busy (queue_of n c)
unfolding underway
one_handshake q to origin tokens es n =
    handle_all-Coalesced q es (connect to origin tokens) (connect-Coalesced to origin tokens) n
