-- ===== src/Client/AnsweredOnce.antt =====
-- What becomes of the calls of a client in any history (cpp/logos_api_client.cpp).
use logos_protocol.Base.{
  weigh, KeysOnce, ℕ, ◌+◌, ◌*◌, ◌≤◌, ◌≡◌, refl, List, [], ◌∷◌, Text, text_key, arith, All,
}
use logos_protocol.Tokens.{TokenManager}
use logos_protocol.Client.{Client, connect}
use logos_protocol.Client.Status.{Variants}
use logos_protocol.Client.Handshake.{Availability}
use logos_protocol.Client.Events.{
  Event, invokes, is_ready, times_out, mints, replies, adopts, handle, handle_all,
}
use logos_protocol.Client.Ledger.{
  weight, mine, may_send, owed, sendable, delivered, sent, Clean, Balance,
}
use logos_protocol.Client.Balances.{rest-Balance, append-Balance, equal-Balance}
use logos_protocol.Client.Operations.{
  invoke-Balance, on_readiness-Balance, on_deadline-Balance, on_reply-Balance, on_minted-Balance,
}

module _ {V : Type 0} where
  -- How often a call with the callback is made.
  abbrev pub made : ℕ → Event V → ℕ
  made id (invokes call) = mine id call
  made id e = 0

  unfoldable pub issued : ℕ → List ((Text → Availability) × Event V) → ℕ
  issued id [] = 0
  issued id ((available, e) ∷ es) = made id e + issued id es

  module _ (q : Variants V) (id : ℕ) where
    handle-Balance :
        (available : Text → Availability) (e : Event V) (c : Client)
        → KeysOnce c.pending_handshakes
        → Balance q id
            (owed id c + made id e)
            (sendable id c + 2 * made id e)
            (handle q available e c)
    unfolding handle mine may_send owed sendable
    handle-Balance available (invokes call) c o =
        equal-Balance q id _ _ _ _ _
          (invoke-Balance q id available (record call { retries_left = 1 }) c o) refl (ground arith)
    handle-Balance available (is_ready i ready) c o =
        equal-Balance q id _ _ _ _ _ (on_readiness-Balance q id i ready c o) (omega arith)
          (omega arith)
    handle-Balance available (times_out i) c o =
        equal-Balance q id _ _ _ _ _ (on_deadline-Balance q id i c o) (omega arith) (omega arith)
    handle-Balance available (mints i token) c o =
        equal-Balance q id _ _ _ _ _ (on_minted-Balance q id i token c o) (omega arith)
          (omega arith)
    handle-Balance available (replies i result err) c o =
        equal-Balance q id _ _ _ _ _ (on_reply-Balance q id available i result err c o)
          (omega arith) (omega arith)
    handle-Balance available (adopts tokens) c o =
        equal-Balance q id _ _ _ _ _ (rest-Balance q id (record c { token_manager = tokens }) o)
          (omega arith) (omega arith)

    handle_all-Balance :
        (es : List ((Text → Availability) × Event V)) (c : Client)
        → KeysOnce c.pending_handshakes
        → Balance q id
            (owed id c + issued id es)
            (sendable id c + 2 * issued id es)
            (handle_all q es c)
    unfolding handle_all issued
    handle_all-Balance [] c o =
        equal-Balance q id _ _ _ _ _ (rest-Balance q id c o) (omega arith) (omega arith)
    handle_all-Balance ((available, e) ∷ es) c o =
        let h = handle-Balance available e c o in
        equal-Balance q id _ _ _ _ _
          (append-Balance q id _ _ _ _ _ _ h
            (handle_all-Balance es (handle q available e c).0 h.once))
          (omega arith) (omega arith)

-- A new client owes nothing.
connected :
    {V : Type 0} (q : Variants V) (id : ℕ) (to origin : Text) (tokens : TokenManager)
    (es : List ((Text → Availability) × Event V))
    → Balance q id (issued id es) (2 * issued id es) (handle_all q es (connect to origin tokens))
unfolding owed sendable KeysOnce weight weigh
connected q id to origin tokens es =
    equal-Balance q id _ _ _ _ _ (handle_all-Balance q id es (connect to origin tokens) tt)
      (omega arith) (omega arith)

-- In any history of a new client, a callback was called as often as calls were made with it, less
-- the calls that are still queued or in flight: none is lost and none is answered twice.
pub answered_once :
    {V : Type 0} (q : Variants V) (id : ℕ) (to origin : Text) (tokens : TokenManager)
    (es : List ((Text → Availability) × Event V))
    → let r = handle_all q es (connect to origin tokens) in
      owed id r.0 + delivered id r.1 ≡ issued id es
answered_once q id to origin tokens es = (connected q id to origin tokens es).owes

-- In any history of a new client, whatever the modules answer, calls with a callback are sent at most
-- twice as often as they are made, and no callback gets the value with which a module refuses a token.
pub refused_at_most_twice :
    {V : Type 0} (q : Variants V) (id : ℕ) (to origin : Text) (tokens : TokenManager)
    (es : List ((Text → Availability) × Event V))
    → let acts = (handle_all q es (connect to origin tokens)).1 in
      (sent id acts ≤ 2 * issued id es) × All (Clean q) acts
refused_at_most_twice q id to origin tokens es =
    let h = connected q id to origin tokens es in (omega (arith, h.sends), h.clean)
