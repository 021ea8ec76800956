-- ===== src/Client/Events.antt =====
-- What happens to a client, in any order: calls by its user, and answers to what it asked
-- (cpp/logos_api_client.cpp).
use logos_protocol.Base.{ℕ, Bool, List, [], ◌∷◌, ◌++◌, Text}
use logos_protocol.Tokens.{TokenManager}
use logos_protocol.Client.{CallError, Call, Client}
use logos_protocol.Client.Status.{Variants}
use logos_protocol.Client.Handshake.{
  Run, Availability, invoke_call, on_readiness, on_deadline, on_minted, on_reply,
}

-- `adopts` is a token store that others have changed.
pub data Event (V : Type 0) : Type 0 where
  invokes : Call → Event V
  is_ready : ℕ → Bool → Event V
  times_out : ℕ → Event V
  mints : ℕ → Text → Event V
  replies : ℕ → V → CallError → Event V
  adopts : TokenManager → Event V

module _ {V : Type 0} (q : Variants V) (available : Text → Availability) where
  -- `invokeRemoteMethodAsync` grants one retry.
  unfoldable pub handle : Event V → Client → Run V
  handle (invokes call) c = invoke_call q available (record call { retries_left = 1 }) c
  handle (is_ready i ready) c = on_readiness q i ready c
  handle (times_out i) c = on_deadline q i c
  handle (mints i token) c = on_minted q i token c
  handle (replies i result err) c = on_reply q available i result err c
  handle (adopts tokens) c = (record c { token_manager = tokens }, [])

-- A history: each event with what `whenObjectAvailable` does in its time.
module _ {V : Type 0} (q : Variants V) where
  unfoldable pub handle_all : List ((Text → Availability) × Event V) → Client → Run V
  handle_all [] c = (c, [])
  handle_all ((available, e) ∷ es) c =
      let one = handle q available e c in
      let rest = handle_all es one.0 in (rest.0, one.1 ++ rest.1)
