-- ===== src/Client/Blocking.antt =====
-- A call that blocks (`invokeRemoteMethod` of cpp/logos_api_client.cpp), with the requests for a
-- token that it makes.
use logos_protocol.Base.{
  ℕ, ◌-◌, Bool, true, false, ◌&&◌, List, [], ◌∷◌, ◌++◌, Text, ltb, if◌then◌else◌,
}
use logos_protocol.Tokens.{TokenManager, is_empty, get_token, remove_token}
use logos_protocol.Client.{
  CallError, acquire_failed, unauthorized, capability_module, Call, Client, is_eligible,
}
use logos_protocol.Client.Status.{Variants, is_unauthorized_sentinel}
use logos_protocol.Client.Handshake.{keep_token}

-- What the consumers do in the time of a call: whether the object can be acquired, how long that
-- takes and what others make of the tokens meanwhile, and what the first and the second request for
-- a token, and the first and the second sending, answer.
pub record Exchange (V : Type 0) : Type 0 where
  pub acquirable : Bool
  pub elapsed_ms : ℕ
  pub after_wait : TokenManager → TokenManager
  pub first_token : Text → Text
  pub second_token : Text → Text
  pub first_answer : Text → V × CallError
  pub second_answer : Text → V × CallError

-- What a call does: a request for a token with its budget, or a sending with its token.
pub data Act : Type 0 where
  asks : ℕ → Act
  calls : Text → Act

pub record Outcome (V : Type 0) : Type 0 where
  pub value : V
  pub error : CallError
  pub tokens : TokenManager
  pub acts : List Act

-- `qMax(1, timeout.ms - elapsed)`
abbrev pub remaining : ℕ → ℕ → ℕ
remaining timeout elapsed = if ltb 1 (timeout - elapsed) then timeout - elapsed else 1

-- The token that `mintAndCacheToken` gets, by the capability token that the store has.
unfoldable pub minted : (Text → Text) → TokenManager → Text
minted answer tokens = answer (get_token capability_module tokens)

-- The store that `mintAndCacheToken` leaves.
unfoldable pub mint_and_cache : (Text → Text) → Text → TokenManager → TokenManager
mint_and_cache answer object_name tokens = keep_token object_name (minted answer tokens) tokens

module _ {V : Type 0} (q : Variants V) (w : Exchange V) where
  -- The first sending, with what was done before it.
  unfoldable pub send_first : Text → TokenManager → List Act → Outcome V
  send_first token tokens acts = record {
    value = (w.first_answer token).0;
    error = (w.first_answer token).1;
    tokens = tokens;
    acts = acts ++ calls token ∷ [];
  }

  -- One retry with a new token, where the module refused the first.
  unfoldable pub exchange_again : Call → Outcome V → Outcome V
  exchange_again call o =
      let dropped = (remove_token call.object_name o.tokens).1 in
      let fresh = minted w.second_token dropped in
      let kept = mint_and_cache w.second_token call.object_name dropped in
      let asked = o.acts ++ asks call.timeout_ms ∷ [] in
      if is_empty fresh then record o { tokens = kept; acts = asked } else record {
        value = (w.second_answer fresh).0;
        error = (w.second_answer fresh).1;
        tokens = kept;
        acts = asked ++ calls fresh ∷ [];
      }

  -- A refusal never goes to the caller.
  unfoldable pub collapse : Call → Outcome V → Outcome V
  collapse call o =
      if is_unauthorized_sentinel q o.value
      then record o { value = q.invalid; error = unauthorized call.object_name }
      else o

  unfoldable pub settle : Bool → Call → Outcome V → Outcome V
  settle eligible call o =
      collapse call
        (if eligible && is_unauthorized_sentinel q o.value then exchange_again call o else o)

  -- The sending once the object is there: with the token that is there now, or a new one.
  unfoldable pub send_acquired : Call → TokenManager → Outcome V
  send_acquired call tokens =
      let token = get_token call.object_name tokens in
      if is_empty token
      then send_first (minted w.first_token tokens)
          (mint_and_cache w.first_token call.object_name tokens)
          (asks (remaining call.timeout_ms w.elapsed_ms) ∷ [])
      else send_first token tokens []

  -- Behind the wait for the object: it is there, or the call fails at once.
  unfoldable pub after_acquire : Bool → Call → Client → Outcome V
  after_acquire true call c =
      settle (is_eligible call.object_name c) call
        (send_acquired call (w.after_wait c.token_manager))
  after_acquire false call c = record {
    value = q.invalid;
    error = acquire_failed call.object_name;
    tokens = w.after_wait c.token_manager;
    acts = [];
  }

  -- `invokeRemoteMethod`
  unfoldable pub invoke_remote_method : Call → Client → Outcome V
  invoke_remote_method call c =
      let token = get_token call.object_name c.token_manager in
      if is_empty token && is_eligible call.object_name c
      then after_acquire w.acquirable call c
      else settle (is_eligible call.object_name c) call (send_first token c.token_manager [])
