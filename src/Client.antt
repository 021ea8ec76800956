-- ===== src/Client.antt =====
-- The client of a module (cpp/logos_api_client.cpp): calls to it, the tokens that they need, the
-- requests for a token that concurrent calls share, and the one retry of a call whose token was
-- refused. The errors are those of cpp/logos_call_error.h.
--
-- A callback and a list of arguments are each a number that names it. What a call sends or answers
-- is an `Effect`; answers arrive as events of their own. The hop to the owner's thread, a call
-- without a callback, the destruction of a client with calls in flight, and the log are left out.
pub mod Status
pub mod Blocking
pub mod Outcomes
pub mod Handshake
pub mod Events
pub mod Underway
pub mod Coalesced
pub mod OneHandshake
pub mod Ledger
pub mod Balances
pub mod Operations
pub mod AnsweredOnce
use logos_protocol.Base.{
  ℕ, ◌+◌, ◌/◌, ◌%◌, ltb, Bool, List, [], ◌∷◌, ◌++◌, Text, codes, text_eq, text_key, lookup, not,
  ◌&&◌, ◌||◌, if◌then◌else◌,
}
use logos_protocol.Tokens.{TokenManager, is_empty, get_token}

pub record CallError : Type 0 where
  pub code : Text
  pub message : Text
  pub origin : Text

-- `CallError{}`, also what `clear` leaves.
abbrev pub no_error : CallError
no_error = record { code = []; message = []; origin = [] }

-- `ok`
unfoldable pub is_ok : CallError → Bool
is_ok e = is_empty e.code

unfoldable pub call_error_object_unavailable : Text → Text → CallError
call_error_object_unavailable origin detail = record {
  code = codes "object_unavailable";
  message = detail;
  origin = origin;
}

unfoldable pub call_error_transport : Text → Text → CallError
call_error_transport origin detail = record {
  code = codes "transport_error";
  message = detail;
  origin = origin;
}

unfoldable pub call_error_call_failed : Text → Text → CallError
call_error_call_failed origin detail = record {
  code = codes "call_failed";
  message = detail;
  origin = origin;
}

-- `std::to_string` of an `int` that is not negative: ten digits are enough.
unfoldable pub digits_of : ℕ → ℕ → Text
digits_of ℕ.zero n = []
digits_of (ℕ.suc fuel) n =
    let rest = digits_of fuel (n / 10) in
    if ltb n 10 then (48 + n) ∷ [] else rest ++ (48 + n % 10) ∷ []

unfoldable pub call_error_timeout : Text → Text → ℕ → CallError
call_error_timeout origin method timeout_ms = record {
  code = codes "timeout";
  message =
      codes "call to '"
      ++ origin
      ++ codes "."
      ++ method
      ++ codes "' timed out after "
      ++ digits_of 10 timeout_ms
      ++ codes "ms";
  origin = origin;
}

unfoldable pub call_error_from_wire : Text → Text → Text → CallError
call_error_from_wire origin wire_code message =
    let detail = if is_empty message then wire_code else message in
    if text_eq wire_code (codes "MODULE_NOT_LOADED")
    then call_error_object_unavailable origin detail
    else if text_eq wire_code (codes "TRANSPORT_CLOSED")
        || text_eq wire_code (codes "TRANSPORT_ERROR")
    then call_error_transport origin detail
    else call_error_call_failed origin detail

-- The two errors that the client gives itself.
unfoldable pub acquire_failed : Text → CallError
acquire_failed object_name = record {
  code = codes "object_unavailable";
  message =
      codes "failed to acquire remote object '"
      ++ object_name
      ++ codes "' (module not loaded, not published, or transport failure)";
  origin = object_name;
}

unfoldable pub unauthorized : Text → CallError
unauthorized object_name = record {
  code = codes "unauthorized";
  message =
      codes "call to '"
      ++ object_name
      ++ codes "' rejected: token not recognized (re-exchange failed)";
  origin = object_name;
}

abbrev pub capability_module : Text
capability_module = codes "capability_module"

-- A call, with the retries that it has left.
pub record Call : Type 0 where
  pub callback : ℕ
  pub object_name : Text
  pub method_name : Text
  pub args : ℕ
  pub timeout_ms : ℕ
  pub retries_left : ℕ

-- The closure over a wait for an object: `done` says that it has answered or been given up.
-- Waits are never dropped, since late answers look at them.
pub record Readiness : Type 0 where
  pub done : Bool
  pub awaited : Text
  pub subscription : ℕ
  pub budget_ms : ℕ

-- `waits`, `minting` and `flights` are what closures keep: the waits for an object, the objects that
-- a token is being requested for, and the calls that were sent. `pending_readiness` says which wait
-- an object has.
pub record Client : Type 0 where
  pub origin_module : Text
  pub has_capability_consumer : Bool
  pub token_manager : TokenManager
  pub pending_handshakes : List (Text × List Call)
  pub pending_readiness : List (Text × ℕ)
  pub waits : List Readiness
  pub minting : List Text
  pub flights : List Call

-- `LogosAPIClient::LogosAPIClient`
abbrev pub connect : Text → Text → TokenManager → Client
connect module_to_talk_to origin_module tokens = record {
  origin_module = origin_module;
  has_capability_consumer = not (text_eq module_to_talk_to capability_module);
  token_manager = tokens;
  pending_handshakes = [];
  pending_readiness = [];
  waits = [];
  minting = [];
  flights = [];
}

-- `eligible`
unfoldable pub is_eligible : Text → Client → Bool
is_eligible object_name c = not (text_eq object_name capability_module) && c.has_capability_consumer
