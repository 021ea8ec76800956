-- ===== src/PlainObject.antt =====
-- The client object of the plain transport (cpp/implementations/plain/plain_logos_object.cpp): its
-- calls with a callback, the deferred answers of providers, and what is parked for calls that have
-- not yet asked for it (`CallState`, `AsyncCall`).
--
-- A call is named by its number, which `RpcPeer::nextId` gives. A section under `CallState::mu` and a
-- test of `AsyncCall::delivered` are one step, and so is the delivery that follows. The guards that
-- report the use of a released handle, and the queue that runs a callback, are left out.
pub mod Calls
pub mod Claims
pub mod Deliveries
pub mod Answered
pub mod Lifetime
pub mod Events
pub mod Blocking
pub mod Disconnected
use logos_protocol.Base.{
  ℕ, ◌+◌, ◌-◌, Bool, true, false, not, ◌&&◌, ◌||◌, Option, none, some, List, [], ◌∷◌, ◌++◌, length,
  any_of, Text, codes, text_eq, text_key, nat_eq, lookup, put, erase, ltb, ◌==◌, if◌then◌else◌,
}
use logos_protocol.Tokens.{is_empty}
use logos_protocol.Client.{CallError, call_error_transport}
use logos_protocol.Client.Status.{Variants, or_invalid}

-- `isPendingCallSentinel` (cpp/logos_async_dispatch.h): the id of the deferred answer.
abbrev pub pending_call_key : Text
pending_call_key = codes "__logos_pending_call__"

abbrev pub unless_empty : Option Text → Option Text
unless_empty none = none
unless_empty (some id) = if is_empty id then none else some id

module _ {V : Type 0} (q : Variants V) where
  abbrev pub pending_entry : Option (List (Text × V)) → Option Text
  pending_entry none = none
  pending_entry (some m) =
      if length m == 1
      then unless_empty (q.as_string (or_invalid q (lookup pending_call_key m)))
      else none

  unfoldable pub pending_call : V → Option Text
  pending_call v = pending_entry (q.to_map v)

abbrev pub parked_completion_cap : ℕ
parked_completion_cap = 512

abbrev pub deferred_fallback_ms : ℕ
deferred_fallback_ms = 30000

pub record AsyncCall : Type 0 where
  pub object_name : Text
  pub method : Text
  pub timeout_ms : ℕ
  pub callback : ℕ
  pub call_id : Text

-- `calls` are the `AsyncCall` objects, and `delivered` the numbers of those that are claimed.
pub record CallState (V : Type 0) : Type 0 where
  pub completions : List (Text × V)
  pub completion_order : List Text
  pub sync_outstanding : ℕ
  pub inflight : List ℕ
  pub deferred : List (Text × ℕ)
  pub stopping : Bool
  pub calls : List (ℕ × AsyncCall)
  pub delivered : List ℕ

pub data Effect (V : Type 0) : Type 0 where
  post : ℕ → ℕ → V → CallError → Effect V
  refuse : ℕ → CallError → Effect V
  cancel_pending : ℕ → Effect V
  arm_timer : ℕ → ℕ → Effect V
  send_call : ℕ → Effect V

abbrev pub Run : Type 0 → Type 0
Run V = CallState V × List (Effect V)

unfoldable pub member : ℕ → List ℕ → Bool
member n ns = any_of (λ m. m == n) ns

unfoldable pub delete : ℕ → List ℕ → List ℕ
delete n [] = []
delete n (m ∷ ms) = let rest = delete n ms in if m == n then rest else m ∷ rest

-- `inflight.emplace`
unfoldable pub emplace_number : ℕ → List ℕ → List ℕ
emplace_number n ns = if member n ns then ns else n ∷ ns

abbrev pub is_nil {ℓ} : {A : Type ℓ} → List A → Bool
is_nil [] = true
is_nil (x ∷ xs) = false

-- `std::find` and `erase` in `completionOrder`
unfoldable pub remove_first : Text → List Text → List Text
remove_first id [] = []
remove_first id (other ∷ order) =
    let rest = remove_first id order in if text_eq other id then order else other ∷ rest

module _ {V : Type 0} where
  abbrev pub initial : CallState V
  initial = record {
    completions = [];
    completion_order = [];
    sync_outstanding = 0;
    inflight = [];
    deferred = [];
    stopping = false;
    calls = [];
    delivered = [];
  }

  unfoldable pub busy : CallState V → Bool
  busy s = ltb 0 s.sync_outstanding || (not (is_nil s.inflight) || not (is_nil s.deferred))

  abbrev pub is_parked : Option V → Bool
  is_parked none = false
  is_parked (some v) = true

  -- The loop of `parkCompletion`, which drops the oldest.
  unfoldable pub trim : List Text → List (Text × V) → List Text × List (Text × V)
  trim [] parked = ([], parked)
  trim (id ∷ order) parked =
      let rest = trim order (erase id parked) in
      if ltb parked_completion_cap (length (id ∷ order)) then rest else (id ∷ order, parked)

  unfoldable pub park_new : Text → V → CallState V → CallState V
  park_new id v s =
      let kept = trim (s.completion_order ++ id ∷ []) (put id v s.completions) in
      record s { completion_order = kept.0; completions = kept.1 }

  -- `parkCompletion`
  unfoldable pub park_completion : Text → V → CallState V → CallState V
  park_completion id v s =
      if busy s
      then (if is_parked (lookup id s.completions)
          then record s { completions = put id v s.completions }
          else park_new id v s)
      else s

  -- `takeCompletion`: what it leaves; what it returns is `lookup id s.completions`.
  unfoldable pub take_completion : Text → CallState V → CallState V
  take_completion id s =
      if is_parked (lookup id s.completions)
      then record s {
        completions = erase id s.completions;
        completion_order = remove_first id s.completion_order;
      }
      else s

  -- `dropUnclaimedIfIdle`
  unfoldable pub drop_unclaimed_if_idle : CallState V → CallState V
  drop_unclaimed_if_idle s =
      if busy s then s else record s { completions = []; completion_order = [] }

  -- `SyncCallScope`, and its destructor.
  unfoldable pub begin_sync : CallState V → CallState V
  begin_sync s = record s { sync_outstanding = s.sync_outstanding + 1 }

  unfoldable pub end_sync : CallState V → CallState V
  end_sync s = drop_unclaimed_if_idle (record s { sync_outstanding = s.sync_outstanding - 1 })

-- `callErrorReleased`
unfoldable pub call_error_released : Text → Text → CallError
call_error_released object_name method = call_error_transport object_name (
    codes "call to '"
    ++ object_name
    ++ codes "."
    ++ method
    ++ codes "' was abandoned: the object was released while the call was in flight")
