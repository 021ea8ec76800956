-- ===== src/PlainObject/Calls.antt =====
-- The calls of a plain client object and what answers them
-- (cpp/implementations/plain/plain_logos_object.cpp).
use logos_protocol.Base.{
  ℕ, Bool, true, false, none, some, List, [], ◌∷◌, ◌++◌, Text, codes, text_key, nat_eq, lookup, put,
  erase, ltb, if◌then◌else◌,
}
use logos_protocol.Tokens.{is_empty}
use logos_protocol.Client.{
  CallError, no_error, call_error_transport, call_error_timeout, call_error_from_wire,
}
use logos_protocol.Client.Status.{Variants}
use logos_protocol.PlainObject.{
  pending_call, deferred_fallback_ms, AsyncCall, CallState, post, refuse, cancel_pending, arm_timer,
  send_call, Run, member, delete, emplace_number, park_completion, take_completion,
  drop_unclaimed_if_idle, begin_sync, end_sync, call_error_released,
}

-- A reply: a failure with its code and text, or a value.
pub data Reply (V : Type 0) : Type 0 where
  failed : Text → Text → Reply V
  answered : V → Reply V

-- What happens to an object: calls over an open or a closed connection, replies, deferred answers,
-- deadlines with the time that they report, blocking calls, and the release.
pub data Event (V : Type 0) : Type 0 where
  starts : ℕ → AsyncCall → Bool → Event V
  replies : ℕ → Reply V → Event V
  completes : Text → V → Event V
  expires : ℕ → ℕ → Event V
  enters : Event V
  awaits : Text → Event V
  leaves : Event V
  releases : Event V

module _ {V : Type 0} where
  -- What `deliver` drops under the mutex.
  unfoldable pub unregister : ℕ → AsyncCall → CallState V → CallState V
  unregister n call s = drop_unclaimed_if_idle (record s {
    inflight = delete n s.inflight;
    deferred = if is_empty call.call_id then s.deferred else erase call.call_id s.deferred;
  })

  -- `claim`, and the delivery by who wins it.
  unfoldable pub claim : ℕ → AsyncCall → V → CallError → CallState V → Run V
  claim n call v err s = if member n s.delivered then (s, []) else (
    record s { delivered = n ∷ s.delivered },
    post n call.callback v err ∷ cancel_pending n ∷ [],
  )

  -- `AsyncCall::deliver`
  unfoldable pub deliver : ℕ → AsyncCall → V → CallError → CallState V → Run V
  deliver n call v err s = claim n call v err (unregister n call s)

  -- `completeEvent`, the subscriber of `subscribeToCompletions`.
  unfoldable pub deliver_number : ℕ → V → CallError → CallState V → Run V
  deliver_number n v err s = elim (lookup n s.calls) [
    | none ↦ (s, [])
    | some call ↦ deliver n call v err s
  ]

  unfoldable pub on_complete : Text → V → CallState V → Run V
  on_complete id v s = elim (lookup id s.deferred) [
    | none ↦ (park_completion id v s, [])
    | some n ↦ deliver_number n v no_error (record s { deferred = erase id s.deferred })
  ]

module _ {V : Type 0} (q : Variants V) where
  -- The call's registration, on an open connection: refused once the object is stopping.
  unfoldable pub register_call : Bool → ℕ → AsyncCall → CallState V → Run V
  register_call true n call s =
      deliver n call q.invalid (call_error_released call.object_name call.method) s
  register_call false n call s =
      (record s { inflight = emplace_number n s.inflight }, send_call n ∷ [])

  -- `callAsync`
  unfoldable pub call_async : ℕ → AsyncCall → Bool → CallState V → Run V
  call_async n call is_open s =
      if is_open
      then (let r = register_call s.stopping n call (record s { calls = put n call s.calls }) in
          (r.0, arm_timer n call.timeout_ms ∷ r.1))
      else (
        s,
        refuse call.callback (
              call_error_transport call.object_name
                (codes "connection to '" ++ call.object_name ++ codes "' is not open"))
            ∷ [],
      )

  -- A deferred answer that has not come: the call waits for it.
  unfoldable pub defer : ℕ → AsyncCall → Text → CallState V → Run V
  defer n call id s = (
    record s {
      calls = put n (record call { call_id = id }) s.calls;
      deferred = put id n s.deferred;
    },
    arm_timer n (if ltb 0 call.timeout_ms then call.timeout_ms else deferred_fallback_ms) ∷ [],
  )

  unfoldable pub defer_unless : Bool → ℕ → AsyncCall → Text → CallState V → Run V
  defer_unless true n call id s =
      deliver n call q.invalid (call_error_released call.object_name call.method) s
  defer_unless false n call id s = defer n call id s

  unfoldable pub on_pending : ℕ → AsyncCall → Text → CallState V → Run V
  on_pending n call id s = elim (lookup id s.completions) [
    | some v ↦ deliver n call v no_error (take_completion id s)
    | none ↦ defer_unless s.stopping n call id s
  ]

  unfoldable pub on_value : ℕ → AsyncCall → V → CallState V → Run V
  on_value n call v s = elim (pending_call q v) [
    | none ↦ deliver n call v no_error s
    | some id ↦ if member n s.delivered then (s, []) else on_pending n call id s
  ]

  -- The handler that `callAsync` gives to `sendCallAsync`.
  unfoldable pub on_reply_to : ℕ → AsyncCall → Reply V → CallState V → Run V
  on_reply_to n call (failed code message) s =
      deliver n call q.invalid (call_error_from_wire call.object_name code message) s
  on_reply_to n call (answered v) s = on_value n call v s

  unfoldable pub on_reply : ℕ → Reply V → CallState V → Run V
  on_reply n r s = elim (lookup n s.calls) [ none ↦ (s, []) | some call ↦ on_reply_to n call r s ]

  -- The timer's handler.
  unfoldable pub on_expiry : ℕ → ℕ → CallState V → Run V
  on_expiry n ms s = elim (lookup n s.calls) [
    | none ↦ (s, [])
    | some call ↦ deliver n call q.invalid (call_error_timeout call.object_name call.method ms) s
  ]

  unfoldable pub abandon_number : ℕ → CallState V → Run V
  abandon_number n s = elim (lookup n s.calls) [
    | none ↦ (s, [])
    | some call ↦ deliver n call q.invalid (call_error_released call.object_name call.method) s
  ]

  unfoldable pub abandon_all : List ℕ → CallState V → Run V
  abandon_all [] s = (s, [])
  abandon_all (n ∷ ns) s =
      let one = abandon_number n s in let rest = abandon_all ns one.0 in (rest.0, one.1 ++ rest.1)

  -- `stopAndCancelCalls`
  unfoldable pub stop_and_cancel_calls : CallState V → Run V
  stop_and_cancel_calls s = abandon_all s.inflight (record s {
    stopping = true;
    inflight = [];
    deferred = [];
    completions = [];
    completion_order = [];
  })

  unfoldable pub handle : Event V → CallState V → Run V
  handle (starts n call is_open) s = call_async n call is_open s
  handle (replies n r) s = on_reply n r s
  handle (completes id v) s = on_complete id v s
  handle (expires n ms) s = on_expiry n ms s
  handle enters s = (begin_sync s, [])
  handle (awaits id) s = (take_completion id s, [])
  handle leaves s = (end_sync s, [])
  handle releases s = stop_and_cancel_calls s

  unfoldable pub handle_all : List (Event V) → CallState V → Run V
  handle_all [] s = (s, [])
  handle_all (e ∷ es) s =
      let one = handle e s in let rest = handle_all es one.0 in (rest.0, one.1 ++ rest.1)
