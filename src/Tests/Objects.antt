-- ===== src/Tests/Objects.antt =====
-- A client object of the plain transport at concrete inputs.
use logos_protocol.Base.{
  ℕ, ◌≤◌, ◌≡◌, refl, true, false, map, inl, arith, ◌==◌, if◌then◌else◌, List, [], ◌∷◌, codes,
  lookup, put, ℕ_discrete, text_discrete, erase, text_eq, some, Option,
}
use logos_protocol.PlainObject.{
  AsyncCall, CallState, pending_call_key, initial, pending_call, member, busy, delete,
  drop_unclaimed_if_idle, emplace_number, park_completion, park_new,
}
use logos_protocol.PlainObject.Calls.{
  Event, Reply, starts, replies, completes, expires, releases, failed, answered, handle_all, handle,
  on_reply, stop_and_cancel_calls, abandon_all, call_async, register_call, on_complete, on_expiry,
  on_reply_to, on_value, abandon_number, claim, defer, defer_unless, deliver, deliver_number,
  on_pending, unregister,
}
use logos_protocol.PlainObject.Claims.{posts, is_known}
use logos_protocol.PlainObject.Answered.{posted_at_most_once, released_answers}
use logos_protocol.Value.{RpcList}
use logos_protocol.Message.{EventMessage}
use logos_protocol.Peer.{init, Effect}
use logos_protocol.Peer.Subscriptions.{subscribe, live_after}
use logos_protocol.Peer.Refinement.{subscribers}
use logos_protocol.PlainObject.Lifetime.{
  Threads, Reachable, start, step, enter, entered, leave, left, release_begins, release_ends,
  holders, deleted_once, take_reference, count_call, uncount_call, drop_reference, mark_released,
}
use logos_protocol.PlainObject.Blocking.{SyncCall, Balanced, call_sync, call_sync-Balanced}
use logos_protocol.PlainObject.Events.{EventHandle, disconnect_events}
use logos_protocol.PlainObject.Disconnected.{
  Act, own, foreign, act_all, commands_of, own_ids, without_each, reached,
  disconnect_events-reached,
}
use logos_protocol.Tests.Clients.{Sample, string, no_entries, entry, samples}

abbrev call : AsyncCall
call = record {
  object_name = codes "chat";
  method = codes "send";
  timeout_ms = 1000;
  callback = 5;
  call_id = [];
}

-- The answer to call 7 is deferred, and comes after its deadline; call 8 is in flight when the object
-- is released, and its reply comes later.
abbrev history : List (Event Sample)
history =
    starts 7 call true
    ∷ replies 7 (answered (entry (codes "__logos_pending_call__") (string (codes "d1")) no_entries))
    ∷ expires 7 1000
    ∷ completes (codes "d1") (string (codes "late"))
    ∷ starts 8 call true
    ∷ releases
    ∷ replies 8 (failed (codes "TRANSPORT_CLOSED") [])
    ∷ []

posted_at_most_once_example : posts 7 (handle_all samples history initial).1 ≤ 1
posted_at_most_once_example = posted_at_most_once samples history 7

released_answers_example : ◌≡◌ {A = ℕ} (posts 8 (handle_all samples history initial).1) 1
unfolding handle_all handle on_reply stop_and_cancel_calls abandon_all call_async register_call
    on_complete on_expiry on_reply_to on_value abandon_number claim defer defer_unless deliver
    deliver_number on_pending unregister pending_call member busy delete drop_unclaimed_if_idle
    emplace_number park_completion park_new is_known lookup put ℕ_discrete text_discrete erase
    text_eq
released_answers_example = released_answers samples history 8 refl refl

-- Two threads: one enters before the owner releases the object, and leaves after it.
abbrev survived : Threads
survived = record {
  object = record { live_refs = 0; calls_in_flight = 0; released = true; deletions = 1 };
  entering = 0;
  inside = 0;
  leaving = 0;
  owned = false;
}

outlived : Reachable survived
unfolding take_reference count_call uncount_call drop_reference mark_released
outlived =
    step
      (step
        (step
          (step (step (step start (enter (inl refl))) (entered (omega arith)))
            (release_begins refl))
          (release_ends refl refl))
        (leave (omega arith)))
      (left (omega arith))

deleted_once_example :
    (survived.object.live_refs ≡ holders survived)
    × (survived.object.calls_in_flight ≡ survived.inside)
    × (survived.object.deletions ≡ (if holders survived == 0 then 1 else 0))
deleted_once_example = deleted_once outlived

abbrev shared_use : List Act
shared_use =
    own (codes "msg") 10
    ∷ foreign (subscribe (record { object = codes "chat"; event_name = codes "msg" }) 20)
    ∷ own [] 11
    ∷ []

abbrev news : EventMessage
news = record { object = codes "chat"; event_name = codes "msg"; args = RpcList.nil }

abbrev new_handle : EventHandle
new_handle = record { object_name = codes "chat"; subs = [] }

disconnect_events-reached_example :
    let (h, conn) = act_all shared_use (new_handle, some (init false)) in
    reached news (disconnect_events h conn).1
    ≡ map
        (λ s. Effect.deliver s.callback news)
        (subscribers news (
          without_each
            (own_ids shared_use 1)
            (live_after (commands_of (codes "chat") shared_use) 1 [])))
disconnect_events-reached_example =
    disconnect_events-reached false (codes "chat") shared_use news (omega arith)

-- A blocking call whose answer is deferred, and comes in time.
abbrev blocked : SyncCall
blocked = record {
  object_name = codes "chat";
  method = codes "send";
  timeout_ms = 1000;
  number = 7;
}

abbrev defers : CallState Sample → Option (Reply Sample) × CallState Sample
defers s = (some (answered (entry pending_call_key (string (codes "d1")) no_entries)), s)

abbrev comes_in_time : CallState Sample → CallState Sample
comes_in_time s = record s {
  completions = (codes "d1", string (codes "done")) ∷ [];
  completion_order = codes "d1" ∷ [];
}

call_sync-Balanced_example :
    Balanced samples true initial (call_sync samples comes_in_time defers true blocked initial)
call_sync-Balanced_example =
    call_sync-Balanced samples comes_in_time defers true blocked initial (λ s. refl) (λ s. refl)
