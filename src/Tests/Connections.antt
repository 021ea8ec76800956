-- ===== src/Tests/Connections.antt =====
-- The peer at concrete inputs.
use logos_protocol.Base.{
  ◌+◌, ◌≡◌, refl, true, false, inl, none, some, List, [], ◌∷◌, arith, map, ◌++◌, codes, lookup,
  count, keys, put, ℕ_discrete, nat_eq,
}
use logos_protocol.Value.{RpcValue, RpcList}
use logos_protocol.Message.{AnyMessage, CallMessage, ResultMessage, EventMessage}
use logos_protocol.Peer.{
  answer, emit, deliver, init, send_call_async, dispatch_incoming, fail, cancel_pending,
  stopped_result, register_call, sweep,
}
use logos_protocol.Peer.Subscriptions.{Command, subscribe, unsubscribe, perform_all, live_after}
use logos_protocol.Peer.Refinement.{subscribers, dispatch_incoming-event}
use logos_protocol.Peer.Hosted.{hosted, wanted, hosted_iff_live}
use logos_protocol.Peer.Subscriptions.{of_key}
use logos_protocol.Peer.Race.{
  System, registered, saw_stopped, reclaimed, Failing, swept, register, reread_stopped, reclaim,
  flag, sweep_all, Reach, here, next, start, phase_of, begun, move_to, extract,
}
use logos_protocol.Peer.AnsweredOnce.{handler_once, answered_after_sweep}
use logos_protocol.Peer.Teardown.{send_call_async_answers}

abbrev call_one : CallMessage
call_one = record {
  id = 1;
  auth_token = codes "t";
  object = codes "chat";
  method = codes "ping";
  args = RpcList.nil;
  caller = [];
}

abbrev reply : ResultMessage
reply = record { id = 1; ok = true; value = RpcValue.null; err = []; err_code = [] }

-- Two subscribers to one event and one to every event, of which the first is withdrawn.
abbrev history : List Command
history =
    subscribe (record { object = codes "chat"; event_name = codes "msg" }) 10
    ∷ subscribe (record { object = codes "chat"; event_name = codes "msg" }) 11
    ∷ subscribe (record { object = codes "chat"; event_name = [] }) 12
    ∷ unsubscribe 1
    ∷ []

abbrev received : EventMessage
received = record { object = codes "chat"; event_name = codes "msg"; args = RpcList.nil }

dispatch_incoming-event_example :
    let p = (perform_all history (init false)).0 in
    dispatch_incoming (AnyMessage.event received) p
    ≡ (p, map (λ s. deliver s.callback received) (subscribers received (live_after history 1 [])))
dispatch_incoming-event_example = dispatch_incoming-event false history received (omega arith)

hosted_iff_live_example :
    hosted (codes "chat", codes "msg") (perform_all history (init false)).1 false
    ≡ wanted (of_key (codes "chat", codes "msg") (live_after history 1 []))
hosted_iff_live_example = hosted_iff_live false history (codes "chat", codes "msg") (omega arith)

-- The race that the comment of `sendCallAsync` draws: the connection fails and sweeps an empty map,
-- then the call registers, reads `m_stopped` again and takes its registration back.
abbrev flagged_state : System
flagged_state = record start {
  peer = record start.peer { stopped = true };
  failing = Failing.flagged;
}

abbrev swept_state : System
swept_state = record flagged_state {
  peer = sweep flagged_state.peer;
  failing = swept;
  settled = keys flagged_state.peer.pending_calls ++ flagged_state.settled;
}

abbrev registered_state : System
registered_state =
    move_to 1 registered (record swept_state { peer = register_call 1 7 swept_state.peer })

abbrev final_state : System
final_state = move_to 1 reclaimed (extract 1 (move_to 1 saw_stopped registered_state))

raced : Reach start final_state
unfolding phase_of lookup move_to put register_call sweep ℕ_discrete
raced =
    next
      (next
        (next (next (next here (flag start refl)) (sweep_all flagged_state refl))
          (register swept_state 1 7 refl))
        (reread_stopped registered_state 1 refl refl))
      (reclaim (move_to 1 saw_stopped registered_state) 1 refl)

handler_once_example :
    count 1 (keys final_state.peer.pending_calls) + count 1 final_state.settled
    ≡ begun (phase_of 1 final_state)
handler_once_example = handler_once final_state 1 raced

answered_after_sweep_example :
    (count 1 final_state.settled ≡ 1) × (lookup 1 final_state.peer.pending_calls ≡ none)
unfolding phase_of lookup move_to put register_call sweep extract ℕ_discrete
answered_after_sweep_example = answered_after_sweep final_state 1 raced refl (inl refl)

send_call_async_answers_example :
    let (sent, written) = send_call_async call_one (some 7) (init false) in
    let (replied, effects) = dispatch_incoming (AnyMessage.result reply) sent in
    let failed = (fail (codes "gone") (init false)).0 in
    (written ≡ emit (AnyMessage.call call_one) ∷ [])
    × (effects ≡ answer 7 reply ∷ [])
    × ((dispatch_incoming (AnyMessage.result reply) replied).1 ≡ [])
    × ((dispatch_incoming (AnyMessage.result reply) (cancel_pending 1 sent)).1 ≡ [])
    × (fail (codes "again") failed ≡ (failed, []))
    × (send_call_async call_one (some 7) failed ≡ (failed, answer 7 (stopped_result 1) ∷ []))
send_call_async_answers_example =
    send_call_async_answers call_one 7 (codes "gone") (codes "again") (init false) reply reply refl
      refl refl
