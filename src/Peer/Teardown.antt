-- ===== src/Peer/Teardown.antt =====
-- A call and its reply, and what a peer does once it has failed
-- (cpp/implementations/plain/rpc_peer.cpp).
use logos_protocol.Base.{
  ℕ, ◌≡◌, refl, false, some, List, [], ◌∷◌, arith, Text, nat_eq, lookup, erase, insert,
  lookup-insert_self, lookup-erase_self,
}
use logos_protocol.Peer.{
  Peer, answer, emit, send_call_async, register_call, take_call, dispatch_incoming, fail, sweep,
  stopped_result, cancel_pending,
}
use logos_protocol.Message.{AnyMessage, CallMessage, ResultMessage}

erase-insert : (k v : ℕ) (m : List (ℕ × ℕ)) → erase k (insert k v m) ≡ erase k m
unfolding erase insert
erase-insert k v [] = ground arith
erase-insert k v ((j, w) ∷ m) = ground (arith, erase-insert k v m)

-- A call on a running peer writes its message, and the reply with its id invokes its handler once
-- with that reply; a second reply, or a reply after `cancelPending`, invokes nothing.
pub reply_once :
    (msg : CallMessage) (h : ℕ) (p : Peer) (r second : ResultMessage)
    → p.stopped ≡ false
    → r.id ≡ msg.id
    → second.id ≡ msg.id
    → let (sent, written) = send_call_async msg (some h) p in
      let (replied, effects) = dispatch_incoming (AnyMessage.result r) sent in
      (written ≡ emit (AnyMessage.call msg) ∷ [])
      × (effects ≡ answer h r ∷ [])
      × ((dispatch_incoming (AnyMessage.result second) replied).1 ≡ [])
      × ((dispatch_incoming (AnyMessage.result r) (cancel_pending msg.id sent)).1 ≡ [])
unfolding send_call_async register_call dispatch_incoming take_call cancel_pending
reply_once msg h p r second run e f = ground (
  arith,
  lookup-insert_self msg.id h p.pending_calls,
  lookup-erase_self msg.id (insert msg.id h p.pending_calls),
)

-- Once a running peer has failed, failing again does nothing, and every call is answered at once as
-- closed: no message is written, and nothing is left pending.
pub send_call_async-fail :
    (msg : CallMessage) (h : ℕ) (reason again : Text) (p : Peer)
    → p.stopped ≡ false
    → let failed = (fail reason p).0 in
      (fail again failed ≡ (failed, []))
      × (send_call_async msg (some h) failed ≡ (failed, answer h (stopped_result msg.id) ∷ []))
unfolding fail sweep send_call_async register_call take_call insert erase lookup
send_call_async-fail msg h reason again p run = rw (run) (refl, ground arith)

-- A call on a running peer writes its message, and the reply with its id invokes its handler once
-- with that reply; a second reply, or a reply after `cancelPending`, invokes nothing. Once the peer
-- has failed, failing again does nothing, and a call is answered at once as closed: no message is
-- written, and nothing is left pending.
pub send_call_async_answers :
    (msg : CallMessage) (h : ℕ) (reason again : Text) (p : Peer) (r second : ResultMessage)
    → p.stopped ≡ false
    → r.id ≡ msg.id
    → second.id ≡ msg.id
    → let (sent, written) = send_call_async msg (some h) p in
      let (replied, effects) = dispatch_incoming (AnyMessage.result r) sent in
      let failed = (fail reason p).0 in
      (written ≡ emit (AnyMessage.call msg) ∷ [])
      × (effects ≡ answer h r ∷ [])
      × ((dispatch_incoming (AnyMessage.result second) replied).1 ≡ [])
      × ((dispatch_incoming (AnyMessage.result r) (cancel_pending msg.id sent)).1 ≡ [])
      × (fail again failed ≡ (failed, []))
      × (send_call_async msg (some h) failed ≡ (failed, answer h (stopped_result msg.id) ∷ []))
send_call_async_answers msg h reason again p r second run e f =
    let (written, once, twice, cancelled) = reply_once msg h p r second run e f in
    let (idle, closed) = send_call_async-fail msg h reason again p run in
    (written, once, twice, cancelled, idle, closed)
