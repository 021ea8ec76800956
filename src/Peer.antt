-- ===== src/Peer.antt =====
-- The transport-neutral peer of a connection (cpp/implementations/plain/rpc_peer.{h,cpp}): what it
-- waits for, whom it notifies, and what it does on each message and each call.
--
-- A handler, a promise and a callback are each a number that names the closure. What a call does
-- outside the peer (invoking a closure, writing a message, calling the dispatch handler) is an
-- `Effect`, in the order of the calls. Each operation is composed of the steps that it takes under
-- `m_mu` and of its reads and writes of `m_stopped`, which Peer/Race interleaves.
pub mod Subscriptions
pub mod Refinement
pub mod Hosted
pub mod Race
pub mod Teardown
pub mod AnsweredOnce
use logos_protocol.Base.{
  ℕ, ◌+◌, ◌%◌, ◌^◌, ◌≡◌, refl, ap₂, Bool, true, false, not, Option, none, some, List, [], ◌∷◌, ◌++◌,
  map, Text, codes, text_eq, text_discrete, Eq, nat_eq, lookup, put, erase, insert, ◌==◌,
  if◌then◌else◌,
}
use logos_protocol.Value.{RpcValue}
use logos_protocol.Message.{
  AnyMessage, CallMessage, ResultMessage, SubscribeMessage, UnsubscribeMessage, EventMessage,
  TokenMessage, MethodsMessage, MethodsResultMessage,
}

-- object, event
abbrev pub EventKey : Type 0
EventKey = Text × Text

unfoldable pub event_key_discrete : Discrete EventKey
event_key_discrete a b = elim (text_discrete a.0 b.0) [
  | yes p ↦ elim (text_discrete a.1 b.1) [
    | yes q ↦ yes (ap₂ (λ x y. (x, y)) p q)
    | no q ↦ no (λ e. q (cc))
  ]
  | no p ↦ no (λ e. p (cc))
]

instance abbrev pub event_key : Eq EventKey
event_key = record { dec = event_key_discrete }

pub record EventSubscription : Type 0 where
  pub id : ℕ
  pub callback : ℕ

-- The fields of `RpcPeer` that `m_mu` guards, the two atomics `m_nextSubId` and `m_stopped`, and
-- whether there is an `IncomingCallHandler`.
pub record Peer : Type 0 where
  pub has_handler : Bool
  pub pending_calls : List (ℕ × ℕ)
  pub pending_methods : List (ℕ × ℕ)
  pub event_subs : List (EventKey × List EventSubscription)
  pub sub_keys : List (ℕ × EventKey)
  pub next_sub_id : ℕ
  pub error_handler : Option ℕ
  pub stopped : Bool

pub data Effect : Type 0 where
  answer : ℕ → ResultMessage → Effect
  resolve : ℕ → MethodsResultMessage → Effect
  deliver : ℕ → EventMessage → Effect
  emit : AnyMessage → Effect
  on_call : CallMessage → Effect
  on_methods : MethodsMessage → Effect
  on_subscribe : SubscribeMessage → Effect
  on_unsubscribe : UnsubscribeMessage → Effect
  on_token : TokenMessage → Effect
  close_transport : Effect
  on_connection_closed : Effect
  report_error : ℕ → Text → Effect

-- `RpcPeer::RpcPeer`
abbrev pub init : Bool → Peer
init has_handler = record {
  has_handler = has_handler;
  pending_calls = [];
  pending_methods = [];
  event_subs = [];
  sub_keys = [];
  next_sub_id = 1;
  error_handler = none;
  stopped = false;
}

-- The steps under `m_mu` on the pending calls: register, and extract and erase.
unfoldable pub register_call : ℕ → ℕ → Peer → Peer
register_call id h p = record p { pending_calls = insert id h p.pending_calls }

unfoldable pub take_call : ℕ → Peer → Option ℕ × Peer
take_call id p = (lookup id p.pending_calls, record p { pending_calls = erase id p.pending_calls })

unfoldable pub register_methods : ℕ → ℕ → Peer → Peer
register_methods id h p = record p { pending_methods = insert id h p.pending_methods }

unfoldable pub take_methods : ℕ → Peer → Option ℕ × Peer
take_methods id p =
    (lookup id p.pending_methods, record p { pending_methods = erase id p.pending_methods })

-- `RpcPeer::cancelPending`
unfoldable pub cancel_pending : ℕ → Peer → Peer
cancel_pending id p = record p {
  pending_calls = erase id p.pending_calls;
  pending_methods = erase id p.pending_methods;
}

-- `RpcPeer::setErrorHandler`
unfoldable pub set_error_handler : Option ℕ → Peer → Peer
set_error_handler h p = record p { error_handler = h }

-- A result that says why the call has none.
abbrev pub failed_result : ℕ → Text → Text → ResultMessage
failed_result id err err_code = record {
  id = id;
  ok = false;
  value = RpcValue.null;
  err = err;
  err_code = err_code;
}

abbrev pub failed_methods : ℕ → Text → MethodsResultMessage
failed_methods id err = record { id = id; ok = false; methods = []; err = err }

abbrev pub stopped_result : ℕ → ResultMessage
stopped_result id = failed_result id (codes "connection stopped") (codes "TRANSPORT_CLOSED")

abbrev pub answered : Option ℕ → ResultMessage → List Effect
answered none r = []
answered (some h) r = answer h r ∷ []

abbrev pub resolved : Option ℕ → MethodsResultMessage → List Effect
resolved none r = []
resolved (some h) r = resolve h r ∷ []

-- `RpcPeer::sendCallAsync`, which no other thread interrupts; an empty handler is `none`. `sendCall`
-- is this with a handler that fulfils a promise.
unfoldable pub send_call_async : CallMessage → Option ℕ → Peer → Peer × List Effect
send_call_async msg none p = (p, [])
send_call_async msg (some h) p =
    let registered = register_call msg.id h p in
    if registered.stopped
    then (
      (take_call msg.id registered).1,
      answered (take_call msg.id registered).0 (stopped_result msg.id),
    )
    else (registered, emit (AnyMessage.call msg) ∷ [])

-- `RpcPeer::sendMethods`
unfoldable pub send_methods : MethodsMessage → ℕ → Peer → Peer × List Effect
send_methods msg h p =
    let registered = register_methods msg.id h p in
    if registered.stopped
    then (
      (take_methods msg.id registered).1,
      resolved (take_methods msg.id registered).0
          (failed_methods msg.id (codes "connection stopped")),
    )
    else (registered, emit (AnyMessage.methods msg) ∷ [])

-- The subscriptions to a key, in the order of registration.
abbrev pub or_empty : Option (List EventSubscription) → List EventSubscription
or_empty none = []
or_empty (some subs) = subs

unfoldable pub subs_at : EventKey → Peer → List EventSubscription
subs_at key p = or_empty (lookup key p.event_subs)

-- `RpcPeer::sendSubscribe`; the id that it returns is `next_sub_id` of the state before.
unfoldable pub send_subscribe : SubscribeMessage → ℕ → Peer → Peer × List Effect
send_subscribe msg cb p =
    let sid = p.next_sub_id in
    let key : EventKey = (msg.object, msg.event_name) in
    let sub : EventSubscription = record { id = sid; callback = cb } in
    (
      record p {
        next_sub_id = (sid + 1) % 2 ^ 64;
        event_subs = put key (subs_at key p ++ sub ∷ []) p.event_subs;
        sub_keys = put sid key p.sub_keys;
      },
      emit (AnyMessage.subscribe msg) ∷ [],
    )

-- `std::remove_if` with the test on the id.
unfoldable pub without : ℕ → List EventSubscription → List EventSubscription
without id [] = []
without id (s ∷ subs) = let rest = without id subs in if s.id == id then rest else s ∷ rest

abbrev pub unsubscribe_message : EventKey → AnyMessage
unsubscribe_message key = AnyMessage.unsubscribe record { object = key.0; event_name = key.1 }

-- What `sendUnsubscribe` does once the key of the subscription is known.
unfoldable pub withdraw : ℕ → EventKey → Peer → Peer × List Effect
withdraw id key p = elim (lookup key p.event_subs) [
  | none ↦ (p, emit (unsubscribe_message key) ∷ [])
  | some subs ↦ elim (without id subs) [
    | [] ↦ (record p { event_subs = erase key p.event_subs }, emit (unsubscribe_message key) ∷ [])
    | s ∷ rest ↦ (record p { event_subs = put key (s ∷ rest) p.event_subs }, [])
  ]
]

-- `RpcPeer::sendUnsubscribe`
unfoldable pub send_unsubscribe : ℕ → Peer → Peer × List Effect
send_unsubscribe id p = elim (lookup id p.sub_keys) [
  | none ↦ (p, [])
  | some key ↦ withdraw id key (record p { sub_keys = erase id p.sub_keys })
]

-- `RpcPeer::sendEvent`, `RpcPeer::sendToken`
unfoldable pub send_event : EventMessage → Peer → Peer × List Effect
send_event msg p = (p, emit (AnyMessage.event msg) ∷ [])

unfoldable pub send_token : TokenMessage → Peer → Peer × List Effect
send_token msg p = (p, emit (AnyMessage.token msg) ∷ [])

-- The subscriptions that an event is delivered to: those of its name, and the wildcard ones.
unfoldable pub collect : EventMessage → Peer → List EventSubscription
collect m p =
    let named = subs_at (m.object, m.event_name) p in
    if text_eq m.event_name [] then named else named ++ subs_at (m.object, []) p

-- `RpcPeer::dispatchIncoming`
unfoldable pub dispatch_incoming : AnyMessage → Peer → Peer × List Effect
dispatch_incoming (AnyMessage.result m) p = ((take_call m.id p).1, answered (take_call m.id p).0 m)
dispatch_incoming (AnyMessage.methods_result m) p =
    ((take_methods m.id p).1, resolved (take_methods m.id p).0 m)
dispatch_incoming (AnyMessage.event m) p = (p, map (λ s. deliver s.callback m) (collect m p))
dispatch_incoming (AnyMessage.call m) p = (p, if p.has_handler then on_call m ∷ [] else [])
dispatch_incoming (AnyMessage.methods m) p = (p, if p.has_handler then on_methods m ∷ [] else [])
dispatch_incoming (AnyMessage.subscribe m) p =
    (p, if p.has_handler then on_subscribe m ∷ [] else [])
dispatch_incoming (AnyMessage.unsubscribe m) p =
    (p, if p.has_handler then on_unsubscribe m ∷ [] else [])
dispatch_incoming (AnyMessage.token m) p = (p, if p.has_handler then on_token m ∷ [] else [])

-- The step of `fail` under `m_mu`.
unfoldable pub sweep : Peer → Peer
sweep p = record p {
  pending_calls = [];
  pending_methods = [];
  error_handler = none;
  event_subs = [];
  sub_keys = [];
}

-- `RpcPeer::fail`, also `RpcPeer::stop`
unfoldable pub fail : Text → Peer → Peer × List Effect
fail reason p = if p.stopped then (p, []) else (
  sweep (record p { stopped = true }),
  map (λ (id, h). answer h (failed_result id reason (codes "TRANSPORT_ERROR"))) p.pending_calls
      ++ map (λ (id, h). resolve h (failed_methods id reason)) p.pending_methods
      ++ close_transport ∷ (if p.has_handler then on_connection_closed ∷ [] else [])
      ++ elim p.error_handler [ none ↦ [] | some h ↦ report_error h reason ∷ [] ],
)
