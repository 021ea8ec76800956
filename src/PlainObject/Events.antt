-- ===== src/PlainObject/Events.antt =====
-- Events, tokens and the method list of a plain client object
-- (cpp/implementations/plain/plain_logos_object.cpp), over the peer of its connection.
--
-- The connection may be null, and may be closed. `waiting` is what happens on the connection while a
-- request waits, and whether it was answered in time. A step under the handle's mutex is one step.
use logos_protocol.Base.{
  ℕ, Bool, true, false, Option, none, some, List, [], ◌∷◌, ◌++◌, Text, if◌then◌else◌,
}
use logos_protocol.Value.{RpcList}
use logos_protocol.Message.{MethodsResultMessage, MethodMetadata}
use logos_protocol.Peer.{
  Peer, Effect, send_subscribe, send_unsubscribe, send_event, send_token, send_methods,
  cancel_pending,
}

-- `m_objectName` and `m_subs`
pub record EventHandle : Type 0 where
  pub object_name : Text
  pub subs : List ℕ

-- `!m_conn || !m_conn->isOpen()`
abbrev pub usable : Bool → Option Peer → Option Peer
usable true conn = conn
usable false conn = none

-- `informModuleToken`
unfoldable pub inform_module_token :
    Bool → Text → Text → Text → Option Peer → Bool × Option Peer × List Effect
inform_module_token opened auth_token module_name token conn = elim (usable opened conn) [
  | none ↦ (false, conn, [])
  | some p ↦
      let (q, effects) =
        send_token (record { auth_token = auth_token; module_name = module_name; token = token })
          p in
      (true, some q, effects)
]

-- `onEvent`, with no callback or one; the id is the one that `sendSubscribe` gives out.
unfoldable pub on_event :
    Bool → Text → Option ℕ → EventHandle → Option Peer → EventHandle × Option Peer × List Effect
on_event opened event_name none h conn = (h, conn, [])
on_event opened event_name (some callback) h conn = elim (usable opened conn) [
  | none ↦ (h, conn, [])
  | some p ↦
      let (q, effects) =
        send_subscribe (record { object = h.object_name; event_name = event_name }) callback p in
      (record h { subs = h.subs ++ p.next_sub_id ∷ [] }, some q, effects)
]

unfoldable pub unsubscribe_each : List ℕ → Peer → Peer × List Effect
unsubscribe_each [] p = (p, [])
unsubscribe_each (id ∷ ids) p =
    let (q, es) = send_unsubscribe id p in let (r, fs) = unsubscribe_each ids q in (r, es ++ fs)

-- `disconnectEvents`
unfoldable pub disconnect_events :
    EventHandle → Option Peer → EventHandle × Option Peer × List Effect
disconnect_events h none = (record h { subs = [] }, none, [])
disconnect_events h (some p) =
    let (q, effects) = unsubscribe_each h.subs p in (record h { subs = [] }, some q, effects)

-- `emitEvent`
unfoldable pub emit_event :
    Bool → Text → RpcList → EventHandle → Option Peer → Option Peer × List Effect
emit_event opened event_name args h conn = elim (usable opened conn) [
  | none ↦ (conn, [])
  | some p ↦
      let (q, effects) =
        send_event (record { object = h.object_name; event_name = event_name; args = args }) p in
      (some q, effects)
]

abbrev pub methods_of : ℕ → Option MethodsResultMessage → Peer → List MethodMetadata × Peer
methods_of id none p = ([], cancel_pending id p)
methods_of id (some r) p = (if r.ok then r.methods else [], p)

-- `getMethods`
unfoldable pub get_methods :
    Bool
    → ℕ
    → ℕ
    → (Peer → Option MethodsResultMessage × Peer)
    → EventHandle
    → Option Peer
    → List MethodMetadata × Option Peer × List Effect
get_methods opened next_id promise waiting h conn = elim (usable opened conn) [
  | none ↦ ([], conn, [])
  | some p ↦
      let (q, effects) =
        send_methods (record { id = next_id; auth_token = []; object = h.object_name }) promise p in
      let (answer, r) = waiting q in
      let (methods, s) = methods_of next_id answer r in (methods, some s, effects)
]
