-- ===== src/Host.antt =====
-- The dispatch side of a plain transport host (cpp/implementations/plain/plain_transport_host.cpp):
-- the published objects, and the event sinks by object, event and connection.
--
-- An object, a connection and a sink are each a number that names it; connections are ordered as
-- their addresses are. What is posted to an object or replied is a `HostEffect`.
pub mod FanOut
use logos_protocol.Base.{
  ℕ, ◌+◌, ◌≡◌, Bool, true, false, Option, none, some, List, [], ◌∷◌, ◌++◌, Text, codes, text_eq,
  text_lt, text_key, nat_eq, lookup, put, erase, insert, keys, count, ltb, if◌then◌else◌,
}
use logos_protocol.Value.{RpcValue, RpcList}
use logos_protocol.Message.{
  CallMessage, ResultMessage, SubscribeMessage, UnsubscribeMessage, EventMessage, TokenMessage,
  MethodsMessage, MethodsResultMessage, MethodMetadata,
}

-- event -> connection -> sink
abbrev pub Events : Type 0
Events = List (Text × List (ℕ × ℕ))

pub record Host : Type 0 where
  pub published : List (Text × ℕ)
  pub sinks : List (Text × Events)
  pub tcp_ssl : Bool

pub data HostEffect : Type 0 where
  reply : ResultMessage → HostEffect
  reply_methods : MethodsResultMessage → HostEffect
  call_remote_method : ℕ → ℕ → Text → Text → RpcList → Text → HostEffect
  get_plugin_methods : ℕ → ℕ → HostEffect
  inform_module_token : ℕ → Text → Text → Text → HostEffect

abbrev pub or_nil {ℓ} : {A : Type ℓ} → Option (List A) → List A
or_nil none = []
or_nil (some xs) = xs

-- The sinks of an event of an object.
unfoldable pub sinks_at : Text → Text → Host → List (ℕ × ℕ)
sinks_at object event h = or_nil (lookup event (or_nil (lookup object h.sinks)))

-- `m_published[name] = object`, in the order of the names.
unfoldable pub publish_in : Text → ℕ → List (Text × ℕ) → List (Text × ℕ)
publish_in name object [] = (name, object) ∷ []
publish_in name object ((other, o) ∷ rest) =
    let later = publish_in name object rest in
    if text_lt name other
    then (name, object) ∷ (other, o) ∷ rest
    else if text_eq name other
    then (name, object) ∷ rest
    else (other, o) ∷ later

-- `publishObject`; an object that is null or no `ModuleProxy` is `none`.
unfoldable pub publish_object : Text → Option ℕ → Host → Bool × Host
publish_object name none h = (false, h)
publish_object name (some object) h =
    (true, record h { published = publish_in name object h.published })

-- `unpublishObject`
unfoldable pub unpublish_object : Text → Host → Host
unpublish_object name h = record h { published = erase name h.published }

-- `onSubscribe`
unfoldable pub on_subscribe : SubscribeMessage → ℕ → ℕ → Host → Host
on_subscribe req sink connection h =
    let events = or_nil (lookup req.object h.sinks) in
    record h {
      sinks =
          put req.object
            (put req.event_name (insert connection sink (or_nil (lookup req.event_name events)))
              events)
            h.sinks;
    }

-- Store a map under a key, or erase the key where the map is empty.
unfoldable pub put_or_erase :
    {V : Type 0} → Text → List V → List (Text × List V) → List (Text × List V)
put_or_erase k [] m = erase k m
put_or_erase k (v ∷ vs) m = put k (v ∷ vs) m

-- `onUnsubscribe`
unfoldable pub on_unsubscribe : UnsubscribeMessage → ℕ → Host → Host
on_unsubscribe req connection h = elim (lookup req.object h.sinks) [
  | none ↦ h
  | some events ↦ elim (lookup req.event_name events) [
    | none ↦ h
    | some sinks ↦
        let left = put_or_erase req.event_name (erase connection sinks) events in
        record h { sinks = put_or_erase req.object left h.sinks }
  ]
]

-- A key with its map in front of the others, where the map is not empty.
unfoldable pub keep : {V : Type 0} → Text → List V → List (Text × List V) → List (Text × List V)
keep k [] rest = rest
keep k (v ∷ vs) rest = (k, v ∷ vs) ∷ rest

unfoldable pub close_events : ℕ → Events → Events
close_events connection [] = []
close_events connection ((event, sinks) ∷ rest) =
    keep event (erase connection sinks) (close_events connection rest)

unfoldable pub close_objects : ℕ → List (Text × Events) → List (Text × Events)
close_objects connection [] = []
close_objects connection ((object, events) ∷ rest) =
    keep object (close_events connection events) (close_objects connection rest)

-- `onConnectionClosed`
unfoldable pub on_connection_closed : ℕ → Host → Host
on_connection_closed connection h = record h { sinks = close_objects connection h.sinks }

-- `seen.insert(key).second`: the sinks of the connections that are not yet seen.
unfoldable pub gather : List (ℕ × ℕ) → List ℕ → List (ℕ × ℕ)
gather [] seen = []
gather ((connection, sink) ∷ m) seen =
    let old = ltb 0 (count connection seen) in
    let rest = gather m (if old then seen else connection ∷ seen) in
    if old then rest else (connection, sink) ∷ rest

-- The sinks that an event is offered to: those of its name, and the wildcard ones.
unfoldable pub offered : Text → EventMessage → Host → List (ℕ × ℕ)
offered name m h =
    sinks_at name m.event_name h ++ (if text_eq m.event_name [] then [] else sinks_at name [] h)

-- `fanOutEvent`: the connections, each with its sink, that the event is sent to.
unfoldable pub fan_out_event : Text → EventMessage → Host → List (ℕ × ℕ)
fan_out_event name m h = gather (offered name m h) []

-- `onCall`; what the object answers is replied later, by `call_answered`.
unfoldable pub on_call : CallMessage → Host → List HostEffect
on_call req h = elim (lookup req.object h.published) [
  | none ↦
      reply record {
        id = req.id;
        ok = false;
        value = RpcValue.null;
        err = codes "object not published: " ++ req.object;
        err_code = codes "MODULE_NOT_LOADED";
      }
      ∷ []
  | some object ↦
      call_remote_method object req.id req.auth_token req.method req.args
        (if h.tcp_ssl then codes "tcp_ssl" else codes "tcp")
      ∷ []
]

-- The reply once `callRemoteMethod` was invoked, with its value, or could not be.
unfoldable pub call_answered : ℕ → Option RpcValue → ResultMessage
call_answered id none = record {
  id = id;
  ok = false;
  value = RpcValue.null;
  err = codes "callRemoteMethod failed";
  err_code = codes "METHOD_FAILED";
}
call_answered id (some value) = record {
  id = id;
  ok = true;
  value = value;
  err = [];
  err_code = [];
}

-- `onMethods`
unfoldable pub on_methods : MethodsMessage → Host → List HostEffect
on_methods req h = elim (lookup req.object h.published) [
  | none ↦
      reply_methods
        record { id = req.id; ok = false; methods = []; err = codes "object not published" }
      ∷ []
  | some object ↦ get_plugin_methods object req.id ∷ []
]

-- The object that `onToken` tells: the module's own, or else the first that is published.
unfoldable pub token_target : Option ℕ → List (Text × ℕ) → Option ℕ
token_target (some object) published = some object
token_target none [] = none
token_target none ((name, object) ∷ rest) = some object

-- `onToken`
unfoldable pub on_token : TokenMessage → Host → List HostEffect
on_token req h = elim (token_target (lookup req.module_name h.published) h.published) [
  | none ↦ []
  | some object ↦ inform_module_token object req.auth_token req.module_name req.token ∷ []
]
