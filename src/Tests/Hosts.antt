-- ===== src/Tests/Hosts.antt =====
-- A transport host at concrete inputs.
use logos_protocol.Base.{◌≡◌, ◌||◌, if◌then◌else◌, refl, false, [], ◌∷◌, inr, codes, count, keys}
use logos_protocol.Value.{RpcList}
use logos_protocol.Message.{SubscribeMessage, EventMessage}
use logos_protocol.Host.{Host, fan_out_event, on_subscribe, on_connection_closed}
use logos_protocol.Host.FanOut.{has_sink, fan_out_event_once, fan_out_event_sinks}

-- Connection 3 has a sink for the event "msg" of "chat" and one for all its events, and connection
-- 5 has one for all of them.
abbrev host : Host
host = record {
  published = [];
  sinks = (codes "chat", (codes "msg", (3, 30) ∷ []) ∷ ([], (3, 31) ∷ (5, 50) ∷ []) ∷ []) ∷ [];
  tcp_ssl = false;
}

abbrev received : EventMessage
received = record { object = codes "chat"; event_name = codes "msg"; args = RpcList.nil }

fan_out_event_once_example : count 3 (keys (fan_out_event (codes "chat") received host)) ≡ (
    if has_sink 3 (codes "chat") (codes "msg") host || has_sink 3 (codes "chat") [] host
    then 1
    else 0)
fan_out_event_once_example = fan_out_event_once (codes "chat") received host 3

abbrev to_all : SubscribeMessage
to_all = record { object = codes "chat"; event_name = [] }

fan_out_event_sinks_example :
    let subscribed = on_subscribe to_all 70 7 host in
    (count 7 (keys (fan_out_event (codes "chat") received subscribed)) ≡ 1)
    × (count 7 (keys (fan_out_event (codes "chat") received (on_connection_closed 7 subscribed)))
        ≡ 0)
fan_out_event_sinks_example =
    fan_out_event_sinks to_all 70 7 received received (codes "chat") host (inr refl)
