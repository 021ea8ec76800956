-- ===== src/Web.antt =====
-- The web transport: whole messages over a message channel
-- (cpp/implementations/web/in_memory_channel.cpp, cpp/implementations/web/web_rpc_connection.cpp).
--
-- A channel's end is the state that its pump shares with it; a turn of the pump takes one message and
-- delivers it. `what` is the text of an exception. The threads and their joining are left out.
pub mod InOrder
use logos_protocol.Base.{
  ℕ, zero, suc, Bool, true, false, Option, none, some, List, [], ◌∷◌, ◌++◌, Text, codes,
  if◌then◌else◌,
}
use logos_protocol.Wire.Framing.{FramingError, Encoded, bytes, refused}
use logos_protocol.Message.{AnyMessage}
use logos_protocol.Message.Codec.{JsonBytes}
use logos_protocol.Message.Web.{
  WebDecoded, message, framing, codec, encode_web_message, decode_web_message,
}
use logos_protocol.Value.Mapping.{CodecError}
use logos_protocol.Peer.{Peer, Effect, dispatch_incoming, fail}

-- `ChannelState`: whether there is a receiver is all that the channel knows of it.
pub record ChannelState : Type 0 where
  pub inbox : List Text
  pub closed : Bool
  pub has_receiver : Bool

unfoldable pub queue : Text → ChannelState → Bool × ChannelState
queue text s = if s.closed then (false, s) else (true, record s { inbox = s.inbox ++ text ∷ [] })

unfoldable pub close : ChannelState → ChannelState
close s = if s.closed then s else record s { closed = true; inbox = [] }

unfoldable pub set_receiver : Bool → ChannelState → ChannelState
set_receiver receives s = record s { has_receiver = receives }

abbrev pub front : List Text → ChannelState → Option (Text × ChannelState)
front [] s = none
front (text ∷ rest) s = some (text, record s { inbox = rest })

-- What `drain` takes, unless it waits or has ended.
unfoldable pub take_message : ChannelState → Option (Text × ChannelState)
take_message s = if s.closed then none else front s.inbox s

-- An `emitMessage` returns, or throws what the encoder throws.
pub data Emitted : Type 0 where
  emitted : ChannelState → Emitted
  threw : FramingError → Emitted

module _ (lib : JsonBytes) where
  abbrev pub send_encoded : Encoded → ChannelState → Emitted
  send_encoded (bytes text) s = emitted (queue text s).1
  send_encoded (refused e) s = threw e

  -- `WebRpcConnection::emitMessage`, with the other end of the channel.
  unfoldable pub emit_message : Bool → AnyMessage → ChannelState → Emitted
  emit_message stopped m s =
      if stopped then emitted s else send_encoded (encode_web_message lib m) s

  module _ (what_framing : FramingError → Text) (what_codec : CodecError → Text) where
    -- `fail`, whose `closeTransport` drops the receiver.
    unfoldable pub fail_connection : Text → ChannelState → Peer → ChannelState × Peer × List Effect
    fail_connection reason s p =
        let (q, effects) = fail (codes "web decode error: " ++ reason) p in
        (set_receiver false s, q, effects)

    abbrev pub on_decoded : WebDecoded → ChannelState → Peer → ChannelState × Peer × List Effect
    on_decoded (message m) s p = let (q, effects) = dispatch_incoming m p in (s, q, effects)
    on_decoded (framing e) s p = fail_connection (what_framing e) s p
    on_decoded (codec e) s p = fail_connection (what_codec e) s p

    -- `WebRpcConnection::onChannelMessage`
    unfoldable pub on_channel_message :
        Text → ChannelState → Peer → ChannelState × Peer × List Effect
    on_channel_message text s p =
        if p.stopped then (s, p, []) else on_decoded (decode_web_message lib text) s p

    abbrev pub deliver_to : Text → ChannelState → Peer → ChannelState × Peer × List Effect
    deliver_to text s p = if s.has_receiver then on_channel_message text s p else (s, p, [])

    -- A turn of the pump.
    unfoldable pub turn : ChannelState → Peer → ChannelState × Peer × List Effect
    turn s p = elim (take_message s) [ none ↦ (s, p, []) | some (text, t) ↦ deliver_to text t p ]

    unfoldable pub turns : ℕ → ChannelState → Peer → ChannelState × Peer × List Effect
    turns zero s p = (s, p, [])
    turns (suc n) s p =
        let (t, q, es) = turn s p in let (u, r, fs) = turns n t q in (u, r, es ++ fs)
