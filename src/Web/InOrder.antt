-- ===== src/Web/InOrder.antt =====
-- Messages over a channel (cpp/implementations/web).
use logos_protocol.Base.{
  ◌≡◌, refl, sym, ap, ◌∙◌, true, false, List, [], ◌∷◌, ◌++◌, append_assoc, append-nil, length, All,
  Text,
}
use logos_protocol.Wire.Framing.{FramingError, bytes}
use logos_protocol.Message.{AnyMessage}
use logos_protocol.Message.RoundTrip.{IsCanonicalMessage}
use logos_protocol.Message.Codec.{JsonBytes}
use logos_protocol.Message.Web.{envelope, encode_web_message, decode_web_message-encode_web_message}
use logos_protocol.Value.Mapping.{CodecError}
use logos_protocol.Peer.{Peer, Effect, dispatch_incoming, take_call, take_methods}
use logos_protocol.Web.{
  ChannelState, queue, take_message, Emitted, emitted, threw, emit_message, on_channel_message,
  turn, turns,
}

-- The other end of an open channel with a receiver, with these messages waiting.
abbrev pub holding : List Text → ChannelState
holding texts = record { inbox = texts; closed = false; has_receiver = true }

stopped-dispatch_incoming :
    (m : AnyMessage) (p : Peer) → (dispatch_incoming m p).0.stopped ≡ p.stopped
unfolding dispatch_incoming take_call take_methods
stopped-dispatch_incoming (AnyMessage.result m) p = refl
stopped-dispatch_incoming (AnyMessage.methods_result m) p = refl
stopped-dispatch_incoming _ p = refl

-- The messages dispatched one after the other.
unfoldable pub dispatch_all : List AnyMessage → Peer → Peer × List Effect
dispatch_all [] p = (p, [])
dispatch_all (m ∷ ms) p =
    let (q, es) = dispatch_incoming m p in let (r, fs) = dispatch_all ms q in (r, es ++ fs)

module _ (lib : JsonBytes) where
  -- A message that the web transport can send, and its text.
  abbrev pub IsWebSendable : AnyMessage → Type 0
  IsWebSendable m =
      IsCanonicalMessage m
      × lib.Writable (envelope m)
      × ((text : Text) × (encode_web_message lib m ≡ bytes text))

  -- Messages emitted one after the other by a connection that is not stopped.
  unfoldable pub emit_all : List AnyMessage → Emitted → Emitted
  emit_all [] r = r
  emit_all (m ∷ ms) (emitted s) = emit_all ms (emit_message lib false m s)
  emit_all (m ∷ ms) (threw e) = threw e

  texts_of : (ms : List AnyMessage) → All IsWebSendable ms → List Text
  texts_of [] h = []
  texts_of (m ∷ ms) h = h.0.2.0 ∷ texts_of ms h.1

  emit_message-holding :
      (m : AnyMessage) (text : Text) (texts : List Text)
      → encode_web_message lib m ≡ bytes text
      → emit_message lib false m (holding texts) ≡ emitted (holding (texts ++ text ∷ []))
  unfolding emit_message queue
  emit_message-holding m text texts e = rw e refl

  emit_all-holding :
      (ms : List AnyMessage) (h : All IsWebSendable ms) (texts : List Text)
      → emit_all ms (emitted (holding texts)) ≡ emitted (holding (texts ++ texts_of ms h))
  unfolding emit_all texts_of
  emit_all-holding [] h texts = ap (λ ts. emitted (holding ts)) (sym (append-nil texts))
  emit_all-holding (m ∷ ms) h texts =
      ap (emit_all ms) (emit_message-holding m h.0.2.0 texts h.0.2.1)
      ∙ emit_all-holding ms h.1 (texts ++ h.0.2.0 ∷ [])
      ∙ ap (λ ts. emitted (holding ts)) (append_assoc texts (h.0.2.0 ∷ []) (texts_of ms h.1))

  module _ (what_framing : FramingError → Text) (what_codec : CodecError → Text) where
    turn-holding :
        (m : AnyMessage) (h : IsWebSendable m) (texts : List Text) (p : Peer)
        → p.stopped ≡ false
        → turn lib what_framing what_codec (holding (h.2.0 ∷ texts)) p
          ≡ (holding texts, (dispatch_incoming m p).0, (dispatch_incoming m p).1)
    unfolding turn take_message on_channel_message
    turn-holding m h texts p run =
        rw (run, decode_web_message-encode_web_message lib m h.2.0 h.0 h.1 h.2.1) refl

    turns-holding :
        (ms : List AnyMessage) (h : All IsWebSendable ms) (p : Peer)
        → p.stopped ≡ false
        → turns lib what_framing what_codec (length ms) (holding (texts_of ms h)) p
          ≡ (holding [], (dispatch_all ms p).0, (dispatch_all ms p).1)
    unfolding turns dispatch_all texts_of
    turns-holding [] h p run = refl
    turns-holding (m ∷ ms) h p run =
        rw
          (
            turn-holding m h.0 (texts_of ms h.1) p run,
            turns-holding ms h.1 (dispatch_incoming m p).0 (stopped-dispatch_incoming m p ∙ run),
          )
          refl

    -- Messages that can be sent over the web transport, emitted one after the other on an open channel,
    -- are dispatched by the running peer at the other end, all of them, once and in order, with as
    -- many turns of its pump as there are messages, and nothing else is dispatched.
    pub turns-emit_all :
        (ms : List AnyMessage) (p : Peer)
        → All IsWebSendable ms
        → p.stopped ≡ false
        → (s : ChannelState) × (emit_all ms (emitted (holding [])) ≡ emitted s)
          × (turns lib what_framing what_codec (length ms) s p
              ≡ (holding [], (dispatch_all ms p).0, (dispatch_all ms p).1))
    turns-emit_all ms p h run =
        (holding (texts_of ms h), emit_all-holding ms h [], turns-holding ms h p run)
