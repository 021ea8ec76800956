-- ===== src/Message/Codec.antt =====
-- The codecs of the wire, and the framed connection over them: JsonCodec
-- (cpp/implementations/plain/json_codec.cpp), CborCodec (cbor_codec.cpp), `encodeFrame` over a codec
-- (rpc_framing.cpp), and the decoding half of `handleFrame` (rpc_connection.h).
use logos_protocol.Base.{ℕ, ◌≡◌, refl, ◌∙◌, Option, none, some, List, [], ◌∷◌, map, concat, All}
use logos_protocol.Json.{Json, as_parsed, fields_as_parsed}
use logos_protocol.Value.{RpcValue}
use logos_protocol.Value.Canonical.{IsCanonical}
use logos_protocol.Value.RoundTrip.{
  json_to_value-value_to_json, json_to_value-as_parsed, value_to_json-InRange,
}
use logos_protocol.Value.Mapping.{value_to_json, json_to_value, CodecError, Result, ok, err, ◌>>=◌}
use logos_protocol.Wire.Framing.{tag_byte, Encoded, bytes, encode_frame}
use logos_protocol.Wire.Framing.Chunks.{
  encode_all, frames, read_chunks, read_chunks-encode_all, waiting,
}
use logos_protocol.Message.{AnyMessage, message_type_of}
use logos_protocol.Message.Mapping.{message_to_json, message_fields, json_to_message}
use logos_protocol.Message.RoundTrip.{
  IsCanonicalMessage, fields_to_message-message_fields, json_to_message-tag_byte,
}
use logos_protocol.Message.Parsed.{fields_to_message-as_parsed, message_fields-InRange}

-- What the code uses of nlohmann::json: a writer and a reader of whole values (`dump` and `parse`,
-- or `to_cbor` and `from_cbor`), and the conversion of a double to `uint64_t`. Reading gives back
-- what was written for the values that the writer accepts (strings are UTF-8, doubles are finite).
pub record JsonBytes : Type 1 where
  pub write : Json → List ℕ
  pub read : List ℕ → Option Json
  pub float_to_uint64 : ℕ → ℕ
  pub Writable : Json → Type 0
  pub read-write : (j : Json) → Writable j → read (write j) ≡ some (as_parsed j)

module _ (lib : JsonBytes) where
  -- `IWireCodec::encode`
  unfoldable pub encode : AnyMessage → List ℕ
  encode m = lib.write (message_to_json m)

  -- `IWireCodec::decode` of a frame's tag byte and payload.
  pub decode : ℕ → List ℕ → Result AnyMessage
  decode tag payload = elim (lib.read payload) [
    | none ↦ err CodecError.parse_failed
    | some j ↦ json_to_message lib.float_to_uint64 tag j
  ]

  -- `encodeFrame(codec, msg)`
  pub encode_message : AnyMessage → Encoded
  encode_message m = encode_frame (message_type_of m) (encode m)

  -- A message that the peer can be sent: canonical, and accepted by the writer.
  abbrev pub IsSendable : AnyMessage → Type 0
  IsSendable m = IsCanonicalMessage m × lib.Writable (message_to_json m)

  -- Decoding the payload of a sendable message under the tag of its kind gives the message.
  pub decode-encode :
      (m : AnyMessage) → IsSendable m → decode (tag_byte (message_type_of m)) (encode m) ≡ ok m
  unfolding decode encode message_to_json as_parsed
  decode-encode m (canonical, writable) =
      rw (lib.read-write (message_to_json m) writable, decode)
        (json_to_message-tag_byte lib.float_to_uint64 (message_type_of m)
            (fields_as_parsed (message_fields m))
          ∙ fields_to_message-as_parsed lib.float_to_uint64 (message_fields m)
              (message_fields-InRange m canonical) (message_type_of m)
          ∙ fields_to_message-message_fields lib.float_to_uint64 m canonical)

  -- The frames of a list of messages, one after the other.
  unfoldable pub encode_messages : List AnyMessage → Encoded
  encode_messages ms = encode_all (map (λ m. (message_type_of m, encode m)) ms)

  -- What `handleFrame` decodes, frame by frame, or the first failure.
  pub decode_frames : List (ℕ × List ℕ) → Result (List AnyMessage)
  decode_frames [] = ok []
  decode_frames ((tag, payload) ∷ fs) =
      decode tag payload >>= λ m. decode_frames fs >>= λ ms. ok (m ∷ ms)

  decode_frames-frames :
      (ms : List AnyMessage)
      → All IsSendable ms
      → decode_frames (frames (map (λ m. (message_type_of m, encode m)) ms)) ≡ ok ms
  unfolding decode_frames
  decode_frames-frames [] h = refl
  decode_frames-frames (m ∷ ms) h = rw (decode-encode m h.0, decode_frames-frames ms h.1)

  -- Sendable messages that are written as frames, which all fit, arrive as the same messages in the
  -- same order, however the bytes are cut into chunks, and no byte is left over.
  pub decode_frames-read_chunks :
      (ms : List AnyMessage) (chunks : List (List ℕ))
      → All IsSendable ms
      → encode_messages ms ≡ bytes (concat chunks)
      → let (fs, outcome, reader) = read_chunks (record { buf = [] }) chunks in
        (decode_frames fs ≡ ok ms) × (outcome ≡ waiting) × (reader.buf ≡ [])
  unfolding encode_messages
  decode_frames-read_chunks ms chunks h e =
      rw (read_chunks-encode_all _ chunks e) (decode_frames-frames ms h, refl, refl)

  -- A canonical value that the library can write is decoded to itself, both straight from the JSON
  -- value that it was mapped to, and from the JSON value that the library reads from what it wrote.
  pub json_to_value-value_to_json_both :
      (v : RpcValue)
      → IsCanonical v
      → lib.Writable (value_to_json v)
      → (json_to_value (value_to_json v) ≡ ok v)
        × ((j : Json) × (lib.read (lib.write (value_to_json v)) ≡ some j)
            × (json_to_value j ≡ ok v))
  json_to_value-value_to_json_both v h w =
      let straight = json_to_value-value_to_json v h in
      (
        straight,
        (
          as_parsed (value_to_json v),
          lib.read-write (value_to_json v) w,
          json_to_value-as_parsed (value_to_json v) (value_to_json-InRange v h) ∙ straight,
        ),
      )
