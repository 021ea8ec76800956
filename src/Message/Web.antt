-- ===== src/Message/Web.antt =====
-- The web transport's codec: cpp/implementations/web/web_message_codec.cpp. One JSON text
-- {"type": tag, "payload": message} for each message, under the cap of the framed transport.
use logos_protocol.Base.{
  ℕ, ◌+◌, ◌-◌, ◌*◌, ◌%◌, ◌^◌, ◌≤◌, ◌≡◌, refl, ap, ◌∙◌, Bool, Option, none, some, length, Text,
  codes, arith, ltb, if◌then◌else◌, ◌||◌, text_discrete, text_eq, text_lt, Bool-cases, inl, inr,
}
use logos_protocol.Json.{Json, Fields, ℤ, pos, negsuc, as_parsed, fields_as_parsed}
use logos_protocol.Json.Objects.{set_key, find_key}
use logos_protocol.Value.Mapping.{CodecError, Result, ok, err}
use logos_protocol.Wire.Framing.{
  MessageType, tag_byte, FramingError, frame_too_large, frame_length_exceeds_cap, max_frame_length,
  Encoded, bytes, refused,
}
use logos_protocol.Message.{AnyMessage, message_type_of}
use logos_protocol.Message.Mapping.{message_to_json, message_fields, json_to_message}
use logos_protocol.Message.RoundTrip.{
  fields_to_message-message_fields, json_to_message-tag_byte, IsCanonicalMessage,
}
use logos_protocol.Message.Parsed.{fields_to_message-as_parsed, message_fields-InRange}
use logos_protocol.Message.Codec.{JsonBytes}

-- A message, or which of the two kinds of error was thrown.
pub data WebDecoded : Type 0 where
  message : AnyMessage → WebDecoded
  framing : FramingError → WebDecoded
  codec : CodecError → WebDecoded

abbrev pub of_result : Result AnyMessage → WebDecoded
of_result (ok m) = message m
of_result (err e) = codec e

unfoldable pub exceeds_cap : ℕ → Bool
exceeds_cap text_length = ltb max_frame_length (1 + text_length)

pub envelope : AnyMessage → Json
envelope m = Json.object (
    set_key (codes "payload") (message_to_json m) (
      set_key (codes "type") (Json.number_integer (pos (tag_byte (message_type_of m)))) Fields.end))

-- `get<int>()`, as the 32 bits that the cast keeps.
unfoldable pub int_bits : ℤ → ℕ
int_bits (pos n) = n % 2 ^ 32
int_bits (negsuc n) = 2 ^ 32 - 1 - n % 2 ^ 32

module _ (lib : JsonBytes) where
  unfoldable pub encode_web_message : AnyMessage → Encoded
  unfolding exceeds_cap
  encode_web_message m =
      let text = lib.write (envelope m) in
      if exceeds_cap (length text) then refused frame_too_large else bytes text

  -- The tests on the tag. A bit pattern above 8 is a tag that is too large, or negative.
  pub decode_tagged : ℕ → Json → WebDecoded
  decode_tagged tag payload =
      if ltb tag 1 || ltb 8 tag
      then codec CodecError.unknown_tag
      else of_result (json_to_message lib.float_to_uint64 tag payload)

  abbrev decode_envelope_parts : Option Json → Option Json → WebDecoded
  decode_envelope_parts none p = codec CodecError.not_an_envelope
  decode_envelope_parts (some t) none = codec CodecError.not_an_envelope
  decode_envelope_parts (some (Json.number_integer i)) (some p) = decode_tagged (int_bits i) p
  decode_envelope_parts (some (Json.number_unsigned n)) (some p) =
      decode_tagged (int_bits (pos n)) p
  decode_envelope_parts (some _) (some p) = codec CodecError.type_tag_not_integer

  pub decode_envelope : Json → WebDecoded
  decode_envelope (Json.object fs) =
      decode_envelope_parts (find_key (codes "type") fs) (find_key (codes "payload") fs)
  decode_envelope _ = codec CodecError.not_an_envelope

  abbrev decode_parsed : Option Json → WebDecoded
  decode_parsed none = codec CodecError.parse_failed
  decode_parsed (some j) = decode_envelope j

  -- The length is tested before the text is parsed.
  pub decode_web_message : Text → WebDecoded
  unfolding exceeds_cap
  decode_web_message text =
      if exceeds_cap (length text)
      then framing frame_length_exceeds_cap
      else decode_parsed (lib.read text)

  tag_in_range :
      (t : MessageType) (p : Json)
      → decode_tagged (tag_byte t) p
        ≡ of_result (json_to_message lib.float_to_uint64 (tag_byte t) p)
  unfolding decode_tagged tag_byte
  tag_in_range MessageType.call p = refl
  tag_in_range _ p = refl

  tag_byte-le : (t : MessageType) → tag_byte t ≤ 8
  unfolding tag_byte
  tag_byte-le MessageType.call = omega arith
  tag_byte-le _ = omega arith

  tag_bits : (t : MessageType) → tag_byte t % 2 ^ 32 ≡ tag_byte t
  unfolding tag_byte
  tag_bits MessageType.call = refl
  tag_bits _ = refl

  decode_envelope-as_parsed :
      (m : AnyMessage) → IsCanonicalMessage m → decode_envelope (as_parsed (envelope m)) ≡ message m
  unfolding decode_envelope envelope set_key find_key text_discrete text_eq text_lt as_parsed
      int_bits message_to_json
  decode_envelope-as_parsed m h =
      rw (tag_bits (message_type_of m), tag_in_range (message_type_of m))
        (ap of_result (
          json_to_message-tag_byte lib.float_to_uint64 (message_type_of m)
            (fields_as_parsed (message_fields m))
          ∙ fields_to_message-as_parsed lib.float_to_uint64 (message_fields m)
              (message_fields-InRange m h) (message_type_of m)
          ∙ fields_to_message-message_fields lib.float_to_uint64 m h))

  -- What the web encoder writes for a canonical message, if the writer accepts its envelope and the
  -- text is within the cap, is decoded to that message.
  pub decode_web_message-encode_web_message :
      (m : AnyMessage) (text : Text)
      → IsCanonicalMessage m
      → lib.Writable (envelope m)
      → encode_web_message m ≡ bytes text
      → decode_web_message text ≡ message m
  unfolding encode_web_message decode_web_message
  decode_web_message-encode_web_message m text canonical writable e =
      let written : Text = lib.write (envelope m) in
      elim (Bool-cases (exceeds_cap (length written))) [
        | inl long ↦ cc (rw (long, encode_web_message) at e)
        | inr fits ↦
            let same : text ≡ written = cc (rw (fits, encode_web_message) at e) in
            rw (same, fits, lib.read-write (envelope m) writable)
              (decode_envelope-as_parsed m canonical)
      ]

  -- The cast to `int` comes before the range test: a tag is taken for the one that it equals modulo
  -- 2^32, so no tag above 2^32 is refused for its size alone.
  pub decode_envelope-tag_wraps :
      (t : MessageType) (k : ℕ) (payload : Json)
      → let wide = Fields.field (codes "payload") payload (
          Fields.field
            (codes "type")
            (Json.number_unsigned (tag_byte t + k * 2 ^ 32))
            Fields.end) in
        decode_envelope (Json.object wide)
        ≡ of_result (json_to_message lib.float_to_uint64 (tag_byte t) payload)
  unfolding decode_envelope find_key text_discrete text_eq text_lt int_bits
  decode_envelope-tag_wraps t k payload = rw (wrapped) (tag_in_range t payload)
    where
      small : tag_byte t ≤ 8
      small = tag_byte-le t

      wrapped : (tag_byte t + k * 2 ^ 32) % 2 ^ 32 ≡ tag_byte t
      wrapped = omega (arith, small)
