-- ===== src/Tests/Wire.antt =====
-- The framing and the codecs of messages at concrete inputs.
use logos_protocol.Base.{
  ℕ, ◌+◌, ◌*◌, ◌^◌, ◌≡◌, refl, true, sym, ap, some, List, [], ◌∷◌, ◌++◌, arith, codes, inl,
}
use logos_protocol.Json.{pos, negsuc, Json, Fields, as_parsed}
use logos_protocol.Value.{RpcValue, RpcList}
use logos_protocol.Value.Mapping.{ok, value_to_json, json_to_value}
use logos_protocol.Wire.Framing.{
  MessageType, tag_byte, FrameReader, next, append, read_be32, corrupt, zero_length_frame,
  encode_frame, write_be32,
}
use logos_protocol.Wire.Framing.Header.{be32, Fits}
use logos_protocol.Wire.Framing.Chunks.{encode_all, read_chunks, read_chunk, drain, waiting}
use logos_protocol.Wire.Framing.Fuel.{read_chunk_enough}
use logos_protocol.Wire.Framing.Errors.{next-eq-frame, next_bad_length}
use logos_protocol.Message.{AnyMessage, message_type_of}
use logos_protocol.Message.Mapping.{message_to_json, json_to_message}
use logos_protocol.Peer.{Peer, init}
use logos_protocol.Web.{ChannelState, emitted, turns}
use logos_protocol.Web.InOrder.{holding, emit_all, dispatch_all, turns-emit_all}
use logos_protocol.Message.Codec.{
  JsonBytes, encode, encode_messages, decode_frames, decode_frames-read_chunks,
  json_to_value-value_to_json_both,
}
use logos_protocol.Message.Web.{
  envelope, encode_web_message, decode_envelope, of_result, decode_envelope-tag_wraps,
}

-- A library that knows one value.
abbrev writes_as : Json → List ℕ → JsonBytes
writes_as known written = record {
  write = λ j. written;
  read = λ b. some (as_parsed known);
  float_to_uint64 = λ d. 0;
  Writable = λ j. j ≡ known;
  read-write = λ j h. ap (λ x. some (as_parsed x)) (sym h);
}

-- [5, -1, "a", the bytes 1 and 255]
abbrev value : RpcValue
value = RpcValue.list (
    RpcList.cons (RpcValue.int (pos 5)) (
      RpcList.cons (RpcValue.int (negsuc 0)) (
        RpcList.cons (RpcValue.string (codes "a"))
          (RpcList.cons (RpcValue.bytes (1 ∷ 255 ∷ [])) RpcList.nil))))

abbrev knows_value : JsonBytes
knows_value = writes_as (value_to_json value) (codes "[...]")

json_to_value-value_to_json_both_example :
    (json_to_value (value_to_json value) ≡ ok value)
    × ((j : Json) × (knows_value.read (knows_value.write (value_to_json value)) ≡ some j)
        × (json_to_value j ≡ ok value))
json_to_value-value_to_json_both_example =
    json_to_value-value_to_json_both knows_value value
      (omega arith, (tt, (tt, ((omega arith, (omega arith, tt)), tt)))) refl

abbrev grant : AnyMessage
grant =
    AnyMessage.token
      record { auth_token = codes "anchor"; module_name = codes "chat"; token = codes "t1" }

abbrev payload : List ℕ
payload = codes "{}"

abbrev as_payload : JsonBytes
as_payload = writes_as (message_to_json grant) payload

-- The frame of `grant`, cut in its header.
abbrev cut : List (List ℕ)
cut = (0 ∷ 0 ∷ 0 ∷ []) ∷ (3 ∷ 6 ∷ 123 ∷ 125 ∷ []) ∷ []

decode_frames-read_chunks_example :
    let (fs, outcome, reader) = read_chunks (record { buf = [] }) cut in
    (decode_frames as_payload fs ≡ ok (grant ∷ [])) × (outcome ≡ waiting) × (reader.buf ≡ [])
unfolding encode_messages encode encode_all encode_frame write_be32 tag_byte message_type_of
decode_frames-read_chunks_example =
    decode_frames-read_chunks as_payload (grant ∷ []) cut ((tt, refl), tt) refl

abbrev sent : List (MessageType × List ℕ)
sent = (MessageType.token, payload) ∷ []

-- A frame with the rest of another behind it.
abbrev held : FrameReader
held = record { buf = 0 ∷ 0 ∷ 0 ∷ 3 ∷ 6 ∷ 123 ∷ 125 ∷ 0 ∷ 0 ∷ [] }

next-eq-frame_example : (held.buf ≡ be32 3 ++ (6 ∷ payload ++ (0 ∷ 0 ∷ []))) × Fits payload
unfolding next read_be32
next-eq-frame_example =
    next-eq-frame held (record { buf = 0 ∷ 0 ∷ [] }) 6 payload
      (
        omega arith,
        (
          omega arith,
          (
            omega arith,
            (
              omega arith,
              (omega arith, (omega arith, (omega arith, (omega arith, (omega arith, tt))))),
            ),
          ),
        ),
      )
      refl

next_bad_length_example :
    next (record { buf = be32 0 ++ payload })
    ≡ (corrupt zero_length_frame, record { buf = be32 0 ++ payload })
next_bad_length_example = next_bad_length 0 payload (omega arith) (inl refl)

abbrev as_envelope : JsonBytes
as_envelope = writes_as (envelope grant) payload

decode_envelope-tag_wraps_example :
    let wide =
      Fields.field
        (codes "payload")
        (message_to_json grant)
        (Fields.field (codes "type") (Json.number_unsigned (6 + 1 * 2 ^ 32)) Fields.end) in
    decode_envelope as_payload (Json.object wide)
    ≡ of_result (json_to_message (λ d. 0) 6 (message_to_json grant))
unfolding tag_byte
decode_envelope-tag_wraps_example =
    decode_envelope-tag_wraps as_payload MessageType.token 1 (message_to_json grant)

read_chunk_enough_example : drain 20 (append held (3 ∷ [])) ≡ read_chunk held (3 ∷ [])
unfolding append
read_chunk_enough_example = read_chunk_enough held (3 ∷ []) 20 (omega arith)

abbrev host_peer : Peer
host_peer = init true

turns-emit_all_example :
    (s : ChannelState) × (emit_all as_envelope (grant ∷ []) (emitted (holding [])) ≡ emitted s)
    × (turns as_envelope (λ e. []) (λ e. []) 1 s host_peer ≡ (
      holding [],
      (dispatch_all (grant ∷ []) host_peer).0,
      (dispatch_all (grant ∷ []) host_peer).1,
    ))
unfolding encode_web_message
turns-emit_all_example =
    turns-emit_all as_envelope (λ e. []) (λ e. []) (grant ∷ []) host_peer
      ((tt, refl, (payload, refl)), tt) refl
