-- ===== src/Wire/Framing/Header.antt =====
-- The bytes of one frame of rpc_framing.cpp, and what `encodeFrame` answers on each branch.
use logos_protocol.Base.{
  ℕ, ◌+◌, ◌%◌, ◌^◌, ◌∙◌, ◌≤◌, ◌<◌, ◌≡◌, refl, List, [], ◌∷◌, ◌++◌, length, arith, le→ltb, lt→ltb,
  dec_le,
}
use logos_protocol.Base.Bits.{shr, u8, bytes-bit_or}
use logos_protocol.Wire.Framing.{
  MessageType, tag_byte, frame_too_large, max_frame_length, read_be32, bytes, refused, encode_frame,
}

abbrev pub be32 : ℕ → List ℕ
be32 n = u8 (shr n 24) ∷ u8 (shr n 16) ∷ u8 (shr n 8) ∷ u8 n ∷ []

-- A whole frame.
abbrev pub encoding : MessageType → List ℕ → List ℕ
encoding tag payload = be32 (1 + length payload) ++ (tag_byte tag ∷ payload)

abbrev pub Fits : List ℕ → Type 0
Fits payload = 1 + length payload ≤ max_frame_length

pub read_be32-be32 : (n : ℕ) (rest : List ℕ) → n < 2 ^ 32 → read_be32 (be32 n ++ rest) ≡ n
unfolding read_be32
read_be32-be32 n rest h =
    bytes-bit_or (u8 (shr n 24)) (u8 (shr n 16)) (u8 (shr n 8)) (u8 n) (omega arith) (omega arith)
      (omega arith) (omega arith)
    ∙ omega arith

pub encode_frame-encoding :
    (tag : MessageType) (payload : List ℕ)
    → Fits payload
    → encode_frame tag payload ≡ bytes (encoding tag payload)
unfolding encode_frame
encode_frame-encoding tag payload h =
    rw (le→ltb max_frame_length (1 + length payload) h, small) refl
  where
    small : (1 + length payload) % 2 ^ 32 ≡ 1 + length payload
    small = omega arith

pub encode_frame-refused :
    (tag : MessageType) (payload : List ℕ)
    → max_frame_length < 1 + length payload
    → encode_frame tag payload ≡ refused frame_too_large
unfolding encode_frame
encode_frame-refused tag payload h = rw (lt→ltb max_frame_length (1 + length payload) h)

pub length-encoding :
    (tag : MessageType) (payload : List ℕ) → length (encoding tag payload) ≡ 5 + length payload
length-encoding tag payload = omega arith

-- A payload that is encoded was within the limit.
pub encode_frame-eq-bytes :
    (tag : MessageType) (payload b : List ℕ)
    → encode_frame tag payload ≡ bytes b
    → (b ≡ encoding tag payload) × Fits payload
encode_frame-eq-bytes tag payload b e = elim (dec_le (1 + length payload) max_frame_length) [
  | yes h ↦ (cc (encode_frame-encoding tag payload h), h)
  | no h ↦ cc (encode_frame-refused tag payload (omega arith))
]
