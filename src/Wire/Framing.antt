-- ===== src/Wire/Framing.antt =====
-- Wire framing: cpp/implementations/plain/rpc_framing.{h,cpp}. A frame is a big-endian 32-bit
-- length, a tag byte and a payload; the length counts the tag and the payload.
pub mod Header
pub mod Reader
pub mod Chunks
pub mod Fuel
pub mod Errors
use Prim.Native.Nat.{bit_or}
use logos_protocol.Base.{
  ℕ, zero, suc, ◌+◌, ◌-◌, ◌*◌, ◌%◌, ◌^◌, Bool, true, false, List, [], ◌∷◌, ◌++◌, length, take, drop,
  byte_at, ltb, ◌==◌, if◌then◌else◌,
}
use logos_protocol.Base.Bits.{shl32, shr, u8}

-- The eight kinds of message, with the tag byte of each.
pub data MessageType : Type 0 where
  call result subscribe unsubscribe event token methods methods_result : MessageType

unfoldable pub tag_byte : MessageType → ℕ
tag_byte call = 1
tag_byte result = 2
tag_byte subscribe = 3
tag_byte unsubscribe = 4
tag_byte event = 5
tag_byte token = 6
tag_byte methods = 7
tag_byte methods_result = 8

pub data FramingError : Type 0 where
  frame_too_large zero_length_frame frame_length_exceeds_cap : FramingError

abbrev pub max_frame_length : ℕ
max_frame_length = 16 * 1024 * 1024

-- `push_back` of the four bytes of `n`, highest first.
unfoldable pub write_be32 : List ℕ → ℕ → List ℕ
write_be32 out n = out ++ (u8 (shr n 24) ∷ u8 (shr n 16) ∷ u8 (shr n 8) ∷ u8 n ∷ [])

-- Reads `p[0]` to `p[3]`; the caller has seen that they are there.
unfoldable pub read_be32 : List ℕ → ℕ
read_be32 (a ∷ b ∷ c ∷ d ∷ rest) = bit_or (bit_or (bit_or (shl32 a 24) (shl32 b 16)) (shl32 c 8)) d
read_be32 _ = 0

pub data Encoded : Type 0 where
  bytes : List ℕ → Encoded
  refused : FramingError → Encoded

unfoldable pub encode_frame : MessageType → List ℕ → Encoded
unfolding write_be32
encode_frame tag payload =
    let body_len = 1 + length payload in
    if ltb max_frame_length body_len
    then refused frame_too_large
    else bytes ((write_be32 [] (body_len % 2 ^ 32) ++ (tag_byte tag ∷ [])) ++ payload)

-- What a `FrameReader` has been fed and has not yet handed out.
pub record FrameReader : Type 0 where
  pub buf : List ℕ

unfoldable pub append : FrameReader → List ℕ → FrameReader
append r chunk = record { buf = r.buf ++ chunk }

pub buffered : FrameReader → ℕ
buffered r = length r.buf

-- What `next` answers: false, true with a tag byte and a payload, or a throw.
pub data Next : Type 0 where
  incomplete : Next
  frame : ℕ → List ℕ → Next
  corrupt : FramingError → Next

unfoldable pub next : FrameReader → Next × FrameReader
next r =
    if ltb (length r.buf) 4
    then (incomplete, r)
    else let body_len = read_be32 r.buf in
      if body_len == 0
      then (corrupt zero_length_frame, r)
      else if ltb max_frame_length body_len
      then (corrupt frame_length_exceeds_cap, r)
      else let total = 4 + body_len in
        if ltb (length r.buf) total then (incomplete, r) else (
          frame (byte_at r.buf 4) (take (total - 5) (drop 5 r.buf)),
          record { buf = drop total r.buf },
        )
