-- ===== src/Codec/Base64.antt =====
-- Unpadded base64url: `b64UrlEncode`, `b64UrlDecode` and `b64UrlDecodeChecked` of
-- cpp/logos_codec.h. A `char` is its code; `x & (2^k - 1)` is written as a remainder.
pub mod Alphabet
pub mod Loops
pub mod RoundTrip
use Prim.Native.Nat.{bit_or}
use logos_protocol.Base.{
  ℕ, ◌+◌, ◌-◌, ◌%◌, ◌^◌, Bool, true, false, ◌&&◌, Option, none, some, List, [], ◌∷◌, ◌++◌, length,
  Text, codes, byte_at, leb, ◌==◌, if◌then◌else◌,
}
use logos_protocol.Base.Bits.{shl32, shr}

abbrev pub alpha : Text
alpha = codes "ABCDEFGHIJKLMNOPQRSTUVWXYZabcdefghijklmnopqrstuvwxyz0123456789-_"

-- `alpha[(n >> k) & 0x3f]`
pub sextet : ℕ → ℕ → ℕ
sextet n k = byte_at alpha (shr n k % 2 ^ 6)

unfoldable pub b64_url_encode : List ℕ → Text
b64_url_encode [] = []
b64_url_encode (a ∷ []) = let n = shl32 a 16 in sextet n 18 ∷ sextet n 12 ∷ []
b64_url_encode (a ∷ b ∷ []) =
    let n = bit_or (shl32 a 16) (shl32 b 8) in sextet n 18 ∷ sextet n 12 ∷ sextet n 6 ∷ []
b64_url_encode (a ∷ b ∷ c ∷ rest) =
    let n = bit_or (bit_or (shl32 a 16) (shl32 b 8)) c in
    sextet n 18 ∷ sextet n 12 ∷ sextet n 6 ∷ sextet n 0 ∷ b64_url_encode rest

-- The lambda `idx`; `none` is its -1.
unfoldable pub idx : ℕ → Option ℕ
idx ch =
    if leb b'A' ch && leb ch b'Z'
    then some (ch - b'A')
    else if leb b'a' ch && leb ch b'z'
    then some (ch - b'a' + 26)
    else if leb b'0' ch && leb ch b'9'
    then some (ch - b'0' + 52)
    else if ch == b'-'
    then some 62
    else if ch == b'_'
    then some 63
    else none

-- The variables of the decoding loops.
pub record Window : Type 0 where
  pub buf : ℕ
  pub bits : ℕ
  pub out : List ℕ

abbrev pub start : Window
start = record { buf = 0; bits = 0; out = [] }

-- The rest of a round, for a character of value `v`.
unfoldable pub push : Window → ℕ → Window
push w v =
    let buf = bit_or (shl32 w.buf 6) v in
    let bits = w.bits + 6 in
    if leb 8 bits
    then record { buf = buf; bits = bits - 8; out = w.out ++ (shr buf (bits - 8) % 2 ^ 8 ∷ []) }
    else record { buf = buf; bits = bits; out = w.out }

-- A character outside the alphabet is skipped.
pub decode_loop : Text → Window → Window
decode_loop [] w = w
decode_loop (ch ∷ rest) w = decode_loop rest (elim (idx ch) [ none ↦ w | some v ↦ push w v ])

unfoldable pub b64_url_decode : Text → List ℕ
b64_url_decode s = (decode_loop s start).out

-- Here it ends the decoding: `none` is the answer false, with the output cleared.
unfoldable pub checked_loop : Text → Window → Option (List ℕ)
checked_loop [] w = some w.out
checked_loop (ch ∷ rest) w = elim (idx ch) [ none ↦ none | some v ↦ checked_loop rest (push w v) ]

-- `while (!body.empty() && body.back() == '=') body.pop_back()`
unfoldable pub strip_padding : Text → Text
strip_padding [] = []
strip_padding (ch ∷ rest) = elim (strip_padding rest) [
  | [] ↦ if ch == b'=' then [] else ch ∷ []
  | last ∷ more ↦ ch ∷ last ∷ more
]

unfoldable pub b64_url_decode_checked : Text → Option (List ℕ)
b64_url_decode_checked s =
    let body = strip_padding s in if length body % 4 == 1 then none else checked_loop body start
