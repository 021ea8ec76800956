-- ===== src/Tests/Codecs.antt =====
-- Values and base64 at concrete inputs.
use logos_protocol.Base.{◌*◌, ◌/◌, ◌<◌, ◌≡◌, refl, some, [], ◌∷◌, arith, All, codes, length}
use logos_protocol.Codec.Base64.{
  b64_url_encode, b64_url_decode, b64_url_decode_checked, strip_padding, checked_loop, push, idx,
}
use logos_protocol.Codec.Base64.RoundTrip.{b64_url_decode-b64_url_encode}
use logos_protocol.Codec.Base64.Loops.{b64_url_decode_checked_decodes, is_some, all_in_alphabet}

b64_url_decode-b64_url_encode_example :
    (b64_url_decode_checked (b64_url_encode (104 ∷ 255 ∷ [])) ≡ some (104 ∷ 255 ∷ []))
    × (b64_url_decode (b64_url_encode (104 ∷ 255 ∷ [])) ≡ 104 ∷ 255 ∷ [])
b64_url_decode-b64_url_encode_example =
    b64_url_decode-b64_url_encode (104 ∷ 255 ∷ []) (omega arith, (omega arith, tt))

b64_url_decode_checked_decodes_example :
    (is_some (b64_url_decode_checked (codes "a*")) ≡ all_in_alphabet (strip_padding (codes "a*")))
    × (b64_url_decode (codes "aP8=") ≡ 104 ∷ 255 ∷ [])
    × (2 ≡ 6 * length (strip_padding (codes "aP8=")) / 8)
    × All (λ b. b < 256) (104 ∷ 255 ∷ [])
unfolding b64_url_decode_checked strip_padding checked_loop push idx
b64_url_decode_checked_decodes_example =
    b64_url_decode_checked_decodes (codes "a*") (codes "aP8=") (104 ∷ 255 ∷ []) refl
