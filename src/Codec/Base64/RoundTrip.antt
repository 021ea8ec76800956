-- ===== src/Codec/Base64/RoundTrip.antt =====
-- Decoding what `b64UrlEncode` wrote, with either decoder of cpp/logos_codec.h.
use Prim.Native.Nat.{bit_or}
use logos_protocol.Base.{
  ℕ, ◌+◌, ◌*◌, ◌/◌, ◌%◌, ◌^◌, ◌<◌, ◌≡◌, refl, sym, ◌∙◌, ap, ap₂, false, some, List, [], ◌∷◌, ◌++◌,
  length, append_assoc, append-nil, Text, arith, ◌==◌, All,
}
use logos_protocol.Base.Bits.{shl32, shr}
use logos_protocol.Codec.Base64.{
  sextet, b64_url_encode, Window, push, b64_url_decode, checked_loop, strip_padding,
  b64_url_decode_checked,
}
use logos_protocol.Codec.Base64.Alphabet.{idx-sextet, sextet-ne-padding}
use logos_protocol.Codec.Base64.Loops.{
  shift_in, two_bytes, three_bytes, b64_url_decode_checked-agrees,
}

abbrev pub IsByte : ℕ → Type 0
IsByte b = b < 256

abbrev at_rest : ℕ → List ℕ → Window
at_rest buf out = record { buf = buf; bits = 0; out = out }

-- What the last two of the characters so far give, with four, two or no bits left over.
module _ (buf u v : ℕ) (hu : u < 64) (hv : v < 64) where
  abbrev both : ℕ
  both = bit_or (shl32 (bit_or (shl32 buf 6) u) 6) v

  both_lem : both ≡ (buf % 2 ^ 26 * 64 + u) % 2 ^ 26 * 64 + v
  both_lem = rw (shift_in buf u hu) (shift_in (buf % 2 ^ 26 * 64 + u) v hv)

  four_left : shr both 4 % 2 ^ 8 ≡ u * 4 + v / 16
  four_left = omega (arith, both_lem)

  two_left : shr both 2 % 2 ^ 8 ≡ u % 16 * 16 + v / 4
  two_left = omega (arith, both_lem)

  none_left : shr both 0 % 2 ^ 8 ≡ u % 4 * 64 + v
  none_left = omega (arith, both_lem)

ap₃ :
    {A : Type 0} (f : ℕ → ℕ → ℕ → A) {x x' y y' z z' : ℕ}
    → x ≡ x'
    → y ≡ y'
    → z ≡ z'
    → f x y z ≡ f x' y' z'
ap₃ f p q r = λ i. f (p i) (q i) (r i)

append_three :
    (out : List ℕ) (x y z : ℕ)
    → ((out ++ (x ∷ [])) ++ (y ∷ [])) ++ (z ∷ []) ≡ out ++ (x ∷ y ∷ z ∷ [])
append_three out x y z = simp append_assoc

-- Two, three and four characters bring in one, two and three bytes.
module _ (t u v w buf : ℕ) (out : List ℕ) (ht : t < 64) (hu : u < 64) (hv : v < 64)
    (hw : w < 64) where
  push_two : (push (push (at_rest buf out) t) u).out ≡ out ++ ((t * 4 + u / 16) ∷ [])
  unfolding push
  push_two = ap (λ (x : ℕ). out ++ (x ∷ [])) (four_left buf t u ht hu)

  push_three :
      (push (push (push (at_rest buf out) t) u) v).out
      ≡ out ++ ((t * 4 + u / 16) ∷ (u % 16 * 16 + v / 4) ∷ [])
  unfolding push
  push_three =
      append_assoc out _ _
      ∙ ap₂ (λ (x y : ℕ). out ++ (x ∷ y ∷ [])) (four_left buf t u ht hu)
          (two_left (bit_or (shl32 buf 6) t) u v hu hv)

  push_four :
      (buf' : ℕ) × (push (push (push (push (at_rest buf out) t) u) v) w
        ≡ at_rest buf' (out ++ ((t * 4 + u / 16) ∷ (u % 16 * 16 + v / 4) ∷ (v % 4 * 64 + w) ∷ [])))
  unfolding push
  push_four = (
    _,
    ap (at_rest _) (
        append_three out _ _ _
        ∙ ap₃ (λ (x y z : ℕ). out ++ (x ∷ y ∷ z ∷ [])) (four_left buf t u ht hu)
            (two_left (bit_or (shl32 buf 6) t) u v hu hv)
            (none_left (bit_or (shl32 (bit_or (shl32 buf 6) t) 6) u) v w hv hw)),
  )

checked_loop-sextet :
    (n k : ℕ) (rest : Text) (w : Window)
    → checked_loop (sextet n k ∷ rest) w ≡ checked_loop rest (push w (shr n k % 64))
unfolding checked_loop
checked_loop-sextet n k rest w = rw (idx-sextet n k, checked_loop)

checked_loop-nil : (w : Window) → checked_loop [] w ≡ some w.out
unfolding checked_loop
checked_loop-nil w = refl

checked_loop-b64_url_encode :
    (bytes : List ℕ) (buf : ℕ) (out : List ℕ)
    → All IsByte bytes
    → checked_loop (b64_url_encode bytes) (at_rest buf out) ≡ some (out ++ bytes)
unfolding b64_url_encode
checked_loop-b64_url_encode [] buf out h = unfold checked_loop in ap some (sym (append-nil out))
checked_loop-b64_url_encode (a ∷ []) buf out h =
    let n = shl32 a 16 in
    checked_loop-sextet n 18 _ _
    ∙ checked_loop-sextet n 12 _ _
    ∙ checked_loop-nil _
    ∙ ap some (
        push_two (shr n 18 % 64) (shr n 12 % 64) 0 0 buf out (omega arith) (omega arith)
          (omega arith) (omega arith)
        ∙ ap (λ (x : ℕ). out ++ (x ∷ [])) {y = a} (omega arith))
checked_loop-b64_url_encode (a ∷ b ∷ []) buf out (ha, (hb, _)) =
    let n = bit_or (shl32 a 16) (shl32 b 8) in
    let e = two_bytes a b ha hb in
    checked_loop-sextet n 18 _ _
    ∙ checked_loop-sextet n 12 _ _
    ∙ checked_loop-sextet n 6 _ _
    ∙ checked_loop-nil _
    ∙ ap some (
        push_three (shr n 18 % 64) (shr n 12 % 64) (shr n 6 % 64) 0 buf out (omega arith)
          (omega arith) (omega arith) (omega arith)
        ∙ ap₂ (λ (x y : ℕ). out ++ (x ∷ y ∷ [])) {y = a} {v = b} (omega (arith, e))
            (omega (arith, e)))
checked_loop-b64_url_encode (a ∷ b ∷ c ∷ rest) buf out (ha, (hb, (hc, h))) =
    let n = bit_or (bit_or (shl32 a 16) (shl32 b 8)) c in
    let e = three_bytes a b c ha hb hc in
    let (buf', four) =
      push_four (shr n 18 % 64) (shr n 12 % 64) (shr n 6 % 64) (shr n 0 % 64) buf out (omega arith)
        (omega arith) (omega arith) (omega arith) in
    checked_loop-sextet n 18 _ _
    ∙ checked_loop-sextet n 12 _ _
    ∙ checked_loop-sextet n 6 _ _
    ∙ checked_loop-sextet n 0 _ _
    ∙ ap (checked_loop (b64_url_encode rest)) (
        four
        ∙ ap₃ (λ (x y z : ℕ). at_rest buf' (out ++ (x ∷ y ∷ z ∷ []))) {x' = a} {y' = b} {z' = c}
            (omega (arith, e)) (omega (arith, e)) (omega (arith, e)))
    ∙ checked_loop-b64_url_encode rest buf' (out ++ (a ∷ b ∷ c ∷ [])) h
    ∙ ap some (append_assoc out (a ∷ b ∷ c ∷ []) rest)

strip_padding-sextet :
    (n k : ℕ) (rest : Text)
    → strip_padding rest ≡ rest
    → strip_padding (sextet n k ∷ rest) ≡ sextet n k ∷ rest
unfolding strip_padding
strip_padding-sextet n k [] e = rw (sextet-ne-padding n k)
strip_padding-sextet n k (ch ∷ rest) e = rw (e, strip_padding)

strip_padding-b64_url_encode :
    (bytes : List ℕ) → strip_padding (b64_url_encode bytes) ≡ b64_url_encode bytes
unfolding b64_url_encode
strip_padding-b64_url_encode [] = unfold strip_padding in refl
strip_padding-b64_url_encode (a ∷ []) =
    strip_padding-sextet _ 18 _ (strip_padding-sextet _ 12 [] (unfold strip_padding in refl))
strip_padding-b64_url_encode (a ∷ b ∷ []) =
    strip_padding-sextet _ 18 _
      (strip_padding-sextet _ 12 _ (strip_padding-sextet _ 6 [] (unfold strip_padding in refl)))
strip_padding-b64_url_encode (a ∷ b ∷ c ∷ rest) = strip_padding-sextet _ 18 _ (
    strip_padding-sextet _ 12 _
      (strip_padding-sextet _ 6 _ (strip_padding-sextet _ 0 _ (strip_padding-b64_url_encode rest))))

-- Four characters for three bytes, and two or three for what is left over.
length-b64_url_encode :
    (bytes : List ℕ) → length (b64_url_encode bytes) ≡ (4 * length bytes + 2) / 3
unfolding b64_url_encode
length-b64_url_encode [] = omega arith
length-b64_url_encode (a ∷ []) = omega arith
length-b64_url_encode (a ∷ b ∷ []) = omega arith
length-b64_url_encode (a ∷ b ∷ c ∷ rest) = omega (arith, length-b64_url_encode rest)

-- Both decoders give back the bytes that were encoded.
pub b64_url_decode-b64_url_encode :
    (bytes : List ℕ)
    → All IsByte bytes
    → (b64_url_decode_checked (b64_url_encode bytes) ≡ some bytes)
      × (b64_url_decode (b64_url_encode bytes) ≡ bytes)
unfolding b64_url_decode_checked
b64_url_decode-b64_url_encode bytes h =
    (strict, b64_url_decode_checked-agrees (b64_url_encode bytes) bytes strict)
  where
    good_length : length (b64_url_encode bytes) % 4 == 1 ≡ false
    good_length = ground (arith, length-b64_url_encode bytes)

    strict : b64_url_decode_checked (b64_url_encode bytes) ≡ some bytes
    strict =
        rw (strip_padding-b64_url_encode bytes, good_length)
          (checked_loop-b64_url_encode bytes 0 [] h)
