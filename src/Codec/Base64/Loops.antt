-- ===== src/Codec/Base64/Loops.antt =====
-- The two decoding loops of cpp/logos_codec.h: their arithmetic, and how they agree.
use Prim.Native.Nat.{bit_or}
use logos_protocol.Base.{
  ℕ, ◌+◌, ◌-◌, ◌*◌, ◌/◌, ◌%◌, ◌^◌, ◌<◌, ◌≡◌, refl, sym, ◌∙◌, ap, Bool, true, false, Option, none,
  some, List, [], ◌∷◌, length, length-append, All-append, leb, leb→le, leb→lt, Text, arith, ◌==◌,
  Option-cases, inl, inr, All, Bool-cases, ==→eq, if◌then◌else◌, not, ◌&&◌,
}
use logos_protocol.Base.Bits.{shl32, shr, bit_or-fields}
use logos_protocol.Codec.Base64.{
  idx, Window, start, push, decode_loop, b64_url_decode, checked_loop, strip_padding,
  b64_url_decode_checked,
}
use logos_protocol.Codec.Base64.Alphabet.{idx-padding, base64url, place, idx-place}

-- `(buf << 6) | v` drops the six highest of the 32 bits.
pub shift_in : (buf v : ℕ) → v < 64 → bit_or (shl32 buf 6) v ≡ buf % 2 ^ 26 * 64 + v
shift_in buf v h = rw (masked) (bit_or-fields 6 (buf % 2 ^ 26) v h)
  where
    masked : shl32 buf 6 ≡ buf % 2 ^ 26 * 2 ^ 6
    masked = omega arith

-- Two bytes and three bytes as one number.
pub two_bytes :
    (a b : ℕ) → a < 256 → b < 256 → bit_or (shl32 a 16) (shl32 b 8) ≡ a * 2 ^ 16 + b * 2 ^ 8
two_bytes a b ha hb = rw (wide) (bit_or-fields 16 a (shl32 b 8) (omega arith) ∙ omega arith)
  where
    wide : shl32 a 16 ≡ a * 2 ^ 16
    wide = omega arith

pub three_bytes :
    (a b c : ℕ)
    → a < 256
    → b < 256
    → c < 256
    → bit_or (bit_or (shl32 a 16) (shl32 b 8)) c ≡ a * 2 ^ 16 + b * 2 ^ 8 + c
three_bytes a b c ha hb hc =
    rw (two_bytes a b ha hb ∙ grouped)
      (bit_or-fields 8 (a * 2 ^ 8 + b) c (omega arith) ∙ omega arith)
  where
    grouped : a * 2 ^ 16 + b * 2 ^ 8 ≡ (a * 2 ^ 8 + b) * 2 ^ 8
    grouped = omega arith

-- A text that the strict loop accepts is decoded to the same bytes by the tolerant one.
pub checked_loop-decode_loop :
    (s : Text) (w : Window) (bytes : List ℕ)
    → checked_loop s w ≡ some bytes
    → (decode_loop s w).out ≡ bytes
unfolding checked_loop decode_loop
checked_loop-decode_loop [] w bytes e = cc
checked_loop-decode_loop (ch ∷ rest) w bytes e = elim (Option-cases (idx ch)) [
  | inl missing ↦ cc (rw (missing, checked_loop) at e)
  | inr (v, found) ↦
      rw (found, decode_loop)
        (checked_loop-decode_loop rest (push w v) bytes (rw (found, checked_loop) at e))
]

abbrev one_round : ℕ → Window → Window
one_round ch w = elim (idx ch) [ none ↦ w | some v ↦ push w v ]

abbrev keep_or_drop : ℕ → Text → Text
keep_or_drop ch t = elim t [
  | [] ↦ if ch == b'=' then [] else ch ∷ []
  | last ∷ more ↦ ch ∷ last ∷ more
]

-- The tolerant loop skips padding, so it does not see whether it was stripped.
decode_loop-strip_padding :
    (s : Text) (w : Window) → decode_loop (strip_padding s) w ≡ decode_loop s w
unfolding strip_padding decode_loop
decode_loop-strip_padding [] w = refl
decode_loop-strip_padding (ch ∷ rest) w =
    stripped (strip_padding rest) (sym (decode_loop-strip_padding rest (one_round ch w)))
      (λ n. sym (decode_loop-strip_padding rest w))
  where
    stripped :
        (t : Text)
        → decode_loop rest (one_round ch w) ≡ decode_loop t (one_round ch w)
        → (t ≡ [] → decode_loop rest w ≡ decode_loop t w)
        → decode_loop (keep_or_drop ch t) w ≡ decode_loop rest (one_round ch w)
    stripped [] e f = elim (Bool-cases (ch == b'=')) [
      | inl padding ↦
          rw (padding) (ground (arith, f refl, ap idx (==→eq ch b'=' padding), idx-padding))
      | inr other ↦ rw (other) (sym e)
    ]
    stripped (last ∷ more) e f = sym e

-- What the strict decoder accepts, the tolerant decoder decodes to the same bytes.
pub b64_url_decode_checked-agrees :
    (s : Text) (bytes : List ℕ) → b64_url_decode_checked s ≡ some bytes → b64_url_decode s ≡ bytes
unfolding b64_url_decode b64_url_decode_checked
b64_url_decode_checked-agrees s bytes e =
    ap (λ (w : Window). w.out) (sym (decode_loop-strip_padding s start))
    ∙ checked_loop-decode_loop (strip_padding s) start bytes (ground arith)

abbrev pub is_some {ℓ} : {A : Type ℓ} → Option A → Bool
is_some none = false
is_some (some a) = true

-- Each character has a place in the alphabet as it is written out.
pub all_in_alphabet : Text → Bool
all_in_alphabet [] = true
all_in_alphabet (ch ∷ rest) = is_some (place 0 ch base64url) && all_in_alphabet rest

checked_loop-is_some : (s : Text) (w : Window) → is_some (checked_loop s w) ≡ all_in_alphabet s
unfolding checked_loop all_in_alphabet
checked_loop-is_some [] w = refl
checked_loop-is_some (ch ∷ rest) w = elim (Option-cases (idx ch)) [
  | inl missing ↦ rw (← idx-place, missing, checked_loop) refl
  | inr (v, found) ↦ rw (← idx-place, found, checked_loop) (checked_loop-is_some rest (push w v))
]

-- The strict decoder accepts a text exactly when, without its padding, all of its characters are in
-- the alphabet of base64url and its length is not one more than a multiple of four.
pub b64_url_decode_checked_iff :
    (s : Text)
    → is_some (b64_url_decode_checked s)
      ≡ not (length (strip_padding s) % 4 == 1) && all_in_alphabet (strip_padding s)
unfolding b64_url_decode_checked
b64_url_decode_checked_iff s = elim (Bool-cases (length (strip_padding s) % 4 == 1)) [
  | inl bad ↦ rw bad
  | inr good ↦ rw good (checked_loop-is_some (strip_padding s) start)
]

-- Six bits come in with each character and eight go out with each byte.
record Counted (n : ℕ) (w : Window) : Type 0 where
  pub total : 8 * length w.out + w.bits ≡ n
  pub pending : w.bits < 8
  pub in_range : All (λ b. b < 256) w.out

push-Counted : (n v : ℕ) (w : Window) → Counted n w → Counted (n + 6) (push w v)
unfolding push
push-Counted n v w c = elim (Bool-cases (leb 8 (w.bits + 6))) [
  | inl full ↦
      rw (full, push)
        (record {
          total =
              omega
                (arith, length-append w.out (written ∷ []), leb→le 8 (w.bits + 6) full, c.total);
          pending = omega (arith, c.pending);
          in_range = All-append (λ b. b < 256) w.out (written ∷ []) c.in_range (omega arith, tt);
        })
  | inr short ↦
      rw (short, push)
        (record {
          total = omega (arith, c.total);
          pending = omega (arith, leb→lt 8 (w.bits + 6) short);
          in_range = c.in_range;
        })
]
  where
    written : ℕ
    written = shr (bit_or (shl32 w.buf 6) v) (w.bits + 6 - 8) % 2 ^ 8

checked_loop-Counted :
    (s : Text) (n : ℕ) (w : Window) (bytes : List ℕ)
    → Counted n w
    → checked_loop s w ≡ some bytes
    → (length bytes ≡ (n + 6 * length s) / 8) × All (λ b. b < 256) bytes
unfolding checked_loop
checked_loop-Counted [] n w bytes c e =
    let same : w.out ≡ bytes = cc in rw (← same) (omega (arith, c.total, c.pending), c.in_range)
checked_loop-Counted (ch ∷ rest) n w bytes c e = elim (Option-cases (idx ch)) [
  | inl missing ↦ cc (rw (missing, checked_loop) at e)
  | inr (v, found) ↦
      let (len, all) =
        checked_loop-Counted rest (n + 6) (push w v) bytes (push-Counted n v w c)
          (rw (found, checked_loop) at e) in
      (omega (arith, len), all)
]

-- A text that the strict decoder accepts gives three bytes for every four characters, with the odd
-- bits dropped, and each is a byte.
pub length-b64_url_decode_checked :
    (s : Text) (bytes : List ℕ)
    → b64_url_decode_checked s ≡ some bytes
    → (length bytes ≡ 6 * length (strip_padding s) / 8) × All (λ b. b < 256) bytes
unfolding b64_url_decode_checked
length-b64_url_decode_checked s bytes e =
    let (len, all) =
      checked_loop-Counted (strip_padding s) 0 start bytes
        (record { total = omega arith; pending = omega arith; in_range = tt }) (ground arith) in
    (omega (arith, len), all)

-- The strict decoder accepts a text exactly when, without its padding, all of its characters are in
-- the alphabet of base64url and its length is not one more than a multiple of four. What it accepts, the tolerant
-- decoder decodes to the same bytes: three for every four characters but the padding, with the odd
-- bits dropped, and each is a byte.
pub b64_url_decode_checked_decodes :
    (text s : Text) (bytes : List ℕ)
    → b64_url_decode_checked s ≡ some bytes
    → (is_some (b64_url_decode_checked text)
        ≡ not (length (strip_padding text) % 4 == 1) && all_in_alphabet (strip_padding text))
      × (b64_url_decode s ≡ bytes)
      × (length bytes ≡ 6 * length (strip_padding s) / 8)
      × All (λ b. b < 256) bytes
b64_url_decode_checked_decodes text s bytes e =
    let (len, all) = length-b64_url_decode_checked s bytes e in
    (b64_url_decode_checked_iff text, b64_url_decode_checked-agrees s bytes e, len, all)
