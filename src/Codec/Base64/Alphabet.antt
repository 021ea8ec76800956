-- ===== src/Codec/Base64/Alphabet.antt =====
-- The alphabet of cpp/logos_codec.h, and the places of its characters.
use logos_protocol.Base.{
  ℕ, zero, suc, ◌+◌, ◌%◌, ◌<◌, ◌≡◌, refl, sym, ap, ◌∙◌, Text, codes, [], ◌∷◌, ltb, leb, leb→lt,
  Bool-cases, inl, inr, Bool, true, false, ◌&&◌, Option, none, some, arith, byte_at, ◌==◌,
  if◌then◌else◌, ==→eq,
}
use logos_protocol.Base.Bits.{shr}
use logos_protocol.Codec.Base64.{alpha, sextet, idx}

-- Over a small range, check every value by evaluation.
every_below : ℕ → (ℕ → Bool) → Bool
every_below zero p = true
every_below (suc n) p = p n && every_below n p

every_below_sound : (n : ℕ) (p : ℕ → Bool) (x : ℕ) → every_below n p ≡ true → x < n → p x ≡ true
unfolding every_below
every_below_sound zero p x h lt = absurd (omega arith)
every_below_sound (suc n) p x h lt = ground (arith, every_below_sound n p x)

abbrev is_value : Option ℕ → ℕ → Bool
is_value none v = false
is_value (some w) v = w == v

is_value→eq : (o : Option ℕ) (v : ℕ) → is_value o v ≡ true → o ≡ some v
is_value→eq none v h = cc
is_value→eq (some w) v h = ground (arith, ==→eq w v h)

alpha_table : every_below 64 (λ v. is_value (idx (byte_at alpha v)) v) ≡ true
unfolding every_below idx
alpha_table = refl

pub idx-alpha : (v : ℕ) → v < 64 → idx (byte_at alpha v) ≡ some v
idx-alpha v h = is_value→eq _ v (every_below_sound 64 _ v alpha_table h)

padding_table : every_below 64 (λ v. if byte_at alpha v == b'=' then false else true) ≡ true
unfolding every_below
padding_table = refl

-- The alphabet of base64url, written out (RFC 4648, table 2).
abbrev pub base64url : Text
base64url = codes "ABCDEFGHIJKLMNOPQRSTUVWXYZabcdefghijklmnopqrstuvwxyz0123456789-_"

-- The place of a character in a text, counted from `n`.
pub place : ℕ → ℕ → Text → Option ℕ
place n ch [] = none
place n ch (c ∷ rest) = if ch == c then some n else place (n + 1) ch rest

abbrev same_place : Option ℕ → Option ℕ → Bool
same_place none none = true
same_place (some v) (some w) = v == w
same_place none (some w) = false
same_place (some v) none = false

same_place→eq : (o p : Option ℕ) → same_place o p ≡ true → o ≡ p
same_place→eq none none h = refl
same_place→eq (some v) (some w) h = ap some (==→eq v w h)
same_place→eq none (some w) h = cc
same_place→eq (some v) none h = cc

abbrev all_below : ℕ → Text → Bool
all_below n [] = true
all_below n (c ∷ rest) = ltb c n && all_below n rest

place_beyond :
    (n m ch : ℕ) (s : Text) → all_below n s ≡ true → leb n ch ≡ true → place m ch s ≡ none
unfolding place
place_beyond n m ch [] h e = refl
place_beyond n m ch (c ∷ rest) h e = ground (arith, place_beyond n (m + 1) ch rest)

places_table : every_below 128 (λ ch. same_place (idx ch) (place 0 ch base64url)) ≡ true
unfolding every_below idx place
places_table = refl

base64url_small : all_below 128 base64url ≡ true
base64url_small = refl

idx_beyond : (ch : ℕ) → leb 128 ch ≡ true → idx ch ≡ none
unfolding idx
idx_beyond ch e = ground arith

-- The range tests of `idx` give the place of a character in the alphabet, and none to any other.
pub idx-place : (ch : ℕ) → idx ch ≡ place 0 ch base64url
idx-place ch = elim (Bool-cases (leb 128 ch)) [
  | inl e ↦ idx_beyond ch e ∙ sym (place_beyond 128 0 ch base64url base64url_small e)
  | inr e ↦ same_place→eq _ _ (every_below_sound 128 _ ch places_table (leb→lt 128 ch e))
]

pub alpha-ne-padding : (v : ℕ) → v < 64 → byte_at alpha v == b'=' ≡ false
alpha-ne-padding v h = ground (arith, every_below_sound 64 _ v padding_table h)

pub idx-sextet : (n k : ℕ) → idx (sextet n k) ≡ some (shr n k % 64)
unfolding sextet
idx-sextet n k = idx-alpha (shr n k % 64) (omega arith)

pub idx-padding : idx b'=' ≡ none
unfolding idx
idx-padding = refl

pub idx-lt : (ch v : ℕ) → idx ch ≡ some v → v < 64
unfolding idx
idx-lt ch v e = ground arith

pub sextet-ne-padding : (n k : ℕ) → sextet n k == b'=' ≡ false
unfolding sextet
sextet-ne-padding n k = alpha-ne-padding (shr n k % 64) (omega arith)
