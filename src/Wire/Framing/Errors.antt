-- ===== src/Wire/Framing/Errors.antt =====
-- What `FrameReader::next` hands on, and what it throws on (rpc_framing.cpp).
use logos_protocol.Base.{
  ◌⊎◌, if◌then◌else◌, ◌==◌, ℕ, zero, suc, ◌+◌, ◌-◌, ◌^◌, ◌≤◌, ◌<◌, ◌≡◌, refl, ◌∙◌, ap, List, [],
  ◌∷◌, ◌++◌, length, take, drop, byte_at, arith, All,
}
use logos_protocol.Base.Bits.{bytes-bit_or}
use logos_protocol.Wire.Framing.{
  zero_length_frame, frame_length_exceeds_cap, max_frame_length, read_be32, FrameReader, next,
  frame, corrupt,
}
use logos_protocol.Wire.Framing.Header.{be32, Fits, read_be32-be32}

abbrev pub IsByte : ℕ → Type 0
IsByte b = b < 256

-- The four length bytes are the big-endian form of the length that is read.
be32-read_be32 :
    (a b c d : ℕ) (rest : List ℕ)
    → IsByte a
    → IsByte b
    → IsByte c
    → IsByte d
    → a ∷ b ∷ c ∷ d ∷ rest ≡ be32 (read_be32 (a ∷ b ∷ c ∷ d ∷ rest)) ++ rest
unfolding read_be32
be32-read_be32 a b c d rest ha hb hc hd = rw (bytes-bit_or a b c d ha hb hc hd) (ground arith)

take-drop-length :
    (n : ℕ) (xs : List ℕ) → n ≤ length xs → (xs ≡ take n xs ++ drop n xs) × (length (take n xs) ≡ n)
take-drop-length zero xs h = (refl, refl)
take-drop-length (suc n) [] h = absurd (omega arith)
take-drop-length (suc n) (x ∷ xs) h =
    let (p, q) = take-drop-length n xs (omega arith) in (ap (λ (l : List ℕ). x ∷ l) p, ap suc q)

-- What the tests of `next` say where it hands on a frame.
next_facts :
    (r r' : FrameReader) (tag : ℕ) (payload : List ℕ)
    → next r ≡ (frame tag payload, r')
    → (4 ≤ length r.buf)
      × (0 < read_be32 r.buf)
      × (read_be32 r.buf ≤ max_frame_length)
      × (4 + read_be32 r.buf ≤ length r.buf)
      × (tag ≡ byte_at r.buf 4)
      × (payload ≡ take (4 + read_be32 r.buf - 5) (drop 5 r.buf))
      × (r'.buf ≡ drop (4 + read_be32 r.buf) r.buf)
unfolding next
next_facts r r' tag payload e = ground arith

next-eq-frame_of_buf :
    (buf : List ℕ) (r' : FrameReader) (tag : ℕ) (payload : List ℕ)
    → All IsByte buf
    → next (record { buf = buf }) ≡ (frame tag payload, r')
    → (buf ≡ be32 (1 + length payload) ++ (tag ∷ payload ++ r'.buf)) × Fits payload
next-eq-frame_of_buf (a ∷ b ∷ c ∷ d ∷ t ∷ rest) r' tag payload (ha, (hb, (hc, (hd, h)))) e =
    let (_, pos, le, fits, same, p, q) = next_facts _ r' tag payload e in
    let n : ℕ = read_be32 (a ∷ b ∷ c ∷ d ∷ t ∷ rest) in
    let (cut, len) = take-drop-length (n - 1) rest (omega arith) in
    let p' : payload ≡ take (n - 1) rest =
      p ∙ ap (λ (k : ℕ). take k rest) {y = n - 1} (omega arith) in
    let q' : r'.buf ≡ drop (n - 1) rest =
      q
      ∙ ap (λ (k : ℕ). drop k (a ∷ b ∷ c ∷ d ∷ t ∷ rest)) {y = suc (suc (suc (suc (suc (n - 1)))))}
          (omega arith) in
    let size : 1 + length payload ≡ n = omega (arith, ap length p') in
    (rw (size, same, p', q', ← cut) (be32-read_be32 a b c d (t ∷ rest) ha hb hc hd), omega arith)
next-eq-frame_of_buf _ r' tag payload h e = absurd (omega (arith, next_facts _ r' tag payload e))

-- A frame that is handed on was in front of the buffer, in the form that `encode_frame` writes for
-- its payload and tag byte, and the rest of the buffer is kept.
pub next-eq-frame :
    (r r' : FrameReader) (tag : ℕ) (payload : List ℕ)
    → All IsByte r.buf
    → next r ≡ (frame tag payload, r')
    → (r.buf ≡ be32 (1 + length payload) ++ (tag ∷ payload ++ r'.buf)) × Fits payload
next-eq-frame r r' tag payload h e = next-eq-frame_of_buf r.buf r' tag payload h e

-- A 32-bit length of zero, or one above the limit, throws whatever follows it, and nothing is taken.
pub next_bad_length :
    (n : ℕ) (rest : List ℕ)
    → n < 2 ^ 32
    → (n ≡ 0) ⊎ (max_frame_length < n)
    → next (record { buf = be32 n ++ rest }) ≡ (
      corrupt (if n == 0 then zero_length_frame else frame_length_exceeds_cap),
      record { buf = be32 n ++ rest },
    )
unfolding next
next_bad_length n rest h bad = ground (arith, read_be32-be32 n rest h)
