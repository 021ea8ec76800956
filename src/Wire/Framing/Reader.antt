-- ===== src/Wire/Framing/Reader.antt =====
-- One call of `FrameReader::next`: on a whole frame, on the start of one, and on a bad length.
use logos_protocol.Base.{
  ℕ, ◌+◌, ◌-◌, ◌∙◌, take, drop, ◌≡◌, refl, ◌≢◌, ap, List, [], ◌∷◌, ◌++◌, length, length-append,
  arith, take-append, drop-append,
}
use logos_protocol.Wire.Framing.{MessageType, tag_byte, read_be32, next, incomplete, frame}
use logos_protocol.Wire.Framing.Header.{encoding, Fits, read_be32-be32}

pub next-encoding :
    (tag : MessageType) (payload rest : List ℕ)
    → Fits payload
    → next (record { buf = encoding tag payload ++ rest })
      ≡ (frame (tag_byte tag) payload, record { buf = rest })
unfolding next
next-encoding tag payload rest h =
    ground (arith, header, length-append payload rest, taken, dropped)
  where
    header : read_be32 (encoding tag payload ++ rest) ≡ 1 + length payload
    header = read_be32-be32 (1 + length payload) (tag_byte tag ∷ payload ++ rest) (omega arith)

    dropped : drop (4 + (1 + length payload)) (encoding tag payload ++ rest) ≡ rest
    dropped =
        ap (λ (n : ℕ). drop n (encoding tag payload ++ rest)) {y = length (encoding tag payload)}
          (omega arith)
        ∙ drop-append (encoding tag payload) rest

    taken : take (4 + (1 + length payload) - 5) (payload ++ rest) ≡ payload
    taken =
        ap (λ (n : ℕ). take n (payload ++ rest)) {y = length payload} (omega arith)
        ∙ take-append payload rest

pub next-partial :
    (tag : MessageType) (payload buf tail : List ℕ)
    → Fits payload
    → encoding tag payload ≡ buf ++ tail
    → tail ≢ []
    → next (record { buf = buf }) ≡ (incomplete, record { buf = buf })
unfolding next
next-partial tag payload [] tail h e t = refl
next-partial tag payload (a ∷ []) tail h e t = refl
next-partial tag payload (a ∷ b ∷ []) tail h e t = refl
next-partial tag payload (a ∷ b ∷ c ∷ []) tail h e t = refl
next-partial tag payload (a ∷ b ∷ c ∷ d ∷ rest) [] h e t = absurd (t refl)
next-partial tag payload (a ∷ b ∷ c ∷ d ∷ rest) (x ∷ tail) h e t =
    ground (arith, header, length-append rest (x ∷ tail), ap length e)
  where
    header : read_be32 (a ∷ b ∷ c ∷ d ∷ rest) ≡ 1 + length payload
    header = cc (read_be32-be32 (1 + length payload) rest (omega arith))
