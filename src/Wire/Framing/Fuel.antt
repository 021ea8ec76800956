-- ===== src/Wire/Framing/Fuel.antt =====
-- The fuel of the loop over buffered frames
-- (`RpcConnection::doRead` of cpp/implementations/plain/rpc_connection.h).
use logos_protocol.Base.{
  ℕ, zero, suc, ◌+◌, ◌-◌, ◌<◌, ◌≡◌, refl, ap, List, [], ◌∷◌, length, drop, arith,
}
use logos_protocol.Wire.Framing.{
  FrameReader, Next, incomplete, frame, corrupt, next, append, read_be32,
}
use logos_protocol.Wire.Framing.Chunks.{Drained, drain, drain_step, read_chunk}

length-drop : (n : ℕ) (xs : List ℕ) → length (drop n xs) ≡ length xs - n
length-drop zero xs = omega arith
length-drop (suc n) [] = omega arith
length-drop (suc n) (x ∷ xs) = omega (arith, length-drop n xs)

-- A frame that is handed on takes at least five bytes.
next-shrinks :
    (r r' : FrameReader) (tag : ℕ) (payload : List ℕ)
    → next r ≡ (frame tag payload, r')
    → length r'.buf < length r.buf
unfolding next
next-shrinks r r' tag payload e = ground (
  arith,
  length-drop (4 + read_be32 r.buf) r.buf,
  ap (λ (p : Next × FrameReader). length p.1.buf) e,
)

drain_step_enough :
    (x : Next × FrameReader) (r : FrameReader) (rest later : FrameReader → Drained)
    → next r ≡ x
    → ((s : FrameReader) → length s.buf < length r.buf → rest s ≡ later s)
    → drain_step x rest ≡ drain_step x later
drain_step_enough (incomplete, s) r rest later e h = refl
drain_step_enough (corrupt f, s) r rest later e h = refl
drain_step_enough (frame tag payload, s) r rest later e h =
    rw (h s (next-shrinks r s tag payload e)) refl

drain_enough :
    (n m : ℕ) (r : FrameReader) → length r.buf < n → length r.buf < m → drain n r ≡ drain m r
unfolding drain
drain_enough zero m r h k = absurd (omega arith)
drain_enough (suc n) zero r h k = absurd (omega arith)
drain_enough (suc n) (suc m) r h k =
    drain_step_enough (next r) r (drain n) (drain m) refl
      (λ s less. drain_enough n m s (omega (arith, less, h)) (omega (arith, less, k)))

-- The loop over buffered frames gives the same result with every amount of fuel above the length of
-- the buffer, whatever its bytes are: `read_chunk` gives it enough.
pub read_chunk_enough :
    (r : FrameReader) (chunk : List ℕ) (fuel : ℕ)
    → length (append r chunk).buf < fuel
    → drain fuel (append r chunk) ≡ read_chunk r chunk
unfolding read_chunk
read_chunk_enough r chunk fuel h =
    drain_enough fuel (suc (length (append r chunk).buf)) (append r chunk) h (omega arith)
