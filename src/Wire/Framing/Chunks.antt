-- ===== src/Wire/Framing/Chunks.antt =====
-- The read loop over chunks of any size: the inner `while (next) handleFrame` of
-- `RpcConnection::doRead` (cpp/implementations/plain/rpc_connection.h), read after read.
use logos_protocol.Base.{
  ℕ, zero, suc, ◌<◌, ◌≡◌, refl, sym, ◌∙◌, ap, subst, ◌≢◌, List, [], ◌∷◌, ◌++◌, map, length,
  length-append, append_assoc, concat, append_split, eq-nil_of_append, arith, All, dec_le,
}
use logos_protocol.Wire.Framing.{
  MessageType, tag_byte, FramingError, Encoded, bytes, refused, encode_frame, FrameReader, append,
  next, Next, incomplete, frame, corrupt,
}
use logos_protocol.Wire.Framing.Header.{encoding, Fits, encode_frame-eq-bytes}
use logos_protocol.Wire.Framing.Reader.{next-encoding, next-partial}

pub data Outcome : Type 0 where
  waiting : Outcome
  failed : FramingError → Outcome

-- The frames handed on, in order, how the loop ended, and the reader that is left.
abbrev pub Drained : Type 0
Drained = List (ℕ × List ℕ) × Outcome × FrameReader

abbrev pub drain_step : Next × FrameReader → (FrameReader → Drained) → Drained
drain_step (incomplete, r) rest = ([], waiting, r)
drain_step (corrupt e, r) rest = ([], failed e, r)
drain_step (frame tag payload, r) rest = let (fs, o, r') = rest r in ((tag, payload) ∷ fs, o, r')

unfoldable pub drain : ℕ → FrameReader → Drained
drain zero r = ([], waiting, r)
drain (suc fuel) r = drain_step (next r) (drain fuel)

-- One completed read. Each frame takes five bytes or more, so the fuel covers the buffer.
unfoldable pub read_chunk : FrameReader → List ℕ → Drained
read_chunk r chunk = let r' = append r chunk in drain (suc (length r'.buf)) r'

abbrev after_read : Drained → (FrameReader → Drained) → Drained
after_read (fs, failed e, r) rest = (fs, failed e, r)
after_read (fs, waiting, r) rest = let (gs, o, r') = rest r in (fs ++ gs, o, r')

-- `doRead` again and again; a corrupt frame fails the connection and nothing more is read.
pub read_chunks : FrameReader → List (List ℕ) → Drained
read_chunks r [] = ([], waiting, r)
read_chunks r (chunk ∷ chunks) = after_read (read_chunk r chunk) (λ r'. read_chunks r' chunks)

-- The frames that a sender writes, one `encodeFrame` after the other.
abbrev join : Encoded → Encoded → Encoded
join (refused e) r = refused e
join (bytes a) (refused e) = refused e
join (bytes a) (bytes b) = bytes (a ++ b)

unfoldable pub encode_all : List (MessageType × List ℕ) → Encoded
encode_all [] = bytes []
encode_all ((tag, payload) ∷ ms) = join (encode_frame tag payload) (encode_all ms)

abbrev pub stream : List (MessageType × List ℕ) → List ℕ
stream [] = []
stream ((tag, payload) ∷ ms) = encoding tag payload ++ stream ms

abbrev pub frames : List (MessageType × List ℕ) → List (ℕ × List ℕ)
frames = map (λ m. (tag_byte m.0, m.1))

-- How far a drained buffer gets into the stream that it begins.
record Split (buf tail : List ℕ) (ms : List (MessageType × List ℕ)) (d : Drained) : Type 0 where
  pub whole : List (MessageType × List ℕ)
  pub later : List (MessageType × List ℕ)
  pub partial : List ℕ
  pub drained : d ≡ (frames whole, waiting, record { buf = partial })
  pub both : ms ≡ whole ++ later
  pub beginning : partial ++ tail ≡ stream later
  pub at_end : tail ≡ [] → later ≡ []

module _ (fuel : ℕ) (tag : MessageType) (payload : List ℕ) (ms : List (MessageType × List ℕ))
    (buf tail : List ℕ) (fits : Fits payload)
    (e : buf ++ tail ≡ encoding tag payload ++ stream ms) where
  -- The buffer ends inside the first frame.
  Split-inside :
      length buf < length (encoding tag payload)
      → Split buf tail ((tag, payload) ∷ ms) (drain (suc fuel) (record { buf = buf }))
  unfolding drain
  Split-inside short =
      let (d, p, q) = append_split buf tail (encoding tag payload) (stream ms) e (omega arith) in
      let more : d ≢ [] =
        (λ n. absurd (omega (arith, ap length p, length-append buf d, ap length n))) in
      record {
        whole = [];
        later = (tag, payload) ∷ ms;
        partial = buf;
        drained = rw (next-partial tag payload buf d fits p);
        both = refl;
        beginning = e;
        at_end = λ n. absurd (more (eq-nil_of_append d (stream ms) (sym q ∙ n)).0);
      }

  -- The buffer holds the first frame.
  Split-over :
      (rest : List ℕ)
      → buf ≡ encoding tag payload ++ rest
      → Split rest tail ms (drain fuel (record { buf = rest }))
      → Split buf tail ((tag, payload) ∷ ms) (drain (suc fuel) (record { buf = buf }))
  unfolding drain
  Split-over rest b s = record {
    whole = (tag, payload) ∷ s.whole;
    later = s.later;
    partial = s.partial;
    drained = rw (b, next-encoding tag payload rest fits, s.drained);
    both = ap (λ (l : List (MessageType × List ℕ)). (tag, payload) ∷ l) s.both;
    beginning = s.beginning;
    at_end = s.at_end;
  }

drain-Split :
    (fuel : ℕ) (ms : List (MessageType × List ℕ)) (buf tail : List ℕ)
    → All (λ m. Fits m.1) ms
    → length buf < fuel
    → buf ++ tail ≡ stream ms
    → Split buf tail ms (drain fuel (record { buf = buf }))
drain-Split zero ms buf tail fits enough e = absurd (omega arith)
drain-Split (suc fuel) [] buf tail fits enough e = record {
  whole = [];
  later = [];
  partial = [];
  drained = rw ((eq-nil_of_append buf tail e).0) (unfold drain next in refl);
  both = refl;
  beginning = (eq-nil_of_append buf tail e).1;
  at_end = λ _. refl;
}
drain-Split (suc fuel) ((tag, payload) ∷ ms) buf tail fits enough e =
    elim (dec_le (length (encoding tag payload)) (length buf)) [
      | yes h ↦
          let (rest, b, q) = append_split (encoding tag payload) (stream ms) buf tail (sym e) h in
          Split-over fuel tag payload ms buf tail fits.0 e rest b (
            drain-Split fuel ms rest tail fits.1
              (omega (arith, ap length b, length-append (encoding tag payload) rest)) (sym q))
      | no h ↦ Split-inside fuel tag payload ms buf tail fits.0 e (omega arith)
    ]

All-append_right :
    (xs ys : List (MessageType × List ℕ)) → All (λ m. Fits m.1) (xs ++ ys) → All (λ m. Fits m.1) ys
All-append_right [] ys h = h
All-append_right (x ∷ xs) ys h = All-append_right xs ys h.1

frames-append : (xs ys : List (MessageType × List ℕ)) → frames (xs ++ ys) ≡ frames xs ++ frames ys
frames-append [] ys = refl
frames-append (x ∷ xs) ys =
    ap (λ (l : List (ℕ × List ℕ)). (tag_byte x.0, x.1) ∷ l) (frames-append xs ys)

read_chunks-stream :
    (chunks : List (List ℕ)) (partial : List ℕ) (ms : List (MessageType × List ℕ))
    → All (λ m. Fits m.1) ms
    → partial ++ concat chunks ≡ stream ms
    → (concat chunks ≡ [] → ms ≡ [])
    → read_chunks (record { buf = partial }) chunks ≡ (frames ms, waiting, record { buf = [] })
unfolding read_chunks read_chunk append
read_chunks-stream [] partial ms fits e last =
    let none_left = last refl in
    rw none_left (
      ap (λ (b : List ℕ). ([], waiting, record { buf = b }))
        (eq-nil_of_append partial [] (e ∙ ap stream none_left)).0)
read_chunks-stream (chunk ∷ chunks) partial ms fits e last =
    let s =
      drain-Split (suc (length (partial ++ chunk))) ms (partial ++ chunk) (concat chunks) fits
        (omega arith) (append_assoc partial chunk (concat chunks) ∙ e) in
    let later_fits = All-append_right s.whole s.later (subst (All (λ m. Fits m.1)) s.both fits) in
    let ih = read_chunks-stream chunks s.partial s.later later_fits s.beginning s.at_end in
    rw (s.drained, ih)
      (ap (λ (l : List (ℕ × List ℕ)). (l, waiting, record { buf = [] }))
        (sym (frames-append s.whole s.later) ∙ sym (ap frames s.both)))

join-eq-bytes :
    (x y : Encoded) (c : List ℕ)
    → join x y ≡ bytes c
    → (a : List ℕ) × (b : List ℕ) × (x ≡ bytes a) × (y ≡ bytes b) × (c ≡ a ++ b)
join-eq-bytes (refused e) y c h = cc
join-eq-bytes (bytes a) (refused e) c h = cc
join-eq-bytes (bytes a) (bytes b) c h = (a, b, refl, refl, cc)

-- What `encode_all` writes is the stream, and every payload was within the limit.
encode_all-stream :
    (ms : List (MessageType × List ℕ)) (b : List ℕ)
    → encode_all ms ≡ bytes b
    → (b ≡ stream ms) × All (λ m. Fits m.1) ms
unfolding encode_all
encode_all-stream [] b e = (cc, tt)
encode_all-stream ((tag, payload) ∷ ms) b e =
    let (first, rest, p, q, r) = join-eq-bytes (encode_frame tag payload) (encode_all ms) b e in
    let (same, fits) = encode_frame-eq-bytes tag payload first p in
    let (later, all_fit) = encode_all-stream ms rest q in (r ∙ rw (same, later), (fits, all_fit))

stream_nil : (ms : List (MessageType × List ℕ)) → stream ms ≡ [] → ms ≡ []
stream_nil [] n = refl
stream_nil ((tag, payload) ∷ ms) n = cc

-- If all the frames can be encoded, then however their bytes are cut into chunks, the reader hands
-- on exactly those frames, in order, and ends with an empty buffer.
pub read_chunks-encode_all :
    (ms : List (MessageType × List ℕ)) (chunks : List (List ℕ))
    → encode_all ms ≡ bytes (concat chunks)
    → read_chunks (record { buf = [] }) chunks ≡ (frames ms, waiting, record { buf = [] })
read_chunks-encode_all ms chunks e =
    let (same, fits) = encode_all-stream ms (concat chunks) e in
    read_chunks-stream chunks [] ms fits same (λ n. stream_nil ms (sym same ∙ n))
