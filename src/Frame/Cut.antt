-- ===== src/Frame/Cut.antt =====
-- tcp/connection.go: streams that end inside a frame, and the bytes behind a frame that was read.
use kupool.Common.{
  leb, ◌==◌, if◌then◌else◌, Bool-cases, length, take, drop, All, length-append, length-take_le,
  take-append-drop, Bytes, IsByte, put_word, word_of, length-put_word, word_of-lt, put_word-word_of,
  ℕ, zero, suc, ◌+◌, ◌%◌, ◌^◌, ◌≤◌, ◌<◌, ◌≡◌, refl, sym, ap, ◌∙◌, inl, inr, Bool, false, ◌&&◌, ◌||◌,
  [], ◌∷◌, ◌++◌, arith,
}
use mathlib.Core.Path.{subst}
use mathlib.Core.List.{append_assoc}
use native.Mathlib.Nat.{mod-eq_of_lt}
use kupool.Io.{Result, IoError, eof, unexpected_eof, Source, ok, err, read_full, short_read}
use kupool.Wire.{read_uint8, read_uint32, read_bytes}
use kupool.Wire.RoundTrip.{read_uint32-put_word}
use kupool.Frame.{Frame, IsSendable, read_frame}
use kupool.Frame.RoundTrip.{frame_bytes, read_uint8-cons, read_frame_header}

read_full_short :
    (n : ℕ) (xs : Bytes) (e : IoError)
    → length xs < n
    → read_full n (record { bytes = xs; fault = e }) ≡ err (short_read (length xs) e)
unfolding read_full
read_full_short n xs e h = ground arith

payload_cut :
    (c n : ℕ) (xs : Bytes)
    → n < 2 ^ 32
    → length xs < n
    → read_frame (record { bytes = c ∷ (put_word 4 n ++ xs); fault = eof })
      ≡ err (short_read (length xs) eof)
unfolding read_frame read_bytes
payload_cut c n xs h k =
    rw (read_uint8-cons c (put_word 4 n ++ xs) eof)
      (rw (read_uint32-put_word n xs eof h) (rw (read_full_short n xs eof k)))

-- The error of a stream that ends after `k` bytes of a frame.
abbrev pub cut_error : ℕ → IoError
cut_error k = if k == 0 || k == 1 || k == 5 then eof else unexpected_eof

short_read_late : (m : ℕ) → short_read (suc m) eof ≡ cut_error (suc (suc (suc (suc (suc (suc m))))))
short_read_late m = ground arith

cut_at :
    (k c n : ℕ) (p : Bytes)
    → n < 2 ^ 32
    → n ≡ length p
    → k < 5 + n
    → read_frame (record { bytes = take k (c ∷ (put_word 4 n ++ p)); fault = eof })
      ≡ err (cut_error k)
unfolding read_frame read_uint8 read_bytes read_uint32 read_full put_word
cut_at zero c n p h e k = refl
cut_at (suc zero) c n p h e k = refl
cut_at (suc (suc zero)) c n p h e k = refl
cut_at (suc (suc (suc zero))) c n p h e k = refl
cut_at (suc (suc (suc (suc zero)))) c n p h e k = refl
cut_at (suc (suc (suc (suc (suc zero))))) c n p h e k = payload_cut c n [] h (omega arith)
cut_at (suc (suc (suc (suc (suc (suc m)))))) c n p h e k =
    payload_cut c n (take (suc m) p) h (omega (arith, whole))
    ∙ ap err (rw whole (short_read_late m))
  where
    whole : length (take (suc m) p) ≡ suc m
    whole = length-take_le (suc m) p (omega arith)

-- A stream that ends inside a sendable frame is always refused. A cut in front of the frame, behind its
-- code, or between a length and its payload looks like a clean end of the stream; any other
-- gives the error for an unexpected end.
pub read_frame_cut :
    (f : Frame) (k : ℕ)
    → IsSendable f
    → k < length (frame_bytes f)
    → read_frame (record { bytes = take k (frame_bytes f); fault = eof }) ≡ err (cut_error k)
read_frame_cut f k h lt = rw (mod-eq_of_lt h.length_fits) (
    cut_at k (f.op_code % 256) (length f.payload) f.payload h.length_fits refl (
      omega (
        arith,
        mod-eq_of_lt h.length_fits,
        length-append (put_word 4 (length f.payload % 2 ^ 32)) f.payload,
        length-put_word 4 (length f.payload % 2 ^ 32),
      )))

split_at :
    (n : ℕ) (xs : Bytes)
    → All IsByte xs
    → n ≤ length xs
    → All IsByte (take n xs) × All IsByte (drop n xs)
split_at zero xs h k = (tt, h)
split_at (suc n) [] h k = absurd (omega arith)
split_at (suc n) (x ∷ xs) h k =
    let (front, rest) = split_at n xs h.1 (omega arith) in ((h.0, front), rest)

word_split :
    (xs : Bytes)
    → All IsByte xs
    → 4 ≤ length xs
    → (word_of (take 4 xs) < 2 ^ 32) × (put_word 4 (word_of (take 4 xs)) ++ drop 4 xs ≡ xs)
word_split [] h k = absurd (omega arith)
word_split (a ∷ []) h k = absurd (omega arith)
word_split (a ∷ b ∷ []) h k = absurd (omega arith)
word_split (a ∷ b ∷ c ∷ []) h k = absurd (omega arith)
word_split (a ∷ b ∷ c ∷ d ∷ xs) h k = (
  word_of-lt (a ∷ b ∷ c ∷ d ∷ []) bytes,
  ap (λ (w : Bytes). w ++ xs) (put_word-word_of (a ∷ b ∷ c ∷ d ∷ []) bytes),
)
  where
    bytes : All IsByte (a ∷ b ∷ c ∷ d ∷ [])
    bytes = (h.0, (h.1.0, (h.1.1.0, (h.1.1.1.0, tt))))

abbrev complete : Bytes → Bool
complete ys = leb 4 (length ys) && leb (word_of (take 4 ys)) (length (drop 4 ys))

incomplete_fails :
    (c : ℕ) (ys : Bytes) (e : IoError)
    → complete ys ≡ false
    → (e' : IoError) × (read_frame (record { bytes = c ∷ ys; fault = e }) ≡ err e')
unfolding read_frame read_bytes read_uint32 read_full
incomplete_fails c ys e h = elim (Bool-cases (leb 4 (length ys))) [
  | inl long ↦ (short_read (length (drop 4 ys)) e, rw (read_uint8-cons c ys e) (ground arith))
  | inr short ↦ (short_read (length ys) e, rw (read_uint8-cons c ys e) (rw short))
]

read_same :
    (f g : Frame) (a b : Source)
    → ◌≡◌ {A = Result (Frame × Source)} (ok (f, a)) (ok (g, b))
    → (f ≡ g) × (a.bytes ≡ b.bytes) × (a.fault ≡ b.fault)
read_same f g a b h = (cc, ground arith, ground arith)

refill_frame :
    (c n : ℕ) (zs : Bytes)
    → IsByte c
    → n < 2 ^ 32
    → n ≤ length zs
    → let f : Frame = record { op_code = c; payload = take n zs } in
      (c ∷ (put_word 4 n ++ zs) ≡ frame_bytes f ++ drop n zs) × IsSendable f
refill_frame c n zs hc h k =
    let fits : length (take n zs) < 2 ^ 32 = rw (length-take_le n zs k) h in
    (
      rw (
        mod-eq_of_lt hc,
        mod-eq_of_lt fits,
        length-take_le n zs k,
        append_assoc (put_word 4 n) (take n zs) (drop n zs),
        take-append-drop n zs,
      ),
      record { code_fits = hc; length_fits = fits },
    )

-- Whatever `ReadFrame` returns from a stream of bytes was in it: written again it gives back the
-- bytes that were taken, with the rest of the stream behind them. The frame is sendable, and the
-- fault at the end of the stream stays.
pub frame_bytes-read_frame :
    (xs rest : Bytes) (e e' : IoError) (f : Frame)
    → All IsByte xs
    → read_frame (record { bytes = xs; fault = e }) ≡ ok (f, record { bytes = rest; fault = e' })
    → (xs ≡ frame_bytes f ++ rest) × IsSendable f × (e ≡ e')
unfolding read_frame read_uint8 read_full
frame_bytes-read_frame [] rest e e' f h r = cc
frame_bytes-read_frame (c ∷ ys) rest e e' f h r = elim (Bool-cases (complete ys)) [
  | inl whole ↦
      let n = word_of (take 4 ys) in
      let zs = drop 4 ys in
      let room : n ≤ length zs = ground arith in
      let (small, split) = word_split ys h.1 (ground arith) in
      let q : read_frame (record { bytes = c ∷ ys; fault = e })
          ≡ ok (
            record { op_code = c; payload = take n zs },
            record { bytes = drop n zs; fault = e },
          ) =
        rw split at (read_frame_header c n zs e small room) in
      let (same, left, fault) = read_same _ _ _ _ (sym r ∙ q) in
      let (bytes, fits) = refill_frame c n zs h.0 small room in
      (rw (same, left) (rw split at bytes), subst IsSendable (sym same) fits, sym fault)
  | inr part ↦ let (x, failed) = incomplete_fails c ys e part in cc
]
