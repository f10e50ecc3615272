-- ===== src/Frame/RoundTrip.antt =====
-- tcp/connection.go: frames read back from a byte stream.
use kupool.Common.{
  length, take, drop, All, length-append, take-append, drop-append, Bytes, put_word, ℕ, zero, suc,
  ◌%◌, ◌^◌, ◌≤◌, ◌<◌, ◌≡◌, refl, ap, ◌∙◌, Option, none, List, [], ◌∷◌, ◌++◌, arith,
}
use mathlib.Core.List.{append_assoc, append-nil}
use native.Mathlib.Nat.{mod-eq_of_lt}
use kupool.Io.{IoError, ok, buffer, go_on, ◌>>=◌, pure, Reads}
use kupool.Wire.{read_uint8, write_uint8}
use kupool.Wire.RoundTrip.{read_full-append, write_bytes_lem, read_bytes_header}
use kupool.Frame.{Frame, IsSendable, read_frame, write_frame}

-- The bytes of a frame: its code, the length of the payload in four bytes, the payload.
abbrev pub frame_bytes : Frame → Bytes
frame_bytes f = f.op_code % 256 ∷ put_word 4 (length f.payload % 2 ^ 32) ++ f.payload

abbrev pub stream_bytes : List Frame → Bytes
stream_bytes [] = []
stream_bytes (f ∷ fs) = frame_bytes f ++ stream_bytes fs

pub write_frame_lem :
    (f : Frame) (w : Bytes) → write_frame buffer f.op_code f.payload w ≡ (none, w ++ frame_bytes f)
unfolding write_frame write_uint8
write_frame_lem f w =
    rw (write_bytes_lem f.payload (w ++ (f.op_code % 256) ∷ []))
      (ap (λ (b : Bytes). (none, b)) (simp append_assoc))

pub read_uint8-cons :
    (b : ℕ) (xs : Bytes) (e : IoError)
    → read_uint8 (record { bytes = b ∷ xs; fault = e }) ≡ ok (b, record { bytes = xs; fault = e })
unfolding read_uint8
read_uint8-cons b xs e = rw (read_full-append (b ∷ []) xs e 1 refl)

pub read_frame_header :
    (c n : ℕ) (xs : Bytes) (e : IoError)
    → n < 2 ^ 32
    → n ≤ length xs
    → read_frame (record { bytes = c ∷ (put_word 4 n ++ xs); fault = e })
      ≡ ok (record { op_code = c; payload = take n xs }, record { bytes = drop n xs; fault = e })
unfolding read_frame
read_frame_header c n xs e h k =
    rw (read_uint8-cons c (put_word 4 n ++ xs) e) (rw (read_bytes_header n xs e h k))

-- A frame that was written is read back, and what follows it stays in the stream.
pub read_frame-append :
    (f : Frame) (rest : Bytes) (e : IoError)
    → IsSendable f
    → read_frame (record { bytes = frame_bytes f ++ rest; fault = e })
      ≡ ok (f, record { bytes = rest; fault = e })
read_frame-append f rest e h =
    rw
      (
        append_assoc (put_word 4 (length f.payload % 2 ^ 32)) f.payload rest,
        mod-eq_of_lt h.code_fits,
        mod-eq_of_lt h.length_fits,
      )
      (rw
        (read_frame_header f.op_code (length f.payload) (f.payload ++ rest) e h.length_fits
          (omega (arith, length-append f.payload rest)))
        (rw (take-append f.payload rest, drop-append f.payload rest)))

-- A sender that writes one frame after another, and a receiver that reads so many.
unfoldable pub write_frames : List Frame → Bytes → Option IoError × Bytes
write_frames [] w = (none, w)
write_frames (f ∷ fs) w = go_on (write_frame buffer f.op_code f.payload w) (write_frames fs)

unfoldable pub read_frames : ℕ → Reads (List Frame)
read_frames zero = pure []
read_frames (suc n) = do f ← read_frame; fs ← read_frames n; pure (f ∷ fs)

write_frames_lem : (fs : List Frame) (w : Bytes) → write_frames fs w ≡ (none, w ++ stream_bytes fs)
unfolding write_frames
write_frames_lem [] w = rw (append-nil w)
write_frames_lem (f ∷ fs) w = rw (write_frame_lem f w) (
    write_frames_lem fs (w ++ frame_bytes f)
    ∙ ap (λ (b : Bytes). (none, b)) (append_assoc w (frame_bytes f) (stream_bytes fs)))

read_frames-append :
    (fs : List Frame) (rest : Bytes) (e : IoError)
    → All IsSendable fs
    → read_frames (length fs) (record { bytes = stream_bytes fs ++ rest; fault = e })
      ≡ ok (fs, record { bytes = rest; fault = e })
unfolding read_frames
read_frames-append [] rest e h = refl
read_frames-append (f ∷ fs) rest e h = rw (append_assoc (frame_bytes f) (stream_bytes fs) rest) (
    rw (read_frame-append f (stream_bytes fs ++ rest) e h.0)
      (rw (read_frames-append fs rest e h.1)))

-- Any sequence of sendable frames written to one connection is read back frame by frame, in
-- order, whatever bytes follow: no frame runs into the next.
pub read_frames-write_frames :
    (fs : List Frame) (rest : Bytes) (e : IoError)
    → All IsSendable fs
    → read_frames (length fs) (record { bytes = (write_frames fs []).1 ++ rest; fault = e })
      ≡ ok (fs, record { bytes = rest; fault = e })
read_frames-write_frames fs rest e h = rw (write_frames_lem fs []) (read_frames-append fs rest e h)
