-- ===== src/Channel/Stream.antt =====
-- channel.go over tcp/connection.go: the reading loop of a channel on a stream of bytes.
use kupool.Common.{
  ◌==◌, if◌then◌else◌, length, All, length-append, ℕ, zero, suc, ◌<◌, ◌≡◌, refl, ◌⊎◌, inl, inr,
  Option, none, some, List, [], ◌∷◌, ◌++◌, arith,
}
use kupool.Io.{IoError, Result, ok, err, Source}
use kupool.Frame.{Frame, op_close, op_ping, op_pong, read_frame}
use kupool.Frame.Progress.{read_frame-Takes}
use kupool.Io.{read_full}
use kupool.Wire.{read_uint8}
use kupool.Frame.{IsSendable}
use kupool.Frame.RoundTrip.{frame_bytes, stream_bytes, read_frame-append, read_frames}
use kupool.Channel.{Channel, ReadEnd, read_failed, remote_closed, read_loop, write_frame}

-- `Readloop`, with fuel: `none` when it is used up.
unfoldable pub read_stream : ℕ → Source → Channel → Option (ReadEnd × Channel)
read_stream zero r ch = none
read_stream (suc n) r ch = elim (read_frame r) [
  | err e ↦ some (read_failed, ch)
  | ok x ↦
      let f = x.0 in
      let go_on : Channel → Option (ReadEnd × Channel) = read_stream n x.1 in
      if f.op_code == op_close
      then some (remote_closed, ch)
      else if f.op_code == op_ping
      then go_on (write_frame (record { op_code = op_pong; payload = [] }) ch)
      else elim f.payload [
        | [] ↦ go_on ch
        | b ∷ bs ↦ go_on (record ch { delivered = ch.delivered ++ f.payload ∷ [] })
      ]
]

Result-cases : {A : Type 0} (x : Result A) → ((a : A) × (x ≡ ok a)) ⊎ ((e : IoError) × (x ≡ err e))
Result-cases (ok a) = inl (a, refl)
Result-cases (err e) = inr (e, refl)

-- The frames that a stream holds, and how it ends behind them.
pub record Parsed (r : Source) (fs : List Frame) : Type 0 where
  pub rest : Source
  pub fault : IoError
  pub read : read_frames (length fs) r ≡ ok (fs, rest)
  pub ends : read_frame rest ≡ err fault

Parsed-cons :
    (r r' : Source) (f : Frame) (fs : List Frame)
    → read_frame r ≡ ok (f, r')
    → Parsed r' fs
    → Parsed r (f ∷ fs)
unfolding read_frames
Parsed-cons r r' f fs e p = record {
  rest = p.rest;
  fault = p.fault;
  read = rw e (rw p.read refl);
  ends = p.ends;
}

-- One frame: the loop goes on with the rest of the stream as it does with the rest of the frames.
pub read_stream-cons :
    (n : ℕ) (r r' : Source) (f : Frame) (fs : List Frame) (ch : Channel)
    → read_frame r ≡ ok (f, r')
    → ((c : Channel) → read_stream n r' c ≡ some (read_loop fs c))
    → read_stream (suc n) r ch ≡ some (read_loop (f ∷ fs) ch)
unfolding read_stream read_loop
read_stream-cons n r r' f fs ch e same =
    let pong : Frame = record { op_code = op_pong; payload = [] } in
    ground (
      arith,
      e,
      same (write_frame pong ch),
      same ch,
      same (record ch { delivered = ch.delivered ++ f.payload ∷ [] }),
    )

read_stream-all :
    (n : ℕ) (r : Source)
    → length r.bytes < n
    → (fs : List Frame) × Parsed r fs
      × ((ch : Channel) → read_stream n r ch ≡ some (read_loop fs ch))
unfolding read_stream read_loop read_frames
read_stream-all zero r h = absurd (omega arith)
read_stream-all (suc n) r h = elim (Result-cases (read_frame r)) [
  | inr (x, e) ↦
      ([], record { rest = r; fault = x; read = refl; ends = e }, (λ ch. rw (e, read_stream) refl))
  | inl ((f, r'), e) ↦
      let taken = read_frame-Takes r r' f e in
      let (fs, p, same) = read_stream-all n r' (omega arith) in
      (f ∷ fs, Parsed-cons r r' f fs e p, λ ch. read_stream-cons n r r' f fs ch e same)
]

-- A channel's reading loop on a stream of finitely many bytes ends, whatever the bytes are: with
-- more fuel than there are bytes it does what the loop does on the frames that the stream holds up
-- to the first error of the connection.
pub read_stream-ends :
    (n : ℕ) (r : Source) (ch : Channel)
    → length r.bytes < n
    → (fs : List Frame) × Parsed r fs × (read_stream n r ch ≡ some (read_loop fs ch))
read_stream-ends n r ch h = let (fs, p, same) = read_stream-all n r h in (fs, p, same ch)

read_frame_empty : (e : IoError) → read_frame (record { bytes = []; fault = e }) ≡ err e
unfolding read_frame read_uint8 read_full
read_frame_empty e = refl

-- On the bytes of sendable frames, with more fuel than bytes, the loop does what it does on those
-- frames.
pub read_stream-stream_bytes :
    (fs : List Frame) (n : ℕ) (e : IoError) (ch : Channel)
    → All IsSendable fs
    → length (stream_bytes fs) < n
    → read_stream n (record { bytes = stream_bytes fs; fault = e }) ch ≡ some (read_loop fs ch)
unfolding read_stream read_loop
read_stream-stream_bytes fs zero e ch ok_all h = absurd (omega arith)
read_stream-stream_bytes [] (suc n) e ch ok_all h = rw (read_frame_empty e, read_stream) refl
read_stream-stream_bytes (f ∷ fs) (suc n) e ch ok_all h =
    let whole = length-append (frame_bytes f) (stream_bytes fs) in
    read_stream-cons n _ _ f fs ch (read_frame-append f (stream_bytes fs) e ok_all.0)
      (λ c. read_stream-stream_bytes fs n e c ok_all.1 (omega (arith, whole, h)))
