-- ===== src/Examples/Wire.antt =====
-- Tests of the byte encoding and the frames, and their theorems at concrete inputs.
use kupool.Common.{put_word, ◌≡◌, refl, [], ◌∷◌, ◌++◌, arith}
use kupool.Io.{eof, ok}
use kupool.Frame.{IsSendable, read_frame}
use kupool.Frame.RoundTrip.{
  frame_bytes, read_frame-append, write_frames, read_frames, read_frames-write_frames,
}
use kupool.Examples.Toys.{hello, ping, hello_stream}

hello-IsSendable : IsSendable hello
hello-IsSendable = record { code_fits = omega arith; length_fits = omega arith }

hello_on_the_wire : frame_bytes hello ≡ 2 ∷ 2 ∷ 0 ∷ 0 ∷ 0 ∷ 104 ∷ 105 ∷ []
unfolding put_word
hello_on_the_wire = refl

read_frames-write_frames_example :
    read_frames 2
      (record { bytes = (write_frames (hello ∷ ping ∷ []) []).1 ++ 7 ∷ []; fault = eof })
    ≡ ok (hello ∷ ping ∷ [], record { bytes = 7 ∷ []; fault = eof })
read_frames-write_frames_example =
    read_frames-write_frames (hello ∷ ping ∷ []) (7 ∷ []) eof
      (hello-IsSendable, (record { code_fits = omega arith; length_fits = omega arith }, tt))

hello_read :
    read_frame (record { bytes = hello_stream; fault = eof })
    ≡ ok (hello, record { bytes = 9 ∷ []; fault = eof })
unfolding put_word
hello_read = read_frame-append hello (9 ∷ []) eof hello-IsSendable
