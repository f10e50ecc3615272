-- ===== src/Wire/RoundTrip.antt =====
-- wire/endian/helper.go: what a reader gets from what the writers wrote.
use kupool.Common.{
  le→leb, length, take, drop, length-append, take-append, drop-append, Bytes, put_word,
  length-put_word, word_of-put_word, ℕ, ◌%◌, ◌^◌, ◌≤◌, ◌<◌, ◌≡◌, refl, none, [], ◌++◌, arith,
}
use mathlib.Core.List.{append_assoc}
use kupool.Io.{IoError, ok, read_full, buffer}
use kupool.Wire.{
  read_uint32, read_bytes, write_bytes, write_uint32, read_uint16, write_uint16, read_short_bytes,
  write_short_bytes,
}

-- A read that the stream has bytes for.
pub read_full_enough :
    (n : ℕ) (xs : Bytes) (e : IoError)
    → n ≤ length xs
    → read_full n (record { bytes = xs; fault = e })
      ≡ ok (take n xs, record { bytes = drop n xs; fault = e })
unfolding read_full
read_full_enough n xs e h = rw (le→leb n (length xs) h)

pub read_full-append :
    (front rest : Bytes) (e : IoError) (n : ℕ)
    → length front ≡ n
    → read_full n (record { bytes = front ++ rest; fault = e })
      ≡ ok (front, record { bytes = rest; fault = e })
read_full-append front rest e n h = rw (← h) (
    rw (read_full_enough (length front) (front ++ rest) e (omega (arith, length-append front rest)))
      (rw (take-append front rest, drop-append front rest)))

pub read_uint32-put_word :
    (v : ℕ) (rest : Bytes) (e : IoError)
    → v < 2 ^ 32
    → read_uint32 (record { bytes = put_word 4 v ++ rest; fault = e })
      ≡ ok (v, record { bytes = rest; fault = e })
unfolding read_uint32
read_uint32-put_word v rest e h =
    rw (read_full-append (put_word 4 v) rest e 4 (length-put_word 4 v))
      (rw (word_of-put_word 4 v h))

read_uint16-put_word :
    (v : ℕ) (rest : Bytes) (e : IoError)
    → v < 2 ^ 16
    → read_uint16 (record { bytes = put_word 2 v ++ rest; fault = e })
      ≡ ok (v, record { bytes = rest; fault = e })
unfolding read_uint16
read_uint16-put_word v rest e h =
    rw (read_full-append (put_word 2 v) rest e 2 (length-put_word 2 v))
      (rw (word_of-put_word 2 v h))

-- What `write_bytes` puts on the wire.
pub write_bytes_lem :
    (buf w : Bytes)
    → write_bytes buffer buf w ≡ (none, (w ++ put_word 4 (length buf % 2 ^ 32)) ++ buf)
unfolding write_bytes write_uint32
write_bytes_lem buf w = refl

write_short_bytes_lem :
    (buf w : Bytes)
    → write_short_bytes buffer buf w ≡ (none, (w ++ put_word 2 (length buf % 2 ^ 16)) ++ buf)
unfolding write_short_bytes write_uint16
write_short_bytes_lem buf w = refl

pub read_bytes_header :
    (n : ℕ) (xs : Bytes) (e : IoError)
    → n < 2 ^ 32
    → n ≤ length xs
    → read_bytes (record { bytes = put_word 4 n ++ xs; fault = e })
      ≡ ok (take n xs, record { bytes = drop n xs; fault = e })
unfolding read_bytes
read_bytes_header n xs e h k = rw (read_uint32-put_word n xs e h) (rw (read_full_enough n xs e k))

read_short_bytes_header :
    (n : ℕ) (xs : Bytes) (e : IoError)
    → n < 2 ^ 16
    → n ≤ length xs
    → read_short_bytes (record { bytes = put_word 2 n ++ xs; fault = e })
      ≡ ok (take n xs, record { bytes = drop n xs; fault = e })
unfolding read_short_bytes
read_short_bytes_header n xs e h k =
    rw (read_uint16-put_word n xs e h) (rw (read_full_enough n xs e k))

-- `ReadBytes` on what `WriteBytes` wrote, with anything behind it, returns the first
-- `len % 2^32` bytes of the buffer and leaves the others in the stream in front of the rest;
-- so a buffer shorter than 2^32 bytes comes back whole.
pub read_bytes-write_bytes :
    (buf rest : Bytes) (e : IoError)
    → let n = length buf % 2 ^ 32 in
      read_bytes (record { bytes = (write_bytes buffer buf []).1 ++ rest; fault = e })
      ≡ ok (take n (buf ++ rest), record { bytes = drop n (buf ++ rest); fault = e })
read_bytes-write_bytes buf rest e = rw (write_bytes_lem buf []) (
    rw (append_assoc (put_word 4 (length buf % 2 ^ 32)) buf rest) (
      read_bytes_header (length buf % 2 ^ 32) (buf ++ rest) e (omega arith)
        (omega (arith, length-append buf rest))))

-- The same for `ReadShortBytes` and `WriteShortBytes`, whose length has 16 bits.
pub read_short_bytes-write_short_bytes :
    (buf rest : Bytes) (e : IoError)
    → let n = length buf % 2 ^ 16 in
      read_short_bytes (record { bytes = (write_short_bytes buffer buf []).1 ++ rest; fault = e })
      ≡ ok (take n (buf ++ rest), record { bytes = drop n (buf ++ rest); fault = e })
read_short_bytes-write_short_bytes buf rest e = rw (write_short_bytes_lem buf []) (
    rw (append_assoc (put_word 2 (length buf % 2 ^ 16)) buf rest) (
      read_short_bytes_header (length buf % 2 ^ 16) (buf ++ rest) e (omega arith)
        (omega (arith, length-append buf rest))))
