-- ===== src/Wire.antt =====
-- wire/endian/helper.go: words in little-endian order, and bytes behind their length.
pub mod RoundTrip
use kupool.Common.{length, Text, Bytes, put_word, word_of, ℕ, ◌%◌, ◌^◌, [], ◌∷◌}
use kupool.Io.{IoError, Source, Reads, ◌>>=◌, pure, read_full, Writer, Writes, go_on}

abbrev first_byte : Bytes → ℕ
first_byte [] = 0
first_byte (b ∷ bs) = b

unfoldable pub read_uint8 : Reads ℕ
read_uint8 = do bytes ← read_full 1; pure (first_byte bytes)

unfoldable pub read_uint16 : Reads ℕ
read_uint16 = do bytes ← read_full 2; pure (word_of bytes)

unfoldable pub read_uint32 : Reads ℕ
read_uint32 = do bytes ← read_full 4; pure (word_of bytes)

unfoldable pub read_uint64 : Reads ℕ
read_uint64 = do bytes ← read_full 8; pure (word_of bytes)

unfoldable pub read_bytes : Reads Bytes
read_bytes = do buf_len ← read_uint32; buf ← read_full buf_len; pure buf

unfoldable pub read_string : Reads Text
read_string = do buf ← read_bytes; pure buf

unfoldable pub read_fixed_bytes : ℕ → Reads Bytes
read_fixed_bytes len = do buf ← read_full len; pure buf

unfoldable pub read_short_bytes : Reads Bytes
read_short_bytes = do buf_len ← read_uint16; buf ← read_full buf_len; pure buf

unfoldable pub read_short_string : Reads Text
read_short_string = do buf ← read_short_bytes; pure buf

module _ {W : Type 0} (out : Writer W) where
  unfoldable pub write_uint8 : ℕ → Writes W
  write_uint8 val = out.write (val % 256 ∷ [])

  unfoldable pub write_uint16 : ℕ → Writes W
  write_uint16 val = out.write (put_word 2 val)

  unfoldable pub write_uint32 : ℕ → Writes W
  write_uint32 val = out.write (put_word 4 val)

  unfoldable pub write_uint64 : ℕ → Writes W
  write_uint64 val = out.write (put_word 8 val)

  -- `uint32(len(buf))` keeps the low 32 bits of the length.
  unfoldable pub write_bytes : Bytes → Writes W
  write_bytes buf w = go_on (write_uint32 (length buf % 2 ^ 32) w) (out.write buf)

  unfoldable pub write_string : Text → Writes W
  write_string str = write_bytes str

  unfoldable pub write_short_bytes : Bytes → Writes W
  write_short_bytes buf w = go_on (write_uint16 (length buf % 2 ^ 16) w) (out.write buf)
