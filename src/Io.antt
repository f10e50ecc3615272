-- ===== src/Io.antt =====
-- What wire/endian takes from package io: a reader that ends in a fault, a writer, `io.ReadFull`.
use kupool.Common.{
  leb, if◌then◌else◌, length, take, drop, nat_key, text_key, Bytes, ℕ, zero, suc, Option, none,
  some, ◌++◌,
}

-- `other` is any error but the two end-of-file errors, such as a passed deadline.
pub data IoError : Type 0 where
  eof unexpected_eof : IoError
  other : ℕ → IoError

pub data Result {ℓ} (A : Type ℓ) : Type ℓ where
  ok : A → Result A
  err : IoError → Result A

-- The bytes that a reader still delivers, and the error that it gives behind them.
pub record Source : Type 0 where
  pub bytes : Bytes
  pub fault : IoError

abbrev pub Reads {ℓ} : Type ℓ → Type ℓ
Reads A = Source → Result (A × Source)

abbrev pub pure {ℓ} : {A : Type ℓ} → A → Reads A
pure a r = ok (a, r)

abbrev bind_result {ℓ κ} :
    {A : Type ℓ} {B : Type κ} → Result (A × Source) → (A → Reads B) → Result (B × Source)
bind_result (ok (a, r)) f = f a r
bind_result (err e) f = err e

infixl 5 ◌>>=◌
abbrev pub ◌>>=◌ {ℓ κ} : {A : Type ℓ} {B : Type κ} → Reads A → (A → Reads B) → Reads B
◌>>=◌ m f r = bind_result (m r) f

-- The end of file in the middle of the wanted bytes is an error of its own.
abbrev pub short_read : ℕ → IoError → IoError
short_read zero e = e
short_read (suc n) eof = unexpected_eof
short_read (suc n) e = e

-- `io.ReadFull(r, make([]byte, n))`.
unfoldable pub read_full : ℕ → Reads Bytes
read_full n r =
    if leb n (length r.bytes)
    then ok (take n r.bytes, record r { bytes = drop n r.bytes })
    else err (short_read (length r.bytes) r.fault)

-- An io.Writer over a state `W`: the error of one call of `Write`, and the state behind it.
pub record Writer (W : Type 0) : Type 0 where
  pub write : Bytes → W → Option IoError × W

-- A sequence of writes, which ends at the first error.
abbrev pub Writes : Type 0 → Type 0
Writes W = W → Option IoError × W

abbrev pub go_on : {W : Type 0} → Option IoError × W → Writes W → Option IoError × W
go_on (none, w) k = k w
go_on (some e, w) k = (some e, w)

-- A writer that keeps all it is given, as a bytes.Buffer does.
abbrev pub buffer : Writer Bytes
buffer = record { write = λ b w. (none, w ++ b) }
