-- ===== src/Common/Encoding.antt =====
-- Text literals, encoding/hex, strings.EqualFold and the little-endian words of encoding/binary.
use Prim.Native.Nat.{ℕ, zero, suc, ◌+◌, ◌*◌, ◌/◌, ◌%◌, ◌^◌, ◌<◌}
use Prim.Native.Char.{code}
use Prim.Native.String.{String}
use mathlib.Core.Path.{◌≡◌, refl, ap}
use mathlib.Core.Bool.{Bool, true, ◌&&◌}
use mathlib.Core.List.{List, [], ◌∷◌, map}
use native.Mathlib.Omega.{arith}
use native.Mathlib.Nat.{pow-suc}
use kupool.Common.Tests.{ltb, leb, if◌then◌else◌}
use kupool.Common.Keys.{Text, text_beq, text_key, beq_refl}
use kupool.Common.Lists.{length, All}

abbrev pub Bytes : Type 0
Bytes = List ℕ

abbrev pub IsByte : ℕ → Type 0
IsByte b = b < 256

-- The bytes of an ASCII literal.
abbrev pub codes : String → Text
codes String.[] = []
codes (String.◌∷◌ c s) = code c ∷ codes s

hex_digit : ℕ → ℕ
hex_digit d = if ltb d 10 then b'0' + d else b'W' + d

-- `hex.EncodeToString`: two lower-case digits for each byte.
unfoldable pub hex_encode : Bytes → Text
unfolding hex_digit
hex_encode [] = []
hex_encode (b ∷ bs) = hex_digit (b / 16) ∷ hex_digit (b % 16) ∷ hex_encode bs

pub length-hex_encode : (bs : Bytes) → length (hex_encode bs) ≡ 2 * length bs
unfolding hex_encode
length-hex_encode [] = omega arith
length-hex_encode (b ∷ bs) = omega (arith, length-hex_encode bs)

-- Text that JSON leaves as it is: encoding/json replaces what is not UTF-8.
abbrev pub IsAscii : Text → Type 0
IsAscii = All (λ c. c < 128)

hex_digit-lt : (d : ℕ) → d < 16 → hex_digit d < 128
unfolding hex_digit
hex_digit-lt d h = ground arith

pub hex_encode-IsAscii : (bs : Bytes) → All IsByte bs → IsAscii (hex_encode bs)
unfolding hex_encode
hex_encode-IsAscii [] h = tt
hex_encode-IsAscii (b ∷ bs) h = (
  hex_digit-lt (b / 16) (omega (arith, h.0)),
  (hex_digit-lt (b % 16) (omega arith), hex_encode-IsAscii bs h.1),
)

fold_case : ℕ → ℕ
fold_case c = if leb b'A' c && leb c b'Z' then c + 32 else c

-- `strings.EqualFold`. The program compares with hexadecimal digits only, and no character
-- outside ASCII folds to one of these, so the ASCII letters are all that matters.
unfoldable pub equal_fold : Text → Text → Bool
unfolding fold_case
equal_fold a b = text_beq (map fold_case a) (map fold_case b)

pub equal_fold_refl : (a : Text) → equal_fold a a ≡ true
unfolding equal_fold
equal_fold_refl a = beq_refl (map fold_case a)

-- `PutUint16`, `PutUint32`, `PutUint64` of binary.LittleEndian, for a word of `n` bytes.
unfoldable pub put_word : ℕ → ℕ → Bytes
put_word zero v = []
put_word (suc n) v = v % 256 ∷ put_word n (v / 256)

-- `Uint16`, `Uint32`, `Uint64` of binary.LittleEndian.
unfoldable pub word_of : Bytes → ℕ
word_of [] = 0
word_of (b ∷ bs) = b + 256 * word_of bs

pub length-put_word : (n v : ℕ) → length (put_word n v) ≡ n
unfolding put_word
length-put_word zero v = refl
length-put_word (suc n) v = ap suc (length-put_word n (v / 256))

pub word_of-put_word : (n v : ℕ) → v < 256 ^ n → word_of (put_word n v) ≡ v
unfolding put_word word_of
word_of-put_word zero v h = omega arith
word_of-put_word (suc n) v h =
    omega (arith, word_of-put_word n (v / 256) (omega (arith, pow-suc 256 n)))

pub put_word-IsByte : (n v : ℕ) → All IsByte (put_word n v)
unfolding put_word
put_word-IsByte zero v = tt
put_word-IsByte (suc n) v = (omega arith, put_word-IsByte n (v / 256))

pub word_of-lt : (bs : Bytes) → All IsByte bs → word_of bs < 256 ^ length bs
unfolding word_of
word_of-lt [] h = omega arith
word_of-lt (b ∷ bs) h = omega (arith, word_of-lt bs h.1, pow-suc 256 (length bs))

-- The lowest byte and the rest of a word.
div_of_byte : (b w : ℕ) → b < 256 → ((b + 256 * w) % 256 ≡ b) × ((b + 256 * w) / 256 ≡ w)
div_of_byte b w h = omega arith

pub put_word-word_of : (bs : Bytes) → All IsByte bs → put_word (length bs) (word_of bs) ≡ bs
unfolding put_word word_of
put_word-word_of [] h = refl
put_word-word_of (b ∷ bs) h =
    ground (arith, put_word-word_of bs h.1, div_of_byte b (word_of bs) h.0)
