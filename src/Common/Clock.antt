-- ===== src/Common/Clock.antt =====
-- time.Time and time.Duration. An instant is the number of nanoseconds since Go's zero time
-- (1 January of year 1), so 0 is `time.Time{}`; a duration is a signed number of nanoseconds.
use Prim.Native.Nat.{ℕ, ◌+◌, ◌-◌, ◌%◌, ◌^◌, ◌≤◌, ◌<◌, min}
use mathlib.Core.Path.{◌≡◌}
use mathlib.Core.Bool.{Bool, true, false, ◌&&◌}
use mathlib.Core.Logic.{◌↔◌}
use native.Mathlib.Omega.{arith}
use kupool.Common.Tests.{ltb, leb, ◌==◌, ==_iff, if◌then◌else◌}
use kupool.Common.Keys.{Eq}

-- `negsuc n` is -(n + 1).
pub data ℤ : Type 0 where
  pos : ℕ → ℤ
  negsuc : ℕ → ℤ

abbrev pub Time : Type 0
Time = ℕ

abbrev pub Duration : Type 0
Duration = ℤ

abbrev pub second : ℕ
second = 1000000000

abbrev pub minute : ℕ
minute = 60000000000

abbrev pub max_duration : ℕ
max_duration = 2 ^ 63 - 1

-- `t.Sub(u)`, which saturates at the ends of the 64-bit range.
unfoldable pub time_sub : Time → Time → Duration
time_sub t u =
    if leb u t then pos (min (t - u) max_duration) else negsuc (min (u - t - 1) max_duration)

-- `a < b` on durations.
abbrev pub ltb_duration : Duration → Duration → Bool
ltb_duration (pos a) (pos b) = ltb a b
ltb_duration (pos a) (negsuc b) = false
ltb_duration (negsuc a) (pos b) = true
ltb_duration (negsuc a) (negsuc b) = ltb b a

-- `t.Truncate(time.Minute)`, which counts from the zero time.
unfoldable pub truncate_minute : Time → Time
truncate_minute t = t - t % minute

-- A `time.Time` where it is compared by `==`, as a key of a map is: besides the instant there is the
-- `*time.Location`, the pointer given by a number.
pub record Stamp : Type 0 where
  pub instant : Time
  pub zone : ℕ

-- `time.Now()`, whose location is `Local`.
abbrev pub local : Time → Stamp
local t = record { instant = t; zone = 0 }

-- `m.Truncate(time.Minute)`, which keeps the location.
unfoldable pub truncate_stamp : Stamp → Stamp
truncate_stamp t = record { instant = truncate_minute t.instant; zone = t.zone }

unfoldable pub stamp_beq : Stamp → Stamp → Bool
stamp_beq t u = (t.instant == u.instant) && (t.zone == u.zone)

pub stamp_beq_iff : (t u : Stamp) → (stamp_beq t u ≡ true) ↔ (t ≡ u)
unfolding stamp_beq
stamp_beq_iff t u = grind (arith, ==_iff t.instant u.instant, ==_iff t.zone u.zone)

instance abbrev pub stamp_key : Eq Stamp
stamp_key = record { beq = stamp_beq; beq_iff = stamp_beq_iff }

-- Within the range, a difference is below a duration exactly when the instants say so.
pub time_sub-lt :
    (t u d : ℕ) → d ≤ max_duration → (ltb_duration (time_sub t u) (pos d) ≡ true) ↔ (t < u + d)
unfolding time_sub
time_sub-lt t u d h = ground arith
