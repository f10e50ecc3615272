-- ===== src/Logging.antt =====
-- logger/setting.go and logger/logger.go: what the two initialisations set on the logger. The
-- parser of levels and the log files are parameters.
pub mod Calls
pub mod Hooks
pub mod Files
use kupool.Common.{
  if◌then◌else◌, Text, text_beq, codes, ℕ, zero, suc, ◌+◌, Bool, true, false, Option, none, some,
  List, [], ◌∷◌,
}

pub record Settings : Type 0 where
  pub filename : Text
  pub level : Text
  pub rolling_days : ℕ
  pub format : Text
  pub caller : Bool

pub data Formatter : Type 0 where
  json_formatter text_formatter : Formatter

-- The levels of logrus.
pub data Level : Type 0 where
  trace_level debug_level info_level warn_level error_level fatal_level panic_level : Level

-- A hook that writes the levels to a log file of a name, which keeps a number of files.
pub record Hook : Type 0 where
  pub levels : List Level
  pub filename : Text
  pub rotation_count : ℕ
  pub formatter : Formatter

-- The logger `std` as far as the package sets it; `errors` counts the messages about a bad level.
pub record Logger : Type 0 where
  pub level : Level
  pub report_caller : Bool
  pub formatter : Formatter
  pub hooks : List Hook
  pub errors : ℕ

abbrev choose_formatter : Text → Formatter
choose_formatter format = if text_beq format (codes "json") then json_formatter else text_formatter

abbrev or_text : Text → Text → Text
or_text [] d = d
or_text (c ∷ cs) d = c ∷ cs

abbrev or_count : ℕ → ℕ → ℕ
or_count zero d = d
or_count (suc n) d = suc n

-- `WithFormat`, `WithRotationCount` with a count that is not negative, `WithLevel`.
pub record Options : Type 0 where
  pub format : Text
  pub rotation_count : ℕ
  pub log_level : Text

pub data Setter : Type 0 where
  with_rotation_count : ℕ → Setter
  with_format with_level : Text → Setter

unfoldable pub apply : Setter → Options → Options
apply (with_rotation_count n) o = record o { rotation_count = n }
apply (with_format f) o = record o { format = f }
apply (with_level l) o = record o { log_level = l }

unfoldable pub apply_all : List Setter → Options → Options
apply_all [] o = o
apply_all (s ∷ ss) o = apply_all ss (apply s o)

unfoldable pub default_options : Options
default_options = record { format = codes "json"; rotation_count = 3; log_level = codes "debug" }

-- `logrus.ParseLevel`, and whether `rotatelogs.New` fails for a name.
module _ (parse_level : Text → Option Level) (rotate_fails : Text → Bool) where
  abbrev put_level : Option Level → Logger → Logger
  put_level none std = std
  put_level (some ll) std = record std { level = ll }

  -- `SetLevel`, whose error is returned.
  unfoldable pub set_level : Text → Logger → Bool × Logger
  set_level level std = (
    elim (parse_level level) [ none ↦ false | some ll ↦ true ],
    put_level (parse_level level) std,
  )

  abbrev init_level : Text → Logger → Logger
  init_level level std = elim (parse_level level) [
    | none ↦ record std { errors = std.errors + 1 }
    | some ll ↦ record std { level = ll }
  ]

  abbrev init_caller : Bool → Logger → Logger
  init_caller true std = record std { report_caller = true }
  init_caller false std = std

  -- `Init`; `true` stands for a nil error.
  unfoldable pub init : Settings → Logger → Bool × Logger
  init s std =
      let logfr = choose_formatter s.format in
      let std' : Logger =
        record (init_caller s.caller (init_level (or_text s.level (codes "debug")) std)) {
          formatter = logfr;
        } in
      let hook : Hook = record {
        levels = debug_level ∷ info_level ∷ warn_level ∷ error_level ∷ [];
        filename = s.filename;
        rotation_count = or_count s.rolling_days 7;
        formatter = logfr;
      } in
      elim s.filename [
        | [] ↦ (true, std')
        | c ∷ cs ↦
            if rotate_fails s.filename
            then (false, std')
            else (true, record std' { hooks = hook ∷ std'.hooks })
      ]

  -- `InitDailyRolling`, over the joined name of the file.
  unfoldable pub init_daily_rolling : Text → List Setter → Logger → Bool × Logger
  init_daily_rolling logfile opts std =
      let o = apply_all opts default_options in
      let std' = (set_level o.log_level std).1 in
      let hook : Hook = record {
        levels = info_level ∷ warn_level ∷ error_level ∷ fatal_level ∷ panic_level ∷ [];
        filename = logfile;
        rotation_count = o.rotation_count;
        formatter = choose_formatter o.format;
      } in
      if rotate_fails logfile
      then (false, std)
      else (true, record std' { hooks = hook ∷ std'.hooks })
