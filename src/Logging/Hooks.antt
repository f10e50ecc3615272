-- ===== src/Logging/Hooks.antt =====
-- logger/logger.go: what logrus documents of its levels and hooks, and what a message adds to the
-- files of a logger.
use mathlib.Core.Path.{subst}
use kupool.Common.{
  leb, ◌==◌, if◌then◌else◌, Text, ℕ, ◌≡◌, refl, Bool, true, false, ◌&&◌, List, [], ◌∷◌, ◌++◌, arith,
}
use kupool.Logging.{
  Logger, Level, trace_level, debug_level, info_level, warn_level, error_level, fatal_level,
  panic_level, Hook,
}
use kupool.Logging.Calls.{
  Printers, Logrus, Method, trace, debug, print, info, warn, warning, error, panic, fatal, say,
  sayf, sayln,
}

-- What logrus documents of its methods: `Print` is of the level info, `Warning` of warn.
abbrev pub level_of : Method → Level
level_of trace = trace_level
level_of debug = debug_level
level_of print = info_level
level_of info = info_level
level_of warn = warn_level
level_of warning = warn_level
level_of error = error_level
level_of panic = panic_level
level_of fatal = fatal_level

abbrev pub severity : Level → ℕ
severity panic_level = 0
severity fatal_level = 1
severity error_level = 2
severity warn_level = 3
severity info_level = 4
severity debug_level = 5
severity trace_level = 6

abbrev pub has_level : Level → List Level → Bool
has_level l [] = false
has_level l (x ∷ xs) = if severity x == severity l then true else has_level l xs

-- The files of the hooks for a level.
abbrev pub files : Level → List Hook → List Text
files l [] = []
files l (h ∷ hs) = if has_level l h.levels then h.filename ∷ files l hs else files l hs

-- What a message adds to the files: an entry on the file of each hook for its level, if the logger
-- lets the level through.
abbrev pub reached : Level → Logger → List Text
reached l lg = if leb (severity l) (severity lg.level) then files l lg.hooks else []

-- The state of logrus: its settings, and the files that messages have gone to.
pub record Output : Type 0 where
  pub logger : Logger
  pub written : List Text

abbrev pub method : {X : Type 0} → Printers X Output → Method → X → Output → Output
method p trace = p.trace
method p debug = p.debug
method p print = p.print
method p info = p.info
method p warn = p.warn
method p warning = p.warning
method p error = p.error
method p panic = p.panic
method p fatal = p.fatal

abbrev pub Fires : {X : Type 0} → Printers X Output → Type 0
Fires {X} p =
    (m : Method) (x : X) (o : Output)
    → (method p m x o).written ≡ reached (level_of m) o.logger ++ o.written

-- What logrus documents: a message is handed to the hooks for its level.
abbrev pub FiresHooks : {A E : Type 0} → Logrus A E Output → Type 0
FiresHooks lr = Fires lr.plain × Fires lr.formatted × Fires lr.lines

-- The levels from the severest to the least that are filed, if the logger lets them through.
abbrev pub filed : Level → Level → Text → Level → Level → List Text
filed lo hi file own l =
    if leb (severity l) (severity own)
      && (leb (severity lo) (severity l) && leb (severity l) (severity hi))
    then file ∷ []
    else []

pub has_level-init :
    (l : Level)
    → has_level l (debug_level ∷ info_level ∷ warn_level ∷ error_level ∷ [])
      ≡ leb (severity error_level) (severity l) && leb (severity l) (severity debug_level)
has_level-init trace_level = refl
has_level-init debug_level = refl
has_level-init info_level = refl
has_level-init warn_level = refl
has_level-init error_level = refl
has_level-init fatal_level = refl
has_level-init panic_level = refl

pub has_level-init_daily_rolling :
    (l : Level)
    → has_level l (info_level ∷ warn_level ∷ error_level ∷ fatal_level ∷ panic_level ∷ [])
      ≡ leb (severity panic_level) (severity l) && leb (severity l) (severity info_level)
has_level-init_daily_rolling trace_level = refl
has_level-init_daily_rolling debug_level = refl
has_level-init_daily_rolling info_level = refl
has_level-init_daily_rolling warn_level = refl
has_level-init_daily_rolling error_level = refl
has_level-init_daily_rolling fatal_level = refl
has_level-init_daily_rolling panic_level = refl

pub reached-hook :
    (l : Level) (lg : Logger) (h : Hook)
    → lg.hooks ≡ h ∷ []
    → reached l lg ≡ (
        if leb (severity l) (severity lg.level) && has_level l h.levels
        then h.filename ∷ []
        else [])
reached-hook l lg h one = rw one (ground arith)

module _ {A E : Type 0} (lr : Logrus A E Output) where
  -- What the three functions of a name add to the files.
  abbrev pub Adds : Method → List A → Text → Output → List Text → Type 0
  Adds m args format o added =
      ((say lr m args o).written ≡ added ++ o.written)
      × ((sayf lr m format args o).written ≡ added ++ o.written)
      × ((sayln lr m args o).written ≡ added ++ o.written)

  pub adds :
      (m : Method) (args : List A) (format : Text) (o : Output) {a b : List Text}
      → a ≡ b
      → Adds m args format o a
      → Adds m args format o b
  adds m args format o e said = subst (Adds m args format o) e said

module _ {A E : Type 0} (lr : Logrus A E Output) (fires : FiresHooks lr) where
  pub said :
      (m : Method) (args : List A) (format : Text) (o : Output)
      → Adds lr m args format o (reached (level_of m) o.logger)
  unfolding say sayf sayln
  said trace args format o =
      (fires.0 trace args o, fires.1 trace (format, args) o, fires.2 trace args o)
  said debug args format o =
      (fires.0 debug args o, fires.1 debug (format, args) o, fires.2 debug args o)
  said print args format o =
      (fires.0 print args o, fires.1 print (format, args) o, fires.2 print args o)
  said info args format o =
      (fires.0 info args o, fires.1 info (format, args) o, fires.2 info args o)
  said warn args format o =
      (fires.0 warn args o, fires.1 warn (format, args) o, fires.2 warn args o)
  said warning args format o =
      (fires.0 warning args o, fires.1 warning (format, args) o, fires.2 warning args o)
  said error args format o =
      (fires.0 error args o, fires.1 error (format, args) o, fires.2 error args o)
  said panic args format o =
      (fires.0 panic args o, fires.1 panic (format, args) o, fires.2 panic args o)
  said fatal args format o =
      (fires.0 fatal args o, fires.1 fatal (format, args) o, fires.2 fatal args o)
