-- ===== src/Logging/Files.antt =====
-- logger/logger.go and logger/setting.go: which messages reach the log file.
use kupool.Common.{
  leb, if◌then◌else◌, Option-cases, Text, codes, ◌≡◌, refl, ap, ◌∙◌, ◌≢◌, inl, inr, Bool, true,
  false, ◌&&◌, Option, none, some, List, [], ◌∷◌,
}
use kupool.Logging.{
  init_level, init_caller, put_level, choose_formatter, or_text, or_count, Logger, Level,
  debug_level, info_level, warn_level, error_level, fatal_level, panic_level, Hook, Settings,
  Setter, default_options, apply_all, init, init_daily_rolling, set_level,
}
use kupool.Logging.Calls.{Logrus, Method}
use kupool.Logging.Hooks.{
  level_of, severity, has_level, reached, Output, FiresHooks, filed, has_level-init,
  has_level-init_daily_rolling, reached-hook, Adds, adds, said,
}

branch-opened :
    {X : Type 0} (f : Text) (fails : Bool) (a b c : X)
    → f ≢ []
    → fails ≡ false
    → elim f as (λ _. X) [ [] ↦ a | x ∷ xs ↦ if fails then b else c ] ≡ c
branch-opened [] fails a b c named opened = absurd (named refl)
branch-opened (x ∷ xs) fails a b c named opened = rw opened refl

module _ (parse_level : Text → Option Level) (rotate_fails : Text → Bool) where
  kept_level :
      (t : Text) (lg : Logger) → (init_level parse_level rotate_fails t lg).hooks ≡ lg.hooks
  kept_level t lg = elim (Option-cases (parse_level t)) [
    | inl e ↦ rw (e, init_level) refl
    | inr (ll, e) ↦ rw (e, init_level) refl
  ]

  kept_caller :
      (b : Bool) (lg : Logger) → (init_caller parse_level rotate_fails b lg).hooks ≡ lg.hooks
  kept_caller true lg = refl
  kept_caller false lg = refl

  kept_put :
      (o : Option Level) (lg : Logger) → (put_level parse_level rotate_fails o lg).hooks ≡ lg.hooks
  kept_put none lg = refl
  kept_put (some ll) lg = refl

  init-hook :
      (s : Settings) (lg : Logger)
      → s.filename ≢ []
      → rotate_fails s.filename ≡ false
      → lg.hooks ≡ []
      → (h : Hook) × ((init parse_level rotate_fails s lg).1.hooks ≡ h ∷ [])
        × (h.levels ≡ debug_level ∷ info_level ∷ warn_level ∷ error_level ∷ [])
        × (h.filename ≡ s.filename)
  unfolding init
  init-hook s lg named opened bare =
      let std = init_level parse_level rotate_fails (or_text s.level (codes "debug")) lg in
      let hook : Hook = record {
        levels = debug_level ∷ info_level ∷ warn_level ∷ error_level ∷ [];
        filename = s.filename;
        rotation_count = or_count s.rolling_days 7;
        formatter = choose_formatter s.format;
      } in
      let kept =
        kept_caller s.caller std ∙ kept_level (or_text s.level (codes "debug")) lg ∙ bare in
      (
        hook,
        ap (λ (x : Bool × Logger). x.1.hooks)
              (branch-opened s.filename (rotate_fails s.filename) _ _ _ named opened)
            ∙ ap (λ hs. hook ∷ hs) kept,
        refl,
        refl,
      )

  init_daily_rolling-hook :
      (file : Text) (opts : List Setter) (lg : Logger)
      → rotate_fails file ≡ false
      → lg.hooks ≡ []
      → (h : Hook) × ((init_daily_rolling parse_level rotate_fails file opts lg).1.hooks ≡ h ∷ [])
        × (h.levels ≡ info_level ∷ warn_level ∷ error_level ∷ fatal_level ∷ panic_level ∷ [])
        × (h.filename ≡ file)
  unfolding init_daily_rolling set_level
  init_daily_rolling-hook file opts lg opened bare =
      let o = apply_all opts default_options in
      let kept = kept_put (parse_level o.log_level) lg ∙ bare in
      let hook : Hook = record {
        levels = info_level ∷ warn_level ∷ error_level ∷ fatal_level ∷ panic_level ∷ [];
        filename = file;
        rotation_count = o.rotation_count;
        formatter = choose_formatter o.format;
      } in
      (hook, rw opened (ap (λ hs. hook ∷ hs) kept), refl, refl)

  reached-init :
      (s : Settings) (lg : Logger) (l : Level)
      → s.filename ≢ []
      → rotate_fails s.filename ≡ false
      → lg.hooks ≡ []
      → let std = (init parse_level rotate_fails s lg).1 in
        reached l std ≡ filed error_level debug_level s.filename std.level l
  reached-init s lg l named opened bare =
      let (h, one, levels, file) = init-hook s lg named opened bare in
      let std = (init parse_level rotate_fails s lg).1 in
      reached-hook l std h one
      ∙ ap
          (λ (b : Bool). if leb (severity l) (severity std.level) && b then h.filename ∷ [] else [])
          (ap (has_level l) levels ∙ has_level-init l)
      ∙ ap (λ (f : Text). filed error_level debug_level f std.level l) file

  reached-init_daily_rolling :
      (file : Text) (opts : List Setter) (lg : Logger) (l : Level)
      → rotate_fails file ≡ false
      → lg.hooks ≡ []
      → let std = (init_daily_rolling parse_level rotate_fails file opts lg).1 in
        reached l std ≡ filed panic_level info_level file std.level l
  reached-init_daily_rolling file opts lg l opened bare =
      let (h, one, levels, named) = init_daily_rolling-hook file opts lg opened bare in
      let std = (init_daily_rolling parse_level rotate_fails file opts lg).1 in
      reached-hook l std h one
      ∙ ap
          (λ (b : Bool). if leb (severity l) (severity std.level) && b then h.filename ∷ [] else [])
          (ap (has_level l) levels ∙ has_level-init_daily_rolling l)
      ∙ ap (λ (f : Text). filed panic_level info_level f std.level l) named

  -- If logrus hands messages to the hooks for their levels, the logger has no hook yet and the files
  -- can be opened, the functions of the package that stand for a level put a message on the log file
  -- and on no other, as long as the logger lets the level through, for these levels: behind
  -- `Init` with a file, exactly those from debug to error, not fatal and panic; behind
  -- `InitDailyRolling`, exactly those from info to panic, not debug, its own default level.
  pub said-filed :
      {A E : Type 0} (lr : Logrus A E Output) (m : Method) (args : List A) (format : Text)
      (s : Settings) (file : Text) (opts : List Setter) (lg : Logger) (o : Output)
      → FiresHooks lr
      → s.filename ≢ []
      → rotate_fails s.filename ≡ false
      → rotate_fails file ≡ false
      → lg.hooks ≡ []
      → let std = (init parse_level rotate_fails s lg).1 in
        let daily = (init_daily_rolling parse_level rotate_fails file opts lg).1 in
        Adds lr m args format
          (record o { logger = std })
          (filed error_level debug_level s.filename std.level (level_of m))
        × Adds lr m args format
            (record o { logger = daily })
            (filed panic_level info_level file daily.level (level_of m))
  said-filed lr m args format s file opts lg o fires named opened opened' bare =
      let std = (init parse_level rotate_fails s lg).1 in
      let daily = (init_daily_rolling parse_level rotate_fails file opts lg).1 in
      (
        adds lr m args format (record o { logger = std })
            (reached-init s lg (level_of m) named opened bare)
            (said lr fires m args format (record o { logger = std })),
        adds lr m args format (record o { logger = daily })
            (reached-init_daily_rolling file opts lg (level_of m) opened' bare)
            (said lr fires m args format (record o { logger = daily })),
      )
