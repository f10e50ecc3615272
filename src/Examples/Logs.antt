-- ===== src/Examples/Logs.antt =====
-- Tests of the logger.
use kupool.Common.{codes, ℕ, refl, false, some, [], ◌∷◌, ◌++◌}
use kupool.Logging.{
  Logger, Level, debug_level, error_level, panic_level, info_level, Settings, with_rotation_count,
  text_formatter, init, init_daily_rolling,
}
use kupool.Logging.Calls.{
  Printers, Logrus, trace, debug, print, info, warn, warning, error, panic, fatal,
}
use kupool.Logging.Hooks.{level_of, reached, Output, Fires, Adds, filed}
use kupool.Logging.Files.{said-filed}

abbrev hand_on : {X : Type 0} → Level → X → Output → Output
hand_on l x o = record o { written = reached l o.logger ++ o.written }

abbrev printers : {X : Type 0} → Printers X Output
printers = record {
  trace = hand_on (level_of trace);
  debug = hand_on (level_of debug);
  print = hand_on (level_of print);
  info = hand_on (level_of info);
  warn = hand_on (level_of warn);
  warning = hand_on (level_of warning);
  error = hand_on (level_of error);
  panic = hand_on (level_of panic);
  fatal = hand_on (level_of fatal);
}

abbrev logrus : Logrus ℕ ℕ Output
logrus = record {
  plain = printers;
  formatted = printers;
  lines = printers;
  error_key = codes "error";
  with_field = λ k v o. v;
  with_fields = λ fs o. 0;
  with_context = λ c o. c;
  with_time = λ t o. 0;
}

printers_fire : {X : Type 0} → Fires {X = X} printers
printers_fire trace x o = refl
printers_fire debug x o = refl
printers_fire print x o = refl
printers_fire info x o = refl
printers_fire warn x o = refl
printers_fire warning x o = refl
printers_fire error x o = refl
printers_fire panic x o = refl
printers_fire fatal x o = refl

abbrev settings : Settings
settings = record {
  filename = codes "app.log";
  level = codes "info";
  rolling_days = 0;
  format = codes "json";
  caller = false;
}

abbrev fresh : Logger
fresh = record {
  level = info_level;
  report_caller = false;
  formatter = text_formatter;
  hooks = [];
  errors = 0;
}

said-filed_example :
    let std = (init (λ t. some debug_level) (λ t. false) settings fresh).1 in
    let daily =
      (init_daily_rolling
        (λ t. some debug_level)
        (λ t. false)
        (codes "day")
        (with_rotation_count 5 ∷ [])
        fresh).1 in
    Adds logrus fatal
      (1 ∷ [])
      (codes "%d")
      (record { logger = std; written = [] })
      (filed error_level debug_level settings.filename std.level (level_of fatal))
    × Adds logrus fatal
        (1 ∷ [])
        (codes "%d")
        (record { logger = daily; written = [] })
        (filed panic_level info_level (codes "day") daily.level (level_of fatal))
said-filed_example =
    said-filed (λ t. some debug_level) (λ t. false) logrus fatal (1 ∷ []) (codes "%d") settings
      (codes "day") (with_rotation_count 5 ∷ []) fresh (record { logger = fresh; written = [] })
      (printers_fire, printers_fire, printers_fire) (λ e. cc) refl refl refl
