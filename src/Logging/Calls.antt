-- ===== src/Logging/Calls.antt =====
-- logger/logger.go: the functions that pass their arguments on to the logger of logrus, which is a
-- parameter: a record of its methods, over values `A`, entries `E` and its own state `S`.
use kupool.Common.{Text, Time, List}

-- The methods that print, for one kind of arguments.
pub record Printers (X S : Type 0) : Type 0 where
  pub trace : X → S → S
  pub debug : X → S → S
  pub print : X → S → S
  pub info : X → S → S
  pub warn : X → S → S
  pub warning : X → S → S
  pub error : X → S → S
  pub panic : X → S → S
  pub fatal : X → S → S

-- `with_field` and its like return an entry. `error_key` is the name that logrus keeps errors under.
pub record Logrus (A E S : Type 0) : Type 0 where
  pub plain : Printers (List A) S
  pub formatted : Printers (Text × List A) S
  pub lines : Printers (List A) S
  pub error_key : Text
  pub with_field : Text → A → S → E
  pub with_fields : List (Text × A) → S → E
  pub with_context : A → S → E
  pub with_time : Time → S → E

-- The names of the printing functions, less `f` and `ln`.
pub data Method : Type 0 where
  trace debug print info warn warning error panic fatal : Method

module _ {A E S : Type 0} (std : Logrus A E S) where
  -- `Trace` to `Fatal`.
  unfoldable pub say : Method → List A → S → S
  say trace args = std.plain.trace args
  say debug args = std.plain.debug args
  say print args = std.plain.print args
  say info args = std.plain.info args
  say warn args = std.plain.warn args
  say warning args = std.plain.warning args
  say error args = std.plain.error args
  say panic args = std.plain.panic args
  say fatal args = std.plain.fatal args

  -- `Tracef` to `Fatalf`.
  unfoldable pub sayf : Method → Text → List A → S → S
  sayf trace format args = std.formatted.trace (format, args)
  sayf debug format args = std.formatted.debug (format, args)
  sayf print format args = std.formatted.print (format, args)
  sayf info format args = std.formatted.info (format, args)
  sayf warn format args = std.formatted.warn (format, args)
  sayf warning format args = std.formatted.warning (format, args)
  sayf error format args = std.formatted.error (format, args)
  sayf panic format args = std.formatted.panic (format, args)
  sayf fatal format args = std.formatted.fatal (format, args)

  -- `Traceln` to `Fatalln`.
  unfoldable pub sayln : Method → List A → S → S
  sayln trace args = std.lines.trace args
  sayln debug args = std.lines.debug args
  sayln print args = std.lines.print args
  sayln info args = std.lines.info args
  sayln warn args = std.lines.warn args
  sayln warning args = std.lines.warning args
  sayln error args = std.lines.error args
  sayln panic args = std.lines.panic args
  sayln fatal args = std.lines.fatal args

  unfoldable pub with_field : Text → A → S → E
  with_field key value = std.with_field key value

  -- `WithError`, of a value that is an error.
  unfoldable pub with_error : A → S → E
  with_error err = std.with_field std.error_key err

  unfoldable pub with_context : A → S → E
  with_context ctx = std.with_context ctx

  unfoldable pub with_fields : List (Text × A) → S → E
  with_fields fields = std.with_fields fields

  unfoldable pub with_time : Time → S → E
  with_time t = std.with_time t
