-- ===== src/Log/Exported.antt =====
-- log/exported.go: the functions Debug … Panicln, on the package's own entry, `logEntry`.
use golang_service.Prelude.{String, List, [], ◌∷◌, map}
use golang_service.Http.{Any, text, Effect}
use golang_service.Log.Methods.{
  Method, debug, info, print, warn, warning, error, fatal, panic, value, slice, plain, formatted,
  line,
}
use golang_service.Log.Entry.{Logrus}
use golang_service.Log.Global.{log_entry}

module _ {Entry : Type 0} (l : Logrus Entry) where
  -- `Debug` … `Panic`; the last two hand `args` on without spreading it
  unfoldable pub print_at : Method → List Any → Effect
  unfolding log_entry
  print_at debug args = l.log (log_entry l) (plain debug (map value args))
  print_at info args = l.log (log_entry l) (plain info (map value args))
  print_at print args = l.log (log_entry l) (plain print (map value args))
  print_at warn args = l.log (log_entry l) (plain warn (map value args))
  print_at warning args = l.log (log_entry l) (plain warning (map value args))
  print_at error args = l.log (log_entry l) (plain error (map value args))
  print_at fatal args = l.log (log_entry l) (plain fatal (slice args ∷ []))
  print_at panic args = l.log (log_entry l) (plain panic (slice args ∷ []))

  -- `Debugf` … `Panicf`; the last two call `Fatal` and `Panic`
  unfoldable pub format_at : Method → String → List Any → Effect
  unfolding log_entry
  format_at debug format args = l.log (log_entry l) (formatted debug format (map value args))
  format_at info format args = l.log (log_entry l) (formatted info format (map value args))
  format_at print format args = l.log (log_entry l) (formatted print format (map value args))
  format_at warn format args = l.log (log_entry l) (formatted warn format (map value args))
  format_at warning format args = l.log (log_entry l) (formatted warning format (map value args))
  format_at error format args = l.log (log_entry l) (formatted error format (map value args))
  format_at fatal format args =
      l.log (log_entry l) (plain fatal (value (text format) ∷ slice args ∷ []))
  format_at panic format args =
      l.log (log_entry l) (plain panic (value (text format) ∷ slice args ∷ []))

  -- `Debugln` … `Panicln`; the last two hand `args` on without spreading it
  unfoldable pub line_at : Method → List Any → Effect
  unfolding log_entry
  line_at debug args = l.log (log_entry l) (line debug (map value args))
  line_at info args = l.log (log_entry l) (line info (map value args))
  line_at print args = l.log (log_entry l) (line print (map value args))
  line_at warn args = l.log (log_entry l) (line warn (map value args))
  line_at warning args = l.log (log_entry l) (line warning (map value args))
  line_at error args = l.log (log_entry l) (line error (map value args))
  line_at fatal args = l.log (log_entry l) (line fatal (slice args ∷ []))
  line_at panic args = l.log (log_entry l) (line panic (slice args ∷ []))
