-- ===== src/Log/Global.antt =====
-- log/exported.go: the functions that hand on to the package's own entry, `logEntry`.
use golang_service.Prelude.{ℕ, ◌≡◌, refl, ap, ◌∙◌, String, [], Option, none, some}
use golang_service.Prelude.Text.{lookup}
use golang_service.Errors.{Error}
use golang_service.Http.{Any, Fields, Context, Level}
use golang_service.Log.Entry.{
  Logrus, with_kv, with_err, fields, in_context, new_context, append_context, fields_in, new, over,
  Merges, lookup-with_kv,
}
use golang_service.Log.Contexts.{in_context-append_context}
use golang_service.Log.Setters.{Loggers, set_output, set_formatter, set_level, level_of, add_hook}

module _ {Entry : Type 0} (l : Logrus Entry) where
  -- `logEntry`
  unfoldable pub log_entry : Entry
  unfolding new
  log_entry = (new l "" "" "").0

  -- `With`, `Err`, `Fields`, `Ctx`, `NewContext`, `AppendContext`
  unfoldable pub global_with : Fields → Entry
  unfolding log_entry with_kv
  global_with fs = with_kv l log_entry fs

  unfoldable pub global_err : Error → Entry
  unfolding log_entry
  global_err e = with_err l log_entry e

  unfoldable pub global_fields : Fields
  unfolding log_entry fields
  global_fields = fields l log_entry

  unfoldable pub global_ctx : Context → Entry
  unfolding log_entry in_context
  global_ctx ctx = in_context l log_entry ctx

  unfoldable pub global_new_context : Context → Context
  unfolding log_entry new_context
  global_new_context ctx = new_context l log_entry ctx

  unfoldable pub global_append_context : Context → Fields → Context
  unfolding log_entry append_context
  global_append_context ctx fs = append_context l log_entry ctx fs

  -- `SetOutput`, `SetFormatter`, `SetLevel`, `Level`, `AddHook`
  module _ (address : Entry → ℕ) where
    unfoldable pub global_set_output : ℕ → Loggers → Loggers
    unfolding log_entry set_output
    global_set_output out s = set_output address log_entry out s

    unfoldable pub global_set_formatter : ℕ → Loggers → Loggers
    unfolding log_entry set_formatter
    global_set_formatter f s = set_formatter address log_entry f s

    unfoldable pub global_set_level : Level → Loggers → Loggers
    unfolding log_entry set_level
    global_set_level level s = set_level address log_entry level s

    unfoldable pub global_level : Loggers → Level
    unfolding log_entry level_of
    global_level s = level_of address log_entry s

    unfoldable pub global_add_hook : (ℕ → ℕ → ℕ) → ℕ → Loggers → Loggers
    unfolding log_entry add_hook
    global_add_hook add hook s = add_hook address add log_entry hook s

over_same : (a : Option Any) → over a a ≡ a
over_same (some v) = refl
over_same none = refl

module _ {Entry : Type 0} (l : Logrus Entry) (merges : Merges l) (k : String) where
  -- The package's functions on contexts: an entry that `Ctx` takes from a context to which
  -- `AppendContext` has appended fields shows, under any name, the appended value, else that of the
  -- context before, else that of a fresh logrus entry, if adding fields to a logrus entry hides
  -- those of the same names and keeps all others.
  pub global_ctx-global_append_context :
      (ctx : Context) (fs : Fields)
      → lookup k (fields l (global_ctx l (global_append_context l ctx fs)))
        ≡ over (lookup k fs) (over (lookup k (fields_in ctx)) (lookup k (l.entry_data l.fresh)))
  unfolding global_ctx global_append_context lookup
  global_ctx-global_append_context ctx fs =
      in_context-append_context l merges k (log_entry l) (log_entry l) ctx fs
      ∙ ap (λ a. over (lookup k fs) (over (lookup k (fields_in ctx)) a))
          (over_same (lookup k (l.entry_data (with_kv l l.fresh [])))
            ∙ lookup-with_kv l merges k l.fresh [])
