-- ===== src/Log/Tests.antt =====
-- The theorems on loggers, at a logrus that keeps the added fields in front.
use golang_service.Prelude.{
  ◌≡◌, refl, ◌≢◌, [], ◌∷◌, ◌++◌, none, some, arith, Option, String, ◌⊎◌, if◌then◌else◌,
}
use golang_service.Prelude.Text.{str_eq, eq_iff, insert, lookup}
use golang_service.Errors.{foreign}
use golang_service.Http.{text, err, Fields, value_of, Output, emit, skip, done}
use golang_service.Log.Entry.{
  Logrus, fields_in, fields, append_context, new, set_named_level, over, Merges, Raises,
}
use golang_service.Log.Interface.{FieldLogger, Laws}
use golang_service.Log.Entries.{entry_logger, entry_logger-Laws}
use golang_service.Http.{Level}
use golang_service.Http.{log_key, kv}
use golang_service.Log.Sharing.{Maps, map_at, append_context_at, with_at, fields_at}
use golang_service.Log.Sharing.Apart.{Apart, append_context_at-Apart}
use golang_service.Log.Levels.{level_fields, new_level}
use golang_service.Http.Fixtures.{world}
use golang_service.Log.Methods.{warn, error, fatal, panic, plain, line, value, slice}
use golang_service.Log.Exported.{print_at, format_at, line_at}
use golang_service.Log.Global.{global_ctx, global_append_context, global_ctx-global_append_context}

abbrev pub prepending : Logrus Fields
prepending = record {
  fresh = [];
  entry_data = λ c. c;
  with_fields = λ c fs. fs ++ c;
  with_error = λ c e. ("error", err e) ∷ c;
  parse_level = λ name. (none, foreign "not a valid logrus Level");
  put_level = λ c level. skip;
  log = λ c call. emit (Output.entry c call);
}

pub prepending-Merges : Merges prepending
unfolding lookup
prepending-Merges c [] k = refl
prepending-Merges c ((j, v) ∷ fs) k = ground (arith, eq_iff j k, prepending-Merges c fs k)

pub prepending-Raises : Raises prepending
unfolding lookup
prepending-Raises c e k = ground arith

-- its entries as loggers
abbrev pub logger : FieldLogger Fields
logger = entry_logger prepending

pub logger-Laws : Laws logger
logger-Laws = entry_logger-Laws prepending prepending-Merges prepending-Raises

-- a logrus that knows one level, and whose levels are lines of a file
abbrev strict : Logrus Fields
strict = record prepending {
  parse_level = λ name.
      if str_eq name "info" then (some Level.info, foreign "") else (none, foreign "unknown");
  put_level = λ c level. emit (Output.line "level" "info");
}

leveled :
    ((new strict "app" "" "info").1 world
      ≡ (done tt, record world { output = Output.line "level" "info" ∷ [] }))
    × (fields strict (new strict "app" "live" "info").0
        ≡ ("env", text "live") ∷ ("app", text "app") ∷ [])
unfolding new set_named_level fields insert
leveled = (refl, refl)

new_level_example :
    let does = (new strict "app" "" "loud").1 in
    ((◌≡◌ {A = String} "loud" "") × (does ≡ skip))
    ⊎ ((◌≢◌ {A = String} "loud" "")
        × (named : Level) × (none ≡ some named)
        × (does ≡ strict.put_level [] named))
    ⊎ ((◌≢◌ {A = String} "loud" "")
        × (◌≡◌ {A = Option Level} none none)
        × (c : Fields) × (does
            ≡ strict.log c (plain error (value (text "The supplied log level is invalid") ∷ [])))
        × (lookup "error" (fields strict c)
            ≡ over (lookup "error" (level_fields "loud")) (
                over
                  (lookup "error" (("error", err (foreign "unknown")) ∷ []))
                  (lookup "error" []))))
new_level_example = new_level strict prepending-Merges prepending-Raises "error" "app" "" "loud"

entry_logger-Laws_example : Laws (entry_logger prepending)
entry_logger-Laws_example = entry_logger-Laws prepending prepending-Merges prepending-Raises

spread :
    (print_at prepending warn (text "x" ∷ text "y" ∷ []) world ≡ (
      done tt,
      record world {
        output = Output.entry [] (plain warn (value (text "x") ∷ value (text "y") ∷ [])) ∷ [];
      },
    ))
    × (line_at prepending fatal (text "x" ∷ text "y" ∷ []) world ≡ (
      done tt,
      record world {
        output = Output.entry [] (line fatal (slice (text "x" ∷ text "y" ∷ []) ∷ [])) ∷ [];
      },
    ))
    × (format_at prepending panic "%s" (text "x" ∷ []) world ≡ (
      done tt,
      record world {
        output =
            Output.entry [] (plain panic (value (text "%s") ∷ slice (text "x" ∷ []) ∷ [])) ∷ [];
      },
    ))
unfolding print_at line_at format_at
spread = (refl, refl, refl)

global_ctx-global_append_context_example :
    lookup "a" (
      fields prepending (
        global_ctx prepending (
          global_append_context prepending
            ((log_key, kv (("a", text "x") ∷ [])) ∷ [])
            (("b", text "f") ∷ []))))
    ≡ over
        (lookup "a" (("b", text "f") ∷ []))
        (over (lookup "a" (fields_in ((log_key, kv (("a", text "x") ∷ [])) ∷ []))) (lookup "a" []))
global_ctx-global_append_context_example =
    global_ctx-global_append_context prepending prepending-Merges "a"
      ((log_key, kv (("a", text "x") ∷ [])) ∷ []) (("b", text "f") ∷ [])

-- the maps of a logger, of given fields, and of a context
abbrev maps : Maps
maps = (("a", text "c") ∷ []) ∷ (("b", text "f") ∷ []) ∷ (("a", text "x") ∷ []) ∷ []

append_context_at-Apart_example :
    let (made, after) = append_context_at (λ c fs. fs ++ c) 0 (some 2) 1 maps in
    (map_at after made
      ≡ fields_in (
          append_context prepending
            (("a", text "c") ∷ [])
            ((log_key, kv (("a", text "x") ∷ [])) ∷ [])
            (("b", text "f") ∷ [])))
    × Apart maps (append_context_at (λ c fs. fs ++ c) 0 (some 2) 1 maps) 1 "b" (text "new")
    × Apart maps (with_at (λ c fs. fs ++ c) 0 1 maps) 1 "b" (text "new")
    × Apart maps (fields_at 0 maps) 1 "b" (text "new")
unfolding map_at fields_in value_of
append_context_at-Apart_example =
    append_context_at-Apart prepending (λ c fs. fs ++ c) (λ e fs. refl) (("a", text "c") ∷ [])
      ((log_key, kv (("a", text "x") ∷ [])) ∷ []) 0 1 (some 2) maps 1 "b" (text "new") (omega arith)
      (omega arith) (omega arith) refl refl
