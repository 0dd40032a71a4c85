-- ===== src/Log/Entry.antt =====
-- log/context.go: the methods of `LoggerEntry`, on the entries of the package logrus.
use golang_service.Prelude.{◌≡◌, refl, ap, ◌∙◌, String, [], ◌∷◌, Option, none, some, if◌then◌else◌}
use golang_service.Prelude.Text.{str_eq, lookup, insert, lookup-insert}
use golang_service.Errors.{Error}
use golang_service.Http.{
  Fields, Any, text, err, Context, kv, any, log_key, value_of, with_value, Level, Effect, skip,
}
use golang_service.Log.Methods.{Call, plain, error, value}

-- What the package calls of logrus.
pub record Logrus (Entry : Type 0) : Type 0 where
  -- `NewEntry(New())`
  pub fresh : Entry
  -- `entry.Data`, `entry.WithFields`, `entry.WithError`
  pub entry_data : Entry → Fields
  pub with_fields : Entry → Fields → Entry
  pub with_error : Entry → Error → Entry
  -- `ParseLevel`: the level, or the error
  pub parse_level : String → Option Level × Error
  -- `entry.Logger.Level = level`
  pub put_level : Entry → Level → Effect
  -- `entry.Error`, `entry.Infof` and the others
  pub log : Entry → Call → Effect

-- `for k, v := range fields { data[k] = v }`, into a new map
unfoldable pub copy_fields : Fields → Fields
unfolding insert
copy_fields [] = []
copy_fields ((k, v) ∷ fields) = insert k v (copy_fields fields)

-- `ctx.Value(logKey).(KV)`, and no fields where that fails
unfoldable pub fields_in : Context → Fields
unfolding value_of
fields_in ctx = elim (value_of ctx log_key) [
  | none ↦ []
  | some (kv fields) ↦ fields
  | some (any v) ↦ []
]

-- the fields of `New`
unfoldable pub base_fields : String → String → Fields
unfolding insert
base_fields app env =
    let named = if str_eq app "" then [] else insert "app" (text app) [] in
    if str_eq env "" then named else insert "env" (text env) named

module _ {Entry : Type 0} (l : Logrus Entry) where
  -- `With`
  unfoldable pub with_kv : Entry → Fields → Entry
  unfolding copy_fields
  with_kv c fields = l.with_fields c (copy_fields fields)

  -- `Err`
  abbrev pub with_err : Entry → Error → Entry
  with_err c e = l.with_error c e

  -- `Fields`
  unfoldable pub fields : Entry → Fields
  unfolding copy_fields
  fields c = copy_fields (l.entry_data c)

  -- `Ctx`
  unfoldable pub in_context : Entry → Context → Entry
  unfolding with_kv fields_in
  in_context c ctx = with_kv c (fields_in ctx)

  -- `NewContext`
  unfoldable pub new_context : Entry → Context → Context
  unfolding fields
  new_context c ctx = with_value ctx log_key (kv (fields c))

  -- `AppendContext`
  unfoldable pub append_context : Entry → Context → Fields → Context
  unfolding in_context with_kv new_context
  append_context c ctx fs = new_context (with_kv (in_context c ctx) fs) ctx

  -- the level that `New` sets, or the entry that it writes about one that is no level
  unfoldable pub set_named_level : Entry → String → Effect
  unfolding with_kv
  set_named_level logger level = if str_eq level "" then skip else elim (l.parse_level level).0 [
    | some named ↦ l.put_level logger named
    | none ↦
        l.log
          (with_kv (with_err logger (l.parse_level level).1) (
            ("module", text "log_initialisation")
            ∷ ("tag", text "log_new_failed")
            ∷ ("logLevel", text level)
            ∷ []))
          (plain error (value (text "The supplied log level is invalid") ∷ []))
  ]

  -- `New`: the entry, and what is done on the way
  unfoldable pub new : String → String → String → Entry × Effect
  unfolding with_kv base_fields set_named_level
  new app env level = (with_kv l.fresh (base_fields app env), set_named_level l.fresh level)

-- The first value, and where there is none the second.
abbrev pub over : Option Any → Option Any → Option Any
over (some v) below = some v
over none below = below

pub over_assoc : (a b c : Option Any) → over (over a b) c ≡ over a (over b c)
over_assoc (some v) b c = refl
over_assoc none b c = refl

-- Fields that are added hide those of the same name, and keep all others: what logrus documents of
-- `WithFields`.
abbrev pub Merges : {Entry : Type 0} → Logrus Entry → Type 0
Merges {Entry} l =
    (c : Entry) (fs : Fields) (k : String)
    → lookup k (l.entry_data (l.with_fields c fs)) ≡ over (lookup k fs) (lookup k (l.entry_data c))

-- An error is added as a field by the name `error`: what logrus documents of `WithError`, where
-- its variable `ErrorKey` is left as it is.
abbrev pub Raises : {Entry : Type 0} → Logrus Entry → Type 0
Raises {Entry} l =
    (c : Entry) (e : Error) (k : String)
    → lookup k (l.entry_data (l.with_error c e))
      ≡ over (lookup k (("error", err e) ∷ [])) (lookup k (l.entry_data c))

-- A copy holds the same values.
pub lookup-copy_fields : (k : String) (fs : Fields) → lookup k (copy_fields fs) ≡ lookup k fs
unfolding copy_fields lookup
lookup-copy_fields k [] = refl
lookup-copy_fields k ((j, v) ∷ fs) =
    lookup-insert j k v (copy_fields fs)
    ∙ ap (λ (r : Option Any). if str_eq j k then some v else r) (lookup-copy_fields k fs)

module _ {Entry : Type 0} (l : Logrus Entry) (merges : Merges l) (k : String) where
  pub lookup-with_kv :
      (c : Entry) (fs : Fields)
      → lookup k (l.entry_data (with_kv l c fs)) ≡ over (lookup k fs) (lookup k (l.entry_data c))
  unfolding with_kv
  lookup-with_kv c fs =
      merges c (copy_fields fs) k
      ∙ ap (λ (a : Option Any). over a (lookup k (l.entry_data c))) (lookup-copy_fields k fs)
