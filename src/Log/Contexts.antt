-- ===== src/Log/Contexts.antt =====
-- log/context.go: what a context carries from one logger to another.
use golang_service.Prelude.{
  ◌≡◌, refl, ap, ◌∙◌, ◌≢◌, not, ◌&&◌, false, String, [], Bool, true, Bool-cases, inl, inr, Option,
  none, some, arith, if◌then◌else◌,
}
use golang_service.Prelude.Text.{str_eq, lookup, insert, lookup-insert}
use golang_service.Http.{
  Fields, Any, text, Context, ContextKey, log_key, user_key, value_of, key_eq,
}
use golang_service.Log.Entry.{
  Logrus, fields_in, with_kv, fields, in_context, new_context, append_context, new, base_fields,
  over, Merges, over_assoc, lookup-copy_fields, lookup-with_kv,
}

lookup-base_fields :
    (app env k : String)
    → lookup k (base_fields app env) ≡ (
        if str_eq "env" k && not (str_eq env "")
        then some (text env)
        else if str_eq "app" k && not (str_eq app "")
        then some (text app)
        else none)
unfolding base_fields lookup
lookup-base_fields app env k = elim (Bool-cases (str_eq app "")) [
  | inl a ↦ elim (Bool-cases (str_eq env "")) [
    | inl e ↦ rw (a, e) (ground arith)
    | inr e ↦ rw (a, e) (lookup-insert "env" k (text env) [] ∙ ground arith)
  ]
  | inr a ↦ elim (Bool-cases (str_eq env "")) [
    | inl e ↦ rw (a, e) (lookup-insert "app" k (text app) [] ∙ ground arith)
    | inr e ↦
        rw (a, e)
          (lookup-insert "env" k (text env) (insert "app" (text app) [])
            ∙ ap (λ (o : Option Any). if str_eq "env" k then some (text env) else o)
                (lookup-insert "app" k (text app) [])
            ∙ ground arith)
  ]
]

over_if :
    (a b : Bool) (v w : Any) (c : Option Any)
    → over (if a then some v else if b then some w else none) c
      ≡ (if a then some v else if b then some w else c)
over_if true b v w c = refl
over_if false true v w c = refl
over_if false false v w c = refl

pub fields_in-new_context :
    {Entry : Type 0} (l : Logrus Entry) (c : Entry) (ctx : Context)
    → fields_in (new_context l c ctx) ≡ fields l c
unfolding fields_in new_context value_of key_eq
fields_in-new_context l c ctx = refl

module _ {Entry : Type 0} (l : Logrus Entry) (merges : Merges l) (k : String) where
  pub lookup-in_context :
      (c : Entry) (ctx : Context)
      → lookup k (l.entry_data (in_context l c ctx))
        ≡ over (lookup k (fields_in ctx)) (lookup k (l.entry_data c))
  unfolding in_context
  lookup-in_context c ctx = lookup-with_kv l merges k c (fields_in ctx)

  pub lookup-append_context :
      (c : Entry) (ctx : Context) (fs : Fields)
      → lookup k (fields_in (append_context l c ctx fs))
        ≡ over (lookup k fs) (over (lookup k (fields_in ctx)) (lookup k (l.entry_data c)))
  unfolding append_context fields
  lookup-append_context c ctx fs =
      ap (lookup k) (fields_in-new_context l (with_kv l (in_context l c ctx) fs) ctx)
      ∙ lookup-copy_fields k (l.entry_data (with_kv l (in_context l c ctx) fs))
      ∙ lookup-with_kv l merges k (in_context l c ctx) fs
      ∙ ap (over (lookup k fs)) (lookup-in_context c ctx)

  -- what a context with appended fields has, before another value
  pub over-append_context :
      (c : Entry) (ctx : Context) (fs : Fields) (a : Option Any)
      → over (lookup k (fields_in (append_context l c ctx fs))) a
        ≡ over (lookup k fs) (over (lookup k (fields_in ctx)) (over (lookup k (l.entry_data c)) a))
  over-append_context c ctx fs a =
      ap (λ b. over b a) (lookup-append_context c ctx fs)
      ∙ over_assoc (lookup k fs) (over (lookup k (fields_in ctx)) (lookup k (l.entry_data c))) a
      ∙ ap (over (lookup k fs))
          (over_assoc (lookup k (fields_in ctx)) (lookup k (l.entry_data c)) a)

  -- A logger d that is put into a context to which another logger c has appended fields shows,
  -- under any name, the appended value, else that of the context before, else that of c, else its
  -- own, where adding fields to a logrus entry keeps all others.
  pub in_context-append_context :
      (c d : Entry) (ctx : Context) (fs : Fields)
      → lookup k (fields l (in_context l d (append_context l c ctx fs)))
        ≡ over (lookup k fs) (
            over
              (lookup k (fields_in ctx))
              (over (lookup k (l.entry_data c)) (lookup k (l.entry_data d))))
  unfolding fields
  in_context-append_context c d ctx fs =
      lookup-copy_fields k (l.entry_data (in_context l d (append_context l c ctx fs)))
      ∙ lookup-in_context d (append_context l c ctx fs)
      ∙ over-append_context c ctx fs (lookup k (l.entry_data d))

  -- A new logger has the application and the environment that it was given, each where it is not
  -- empty, over what a fresh logrus entry has, if adding fields to a logrus entry keeps all others.
  pub new-fields :
      (app env level : String)
      → lookup k (fields l (new l app env level).0) ≡ (
          if str_eq "env" k && not (str_eq env "")
          then some (text env)
          else if str_eq "app" k && not (str_eq app "")
          then some (text app)
          else lookup k (l.entry_data l.fresh))
  unfolding new fields
  new-fields app env level =
      lookup-copy_fields k (l.entry_data (with_kv l l.fresh (base_fields app env)))
      ∙ lookup-with_kv l merges k l.fresh (base_fields app env)
      ∙ ap (λ a. over a (lookup k (l.entry_data l.fresh))) (lookup-base_fields app env k)
      ∙ over_if (str_eq "env" k && not (str_eq env "")) (str_eq "app" k && not (str_eq app ""))
          (text env) (text app) (lookup k (l.entry_data l.fresh))

-- Putting a logger into a context changes no value but the logger's.
pub new_context-other :
    {Entry : Type 0} (l : Logrus Entry) (key : ContextKey) (c : Entry) (ctx : Context)
    → key ≢ log_key
    → value_of (new_context l c ctx) key ≡ value_of ctx key
unfolding new_context value_of key_eq
new_context-other l log_key c ctx n = absurd (n refl)
new_context-other l user_key c ctx n = refl
new_context-other l (ContextKey.other_key m) c ctx n = refl
