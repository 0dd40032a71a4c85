-- ===== src/Log/Interface.antt =====
-- log/context.go: the interface `FieldLogger`, by which the handlers log, and what they rely on.
use golang_service.Prelude.{◌≡◌, ◌≢◌, ap, ◌∙◌, String, [], ◌∷◌, Option}
use golang_service.Prelude.Text.{lookup}
use golang_service.Errors.{Error}
use golang_service.Http.{Fields, Any, err, Context, ContextKey, log_key, value_of, Effect}
use golang_service.Log.Methods.{Call}
use golang_service.Log.Entry.{fields_in, over, over_assoc}

pub record FieldLogger (L : Type 0) : Type 0 where
  pub new_context : L → Context → Context
  pub append_context : L → Context → Fields → Context
  -- `Ctx`, `With`, `Err`
  pub in_context : L → Context → L
  pub with_kv : L → Fields → L
  pub with_err : L → Error → L
  pub fields : L → Fields
  -- `Debugf` … `Panicln`
  pub log : L → Call → Effect

-- What the comments on the methods of `LoggerEntry` say, by the value that is found under a name:
-- fields that are added (an error as the field `error`), and those of a context, come before the
-- logger's own, and a logger that is put into a context changes no value there but the logger's.
pub record Laws {L : Type 0} (f : FieldLogger L) : Type 0 where
  pub added :
      (k : String) (c : L) (fs : Fields)
      → lookup k (f.fields (f.with_kv c fs)) ≡ over (lookup k fs) (lookup k (f.fields c))
  pub raised :
      (k : String) (c : L) (e : Error)
      → lookup k (f.fields (f.with_err c e))
        ≡ over (lookup k (("error", err e) ∷ [])) (lookup k (f.fields c))
  pub entered :
      (k : String) (c : L) (ctx : Context)
      → lookup k (f.fields (f.in_context c ctx))
        ≡ over (lookup k (fields_in ctx)) (lookup k (f.fields c))
  pub kept :
      (k : String) (c : L) (ctx : Context)
      → lookup k (fields_in (f.new_context c ctx)) ≡ lookup k (f.fields c)
  pub kept_apart :
      (key : ContextKey) (c : L) (ctx : Context)
      → key ≢ log_key
      → value_of (f.new_context c ctx) key ≡ value_of ctx key
  pub appended :
      (k : String) (c : L) (ctx : Context) (fs : Fields)
      → lookup k (fields_in (f.append_context c ctx fs))
        ≡ lookup k (fields_in (f.new_context (f.with_kv (f.in_context c ctx) fs) ctx))

module _ {L : Type 0} (f : FieldLogger L) (laws : Laws f) (k : String) where
  -- a logger with fields that are added to it in a context
  pub lookup-added :
      (c : L) (ctx : Context) (fs : Fields)
      → lookup k (f.fields (f.with_kv (f.in_context c ctx) fs))
        ≡ over (lookup k fs) (over (lookup k (fields_in ctx)) (lookup k (f.fields c)))
  lookup-added c ctx fs =
      laws.added k (f.in_context c ctx) fs ∙ ap (over (lookup k fs)) (laws.entered k c ctx)

  -- the same logger, put into the context
  pub lookup-kept :
      (c : L) (ctx : Context) (fs : Fields)
      → lookup k (fields_in (f.new_context (f.with_kv (f.in_context c ctx) fs) ctx))
        ≡ over (lookup k fs) (over (lookup k (fields_in ctx)) (lookup k (f.fields c)))
  lookup-kept c ctx fs = laws.kept k (f.with_kv (f.in_context c ctx) fs) ctx ∙ lookup-added c ctx fs

  -- what such a context has, before another value
  pub over-kept :
      (c : L) (ctx : Context) (fs : Fields) (a : Option Any)
      → over (lookup k (fields_in (f.new_context (f.with_kv (f.in_context c ctx) fs) ctx))) a
        ≡ over (lookup k fs) (over (lookup k (fields_in ctx)) (over (lookup k (f.fields c)) a))
  over-kept c ctx fs a =
      ap (λ b. over b a) (lookup-kept c ctx fs)
      ∙ over_assoc (lookup k fs) (over (lookup k (fields_in ctx)) (lookup k (f.fields c))) a
      ∙ ap (over (lookup k fs)) (over_assoc (lookup k (fields_in ctx)) (lookup k (f.fields c)) a)
