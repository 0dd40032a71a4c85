-- ===== src/Log/Entries.antt =====
-- log/context.go: `LoggerEntry` as a `FieldLogger`.
use golang_service.Prelude.{refl, sym, ap, ◌∙◌, String, [], ◌∷◌}
use golang_service.Prelude.Text.{lookup}
use golang_service.Http.{err}
use golang_service.Log.Interface.{FieldLogger, Laws}
use golang_service.Log.Entry.{
  Logrus, with_kv, with_err, fields, fields_in, in_context, new_context, append_context, over,
  Merges, Raises, lookup-copy_fields, lookup-with_kv,
}
use golang_service.Log.Contexts.{lookup-in_context, fields_in-new_context, new_context-other}

-- The logging methods are those of the logrus entry that is embedded.
unfoldable pub entry_logger : {Entry : Type 0} → Logrus Entry → FieldLogger Entry
unfolding with_kv fields in_context new_context append_context
entry_logger l = record {
  new_context = λ c ctx. new_context l c ctx;
  append_context = λ c ctx fs. append_context l c ctx fs;
  in_context = λ c ctx. in_context l c ctx;
  with_kv = λ c fs. with_kv l c fs;
  with_err = λ c e. with_err l c e;
  fields = λ c. fields l c;
  log = λ c call. l.log c call;
}

-- `LoggerEntry` keeps the laws of a `FieldLogger`: fields that are added (an error as the field
-- `error`), and those of a context, come before its own, and putting it into a context changes no
-- value there but the logger's. This supposes that adding fields to a logrus entry hides those of
-- the same names and keeps all others, and that it adds an error as the field `error`.
pub entry_logger-Laws :
    {Entry : Type 0} (l : Logrus Entry) → Merges l → Raises l → Laws (entry_logger l)
unfolding entry_logger fields append_context
entry_logger-Laws {Entry} l merges raises =
    let copied = λ (k : String). λ (c : Entry). lookup-copy_fields k (l.entry_data c) in
    record {
      added = λ k c fs.
          copied k (with_kv l c fs)
          ∙ lookup-with_kv l merges k c fs
          ∙ ap (over (lookup k fs)) (sym (copied k c));
      raised = λ k c e.
          copied k (with_err l c e)
          ∙ raises c e k
          ∙ ap (over (lookup k (("error", err e) ∷ []))) (sym (copied k c));
      entered = λ k c ctx.
          copied k (in_context l c ctx)
          ∙ lookup-in_context l merges k c ctx
          ∙ ap (over (lookup k (fields_in ctx))) (sym (copied k c));
      kept = λ k c ctx. ap (lookup k) (fields_in-new_context l c ctx);
      kept_apart = λ key c ctx n. new_context-other l key c ctx n;
      appended = λ k c ctx fs. refl;
    }
