-- ===== src/Log/Sharing/Apart.antt =====
-- log/context.go: what may be written to the maps that were given to the package, or that it has
-- made.
use golang_service.Prelude.{ℕ, ◌<◌, ◌≡◌, ◌≢◌, sym, ap, ◌∙◌, String, Option, length, arith}
use golang_service.Http.{Fields, Any}
use golang_service.Http.{Context}
use golang_service.Log.Entry.{
  Logrus, copy_fields, fields_in, with_kv, in_context, fields, append_context,
}
use golang_service.Log.Contexts.{fields_in-new_context}
use golang_service.Log.Sharing.{
  Maps, map_at, put, fields_at, with_at, append_context_at, context_map,
}
use golang_service.Log.Sharing.Fresh.{
  Makes, with_at-Makes, fields_at-Makes, map_at-put, append_context_at-Makes,
}

-- What is written to an older map leaves the new one as it is, and the other way round.
abbrev pub Apart : Maps → ℕ × Maps → ℕ → String → Any → Type 0
Apart ms (made, after) q k v =
    (map_at (put q k v after) made ≡ map_at after made)
    × (map_at (put made k v after) q ≡ map_at ms q)

Makes-Apart :
    {ms : Maps} {m : Fields} (r : ℕ × Maps) (q : ℕ) (k : String) (v : Any)
    → Makes ms m r
    → q < length ms
    → Apart ms r q k v
Makes-Apart (made, after) q k v a h =
    let other : q ≢ made = omega (arith, a.fresh) in
    (
      map_at-put after q made k v other,
      map_at-put after made q k v (λ e. other (sym e)) ∙ a.kept q h,
    )

module _ {Entry : Type 0} (l : Logrus Entry) (merge : Fields → Fields → Fields)
    (merges : (e : Entry) (fs : Fields)
      → l.entry_data (l.with_fields e fs) ≡ merge (l.entry_data e) fs) where
  fields_in-append_context :
      (e : Entry) (ctx : Context) (fs : Fields)
      → fields_in (append_context l e ctx fs)
        ≡ copy_fields
            (merge (merge (l.entry_data e) (copy_fields (fields_in ctx))) (copy_fields fs))
  unfolding append_context with_kv in_context fields
  fields_in-append_context e ctx fs =
      let inner = in_context l e ctx in
      fields_in-new_context l (with_kv l inner fs) ctx
      ∙ ap copy_fields (
          merges inner (copy_fields fs)
          ∙ ap (λ x. merge x (copy_fields fs)) (merges e (copy_fields (fields_in ctx))))

  -- The maps that `Fields` (and so `NewContext`), `With` and `AppendContext` make are shared with
  -- nothing that was there before: what is written afterwards to an older map, that of the given
  -- fields, of the logger or of a context, leaves the new one as it is, and the other way round.
  -- The map in the new context has the fields that `AppendContext` gives to it as a value. This
  -- supposes that logrus makes a new map for the entry of `WithFields`.
  pub append_context_at-Apart :
      (e : Entry) (ctx : Context) (c p : ℕ) (at : Option ℕ) (ms : Maps) (q : ℕ) (k : String)
      (v : Any)
      → c < length ms
      → p < length ms
      → q < length ms
      → map_at ms c ≡ l.entry_data e
      → context_map ms at ≡ fields_in ctx
      → let (made, after) = append_context_at merge c at p ms in
        (map_at after made ≡ fields_in (append_context l e ctx (map_at ms p)))
        × Apart ms (append_context_at merge c at p ms) q k v
        × Apart ms (with_at merge c p ms) q k v
        × Apart ms (fields_at c ms) q k v
  append_context_at-Apart e ctx c p at ms q k v hc hp hq entry given =
      let a = append_context_at-Makes merge c at p ms hc hp in
      (
        a.contents ∙ rw (entry, given) (sym (fields_in-append_context e ctx (map_at ms p))),
        Makes-Apart (append_context_at merge c at p ms) q k v a hq,
        Makes-Apart (with_at merge c p ms) q k v (with_at-Makes merge c p ms hc) hq,
        Makes-Apart (fields_at c ms) q k v (fields_at-Makes c ms) hq,
      )
