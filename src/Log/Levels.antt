-- ===== src/Log/Levels.antt =====
-- log/context.go: what `New` does with the name of a level.
use golang_service.Prelude.{
  arith, ◌≡◌, ◌≢◌, refl, ap, ◌∙◌, String, [], ◌∷◌, none, some, ◌⊎◌, inl, inr, Bool-cases,
  Option-cases,
}
use golang_service.Prelude.Text.{str_eq, eq_iff, lookup}
use golang_service.Http.{Fields, text, err, Level, skip}
use golang_service.Log.Methods.{plain, error, value}
use golang_service.Log.Entry.{
  Logrus, with_kv, with_err, fields, new, set_named_level, over, Merges, Raises, lookup-copy_fields,
  lookup-with_kv,
}

-- what is logged of a name that is no level
abbrev pub level_fields : String → Fields
level_fields level =
    ("module", text "log_initialisation")
    ∷ ("tag", text "log_new_failed")
    ∷ ("logLevel", text level)
    ∷ []

module _ {Entry : Type 0} (l : Logrus Entry) (merges : Merges l) (raises : Raises l)
    (k : String) where
  -- `New` does nothing to logrus where the name of the level is empty. Where logrus knows the name,
  -- its level is that of the new logger. Otherwise the level is left, and one error is logged: its
  -- entry shows, under any name, what went wrong and the name, else the error of logrus, else what
  -- a fresh logrus entry has. This supposes that adding fields to a logrus entry hides those of the
  -- same names and keeps all others, and that it adds an error as the field `error`.
  pub new_level :
      (app env level : String)
      → let does = (new l app env level).1 in
        let (known, problem) = l.parse_level level in
        ((level ≡ "") × (does ≡ skip))
        ⊎ ((level ≢ "")
            × (named : Level) × (known ≡ some named)
            × (does ≡ l.put_level l.fresh named))
        ⊎ ((level ≢ "")
            × (known ≡ none)
            × (c : Entry) × (does
                ≡ l.log c (plain error (value (text "The supplied log level is invalid") ∷ [])))
            × (lookup k (fields l c)
                ≡ over (lookup k (level_fields level)) (
                    over
                      (lookup k (("error", err problem) ∷ []))
                      (lookup k (l.entry_data l.fresh)))))
  unfolding new set_named_level fields
  new_level app env level =
      let problem = (l.parse_level level).1 in
      let c = with_kv l (with_err l l.fresh problem) (level_fields level) in
      elim (Bool-cases (str_eq level "")) [
        | inl empty ↦ inl ((eq_iff level "").0 empty, rw empty refl)
        | inr other ↦
            let n : level ≢ "" = λ e. ground (arith, eq_iff level "") in
            elim (Option-cases (l.parse_level level).0) [
              | inl unknown ↦ inr (
                  inr (
                    n,
                    unknown,
                    c,
                    rw (other, unknown) refl,
                    lookup-copy_fields k (l.entry_data c)
                        ∙ lookup-with_kv l merges k (with_err l l.fresh problem)
                            (level_fields level)
                        ∙ ap (over (lookup k (level_fields level))) (raises l.fresh problem k),
                  ))
              | inr (named, known) ↦ inr (inl (n, named, known, rw (other, known) refl))
            ]
      ]
