-- ===== src/Log/Setters.antt =====
-- log/context.go: `SetOutput`, `SetFormatter`, `SetLevel`, `Level` and `AddHook`, which change the
-- logrus logger that an entry points to.
use golang_service.Prelude.{ℕ, ◌≡◌, ◌≢◌, refl, ◌==◌, true, false, arith, if◌then◌else◌}
use golang_service.Http.{Fields, Level}
use golang_service.Log.Entry.{Logrus, with_kv, copy_fields}

-- A logger: its output, formatter and hooks by their identity, and its level.
pub record Logger : Type 0 where
  pub out : ℕ
  pub formatter : ℕ
  pub log_level : Level
  pub hooks : ℕ

-- the loggers by their address
abbrev pub Loggers : Type 0
Loggers = ℕ → Logger

abbrev update : ℕ → Logger → Loggers → Loggers
update p logger s q = if p == q then logger else s q

-- `address` is the logger of an entry, `add` what `Hooks.Add` makes of the hooks.
module _ {Entry : Type 0} (address : Entry → ℕ) where
  unfoldable pub set_output : Entry → ℕ → Loggers → Loggers
  set_output c out s = update (address c) (record (s (address c)) { out = out }) s

  unfoldable pub set_formatter : Entry → ℕ → Loggers → Loggers
  set_formatter c f s = update (address c) (record (s (address c)) { formatter = f }) s

  unfoldable pub set_level : Entry → Level → Loggers → Loggers
  set_level c level s = update (address c) (record (s (address c)) { log_level = level }) s

  unfoldable pub level_of : Entry → Loggers → Level
  level_of c s = (s (address c)).log_level

  unfoldable pub add_hook : (ℕ → ℕ → ℕ) → Entry → ℕ → Loggers → Loggers
  add_hook add c hook s =
      update (address c) (record (s (address c)) { hooks = add (s (address c)).hooks hook }) s

-- Entries made by adding fields keep the logger, as logrus documents.
abbrev pub KeepsLogger : {Entry : Type 0} → Logrus Entry → (Entry → ℕ) → Type 0
KeepsLogger {Entry} l address = (c : Entry) (fs : Fields) → address (l.with_fields c fs) ≡ address c

module _ {Entry : Type 0} (l : Logrus Entry) (address : Entry → ℕ)
    (keeps : KeepsLogger l address) where
  -- A level that is set on an entry is that of each entry made from it by adding fields, before
  -- or after, and the other way round, and no other setting of the logger changes it. Entries of
  -- other loggers keep theirs.
  pub level_of-set_level :
      (c d : Entry) (fs : Fields) (level : Level) (add : ℕ → ℕ → ℕ) (x : ℕ) (s : Loggers)
      → address d ≢ address c
      → (level_of address (with_kv l c fs) (set_level address c level s) ≡ level)
        × (level_of address c (set_level address (with_kv l c fs) level s) ≡ level)
        × (level_of address d (set_level address c level s) ≡ level_of address d s)
        × (level_of address c (set_output address c x s) ≡ level_of address c s)
        × (level_of address c (set_formatter address c x s) ≡ level_of address c s)
        × (level_of address c (add_hook address add c x s) ≡ level_of address c s)
  unfolding set_output set_formatter set_level level_of add_hook with_kv
  level_of-set_level c d fs level add x s n =
      let same = keeps c (copy_fields fs) in
      let self : (address c == address c) ≡ true = ground arith in
      let there : (address c == address (l.with_fields c (copy_fields fs))) ≡ true =
        ground (arith, same) in
      let back : (address (l.with_fields c (copy_fields fs)) == address c) ≡ true =
        ground (arith, same) in
      let apart : (address c == address d) ≡ false = ground arith in
      (
        rw (there, level_of) refl,
        rw (back, level_of) refl,
        rw (apart, level_of) refl,
        rw (self, level_of) refl,
        rw (self, level_of) refl,
        rw (self, level_of) refl,
      )
