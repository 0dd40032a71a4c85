-- ===== src/Logging/Concurrent/Places.antt =====
-- handlers/request_logger.go, `MakeLogger`: the place that it takes in the store.
use golang_service.Prelude.{
  ℕ, suc, zero, ◌+◌, ◌≡◌, ◌≢◌, refl, sym, subst, ◌<◌, Bool-cases, inl, inr, List, [], ◌∷◌, ◌++◌,
  ◌≤◌, true, false, length, length-append, arith,
}
use golang_service.Http.{
  External, Writer, external, response_logger, hijack_logger, close_notify_writer,
  hijack_close_notifier, World, Counter,
}
use golang_service.Logging.Calls.{
  counter_at, make_logger, wrap_writer, is_logging, allocate, is_hijacker, is_close_notifier,
}
use golang_service.Logging.Report.{unused}
use golang_service.Logging.Concurrent.Frame.{Avoids, Below}

make_logger_own :
    (e : External) (t : World)
    → is_logging (external e) ≡ true
    → make_logger (external e) t ≡ (external e, t)
unfolding make_logger
make_logger_own e t own = rw own refl

make_logger_other :
    (e : External) (t : World)
    → is_logging (external e) ≡ false
    → make_logger (external e) t ≡ (wrap_writer (length t.counters) (external e), allocate t)
unfolding make_logger
make_logger_other e t other = rw other refl

counter_at_old :
    (cs : List Counter) (d : Counter) (p : ℕ)
    → p < length cs
    → counter_at (cs ++ d ∷ []) p ≡ counter_at cs p
unfolding counter_at
counter_at_old [] d p h = elim h [ ]
counter_at_old (c ∷ cs) d zero h = refl
counter_at_old (c ∷ cs) d (suc p) h = counter_at_old cs d p (omega arith)

-- The writer that `MakeLogger` makes has one place, whatever its type.
wrap_writer_one_place :
    (P : Writer → Type 0) (n : ℕ) (e : External)
    → P (response_logger n (external e))
    → P (hijack_logger n (external e))
    → P (close_notify_writer (response_logger n (external e)) (external e))
    → P (
        hijack_close_notifier
          (hijack_logger n (external e))
          (hijack_logger n (external e))
          (external e))
    → P (wrap_writer n (external e))
unfolding wrap_writer is_hijacker is_close_notifier
wrap_writer_one_place P n e plain hijacks notifies both =
    elim (Bool-cases (is_hijacker (external e))) [
      | inl h ↦ elim (Bool-cases e.close_notifier) [
        | inl c ↦ simp (h, c) both
        | inr c ↦ simp (h, c) hijacks
      ]
      | inr h ↦ elim (Bool-cases e.close_notifier) [
        | inl c ↦ simp (h, c) notifies
        | inr c ↦ simp (h, c) plain
      ]
    ]

wrap_writer-Below : (n : ℕ) (e : External) → Below (n + 1) (wrap_writer n (external e))
wrap_writer-Below n e =
    wrap_writer_one_place (Below (n + 1)) n e (omega arith, tt) (omega arith, tt) (omega arith, tt)
      ((omega arith, tt), (omega arith, tt))

wrap_writer-Avoids : (n p : ℕ) (e : External) → n ≢ p → Avoids p (wrap_writer n (external e))
wrap_writer-Avoids n p e h =
    wrap_writer_one_place (Avoids p) n e (h, tt) (h, tt) (h, tt) ((h, tt), (h, tt))

-- `MakeLogger` makes a new place or none.
pub record Makes (t : World) (r : Writer × World) : Type 0 where
  pub grows : length t.counters ≤ length r.1.counters
  pub below : Below (length r.1.counters) r.0
  pub older : (p : ℕ) → p < length t.counters → counter_at r.1.counters p ≡ counter_at t.counters p
  pub apart : (p : ℕ) → p < length t.counters → Avoids p r.0

pub make_logger-Makes : (e : External) (t : World) → Makes t (make_logger (external e) t)
make_logger-Makes e t = elim (Bool-cases (is_logging (external e))) [
  | inr other ↦
      let n = length t.counters in
      let longer = length-append t.counters (unused ∷ []) in
      subst (Makes t) (sym (make_logger_other e t other)) (record {
        grows = omega (arith, longer);
        below = rw (longer) (wrap_writer-Below n e);
        older = λ p h. counter_at_old t.counters unused p h;
        apart = λ p h. wrap_writer-Avoids n p e (omega arith);
      })
  | inl own ↦
      subst (Makes t) (sym (make_logger_own e t own))
        (record { grows = omega arith; below = tt; older = λ p h. refl; apart = λ p h. tt })
]
