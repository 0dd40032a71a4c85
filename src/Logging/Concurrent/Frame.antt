-- ===== src/Logging/Concurrent/Frame.antt =====
-- handlers/request_logger.go: a call on a writer touches the counters of that writer's loggers
-- alone.
use golang_service.Prelude.{
  ℕ, zero, suc, ◌≡◌, ◌≢◌, refl, ap, subst, ◌∙◌, ◌<◌, ◌≤◌, Bool-cases, Option-cases, inl, inr,
  String, List, [], ◌∷◌, length, arith,
}
use golang_service.Prelude.Int.{ℤ, pos, eqb_ℤ}
use golang_service.Http.{
  Writer, external, response_logger, hijack_logger, close_notify_writer, hijack_close_notifier,
  World, Counter,
}
use golang_service.Logging.Calls.{
  counter_at, set_counter, store, default_status, add_size, put_status, write, write_header, flush,
  hijack,
}
use golang_service.Logging.Wrapping.{
  Call, write_call, header_call, flush_call, hijack_call, left_by, perform,
}
use golang_service.Logging.Counts.{length-set_counter}

-- No logger of the writer stands at `q`.
abbrev pub Avoids : ℕ → Writer → Type 0
Avoids q (external e) = Unit
Avoids q (response_logger p w) = (p ≢ q) × Avoids q w
Avoids q (hijack_logger p w) = (p ≢ q) × Avoids q w
Avoids q (close_notify_writer l c) = Avoids q l
Avoids q (hijack_close_notifier l h c) = Avoids q l × Avoids q h

-- All loggers of the writer stand below `n`.
abbrev pub Below : ℕ → Writer → Type 0
Below n (external e) = Unit
Below n (response_logger p w) = (p < n) × Below n w
Below n (hijack_logger p w) = (p < n) × Below n w
Below n (close_notify_writer l c) = Below n l
Below n (hijack_close_notifier l h c) = Below n l × Below n h

pub Below-Avoids : (n : ℕ) (w : Writer) → Below n w → Avoids n w
Below-Avoids n (external e) h = tt
Below-Avoids n (response_logger p w) (lt, h) = (omega arith, Below-Avoids n w h)
Below-Avoids n (hijack_logger p w) (lt, h) = (omega arith, Below-Avoids n w h)
Below-Avoids n (close_notify_writer l c) h = Below-Avoids n l h
Below-Avoids n (hijack_close_notifier l h c) (a, b) = (Below-Avoids n l a, Below-Avoids n h b)

pub Below-le : (n m : ℕ) (w : Writer) → n ≤ m → Below n w → Below m w
Below-le n m (external e) le h = tt
Below-le n m (response_logger p w) le (lt, h) = (omega arith, Below-le n m w le h)
Below-le n m (hijack_logger p w) le (lt, h) = (omega arith, Below-le n m w le h)
Below-le n m (close_notify_writer l c) le h = Below-le n m l le h
Below-le n m (hijack_close_notifier l h c) le (a, b) = (Below-le n m l le a, Below-le n m h le b)

counter_at-other :
    (cs : List Counter) (p q : ℕ) (c : Counter)
    → p ≢ q
    → counter_at (set_counter cs p c) q ≡ counter_at cs q
unfolding counter_at set_counter
counter_at-other [] p q c n = refl
counter_at-other (d ∷ cs) zero zero c n = absurd (n refl)
counter_at-other (d ∷ cs) zero (suc q) c n = refl
counter_at-other (d ∷ cs) (suc p) zero c n = refl
counter_at-other (d ∷ cs) (suc p) (suc q) c n = counter_at-other cs p q c (λ e. n (ap suc e))

-- The counter at `q` is as before, and there are as many as before.
pub record Keeps (q : ℕ) (s t : World) : Type 0 where
  pub kept : counter_at t.counters q ≡ counter_at s.counters q
  pub places : length t.counters ≡ length s.counters

Keeps-refl : (q : ℕ) (s : World) → Keeps q s s
Keeps-refl q s = record { kept = refl; places = refl }

Keeps-trans : {q : ℕ} {s t u : World} → Keeps q s t → Keeps q t u → Keeps q s u
Keeps-trans a b = record { kept = b.kept ∙ a.kept; places = b.places ∙ a.places }

module _ (p q : ℕ) (n : p ≢ q) (s : World) where
  store-Keeps : (c : Counter) → Keeps q s (store p c s)
  store-Keeps c = record {
    kept = counter_at-other s.counters p q c n;
    places = length-set_counter s.counters p c;
  }

  default_status-Keeps : (code : ℤ) → Keeps q s (default_status p code s)
  unfolding default_status
  default_status-Keeps code = elim (Bool-cases (eqb_ℤ (counter_at s.counters p).status (pos 0))) [
    | inl unset ↦ rw unset (store-Keeps _)
    | inr given ↦ rw given (Keeps-refl q s)
  ]

  add_size-Keeps : (k : ℤ) → Keeps q s (add_size p k s)
  unfolding add_size
  add_size-Keeps k = store-Keeps _

  put_status-Keeps : (code : ℤ) → Keeps q s (put_status p code s)
  unfolding put_status
  put_status-Keeps code = store-Keeps _

module _ (q : ℕ) where
  write-Keeps : (w : Writer) (b : String) (s : World) → Avoids q w → Keeps q s (write w b s).1
  unfolding write
  write-Keeps (external e) b s h = record { kept = refl; places = refl }
  write-Keeps (response_logger p w) b s (n, h) =
      let s1 = default_status p (pos 200) s in
      Keeps-trans (default_status-Keeps p q n s (pos 200))
        (Keeps-trans (write-Keeps w b s1 h) (add_size-Keeps p q n _ _))
  write-Keeps (hijack_logger p w) b s (n, h) =
      let s1 = default_status p (pos 200) s in
      Keeps-trans (default_status-Keeps p q n s (pos 200))
        (Keeps-trans (write-Keeps w b s1 h) (add_size-Keeps p q n _ _))
  write-Keeps (close_notify_writer l c) b s h = write-Keeps l b s h
  write-Keeps (hijack_close_notifier l k c) b s (h, g) = write-Keeps l b s h

  write_header-Keeps :
      (w : Writer) (code : ℤ) (s : World) → Avoids q w → Keeps q s (write_header w code s)
  unfolding write_header
  write_header-Keeps (external e) code s h = record { kept = refl; places = refl }
  write_header-Keeps (response_logger p w) code s (n, h) =
      Keeps-trans (write_header-Keeps w code s h) (put_status-Keeps p q n _ code)
  write_header-Keeps (hijack_logger p w) code s (n, h) =
      Keeps-trans (write_header-Keeps w code s h) (put_status-Keeps p q n _ code)
  write_header-Keeps (close_notify_writer l c) code s h = write_header-Keeps l code s h
  write_header-Keeps (hijack_close_notifier l k c) code s (h, g) = write_header-Keeps l code s h

  flush-Keeps : (w : Writer) (s : World) → Avoids q w → Keeps q s (flush w s)
  unfolding flush
  flush-Keeps (external e) s h = elim (Bool-cases e.flusher) [
    | inl can ↦ rw can (record { kept = refl; places = refl })
    | inr cannot ↦ rw cannot (Keeps-refl q s)
  ]
  flush-Keeps (response_logger p w) s (n, h) = flush-Keeps w s h
  flush-Keeps (hijack_logger p w) s (n, h) = flush-Keeps w s h
  flush-Keeps (close_notify_writer l c) s h = flush-Keeps l s h
  flush-Keeps (hijack_close_notifier l k c) s (h, g) = flush-Keeps l s h

  hijack-Keeps : (w : Writer) (s : World) → Avoids q w → Keeps q s (left_by (hijack w s) s)
  unfolding hijack
  hijack-Keeps (external e) s h = elim (Option-cases e.hijacker) [
    | inl without ↦ rw without (Keeps-refl q s)
    | inr (answer, with) ↦ rw with (record { kept = refl; places = refl })
  ]
  hijack-Keeps (response_logger p w) s (n, h) = Keeps-refl q s
  hijack-Keeps (hijack_logger p w) s (n, h) = elim (Option-cases (hijack w s)) [
    | inl without ↦ rw without (Keeps-refl q s)
    | inr ((failure, t), left) ↦
        let below = subst (λ r. Keeps q s (left_by r s)) left (hijack-Keeps w s h) in
        elim (Option-cases failure) [
          | inl granted ↦
              rw (left, granted) (Keeps-trans below (default_status-Keeps p q n t (pos 101)))
          | inr (err, refused) ↦ rw (left, refused) below
        ]
  ]
  hijack-Keeps (close_notify_writer l c) s h = Keeps-refl q s
  hijack-Keeps (hijack_close_notifier l k c) s (h, g) = hijack-Keeps k s g

  pub perform-Keeps : (w : Writer) (c : Call) (s : World) → Avoids q w → Keeps q s (perform w c s)
  unfolding perform
  perform-Keeps w (write_call b) s h = write-Keeps w b s h
  perform-Keeps w (header_call code) s h = write_header-Keeps w code s h
  perform-Keeps w flush_call s h = flush-Keeps w s h
  perform-Keeps w hijack_call s h = hijack-Keeps w s h
