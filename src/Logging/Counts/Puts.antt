-- ===== src/Logging/Counts/Puts.antt =====
-- handlers/request_logger.go: the helpers that write to a logger's counter.
use golang_service.Prelude.{ℕ, ◌≡◌, refl, ◌<◌, Bool-cases, inl, inr, length}
use golang_service.Prelude.Int.{ℤ, pos, eqb_ℤ}
use golang_service.Go.Int64.{add_int}
use golang_service.Http.{World, Counter}
use golang_service.Logging.Calls.{counter_at, default_status, add_size, put_status, store}
use golang_service.Logging.Counts.{counter_at-set_counter, length-set_counter, or_status}

-- A method has put `c` at `p` and done nothing else to what is counted and sent.
pub record Puts (p : ℕ) (c : Counter) (s : World) (s' : World) : Type 0 where
  pub at : counter_at s'.counters p ≡ c
  pub same_sent : s'.sent ≡ s.sent
  pub same_places : length s'.counters ≡ length s.counters

store-Puts : (p : ℕ) (c : Counter) (s : World) → p < length s.counters → Puts p c s (store p c s)
store-Puts p c s h = record {
  at = counter_at-set_counter s.counters p c h;
  same_sent = refl;
  same_places = length-set_counter s.counters p c;
}

pub default_status-Puts :
    (p : ℕ) (code : ℤ) (s : World)
    → p < length s.counters
    → let c = counter_at s.counters p in
      Puts p (record c { status = or_status c.status code }) s (default_status p code s)
unfolding default_status
default_status-Puts p code s h =
    let c = counter_at s.counters p in
    elim (Bool-cases (eqb_ℤ c.status (pos 0))) [
      | inl unset ↦ rw unset (store-Puts p (record c { status = code }) s h)
      | inr given ↦ rw given (record { at = refl; same_sent = refl; same_places = refl })
    ]

-- `WriteHeader` on a logger, once the writer below has sent the header
pub put_status-Puts :
    (p : ℕ) (code : ℤ) (s : World)
    → p < length s.counters
    → Puts p (record (counter_at s.counters p) { status = code }) s (put_status p code s)
unfolding put_status
put_status-Puts p code s h = store-Puts p (record (counter_at s.counters p) { status = code }) s h

pub add_size-Puts :
    (p : ℕ) (n : ℤ) (s : World)
    → p < length s.counters
    → let c = counter_at s.counters p in
      Puts p (record c { size = add_int c.size n }) s (add_size p n s)
unfolding add_size
add_size-Puts p n s h =
    let c = counter_at s.counters p in store-Puts p (record c { size = add_int c.size n }) s h
