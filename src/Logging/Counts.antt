-- ===== src/Logging/Counts.antt =====
-- What a logger has counted after any calls of a handler, and that the writer below is none the
-- wiser: what each call adds to the count. `Puts` is about the helpers that write to a counter,
-- `Performed` about the methods.
mod Puts
pub mod Performed
use golang_service.Prelude.{
  ℕ, suc, zero, ◌≡◌, refl, ap, ◌<◌, Bool, true, false, List, [], ◌∷◌, none, some, length,
  if◌then◌else◌, arith,
}
use golang_service.Prelude.Int.{ℤ, pos, eqb_ℤ}
use golang_service.Go.Int64.{add_int}
use golang_service.Http.{External, external, World, Counter, Sent}
use golang_service.Logging.Calls.{counter_at, set_counter, write, write_header, flush, hijack}
use golang_service.Logging.Wrapping.{
  Call, write_call, header_call, flush_call, hijack_call, perform,
}

pub counter_at-set_counter :
    (cs : List Counter) (p : ℕ) (c : Counter)
    → p < length cs
    → counter_at (set_counter cs p c) p ≡ c
unfolding counter_at set_counter
counter_at-set_counter [] p c h = elim h [ ]
counter_at-set_counter (d ∷ cs) zero c h = refl
counter_at-set_counter (d ∷ cs) (suc p) c h = counter_at-set_counter cs p c (omega arith)

pub length-set_counter :
    (cs : List Counter) (p : ℕ) (c : Counter) → length (set_counter cs p c) ≡ length cs
unfolding set_counter
length-set_counter [] p c = refl
length-set_counter (d ∷ cs) zero c = refl
length-set_counter (d ∷ cs) (suc p) c = ap suc (length-set_counter cs p c)

-- Whether the writer of other code lets itself be hijacked.
abbrev pub lets_hijack : External → List Sent → Bool
lets_hijack e sent = elim e.hijacker [
  | none ↦ false
  | some answer ↦ elim (answer sent) [ none ↦ true | some err ↦ false ]
]

abbrev pub or_status : ℤ → ℤ → ℤ
or_status status code = if eqb_ℤ status (pos 0) then code else status

-- What a call adds to the count, as the documentation has it.
abbrev pub count : External → List Sent → Call → Counter → Counter
count e sent (write_call b) c = record {
  status = or_status c.status (pos 200);
  size = add_int c.size (e.answer sent b).0;
}
count e sent (header_call code) c = record c { status = code }
count e sent flush_call c = c
count e sent hijack_call c = record c {
  status = if lets_hijack e sent then or_status c.status (pos 101) else c.status;
}

pub record Steps (p : ℕ) (e : External) (c : Call) (s : World) (s' : World) : Type 0 where
  pub counted : counter_at s'.counters p ≡ count e s.sent c (counter_at s.counters p)
  pub passed : s'.sent ≡ (perform (external e) c s).sent
  pub places : length s'.counters ≡ length s.counters

-- Performing a call on the writer below reads only what was sent.
pub perform-sent :
    (e : External) (c : Call) (s t : World)
    → s.sent ≡ t.sent
    → (perform (external e) c s).sent ≡ (perform (external e) c t).sent
unfolding perform write write_header flush hijack
perform-sent e (write_call b) s t h = rw h
perform-sent e (header_call code) s t h = rw h
perform-sent e flush_call s t h = ground arith
perform-sent e hijack_call s t h = ground (arith, h)
