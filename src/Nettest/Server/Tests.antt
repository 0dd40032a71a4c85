-- ===== src/Nettest/Server/Tests.antt =====
-- A run of a stream server with one connection, from `CreateServer` to the end of all goroutines,
-- and the theorems in states of that run.
use golang_service.Prelude.{
  ℕ, suc, zero, ◌≡◌, refl, ◌<◌, ◌≤◌, ◌*◌, ◌⊎◌, String, List, [], ◌∷◌, Option, none, some, arith,
}
use golang_service.Nettest.{before_error}
use golang_service.Nettest.Server.{
  accepting, accepted, added, returning, returned, Server, turn, accept, accept_fails, add, spawn,
  leave, work, wg_done, started, Reach, start, later, connect,
}
use golang_service.Prelude.Family.{update}
use golang_service.Nettest.Server.Delivery.{from, wait-delivers}
use golang_service.Nettest.Server.Counting.{Counted, Reach-Counted}
use golang_service.Nettest.Server.Progress.{CanStep, wait_or_step}
use golang_service.Nettest.Server.Bound.{CanEnd, Steps, none_taken, one_more, Steps-bounded}

abbrev script : List (Option String)
script = some "a" ∷ none ∷ some "b" ∷ []

abbrev dialled : Server
dialled = record started { acceptor = accepted script }

abbrev counted_in : Server
counted_in = record dialled { acceptor = added script; wg = 2 }

abbrev spawned : Server
spawned = record counted_in {
  acceptor = accepting;
  count = 1;
  connection = update counted_in.connection 0 (connect script);
}

abbrev stopping : Server
stopping = record spawned { acceptor = returning }

abbrev stopped : Server
stopped = record stopping { acceptor = returned; wg = 1 }

abbrev turns : ℕ → Server
turns zero = stopped
turns (suc n) = turn 0 (turns n)

stopped-Reach : Reach stopped
unfolding wg_done
stopped-Reach =
    later
      (later
        (later (later (later start (accept script refl refl)) (add script refl refl))
          (spawn script refl refl))
        (accept_fails refl refl))
      (leave refl refl)

sooner-Reach : Reach (turns 4)
unfolding turn
sooner-Reach =
    later
      (later
        (later (later stopped-Reach (work 0 (omega arith) (cc) refl))
          (work 0 (omega arith) (cc) refl))
        (work 0 (omega arith) (cc) refl))
      (work 0 (omega arith) (cc) refl)

ended-Reach : Reach (turns 7)
unfolding turn
ended-Reach =
    later
      (later (later sooner-Reach (work 0 (omega arith) (cc) refl)) (work 0 (omega arith) (cc) refl))
      (work 0 (omega arith) (cc) refl)

run_to_end : Steps stopped 7 (turns 7)
unfolding turn
run_to_end =
    one_more
      (one_more
        (one_more
          (one_more
            (one_more
              (one_more (one_more none_taken (work 0 (omega arith) (cc) refl))
                (work 0 (omega arith) (cc) refl))
              (work 0 (omega arith) (cc) refl))
            (work 0 (omega arith) (cc) refl))
          (work 0 (omega arith) (cc) refl))
        (work 0 (omega arith) (cc) refl))
      (work 0 (omega arith) (cc) refl)

wait-delivers_example : from 0 (turns 7).received ≡ "a" ∷ []
unfolding turn before_error
wait-delivers_example = wait-delivers ended-Reach refl 0 (omega arith)

wait_or_step_example :
    ((0 < (turns 4).wg) × CanStep (turns 4)) ⊎ (((turns 4).wg ≡ 0) × (¬ CanStep (turns 4)))
wait_or_step_example = wait_or_step sooner-Reach

Steps-bounded_example : (7 ≤ 24 * stopped.count) × CanEnd (turns 7)
Steps-bounded_example = Steps-bounded stopped-Reach refl run_to_end

Reach-Counted_example : Counted (turns 4)
Reach-Counted_example = Reach-Counted sooner-Reach
