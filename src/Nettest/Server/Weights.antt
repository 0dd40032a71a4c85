-- ===== src/Nettest/Server/Weights.antt =====
-- nettest/netserver.go: how far the goroutine of a connection is from its end.
use golang_service.Prelude.{
  ℕ, ◌≢◌, refl, ◌+◌, ◌-◌, ◌*◌, ◌<◌, ◌≤◌, ◌%◌, ◌==◌, Bool-cases, inl, inr, String, List, [], ◌∷◌,
  Option, none, some, arith,
}
use golang_service.Nettest.Server.{
  Place, testing, reading, sending, closing, leaving, finished, next_place,
}

-- the steps that a connection has left, at most
abbrev pub weight : Place → ℕ
weight (testing ct) = 3 * (8 - ct) + 3
weight (reading ct) = 3 * (8 - ct) + 2
weight (sending ct s) = 3 * (8 - ct) + 1
weight closing = 2
weight leaving = 1
weight finished = 0

-- `ct` runs from 1 to 8, and the body of the loop sees it up to 7.
abbrev pub InRange : Place → Type 0
InRange (testing ct) = (1 ≤ ct) × (ct ≤ 8)
InRange (reading ct) = (1 ≤ ct) × (ct ≤ 7)
InRange (sending ct s) = (1 ≤ ct) × (ct ≤ 7)
InRange place = Unit

pub next_place-InRange :
    (p : Place) (left : List (Option String)) → InRange p → InRange (next_place p left)
unfolding next_place
next_place-InRange (testing ct) left h = elim (Bool-cases (ct % 8 == 0)) [
  | inl e ↦ rw e tt
  | inr e ↦ rw e (omega arith, ground arith)
]
next_place-InRange (reading ct) [] h = tt
next_place-InRange (reading ct) (none ∷ left) h = tt
next_place-InRange (reading ct) (some s ∷ left) h = h
next_place-InRange (sending ct s) left h = (omega arith, omega arith)
next_place-InRange closing left h = tt
next_place-InRange leaving left h = tt
next_place-InRange finished left h = tt

pub weight-next_place :
    (p : Place) (left : List (Option String))
    → InRange p
    → p ≢ finished
    → weight (next_place p left) < weight p
unfolding next_place
weight-next_place (testing ct) left h n = ground arith
weight-next_place (reading ct) [] h n = omega arith
weight-next_place (reading ct) (none ∷ left) h n = omega arith
weight-next_place (reading ct) (some s ∷ left) h n = omega arith
weight-next_place (sending ct s) left h n = omega arith
weight-next_place closing left h n = omega arith
weight-next_place leaving left h n = omega arith
weight-next_place finished left h n = absurd (n refl)

pub weight-le : (p : Place) → InRange p → weight p ≤ 24
weight-le (testing ct) h = omega arith
weight-le (reading ct) h = omega arith
weight-le (sending ct s) h = omega arith
weight-le closing h = omega arith
weight-le leaving h = omega arith
weight-le finished h = omega arith
