-- ===== src/Nettest/Server/Bound.antt =====
-- How many steps a stream server can take once its acceptor has returned.
use golang_service.Prelude.{
  ℕ, suc, zero, ◌≡◌, ◌≢◌, refl, sym, ap, subst, ◌∙◌, ◌+◌, ◌*◌, ◌<◌, ◌≤◌, ◌==◌, Bool-cases, inl, inr,
  arith,
}
use golang_service.Prelude.Family.{update, update_self, update_other, total, total-update}
use golang_service.Nettest.Server.Progress.{wait_or_step}
use golang_service.Nettest.Server.Weights.{
  weight, InRange, next_place-InRange, weight-next_place, weight-le,
}
use golang_service.Nettest.Server.{
  finished, Connection, connect, advance, is_leaving, moved, returned, Server, wg_done, turn, Step,
  accept, accept_fails, add, spawn, leave, work, Reach, start, later,
}

abbrev AllInRange : Server → Type 0
AllInRange s = (i : ℕ) → InRange (s.connection i).place

update-InRange :
    (fam : ℕ → Connection) (i : ℕ) (c : Connection)
    → InRange c.place
    → ((k : ℕ) → InRange (fam k).place)
    → (k : ℕ) → InRange (update fam i c k).place
update-InRange fam i c h all k = elim (Bool-cases (i == k)) [
  | inl e ↦
      let same : i ≡ k = ground arith in
      subst (λ k. InRange (update fam i c k).place) same (rw (update_self fam i c) h)
  | inr e ↦ let n : i ≢ k = ground arith in rw (update_other fam i k c n) (all k)
]

wg_done-connection : (s : Server) → (wg_done s).connection ≡ s.connection
unfolding wg_done
wg_done-connection s = ground arith

turn-kept :
    (i : ℕ) (s : Server)
    → ((turn i s).connection ≡ update s.connection i (advance (s.connection i)))
      × ((turn i s).count ≡ s.count)
      × ((turn i s).acceptor ≡ s.acceptor)
unfolding turn moved wg_done
turn-kept i s = elim (Bool-cases (is_leaving (s.connection i).place)) [
  | inl e ↦ elim (Bool-cases (s.wg == 0)) [
    | inl z ↦ rw (e, z) (refl, refl, refl)
    | inr z ↦ rw (e, z) (refl, refl, refl)
  ]
  | inr e ↦ rw e (refl, refl, refl)
]

Step-AllInRange : {s t : Server} → Step s t → AllInRange s → AllInRange t
unfolding advance
Step-AllInRange (accept script e q) h = subst AllInRange (sym q) h
Step-AllInRange (accept_fails e q) h = subst AllInRange (sym q) h
Step-AllInRange (add script e q) h = subst AllInRange (sym q) h
Step-AllInRange {s} (spawn script e q) h =
    subst AllInRange (sym q)
      (update-InRange s.connection s.count (connect script) (omega arith, omega arith) h)
Step-AllInRange {s} (leave e q) h = subst AllInRange (sym q) (
    subst (λ (fam : ℕ → Connection). (i : ℕ) → InRange (fam i).place)
      (sym (wg_done-connection (record s { acceptor = returned }))) h)
Step-AllInRange {s} (work i lt n q) h = subst AllInRange (sym q) (
    subst (λ (fam : ℕ → Connection). (i : ℕ) → InRange (fam i).place) (sym (turn-kept i s).0)
      (update-InRange s.connection i (advance (s.connection i))
        (next_place-InRange (s.connection i).place (s.connection i).left (h i)) h))

Reach-AllInRange : {s : Server} → Reach s → AllInRange s
Reach-AllInRange start = λ i. tt
Reach-AllInRange (later r st) = Step-AllInRange st (Reach-AllInRange r)

abbrev measure : Server → ℕ
measure s = total (λ c. weight c.place) s.count s.connection

-- a run of so many steps
pub data Steps (s : Server) : ℕ → Server → Type 0 where
  none_taken : Steps s zero s
  one_more : {n : ℕ} {t u : Server} → Steps s n t → Step t u → Steps s (suc n) u

turn-measure :
    (i : ℕ) (s : Server)
    → i < s.count
    → (s.connection i).place ≢ finished
    → InRange (s.connection i).place
    → measure (turn i s) < measure s
unfolding advance
turn-measure i s lt n h =
    let (fam, same, rest) = turn-kept i s in
    rw (same, fam)
      (omega (
        arith,
        total-update (λ c. weight c.place) s.count i s.connection (advance (s.connection i)) lt,
        weight-next_place (s.connection i).place (s.connection i).left h n,
      ))

total-le :
    (n : ℕ) (fam : ℕ → Connection)
    → ((i : ℕ) → InRange (fam i).place)
    → total (λ c. weight c.place) n fam ≤ 24 * n
unfolding total
total-le zero fam h = omega arith
total-le (suc n) fam h = omega (arith, weight-le (fam n).place (h n), total-le n fam h)

-- Once the acceptor has returned, only connections move, and each step uses some measure up.
Step-measure :
    {s t : Server}
    → AllInRange s
    → s.acceptor ≡ returned
    → Step s t
    → (t.acceptor ≡ returned) × (measure t < measure s)
Step-measure {s} h e (accept script e' q) = absurd (cc)
Step-measure {s} h e (accept_fails e' q) = absurd (cc)
Step-measure {s} h e (add script e' q) = absurd (cc)
Step-measure {s} h e (spawn script e' q) = absurd (cc)
Step-measure {s} h e (leave e' q) = absurd (cc)
Step-measure {s} h e (work i lt n q) = (
  ap (λ (x : Server). x.acceptor) q ∙ (turn-kept i s).2 ∙ e,
  subst (λ (x : Server). measure x < measure s) (sym q) (turn-measure i s lt n (h i)),
)

Steps-measure :
    {s t : Server} {k : ℕ}
    → AllInRange s
    → s.acceptor ≡ returned
    → Steps s k t
    → AllInRange t × (t.acceptor ≡ returned) × (k + measure t ≤ measure s)
Steps-measure h e none_taken = (h, e, omega arith)
Steps-measure h e (one_more run st) =
    let (all, back, used) = Steps-measure h e run in
    let (still, less) = Step-measure all back st in
    (Step-AllInRange st all, still, omega (arith, used, less))

Steps-Reach : {s t : Server} {k : ℕ} → Reach s → Steps s k t → Reach t
Steps-Reach r none_taken = r
Steps-Reach r (one_more run st) = later (Steps-Reach r run) st

-- a run that ends with the counter at zero
abbrev pub CanEnd : Server → Type 0
CanEnd s = (k : ℕ) × (t : Server) × Steps s k t × (t.wg ≡ 0)

-- where a run has come to an end, or goes on
ended_or_on :
    {s t : Server} {k : ℕ} (n : ℕ)
    → Reach t
    → t.acceptor ≡ returned
    → Steps s k t
    → measure t < n
    → CanEnd s
ended_or_on {s} {t} {k} zero r e run lt = absurd (omega arith)
ended_or_on {s} {t} {k} (suc n) r e run lt = elim (wait_or_step r) [
  | inr (z, stuck) ↦ (k, t, run, z)
  | inl (pos, (u, st)) ↦
      let (still, less) = Step-measure (Reach-AllInRange r) e st in
      ended_or_on n (later r st) still (one_more run st) (omega (arith, less))
]

-- Once `Accept` has failed and `readStream` has returned, a stream server ends: whatever its
-- goroutines do, they take at most 24 steps for each connection, and from wherever they have come
-- to they can go on until the counter is at zero.
pub Steps-bounded :
    {s t : Server} {k : ℕ}
    → Reach s
    → s.acceptor ≡ returned
    → Steps s k t
    → (k ≤ 24 * s.count) × CanEnd t
Steps-bounded {s} {t} r e run =
    let all = Reach-AllInRange r in
    let (kept, still, used) = Steps-measure all e run in
    (
      omega (arith, used, total-le s.count s.connection all),
      ended_or_on (suc (measure t)) (Steps-Reach r run) still none_taken (omega arith),
    )
