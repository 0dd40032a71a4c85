-- ===== src/Recovery/Sharing/Mixed.antt =====
-- handlers/recovery/raygun.go: what is posted where requests that panic at the same time share the
-- client of a raygun reporter.
use golang_service.Prelude.{
  ℕ, suc, zero, ◌+◌, ◌≡◌, refl, sym, ap, subst, ◌∙◌, Bool-cases, true, false, inl, inr, String,
  List, [], ◌∷◌, ◌++◌, Option, none, some, get_elem?, ◌==◌, if◌then◌else◌, arith,
}
use mathlib.Core.List.{append_assoc}
use golang_service.Prelude.Family.{update}
use golang_service.Errors.{error_message}
use golang_service.Http.{Fields}
use golang_service.Log.Interface.{FieldLogger}
use golang_service.Recovery.Sharing.{
  Keeper, KeeperLaws, ClientCall, request_call, data_call, error_call, crash_calls, Shared, started,
  Crash, apply_call, calls, turn, run, turns_of, last_to,
}

turns_of-append : (j : ℕ) (is ks : List ℕ) → turns_of j (is ++ ks) ≡ turns_of j is + turns_of j ks
unfolding turns_of
turns_of-append j [] ks = omega arith
turns_of-append j (i ∷ is) ks = let rest = turns_of-append j is ks in ground (arith, rest)

turns_of_self : (i : ℕ) (is : List ℕ) → turns_of i (i ∷ is) ≡ suc (turns_of i is)
unfolding turns_of
turns_of_self i is = let self : (i == i) ≡ true = ground arith in rw self refl

module _ {L C Post : Type 0} (f : FieldLogger L) (global : L) (keeper : Keeper C Post)
    (crash : ℕ → Crash) where
  abbrev go : List ℕ → Shared C Post → Shared C Post
  go = run f global keeper crash

  abbrev step : ℕ → Shared C Post → Shared C Post
  step = turn f global keeper crash

  abbrev call_at : ℕ → ℕ → Option ClientCall
  call_at i n = get_elem? (calls f global keeper crash i) n

  abbrev fields_of : ℕ → Fields
  fields_of i = f.fields (f.in_context global (crash i).request.context)

  apply_call-turns :
      (i : ℕ) (c : Option ClientCall) (s : Shared C Post)
      → (apply_call f global keeper crash i c s).turns ≡ s.turns
  apply_call-turns i none s = refl
  apply_call-turns i (some (request_call r)) s = refl
  apply_call-turns i (some (data_call fs)) s = refl
  apply_call-turns i (some (error_call m)) s = refl

  turn-turns :
      (i j : ℕ) (s : Shared C Post)
      → (step i s).turns j ≡ (if i == j then suc (s.turns j) else s.turns j)
  unfolding turn update
  turn-turns i j s =
      let s' = record s { turns = update s.turns i (suc (s.turns i)) } in
      ap (λ t. t j) (apply_call-turns i (call_at i (s.turns i)) s') ∙ elim (Bool-cases (i == j)) [
        | inl e ↦ let same : i ≡ j = ground arith in rw e (ap (λ k. suc (s.turns k)) same)
        | inr e ↦ rw e refl
      ]

  run-turns :
      (j : ℕ) (is : List ℕ) (s : Shared C Post) → (go is s).turns j ≡ turns_of j is + s.turns j
  unfolding run turns_of
  run-turns j [] s = omega arith
  run-turns j (i ∷ is) s =
      let rest = run-turns j is (step i s) in
      let one = turn-turns i j s in ground (arith, rest, one)

  run-append : (is ks : List ℕ) (s : Shared C Post) → go (is ++ ks) s ≡ go ks (go is s)
  unfolding run
  run-append [] ks s = refl
  run-append (i ∷ is) ks s = run-append is ks (step i s)

  taken : (is : List ℕ) (c : C) (j : ℕ) → (go is (started c)).turns j ≡ turns_of j is
  taken is c j = omega (arith, run-turns j is (started c))

  posts :
      (i : ℕ) (s : Shared C Post)
      → s.turns i ≡ 2
      → (step i s).posted
        ≡ s.posted ++ (i, keeper.post (error_message (crash i).cause) s.client) ∷ []
  unfolding turn crash_calls
  posts i s e =
      let s' = record s { turns = update s.turns i (suc (s.turns i)) } in
      ap (λ n. (apply_call f global keeper crash i (call_at i n) s').posted) e

  -- What a client holds is that of the last request to make the call that sets it.
  module _ (Holds : ℕ → C → Type 0) (k : ℕ)
      (call : (i o n : ℕ) (s : Shared C Post)
        → Holds o s.client
        → Holds
            (if n == k then i else o)
            (apply_call f global keeper crash i (call_at i n) s).client) where
    run-Holds :
        (is seen : List ℕ) (o : ℕ) (s : Shared C Post)
        → ((j : ℕ) → s.turns j ≡ turns_of j seen)
        → Holds o s.client
        → Holds (last_to k seen o is) (go is s).client
    unfolding run turn last_to turns_of
    run-Holds [] seen o s taken h = h
    run-Holds (i ∷ is) seen o s taken h =
        let s' = record s { turns = update s.turns i (suc (s.turns i)) } in
        run-Holds is (i ∷ seen) (if turns_of i seen == k then i else o) (step i s)
          (λ j. turn-turns i j s ∙ rw (taken j) refl)
          (subst (λ n. Holds (if n == k then i else o) (step i s).client) (taken i)
            (call i o (s.turns i) s' h))

    -- from the turn on in which a request makes that call itself
    later-Holds :
        (own : (i : ℕ) (s : Shared C Post) → s.turns i ≡ k → Holds i (step i s).client)
        → (c : C) (i : ℕ) (xs ys : List ℕ) → turns_of i xs ≡ k
        → Holds (last_to k (xs ++ i ∷ []) i ys) (go (xs ++ i ∷ ys) (started c)).client
    unfolding run
    later-Holds own c i xs ys e =
        let s = go xs (started c) in
        let so_far = run-append xs (i ∷ []) (started c) in
        subst (λ (t : Shared C Post). Holds (last_to k (xs ++ i ∷ []) i ys) t.client)
          (sym (run-append xs (i ∷ ys) (started c)))
          (run-Holds ys (xs ++ i ∷ []) i (step i s)
            (λ j. ap (λ (t : Shared C Post). t.turns j) (sym so_far) ∙ taken (xs ++ i ∷ []) c j)
            (own i s (taken xs c i ∙ e)))

  module _ (laws : KeeperLaws keeper) where
    -- The client holds the request, or the fields, of the crash `o`.
    abbrev HasRequest : ℕ → C → Type 0
    HasRequest o c = (m : String) → keeper.request_of (keeper.post m c) ≡ (crash o).request

    abbrev HasData : ℕ → C → Type 0
    HasData o c = (m : String) → keeper.data_of (keeper.post m c) ≡ fields_of o

    call-HasRequest :
        (i o n : ℕ) (s : Shared C Post)
        → HasRequest o s.client
        → HasRequest
            (if n == 0 then i else o)
            (apply_call f global keeper crash i (call_at i n) s).client
    unfolding crash_calls
    call-HasRequest i o zero s h m = laws.request_set m (crash i).request s.client
    call-HasRequest i o (suc zero) s h m = laws.request_kept m m (fields_of i) s.client ∙ h m
    call-HasRequest i o (suc (suc zero)) s h m = h m
    call-HasRequest i o (suc (suc (suc n))) s h m =
        let later : (suc (suc (suc n)) == 0) ≡ false = ground arith in rw later (h m)

    call-HasData :
        (i o n : ℕ) (s : Shared C Post)
        → HasData o s.client
        → HasData
            (if n == 1 then i else o)
            (apply_call f global keeper crash i (call_at i n) s).client
    unfolding crash_calls
    call-HasData i o zero s h m = laws.data_kept m m (crash i).request s.client ∙ h m
    call-HasData i o (suc zero) s h m = laws.data_set m (fields_of i) s.client
    call-HasData i o (suc (suc zero)) s h m = h m
    call-HasData i o (suc (suc (suc n))) s h m =
        let later : (suc (suc (suc n)) == 1) ≡ false = ground arith in rw later (h m)

    own-HasRequest : (i : ℕ) (s : Shared C Post) → s.turns i ≡ 0 → HasRequest i (step i s).client
    unfolding turn crash_calls
    own-HasRequest i s e m =
        let s' = record s { turns = update s.turns i (suc (s.turns i)) } in
        let request = λ (n : ℕ).
          keeper.request_of
            (keeper.post m (apply_call f global keeper crash i (call_at i n) s').client) in
        ap request e ∙ laws.request_set m (crash i).request s.client

    own-HasData : (i : ℕ) (s : Shared C Post) → s.turns i ≡ 1 → HasData i (step i s).client
    unfolding turn crash_calls
    own-HasData i s e m =
        let s' = record s { turns = update s.turns i (suc (s.turns i)) } in
        let data_in = λ (n : ℕ).
          keeper.data_of
            (keeper.post m (apply_call f global keeper crash i (call_at i n) s').client) in
        ap data_in e ∙ laws.data_set m (fields_of i) s.client

    -- What a request posts whose handler has panicked, while others panic too and take their turns
    -- in between in any order: the message is that of its own error, but the request is that of the
    -- last one to have called `Request` on the shared client, and the fields are those of the last
    -- one to have called `CustomData`. This supposes that the client keeps what was set, as
    -- raygun4go documents, and that the calls themselves do not overlap.
    pub shared_post :
        (c : C) (before mid late : List ℕ) (i : ℕ)
        → turns_of i before ≡ 0
        → turns_of i mid ≡ 0
        → turns_of i late ≡ 0
        → let s = go (before ++ i ∷ (mid ++ i ∷ late)) (started c) in
          (p : Post) × ((step i s).posted ≡ s.posted ++ (i, p) ∷ [])
          × (keeper.message_of p ≡ error_message (crash i).cause)
          × (keeper.request_of p
              ≡ (crash (last_to 0 (before ++ i ∷ []) i (mid ++ i ∷ late))).request)
          × (keeper.data_of p ≡ fields_of (last_to 1 (before ++ i ∷ (mid ++ i ∷ [])) i late))
    shared_post c before mid late i first apart still =
        let s = go (before ++ i ∷ (mid ++ i ∷ late)) (started c) in
        let m = error_message (crash i).cause in
        let second : turns_of i (before ++ i ∷ mid) ≡ 1 =
          omega (arith, turns_of-append i before (i ∷ mid), turns_of_self i mid) in
        let third : turns_of i (before ++ i ∷ (mid ++ i ∷ late)) ≡ 2 = omega (
          arith,
          turns_of-append i before (i ∷ (mid ++ i ∷ late)),
          turns_of_self i (mid ++ i ∷ late),
          turns_of-append i mid (i ∷ late),
          turns_of_self i late,
        ) in
        let data_in =
          later-Holds HasData 1 call-HasData own-HasData c i (before ++ i ∷ mid) late second in
        (
          keeper.post m s.client,
          posts i s (taken (before ++ i ∷ (mid ++ i ∷ late)) c i ∙ third),
          laws.message_sent m s.client,
          later-Holds HasRequest 0 call-HasRequest own-HasRequest c i before (mid ++ i ∷ late) first
              m,
          subst (λ seen. HasData (last_to 1 seen i late) s.client)
              (append_assoc before (i ∷ mid) (i ∷ []))
              (subst
                (λ is.
                  HasData (last_to 1 ((before ++ i ∷ mid) ++ i ∷ []) i late)
                    (go is (started c)).client)
                (append_assoc before (i ∷ mid) (i ∷ late)) data_in)
              m,
        )
