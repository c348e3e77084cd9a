-- ===== src/Supervisor/Counts.antt =====
-- The counters count the rounds that were run, and the loop returns at the first one that is told to.
use voxbench.Base.{
  ◌+◌, ◌≤◌, ◌≡◌, ap, Bool, true, false, ◌&&◌, not, none, some, List, [], ◌∷◌, count_if, length,
  if◌then◌else◌, arith, Bool-cases, inl, inr,
}
use voxbench.Supervisor.{
  Round, Totals, is_idle, is_lost, count_round, waits, run_loop, snapshot, Supervisor,
  RunWorkerTelemetry,
}

abbrev pub raised : Round → Bool
raised r = elim r.reported [ none ↦ true | some o ↦ false ]

abbrev pub worked : Round → Bool
worked r = elim r.reported [ none ↦ false | some o ↦ not (is_idle o) ]

abbrev pub lost_lease : Round → Bool
lost_lease r = elim r.reported [ none ↦ false | some o ↦ is_lost o ]

-- The rounds in which `run_one` was called: all before the first that finds `_stop` set, and up to
-- the first whose wait is cut short.
abbrev pub executed : List Round → List Round
executed [] = []
executed (r ∷ rounds) =
    let rest = executed rounds in
    if r.stop_set then [] else (if waits r.reported && r.stopped_waiting then r ∷ [] else r ∷ rest)

-- The totals grow by the numbers of executed rounds that raised, that worked, and that lost their
-- lease.
pub record Counted (s s' : Totals) (rounds : List Round) : Type 0 where
  pub errors : s'.errors ≡ s.errors + count_if raised rounds
  pub processed : s'.processed ≡ s.processed + count_if worked rounds
  pub lost : s'.lost ≡ s.lost + count_if lost_lease rounds

count_round-Counted :
    (r : Round) (s s' : Totals) (rounds : List Round)
    → Counted (count_round r.reported s) s' rounds
    → Counted s s' (r ∷ rounds)
unfolding count_round
count_round-Counted r s s' rounds c = record {
  errors = ground (arith, c.errors);
  processed = ground (arith, c.processed);
  lost = ground (arith, c.lost);
}

Counted-stays : (s : Totals) → Counted s s []
Counted-stays s = record { errors = omega arith; processed = omega arith; lost = omega arith }

-- After the loop over any rounds, the totals have grown by the numbers of the executed rounds that
-- raised, that worked, and that lost their lease.
pub run_loop-Counted :
    (rounds : List Round) (s : Totals) → Counted s (run_loop rounds s).0 (executed rounds)
unfolding run_loop
run_loop-Counted [] s = Counted-stays s
run_loop-Counted (r ∷ rounds) s = elim (Bool-cases r.stop_set) [
  | inl e ↦ simp e (Counted-stays s)
  | inr e ↦ elim (Bool-cases (waits r.reported && r.stopped_waiting)) [
    | inl f ↦ simp (e, f) (count_round-Counted r s s' [] (Counted-stays s'))
    | inr f ↦ simp (e, f) (count_round-Counted r s _ (executed rounds) (run_loop-Counted rounds s'))
  ]
]
  where
    s' : Totals
    s' = count_round r.reported s

-- A round that raised is no round that worked, and only a round that worked lost its lease.
round_kinds :
    (rounds : List Round)
    → (count_if raised rounds + count_if worked rounds ≤ length rounds)
      × (count_if lost_lease rounds ≤ count_if worked rounds)
round_kinds [] = (omega arith, omega arith)
round_kinds (r ∷ rounds) = let (a, b) = round_kinds rounds in (ground arith, ground arith)

executed-length : (rounds : List Round) → length (executed rounds) ≤ length rounds
executed-length [] = omega arith
executed-length (r ∷ rounds) = let l = executed-length rounds in ground arith

-- The telemetry of a supervisor after its loop has met these rounds.
abbrev pub observed : List Round → Supervisor → RunWorkerTelemetry
observed rounds supervisor =
    snapshot (record supervisor { totals = (run_loop rounds supervisor.totals).0 })

-- From zeroed counters, whatever the loop meets, every round counts at most once, as an error or
-- as processed, and every lost lease counts as processed.
pub run_loop-snapshot :
    (rounds : List Round) (supervisor : Supervisor)
    → supervisor.totals ≡ record { processed = 0; errors = 0; lost = 0 }
    → ((observed rounds supervisor).error_total + (observed rounds supervisor).processed_total
        ≤ length rounds)
      × ((observed rounds supervisor).lease_lost_total
          ≤ (observed rounds supervisor).processed_total)
unfolding snapshot
run_loop-snapshot rounds supervisor h =
    let c = run_loop-Counted rounds supervisor.totals in
    let (a, b) = round_kinds (executed rounds) in
    let l = executed-length rounds in
    let zero_errors : supervisor.totals.errors ≡ 0 = ap (λ t. t.errors) h in
    let zero_processed : supervisor.totals.processed ≡ 0 = ap (λ t. t.processed) h in
    let zero_lost : supervisor.totals.lost ≡ 0 = ap (λ t. t.lost) h in
    (omega (arith, c.errors, c.processed), omega (arith, c.lost, c.processed))
