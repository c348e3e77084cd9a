-- ===== src/Verification/Regression/Judged.antt =====
-- A comparison of reports that the loader accepts: no assertion of `_compare_stage` of
-- src/voxbench/verification/regression.py fails, and no mean of an aggregated stage is missing.
use voxbench.Base.{
  not, ◌∙◌, ◌++◌, filter, ◌≡◌, ◌≢◌, subst, ◌⊎◌, inl, inr, refl, String, Bool, true, false, ◌&&◌,
  Option, none, some, List, [], ◌∷◌, map, All, Bool-cases, Option-cases, some_inj, both_of, text_eq,
}
use voxbench.Verification.Scores.{
  Numbers, AggregateState, aggregated, insufficient, partial, incomparable, StageAggregate,
  TreatmentReport, Statistics,
}
use voxbench.Verification.Tallies.{same_texts, is_among}
use voxbench.Verification.Aggregation.{same_contract}
use voxbench.Verification.Aggregation.Loader.{
  is_present, complete_if, statistics_complete, all_stages, loader_accepts,
}
use voxbench.Verification.Aggregation.Taken.{stages_accepted}
use voxbench.Verification.Regression.Ordered.{stage_order-eq}
use voxbench.Verification.Regression.{
  Reason, baseline_not_aggregated, current_not_aggregated, transformation_mismatch,
  aggregate_mean_missing, RegressionPolicy, StageRegression, RegressionReport, Differences,
  is_aggregated, stage_of, mean_of, pair_reason, indeterminate_reason, undecided, decided,
  compare_stage, compare_stages, comparison_of, stage_order, compare_treatments,
}

is_present-some : {A : Type 0} (o : Option A) → is_present o ≡ true → (a : A) × (o ≡ some a)
unfolding is_present
is_present-some none e = absurd (cc e)
is_present-some (some a) e = (a, refl)

first_of : (a b c d e : Bool) → (a && b && c && d && e) ≡ true → a ≡ true
first_of true b c d e h = refl
first_of false b c d e h = absurd (cc h)

complete_if_aggregated :
    (s : AggregateState) (complete : Bool)
    → is_aggregated s ≡ true
    → complete_if s complete ≡ true
    → complete ≡ true
unfolding is_aggregated complete_if
complete_if_aggregated aggregated complete e h = h
complete_if_aggregated insufficient complete e h = absurd (cc e)
complete_if_aggregated partial complete e h = absurd (cc e)
complete_if_aggregated incomparable complete e h = absurd (cc e)

module _ {F : Type 0} where
  -- An aggregated stage that the loader accepts has a mean.
  mean_of_aggregated :
      (a : StageAggregate F)
      → statistics_complete a ≡ true
      → is_aggregated a.state ≡ true
      → (m : F) × (a.mean ≡ some m)
  unfolding statistics_complete
  mean_of_aggregated a complete h = is_present-some a.mean (
      first_of (is_present a.mean) (is_present a.median) (is_present a.minimum)
        (is_present a.maximum) (is_present a.population_stddev)
        (complete_if_aggregated a.state _ h complete))

  -- Two stages have means to compare, or another reason not to be compared.
  pair_reason-cases :
      (b c : StageAggregate F)
      → statistics_complete b ≡ true
      → statistics_complete c ≡ true
      → ((x : F) × (y : F) × (b.mean ≡ some x) × (c.mean ≡ some y) × (pair_reason b c ≡ none))
        ⊎ ((reason : Reason) × (pair_reason b c ≡ some reason) × (reason ≢ aggregate_mean_missing))
  unfolding pair_reason
  pair_reason-cases b c hb hc = elim (Bool-cases (is_aggregated b.state)) [
    | inr e ↦ inr (baseline_not_aggregated, rw e refl, λ k. cc k)
    | inl e ↦ elim (Bool-cases (is_aggregated c.state)) [
      | inr e' ↦ inr (current_not_aggregated, rw (e, e') refl, λ k. cc k)
      | inl e' ↦ elim (Bool-cases (same_texts b.transformations c.transformations)) [
        | inr t ↦ inr (transformation_mismatch, rw (e, e', t) refl, λ k. cc k)
        | inl t ↦
            let (x, hx) = mean_of_aggregated b hb e in
            let (y, hy) = mean_of_aggregated c hc e' in
            inl (x, y, hx, hy, rw (e, e', t, hx, hy) refl)
      ]
    ]
  ]

  -- What the loader accepts of a stage that may be missing.
  unfoldable Complete : Option (StageAggregate F) → Type 0
  Complete none = Unit
  Complete (some a) = statistics_complete a ≡ true

  stage_of-Complete :
      (name : String) (stages : List (StageAggregate F))
      → all_stages statistics_complete stages ≡ true
      → Complete (stage_of name stages)
  unfolding Complete stage_of all_stages
  stage_of-Complete name [] h = tt
  stage_of-Complete name (a ∷ stages) h =
      let (here, others) = both_of _ _ h in
      let rest = stage_of-Complete name stages others in
      elim (Option-cases (stage_of name stages)) [
        | inr (last, e) ↦ rw e (subst Complete e rest)
        | inl e ↦
            rw e (elim (Bool-cases (text_eq a.stage name)) [ inl t ↦ rw t here | inr t ↦ rw t tt ])
      ]

module _ {F : Type 0} (differences : Differences F) where
  -- A comparison is made, of the stage that is named, and not for want of a mean.
  unfoldable Judged : String → Option (StageRegression F) → Type 0
  Judged stage none = ⊥
  Judged stage (some r) = (r.stage ≡ stage) × (r.reason_alias ≢ some aggregate_mean_missing)

  compare_stage-Judged :
      (stage : String) (baseline current : Option (StageAggregate F)) (policy : RegressionPolicy F)
      (contracts_match : Bool)
      → Complete baseline
      → Complete current
      → Judged stage (compare_stage differences stage baseline current policy contracts_match)
  unfolding compare_stage indeterminate_reason Complete Judged decided undecided mean_of
  compare_stage-Judged stage baseline current policy false hb hc = (refl, λ k. cc k)
  compare_stage-Judged stage none current policy true hb hc = (refl, λ k. cc k)
  compare_stage-Judged stage (some b) none policy true hb hc = (refl, λ k. cc k)
  compare_stage-Judged stage (some b) (some c) policy true hb hc =
      elim (pair_reason-cases b c hb hc) [
        | inl (x, y, hx, hy, e) ↦ rw (Judged, compare_stage, e, hx, hy) (refl, λ k. cc k)
        | inr (reason, e, other) ↦
            rw (Judged, compare_stage, e)
              (refl, λ k. other (some_inj reason aggregate_mean_missing k))
      ]

  -- One comparison for each stage.
  unfoldable AllJudged : List String → Option (List (StageRegression F)) → Type 0
  AllJudged order none = ⊥
  AllJudged order (some rs) =
      (map (λ r. r.stage) rs ≡ order) × All (λ r. r.reason_alias ≢ some aggregate_mean_missing) rs

  compare_stages-AllJudged :
      (baseline current : List (StageAggregate F)) (policy : RegressionPolicy F)
      (contracts_match : Bool) (order : List String)
      → all_stages statistics_complete baseline ≡ true
      → all_stages statistics_complete current ≡ true
      → AllJudged order (compare_stages differences baseline current policy contracts_match order)
  unfolding compare_stages AllJudged Judged
  compare_stages-AllJudged baseline current policy contracts_match [] hb hc = (refl, tt)
  compare_stages-AllJudged baseline current policy contracts_match (stage ∷ order) hb hc =
      joined _ _
        (compare_stage-Judged stage (stage_of stage baseline) (stage_of stage current) policy
          contracts_match (stage_of-Complete stage baseline hb)
          (stage_of-Complete stage current hc))
        (compare_stages-AllJudged baseline current policy contracts_match order hb hc)
    where
      joined :
          (r : Option (StageRegression F)) (rest : Option (List (StageRegression F)))
          → Judged stage r
          → AllJudged order rest
          → AllJudged (stage ∷ order) (elim r [
            | none ↦ none
            | some r ↦ elim rest [ none ↦ none | some others ↦ some (r ∷ others) ]
          ])
      joined none rest h hs = absurd h
      joined (some r) none h hs = absurd hs
      joined (some r) (some others) h hs = (cc (h.0, hs.0), (h.1, hs.1))

-- For two reports that the loader accepts, the comparison returns a report, so that no assertion
-- fails; it has one judgement for each stage of the baseline, in order, and then for each stage of
-- the current report that the baseline lacks, in order, and no judgement is undecided for want of
-- a mean.
pub compare_treatments-judged :
    {F : Type 0} (numbers : Numbers F) (differences : Differences F) (statistics : Statistics F)
    (baseline current : TreatmentReport F) (policy : RegressionPolicy F)
    → loader_accepts numbers baseline ≡ true
    → loader_accepts numbers current ≡ true
    → (report : RegressionReport F) × (compare_treatments differences statistics baseline current
          policy
        ≡ some report)
      × (map (λ r. r.stage) report.stages
          ≡ map (λ a. a.stage) baseline.stages
            ++ filter
                (λ name. not (is_among name (map (λ a. a.stage) baseline.stages)))
                (map (λ a. a.stage) current.stages))
      × All (λ r. r.reason_alias ≢ some aggregate_mean_missing) report.stages
unfolding compare_treatments AllJudged
compare_treatments-judged numbers differences statistics baseline current policy hb hc =
    let (complete_b, differ_b) = stages_accepted numbers baseline hb in
    let (complete_c, differ_c) = stages_accepted numbers current hc in
    let contracts_match = same_contract statistics baseline.contract current.contract in
    let order = stage_order baseline.stages current.stages in
    let compared =
      compare_stages differences baseline.stages current.stages policy contracts_match order in
    let judged =
      compare_stages-AllJudged differences baseline.stages current.stages policy contracts_match
        order complete_b complete_c in
    elim (Option-cases compared) [
      | inl e ↦ absurd (subst (AllJudged differences order) e judged)
      | inr (stages, e) ↦
          let (names, reasons) = subst (AllJudged differences order) e judged in
          (
            comparison_of baseline current policy stages,
            rw (compare_treatments, e) refl,
            names ∙ stage_order-eq baseline.stages current.stages differ_b differ_c,
            reasons,
          )
    ]
