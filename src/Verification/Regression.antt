-- ===== src/Verification/Regression.antt =====
-- The comparison of two treatments: src/voxbench/verification/regression.py.
pub mod Ordered
pub mod Judged
pub mod Exchanged
use voxbench.Base.{
  String, Bool, true, false, not, ◌&&◌, ◌||◌, Option, none, some, List, [], ◌∷◌, ◌++◌, map,
  if◌then◌else◌, text_eq,
}
use voxbench.Verification.Scores.{
  AggregateState, aggregated, ScorerContract, StageAggregate, TreatmentReport, Statistics,
}
use voxbench.Verification.Tallies.{is_among, same_texts}
use voxbench.Verification.Aggregation.{same_contract, add_stage}

-- `FullReferenceRegressionState`
pub data RegressionState : Type 0 where
  improved : RegressionState
  stable : RegressionState
  regressed : RegressionState
  indeterminate : RegressionState

-- The reason aliases.
pub data Reason : Type 0 where
  scorer_contract_mismatch : Reason
  baseline_stage_missing : Reason
  current_stage_missing : Reason
  baseline_not_aggregated : Reason
  current_not_aggregated : Reason
  transformation_mismatch : Reason
  aggregate_mean_missing : Reason

module _ (F : Type 0) where
  -- The arithmetic of floats: `-`, unary `-` and `<`.
  pub record Differences : Type 0 where
    pub minus : F → F → F
    pub negate : F → F
    pub is_below : F → F → Bool

  -- `FullReferenceRegressionPolicy`, whose tolerance is finite and not negative.
  pub record RegressionPolicy : Type 0 where
    pub stable_tolerance : F
    pub higher_is_better : Bool

  -- `FullReferenceStageRegression`
  pub record StageRegression : Type 0 where
    pub stage : String
    pub state : RegressionState
    pub baseline_mean : Option F
    pub current_mean : Option F
    pub delta : Option F
    pub tolerance : F
    pub reason_alias : Option Reason

  -- `FullReferenceRegressionReport`
  pub record RegressionReport : Type 0 where
    pub baseline_treatment : String
    pub current_treatment : String
    pub scorer : String
    pub metric_name : String
    pub policy : RegressionPolicy
    pub stages : List StageRegression

unfoldable pub is_aggregated : AggregateState → Bool
is_aggregated aggregated = true
is_aggregated _ = false

module _ {F : Type 0} where
  -- `{stage.stage: stage for stage in stages}.get(name)`: the last stage of the name.
  unfoldable pub stage_of : String → List (StageAggregate F) → Option (StageAggregate F)
  stage_of name [] = none
  stage_of name (a ∷ stages) = elim (stage_of name stages) [
    | some last ↦ some last
    | none ↦ if text_eq a.stage name then some a else none
  ]

  unfoldable pub mean_of : Option (StageAggregate F) → Option F
  mean_of none = none
  mean_of (some a) = a.mean

  -- The last three reasons, when both stages are there.
  unfoldable pub pair_reason : StageAggregate F → StageAggregate F → Option Reason
  unfolding is_aggregated same_texts
  pair_reason baseline current =
      if not (is_aggregated baseline.state)
      then some baseline_not_aggregated
      else (if not (is_aggregated current.state)
          then some current_not_aggregated
          else (if not (same_texts baseline.transformations current.transformations)
              then some transformation_mismatch
              else elim baseline.mean [
                | none ↦ some aggregate_mean_missing
                | some _ ↦ elim current.mean [ none ↦ some aggregate_mean_missing | some _ ↦ none ]
              ]))

  -- `_indeterminate_reason`
  unfoldable pub indeterminate_reason :
      Option (StageAggregate F) → Option (StageAggregate F) → Bool → Option Reason
  unfolding pair_reason
  indeterminate_reason baseline current false = some scorer_contract_mismatch
  indeterminate_reason none current true = some baseline_stage_missing
  indeterminate_reason (some b) none true = some current_stage_missing
  indeterminate_reason (some b) (some c) true = pair_reason b c

module _ {F : Type 0} (differences : Differences F) where
  unfoldable pub judge : RegressionPolicy F → F → RegressionState
  judge policy delta =
      let directed_delta = if policy.higher_is_better then delta else differences.negate delta in
      if differences.is_below policy.stable_tolerance directed_delta
      then improved
      else (if differences.is_below directed_delta (differences.negate policy.stable_tolerance)
          then regressed
          else stable)

  unfoldable pub undecided :
      String → Option F → Option F → RegressionPolicy F → Reason → StageRegression F
  undecided stage baseline_mean current_mean policy reason = record {
    stage = stage;
    state = indeterminate;
    baseline_mean = baseline_mean;
    current_mean = current_mean;
    delta = none;
    tolerance = policy.stable_tolerance;
    reason_alias = some reason;
  }

  -- The comparison of two means, which are asserted to be there.
  unfoldable pub decided :
      String → Option F → Option F → RegressionPolicy F → Option (StageRegression F)
  unfolding judge
  decided stage none current_mean policy = none
  decided stage (some b) none policy = none
  decided stage (some b) (some c) policy = some (record {
    stage = stage;
    state = judge policy (differences.minus c b);
    baseline_mean = some b;
    current_mean = some c;
    delta = some (differences.minus c b);
    tolerance = policy.stable_tolerance;
    reason_alias = none;
  })

  -- `_compare_stage`, or nothing where an assertion fails.
  unfoldable pub compare_stage :
      String
      → Option (StageAggregate F)
      → Option (StageAggregate F)
      → RegressionPolicy F
      → Bool
      → Option (StageRegression F)
  unfolding indeterminate_reason mean_of undecided decided
  compare_stage stage baseline current policy contracts_match =
      elim (indeterminate_reason baseline current contracts_match) [
        | some reason ↦ some (undecided stage (mean_of baseline) (mean_of current) policy reason)
        | none ↦ decided stage (mean_of baseline) (mean_of current) policy
      ]

module _ {F : Type 0} where
  -- The stages of a report, each at its first place: `[*by_stage]`.
  unfoldable pub names_of : List (StageAggregate F) → List String → List String
  unfolding add_stage
  names_of [] names = names
  names_of (a ∷ stages) names = names_of stages (add_stage a.stage names)

-- `(name for name in names if name not in known)`
unfoldable pub not_among : List String → List String → List String
unfolding is_among
not_among known [] = []
not_among known (name ∷ names) =
    let rest = not_among known names in if is_among name known then rest else name ∷ rest

-- The stages of the baseline, then those that only the current report has.
unfoldable pub stage_order :
    {F : Type 0} → List (StageAggregate F) → List (StageAggregate F) → List String
unfolding names_of not_among
stage_order baseline current =
    let known = names_of baseline [] in known ++ not_among known (names_of current [])

module _ {F : Type 0} where
  abbrev pub comparison_of :
      TreatmentReport F
      → TreatmentReport F
      → RegressionPolicy F
      → List (StageRegression F)
      → RegressionReport F
  comparison_of baseline current policy stages = record {
    baseline_treatment = baseline.treatment;
    current_treatment = current.treatment;
    scorer = current.contract.scorer;
    metric_name = current.contract.metric_name;
    policy = policy;
    stages = stages;
  }

module _ {F : Type 0} (differences : Differences F) where
  unfoldable pub compare_stages :
      List (StageAggregate F)
      → List (StageAggregate F)
      → RegressionPolicy F
      → Bool
      → List String
      → Option (List (StageRegression F))
  unfolding compare_stage stage_of
  compare_stages baseline current policy contracts_match [] = some []
  compare_stages baseline current policy contracts_match (stage ∷ stages) =
      let rest = compare_stages baseline current policy contracts_match stages in
      elim (compare_stage differences stage (stage_of stage baseline) (stage_of stage current)
        policy contracts_match) [
          | none ↦ none
          | some r ↦ elim rest [ none ↦ none | some others ↦ some (r ∷ others) ]
        ]

  -- `compare_full_reference_treatments`, or nothing where an assertion fails.
  unfoldable pub compare_treatments :
      Statistics F
      → TreatmentReport F
      → TreatmentReport F
      → RegressionPolicy F
      → Option (RegressionReport F)
  unfolding compare_stages same_contract stage_order
  compare_treatments statistics baseline current policy =
      elim (compare_stages baseline.stages current.stages policy
        (same_contract statistics baseline.contract current.contract)
        (stage_order baseline.stages current.stages)) [
          | none ↦ none
          | some stages ↦ some (comparison_of baseline current policy stages)
        ]
