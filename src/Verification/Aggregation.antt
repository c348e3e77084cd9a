-- ===== src/Verification/Aggregation.antt =====
-- The aggregation of scoring reports of one treatment: `aggregate_full_reference_reports` and
-- `_aggregate_stage` of src/voxbench/verification/aggregation.py.
pub mod Loader
pub mod Counted
pub mod Accepted
pub mod Taken
use voxbench.Base.{
  ℕ, ◌+◌, ◌-◌, String, Bool, true, false, not, ◌&&◌, ◌||◌, Option, none, some, List, [], ◌∷◌, ◌++◌,
  map, leb, ltb, ◌==◌, length, if◌then◌else◌, text_eq, Option, none, some,
}
use voxbench.Base.Text.{codes, all_codes}
use voxbench.Verification.Tallies.{
  is_among, result_of, results_of, count_of, numeric_scores, transformation_sets, only_set, when,
  state_of,
}
use voxbench.Verification.Scores.{
  ScoreState, scored, unavailable, blocked, failed, AggregateState, aggregated, insufficient,
  partial, incomparable, ScorerContract, ScoreResult, ScoringReport, StageAggregate,
  TreatmentReport, Statistics,
}

-- The arguments and reports that are refused with a ValueError.
pub data AggregationError : Type 0 where
  unsafe_treatment : AggregationError
  too_few_samples : AggregationError
  no_reports : AggregationError
  other_contract : AggregationError
  repeated_stage : AggregationError
  score_missing : AggregationError

pub data Aggregating (A : Type 0) : Type 0 where
  done : (value : A) → Aggregating A
  refused : (error : AggregationError) → Aggregating A

-- The next step, unless an error is raised.
unfoldable pub and_then : {A B : Type 0} → Aggregating A → (A → Aggregating B) → Aggregating B
and_then (done a) f = f a
and_then (refused e) f = refused e

unfoldable pub unless_indexed : {A : Type 0} → Option A → Aggregating Unit
unless_indexed none = done tt
unless_indexed (some _) = refused repeated_stage

unfoldable pub check_contract : Bool → Aggregating Unit
check_contract same = if same then done tt else refused other_contract

-- A stage is listed at its first result.
unfoldable pub add_stage : String → List String → List String
unfolding is_among
add_stage stage order = if is_among stage order then order else order ++ stage ∷ []

unfoldable pub scores_given : {A : Type 0} → Option A → Aggregating A
scores_given none = refused score_missing
scores_given (some scores) = done scores

is_treatment_code : ℕ → Bool
is_treatment_code c =
    (leb b'a' c && leb c b'z') || (leb b'0' c && leb c b'9') || c == b'_' || c == b'.' || c == b'-'

-- `_SAFE_TREATMENT.fullmatch`
unfoldable pub is_safe_treatment : String → Bool
unfolding all_codes is_treatment_code
is_safe_treatment value = elim (codes value) [
  | [] ↦ false
  | c ∷ cs ↦ leb b'a' c && leb c b'z' && leb (length cs) 63 && all_codes is_treatment_code cs
]

-- The treatment is checked, then the number of samples.
unfoldable pub check_arguments : String → ℕ → Aggregating Unit
unfolding is_safe_treatment
check_arguments treatment minimum_samples =
    if is_safe_treatment treatment
    then (if ltb minimum_samples 2 then refused too_few_samples else done tt)
    else refused unsafe_treatment

module _ {F : Type 0} (statistics : Statistics F) where
  unfoldable pub same_contract : ScorerContract F → ScorerContract F → Bool
  same_contract a b =
      text_eq a.scorer b.scorer
      && text_eq a.metric_name b.metric_name
      && statistics.same_score a.minimum_score b.minimum_score
      && statistics.same_score a.maximum_score b.maximum_score

  -- The aggregate of the results of a stage, with their scores.
  unfoldable pub stage_aggregate :
      String → ScorerContract F → ℕ → ℕ → String → List (ScoreResult F) → List F → StageAggregate F
  unfolding transformation_sets count_of state_of when only_set
  stage_aggregate treatment contract samples_total minimum_samples stage results scores =
      let sets = transformation_sets results in
      let missing_count = samples_total - length results in
      let unavailable_count = count_of unavailable results in
      let blocked_count = count_of blocked results in
      let failed_count = count_of failed results in
      let enough = leb minimum_samples (length scores) in
      record {
        treatment = treatment;
        stage = stage;
        scorer = contract.scorer;
        metric_name = contract.metric_name;
        state =
            state_of (length sets)
              (unavailable_count + blocked_count + failed_count + missing_count) (length scores)
              minimum_samples;
        samples_total = samples_total;
        scored_count = length scores;
        unavailable_count = unavailable_count;
        blocked_count = blocked_count;
        failed_count = failed_count;
        missing_count = missing_count;
        mean = when enough (statistics.fmean scores);
        median = when enough (statistics.median_of scores);
        minimum = when enough (statistics.least scores);
        maximum = when enough (statistics.greatest scores);
        population_stddev = when enough (statistics.pstdev scores);
        transformations = only_set sets;
      }

  -- `_aggregate_stage`
  unfoldable pub aggregate_stage :
      String
      → ScorerContract F
      → List (List (ScoreResult F))
      → ℕ
      → String
      → Aggregating (StageAggregate F)
  unfolding and_then results_of numeric_scores scores_given stage_aggregate
  aggregate_stage treatment contract indexed_reports minimum_samples stage =
      let results = results_of stage indexed_reports in
      and_then (scores_given (numeric_scores results)) (λ scores. done (
        stage_aggregate treatment contract (length indexed_reports) minimum_samples stage results
          scores))

  unfoldable pub aggregate_stages :
      String
      → ScorerContract F
      → List (List (ScoreResult F))
      → ℕ
      → List String
      → Aggregating (List (StageAggregate F))
  unfolding and_then aggregate_stage
  aggregate_stages treatment contract indexed_reports minimum_samples [] = done []
  aggregate_stages treatment contract indexed_reports minimum_samples (stage ∷ stages) =
      and_then (aggregate_stage treatment contract indexed_reports minimum_samples stage) (λ a.
        and_then (aggregate_stages treatment contract indexed_reports minimum_samples stages)
          (λ rest. done (a ∷ rest)))

-- The results of one report by stage, and the stages in the order of their first result.
module _ {F : Type 0} where
  unfoldable pub index_results :
      List (ScoreResult F)
      → List (ScoreResult F)
      → List String
      → Aggregating (List (ScoreResult F) × List String)
  unfolding and_then unless_indexed result_of add_stage
  index_results [] indexed stage_order = done (indexed, stage_order)
  index_results (r ∷ results) indexed stage_order =
      and_then (unless_indexed (result_of r.stage indexed))
        (λ _. index_results results (indexed ++ r ∷ []) (add_stage r.stage stage_order))

module _ {F : Type 0} (statistics : Statistics F) where
  unfoldable pub index_reports :
      ScorerContract F
      → List (ScoringReport F)
      → List (List (ScoreResult F))
      → List String
      → Aggregating (List (List (ScoreResult F)) × List String)
  unfolding and_then check_contract index_results same_contract
  index_reports contract [] indexed_reports stage_order = done (indexed_reports, stage_order)
  index_reports contract (report ∷ reports) indexed_reports stage_order =
      and_then (check_contract (same_contract statistics report.contract contract)) (λ _.
        and_then (index_results report.results [] stage_order)
          (λ indexed. index_reports contract reports (indexed_reports ++ indexed.0 ∷ []) indexed.1))

  -- `aggregate_full_reference_reports`
  unfoldable pub aggregate_reports :
      String → List (ScoringReport F) → ℕ → Aggregating (TreatmentReport F)
  unfolding and_then check_arguments index_reports aggregate_stages
  aggregate_reports treatment [] minimum_samples =
      and_then (check_arguments treatment minimum_samples) (λ _. refused no_reports)
  aggregate_reports treatment (report ∷ reports) minimum_samples =
      and_then (check_arguments treatment minimum_samples) (λ _.
        and_then (index_reports report.contract (report ∷ reports) [] []) (λ indexed.
          and_then
            (aggregate_stages statistics treatment report.contract indexed.0 minimum_samples
              indexed.1)
            (λ stages. done (record {
              treatment = treatment;
              minimum_samples = minimum_samples;
              contract = report.contract;
              stages = stages;
            }))))
