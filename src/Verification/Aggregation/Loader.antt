-- ===== src/Verification/Aggregation/Loader.antt =====
-- The checks of `load_full_reference_treatment_report` and `_load_stage` of
-- src/voxbench/verification/aggregation.py on a report
-- whose fields have the right types.
use voxbench.Base.{
  ℕ, ◌+◌, ◌||◌, length, text_eq, String, Bool, true, false, not, ◌&&◌, Option, none, some, List, [],
  ◌∷◌, map, leb, ◌==◌,
}
use voxbench.Verification.Scores.{
  AggregateState, aggregated, StageAggregate, TreatmentReport, ScorerContract, Numbers,
}
use voxbench.Base.Text.{codes, all_codes}
use voxbench.Verification.Tallies.{is_among}
use voxbench.Verification.Aggregation.{is_safe_treatment}

is_transformation_code : ℕ → Bool
is_transformation_code c =
    (leb b'a' c && leb c b'z')
    || (leb b'0' c && leb c b'9')
    || c == b'_'
    || c == b'.'
    || c == b':'
    || c == b'>'
    || c == b'-'

-- `_SAFE_TRANSFORMATION.fullmatch`
unfoldable pub is_safe_transformation : String → Bool
unfolding all_codes is_transformation_code
is_safe_transformation value = elim (codes value) [
  | [] ↦ false
  | c ∷ cs ↦
      ((leb b'a' c && leb c b'z') || (leb b'0' c && leb c b'9'))
      && leb (length cs) 127
      && all_codes is_transformation_code cs
]

unfoldable pub all_texts : (String → Bool) → List String → Bool
all_texts test [] = true
all_texts test (s ∷ texts) = test s && all_texts test texts

unfoldable pub is_present : {A : Type 0} → Option A → Bool
is_present none = false
is_present (some _) = true

-- An aggregated stage has all of its statistics.
unfoldable pub complete_if : AggregateState → Bool → Bool
complete_if aggregated complete = complete
complete_if _ complete = true

-- `len({stage.stage for stage in stages}) == len(stages)`
unfoldable pub stages_differ : List String → Bool
unfolding is_among
stages_differ [] = true
stages_differ (stage ∷ stages) = not (is_among stage stages) && stages_differ stages

module _ {F : Type 0} where
  -- The counts of a stage agree.
  unfoldable pub counts_agree : StageAggregate F → Bool
  counts_agree a =
      a.scored_count + a.unavailable_count + a.blocked_count + a.failed_count + a.missing_count
      == a.samples_total

  unfoldable pub statistics_complete : StageAggregate F → Bool
  unfolding is_present complete_if
  statistics_complete a = complete_if a.state (
      is_present a.mean
      && is_present a.median
      && is_present a.minimum
      && is_present a.maximum
      && is_present a.population_stddev)

  unfoldable pub all_stages : (StageAggregate F → Bool) → List (StageAggregate F) → Bool
  all_stages test [] = true
  all_stages test (a ∷ stages) = test a && all_stages test stages

  -- The scorer and the metric of a stage are those of the contract.
  unfoldable pub metadata_agrees : ScorerContract F → StageAggregate F → Bool
  metadata_agrees contract a =
      text_eq a.scorer contract.scorer && text_eq a.metric_name contract.metric_name

  -- What the fields of a stage say of each other and of the contract.
  unfoldable pub stage_agrees : ScorerContract F → StageAggregate F → Bool
  unfolding counts_agree statistics_complete metadata_agrees
  stage_agrees contract a = counts_agree a && statistics_complete a && metadata_agrees contract a

module _ {F : Type 0} (numbers : Numbers F) where
  -- `_optional_finite_number`
  unfoldable pub is_optional_finite : Option F → Bool
  is_optional_finite none = true
  is_optional_finite (some x) = numbers.is_finite x

  -- What is asked of the single fields of a stage.
  unfoldable pub stage_fits : StageAggregate F → Bool
  unfolding is_safe_treatment all_texts is_safe_transformation is_optional_finite
  stage_fits a =
      is_safe_treatment a.stage
      && all_texts is_safe_transformation a.transformations
      && is_optional_finite a.mean
      && is_optional_finite a.median
      && is_optional_finite a.minimum
      && is_optional_finite a.maximum
      && is_optional_finite a.population_stddev

  -- `FullReferenceScorerContract.__post_init__`, after `_finite_number` of both bounds.
  unfoldable pub contract_fits : ScorerContract F → Bool
  unfolding is_safe_treatment
  contract_fits contract =
      is_safe_treatment contract.scorer
      && is_safe_treatment contract.metric_name
      && numbers.is_finite contract.minimum_score
      && numbers.is_finite contract.maximum_score
      && numbers.is_below contract.minimum_score contract.maximum_score

  -- Whether the loader takes a report that it has read with fields of the right types.
  unfoldable pub loader_accepts : TreatmentReport F → Bool
  unfolding is_safe_treatment contract_fits all_stages stage_fits stage_agrees stages_differ
  loader_accepts report =
      is_safe_treatment report.treatment
      && leb 2 report.minimum_samples
      && contract_fits report.contract
      && all_stages (λ a. stage_fits a && stage_agrees report.contract a) report.stages
      && stages_differ (map (λ a. a.stage) report.stages)
