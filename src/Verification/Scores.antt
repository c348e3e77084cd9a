-- ===== src/Verification/Scores.antt =====
-- The records of src/voxbench/verification/scoring.py and of aggregation.py beside it, over the
-- floating-point numbers `F`.
use voxbench.Base.{ℕ, String, Bool, Option, List}

-- `FullReferenceScoreState`
pub data ScoreState : Type 0 where
  scored : ScoreState
  unavailable : ScoreState
  blocked : ScoreState
  failed : ScoreState

-- `FullReferenceAggregateState`
pub data AggregateState : Type 0 where
  aggregated : AggregateState
  insufficient : AggregateState
  partial : AggregateState
  incomparable : AggregateState

module _ (F : Type 0) where
  -- `FullReferenceScorerContract`
  pub record ScorerContract : Type 0 where
    pub scorer : String
    pub metric_name : String
    pub minimum_score : F
    pub maximum_score : F

  -- `FullReferenceScoreResult`
  pub record ScoreResult : Type 0 where
    pub stage : String
    pub scorer : String
    pub metric_name : String
    pub state : ScoreState
    pub score : Option F
    pub reason_alias : Option String
    pub transformations : List String

  -- `FullReferenceScoringReport`
  pub record ScoringReport : Type 0 where
    pub contract : ScorerContract
    pub results : List ScoreResult

  -- `FullReferenceStageAggregate`
  pub record StageAggregate : Type 0 where
    pub treatment : String
    pub stage : String
    pub scorer : String
    pub metric_name : String
    pub state : AggregateState
    pub samples_total : ℕ
    pub scored_count : ℕ
    pub unavailable_count : ℕ
    pub blocked_count : ℕ
    pub failed_count : ℕ
    pub missing_count : ℕ
    pub mean : Option F
    pub median : Option F
    pub minimum : Option F
    pub maximum : Option F
    pub population_stddev : Option F
    pub transformations : List String

  -- `FullReferenceTreatmentReport`
  pub record TreatmentReport : Type 0 where
    pub treatment : String
    pub minimum_samples : ℕ
    pub contract : ScorerContract
    pub stages : List StageAggregate

  -- What the aggregation does with scores: `statistics`, `min`, `max` and `==` of floats.
  pub record Statistics : Type 0 where
    pub fmean : List F → F
    pub median_of : List F → F
    pub least : List F → F
    pub greatest : List F → F
    pub pstdev : List F → F
    pub same_score : F → F → Bool

  -- What the checks on a contract and on a report do with floats: `math.isfinite` and `<`.
  pub record Numbers : Type 0 where
    pub is_finite : F → Bool
    pub is_below : F → F → Bool
