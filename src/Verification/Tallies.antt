-- ===== src/Verification/Tallies.antt =====
-- The tallies of the results of one stage, for `_aggregate_stage` of
-- src/voxbench/verification/aggregation.py.
use voxbench.Base.{
  ℕ, ◌+◌, String, Bool, true, false, not, ◌&&◌, ◌||◌, Option, none, some, List, [], ◌∷◌, ltb,
  if◌then◌else◌, text_eq,
}
use voxbench.Verification.Scores.{
  ScoreState, scored, unavailable, blocked, failed, AggregateState, aggregated, insufficient,
  partial, incomparable, ScoreResult,
}

-- `name in names`
unfoldable pub is_among : String → List String → Bool
is_among name [] = false
is_among name (n ∷ names) = text_eq n name || is_among name names

-- `tuple == tuple`
unfoldable pub same_texts : List String → List String → Bool
same_texts [] [] = true
same_texts [] (y ∷ ys) = false
same_texts (x ∷ xs) [] = false
same_texts (x ∷ xs) (y ∷ ys) = text_eq x y && same_texts xs ys

unfoldable pub is_among_sets : List String → List (List String) → Bool
unfolding same_texts
is_among_sets set [] = false
is_among_sets set (s ∷ sets) = same_texts s set || is_among_sets set sets

unfoldable pub same_state : ScoreState → ScoreState → Bool
same_state scored scored = true
same_state unavailable unavailable = true
same_state blocked blocked = true
same_state failed failed = true
same_state _ _ = false

-- `next(iter(sets)) if len(sets) == 1 else ()`
unfoldable pub only_set : List (List String) → List String
only_set [] = []
only_set (set ∷ []) = set
only_set (set ∷ other ∷ sets) = []

unfoldable pub when : {A : Type 0} → Bool → A → Option A
when test value = if test then some value else none

unfoldable pub state_of : ℕ → ℕ → ℕ → ℕ → AggregateState
state_of sets incomplete scores minimum_samples =
    if ltb 1 sets
    then incomparable
    else (if ltb 0 incomplete
        then partial
        else (if ltb scores minimum_samples then insufficient else aggregated))

module _ {F : Type 0} where
  -- `indexed.get(stage)`
  unfoldable pub result_of : String → List (ScoreResult F) → Option (ScoreResult F)
  result_of stage [] = none
  result_of stage (r ∷ indexed) = if text_eq r.stage stage then some r else result_of stage indexed

  -- `[indexed[stage] for indexed in indexed_reports if stage in indexed]`
  unfoldable pub results_of : String → List (List (ScoreResult F)) → List (ScoreResult F)
  unfolding result_of
  results_of stage [] = []
  results_of stage (indexed ∷ reports) = elim (result_of stage indexed) [
    | none ↦ results_of stage reports
    | some r ↦ r ∷ results_of stage reports
  ]

  -- `sum(result.state == state for result in results)`
  unfoldable pub count_of : ScoreState → List (ScoreResult F) → ℕ
  unfolding same_state
  count_of state [] = 0
  count_of state (r ∷ results) =
      (if same_state r.state state then 1 else 0) + count_of state results

  unfoldable pub with_score : Option F → Option (List F) → Option (List F)
  with_score none rest = none
  with_score (some score) none = none
  with_score (some score) (some scores) = some (score ∷ scores)

  -- The scores of the scored results, or none where one of them has no score.
  unfoldable pub numeric_scores : List (ScoreResult F) → Option (List F)
  unfolding same_state with_score
  numeric_scores [] = some []
  numeric_scores (r ∷ results) =
      let rest = numeric_scores results in
      if same_state r.state scored then with_score r.score rest else rest

  -- `{result.transformations for result in results if result.state == "scored"}`
  unfoldable pub transformation_sets : List (ScoreResult F) → List (List String)
  unfolding same_state is_among_sets
  transformation_sets [] = []
  transformation_sets (r ∷ results) =
      let sets = transformation_sets results in
      if same_state r.state scored && not (is_among_sets r.transformations sets)
      then r.transformations ∷ sets
      else sets
