-- ===== src/Verification/Aggregation/Counted.antt =====
-- The counts and statistics of one stage: for `_aggregate_stage` of
-- src/voxbench/verification/aggregation.py.
use voxbench.Base.{
  ℕ, ◌+◌, ◌-◌, ◌≤◌, ◌≡◌, refl, sym, ap, subst, ◌∙◌, inl, inr, String, Bool, true, false, ◌&&◌,
  Option, none, some, List, [], ◌∷◌, length, All, map, leb, ltb, ==_iff, ltb-false, le→leb, arith,
  Bool-cases, Option-cases, both_true, text_eq, text_eq_iff, some_inj, if◌then◌else◌,
}
use voxbench.Verification.Scores.{
  ScoreState, scored, unavailable, blocked, failed, ScorerContract, ScoreResult, StageAggregate,
  Statistics,
}
use voxbench.Verification.Tallies.{
  same_state, result_of, results_of, count_of, with_score, numeric_scores, transformation_sets,
  when, state_of,
}
use voxbench.Verification.Aggregation.{
  Aggregating, done, refused, and_then, stage_aggregate, scores_given, aggregate_stage,
  aggregate_stages,
}
use voxbench.Verification.Aggregation.Loader.{
  is_present, complete_if, counts_agree, statistics_complete, metadata_agrees, stage_agrees,
  all_stages,
}

-- A step that is done was done in two steps.
pub and_then-done :
    {A B : Type 0} (m : Aggregating A) (f : A → Aggregating B) (b : B)
    → and_then m f ≡ done b
    → (a : A) × (m ≡ done a) × (f a ≡ done b)
unfolding and_then
and_then-done (done a) f b h = (a, refl, h)
and_then-done (refused e) f b h = absurd (cc h)

pub done_inj : {A : Type 0} (a b : A) → done a ≡ done b → a ≡ b
done_inj a b = ap (λ m. elim m [ done x ↦ x | refused _ ↦ a ])

scores_given-done : {A : Type 0} (o : Option A) (a : A) → scores_given o ≡ done a → o ≡ some a
unfolding scores_given
scores_given-done none a h = absurd (cc h)
scores_given-done (some x) a h = ap some (done_inj x a h)

one : ScoreState → ScoreState → ℕ
unfolding same_state
one s state = if same_state s state then 1 else 0

one_state : (s : ScoreState) → one s scored + one s unavailable + one s blocked + one s failed ≡ 1
unfolding one same_state
one_state scored = refl
one_state unavailable = refl
one_state blocked = refl
one_state failed = refl

module _ {F : Type 0} where
  count_of-total :
      (results : List (ScoreResult F))
      → count_of scored results
          + count_of unavailable results
          + count_of blocked results
          + count_of failed results
        ≡ length results
  unfolding count_of one
  count_of-total [] = refl
  count_of-total (r ∷ results) = omega (arith, one_state r.state, count_of-total results)

  scores-step :
      (is_scored : Bool) (o : Option F) (rest : Option (List F)) (scores : List F)
      → (if is_scored then with_score o rest else rest) ≡ some scores
      → (others : List F) × (rest ≡ some others)
        × (length scores ≡ (if is_scored then 1 else 0) + length others)
  unfolding with_score
  scores-step true none rest scores h = absurd (cc h)
  scores-step true (some score) none scores h = absurd (cc h)
  scores-step true (some score) (some others) scores h =
      (others, refl, ap length (sym (some_inj (score ∷ others) scores h)) ∙ omega arith)
  scores-step false o rest scores h = (scores, h, omega arith)

  numeric_scores-length :
      (results : List (ScoreResult F)) (scores : List F)
      → numeric_scores results ≡ some scores
      → length scores ≡ count_of scored results
  unfolding numeric_scores count_of same_state
  numeric_scores-length [] scores h = ap length (sym (some_inj [] scores h))
  numeric_scores-length (r ∷ results) scores h =
      let (rest, e, k) =
        scores-step (same_state r.state scored) r.score (numeric_scores results) scores h in
      omega (arith, k, numeric_scores-length results rest e)

  results_of-length :
      (stage : String) (reports : List (List (ScoreResult F)))
      → length (results_of stage reports) ≤ length reports
  unfolding results_of
  results_of-length stage [] = omega arith
  results_of-length stage (indexed ∷ reports) = elim (Option-cases (result_of stage indexed)) [
    | inl e ↦ rw (e, length) (omega (arith, results_of-length stage reports))
    | inr (r, e) ↦ rw (e, length) (omega (arith, results_of-length stage reports))
  ]

-- Aggregated, with too few scores for the statistics, is no state.
state_of_complete :
    {F : Type 0} (sets incomplete n m : ℕ) (a b c d e : F)
    → complete_if (state_of sets incomplete n m) (
        is_present (when (leb m n) a)
        && is_present (when (leb m n) b)
        && is_present (when (leb m n) c)
        && is_present (when (leb m n) d)
        && is_present (when (leb m n) e))
      ≡ true
unfolding state_of complete_if is_present when
state_of_complete sets incomplete n m a b c d e = elim (Bool-cases (ltb 1 sets)) [
  | inl h ↦ rw h refl
  | inr h ↦ rw h (elim (Bool-cases (ltb 0 incomplete)) [
    | inl h' ↦ rw h' refl
    | inr h' ↦ rw h' (elim (Bool-cases (ltb n m)) [
      | inl k ↦ rw k refl
      | inr k ↦ rw (k, le→leb m n (ltb-false n m k)) refl
    ])
  ])
]

module _ {F : Type 0} (statistics : Statistics F) where
  module _ (treatment : String) (contract : ScorerContract F)
      (indexed_reports : List (List (ScoreResult F))) (minimum_samples : ℕ) where
    -- An aggregate agrees with itself and with its contract, and is one of all reports.
    Passing : String → StageAggregate F → Type 0
    Passing stage a =
        (stage_agrees contract a ≡ true)
        × (a.samples_total ≡ length indexed_reports)
        × (a.stage ≡ stage)

    stage_aggregate-Passing :
        (stage : String) (results : List (ScoreResult F)) (scores : List F)
        → numeric_scores results ≡ some scores
        → length results ≤ length indexed_reports
        → Passing stage (
            stage_aggregate statistics treatment contract
              (length indexed_reports)
              minimum_samples
              stage
              results
              scores)
    unfolding stage_aggregate Passing stage_agrees counts_agree statistics_complete metadata_agrees
    stage_aggregate-Passing stage results scores e le =
        let n = length indexed_reports in
        let a =
          stage_aggregate statistics treatment contract n minimum_samples stage results scores in
        let counted : length scores
              + count_of unavailable results
              + count_of blocked results
              + count_of failed results
              + (n - length results)
            ≡ n =
          omega (arith, le, numeric_scores-length results scores e, count_of-total results) in
        (
          both_true (counts_agree a && statistics_complete a) (metadata_agrees contract a)
              (both_true (counts_agree a) (statistics_complete a) ((==_iff _ n).1 counted) (
                state_of_complete (length (transformation_sets results))
                  (count_of unavailable results
                    + count_of blocked results
                    + count_of failed results
                    + (n - length results))
                  (length scores) minimum_samples (statistics.fmean scores)
                  (statistics.median_of scores) (statistics.least scores)
                  (statistics.greatest scores) (statistics.pstdev scores)))
              (both_true _ (text_eq contract.metric_name contract.metric_name)
                ((text_eq_iff contract.scorer contract.scorer).1 refl)
                ((text_eq_iff contract.metric_name contract.metric_name).1 refl)),
          refl,
          refl,
        )

    aggregate_stage-Passing :
        (stage : String) (a : StageAggregate F)
        → aggregate_stage statistics treatment contract indexed_reports minimum_samples stage
          ≡ done a
        → Passing stage a
    unfolding aggregate_stage Passing
    aggregate_stage-Passing stage a h =
        let results = results_of stage indexed_reports in
        let (scores, e, k) =
          and_then-done (scores_given (numeric_scores results))
            (λ scores. done (
              stage_aggregate statistics treatment contract (length indexed_reports) minimum_samples
                stage results scores))
            a h in
        subst (Passing stage) (done_inj _ a k) (
          stage_aggregate-Passing stage results scores (scores_given-done _ scores e)
            (results_of-length stage indexed_reports))

    -- One aggregate for each stage, in order.
    unfoldable pub AllPassing : List String → List (StageAggregate F) → Type 0
    unfolding all_stages
    AllPassing order stages =
        (all_stages (stage_agrees contract) stages ≡ true)
        × All (λ a. a.samples_total ≡ length indexed_reports) stages
        × (map (λ a. a.stage) stages ≡ order)

    pub aggregate_stages-AllPassing :
        (order : List String) (stages : List (StageAggregate F))
        → aggregate_stages statistics treatment contract indexed_reports minimum_samples order
          ≡ done stages
        → AllPassing order stages
    unfolding aggregate_stages all_stages Passing AllPassing
    aggregate_stages-AllPassing [] stages h =
        subst (AllPassing []) (done_inj [] stages h) (refl, tt, refl)
    aggregate_stages-AllPassing (stage ∷ order) stages h =
        let remaining =
          aggregate_stages statistics treatment contract indexed_reports minimum_samples order in
        let (a, e, h') =
          and_then-done
            (aggregate_stage statistics treatment contract indexed_reports minimum_samples stage)
            (λ a. and_then remaining (λ rest. done (a ∷ rest))) stages h in
        let (rest, e', k) = and_then-done remaining (λ rest. done (a ∷ rest)) stages h' in
        let (accepted, total, named) = aggregate_stage-Passing stage a e in
        let (others, totals, names) = aggregate_stages-AllPassing order rest e' in
        subst (AllPassing (stage ∷ order)) (done_inj (a ∷ rest) stages k) (
          both_true _ (all_stages (stage_agrees contract) rest) accepted others,
          (total, totals),
          cc (named, names),
        )
