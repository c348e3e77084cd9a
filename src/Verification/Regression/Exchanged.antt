-- ===== src/Verification/Regression/Exchanged.antt =====
-- The two treatments of a comparison exchanged: for `_compare_stage` of
-- src/voxbench/verification/regression.py.
use voxbench.Base.{
  ◌≡◌, refl, inl, inr, sym, Bool, true, false, Bool-cases, Option-cases, Option, none, some, String,
  List, [], ◌∷◌, ◌⊎◌, ap, text_eq, text_eq_iff, other_text, if◌then◌else◌,
}
use voxbench.Verification.Scores.{StageAggregate}
use voxbench.Verification.Tallies.{same_texts}
use voxbench.Verification.Regression.{
  Reason, baseline_not_aggregated, current_not_aggregated, transformation_mismatch,
  aggregate_mean_missing, StageRegression, is_aggregated, pair_reason, mean_of,
  indeterminate_reason, undecided, decided, compare_stage, RegressionState, improved, stable,
  regressed, indeterminate, RegressionPolicy, Differences, judge,
}

unfoldable pub mirror : RegressionState → RegressionState
mirror improved = regressed
mirror stable = stable
mirror regressed = improved
mirror indeterminate = indeterminate

-- Which of two tests holds, with the first before the second.
judgement : Bool → Bool → RegressionState
judgement above below = if above then improved else (if below then regressed else stable)

judgement-mirror :
    (above below : Bool)
    → (above ≡ true → below ≡ false)
    → judgement below above ≡ mirror (judgement above below)
unfolding judgement mirror
judgement-mirror true true h = absurd (cc (h refl))
judgement-mirror true false h = refl
judgement-mirror false true h = refl
judgement-mirror false false h = refl

same_texts_comm : (xs ys : List String) → same_texts ys xs ≡ same_texts xs ys
unfolding same_texts
same_texts_comm [] [] = refl
same_texts_comm [] (y ∷ ys) = refl
same_texts_comm (x ∷ xs) [] = refl
same_texts_comm (x ∷ xs) (y ∷ ys) = elim (Bool-cases (text_eq x y)) [
  | inl e ↦ rw (e, (text_eq_iff y x).1 (sym ((text_eq_iff x y).0 e)), same_texts_comm xs ys) refl
  | inr e ↦ rw (e, other_text x y e) refl
]

module _ {F : Type 0} where
  -- Two stages have means to compare, either way, or they are not compared, either way.
  pair_reason-either :
      (b c : StageAggregate F)
      → ((x : F) × (y : F) × (b.mean ≡ some x)
          × (c.mean ≡ some y)
          × (pair_reason b c ≡ none)
          × (pair_reason c b ≡ none))
        ⊎ ((r : Reason) × (s : Reason) × (pair_reason b c ≡ some r) × (pair_reason c b ≡ some s))
  unfolding pair_reason
  pair_reason-either b c =
      let comm = same_texts_comm b.transformations c.transformations in
      elim (Bool-cases (is_aggregated b.state)) [
        | inr e ↦ elim (Bool-cases (is_aggregated c.state)) [
          | inr e' ↦ inr (baseline_not_aggregated, baseline_not_aggregated, rw e refl, rw e' refl)
          | inl e' ↦
              inr (baseline_not_aggregated, current_not_aggregated, rw e refl, rw (e', e) refl)
        ]
        | inl e ↦ elim (Bool-cases (is_aggregated c.state)) [
          | inr e' ↦
              inr (current_not_aggregated, baseline_not_aggregated, rw (e, e') refl, rw e' refl)
          | inl e' ↦ elim (Bool-cases (same_texts b.transformations c.transformations)) [
            | inr t ↦ inr (
              transformation_mismatch,
              transformation_mismatch,
              rw (e, e', t) refl,
              rw (e, e', comm, t) refl,
            )
            | inl t ↦ elim (Option-cases b.mean) [
              | inl m ↦ elim (Option-cases c.mean) [
                | inl n ↦ inr (
                  aggregate_mean_missing,
                  aggregate_mean_missing,
                  rw (e, e', t, m) refl,
                  rw (e, e', comm, t, n) refl,
                )
                | inr (y, n) ↦ inr (
                  aggregate_mean_missing,
                  aggregate_mean_missing,
                  rw (e, e', t, m) refl,
                  rw (e, e', comm, t, n, m) refl,
                )
              ]
              | inr (x, m) ↦ elim (Option-cases c.mean) [
                | inl n ↦ inr (
                  aggregate_mean_missing,
                  aggregate_mean_missing,
                  rw (e, e', t, m, n) refl,
                  rw (e, e', comm, t, n) refl,
                )
                | inr (y, n) ↦
                    inl (x, y, m, n, rw (e, e', t, m, n) refl, rw (e, e', comm, t, n, m) refl)
              ]
            ]
          ]
        ]
      ]

-- The state of a comparison.
unfoldable pub state_of_stage : {F : Type 0} → Option (StageRegression F) → Option RegressionState
state_of_stage none = none
state_of_stage (some r) = some r.state

unfoldable pub mirrored : Option RegressionState → Option RegressionState
unfolding mirror
mirrored none = none
mirrored (some s) = some (mirror s)

contraposed : (a b : Bool) → (a ≡ true → b ≡ false) → b ≡ true → a ≡ false
contraposed true b f h = absurd (cc (f refl, h))
contraposed false b f h = refl

module _ {F : Type 0} (differences : Differences F)
    (swap : (a b t : F)
      → differences.is_below t (differences.minus a b)
        ≡ differences.is_below (differences.minus b a) (differences.negate t))
    (flip : (x t : F)
      → differences.is_below t (differences.negate x)
        ≡ differences.is_below x (differences.negate t))
    (opposite : (x t : F)
      → differences.is_below (differences.negate x) (differences.negate t)
        ≡ differences.is_below t x) where
  pub judge-mirror :
      (policy : RegressionPolicy F) (b c : F)
      → ((x : F)
          → differences.is_below policy.stable_tolerance x ≡ true
          → differences.is_below x (differences.negate policy.stable_tolerance) ≡ false)
      → judge differences policy (differences.minus b c)
        ≡ mirror (judge differences policy (differences.minus c b))
  unfolding judge judgement
  judge-mirror policy b c exclusive =
      let t = policy.stable_tolerance in
      let d = differences.minus c b in
      let above = differences.is_below t d in
      let below = differences.is_below d (differences.negate t) in
      elim (Bool-cases policy.higher_is_better) [
        | inl e ↦
            rw (judge, e, swap b c t, sym (swap c b t)) (judgement-mirror above below (exclusive d))
        | inr e ↦
            rw
              (
                judge,
                e,
                flip (differences.minus b c) t,
                opposite (differences.minus b c) t,
                flip d t,
                opposite d t,
                swap b c t,
                sym (swap c b t),
              )
              (judgement-mirror below above (contraposed above below (exclusive d)))
      ]

  -- If the two stages are exchanged, the state of the comparison is the mirrored one: improved and
  -- regressed trade places, stable and indeterminate stay. This holds for any arithmetic in which
  -- a - b compares with t as b - a with -t the other way round, negation turns comparisons around,
  -- and nothing is above the tolerance and below its negation.
  pub compare_stage-mirror :
      (policy : RegressionPolicy F) (stage : String) (baseline current : Option (StageAggregate F))
      (contracts_match : Bool)
      → ((x : F)
          → differences.is_below policy.stable_tolerance x ≡ true
          → differences.is_below x (differences.negate policy.stable_tolerance) ≡ false)
      → state_of_stage (compare_stage differences stage current baseline policy contracts_match)
        ≡ mirrored (
            state_of_stage
              (compare_stage differences stage baseline current policy contracts_match))
  unfolding compare_stage indeterminate_reason mean_of undecided decided state_of_stage mirrored
  compare_stage-mirror policy stage baseline current false exclusive = refl
  compare_stage-mirror policy stage none none true exclusive = refl
  compare_stage-mirror policy stage none (some c) true exclusive = refl
  compare_stage-mirror policy stage (some b) none true exclusive = refl
  compare_stage-mirror policy stage (some b) (some c) true exclusive =
      elim (pair_reason-either b c) [
        | inl (x, y, m, n, e, e') ↦
            rw (compare_stage, state_of_stage, e, e', m, n)
              (ap some (judge-mirror policy x y exclusive))
        | inr (r, s, e, e') ↦ rw (compare_stage, state_of_stage, e, e') refl
      ]
