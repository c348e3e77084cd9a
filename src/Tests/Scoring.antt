-- ===== src/Tests/Scoring.antt =====
-- Three scoring reports of one treatment, aggregated.
use voxbench.Base.{
  ℕ, not, filter, ◌++◌, ◌&&◌, ◌+◌, ◌/◌, ◌≡◌, refl, String, true, false, Option, none, some, List,
  [], ◌∷◌, map, length, All, ◌==◌, ◌-◌, ◌≢◌, ltb,
}
use voxbench.Verification.Scores.{
  ScoreState, scored, blocked, aggregated, partial, ScorerContract, ScoreResult, ScoringReport,
  TreatmentReport, Statistics, Numbers,
}
use voxbench.Verification.Aggregation.{
  Aggregating, done, refused, repeated_stage, aggregate_reports,
}
use voxbench.Verification.Aggregation.Loader.{loader_accepts, contract_fits, all_stages, stage_fits}
use voxbench.Verification.Tallies.{is_among}
use voxbench.Verification.Regression.{
  RegressionState, improved, indeterminate, aggregate_mean_missing, RegressionPolicy,
  RegressionReport, Differences, compare_treatments,
}
use voxbench.Verification.Regression.Judged.{compare_treatments-judged}
use voxbench.Verification.Aggregation.Accepted.{report_of, aggregate_reports-accepted}

abbrev total : List ℕ → ℕ
total [] = 0
total (n ∷ ns) = n + total ns

abbrev statistics : Statistics ℕ
statistics = record {
  fmean = λ scores. total scores / length scores;
  median_of = λ scores. total scores / length scores;
  least = λ scores. elim scores [ [] ↦ 0 | n ∷ _ ↦ n ];
  greatest = λ scores. total scores;
  pstdev = λ _. 0;
  same_score = λ a b. a == b;
}

abbrev numbers : Numbers ℕ
numbers = record { is_finite = λ n. ltb n 1_000; is_below = ltb }

abbrev contract : ScorerContract ℕ
contract = record {
  scorer = "visqol";
  metric_name = "moslqo";
  minimum_score = 1;
  maximum_score = 5;
}

abbrev result : String → ScoreState → Option ℕ → ScoreResult ℕ
result stage state score = record {
  stage = stage;
  scorer = "visqol";
  metric_name = "moslqo";
  state = state;
  score = score;
  reason_alias = none;
  transformations = [];
}

abbrev report : List (ScoreResult ℕ) → ScoringReport ℕ
report results = record { contract = contract; results = results }

abbrev three_reports : List (ScoringReport ℕ)
three_reports =
    report (result "agc" scored (some 4) ∷ result "codec" scored (some 2) ∷ [])
    ∷ report (result "agc" scored (some 5) ∷ [])
    ∷ report (result "codec" blocked none ∷ result "agc" scored (some 3) ∷ [])
    ∷ []

abbrev outcome : Aggregating (TreatmentReport ℕ)
outcome = aggregate_reports statistics "far-field" three_reports 3

abbrev or_empty : Aggregating (TreatmentReport ℕ) → TreatmentReport ℕ
or_empty (done r) = r
or_empty (refused _) = report_of "none" 0 contract []

aggregate_reports-accepted_example :
    (loader_accepts numbers (or_empty outcome) ≡ (
      contract_fits numbers (or_empty outcome).contract
      && all_stages (stage_fits numbers) (or_empty outcome).stages))
    × All (λ a. a.samples_total ≡ 3) (or_empty outcome).stages
aggregate_reports-accepted_example =
    aggregate_reports-accepted numbers statistics "far-field" three_reports 3 (or_empty outcome)
      (unfold aggregate_reports in refl)

states : map (λ a. a.state) (or_empty outcome).stages ≡ aggregated ∷ partial ∷ []
unfolding aggregate_reports
states = refl

means : map (λ a. a.mean) (or_empty outcome).stages ≡ some 4 ∷ none ∷ []
unfolding aggregate_reports
means = refl

twice :
    aggregate_reports statistics "far-field"
      (report (result "agc" scored (some 4) ∷ result "agc" scored (some 4) ∷ []) ∷ [])
      2
    ≡ refused repeated_stage
unfolding aggregate_reports
twice = refl

abbrev differences : Differences ℕ
differences = record { minus = λ a b. a - b; negate = λ _. 0; is_below = ltb }

abbrev policy : RegressionPolicy ℕ
policy = record { stable_tolerance = 0; higher_is_better = true }

-- A later treatment, with higher scores.
abbrev later : TreatmentReport ℕ
later = or_empty (
    aggregate_reports statistics "near-field"
      (report (result "agc" scored (some 5) ∷ result "limiter" scored (some 2) ∷ [])
        ∷ report (result "agc" scored (some 5) ∷ [])
        ∷ [])
      2)

compare_treatments-judged_example :
    (r : RegressionReport ℕ) × (compare_treatments differences statistics
        (or_empty outcome)
        later
        policy
      ≡ some r)
    × (map (λ s. s.stage) r.stages
        ≡ map (λ a. a.stage) (or_empty outcome).stages
          ++ filter
              (λ name. not (is_among name (map (λ a. a.stage) (or_empty outcome).stages)))
              (map (λ a. a.stage) later.stages))
    × All (λ s. s.reason_alias ≢ some aggregate_mean_missing) r.stages
compare_treatments-judged_example =
    compare_treatments-judged numbers differences statistics (or_empty outcome) later policy
      (unfold aggregate_reports loader_accepts in refl)
      (unfold aggregate_reports loader_accepts in refl)

states_of : Option (RegressionReport ℕ) → List RegressionState
states_of none = []
states_of (some r) = map (λ s. s.state) r.stages

compared :
    states_of (compare_treatments differences statistics (or_empty outcome) later policy)
    ≡ improved ∷ indeterminate ∷ indeterminate ∷ []
unfolding compare_treatments aggregate_reports states_of
compared = refl

-- The aggregation takes a stage of any name, and the loader does not.
upper_case :
    loader_accepts numbers (
      or_empty (
        aggregate_reports statistics "near-field"
          (report (result "AGC" scored (some 5) ∷ []) ∷ [])
          2))
    ≡ false
unfolding aggregate_reports loader_accepts
upper_case = refl

accepted : loader_accepts numbers (or_empty outcome) ≡ true
unfolding aggregate_reports loader_accepts
accepted = refl
