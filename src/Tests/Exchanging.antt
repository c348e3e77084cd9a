-- ===== src/Tests/Exchanging.antt =====
-- Exact differences, for the comparison of two treatments.
use voxbench.Base.{◌≡◌, refl, arith, true, false, some, []}
use voxbench.Base.Int.{ℤ, pos, ◌-ℤ◌, ltb_ℤ}
use voxbench.Verification.Scores.{aggregated, StageAggregate}
use voxbench.Verification.Regression.{RegressionPolicy, Differences, regressed, compare_stage}
use voxbench.Verification.Regression.Exchanged.{state_of_stage, mirrored, compare_stage-mirror}

abbrev exact : Differences ℤ
unfolding ◌-ℤ◌
exact = record { minus = λ a b. a -ℤ b; negate = λ a. pos 0 -ℤ a; is_below = ltb_ℤ }

exact_swap : (a b t : ℤ) → ltb_ℤ t (a -ℤ b) ≡ ltb_ℤ (b -ℤ a) (pos 0 -ℤ t)
unfolding ◌-ℤ◌
exact_swap a b t = ground arith

exact_flip : (x t : ℤ) → ltb_ℤ t (pos 0 -ℤ x) ≡ ltb_ℤ x (pos 0 -ℤ t)
unfolding ◌-ℤ◌
exact_flip x t = ground arith

exact_opposite : (x t : ℤ) → ltb_ℤ (pos 0 -ℤ x) (pos 0 -ℤ t) ≡ ltb_ℤ t x
unfolding ◌-ℤ◌
exact_opposite x t = ground arith

exact_exclusive : (x : ℤ) → ltb_ℤ (pos 2) x ≡ true → ltb_ℤ x (pos 0 -ℤ pos 2) ≡ false
unfolding ◌-ℤ◌
exact_exclusive x h = ground arith

abbrev policy : RegressionPolicy ℤ
policy = record { stable_tolerance = pos 2; higher_is_better = false }

abbrev stage_with : ℤ → StageAggregate ℤ
stage_with mean = record {
  treatment = "far-field";
  stage = "agc";
  scorer = "visqol";
  metric_name = "moslqo";
  state = aggregated;
  samples_total = 3;
  scored_count = 3;
  unavailable_count = 0;
  blocked_count = 0;
  failed_count = 0;
  missing_count = 0;
  mean = some mean;
  median = some mean;
  minimum = some mean;
  maximum = some mean;
  population_stddev = some (pos 0);
  transformations = [];
}

compare_stage-mirror_example :
    state_of_stage (
      compare_stage exact "agc"
        (some (stage_with (pos 40)))
        (some (stage_with (pos 31)))
        policy
        true)
    ≡ mirrored (
        state_of_stage (
          compare_stage exact "agc"
            (some (stage_with (pos 31)))
            (some (stage_with (pos 40)))
            policy
            true))
unfolding exact ◌-ℤ◌
compare_stage-mirror_example =
    compare_stage-mirror exact exact_swap exact_flip exact_opposite policy "agc"
      (some (stage_with (pos 31))) (some (stage_with (pos 40))) true exact_exclusive

-- Where lower scores are better, a higher one is a regression.
higher_regresses :
    state_of_stage (
      compare_stage exact "agc"
        (some (stage_with (pos 31)))
        (some (stage_with (pos 40)))
        policy
        true)
    ≡ some regressed
unfolding compare_stage state_of_stage ◌-ℤ◌
higher_regresses = refl
