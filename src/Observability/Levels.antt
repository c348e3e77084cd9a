-- ===== src/Observability/Levels.antt =====
-- The levels of PCM audio as floating-point numbers: `pcm_s16le_rms`, `pcm_s16le_quality` and
-- `_delta_db` of src/voxbench/observability/observer.py, over the arithmetic that they use.
use voxbench.Base.{ℕ, ◌%◌, ◌/◌, Bool, List, ◌&&◌, ◌==◌, length, if◌then◌else◌}
use voxbench.Observability.Records.{Raising, returned, raised, length_odd}
use voxbench.Media.Mulaw.{iter_unpack}
use voxbench.Observability.Pcm.{Quality, square_sum, quality_counts}

-- The floating-point arithmetic of the observer.
pub record Floats (F : Type 0) : Type 0 where
  -- `0.0` and `-120.0`
  pub zero_point : F
  pub floor_dbfs : F
  -- `math.sqrt(square_sum / sample_count)`
  pub root_mean_square : ℕ → ℕ → F
  -- `20.0 * math.log10(peak / PCM16_FULL_SCALE)`
  pub peak_dbfs : ℕ → F
  -- `count / sample_count * 100.0`
  pub percentage : ℕ → ℕ → F
  pub is_positive : F → Bool
  -- `20.0 * math.log10(output_rms / input_rms)`, of the input and the output
  pub gain_db : F → F → F
  -- `sample_count / channels / sample_rate_hz * 1000.0`
  pub duration_ms : ℕ → ℕ → ℕ → F
  -- `frame / sample_rate_hz * 1000.0`
  pub media_time_ms : ℕ → ℕ → F
  -- `later - earlier >= PCM_DISCONTINUITY_DEDUP_MS`
  pub is_new_incident : F → F → Bool
  -- `level / PCM16_FULL_SCALE`
  pub of_full_scale : ℕ → F
  pub discontinuity_threshold : F
  pub min_signal_level : F
  pub dedup_ms : F
  -- `duration.total_seconds() * 1000`, of a number of microseconds
  pub milliseconds : ℕ → F
  -- `math.isfinite(x) and x >= 0`
  pub is_finite_nonnegative : F → Bool

module _ {F : Type 0} (floats : Floats F) where
  unfoldable pub pcm_rms : List ℕ → Raising F
  unfolding iter_unpack square_sum
  pcm_rms pcm =
      let sample_count = length pcm / 2 in
      if length pcm % 2 == 0
      then returned (
          if sample_count == 0
          then floats.zero_point
          else floats.root_mean_square (square_sum (iter_unpack pcm)) sample_count)
      else raised length_odd

  unfoldable pub quality_levels : Quality → F × F × F
  quality_levels q =
      if q.sample_count == 0 then (floats.floor_dbfs, floats.zero_point, floats.zero_point) else (
        if q.peak == 0 then floats.floor_dbfs else floats.peak_dbfs q.peak,
        floats.percentage q.full_scale_count q.sample_count,
        floats.percentage q.silence_count q.sample_count,
      )

  unfoldable pub pcm_quality : List ℕ → Raising (F × F × F)
  unfolding quality_counts quality_levels
  pcm_quality pcm = elim (quality_counts pcm) [
    | raised error ↦ raised error
    | returned q ↦ returned (quality_levels q)
  ]

  unfoldable pub delta_db : F → F → F
  delta_db input_rms output_rms =
      if floats.is_positive input_rms && floats.is_positive output_rms
      then floats.gain_db input_rms output_rms
      else floats.zero_point
