-- ===== src/Observability/Observer/Stages.antt =====
-- The measurement of a stage: `VoxBenchObserver.observe_stage_audio` of
-- src/voxbench/observability/observer.py.
use voxbench.Base.{
  ℕ, ◌+◌, ◌*◌, ◌/◌, ◌%◌, String, Bool, true, false, ◌&&◌, Option, none, some, List, [], ◌∷◌, ◌++◌,
  ◌==◌, text_eq, length, if◌then◌else◌,
}
use voxbench.Base.Int.{ℤ}
use voxbench.Observability.Records.{
  MetricPoint, AudioChunk, TimelineEvent, pipeline, numbered, staged, text, integer, float, boolean,
  ObserverError, sample_rate_invalid, channels_invalid, frames_incomplete, Raising, returned,
  raised,
}
use voxbench.Observability.Pcm.{Discontinuity, detect_discontinuity, final_frame}
use voxbench.Observability.Levels.{Floats, pcm_rms, pcm_quality, delta_db}
use voxbench.Observability.Observer.{Observer, StagePcm, add_timeline_event}

-- The arguments, with the time that `ts` stands for.
pub record StageAudio (F : Type 0) : Type 0 where
  pub stage : String
  pub input_pcm_s16le : List ℕ
  pub output_pcm_s16le : List ℕ
  pub sample_rate_hz : ℕ
  pub channels : ℕ
  pub gain_applied : Option F
  pub record_output : Bool
  pub ts : ℕ

unfoldable pub get_stage : {F : Type 0} → String → List (String × StagePcm F) → Option (StagePcm F)
get_stage stage [] = none
get_stage stage ((key, value) ∷ rest) =
    if text_eq key stage then some value else get_stage stage rest

unfoldable pub set_stage :
    {F : Type 0} → String → StagePcm F → List (String × StagePcm F) → List (String × StagePcm F)
set_stage stage new [] = (stage, new) ∷ []
set_stage stage new ((key, value) ∷ rest) =
    let others = set_stage stage new rest in
    if text_eq key stage then (key, new) ∷ rest else (key, value) ∷ others

module _ {F : Type 0} (floats : Floats F) (a : StageAudio F) where
  unfoldable pub gain_metric : Option F → List (MetricPoint F)
  gain_metric none = []
  gain_metric (some gain) =
      record { stage = some a.stage; name = "gain_applied"; value = gain; ts = a.ts } ∷ []

  -- The metrics, from the levels of the input and of the output.
  unfoldable pub stage_metrics : F → F → F × F × F → List (MetricPoint F)
  unfolding delta_db gain_metric
  stage_metrics input_rms output_rms (sample_peak_dbfs, full_scale_sample_pct, silence_sample_pct) =
      let metric : String → F → MetricPoint F =
        λ name value. record { stage = some a.stage; name = name; value = value; ts = a.ts } in
      metric "input_rms" input_rms
      ∷ metric "output_rms" output_rms
      ∷ metric "delta_db" (delta_db floats input_rms output_rms)
      ∷ metric "sample_peak_dbfs" sample_peak_dbfs
      ∷ metric "full_scale_sample_pct" full_scale_sample_pct
      ∷ metric "silence_sample_pct" silence_sample_pct
      ∷ metric "audio_chunk_duration_ms"
          (floats.duration_ms (length a.output_pcm_s16le / 2) a.channels a.sample_rate_hz)
      ∷ gain_metric a.gain_applied

  -- The state of the stage, if it is of the same format.
  unfoldable pub same_format : Option (StagePcm F) → Option (StagePcm F)
  same_format none = none
  same_format (some prior) =
      if prior.sample_rate_hz == a.sample_rate_hz && prior.channels == a.channels
      then some prior
      else none

  -- `prior[2] if same_format and prior[2] else None`
  unfoldable pub previous_samples : Option (StagePcm F) → Option (List ℤ)
  previous_samples none = none
  previous_samples (some prior) = elim prior.final_samples [
    | [] ↦ none
    | sample ∷ samples ↦ some (sample ∷ samples)
  ]

  unfoldable pub media_frame_offset : Option (StagePcm F) → ℕ
  media_frame_offset none = 0
  media_frame_offset (some prior) = prior.frame_offset

  unfoldable pub last_incident : Option (StagePcm F) → Option F
  last_incident none = none
  last_incident (some prior) = prior.last_incident_ms

  unfoldable pub discontinuity_event : ℕ → F → Discontinuity → TimelineEvent F
  discontinuity_event ordinal media_time_ms found = record {
    event_id = numbered "pcm-discontinuity" ordinal;
    category = pipeline;
    name = "stage.pcm_discontinuity_detected";
    source = "pcm_adjacent_delta_detector";
    correlation_alias = some (staged "pcm-discontinuity" a.stage ordinal);
    clock_domain = "control_plane_wall";
    alignment_uncertainty_ms = none;
    direction = none;
    stage = some a.stage;
    stream_alias = none;
    attributes =
        ("media_time_ms", float media_time_ms)
        ∷ ("magnitude", float (floats.of_full_scale found.delta))
        ∷ ("channel", integer found.channel)
        ∷ ("detector_contract", text "pcm16_adjacent_delta_v1")
        ∷ ("sample_format", text "pcm_s16le")
        ∷ ("sample_rate_hz", integer a.sample_rate_hz)
        ∷ ("channels", integer a.channels)
        ∷ ("threshold", float floats.discontinuity_threshold)
        ∷ ("minimum_signal_level", float floats.min_signal_level)
        ∷ ("silence_treatment", text "ignore_when_both_samples_below_minimum")
        ∷ ("dedup_window_ms", float floats.dedup_ms)
        ∷ ("remote_playout_observed", boolean false)
        ∷ [];
    ts = a.ts;
  }

  unfoldable pub is_due : F → Option F → Bool
  is_due media_time_ms none = true
  is_due media_time_ms (some last) = floats.is_new_incident media_time_ms last

  -- The event of a discontinuity, unless it is too close to the last one; and the time of the last.
  unfoldable pub note_discontinuity :
      ℕ → Option F → Option Discontinuity → Observer F → Observer F × Option F
  unfolding discontinuity_event is_due
  note_discontinuity offset last none o = (o, last)
  note_discontinuity offset last (some found) o =
      let media_time_ms = floats.media_time_ms (offset + found.frame_offset) a.sample_rate_hz in
      if is_due media_time_ms last
      then (
        add_timeline_event (discontinuity_event o.discontinuity_ordinal media_time_ms found)
            (record o { discontinuity_ordinal = o.discontinuity_ordinal + 1 }),
        some media_time_ms,
      )
      else (o, last)

  unfoldable pub final_samples : Option (StagePcm F) → List ℤ
  unfolding final_frame
  final_samples prior = elim a.output_pcm_s16le [
    | octet ∷ octets ↦ final_frame (octet ∷ octets) a.channels
    | [] ↦ elim prior [ none ↦ [] | some p ↦ p.final_samples ]
  ]

  unfoldable pub recorded_chunk : List AudioChunk
  recorded_chunk = elim a.output_pcm_s16le [
    | [] ↦ []
    | octet ∷ octets ↦
        if a.record_output
        then record {
          stage = a.stage;
          pcm_s16le = a.output_pcm_s16le;
          sample_rate_hz = a.sample_rate_hz;
          channels = a.channels;
          ts = a.ts;
        }
          ∷ []
        else []
  ]

  -- The end of the locked section: the state of the stage, and the chunk.
  unfoldable pub keep_stage : Option (StagePcm F) → Observer F × Option F → Observer F
  unfolding media_frame_offset final_samples recorded_chunk set_stage
  keep_stage prior (o, last) = record o {
    stage_pcm_state =
        set_stage a.stage
          (record {
            sample_rate_hz = a.sample_rate_hz;
            channels = a.channels;
            final_samples = final_samples prior;
            frame_offset = media_frame_offset prior + length a.output_pcm_s16le / 2 / a.channels;
            last_incident_ms = last;
          })
          o.stage_pcm_state;
    audio_chunks = o.audio_chunks ++ recorded_chunk;
  }

  -- The locked section, after the metrics were added.
  unfoldable pub detect_stage : Option (StagePcm F) → Observer F → Observer F × Option ObserverError
  unfolding previous_samples last_incident media_frame_offset note_discontinuity keep_stage
      detect_discontinuity
  detect_stage prior o =
      elim (detect_discontinuity a.output_pcm_s16le a.channels (previous_samples prior)) [
        | raised error ↦ (o, some error)
        | returned found ↦ (
          keep_stage prior
              (note_discontinuity (media_frame_offset prior) (last_incident prior) found o),
          none,
        )
      ]

  unfoldable pub measure_stage : F → F → F × F × F → Observer F → Observer F × Option ObserverError
  unfolding stage_metrics same_format get_stage detect_stage
  measure_stage input_rms output_rms quality o =
      detect_stage (same_format (get_stage a.stage o.stage_pcm_state))
        (record o { metrics = o.metrics ++ stage_metrics input_rms output_rms quality })

  -- The checks of the levels raise before the lock is taken.
  unfoldable pub observe_levels :
      Raising F → Raising F → Raising (F × F × F) → Observer F → Observer F × Option ObserverError
  unfolding measure_stage
  observe_levels (raised error) output quality o = (o, some error)
  observe_levels (returned input_rms) (raised error) quality o = (o, some error)
  observe_levels (returned input_rms) (returned output_rms) (raised error) o = (o, some error)
  observe_levels (returned input_rms) (returned output_rms) (returned quality) o =
      measure_stage input_rms output_rms quality o

  -- The state, and what is raised.
  unfoldable pub observe_stage_audio : Observer F → Observer F × Option ObserverError
  unfolding observe_levels pcm_rms pcm_quality
  observe_stage_audio o =
      if a.sample_rate_hz == 0
      then (o, some sample_rate_invalid)
      else if a.channels == 0
      then (o, some channels_invalid)
      else if length a.output_pcm_s16le % (2 * a.channels) == 0
      then observe_levels (pcm_rms floats a.input_pcm_s16le) (pcm_rms floats a.output_pcm_s16le)
          (pcm_quality floats a.output_pcm_s16le) o
      else (o, some frames_incomplete)
