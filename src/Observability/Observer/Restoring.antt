-- ===== src/Observability/Observer/Restoring.antt =====
-- An observation is made alike before and after older items are put back in front.
use voxbench.Base.{
  ℕ, ◌+◌, ◌≡◌, refl, ap, inl, inr, Option, none, some, List, [], ◌∷◌, ◌++◌, ◌==◌, ◌%◌, ◌*◌,
  append_assoc, length, Bool-cases,
}
use voxbench.Observability.Records.{ObserverError, Raising, returned, raised}
use voxbench.Observability.Batches.{ObservationBatch}
use voxbench.Observability.Pcm.{Discontinuity, detect_discontinuity}
use voxbench.Observability.Levels.{Floats, pcm_rms, pcm_quality}
use voxbench.Observability.Observer.{
  Observer, StagePcm, observe_metric, observe_sip_event, observe_rtp_stats, observe_rtp_packet,
  observe_rtp_capture_health, observe_timeline_event,
}
use voxbench.Observability.Observer.Stages.{
  StageAudio, get_stage, same_format, previous_samples, media_frame_offset, last_incident, is_due,
  note_discontinuity, keep_stage, detect_stage, measure_stage, observe_levels, observe_stage_audio,
  stage_metrics,
}
use voxbench.Observability.Observer.Flushing.{restored}
use voxbench.Observability.Observer.Observations.{
  Observation, stage_audio, metric, sip_event, rtp_stats, rtp_packet, rtp_capture_health,
  timeline_event, observe, observe_all,
}

module _ {F : Type 0} (floats : Floats F) (m : ObservationBatch F) where
  module _ (a : StageAudio F) where
    note-restored :
        (offset : ℕ) (last : Option F) (found : Option Discontinuity) (o : Observer F)
        → note_discontinuity floats a offset last found (restored m o) ≡ (
          restored m (note_discontinuity floats a offset last found o).0,
          (note_discontinuity floats a offset last found o).1,
        )
    unfolding note_discontinuity restored
    note-restored offset last none o = refl
    note-restored offset last (some found) o =
        elim (Bool-cases (
          is_due floats a (floats.media_time_ms (offset + found.frame_offset) a.sample_rate_hz)
            last)) [ inl y ↦ rw (y, append_assoc) refl | inr n ↦ rw n refl ]

    keep-restored :
        (prior : Option (StagePcm F)) (o : Observer F) (last : Option F)
        → keep_stage floats a prior (restored m o, last)
          ≡ restored m (keep_stage floats a prior (o, last))
    unfolding keep_stage restored
    keep-restored prior o last = rw (append_assoc) refl

    after_restoring : Observer F × Option ObserverError → Observer F × Option ObserverError
    after_restoring (o, error) = (restored m o, error)

    detect-restored :
        (prior : Option (StagePcm F)) (o : Observer F)
        → detect_stage floats a prior (restored m o)
          ≡ after_restoring (detect_stage floats a prior o)
    unfolding detect_stage after_restoring
    detect-restored prior o =
        split (detect_discontinuity a.output_pcm_s16le a.channels (previous_samples floats a prior))
      where
        noted : Option Discontinuity → Observer F → Observer F × Option F
        noted found o =
            note_discontinuity floats a (media_frame_offset floats a prior)
              (last_incident floats a prior) found o

        split :
            (r : Raising (Option Discontinuity))
            → elim r [
              | raised error ↦ (restored m o, some error)
              | returned found ↦ (keep_stage floats a prior (noted found (restored m o)), none)
            ]
              ≡ after_restoring (elim r [
                | raised error ↦ (o, some error)
                | returned found ↦ (keep_stage floats a prior (noted found o), none)
              ])
        split (raised error) = refl
        split (returned found) =
            rw
              (
                note-restored (media_frame_offset floats a prior) (last_incident floats a prior)
                    found o,
                keep-restored prior (noted found o).0 (noted found o).1,
              )
              refl

    measure-restored :
        (input_rms output_rms : F) (quality : F × F × F) (o : Observer F)
        → measure_stage floats a input_rms output_rms quality (restored m o)
          ≡ after_restoring (measure_stage floats a input_rms output_rms quality o)
    unfolding measure_stage restored
    measure-restored input_rms output_rms quality o = rw append_assoc (
        detect-restored (same_format floats a (get_stage a.stage o.stage_pcm_state))
          (record o { metrics = o.metrics ++ stage_metrics floats a input_rms output_rms quality }))

    levels-restored :
        (input output : Raising F) (quality : Raising (F × F × F)) (o : Observer F)
        → observe_levels floats a input output quality (restored m o)
          ≡ after_restoring (observe_levels floats a input output quality o)
    unfolding observe_levels after_restoring
    levels-restored (raised error) output quality o = refl
    levels-restored (returned i) (raised error) quality o = refl
    levels-restored (returned i) (returned r) (raised error) o = refl
    levels-restored (returned i) (returned r) (returned q) o = measure-restored i r q o

    audio-restored :
        (o : Observer F)
        → observe_stage_audio floats a (restored m o)
          ≡ after_restoring (observe_stage_audio floats a o)
    unfolding observe_stage_audio after_restoring
    audio-restored o = elim (Bool-cases (a.sample_rate_hz == 0)) [
      | inl y ↦ rw y refl
      | inr n ↦ elim (Bool-cases (a.channels == 0)) [
        | inl y ↦ rw (n, y) refl
        | inr n' ↦ elim (Bool-cases (length a.output_pcm_s16le % (2 * a.channels) == 0)) [
          | inr n'' ↦ rw (n, n', n'') refl
          | inl y ↦
              rw (n, n', y)
                (levels-restored (pcm_rms floats a.input_pcm_s16le)
                  (pcm_rms floats a.output_pcm_s16le) (pcm_quality floats a.output_pcm_s16le) o)
        ]
      ]
    ]

  observe-restored :
      (x : Observation F) (o : Observer F)
      → observe floats x (restored m o) ≡ restored m (observe floats x o)
  unfolding observe
  observe-restored (stage_audio audio) o =
      unfold after_restoring in ap (λ r. r.0) (audio-restored audio o)
  observe-restored (metric point) o = unfold observe_metric restored in rw append_assoc refl
  observe-restored (sip_event event) o = unfold observe_sip_event restored in rw append_assoc refl
  observe-restored (rtp_stats stats) o = unfold observe_rtp_stats restored in rw append_assoc refl
  observe-restored (rtp_packet packet) o =
      unfold observe_rtp_packet restored in rw append_assoc refl
  observe-restored (rtp_capture_health snapshot) o =
      unfold observe_rtp_capture_health restored in rw append_assoc refl
  observe-restored (timeline_event event) o =
      unfold observe_timeline_event restored in rw append_assoc refl

  pub observe_all-restored :
      (xs : List (Observation F)) (o : Observer F)
      → observe_all floats xs (restored m o) ≡ restored m (observe_all floats xs o)
  unfolding observe_all
  observe_all-restored [] o = refl
  observe_all-restored (x ∷ xs) o =
      rw (observe-restored x o) (observe_all-restored xs (observe floats x o))
