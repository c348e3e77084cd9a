-- ===== src/Observability/Observer/Observations.antt =====
-- Observations and flushes in any order, and what an observer without any flush would hold: for
-- `VoxBenchObserver` of src/voxbench/observability/observer.py.
use voxbench.Base.{ℕ, Bool, List, [], ◌∷◌, ◌++◌}
use voxbench.Observability.Records.{
  MetricPoint, SipEvent, RtpStats, TimelineEvent, RtpPacket, RtpCaptureHealthSnapshot,
}
use voxbench.Observability.Batches.{ObservationBatch}
use voxbench.Observability.Levels.{Floats}
use voxbench.Observability.Observer.{
  Observer, observe_metric, observe_sip_event, observe_rtp_stats, observe_rtp_packet,
  observe_rtp_capture_health, observe_timeline_event,
}
use voxbench.Observability.Observer.Stages.{StageAudio, observe_stage_audio}
use voxbench.Observability.Observer.Flushing.{flush}

pub data Observation (F : Type 0) : Type 0 where
  stage_audio : (audio : StageAudio F) → Observation F
  metric : (point : MetricPoint F) → Observation F
  sip_event : (event : SipEvent) → Observation F
  rtp_stats : (stats : RtpStats F) → Observation F
  rtp_packet : (packet : RtpPacket F) → Observation F
  rtp_capture_health : (snapshot : RtpCaptureHealthSnapshot F) → Observation F
  timeline_event : (event : TimelineEvent F) → Observation F

-- What happens to an observer: an observation, or a flush, with what its transport accepts and with
-- what other threads observe while it sends.
pub data Occurrence (F : Type 0) : Type 0 where
  observed : (observation : Observation F) → Occurrence F
  flushed : (accepts : ℕ → Bool) (meanwhile : List (Observation F)) → Occurrence F

-- The observations of a history, as if no flush were in it.
unfoldable pub observations : {F : Type 0} → List (Occurrence F) → List (Observation F)
observations [] = []
observations (observed x ∷ history) = x ∷ observations history
observations (flushed accepts meanwhile ∷ history) = meanwhile ++ observations history

module _ {F : Type 0} (floats : Floats F) where
  unfoldable pub observe : Observation F → Observer F → Observer F
  unfolding observe_stage_audio observe_metric observe_sip_event observe_rtp_stats
      observe_rtp_packet observe_rtp_capture_health observe_timeline_event
  observe (stage_audio audio) o = (observe_stage_audio floats audio o).0
  observe (metric point) o = observe_metric point o
  observe (sip_event event) o = observe_sip_event event o
  observe (rtp_stats stats) o = observe_rtp_stats stats o
  observe (rtp_packet packet) o = observe_rtp_packet packet o
  observe (rtp_capture_health snapshot) o = observe_rtp_capture_health floats snapshot o
  observe (timeline_event event) o = observe_timeline_event event o

  unfoldable pub observe_all : List (Observation F) → Observer F → Observer F
  unfolding observe
  observe_all [] o = o
  observe_all (x ∷ xs) o = observe_all xs (observe x o)

  -- The observer after a history, and all batches that were delivered in it.
  unfoldable pub run_history :
      List (Occurrence F) → Observer F → Observer F × List (ObservationBatch F)
  unfolding observe observe_all flush
  run_history [] o = (o, [])
  run_history (observed x ∷ history) o = run_history history (observe x o)
  run_history (flushed accepts meanwhile ∷ history) o =
      let done = flush accepts (observe_all meanwhile) o in
      let (o', delivered) = run_history history done.observer in (o', done.delivered ++ delivered)
