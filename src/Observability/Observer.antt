-- ===== src/Observability/Observer.antt =====
-- What an observer collects: `VoxBenchObserver` of src/voxbench/observability/observer.py. An
-- operation that holds the lock is one function on the state.
pub mod Stages
pub mod Flushing
pub mod Observations
pub mod Conserved
pub mod Delivered
pub mod Failing
pub mod Restoring
use voxbench.Base.{ℕ, suc, ◌+◌, String, Bool, Option, none, some, List, [], ◌∷◌, ◌++◌, length}
use voxbench.Base.Int.{ℤ}
use voxbench.Observability.Records.{
  MetricPoint, AudioChunk, SipEvent, RtpStats, TimelineEvent, RtpPacket, RtpCaptureHealthSnapshot,
  Continuity, verified, compromised, not_independently_verified, transport, given, numbered,
  Attribute, text, integer, float, boolean,
}
use voxbench.Observability.Levels.{Floats}

-- The last frame of a stage, how many frames it had, and when its last incident was.
pub record StagePcm (F : Type 0) : Type 0 where
  pub sample_rate_hz : ℕ
  pub channels : ℕ
  pub final_samples : List ℤ
  pub frame_offset : ℕ
  pub last_incident_ms : Option F

pub record Observer (F : Type 0) : Type 0 where
  pub run_id : String
  pub metrics : List (MetricPoint F)
  pub audio_chunks : List AudioChunk
  pub sip_events : List SipEvent
  pub rtp_stats : List (RtpStats F)
  pub timeline_events : List (TimelineEvent F)
  pub rtp_packet_ordinal : ℕ
  pub rtp_capture_health_ordinal : ℕ
  pub discontinuity_ordinal : ℕ
  pub stage_pcm_state : List (String × StagePcm F)

-- `VoxBenchObserver.__init__`
unfoldable pub new_observer : {F : Type 0} → String → Observer F
new_observer run_id = record {
  run_id = run_id;
  metrics = [];
  audio_chunks = [];
  sip_events = [];
  rtp_stats = [];
  timeline_events = [];
  rtp_packet_ordinal = 0;
  rtp_capture_health_ordinal = 0;
  discontinuity_ordinal = 0;
  stage_pcm_state = [];
}

unfoldable pub continuity_text : Continuity → String
continuity_text verified = "verified"
continuity_text compromised = "compromised"
continuity_text not_independently_verified = "not independently verified"

module _ {F : Type 0} where
  unfoldable pub pending_count : Observer F → ℕ
  pending_count o =
      length o.metrics
      + length o.audio_chunks
      + length o.sip_events
      + length o.rtp_stats
      + length o.timeline_events

  abbrev pub add_timeline_event : TimelineEvent F → Observer F → Observer F
  add_timeline_event event o = record o { timeline_events = o.timeline_events ++ event ∷ [] }

  unfoldable pub observe_metric : MetricPoint F → Observer F → Observer F
  observe_metric metric o = record o { metrics = o.metrics ++ metric ∷ [] }

  unfoldable pub observe_sip_event : SipEvent → Observer F → Observer F
  observe_sip_event event o = record o { sip_events = o.sip_events ++ event ∷ [] }

  unfoldable pub observe_rtp_stats : RtpStats F → Observer F → Observer F
  observe_rtp_stats stats o = record o { rtp_stats = o.rtp_stats ++ stats ∷ [] }

  unfoldable pub observe_timeline_event : TimelineEvent F → Observer F → Observer F
  observe_timeline_event event o = add_timeline_event event o

  unfoldable pub packet_event : ℕ → RtpPacket F → TimelineEvent F
  packet_event ordinal packet = record {
    event_id = numbered "rtp-packet" ordinal;
    category = transport;
    name = "rtp.packet_arrived";
    source = "rtp_packet_header_observer";
    correlation_alias = some (given packet.stream_alias);
    clock_domain = packet.clock_domain;
    alignment_uncertainty_ms = packet.alignment_uncertainty_ms;
    direction = some packet.direction;
    stage = none;
    stream_alias = some packet.stream_alias;
    attributes =
        ("sequence_number", integer packet.sequence_number)
        ∷ ("rtp_timestamp", integer packet.rtp_timestamp)
        ∷ ("payload_type", integer packet.payload_type)
        ∷ ("clock_rate_hz", integer packet.clock_rate_hz)
        ∷ ("marker", boolean packet.marker)
        ∷ [];
    ts = packet.ts;
  }

  unfoldable pub observe_rtp_packet : RtpPacket F → Observer F → Observer F
  unfolding packet_event
  observe_rtp_packet packet o =
      add_timeline_event (packet_event o.rtp_packet_ordinal packet)
        (record o { rtp_packet_ordinal = o.rtp_packet_ordinal + 1 })

  -- The window is kept in microseconds here, and given in milliseconds.
  unfoldable pub health_event : Floats F → ℕ → RtpCaptureHealthSnapshot F → TimelineEvent F
  unfolding continuity_text
  health_event floats ordinal snapshot = record {
    event_id = numbered "rtp-capture-health" ordinal;
    category = transport;
    name = "rtp.capture_health_reported";
    source = "rtp_packet_tap_adapter";
    correlation_alias = some (given snapshot.stream_alias);
    clock_domain = snapshot.clock_domain;
    alignment_uncertainty_ms = snapshot.alignment_uncertainty_ms;
    direction = some snapshot.direction;
    stage = none;
    stream_alias = some snapshot.stream_alias;
    attributes =
        ("observed_packet_count", integer snapshot.observed_packet_count)
        ∷ ("capture_drop_count", integer snapshot.capture_drop_count)
        ∷ ("decode_error_count", integer snapshot.decode_error_count)
        ∷ ("capture_drop_counter_supported", boolean snapshot.capture_drop_counter_supported)
        ∷ ("capture_point_continuity", text (continuity_text snapshot.continuity))
        ∷ ("window_duration_ms", float (floats.milliseconds snapshot.window_duration_us))
        ∷ [];
    ts = snapshot.ts;
  }

  unfoldable pub observe_rtp_capture_health :
      Floats F → RtpCaptureHealthSnapshot F → Observer F → Observer F
  unfolding health_event
  observe_rtp_capture_health floats snapshot o =
      add_timeline_event (health_event floats o.rtp_capture_health_ordinal snapshot)
        (record o { rtp_capture_health_ordinal = o.rtp_capture_health_ordinal + 1 })
