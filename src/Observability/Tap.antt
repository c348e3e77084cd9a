-- ===== src/Observability/Tap.antt =====
-- The adapter between a packet capture and an observer: `RtpPacketTapAdapter` of
-- src/voxbench/observability/observer.py. An operation takes the adapter and its observer.
pub mod History
pub mod Accounting
use voxbench.Base.{
  ℕ, zero, suc, ◌+◌, ◌-◌, String, Bool, true, Option, none, some, List, [], ◌∷◌, ◌==◌,
  if◌then◌else◌,
}
use voxbench.Observability.Records.{
  RtpDirection, RtpPacket, RtpCaptureHealthSnapshot, Continuity, verified, compromised,
  not_independently_verified, ObserverError, drop_count_invalid, Raising, returned, raised,
}
use voxbench.Observability.Levels.{Floats}
use voxbench.Observability.Rtp.{Stream, new_packet, rtp_packet_from_datagram, new_snapshot}
use voxbench.Observability.Observer.{Observer, observe_rtp_packet, observe_rtp_capture_health}

pub record Tap (F : Type 0) : Type 0 where
  pub stream : Stream F
  pub capture_drop_counter_supported : Bool
  pub window_started_at : ℕ
  pub observed_packet_count : ℕ
  pub capture_drop_count : ℕ
  pub decode_error_count : ℕ

-- The packet by which `__init__` validates the arguments.
unfoldable pub validation_packet : {F : Type 0} → Stream F → ℕ → RtpPacket F
validation_packet stream now = record {
  stream_alias = stream.stream_alias;
  direction = stream.direction;
  sequence_number = 0;
  rtp_timestamp = 0;
  payload_type = 0;
  clock_rate_hz = stream.clock_rate_hz;
  marker = Bool.false;
  clock_domain = stream.clock_domain;
  alignment_uncertainty_ms = stream.alignment_uncertainty_ms;
  ts = now;
}

-- The adapter, and what is raised.
unfoldable pub record_capture_drop : {F : Type 0} → ℕ → Tap F → Tap F × Option ObserverError
record_capture_drop count tap = if count == 0 then (tap, some drop_count_invalid) else (
  record tap {
    capture_drop_counter_supported = true;
    capture_drop_count = tap.capture_drop_count + count;
  },
  none,
)

module _ {F : Type 0} (floats : Floats F) where
  unfoldable pub new_tap : Stream F → Bool → ℕ → Raising (Tap F)
  unfolding new_packet validation_packet
  new_tap stream supported started_at =
      elim (new_packet floats (validation_packet stream started_at)) [
        | raised error ↦ raised error
        | returned packet ↦ returned (record {
          stream = record {
            stream_alias = packet.stream_alias;
            direction = packet.direction;
            clock_rate_hz = packet.clock_rate_hz;
            clock_domain = packet.clock_domain;
            alignment_uncertainty_ms = packet.alignment_uncertainty_ms;
          };
          capture_drop_counter_supported = supported;
          window_started_at = started_at;
          observed_packet_count = 0;
          capture_drop_count = 0;
          decode_error_count = 0;
        })
      ]

  unfoldable pub tap_continuity : Tap F → Continuity
  tap_continuity tap = elim tap.capture_drop_count [
    | suc n ↦ compromised
    | zero ↦ elim tap.decode_error_count [
      | suc n ↦ compromised
      | zero ↦ if tap.capture_drop_counter_supported then verified else not_independently_verified
    ]
  ]

  unfoldable pub window_snapshot : ℕ → Tap F → RtpCaptureHealthSnapshot F
  unfolding tap_continuity
  window_snapshot reported_at tap = record {
    stream_alias = tap.stream.stream_alias;
    direction = tap.stream.direction;
    observed_packet_count = tap.observed_packet_count;
    capture_drop_count = tap.capture_drop_count;
    decode_error_count = tap.decode_error_count;
    capture_drop_counter_supported = tap.capture_drop_counter_supported;
    continuity = tap_continuity tap;
    window_duration_us = reported_at - tap.window_started_at;
    clock_domain = tap.stream.clock_domain;
    alignment_uncertainty_ms = tap.stream.alignment_uncertainty_ms;
    ts = reported_at;
  }

  -- `_snapshot`
  unfoldable pub tap_snapshot : ℕ → Tap F → Raising (RtpCaptureHealthSnapshot F)
  unfolding window_snapshot new_snapshot
  tap_snapshot reported_at tap = new_snapshot floats (window_snapshot reported_at tap)

  -- After the attempt to decode the datagram.
  unfoldable pub observe_decoded :
      Raising (RtpPacket F) → Tap F → Observer F → Tap F × Observer F × Raising (RtpPacket F)
  observe_decoded (raised error) tap o =
      (record tap { decode_error_count = tap.decode_error_count + 1 }, o, raised error)
  observe_decoded (returned packet) tap o = (
    record tap { observed_packet_count = tap.observed_packet_count + 1 },
    observe_rtp_packet packet o,
    returned packet,
  )

  unfoldable pub observe_datagram :
      List ℕ → ℕ → Tap F → Observer F → Tap F × Observer F × Raising (RtpPacket F)
  unfolding observe_decoded
  observe_datagram datagram ts tap o =
      observe_decoded (rtp_packet_from_datagram floats tap.stream ts datagram) tap o

  unfoldable pub report_snapshot :
      ℕ
      → Raising (RtpCaptureHealthSnapshot F)
      → Tap F
      → Observer F
      → Tap F × Observer F × Raising (RtpCaptureHealthSnapshot F)
  report_snapshot reported_at (raised error) tap o = (tap, o, raised error)
  report_snapshot reported_at (returned snapshot) tap o = (
    record tap {
      window_started_at = reported_at;
      observed_packet_count = 0;
      capture_drop_count = 0;
      decode_error_count = 0;
    },
    observe_rtp_capture_health floats snapshot o,
    returned snapshot,
  )

  unfoldable pub report_health :
      ℕ → Tap F → Observer F → Tap F × Observer F × Raising (RtpCaptureHealthSnapshot F)
  unfolding tap_snapshot report_snapshot
  report_health reported_at tap o = report_snapshot reported_at (tap_snapshot reported_at tap) tap o
