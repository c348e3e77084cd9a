-- ===== src/Observability/Tap/History.antt =====
-- Histories of an adapter, and what is counted in them: for `RtpPacketTapAdapter` of
-- src/voxbench/observability/observer.py.
use voxbench.Base.{ℕ, ◌+◌, ◌<◌, Bool, not, List, [], ◌∷◌, All, if◌then◌else◌}
use voxbench.Observability.Records.{RtpCaptureHealthSnapshot, Raising, returned, raised}
use voxbench.Observability.Levels.{Floats}
use voxbench.Observability.Rtp.Headers.{decodes}
use voxbench.Observability.Observer.{Observer}
use voxbench.Observability.Tap.{Tap, observe_datagram, record_capture_drop, report_health}

-- What happens to an adapter.
pub data TapEvent : Type 0 where
  datagram_seen : (datagram : List ℕ) (ts : ℕ) → TapEvent
  packets_dropped : (count : ℕ) → TapEvent
  health_reported : (ts : ℕ) → TapEvent

-- The numbers of packets, of drops and of datagrams that are not decoded; and of reports.
pub record Totals : Type 0 where
  pub packets : ℕ
  pub drops : ℕ
  pub errors : ℕ
  pub reports : ℕ

abbrev pub add_totals : Totals → Totals → Totals
add_totals a b = record {
  packets = a.packets + b.packets;
  drops = a.drops + b.drops;
  errors = a.errors + b.errors;
  reports = a.reports + b.reports;
}

abbrev pub counted : Bool → ℕ
counted b = if b then 1 else 0

-- What an event counts for.
abbrev pub event_totals : TapEvent → Totals
event_totals (datagram_seen datagram ts) = record {
  packets = counted (decodes datagram);
  drops = 0;
  errors = counted (not (decodes datagram));
  reports = 0;
}
event_totals (packets_dropped count) = record {
  packets = 0;
  drops = count;
  errors = 0;
  reports = 0;
}
event_totals (health_reported ts) = record { packets = 0; drops = 0; errors = 0; reports = 1 }

abbrev pub window_totals : {F : Type 0} → Tap F → Totals
window_totals tap = record {
  packets = tap.observed_packet_count;
  drops = tap.capture_drop_count;
  errors = tap.decode_error_count;
  reports = 0;
}

abbrev pub report_totals : {F : Type 0} → Raising (RtpCaptureHealthSnapshot F) → Totals
report_totals (raised error) = record { packets = 0; drops = 0; errors = 0; reports = 0 }
report_totals (returned s) = record {
  packets = s.observed_packet_count;
  drops = s.capture_drop_count;
  errors = s.decode_error_count;
  reports = 1;
}

abbrev pub no_totals : Totals
no_totals = record { packets = 0; drops = 0; errors = 0; reports = 0 }

unfoldable pub history_totals : List TapEvent → Totals
history_totals [] = no_totals
history_totals (event ∷ events) = add_totals (event_totals event) (history_totals events)

abbrev pub OctetsOf : TapEvent → Type 0
OctetsOf (datagram_seen datagram ts) = All (λ octet. octet < 256) datagram
OctetsOf (packets_dropped count) = Unit
OctetsOf (health_reported ts) = Unit

module _ {F : Type 0} (floats : Floats F) where
  -- One event: the adapter, the observer, and what was reported.
  unfoldable pub tap_event : TapEvent → Tap F → Observer F → Tap F × Observer F × Totals
  unfolding observe_datagram record_capture_drop report_health
  tap_event (datagram_seen datagram ts) tap o =
      let (tap', o', reply) = observe_datagram floats datagram ts tap o in (tap', o', no_totals)
  tap_event (packets_dropped count) tap o = ((record_capture_drop count tap).0, o, no_totals)
  tap_event (health_reported ts) tap o =
      let (tap', o', reply) = report_health floats ts tap o in (tap', o', report_totals reply)

  unfoldable pub tap_history : List TapEvent → Tap F → Observer F → Tap F × Observer F × Totals
  unfolding tap_event
  tap_history [] tap o = (tap, o, no_totals)
  tap_history (event ∷ events) tap o =
      let (tap', o', reported) = tap_event event tap o in
      let (tap'', o'', later) = tap_history events tap' o' in
      (tap'', o'', add_totals reported later)
