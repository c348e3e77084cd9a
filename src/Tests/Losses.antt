-- ===== src/Tests/Losses.antt =====
-- Three packets of a call, with two missing between them.
use voxbench.Base.{ℕ, ◌+◌, ◌*◌, ◌≡◌, refl, false, none, [], ◌∷◌, length, arith}
use voxbench.Observability.Records.{RtpPacket, received}
use voxbench.Observability.Observer.{new_observer}
use voxbench.Diagnostics.RtpPackets.{rtp_packet_discontinuity_evidence}
use voxbench.Diagnostics.RtpPackets.Lost.{missing_in}
use voxbench.Diagnostics.RtpPackets.Counted.{observe_packets, lost_packets}

abbrev packet : ℕ → ℕ → RtpPacket ℕ
packet sequence_number ts = record {
  stream_alias = "caller-leg";
  direction = received;
  sequence_number = sequence_number;
  rtp_timestamp = 160 * sequence_number;
  payload_type = 0;
  clock_rate_hz = 8_000;
  marker = false;
  clock_domain = "capture_wall";
  alignment_uncertainty_ms = none;
  ts = ts;
}

lost_packets_example :
    missing_in (
        rtp_packet_discontinuity_evidence 1_000
          (observe_packets 1_000
            (packet 65_534 2_000 ∷ packet 65_535 22_000 ∷ packet 2 82_000 ∷ [])
            (new_observer "run-1")).timeline_events)
      + 65_534
      + 2
    ≡ 65_538
lost_packets_example =
    lost_packets 1_000 "run-1" (packet 65_534 2_000) (packet 65_535 22_000 ∷ packet 2 82_000 ∷ [])
      65_534 65_538
      (
        (omega arith, omega arith, omega arith, omega arith, omega arith),
        (
          (omega arith, omega arith, omega arith, omega arith, omega arith),
          ((omega arith, omega arith, omega arith, omega arith, omega arith), tt),
        ),
      )
      (refl, refl, refl, omega arith, (refl, refl, refl, omega arith, tt)) refl
      (65_535, refl, omega arith, omega arith, (65_538, refl, omega arith, omega arith, refl))

stalled :
    length (
      rtp_packet_discontinuity_evidence 0
        (observe_packets 0
          (packet 7 0 ∷ packet 8 120_000 ∷ [])
          (new_observer "run-1")).timeline_events)
    ≡ 1
unfolding rtp_packet_discontinuity_evidence observe_packets new_observer
stalled = refl
