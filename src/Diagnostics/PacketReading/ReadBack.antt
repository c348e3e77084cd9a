-- ===== src/Diagnostics/PacketReading/ReadBack.antt =====
-- A packet that an observer has seen is read back with all its fields:
-- `VoxBenchObserver.observe_rtp_packet` of src/voxbench/observability/observer.py and
-- `_rtp_packet_observations` of src/voxbench/control_plane/run_api.py.
use voxbench.Base.{
  ℕ, ◌+◌, ◌-◌, ◌≤◌, ◌≡◌, refl, ap, ◌∙◌, true, none, some, List, [], ◌∷◌, leb, le→leb, All, arith,
}
use voxbench.Observability.Records.{RtpPacket, TimelineEvent}
use voxbench.Observability.Observer.{packet_event}
use voxbench.Diagnostics.PacketReading.{
  PacketObservation, packet_observation, packet_observations, read_packet, with_fields, bounded_int,
  get_attribute,
}

abbrev pub FitsHeader : {F : Type 0} → RtpPacket F → Type 0
FitsHeader p =
    (p.sequence_number ≤ 65_535)
    × (p.rtp_timestamp ≤ 4_294_967_295)
    × (p.payload_type ≤ 127)
    × (1 ≤ p.clock_rate_hz)
    × (p.clock_rate_hz ≤ 384_000)

-- The events of packets, numbered from `n`, and what is read of them.
unfoldable pub packet_events : {F : Type 0} → ℕ → List (RtpPacket F) → List (TimelineEvent F)
packet_events n [] = []
packet_events n (p ∷ packets) = packet_event n p ∷ packet_events (n + 1) packets

module _ {F : Type 0} (started_at : ℕ) where
  unfoldable pub observation_of : ℕ → RtpPacket F → PacketObservation
  observation_of ordinal p = record {
    event_ordinal = ordinal;
    direction = p.direction;
    stream_alias = p.stream_alias;
    clock_domain = p.clock_domain;
    t_rel_us = p.ts - started_at;
    sequence_number = p.sequence_number;
    rtp_timestamp = p.rtp_timestamp;
    payload_type = p.payload_type;
    clock_rate_hz = p.clock_rate_hz;
    marker = p.marker;
  }

  -- A packet that was observed is read back.
  packet_event-read :
      (ordinal n : ℕ) (p : RtpPacket F)
      → FitsHeader p
      → packet_observation started_at ordinal (packet_event n p) ≡ some (observation_of ordinal p)
  unfolding packet_observation packet_event read_packet with_fields bounded_int get_attribute
      observation_of
  packet_event-read ordinal n p fits =
      let low : (k : ℕ) → leb 0 k ≡ true = λ k. le→leb 0 k (omega arith) in
      rw
        (
          low p.sequence_number,
          low p.rtp_timestamp,
          low p.payload_type,
          le→leb p.sequence_number 65_535 fits.0,
          le→leb p.rtp_timestamp 4_294_967_295 fits.1,
          le→leb p.payload_type 127 fits.2,
          le→leb 1 p.clock_rate_hz fits.3,
          le→leb p.clock_rate_hz 384_000 fits.4,
        )
        refl

  unfoldable pub observations_of : ℕ → List (RtpPacket F) → List PacketObservation
  observations_of ordinal [] = []
  observations_of ordinal (p ∷ packets) =
      observation_of ordinal p ∷ observations_of (ordinal + 1) packets

  pub packet_events-read :
      (ordinal n : ℕ) (packets : List (RtpPacket F))
      → All FitsHeader packets
      → packet_observations started_at ordinal (packet_events n packets)
        ≡ observations_of ordinal packets
  unfolding packet_observations packet_events observations_of
  packet_events-read ordinal n [] fits = refl
  packet_events-read ordinal n (p ∷ packets) fits =
      let rest = packet_observations started_at (ordinal + 1) (packet_events (n + 1) packets) in
      ap (λ o. elim o [ none ↦ rest | some item ↦ item ∷ rest ])
        (packet_event-read ordinal n p fits.0)
      ∙ ap (λ (items : List PacketObservation). observation_of ordinal p ∷ items)
          (packet_events-read (ordinal + 1) (n + 1) packets fits.1)
