-- ===== src/Diagnostics/PacketReading.antt =====
-- Packets read off a timeline: the loop of `_rtp_packet_observations` of
-- src/voxbench/control_plane/run_api.py. The events are those of an observer, and times are
-- microseconds.
pub mod ReadBack
use voxbench.Base.{
  ℕ, zero, suc, ◌+◌, ◌-◌, ◌*◌, ◌%◌, String, Bool, true, false, ◌&&◌, ◌||◌, Option, none, some, List,
  [], ◌∷◌, ◌++◌, leb, ltb, ◌==◌, text_eq, length, if◌then◌else◌,
}
use voxbench.Observability.Records.{
  TimelineEvent, Attribute, integer, boolean, RtpDirection, received, sent,
}

-- `attributes.get(name)`
unfoldable pub get_attribute :
    {F : Type 0} → String → List (String × Attribute F) → Option (Attribute F)
get_attribute name [] = none
get_attribute name ((key, value) ∷ rest) =
    if text_eq key name then some value else get_attribute name rest

-- `_bounded_int_attribute`
unfoldable pub bounded_int : {F : Type 0} → ℕ → ℕ → Option (Attribute F) → Option ℕ
bounded_int minimum maximum (some (integer value)) =
    if leb minimum value && leb value maximum then some value else none
bounded_int minimum maximum _ = none

pub record PacketObservation : Type 0 where
  pub event_ordinal : ℕ
  pub direction : RtpDirection
  pub stream_alias : String
  pub clock_domain : String
  pub t_rel_us : ℕ
  pub sequence_number : ℕ
  pub rtp_timestamp : ℕ
  pub payload_type : ℕ
  pub clock_rate_hz : ℕ
  pub marker : Bool

module _ {F : Type 0} (started_at : ℕ) where
  -- The observation, if all fields could be read.
  unfoldable pub with_fields :
      ℕ
      → TimelineEvent F
      → String
      → RtpDirection
      → Option ℕ
      → Option ℕ
      → Option ℕ
      → Option ℕ
      → Option (Attribute F)
      → Option PacketObservation
  with_fields ordinal event alias direction (some sequence) (some timestamp) (some payload)
        (some rate) (some (boolean marker)) =
      some (record {
        event_ordinal = ordinal;
        direction = direction;
        stream_alias = alias;
        clock_domain = event.clock_domain;
        t_rel_us = event.ts - started_at;
        sequence_number = sequence;
        rtp_timestamp = timestamp;
        payload_type = payload;
        clock_rate_hz = rate;
        marker = marker;
      })
  with_fields ordinal event alias direction _ _ _ _ _ = none

  unfoldable pub read_packet :
      ℕ → TimelineEvent F → Option String → Option RtpDirection → Option PacketObservation
  unfolding with_fields bounded_int get_attribute
  read_packet ordinal event (some alias) (some direction) =
      with_fields ordinal event alias direction
        (bounded_int 0 65_535 (get_attribute "sequence_number" event.attributes))
        (bounded_int 0 4_294_967_295 (get_attribute "rtp_timestamp" event.attributes))
        (bounded_int 0 127 (get_attribute "payload_type" event.attributes))
        (bounded_int 1 384_000 (get_attribute "clock_rate_hz" event.attributes))
        (get_attribute "marker" event.attributes)
  read_packet ordinal event _ _ = none

  unfoldable pub packet_observation : ℕ → TimelineEvent F → Option PacketObservation
  unfolding read_packet
  packet_observation ordinal event =
      if text_eq event.name "rtp.packet_arrived"
      then read_packet ordinal event event.stream_alias event.direction
      else none

  -- In the order of the timeline, from the ordinal on.
  unfoldable pub packet_observations : ℕ → List (TimelineEvent F) → List PacketObservation
  unfolding packet_observation
  packet_observations ordinal [] = []
  packet_observations ordinal (event ∷ events) =
      let rest = packet_observations (ordinal + 1) events in
      elim (packet_observation ordinal event) [ none ↦ rest | some item ↦ item ∷ rest ]
