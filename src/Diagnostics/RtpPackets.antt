-- ===== src/Diagnostics/RtpPackets.antt =====
-- Gaps and stalls in RTP streams: `_rtp_packet_observations` and `_rtp_packet_discontinuity_evidence`
-- of src/voxbench/control_plane/run_api.py, but for the capture health that is joined to a gap. The
-- events are those of an observer. Times are microseconds: a delay in milliseconds is compared as a
-- fraction, by its numerators.
pub mod Lost
pub mod Grouping
pub mod Counted
use Prim.Native.Nat.{Ordering}
use Prim.Native.String.{compare}
use voxbench.Base.{
  ℕ, zero, suc, ◌+◌, ◌-◌, ◌*◌, ◌%◌, String, Bool, true, false, ◌&&◌, ◌||◌, Option, none, some, List,
  [], ◌∷◌, ◌++◌, leb, ltb, ◌==◌, text_eq, length, if◌then◌else◌,
}
use voxbench.Diagnostics.PacketReading.{PacketObservation, packet_observations}
use voxbench.Observability.Records.{
  TimelineEvent, Attribute, integer, boolean, RtpDirection, received, sent,
}

-- `sorted`, which is stable: by insertion from the end.
module _ {A : Type 0} (before : A → A → Bool) where
  unfoldable pub insert : A → List A → List A
  insert x [] = x ∷ []
  insert x (y ∷ ys) = let rest = insert x ys in if before y x then y ∷ rest else x ∷ y ∷ ys

  unfoldable pub sorted : List A → List A
  unfolding insert
  sorted [] = []
  sorted (x ∷ xs) = insert x (sorted xs)

pub data DiscontinuityKind : Type 0 where
  sequence_gap arrival_stall : DiscontinuityKind

pub record PacketDiscontinuity : Type 0 where
  pub evidence_index : ℕ
  pub kind : DiscontinuityKind
  pub previous : PacketObservation
  pub current : PacketObservation
  pub sequence_delta : ℕ
  pub missing_packet_count : ℕ
  pub arrival_gap_us : ℕ

-- `(current - previous) % 65_536` and `% 4_294_967_296`
abbrev pub sequence_delta_of : PacketObservation → PacketObservation → ℕ
sequence_delta_of previous current =
    (current.sequence_number + 65_536 - previous.sequence_number) % 65_536

abbrev pub timestamp_delta_of : PacketObservation → PacketObservation → ℕ
timestamp_delta_of previous current =
    (current.rtp_timestamp + 4_294_967_296 - previous.rtp_timestamp) % 4_294_967_296

-- `excess_arrival_delay_ms >= RTP_ARRIVAL_STALL_EXCESS_MS`, for packets of one clock rate.
unfoldable pub is_stalled : PacketObservation → PacketObservation → Bool
is_stalled previous current =
    current.clock_rate_hz == previous.clock_rate_hz
    && leb (timestamp_delta_of previous current * 1_000_000 + 100_000 * current.clock_rate_hz)
        ((current.t_rel_us - previous.t_rel_us) * current.clock_rate_hz)

unfoldable pub judge_pair : ℕ → PacketObservation → PacketObservation → Option PacketDiscontinuity
unfolding is_stalled
judge_pair index previous current =
    let delta = sequence_delta_of previous current in
    let evidence : DiscontinuityKind → ℕ → PacketDiscontinuity = λ kind missing. record {
      evidence_index = index;
      kind = kind;
      previous = previous;
      current = current;
      sequence_delta = delta;
      missing_packet_count = missing;
      arrival_gap_us = current.t_rel_us - previous.t_rel_us;
    } in
    if ltb 1 delta && ltb delta 32_768
    then some (evidence sequence_gap (delta - 1))
    else if delta == 1 && is_stalled previous current
    then some (evidence arrival_stall 0)
    else none

-- `for previous, current in pairwise(packets)`, after the packet `previous` and `index` pieces of
-- evidence.
unfoldable pub judge_pairs :
    ℕ → PacketObservation → List PacketObservation → List PacketDiscontinuity
unfolding judge_pair
judge_pairs index previous [] = []
judge_pairs index previous (current ∷ packets) = elim (judge_pair index previous current) [
  | none ↦ judge_pairs index current packets
  | some found ↦ found ∷ judge_pairs (index + 1) current packets
]

-- The packets of one stream, direction and clock domain, as `grouped` holds them.
pub record PacketStream : Type 0 where
  pub first : PacketObservation
  pub others : List PacketObservation

abbrev pub same_direction : RtpDirection → RtpDirection → Bool
same_direction received received = true
same_direction sent sent = true
same_direction _ _ = false

abbrev pub same_stream : PacketObservation → PacketObservation → Bool
same_stream a b =
    text_eq a.stream_alias b.stream_alias
    && same_direction a.direction b.direction
    && text_eq a.clock_domain b.clock_domain

-- `grouped.setdefault(key, []).append(item)`
unfoldable pub add_to_stream : PacketObservation → List PacketStream → List PacketStream
add_to_stream item [] = record { first = item; others = [] } ∷ []
add_to_stream item (stream ∷ streams) =
    let rest = add_to_stream item streams in
    if same_stream stream.first item
    then record stream { others = stream.others ++ item ∷ [] } ∷ streams
    else stream ∷ rest

unfoldable pub group_streams : List PacketObservation → List PacketStream → List PacketStream
unfolding add_to_stream
group_streams [] streams = streams
group_streams (item ∷ items) streams = group_streams items (add_to_stream item streams)

unfoldable pub judge_streams : ℕ → List PacketStream → List PacketDiscontinuity
unfolding judge_pairs
judge_streams index [] = []
judge_streams index (stream ∷ streams) =
    let found = judge_pairs index stream.first stream.others in
    found ++ judge_streams (index + length found) streams

-- One key of a sort, and the next ones where it is equal.
abbrev pub then_by : Ordering → Bool → Bool
then_by order next = elim order [ Ordering.lt ↦ true | Ordering.eq ↦ next | Ordering.gt ↦ false ]

abbrev pub direction_number : RtpDirection → ℕ
direction_number received = 0
direction_number sent = 1

abbrev pub before_at : ℕ → ℕ → Bool → Bool
before_at a b next = if a == b then next else ltb a b

-- By the alias, the direction, the time and the place in the timeline.
unfoldable pub observed_before : PacketObservation → PacketObservation → Bool
observed_before a b = then_by (compare a.stream_alias b.stream_alias) (
    before_at (direction_number a.direction) (direction_number b.direction)
      (before_at a.t_rel_us b.t_rel_us (ltb a.event_ordinal b.event_ordinal)))

-- By the time and the alias of the later packet, and the index.
unfoldable pub found_before : PacketDiscontinuity → PacketDiscontinuity → Bool
found_before a b = before_at a.current.t_rel_us b.current.t_rel_us (
    then_by (compare a.current.stream_alias b.current.stream_alias)
      (ltb a.evidence_index b.evidence_index))

unfoldable pub rtp_packet_observations :
    {F : Type 0} → ℕ → List (TimelineEvent F) → List PacketObservation
unfolding packet_observations sorted observed_before
rtp_packet_observations started_at events =
    sorted observed_before (packet_observations started_at 0 events)

unfoldable pub rtp_packet_discontinuity_evidence :
    {F : Type 0} → ℕ → List (TimelineEvent F) → List PacketDiscontinuity
unfolding rtp_packet_observations group_streams judge_streams sorted found_before
rtp_packet_discontinuity_evidence started_at events =
    sorted found_before
      (judge_streams 0 (group_streams (rtp_packet_observations started_at events) []))
