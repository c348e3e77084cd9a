-- ===== src/Diagnostics/RtpPackets/Counted.antt =====
-- From the packets that an observer sees to what the run API counts as missing:
-- `VoxBenchObserver.observe_rtp_packet` of src/voxbench/observability/observer.py and
-- `_rtp_packet_discontinuity_evidence` of src/voxbench/control_plane/run_api.py.
use text.Mathlib.TextPositions.{compare_refl}
use voxbench.Base.{
  ℕ, ◌+◌, ◌%◌, ◌≤◌, ◌≡◌, refl, sym, ap, ◌∙◌, subst, String, true, false, List, [], ◌∷◌, ◌++◌,
  append_assoc, append-nil, ltb, ==_refl, length, map, All, arith, text_eq_iff,
}
use voxbench.Observability.Records.{RtpPacket}
use voxbench.Observability.Observer.{Observer, new_observer, packet_event, observe_rtp_packet}
use voxbench.Diagnostics.RtpPackets.{
  sorted, observed_before, found_before, direction_number, same_stream, add_to_stream,
  group_streams, judge_streams, rtp_packet_observations, rtp_packet_discontinuity_evidence,
}
use voxbench.Diagnostics.RtpPackets.Lost.{Rising, number_of, missing_in, judge_pairs-missing}
use voxbench.Diagnostics.RtpPackets.Grouping.{
  Chain, sorted-Chain, sorted-missing, same_direction_refl, one_stream, streams-missing,
}
use voxbench.Diagnostics.PacketReading.ReadBack.{
  FitsHeader, observation_of, packet_events, observations_of, packet_events-read,
}

module _ {F : Type 0} (started_at : ℕ) where
  -- Packets of the stream of a packet, none of them earlier than the one before.
  abbrev pub Following : RtpPacket F → List (RtpPacket F) → Type 0
  Following p [] = Unit
  Following p (q ∷ packets) =
      (q.stream_alias ≡ p.stream_alias)
      × (q.direction ≡ p.direction)
      × (q.clock_domain ≡ p.clock_domain)
      × (p.ts ≤ q.ts)
      × Following q packets

  follows :
      (ordinal : ℕ) (p q : RtpPacket F)
      → q.stream_alias ≡ p.stream_alias
      → q.direction ≡ p.direction
      → p.ts ≤ q.ts
      → observed_before
          (observation_of started_at (ordinal + 1) q)
          (observation_of started_at ordinal p)
        ≡ false
  unfolding observed_before observation_of
  follows ordinal p q a d l =
      let later : ltb (ordinal + 1) ordinal ≡ false = ground arith in
      rw (a, d, compare_refl p.stream_alias, later, ==_refl (direction_number p.direction))
        (ground arith)

  in_order :
      (ordinal : ℕ) (p : RtpPacket F) (packets : List (RtpPacket F))
      → Following p packets
      → Chain observed_before (observations_of started_at ordinal (p ∷ packets))
  unfolding Chain observations_of
  in_order ordinal p [] h = tt
  in_order ordinal p (q ∷ packets) (a, d, c, l, h) =
      (follows ordinal p q a d l, in_order (ordinal + 1) q packets h)

  same-stream :
      (i j : ℕ) (p q : RtpPacket F)
      → q.stream_alias ≡ p.stream_alias
      → q.direction ≡ p.direction
      → q.clock_domain ≡ p.clock_domain
      → same_stream (observation_of started_at i p) (observation_of started_at j q) ≡ true
  unfolding observation_of
  same-stream i j p q a d c =
      rw
        (
          a,
          d,
          c,
          (text_eq_iff p.stream_alias p.stream_alias).1 refl,
          same_direction_refl p.direction,
          (text_eq_iff p.clock_domain p.clock_domain).1 refl,
        )
        refl

  one_key :
      (i j : ℕ) (first p : RtpPacket F) (packets : List (RtpPacket F))
      → p.stream_alias ≡ first.stream_alias
      → p.direction ≡ first.direction
      → p.clock_domain ≡ first.clock_domain
      → Following p packets
      → All
          (λ item. same_stream (observation_of started_at i first) item ≡ true)
          (observations_of started_at j packets)
  unfolding observations_of
  one_key i j first p [] a d c h = tt
  one_key i j first p (q ∷ packets) a d c (a', d', c', l, h) = (
    same-stream i j first q (a' ∙ a) (d' ∙ d) (c' ∙ c),
    one_key i (j + 1) first q packets (a' ∙ a) (d' ∙ d) (c' ∙ c) h,
  )

  same_numbers :
      (i : ℕ) (packets : List (RtpPacket F))
      → map number_of (observations_of started_at i packets) ≡ map (λ p. p.sequence_number) packets
  unfolding observations_of observation_of
  same_numbers i [] = refl
  same_numbers i (p ∷ packets) =
      ap (λ (ns : List ℕ). p.sequence_number ∷ ns) (same_numbers (i + 1) packets)

  length-observations_of :
      (i : ℕ) (packets : List (RtpPacket F))
      → length (observations_of started_at i packets) ≡ length packets
  unfolding observations_of
  length-observations_of i [] = refl
  length-observations_of i (p ∷ packets) = omega (arith, length-observations_of (i + 1) packets)

  -- The observer sees the packets one after another.
  unfoldable pub observe_packets : List (RtpPacket F) → Observer F → Observer F
  unfolding observe_rtp_packet
  observe_packets [] o = o
  observe_packets (p ∷ packets) o = observe_packets packets (observe_rtp_packet p o)

  observe_packets-events :
      (packets : List (RtpPacket F)) (o : Observer F)
      → (observe_packets packets o).timeline_events
        ≡ o.timeline_events ++ packet_events o.rtp_packet_ordinal packets
  unfolding observe_packets packet_events observe_rtp_packet
  observe_packets-events [] o = sym (append-nil o.timeline_events)
  observe_packets-events (p ∷ packets) o =
      observe_packets-events packets (observe_rtp_packet p o)
      ∙ append_assoc o.timeline_events (packet_event o.rtp_packet_ordinal p ∷ [])
          (packet_events (o.rtp_packet_ordinal + 1) packets)

  -- The evidence of one stream.
  events-grouped :
      (p : RtpPacket F) (packets : List (RtpPacket F))
      → All FitsHeader (p ∷ packets)
      → Following p packets
      → group_streams (rtp_packet_observations started_at (packet_events 0 (p ∷ packets))) []
        ≡ record {
          first = observation_of started_at 0 p;
          others = observations_of started_at 1 packets;
        }
          ∷ []
  unfolding rtp_packet_observations
  events-grouped p packets fits following =
      ap (λ items. group_streams (sorted observed_before items) [])
        (packet_events-read started_at 0 0 (p ∷ packets) fits)
      ∙ ap (λ items. group_streams items [])
          (sorted-Chain observed_before (observations_of started_at 0 (p ∷ packets))
            (in_order 0 p packets following))
      ∙ (unfold group_streams add_to_stream observations_of in
          one_stream (observation_of started_at 0 p) [] (observations_of started_at 1 packets)
            (one_key 0 1 p p packets refl refl refl following))

  events-missing :
      (p : RtpPacket F) (packets : List (RtpPacket F)) (n m : ℕ)
      → All FitsHeader (p ∷ packets)
      → Following p packets
      → p.sequence_number ≡ n % 65_536
      → Rising n (map (λ q. q.sequence_number) packets) m
      → missing_in (rtp_packet_discontinuity_evidence started_at (packet_events 0 (p ∷ packets)))
          + n
          + length packets
        ≡ m
  unfolding rtp_packet_discontinuity_evidence observation_of
  events-missing p packets n m fits following start rising =
      let found =
        sorted-missing found_before (
          judge_streams 0
            (group_streams (rtp_packet_observations started_at (packet_events 0 (p ∷ packets))) []))
        ∙ ap (λ streams. missing_in (judge_streams 0 streams))
            (events-grouped p packets fits following)
        ∙ streams-missing (record {
          first = observation_of started_at 0 p;
          others = observations_of started_at 1 packets;
        }) in
      omega (
        arith,
        found,
        length-observations_of 1 packets,
        judge_pairs-missing 0 n m (observation_of started_at 0 p)
            (observations_of started_at 1 packets) start
            (subst (λ numbers. Rising n numbers m) (sym (same_numbers 1 packets)) rising),
      )

  -- If an observer sees packets of one stream, with fields within their widths, in the order of
  -- their times, whose sequence numbers are the last 16 bits of rising numbers with fewer than
  -- 32,767 missing in a row, then the missing packets in the evidence that the run API reads off
  -- its timeline, the first number and the number of later packets add up to the last number:
  -- every packet that is missing is counted, once.
  pub lost_packets :
      (run_id : String) (p : RtpPacket F) (packets : List (RtpPacket F)) (n m : ℕ)
      → All FitsHeader (p ∷ packets)
      → Following p packets
      → p.sequence_number ≡ n % 65_536
      → Rising n (map (λ q. q.sequence_number) packets) m
      → missing_in (
            rtp_packet_discontinuity_evidence started_at
              (observe_packets (p ∷ packets) (new_observer run_id)).timeline_events)
          + n
          + length packets
        ≡ m
  lost_packets run_id p packets n m fits following start rising =
      ap
        (λ events.
          missing_in (rtp_packet_discontinuity_evidence started_at events) + n + length packets)
        (observe_packets-events (p ∷ packets) (new_observer run_id))
      ∙ (unfold new_observer in events-missing p packets n m fits following start rising)
