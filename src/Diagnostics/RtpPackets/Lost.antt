-- ===== src/Diagnostics/RtpPackets/Lost.antt =====
-- What is counted as missing in a stream: for `_rtp_packet_discontinuity_evidence` of
-- src/voxbench/control_plane/run_api.py.
use voxbench.Base.{
  ℕ, suc, ◌+◌, ◌-◌, ◌%◌, ◌<◌, ◌≡◌, inl, inr, true, Option, none, some, List, [], ◌∷◌, ltb, ◌==◌,
  length, map, arith, Bool-cases,
}
use voxbench.Diagnostics.RtpPackets.{
  PacketDiscontinuity, sequence_delta_of, is_stalled, judge_pair, judge_pairs,
}
use voxbench.Diagnostics.PacketReading.{PacketObservation}

-- Packets that were sent with rising numbers, of which the header has the last 16 bits, and of which
-- fewer than 32,767 in a row are missing: from the number `n` of the packet before to the number `m`
-- of the last one.
abbrev pub Rising : ℕ → List ℕ → ℕ → Type 0
Rising n [] m = n ≡ m
Rising n (sequence_number ∷ rest) m =
    (k : ℕ) × (sequence_number ≡ k % 65_536) × (n < k) × (k < n + 32_768) × Rising k rest m

abbrev pub number_of : PacketObservation → ℕ
number_of packet = packet.sequence_number

-- All packets that the evidence counts as missing.
unfoldable pub missing_in : List PacketDiscontinuity → ℕ
missing_in [] = 0
missing_in (found ∷ rest) = found.missing_packet_count + missing_in rest

abbrev missing_of : Option PacketDiscontinuity → ℕ
missing_of none = 0
missing_of (some found) = found.missing_packet_count

judge_pair-missing :
    (index n k : ℕ) (previous current : PacketObservation)
    → previous.sequence_number ≡ n % 65_536
    → current.sequence_number ≡ k % 65_536
    → n < k
    → k < n + 32_768
    → missing_of (judge_pair index previous current) + n + 1 ≡ k
unfolding judge_pair
judge_pair-missing index n k previous current a b l m =
    let delta : sequence_delta_of previous current ≡ k - n = omega (arith, a, b) in
    elim (Bool-cases (ltb 1 (k - n))) [
      | inl y ↦
          let small : ltb (k - n) 32_768 ≡ true = ground arith in
          rw (delta, y, small) (ground arith)
      | inr z ↦
          let one : (k - n == 1) ≡ true = ground arith in
          elim (Bool-cases (is_stalled previous current)) [
            | inl y ↦ rw (delta, z, one, y) (ground arith)
            | inr y ↦ rw (delta, z, one, y) (ground arith)
          ]
    ]

pub judge_pairs-missing :
    (index n m : ℕ) (previous : PacketObservation) (packets : List PacketObservation)
    → previous.sequence_number ≡ n % 65_536
    → Rising n (map number_of packets) m
    → missing_in (judge_pairs index previous packets) + n + length packets ≡ m
unfolding judge_pairs missing_in
judge_pairs-missing index n m previous [] a rising = omega (arith, rising)
judge_pairs-missing index n m previous (current ∷ packets) a (k, b, l, u, rising) =
    split (judge_pair index previous current)
      (judge_pair-missing index n k previous current a b l u)
      (judge_pairs-missing index k m current packets b rising)
      (judge_pairs-missing (index + 1) k m current packets b rising)
  where
    split :
        (o : Option PacketDiscontinuity)
        → missing_of o + n + 1 ≡ k
        → missing_in (judge_pairs index current packets) + k + length packets ≡ m
        → missing_in (judge_pairs (index + 1) current packets) + k + length packets ≡ m
        → missing_in (elim o [
          | none ↦ judge_pairs index current packets
          | some found ↦ found ∷ judge_pairs (index + 1) current packets
        ])
            + n
            + suc (length packets)
          ≡ m
    split none e f g = omega (arith, e, f)
    split (some found) e f g = omega (arith, e, g)
