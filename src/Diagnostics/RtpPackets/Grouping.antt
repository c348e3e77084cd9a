-- ===== src/Diagnostics/RtpPackets/Grouping.antt =====
-- Packets that are sorted and grouped, and evidence that is sorted: for
-- `_rtp_packet_discontinuity_evidence` of src/voxbench/control_plane/run_api.py.
use voxbench.Base.{
  ◌+◌, ◌≡◌, refl, ap, ◌∙◌, inl, inr, Bool, true, false, List, [], ◌∷◌, ◌++◌, append_assoc,
  append-nil, All, arith, Bool-cases,
}
use voxbench.Observability.Records.{RtpDirection, received, sent}
use voxbench.Diagnostics.RtpPackets.{
  PacketDiscontinuity, PacketStream, insert, sorted, same_stream, same_direction, add_to_stream,
  group_streams, judge_pairs, judge_streams,
}
use voxbench.Diagnostics.PacketReading.{PacketObservation}
use voxbench.Diagnostics.RtpPackets.Lost.{missing_in}

-- An insertion that finds its place at once leaves a list as it is.
module _ {A : Type 0} (before : A → A → Bool) where
  unfoldable pub Chain : List A → Type 0
  Chain [] = Unit
  Chain (x ∷ []) = Unit
  Chain (x ∷ y ∷ ys) = (before y x ≡ false) × Chain (y ∷ ys)

  pub sorted-Chain : (xs : List A) → Chain xs → sorted before xs ≡ xs
  unfolding sorted insert Chain
  sorted-Chain [] h = refl
  sorted-Chain (x ∷ []) h = refl
  sorted-Chain (x ∷ y ∷ ys) h = rw (sorted-Chain (y ∷ ys) h.1) (rw h.0 refl)

insert-missing :
    (before : PacketDiscontinuity → PacketDiscontinuity → Bool) (x : PacketDiscontinuity)
    (ys : List PacketDiscontinuity)
    → missing_in (insert before x ys) ≡ missing_in (x ∷ ys)
unfolding insert missing_in
insert-missing before x [] = refl
insert-missing before x (y ∷ ys) = elim (Bool-cases (before y x)) [
  | inl e ↦ rw e (omega (arith, insert-missing before x ys))
  | inr e ↦ rw e refl
]

pub sorted-missing :
    (before : PacketDiscontinuity → PacketDiscontinuity → Bool) (xs : List PacketDiscontinuity)
    → missing_in (sorted before xs) ≡ missing_in xs
unfolding sorted missing_in
sorted-missing before [] = refl
sorted-missing before (x ∷ xs) =
    insert-missing before x (sorted before xs)
    ∙ ap (λ n. x.missing_packet_count + n) (sorted-missing before xs)

pub same_direction_refl : (d : RtpDirection) → same_direction d d ≡ true
same_direction_refl received = refl
same_direction_refl sent = refl

-- All of them are put into one stream.
pub one_stream :
    (first : PacketObservation) (others : List PacketObservation) (items : List PacketObservation)
    → All (λ item. same_stream first item ≡ true) items
    → group_streams items (record { first = first; others = others } ∷ [])
      ≡ record { first = first; others = others ++ items } ∷ []
unfolding group_streams add_to_stream
one_stream first others [] h = rw (append-nil others) refl
one_stream first others (item ∷ items) h = rw h.0 (
    one_stream first (others ++ item ∷ []) items h.1
    ∙ rw (append_assoc others (item ∷ []) items) refl)

pub streams-missing :
    (stream : PacketStream)
    → missing_in (judge_streams 0 (stream ∷ []))
      ≡ missing_in (judge_pairs 0 stream.first stream.others)
unfolding judge_streams
streams-missing stream = rw (append-nil (judge_pairs 0 stream.first stream.others)) refl
