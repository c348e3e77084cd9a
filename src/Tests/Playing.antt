-- ===== src/Tests/Playing.antt =====
-- A buffer of two frames that overflows, sources that are consumed, and evidence that is cut.
use voxbench.Base.{ℕ, ◌≤◌, ◌≡◌, refl, false, none, some, List, [], ◌∷◌, length, arith}
use voxbench.Telephony.Playback.{
  PlaybackFrame, PlaybackBuffer, put, get_frame, BufferedSource, consume, bounded_evidence,
}
use voxbench.Telephony.Playback.Fifo.{Moves, History, History-fifo}
use voxbench.Telephony.Playback.Accounting.{bounded_evidence-one}

abbrev frame : ℕ → PlaybackFrame
frame n = record {
  frame = record { frame_type = 16; payload = n ∷ [] };
  queue_depth_after_enqueue = none;
}

abbrev buffer : List PlaybackFrame → PlaybackBuffer
buffer frames = record { max_frames = 2; frames = frames; closed = false }

abbrev history :
    History
      (buffer (frame 1 ∷ []))
      (buffer (frame 3 ∷ []))
      (frame 2 ∷ frame 3 ∷ [])
      (frame 1 ∷ frame 2 ∷ [])
history =
    History.then_
      (History.then_
        (History.then_ History.start
          (Moves.puts (frame 2) (buffer (frame 1 ∷ frame 2 ∷ [])) [] (unfold put in refl)))
        (Moves.puts (frame 3) (buffer (frame 2 ∷ frame 3 ∷ [])) (frame 1 ∷ [])
          (unfold put in refl)))
      (Moves.gets (buffer (frame 3 ∷ [])) (frame 2) (unfold get_frame in refl))

History-fifo_example :
    (frame 1 ∷ frame 2 ∷ frame 3 ∷ [] ≡ frame 1 ∷ frame 2 ∷ frame 3 ∷ [])
    × (◌≡◌ {A = ℕ} 2 2)
    × (length (buffer (frame 3 ∷ [])).frames ≤ (buffer (frame 3 ∷ [])).max_frames)
History-fifo_example = History-fifo (omega arith) history

abbrev sources : List BufferedSource
sources =
    record { chunk_ordinal = 1; remaining_bytes = 3 }
    ∷ record { chunk_ordinal = 2; remaining_bytes = 5 }
    ∷ []

consume_takes :
    consume 4 sources
    ≡ some ((1, 3) ∷ (2, 1) ∷ [], record { chunk_ordinal = 2; remaining_bytes = 4 } ∷ [])
unfolding consume
consume_takes = refl

bounded_evidence-one_example : length (bounded_evidence {A = ℕ} (1 ∷ 2 ∷ []) 1) ≡ 3
bounded_evidence-one_example = bounded_evidence-one {A = ℕ} (1 ∷ 2 ∷ []) (omega arith)
