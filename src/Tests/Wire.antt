-- ===== src/Tests/Wire.antt =====
-- Two frames on a stream.
use voxbench.Base.{◌≡◌, ◌⊎◌, refl, [], ◌∷◌, arith}
use voxbench.Telephony.Frames.{
  AudioSocketFrame, truncated_header, truncated_payload, read_frame, written, write_frame, all_of,
  receive,
}
use voxbench.Telephony.Frames.Stream.{read_frame-truncated, Sent, receive-Sent}

audio_written : write_frame 16 (7 ∷ 8 ∷ []) ≡ written (16 ∷ 0 ∷ 2 ∷ 7 ∷ 8 ∷ [])
unfolding write_frame
audio_written = refl

read_frame-truncated_example :
    (read_frame (16 ∷ 0 ∷ 2 ∷ 7 ∷ []) ≡ truncated_header)
    ⊎ (read_frame (16 ∷ 0 ∷ 2 ∷ 7 ∷ []) ≡ truncated_payload)
read_frame-truncated_example =
    read_frame-truncated 16 4 (7 ∷ 8 ∷ []) (16 ∷ 0 ∷ 2 ∷ 7 ∷ 8 ∷ []) audio_written (omega arith)
      (omega arith)

abbrev audio : AudioSocketFrame
audio = record { frame_type = 16; payload = 7 ∷ 8 ∷ [] }

receive-Sent_example :
    receive 11 (16 ∷ 0 ∷ 2 ∷ 7 ∷ 8 ∷ 16 ∷ 0 ∷ 2 ∷ 7 ∷ 8 ∷ []) ≡ all_of (audio ∷ audio ∷ [])
receive-Sent_example =
    receive-Sent (audio ∷ audio ∷ []) (16 ∷ 0 ∷ 2 ∷ 7 ∷ 8 ∷ 16 ∷ 0 ∷ 2 ∷ 7 ∷ 8 ∷ []) (
      Sent.then_sent audio (16 ∷ 0 ∷ 2 ∷ 7 ∷ 8 ∷ []) (audio ∷ []) (16 ∷ 0 ∷ 2 ∷ 7 ∷ 8 ∷ [])
        audio_written
        (Sent.then_sent audio (16 ∷ 0 ∷ 2 ∷ 7 ∷ 8 ∷ []) [] [] audio_written Sent.nothing))
