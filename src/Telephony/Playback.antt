-- ===== src/Telephony/Playback.antt =====
-- `PlaybackBuffer` and `_consume_buffered_sources` and `_bounded_evidence` of
-- src/voxbench/telephony/audiosocket.py. A coroutine holds the condition's lock for the whole of each
-- operation, so that each is one step.
pub mod Fifo
pub mod Accounting
use voxbench.Base.{
  ℕ, zero, suc, ◌+◌, ◌-◌, ◌/◌, min, Bool, true, false, Option, none, some, List, [], ◌∷◌, ◌++◌, leb,
  ◌==◌, length, take, drop, if◌then◌else◌,
}
use voxbench.Telephony.Frames.{AudioSocketFrame}

-- A frame, and the queue depth that its playback observation records, if it has one.
pub record PlaybackFrame : Type 0 where
  pub frame : AudioSocketFrame
  pub queue_depth_after_enqueue : Option ℕ

pub record PlaybackBuffer : Type 0 where
  pub max_frames : ℕ
  pub frames : List PlaybackFrame
  pub closed : Bool

abbrev pub record_depth : ℕ → PlaybackFrame → PlaybackFrame
record_depth depth f = elim f.queue_depth_after_enqueue [
  | none ↦ f
  | some old ↦ record f { queue_depth_after_enqueue = some depth }
]

-- `put`, with the frames that it drops: the count of them is what it returns. `none` is the
-- `IndexError` of `popleft` on a buffer that has no room for any frame.
unfoldable pub put : PlaybackFrame → PlaybackBuffer → Option (PlaybackBuffer × List PlaybackFrame)
put f b =
    if leb b.max_frames (length b.frames)
    then elim b.frames [
      | [] ↦ none
      | first ∷ frames ↦
          some (record b { frames = frames ++ record_depth (length frames + 1) f ∷ [] }, first ∷ [])
    ]
    else some (record b { frames = b.frames ++ record_depth (length b.frames + 1) f ∷ [] }, [])

pub data Got : Type 0 where
  got : (frame : PlaybackFrame) → Got
  ended waits : Got

unfoldable pub get_frame : PlaybackBuffer → PlaybackBuffer × Got
get_frame b = elim b.frames [
  | [] ↦ (b, if b.closed then ended else waits)
  | first ∷ frames ↦ (record b { frames = frames }, got first)
]

-- `clear` returns the number of these, `drain` the frames.
unfoldable pub drain : PlaybackBuffer → PlaybackBuffer × List PlaybackFrame
drain b = (record b { frames = [] }, b.frames)

unfoldable pub clear : PlaybackBuffer → PlaybackBuffer × ℕ
clear b = (record b { frames = [] }, length b.frames)

unfoldable pub close : PlaybackBuffer → PlaybackBuffer
close b = record b { closed = true }

-- A chunk of provider audio of which octets are still to be played.
pub record BufferedSource : Type 0 where
  pub chunk_ordinal : ℕ
  pub remaining_bytes : ℕ

-- The loop of `_consume_buffered_sources`: the sources that were consumed, with what was taken of
-- each, and those that are left. `none` is the underrun.
unfoldable pub consume : ℕ → List BufferedSource → Option (List (ℕ × ℕ) × List BufferedSource)
consume zero sources = some ([], sources)
consume (suc n) [] = none
consume (suc n) (source ∷ sources) =
    let taken = min (suc n) source.remaining_bytes in
    let rest = consume (suc n - taken) sources in
    if source.remaining_bytes - taken == 0
    then elim rest [
      | none ↦ none
      | some (consumed, left) ↦ some ((source.chunk_ordinal, taken) ∷ consumed, left)
    ]
    else some (
      (source.chunk_ordinal, taken) ∷ [],
      record source { remaining_bytes = source.remaining_bytes - taken } ∷ sources,
    )

-- `values[-count:]`, which for 0 is the whole list.
abbrev pub last_values {ℓ} : {A : Type ℓ} → ℕ → List A → List A
last_values zero values = values
last_values (suc count) values = drop (length values - suc count) values

unfoldable pub bounded_evidence {ℓ} : {A : Type ℓ} → List A → ℕ → List A
bounded_evidence values limit =
    if leb limit 0
    then []
    else (if leb (length values) limit
        then values
        else take ((limit + 1) / 2) values ++ last_values (limit - (limit + 1) / 2) values)
