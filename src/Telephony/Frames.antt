-- ===== src/Telephony/Frames.antt =====
-- Frames on a stream: `read_frame` and `write_frame` of src/voxbench/telephony/audiosocket.py. The
-- stream is the list of octets that come before it is closed.
pub mod Stream
use voxbench.Base.{
  ℕ, suc, zero, ◌+◌, ◌*◌, ◌/◌, ◌%◌, Bool, true, false, List, [], ◌∷◌, ◌++◌, leb, length, take, drop,
  if◌then◌else◌,
}

pub record AudioSocketFrame : Type 0 where
  pub frame_type : ℕ
  pub payload : List ℕ

-- `reader.readexactly(n)`: the octets and the stream after them, or those that came before its end.
pub data Exactly : Type 0 where
  got : (octets rest : List ℕ) → Exactly
  incomplete : (partial : List ℕ) → Exactly

unfoldable pub read_exactly : ℕ → List ℕ → Exactly
read_exactly n stream =
    if leb n (length stream) then got (take n stream) (drop n stream) else incomplete stream

pub data ReadFrame : Type 0 where
  frame_read : (frame : AudioSocketFrame) (rest : List ℕ) → ReadFrame
  closed : ReadFrame
  truncated_header truncated_payload : ReadFrame

-- After the three octets of a header.
unfoldable pub read_payload : List ℕ → List ℕ → ReadFrame
unfolding read_exactly
read_payload (kind ∷ high ∷ low ∷ []) rest = elim (read_exactly (high * 256 + low) rest) [
  | incomplete partial ↦ truncated_payload
  | got payload rest' ↦ frame_read (record { frame_type = kind; payload = payload }) rest'
]
read_payload header rest = truncated_header

unfoldable pub read_frame : List ℕ → ReadFrame
unfolding read_exactly read_payload
read_frame stream = elim (read_exactly 3 stream) [
  | incomplete partial ↦ elim partial [ [] ↦ closed | octet ∷ octets ↦ truncated_header ]
  | got header rest ↦ read_payload header rest
]

pub data Written : Type 0 where
  written : (octets : List ℕ) → Written
  type_invalid payload_too_long : Written

unfoldable pub write_frame : ℕ → List ℕ → Written
write_frame frame_type payload =
    if leb frame_type 255
    then (if leb (length payload) 65_535
        then written (frame_type ∷ length payload / 256 ∷ length payload % 256 ∷ payload)
        else payload_too_long)
    else type_invalid

-- A reader that reads frames until the stream is closed: every frame takes three octets or more, so
-- that the number of octets is enough fuel.
pub data Received : Type 0 where
  all_of : (frames : List AudioSocketFrame) → Received
  connection_error : (before : List AudioSocketFrame) → Received

abbrev pub after : AudioSocketFrame → Received → Received
after frame (all_of frames) = all_of (frame ∷ frames)
after frame (connection_error frames) = connection_error (frame ∷ frames)

unfoldable pub receive : ℕ → List ℕ → Received
unfolding read_frame
receive zero stream = connection_error []
receive (suc fuel) stream = elim (read_frame stream) [
  | closed ↦ all_of []
  | truncated_header ↦ connection_error []
  | truncated_payload ↦ connection_error []
  | frame_read frame rest ↦ after frame (receive fuel rest)
]
