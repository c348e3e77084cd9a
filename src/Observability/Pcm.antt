-- ===== src/Observability/Pcm.antt =====
-- What the observer measures in 16-bit PCM audio: `pcm_s16le_rms`, `pcm_s16le_quality`,
-- `detect_pcm_s16le_discontinuity` and `_pcm_s16le_final_frame` of
-- src/voxbench/observability/observer.py. Audio is a list of octets. The code divides levels by the
-- full scale, 2 ^ 15, which is exact in floating point: levels are numbers of steps here.
pub mod Steps
pub mod Strongest
use voxbench.Base.{
  ℕ, zero, suc, ◌+◌, ◌-◌, ◌*◌, ◌/◌, ◌%◌, max, Bool, true, false, ◌&&◌, ◌||◌, Option, none, some,
  List, [], ◌∷◌, leb, ltb, ◌==◌, length, drop, get_elem?, if◌then◌else◌,
}
use voxbench.Observability.Records.{
  channels_invalid, frames_incomplete, length_odd, previous_samples_invalid, Raising, returned,
  raised,
}
use voxbench.Base.Int.{ℤ, pos_part, neg_part, pos, negsuc}
use voxbench.Media.Mulaw.{iter_unpack}

-- `abs(value)` and `abs(current - previous)`
abbrev pub abs : ℤ → ℕ
abs value = pos_part value + neg_part value

abbrev pub distance : ℤ → ℤ → ℕ
distance a b =
    let x = pos_part a + neg_part b in
    let y = pos_part b + neg_part a in if leb y x then x - y else y - x

unfoldable pub square_sum : List ℤ → ℕ
square_sum [] = 0
square_sum (sample ∷ samples) = abs sample * abs sample + square_sum samples

-- `PCM16_SILENCE_AMPLITUDE`: `round(32768.0 * 10 ** (-60.0 / 20.0))`
abbrev pub silence_amplitude : ℕ
silence_amplitude = 33

abbrev pub tally : Bool → ℕ → ℕ
tally counts n = if counts then suc n else n

pub record Quality : Type 0 where
  pub sample_count : ℕ
  pub peak : ℕ
  pub full_scale_count : ℕ
  pub silence_count : ℕ

abbrev pub is_full_scale : ℤ → Bool
is_full_scale (pos n) = n == 32_767
is_full_scale (negsuc n) = n == 32_767

unfoldable pub count_sample : ℤ → Quality → Quality
count_sample value q = record {
  sample_count = q.sample_count + 1;
  peak = max q.peak (abs value);
  full_scale_count = tally (is_full_scale value) q.full_scale_count;
  silence_count = tally (leb (abs value) silence_amplitude) q.silence_count;
}

unfoldable pub count_samples : List ℤ → Quality → Quality
unfolding count_sample
count_samples [] q = q
count_samples (value ∷ values) q = count_samples values (count_sample value q)

-- The counts from which `pcm_s16le_quality` computes its answer.
unfoldable pub quality_counts : List ℕ → Raising Quality
unfolding iter_unpack count_samples
quality_counts pcm =
    if length pcm % 2 == 0
    then returned (
        count_samples (iter_unpack pcm)
          (record { sample_count = 0; peak = 0; full_scale_count = 0; silence_count = 0 }))
    else raised length_odd

-- The last frame: `pcm[-2 * channels:]`.
unfoldable pub final_frame : List ℕ → ℕ → List ℤ
unfolding iter_unpack
final_frame pcm channels = iter_unpack (drop (length pcm - 2 * channels) pcm)

-- A frame offset, a magnitude in steps of the full scale, and a channel.
pub record Discontinuity : Type 0 where
  pub frame_offset : ℕ
  pub delta : ℕ
  pub channel : ℕ

-- `PCM_DISCONTINUITY_THRESHOLD` is 0.25 and `PCM_DISCONTINUITY_MIN_SIGNAL_LEVEL` is 0.02.
unfoldable pub is_suspicious : ℤ → ℤ → Bool
is_suspicious current previous =
    leb 32_768 (4 * distance current previous)
    && leb (2 * 32_768) (100 * max (abs current) (abs previous))

abbrev pub outranks : ℕ → Option Discontinuity → Bool
outranks delta none = true
outranks delta (some strongest) = ltb strongest.delta delta

module _ (samples : List ℤ) (previous_samples : Option (List ℤ)) (channels : ℕ) where
  -- The sample of the frame before; every index is in range, since the lengths are checked.
  unfoldable pub previous_of : ℕ → ℕ → Option ℤ
  previous_of zero channel = elim previous_samples [
    | none ↦ none
    | some previous ↦ get_elem? previous channel
  ]
  previous_of (suc frame) channel = get_elem? samples (frame * channels + channel)

  unfoldable pub judge : ℕ → ℕ → ℤ → ℤ → Option Discontinuity → Option Discontinuity
  unfolding is_suspicious
  judge frame channel current previous strongest =
      if is_suspicious current previous && outranks (distance current previous) strongest
      then some
          (record { frame_offset = frame; delta = distance current previous; channel = channel })
      else strongest

  -- The body of the two loops.
  unfoldable pub consider : ℕ → ℕ → Option Discontinuity → Option Discontinuity
  unfolding previous_of judge
  consider frame channel strongest = elim (get_elem? samples (frame * channels + channel)) [
    | none ↦ strongest
    | some current ↦ elim (previous_of frame channel) [
      | none ↦ strongest
      | some previous ↦ judge frame channel current previous strongest
    ]
  ]

  -- `for channel in range(channels)`, with `count` channels left.
  unfoldable pub scan_channels : ℕ → ℕ → ℕ → Option Discontinuity → Option Discontinuity
  unfolding consider
  scan_channels frame channel zero strongest = strongest
  scan_channels frame channel (suc count) strongest =
      scan_channels frame (channel + 1) count (consider frame channel strongest)

  -- `for frame_offset in range(len(samples) // channels)`, with `count` frames left.
  unfoldable pub scan_frames : ℕ → ℕ → Option Discontinuity → Option Discontinuity
  unfolding scan_channels
  scan_frames frame zero strongest = strongest
  scan_frames frame (suc count) strongest =
      scan_frames (frame + 1) count (scan_channels frame 0 channels strongest)

-- Whether `previous_samples` may be used for so many channels.
abbrev pub is_frame : ℕ → Option (List ℤ) → Bool
is_frame channels none = true
is_frame channels (some previous) = length previous == channels

unfoldable pub detect_discontinuity : List ℕ → ℕ → Option (List ℤ) → Raising (Option Discontinuity)
unfolding iter_unpack scan_frames
detect_discontinuity pcm channels previous_samples =
    if channels == 0
    then raised channels_invalid
    else if length pcm % (2 * channels) == 0
    then (if is_frame channels previous_samples
        then (let samples = iter_unpack pcm in
            returned
              (scan_frames samples previous_samples channels 0 (length samples / channels) none))
        else raised previous_samples_invalid)
    else raised frames_incomplete
