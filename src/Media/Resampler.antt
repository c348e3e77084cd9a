-- ===== src/Media/Resampler.antt =====
-- The streaming resampler: `Pcm16MonoStreamResampler` and `resample_pcm16_mono` of
-- src/voxbench/media/pcm.py. Audio is a list of octets.
pub mod Positions
pub mod Loops
pub mod Chunks
pub mod Streams
use voxbench.Base.{
  ℕ, zero, suc, ◌+◌, ◌-◌, ◌*◌, ◌/◌, ◌%◌, Bool, true, false, ◌&&◌, Option, none, some, List, [], ◌∷◌,
  ◌++◌, leb, ltb, ◌==◌, length, drop, get_elem?, if◌then◌else◌,
}
use voxbench.Base.Int.{ℤ, pos, negsuc, pos_part, neg_part, sub_ℕ, ◌+ℤ◌}
use voxbench.Media.Mulaw.{pack_h, iter_unpack}

pub record Resampler : Type 0 where
  pub input_rate : ℕ
  pub output_rate : ℕ
  pub samples : List ℤ
  pub position_numerator : ℕ

-- The constructor, which refuses a rate of zero.
unfoldable pub new_resampler : ℕ → ℕ → Option Resampler
new_resampler input_rate output_rate =
    if leb 1 input_rate && leb 1 output_rate
    then some (record {
      input_rate = input_rate;
      output_rate = output_rate;
      samples = [];
      position_numerator = 0;
    })
    else none

-- `round(n / d)`: the nearest integer, and of two the even one. The code divides floating-point
-- numbers, and the quotient of a sample and a rate is too coarse to be rounded to another side.
unfoldable pub half_even : ℕ → ℕ → ℕ
half_even n d =
    let q = n / d in
    let r = n % d in if ltb (2 * r) d then q else if ltb d (2 * r) then q + 1 else q + q % 2

unfoldable pub round_quotient : ℤ → ℕ → ℤ
unfolding half_even
round_quotient (pos n) d = pos (half_even n d)
round_quotient (negsuc n) d = sub_ℕ 0 (half_even (suc n) d)

abbrev pub times : ℤ → ℕ → ℤ
times a k = sub_ℕ (pos_part a * k) (neg_part a * k)

-- Between two samples.
unfoldable pub interpolate : ℕ → ℕ → ℤ → ℤ → ℤ
unfolding round_quotient ◌+ℤ◌
interpolate output_rate fraction left right =
    round_quotient (times left (output_rate - fraction) +ℤ times right fraction) output_rate

-- The value at a position, or `none` where the loop of `_produce` breaks.
unfoldable pub next_value : Bool → ℕ → List ℤ → ℕ → Option ℤ
unfolding interpolate
next_value require_right_sample output_rate samples position =
    let left_index = position / output_rate in
    let fraction = position % output_rate in
    elim (get_elem? samples left_index) [
      | none ↦ none
      | some left ↦ elim (get_elem? samples (left_index + 1)) [
        | some right ↦ some (interpolate output_rate fraction left right)
        | none ↦
            if require_right_sample then none else some (interpolate output_rate fraction left left)
      ]
    ]

-- What the loop has written, and the position after it.
pub record Produced : Type 0 where
  pub octets : List ℕ
  pub position : ℕ

unfoldable pub write_sample : ℤ → Produced → Produced
unfolding pack_h
write_sample value rest = record rest { octets = pack_h value ++ rest.octets }

module _ (require_right_sample : Bool) (input_rate output_rate : ℕ) (samples : List ℤ) where
  unfoldable pub produce_loop : ℕ → ℕ → Produced
  unfolding next_value write_sample
  produce_loop zero position = record { octets = []; position = position }
  produce_loop (suc fuel) position =
      elim (next_value require_right_sample output_rate samples position) [
        | none ↦ record { octets = []; position = position }
        | some value ↦ write_sample value (produce_loop fuel (position + input_rate))
      ]

-- The position rises by one or more and stays within the samples: so many rounds are enough.
abbrev pub rounds : ℕ → List ℤ → ℕ
rounds output_rate samples = length samples * output_rate

-- The end of `_produce`: the samples before the last one at the left are dropped.
unfoldable pub finish_produce : Resampler → Produced → Resampler × List ℕ
finish_produce r done =
    let consumed = done.position / r.output_rate - 1 in
    (
      record r {
        samples = drop consumed r.samples;
        position_numerator = done.position - consumed * r.output_rate;
      },
      done.octets,
    )

unfoldable pub produce : Bool → Resampler → Resampler × List ℕ
unfolding produce_loop finish_produce
produce require_right_sample r = finish_produce r (
    produce_loop require_right_sample r.input_rate r.output_rate r.samples
      (rounds r.output_rate r.samples) r.position_numerator)

-- `none`: the length is odd.
unfoldable pub process : List ℕ → Resampler → Option (Resampler × List ℕ)
unfolding produce iter_unpack
process pcm r =
    if length pcm % 2 == 0
    then (if r.input_rate == r.output_rate
        then some (r, pcm)
        else some (produce true (record r { samples = r.samples ++ iter_unpack pcm })))
    else none

unfoldable pub flush_samples : Resampler → Resampler × List ℕ
unfolding produce
flush_samples r =
    let (r', output) = produce false r in
    (record r' { samples = []; position_numerator = 0 }, output)

unfoldable pub resample_pcm16_mono : ℕ → ℕ → List ℕ → Option (List ℕ)
unfolding new_resampler process flush_samples
resample_pcm16_mono input_rate output_rate pcm = elim (new_resampler input_rate output_rate) [
  | none ↦ none
  | some r ↦ elim (process pcm r) [
    | none ↦ none
    | some done ↦ some (done.1 ++ (flush_samples done.0).1)
  ]
]
