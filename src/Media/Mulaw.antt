-- ===== src/Media/Mulaw.antt =====
-- G.711 mu-law: src/voxbench/media/g711.py. A sample is an integer, an octet its number.
pub mod BitLength
pub mod Accuracy
pub mod RoundTrip
use voxbench.Base.{
  ℕ, zero, suc, ◌+◌, ◌-◌, ◌*◌, ◌/◌, ◌%◌, ◌^◌, min, max, Bool, true, false, Option, none, some, List,
  [], ◌∷◌, ◌++◌, leb, ltb, ◌==◌, if◌then◌else◌,
}
use voxbench.Base.Int.{ℤ, pos, negsuc, sub_ℕ, leb_ℤ, pos_part, neg_part}

abbrev pub mulaw_bias : ℕ
mulaw_bias = 132

abbrev pub mulaw_clip : ℕ
mulaw_clip = 32_635

-- `n.bit_length()`: the number of halvings until nothing is left; `n` of them are enough.
unfoldable pub halvings : ℕ → ℕ → ℕ
halvings zero n = 0
halvings (suc fuel) n = elim (n == 0) [ true ↦ 0 | false ↦ suc (halvings fuel (n / 2)) ]

unfoldable pub bit_length : ℕ → ℕ
unfolding halvings
bit_length n = halvings n n

-- `max(-32_768, min(32_767, sample))`
unfoldable pub clamp16 : ℤ → ℤ
clamp16 (pos n) = pos (min 32_767 n)
clamp16 (negsuc n) = negsuc (min 32_767 n)

abbrev pub magnitude : ℤ → ℕ
magnitude s = pos_part s + neg_part s

abbrev pub sign_bit : ℤ → ℕ
sign_bit (pos n) = 0
sign_bit (negsuc n) = 128

unfoldable pub exponent_of : ℕ → ℕ
unfolding bit_length
exponent_of biased = min 7 (max 0 (bit_length biased - 8))

unfoldable pub mantissa_of : ℕ → ℕ → ℕ
mantissa_of biased exponent = biased / 2 ^ (exponent + 3) % 16

-- The fields of a code share no bit, so that `|` is a sum and `~` a difference.
unfoldable pub linear16_to_mulaw : ℤ → ℕ
unfolding clamp16 exponent_of mantissa_of
linear16_to_mulaw sample =
    let sample' = clamp16 sample in
    let biased = min (magnitude sample') mulaw_clip + mulaw_bias in
    let exponent = exponent_of biased in
    255 - (sign_bit sample' + exponent * 16 + mantissa_of biased exponent)

-- What `mulaw_to_linear16` computes from the inverted code.
unfoldable pub decoded : ℕ → ℤ
decoded inverted =
    let magnitude = (inverted % 16 * 8 + mulaw_bias) * 2 ^ (inverted / 16 % 8) in
    if inverted / 128 % 2 == 1 then sub_ℕ mulaw_bias magnitude else sub_ℕ magnitude mulaw_bias

-- `none` is the `ValueError`.
unfoldable pub mulaw_to_linear16 : ℕ → Option ℤ
unfolding decoded
mulaw_to_linear16 code = if leb code 255 then some (decoded (255 - code)) else none

-- `struct.pack("<h", sample)` and its inverse.
unfoldable pub pack_h : ℤ → List ℕ
pack_h (pos n) = n % 256 ∷ n / 256 ∷ []
pack_h (negsuc n) = (65_535 - n) % 256 ∷ (65_535 - n) / 256 ∷ []

unfoldable pub unpack_h : ℕ → ℕ → ℤ
unpack_h low high = let n = low + 256 * high in if ltb n 32_768 then pos n else negsuc (65_535 - n)

-- `struct.iter_unpack("<h", pcm)`
unfoldable pub iter_unpack : List ℕ → List ℤ
unfolding unpack_h
iter_unpack [] = []
iter_unpack (low ∷ []) = []
iter_unpack (low ∷ high ∷ rest) = unpack_h low high ∷ iter_unpack rest

-- `none`: the length is odd.
unfoldable pub pcm16le_to_mulaw : List ℕ → Option (List ℕ)
unfolding linear16_to_mulaw unpack_h
pcm16le_to_mulaw [] = some []
pcm16le_to_mulaw (low ∷ []) = none
pcm16le_to_mulaw (low ∷ high ∷ rest) = elim (pcm16le_to_mulaw rest) [
  | none ↦ none
  | some codes ↦ some (linear16_to_mulaw (unpack_h low high) ∷ codes)
]

unfoldable pub mulaw_to_pcm16le : List ℕ → Option (List ℕ)
unfolding mulaw_to_linear16 pack_h
mulaw_to_pcm16le [] = some []
mulaw_to_pcm16le (code ∷ codes) =
    let rest = mulaw_to_pcm16le codes in
    elim (mulaw_to_linear16 code) [
      | none ↦ none
      | some sample ↦ elim rest [ none ↦ none | some octets ↦ some (pack_h sample ++ octets) ]
    ]
