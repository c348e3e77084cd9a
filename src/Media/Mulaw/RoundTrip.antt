-- ===== src/Media/Mulaw/RoundTrip.antt =====
-- Codes survive decoding and encoding, but for the second zero.
use voxbench.Base.{
  ℕ, zero, suc, ◌+◌, ◌-◌, ◌*◌, ◌/◌, ◌%◌, ◌≤◌, ◌<◌, ◌≡◌, refl, ap, ◌∙◌, Bool, true, false, ◌&&◌,
  some, List, [], ◌∷◌, ◌++◌, map, length, All, leb, ◌==◌, if◌then◌else◌, arith, Bool-cases, inl,
  inr, ==_iff, ltb, lt→ltb, le→leb, leb→le,
}
use voxbench.Base.Int.{ℤ, pos, negsuc, pos_part, neg_part}
use voxbench.Media.Mulaw.{
  magnitude, decoded, linear16_to_mulaw, pack_h, unpack_h, pcm16le_to_mulaw, mulaw_to_pcm16le,
}

-- Two codes decode to zero; the encoder writes 255.
abbrev pub canonical : ℕ → ℕ
canonical code = if code == 127 then 255 else code

-- A test that holds below n, run by evaluation.
all_below : ℕ → (ℕ → Bool) → Bool
all_below zero p = true
all_below (suc n) p = p n && all_below n p

all_below→ : (n : ℕ) (p : ℕ → Bool) → all_below n p ≡ true → (i : ℕ) → i < n → p i ≡ true
unfolding all_below
all_below→ zero p h i l = absurd (omega arith)
all_below→ (suc n) p h i l = elim (Bool-cases (i == n)) [
  | inl same ↦ let e : i ≡ n = (==_iff i n).0 same in rw e (ground arith)
  | inr apart ↦ all_below→ n p (ground arith) i (ground arith)
]

codes_return : all_below 256 (λ c. linear16_to_mulaw (decoded (255 - c)) == canonical c) ≡ true
unfolding all_below linear16_to_mulaw decoded
codes_return = refl

code_returns : (c : ℕ) → c ≤ 255 → linear16_to_mulaw (decoded (255 - c)) ≡ canonical c
code_returns c l = (==_iff _ _).0 (
    all_below→ 256 (λ c. linear16_to_mulaw (decoded (255 - c)) == canonical c) codes_return c
      (omega arith))

decoded_small : all_below 256 (λ c. leb (magnitude (decoded (255 - c))) 32_124) ≡ true
unfolding all_below decoded
decoded_small = refl

unpack_pos : (n : ℕ) → n ≤ 32_767 → unpack_h (n % 256) (n / 256) ≡ pos n
unfolding unpack_h
unpack_pos n l =
    let whole : n % 256 + 256 * (n / 256) ≡ n = omega arith in
    rw whole (rw (lt→ltb n 32_768 (omega arith)) refl)

unpack_negsuc : (n : ℕ) → n ≤ 32_767 → unpack_h ((65_535 - n) % 256) ((65_535 - n) / 256) ≡ negsuc n
unfolding unpack_h
unpack_negsuc n l =
    let whole : (65_535 - n) % 256 + 256 * ((65_535 - n) / 256) ≡ 65_535 - n = omega arith in
    let high : ltb (65_535 - n) 32_768 ≡ false = ground arith in
    let back : 65_535 - (65_535 - n) ≡ n = omega arith in rw whole (rw (high, back) refl)

-- Reading back one packed sample.
pcm_step :
    (s : ℤ) (rest codes : List ℕ)
    → pos_part s ≤ 32_767
    → neg_part s ≤ 32_768
    → pcm16le_to_mulaw rest ≡ some codes
    → pcm16le_to_mulaw (pack_h s ++ rest) ≡ some (linear16_to_mulaw s ∷ codes)
unfolding pcm16le_to_mulaw pack_h
pcm_step (pos n) rest codes l k e =
    rw e (ap (λ s. some (linear16_to_mulaw s ∷ codes)) (unpack_pos n l))
pcm_step (negsuc n) rest codes l k e =
    rw e (ap (λ s. some (linear16_to_mulaw s ∷ codes)) (unpack_negsuc n (omega (arith, k))))

length-pack_h : (s : ℤ) (rest : List ℕ) → length (pack_h s ++ rest) ≡ 2 + length rest
unfolding pack_h
length-pack_h (pos n) rest = omega arith
length-pack_h (negsuc n) rest = omega arith

mulaw_step :
    (c : ℕ) (codes octets : List ℕ)
    → c ≤ 255
    → mulaw_to_pcm16le codes ≡ some octets
    → mulaw_to_pcm16le (c ∷ codes) ≡ some (pack_h (decoded (255 - c)) ++ octets)
unfolding mulaw_to_pcm16le
mulaw_step c codes octets l e = rw (le→leb c 255 l, mulaw_to_pcm16le) (rw e refl)

small_of : (c : ℕ) → c ≤ 255 → magnitude (decoded (255 - c)) ≤ 32_124
small_of c l =
    leb→le _ _ (
      all_below→ 256 (λ c. leb (magnitude (decoded (255 - c))) 32_124) decoded_small c
        (omega arith))

-- Octets that are codes decode to twice as many octets of PCM, and encoding these gives the codes
-- back, but for 127, the second zero, which comes back as 255.
pub mulaw-round_trip :
    (codes : List ℕ)
    → All (λ c. c ≤ 255) codes
    → (octets : List ℕ) × (mulaw_to_pcm16le codes ≡ some octets)
      × (length octets ≡ 2 * length codes)
      × (pcm16le_to_mulaw octets ≡ some (map canonical codes))
unfolding mulaw_to_pcm16le pcm16le_to_mulaw
mulaw-round_trip [] h = ([], refl, refl, refl)
mulaw-round_trip (c ∷ codes) h =
    let (octets, e, n, r) = mulaw-round_trip codes h.1 in
    let s = decoded (255 - c) in
    let small = small_of c h.0 in
    (
      pack_h s ++ octets,
      mulaw_step c codes octets h.0 e,
      length-pack_h s octets ∙ omega (arith, n),
      pcm_step s octets (map canonical codes) (omega (arith, small)) (omega (arith, small)) r
          ∙ rw (code_returns c h.0) refl,
    )
