-- ===== src/Base/Decimal.antt =====
-- Decimal numerals by their code points: `str` and `int` of a number, and their round trip.
use Prim.Native.Nat.{ℕ, zero, suc, ◌+◌, ◌-◌, ◌*◌, ◌/◌, ◌%◌, ◌≤◌, ◌<◌}
use mathlib.Core.Path.{◌≡◌, refl, ap, ◌∙◌}
use mathlib.Core.Logic.{inl, inr}
use mathlib.Core.Bool.{Bool, true, ◌&&◌}
use mathlib.Core.List.{List, [], ◌∷◌}
use native.Mathlib.Omega.{arith}
use voxbench.Base.Tests.{ltb, leb, ltb→lt, ltb-false, if◌then◌else◌, Bool-cases}
use voxbench.Base.Text.{all_codes}
use voxbench.Base.Lists.{length}

-- The numeral of n before the codes `after`. Every round divides by ten, so that n rounds and one
-- are enough.
unfoldable pub digits_before : ℕ → ℕ → List ℕ → List ℕ
digits_before zero n after = after
digits_before (suc rounds) n after =
    let more = digits_before rounds (n / 10) ((48 + n % 10) ∷ after) in
    if ltb n 10 then (48 + n % 10) ∷ after else more

-- `str(n)`
unfoldable pub digits : ℕ → List ℕ
unfolding digits_before
digits n = digits_before (suc n) n []

-- `int(text)` of ASCII digits, after the number that was read.
unfoldable pub number_after : ℕ → List ℕ → ℕ
number_after n [] = n
number_after n (c ∷ cs) = number_after (10 * n + (c - 48)) cs

abbrev pub is_ascii_digit : ℕ → Bool
is_ascii_digit c = leb 48 c && leb c 57

number-digits_before :
    (rounds n : ℕ) (after : List ℕ)
    → n < rounds
    → number_after 0 (digits_before rounds n after) ≡ number_after n after
unfolding digits_before number_after
number-digits_before zero n after l = absurd (omega arith)
number-digits_before (suc rounds) n after l = elim (Bool-cases (ltb n 10)) [
  | inl y ↦
      let small : 10 * 0 + (48 + n % 10 - 48) ≡ n = omega (arith, ltb→lt n 10 y) in
      rw y (ap (λ k. number_after k after) small)
  | inr m ↦
      let large : 10 ≤ n = ltb-false n 10 m in
      let whole : 10 * (n / 10) + (48 + n % 10 - 48) ≡ n = omega arith in
      rw m (
        number-digits_before rounds (n / 10) ((48 + n % 10) ∷ after) (omega arith)
        ∙ ap (λ k. number_after k after) whole)
]

-- A numeral is read as its number.
pub number-digits : (n : ℕ) → number_after 0 (digits n) ≡ n
unfolding digits number_after
number-digits n = number-digits_before (suc n) n [] (omega arith)

digits_before-all :
    (rounds n : ℕ) (after : List ℕ)
    → all_codes is_ascii_digit after ≡ true
    → all_codes is_ascii_digit (digits_before rounds n after) ≡ true
unfolding digits_before all_codes
digits_before-all zero n after h = h
digits_before-all (suc rounds) n after h =
    let digit : is_ascii_digit (48 + n % 10) ≡ true = ground arith in
    let more : all_codes is_ascii_digit ((48 + n % 10) ∷ after) ≡ true = rw (digit, h) refl in
    elim (Bool-cases (ltb n 10)) [
      | inl y ↦ rw y more
      | inr m ↦ rw m (digits_before-all rounds (n / 10) ((48 + n % 10) ∷ after) more)
    ]

pub digits-all : (n : ℕ) → all_codes is_ascii_digit (digits n) ≡ true
unfolding digits all_codes
digits-all n = digits_before-all (suc n) n [] refl

length-digits_before :
    (rounds n : ℕ) (after : List ℕ) → length after ≤ length (digits_before rounds n after)
unfolding digits_before
length-digits_before zero n after = omega arith
length-digits_before (suc rounds) n after = elim (Bool-cases (ltb n 10)) [
  | inl y ↦ rw y (omega arith)
  | inr m ↦ rw m (omega (arith, length-digits_before rounds (n / 10) ((48 + n % 10) ∷ after)))
]

pub digits_some : (n : ℕ) → 1 ≤ length (digits n)
unfolding digits digits_before
digits_some n = elim (Bool-cases (ltb n 10)) [
  | inl y ↦ rw y (omega arith)
  | inr m ↦ rw m (omega (arith, length-digits_before n (n / 10) ((48 + n % 10) ∷ [])))
]
