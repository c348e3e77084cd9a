-- ===== src/Media/Resampler/Positions.antt =====
-- The positions of `Pcm16MonoStreamResampler` of src/voxbench/media/pcm.py, and the samples that it
-- drops at its left.
use native.Mathlib.Nat.{
  div-add-mod', mod-lt, le-div_iff_mul-le, div-lt_iff_lt-mul, add-mul-div_right,
}
use voxbench.Base.{
  ℕ, zero, suc, ◌+◌, ◌-◌, ◌*◌, ◌/◌, ◌≤◌, ◌<◌, ◌≡◌, refl, subst, List, [], ◌∷◌, ◌++◌, length, drop,
  arith,
}

-- The samples that are dropped after the loop stopped at a position.
abbrev pub dropped : ℕ → ℕ → ℕ
dropped output_rate p = p / output_rate - 1

pub drop-append_le :
    {A : Type 0} (k : ℕ) (xs ys : List A) → k ≤ length xs → drop k xs ++ ys ≡ drop k (xs ++ ys)
drop-append_le zero xs ys l = refl
drop-append_le (suc k) [] ys l = absurd (omega arith)
drop-append_le (suc k) (x ∷ xs) ys l = drop-append_le k xs ys (omega arith)

module _ (output_rate : ℕ) (positive : 0 < output_rate) where
  pub dropped_below : (n p : ℕ) → p < (n + 2) * output_rate → dropped output_rate p ≤ n
  dropped_below n p l = omega (arith, (div-lt_iff_lt-mul {k = output_rate} positive).1 l)

  whole_part : (p : ℕ) → p / output_rate * output_rate ≤ p
  whole_part p = omega (arith, div-add-mod' p output_rate)

  pub split_quotient : (p : ℕ) → dropped output_rate p * output_rate ≤ p
  split_quotient p = split (p / output_rate) refl
    where
      split : (q : ℕ) → p / output_rate ≡ q → (q - 1) * output_rate ≤ p
      split zero e =
          let none_left : (0 - 1) * output_rate ≡ 0 = omega arith in omega (arith, none_left)
      split (suc q) e =
          let less : suc q - 1 ≡ q = omega arith in
          let whole : suc q * output_rate ≤ p = subst (λ k. k * output_rate ≤ p) e (whole_part p) in
          rw less (omega (arith, whole))

  -- Dropping twice is dropping once.
  pub dropped_add :
      (p q : ℕ)
      → p - dropped output_rate p * output_rate ≤ q
      → dropped output_rate (q + dropped output_rate p * output_rate)
        ≡ dropped output_rate p + dropped output_rate q
  dropped_add p q l = split (p / output_rate) refl
    where
      split :
          (k : ℕ)
          → p / output_rate ≡ k
          → dropped output_rate (q + dropped output_rate p * output_rate)
            ≡ dropped output_rate p + dropped output_rate q
      split zero e = omega (arith, e, add-mul-div_right q (dropped output_rate p) positive)
      split (suc zero) e = omega (arith, e, add-mul-div_right q (dropped output_rate p) positive)
      split (suc (suc k)) e =
          let d : dropped output_rate p ≡ suc k = omega (arith, e) in
          let whole : suc (suc k) * output_rate ≤ p =
            subst (λ m. m * output_rate ≤ p) e (whole_part p) in
          let l' : p - suc k * output_rate ≤ q = subst (λ m. p - m * output_rate ≤ q) d l in
          let one : 1 ≤ q / output_rate =
            (le-div_iff_mul-le positive).1 (omega (arith, whole, l')) in
          omega (arith, one, e, add-mul-div_right q (dropped output_rate p) positive)

  -- After a piece, the position is before the second of the samples that are left.
  pub remaining_below : (p : ℕ) → p - dropped output_rate p * output_rate < 2 * output_rate
  remaining_below p = split (p / output_rate) refl
    where
      next : p < p / output_rate * output_rate + output_rate
      next = omega (arith, div-add-mod' p output_rate, mod-lt p positive)

      split :
          (k : ℕ) → p / output_rate ≡ k → p - dropped output_rate p * output_rate < 2 * output_rate
      split zero e =
          let l : p < 0 * output_rate + output_rate =
            subst (λ m. p < m * output_rate + output_rate) e next in
          omega (arith, l)
      split (suc k) e =
          let l : p < suc k * output_rate + output_rate =
            subst (λ m. p < m * output_rate + output_rate) e next in
          let d : dropped output_rate p ≡ k = omega (arith, e) in rw d (omega (arith, l))
