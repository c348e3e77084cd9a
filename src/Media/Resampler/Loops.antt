-- ===== src/Media/Resampler/Loops.antt =====
-- The loop of `Pcm16MonoStreamResampler._produce` of src/voxbench/media/pcm.py that waits for a
-- right sample, as a relation: it ends, and it may be interrupted and moved.
use native.Mathlib.Nat.{add-mul-div_right, add-mul-mod_self_right}
use voxbench.Base.{
  ℕ, zero, suc, ◌+◌, ◌*◌, ◌/◌, ◌%◌, ◌<◌, ◌≡◌, refl, sym, ap, ◌∙◌, true, Option, none, some,
  some_inj, List, [], ◌∷◌, ◌++◌, length, drop, get_elem?, arith,
}
use voxbench.Base.Int.{ℤ}
use voxbench.Media.Resampler.{interpolate, next_value}

get-append :
    {A : Type 0} (xs ys : List A) (i : ℕ) (x : A)
    → get_elem? xs i ≡ some x
    → get_elem? (xs ++ ys) i ≡ some x
get-append [] ys i x e = cc
get-append (y ∷ xs) ys zero x e = e
get-append (y ∷ xs) ys (suc i) x e = get-append xs ys i x e

get-drop :
    {A : Type 0} (k : ℕ) (xs : List A) (i : ℕ) → get_elem? (drop k xs) i ≡ get_elem? xs (k + i)
get-drop zero xs i = let same : 0 + i ≡ i = omega arith in rw same refl
get-drop (suc k) [] i = refl
get-drop (suc k) (x ∷ xs) i =
    let next : suc k + i ≡ suc (k + i) = omega arith in rw next (get-drop k xs i)

get-some : {A : Type 0} (xs : List A) (i : ℕ) (x : A) → get_elem? xs i ≡ some x → i < length xs
get-some [] i x e = cc
get-some (y ∷ xs) zero x e = omega arith
get-some (y ∷ xs) (suc i) x e = omega (arith, get-some xs i x e)

module _ (output_rate : ℕ) where
  -- There is a value exactly if there are a left and a right sample.
  pair_value : ℕ → Option ℤ → Option ℤ → Option ℤ
  pair_value fraction left right = elim left [
    | none ↦ none
    | some l ↦ elim right [ none ↦ none | some r ↦ some (interpolate output_rate fraction l r) ]
  ]

  next-pair :
      (xs : List ℤ) (p : ℕ)
      → next_value true output_rate xs p
        ≡ pair_value
            (p % output_rate)
            (get_elem? xs (p / output_rate))
            (get_elem? xs (p / output_rate + 1))
  unfolding next_value pair_value
  next-pair xs p = split (get_elem? xs (p / output_rate)) (get_elem? xs (p / output_rate + 1))
    where
      split :
          (left right : Option ℤ)
          → elim left [
            | none ↦ none
            | some l ↦ elim right [
              | some r ↦ some (interpolate output_rate (p % output_rate) l r)
              | none ↦ none
            ]
          ]
            ≡ pair_value (p % output_rate) left right
      split none right = refl
      split (some l) none = refl
      split (some l) (some r) = refl

  -- The two samples that a value comes from.
  value-pair :
      (fraction : ℕ) (left right : Option ℤ) (v : ℤ)
      → pair_value fraction left right ≡ some v
      → (l r : ℤ) × (left ≡ some l) × (right ≡ some r) × (v ≡ interpolate output_rate fraction l r)
  unfolding pair_value
  value-pair fraction none right v e = cc
  value-pair fraction (some l) none v e = cc
  value-pair fraction (some l) (some r) v e = (l, r, refl, refl, sym (some_inj _ _ e))

  pub next-append :
      (xs ys : List ℤ) (p : ℕ) (v : ℤ)
      → next_value true output_rate xs p ≡ some v
      → next_value true output_rate (xs ++ ys) p ≡ some v
  next-append xs ys p v e =
      let (l, r, el, er, ev) = value-pair (p % output_rate) _ _ v (sym (next-pair xs p) ∙ e) in
      next-pair (xs ++ ys) p
      ∙ rw (get-append xs ys (p / output_rate) l el, get-append xs ys (p / output_rate + 1) r er)
          (unfold pair_value in ap (λ (z : ℤ). some z) (sym ev))

  pub next-short :
      (xs : List ℤ) (p : ℕ) (v : ℤ)
      → next_value true output_rate xs p ≡ some v
      → p / output_rate + 1 < length xs
  next-short xs p v e =
      let (l, r, el, er, ev) = value-pair (p % output_rate) _ _ v (sym (next-pair xs p) ∙ e) in
      get-some xs (p / output_rate + 1) r er

  pub next-drop :
      (k : ℕ) (xs : List ℤ) (p : ℕ)
      → 0 < output_rate
      → next_value true output_rate (drop k xs) p
        ≡ next_value true output_rate xs (p + k * output_rate)
  next-drop k xs p positive =
      let left : k + p / output_rate ≡ p / output_rate + k = omega arith in
      let right : k + (p / output_rate + 1) ≡ p / output_rate + k + 1 = omega arith in
      next-pair (drop k xs) p
      ∙ rw (get-drop k xs (p / output_rate), get-drop k xs (p / output_rate + 1), left, right)
          (sym (
            next-pair xs (p + k * output_rate)
            ∙ rw (add-mul-div_right p k positive, add-mul-mod_self_right p k output_rate) refl))
