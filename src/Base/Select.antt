-- ===== src/Base/Select.antt =====
-- Selections from a list of rows: the first that qualifies, and the least in an order.
use mathlib.Core.Path.{◌≡◌, sym, subst, ap, ◌∙◌}
use mathlib.Core.Bool.{Bool, true, false}
use mathlib.Core.Logic.{◌⊎◌, inl, inr}
use mathlib.Core.List.{List, [], ◌∷◌, Memᴰ}
use mathlib.Core.Option.{Option, none, some}
use native.Mathlib.Omega.{arith}
use voxbench.Base.Tests.{if◌then◌else◌, Bool-cases, Option-cases}
use voxbench.Base.Lists.{All, All-weaken}

module _ {ℓ} {A : Type ℓ} where
  -- SELECT … WHERE, where at most one row is expected: the first that qualifies.
  unfoldable pub first_where : (A → Bool) → List A → Option A
  first_where p [] = none
  first_where p (row ∷ t) = if p row then some row else first_where p t

  -- The better of a row and the best of those behind it.
  unfoldable pub choose : (A → A → Bool) → A → Option A → Option A
  choose before row none = some row
  choose before row (some other) = if before other row then some other else some row

  -- SELECT … WHERE … ORDER BY … LIMIT 1, for the order `before`.
  unfoldable pub earliest : (A → A → Bool) → (A → Bool) → List A → Option A
  unfolding choose
  earliest before p [] = none
  earliest before p (row ∷ t) =
      let best = earliest before p t in if p row then choose before row best else best

  pub All-mem {κ} : (P : A → Type κ) (t : List A) {row : A} → All P t → Memᴰ row t → P row
  All-mem P [] h m = elim m [ ]
  All-mem P (r ∷ t) h (Memᴰ.head e) = subst P (sym e) h.0
  All-mem P (r ∷ t) h (Memᴰ.tail m) = All-mem P t h.1 m

  -- A selected row is in the table and qualifies.
  pub first_where-mem :
      (p : A → Bool) (t : List A) (row : A)
      → first_where p t ≡ some row
      → Memᴰ row t × (p row ≡ true)
  unfolding first_where
  first_where-mem p [] row e = cc
  first_where-mem p (r ∷ t) row e = elim (Bool-cases (p r)) [
    | inl y ↦ let same : row ≡ r = ground arith in (Memᴰ.head same, ap p same ∙ y)
    | inr n ↦ let (m, q) = first_where-mem p t row (ground arith) in (Memᴰ.tail m, q)
  ]

  -- No row is selected only if none qualifies.
  pub first_where_misses :
      (p : A → Bool) (t : List A) → first_where p t ≡ none → All (λ row. p row ≡ false) t
  unfolding first_where
  first_where_misses p [] e = tt
  first_where_misses p (r ∷ t) e = elim (Bool-cases (p r)) [
    | inl y ↦ absurd (ground arith)
    | inr n ↦ (n, first_where_misses p t (ground arith))
  ]

module _ {ℓ} {A : Type ℓ} (before : A → A → Bool) (p : A → Bool) where
  -- The three ways in which the best of a list comes about.
  data Best (r : A) (best : Option A) : Option A → Type ℓ where
    skipped : {o : Option A} → p r ≡ false → o ≡ best → Best r best o
    kept :
        {o : Option A} (b : A)
        → best ≡ some b
        → p r ≡ true
        → before b r ≡ true
        → o ≡ some b
        → Best r best o
    taken :
        {o : Option A}
        → p r ≡ true
        → o ≡ some r
        → (best ≡ none) ⊎ ((b : A) × (best ≡ some b) × (before b r ≡ false))
        → Best r best o

  earliest-Best : (r : A) (t : List A) → Best r (earliest before p t) (earliest before p (r ∷ t))
  unfolding earliest
  earliest-Best r t = elim (Bool-cases (p r)) [
    | inr n ↦ skipped n (ground arith)
    | inl y ↦ elim (Option-cases (earliest before p t)) [
      | inl e ↦ taken y (ground arith) (inl e)
      | inr (b, e) ↦ elim (Bool-cases (before b r)) [
        | inl u ↦ kept b e y u (ground arith)
        | inr u ↦ taken y (ground arith) (inr (b, e, u))
      ]
    ]
  ]

  pub earliest-mem :
      (t : List A) (row : A) → earliest before p t ≡ some row → Memᴰ row t × (p row ≡ true)
  earliest-mem [] row e = unfold earliest in cc
  earliest-mem (r ∷ t) row e = go (earliest-mem t) e (earliest-Best r t)
    where
      go :
          {o : Option A}
          → ((b : A) → earliest before p t ≡ some b → Memᴰ b t × (p b ≡ true))
          → o ≡ some row
          → Best r (earliest before p t) o
          → Memᴰ row (r ∷ t) × (p row ≡ true)
      go ih e (skipped n q) = let (m, y) = ih row (cc) in (Memᴰ.tail m, y)
      go ih e (kept b q y u w) = let (m, z) = ih row (cc) in (Memᴰ.tail m, z)
      go ih e (taken y q w) = let same : row ≡ r = cc in (Memᴰ.head same, ap p same ∙ y)

  -- No row is selected only if none qualifies.
  pub earliest_misses : (t : List A) → earliest before p t ≡ none → All (λ row. p row ≡ false) t
  unfolding earliest
  earliest_misses [] e = tt
  earliest_misses (r ∷ t) e = elim (Bool-cases (p r)) [
    | inl y ↦ absurd (ground arith)
    | inr n ↦ (n, earliest_misses t (ground arith))
  ]

  -- No qualifying row comes before the selected one, if the order is asymmetric and its negation
  -- is transitive.
  module _ (asym : (a b : A) → before a b ≡ true → before b a ≡ false)
      (cotrans : (a b c : A) → before a b ≡ false → before b c ≡ false → before a c ≡ false) where
    pub earliest_least :
        (t : List A) (row : A)
        → earliest before p t ≡ some row
        → All (λ other. p other ≡ true → before other row ≡ false) t
    earliest_least [] row e = tt
    earliest_least (r ∷ t) row e = go (earliest_least t) e (earliest-Best r t)
      where
        irreflexive : before r r ≡ false
        irreflexive = elim (Bool-cases (before r r)) [ inl y ↦ asym r r y | inr n ↦ n ]

        go :
            {o : Option A}
            → ((b : A)
                → earliest before p t ≡ some b
                → All (λ other. p other ≡ true → before other b ≡ false) t)
            → o ≡ some row
            → Best r (earliest before p t) o
            → All (λ other. p other ≡ true → before other row ≡ false) (r ∷ t)
        go ih e (skipped n q) = (λ y. cc, ih row (cc))
        go ih e (kept b q y u w) =
            let same : b ≡ row = cc in
            (λ _. subst (λ x. before r x ≡ false) same (asym b r u), ih row (cc))
        go ih e (taken y q (inl none_left)) =
            let same : r ≡ row = cc in
            (
              λ _. subst (λ x. before r x ≡ false) same irreflexive,
              All-weaken _ _ t (λ other n z. cc) (earliest_misses t none_left),
            )
        go ih e (taken y q (inr (b, found, u))) =
            let same : r ≡ row = cc in
            (
              λ _. subst (λ x. before r x ≡ false) same irreflexive,
              All-weaken _ _ t
                  (λ other h z.
                    subst (λ x. before other x ≡ false) same (cotrans other b r (h z) u))
                  (ih b found),
            )
