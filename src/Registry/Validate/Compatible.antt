-- ===== src/Registry/Validate/Compatible.antt =====
-- What a specification that passes has, said without the checks.
use voxbench.Base.{
  ◌≡◌, ◌↔◌, ◌⊎◌, inl, inr, refl, Bool, true, false, Option, none, some, List, [], ◌∷◌,
  if◌then◌else◌, Bool-cases, some_inj,
}
use voxbench.Registry.Json.{Json, Fields, no_fields, field, lookup}
use voxbench.Registry.Schema.{IoContract}
use voxbench.Registry.Validate.Checks.{optional-passes, then-passes, require-passes}
use voxbench.Registry.Validate.{
  io_mismatch, passes, ◌then◌, require, agree, validate_pair, validate_adjacent,
}

-- The two contracts fit: no key that the left one produces has another value in what the right one
-- accepts.
abbrev pub Fits : (Json → Json → Bool) → Fields → Fields → Type 0
Fits differ no_fields accepts = Unit
Fits differ (field key value produces) accepts =
    ((lookup key accepts ≡ none)
      ⊎ ((other : Json) × (lookup key accepts ≡ some other) × (differ value other ≡ false)))
    × Fits differ produces accepts

abbrev pub PairFits : (Json → Json → Bool) → Option IoContract → Option IoContract → Type 0
PairFits differ none right = Unit
PairFits differ (some left) none = Unit
PairFits differ (some left) (some right) =
    (left.produces ≡ none)
    ⊎ ((produces : Fields) × (left.produces ≡ some produces) × Fits differ produces right.accepts)

abbrev pub Adjacent : (Json → Json → Bool) → List (Option IoContract) → Type 0
Adjacent differ [] = Unit
Adjacent differ (left ∷ []) = Unit
Adjacent differ (left ∷ right ∷ more) = PairFits differ left right × Adjacent differ (right ∷ more)

agree_step {κ} :
    (differ : Json → Json → Bool) (value : Json) (o : Option Json) (rest : Bool) (Q : Type κ)
    → (rest ≡ true) ↔ Q
    → (elim o as (λ x. Bool) [
      | none ↦ rest
      | some other ↦ if differ value other then false else rest
    ]
        ≡ true)
      ↔ (((o ≡ none) ⊎ ((other : Json) × (o ≡ some other) × (differ value other ≡ false))) × Q)
agree_step differ value none rest Q r = (λ h. (inl refl, r.0 h), λ h. r.1 h.1)
agree_step differ value (some other) rest Q r = elim (Bool-cases (differ value other)) [
  | inl e ↦ rw e (λ h. absurd (cc), λ (h, q). absurd (clash e h))
  | inr e ↦ rw e (λ h. (inr (other, refl, e), r.0 h), λ h. r.1 h.1)
]
  where
    clash :
        differ value other ≡ true
        → (some other ≡ none) ⊎ ((x : Json) × (some other ≡ some x) × (differ value x ≡ false))
        → ⊥
    clash e (inl n) = cc
    clash e (inr (x, s, d)) = let same = some_inj other x s in cc

agree-Fits :
    (differ : Json → Json → Bool) (produces accepts : Fields)
    → (agree differ produces accepts ≡ true) ↔ Fits differ produces accepts
unfolding agree
agree-Fits differ no_fields accepts = (λ h. tt, λ h. refl)
agree-Fits differ (field key value produces) accepts =
    agree_step differ value (lookup key accepts) (agree differ produces accepts)
      (Fits differ produces accepts) (agree-Fits differ produces accepts)

validate_pair-PairFits :
    (differ : Json → Json → Bool) (left right : Option IoContract)
    → (validate_pair differ left right ≡ passes) ↔ PairFits differ left right
unfolding validate_pair
validate_pair-PairFits differ none right = (λ h. tt, λ h. refl)
validate_pair-PairFits differ (some left) none = (λ h. tt, λ h. refl)
validate_pair-PairFits differ (some left) (some right) =
    optional-passes (λ produces. Fits differ produces right.accepts)
      (λ produces. require (agree differ produces right.accepts) io_mismatch) left.produces
      (λ produces.
        let (a, b) = require-passes (agree differ produces right.accepts) io_mismatch in
        let (c, d) = agree-Fits differ produces right.accepts in (λ h. c (a h), λ h. b (d h)))

pub validate_adjacent-Adjacent :
    (differ : Json → Json → Bool) (ios : List (Option IoContract))
    → (validate_adjacent differ ios ≡ passes) ↔ Adjacent differ ios
unfolding validate_adjacent
validate_adjacent-Adjacent differ [] = (λ h. tt, λ h. refl)
validate_adjacent-Adjacent differ (left ∷ []) = (λ h. tt, λ h. refl)
validate_adjacent-Adjacent differ (left ∷ right ∷ more) =
    let (split, join) =
      then-passes (validate_pair differ left right) (validate_adjacent differ (right ∷ more)) in
    let p = validate_pair-PairFits differ left right in
    let q = validate_adjacent-Adjacent differ (right ∷ more) in
    (λ h. (p.0 (split h).0, q.0 (split h).1), λ h. join (p.1 h.0, q.1 h.1))
