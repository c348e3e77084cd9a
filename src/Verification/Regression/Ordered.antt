-- ===== src/Verification/Regression/Ordered.antt =====
-- The order of the stages of a comparison: for `compare_full_reference_treatments` of
-- src/voxbench/verification/regression.py.
use voxbench.Base.{
  ◌≡◌, refl, sym, ap, ◌∙◌, inl, inr, String, true, false, not, List, [], ◌∷◌, ◌++◌, append_assoc,
  append-nil, map, filter, All, Bool-cases, both_of, of_not, neither_of, other_text, text_eq,
}
use voxbench.Verification.Scores.{StageAggregate}
use voxbench.Verification.Tallies.{is_among}
use voxbench.Verification.Aggregation.{add_stage}
use voxbench.Verification.Aggregation.Loader.{stages_differ}
use voxbench.Verification.Aggregation.Accepted.{is_among-append}
use voxbench.Verification.Regression.{names_of, not_among, stage_order}

-- None of the names is known.
abbrev New : List String → List String → Type 0
New known names = All (λ n. is_among n known ≡ false) names

New-nil : (names : List String) → New [] names
unfolding is_among
New-nil [] = tt
New-nil (n ∷ names) = (refl, New-nil names)

-- A name that differs from the others may be added to the known ones.
New-add :
    (known : List String) (name : String) (names : List String)
    → New known names
    → is_among name names ≡ false
    → New (known ++ name ∷ []) names
unfolding is_among
New-add known name [] h off = tt
New-add known name (n ∷ names) h off =
    let (e, f) = neither_of (text_eq n name) (is_among name names) off in
    (is_among-append n name known h.0 (other_text n name e), New-add known name names h.1 f)

module _ {F : Type 0} where
  names_of-New :
      (stages : List (StageAggregate F)) (known : List String)
      → stages_differ (map (λ a. a.stage) stages) ≡ true
      → New known (map (λ a. a.stage) stages)
      → names_of stages known ≡ known ++ map (λ a. a.stage) stages
  unfolding names_of stages_differ add_stage
  names_of-New [] known differ new = sym (append-nil known)
  names_of-New (a ∷ stages) known differ new =
      let names = map (λ b. b.stage) stages in
      let (e, f) = both_of (not (is_among a.stage names)) (stages_differ names) differ in
      rw new.0 (
        names_of-New stages (known ++ a.stage ∷ []) f
          (New-add known a.stage names new.1 (of_not _ e))
        ∙ append_assoc known (a.stage ∷ []) names)

  -- The stages of a report whose stages differ are taken as they are.
  names_of-differ :
      (stages : List (StageAggregate F))
      → stages_differ (map (λ a. a.stage) stages) ≡ true
      → names_of stages [] ≡ map (λ a. a.stage) stages
  names_of-differ stages differ =
      names_of-New stages [] differ (New-nil (map (λ a. a.stage) stages))

not_among-filter :
    (known names : List String)
    → not_among known names ≡ filter (λ name. not (is_among name known)) names
unfolding not_among
not_among-filter known [] = refl
not_among-filter known (n ∷ names) = elim (Bool-cases (is_among n known)) [
  | inl e ↦ rw e (not_among-filter known names)
  | inr e ↦ rw e (ap (λ (l : List String). n ∷ l) (not_among-filter known names))
]

-- The stages of the baseline, and then those of the current report that the baseline lacks.
pub stage_order-eq :
    {F : Type 0} (baseline current : List (StageAggregate F))
    → stages_differ (map (λ a. a.stage) baseline) ≡ true
    → stages_differ (map (λ a. a.stage) current) ≡ true
    → stage_order baseline current
      ≡ map (λ a. a.stage) baseline
        ++ filter
            (λ name. not (is_among name (map (λ a. a.stage) baseline)))
            (map (λ a. a.stage) current)
unfolding stage_order
stage_order-eq baseline current hb hc =
    rw (names_of-differ baseline hb, names_of-differ current hc)
      (ap (λ (l : List String). map (λ a. a.stage) baseline ++ l)
        (not_among-filter (map (λ a. a.stage) baseline) (map (λ a. a.stage) current)))
