-- ===== src/Verification/Aggregation/Accepted.antt =====
-- What the aggregation returns passes the checks of the loader, for
-- `aggregate_full_reference_reports` of src/voxbench/verification/aggregation.py.
use voxbench.Base.{
  ℕ, ap, ◌+◌, ◌≡◌, refl, subst, ◌∙◌, inl, inr, String, Bool, true, false, ◌&&◌, List, [], ◌∷◌, ◌++◌,
  map, length, length-append, All, leb, ltb, ltb-false, le→leb, arith, Bool-cases, if◌then◌else◌,
  text_eq, other_text, both_of, of_not, neither_of,
}
use voxbench.Verification.Scores.{
  ScorerContract, ScoreResult, ScoringReport, StageAggregate, TreatmentReport, Statistics, Numbers,
}
use voxbench.Verification.Tallies.{is_among, result_of}
use voxbench.Verification.Aggregation.{
  done, refused, and_then, no_reports, too_few_samples, unsafe_treatment, is_safe_treatment,
  check_arguments, unless_indexed, check_contract, add_stage, same_contract, index_results,
  index_reports, aggregate_stages, aggregate_reports,
}
use voxbench.Verification.Aggregation.Loader.{
  all_stages, stages_differ, stage_agrees, stage_fits, contract_fits, loader_accepts,
}
use voxbench.Verification.Aggregation.Counted.{
  and_then-done, done_inj, AllPassing, aggregate_stages-AllPassing,
}

pub is_among-append :
    (s x : String) (order : List String)
    → is_among s order ≡ false
    → text_eq x s ≡ false
    → is_among s (order ++ x ∷ []) ≡ false
unfolding is_among
is_among-append s x [] h h' = rw h' refl
is_among-append s x (n ∷ order) h h' =
    let (e, f) = neither_of _ (is_among s order) h in rw (e, is_among-append s x order f h') refl

stages_differ-append :
    (x : String) (order : List String)
    → stages_differ order ≡ true
    → is_among x order ≡ false
    → stages_differ (order ++ x ∷ []) ≡ true
unfolding stages_differ is_among
stages_differ-append x [] h h' = refl
stages_differ-append x (s ∷ order) h h' =
    let (e, f) = both_of _ (stages_differ order) h in
    let (e', f') = neither_of (text_eq s x) (is_among x order) h' in
    rw (is_among-append s x order (of_not _ e) (other_text s x e'))
      (stages_differ-append x order f f')

add_stage-differ :
    (x : String) (order : List String)
    → stages_differ order ≡ true
    → stages_differ (add_stage x order) ≡ true
unfolding add_stage
add_stage-differ x order h = elim (Bool-cases (is_among x order)) [
  | inl e ↦ rw e h
  | inr e ↦ rw e (stages_differ-append x order h e)
]

module _ {F : Type 0} where
  -- No stage is listed twice.
  index_results-differ :
      (results indexed : List (ScoreResult F)) (order : List String)
      (x : List (ScoreResult F) × List String)
      → index_results results indexed order ≡ done x
      → stages_differ order ≡ true
      → stages_differ x.1 ≡ true
  unfolding index_results
  index_results-differ [] indexed order x h differ =
      subst (λ y. stages_differ y.1 ≡ true) (done_inj (indexed, order) x h) differ
  index_results-differ (r ∷ results) indexed order x h differ =
      let added = indexed ++ r ∷ [] in
      let (_, _, k) =
        and_then-done (unless_indexed (result_of r.stage indexed))
          (λ _. index_results results added (add_stage r.stage order)) x h in
      index_results-differ results added (add_stage r.stage order) x k
        (add_stage-differ r.stage order differ)

module _ {F : Type 0} (statistics : Statistics F) (contract : ScorerContract F) where
  -- Every report is indexed, and no stage is listed twice.
  unfoldable Indexed :
      List (ScoringReport F) → List (List (ScoreResult F)) × List String → ℕ → Type 0
  Indexed reports x n = (length x.0 ≡ n + length reports) × (stages_differ x.1 ≡ true)

  index_reports-Indexed :
      (reports : List (ScoringReport F)) (indexed_reports : List (List (ScoreResult F)))
      (order : List String) (x : List (List (ScoreResult F)) × List String)
      → index_reports statistics contract reports indexed_reports order ≡ done x
      → stages_differ order ≡ true
      → Indexed reports x (length indexed_reports)
  unfolding index_reports Indexed
  index_reports-Indexed [] indexed_reports order x h differ =
      subst (λ y. (length y.0 ≡ length indexed_reports + 0) × (stages_differ y.1 ≡ true))
        (done_inj (indexed_reports, order) x h) (omega arith, differ)
  index_reports-Indexed (report ∷ reports) indexed_reports order x h differ =
      let next = λ (y : List (ScoreResult F) × List String).
        index_reports statistics contract reports (indexed_reports ++ y.0 ∷ []) y.1 in
      let (_, _, h') =
        and_then-done (check_contract (same_contract statistics report.contract contract))
          (λ _. and_then (index_results report.results [] order) next) x h in
      let (y, e, k) = and_then-done (index_results report.results [] order) next x h' in
      let (total, differ') =
        index_reports-Indexed reports (indexed_reports ++ y.0 ∷ []) y.1 x k
          (index_results-differ report.results [] order y e differ) in
      (omega (arith, total, length-append indexed_reports (y.0 ∷ [])), differ')

passed_both :
    (safe few : Bool) (u : Unit)
    → (if safe
        then (if few then refused too_few_samples else done tt)
        else refused unsafe_treatment)
      ≡ done u
    → (safe ≡ true) × (few ≡ false)
passed_both true true u h = absurd (cc h)
passed_both true false u h = (refl, refl)
passed_both false few u h = absurd (cc h)

check_arguments_sound :
    (treatment : String) (minimum_samples : ℕ) (u : Unit)
    → check_arguments treatment minimum_samples ≡ done u
    → (is_safe_treatment treatment ≡ true) × (leb 2 minimum_samples ≡ true)
unfolding check_arguments
check_arguments_sound treatment minimum_samples u h =
    let (safe, enough) = passed_both (is_safe_treatment treatment) (ltb minimum_samples 2) u h in
    (safe, le→leb 2 minimum_samples (ltb-false minimum_samples 2 enough))

abbrev pub report_of :
    {F : Type 0} → String → ℕ → ScorerContract F → List (StageAggregate F) → TreatmentReport F
report_of treatment minimum_samples contract stages = record {
  treatment = treatment;
  minimum_samples = minimum_samples;
  contract = contract;
  stages = stages;
}

all_stages-both :
    {F : Type 0} (p q : StageAggregate F → Bool) (stages : List (StageAggregate F))
    → all_stages q stages ≡ true
    → all_stages (λ a. p a && q a) stages ≡ all_stages p stages
unfolding all_stages
all_stages-both p q [] h = refl
all_stages-both p q (a ∷ stages) h =
    let (e, f) = both_of (q a) (all_stages q stages) h in
    rw (e, all_stages-both p q stages f)
      (elim (Bool-cases (p a)) [ inl g ↦ rw g refl | inr g ↦ rw g refl ])

two_left :
    (a b c d d' e : Bool)
    → a ≡ true
    → b ≡ true
    → d ≡ d'
    → e ≡ true
    → (a && b && c && d && e) ≡ (c && d')
two_left a b c d d' e ha hb hd he = rw (ha, hb, hd, he) (right c d')
  where
    right : (x y : Bool) → (x && y && true) ≡ (x && y)
    right true true = refl
    right true false = refl
    right false y = refl

module _ {F : Type 0} (numbers : Numbers F) where
  report_of-accepted :
      (treatment : String) (minimum_samples : ℕ) (contract : ScorerContract F)
      (stages : List (StageAggregate F)) (order : List String)
      → is_safe_treatment treatment ≡ true
      → leb 2 minimum_samples ≡ true
      → all_stages (stage_agrees contract) stages ≡ true
      → map (λ a. a.stage) stages ≡ order
      → stages_differ order ≡ true
      → loader_accepts numbers (report_of treatment minimum_samples contract stages)
        ≡ (contract_fits numbers contract && all_stages (stage_fits numbers) stages)
  unfolding loader_accepts
  report_of-accepted treatment minimum_samples contract stages order safe enough agree names h =
      two_left (is_safe_treatment treatment) (leb 2 minimum_samples)
        (contract_fits numbers contract)
        (all_stages (λ a. stage_fits numbers a && stage_agrees contract a) stages)
        (all_stages (stage_fits numbers) stages) (stages_differ (map (λ a. a.stage) stages)) safe
        enough (all_stages-both (stage_fits numbers) (stage_agrees contract) stages agree)
        (ap stages_differ names ∙ h)

-- The loader accepts a report that the aggregation returned exactly if its contract fits (safe
-- names, finite bounds in order) and every stage fits by itself (a safe alias, safe
-- transformations, finite statistics): the checks on the treatment, the minimum of samples, the
-- sums of the counts, the statistics of aggregated stages, the metadata of stages and their
-- distinct names never refuse it. The total of every stage is the number of reports.
pub aggregate_reports-accepted :
    {F : Type 0} (numbers : Numbers F) (statistics : Statistics F) (treatment : String)
    (reports : List (ScoringReport F)) (minimum_samples : ℕ) (report : TreatmentReport F)
    → aggregate_reports statistics treatment reports minimum_samples ≡ done report
    → (loader_accepts numbers report
        ≡ (contract_fits numbers report.contract && all_stages (stage_fits numbers) report.stages))
      × All (λ a. a.samples_total ≡ length reports) report.stages
unfolding aggregate_reports AllPassing Indexed stages_differ
aggregate_reports-accepted numbers statistics treatment [] minimum_samples report h =
    let (_, _, k) =
      and_then-done (check_arguments treatment minimum_samples) (λ _. refused no_reports) report
        h in
    absurd (cc k)
aggregate_reports-accepted {F} numbers statistics treatment (first ∷ reports) minimum_samples report
      h =
    let contract = first.contract in
    let stages_of = λ (x : List (List (ScoreResult F)) × List String).
      aggregate_stages statistics treatment contract x.0 minimum_samples x.1 in
    let finish = λ (stages : List (StageAggregate F)).
      done (report_of treatment minimum_samples contract stages) in
    let indexing = index_reports statistics contract (first ∷ reports) [] [] in
    let (_, checked, h1) =
      and_then-done (check_arguments treatment minimum_samples)
        (λ _. and_then indexing (λ x. and_then (stages_of x) finish)) report h in
    let (x, indexed, h2) = and_then-done indexing (λ x. and_then (stages_of x) finish) report h1 in
    let (stages, aggregated, h3) = and_then-done (stages_of x) finish report h2 in
    let (safe, enough) = check_arguments_sound treatment minimum_samples _ checked in
    let (total, differ) =
      index_reports-Indexed statistics contract (first ∷ reports) [] [] x indexed refl in
    let (accepted, totals, names) =
      aggregate_stages-AllPassing statistics treatment contract x.0 minimum_samples x.1 stages
        aggregated in
    subst
      (λ r.
        (loader_accepts numbers r
          ≡ (contract_fits numbers r.contract && all_stages (stage_fits numbers) r.stages))
        × All (λ a. a.samples_total ≡ length (first ∷ reports)) r.stages)
      (done_inj (report_of treatment minimum_samples contract stages) report h3)
      (
        report_of-accepted numbers treatment minimum_samples contract stages x.1 safe enough
            accepted names differ,
        subst (λ n. All (λ a. a.samples_total ≡ n) stages) (total ∙ omega arith) totals,
      )
