-- ===== src/Verification/Aggregation/Taken.antt =====
-- What a report has that the loader of src/voxbench/verification/aggregation.py accepts.
use voxbench.Base.{◌≡◌, refl, Bool, true, ◌&&◌, List, [], ◌∷◌, map, leb, both_of}
use voxbench.Verification.Scores.{ScorerContract, StageAggregate, TreatmentReport, Numbers}
use voxbench.Verification.Aggregation.{is_safe_treatment}
use voxbench.Verification.Aggregation.Loader.{
  counts_agree, statistics_complete, metadata_agrees, stage_agrees, stage_fits, contract_fits,
  all_stages, stages_differ, loader_accepts,
}

all_stages-second :
    {F : Type 0} (p q : StageAggregate F → Bool) (stages : List (StageAggregate F))
    → all_stages (λ a. p a && q a) stages ≡ true
    → all_stages q stages ≡ true
unfolding all_stages
all_stages-second p q [] h = refl
all_stages-second p q (a ∷ stages) h =
    let (e, f) = both_of (p a && q a) (all_stages (λ a. p a && q a) stages) h in
    rw ((both_of (p a) (q a) e).1, all_stages-second p q stages f) refl

all_stages_complete :
    {F : Type 0} (contract : ScorerContract F) (stages : List (StageAggregate F))
    → all_stages (stage_agrees contract) stages ≡ true
    → all_stages statistics_complete stages ≡ true
unfolding all_stages stage_agrees
all_stages_complete contract [] h = refl
all_stages_complete contract (a ∷ stages) h =
    let (e, f) = both_of (stage_agrees contract a) (all_stages (stage_agrees contract) stages) h in
    let counted = counts_agree a in
    let complete = statistics_complete a in
    let (e', _) = both_of (counted && complete) (metadata_agrees contract a) e in
    rw ((both_of counted complete e').1, all_stages_complete contract stages f) refl

last_two : (a b c d e : Bool) → (a && b && c && d && e) ≡ true → (d ≡ true) × (e ≡ true)
last_two a b c d e h =
    let (f, g) = both_of (a && b && c && d) e h in ((both_of (a && b && c) d f).1, g)

pub stages_accepted :
    {F : Type 0} (numbers : Numbers F) (report : TreatmentReport F)
    → loader_accepts numbers report ≡ true
    → (all_stages statistics_complete report.stages ≡ true)
      × (stages_differ (map (λ a. a.stage) report.stages) ≡ true)
unfolding loader_accepts
stages_accepted numbers report h =
    let fits = stage_fits numbers in
    let agrees = stage_agrees report.contract in
    let (checked, differ) =
      last_two (is_safe_treatment report.treatment) (leb 2 report.minimum_samples)
        (contract_fits numbers report.contract) (all_stages (λ a. fits a && agrees a) report.stages)
        (stages_differ (map (λ a. a.stage) report.stages)) h in
    (
      all_stages_complete report.contract report.stages
          (all_stages-second fits agrees report.stages checked),
      differ,
    )
