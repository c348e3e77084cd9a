-- ===== src/JobQueue/Order.antt =====
-- The order in which jobs are claimed.
use voxbench.Base.{◌≡◌, ◌<◌, ◌≤◌, ◌⊎◌, inl, inr, true, false, ltb, arith, Bool-cases}
use voxbench.JobQueue.Row.{RunJob}
use voxbench.JobQueue.Statements.{comes_before}

-- The order of claims: by availability, then by age, then by id.
pub comes_before-asym : (a b : RunJob) → comes_before a b ≡ true → comes_before b a ≡ false
unfolding comes_before
comes_before-asym a b h = ground arith

pub comes_before-cotrans :
    (a b c : RunJob)
    → comes_before a b ≡ false
    → comes_before b c ≡ false
    → comes_before a c ≡ false
unfolding comes_before
comes_before-cotrans a b c h k = ground arith

-- Row a is due no later than b: by availability, then by age, then by id.
abbrev pub DueBy : RunJob → RunJob → Type 0
DueBy a b =
    (a.available_at < b.available_at)
    ⊎ ((a.available_at ≡ b.available_at)
        × ((a.created_at < b.created_at) ⊎ ((a.created_at ≡ b.created_at) × (a.id ≤ b.id))))

pub comes_before-DueBy : (a b : RunJob) → comes_before b a ≡ false → DueBy a b
unfolding comes_before
comes_before-DueBy a b h = elim (Bool-cases (ltb a.available_at b.available_at)) [
  | inl e ↦ inl (ground arith)
  | inr e ↦ inr (
    ground arith,
    elim (Bool-cases (ltb a.created_at b.created_at)) [
      | inl f ↦ inl (ground arith)
      | inr f ↦ inr (ground arith, ground arith)
    ],
  )
]
