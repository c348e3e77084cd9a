-- ===== src/Heartbeat/Kept.antt =====
-- A heartbeat reports a lease as kept exactly if every renewal was answered with True.
use voxbench.Base.{
  ◌≡◌, ◌↔◌, refl, Bool, true, false, Option, none, some, List, [], ◌∷◌, if◌then◌else◌, All,
  Bool-cases, inl, inr, arith,
}
use voxbench.Heartbeat.{Beat, is_active_answer, beat_loop, stop_heartbeat}

-- The rounds before the first that finds `_stop` set.
abbrev pub sent : List Beat → List Beat
sent [] = []
sent (b ∷ beats) = let rest = sent beats in if b.stop_set then [] else b ∷ rest

abbrev pub Renewed : List Beat → Type 0
Renewed beats = All (λ b. b.answer ≡ some true) beats

answer_iff : (o : Option Bool) → (is_active_answer o ≡ true) ↔ (o ≡ some true)
answer_iff none = (λ h. absurd (cc), λ h. absurd (cc))
answer_iff (some true) = (λ h. refl, λ h. refl)
answer_iff (some false) = (λ h. absurd (cc), λ h. absurd (cc))

beat_loop-Renewed : (beats : List Beat) → (beat_loop beats ≡ false) ↔ Renewed (sent beats)
unfolding beat_loop
beat_loop-Renewed [] = (λ h. tt, λ h. refl)
beat_loop-Renewed (b ∷ beats) = elim (Bool-cases b.stop_set) [
  | inl e ↦ simp e (λ h. tt, λ h. refl)
  | inr e ↦ elim (Bool-cases (is_active_answer b.answer)) [
    | inl f ↦
        let (to, from) = beat_loop-Renewed beats in
        simp (e, f) (λ h. ((answer_iff b.answer).0 f, to h), λ h. from h.1)
    | inr f ↦ simp (e, f) (λ h. absurd (cc), λ h. absurd (cc (f, (answer_iff b.answer).1 h.0)))
  ]
]

-- The lease is reported as kept exactly if the thread has ended and every renewal before the stop
-- was answered with True.
pub stop_heartbeat-Renewed :
    (alive : Bool) (beats : List Beat)
    → (stop_heartbeat alive beats ≡ true) ↔ ((alive ≡ false) × Renewed (sent beats))
unfolding stop_heartbeat
stop_heartbeat-Renewed alive beats =
    let (to, from) = beat_loop-Renewed beats in
    (λ h. (ground arith, to (ground arith)), λ (e, h). let kept = from h in ground arith)
