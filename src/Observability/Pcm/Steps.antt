-- ===== src/Observability/Pcm/Steps.antt =====
-- The first of the strongest steps among samples that are numbered, and what one more sample does to
-- it: for the loops of `detect_pcm_s16le_discontinuity` of src/voxbench/observability/observer.py.
use voxbench.Base.{
  ℕ, ◌+◌, ◌*◌, ◌≤◌, ◌<◌, ◌≡◌, ◌⊎◌, inl, inr, refl, sym, ap, ◌∙◌, true, Option, none, some, some_inj,
  ltb, arith, if◌then◌else◌, Bool-cases, Option-cases,
}
use voxbench.Observability.Pcm.{Discontinuity, outranks}

-- What one step does to the strongest so far.
unfoldable pub step : Option ℕ → ℕ → ℕ → Option Discontinuity → Option Discontinuity
step none frame channel strongest = strongest
step (some delta) frame channel strongest =
    if outranks delta strongest
    then some (record { frame_offset = frame; delta = delta; channel = channel })
    else strongest

module _ (steps : ℕ → Option ℕ) (channels : ℕ) where
  abbrev pub index_of : Discontinuity → ℕ
  index_of d = d.frame_offset * channels + d.channel

  -- Of the samples before `n`, the first that has the strongest step.
  abbrev pub Strongest : ℕ → Option Discontinuity → Type 0
  Strongest n none = (k : ℕ) → k < n → steps k ≡ none
  Strongest n (some d) =
      (index_of d < n)
      × (d.channel < channels)
      × (steps (index_of d) ≡ some d.delta)
      × ((k delta : ℕ) → k < n → steps k ≡ some delta → delta ≤ d.delta)
      × ((k delta : ℕ) → k < index_of d → steps k ≡ some delta → delta < d.delta)

  upto : (k n : ℕ) → k < n + 1 → (k < n) ⊎ (k ≡ n)
  upto k n h = elim (Bool-cases (ltb k n)) [
    | inl y ↦ inl (ground arith)
    | inr e ↦ inr (ground arith)
  ]

  skip-Strongest :
      (n : ℕ) (s : Option Discontinuity) → steps n ≡ none → Strongest n s → Strongest (n + 1) s
  skip-Strongest n none e h =
      λ k l. elim (upto k n l) [ inl l' ↦ h k l' | inr same ↦ ap steps same ∙ e ]
  skip-Strongest n (some d) e h = (
    omega arith,
    h.1,
    h.2,
    λ k delta l f. elim (upto k n l) [ inl l' ↦ h.3 k delta l' f | inr same ↦ absurd (cc) ],
    h.4,
  )

  keep-Strongest :
      (n : ℕ) (d : Discontinuity) (delta : ℕ)
      → steps n ≡ some delta
      → delta ≤ d.delta
      → Strongest n (some d)
      → Strongest (n + 1) (some d)
  keep-Strongest n d delta e m h = (
    omega arith,
    h.1,
    h.2,
    λ k other l f. elim (upto k n l) [
      | inl l' ↦ h.3 k other l' f
      | inr same ↦ let found : other ≡ delta = some_inj _ _ (cc) in omega arith
    ],
    h.4,
  )

  below :
      (n : ℕ) (s : Option Discontinuity) (delta : ℕ)
      → outranks delta s ≡ true
      → Strongest n s
      → (k other : ℕ) → k < n
      → steps k ≡ some other
      → other < delta
  below n none delta o h k other l f = absurd (unused (sym (h k l) ∙ f))
    where
      unused : {x : ℕ} → none ≡ some x → ⊥
      unused e = cc
  below n (some d) delta o h k other l f = let m = h.3 k other l f in ground arith

  take-Strongest :
      (frame channel : ℕ) (s : Option Discontinuity) (delta : ℕ)
      → channel < channels
      → steps (frame * channels + channel) ≡ some delta
      → outranks delta s ≡ true
      → Strongest (frame * channels + channel) s
      → Strongest
          (frame * channels + channel + 1)
          (some (record { frame_offset = frame; delta = delta; channel = channel }))
  take-Strongest frame channel s delta c e o h = (
    omega arith,
    c,
    e,
    λ k other l f. elim (upto k (frame * channels + channel) l) [
      | inl l' ↦ let m = below (frame * channels + channel) s delta o h k other l' f in omega arith
      | inr same ↦ let found : other ≡ delta = some_inj _ _ (cc) in omega arith
    ],
    below (frame * channels + channel) s delta o h,
  )

  pub step-Strongest :
      (frame channel : ℕ) (s : Option Discontinuity)
      → channel < channels
      → Strongest (frame * channels + channel) s
      → Strongest
          (frame * channels + channel + 1)
          (step (steps (frame * channels + channel)) frame channel s)
  unfolding step
  step-Strongest frame channel s l h = elim (Option-cases (steps (frame * channels + channel))) [
    | inl e ↦ rw e (skip-Strongest (frame * channels + channel) s e h)
    | inr (delta, e) ↦ rw e (taken s delta e h)
  ]
    where
      taken :
          (s : Option Discontinuity) (delta : ℕ)
          → steps (frame * channels + channel) ≡ some delta
          → Strongest (frame * channels + channel) s
          → Strongest (frame * channels + channel + 1) (
              if outranks delta s
              then some (record { frame_offset = frame; delta = delta; channel = channel })
              else s)
      taken none delta e h = take-Strongest frame channel none delta l e refl h
      taken (some d) delta e h = elim (Bool-cases (ltb d.delta delta)) [
        | inl y ↦ rw y (take-Strongest frame channel (some d) delta l e y h)
        | inr n ↦ rw n (keep-Strongest (frame * channels + channel) d delta e (ground arith) h)
      ]
