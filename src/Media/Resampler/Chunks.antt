-- ===== src/Media/Resampler/Chunks.antt =====
-- Audio that is resampled in pieces: `Pcm16MonoStreamResampler.process` of src/voxbench/media/pcm.py.
use native.Mathlib.Nat.{div-lt_iff_lt-mul}
use voxbench.Base.{
  ℕ, zero, suc, ◌+◌, ◌-◌, ◌*◌, ◌≤◌, ◌<◌, ◌≡◌, refl, sym, ap, ◌∙◌, subst, subst₂, inl, inr, true,
  none, some, some_inj, List, [], ◌++◌, append_assoc, length, drop, drop-add, arith, Option-cases,
}
use voxbench.Base.Int.{ℤ}
use voxbench.Media.Mulaw.{pack_h}
use voxbench.Media.Resampler.{
  Resampler, next_value, write_sample, produce_loop, rounds, finish_produce, produce,
}
use voxbench.Media.Resampler.Loops.{next-append, next-short, next-drop}
use voxbench.Media.Resampler.Positions.{
  dropped, drop-append_le, dropped_below, split_quotient, dropped_add,
}

module _ (input_rate output_rate : ℕ) (faster : 0 < input_rate) (positive : 0 < output_rate) where
  -- The loop writes the octets from the first position to the second, where it breaks.
  data Loop (xs : List ℤ) : ℕ → List ℕ → ℕ → Type 0 where
    breaks :
        {p q : ℕ} {o : List ℕ}
        → next_value true output_rate xs p ≡ none
        → o ≡ []
        → p ≡ q
        → Loop xs p o q
    writes :
        {p q : ℕ} {o : List ℕ} (v : ℤ) (later : List ℕ)
        → next_value true output_rate xs p ≡ some v
        → o ≡ pack_h v ++ later
        → Loop xs (p + input_rate) later q
        → Loop xs p o q

  within :
      (xs : List ℤ) (p : ℕ) (v : ℤ)
      → next_value true output_rate xs p ≡ some v
      → p < length xs * output_rate
  within xs p v e = (div-lt_iff_lt-mul positive).0 (omega (arith, next-short output_rate xs p v e))

  -- Enough rounds reach the break.
  produce_loop-Loop :
      (xs : List ℤ) (fuel p : ℕ)
      → length xs * output_rate ≤ p + fuel
      → let done = produce_loop true input_rate output_rate xs fuel p in
        Loop xs p done.octets done.position
  unfolding produce_loop
  produce_loop-Loop xs zero p enough = elim (Option-cases (next_value true output_rate xs p)) [
    | inl e ↦ breaks e refl refl
    | inr (v, e) ↦ absurd (omega (arith, within xs p v e))
  ]
  produce_loop-Loop xs (suc fuel) p enough =
      elim (Option-cases (next_value true output_rate xs p)) [
        | inl e ↦ rw (e, produce_loop) (breaks e refl refl)
        | inr (v, e) ↦
            rw (e, produce_loop)
              (unfold write_sample in
                writes v (produce_loop true input_rate output_rate xs fuel (p + input_rate)).octets
                  e refl (produce_loop-Loop xs fuel (p + input_rate) (omega arith)))
      ]

  -- What is written before more samples come, and then.
  Loop-append :
      (xs ys : List ℤ) {p q r : ℕ} {o o' : List ℕ}
      → Loop xs p o q
      → Loop (xs ++ ys) q o' r
      → Loop (xs ++ ys) p (o ++ o') r
  Loop-append xs ys {r = r} {o' = o'} (breaks e nothing same) after =
      subst₂ (λ start written. Loop (xs ++ ys) start (written ++ o') r) (sym same) (sym nothing)
        after
  Loop-append xs ys {p = p} {o' = o'} (writes v later e written rest) after =
      writes v (later ++ o') (next-append output_rate xs ys p v e)
        (ap (λ t. t ++ o') written ∙ append_assoc (pack_h v) later o')
        (Loop-append xs ys rest after)

  -- Dropping samples moves the loop.
  Loop-drop :
      (k : ℕ) (xs : List ℤ) {p q : ℕ} {o : List ℕ}
      → Loop (drop k xs) p o q
      → Loop xs (p + k * output_rate) o (q + k * output_rate)
  Loop-drop k xs {p = p} (breaks e nothing same) =
      breaks (sym (next-drop output_rate k xs p positive) ∙ e) nothing
        (ap (λ s. s + k * output_rate) same)
  Loop-drop k xs {p = p} {q = q} (writes v later e written rest) =
      let moved : p + input_rate + k * output_rate ≡ p + k * output_rate + input_rate =
        omega arith in
      writes v later (sym (next-drop output_rate k xs p positive) ∙ e) written
        (subst (λ s. Loop xs s later (q + k * output_rate)) moved (Loop-drop k xs rest))

  Loop-unique :
      (xs : List ℤ) {p q q' : ℕ} {o o' : List ℕ}
      → Loop xs p o q
      → Loop xs p o' q'
      → (o ≡ o') × (q ≡ q')
  Loop-unique xs (breaks e nothing same) (breaks e' nothing' same') =
      (nothing ∙ sym nothing', sym same ∙ same')
  Loop-unique xs (breaks e nothing same) (writes v later e' written rest) = absurd (cc)
  Loop-unique xs (writes v later e written rest) (breaks e' nothing same) = absurd (cc)
  Loop-unique xs (writes v later e written rest) (writes v' later' e' written' rest') =
      let same : v ≡ v' = some_inj _ _ (sym e ∙ e') in
      let (os, qs) = Loop-unique xs rest rest' in
      (written ∙ subst₂ (λ a b. pack_h v ++ later ≡ pack_h a ++ b) same os refl ∙ sym written', qs)

  -- If the input is at most three times as fast, the loop does not run more than two samples past
  -- the last one.
  Loop-near :
      (xs : List ℤ) {p q : ℕ} {o : List ℕ}
      → input_rate ≤ 3 * output_rate
      → p < (length xs + 2) * output_rate
      → Loop xs p o q
      → q < (length xs + 2) * output_rate
  Loop-near xs slow near (breaks e nothing same) =
      subst (λ s. s < (length xs + 2) * output_rate) same near
  Loop-near xs {p = p} slow near (writes v later e written rest) =
      let short = next-short output_rate xs p v e in
      let l : p < (length xs - 1) * output_rate =
        (div-lt_iff_lt-mul positive).0 (omega (arith, short)) in
      let n : (length xs - 1) * output_rate + 3 * output_rate ≡ (length xs + 2) * output_rate =
        regroup (length xs) (omega (arith, short)) in
      Loop-near xs slow (omega (arith, l, slow, n)) rest
    where
      regroup : (n : ℕ) → 1 ≤ n → (n - 1) * output_rate + 3 * output_rate ≡ (n + 2) * output_rate
      regroup zero m = absurd (omega arith)
      regroup (suc n) m = let less : suc n - 1 ≡ n = omega arith in rw less (omega arith)

  Loop-forward : (xs : List ℤ) {p q : ℕ} {o : List ℕ} → Loop xs p o q → p ≤ q
  Loop-forward xs (breaks e nothing same) = omega (arith, same)
  Loop-forward xs (writes v later e written rest) = omega (arith, Loop-forward xs rest)

  abbrev pub state : List ℤ → ℕ → Resampler
  state samples p = record {
    input_rate = input_rate;
    output_rate = output_rate;
    samples = samples;
    position_numerator = p;
  }

  abbrev answer : List ℤ → ℕ → List ℕ → Resampler × List ℕ
  answer xs p o = (state xs p, o)

  same_answer :
      (xs ys : List ℤ) (p q : ℕ) (o o' : List ℕ)
      → xs ≡ ys
      → p ≡ q
      → o ≡ o'
      → answer xs p o ≡ answer ys q o'
  same_answer xs ys p q o o' a b c = rw (a, b, c) refl

  joined :
      (xs ys : List ℤ) {p q r t : ℕ} {o o' all : List ℕ}
      → input_rate ≤ 3 * output_rate
      → p < 2 * output_rate
      → Loop xs p o q
      → Loop (drop (dropped output_rate q) xs ++ ys) (q - dropped output_rate q * output_rate) o' r
      → Loop (xs ++ ys) p all t
      → answer
          (drop (dropped output_rate t) (xs ++ ys))
          (t - dropped output_rate t * output_rate)
          all
        ≡ answer
            (drop (dropped output_rate r) (drop (dropped output_rate q) xs ++ ys))
            (r - dropped output_rate r * output_rate)
            (o ++ o')
  joined xs ys {p = p} {q = q} {r = r} {t = t} {o = o} {o' = o'} {all = all} slow near first second
        whole =
      let d : dropped output_rate q ≤ length xs =
        dropped_below output_rate positive (length xs) q
          (Loop-near xs slow (omega (arith, near)) first) in
      let rest : drop (dropped output_rate q) xs ++ ys ≡ drop (dropped output_rate q) (xs ++ ys) =
        drop-append_le (dropped output_rate q) xs ys d in
      let back : q - dropped output_rate q * output_rate + dropped output_rate q * output_rate ≡ q =
        omega (arith, split_quotient output_rate positive q) in
      let moved : Loop (xs ++ ys) q o' (r + dropped output_rate q * output_rate) =
        subst (λ s. Loop (xs ++ ys) s o' (r + dropped output_rate q * output_rate)) back
          (Loop-drop (dropped output_rate q) (xs ++ ys)
            (subst (λ zs. Loop zs (q - dropped output_rate q * output_rate) o' r) rest second)) in
      let (os, ts) = Loop-unique (xs ++ ys) whole (Loop-append xs ys first moved) in
      let twice : dropped output_rate t ≡ dropped output_rate q + dropped output_rate r =
        ap (λ s. dropped output_rate s) ts
        ∙ dropped_add output_rate positive q r (Loop-forward _ second) in
      same_answer (drop (dropped output_rate t) (xs ++ ys))
        (drop (dropped output_rate r) (drop (dropped output_rate q) xs ++ ys))
        (t - dropped output_rate t * output_rate) (r - dropped output_rate r * output_rate) all
        (o ++ o')
        (rw (twice, rest) (drop-add (dropped output_rate q) (dropped output_rate r) (xs ++ ys)))
        (rw (twice, ts) (omega arith)) os

  -- Two pieces after one another, and both at once.
  pub produce_pieces :
      (xs ys : List ℤ) (p : ℕ)
      → input_rate ≤ 3 * output_rate
      → p < 2 * output_rate
      → let (r, first) = produce true (state xs p) in
        let (r', second) = produce true (record r { samples = r.samples ++ ys }) in
        produce true (state (xs ++ ys) p) ≡ (r', first ++ second)
  unfolding produce finish_produce
  produce_pieces xs ys p slow near =
      let start : (zs : List ℤ) (s : ℕ)
          → Loop zs s (produce_loop true input_rate output_rate zs (rounds output_rate zs) s).octets
              (produce_loop true input_rate output_rate zs (rounds output_rate zs) s).position =
        λ zs s. produce_loop-Loop zs (rounds output_rate zs) s (omega arith) in
      joined xs ys slow near (start xs p) (start _ _) (start (xs ++ ys) p)
