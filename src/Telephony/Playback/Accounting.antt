-- ===== src/Telephony/Playback/Accounting.antt =====
-- Octets are consumed exactly, and evidence is bounded.
use voxbench.Base.{
  ℕ, zero, suc, ◌+◌, ◌-◌, ◌/◌, ◌≤◌, ◌<◌, ◌≡◌, ◌≢◌, refl, false, Option, none, some, List, [], ◌∷◌,
  ◌++◌, leb, ◌==◌, length, min, take, arith, length-append, length-take, length-drop, Bool-cases,
  inl, inr,
}
use voxbench.Telephony.Playback.{BufferedSource, consume, last_values, bounded_evidence}

abbrev pub bytes_left : List BufferedSource → ℕ
bytes_left [] = 0
bytes_left (source ∷ sources) = source.remaining_bytes + bytes_left sources

abbrev pub bytes_taken : List (ℕ × ℕ) → ℕ
bytes_taken [] = 0
bytes_taken ((ordinal, taken) ∷ consumed) = taken + bytes_taken consumed

-- With that many octets buffered, the loop takes exactly that many and leaves the others; with fewer
-- it raises.
abbrev pub Consumes : ℕ → List BufferedSource → Option (List (ℕ × ℕ) × List BufferedSource) → Type 0
Consumes n sources none = bytes_left sources < n
Consumes n sources (some (consumed, left)) =
    (bytes_taken consumed ≡ n) × (bytes_left left + n ≡ bytes_left sources)

-- The first source is used up, and the loop goes on.
used_up :
    (n m : ℕ) (source : BufferedSource) (sources : List BufferedSource)
    (o : Option (List (ℕ × ℕ) × List BufferedSource))
    → m ≡ source.remaining_bytes
    → m ≤ n
    → Consumes (n - m) sources o
    → Consumes n (source ∷ sources) (elim o as (λ x. Option (List (ℕ × ℕ) × List BufferedSource)) [
      | none ↦ none
      | some (consumed, left) ↦ some ((source.chunk_ordinal, m) ∷ consumed, left)
    ])
used_up n m source sources none e l c = omega arith
used_up n m source sources (some (consumed, left)) e l (a, b) = (omega arith, omega arith)

-- Consuming octets takes exactly as many as were asked for and leaves all others, or raises, and
-- then there were fewer.
pub consume-Consumes :
    (n : ℕ) (sources : List BufferedSource) → Consumes n sources (consume n sources)
unfolding consume
consume-Consumes zero sources = (refl, omega arith)
consume-Consumes (suc n) [] = omega arith
consume-Consumes (suc n) (source ∷ sources) =
    elim (Bool-cases (source.remaining_bytes - taken == 0)) [
      | inl e ↦ simp e (
          used_up (suc n) taken source sources (consume (suc n - taken) sources) (ground arith)
            (omega arith) (consume-Consumes (suc n - taken) sources))
      | inr e ↦ let more : taken ≡ suc n = ground arith in simp e (omega arith, omega arith)
    ]
  where
    taken : ℕ
    taken = min (suc n) source.remaining_bytes

last_values-length {ℓ} :
    {A : Type ℓ} (count : ℕ) (values : List A)
    → 0 < count
    → count ≤ length values
    → length (last_values count values) ≡ count
last_values-length zero values p l = absurd (omega arith)
last_values-length (suc count) values p l =
    omega (arith, length-drop (length values - suc count) values)

-- Unless the limit is one, the evidence is no longer than the limit, and no longer than the
-- values.
pub bounded_evidence-length {ℓ} :
    {A : Type ℓ} (values : List A) (limit : ℕ)
    → limit ≢ 1
    → (length (bounded_evidence values limit) ≤ limit)
      × (length (bounded_evidence values limit) ≤ length values)
unfolding bounded_evidence
bounded_evidence-length values limit h = elim (Bool-cases (leb limit 0)) [
  | inl e ↦ rw e (omega arith, omega arith)
  | inr e ↦ elim (Bool-cases (leb (length values) limit)) [
    | inl f ↦ rw (e, f) (ground arith, omega arith)
    | inr f ↦
        let two : 2 ≤ limit = ground arith in
        let over : limit < length values = ground arith in
        let head = take ((limit + 1) / 2) values in
        let tail = last_values (limit - (limit + 1) / 2) values in
        let kept : length (head ++ tail) ≡ limit = omega (
          arith,
          length-append head tail,
          length-take ((limit + 1) / 2) values,
          last_values-length (limit - (limit + 1) / 2) values (omega arith) (omega arith),
        ) in
        rw (e, f) (omega (arith, kept), omega (arith, kept))
  ]
]

-- With a limit of one, two values or more are kept as three or more: `values[-0:]` is all of them.
pub bounded_evidence-one {ℓ} :
    {A : Type ℓ} (values : List A)
    → 1 < length values
    → length (bounded_evidence values 1) ≡ 1 + length values
unfolding bounded_evidence
bounded_evidence-one values h =
    let over : leb (length values) 1 ≡ false = ground arith in
    rw over (omega (arith, length-append (take 1 values) values, length-take 1 values))
