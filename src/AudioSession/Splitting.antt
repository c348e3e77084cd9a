-- ===== src/AudioSession/Splitting.antt =====
-- Texts that are split at their full stops: for `RemoteAudioSessionAuth` of
-- src/voxbench/control_plane/audio_session.py.
use voxbench.Base.{
  ℕ, ◌≡◌, refl, ap, ◌∙◌, inl, inr, Bool, true, not, List, [], ◌∷◌, ◌++◌, ◌==◌, ==_iff, ==_refl,
  arith, Bool-cases,
}
use voxbench.Base.Text.{all_codes, same_codes}
use voxbench.AudioSession.{add_to_first, open_part, split_at_dots}

pub same_codes_refl : (xs : List ℕ) → same_codes xs xs ≡ true
unfolding same_codes
same_codes_refl [] = refl
same_codes_refl (x ∷ xs) = rw (==_refl x, same_codes_refl xs) refl

pub same_codes→ : (xs ys : List ℕ) → same_codes xs ys ≡ true → xs ≡ ys
unfolding same_codes
same_codes→ [] [] e = refl
same_codes→ [] (y ∷ ys) e = cc
same_codes→ (x ∷ xs) [] e = cc
same_codes→ (x ∷ xs) (y ∷ ys) e = elim (Bool-cases (x == y)) [
  | inl same ↦
      let rest : xs ≡ ys = same_codes→ xs ys (ground arith) in cc ((==_iff x y).0 same, rest)
  | inr n ↦ absurd (ground arith)
]

pub all_codes-append :
    (p : ℕ → Bool) (xs ys : List ℕ)
    → all_codes p xs ≡ true
    → all_codes p ys ≡ true
    → all_codes p (xs ++ ys) ≡ true
unfolding all_codes
all_codes-append p [] ys h k = k
all_codes-append p (x ∷ xs) ys h k = elim (Bool-cases (p x)) [
  | inl y ↦ rw y (all_codes-append p xs ys (rw y at h) k)
  | inr n ↦ absurd (ground arith)
]

pub all_codes-weaken :
    (p q : ℕ → Bool) (xs : List ℕ)
    → ((c : ℕ) → p c ≡ true → q c ≡ true)
    → all_codes p xs ≡ true
    → all_codes q xs ≡ true
unfolding all_codes
all_codes-weaken p q [] f h = refl
all_codes-weaken p q (x ∷ xs) f h = elim (Bool-cases (p x)) [
  | inl y ↦ rw (f x y) (all_codes-weaken p q xs f (rw y at h))
  | inr n ↦ absurd (ground arith)
]

abbrev pub not_dot : ℕ → Bool
not_dot c = not (c == b'.')

-- The first part ends at the first full stop.
pub split-append :
    (xs ys : List ℕ)
    → all_codes not_dot xs ≡ true
    → split_at_dots (xs ++ b'.' ∷ ys)
      ≡ record { first = xs; others = (split_at_dots ys).first ∷ (split_at_dots ys).others }
unfolding split_at_dots all_codes
split-append [] ys h = refl
split-append (x ∷ xs) ys h = elim (Bool-cases (x == b'.')) [
  | inl y ↦ absurd (ground arith)
  | inr n ↦ unfold add_to_first in rw (n, split-append xs ys (rw n at h)) refl
]

-- A text without a full stop is one part.
pub split-whole :
    (xs : List ℕ)
    → all_codes not_dot xs ≡ true
    → split_at_dots xs ≡ record { first = xs; others = [] }
unfolding split_at_dots all_codes
split-whole [] h = refl
split-whole (x ∷ xs) h = elim (Bool-cases (x == b'.')) [
  | inl y ↦ absurd (ground arith)
  | inr n ↦ unfold add_to_first in rw (n, split-whole xs (rw n at h)) refl
]

-- Parts with full stops between them.
unfoldable pub rejoined : List ℕ → List (List ℕ) → List ℕ
rejoined first [] = first
rejoined first (part ∷ parts) = first ++ b'.' ∷ rejoined part parts

rejoined-cons :
    (c : ℕ) (first : List ℕ) (parts : List (List ℕ))
    → rejoined (c ∷ first) parts ≡ c ∷ rejoined first parts
unfolding rejoined
rejoined-cons c first [] = refl
rejoined-cons c first (part ∷ parts) = refl

pub rejoined-split :
    (cs : List ℕ) → rejoined (split_at_dots cs).first (split_at_dots cs).others ≡ cs
unfolding split_at_dots add_to_first open_part rejoined
rejoined-split [] = refl
rejoined-split (c ∷ cs) = elim (Bool-cases (c == b'.')) [
  | inl y ↦ let dot : c ≡ b'.' = (==_iff c b'.').0 y in rw (y, rejoined-split cs, dot) refl
  | inr n ↦ rw n (
      rejoined-cons c (split_at_dots cs).first (split_at_dots cs).others
      ∙ ap (λ (t : List ℕ). c ∷ t) (rejoined-split cs))
]
