-- ===== src/Base/Tests.antt =====
-- Boolean tests on numbers, options and texts, and the conditional.
use Prim.Native.Nat.{ℕ, ◌≤◌, ◌<◌, compare, Ordering}
use Prim.Native.String.{String}
use text.Mathlib.Text.{◌==◌ as str_eq}
use text.Mathlib.TextEquality.{eq_iff}
use mathlib.Core.Path.{◌≡◌, refl, sym, ap}
use mathlib.Core.Logic.{◌↔◌, ◌⊎◌, inl, inr}
use mathlib.Core.Bool.{Bool, true, false, not, ◌&&◌, ◌||◌}
use mathlib.Core.Option.{Option, none, some}
use native.Mathlib.Omega.{arith}

abbrev pub ltb : ℕ → ℕ → Bool
ltb a b = elim (compare a b) [ Ordering.lt ↦ true | _ ↦ false ]

abbrev pub leb : ℕ → ℕ → Bool
leb a b = elim (compare a b) [ Ordering.gt ↦ false | _ ↦ true ]

infix 50 ◌==◌
abbrev pub ◌==◌ : ℕ → ℕ → Bool
a == b = elim (compare a b) [ Ordering.eq ↦ true | _ ↦ false ]

infix 1 if◌then◌else◌
abbrev pub if◌then◌else◌ {ℓ} : {A : Type ℓ} → Bool → A → A → A
if true then x else y = x
if false then x else y = y

pub leb→le : (a b : ℕ) → leb a b ≡ true → a ≤ b
leb→le a b h = ground arith

pub ltb→lt : (a b : ℕ) → ltb a b ≡ true → a < b
ltb→lt a b h = ground arith

pub le→leb : (a b : ℕ) → a ≤ b → leb a b ≡ true
le→leb a b h = ground arith

pub lt→ltb : (a b : ℕ) → a < b → ltb a b ≡ true
lt→ltb a b h = ground arith

pub ltb-false : (a b : ℕ) → ltb a b ≡ false → b ≤ a
ltb-false a b h = ground arith

pub ==_iff : (a b : ℕ) → ((a == b) ≡ true) ↔ (a ≡ b)
==_iff a b = ground arith

pub ==_refl : (a : ℕ) → (a == a) ≡ true
==_refl a = ground arith

-- To split on a computed value and keep the equation.
pub Bool-cases : (b : Bool) → (b ≡ true) ⊎ (b ≡ false)
Bool-cases true = inl refl
Bool-cases false = inr refl

pub Option-cases {ℓ} : {A : Type ℓ} (o : Option A) → (o ≡ none) ⊎ ((a : A) × (o ≡ some a))
Option-cases none = inl refl
Option-cases (some a) = inr (a, refl)

-- A nullable column is compared as SQL does: NULL equals nothing, and lies in no order.
abbrev pub column_eq : Option ℕ → ℕ → Bool
column_eq none b = false
column_eq (some a) b = a == b

abbrev pub column_leb : Option ℕ → ℕ → Bool
column_leb none b = false
column_leb (some a) b = leb a b

abbrev pub column_gtb : Option ℕ → ℕ → Bool
column_gtb none b = false
column_gtb (some a) b = ltb b a

abbrev pub text_column_eq : Option String → String → Bool
text_column_eq none b = false
text_column_eq (some a) b = str_eq a b

abbrev pub text_eq : String → String → Bool
text_eq a b = str_eq a b

pub text_eq_iff : (a b : String) → (text_eq a b ≡ true) ↔ (a ≡ b)
text_eq_iff a b = eq_iff a b

pub text_column_eq→ : (o : Option String) (b : String) → text_column_eq o b ≡ true → o ≡ some b
text_column_eq→ none b h = cc
text_column_eq→ (some a) b h = ground (arith, eq_iff a b)

pub text_column_eq_refl : (b : String) → text_column_eq (some b) b ≡ true
text_column_eq_refl b = (eq_iff b b).1 refl

pub some_inj {ℓ} : {A : Type ℓ} (a b : A) → some a ≡ some b → a ≡ b
some_inj a b = ap (λ o. elim o [ none ↦ a | some x ↦ x ])

pub both_true : (a b : Bool) → a ≡ true → b ≡ true → (a && b) ≡ true
both_true a b h h' = rw (h, h') refl

pub both_of : (a b : Bool) → (a && b) ≡ true → (a ≡ true) × (b ≡ true)
both_of true b h = (refl, h)
both_of false b h = absurd (cc h)

pub of_not : (b : Bool) → not b ≡ true → b ≡ false
of_not true h = absurd (cc h)
of_not false h = refl

pub neither_of : (a b : Bool) → (a || b) ≡ false → (a ≡ false) × (b ≡ false)
neither_of true b h = absurd (cc h)
neither_of false b h = (refl, h)

pub other_text : (a b : String) → text_eq a b ≡ false → text_eq b a ≡ false
other_text a b h = elim (Bool-cases (text_eq b a)) [
  | inl e ↦ absurd (cc (h, (text_eq_iff a b).1 (sym ((text_eq_iff b a).0 e))))
  | inr e ↦ e
]
