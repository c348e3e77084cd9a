-- ===== src/Registry/Validate/Checks.antt =====
-- What the checks say of lists: members, and entries that pass.
use voxbench.Base.{
  ◌≡◌, ◌↔◌, ◌⊎◌, inl, inr, refl, sym, subst, Bool, true, false, Option, none, some, String, List,
  [], ◌∷◌, text_eq, text_eq_iff, if◌then◌else◌, Memᴰ, All, Bool-cases, some_inj,
}
use voxbench.Registry.Schema.{TurnTakingOwner, server_vad, client_vad, semantic, external}
use voxbench.Registry.Validate.{
  ConfigError, Verdict, passes, fails, ◌then◌, require, owner_eq, text_in, all_in, each, owner_in,
}

pub then-passes : (a b : Verdict) → ((a then b) ≡ passes) ↔ ((a ≡ passes) × (b ≡ passes))
then-passes passes b = (λ h. (refl, h), λ h. h.1)
then-passes (fails e) b = (λ h. absurd (cc), λ h. absurd (cc (h.0)))

pub require-passes : (b : Bool) (e : ConfigError) → (require b e ≡ passes) ↔ (b ≡ true)
require-passes true e = (λ h. refl, λ h. refl)
require-passes false e = (λ h. absurd (cc), λ h. absurd (cc))

pub each-passes {ℓ} :
    {A : Type ℓ} (check : A → Verdict) (xs : List A)
    → (each check xs ≡ passes) ↔ All (λ x. check x ≡ passes) xs
each-passes check [] = (λ h. tt, λ h. refl)
each-passes check (x ∷ xs) =
    let (to, from) = each-passes check xs in
    let (split, join) = then-passes (check x) (each check xs) in
    (λ h. ((split h).0, to (split h).1), λ h. join (h.0, from h.1))

-- A search that tests the first entry, or goes on.
if_member {ℓ} :
    {A : Type ℓ} (a b : A) (bs : List A) (t rest : Bool)
    → (t ≡ true) ↔ (b ≡ a)
    → (rest ≡ true) ↔ Memᴰ a bs
    → ((if t then true else rest) ≡ true) ↔ Memᴰ a (b ∷ bs)
if_member a b bs true rest e m = (λ h. Memᴰ.head (sym (e.0 refl)), λ h. refl)
if_member a b bs false rest e m = (λ h. Memᴰ.tail (m.0 h), from)
  where
    from : Memᴰ a (b ∷ bs) → rest ≡ true
    from (Memᴰ.head q) = absurd (cc (e.1 (sym q)))
    from (Memᴰ.tail n) = m.1 n

pub text_in-Memᴰ : (a : String) (bs : List String) → (text_in a bs ≡ true) ↔ Memᴰ a bs
text_in-Memᴰ a [] = (λ h. absurd (cc), λ m. elim m [ ])
text_in-Memᴰ a (b ∷ bs) =
    if_member a b bs (text_eq b a) (text_in a bs) (text_eq_iff b a) (text_in-Memᴰ a bs)

pub owner_eq→ : (a b : TurnTakingOwner) → owner_eq a b ≡ true → a ≡ b
owner_eq→ server_vad server_vad h = refl
owner_eq→ server_vad client_vad h = cc
owner_eq→ server_vad semantic h = cc
owner_eq→ server_vad external h = cc
owner_eq→ client_vad server_vad h = cc
owner_eq→ client_vad client_vad h = refl
owner_eq→ client_vad semantic h = cc
owner_eq→ client_vad external h = cc
owner_eq→ semantic server_vad h = cc
owner_eq→ semantic client_vad h = cc
owner_eq→ semantic semantic h = refl
owner_eq→ semantic external h = cc
owner_eq→ external server_vad h = cc
owner_eq→ external client_vad h = cc
owner_eq→ external semantic h = cc
owner_eq→ external external h = refl

owner_eq_refl : (a : TurnTakingOwner) → owner_eq a a ≡ true
owner_eq_refl server_vad = refl
owner_eq_refl client_vad = refl
owner_eq_refl semantic = refl
owner_eq_refl external = refl

pub owner_eq_iff : (a b : TurnTakingOwner) → (owner_eq a b ≡ true) ↔ (a ≡ b)
owner_eq_iff a b = (owner_eq→ a b, λ e. subst (λ x. owner_eq a x ≡ true) e (owner_eq_refl a))

pub owner_in-Memᴰ :
    (a : TurnTakingOwner) (bs : List TurnTakingOwner) → (owner_in a bs ≡ true) ↔ Memᴰ a bs
owner_in-Memᴰ a [] = (λ h. absurd (cc), λ m. elim m [ ])
owner_in-Memᴰ a (b ∷ bs) =
    if_member a b bs (owner_eq b a) (owner_in a bs) (owner_eq_iff b a) (owner_in-Memᴰ a bs)

pub all_in-All : (rs bs : List String) → (all_in rs bs ≡ true) ↔ All (λ r. Memᴰ r bs) rs
all_in-All [] bs = (λ h. tt, λ h. refl)
all_in-All (r ∷ rs) bs = elim (Bool-cases (text_in r bs)) [
  | inl e ↦
      rw e (λ h. ((text_in-Memᴰ r bs).0 e, (all_in-All rs bs).0 h), λ h. (all_in-All rs bs).1 h.1)
  | inr e ↦ rw e (λ h. absurd (cc), λ h. absurd (cc (e, (text_in-Memᴰ r bs).1 h.0)))
]

-- A check that waits on an option: without it there is nothing to check, or the check fails.
pub optional-passes {ℓ κ} :
    {A : Type ℓ} (P : A → Type κ) (f : A → Verdict) (o : Option A)
    → ((a : A) → (f a ≡ passes) ↔ P a)
    → (elim o as (λ x. Verdict) [ none ↦ passes | some a ↦ f a ] ≡ passes)
      ↔ ((o ≡ none) ⊎ ((a : A) × (o ≡ some a) × P a))
optional-passes P f none h = (λ q. inl refl, λ q. refl)
optional-passes {A = A} P f (some a) h = (λ q. inr (a, refl, (h a).0 q), from)
  where
    from : (some a ≡ none) ⊎ ((b : A) × (some a ≡ some b) × P b) → f a ≡ passes
    from (inl e) = absurd (cc)
    from (inr (b, e, p)) = (h a).1 (subst P (some_inj b a (sym e)) p)

pub needed-passes {ℓ κ} :
    {A : Type ℓ} (P : A → Type κ) (f : A → Verdict) (o : Option A) (e : ConfigError)
    → ((a : A) → (f a ≡ passes) ↔ P a)
    → (elim o as (λ x. Verdict) [ none ↦ fails e | some a ↦ f a ] ≡ passes)
      ↔ ((a : A) × (o ≡ some a) × P a)
needed-passes P f none e h = (λ q. absurd (cc), λ (a, q, p). absurd (cc))
needed-passes P f (some a) e h =
    (λ q. (a, refl, (h a).0 q), λ (b, q, p). (h a).1 (subst P (some_inj b a (sym q)) p))
