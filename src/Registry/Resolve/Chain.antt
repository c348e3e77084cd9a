-- ===== src/Registry/Resolve/Chain.antt =====
-- What is resolved: the finite chains of parents, merged from the root down.
use voxbench.Base.{
  ℕ, zero, suc, ◌≡◌, refl, ap, subst, true, false, none, some, String, List, ◌∷◌, Bool-cases,
  Option-cases, inl, inr, ◌⊎◌,
}
use voxbench.Registry.Json.{Fields}
use voxbench.Registry.Merge.{deep_merge}
use voxbench.Registry.Resolve.{
  RegistryError, cyclic_parent, unknown_config, Resolution, resolved, refused, Configs, find_config,
  Parent, no_parent, parent_named, parent_refused, parent_of, contains, overlay, resolve_raw,
}

-- The name is the n-th descendant of a configuration without a parent, and resolves to `raw`.
pub data Chain (configs : Configs) : ℕ → String → Fields → Type 0 where
  root :
      (name : String) (raw : Fields)
      → find_config name configs ≡ some raw
      → parent_of raw ≡ no_parent
      → Chain configs zero name raw
  child :
      (n : ℕ) (name parent : String) (raw base : Fields)
      → find_config name configs ≡ some raw
      → parent_of raw ≡ parent_named parent
      → Chain configs n parent base
      → Chain configs (suc n) name (deep_merge base raw)

module _ (configs : Configs) where
  -- A name has one depth.
  pub depth_unique :
      {n k : ℕ} {name name' : String} {v u : Fields}
      → Chain configs n name v
      → Chain configs k name' u
      → name ≡ name'
      → n ≡ k
  depth_unique (root name raw f p) (root name' raw' f' p') e = refl
  depth_unique (root name raw f p) (child k name' parent raw' base f' p' d) e = absurd (cc)
  depth_unique (child n name parent raw base f p c) (root name' raw' f' p') e = absurd (cc)
  depth_unique (child n name parent raw base f p c) (child k name' parent' raw' base' f' p' d) e =
      ap suc (depth_unique c d (cc))

-- One call of `_resolve_raw`, by what it finds.
pub data Stepped (configs : Configs) (fuel : ℕ) (name : String) (seen : List String)
    : Resolution → Type 0 where
  on_cycle : contains name seen ≡ true → Stepped configs fuel name seen (refused cyclic_parent)
  on_unknown :
      contains name seen ≡ false
      → find_config name configs ≡ none
      → Stepped configs fuel name seen (refused unknown_config)
  at_root :
      (raw : Fields)
      → contains name seen ≡ false
      → find_config name configs ≡ some raw
      → parent_of raw ≡ no_parent
      → Stepped configs fuel name seen (resolved raw)
  at_fault :
      (raw : Fields) (reason : RegistryError)
      → contains name seen ≡ false
      → find_config name configs ≡ some raw
      → parent_of raw ≡ parent_refused reason
      → Stepped configs fuel name seen (refused reason)
  at_child :
      (raw : Fields) (parent : String)
      → contains name seen ≡ false
      → find_config name configs ≡ some raw
      → parent_of raw ≡ parent_named parent
      → Stepped configs fuel name seen (overlay raw (resolve_raw fuel configs parent (name ∷ seen)))

Parent-cases :
    (p : Parent)
    → (p ≡ no_parent)
      ⊎ (((n : String) × (p ≡ parent_named n)) ⊎ ((e : RegistryError) × (p ≡ parent_refused e)))
Parent-cases no_parent = inl refl
Parent-cases (parent_named n) = inr (inl (n, refl))
Parent-cases (parent_refused e) = inr (inr (e, refl))

resolved-injective : (a b : Fields) → resolved a ≡ resolved b → a ≡ b
resolved-injective a b = ap (λ r. elim r [ resolved x ↦ x | refused e ↦ a ])

overlay_resolved :
    (raw : Fields) (r : Resolution) (v : Fields)
    → overlay raw r ≡ resolved v
    → (base : Fields) × (r ≡ resolved base) × (deep_merge base raw ≡ v)
unfolding overlay
overlay_resolved raw (resolved base) v h =
    (base, refl, resolved-injective (deep_merge base raw) v h)
overlay_resolved raw (refused e) v h = absurd (cc)

module _ (configs : Configs) (fuel : ℕ) (name : String) (seen : List String) where
  pub stepped : Stepped configs fuel name seen (resolve_raw (suc fuel) configs name seen)
  unfolding resolve_raw
  stepped = elim (Bool-cases (contains name seen)) [
    | inl c ↦ rw (c, resolve_raw) (Stepped.on_cycle c)
    | inr c ↦ elim (Option-cases (find_config name configs)) [
      | inl f ↦ rw (c, f, resolve_raw) (Stepped.on_unknown c f)
      | inr (raw, f) ↦ elim (Parent-cases (parent_of raw)) [
        | inl p ↦ rw (c, f, resolve_raw) (rw p (Stepped.at_root raw c f p))
        | inr (inl (parent, p)) ↦ rw (c, f, resolve_raw) (rw p (Stepped.at_child raw parent c f p))
        | inr (inr (reason, p)) ↦ rw (c, f, resolve_raw) (rw p (Stepped.at_fault raw reason c f p))
      ]
    ]
  ]

  Stepped-Chain :
      ((parent : String) (base : Fields)
        → resolve_raw fuel configs parent (name ∷ seen) ≡ resolved base
        → (n : ℕ) × Chain configs n parent base)
      → (x : Resolution) (v : Fields) → Stepped configs fuel name seen x
      → x ≡ resolved v
      → (n : ℕ) × Chain configs n name v
  Stepped-Chain ih x v (on_cycle c) h = absurd (cc)
  Stepped-Chain ih x v (on_unknown c f) h = absurd (cc)
  Stepped-Chain ih x v (at_root raw c f p) h = (
    0,
    subst (λ u. Chain configs 0 name u) (resolved-injective raw v h) (Chain.root name raw f p),
  )
  Stepped-Chain ih x v (at_fault raw reason c f p) h = absurd (cc)
  Stepped-Chain ih x v (at_child raw parent c f p) h =
      let (base, e, same) =
        overlay_resolved raw (resolve_raw fuel configs parent (name ∷ seen)) v h in
      let (n, chain) = ih parent base e in
      (
        suc n,
        subst (λ u. Chain configs (suc n) name u) same
            (Chain.child n name parent raw base f p chain),
      )

-- What is resolved has a chain.
pub resolve_raw-Chain :
    (configs : Configs) (fuel : ℕ) (name : String) (seen : List String) (v : Fields)
    → resolve_raw fuel configs name seen ≡ resolved v
    → (n : ℕ) × Chain configs n name v
resolve_raw-Chain configs zero name seen v h = absurd (unfold resolve_raw in cc)
resolve_raw-Chain configs (suc fuel) name seen v h =
    Stepped-Chain configs fuel name seen
      (λ parent base. resolve_raw-Chain configs fuel parent (name ∷ seen) base)
      (resolve_raw (suc fuel) configs name seen) v (stepped configs fuel name seen) h
