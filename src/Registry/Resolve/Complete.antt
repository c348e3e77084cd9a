-- ===== src/Registry/Resolve/Complete.antt =====
-- The fuel of `resolve` is enough, and every chain is resolved.
use voxbench.Base.{
  ℕ, zero, suc, ◌≤◌, ◌<◌, ◌≡◌, ◌≢◌, ◌↔◌, refl, sym, ap, subst, true, false, not, some, String, List,
  [], ◌∷◌, text_eq, text_eq_iff, Bool-cases, inl, inr, arith, length, count_if, All,
}
use voxbench.Registry.Json.{Fields, null, boolean, integer, float, text, array, object}
use voxbench.Registry.Merge.{deep_merge}
use voxbench.Registry.Resolve.{
  out_of_fuel, Resolution, resolved, refused, Configs, find_config, parent_refused, parent_of,
  contains, overlay, resolve_raw, resolve, meta_value, MetaValue, missing, present, not_object,
  parent_value,
}
use voxbench.Registry.Resolve.Chain.{
  Chain, root, child, depth_unique, resolve_raw-Chain, Stepped, on_cycle, on_unknown, at_root,
  at_fault, at_child, stepped,
}

-- The number of configurations that were not seen.
abbrev unseen : Configs → List String → ℕ
unseen configs seen = count_if (λ (c : String × Fields). not (contains c.0 seen)) configs

unseen-nil : (configs : Configs) → unseen configs [] ≡ length configs
unseen-nil [] = refl
unseen-nil (c ∷ configs) = ap suc (unseen-nil configs)

unseen-shrinks :
    (configs : Configs) (name : String) (seen : List String)
    → unseen configs (name ∷ seen) ≤ unseen configs seen
unseen-shrinks [] name seen = omega arith
unseen-shrinks (c ∷ configs) name seen = let l = unseen-shrinks configs name seen in ground arith

-- A name that is found and was not seen leaves one less unseen.
unseen-less :
    (configs : Configs) (name : String) (seen : List String) (raw : Fields)
    → contains name seen ≡ false
    → find_config name configs ≡ some raw
    → unseen configs (name ∷ seen) < unseen configs seen
unfolding find_config
unseen-less [] name seen raw c f = absurd (cc)
unseen-less ((n, r) ∷ configs) name seen raw c f = elim (Bool-cases (text_eq n name)) [
  | inl e ↦
      let same : name ≡ n = sym ((text_eq_iff n name).0 e) in
      let l = unseen-shrinks configs name seen in
      let out : contains n seen ≡ false = subst (λ i. contains i seen ≡ false) same c in
      let here : text_eq name n ≡ true = (text_eq_iff name n).1 same in ground arith
  | inr e ↦
      let later : find_config name configs ≡ some raw = ground arith in
      let l = unseen-less configs name seen raw c later in ground arith
]

parent_value-fuel : (v : MetaValue) → parent_value v ≡ parent_refused out_of_fuel → ⊥
parent_value-fuel missing h = cc
parent_value-fuel (present null) h = cc
parent_value-fuel (present (text name)) h = cc
parent_value-fuel (present (boolean b)) h = cc
parent_value-fuel (present (integer b)) h = cc
parent_value-fuel (present (float b)) h = cc
parent_value-fuel (present (array b)) h = cc
parent_value-fuel (present (object b)) h = cc
parent_value-fuel not_object h = cc

overlay_fuel :
    (raw : Fields) (r : Resolution) → overlay raw r ≡ refused out_of_fuel → r ≡ refused out_of_fuel
unfolding overlay
overlay_fuel raw (resolved base) h = absurd (cc)
overlay_fuel raw (refused e) h = h

module _ (configs : Configs) where
  Stepped-fuel :
      (fuel : ℕ) (name : String) (seen : List String)
      → ((parent : String)
          → unseen configs (name ∷ seen) < fuel
          → resolve_raw fuel configs parent (name ∷ seen) ≢ refused out_of_fuel)
      → (x : Resolution) → unseen configs seen < suc fuel
      → Stepped configs fuel name seen x
      → x ≢ refused out_of_fuel
  unfolding parent_of
  Stepped-fuel fuel name seen ih x l (on_cycle c) h = cc
  Stepped-fuel fuel name seen ih x l (on_unknown c f) h = cc
  Stepped-fuel fuel name seen ih x l (at_root raw c f p) h = cc
  Stepped-fuel fuel name seen ih x l (at_fault raw reason c f p) h =
      parent_value-fuel (meta_value "parent" raw) (cc (p, h))
  Stepped-fuel fuel name seen ih x l (at_child raw parent c f p) h =
      let less = unseen-less configs name seen raw c f in
      ih parent (omega arith) (overlay_fuel raw (resolve_raw fuel configs parent (name ∷ seen)) h)

  -- Fuel above the number of unseen configurations is enough.
  pub resolve_raw-fuel :
      (fuel : ℕ) (name : String) (seen : List String)
      → unseen configs seen < fuel
      → resolve_raw fuel configs name seen ≢ refused out_of_fuel
  resolve_raw-fuel zero name seen l h = absurd (omega arith)
  resolve_raw-fuel (suc fuel) name seen l h =
      Stepped-fuel fuel name seen (λ parent. resolve_raw-fuel fuel parent (name ∷ seen))
        (resolve_raw (suc fuel) configs name seen) l (stepped configs fuel name seen) h

  -- The names in `names` are further from their root than n.
  abbrev Deeper : ℕ → List String → Type 0
  Deeper n seen = All (λ s. (d : ℕ) × (u : Fields) × Chain configs d s u × (n < d)) seen

  Deeper-fresh :
      (n : ℕ) (name : String) (v : Fields) (seen : List String)
      → Chain configs n name v
      → Deeper n seen
      → contains name seen ≡ false
  Deeper-fresh n name v [] c h = refl
  Deeper-fresh n name v (s ∷ seen) c ((d, u, chain, l), h) = elim (Bool-cases (text_eq s name)) [
    | inl e ↦
        let same : d ≡ n = depth_unique configs chain c ((text_eq_iff s name).0 e) in
        absurd (omega arith)
    | inr e ↦ rw e (Deeper-fresh n name v seen c h)
  ]

  Deeper-weaken : (n : ℕ) (seen : List String) → Deeper (suc n) seen → Deeper n seen
  Deeper-weaken n [] h = tt
  Deeper-weaken n (s ∷ seen) ((d, u, c, l), h) = ((d, u, c, omega arith), Deeper-weaken n seen h)

  -- A chain is resolved, with fuel for the unseen configurations.
  Chain-resolved :
      (fuel n : ℕ) (name : String) (seen : List String) (v : Fields)
      → Chain configs n name v
      → Deeper n seen
      → unseen configs seen < fuel
      → resolve_raw fuel configs name seen ≡ resolved v
  unfolding resolve_raw overlay
  Chain-resolved zero n name seen v c h l = absurd (omega arith)
  Chain-resolved (suc fuel) n name seen v (root nm raw f p) h l =
      rw (Deeper-fresh 0 name raw seen (Chain.root name raw f p) h, f, resolve_raw) (rw p refl)
  Chain-resolved (suc fuel) n name seen v (child k nm parent raw base f p c) h l =
      let whole = Chain.child k name parent raw base f p c in
      let fresh = Deeper-fresh (suc k) name (deep_merge base raw) seen whole h in
      let less = unseen-less configs name seen raw fresh f in
      let inner =
        Chain-resolved fuel k parent (name ∷ seen) base c
          ((suc k, deep_merge base raw, whole, omega arith), Deeper-weaken k seen h)
          (omega arith) in
      rw (fresh, f, resolve_raw) (rw p (rw inner refl))

  -- `_resolve_raw` gives a configuration exactly if the chain of parents of the name is finite and
  -- known, and then the merge of the chain from its root down.
  pub resolve_iff :
      (name : String) (v : Fields)
      → (resolve configs name ≡ resolved v) ↔ ((n : ℕ) × Chain configs n name v)
  unfolding resolve
  resolve_iff name v = (
    resolve_raw-Chain configs (suc (length configs)) name [] v,
    λ (n, c).
        Chain-resolved (suc (length configs)) n name [] v c tt (omega (arith, unseen-nil configs)),
  )

  -- The fuel of `resolve`, one more than the number of configurations, never runs out, whatever
  -- the parents are.
  pub resolve-fuel : (name : String) → resolve configs name ≢ refused out_of_fuel
  unfolding resolve
  resolve-fuel name =
      resolve_raw-fuel (suc (length configs)) name [] (omega (arith, unseen-nil configs))
