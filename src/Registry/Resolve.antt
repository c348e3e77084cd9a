-- ===== src/Registry/Resolve.antt =====
-- `register_config` and `_resolve_raw` of `RegistryService` in src/voxbench/registry/service.py: a
-- configuration is merged over its parent's resolution. A registry maps names to raw configurations.
pub mod Chain
pub mod Complete
use voxbench.Base.{
  ℕ, zero, suc, Bool, true, false, Option, none, some, String, List, [], ◌∷◌, length, text_eq,
  if◌then◌else◌,
}
use voxbench.Registry.Json.{
  Json, null, boolean, integer, float, text, array, object, Items, Fields, no_fields, field, lookup,
}
use voxbench.Registry.Merge.{deep_merge}

-- `malformed` is the `AttributeError` of `.get` on a value that is no object.
pub data RegistryError : Type 0 where
  cyclic_parent unknown_config parent_not_text name_required malformed out_of_fuel : RegistryError

pub data Resolution : Type 0 where
  resolved : (raw : Fields) → Resolution
  refused : (reason : RegistryError) → Resolution

abbrev pub Configs : Type 0
Configs = List (String × Fields)

-- `self._configs[name]`
unfoldable pub find_config : String → Configs → Option Fields
find_config name [] = none
find_config name ((n, raw) ∷ configs) =
    if text_eq n name then some raw else find_config name configs

unfoldable pub put_config : String → Fields → Configs → Configs
put_config name raw [] = (name, raw) ∷ []
put_config name raw ((n, old) ∷ configs) =
    if text_eq n name then (name, raw) ∷ configs else (n, old) ∷ put_config name raw configs

-- What `raw.get("meta", {}).get(key)` gives.
pub data MetaValue : Type 0 where
  missing : MetaValue
  present : (value : Json) → MetaValue
  not_object : MetaValue

unfoldable pub meta_value : String → Fields → MetaValue
unfolding lookup
meta_value key raw = elim (lookup "meta" raw) [
  | none ↦ missing
  | some (object meta) ↦ elim (lookup key meta) [ none ↦ missing | some value ↦ present value ]
  | some _ ↦ not_object
]

pub data Parent : Type 0 where
  no_parent : Parent
  parent_named : (name : String) → Parent
  parent_refused : (reason : RegistryError) → Parent

-- JSON `null` is `None`, as is a key that is missing.
abbrev pub parent_value : MetaValue → Parent
parent_value missing = no_parent
parent_value (present null) = no_parent
parent_value (present (text name)) = parent_named name
parent_value (present _) = parent_refused parent_not_text
parent_value not_object = parent_refused malformed

unfoldable pub parent_of : Fields → Parent
unfolding meta_value
parent_of raw = parent_value (meta_value "parent" raw)

-- What `register_config` ends with: the configurations, or the error that it raises.
pub data Registration : Type 0 where
  registered : (configs : Configs) → Registration
  not_registered : (reason : RegistryError) → Registration

unfoldable pub register_config : Fields → Configs → Registration
unfolding meta_value put_config
register_config raw configs = elim (meta_value "name" raw) [
  | present (text name) ↦
      if text_eq name ""
      then not_registered name_required
      else registered (put_config name raw configs)
  | not_object ↦ not_registered malformed
  | _ ↦ not_registered name_required
]

abbrev pub contains : String → List String → Bool
contains name [] = false
contains name (s ∷ seen) = let rest = contains name seen in if text_eq s name then true else rest

unfoldable pub overlay : Fields → Resolution → Resolution
unfolding deep_merge
overlay raw (resolved base) = resolved (deep_merge base raw)
overlay raw (refused reason) = refused reason

-- `_resolve_raw`
unfoldable pub resolve_raw : ℕ → Configs → String → List String → Resolution
unfolding find_config parent_of overlay
resolve_raw zero configs name seen = refused out_of_fuel
resolve_raw (suc fuel) configs name seen = elim (contains name seen) [
  | true ↦ refused cyclic_parent
  | false ↦ elim (find_config name configs) [
    | none ↦ refused unknown_config
    | some raw ↦ elim (parent_of raw) [
      | no_parent ↦ resolved raw
      | parent_refused reason ↦ refused reason
      | parent_named parent ↦ overlay raw (resolve_raw fuel configs parent (name ∷ seen))
    ]
  ]
]

-- Every recursive call has seen one more of the configurations.
unfoldable pub resolve : Configs → String → Resolution
unfolding resolve_raw
resolve configs name = resolve_raw (suc (length configs)) configs name []
