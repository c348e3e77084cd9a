-- ===== src/Tests/Configs.antt =====
-- A configuration over its parent, and two that are each other's.
use voxbench.Base.{some, ℕ, ◌≡◌, ◌≢◌, ◌↔◌, refl, [], ◌∷◌}
use voxbench.Base.Int.{pos}
use voxbench.Registry.Json.{integer, text, object, Fields, no_fields, field, lookup}
use voxbench.Registry.Merge.{deep_merge, merged, lookup-deep_merge}
use voxbench.Registry.Resolve.{
  registered, not_registered, name_required, malformed, register_config, Configs, resolved, refused,
  out_of_fuel, cyclic_parent, resolve,
}
use voxbench.Registry.Resolve.Chain.{Chain}
use voxbench.Registry.Resolve.Complete.{resolve_iff, resolve-fuel}

abbrev base : Fields
base = field "meta" (object (field "name" (text "base") no_fields)) (
    field "gain"
      (object (field "input" (integer (pos 1)) (field "output" (integer (pos 2)) no_fields)))
      no_fields)

abbrev loud : Fields
loud =
    field "meta" (object (field "name" (text "loud") (field "parent" (text "base") no_fields)))
      (field "gain" (object (field "output" (integer (pos 9)) no_fields)) no_fields)

abbrev configs : Configs
configs = ("base", base) ∷ ("loud", loud) ∷ []

abbrev resolved_loud : Fields
resolved_loud =
    field "meta" (object (field "name" (text "loud") (field "parent" (text "base") no_fields))) (
      field "gain"
        (object (field "input" (integer (pos 1)) (field "output" (integer (pos 9)) no_fields)))
        no_fields)

resolve_loud : resolve configs "loud" ≡ resolved resolved_loud
unfolding resolve
resolve_loud = refl

resolve_iff_example :
    (resolve configs "loud" ≡ resolved resolved_loud)
    ↔ ((n : ℕ) × Chain configs n "loud" resolved_loud)
resolve_iff_example = resolve_iff configs "loud" resolved_loud

abbrev looped : Configs
looped =
    ("a", field "meta" (object (field "parent" (text "b") no_fields)) no_fields)
    ∷ ("b", field "meta" (object (field "parent" (text "a") no_fields)) no_fields)
    ∷ []

looped_cyclic : resolve looped "a" ≡ refused cyclic_parent
unfolding resolve
looped_cyclic = refl

resolve-fuel_example : resolve looped "a" ≢ refused out_of_fuel
resolve-fuel_example = resolve-fuel looped "a"

lookup-deep_merge_example :
    lookup "gain" (deep_merge base loud) ≡ merged (lookup "gain" base) (lookup "gain" loud)
lookup-deep_merge_example = lookup-deep_merge "gain" base loud (unfold lookup in (refl, (refl, tt)))

unnamed : register_config no_fields [] ≡ not_registered name_required
unfolding register_config
unnamed = refl

no_object : register_config (field "meta" (text "base") no_fields) [] ≡ not_registered malformed
unfolding register_config
no_object = refl

named : register_config base [] ≡ registered (("base", base) ∷ [])
unfolding register_config
named = refl

-- The gain of the base and of the overlay are merged, so that the output of the base is kept.
nested :
    lookup "gain" (deep_merge base loud)
    ≡ some (object (field "input" (integer (pos 1)) (field "output" (integer (pos 9)) no_fields)))
unfolding lookup deep_merge
nested = refl
