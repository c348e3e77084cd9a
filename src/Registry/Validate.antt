-- ===== src/Registry/Validate.antt =====
-- `_validate_cross_fields` and what it calls, of `RegistryService` in
-- src/voxbench/registry/service.py. `conforms schema params` is the verdict of
-- `Draft202012Validator`, and `differ` is `!=` on JSON values.
pub mod Checks
pub mod Compatible
pub mod Specification
pub mod Whole
use voxbench.Base.{
  Bool, true, false, ◌&&◌, not, Option, none, some, String, List, [], ◌∷◌, text_eq, if◌then◌else◌,
  map,
}
use voxbench.Registry.Json.{
  Json, null, boolean, integer, float, text, array, object, Items, Fields, no_fields, field, lookup,
}
use voxbench.Registry.Schema.{
  PluginKind, engine, provider, processor, OverrideType, string_type, integer_type, number_type,
  float_type, boolean_type, object_type, array_type, TurnTakingOwner, server_vad, client_vad,
  semantic, external, OverridePermission, OverrideValue, IoContract, ProviderCaps,
  CapabilityManifest, PipelineStage, EngineConfig, DetectorConfig, TurnTakingConfig, AiConfig,
  VoiceSpec,
}

pub data ConfigError : Type 0 where
  manifest_not_found params_mismatch caps_undeclared owner_unsupported vad_configured_twice :
      ConfigError
  codec_unsupported capability_missing override_not_allowed override_type_invalid io_mismatch :
      ConfigError

-- A check that returns, or raises.
pub data Verdict : Type 0 where
  passes : Verdict
  fails : (reason : ConfigError) → Verdict

infixr 4 ◌then◌
abbrev pub ◌then◌ : Verdict → Verdict → Verdict
passes then rest = rest
fails reason then rest = fails reason

abbrev pub require : Bool → ConfigError → Verdict
require false reason = fails reason
require true reason = passes

abbrev pub kind_eq : PluginKind → PluginKind → Bool
kind_eq engine engine = true
kind_eq provider provider = true
kind_eq processor processor = true
kind_eq _ _ = false

abbrev pub owner_eq : TurnTakingOwner → TurnTakingOwner → Bool
owner_eq server_vad server_vad = true
owner_eq client_vad client_vad = true
owner_eq semantic semantic = true
owner_eq external external = true
owner_eq _ _ = false

-- `_manifest`: the registry holds one manifest for a kind and a name.
unfoldable pub find_manifest :
    PluginKind → String → List CapabilityManifest → Option CapabilityManifest
find_manifest kind name [] = none
find_manifest kind name (m ∷ manifests) =
    if kind_eq m.kind kind && text_eq m.name name then some m else find_manifest kind name manifests

unfoldable pub matches_override_type : Json → OverrideType → Bool
matches_override_type (text _) string_type = true
matches_override_type (integer _) integer_type = true
matches_override_type (integer _) number_type = true
matches_override_type (integer _) float_type = true
matches_override_type (float _) number_type = true
matches_override_type (float _) float_type = true
matches_override_type (boolean _) boolean_type = true
matches_override_type (object _) object_type = true
matches_override_type (array _) array_type = true
matches_override_type _ _ = false

abbrev pub text_in : String → List String → Bool
text_in a [] = false
text_in a (b ∷ bs) = let rest = text_in a bs in if text_eq b a then true else rest

-- `required - available` is empty.
abbrev pub all_in : List String → List String → Bool
all_in [] available = true
all_in (r ∷ required) available =
    let rest = all_in required available in if text_in r available then rest else false

-- `stage.requires_host_capability or manifest.requires_host_capability`: an empty list is no answer.
unfoldable pub required_capabilities : PipelineStage → CapabilityManifest → List String
required_capabilities stage manifest = elim stage.requires_host_capability [
  | none ↦ manifest.requires_host_capability
  | some required ↦ elim required [ [] ↦ manifest.requires_host_capability | r ∷ rs ↦ r ∷ rs ]
]

unfoldable pub validate_host_capabilities : PipelineStage → CapabilityManifest → Verdict
unfolding required_capabilities
validate_host_capabilities stage manifest =
    require (all_in (required_capabilities stage manifest) stage.host_capabilities)
      capability_missing

-- `allowed.get(target)` of a dict that is built in order: the last permission of a target counts.
unfoldable pub allowed_type : String → List OverridePermission → Option OverrideType
allowed_type target [] = none
allowed_type target (p ∷ permissions) =
    let later = allowed_type target permissions in
    elim later [ some t ↦ some t | none ↦ if text_eq p.target target then some p.type_ else none ]

unfoldable pub validate_override : List OverridePermission → OverrideValue → Verdict
unfolding allowed_type matches_override_type
validate_override permissions override = elim (allowed_type override.target permissions) [
  | none ↦ fails override_not_allowed
  | some expected ↦ require (matches_override_type override.value expected) override_type_invalid
]

-- A check of each entry, in order.
abbrev pub each {ℓ} : {A : Type ℓ} → (A → Verdict) → List A → Verdict
each check [] = passes
each check (x ∷ xs) = let rest = each check xs in check x then rest

unfoldable pub validate_overrides : PipelineStage → CapabilityManifest → Verdict
unfolding validate_override
validate_overrides stage manifest =
    each (validate_override manifest.allowed_overrides) stage.overrides

-- `stage.io or manifest.io`
unfoldable pub effective_io : PipelineStage → CapabilityManifest → Option IoContract
effective_io stage manifest = elim stage.io [ none ↦ manifest.io | some io ↦ some io ]

module _ (differ : Json → Json → Bool) where
  -- No key of both has two values.
  unfoldable pub agree : Fields → Fields → Bool
  unfolding lookup
  agree no_fields accepts = true
  agree (field key value produces) accepts =
      let rest = agree produces accepts in
      elim (lookup key accepts) [
        | none ↦ rest
        | some other ↦ if differ value other then false else rest
      ]

  unfoldable pub validate_pair : Option IoContract → Option IoContract → Verdict
  unfolding agree
  validate_pair none right = passes
  validate_pair (some left) none = passes
  validate_pair (some left) (some right) = elim left.produces [
    | none ↦ passes
    | some produces ↦ require (agree produces right.accepts) io_mismatch
  ]

  unfoldable pub validate_adjacent : List (Option IoContract) → Verdict
  unfolding validate_pair
  validate_adjacent [] = passes
  validate_adjacent (left ∷ ios) =
      let rest = validate_adjacent ios in
      elim ios [ [] ↦ passes | right ∷ more ↦ validate_pair left right then rest ]

abbrev pub owner_in : TurnTakingOwner → List TurnTakingOwner → Bool
owner_in a [] = false
owner_in a (b ∷ bs) = let rest = owner_in a bs in if owner_eq b a then true else rest

-- An empty list of codecs supports them all.
abbrev pub supports : List String → String → Bool
supports [] codec = true
supports (c ∷ codecs) codec = text_in codec (c ∷ codecs)

abbrev pub has_detector : TurnTakingConfig → Bool
has_detector config = elim config.detector [ none ↦ false | some d ↦ true ]

unfoldable pub validate_provider_caps : VoiceSpec → CapabilityManifest → Verdict
validate_provider_caps spec manifest = elim manifest.provider_caps [
  | none ↦ fails caps_undeclared
  | some caps ↦
      require (owner_in spec.turn_taking.owner caps.turn_taking_owners) owner_unsupported
      then require
          (not (owner_eq spec.turn_taking.owner server_vad && has_detector spec.turn_taking))
          vad_configured_twice
      then require (supports caps.supported_codecs spec.codec) codec_unsupported
]

module _ (conforms : Fields → Fields → Bool) (differ : Json → Json → Bool)
    (manifests : List CapabilityManifest) where
  unfoldable pub validate_params : CapabilityManifest → Fields → Verdict
  validate_params manifest params = require (conforms manifest.param_schema params) params_mismatch

  -- One round of the first loop of `_validate_pipeline`.
  unfoldable pub validate_stage : PipelineStage → Verdict
  unfolding find_manifest validate_params validate_host_capabilities validate_overrides
  validate_stage stage = elim (find_manifest processor stage.plugin manifests) [
    | none ↦ fails manifest_not_found
    | some manifest ↦
        validate_params manifest stage.params
        then validate_host_capabilities stage manifest
        then validate_overrides stage manifest
  ]

  -- What that round appends to `effective_ios`.
  unfoldable pub stage_io : PipelineStage → Option IoContract
  unfolding find_manifest effective_io
  stage_io stage = elim (find_manifest processor stage.plugin manifests) [
    | none ↦ none
    | some manifest ↦ effective_io stage manifest
  ]

  unfoldable pub validate_pipeline : List PipelineStage → Verdict
  unfolding validate_stage stage_io validate_adjacent
  validate_pipeline pipeline =
      each validate_stage pipeline then validate_adjacent differ (map stage_io pipeline)

  unfoldable pub validate_engine : EngineConfig → Verdict
  unfolding find_manifest validate_params
  validate_engine config = elim (find_manifest engine config.kind manifests) [
    | none ↦ fails manifest_not_found
    | some manifest ↦ validate_params manifest config.params
  ]

  unfoldable pub validate_provider : VoiceSpec → Verdict
  unfolding find_manifest validate_params validate_provider_caps
  validate_provider spec = elim (find_manifest provider spec.ai.provider manifests) [
    | none ↦ fails manifest_not_found
    | some manifest ↦
        validate_params manifest spec.ai.params then validate_provider_caps spec manifest
  ]

  unfoldable pub validate_cross_fields : VoiceSpec → Verdict
  unfolding validate_engine validate_provider validate_pipeline
  validate_cross_fields spec =
      validate_engine spec.engine then validate_provider spec then validate_pipeline spec.pipeline
