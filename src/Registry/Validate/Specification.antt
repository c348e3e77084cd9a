-- ===== src/Registry/Validate/Specification.antt =====
-- What a specification that passes has: its manifests, and how its parts meet them.
use voxbench.Base.{
  ◌≡◌, ◌≢◌, ◌↔◌, ◌⊎◌, inl, inr, refl, Bool, true, false, ◌&&◌, not, Option, none, some, String,
  List, [], ◌∷◌, if◌then◌else◌, Memᴰ, Bool-cases,
}
use voxbench.Registry.Schema.{
  OverrideType, TurnTakingOwner, server_vad, OverridePermission, OverrideValue, ProviderCaps,
  CapabilityManifest, DetectorConfig, VoiceSpec,
}
use voxbench.Registry.Validate.Checks.{
  needed-passes, then-passes, require-passes, text_in-Memᴰ, owner_in-Memᴰ, owner_eq→, owner_eq_iff,
}
use voxbench.Registry.Validate.{
  caps_undeclared, owner_unsupported, vad_configured_twice, codec_unsupported, override_not_allowed,
  override_type_invalid, passes, ◌then◌, require, owner_eq, matches_override_type, allowed_type,
  validate_override, owner_in, supports, has_detector, validate_provider_caps,
}

-- The overrides of a stage are permitted, and of the permitted type.
abbrev pub Permitted : List OverridePermission → OverrideValue → Type 0
Permitted permissions override =
    (expected : OverrideType) × (allowed_type override.target permissions ≡ some expected)
    × (matches_override_type override.value expected ≡ true)

pub validate_override-Permitted :
    (permissions : List OverridePermission) (override : OverrideValue)
    → (validate_override permissions override ≡ passes) ↔ Permitted permissions override
unfolding validate_override
validate_override-Permitted permissions override =
    needed-passes (λ expected. matches_override_type override.value expected ≡ true)
      (λ expected. require (matches_override_type override.value expected) override_type_invalid)
      (allowed_type override.target permissions) override_not_allowed
      (λ expected.
        require-passes (matches_override_type override.value expected) override_type_invalid)

-- The provider has the owner of turn taking and the codec, and voice activity is detected once.
pub record Served (spec : VoiceSpec) (caps : ProviderCaps) : Type 0 where
  pub owner_supported : Memᴰ spec.turn_taking.owner caps.turn_taking_owners
  pub detected_once : (spec.turn_taking.owner ≢ server_vad) ⊎ (spec.turn_taking.detector ≡ none)
  pub codec_supported : (caps.supported_codecs ≡ []) ⊎ Memᴰ spec.codec caps.supported_codecs

supports_iff :
    (codecs : List String) (codec : String)
    → (supports codecs codec ≡ true) ↔ ((codecs ≡ []) ⊎ Memᴰ codec codecs)
supports_iff [] codec = (λ h. inl refl, λ h. refl)
supports_iff (c ∷ codecs) codec = (λ h. inr ((text_in-Memᴰ codec (c ∷ codecs)).0 h), from)
  where
    from : (c ∷ codecs ≡ []) ⊎ Memᴰ codec (c ∷ codecs) → supports (c ∷ codecs) codec ≡ true
    from (inl e) = absurd (cc)
    from (inr m) = (text_in-Memᴰ codec (c ∷ codecs)).1 m

once_iff :
    (o : TurnTakingOwner) (detector : Option DetectorConfig)
    → (not (owner_eq o server_vad && elim detector as (λ x. Bool) [ none ↦ false | some d ↦ true ])
        ≡ true)
      ↔ ((o ≢ server_vad) ⊎ (detector ≡ none))
once_iff o none = elim (Bool-cases (owner_eq o server_vad)) [
  | inl e ↦ rw e (λ h. inr refl, λ h. refl)
  | inr e ↦ rw e (λ h. inr refl, λ h. refl)
]
once_iff o (some d) = elim (Bool-cases (owner_eq o server_vad)) [
  | inl e ↦ rw e (
    λ h. absurd (cc),
    λ h. elim h [ inl apart ↦ absurd (apart (owner_eq→ o server_vad e)) | inr gone ↦ absurd (cc) ],
  )
  | inr e ↦ rw e (λ h. inl (λ q. cc (e, (owner_eq_iff o server_vad).1 q)), λ h. refl)
]

pub validate_provider_caps-Served :
    (spec : VoiceSpec) (manifest : CapabilityManifest)
    → (validate_provider_caps spec manifest ≡ passes)
      ↔ ((caps : ProviderCaps) × (manifest.provider_caps ≡ some caps) × Served spec caps)
unfolding validate_provider_caps
validate_provider_caps-Served spec manifest =
    needed-passes (Served spec)
      (λ caps.
        require (owner_in spec.turn_taking.owner caps.turn_taking_owners) owner_unsupported
        then require
            (not (owner_eq spec.turn_taking.owner server_vad && has_detector spec.turn_taking))
            vad_configured_twice
        then require (supports caps.supported_codecs spec.codec) codec_unsupported)
      manifest.provider_caps caps_undeclared
      (λ caps.
        let a = owner_in-Memᴰ spec.turn_taking.owner caps.turn_taking_owners in
        let b = once_iff spec.turn_taking.owner spec.turn_taking.detector in
        let c = supports_iff caps.supported_codecs spec.codec in
        let a' =
          require-passes (owner_in spec.turn_taking.owner caps.turn_taking_owners)
            owner_unsupported in
        let b' =
          require-passes
            (not (owner_eq spec.turn_taking.owner server_vad && has_detector spec.turn_taking))
            vad_configured_twice in
        let c' = require-passes (supports caps.supported_codecs spec.codec) codec_unsupported in
        let x = then-passes _ _ in
        let y = then-passes _ _ in
        (
          λ h.
              let (p, q) = x.0 h in
              let (r, s) = y.0 q in
              record {
                owner_supported = a.0 (a'.0 p);
                detected_once = b.0 (b'.0 r);
                codec_supported = c.0 (c'.0 s);
              },
          λ h. x.1 (
            a'.1 (a.1 h.owner_supported),
            y.1 (b'.1 (b.1 h.detected_once), c'.1 (c.1 h.codec_supported)),
          ),
        ))
