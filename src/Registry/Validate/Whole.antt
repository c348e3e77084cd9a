-- ===== src/Registry/Validate/Whole.antt =====
-- `_validate_cross_fields` passes exactly the specifications that fit their manifests.
use voxbench.Base.{◌≡◌, ◌↔◌, Bool, true, some, List, if◌then◌else◌, map, Memᴰ, All, All-weaken}
use voxbench.Registry.Json.{Json, Fields}
use voxbench.Registry.Schema.{
  engine, provider, processor, ProviderCaps, CapabilityManifest, PipelineStage, EngineConfig,
  VoiceSpec,
}
use voxbench.Registry.Validate.Checks.{
  needed-passes, then-passes, require-passes, each-passes, all_in-All,
}
use voxbench.Registry.Validate.{
  manifest_not_found, params_mismatch, capability_missing, passes, ◌then◌, find_manifest, all_in,
  required_capabilities, validate_host_capabilities, validate_override, validate_overrides,
  validate_provider_caps, validate_params, validate_stage, stage_io, validate_pipeline,
  validate_engine, validate_provider, validate_cross_fields,
}
use voxbench.Registry.Validate.Compatible.{Adjacent, validate_adjacent-Adjacent}
use voxbench.Registry.Validate.Specification.{
  Permitted, Served, validate_override-Permitted, validate_provider_caps-Served,
}

module _ (conforms : Fields → Fields → Bool) (differ : Json → Json → Bool)
    (manifests : List CapabilityManifest) where
  -- The parameters of the stage conform, its host has what it needs, and its overrides are permitted.
  pub record StageMeets (stage : PipelineStage) (manifest : CapabilityManifest) : Type 0 where
    pub conforming : conforms manifest.param_schema stage.params ≡ true
    pub capable : All (λ r. Memᴰ r stage.host_capabilities) (required_capabilities stage manifest)
    pub permitted : All (Permitted manifest.allowed_overrides) stage.overrides

  abbrev pub StageFits : PipelineStage → Type 0
  StageFits stage =
      (manifest : CapabilityManifest) × (find_manifest processor stage.plugin manifests
        ≡ some manifest)
      × StageMeets stage manifest

  -- The parameters conform, and the provider's capabilities are declared and serve the specification.
  pub record ProviderMeets (spec : VoiceSpec) (manifest : CapabilityManifest) : Type 0 where
    pub conforming : conforms manifest.param_schema spec.ai.params ≡ true
    pub caps : ProviderCaps
    pub declared : manifest.provider_caps ≡ some caps
    pub served : Served spec caps

  validate_stage-StageFits :
      (stage : PipelineStage)
      → (validate_stage conforms differ manifests stage ≡ passes) ↔ StageFits stage
  unfolding validate_stage validate_params validate_host_capabilities validate_overrides
  validate_stage-StageFits stage =
      needed-passes (StageMeets stage)
        (λ manifest.
          validate_params conforms differ manifests manifest stage.params
          then validate_host_capabilities stage manifest
          then validate_overrides stage manifest)
        (find_manifest processor stage.plugin manifests) manifest_not_found
        (λ manifest.
          let a = require-passes (conforms manifest.param_schema stage.params) params_mismatch in
          let b' =
            require-passes (all_in (required_capabilities stage manifest) stage.host_capabilities)
              capability_missing in
          let b = all_in-All (required_capabilities stage manifest) stage.host_capabilities in
          let c = each-passes (validate_override manifest.allowed_overrides) stage.overrides in
          let x = then-passes _ _ in
          let y = then-passes _ _ in
          (
            λ h.
                let (p, q) = x.0 h in
                let (r, s) = y.0 q in
                record {
                  conforming = a.0 p;
                  capable = b.0 (b'.0 r);
                  permitted =
                      All-weaken _ _ stage.overrides
                        (λ o. (validate_override-Permitted manifest.allowed_overrides o).0) (c.0 s);
                },
            λ h. x.1 (
              a.1 h.conforming,
              y.1 (
                b'.1 (b.1 h.capable),
                c.1 (
                    All-weaken _ _ stage.overrides
                      (λ o. (validate_override-Permitted manifest.allowed_overrides o).1)
                      h.permitted),
              ),
            ),
          ))

  -- The engine and the provider have manifests that their parameters conform to, the provider serves
  -- the specification, every stage fits, and each stage's output fits the next one's input.
  pub record Compatible (spec : VoiceSpec) : Type 0 where
    pub engine_fits :
        (manifest : CapabilityManifest) × (find_manifest engine spec.engine.kind manifests
          ≡ some manifest)
        × (conforms manifest.param_schema spec.engine.params ≡ true)
    pub provider_fits :
        (manifest : CapabilityManifest) × (find_manifest provider spec.ai.provider manifests
          ≡ some manifest)
        × ProviderMeets spec manifest
    pub stages_fit : All StageFits spec.pipeline
    pub adjacent : Adjacent differ (map (stage_io conforms differ manifests) spec.pipeline)

  engine_iff :
      (config : EngineConfig)
      → (validate_engine conforms differ manifests config ≡ passes) ↔ (
          (manifest : CapabilityManifest) × (find_manifest engine config.kind manifests
            ≡ some manifest)
          × (conforms manifest.param_schema config.params ≡ true))
  unfolding validate_engine validate_params
  engine_iff config =
      needed-passes (λ manifest. conforms manifest.param_schema config.params ≡ true)
        (λ manifest. validate_params conforms differ manifests manifest config.params)
        (find_manifest engine config.kind manifests) manifest_not_found
        (λ manifest. require-passes (conforms manifest.param_schema config.params) params_mismatch)

  provider_iff :
      (spec : VoiceSpec)
      → (validate_provider conforms differ manifests spec ≡ passes) ↔ (
          (manifest : CapabilityManifest) × (find_manifest provider spec.ai.provider manifests
            ≡ some manifest)
          × ProviderMeets spec manifest)
  unfolding validate_provider validate_params
  provider_iff spec =
      needed-passes (ProviderMeets spec)
        (λ manifest.
          validate_params conforms differ manifests manifest spec.ai.params
          then validate_provider_caps spec manifest)
        (find_manifest provider spec.ai.provider manifests) manifest_not_found
        (λ manifest.
          let a = require-passes (conforms manifest.param_schema spec.ai.params) params_mismatch in
          let b = validate_provider_caps-Served spec manifest in
          let x = then-passes _ _ in
          (
            λ h.
                let (p, q) = x.0 h in
                let (caps, declared, served) = b.0 q in
                record { conforming = a.0 p; caps = caps; declared = declared; served = served },
            λ h. x.1 (a.1 h.conforming, b.1 (h.caps, h.declared, h.served)),
          ))

  -- The cross-field validation passes exactly the specifications that are compatible with the
  -- registered manifests.
  pub validate_cross_fields-Compatible :
      (spec : VoiceSpec)
      → (validate_cross_fields conforms differ manifests spec ≡ passes) ↔ Compatible spec
  unfolding validate_cross_fields validate_pipeline
  validate_cross_fields-Compatible spec =
      let e = engine_iff spec.engine in
      let p = provider_iff spec in
      let s = each-passes (validate_stage conforms differ manifests) spec.pipeline in
      let a =
        validate_adjacent-Adjacent differ
          (map (stage_io conforms differ manifests) spec.pipeline) in
      let x = then-passes _ _ in
      let y = then-passes _ _ in
      let z = then-passes _ _ in
      (
        λ h.
            let (h₁, h') = x.0 h in
            let (h₂, h'') = y.0 h' in
            let (h₃, h₄) = z.0 h'' in
            record {
              engine_fits = e.0 h₁;
              provider_fits = p.0 h₂;
              stages_fit =
                  All-weaken _ _ spec.pipeline (λ stage. (validate_stage-StageFits stage).0)
                    (s.0 h₃);
              adjacent = a.0 h₄;
            },
        λ c. x.1 (
          e.1 c.engine_fits,
          y.1 (
            p.1 c.provider_fits,
            z.1 (
              s.1 (
                  All-weaken _ _ spec.pipeline (λ stage. (validate_stage-StageFits stage).1)
                    c.stages_fit),
              a.1 c.adjacent,
            ),
          ),
        ),
      )
