-- ===== src/Tests/Pipelines.antt =====
-- A specification with two stages that fit.
use voxbench.Base.{◌≡◌, ◌↔◌, refl, Bool, true, none, some, String, List, [], ◌∷◌, text_eq, not}
use voxbench.Base.Int.{pos}
use voxbench.Registry.Json.{Json, integer, text, Fields, no_fields, field}
use voxbench.Registry.Schema.{
  PluginKind, engine, provider, processor, integer_type, server_vad, semantic, CapabilityManifest,
  PipelineStage, VoiceSpec,
}
use voxbench.Registry.Validate.{passes, fails, vad_configured_twice, validate_cross_fields}
use voxbench.Registry.Validate.Whole.{Compatible, validate_cross_fields-Compatible}

abbrev conforms : Fields → Fields → Bool
conforms schema params = true

-- On texts, `!=`.
abbrev differ : Json → Json → Bool
differ (text a) (text b) = not (text_eq a b)
differ a b = true

abbrev pcm : Fields
pcm = field "encoding" (text "pcm16") no_fields

abbrev manifest : PluginKind → String → CapabilityManifest
manifest kind name = record {
  kind = kind;
  name = name;
  param_schema = no_fields;
  io = some (record { mode = "passthrough"; accepts = pcm; produces = some pcm });
  requires_host_capability = "gpu" ∷ [];
  allowed_overrides = record { target = "gain"; type_ = integer_type } ∷ [];
  provider_caps = some (record {
    turn_taking_owners = server_vad ∷ semantic ∷ [];
    supported_codecs = "opus" ∷ "pcmu" ∷ [];
  });
}

abbrev manifests : List CapabilityManifest
manifests = manifest engine "e" ∷ manifest provider "p" ∷ manifest processor "vad" ∷ []

abbrev stage : PipelineStage
stage = record {
  plugin = "vad";
  params = no_fields;
  io = none;
  requires_host_capability = none;
  host_capabilities = "cpu" ∷ "gpu" ∷ [];
  overrides = record { target = "gain"; value = integer (pos 3) } ∷ [];
}

abbrev spec : VoiceSpec
spec = record {
  engine = record { kind = "e"; params = no_fields };
  codec = "pcmu";
  pipeline = stage ∷ stage ∷ [];
  turn_taking = record {
    owner = semantic;
    detector = some (record { plugin = "d"; params = no_fields });
  };
  ai = record { provider = "p"; params = no_fields };
}

spec_passes : validate_cross_fields conforms differ manifests spec ≡ passes
unfolding validate_cross_fields
spec_passes = refl

twice :
    validate_cross_fields conforms differ manifests (record spec {
      turn_taking = record {
        owner = server_vad;
        detector = some (record { plugin = "d"; params = no_fields });
      };
    })
    ≡ fails vad_configured_twice
unfolding validate_cross_fields
twice = refl

validate_cross_fields-Compatible_example :
    (validate_cross_fields conforms differ manifests spec ≡ passes)
    ↔ Compatible conforms differ manifests spec
validate_cross_fields-Compatible_example =
    validate_cross_fields-Compatible conforms differ manifests spec
