-- ===== src/Registry/Schema.antt =====
-- The manifests and the configurations of src/voxbench/schemas.py, as far as their validation reads
-- them.
use voxbench.Base.{String, Option, List}
use voxbench.Registry.Json.{Json, Fields}

pub data PluginKind : Type 0 where
  engine provider processor : PluginKind

pub data OverrideType : Type 0 where
  string_type integer_type number_type float_type boolean_type object_type array_type : OverrideType

pub data TurnTakingOwner : Type 0 where
  server_vad client_vad semantic external : TurnTakingOwner

pub record OverridePermission : Type 0 where
  pub target : String
  pub type_ : OverrideType

pub record OverrideValue : Type 0 where
  pub target : String
  pub value : Json

pub record IoContract : Type 0 where
  pub mode : String
  pub accepts : Fields
  pub produces : Option Fields

pub record ProviderCaps : Type 0 where
  pub turn_taking_owners : List TurnTakingOwner
  pub supported_codecs : List String

pub record CapabilityManifest : Type 0 where
  pub kind : PluginKind
  pub name : String
  pub param_schema : Fields
  pub io : Option IoContract
  pub requires_host_capability : List String
  pub allowed_overrides : List OverridePermission
  pub provider_caps : Option ProviderCaps

pub record PipelineStage : Type 0 where
  pub plugin : String
  pub params : Fields
  pub io : Option IoContract
  pub requires_host_capability : Option (List String)
  pub host_capabilities : List String
  pub overrides : List OverrideValue

pub record EngineConfig : Type 0 where
  pub kind : String
  pub params : Fields

pub record DetectorConfig : Type 0 where
  pub plugin : String
  pub params : Fields

pub record TurnTakingConfig : Type 0 where
  pub owner : TurnTakingOwner
  pub detector : Option DetectorConfig

pub record AiConfig : Type 0 where
  pub provider : String
  pub params : Fields

pub record VoiceSpec : Type 0 where
  pub engine : EngineConfig
  pub codec : String
  pub pipeline : List PipelineStage
  pub turn_taking : TurnTakingConfig
  pub ai : AiConfig
