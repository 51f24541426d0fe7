-- ===== src/Types/Manifest.antt =====
-- packages/agent-sdk/src/types/manifest.ts and plugin.ts. Of a manifest, the authors, licence,
-- tags and plugin metadata are left out: nothing that is modelled reads them.
use crisismode.Base.{String, Bool, Option, List}
use crisismode.Types.Common.{RiskLevel, CommandType}

pub record TargetSystem : Type 0 where
  pub technology : String
  pub version_constraint : String
  pub components : List String

pub record ExecutionContextDeclaration : Type 0 where
  pub name : String
  pub type : String
  pub privilege : String
  pub target : String
  pub allowed_operations : Option (List String)
  pub capabilities : Option (List String)

pub record AgentManifest : Type 0 where
  pub name : String
  pub version : String
  pub target_systems : List TargetSystem
  pub failure_scenarios : List String
  pub execution_contexts : List ExecutionContextDeclaration
  pub max_risk_level : RiskLevel

pub data CapabilityActionKind : Type 0 where
  read mutate check capture : CapabilityActionKind

pub record CapabilityDefinition : Type 0 where
  pub id : String
  pub action_kind : CapabilityActionKind
  pub description : String
  pub target_kinds : List String
  pub manual_fallback : Option String

pub record CapabilityProviderDescriptor : Type 0 where
  pub id : String
  pub name : String
  pub capabilities : List String
  pub execution_contexts : List String
  pub target_kinds : List String
  pub command_types : List CommandType
  pub supports_dry_run : Bool
  pub supports_execute : Bool

pub record CapabilityProviderResolution : Type 0 where
  pub capability : String
  pub resolved : Bool
  pub provider_id : Option String
  pub reason : Option String
