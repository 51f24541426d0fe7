-- ===== src/Types/Context.antt =====
-- packages/agent-sdk/src/types/agent-context.ts. Of a context, the framework layers, the network
-- profile, the relationships and the prior incidents are left out: nothing modelled reads them.
use crisismode.Base.{ℕ, String, Bool, List}
use crisismode.Types.Common.{TrustLevel, Fields}

pub record TopologyComponent : Type 0 where
  pub identifier : String
  pub technology : String
  pub version : String
  pub role : String
  pub reachable : Bool

pub record OrganizationalPolicies : Type 0 where
  pub max_autonomous_risk_level : String
  pub require_approval_above : String
  pub require_approval_for_all_elevated : Bool
  pub shell_commands_enabled : Bool
  pub approval_timeout_minutes : ℕ
  pub escalation_depth : ℕ

pub record AgentContext : Type 0 where
  pub trigger_payload : Fields
  pub components : List TopologyComponent
  pub trust_level : TrustLevel
  pub trust_scenario_overrides : List (String × TrustLevel)
  pub organizational_policies : OrganizationalPolicies
  pub pre_authorized_catalogs : List String
