-- ===== src/Examples/Data.antt =====
-- A manifest, a registry, plans and environments to try the definitions on.
use crisismode.Base.{ℕ, true, false, none, some, List, [], ◌∷◌}
use crisismode.Types
use crisismode.Types.{
  Value, null, text, end, ExecutionMode, dry_run, execute, RiskLevel, elevated, high,
  CheckExpression, Command, BlastRadius, CaptureDirective, required, negligible, sql_query,
  RecoveryStep, ElseStep, SystemActionStep, DiagnosisActionStep, HumanNotificationStep,
  HumanApprovalStep, ConditionalHead, system_action, diagnosis_action, human_notification,
  human_approval, conditional, skip, RecoveryPlan, AgentManifest, ExecutionContextDeclaration,
  CapabilityDefinition, CapabilityProviderDescriptor, AgentContext, TopologyComponent,
}
use crisismode.Capabilities.{Registry}
use crisismode.Engine.Effects.{resolved, rejected}
use crisismode.Engine.State.{Env, Config, EngineState, keep_plan}
use crisismode.Validator.Checks.{ValidationOptions}

abbrev pub healthy : CheckExpression
healthy = record {
  type = "sql";
  statement = some "SELECT 1";
  operation = none;
  parameters = none;
  operator = Types.Operator.eq;
  value = Types.number 1;
}

abbrev pub failover : Command
failover = record {
  type = Types.structured_command;
  subtype = none;
  statement = none;
  operation = some "failover";
  parameters = none;
}

abbrev pub probe : Command
probe = record {
  type = Types.sql;
  subtype = none;
  statement = some "SELECT pg_is_in_recovery()";
  operation = none;
  parameters = none;
}

abbrev pub lag : CaptureDirective
lag = record {
  name = "lag";
  capture_type = sql_query;
  statement = some "SELECT lag";
  targets = none;
  capture_cost = negligible;
  capture_policy = required;
  retention = none;
  format = none;
  available_to = none;
}

abbrev pub promote : SystemActionStep
promote = record {
  step_id = "promote";
  name = "Promote the replica";
  description = none;
  execution_context = "pg";
  target = "replica";
  risk_level = high;
  required_capabilities = "db.failover" ∷ [];
  command = failover;
  pre_conditions = none;
  state_preservation = record { before = lag ∷ []; after = [] };
  success_criteria = record { description = "replica is primary"; check = healthy };
  rollback = none;
  blast_radius = record {
    direct_components = "replica" ∷ [];
    indirect_components = [];
    max_impact = "writes stop";
    cascade_risk = Types.CascadeRisk.low;
  };
  timeout = "5m";
  retry_policy = none;
  state_transition = none;
}

abbrev pub inspect : DiagnosisActionStep
inspect = record {
  step_id = "inspect";
  name = "Inspect the replica";
  description = none;
  execution_context = "pg";
  target = "replica";
  command = probe;
  output_capture = none;
  timeout = "1m";
}

abbrev pub tell : HumanNotificationStep
tell = record {
  step_id = "tell";
  name = "Tell the operators";
  recipients = [];
  message = record {
    summary = "Failover ahead";
    detail = "The replica is promoted";
    context_references = none;
    action_required = false;
    guide_ids = some ("failover" ∷ []);
    guide_vars = none;
  };
  channel = "chat";
}

abbrev pub approve : HumanApprovalStep
approve = record {
  step_id = "approve";
  name = "Approve the failover";
  description = none;
  approvers = [];
  required_approvals = 1;
  presentation = record {
    summary = "Failover";
    detail = "Promote the replica";
    context_references = none;
    proposed_actions = [];
    risk_summary = none;
    alternatives = [];
  };
  timeout = "15m";
  timeout_action = Types.TimeoutAction.abort;
  escalate_to = none;
}

abbrev pub if_healthy : ConditionalHead
if_healthy = record {
  step_id = "if";
  name = "If healthy";
  description = "replica answers";
  check = healthy;
}

-- A plan with given steps
abbrev pub plan_of : List RecoveryStep → RecoveryPlan
plan_of steps = record {
  api_version = "v1";
  metadata = record {
    plan_id = "p1";
    agent_name = "pg";
    agent_version = "1";
    scenario = "replica_lag";
    created_at = "today";
    estimated_duration = "5m";
    summary = "Promote the replica";
    supersedes = none;
  };
  impact = record {
    affected_systems = [];
    affected_services = [];
    estimated_user_impact = "none";
    data_loss_risk = "none";
  };
  steps = steps;
  rollback_strategy =
      some (record { type = Types.RollbackStrategyType.stepwise; description = "" });
}

abbrev pub recovery : RecoveryPlan
recovery = plan_of (
    human_notification tell
    ∷ human_approval approve
    ∷ conditional if_healthy (system_action promote) skip
    ∷ [])

abbrev pub context : ExecutionContextDeclaration
context = record {
  name = "pg";
  type = "sql";
  privilege = "admin";
  target = "postgresql";
  allowed_operations = none;
  capabilities = some ("db.failover" ∷ []);
}

abbrev pub manifest : AgentManifest
manifest = record {
  name = "pg";
  version = "1";
  target_systems = [];
  failure_scenarios = "replica_lag" ∷ [];
  execution_contexts = context ∷ [];
  max_risk_level = high;
}

abbrev pub can_failover : CapabilityDefinition
can_failover = record {
  id = "db.failover";
  action_kind = Types.CapabilityActionKind.mutate;
  description = "Promote a replica";
  target_kinds = "postgresql" ∷ [];
  manual_fallback = none;
}

abbrev pub registry : Registry
registry = record { capabilities = can_failover ∷ []; index = ("db.failover", can_failover) ∷ [] }

abbrev pub provider : CapabilityProviderDescriptor
provider = record {
  id = "pg-live";
  name = "PostgreSQL";
  capabilities = "db.failover" ∷ [];
  execution_contexts = "pg" ∷ [];
  target_kinds = "postgresql" ∷ [];
  command_types = Types.structured_command ∷ [];
  supports_dry_run = true;
  supports_execute = true;
}

abbrev pub options : ValidationOptions
options = record {
  require_executable_capabilities = true;
  backend = some (provider ∷ []);
  execution_mode = some execute;
}

abbrev pub blank : TopologyComponent
blank = record {
  identifier = "db-1";
  technology = "postgresql";
  version = "16";
  role = " ";
  reachable = true;
}

abbrev pub agent_context : AgentContext
agent_context = record {
  trigger_payload = end;
  components = blank ∷ [];
  trust_level = Types.TrustLevel.autopilot;
  trust_scenario_overrides = [];
  organizational_policies = record {
    max_autonomous_risk_level = "routine";
    require_approval_above = "elevated";
    require_approval_for_all_elevated = false;
    shell_commands_enabled = false;
    approval_timeout_minutes = 15;
    escalation_depth = 2;
  };
  pre_authorized_catalogs = [];
}

-- An outside that succeeds at everything and changes nothing
abbrev pub env : Env ℕ (Unit {0})
env = record {
  now = λ w. w;
  execute_command = λ c w. (resolved null, w);
  evaluate_check = λ c w. (resolved true, w);
  list_capability_providers = λ w. provider ∷ [];
  transition = λ t w. w;
  replan = λ c d st w. (resolved keep_plan, w);
  question = λ w. (resolved "yes", w);
}

-- The same with a backend that refuses every command
abbrev pub refusing : Env ℕ (Unit {0})
refusing = record env { execute_command = λ c w. (rejected "connection refused", w) }

abbrev pub config : ExecutionMode → Config ℕ
config mode = record {
  context = agent_context;
  manifest = manifest;
  mode = mode;
  covered_risk_levels = [];
  hooks = none;
  capabilities = registry;
}

abbrev pub initial : EngineState ℕ
initial = record {
  world = 0;
  trace = [];
  recorder = record { log = []; captures = []; step_results = []; plans = []; replan_count = 0 };
  execution_state = record { completed_steps = []; current_step_index = 0; captures = [] };
}
