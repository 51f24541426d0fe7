-- ===== src/Types/Steps.antt =====
-- packages/agent-sdk/src/types/step-types.ts and recovery-plan.ts. The branches of a conditional
-- are steps of any kind here, nested conditionals included: `NonConditionalStep` rules these out
-- in the sources of the repository only, and plans from outside are checked at run time.
use crisismode.Base.{ℕ, String, Bool, Option, List}
use crisismode.Types.Common.{
  RiskLevel, TimeoutAction, CheckExpression, Command, BlastRadius, CaptureDirective, RetryPolicy,
  RollbackDirective, Recipient, Approver, PreCondition, SuccessCriteria, StatePreservation,
}

pub record SystemActionStep : Type 0 where
  pub step_id : String
  pub name : String
  pub description : Option String
  pub execution_context : String
  pub target : String
  pub risk_level : RiskLevel
  pub required_capabilities : List String
  pub command : Command
  pub pre_conditions : Option (List PreCondition)
  pub state_preservation : StatePreservation
  pub success_criteria : SuccessCriteria
  pub rollback : Option RollbackDirective
  pub blast_radius : BlastRadius
  pub timeout : String
  pub retry_policy : Option RetryPolicy
  pub state_transition : Option String

pub record OutputCapture : Type 0 where
  pub name : String
  pub format : String
  pub available_to : String

pub record DiagnosisActionStep : Type 0 where
  pub step_id : String
  pub name : String
  pub description : Option String
  pub execution_context : String
  pub target : String
  pub command : Command
  pub output_capture : Option OutputCapture
  pub timeout : String

pub record NotificationMessage : Type 0 where
  pub summary : String
  pub detail : String
  pub context_references : Option (List String)
  pub action_required : Bool
  pub guide_ids : Option (List String)
  pub guide_vars : Option (List (String × String))

pub record HumanNotificationStep : Type 0 where
  pub step_id : String
  pub name : String
  pub recipients : List Recipient
  pub message : NotificationMessage
  pub channel : String

pub record Presentation : Type 0 where
  pub summary : String
  pub detail : String
  pub context_references : Option (List String)
  pub proposed_actions : List String
  pub risk_summary : Option String
  pub alternatives : List (String × String)

pub record HumanApprovalStep : Type 0 where
  pub step_id : String
  pub name : String
  pub description : Option String
  pub approvers : List Approver
  pub required_approvals : ℕ
  pub presentation : Presentation
  pub timeout : String
  pub timeout_action : TimeoutAction
  pub escalate_to : Option (String × String)

pub record CheckpointStep : Type 0 where
  pub step_id : String
  pub name : String
  pub description : Option String
  pub state_captures : List CaptureDirective

pub record ReplanningCheckpointStep : Type 0 where
  pub step_id : String
  pub name : String
  pub description : Option String
  pub fast_replan : Bool
  pub replan_timeout : String
  pub diagnostic_captures : Option (List CaptureDirective)

-- `ConditionalStep` without its branches
pub record ConditionalHead : Type 0 where
  pub step_id : String
  pub name : String
  pub description : String
  pub check : CheckExpression

mutual
  pub data RecoveryStep : Type 0 where
    system_action : SystemActionStep → RecoveryStep
    diagnosis_action : DiagnosisActionStep → RecoveryStep
    human_notification : HumanNotificationStep → RecoveryStep
    human_approval : HumanApprovalStep → RecoveryStep
    checkpoint : CheckpointStep → RecoveryStep
    replanning_checkpoint : ReplanningCheckpointStep → RecoveryStep
    conditional : ConditionalHead → RecoveryStep → ElseStep → RecoveryStep

  pub data ElseStep : Type 0 where
    skip : ElseStep
    otherwise : RecoveryStep → ElseStep

abbrev pub step_id : RecoveryStep → String
step_id (system_action s) = s.step_id
step_id (diagnosis_action s) = s.step_id
step_id (human_notification s) = s.step_id
step_id (human_approval s) = s.step_id
step_id (checkpoint s) = s.step_id
step_id (replanning_checkpoint s) = s.step_id
step_id (conditional c _ _) = c.step_id

abbrev pub step_name : RecoveryStep → String
step_name (system_action s) = s.name
step_name (diagnosis_action s) = s.name
step_name (human_notification s) = s.name
step_name (human_approval s) = s.name
step_name (checkpoint s) = s.name
step_name (replanning_checkpoint s) = s.name
step_name (conditional c _ _) = c.name

pub record PlanMetadata : Type 0 where
  pub plan_id : String
  pub agent_name : String
  pub agent_version : String
  pub scenario : String
  pub created_at : String
  pub estimated_duration : String
  pub summary : String
  pub supersedes : Option String

pub record AffectedSystem : Type 0 where
  pub identifier : String
  pub technology : String
  pub role : String
  pub impact_type : String

pub record PlanImpact : Type 0 where
  pub affected_systems : List AffectedSystem
  pub affected_services : List String
  pub estimated_user_impact : String
  pub data_loss_risk : String

pub data RollbackStrategyType : Type 0 where
  stepwise checkpoint full none : RollbackStrategyType

pub record RollbackStrategy : Type 0 where
  pub type : RollbackStrategyType
  pub description : String

-- `rollback_strategy` is optional here: the validator tests for a plan that has none.
pub record RecoveryPlan : Type 0 where
  pub api_version : String
  pub metadata : PlanMetadata
  pub impact : PlanImpact
  pub steps : List RecoveryStep
  pub rollback_strategy : Option RollbackStrategy
