-- ===== src/Types/Common.antt =====
-- packages/agent-sdk/src/types/common.ts. A value of type `unknown` is a JSON value.
use crisismode.Base.{ℕ, String, Bool, Option, List}

mutual
  pub data Value : Type 0 where
    null : Value
    boolean : Bool → Value
    number : ℕ → Value
    text : String → Value
    array : Items → Value
    object : Fields → Value

  pub data Items : Type 0 where
    nil : Items
    cons : Value → Items → Items

  pub data Fields : Type 0 where
    end : Fields
    field : String → Value → Fields → Fields

pub data ExecutionMode : Type 0 where
  dry_run execute : ExecutionMode

pub data RiskLevel : Type 0 where
  routine elevated high critical : RiskLevel

pub data TrustLevel : Type 0 where
  observe copilot autopilot full_autonomy : TrustLevel

pub data CapturePolicy : Type 0 where
  required best_effort deferred : CapturePolicy

pub data CaptureCost : Type 0 where
  negligible moderate expensive : CaptureCost

pub data CaptureType : Type 0 where
  sql_query file_snapshot command_output api_snapshot filesystem_snapshot custom : CaptureType

pub data CascadeRisk : Type 0 where
  none low medium high : CascadeRisk

pub data Urgency : Type 0 where
  low medium high critical : Urgency

pub data TimeoutAction : Type 0 where
  escalate abort skip pause : TimeoutAction

pub data Operator : Type 0 where
  eq neq gt gte lt lte : Operator

pub record CheckExpression : Type 0 where
  pub type : String
  pub statement : Option String
  pub operation : Option String
  pub parameters : Option Fields
  pub operator : Operator
  pub value : Value

pub data CommandType : Type 0 where
  sql structured_command kubernetes_api api_call configuration_change : CommandType

pub record Command : Type 0 where
  pub type : CommandType
  pub subtype : Option String
  pub statement : Option String
  pub operation : Option String
  pub parameters : Option Fields

pub record BlastRadius : Type 0 where
  pub direct_components : List String
  pub indirect_components : List String
  pub max_impact : String
  pub cascade_risk : CascadeRisk

pub record CaptureDirective : Type 0 where
  pub name : String
  pub capture_type : CaptureType
  pub statement : Option String
  pub targets : Option (List String)
  pub capture_cost : CaptureCost
  pub capture_policy : CapturePolicy
  pub retention : Option String
  pub format : Option String
  pub available_to : Option String

pub record RetryPolicy : Type 0 where
  pub max_retries : ℕ
  pub retryable : Bool

pub data RollbackType : Type 0 where
  automatic manual command : RollbackType

pub record RollbackDirective : Type 0 where
  pub type : RollbackType
  pub description : String
  pub estimated_duration : Option String
  pub command : Option Command

pub record Recipient : Type 0 where
  pub role : String
  pub urgency : Urgency

pub record Approver : Type 0 where
  pub role : String
  pub required : Bool

pub record PreCondition : Type 0 where
  pub description : String
  pub check : CheckExpression

pub record SuccessCriteria : Type 0 where
  pub description : String
  pub check : CheckExpression

pub record StatePreservation : Type 0 where
  pub before : List CaptureDirective
  pub after : List CaptureDirective
