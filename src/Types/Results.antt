-- ===== src/Types/Results.antt =====
-- packages/agent-sdk/src/types/execution-state.ts and the entries of forensic-record.ts. Times and
-- durations are left out.
use crisismode.Base.{ℕ, String, Option, List}
use crisismode.Types.Common.{Value}
use crisismode.Types.Steps.{RecoveryStep}
use crisismode.Types.Manifest.{CapabilityProviderResolution}

pub data CaptureStatus : Type 0 where
  captured skipped failed : CaptureStatus

pub record CaptureSummary : Type 0 where
  pub name : String
  pub status : CaptureStatus
  pub reason : Option String
  pub data_value : Option Value

pub data StepStatus : Type 0 where
  success failed skipped rolled_back : StepStatus

pub record StepResult : Type 0 where
  pub step_id : String
  pub step : RecoveryStep
  pub status : StepStatus
  pub output : Option Value
  pub error : Option String
  pub provider_resolution : Option (List CapabilityProviderResolution)
  pub capture_results : Option (List CaptureSummary)

pub record ExecutionState : Type 0 where
  pub completed_steps : List StepResult
  pub current_step_index : ℕ
  pub captures : List (String × Value)

pub data LogType : Type 0 where
  step_start step_complete step_failed precondition_check success_check : LogType
  approval_received approval_auto notification_sent conditional_eval replan_result info : LogType

pub record ExecutionLogEntry : Type 0 where
  pub type : LogType
  pub step_id : String
  pub message : String
