-- ===== src/Graph/Rollback/Schema.antt =====
-- `RollbackGraphState` of src/framework/graph-rollback.ts.
use crisismode.Base.{Option, List, [], ◌++◌, or_else}
use crisismode.Types.{StepResult, ExecutionLogEntry}

pub data RollbackOutcome : Type 0 where
  success partial failed pending : RollbackOutcome

-- `RollbackGraphState`
pub record RollbackState : Type 0 where
  pub steps_to_rollback : List StepResult
  pub rollback_results : List StepResult
  pub forensic_log : List ExecutionLogEntry
  pub rollback_outcome : RollbackOutcome

pub record RollbackUpdate : Type 0 where
  pub rollback_results : List StepResult
  pub forensic_log : List ExecutionLogEntry
  pub rollback_outcome : Option RollbackOutcome

unfoldable pub reduce : RollbackUpdate → RollbackState → RollbackState
reduce u v = record v {
  rollback_results = v.rollback_results ++ u.rollback_results;
  forensic_log = v.forensic_log ++ u.forensic_log;
  rollback_outcome = or_else u.rollback_outcome v.rollback_outcome;
}

unfoldable pub initial_state : List StepResult → RollbackState
initial_state steps = record {
  steps_to_rollback = steps;
  rollback_results = [];
  forensic_log = [];
  rollback_outcome = pending;
}
