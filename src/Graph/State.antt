-- ===== src/Graph/State.antt =====
-- The state schema of src/framework/graph-state.ts with its reducers. An update that leaves out a
-- channel with an append or merge reducer gives the empty list here.
use crisismode.Base.{
  String, Bool, false, Option, none, some, List, [], ◌∷◌, ◌++◌, or_else, if◌then◌else◌, ◌==◌,
  template,
}
use crisismode.Types.{Value, RecoveryPlan, StepResult, LogType, ExecutionLogEntry}

pub data GraphOutcome : Type 0 where
  success failed partial_success aborted pending : GraphOutcome

pub record GraphState (D : Type 0) : Type 0 where
  pub plan : RecoveryPlan
  pub diagnosis : D
  pub completed_steps : List StepResult
  pub captures : List (String × Value)
  pub step_outputs : List (String × Value)
  pub forensic_log : List ExecutionLogEntry
  pub execution_outcome : GraphOutcome
  pub rollback_needed : Bool
  pub rollback_results : List StepResult
  pub failed_step_id : Option String

-- What a node returns: `Partial<RecoveryGraphStateType>`. No node writes the plan, the diagnosis
-- or the results of a rollback.
pub record GraphUpdate : Type 0 where
  pub completed_steps : List StepResult
  pub captures : List (String × Value)
  pub step_outputs : List (String × Value)
  pub forensic_log : List ExecutionLogEntry
  pub execution_outcome : Option GraphOutcome
  pub rollback_needed : Option Bool
  pub failed_step_id : Option String

-- `{ ...existing, ...updates }`
unfoldable pub put : {A : Type 0} → String → A → List (String × A) → List (String × A)
put k a [] = (k, a) ∷ []
put k a ((j, b) ∷ m) = if j == k then (k, a) ∷ m else (j, b) ∷ put k a m

unfoldable pub merge : {A : Type 0} → List (String × A) → List (String × A) → List (String × A)
unfolding put
merge existing [] = existing
merge existing ((k, a) ∷ updates) = merge (put k a existing) updates

unfoldable pub reduce : {D : Type 0} → GraphUpdate → GraphState D → GraphState D
unfolding merge
reduce u s = record s {
  completed_steps = s.completed_steps ++ u.completed_steps;
  captures = merge s.captures u.captures;
  step_outputs = merge s.step_outputs u.step_outputs;
  forensic_log = s.forensic_log ++ u.forensic_log;
  execution_outcome = or_else u.execution_outcome s.execution_outcome;
  rollback_needed = or_else u.rollback_needed s.rollback_needed;
  failed_step_id = elim u.failed_step_id [ none ↦ s.failed_step_id | some id ↦ some id ];
}

unfoldable pub initial_state : {D : Type 0} → RecoveryPlan → D → GraphState D
initial_state plan diagnosis = record {
  plan = plan;
  diagnosis = diagnosis;
  completed_steps = [];
  captures = [];
  step_outputs = [];
  forensic_log = [];
  execution_outcome = pending;
  rollback_needed = false;
  rollback_results = [];
  failed_step_id = none;
}

-- The input of `executePlan`, the plan and the diagnosis, on what is saved for the thread: the
-- other channels keep what earlier runs left in them.
unfoldable pub input_state : {D : Type 0} → Option (GraphState D) → RecoveryPlan → D → GraphState D
unfolding initial_state
input_state none plan diagnosis = initial_state plan diagnosis
input_state (some saved) plan diagnosis = record saved { plan = plan; diagnosis = diagnosis }

-- `makeLogEntry`
unfoldable pub make_log_entry : LogType → String → List String → ExecutionLogEntry
make_log_entry type id message = record { type = type; step_id = id; message = template message }

-- A result and the log, with no other channel
unfoldable pub plain_update : StepResult → List ExecutionLogEntry → GraphUpdate
plain_update result logs = record {
  completed_steps = result ∷ [];
  captures = [];
  step_outputs = [];
  forensic_log = logs;
  execution_outcome = none;
  rollback_needed = none;
  failed_step_id = none;
}
