-- ===== src/Graph/Rollback.antt =====
-- src/framework/graph-rollback.ts: the rollback of the actions of a plan that failed, the last one
-- first, as a graph of its own.
mod Schema
mod Captures
unfoldable pub use Schema.*
unfoldable pub use Captures.*
use crisismode.Base.{
  String, ℕ, zero, suc, Bool, true, false, ◌&&◌, Option, none, some, List, [], ◌∷◌, ◌++◌, map,
  filter, last, is_empty, join, template, if◌then◌else◌,
}
use crisismode.Types.{
  Command, RollbackType, RollbackDirective, automatic, manual, command, RecoveryStep,
  SystemActionStep, system_action, StepStatus, success, failed, rolled_back, StepResult,
  ExecutionLogEntry, step_start, step_complete, step_failed, info,
}
use crisismode.Engine.Effects.{Exec, pure, attempt, Reply, resolved, rejected, ◌>>=◌, ◌>>◌}
use crisismode.Engine.State.{Env, Event, EngineState, call}
use crisismode.Graph.State.{make_log_entry}
use crisismode.Graph.Flow.{Graph, end, node, Runtime, raise}

-- An action with a rollback directive
unfoldable pub directive_of : RecoveryStep → Option (SystemActionStep × RollbackDirective)
directive_of (system_action s) = elim s.rollback [ none ↦ none | some d ↦ some (s, d) ]
directive_of _ = none

unfoldable pub is_success : StepStatus → Bool
is_success success = true
is_success _ = false

unfoldable pub is_reversible : StepResult → Bool
unfolding directive_of is_success
is_reversible r = elim (directive_of r.step) [ none ↦ false | some d ↦ is_success r.status ]

-- `reverse`
abbrev pub reversed : List StepResult → List StepResult
reversed [] = []
reversed (r ∷ rs) = reversed rs ++ r ∷ []

-- `extractRollbackSteps`
unfoldable pub extract_rollback_steps : List StepResult → List StepResult
unfolding is_reversible
extract_rollback_steps completed = reversed (filter is_reversible completed)

-- The result of the rollback of an action
unfoldable pub rollback_result :
    SystemActionStep → StepResult → StepStatus → Option String → StepResult
rollback_result step result status error = record {
  step_id = template ("rollback-" ∷ step.step_id ∷ []);
  step = result.step;
  status = status;
  output = none;
  error = error;
  provider_resolution = none;
  capture_results = none;
}

unfoldable pub rolled : SystemActionStep → StepResult → List ExecutionLogEntry → RollbackUpdate
unfolding rollback_result
rolled step result logs = record {
  rollback_results = rollback_result step result rolled_back none ∷ [];
  forensic_log = logs;
  rollback_outcome = none;
}

unfoldable pub not_rolled :
    SystemActionStep → StepResult → List ExecutionLogEntry → String → RollbackUpdate
unfolding rollback_result
not_rolled step result logs error = record {
  rollback_results = rollback_result step result failed (some error) ∷ [];
  forensic_log = logs;
  rollback_outcome = some partial;
}

unfoldable pub type_text : RollbackType → String
type_text automatic = "automatic"
type_text manual = "manual"
type_text command = "command"

unfoldable pub handling_text : RollbackType → String
handling_text manual = "manual intervention"
handling_text _ = "automatic handling"

module _ (step : SystemActionStep) (d : RollbackDirective) (result : StepResult) where
  unfoldable pub rolling_back : ExecutionLogEntry
  unfolding make_log_entry
  rolling_back =
      make_log_entry step_start step.step_id
        ("Rolling back: " ∷ step.name ∷ " — " ∷ d.description ∷ [])

  -- After the explicit command
  unfoldable pub after_rollback : {A : Type 0} → Reply A → RollbackUpdate
  unfolding rolled not_rolled make_log_entry rolling_back
  after_rollback (resolved output) = rolled step result (
      rolling_back
      ∷ make_log_entry step_complete step.step_id
          ("Rollback command executed: " ∷ d.description ∷ [])
      ∷ [])
  after_rollback (rejected e) =
      not_rolled step result
        (rolling_back
          ∷ make_log_entry step_failed step.step_id ("Rollback command failed: " ∷ e ∷ [])
          ∷ [])
        (template ("Rollback failed: " ∷ e ∷ []))

  -- A rollback without a command: it is logged and counted as done
  unfoldable pub logged_only : RollbackUpdate
  unfolding rolled make_log_entry rolling_back type_text handling_text
  logged_only = rolled step result (
      rolling_back
      ∷ make_log_entry info step.step_id (
          "Rollback type '"
          ∷ type_text d.type
          ∷ "': "
          ∷ d.description
          ∷ " (requires "
          ∷ handling_text d.type
          ∷ ")"
          ∷ [])
      ∷ [])

  -- The entry for a command from a capture
  unfoldable pub capture_entry : {A : Type 0} → CaptureRollbackCommand → Reply A → ExecutionLogEntry
  unfolding make_log_entry
  capture_entry c (resolved output) = make_log_entry step_complete step.step_id (
      "Capture-based rollback executed: " ∷ c.description ∷ " (capture: " ∷ c.capture_id ∷ ")" ∷ [])
  capture_entry c (rejected e) =
      make_log_entry step_failed step.step_id ("Capture-based rollback failed: " ∷ e ∷ [])

  unfoldable pub error_of : {A : Type 0} → Reply A → List String
  error_of (resolved output) = []
  error_of (rejected e) = e ∷ []

  unfoldable pub after_captures : List ExecutionLogEntry → List String → RollbackUpdate
  unfolding rolled not_rolled
  after_captures logs [] = rolled step result logs
  after_captures logs (e ∷ es) =
      not_rolled step result logs
        (template ("Capture-based rollback partially failed: " ∷ join "; " (e ∷ es) ∷ []))

  module _ {W D : Type 0} (env : Env W D) where
    unfoldable pub send : Command → Exec (EngineState W) RollbackUpdate
    unfolding after_rollback
    send c = do
      reply ← attempt (call (Event.command c) (env.execute_command c))
      pure (after_rollback reply)

    -- The loop over the commands, with the log and the errors so far
    unfoldable pub restore_captures :
        List CaptureRollbackCommand
        → List ExecutionLogEntry
        → List String
        → Exec (EngineState W) RollbackUpdate
    unfolding capture_entry error_of after_captures
    restore_captures [] logs errors = pure (after_captures logs errors)
    restore_captures (c ∷ cs) logs errors = do
      reply ← attempt (call (Event.command c.command) (env.execute_command c.command))
      restore_captures cs (logs ++ capture_entry c reply ∷ []) (errors ++ error_of reply)

    unfoldable pub by_captures :
        Option (CaptureStore (EngineState W)) → Exec (EngineState W) RollbackUpdate
    unfolding logged_only rolling_back restore_captures generate_capture_rollback_commands
    by_captures none = pure logged_only
    by_captures (some store) = do
      commands ← generate_capture_rollback_commands store step
      if is_empty commands
          then pure logged_only
          else restore_captures commands (rolling_back ∷ []) []

    unfoldable pub roll_back :
        Option (CaptureStore (EngineState W))
        → RollbackType
        → Option Command
        → Exec (EngineState W) RollbackUpdate
    unfolding send by_captures logged_only
    roll_back store command (some c) = send c
    roll_back store automatic c = by_captures store
    roll_back store _ c = pure logged_only

unfoldable pub final_of : Option RollbackState → List StepResult × List ExecutionLogEntry
final_of none = ([], [])
final_of (some v) = (v.rollback_results, v.forensic_log)

-- The results and the log of the last value
unfoldable pub last_results : List RollbackState → List StepResult × List ExecutionLogEntry
unfolding final_of
last_results values = final_of (last values)

module _ {W D : Type 0} (env : Env W D) (store : Option (CaptureStore (EngineState W))) where
  -- The node of a result. One that is no action with a directive has no `rollback` to read.
  unfoldable pub rollback_node : StepResult → RollbackState → Exec (EngineState W) RollbackUpdate
  unfolding directive_of roll_back
  rollback_node r v = elim (directive_of r.step) [
    | none ↦ raise "Cannot read properties of undefined (reading 'description')"
    | some p ↦ roll_back p.0 p.1 r env store p.1.type p.1.command
  ]

  -- `buildRollbackGraph`, for some steps: edges without a condition
  unfoldable pub build_rollback_graph :
      List StepResult → Graph (EngineState W) RollbackState RollbackUpdate
  unfolding rollback_node
  build_rollback_graph [] = end
  build_rollback_graph (r ∷ rs) = node (rollback_node r) (λ v. true) (build_rollback_graph rs)

  module _ (runtime : Runtime (EngineState W) RollbackState RollbackUpdate) where
    unfoldable pub stream_rollback :
        List StepResult → Exec (EngineState W) (List StepResult × List ExecutionLogEntry)
    unfolding make_log_entry build_rollback_graph initial_state last_results
    stream_rollback [] = pure (
      [],
      record { type = info; step_id = ""; message = "No steps with rollback directives found" }
          ∷ [],
    )
    stream_rollback (r ∷ rs) = do
      values ←
          runtime.stream runtime.recursion_limit (build_rollback_graph (r ∷ rs))
            (initial_state (r ∷ rs))
      pure (last_results values)

    -- `executeRollback`
    unfoldable pub execute_rollback :
        List StepResult → Exec (EngineState W) (List StepResult × List ExecutionLogEntry)
    unfolding extract_rollback_steps stream_rollback
    execute_rollback completed = stream_rollback (extract_rollback_steps completed)
