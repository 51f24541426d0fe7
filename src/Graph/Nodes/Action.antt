-- ===== src/Graph/Nodes/Action.antt =====
-- `makeSystemActionNode`, one function for each stage that can end the node.
use crisismode.Base.{
  Bool, true, false, ◌&&◌, not, some, List, [], ◌∷◌, ◌++◌, map, or_else, template, if◌then◌else◌,
}
use crisismode.Types.{
  Value, object, field, boolean, end, PreCondition, SystemActionStep, RecoveryStep, system_action,
  step_id, step_name, success, failed, StepResult, LogType, ExecutionLogEntry,
  CapabilityProviderResolution, step_start, step_complete, success_check, precondition_check, info,
}
use crisismode.Safety.Capture.{execute_capture}
use crisismode.Safety.BlastRadius.{validate_blast_radius}
use crisismode.Providers.Resolve.{StepProviderResolution}
use crisismode.Engine.Effects.{Exec, pure, gets, attempt, Reply, resolved, rejected, ◌>>=◌, ◌>>◌}
use crisismode.Engine.State.{Env, Config, Event, EngineState, make_step_result, call}
use crisismode.Engine.Action.{
  is_execute, required_failed, fail, fail_resolved, evaluate, make_transition, resolution_of,
  command_text,
}
use crisismode.Graph.State
use crisismode.Graph.State.{GraphUpdate, make_log_entry, plain_update}

unfoldable pub start_log : RecoveryStep → List ExecutionLogEntry
unfolding make_log_entry
start_log step =
    make_log_entry step_start (step_id step) ("Starting step: " ∷ step_name step ∷ []) ∷ []

-- An update for a failed action: the outcome, the step and the need for a rollback
unfoldable pub failed_update : SystemActionStep → StepResult → List ExecutionLogEntry → GraphUpdate
unfolding plain_update
failed_update step result logs = record (plain_update result logs) {
  execution_outcome = some State.failed;
  rollback_needed = some true;
  failed_step_id = some step.step_id;
}

module _ {W D : Type 0} (env : Env W D) (cfg : Config W) (step : SystemActionStep) where
  unfoldable pub checked :
      List CapabilityProviderResolution → List ExecutionLogEntry → Value → Bool → GraphUpdate
  unfolding failed_update plain_update
  checked capabilities logs output true =
      plain_update
        (record (make_step_result (system_action step) success) {
          output = some output;
          provider_resolution = some capabilities;
        })
        logs
  checked capabilities logs output false =
      failed_update step
        (record (make_step_result (system_action step) failed) {
          output = some output;
          provider_resolution = some capabilities;
          error =
              some
                (template ("Success criteria failed: " ∷ step.success_criteria.description ∷ []));
        })
        logs

  -- After the command: the transition and the success criteria
  unfoldable pub finish_node :
      List CapabilityProviderResolution
      → List ExecutionLogEntry
      → Value
      → Exec (EngineState W) GraphUpdate
  unfolding make_log_entry
  finish_node capabilities logs output = do
    make_transition env cfg step.state_transition
    passed ← evaluate env cfg step.success_criteria.check
    pure (
        checked capabilities
          (logs
            ++ make_log_entry success_check step.step_id (
                "Success criteria "
                ∷ (if passed then "passed" else "FAILED")
                ∷ ": "
                ∷ step.success_criteria.description
                ∷ [])
              ∷ [])
          output passed)

  unfoldable pub after_command_node :
      List CapabilityProviderResolution
      → List ExecutionLogEntry
      → Reply Value
      → Exec (EngineState W) GraphUpdate
  unfolding failed_update make_log_entry
  after_command_node capabilities logs (resolved output) =
      finish_node capabilities
        (logs
          ++ make_log_entry step_complete step.step_id
              ("Executed command: " ∷ command_text step.command ∷ [])
            ∷ [])
        output
  after_command_node capabilities logs (rejected e) = pure (
      failed_update step
        (fail_resolved step (template ("Command execution failed: " ∷ e ∷ [])) capabilities)
        (logs
          ++ make_log_entry LogType.step_failed step.step_id ("Command execution failed: " ∷ e ∷ [])
            ∷ []))

  unfoldable pub dry_run_node :
      List CapabilityProviderResolution → List ExecutionLogEntry → Exec (EngineState W) GraphUpdate
  unfolding plain_update make_log_entry
  dry_run_node capabilities logs = do
    make_transition env cfg step.state_transition
    pure (
        plain_update
          (record (make_step_result (system_action step) success) {
            output = some (object (field "dryRun" (boolean true) end));
            provider_resolution = some capabilities;
          })
          (logs
            ++ make_log_entry step_complete step.step_id
                ("[DRY-RUN] Would execute: " ∷ command_text step.command ∷ [])
              ∷ []))

  -- The command, with the `try` around it
  unfoldable pub send_node :
      List CapabilityProviderResolution → List ExecutionLogEntry → Exec (EngineState W) GraphUpdate
  send_node capabilities logs = do
    reply ← attempt (call (Event.command step.command) (env.execute_command step.command))
    after_command_node capabilities logs reply

  -- Execute or dry-run
  unfoldable pub command_node :
      List CapabilityProviderResolution → List ExecutionLogEntry → Exec (EngineState W) GraphUpdate
  command_node capabilities logs =
      if is_execute cfg.mode then send_node capabilities logs else dry_run_node capabilities logs

  -- One round of the loop over the preconditions, with what the rest of the loop does
  unfoldable pub after_precondition :
      List CapabilityProviderResolution
      → List ExecutionLogEntry
      → PreCondition
      → (List ExecutionLogEntry → Exec (EngineState W) GraphUpdate)
      → Bool
      → Exec (EngineState W) GraphUpdate
  unfolding failed_update make_log_entry
  after_precondition capabilities logs pre rest passed =
      let logs' =
        logs
        ++ make_log_entry precondition_check step.step_id (
            "Precondition " ∷ (if passed then "passed" else "FAILED") ∷ ": " ∷ pre.description ∷ [])
          ∷ [] in
      if passed
      then rest logs'
      else pure (
          failed_update step
            (fail_resolved step (template ("Precondition failed: " ∷ pre.description ∷ []))
              capabilities)
            logs')

  unfoldable pub preconditions_node :
      List CapabilityProviderResolution
      → List PreCondition
      → List ExecutionLogEntry
      → Exec (EngineState W) GraphUpdate
  preconditions_node capabilities [] logs = command_node capabilities logs
  preconditions_node capabilities (pre ∷ pres) logs = do
    passed ← evaluate env cfg pre.check
    after_precondition capabilities logs pre (preconditions_node capabilities pres) passed

  -- From the before captures on
  unfoldable pub captures_node :
      List CapabilityProviderResolution → List ExecutionLogEntry → Exec (EngineState W) GraphUpdate
  unfolding failed_update
  captures_node capabilities logs = do
    now ← gets (λ s. env.now s.world)
    if required_failed (map (λ c. execute_capture c now) step.state_preservation.before)
          step.state_preservation.before
        then pure (
            failed_update step (fail_resolved step "Required before capture failed" capabilities)
              logs)
        else preconditions_node capabilities (or_else step.pre_conditions []) logs

  -- Provider resolution, and what follows
  unfoldable pub after_resolution : StepProviderResolution → Exec (EngineState W) GraphUpdate
  unfolding failed_update make_log_entry start_log
  after_resolution resolution =
      let logs =
        start_log (system_action step)
        ++ make_log_entry (if resolution.resolved then info else LogType.step_failed) step.step_id
            ("Provider resolution: " ∷ resolution.summary ∷ [])
          ∷ [] in
      if is_execute cfg.mode && not resolution.resolved
      then pure (
          failed_update step
            (fail_resolved step
              (template ("Provider resolution failed: " ∷ resolution.summary ∷ []))
              resolution.capabilities)
            logs)
      else captures_node resolution.capabilities logs

  unfoldable pub system_action_node : Exec (EngineState W) GraphUpdate
  unfolding failed_update make_log_entry start_log
  system_action_node =
      let blast = validate_blast_radius step cfg.manifest (some cfg.context) in
      if blast.valid
      then (do
        resolution ← gets (λ s. resolution_of env cfg step s.world)
        after_resolution resolution)
      else pure (
          failed_update step
            (fail step (template ("Blast radius validation failed: " ∷ blast.message ∷ [])))
            (start_log (system_action step)
              ++ make_log_entry LogType.step_failed step.step_id
                  ("Blast radius validation failed: " ∷ blast.message ∷ [])
                ∷ []))
