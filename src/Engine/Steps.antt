-- ===== src/Engine/Steps.antt =====
-- The other kinds of steps of src/framework/engine.ts, and the dispatch on them. A method that
-- `executeStep` returns without `await` is outside the reach of its `catch`.
use crisismode.Base.{
  ℕ, zero, suc, String, Bool, true, false, ◌&&◌, not, Option, none, some, List, [], ◌∷◌, map, every,
  includes, ltb, template, or_else, if◌then◌else◌, ◌==◌,
}
use crisismode.Types.{
  TrustLevel, RecoveryStep, ElseStep, DiagnosisActionStep, HumanNotificationStep, HumanApprovalStep,
  CheckpointStep, ReplanningCheckpointStep, ConditionalHead, system_action, diagnosis_action,
  human_notification, human_approval, checkpoint, replanning_checkpoint, conditional, skip,
  otherwise, step_id, step_name, RecoveryPlan, AffectedSystem, AgentContext, StepStatus, success,
  failed, skipped, StepResult, CaptureSummary, step_start, step_complete, notification_sent,
  approval_auto, approval_received, conditional_eval, replan_result,
}
use crisismode.Risk.{collect_execution_contexts, get_max_risk_index, derive_plan_max_risk_level}
use crisismode.Approval
use crisismode.Approval.{ApprovalResult, read_decision, is_catalog_covered, should_auto_approve}
use crisismode.Safety.Capture.{CaptureResult}
use crisismode.Hooks.{HookContext, approval_request}
use crisismode.Engine.Effects.{Exec, pure, gets, diverge, try_await, ◌>>=◌, ◌>>◌}
use crisismode.Engine.State.{
  Env, Config, Callback, Event, ReplanResult, keep_plan, revised_plan, abort, EngineState,
  make_step_result, add_log_entry, add_step_result, add_plan, increment_replan_count,
  push_completed, notify, call, fire_hook,
}
use crisismode.Engine.Action.{required_failed, take_captures, evaluate, execute_system_action}

abbrev pub failure : RecoveryStep → String → StepResult
failure step error = record (make_step_result step failed) { error = some error }

unfoldable pub summary_of : CaptureResult → CaptureSummary
summary_of r = record {
  name = r.name;
  status = r.status;
  reason = r.reason;
  data_value = r.data_value;
}

-- `trustScenarioOverrides[scenario] || trustLevel`
unfoldable pub trust_from : String → TrustLevel → List (String × TrustLevel) → TrustLevel
trust_from scenario trust [] = trust
trust_from scenario trust ((k, t) ∷ rest) =
    if k == scenario then t else trust_from scenario trust rest

unfoldable pub effective_trust : String → AgentContext → TrustLevel
unfolding trust_from
effective_trust scenario c = trust_from scenario c.trust_level c.trust_scenario_overrides

unfoldable pub auto_approves : {W : Type 0} → Config W → RecoveryPlan → Bool
auto_approves cfg plan =
    should_auto_approve (derive_plan_max_risk_level plan)
      (effective_trust plan.metadata.scenario cfg.context)
      (is_catalog_covered (derive_plan_max_risk_level plan) cfg.covered_risk_levels)
      cfg.context.organizational_policies.require_approval_for_all_elevated

decision_name : ApprovalResult → String
decision_name Approval.approved = "approved"
decision_name Approval.skipped = "skipped"
decision_name Approval.rejected = "rejected"

-- `checkFastReplanConditions`
unfoldable pub check_fast_replan_conditions : RecoveryPlan → RecoveryPlan → Bool
check_fast_replan_conditions original revised =
    let contexts = collect_execution_contexts original.steps in
    let targets = map (λ s. s.identifier) original.impact.affected_systems in
    if not (every (λ c. includes c contexts) (collect_execution_contexts revised.steps))
    then false
    else if ltb (get_max_risk_index original.steps) (get_max_risk_index revised.steps)
    then false
    else every (λ (s : AffectedSystem). includes s.identifier targets)
        revised.impact.affected_systems

unfoldable pub approval_outcome : HumanApprovalStep → ApprovalResult → StepResult
approval_outcome step Approval.rejected = failure (human_approval step) "Human rejected the step"
approval_outcome step Approval.skipped = make_step_result (human_approval step) skipped
approval_outcome step Approval.approved = make_step_result (human_approval step) success

unfoldable pub revised_outcome : ReplanningCheckpointStep → Option String → StepResult
revised_outcome step none = make_step_result (replanning_checkpoint step) success
revised_outcome step (some error) = failure (replanning_checkpoint step) error

pub replan_name : ReplanResult → String
replan_name keep_plan = "continue"
replan_name (revised_plan _) = "revised_plan"
replan_name (abort _) = "abort"

module _ {W D : Type 0} (env : Env W D) (cfg : Config W) where
  unfoldable pub execute_diagnosis_action : DiagnosisActionStep → Exec (EngineState W) StepResult
  execute_diagnosis_action step = do
    output ← call (Event.command step.command) (env.execute_command step.command)
    add_log_entry step_complete step.step_id ("Diagnosis action completed: " ∷ step.name ∷ [])
    pure (record (make_step_result (diagnosis_action step) success) { output = some output })

  unfoldable pub execute_notification : HumanNotificationStep → Exec (EngineState W) StepResult
  execute_notification step = do
    notify (Callback.notification step.step_id)
    add_log_entry notification_sent step.step_id ("Notification sent: " ∷ step.message.summary ∷ [])
    pure (make_step_result (human_notification step) success)

  unfoldable pub execute_checkpoint : CheckpointStep → Exec (EngineState W) StepResult
  unfolding summary_of
  execute_checkpoint step = do
    results ← take_captures env cfg step.state_captures
    pure
        (record (make_step_result (checkpoint step)
          (if required_failed results step.state_captures then failed else success)) {
            capture_results = some (map summary_of results);
          })

  unfoldable pub approval_context : HumanApprovalStep → RecoveryPlan → HookContext
  approval_context step plan = record {
    plan = some plan;
    step = some (human_approval step);
    step_result = none;
    manifest = some cfg.manifest;
    agent_context = none;
    execution_state = none;
    mode = some cfg.mode;
  }

  -- `requestApproval`, with the answer that the operator types; the terminal may reject the question
  unfoldable pub request_approval : Exec (EngineState W) ApprovalResult
  request_approval = do answer ← call Event.question env.question; pure (read_decision answer)

  unfoldable pub decide : HumanApprovalStep → RecoveryPlan → Exec (EngineState W) ApprovalResult
  unfolding auto_approves decision_name
  decide step plan =
      if auto_approves cfg plan
      then (do
        add_log_entry approval_auto step.step_id
            ("Approval auto-satisfied by trust level or catalog" ∷ [])
        pure Approval.approved)
      else do
        decision ← request_approval
        add_log_entry approval_received step.step_id
            ("Approval result: " ∷ decision_name decision ∷ [])
        pure decision

  unfoldable pub execute_approval :
      HumanApprovalStep → RecoveryPlan → Exec (EngineState W) StepResult
  unfolding approval_context decision_name
  execute_approval step plan = do
    notify (Callback.approval_request step.step_id)
    _ ← fire_hook cfg approval_request (λ _. approval_context step plan)
    decision ← decide step plan
    notify (
        Callback.approval_result step.step_id (decision_name decision)
          (is_catalog_covered (derive_plan_max_risk_level plan) cfg.covered_risk_levels))
    pure (approval_outcome step decision)

  -- `executeBranchStep`
  unfoldable pub execute_branch_step : RecoveryStep → Exec (EngineState W) StepResult
  execute_branch_step (system_action s) = execute_system_action env cfg s
  execute_branch_step (human_notification s) = execute_notification s
  execute_branch_step step = pure (make_step_result step success)

  unfoldable pub run_branch : RecoveryStep → Exec (EngineState W) StepResult
  run_branch step = do
    notify (Callback.step_start step none)
    result ← execute_branch_step step
    notify (Callback.step_complete step result)
    pure result

  unfoldable pub choose_branch :
      ConditionalHead → RecoveryStep → ElseStep → Bool → Exec (EngineState W) StepResult
  choose_branch c t e true = run_branch t
  choose_branch c t skip false = pure (make_step_result (conditional c t skip) skipped)
  choose_branch c t (otherwise e) false = run_branch e

  unfoldable pub execute_conditional :
      ConditionalHead → RecoveryStep → ElseStep → Exec (EngineState W) StepResult
  execute_conditional c t e = do
    met ← evaluate env cfg c.check
    notify (Callback.conditional_eval c.step_id met)
    add_log_entry conditional_eval c.step_id
        ("Condition '" ∷ c.description ∷ "': " ∷ (if met then "TRUE" else "FALSE") ∷ [])
    result ← choose_branch c t e met
    add_step_result result
    pure (make_step_result (conditional c t e) result.status)

  unfoldable pub after_revised :
      RecoveryStep
      → Exec (EngineState W) (Option String)
      → Option String
      → StepStatus
      → Exec (EngineState W) (Option String)
  after_revised step rest error failed = pure (
      some (
        template (
          "Revised plan failed at step "
          ∷ step_id step
          ∷ ": "
          ∷ or_else error "unknown error"
          ∷ [])))
  after_revised step rest error _ = rest

  -- One step of a revised plan, and the rest of the loop if it has not failed
  unfoldable pub run_revised_step :
      Exec (EngineState W) StepResult
      → RecoveryStep
      → Exec (EngineState W) (Option String)
      → Exec (EngineState W) (Option String)
  run_revised_step run step rest = do
    notify (Callback.step_start step none)
    result ← run
    add_step_result result
    push_completed result
    notify (Callback.step_complete step result)
    after_revised step rest result.error result.status

  -- The loop over the steps of a revised plan: none if all went well, or the error of the step
  -- that failed
  unfoldable pub run_revised :
      (RecoveryStep → Exec (EngineState W) StepResult)
      → List RecoveryStep
      → Exec (EngineState W) (Option String)
  run_revised run [] = pure none
  run_revised run (step ∷ steps) = run_revised_step (run step) step (run_revised run steps)

  -- What is done with the agent's answer. `run` executes a step of the revised plan.
  unfoldable pub apply_replan :
      (RecoveryStep → RecoveryPlan → Exec (EngineState W) StepResult)
      → ReplanningCheckpointStep
      → RecoveryPlan
      → ReplanResult
      → Exec (EngineState W) StepResult
  unfolding revised_outcome
  apply_replan run step plan (abort reason) = do
    notify (Callback.replan_result "abort" reason)
    pure (
        failure (replanning_checkpoint step)
          (template ("Replan aborted execution: " ∷ reason ∷ [])))
  apply_replan run step plan keep_plan = do
    notify (Callback.replan_result "continue" "Current plan remains valid")
    pure (make_step_result (replanning_checkpoint step) success)
  apply_replan run step plan (revised_plan revised) = do
    increment_replan_count
    add_plan revised
    notify (
        Callback.replan_result "revised_plan" (
          template (
            "Revised plan: "
            ∷ revised.metadata.summary
            ∷ ". Fast replan: "
            ∷ (if step.fast_replan && check_fast_replan_conditions plan revised
                then "approved"
                else "not applicable")
            ∷ [])))
    error ← run_revised (λ s. run s revised) revised.steps
    pure (revised_outcome step error)

  unfoldable pub ask_agent : D → Exec (EngineState W) ReplanResult
  ask_agent diagnosis = do
    state ← gets (λ s. s.execution_state)
    call Event.replan (env.replan cfg.context diagnosis state)

  unfoldable pub execute_replanning :
      (RecoveryStep → RecoveryPlan → Exec (EngineState W) StepResult)
      → ReplanningCheckpointStep
      → RecoveryPlan
      → D
      → Exec (EngineState W) StepResult
  unfolding replan_name
  execute_replanning run step plan diagnosis = do
    notify (Callback.replan_start step.step_id)
    _ ← take_captures env cfg (or_else step.diagnostic_captures [])
    answer ← ask_agent diagnosis
    add_log_entry replan_result step.step_id ("Replan result: " ∷ replan_name answer ∷ [])
    apply_replan run step plan answer

  -- The `switch` of `executeStep`. Only the two methods that are awaited are under its `catch`.
  unfoldable pub dispatch :
      (RecoveryStep → RecoveryPlan → Exec (EngineState W) StepResult)
      → RecoveryStep
      → RecoveryPlan
      → D
      → Exec (EngineState W) StepResult
  dispatch run (diagnosis_action s) plan d = execute_diagnosis_action s
  dispatch run (human_notification s) plan d = execute_notification s
  dispatch run (checkpoint s) plan d = execute_checkpoint s
  dispatch run (system_action s) plan d = execute_system_action env cfg s
  dispatch run (human_approval s) plan d =
      try_await (execute_approval s plan) (λ e. pure (failure (human_approval s) e))
  dispatch run (replanning_checkpoint s) plan d =
      try_await (execute_replanning run s plan d) (λ e. pure (failure (replanning_checkpoint s) e))
  dispatch run (conditional c t e) plan d = execute_conditional c t e

  unfoldable pub start_step : RecoveryStep → Exec (EngineState W) (Unit {0})
  start_step step =
      add_log_entry step_start (step_id step) ("Starting step: " ∷ step_name step ∷ [])

  -- `executeStep`. The fuel bounds how deep revised plans are nested, not how many steps run.
  unfoldable pub execute_step :
      ℕ → D → RecoveryStep → RecoveryPlan → Exec (EngineState W) StepResult
  execute_step zero d step plan = diverge
  execute_step (suc fuel) d step plan = do
    start_step step
    dispatch (execute_step fuel d) step plan d
