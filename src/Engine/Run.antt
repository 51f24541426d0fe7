-- ===== src/Engine/Run.antt =====
-- `executePlan` of src/framework/engine.ts.
use crisismode.Base.{
  ℕ, suc, Bool, true, false, ◌||◌, none, some, List, [], ◌∷◌, template, or_else, if◌then◌else◌,
}
use crisismode.Types
use crisismode.Types.{
  RecoveryStep, human_approval, step_id, RecoveryPlan, StepStatus, success, failed, skipped,
  rolled_back, StepResult, ExecutionState, info,
}
use crisismode.Hooks.{
  HookContext, HookResult, HookPoint, plan_validate, plan_validated, step_before, step_after,
  recovery_complete,
}
use crisismode.Engine.Effects.{Exec, pure, ◌>>=◌, ◌>>◌}
use crisismode.Engine.State.{
  Env, Config, Callback, EngineState, add_log_entry, add_step_result, push_completed, set_index,
  notify, fire_hook,
}
use crisismode.Engine.Steps.{failure, execute_step}

unfoldable pub is_failed_status : StepStatus → Bool
is_failed_status failed = true
is_failed_status _ = false

unfoldable pub is_skipped_approval : RecoveryStep → StepStatus → Bool
is_skipped_approval (human_approval _) skipped = true
is_skipped_approval _ _ = false

-- The test that ends the loop
unfoldable pub halts : RecoveryStep → StepStatus → Bool
unfolding is_failed_status is_skipped_approval
halts step status = is_failed_status status || is_skipped_approval step status

empty_context : HookContext
empty_context = record {
  plan = none;
  step = none;
  step_result = none;
  manifest = none;
  agent_context = none;
  execution_state = none;
  mode = none;
}

module _ {W D : Type 0} (env : Env W D) (cfg : Config W) (diagnosis : D) (plan : RecoveryPlan) where
  -- `step:failed` or `step:after`
  unfoldable pub fire_outcome : RecoveryStep → StepResult → Exec (EngineState W) HookResult
  unfolding empty_context
  fire_outcome step result =
      fire_hook cfg (if is_failed_status result.status then HookPoint.step_failed else step_after)
        (λ _. record empty_context {
          step = some step;
          step_result = some result;
          plan = some plan;
        })

  unfoldable pub log_halt : RecoveryStep → StepResult → Exec (EngineState W) (Unit {0})
  log_halt step result =
      if is_failed_status result.status
      then add_log_entry Types.LogType.step_failed (step_id step)
          ("Step failed: " ∷ or_else result.error "undefined" ∷ [])
      else add_log_entry info (step_id step)
          ("Execution halted after approval step was skipped" ∷ [])

  -- One round of the loop, after the `step:before` hooks let it pass
  unfoldable pub run_step : ℕ → RecoveryStep → Exec (EngineState W) StepResult
  run_step fuel step = do
    result ← execute_step env cfg fuel diagnosis step plan
    add_step_result result
    push_completed result
    notify (Callback.step_complete step result)
    _ ← fire_outcome step result
    pure result

  unfoldable pub before_step : ℕ → RecoveryStep → Exec (EngineState W) HookResult
  unfolding empty_context
  before_step i step = do
    set_index i
    notify (Callback.step_start step (some i))
    fire_hook cfg step_before (λ state. record empty_context {
      step = some step;
      plan = some plan;
      manifest = some cfg.manifest;
      agent_context = some cfg.context;
      execution_state = some state;
      mode = some cfg.mode;
    })

  -- One round of the loop, with what the rest of the loop does
  unfoldable pub run_round :
      ℕ
      → ℕ
      → RecoveryStep
      → Exec (EngineState W) (List StepResult)
      → Exec (EngineState W) (List StepResult)
  run_round fuel i step rest = do
    before ← before_step i step
    if before.abort
        then pure (
            failure step (template ("Aborted by hook: " ∷ or_else before.reason "undefined" ∷ []))
            ∷ [])
        else do
          result ← run_step fuel step
          if halts step result.status
              then (do log_halt step result; pure (result ∷ []))
              else (do results ← rest; pure (result ∷ results))

  -- The loop from the step with index `i` on: the results that it adds
  unfoldable pub run_steps : ℕ → ℕ → List RecoveryStep → Exec (EngineState W) (List StepResult)
  run_steps fuel i [] = pure []
  run_steps fuel i (step ∷ steps) = run_round fuel i step (run_steps fuel (suc i) steps)

  -- `plan:validate`, and `plan:validated` if it does not abort: whether to go on
  unfoldable pub validate_hooks : Exec (EngineState W) Bool
  unfolding empty_context
  validate_hooks = do
    validated ← fire_hook cfg plan_validate (λ _. record empty_context {
      plan = some plan;
      manifest = some cfg.manifest;
      agent_context = some cfg.context;
      mode = some cfg.mode;
    })
    if validated.abort then pure false else do
      _ ←
          fire_hook cfg plan_validated
            (λ _. record empty_context { plan = some plan; manifest = some cfg.manifest })
      pure true

  unfoldable pub execute_plan : ℕ → Exec (EngineState W) (List StepResult)
  unfolding empty_context
  execute_plan fuel = do
    goes_on ← validate_hooks
    if goes_on
        then (do
          results ← run_steps fuel 0 plan.steps
          _ ← fire_hook cfg recovery_complete (λ state. record empty_context {
            plan = some plan;
            execution_state = some state;
            manifest = some cfg.manifest;
          })
          pure results)
        else pure []
