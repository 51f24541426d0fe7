-- ===== src/Examples/Runs.antt =====
-- The engine, in dry runs and live.
use crisismode.Base.{
  ℕ, false, ◌≤◌, has_text, String, true, ◌≡◌, refl, ◌⊎◌, List, [], ◌∷◌, All, arith,
}
use crisismode.Types.{
  dry_run, execute, elevated, SystemActionStep, system_action, diagnosis_action, human_notification,
  human_approval, conditional, skip, RecoveryPlan, StepResult, success,
}
use crisismode.Risk.{index_of, collect_system_actions, walk_steps, visits, system_actions_of}
use crisismode.Engine.Effects.{ok, threw, ◌>>=◌}
use crisismode.Engine.State.{
  Env, make_step_result, fire_hook, set_index, notify, add_log_entry, add_step_result,
  push_completed,
}
use crisismode.Engine.Action.{is_execute, is_declarative_no_op_check}
use crisismode.Engine.Steps.{
  auto_approves, execute_approval, execute_conditional, dispatch, execute_step, start_step,
  execute_notification,
}
use crisismode.Engine.Run.{
  execute_plan, validate_hooks, run_steps, run_round, before_step, run_step, fire_outcome, halts,
}
use crisismode.Engine.Allowed.{OnlyAllowed}
use crisismode.Engine.DryRun.{execute_plan-OnlyAllowed}
use crisismode.Engine.Follows.{Follows, execute_plan-Follows}
use crisismode.Engine.Termination.{execute_plan-settles}
use crisismode.Engine.Approvals.{AsksOnce, questions, execute_approval-AsksOnce}
use crisismode.Approval.{should_auto_approve}
use crisismode.Engine.Effects.{rejected}
use crisismode.Risk.{derive_plan_max_risk_level, level_at, get_max_risk_index, max_from, max_step}
use crisismode.Engine.Await.{
  execute_plan-diagnosis_rejected, execute_conditional-approval_passes, HasResult,
  dispatch-HasResult,
}
use crisismode.Base.{◌↔◌, none}
use crisismode.Types.{CheckpointStep}
use crisismode.Engine.Steps.{auto_approves, execute_checkpoint, check_fast_replan_conditions}
use crisismode.Engine.Captures.{execute_checkpoint-succeeds}
use crisismode.Engine.FastReplan.{StaysWithin, check_fast_replan_conditions-StaysWithin_iff}
use crisismode.Examples.Data.{
  lag, probe, promote, inspect, tell, approve, if_healthy, plan_of, recovery, env, refusing, config,
  initial,
}

-- A plan that inspects first
abbrev inspecting : RecoveryPlan
inspecting = plan_of (diagnosis_action inspect ∷ system_action promote ∷ [])

execute_plan-OnlyAllowed_example :
    OnlyAllowed (λ c. c ≡ probe) (execute_plan env (config dry_run) tt inspecting 2 initial).1.trace
unfolding is_execute
execute_plan-OnlyAllowed_example =
    execute_plan-OnlyAllowed (λ c. c ≡ probe) env (config dry_run) tt inspecting 2 initial refl
      (λ c e st w r answer. cc) (refl, (tt, tt)) tt

execute_plan-settles_example :
    ((results : List StepResult) × ((execute_plan env (config execute) tt recovery 2 initial).0
        ≡ ok results))
    ⊎ ((error : String) × ((execute_plan env (config execute) tt recovery 2 initial).0
          ≡ threw error))
execute_plan-settles_example =
    execute_plan-settles env (config execute) tt recovery 0 initial (λ c e st w r answer. cc)

-- A plan that only tells
abbrev telling : RecoveryPlan
telling = plan_of (human_notification tell ∷ [])

abbrev told : List StepResult
told = make_step_result (human_notification tell) success ∷ []

telling-validate_hooks : (validate_hooks env (config execute) tt telling initial).0 ≡ ok true
unfolding validate_hooks fire_hook ◌>>=◌
telling-validate_hooks = refl

telling-execute_plan : (execute_plan env (config execute) tt telling 1 initial).0 ≡ ok told
unfolding execute_plan validate_hooks fire_hook run_steps run_round before_step run_step
    fire_outcome halts execute_step start_step dispatch execute_notification set_index notify
    add_log_entry add_step_result push_completed ◌>>=◌
telling-execute_plan = refl

execute_plan-Follows_example : Follows telling.steps told
execute_plan-Follows_example =
    execute_plan-Follows env (config execute) tt telling 1 initial true told telling-validate_hooks
      telling-execute_plan

recovery-high :
    ¬ All
      (λ (a : SystemActionStep). index_of a.risk_level ≤ index_of elevated)
      (collect_system_actions recovery.steps)
unfolding collect_system_actions walk_steps visits system_actions_of index_of
recovery-high h = omega (arith, h.0)

execute_approval-AsksOnce_example :
    AsksOnce env approve initial (execute_approval env (config execute) approve recovery initial)
execute_approval-AsksOnce_example =
    execute_approval-AsksOnce env (config execute) approve recovery initial recovery-high

execute_plan-diagnosis_rejected_example :
    ((execute_plan refusing (config execute) tt inspecting 1 initial).0
      ≡ threw "connection refused")
    × ((execute_plan refusing (config execute) tt inspecting 1 initial).1.recorder.step_results
        ≡ [])
execute_plan-diagnosis_rejected_example =
    execute_plan-diagnosis_rejected refusing (config execute) tt inspecting 0 inspect
      (system_action promote ∷ []) "connection refused" initial refl refl refl

-- A terminal that is closed
abbrev closed : Env ℕ (Unit {0})
closed = record env { question = λ w. (rejected "readline was closed", w) }

recovery-asked : auto_approves (config execute) recovery ≡ false
unfolding auto_approves should_auto_approve derive_plan_max_risk_level level_at get_max_risk_index
    max_from max_step
recovery-asked = refl

dispatch-HasResult_example : HasResult closed approve initial (
    dispatch closed
      (config execute)
      (execute_step closed (config execute) 1 tt)
      (human_approval approve)
      recovery
      tt
      initial)
dispatch-HasResult_example =
    dispatch-HasResult closed (config execute) (execute_step closed (config execute) 1 tt) approve
      recovery tt initial recovery-asked

execute_conditional-approval_passes_example :
    ((execute_conditional env (config execute) if_healthy (human_approval approve) skip initial).0
      ≡ ok (make_step_result (conditional if_healthy (human_approval approve) skip) success))
    × (questions
          (execute_conditional env
            (config execute)
            if_healthy
            (human_approval approve)
            skip
            initial).1.trace
        ≡ 0)
unfolding is_declarative_no_op_check has_text
execute_conditional-approval_passes_example =
    execute_conditional-approval_passes env (config execute) if_healthy approve skip initial refl
      refl

abbrev snapshot : CheckpointStep
snapshot = record {
  step_id = "snapshot";
  name = "Record the lag";
  description = none;
  state_captures = lag ∷ [];
}

execute_checkpoint-succeeds_example :
    (r : StepResult) × (((execute_checkpoint env (config execute) snapshot initial).0 ≡ ok r)
      × (r.status ≡ success))
execute_checkpoint-succeeds_example =
    execute_checkpoint-succeeds env (config execute) snapshot initial

check_fast_replan_conditions-StaysWithin_iff_example :
    (check_fast_replan_conditions recovery inspecting ≡ true) ↔ StaysWithin recovery inspecting
check_fast_replan_conditions-StaysWithin_iff_example =
    check_fast_replan_conditions-StaysWithin_iff recovery inspecting
