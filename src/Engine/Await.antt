-- ===== src/Engine/Await.antt =====
-- Which failures of the outside a step contains. `executeStep` returns the promises of diagnosis
-- actions, system actions and conditionals without awaiting them, so its `catch` does not see
-- them; and a branch of a conditional is run only if it is an action or a notification.
use crisismode.Base.{ℕ, suc, String, true, false, ◌≡◌, ◌+◌, ◌∙◌, ap, refl, none, List, ◌∷◌, arith}
use crisismode.Types.{
  RecoveryStep, ElseStep, DiagnosisActionStep, HumanApprovalStep, diagnosis_action, human_approval,
  conditional, ConditionalHead, RecoveryPlan, StepResult, success,
}
use crisismode.Engine.Effects.{
  Outcome, ok, threw, Exec, try_await, Reply, resolved, rejected, ◌>>=◌,
}
use crisismode.Engine.State.{
  Env, Config, EngineState, make_step_result, notify, call, settle, add_log_entry, add_step_result,
  set_index, fire_hook,
}
use crisismode.Engine.Action.{evaluate, is_declarative_no_op_check}
use crisismode.Engine.Approvals.{AsksOnce, answered, approval-AsksOnce, questions, questions-append}
use crisismode.Approval.{read_decision}
use crisismode.Engine.Steps.{
  failure, auto_approves, approval_outcome, execute_approval, execute_diagnosis_action, dispatch,
  start_step, execute_step, execute_branch_step, run_branch, choose_branch, execute_conditional,
}
use crisismode.Engine.Run.{
  before_step, run_step, run_round, run_steps, validate_hooks, execute_plan,
}

-- Without hooks, if the backend rejects the command of a diagnosis action that a plan starts with,
-- the whole run of the plan is rejected with the backend's error: no step result comes back, and
-- none is recorded.
pub execute_plan-diagnosis_rejected :
    {W D : Type 0} (env : Env W D) (cfg : Config W) (d : D) (plan : RecoveryPlan) (fuel : ℕ)
    (step : DiagnosisActionStep) (rest : List RecoveryStep) (error : String) (s : EngineState W)
    → cfg.hooks ≡ none
    → plan.steps ≡ diagnosis_action step ∷ rest
    → (env.execute_command step.command s.world).0 ≡ rejected error
    → ((execute_plan env cfg d plan (suc fuel) s).0 ≡ threw error)
      × ((execute_plan env cfg d plan (suc fuel) s).1.recorder.step_results
          ≡ s.recorder.step_results)
unfolding execute_plan validate_hooks run_steps run_round before_step run_step execute_step
    start_step dispatch execute_diagnosis_action fire_hook set_index notify add_log_entry call ◌>>=◌
execute_plan-diagnosis_rejected env cfg d plan fuel step rest error s unhooked first fails =
    ground arith

-- If the condition of a conditional holds and its `then` branch is an approval step, the
-- conditional succeeds, whatever the policies are, and the operator is asked nothing.
pub execute_conditional-approval_passes :
    {W D : Type 0} (env : Env W D) (cfg : Config W) (c : ConditionalHead) (a : HumanApprovalStep)
    (e : ElseStep) (s : EngineState W)
    → is_declarative_no_op_check c.check ≡ false
    → (env.evaluate_check c.check s.world).0 ≡ resolved true
    → ((execute_conditional env cfg c (human_approval a) e s).0
        ≡ ok (make_step_result (conditional c (human_approval a) e) success))
      × (questions (execute_conditional env cfg c (human_approval a) e s).1.trace
          ≡ questions s.trace)
unfolding execute_conditional evaluate choose_branch run_branch execute_branch_step call notify
    add_log_entry add_step_result ◌>>=◌
execute_conditional-approval_passes env cfg c a e s asserted holds =
    rw (asserted, evaluate, holds, settle) (refl, simp questions-append (omega arith))

-- What an approval step comes to where the engine awaits it: what the answer says, or a failure
-- with the error of the terminal
abbrev pub contained : HumanApprovalStep → Reply String → StepResult
contained step (resolved answer) = approval_outcome step (read_decision answer)
contained step (rejected error) = failure (human_approval step) error

-- The operator was asked once, and the step has a result whatever the terminal did.
pub record HasResult {W D : Type 0} (env : Env W D) (step : HumanApprovalStep) (s : EngineState W)
    (r : Outcome StepResult × EngineState W) : Type 0 where
  pub world : W
  pub result : r.0 ≡ ok (contained step (env.question world).0)
  pub asked : questions r.1.trace ≡ questions s.trace + 1

-- An approval step of a plan that is not approved automatically always has a result, in any world:
-- the operator is asked once, and if the terminal rejects the question the step fails with the
-- terminal's error, instead of the run being rejected.
pub dispatch-HasResult :
    {W D : Type 0} (env : Env W D) (cfg : Config W)
    (run : RecoveryStep → RecoveryPlan → Exec (EngineState W) StepResult) (step : HumanApprovalStep)
    (plan : RecoveryPlan) (d : D) (s : EngineState W)
    → auto_approves cfg plan ≡ false
    → HasResult env step s (dispatch env cfg run (human_approval step) plan d s)
unfolding dispatch try_await
dispatch-HasResult env cfg run step plan d s h = by_reply (env.question once.world).0 refl
  where
    once : AsksOnce env step s (execute_approval env cfg step plan s)
    once = approval-AsksOnce env cfg step plan s h

    by_reply :
        (x : Reply String)
        → (env.question once.world).0 ≡ x
        → HasResult env step s (dispatch env cfg run (human_approval step) plan d s)
    by_reply (resolved answer) e =
        let on = once.result ∙ ap (answered step) e in
        record { world = once.world; result = rw (on, e) refl; asked = rw on once.asked }
    by_reply (rejected error) e =
        let on = once.result ∙ ap (answered step) e in
        record { world = once.world; result = rw (on, e) refl; asked = rw on once.asked }
