-- ===== src/Engine/Approvals.antt =====
-- When the engine asks the operator, and what it makes of the answer.
use crisismode.Base.{
  ℕ, suc, ◌+◌, ◌≤◌, Bool, false, ◌≡◌, refl, ap, ◌∙◌, String, Option, none, some, List, [], ◌∷◌,
  ◌++◌, arith, All,
}
use crisismode.Types.{
  RiskLevel, routine, elevated, high, critical, HumanApprovalStep, RecoveryPlan, TrustLevel,
  StepResult, ExecutionState, SystemActionStep,
}
use crisismode.Risk.{index_of, derive_plan_max_risk_level, collect_system_actions}
use crisismode.Risk.Bounds.{derive_plan_max_risk_level-le_iff}
use crisismode.Approval.{ApprovalResult, read_decision, should_auto_approve}
use crisismode.Hooks.{HookContext, HookPoint, HookResult, HookRegistry, fire, go_on}
use crisismode.Engine.Effects.{Outcome, ok, threw, Reply, resolved, rejected, ◌>>=◌}
use crisismode.Engine.State.{
  Env, Config, Callback, Event, EngineState, notify, add_log_entry, fire_hook, fire_in, emit, call,
  settle,
}
use crisismode.Engine.Steps.{
  auto_approves, approval_context, request_approval, decide, approval_outcome, execute_approval,
}

-- How often the operator was asked
abbrev pub questions : List Event → ℕ
questions [] = 0
questions (Event.question ∷ es) = suc (questions es)
questions (Event.command _ ∷ es) = questions es
questions (Event.check _ ∷ es) = questions es
questions (Event.transition _ ∷ es) = questions es
questions (Event.replan ∷ es) = questions es
questions (Event.hook _ ∷ es) = questions es
questions (Event.callback _ ∷ es) = questions es

high_never :
    (r : RiskLevel) (t : TrustLevel) (c p : Bool)
    → 2 ≤ index_of r
    → should_auto_approve r t c p ≡ false
unfolding should_auto_approve index_of
high_never high t c p h = refl
high_never critical t c p h = refl
high_never routine t c p h = absurd (omega arith)
high_never elevated t c p h = absurd (omega arith)

above-elevated : (r : RiskLevel) → ¬ (index_of r ≤ index_of elevated) → 2 ≤ index_of r
unfolding index_of
above-elevated routine h = absurd (h (omega arith))
above-elevated elevated h = absurd (h (omega arith))
above-elevated high h = omega arith
above-elevated critical h = omega arith

pub questions-append : (es fs : List Event) → questions (es ++ fs) ≡ questions es + questions fs
questions-append [] fs = omega arith
questions-append (Event.question ∷ es) fs = omega (arith, questions-append es fs)
questions-append (Event.command _ ∷ es) fs = questions-append es fs
questions-append (Event.check _ ∷ es) fs = questions-append es fs
questions-append (Event.transition _ ∷ es) fs = questions-append es fs
questions-append (Event.replan ∷ es) fs = questions-append es fs
questions-append (Event.hook _ ∷ es) fs = questions-append es fs
questions-append (Event.callback _ ∷ es) fs = questions-append es fs

-- What an answer, or a terminal that rejects the question, comes to
abbrev pub answered : HumanApprovalStep → Reply String → Outcome StepResult
answered step (resolved answer) = ok (approval_outcome step (read_decision answer))
answered step (rejected error) = threw error

-- The operator was asked once, and the result is what the answer says.
pub record AsksOnce {W D : Type 0} (env : Env W D) (step : HumanApprovalStep) (s : EngineState W)
    (r : Outcome StepResult × EngineState W) : Type 0 where
  pub world : W
  pub result : r.0 ≡ answered step (env.question world).0
  pub asked : questions r.1.trace ≡ questions s.trace + 1

-- A hook that is fired returns, and asks the operator nothing.
pub record Fired {W : Type 0} (s : EngineState W) (r : Outcome HookResult × EngineState W)
    : Type 0 where
  pub result : HookResult
  pub returned : r.0 ≡ ok result
  pub quiet : questions r.1.trace ≡ questions s.trace

pub fire_hook-Fired :
    {W : Type 0} (cfg : Config W) (p : HookPoint) (c : ExecutionState → HookContext)
    (s : EngineState W)
    → Fired s (fire_hook cfg p c s)
unfolding fire_hook
fire_hook-Fired cfg p c s = go cfg.hooks
  where
    go : (m : Option (HookRegistry _)) → Fired s (fire_in p c m s)
    go none = record { result = go_on; returned = refl; quiet = refl }
    go (some m) = record {
      result = (fire p (c s.execution_state) m s.world).0;
      returned = refl;
      quiet = omega (arith, questions-append s.trace (Event.hook p ∷ []));
    }

module _ {W D : Type 0} (env : Env W D) (cfg : Config W) (step : HumanApprovalStep)
    (plan : RecoveryPlan) where
  -- What the decision comes to
  abbrev decided : Reply String → Outcome ApprovalResult
  decided (resolved answer) = ok (read_decision answer)
  decided (rejected error) = threw error

  decide-asks :
      (s : EngineState W)
      → auto_approves cfg plan ≡ false
      → ((decide env cfg step plan s).0 ≡ decided (env.question s.world).0)
        × (questions (decide env cfg step plan s).1.trace ≡ questions s.trace + 1)
  unfolding decide request_approval add_log_entry call ◌>>=◌
  decide-asks s h = by_reply (env.question s.world).0 refl
    where
      by_reply :
          (x : Reply String)
          → (env.question s.world).0 ≡ x
          → ((decide env cfg step plan s).0 ≡ decided x)
            × (questions (decide env cfg step plan s).1.trace ≡ questions s.trace + 1)
      by_reply (resolved answer) e =
          rw (h, decide, e, settle) (refl, questions-append s.trace (Event.question ∷ []))
      by_reply (rejected error) e =
          rw (h, decide, e, settle) (refl, questions-append s.trace (Event.question ∷ []))

  pub approval-AsksOnce :
      (s : EngineState W)
      → auto_approves cfg plan ≡ false
      → AsksOnce env step s (execute_approval env cfg step plan s)
  unfolding execute_approval notify ◌>>=◌
  approval-AsksOnce s h = by_reply (env.question s2.world).0 refl
    where
      s1 : EngineState W
      s1 = emit (Event.callback (Callback.approval_request step.step_id)) s

      fired :
          Fired s1
            (fire_hook cfg HookPoint.approval_request (λ _. approval_context env cfg step plan) s1)
      fired =
          fire_hook-Fired cfg HookPoint.approval_request (λ _. approval_context env cfg step plan)
            s1

      s2 : EngineState W
      s2 = (fire_hook cfg HookPoint.approval_request (λ _. approval_context env cfg step plan) s1).1

      begun : questions s1.trace ≡ questions s.trace
      begun = omega (
        arith,
        questions-append s.trace (Event.callback (Callback.approval_request step.step_id) ∷ []),
      )

      by_reply :
          (x : Reply String)
          → (env.question s2.world).0 ≡ x
          → AsksOnce env step s (execute_approval env cfg step plan s)
      by_reply (resolved answer) e =
          let (told, asked) = decide-asks s2 h in
          let on = told ∙ ap decided e in
          record {
            world = s2.world;
            result = rw (fired.returned, ◌>>=◌, on, ◌>>=◌, e);
            asked =
                rw (fired.returned, ◌>>=◌, on, ◌>>=◌, questions-append)
                  (omega (arith, asked, fired.quiet, begun));
          }
      by_reply (rejected error) e =
          let (told, asked) = decide-asks s2 h in
          let on = told ∙ ap decided e in
          record {
            world = s2.world;
            result = rw (fired.returned, ◌>>=◌, on, ◌>>=◌, e);
            asked =
                rw (fired.returned, ◌>>=◌, on, ◌>>=◌) (omega (arith, asked, fired.quiet, begun));
          }

-- An approval step of a plan with a system action of high or critical risk, in a conditional or
-- not, is never satisfied without the operator, whatever the trust level, the catalog and the
-- policies are: the operator is asked once, and the step succeeds, is skipped or fails as the
-- answer says; if the terminal rejects the question, the step is rejected.
pub execute_approval-AsksOnce :
    {W D : Type 0} (env : Env W D) (cfg : Config W) (step : HumanApprovalStep) (plan : RecoveryPlan)
    (s : EngineState W)
    → ¬ All
        (λ (a : SystemActionStep). index_of a.risk_level ≤ index_of elevated)
        (collect_system_actions plan.steps)
    → AsksOnce env step s (execute_approval env cfg step plan s)
unfolding auto_approves
execute_approval-AsksOnce env cfg step plan s h = approval-AsksOnce env cfg step plan s (
    high_never (derive_plan_max_risk_level plan) _ _ _ (
      above-elevated (derive_plan_max_risk_level plan)
        (λ le. h ((derive_plan_max_risk_level-le_iff plan elevated).0 le))))
