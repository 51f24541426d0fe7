-- ===== src/Engine/DryRun.antt =====
-- Which commands a run can send outside the mode `execute`.
use crisismode.Base.{ℕ, suc, false, ◌≡◌, List, [], ◌∷◌, All}
use crisismode.Types.{Command, RecoveryStep, RecoveryPlan, AgentContext, ExecutionState, StepResult}
use crisismode.Engine.Effects.{Exec, resolved}
use crisismode.Engine.State.{Env, Config, revised_plan, EngineState}
use crisismode.Engine.Action.{is_execute}
use crisismode.Engine.Run.{
  fire_outcome, log_halt, run_step, run_round, before_step, run_steps, validate_hooks, execute_plan,
}
use crisismode.Engine.Logic.{Keeps, Keeps-pure, Keeps-bind, keeps_rules}
use crisismode.Engine.Trace.{Quiet, Traced, log-Traced, notify-Traced, fire_hook-Traced}
use crisismode.Engine.Allowed.{
  OnlyAllowed, StepAllowed, quiet, execute_step-K, recorded-K, completed-K, index-K,
}

module _ {W D : Type 0} (Allowed : Command → Type 0) (env : Env W D) (cfg : Config W)
    (dry : is_execute cfg.mode ≡ false)
    (replans : (c : AgentContext) (d : D) (st : ExecutionState) (w : W) (p : RecoveryPlan)
      → (env.replan c d st w).0 ≡ resolved (revised_plan p)
      → All (StepAllowed Allowed) p.steps)
    (d : D) (p : RecoveryPlan) where
  abbrev Kept : {A : Type 0} → Exec (EngineState W) A → Type 0
  Kept m = Keeps (Traced (OnlyAllowed Allowed)) m

  abbrev quiet_trace : Quiet (OnlyAllowed Allowed)
  quiet_trace = quiet Allowed

  run_step-K :
      (fuel : ℕ) (s : RecoveryStep) → StepAllowed Allowed s → Kept (run_step env cfg d p fuel s)
  unfolding run_step fire_outcome
  run_step-K fuel s a =
      Keeps-bind _ _ (execute_step-K Allowed env cfg dry replans fuel d s p a) λ r.
        search
          (
            keeps_rules,
            notify-Traced quiet_trace,
            fire_hook-Traced quiet_trace,
            recorded-K Allowed env cfg dry replans,
            completed-K Allowed env cfg dry replans,
          )
          depth 8

  before_step-K : (i : ℕ) (s : RecoveryStep) → Kept (before_step env cfg d p i s)
  unfolding before_step
  before_step-K i s = search (
    keeps_rules,
    notify-Traced quiet_trace,
    fire_hook-Traced quiet_trace,
    index-K Allowed env cfg dry replans,
  )

  log_halt-K : (s : RecoveryStep) (r : StepResult) → Kept (log_halt env cfg d p s r)
  unfolding log_halt
  log_halt-K s r = search (keeps_rules, log-Traced quiet_trace)

  run_round-K :
      (fuel i : ℕ) (s : RecoveryStep) (rest : Exec (EngineState W) (List StepResult))
      → StepAllowed Allowed s
      → Kept rest
      → Kept (run_round env cfg d p fuel i s rest)
  unfolding run_round
  run_round-K fuel i s rest a h =
      search (keeps_rules, before_step-K, log_halt-K, run_step-K) depth 10

  run_steps-K :
      (fuel i : ℕ) (ss : List RecoveryStep)
      → All (StepAllowed Allowed) ss
      → Kept (run_steps env cfg d p fuel i ss)
  unfolding run_steps
  run_steps-K fuel i [] a = Keeps-pure _
  run_steps-K fuel i (s ∷ ss) a =
      run_round-K fuel i s (run_steps env cfg d p fuel (suc i) ss) a.0
        (run_steps-K fuel (suc i) ss a.1)

  validate-K : Kept (validate_hooks env cfg d p)
  unfolding validate_hooks
  validate-K = search (keeps_rules, fire_hook-Traced quiet_trace)

  plan_run-K : (fuel : ℕ) → All (StepAllowed Allowed) p.steps → Kept (execute_plan env cfg d p fuel)
  unfolding execute_plan
  plan_run-K fuel a =
      search (keeps_rules, validate-K, run_steps-K, fire_hook-Traced quiet_trace) depth 8

-- In any mode but `execute`, whatever the outcome and however plans are revised, the backend is
-- sent no commands but those of diagnosis actions: if the commands of the plan's diagnosis
-- actions, of those in every plan that the agent may answer with, and of the trace so far lie in a
-- set, then so do all commands of the trace after the run. No command of a system action is sent.
pub execute_plan-OnlyAllowed :
    {W D : Type 0} (Allowed : Command → Type 0) (env : Env W D) (cfg : Config W) (d : D)
    (p : RecoveryPlan) (fuel : ℕ) (s : EngineState W)
    → is_execute cfg.mode ≡ false
    → ((c : AgentContext) (e : D) (st : ExecutionState) (w : W) (r : RecoveryPlan)
        → (env.replan c e st w).0 ≡ resolved (revised_plan r)
        → All (StepAllowed Allowed) r.steps)
    → All (StepAllowed Allowed) p.steps
    → OnlyAllowed Allowed s.trace
    → OnlyAllowed Allowed (execute_plan env cfg d p fuel s).1.trace
execute_plan-OnlyAllowed Allowed env cfg d p fuel s dry replans a h =
    (plan_run-K Allowed env cfg dry replans d p fuel a).at s h
