-- ===== src/Engine/Termination.antt =====
-- A run of a plan ends in a result or a rejection.
use crisismode.Base.{ℕ, suc, String, ◌≡◌, List, [], ◌∷◌, All, refl, inl, inr, ◌⊎◌}
use crisismode.Types.{RecoveryStep, RecoveryPlan, StepResult, AgentContext, ExecutionState}
use crisismode.Engine.Effects.{Outcome, ok, threw, exhausted, Exec, resolved}
use crisismode.Engine.State.{Env, Config, EngineState, revised_plan}
use crisismode.Engine.Run.{
  fire_outcome, log_halt, before_step, run_step, run_round, run_steps, validate_hooks, execute_plan,
}
use crisismode.Engine.Logic.{Holds}
use crisismode.Engine.Finishing.{finishing, F, F-pure, F-bind, state_rules}
use crisismode.Engine.Fuel.{NoReplan, execute_step-F}

module _ {W D : Type 0} (env : Env W D) (cfg : Config W) (d : D) (p : RecoveryPlan)
    (flat : (c : AgentContext) (d : D) (st : ExecutionState) (w : W) (p : RecoveryPlan)
      → (env.replan c d st w).0 ≡ resolved (revised_plan p)
      → All NoReplan p.steps)
    (fuel : ℕ) where
  run_step-F : (s : RecoveryStep) → F (run_step env cfg d p (suc (suc fuel)) s)
  unfolding run_step fire_outcome
  run_step-F s = F-bind _ _ (execute_step-F env cfg flat fuel d s p) λ r. search state_rules depth 8

  before-F : (i : ℕ) (s : RecoveryStep) → F (before_step env cfg d p i s)
  unfolding before_step
  before-F i s = search state_rules depth 8

  halt-F : (s : RecoveryStep) (r : StepResult) → F (log_halt env cfg d p s r)
  unfolding log_halt
  halt-F s r = search state_rules

  round-F :
      (i : ℕ) (s : RecoveryStep) (rest : Exec (EngineState W) (List StepResult))
      → F rest
      → F (run_round env cfg d p (suc (suc fuel)) i s rest)
  unfolding run_round
  round-F i s rest h = search (state_rules, before-F, halt-F, run_step-F) depth 10

  steps-F : (i : ℕ) (ss : List RecoveryStep) → F (run_steps env cfg d p (suc (suc fuel)) i ss)
  unfolding run_steps
  steps-F i [] = F-pure []
  steps-F i (s ∷ ss) =
      round-F i s (run_steps env cfg d p (suc (suc fuel)) (suc i) ss) (steps-F (suc i) ss)

  validate-F : F (validate_hooks env cfg d p)
  unfolding validate_hooks
  validate-F = search state_rules depth 8

  plan_run-F : F (execute_plan env cfg d p (suc (suc fuel)))
  unfolding execute_plan
  plan_run-F = search (state_rules, validate-F, steps-F) depth 8

not-exhausted :
    {A : Type 0} (r : Outcome A)
    → Holds (finishing (λ (a : A). Unit)) r
    → ((a : A) × (r ≡ ok a)) ⊎ ((e : String) × (r ≡ threw e))
not-exhausted (ok a) h = inl (a, refl)
not-exhausted (threw e) h = inr (e, refl)
not-exhausted exhausted h = absurd h

-- If the agent's revised plans have no replanning checkpoints of their own, then with fuel two or
-- more a run of any plan, whatever the outside and the hooks do, either returns the list of step
-- results or is rejected: it never runs out of fuel.
pub execute_plan-settles :
    {W D : Type 0} (env : Env W D) (cfg : Config W) (d : D) (p : RecoveryPlan) (fuel : ℕ)
    (s : EngineState W)
    → ((c : AgentContext) (e : D) (st : ExecutionState) (w : W) (r : RecoveryPlan)
        → (env.replan c e st w).0 ≡ resolved (revised_plan r)
        → All NoReplan r.steps)
    → ((results : List StepResult) × ((execute_plan env cfg d p (suc (suc fuel)) s).0 ≡ ok results))
      ⊎ ((error : String) × ((execute_plan env cfg d p (suc (suc fuel)) s).0 ≡ threw error))
execute_plan-settles env cfg d p fuel s flat =
    not-exhausted _ ((plan_run-F env cfg d p flat fuel).at s)
