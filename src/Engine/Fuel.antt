-- ===== src/Engine/Fuel.antt =====
-- How much fuel a run needs: the fuel bounds how deep revised plans are nested in one another.
use crisismode.Base.{
  ℕ, suc, String, Bool, true, false, ◌≡◌, refl, Option, none, List, [], ◌∷◌, All, or_else,
}
use crisismode.Types.{
  RecoveryStep, ElseStep, ReplanningCheckpointStep, ConditionalHead, system_action,
  diagnosis_action, human_notification, human_approval, checkpoint, replanning_checkpoint,
  conditional, skip, otherwise, RecoveryPlan, StepResult, StepStatus, failed, AgentContext,
  ExecutionState,
}
use crisismode.Engine.Effects.{Exec, Reply, resolved, rejected, ◌>>=◌}
use crisismode.Engine.State.{
  Env, Config, ReplanResult, keep_plan, revised_plan, abort, EngineState, settle, call,
}
use crisismode.Engine.Steps.{
  execute_diagnosis_action, execute_notification, execute_checkpoint, request_approval, decide,
  execute_approval, execute_branch_step, run_branch, choose_branch, execute_conditional,
  after_revised, run_revised_step, run_revised, apply_replan, ask_agent, execute_replanning,
  dispatch, start_step, execute_step,
}
use crisismode.Engine.Logic.{Meets, Meets-bind, Holds}
use crisismode.Engine.Finishing.{
  finishing, F, F-pure, F-try, F-bind, state_rules, log-F, notify-F, plan-F, count-F,
  take_captures-F, evaluate-F, action-F,
}

-- A step that asks the agent for a new plan; in a branch of a conditional it is not run.
abbrev pub NoReplan : RecoveryStep → Type 0
NoReplan (replanning_checkpoint s) = ⊥
NoReplan _ = Unit

abbrev AnswerFlat : ReplanResult → Type 0
AnswerFlat (revised_plan p) = All NoReplan p.steps
AnswerFlat _ = Unit

module _ {W D : Type 0} (env : Env W D) (cfg : Config W) where
  request-F : F (request_approval env cfg)
  unfolding request_approval
  request-F = search state_rules

  branch-F : (s : RecoveryStep) → F (execute_branch_step env cfg s)
  unfolding execute_branch_step execute_notification
  branch-F (system_action s) = action-F env cfg s
  branch-F (human_notification s) = search state_rules
  branch-F _ = F-pure _

  run_branch-F : (s : RecoveryStep) → F (run_branch env cfg s)
  unfolding run_branch
  run_branch-F s = search (state_rules, branch-F)

  choose-F :
      (c : ConditionalHead) (t : RecoveryStep) (e : ElseStep) (b : Bool)
      → F (choose_branch env cfg c t e b)
  unfolding choose_branch
  choose-F c t e true = run_branch-F t
  choose-F c t skip false = F-pure _
  choose-F c t (otherwise e) false = run_branch-F e

  -- No step but a replanning checkpoint needs fuel.
  dispatch_flat-F :
      (run : RecoveryStep → RecoveryPlan → Exec (EngineState W) StepResult) (s : RecoveryStep)
      (p : RecoveryPlan) (d : D)
      → NoReplan s
      → F (dispatch env cfg run s p d)
  unfolding dispatch execute_diagnosis_action execute_notification execute_checkpoint
      execute_approval decide execute_conditional
  dispatch_flat-F run (diagnosis_action s) p d h = search state_rules depth 8
  dispatch_flat-F run (human_notification s) p d h = search state_rules depth 8
  dispatch_flat-F run (checkpoint s) p d h = search (state_rules, take_captures-F env cfg) depth 8
  dispatch_flat-F run (system_action s) p d h = action-F env cfg s
  dispatch_flat-F run (human_approval s) p d h = search (state_rules, request-F) depth 12
  dispatch_flat-F run (replanning_checkpoint s) p d h = absurd h
  dispatch_flat-F run (conditional c t e) p d h =
      search (state_rules, evaluate-F env cfg, choose-F) depth 10

  after_revised-F :
      (s : RecoveryStep) (rest : Exec (EngineState W) (Option String)) (o : Option String)
      (st : StepStatus)
      → F rest
      → F (after_revised env cfg s rest o st)
  unfolding after_revised
  after_revised-F s rest o failed h = F-pure _
  after_revised-F s rest o _ h = h

  revised_step-F :
      (run : Exec (EngineState W) StepResult) (s : RecoveryStep)
      (rest : Exec (EngineState W) (Option String))
      → F run
      → F rest
      → F (run_revised_step env cfg run s rest)
  unfolding run_revised_step
  revised_step-F run s rest h k = search (state_rules, after_revised-F) depth 8

  run_revised-F :
      (run : RecoveryStep → Exec (EngineState W) StepResult) (ss : List RecoveryStep)
      → ((s : RecoveryStep) → NoReplan s → F (run s))
      → All NoReplan ss
      → F (run_revised env cfg run ss)
  unfolding run_revised
  run_revised-F run [] h a = F-pure none
  run_revised-F run (s ∷ ss) h a =
      revised_step-F (run s) s (run_revised env cfg run ss) (h s a.0) (run_revised-F run ss h a.1)

  apply-F :
      (run : RecoveryStep → RecoveryPlan → Exec (EngineState W) StepResult)
      (s : ReplanningCheckpointStep) (p : RecoveryPlan) (a : ReplanResult)
      → ((t : RecoveryStep) (q : RecoveryPlan) → NoReplan t → F (run t q))
      → AnswerFlat a
      → F (apply_replan env cfg run s p a)
  unfolding apply_replan
  apply-F run s p keep_plan h a = search state_rules
  apply-F run s p (abort r) h a = search state_rules
  apply-F run s p (revised_plan r) h a = F-bind _ _ count-F λ _. F-bind _ _ (plan-F r) λ _.
      F-bind _ _ (notify-F _)
        λ _. F-bind _ _ (run_revised-F (λ t. run t r) r.steps (λ t k. h t r k) a) λ o. F-pure _

  -- The agent answers with plans that do not replan.
  module _
      (flat : (c : AgentContext) (d : D) (st : ExecutionState) (w : W) (p : RecoveryPlan)
        → (env.replan c d st w).0 ≡ resolved (revised_plan p)
        → All NoReplan p.steps) where
    ask-Flat : (d : D) → Meets (finishing AnswerFlat) (ask_agent env cfg d)
    unfolding ask_agent call ◌>>=◌
    ask-Flat d = record {
      at = λ s.
          answer s.execution_state s.world (env.replan cfg.context d s.execution_state s.world).0
            refl _;
    }
      where
        answer :
            (st : ExecutionState) (w : W) (r : Reply ReplanResult)
            → (env.replan cfg.context d st w).0 ≡ r
            → (s : EngineState W) → Holds (finishing AnswerFlat) (settle r s).0
        answer st w (resolved keep_plan) e s = tt
        answer st w (resolved (abort x)) e s = tt
        answer st w (resolved (revised_plan p)) e s = flat cfg.context d st w p e
        answer st w (rejected x) e s = tt

    replanning-F :
        (run : RecoveryStep → RecoveryPlan → Exec (EngineState W) StepResult)
        (s : ReplanningCheckpointStep) (p : RecoveryPlan) (d : D)
        → ((t : RecoveryStep) (q : RecoveryPlan) → NoReplan t → F (run t q))
        → F (execute_replanning env cfg run s p d)
    unfolding execute_replanning
    replanning-F run s p d h = F-bind _ _ (notify-F _) λ _.
        F-bind _ _ (take_captures-F env cfg (or_else s.diagnostic_captures [])) λ _.
          Meets-bind _ AnswerFlat _ _ (ask-Flat d)
            λ a k. F-bind _ _ (log-F _ _ _) λ _. apply-F run s p a h k

    pub execute_step-F :
        (fuel : ℕ) (d : D) (s : RecoveryStep) (p : RecoveryPlan)
        → F (execute_step env cfg (suc (suc fuel)) d s p)
    unfolding execute_step start_step
    execute_step-F fuel d s p = F-bind _ _ (log-F _ _ _) λ _. started s
      where
        flat_step :
            (t : RecoveryStep) (q : RecoveryPlan)
            → NoReplan t
            → F (execute_step env cfg (suc fuel) d t q)
        flat_step t q h =
            F-bind _ _ (log-F _ _ _) λ _. dispatch_flat-F (execute_step env cfg fuel d) t q d h

        started :
            (s : RecoveryStep) → F (dispatch env cfg (execute_step env cfg (suc fuel) d) s p d)
        started (replanning_checkpoint c) =
            unfold dispatch in
            F-try _ _ (replanning-F (execute_step env cfg (suc fuel) d) c p d flat_step)
              (λ e. F-pure _)
        started s = dispatch_flat-F (execute_step env cfg (suc fuel) d) s p d tt
