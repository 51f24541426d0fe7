-- ===== src/Engine/Allowed.antt =====
-- Which commands the execution of one step can send outside the mode `execute`.
use crisismode.Base.{
  ℕ, zero, suc, String, Bool, true, false, ◌≡◌, refl, Option, List, [], ◌∷◌, ◌++◌, All, All-append,
  or_else,
}
use crisismode.Types.{
  Command, RecoveryStep, ElseStep, SystemActionStep, DiagnosisActionStep, HumanApprovalStep,
  system_action, diagnosis_action, human_notification, human_approval, checkpoint,
  replanning_checkpoint, conditional, skip, otherwise, RecoveryPlan, AgentContext, ExecutionState,
  StepResult, HumanNotificationStep, CheckpointStep, ConditionalHead, ReplanningCheckpointStep,
  failed, StepStatus,
}
use crisismode.Engine.Effects.{Exec, Reply, resolved, rejected, ◌>>=◌}
use crisismode.Engine.State.{
  Env, Config, Callback, Event, ReplanResult, keep_plan, revised_plan, abort, EngineState, settle,
  call, add_step_result, add_plan, increment_replan_count, push_completed, set_index,
}
use crisismode.Engine.Action.{is_execute, execute_system_action}
use crisismode.Engine.Steps.{
  execute_diagnosis_action, execute_notification, execute_checkpoint, request_approval, decide,
  execute_approval, execute_branch_step, run_branch, choose_branch, execute_conditional,
  run_revised, run_revised_step, after_revised, apply_replan, ask_agent, execute_replanning,
  dispatch, start_step, execute_step,
}
use crisismode.Engine.Logic.{
  Keeps, Keeps-pure, Keeps-gets, Keeps-bind-Meets, Meets, returning, Holds, Keeps-diverge,
  Keeps-bind, Keeps-try, keeps_rules,
}
use crisismode.Engine.Trace.{
  commands, commands-append, Quiet, Traced, log-Traced, notify-Traced, fire_hook-Traced,
  take_captures-Traced, evaluate-Traced, call-Traced, execute_system_action-Traced,
}

module _ (Allowed : Command → Type 0) where
  -- Every command of the trace is allowed.
  abbrev pub OnlyAllowed : List Event → Type 0
  OnlyAllowed es = All Allowed (commands es)

  -- The command of a diagnosis action is allowed. A branch of a conditional is left out: the
  -- engine does not run diagnosis actions there.
  abbrev pub StepAllowed : RecoveryStep → Type 0
  StepAllowed (diagnosis_action s) = Allowed s.command
  StepAllowed _ = Unit

  pub OnlyAllowed-snoc :
      (e : Event) (es : List Event)
      → All Allowed (commands (e ∷ []))
      → OnlyAllowed es
      → OnlyAllowed (es ++ e ∷ [])
  OnlyAllowed-snoc e es h k =
      rw commands-append (All-append Allowed (commands es) (commands (e ∷ [])) k h)

  pub quiet : Quiet OnlyAllowed
  quiet = record {
    callbacks = λ c es h. OnlyAllowed-snoc (Event.callback c) es tt h;
    hooks = λ p es h. OnlyAllowed-snoc (Event.hook p) es tt h;
    checks = λ c es h. OnlyAllowed-snoc (Event.check c) es tt h;
    transitions = λ t es h. OnlyAllowed-snoc (Event.transition t) es tt h;
  }

module _ {W D : Type 0} (Allowed : Command → Type 0) (env : Env W D) (cfg : Config W)
    (dry : is_execute cfg.mode ≡ false)
    (replans : (c : AgentContext) (d : D) (st : ExecutionState) (w : W) (p : RecoveryPlan)
      → (env.replan c d st w).0 ≡ resolved (revised_plan p)
      → All (StepAllowed Allowed) p.steps) where
  abbrev K : {A : Type 0} → Exec (EngineState W) A → Type 0
  K m = Keeps (Traced (OnlyAllowed Allowed)) m

  abbrev q : Quiet (OnlyAllowed Allowed)
  q = quiet Allowed

  action-K : (s : SystemActionStep) → K (execute_system_action env cfg s)
  action-K s = execute_system_action-Traced env cfg q s (λ caps e. cc)

  diagnosis-K :
      (s : DiagnosisActionStep) → Allowed s.command → K (execute_diagnosis_action env cfg s)
  unfolding execute_diagnosis_action
  diagnosis-K s h =
      Keeps-bind _ _
        (call-Traced q (Event.command s.command) (env.execute_command s.command)
          (λ es k. OnlyAllowed-snoc Allowed (Event.command s.command) es (h, tt) k))
        λ output. search (keeps_rules, log-Traced q)

  notification-K : (s : HumanNotificationStep) → K (execute_notification env cfg s)
  unfolding execute_notification
  notification-K s = search (keeps_rules, log-Traced q, notify-Traced q)

  checkpoint-K : (s : CheckpointStep) → K (execute_checkpoint env cfg s)
  unfolding execute_checkpoint
  checkpoint-K s = search (keeps_rules, take_captures-Traced env cfg q)

  request-K : K (request_approval env cfg)
  unfolding request_approval
  request-K =
      Keeps-bind _ _
        (call-Traced q Event.question env.question
          (λ es k. OnlyAllowed-snoc Allowed Event.question es tt k))
        λ answer. Keeps-pure _

  approval-K : (s : HumanApprovalStep) (p : RecoveryPlan) → K (execute_approval env cfg s p)
  unfolding execute_approval decide
  approval-K s p =
      search (keeps_rules, log-Traced q, notify-Traced q, fire_hook-Traced q, request-K) depth 8

  branch-K : (s : RecoveryStep) → K (execute_branch_step env cfg s)
  unfolding execute_branch_step
  branch-K (system_action s) = action-K s
  branch-K (human_notification s) = notification-K s
  branch-K _ = Keeps-pure _

  pub recorded-K : (r : StepResult) → K (add_step_result r)
  unfolding add_step_result
  recorded-K r = record { at = λ s h. h }

  pub completed-K : (r : StepResult) → K (push_completed r)
  unfolding push_completed
  completed-K r = record { at = λ s h. h }

  run_branch-K : (s : RecoveryStep) → K (run_branch env cfg s)
  unfolding run_branch
  run_branch-K s = search (keeps_rules, notify-Traced q, branch-K)

  choose_branch-K :
      (c : ConditionalHead) (t : RecoveryStep) (e : ElseStep) (b : Bool)
      → K (choose_branch env cfg c t e b)
  unfolding choose_branch
  choose_branch-K c t e true = run_branch-K t
  choose_branch-K c t skip false = Keeps-pure _
  choose_branch-K c t (otherwise e) false = run_branch-K e

  conditional-K :
      (c : ConditionalHead) (t : RecoveryStep) (e : ElseStep)
      → K (execute_conditional env cfg c t e)
  unfolding execute_conditional
  conditional-K c t e =
      search
        (
          keeps_rules,
          evaluate-Traced env cfg q,
          notify-Traced q,
          log-Traced q,
          choose_branch-K,
          recorded-K,
        )
        depth 8

  after_revised-K :
      (s : RecoveryStep) (rest : Exec (EngineState W) (Option String)) (o : Option String)
      (st : StepStatus)
      → K rest
      → K (after_revised env cfg s rest o st)
  unfolding after_revised
  after_revised-K s rest o failed h = Keeps-pure _
  after_revised-K s rest o _ h = h

  run_revised_step-K :
      (run : Exec (EngineState W) StepResult) (s : RecoveryStep)
      (rest : Exec (EngineState W) (Option String))
      → K run
      → K rest
      → K (run_revised_step env cfg run s rest)
  unfolding run_revised_step
  run_revised_step-K run s rest h k =
      search (keeps_rules, notify-Traced q, recorded-K, completed-K, after_revised-K) depth 8

  -- A way to run the steps of a plan that sends allowed commands for steps that are allowed
  abbrev Runs : (RecoveryStep → RecoveryPlan → Exec (EngineState W) StepResult) → Type 0
  Runs run = (s : RecoveryStep) (p : RecoveryPlan) → StepAllowed Allowed s → K (run s p)

  run_revised-K :
      (run : RecoveryStep → Exec (EngineState W) StepResult) (ss : List RecoveryStep)
      → ((s : RecoveryStep) → StepAllowed Allowed s → K (run s))
      → All (StepAllowed Allowed) ss
      → K (run_revised env cfg run ss)
  unfolding run_revised
  run_revised-K run [] h a = Keeps-pure _
  run_revised-K run (s ∷ ss) h a =
      run_revised_step-K (run s) s (run_revised env cfg run ss) (h s a.0)
        (run_revised-K run ss h a.1)

  abbrev AnswerAllowed : ReplanResult → Type 0
  AnswerAllowed (revised_plan p) = All (StepAllowed Allowed) p.steps
  AnswerAllowed _ = Unit

  plan-K : (p : RecoveryPlan) → K (add_plan p)
  unfolding add_plan
  plan-K p = record { at = λ s h. h }

  count-K : K increment_replan_count
  unfolding increment_replan_count
  count-K = record { at = λ s h. h }

  apply_replan-K :
      (run : RecoveryStep → RecoveryPlan → Exec (EngineState W) StepResult)
      (s : ReplanningCheckpointStep) (p : RecoveryPlan) (a : ReplanResult)
      → Runs run
      → AnswerAllowed a
      → K (apply_replan env cfg run s p a)
  unfolding apply_replan
  apply_replan-K run s p keep_plan h a = search (keeps_rules, notify-Traced q)
  apply_replan-K run s p (abort r) h a = search (keeps_rules, notify-Traced q)
  apply_replan-K run s p (revised_plan r) h a = Keeps-bind _ _ count-K λ _.
      Keeps-bind _ _ (plan-K r) λ _. Keeps-bind _ _ (notify-Traced q _) λ _.
        Keeps-bind _ _ (run_revised-K (λ t. run t r) r.steps (λ t k. h t r k) a) λ o. Keeps-pure _

  ask-K : (d : D) → K (ask_agent env cfg d)
  unfolding ask_agent
  ask-K d = Keeps-bind _ _ (Keeps-gets (λ s. s.execution_state)) λ st.
      call-Traced q Event.replan (env.replan cfg.context d st)
        (λ es k. OnlyAllowed-snoc Allowed Event.replan es tt k)

  ask-Meets : (d : D) → Meets (returning AnswerAllowed) (ask_agent env cfg d)
  unfolding ask_agent call ◌>>=◌
  ask-Meets d = record {
    at = λ s.
        answer s.execution_state s.world (env.replan cfg.context d s.execution_state s.world).0 refl
          _;
  }
    where
      answer :
          (st : ExecutionState) (w : W) (r : Reply ReplanResult)
          → (env.replan cfg.context d st w).0 ≡ r
          → (s : EngineState W) → Holds (returning AnswerAllowed) (settle r s).0
      answer st w (resolved keep_plan) e s = tt
      answer st w (resolved (abort x)) e s = tt
      answer st w (resolved (revised_plan p)) e s = replans cfg.context d st w p e
      answer st w (rejected x) e s = tt

  replanning-K :
      (run : RecoveryStep → RecoveryPlan → Exec (EngineState W) StepResult)
      (s : ReplanningCheckpointStep) (p : RecoveryPlan) (d : D)
      → Runs run
      → K (execute_replanning env cfg run s p d)
  unfolding execute_replanning
  replanning-K run s p d h =
      let captures = take_captures-Traced env cfg q (or_else s.diagnostic_captures []) in
      Keeps-bind _ _ (notify-Traced q (Callback.replan_start s.step_id)) λ _.
        Keeps-bind _ _ captures λ _.
          Keeps-bind-Meets AnswerAllowed _ _ (ask-K d) (ask-Meets d)
            λ a k. Keeps-bind _ _ (log-Traced q _ _ _) λ _. apply_replan-K run s p a h k

  dispatch-K :
      (run : RecoveryStep → RecoveryPlan → Exec (EngineState W) StepResult) (s : RecoveryStep)
      (p : RecoveryPlan) (d : D)
      → Runs run
      → StepAllowed Allowed s
      → K (dispatch env cfg run s p d)
  unfolding dispatch
  dispatch-K run (diagnosis_action s) p d h a = diagnosis-K s a
  dispatch-K run (human_notification s) p d h a = notification-K s
  dispatch-K run (checkpoint s) p d h a = checkpoint-K s
  dispatch-K run (system_action s) p d h a = action-K s
  dispatch-K run (human_approval s) p d h a = Keeps-try _ _ (approval-K s p) (λ e. Keeps-pure _)
  dispatch-K run (replanning_checkpoint s) p d h a =
      Keeps-try _ _ (replanning-K run s p d h) (λ e. Keeps-pure _)
  dispatch-K run (conditional c t e) p d h a = conditional-K c t e

  pub execute_step-K :
      (fuel : ℕ) (d : D) (s : RecoveryStep) (p : RecoveryPlan)
      → StepAllowed Allowed s
      → K (execute_step env cfg fuel d s p)
  unfolding execute_step start_step
  execute_step-K zero d s p a = Keeps-diverge
  execute_step-K (suc fuel) d s p a =
      Keeps-bind _ _ (log-Traced q _ _ _)
        λ _. dispatch-K (execute_step env cfg fuel d) s p d (execute_step-K fuel d) a

  pub index-K : (i : ℕ) → K (set_index i)
  unfolding set_index
  index-K i = record { at = λ s h. h }
