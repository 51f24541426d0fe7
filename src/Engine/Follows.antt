-- ===== src/Engine/Follows.antt =====
-- The results that a run returns, compared with the plan.
use crisismode.Base.{
  ℕ, zero, suc, String, Bool, true, false, ◌≡◌, arith, refl, sym, Option, none, some, List, [], ◌∷◌,
  if◌then◌else◌, or_else, template, subst,
}
use crisismode.Types.{
  Value, RecoveryStep, SystemActionStep, HumanApprovalStep, ReplanningCheckpointStep, system_action,
  diagnosis_action, human_notification, human_approval, checkpoint, replanning_checkpoint,
  conditional, RecoveryPlan, StepStatus, success, failed, skipped, rolled_back, StepResult,
  CapabilityProviderResolution,
}
use crisismode.Approval
use crisismode.Approval.{ApprovalResult}
use crisismode.Engine.Effects.{
  Outcome, ok, threw, exhausted, Exec, Reply, resolved, rejected, continue, ◌>>=◌,
}
use crisismode.Engine.State.{Env, Config, ReplanResult, keep_plan, revised_plan, abort, EngineState}
use crisismode.Engine.Action.{
  fail, fail_resolved, finish_action, after_command, send_command, command_phase,
  after_preconditions, precondition_phase, capture_phase, provider_phase, execute_system_action,
}
use crisismode.Engine.Steps.{
  failure, approval_outcome, revised_outcome, execute_diagnosis_action, execute_notification,
  execute_checkpoint, execute_approval, execute_conditional, apply_replan, execute_replanning,
  dispatch, execute_step,
}
use crisismode.Engine.Run.{
  is_failed_status, is_skipped_approval, halts, run_step, run_round, run_steps, validate_hooks,
  execute_plan,
}
use crisismode.Engine.Logic.{Meets, Meets-pure, Meets-if, Meets-bind, Meets-try, Holds, returning}

module _ {S A B : Type 0} where
  -- Nothing need be known of what runs before.
  pub Meets-then :
      (P : B → Type 0) (m : Exec S A) (f : A → Exec S B)
      → ((a : A) → Meets (returning P) (f a))
      → Meets (returning P) (m >>= f)
  Meets-then P m f h =
      Meets-bind (returning P) (λ a. Unit) m f (record { at = λ s. anything (m s).0 }) λ a _. h a
    where
      anything : (r : Outcome A) → Holds (returning (λ (a : A). Unit)) r
      anything (ok a) = tt
      anything (threw e) = tt
      anything exhausted = tt

abbrev pub OfStep : RecoveryStep → StepResult → Type 0
OfStep step r = r.step ≡ step

pub ruleset meets_rules = (Meets-then, Meets-pure, Meets-if)

module _ {W D : Type 0} (env : Env W D) (cfg : Config W) where
  abbrev R : {A : Type 0} → (A → Type 0) → Exec (EngineState W) A → Type 0
  R P m = Meets (returning P) m

  finish-Of :
      (s : SystemActionStep) (c : List CapabilityProviderResolution) (o : Value)
      → R (OfStep (system_action s)) (finish_action env cfg s c o)
  unfolding finish_action
  finish-Of s c o =
      Meets-then _ _ _
        λ p. Meets-then _ _ _ λ _. Meets-then _ _ _ λ _. Meets-then _ _ _ λ _. Meets-pure _ _ refl

  after_command-Of :
      (s : SystemActionStep) (c : List CapabilityProviderResolution) (r : Reply Value)
      → R (OfStep (system_action s)) (after_command env cfg s c r)
  unfolding after_command fail_resolved
  after_command-Of s c (resolved o) = Meets-then _ _ _ λ _. Meets-then _ _ _ λ _. finish-Of s c o
  after_command-Of s c (rejected e) = Meets-then _ _ _ λ _. Meets-pure _ _ refl

  command-Of :
      (s : SystemActionStep) (c : List CapabilityProviderResolution)
      → R (OfStep (system_action s)) (command_phase env cfg s c)
  unfolding command_phase send_command
  command-Of s c = search (meets_rules, after_command-Of s c) depth 8

  after_preconditions-Of :
      (s : SystemActionStep) (c : List CapabilityProviderResolution) (o : Option String)
      → R (OfStep (system_action s)) (after_preconditions env cfg s c o)
  unfolding after_preconditions fail_resolved
  after_preconditions-Of s c none = command-Of s c
  after_preconditions-Of s c (some d) = Meets-pure _ _ refl

  precondition-Of :
      (s : SystemActionStep) (c : List CapabilityProviderResolution)
      → R (OfStep (system_action s)) (precondition_phase env cfg s c)
  unfolding precondition_phase
  precondition-Of s c = Meets-then _ _ _ λ _. Meets-then _ _ _ (after_preconditions-Of s c)

  capture-Of :
      (s : SystemActionStep) (c : List CapabilityProviderResolution)
      → R (OfStep (system_action s)) (capture_phase env cfg s c)
  unfolding capture_phase fail_resolved
  capture-Of s c = search (meets_rules, precondition-Of) depth 8

  provider-Of : (s : SystemActionStep) → R (OfStep (system_action s)) (provider_phase env cfg s)
  unfolding provider_phase fail_resolved
  provider-Of s = search (meets_rules, capture-Of) depth 8

  action-Of :
      (s : SystemActionStep) → R (OfStep (system_action s)) (execute_system_action env cfg s)
  unfolding execute_system_action fail
  action-Of s = search (meets_rules, provider-Of) depth 8

  approval_outcome-Of :
      (s : HumanApprovalStep) (a : ApprovalResult)
      → OfStep (human_approval s) (approval_outcome s a)
  unfolding approval_outcome
  approval_outcome-Of s Approval.rejected = refl
  approval_outcome-Of s Approval.skipped = refl
  approval_outcome-Of s Approval.approved = refl

  revised_outcome-Of :
      (s : ReplanningCheckpointStep) (o : Option String)
      → OfStep (replanning_checkpoint s) (revised_outcome s o)
  unfolding revised_outcome
  revised_outcome-Of s none = refl
  revised_outcome-Of s (some e) = refl

  apply_replan-Of :
      (run : RecoveryStep → RecoveryPlan → Exec (EngineState W) StepResult)
      (s : ReplanningCheckpointStep) (p : RecoveryPlan) (a : ReplanResult)
      → R (OfStep (replanning_checkpoint s)) (apply_replan env cfg run s p a)
  unfolding apply_replan
  apply_replan-Of run s p (abort e) = Meets-then _ _ _ λ _. Meets-pure _ _ refl
  apply_replan-Of run s p keep_plan = Meets-then _ _ _ λ _. Meets-pure _ _ refl
  apply_replan-Of run s p (revised_plan r) = Meets-then _ _ _ λ _.
      Meets-then _ _ _
        λ _. Meets-then _ _ _ λ _. Meets-then _ _ _ λ o. Meets-pure _ _ (revised_outcome-Of s o)

  dispatch-Of :
      (run : RecoveryStep → RecoveryPlan → Exec (EngineState W) StepResult) (s : RecoveryStep)
      (p : RecoveryPlan) (d : D)
      → R (OfStep s) (dispatch env cfg run s p d)
  unfolding dispatch execute_diagnosis_action execute_notification execute_checkpoint
      execute_approval execute_replanning execute_conditional
  dispatch-Of run (diagnosis_action s) p d =
      Meets-then _ _ _ λ o. Meets-then _ _ _ λ _. Meets-pure _ _ refl
  dispatch-Of run (human_notification s) p d =
      Meets-then _ _ _ λ _. Meets-then _ _ _ λ _. Meets-pure _ _ refl
  dispatch-Of run (checkpoint s) p d = Meets-then _ _ _ λ r. Meets-pure _ _ refl
  dispatch-Of run (system_action s) p d = action-Of s
  dispatch-Of run (human_approval s) p d =
      Meets-try _ (λ e. Unit) _ _
        (Meets-then _ _ _ λ _.
          Meets-then _ _ _ λ _.
            Meets-then _ _ _ λ a. Meets-then _ _ _ λ _. Meets-pure _ _ (approval_outcome-Of s a))
        λ e _. Meets-pure _ _ refl
  dispatch-Of run (replanning_checkpoint s) p d =
      Meets-try _ (λ e. Unit) _ _
        (Meets-then _ _ _ λ _.
          Meets-then _ _ _
            λ _. Meets-then _ _ _ λ a. Meets-then _ _ _ λ _. apply_replan-Of run s p a)
        λ e _. Meets-pure _ _ refl
  dispatch-Of run (conditional c t e) p d = Meets-then _ _ _ λ m.
      Meets-then _ _ _
        λ _. Meets-then _ _ _ λ _. Meets-then _ _ _ λ r. Meets-then _ _ _ λ _. Meets-pure _ _ refl

  execute_step-Of :
      (fuel : ℕ) (d : D) (s : RecoveryStep) (p : RecoveryPlan)
      → R (OfStep s) (execute_step env cfg fuel d s p)
  unfolding execute_step
  execute_step-Of zero d s p = record { at = λ st. tt }
  execute_step-Of (suc fuel) d s p =
      Meets-then _ _ _ λ _. dispatch-Of (execute_step env cfg fuel d) s p d

-- What ends a run: a failure, or an approval that is skipped
abbrev pub stops : RecoveryStep → StepStatus → Bool
stops s failed = true
stops (human_approval a) skipped = true
stops s _ = false

pub halts-stops : (s : RecoveryStep) (status : StepStatus) → halts s status ≡ stops s status
unfolding halts is_failed_status is_skipped_approval
halts-stops (human_approval a) failed = refl
halts-stops (human_approval a) skipped = refl
halts-stops (human_approval a) success = refl
halts-stops (human_approval a) rolled_back = refl
halts-stops (system_action a) status = ground arith
halts-stops (diagnosis_action a) status = ground arith
halts-stops (human_notification a) status = ground arith
halts-stops (checkpoint a) status = ground arith
halts-stops (replanning_checkpoint a) status = ground arith
halts-stops (conditional c t e) status = ground arith

-- The results follow the steps: they are those of the first steps, in their order, up to and with
-- the first result that halts the run, or of all the steps if none does.
abbrev pub Follows : List RecoveryStep → List StepResult → Type 0
Follows [] [] = Unit
Follows [] (r ∷ rs) = ⊥
Follows (s ∷ ss) [] = ⊥
Follows (s ∷ ss) (r ∷ rs) = OfStep s r × (if stops s r.status then rs ≡ [] else Follows ss rs)

module _ {W D : Type 0} (env : Env W D) (cfg : Config W) (d : D) (plan : RecoveryPlan) where
  run_step-Of :
      (fuel : ℕ) (s : RecoveryStep) → R env cfg (OfStep s) (run_step env cfg d plan fuel s)
  unfolding run_step
  run_step-Of fuel s =
      Meets-bind (returning (OfStep s)) (OfStep s) _ _ (execute_step-Of env cfg fuel d s plan)
        λ r of.
          Meets-then _ _ _
            λ _. Meets-then _ _ _ λ _. Meets-then _ _ _ λ _. Meets-then _ _ _ λ _. Meets-pure _ _ of

  stopped :
      (s : RecoveryStep) (ss : List RecoveryStep) (e : String) → Follows (s ∷ ss) (failure s e ∷ [])
  stopped s ss e = (refl, refl)

  run_round-Follows :
      (fuel i : ℕ) (s : RecoveryStep) (ss : List RecoveryStep)
      (rest : Exec (EngineState W) (List StepResult))
      → R env cfg (Follows ss) rest
      → R env cfg (Follows (s ∷ ss)) (run_round env cfg d plan fuel i s rest)
  unfolding run_round
  run_round-Follows fuel i s ss rest h = Meets-then _ _ _ λ before.
      Meets-if _ before.abort _ _
        (λ _.
          Meets-pure _ _ (
            stopped s ss (template ("Aborted by hook: " ∷ or_else before.reason "undefined" ∷ []))))
        λ _. Meets-bind (returning (Follows (s ∷ ss))) (OfStep s) _ _ (run_step-Of fuel s) λ r of.
          Meets-if _ (halts s r.status) _ _
            (λ halt.
              Meets-then _ _ _
                λ _. Meets-pure _ _ (of, rw (sym (halts-stops s r.status), halt) refl))
            (λ on.
              Meets-bind (returning (Follows (s ∷ ss))) (Follows ss) _ _ h
                λ rs follow. Meets-pure _ _ (of, rw (sym (halts-stops s r.status), on) follow))

  run_steps-Follows :
      (fuel i : ℕ) (ss : List RecoveryStep)
      → R env cfg (Follows ss) (run_steps env cfg d plan fuel i ss)
  unfolding run_steps
  run_steps-Follows fuel i [] = Meets-pure _ _ tt
  run_steps-Follows fuel i (s ∷ ss) =
      run_round-Follows fuel i s ss (run_steps env cfg d plan fuel (suc i) ss)
        (run_steps-Follows fuel (suc i) ss)

bind-Holds :
    {S A B : Type 0} (P : B → Type 0) (m : Exec S A) (f : A → Exec S B) (s : S) (a : A)
    → (m s).0 ≡ ok a
    → Meets (returning P) (f a)
    → Holds (returning P) ((m >>= f) s).0
unfolding ◌>>=◌
bind-Holds P m f s a e h = rw (e, continue) (h.at (m s).1)

-- What a run that returns may return: if the `plan:validate` hooks let the plan pass, the results
-- of its first steps, in order and each for its step, up to and with the first step that fails or
-- the first approval that is skipped, or of all its steps; if they abort it, no results.
pub execute_plan-Follows :
    {W D : Type 0} (env : Env W D) (cfg : Config W) (d : D) (plan : RecoveryPlan) (fuel : ℕ)
    (s : EngineState W) (goes_on : Bool) (results : List StepResult)
    → (validate_hooks env cfg d plan s).0 ≡ ok goes_on
    → (execute_plan env cfg d plan fuel s).0 ≡ ok results
    → if goes_on then Follows plan.steps results else results ≡ []
unfolding execute_plan
execute_plan-Follows env cfg d plan fuel s true results e r =
    subst (Holds (returning (Follows plan.steps))) r (
      bind-Holds (Follows plan.steps) (validate_hooks env cfg d plan) _ s true e (
        Meets-bind (returning (Follows plan.steps)) (Follows plan.steps) _ _
          (run_steps-Follows env cfg d plan fuel 0 plan.steps)
          λ rs h. Meets-then _ _ _ λ _. Meets-pure _ _ h))
execute_plan-Follows env cfg d plan fuel s false results e r =
    subst (Holds (returning (λ rs. rs ≡ []))) r
      (bind-Holds (λ rs. rs ≡ []) (validate_hooks env cfg d plan) _ s false e (Meets-pure _ _ refl))
