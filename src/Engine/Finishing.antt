-- ===== src/Engine/Finishing.antt =====
-- Actions that never run out of fuel: all but the replanning checkpoints.
use crisismode.Base.{
  ◌==◌, ℕ, String, Bool, true, false, Option, none, some, List, [], ◌∷◌, if◌then◌else◌,
}
use crisismode.Types.{
  Value, SystemActionStep, CaptureDirective, PreCondition, CheckExpression, LogType, RecoveryPlan,
  StepResult, CapabilityProviderResolution, ExecutionState,
}
use crisismode.Hooks.{HookPoint, HookContext, HookResult, HookRegistry}
use crisismode.Engine.Effects.{
  Exec, pure, gets, attempt, Reply, resolved, rejected, try_await, ◌>>=◌,
}
use crisismode.Engine.State.{
  Env, Config, Callback, Event, EngineState, settle, call, notify, add_log_entry, fire_hook,
  fire_in, add_capture, add_step_result, add_plan, increment_replan_count, push_completed,
  set_index,
}
use crisismode.Safety.Capture.{CaptureResult}
use crisismode.Engine.Action.{
  finish_action, after_command, send_command, command_phase, check_precondition,
  check_preconditions, after_preconditions, precondition_phase, capture_phase, provider_phase,
  execute_system_action, take_capture, take_captures, evaluate, make_transition,
}
use crisismode.Engine.Logic.{Meets, Meets-bind, Meets-try, Post, Holds}

-- Any outcome but that the fuel ran out
abbrev pub finishing : {A : Type 0} → (A → Type 0) → Post A
finishing Q = record { returns = Q; throws = λ e. Unit; exhausts = ⊥ }

abbrev pub Finishes : {S A : Type 0} → Exec S A → Type 0
Finishes m = Meets (finishing (λ a. Unit)) m

module _ {S A : Type 0} where
  pub F-pure : (a : A) → Finishes {S = S} (pure a)
  F-pure a = record { at = λ s. tt }

  pub F-gets : (f : S → A) → Finishes (gets f)
  F-gets f = record { at = λ s. tt }

  pub F-if : (b : Bool) (m n : Exec S A) → Finishes m → Finishes n → Finishes (if b then m else n)
  F-if true m n h k = h
  F-if false m n h k = k

  pub F-try :
      (m : Exec S A) (h : String → Exec S A)
      → Finishes m
      → ((e : String) → Finishes (h e))
      → Finishes (try_await m h)
  F-try m h hm hh = Meets-try _ (λ e. Unit) m h hm (λ e _. hh e)

module _ {S A B : Type 0} where
  pub F-bind :
      (m : Exec S A) (f : A → Exec S B)
      → Finishes m
      → ((a : A) → Finishes (f a))
      → Finishes (m >>= f)
  F-bind m f hm hf = Meets-bind _ (λ a. Unit) m f hm (λ a _. hf a)

pub F-attempt : {S A : Type 0} (m : Exec S A) → Finishes m → Finishes (attempt m)
unfolding attempt
F-attempt m h = F-try _ _ (F-bind m _ h (λ a. F-pure (resolved a))) (λ e. F-pure (rejected e))

pub ruleset finish_rules = (F-pure, F-gets, F-bind, F-if, F-try, F-attempt)

module _ {W : Type 0} where
  abbrev pub F : {A : Type 0} → Exec (EngineState W) A → Type 0
  F m = Finishes m

  pub log-F : (t : LogType) (id : String) (m : List String) → F (add_log_entry t id m)
  unfolding add_log_entry
  log-F t id m = record { at = λ s. tt }

  pub notify-F : (c : Callback) → F (notify c)
  unfolding notify
  notify-F c = record { at = λ s. tt }

  pub add_capture-F : (r : CaptureResult) → F (add_capture r)
  unfolding add_capture
  add_capture-F r = record { at = λ s. tt }

  pub recorded-F : (r : StepResult) → F (add_step_result r)
  unfolding add_step_result
  recorded-F r = record { at = λ s. tt }

  pub plan-F : (p : RecoveryPlan) → F (add_plan p)
  unfolding add_plan
  plan-F p = record { at = λ s. tt }

  pub count-F : F increment_replan_count
  unfolding increment_replan_count
  count-F = record { at = λ s. tt }

  pub completed-F : (r : StepResult) → F (push_completed r)
  unfolding push_completed
  completed-F r = record { at = λ s. tt }

  pub index-F : (i : ℕ) → F (set_index i)
  unfolding set_index
  index-F i = record { at = λ s. tt }

  settle-F :
      {A : Type 0} (r : Reply A) (s : EngineState W)
      → Holds (finishing (λ (a : A). Unit)) (settle r s).0
  settle-F (resolved a) s = tt
  settle-F (rejected e) s = tt

  pub call-F : {A : Type 0} (e : Event) (f : W → Reply A × W) → F (call e f)
  unfolding call
  call-F e f = record { at = λ s. settle-F (f s.world).0 _ }

  pub fire-F :
      (cfg : Config W) (p : HookPoint) (c : ExecutionState → HookContext) → F (fire_hook cfg p c)
  unfolding fire_hook
  fire-F cfg p c = record { at = λ s. fired cfg.hooks s }
    where
      fired :
          (m : Option (HookRegistry W)) (s : EngineState W)
          → Holds (finishing (λ (a : HookResult). Unit)) (fire_in p c m s).0
      fired none s = tt
      fired (some r) s = tt

pub ruleset state_rules = (
  finish_rules, log-F, notify-F, add_capture-F, recorded-F, plan-F, count-F, completed-F, index-F,
  call-F, fire-F,
)

module _ {W D : Type 0} (env : Env W D) (cfg : Config W) where
  take_capture-F : (c : CaptureDirective) → F (take_capture env cfg c)
  unfolding take_capture
  take_capture-F c = search state_rules depth 8

  pub take_captures-F : (cs : List CaptureDirective) → F (take_captures env cfg cs)
  unfolding take_captures
  take_captures-F [] = F-pure []
  take_captures-F (c ∷ cs) = search (finish_rules, take_capture-F c, take_captures-F cs)

  pub evaluate-F : (c : CheckExpression) → F (evaluate env cfg c)
  unfolding evaluate
  evaluate-F c = search state_rules

  transition-F : (t : Option String) → F (make_transition env cfg t)
  unfolding make_transition
  transition-F none = record { at = λ s. tt }
  transition-F (some t) = F-if (t == "") _ _ (F-pure tt) (record { at = λ s. tt })

  finish-F :
      (s : SystemActionStep) (c : List CapabilityProviderResolution) (o : Value)
      → F (finish_action env cfg s c o)
  unfolding finish_action
  finish-F s c o = search (state_rules, evaluate-F, take_captures-F) depth 10

  after_command-F :
      (s : SystemActionStep) (c : List CapabilityProviderResolution) (r : Reply Value)
      → F (after_command env cfg s c r)
  unfolding after_command
  after_command-F s c (resolved o) = search (state_rules, transition-F, finish-F) depth 8
  after_command-F s c (rejected e) = search state_rules

  command-F :
      (s : SystemActionStep) (c : List CapabilityProviderResolution) → F (command_phase env cfg s c)
  unfolding command_phase send_command
  command-F s c = search (state_rules, transition-F, after_command-F) depth 8

  precondition-F :
      (s : SystemActionStep) (p : PreCondition) (rest : Exec (EngineState W) (Option String))
      → F rest
      → F (check_precondition env cfg s p rest)
  unfolding check_precondition
  precondition-F s p rest h = search (state_rules, evaluate-F) depth 8

  preconditions-F :
      (s : SystemActionStep) (ps : List PreCondition) → F (check_preconditions env cfg s ps)
  unfolding check_preconditions
  preconditions-F s [] = F-pure none
  preconditions-F s (p ∷ ps) =
      precondition-F s p (check_preconditions env cfg s ps) (preconditions-F s ps)

  after_preconditions-F :
      (s : SystemActionStep) (c : List CapabilityProviderResolution) (o : Option String)
      → F (after_preconditions env cfg s c o)
  unfolding after_preconditions
  after_preconditions-F s c none = command-F s c
  after_preconditions-F s c (some d) = F-pure _

  pub action-F : (s : SystemActionStep) → F (execute_system_action env cfg s)
  unfolding execute_system_action provider_phase capture_phase precondition_phase
  action-F s =
      search (state_rules, take_captures-F, preconditions-F, after_preconditions-F) depth 16
