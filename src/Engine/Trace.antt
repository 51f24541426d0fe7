-- ===== src/Engine/Trace.antt =====
-- Properties of the trace that only a command, a question or a replanning can change.
use crisismode.Base.{◌==◌, String, true, ◌≡◌, refl, ap, Option, none, some, List, [], ◌∷◌, ◌++◌}
use crisismode.Types.{
  Value, Command, CheckExpression, CaptureDirective, PreCondition, SystemActionStep, ExecutionState,
  CapabilityProviderResolution, LogType,
}
use crisismode.Safety.Capture.{CaptureResult}
use crisismode.Hooks.{HookPoint, HookContext, HookRegistry}
use crisismode.Engine.Effects.{Exec, pure, Reply, resolved, rejected}
use crisismode.Engine.State.{
  Env, Config, Callback, Event, EngineState, add_log_entry, add_capture, notify, call, fire_hook,
  fire_in, settle,
}
use crisismode.Engine.Action.{
  is_execute, is_declarative_no_op_check, take_capture, take_captures, evaluate, make_transition,
  command_phase, check_precondition, check_preconditions, after_preconditions, precondition_phase,
  capture_phase, provider_phase, execute_system_action, finish_action, after_command, send_command,
}
use crisismode.Engine.Logic.{Keeps, Keeps-pure, Keeps-bind, Keeps-if, keeps_rules}

-- The commands of a trace, in their order
abbrev pub commands : List Event → List Command
commands [] = []
commands (Event.command c ∷ es) = c ∷ commands es
commands (Event.check _ ∷ es) = commands es
commands (Event.transition _ ∷ es) = commands es
commands (Event.question ∷ es) = commands es
commands (Event.replan ∷ es) = commands es
commands (Event.hook _ ∷ es) = commands es
commands (Event.callback _ ∷ es) = commands es

pub commands-append : (es fs : List Event) → commands (es ++ fs) ≡ commands es ++ commands fs
commands-append [] fs = refl
commands-append (Event.command c ∷ es) fs = ap (λ t. c ∷ t) (commands-append es fs)
commands-append (Event.check _ ∷ es) fs = commands-append es fs
commands-append (Event.transition _ ∷ es) fs = commands-append es fs
commands-append (Event.question ∷ es) fs = commands-append es fs
commands-append (Event.replan ∷ es) fs = commands-append es fs
commands-append (Event.hook _ ∷ es) fs = commands-append es fs
commands-append (Event.callback _ ∷ es) fs = commands-append es fs

-- `T`, a property of the trace, is kept by every event but commands, questions and replanning.
pub record Quiet (T : List Event → Type 0) : Type 0 where
  pub callbacks : (c : Callback) (es : List Event) → T es → T (es ++ Event.callback c ∷ [])
  pub hooks : (p : HookPoint) (es : List Event) → T es → T (es ++ Event.hook p ∷ [])
  pub checks : (c : CheckExpression) (es : List Event) → T es → T (es ++ Event.check c ∷ [])
  pub transitions : (t : String) (es : List Event) → T es → T (es ++ Event.transition t ∷ [])

abbrev pub Traced : {W : Type 0} → (List Event → Type 0) → EngineState W → Type 0
Traced T s = T s.trace

module _ {W : Type 0} {T : List Event → Type 0} (q : Quiet T) where
  pub log-Traced :
      (t : LogType) (id : String) (m : List String)
      → Keeps (Traced {W = W} T) (add_log_entry t id m)
  unfolding add_log_entry
  log-Traced t id m = record { at = λ s h. h }

  pub add_capture-Traced : (r : CaptureResult) → Keeps (Traced {W = W} T) (add_capture r)
  unfolding add_capture
  add_capture-Traced r = record { at = λ s h. h }

  pub notify-Traced : (c : Callback) → Keeps (Traced {W = W} T) (notify c)
  unfolding notify
  notify-Traced c = record { at = λ s h. q.callbacks c s.trace h }

  pub fire_hook-Traced :
      (cfg : Config W) (p : HookPoint) (c : ExecutionState → HookContext)
      → Keeps (Traced {W = W} T) (fire_hook cfg p c)
  unfolding fire_hook
  fire_hook-Traced cfg p c = record { at = λ s h. fired cfg.hooks s h }
    where
      fired :
          (m : Option (HookRegistry W)) (s : EngineState W)
          → T s.trace
          → T (fire_in p c m s).1.trace
      fired none s h = h
      fired (some r) s h = q.hooks p s.trace h

  pub settle-Traced :
      {A : Type 0} (r : Reply A) (s : EngineState W) → T s.trace → T (settle r s).1.trace
  settle-Traced (resolved a) s h = h
  settle-Traced (rejected e) s h = h

  pub call-Traced :
      {A : Type 0} (e : Event) (f : W → Reply A × W)
      → ((es : List Event) → T es → T (es ++ e ∷ []))
      → Keeps (Traced {W = W} T) (call e f)
  unfolding call
  call-Traced e f h = record { at = λ s k. settle-Traced (f s.world).0 _ (h s.trace k) }

module _ {W D : Type 0} (env : Env W D) (cfg : Config W) {T : List Event → Type 0}
    (q : Quiet T) where
  pub take_capture-Traced : (c : CaptureDirective) → Keeps (Traced T) (take_capture env cfg c)
  unfolding take_capture
  take_capture-Traced c = search (keeps_rules, add_capture-Traced q, notify-Traced q)

  pub take_captures-Traced :
      (cs : List CaptureDirective) → Keeps (Traced T) (take_captures env cfg cs)
  unfolding take_captures
  take_captures-Traced [] = Keeps-pure []
  take_captures-Traced (c ∷ cs) =
      search (keeps_rules, take_capture-Traced c, take_captures-Traced cs)

  pub evaluate-Traced : (c : CheckExpression) → Keeps (Traced T) (evaluate env cfg c)
  unfolding evaluate
  evaluate-Traced c =
      Keeps-if (is_declarative_no_op_check c) (pure true)
        (call (Event.check c) (env.evaluate_check c)) (λ _. Keeps-pure true)
        (λ _. call-Traced q (Event.check c) (env.evaluate_check c) (q.checks c))

  pub make_transition-Traced : (t : Option String) → Keeps (Traced T) (make_transition env cfg t)
  unfolding make_transition
  make_transition-Traced none = record { at = λ s h. h }
  make_transition-Traced (some to) =
      Keeps-if (to == "") _ _ (λ _. Keeps-pure tt)
        λ _. record { at = λ s h. q.transitions to s.trace h }

pub ruleset quiet_rules = (
  keeps_rules, log-Traced, add_capture-Traced, notify-Traced, fire_hook-Traced,
  take_captures-Traced, evaluate-Traced, make_transition-Traced,
)

module _ {W D : Type 0} (env : Env W D) (cfg : Config W) {T : List Event → Type 0} (q : Quiet T)
    (step : SystemActionStep) where
  pub check_precondition-Traced :
      (p : PreCondition) (rest : Exec (EngineState W) (Option String))
      → Keeps (Traced T) rest
      → Keeps (Traced T) (check_precondition env cfg step p rest)
  unfolding check_precondition
  check_precondition-Traced p rest h =
      search (keeps_rules, evaluate-Traced env cfg q, notify-Traced q, log-Traced q)

  pub check_preconditions-Traced :
      (ps : List PreCondition) → Keeps (Traced T) (check_preconditions env cfg step ps)
  unfolding check_preconditions
  check_preconditions-Traced [] = Keeps-pure none
  check_preconditions-Traced (p ∷ ps) =
      check_precondition-Traced p (check_preconditions env cfg step ps)
        (check_preconditions-Traced ps)

  pub finish_action-Traced :
      (caps : List CapabilityProviderResolution) (output : Value)
      → Keeps (Traced T) (finish_action env cfg step caps output)
  unfolding finish_action
  finish_action-Traced caps output = search (
    keeps_rules,
    evaluate-Traced env cfg q,
    notify-Traced q,
    log-Traced q,
    take_captures-Traced env cfg q,
  )

  pub after_command-Traced :
      (caps : List CapabilityProviderResolution) (reply : Reply Value)
      → Keeps (Traced T) (after_command env cfg step caps reply)
  unfolding after_command
  after_command-Traced caps (resolved output) =
      search (keeps_rules, log-Traced q, make_transition-Traced env cfg q, finish_action-Traced)
  after_command-Traced caps (rejected e) = search (keeps_rules, log-Traced q)

  -- What the command itself does, in a mode that sends it, is all that can change `T`.
  module _
      (sends : (caps : List CapabilityProviderResolution)
        → is_execute cfg.mode ≡ true
        → Keeps (Traced T) (send_command env cfg step caps)) where
    command_phase-Traced :
        (caps : List CapabilityProviderResolution)
        → Keeps (Traced T) (command_phase env cfg step caps)
    unfolding command_phase
    command_phase-Traced caps =
        search
          (keeps_rules, sends caps, log-Traced q, notify-Traced q, make_transition-Traced env cfg q)

    after_preconditions-Traced :
        (caps : List CapabilityProviderResolution) (o : Option String)
        → Keeps (Traced T) (after_preconditions env cfg step caps o)
    unfolding after_preconditions
    after_preconditions-Traced caps none = command_phase-Traced caps
    after_preconditions-Traced caps (some d) = Keeps-pure _

    precondition_phase-Traced :
        (caps : List CapabilityProviderResolution)
        → Keeps (Traced T) (precondition_phase env cfg step caps)
    unfolding precondition_phase
    precondition_phase-Traced caps =
        search
          (keeps_rules, fire_hook-Traced q, check_preconditions-Traced, after_preconditions-Traced)

    capture_phase-Traced :
        (caps : List CapabilityProviderResolution)
        → Keeps (Traced T) (capture_phase env cfg step caps)
    unfolding capture_phase
    capture_phase-Traced caps =
        search (
          keeps_rules,
          fire_hook-Traced q,
          take_captures-Traced env cfg q,
          precondition_phase-Traced,
        )

    provider_phase-Traced : Keeps (Traced T) (provider_phase env cfg step)
    unfolding provider_phase
    provider_phase-Traced = search (keeps_rules, log-Traced q, capture_phase-Traced)

    pub execute_system_action-Traced : Keeps (Traced T) (execute_system_action env cfg step)
    unfolding execute_system_action
    execute_system_action-Traced =
        search (keeps_rules, notify-Traced q, log-Traced q, provider_phase-Traced)
