-- ===== src/Engine/State.antt =====
-- What the engine is given and what it keeps. The world `W` holds the backend, the agent, the
-- operator at the terminal and the handlers of the hooks; the engine acts on it only through the
-- operations of `Env`. The trace lists the calls that leave the engine, in their order; the
-- callbacks are observers, and a call of one is an event.
use crisismode.Base.{ℕ, String, Bool, Option, none, some, List, [], ◌∷◌, ◌++◌, ◌+◌, template}
use crisismode.Types.{
  Value, ExecutionMode, RiskLevel, Command, CheckExpression, RecoveryStep, step_id, RecoveryPlan,
  AgentManifest, AgentContext, CapabilityProviderDescriptor, CaptureStatus, StepStatus, StepResult,
  ExecutionState, LogType, ExecutionLogEntry,
}
use crisismode.Capabilities.{Registry}
use crisismode.Safety.Capture.{CaptureResult}
use crisismode.Hooks.{HookPoint, HookContext, HookResult, HookRegistry, fire, go_on}
use crisismode.Engine.Effects.{Outcome, ok, threw, Exec, modify, Reply, resolved, rejected}

pub data ReplanResult : Type 0 where
  keep_plan : ReplanResult
  revised_plan : RecoveryPlan → ReplanResult
  abort : String → ReplanResult

pub record Env (W D : Type 0) : Type 0 where
  pub now : W → ℕ
  pub execute_command : Command → W → Reply Value × W
  pub evaluate_check : CheckExpression → W → Reply Bool × W
  pub list_capability_providers : W → List CapabilityProviderDescriptor
  pub transition : String → W → W
  pub replan : AgentContext → D → ExecutionState → W → Reply ReplanResult × W
  pub question : W → Reply String × W

pub record Config (W : Type 0) : Type 0 where
  pub context : AgentContext
  pub manifest : AgentManifest
  pub mode : ExecutionMode
  pub covered_risk_levels : List RiskLevel
  pub hooks : Option (HookRegistry W)
  pub capabilities : Registry

pub data Callback : Type 0 where
  -- `onStepStart`, with the index or none for -1
  step_start : RecoveryStep → Option ℕ → Callback
  step_complete : RecoveryStep → StepResult → Callback
  pre_condition_check : String → Bool → String → Callback
  success_check : String → Bool → String → Callback
  capture : String → CaptureStatus → Callback
  notification : String → Callback
  approval_request : String → Callback
  approval_result : String → String → Bool → Callback
  conditional_eval : String → Bool → Callback
  replan_start : String → Callback
  replan_result : String → String → Callback
  blast_radius_check : String → String → Callback

pub data Event : Type 0 where
  command : Command → Event
  check : CheckExpression → Event
  transition : String → Event
  question : Event
  replan : Event
  hook : HookPoint → Event
  callback : Callback → Event

-- `ForensicRecorder` of src/framework/forensics.ts, as far as the engine writes it
pub record Recorder : Type 0 where
  pub log : List ExecutionLogEntry
  pub captures : List CaptureResult
  pub step_results : List StepResult
  pub plans : List RecoveryPlan
  pub replan_count : ℕ

pub record EngineState (W : Type 0) : Type 0 where
  pub world : W
  pub trace : List Event
  pub recorder : Recorder
  pub execution_state : ExecutionState

-- `makeStepResult` without extra fields
abbrev pub make_step_result : RecoveryStep → StepStatus → StepResult
make_step_result step status = record {
  step_id = step_id step;
  step = step;
  status = status;
  output = none;
  error = none;
  provider_resolution = none;
  capture_results = none;
}

module _ {W : Type 0} where
  abbrev pub emit : Event → EngineState W → EngineState W
  emit e s = record s { trace = s.trace ++ e ∷ [] }

  unfoldable pub add_log_entry : LogType → String → List String → Exec (EngineState W) (Unit {0})
  add_log_entry type id message = modify (λ s. record s {
    recorder = record (s.recorder) {
      log = s.recorder.log ++ record { type = type; step_id = id; message = template message } ∷ [];
    };
  })

  unfoldable pub add_capture : CaptureResult → Exec (EngineState W) (Unit {0})
  add_capture r = modify (λ s. record s {
    recorder = record (s.recorder) { captures = s.recorder.captures ++ r ∷ [] };
  })

  unfoldable pub add_step_result : StepResult → Exec (EngineState W) (Unit {0})
  add_step_result r = modify (λ s. record s {
    recorder = record (s.recorder) { step_results = s.recorder.step_results ++ r ∷ [] };
  })

  unfoldable pub add_plan : RecoveryPlan → Exec (EngineState W) (Unit {0})
  add_plan p =
      modify
        (λ s. record s { recorder = record (s.recorder) { plans = s.recorder.plans ++ p ∷ [] } })

  unfoldable pub increment_replan_count : Exec (EngineState W) (Unit {0})
  increment_replan_count = modify (λ s. record s {
    recorder = record (s.recorder) { replan_count = s.recorder.replan_count + 1 };
  })

  -- `this.executionState.completedSteps.push(result)`
  unfoldable pub push_completed : StepResult → Exec (EngineState W) (Unit {0})
  push_completed r = modify (λ s. record s {
    execution_state = record (s.execution_state) {
      completed_steps = s.execution_state.completed_steps ++ r ∷ [];
    };
  })

  unfoldable pub set_index : ℕ → Exec (EngineState W) (Unit {0})
  set_index i =
      modify
        (λ s. record s { execution_state = record (s.execution_state) { current_step_index = i } })

  unfoldable pub notify : Callback → Exec (EngineState W) (Unit {0})
  notify c = modify (emit (callback c))

  -- A call of the outside whose promise is awaited
  abbrev pub settle : {A : Type 0} → Reply A → EngineState W → Outcome A × EngineState W
  settle (resolved a) s = (ok a, s)
  settle (rejected e) s = (threw e, s)

  unfoldable pub call : {A : Type 0} → Event → (W → Reply A × W) → Exec (EngineState W) A
  call event f s =
      let (reply, w) = f s.world in
      settle reply (record s { world = w; trace = s.trace ++ event ∷ [] })

  abbrev pub fire_in :
      HookPoint
      → (ExecutionState → HookContext)
      → Option (HookRegistry W)
      → EngineState W
      → Outcome HookResult × EngineState W
  fire_in p context none s = (ok go_on, s)
  fire_in p context (some m) s =
      let (r, w) = fire p (context s.execution_state) m s.world in
      (ok r, record s { world = w; trace = s.trace ++ hook p ∷ [] })

  -- `if (this.hooks) await this.hooks.fire(point, context)`
  unfoldable pub fire_hook :
      Config W → HookPoint → (ExecutionState → HookContext) → Exec (EngineState W) HookResult
  fire_hook cfg p context = fire_in p context cfg.hooks
