-- ===== src/Engine/Action.antt =====
-- The captures and the system action of src/framework/engine.ts, one function for each phase that
-- can end the step, and `isDeclarativeNoOpCheck` of check-helpers.ts.
use crisismode.Base.{
  String, Bool, true, false, ◌&&◌, ◌||◌, not, Option, none, some, List, [], ◌∷◌, ◌++◌, template,
  has_text, or_else, if◌then◌else◌, ◌==◌,
}
use crisismode.Types.{
  Value, object, field, end, boolean, ExecutionMode, execute, dry_run, CheckExpression, Command,
  CaptureDirective, PreCondition, SystemActionStep, system_action, success, failed, StepResult,
  CaptureStatus, LogType, step_complete, success_check, precondition_check, info,
  CapabilityProviderResolution,
}
use crisismode.Safety.Capture.{CaptureResult, execute_capture, is_required, is_failed}
use crisismode.Safety.BlastRadius.{validate_blast_radius}
use crisismode.Providers.Resolve.{StepProviderResolution, command_name, resolve_step_providers}
use crisismode.Hooks.{HookContext, capture_before, HookPoint}
use crisismode.Engine.Effects.{
  modify, Exec, pure, gets, attempt, Reply, resolved, rejected, ◌>>=◌, ◌>>◌,
}
use crisismode.Engine.State.{
  Env, Config, Callback, Event, EngineState, make_step_result, add_log_entry, add_capture, notify,
  call, fire_hook,
}

text_of : Option String → Bool
text_of none = false
text_of (some s) = has_text s

unfoldable pub is_declarative_no_op_check : CheckExpression → Bool
unfolding text_of
is_declarative_no_op_check c =
    if text_of c.statement
    then false
    else if c.type == "expression"
    then true
    else if c.type == "placeholder" || c.type == "api_field"
    then not (text_of c.operation)
    else false

unfoldable pub is_execute : ExecutionMode → Bool
is_execute execute = true
is_execute dry_run = false

-- `captureResults.some((r, i) => r.status === 'failed' && captures[i]!.capturePolicy === 'required')`
unfoldable pub required_failed : List CaptureResult → List CaptureDirective → Bool
unfolding is_failed is_required
required_failed (r ∷ rs) (c ∷ cs) =
    (is_failed r.status && is_required c.capture_policy) || required_failed rs cs
required_failed _ _ = false

-- `${step.command.type} ${step.command.operation || step.command.statement || ''}`, less the
-- trimming: the text is only logged
or_text : Option String → String → String
or_text none d = d
or_text (some s) d = if s == "" then d else s

pub command_text : Command → String
unfolding or_text
command_text c =
    template (command_name c.type ∷ " " ∷ or_text c.operation (or_text c.statement "") ∷ [])

unfoldable pub fail : SystemActionStep → String → StepResult
fail step error = record (make_step_result (system_action step) failed) { error = some error }

unfoldable pub fail_resolved :
    SystemActionStep → String → List CapabilityProviderResolution → StepResult
fail_resolved step error capabilities = record (make_step_result (system_action step) failed) {
  error = some error;
  provider_resolution = some capabilities;
}

module _ {W D : Type 0} (env : Env W D) (cfg : Config W) where
  -- One capture, recorded and reported
  unfoldable pub take_capture : CaptureDirective → Exec (EngineState W) CaptureResult
  take_capture c = do
    now ← gets (λ s. env.now s.world)
    let r = execute_capture c now
    add_capture r
    notify (Callback.capture r.name r.status)
    pure r

  unfoldable pub take_captures : List CaptureDirective → Exec (EngineState W) (List CaptureResult)
  take_captures [] = pure []
  take_captures (c ∷ cs) = do r ← take_capture c; rs ← take_captures cs; pure (r ∷ rs)

  -- `isDeclarativeNoOpCheck(check) || (await this.backend.evaluateCheck(check))`
  unfoldable pub evaluate : CheckExpression → Exec (EngineState W) Bool
  evaluate c =
      if is_declarative_no_op_check c
      then pure true
      else call (Event.check c) (env.evaluate_check c)

  -- Neither a missing transition nor an empty one is made.
  unfoldable pub make_transition : Option String → Exec (EngineState W) (Unit {0})
  make_transition none = pure tt
  make_transition (some to) =
      if to == ""
      then pure tt
      else modify (λ s. record s {
        world = env.transition to s.world;
        trace = s.trace ++ Event.transition to ∷ [];
      })

  context_of : SystemActionStep → HookContext
  context_of step = record {
    plan = none;
    step = some (system_action step);
    step_result = none;
    manifest = some cfg.manifest;
    agent_context = none;
    execution_state = none;
    mode = some cfg.mode;
  }

  -- Phases 6 and 7: success criteria and after captures
  unfoldable pub finish_action :
      SystemActionStep → List CapabilityProviderResolution → Value → Exec (EngineState W) StepResult
  finish_action step capabilities output = do
    passed ← evaluate step.success_criteria.check
    notify (Callback.success_check step.step_id passed step.success_criteria.description)
    add_log_entry success_check step.step_id (
        "Success criteria "
        ∷ (if passed then "passed" else "FAILED")
        ∷ ": "
        ∷ step.success_criteria.description
        ∷ [])
    _ ← take_captures step.state_preservation.after
    pure (record (make_step_result (system_action step) (if passed then success else failed)) {
      output = some output;
      provider_resolution = some capabilities;
      error =
          if passed
          then none
          else some
              (template ("Success criteria failed: " ∷ step.success_criteria.description ∷ []));
    })

  unfoldable pub after_command :
      SystemActionStep
      → List CapabilityProviderResolution
      → Reply Value
      → Exec (EngineState W) StepResult
  after_command step capabilities (resolved output) = do
    add_log_entry step_complete step.step_id ("Executed command: " ∷ command_text step.command ∷ [])
    make_transition step.state_transition
    finish_action step capabilities output
  after_command step capabilities (rejected e) = do
    add_log_entry LogType.step_failed step.step_id ("Command execution failed: " ∷ e ∷ [])
    pure (fail_resolved step (template ("Command execution failed: " ∷ e ∷ [])) capabilities)

  -- The command, with the `try` around it, and what follows
  unfoldable pub send_command :
      SystemActionStep → List CapabilityProviderResolution → Exec (EngineState W) StepResult
  send_command step capabilities = do
    reply ← attempt (call (Event.command step.command) (env.execute_command step.command))
    after_command step capabilities reply

  -- Phase 5: the command, or in any mode but `execute` a note of it
  unfoldable pub command_phase :
      SystemActionStep → List CapabilityProviderResolution → Exec (EngineState W) StepResult
  command_phase step capabilities =
      if is_execute cfg.mode then send_command step capabilities else do
        add_log_entry step_complete step.step_id
            ("[DRY-RUN] Would execute: " ∷ command_text step.command ∷ [])
        notify (Callback.capture (template ("[DRY-RUN] " ∷ step.name ∷ [])) CaptureStatus.skipped)
        make_transition step.state_transition
        pure (record (make_step_result (system_action step) success) {
          output = some (object (field "dryRun" (boolean true) end));
          provider_resolution = some capabilities;
        })

  -- One round of the loop of phase 4: the rest of the loop, or the description of the
  -- precondition if it does not pass
  unfoldable pub check_precondition :
      SystemActionStep
      → PreCondition
      → Exec (EngineState W) (Option String)
      → Exec (EngineState W) (Option String)
  check_precondition step pre rest = do
    passed ← evaluate pre.check
    notify (Callback.pre_condition_check step.step_id passed pre.description)
    add_log_entry precondition_check step.step_id
        ("Precondition " ∷ (if passed then "passed" else "FAILED") ∷ ": " ∷ pre.description ∷ [])
    if passed then rest else pure (some pre.description)

  -- The loop of phase 4: none if every precondition passed
  unfoldable pub check_preconditions :
      SystemActionStep → List PreCondition → Exec (EngineState W) (Option String)
  check_preconditions step [] = pure none
  check_preconditions step (pre ∷ rest) =
      check_precondition step pre (check_preconditions step rest)

  unfoldable pub after_preconditions :
      SystemActionStep
      → List CapabilityProviderResolution
      → Option String
      → Exec (EngineState W) StepResult
  after_preconditions step capabilities none = command_phase step capabilities
  after_preconditions step capabilities (some description) =
      pure (fail_resolved step (template ("Precondition failed: " ∷ description ∷ [])) capabilities)

  -- Phase 4: preconditions
  unfoldable pub precondition_phase :
      SystemActionStep → List CapabilityProviderResolution → Exec (EngineState W) StepResult
  unfolding context_of
  precondition_phase step capabilities = do
    _ ← fire_hook cfg HookPoint.precondition_check (λ _. context_of step)
    failed_at ← check_preconditions step (or_else step.pre_conditions [])
    after_preconditions step capabilities failed_at

  -- Phase 3: before captures
  unfoldable pub capture_phase :
      SystemActionStep → List CapabilityProviderResolution → Exec (EngineState W) StepResult
  unfolding context_of
  capture_phase step capabilities = do
    _ ← fire_hook cfg capture_before (λ _. context_of step)
    before ← take_captures step.state_preservation.before
    if required_failed before step.state_preservation.before
        then pure (fail_resolved step "Required before capture failed" capabilities)
        else precondition_phase step capabilities

  unfoldable pub resolution_of : SystemActionStep → W → StepProviderResolution
  resolution_of step w =
      resolve_step_providers cfg.capabilities step cfg.manifest (env.list_capability_providers w)
        cfg.mode

  -- Phase 2: provider resolution
  unfoldable pub provider_phase : SystemActionStep → Exec (EngineState W) StepResult
  provider_phase step = do
    resolution ← gets (λ s. resolution_of step s.world)
    add_log_entry (if resolution.resolved then info else LogType.step_failed) step.step_id
        ("Provider resolution: " ∷ resolution.summary ∷ [])
    if is_execute cfg.mode && not resolution.resolved
        then pure (
            fail_resolved step (template ("Provider resolution failed: " ∷ resolution.summary ∷ []))
              resolution.capabilities)
        else capture_phase step resolution.capabilities

  -- Phase 1: blast radius validation
  unfoldable pub execute_system_action : SystemActionStep → Exec (EngineState W) StepResult
  execute_system_action step =
      let blast = validate_blast_radius step cfg.manifest (some cfg.context) in
      do
        notify (Callback.blast_radius_check step.step_id blast.message)
        if blast.valid then provider_phase step else do
          add_log_entry LogType.step_failed step.step_id
              ("Blast radius validation failed: " ∷ blast.message ∷ [])
          pure (fail step (template ("Blast radius validation failed: " ∷ blast.message ∷ [])))
