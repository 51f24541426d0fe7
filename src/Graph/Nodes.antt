-- ===== src/Graph/Nodes.antt =====
-- The nodes of src/framework/graph-nodes.ts, one for each kind of step. A node works on the
-- backend and the agent as the methods of the sequential engine do; what it logs is in its update.
pub mod Action
use crisismode.Base.{
  ℕ, zero, suc, String, Bool, true, false, Option, none, some, List, [], ◌∷◌, ◌++◌, map, or_else,
  last, length, template, if◌then◌else◌, ◌==◌,
}
use crisismode.Types.{
  Value, CaptureDirective, RecoveryStep, ElseStep, SystemActionStep, DiagnosisActionStep,
  HumanNotificationStep, HumanApprovalStep, CheckpointStep, ReplanningCheckpointStep,
  ConditionalHead, system_action, diagnosis_action, human_notification, human_approval, checkpoint,
  replanning_checkpoint, conditional, skip, otherwise, step_id, RecoveryPlan, StepStatus, success,
  failed, skipped, StepResult, ExecutionState, ExecutionLogEntry, step_start, step_complete,
  step_failed, notification_sent, approval_auto, approval_received, conditional_eval, replan_result,
}
use crisismode.Safety.Capture.{CaptureResult, execute_capture}
use crisismode.Engine.Effects.{Exec, pure, gets, diverge, attempt, Reply, resolved, rejected, ◌>>=◌}
use crisismode.Engine.State.{
  Env, Config, Event, ReplanResult, keep_plan, revised_plan, abort, EngineState, make_step_result,
  call, settle,
}
use crisismode.Engine.Action.{required_failed, evaluate}
use crisismode.Engine.Steps.{summary_of, failure, auto_approves, replan_name}
use crisismode.Engine.Run.{is_failed_status}
use crisismode.Graph.State
use crisismode.Graph.State.{GraphState, GraphUpdate, put, make_log_entry, plain_update, aborted}
use crisismode.Graph.Nodes.Action.{start_log, system_action_node}

-- `GraphNodeContext`, with the runtime's `interrupt`: it returns the decision that the run is
-- resumed with, or throws
pub record NodeContext (W D : Type 0) : Type 0 where
  pub env : Env W D
  pub config : Config W
  pub has_approval_handler : Bool
  pub interrupt : W → Reply String × W

-- A decision other than these two is taken for an approval.
unfoldable pub decided : HumanApprovalStep → List ExecutionLogEntry → String → GraphUpdate
unfolding plain_update
decided step logs decision =
    if decision == "rejected"
    then record (plain_update (failure (human_approval step) "Human rejected the step") logs) {
      execution_outcome = some State.failed;
    }
    else if decision == "skipped"
    then record (plain_update (make_step_result (human_approval step) skipped) logs) {
      execution_outcome = some aborted;
    }
    else plain_update (make_step_result (human_approval step) success) logs

-- The data of the captures that have some, by name
unfoldable pub captured_data : List CaptureResult → List (String × Value) → List (String × Value)
unfolding put
captured_data [] m = m
captured_data (r ∷ rs) m =
    captured_data rs (elim r.data_value [ none ↦ m | some v ↦ put r.name v m ])

-- `steps[0]?.status ?? 'success'`
unfoldable pub first_status : List StepResult → StepStatus
first_status [] = success
first_status (r ∷ rs) = r.status

-- The end of a conditional's node: the status is that of the first result of the branch
unfoldable pub branch_update :
    RecoveryStep → String → List ExecutionLogEntry → GraphUpdate → GraphUpdate
unfolding plain_update first_status
branch_update step id logs branch =
    let status = first_status branch.completed_steps in
    let update = plain_update (make_step_result step status) (logs ++ branch.forensic_log) in
    if is_failed_status status
    then record update { execution_outcome = some State.failed; failed_step_id = some id }
    else update

abbrev pub NodeFunction : Type 0 → Type 0 → Type 0
NodeFunction W D = GraphState D → Exec (EngineState W) GraphUpdate

-- The error of the last result of a step of a revised plan, if that result is a failure
unfoldable pub revised_failure : Option StepResult → Option String
revised_failure none = none
revised_failure (some r) =
    if is_failed_status r.status then some (or_else r.error "unknown error") else none

module _ {W D : Type 0} (ctx : NodeContext W D) where
  unfoldable pub after_diagnosis : DiagnosisActionStep → Reply Value → GraphUpdate
  unfolding plain_update make_log_entry start_log
  after_diagnosis step (resolved output) =
      record (plain_update
        (record (make_step_result (diagnosis_action step) success) { output = some output })
        (start_log (diagnosis_action step)
          ++ make_log_entry step_complete step.step_id
              ("Diagnosis action completed: " ∷ step.name ∷ [])
            ∷ [])) {
              step_outputs = elim step.output_capture [
                | none ↦ []
                | some c ↦ (c.name, output) ∷ []
              ];
            }
  after_diagnosis step (rejected e) =
      record (plain_update (failure (diagnosis_action step) e) (
        start_log (diagnosis_action step)
        ++ make_log_entry step_failed step.step_id ("Diagnosis action failed: " ∷ e ∷ []) ∷ [])) {
          execution_outcome = some State.failed;
          failed_step_id = some step.step_id;
        }

  unfoldable pub diagnosis_node : DiagnosisActionStep → Exec (EngineState W) GraphUpdate
  diagnosis_node step = do
    reply ← attempt (call (Event.command step.command) (ctx.env.execute_command step.command))
    pure (after_diagnosis step reply)

  unfoldable pub notification_node : HumanNotificationStep → Exec (EngineState W) GraphUpdate
  unfolding plain_update make_log_entry start_log
  notification_node step = pure (
      plain_update (make_step_result (human_notification step) success) (
        start_log (human_notification step)
        ++ make_log_entry notification_sent step.step_id
            ("Notification sent: " ∷ step.message.summary ∷ [])
          ∷ []))

  unfoldable pub checkpoint_update : CheckpointStep → List CaptureResult → GraphUpdate
  unfolding plain_update make_log_entry start_log captured_data summary_of
  checkpoint_update step results =
      let missing = required_failed results step.state_captures in
      record (plain_update
        (record (make_step_result (checkpoint step) (if missing then failed else success)) {
          capture_results = some (map summary_of results);
        })
        (start_log (checkpoint step)
          ++ make_log_entry step_complete step.step_id ("Checkpoint completed: " ∷ step.name ∷ [])
            ∷ [])) {
              captures = captured_data results [];
              execution_outcome = if missing then some State.failed else none;
              failed_step_id = if missing then some step.step_id else none;
            }

  unfoldable pub checkpoint_node : CheckpointStep → Exec (EngineState W) GraphUpdate
  unfolding checkpoint_update
  checkpoint_node step = do
    now ← gets (λ s. ctx.env.now s.world)
    pure (checkpoint_update step (map (λ c. execute_capture c now) step.state_captures))

  -- `interrupt({ … })`
  unfoldable pub interrupt_node : Exec (EngineState W) String
  interrupt_node = call Event.question ctx.interrupt

  unfoldable pub approval_node : HumanApprovalStep → NodeFunction W D
  unfolding decided make_log_entry start_log auto_approves
  approval_node step gs =
      let auto = λ (message : String).
        start_log (human_approval step)
        ++ make_log_entry approval_auto step.step_id (message ∷ []) ∷ [] in
      if auto_approves ctx.config gs.plan
      then pure (decided step (auto "Approval auto-satisfied by trust level or catalog") "approved")
      else if ctx.has_approval_handler
      then (do
        decision ← interrupt_node
        pure (
            decided step
              (start_log (human_approval step)
                ++ make_log_entry approval_received step.step_id
                    ("Approval result: " ∷ decision ∷ [])
                  ∷ [])
              decision))
      else pure (decided step (auto "No approval handler — auto-approved") "approved")

  -- The state that the agent is shown
  unfoldable pub execution_state_of : GraphState D → ExecutionState
  execution_state_of gs = record {
    completed_steps = gs.completed_steps;
    current_step_index = length gs.completed_steps;
    captures = gs.captures;
  }

  unfoldable pub after_revised_node :
      RecoveryStep
      → Exec (EngineState W) (Option String)
      → Option String
      → Exec (EngineState W) (Option String)
  after_revised_node s rest none = rest
  after_revised_node s rest (some e) =
      pure (some (template ("Revised plan failed at step " ∷ step_id s ∷ ": " ∷ e ∷ [])))

  -- One round of the loop over the steps of a revised plan, which all see the same state
  unfoldable pub revised_round :
      Exec (EngineState W) GraphUpdate
      → RecoveryStep
      → Exec (EngineState W) (Option String)
      → Exec (EngineState W) (Option String)
  unfolding revised_failure
  revised_round run s rest = do
    update ← run
    after_revised_node s rest (revised_failure (last update.completed_steps))

  -- The loop: none, or the message of the first failure
  unfoldable pub revised_loop :
      (RecoveryStep → NodeFunction W D)
      → GraphState D
      → List RecoveryStep
      → Exec (EngineState W) (Option String)
  revised_loop create gs [] = pure none
  revised_loop create gs (s ∷ ss) = revised_round (create s gs) s (revised_loop create gs ss)

  unfoldable pub replanned :
      ReplanningCheckpointStep → List ExecutionLogEntry → Option String → GraphUpdate
  unfolding plain_update
  replanned step logs none =
      plain_update (make_step_result (replanning_checkpoint step) success) logs
  replanned step logs (some error) =
      record (plain_update (failure (replanning_checkpoint step) error) logs) {
        execution_outcome = some State.failed;
      }

  unfoldable pub apply_replan_node :
      (RecoveryStep → NodeFunction W D)
      → ReplanningCheckpointStep
      → GraphState D
      → List ExecutionLogEntry
      → ReplanResult
      → Exec (EngineState W) GraphUpdate
  unfolding replanned plain_update
  apply_replan_node create step gs logs keep_plan = pure (replanned step logs none)
  apply_replan_node create step gs logs (abort reason) =
      pure
        (record (plain_update
          (failure (replanning_checkpoint step)
            (template ("Replan aborted execution: " ∷ reason ∷ [])))
          logs) { execution_outcome = some aborted })
  apply_replan_node create step gs logs (revised_plan plan) = do
    error ← revised_loop create gs plan.steps
    pure (replanned step logs error)

  -- What the captures give is not used
  unfoldable pub replanning_node :
      (RecoveryStep → NodeFunction W D) → ReplanningCheckpointStep → NodeFunction W D
  unfolding execution_state_of make_log_entry start_log
  replanning_node create step gs = do
    answer ←
        call Event.replan (ctx.env.replan ctx.config.context gs.diagnosis (execution_state_of gs))
    apply_replan_node create step gs
        (start_log (replanning_checkpoint step)
          ++ make_log_entry replan_result step.step_id ("Replan result: " ∷ replan_name answer ∷ [])
            ∷ [])
        answer

  unfoldable pub enter_branch :
      RecoveryStep
      → String
      → List ExecutionLogEntry
      → Option (Exec (EngineState W) GraphUpdate)
      → Exec (EngineState W) GraphUpdate
  unfolding plain_update branch_update
  enter_branch step id logs none = pure (plain_update (make_step_result step skipped) logs)
  enter_branch step id logs (some branch) = do
    update ← branch
    pure (branch_update step id logs update)

  unfoldable pub choose_node :
      Exec (EngineState W) GraphUpdate
      → Option (NodeFunction W D)
      → GraphState D
      → Bool
      → Option (Exec (EngineState W) GraphUpdate)
  choose_node then_node else_node gs true = some then_node
  choose_node then_node none gs false = none
  choose_node then_node (some node) gs false = some (node gs)

  -- `makeConditionalNode`, with the nodes of its branches
  unfoldable pub conditional_node :
      RecoveryStep
      → ConditionalHead
      → NodeFunction W D
      → Option (NodeFunction W D)
      → NodeFunction W D
  unfolding make_log_entry start_log choose_node
  conditional_node step c then_node else_node gs = do
    met ← evaluate ctx.env ctx.config c.check
    enter_branch step c.step_id
        (start_log step
          ++ make_log_entry conditional_eval c.step_id
              ("Condition '" ∷ c.description ∷ "': " ∷ (if met then "TRUE" else "FALSE") ∷ [])
            ∷ [])
        (choose_node (then_node gs) else_node gs met)

  -- `createNodeForStep`; `create` makes the nodes for the steps of a revised plan
  unfoldable mutual
    pub create_node : (RecoveryStep → NodeFunction W D) → RecoveryStep → NodeFunction W D
    create_node create (diagnosis_action s) gs = diagnosis_node s
    create_node create (human_notification s) gs = notification_node s
    create_node create (checkpoint s) gs = checkpoint_node s
    create_node create (system_action s) gs = system_action_node ctx.env ctx.config s
    create_node create (human_approval s) gs = approval_node s gs
    create_node create (replanning_checkpoint s) gs = replanning_node create s gs
    create_node create (conditional c t e) gs =
        conditional_node (conditional c t e) c (create_node create t) (create_else create e) gs

    pub create_else : (RecoveryStep → NodeFunction W D) → ElseStep → Option (NodeFunction W D)
    create_else create skip = none
    create_else create (otherwise s) = some (create_node create s)

  -- The fuel bounds how deep revised plans are nested in one another.
  unfoldable pub node_for : ℕ → RecoveryStep → NodeFunction W D
  node_for zero step gs = diverge
  node_for (suc fuel) step gs = create_node (node_for fuel) step gs
