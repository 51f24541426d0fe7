-- ===== src/Graph/OneResult.antt =====
-- Every node returns one result, and that of its step.
use crisismode.Base.{
  ℕ, zero, suc, String, Bool, true, false, ◌≡◌, refl, Option, none, some, List, [], ◌∷◌, ◌++◌,
  if◌then◌else◌, ◌==◌,
}
use crisismode.Types.{
  RecoveryStep, SystemActionStep, DiagnosisActionStep, HumanApprovalStep, ReplanningCheckpointStep,
  Value, PreCondition, ExecutionLogEntry, CapabilityProviderResolution, system_action,
  diagnosis_action, human_notification, human_approval, checkpoint, replanning_checkpoint,
  conditional, StepResult, success, skipped,
}
use crisismode.Providers.Resolve.{StepProviderResolution}
use crisismode.Engine.Effects.{Exec, pure, Reply, resolved, rejected}
use crisismode.Engine.State.{
  EngineState, Env, Config, make_step_result, ReplanResult, keep_plan, revised_plan, abort,
}
use crisismode.Engine.Action.{fail, fail_resolved}
use crisismode.Engine.Logic.{Meets, Meets-pure, returning}
use crisismode.Engine.Follows.{OfStep, Meets-then, meets_rules}
use crisismode.Engine.Steps.{failure}
use crisismode.Engine.Run.{is_failed_status}
use crisismode.Graph.State
use crisismode.Graph.State.{aborted, GraphState, GraphUpdate, plain_update}
use crisismode.Graph.Nodes.{
  NodeContext, NodeFunction, decided, after_diagnosis, diagnosis_node, notification_node,
  checkpoint_update, checkpoint_node, approval_node, replanned, apply_replan_node, replanning_node,
  branch_update, first_status, enter_branch, conditional_node, create_node, node_for,
}
use crisismode.Graph.Nodes.Action.{
  failed_update, checked, finish_node, after_command_node, dry_run_node, send_node, command_node,
  after_precondition, preconditions_node, captures_node, after_resolution, system_action_node,
}

-- An update with one result, and that of the step
abbrev pub OneOf : RecoveryStep → GraphUpdate → Type 0
OneOf step u = (r : StepResult) × ((u.completed_steps ≡ r ∷ []) × OfStep step r)

module _ {W D : Type 0} (env : Env W D) (cfg : Config W) (s : SystemActionStep) where
  abbrev R : Exec (EngineState W) GraphUpdate → Type 0
  R m = Meets (returning (OneOf (system_action s))) m

  checked-OneOf :
      (c : List CapabilityProviderResolution) (l : List ExecutionLogEntry) (o : Value) (b : Bool)
      → OneOf (system_action s) (checked env cfg s c l o b)
  unfolding checked plain_update failed_update
  checked-OneOf c l o true = (_, (refl, refl))
  checked-OneOf c l o false = (_, (refl, refl))

  failed-OneOf :
      (e : String) (c : List CapabilityProviderResolution) (l : List ExecutionLogEntry)
      → R (pure (failed_update s (fail_resolved s e c) l))
  unfolding failed_update plain_update fail_resolved
  failed-OneOf e c l = Meets-pure _ _ (_, (refl, refl))

  finish-OneOf :
      (c : List CapabilityProviderResolution) (l : List ExecutionLogEntry) (o : Value)
      → R (finish_node env cfg s c l o)
  unfolding finish_node
  finish-OneOf c l o =
      Meets-then _ _ _ λ _. Meets-then _ _ _ λ p. Meets-pure _ _ (checked-OneOf c _ o p)

  after_command-OneOf :
      (c : List CapabilityProviderResolution) (l : List ExecutionLogEntry) (r : Reply Value)
      → R (after_command_node env cfg s c l r)
  unfolding after_command_node
  after_command-OneOf c l (resolved o) = finish-OneOf c _ o
  after_command-OneOf c l (rejected e) = failed-OneOf _ c _

  dry_run-OneOf :
      (c : List CapabilityProviderResolution) (l : List ExecutionLogEntry)
      → R (dry_run_node env cfg s c l)
  unfolding dry_run_node plain_update
  dry_run-OneOf c l = Meets-then _ _ _ λ _. Meets-pure _ _ (_, (refl, refl))

  command-OneOf :
      (c : List CapabilityProviderResolution) (l : List ExecutionLogEntry)
      → R (command_node env cfg s c l)
  unfolding command_node send_node
  command-OneOf c l = search (meets_rules, after_command-OneOf c l, dry_run-OneOf c l) depth 8

  after_precondition-OneOf :
      (c : List CapabilityProviderResolution) (l : List ExecutionLogEntry) (p : PreCondition)
      (rest : List ExecutionLogEntry → Exec (EngineState W) GraphUpdate) (b : Bool)
      → ((m : List ExecutionLogEntry) → R (rest m))
      → R (after_precondition env cfg s c l p rest b)
  unfolding after_precondition
  after_precondition-OneOf c l p rest true h = h _
  after_precondition-OneOf c l p rest false h = failed-OneOf _ c _

  preconditions-OneOf :
      (c : List CapabilityProviderResolution) (ps : List PreCondition) (l : List ExecutionLogEntry)
      → R (preconditions_node env cfg s c ps l)
  unfolding preconditions_node
  preconditions-OneOf c [] l = command-OneOf c l
  preconditions-OneOf c (p ∷ ps) l = Meets-then _ _ _ λ b.
      after_precondition-OneOf c l p (preconditions_node env cfg s c ps) b
        (preconditions-OneOf c ps)

  captures-OneOf :
      (c : List CapabilityProviderResolution) (l : List ExecutionLogEntry)
      → R (captures_node env cfg s c l)
  unfolding captures_node
  captures-OneOf c l = search (meets_rules, failed-OneOf, preconditions-OneOf) depth 8

  resolution-OneOf : (r : StepProviderResolution) → R (after_resolution env cfg s r)
  unfolding after_resolution
  resolution-OneOf r = search (meets_rules, failed-OneOf, captures-OneOf) depth 8

  blast-OneOf : (e : String) (l : List ExecutionLogEntry) → R (pure (failed_update s (fail s e) l))
  unfolding failed_update plain_update fail
  blast-OneOf e l = Meets-pure _ _ (_, (refl, refl))

  action-OneOf : R (system_action_node env cfg s)
  unfolding system_action_node
  action-OneOf = search (meets_rules, blast-OneOf, resolution-OneOf) depth 8

module _ {W D : Type 0} (ctx : NodeContext W D) where
  -- The node of a step
  abbrev Of : RecoveryStep → Exec (EngineState W) GraphUpdate → Type 0
  Of s m = Meets (returning (OneOf s)) m

  decided-OneOf :
      (s : HumanApprovalStep) (l : List ExecutionLogEntry) (d : String)
      → OneOf (human_approval s) (decided s l d)
  unfolding decided plain_update
  decided-OneOf s l d = by_tests (d == "rejected") (d == "skipped")
    where
      by_tests :
          (a b : Bool)
          → OneOf (human_approval s) (
              if a
              then record (plain_update (failure (human_approval s) "Human rejected the step") l) {
                execution_outcome = some State.failed;
              }
              else if b
              then record (plain_update (make_step_result (human_approval s) skipped) l) {
                execution_outcome = some aborted;
              }
              else plain_update (make_step_result (human_approval s) success) l)
      by_tests true b = (_, (refl, refl))
      by_tests false true = (_, (refl, refl))
      by_tests false false = (_, (refl, refl))

  approval-OneOf :
      (s : HumanApprovalStep) (gs : GraphState D) → Of (human_approval s) (approval_node ctx s gs)
  unfolding approval_node
  approval-OneOf s gs = search (meets_rules, decided-OneOf) depth 8

  diagnosis-OneOf :
      (s : DiagnosisActionStep) (r : Reply Value)
      → OneOf (diagnosis_action s) (after_diagnosis ctx s r)
  unfolding after_diagnosis plain_update
  diagnosis-OneOf s (resolved o) = (_, (refl, refl))
  diagnosis-OneOf s (rejected e) = (_, (refl, refl))

  replanned-OneOf :
      (s : ReplanningCheckpointStep) (l : List ExecutionLogEntry) (o : Option String)
      → OneOf (replanning_checkpoint s) (replanned ctx s l o)
  unfolding replanned plain_update
  replanned-OneOf s l none = (_, (refl, refl))
  replanned-OneOf s l (some e) = (_, (refl, refl))

  apply-OneOf :
      (create : RecoveryStep → NodeFunction W D) (s : ReplanningCheckpointStep) (gs : GraphState D)
      (l : List ExecutionLogEntry) (a : ReplanResult)
      → Of (replanning_checkpoint s) (apply_replan_node ctx create s gs l a)
  unfolding apply_replan_node plain_update
  apply-OneOf create s gs l keep_plan = Meets-pure _ _ (replanned-OneOf s l none)
  apply-OneOf create s gs l (abort e) = Meets-pure _ _ (_, (refl, refl))
  apply-OneOf create s gs l (revised_plan p) =
      Meets-then _ _ _ λ o. Meets-pure _ _ (replanned-OneOf s l o)

  branch-OneOf :
      (step : RecoveryStep) (id : String) (l : List ExecutionLogEntry) (u : GraphUpdate)
      → OneOf step (branch_update step id l u)
  unfolding branch_update plain_update
  branch-OneOf step id l u = by_test (is_failed_status (first_status u.completed_steps))
    where
      by_test :
          (b : Bool)
          → OneOf step (
              let update =
                plain_update
                  (make_step_result step (first_status u.completed_steps))
                  (l ++ u.forensic_log) in
              if b
              then record update { execution_outcome = some State.failed; failed_step_id = some id }
              else update)
      by_test true = (_, (refl, refl))
      by_test false = (_, (refl, refl))

  enter-OneOf :
      (step : RecoveryStep) (id : String) (l : List ExecutionLogEntry)
      (o : Option (Exec (EngineState W) GraphUpdate))
      → Of step (enter_branch ctx step id l o)
  unfolding enter_branch plain_update
  enter-OneOf step id l none = Meets-pure _ _ (_, (refl, refl))
  enter-OneOf step id l (some m) = Meets-then _ _ _ λ u. Meets-pure _ _ (branch-OneOf step id l u)

  pub create-OneOf :
      (create : RecoveryStep → NodeFunction W D) (s : RecoveryStep) (gs : GraphState D)
      → Of s (create_node ctx create s gs)
  unfolding create_node diagnosis_node notification_node checkpoint_node checkpoint_update
      replanning_node conditional_node plain_update
  create-OneOf create (diagnosis_action s) gs =
      Meets-then _ _ _ λ r. Meets-pure _ _ (diagnosis-OneOf s r)
  create-OneOf create (human_notification s) gs = Meets-pure _ _ (_, (refl, refl))
  create-OneOf create (checkpoint s) gs = Meets-then _ _ _ λ now. Meets-pure _ _ (_, (refl, refl))
  create-OneOf create (system_action s) gs = action-OneOf ctx.env ctx.config s
  create-OneOf create (human_approval s) gs = approval-OneOf s gs
  create-OneOf create (replanning_checkpoint s) gs =
      Meets-then _ _ _ λ a. apply-OneOf create s gs _ a
  create-OneOf create (conditional c t e) gs =
      Meets-then _ _ _ λ b. enter-OneOf (conditional c t e) c.step_id _ _

  pub node_for-OneOf :
      (fuel : ℕ) (s : RecoveryStep) (gs : GraphState D) → Of s (node_for ctx fuel s gs)
  unfolding node_for
  node_for-OneOf zero s gs = record { at = λ st. tt }
  node_for-OneOf (suc fuel) s gs = create-OneOf (node_for ctx fuel) s gs
