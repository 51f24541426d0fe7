-- ===== src/Graph/Run.antt =====
-- `RecoveryGraphEngine` of src/framework/graph-engine.ts.
use crisismode.Base.{ℕ, suc, Bool, true, Option, none, some, List, [], ◌∷◌, last, not, ◌||◌}
use crisismode.Types.{RecoveryStep, RecoveryPlan, StepResult}
use crisismode.Engine.Effects.{Exec, pure, ◌>>=◌, ◌>>◌}
use crisismode.Engine.State.{Callback, EngineState, notify, add_step_result}
use crisismode.Engine.Run.{is_failed_status, is_skipped_approval}
use crisismode.Graph.Flow.{Graph, end, node, Runtime}
use crisismode.Graph.State.{GraphState, GraphUpdate, input_state}
use crisismode.Graph.Nodes.{NodeContext, NodeFunction, node_for}

-- The test on the result that was added last
unfoldable pub may_continue : Option StepResult → Bool
may_continue none = true
may_continue (some r) = not (is_failed_status r.status || is_skipped_approval r.step r.status)

-- The edge behind a node: on to the next node, or to the end
unfoldable pub goes_on : {D : Type 0} → GraphState D → Bool
unfolding may_continue
goes_on gs = may_continue (last gs.completed_steps)

-- The results of the last value
unfoldable pub final_results : {D : Type 0} → List (GraphState D) → List StepResult
final_results values = elim (last values) [ none ↦ [] | some gs ↦ gs.completed_steps ]

module _ {W D : Type 0} (ctx : NodeContext W D) where
  -- `onStepComplete` and the recorder, for each result of a node
  unfoldable pub report_results : RecoveryStep → List StepResult → Exec (EngineState W) (Unit {0})
  report_results step [] = pure tt
  report_results step (r ∷ rs) = do
    notify (Callback.step_complete step r)
    add_step_result r
    report_results step rs

  unfoldable pub wrapped_node : ℕ → ℕ → RecoveryStep → NodeFunction W D
  unfolding report_results
  wrapped_node fuel i step gs = do
    notify (Callback.step_start step (some i))
    update ← node_for ctx fuel step gs
    report_results step update.completed_steps
    pure update

  -- The nodes from index `i` on. Behind the last one the graph ends whatever the result is.
  unfoldable pub nodes_from :
      ℕ → ℕ → List RecoveryStep → Graph (EngineState W) (GraphState D) GraphUpdate
  unfolding goes_on
  nodes_from fuel i [] = end
  nodes_from fuel i (s ∷ ss) = node (wrapped_node fuel i s) goes_on (nodes_from fuel (suc i) ss)

  -- `buildGraph`. The node `noop` of a plan without steps changes nothing and is left out.
  unfoldable pub build_graph : ℕ → RecoveryPlan → Graph (EngineState W) (GraphState D) GraphUpdate
  build_graph fuel plan = nodes_from fuel 0 plan.steps

  module _ (runtime : Runtime (EngineState W) (GraphState D) GraphUpdate) where
    unfoldable pub stream_to_completion :
        Exec (EngineState W) (List (GraphState D)) → Exec (EngineState W) (List StepResult)
    unfolding final_results
    stream_to_completion stream = do values ← stream; pure (final_results values)

    -- `executePlan`, given what the checkpointer holds for the thread of the engine
    unfoldable pub execute_plan :
        ℕ → Option (GraphState D) → RecoveryPlan → D → Exec (EngineState W) (List StepResult)
    execute_plan fuel saved plan diagnosis = stream_to_completion (
        runtime.stream runtime.recursion_limit (build_graph fuel plan)
          (input_state saved plan diagnosis))
