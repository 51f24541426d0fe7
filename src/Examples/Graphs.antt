-- ===== src/Examples/Graphs.antt =====
-- The graph engine and the rollback, on a runtime that is written out.
use crisismode.Base.{
  ℕ, zero, suc, Option, ap, ◌∙◌, ◌++◌, arith, String, Bool, false, ◌≡◌, refl, none, some, List, [],
  ◌∷◌, flat_map, ◌==◌,
}
use crisismode.Types.{
  RecoveryStep, execute, RollbackDirective, command, system_action, diagnosis_action, RecoveryPlan,
  StepResult, success, failed,
}
use crisismode.Engine.Effects.{Exec, ok, threw, pure, attempt, Reply, rejected, try_await, ◌>>=◌}
use crisismode.Engine.State.{make_step_result, call, notify, add_step_result}
use crisismode.Graph.Flow.{raise, Graph, end, node, Runtime, IsSequential, advance, follow}
use crisismode.Graph.State
use crisismode.Graph.State.{
  input_state, GraphState, GraphUpdate, initial_state, plain_update, make_log_entry, merge,
}
use crisismode.Engine.Run.{is_failed_status, is_skipped_approval}
use crisismode.Graph.Nodes.{NodeContext, node_for, create_node, diagnosis_node, after_diagnosis}
use crisismode.Graph.Nodes.Action.{start_log}
use crisismode.Graph.Run.{
  execute_plan, stream_to_completion, final_results, build_graph, nodes_from, wrapped_node,
  report_results, goes_on, may_continue,
}
use crisismode.Graph.Results.{Appends, execute_plan-Begins}
use crisismode.Graph.Rollback
use crisismode.Graph.Rollback.{
  RollbackState, RollbackUpdate, extract_rollback_steps, execute_rollback,
}
use crisismode.Graph.Stacks.{Undoable, Stacks, nothing, pushed, passed}
use crisismode.Graph.RollbackLaws.{
  execute_rollback-rejects, Sends, Covers, commands_of, execute_rollback-Sends,
}
use crisismode.Examples.Data.{failover, promote, inspect, plan_of, refusing, config, initial}

-- A runtime that runs a graph by recursion
abbrev run :
    {S V U : Type 0} → (U → V → V) → (String → Bool) → ℕ → Graph S V U → V → Exec S (List V)
run reduce is_interrupt k end v = pure (v ∷ [])
run reduce is_interrupt zero (node f edge rest) v = raise "Recursion limit reached"
run reduce is_interrupt (suc k) (node f edge rest) v = attempt (f v) >>= λ (reply : Reply _).
    advance reduce is_interrupt edge (run reduce is_interrupt k rest) v reply

abbrev runtime : {S V U : Type 0} → ℕ → (U → V → V) → Runtime S V U
runtime limit reduce = record {
  reduce = reduce;
  recursion_limit = limit;
  stream = run reduce (λ e. e == "interrupt");
  is_interrupt = λ e. e == "interrupt";
}

runtime-IsSequential :
    {S V U : Type 0} (limit : ℕ) (reduce : U → V → V) → IsSequential (runtime {S = S} limit reduce)
runtime-IsSequential limit reduce = record {
  at_end = λ k v. refl;
  at_node = λ k f edge rest v. refl;
  at_limit = λ f edge rest v s. ("Recursion limit reached", refl);
}

abbrev graph_context : NodeContext ℕ (Unit {0})
graph_context = record {
  env = refusing;
  config = config execute;
  has_approval_handler = false;
  interrupt = λ w. (rejected "interrupt", w);
}

-- The backend refuses the command of the diagnosis, which ends the run.
abbrev inspecting : RecoveryPlan
inspecting = plan_of (diagnosis_action inspect ∷ system_action promote ∷ [])

abbrev refused : List StepResult
refused =
    record (make_step_result (diagnosis_action inspect) failed) {
      error = some "connection refused";
    }
    ∷ []

-- What an earlier run has left in the thread
abbrev earlier : GraphState (Unit {0})
earlier = record (initial_state inspecting tt) { completed_steps = refused }

refused-execute_plan :
    (execute_plan graph_context (runtime 25 State.reduce) 1 (some earlier) inspecting tt initial).0
    ≡ ok (refused ++ refused)
unfolding execute_plan stream_to_completion final_results build_graph initial_state input_state
    nodes_from wrapped_node report_results node_for create_node diagnosis_node after_diagnosis
    plain_update start_log make_log_entry call attempt try_await ◌>>=◌ advance follow goes_on
    may_continue is_failed_status is_skipped_approval State.reduce merge notify add_step_result
refused-execute_plan = refl

execute_plan-Begins_example : Appends refused inspecting.steps (refused ++ refused)
execute_plan-Begins_example =
    execute_plan-Begins graph_context (runtime 25 State.reduce) 1 (some earlier) inspecting tt
      initial (refused ++ refused) (runtime-IsSequential 25 State.reduce) (λ u v. refl)
      refused-execute_plan

-- Two actions that were done and can be undone
abbrev undo : String → RollbackDirective
undo what = record {
  type = command;
  description = what;
  estimated_duration = none;
  command = some failover;
}

abbrev undone : String → StepResult
undone what =
    make_step_result (system_action (record promote { rollback = some (undo what) })) success

abbrev kept : StepResult
kept = make_step_result (system_action promote) success

abbrev completed : List StepResult
completed = undone "demote" ∷ kept ∷ undone "fail back" ∷ []

abbrev stack : List StepResult
stack = undone "fail back" ∷ undone "demote" ∷ []

undone-Undoable : (what : String) → Undoable (undone what)
undone-Undoable what = (_, _, refl, refl, refl)

none≢some : {A : Type 0} {a : A} → none ≡ some a → ⊥
none≢some h = ground arith

kept-Undoable : Undoable kept → ⊥
kept-Undoable (a, d, is, has, _) = none≢some (ap rollback_of is ∙ has)
  where
    rollback_of : RecoveryStep → Option RollbackDirective
    rollback_of (system_action a) = a.rollback
    rollback_of _ = none

completed-Stacks : Stacks completed stack
completed-Stacks =
    pushed (undone "fail back")
      (passed kept (pushed (undone "demote") nothing (undone-Undoable "demote")) kept-Undoable)
      (undone-Undoable "fail back")

execute_rollback-Sends_example :
    Sends refusing
      (λ answer. Covers stack answer.0)
      (flat_map commands_of stack)
      (execute_rollback refusing none (runtime 25 Rollback.reduce) completed)
      initial
execute_rollback-Sends_example =
    execute_rollback-Sends refusing (runtime 25 Rollback.reduce) completed stack initial
      (runtime-IsSequential 25 Rollback.reduce) (λ u v. refl) completed-Stacks (omega arith)

execute_rollback-rejects_example :
    (error : String) × ((execute_rollback refusing none
        (runtime 1 Rollback.reduce)
        completed
        initial).0
      ≡ threw error)
execute_rollback-rejects_example =
    execute_rollback-rejects refusing (runtime 1 Rollback.reduce) completed stack initial
      (runtime-IsSequential 1 Rollback.reduce) (λ u v. refl) completed-Stacks (omega arith)
