-- ===== src/Graph/Results.antt =====
-- The results that the graph engine returns, compared with the plan.
use crisismode.Base.{
  ℕ, zero, suc, Bool, true, false, ◌≡◌, refl, sym, ◌∙◌, ap, subst, Option, none, some, List, [],
  ◌∷◌, ◌++◌, last, not, append_assoc, append-nil, arith, if◌then◌else◌, last-append, last-cons,
}
use crisismode.Types.{RecoveryStep, RecoveryPlan, StepResult}
use crisismode.Engine.Effects.{Exec, Reply, resolved, rejected, Outcome, ok, threw, exhausted}
use crisismode.Engine.State.{EngineState}
use crisismode.Engine.Run.{halts}
use crisismode.Engine.Logic.{
  Meets, Meets-pure, Meets-if, Meets-bind, Meets-attempt, Holds, Replied, returning,
}
use crisismode.Engine.Follows.{OfStep, stops, Meets-then, halts-stops}
use crisismode.Graph.Flow.{Graph, Runtime, IsSequential, advance, follow}
use crisismode.Graph.State.{GraphState, GraphUpdate, reduce, initial_state, input_state}
use crisismode.Graph.Nodes.{NodeContext}
use crisismode.Graph.OneResult.{OneOf, node_for-OneOf}
use crisismode.Graph.Run.{
  wrapped_node, may_continue, goes_on, nodes_from, build_graph, final_results, stream_to_completion,
  execute_plan,
}

-- The results are those of first steps, in their order and one for each step, and none comes after
-- a result that halts the run.
abbrev pub Begins : List RecoveryStep → List StepResult → Type 0
Begins ss [] = Unit
Begins [] (r ∷ rs) = ⊥
Begins (s ∷ ss) (r ∷ rs) = OfStep s r × (if stops s r.status then rs ≡ [] else Begins ss rs)

-- The results, behind those that were there
abbrev pub Appends : List StepResult → List RecoveryStep → List StepResult → Type 0
Appends done ss results = (rs : List StepResult) × (results ≡ done ++ rs) × Begins ss rs

may_continue-stops :
    (s : RecoveryStep) (r : StepResult)
    → OfStep s r
    → may_continue (some r) ≡ not (stops s r.status)
unfolding may_continue halts
may_continue-stops s r of =
    subst (λ t. not (halts t r.status) ≡ not (stops s r.status)) (sym of)
      (ap not (halts-stops s r.status))

module _ {W D : Type 0} (ctx : NodeContext W D)
    (runtime : Runtime (EngineState W) (GraphState D) GraphUpdate)
    (sequential : IsSequential runtime)
    (reduces : (u : GraphUpdate) (v : GraphState D) → runtime.reduce u v ≡ reduce u v) where
  -- The last value has results that begin the steps, behind those it had.
  abbrev Extends : List StepResult → List RecoveryStep → List (GraphState D) → Type 0
  Extends done ss values =
      (g : GraphState D) × (rs : List StepResult) × (last values ≡ some g)
      × (g.completed_steps ≡ done ++ rs)
      × Begins ss rs

  abbrev R : {A : Type 0} → (A → Type 0) → Exec (EngineState W) A → Type 0
  R P m = Meets (returning P) m

  wrapped-OneOf :
      (fuel i : ℕ) (s : RecoveryStep) (gs : GraphState D)
      → R (OneOf s) (wrapped_node ctx fuel i s gs)
  unfolding wrapped_node
  wrapped-OneOf fuel i s gs = Meets-then _ _ _ λ _.
      Meets-bind _ (OneOf s) _ _ (node_for-OneOf ctx fuel s gs)
        λ u one. Meets-then _ _ _ λ _. Meets-pure _ _ one

  keep-Extends :
      (done : List StepResult) (s : RecoveryStep) (ss : List RecoveryStep) (r : StepResult)
      (v : GraphState D) (values : List (GraphState D))
      → OfStep s r
      → stops s r.status ≡ false
      → Extends (done ++ r ∷ []) ss values
      → Extends done (s ∷ ss) (v ∷ values)
  keep-Extends done s ss r v values of on (g, rs, at, eq, begins) =
      (g, r ∷ rs, last-cons v values g at, eq ∙ append_assoc done (r ∷ []) rs, (of, rw on begins))

  halt-Extends :
      (done : List StepResult) (s : RecoveryStep) (ss : List RecoveryStep) (r : StepResult)
      (v g : GraphState D)
      → OfStep s r
      → stops s r.status ≡ true
      → g.completed_steps ≡ done ++ r ∷ []
      → Extends done (s ∷ ss) (v ∷ g ∷ [])
  halt-Extends done s ss r v g of halt eq = (g, r ∷ [], refl, eq, (of, rw halt refl))

  -- What the node of a step with result `r` leaves
  after_node :
      (v : GraphState D) (u : GraphUpdate) (r : StepResult)
      → u.completed_steps ≡ r ∷ []
      → (runtime.reduce u v).completed_steps ≡ v.completed_steps ++ r ∷ []
  unfolding reduce
  after_node v u r one =
      ap GraphState.completed_steps (reduces u v) ∙ ap (λ l. v.completed_steps ++ l) one

  goes_on-stops :
      (s : RecoveryStep) (r : StepResult) (g : GraphState D) (done : List StepResult)
      → OfStep s r
      → g.completed_steps ≡ done ++ r ∷ []
      → goes_on g ≡ not (stops s r.status)
  unfolding goes_on
  goes_on-stops s r g done of eq = rw (eq, last-append done r) (may_continue-stops s r of)

  follow-Extends :
      (k : ℕ) (s : RecoveryStep) (ss : List RecoveryStep)
      (rest : Graph (EngineState W) (GraphState D) GraphUpdate) (v g : GraphState D)
      (r : StepResult)
      → OfStep s r
      → g.completed_steps ≡ v.completed_steps ++ r ∷ []
      → R (Extends g.completed_steps ss) (runtime.stream k rest g)
      → R
          (λ later. Extends v.completed_steps (s ∷ ss) (v ∷ later))
          (follow goes_on (runtime.stream k rest) g)
  unfolding follow
  follow-Extends k s ss rest v g r of eq h =
      Meets-if _ (goes_on g) _ _
        (λ on. record {
          at = λ st.
              weaken (runtime.stream k rest g st).0
                (not_true (stops s r.status)
                  (sym (goes_on-stops s r g v.completed_steps of eq) ∙ on))
                (h.at st);
        })
        λ off. Meets-pure _ _ (
          halt-Extends v.completed_steps s ss r v g of
            (not_false (stops s r.status) (sym (goes_on-stops s r g v.completed_steps of eq) ∙ off))
            eq)
    where
      not_true : (b : Bool) → not b ≡ true → b ≡ false
      not_true b h = ground arith

      not_false : (b : Bool) → not b ≡ false → b ≡ true
      not_false b h = ground arith

      weaken :
          (o : Outcome (List (GraphState D)))
          → stops s r.status ≡ false
          → Holds (returning (Extends g.completed_steps ss)) o
          → Holds
              (returning
                λ (later : List (GraphState D)). Extends v.completed_steps (s ∷ ss) (v ∷ later))
              o
      weaken (ok later) on x =
          keep-Extends v.completed_steps s ss r v later of on
            (subst (λ done. Extends done ss later) eq x)
      weaken (threw e) on x = tt
      weaken exhausted on x = tt

  advance-Extends :
      (k : ℕ) (s : RecoveryStep) (ss : List RecoveryStep)
      (rest : Graph (EngineState W) (GraphState D) GraphUpdate) (v : GraphState D)
      (reply : Reply GraphUpdate)
      → ((g : GraphState D) → R (Extends g.completed_steps ss) (runtime.stream k rest g))
      → Replied (OneOf s) reply
      → R
          (Extends v.completed_steps (s ∷ ss))
          (advance runtime.reduce runtime.is_interrupt goes_on (runtime.stream k rest) v reply)
  unfolding advance
  advance-Extends k s ss rest v (resolved u) h (r, (one, of)) =
      Meets-bind _ (λ later. Extends v.completed_steps (s ∷ ss) (v ∷ later)) _ _
        (follow-Extends k s ss rest v (runtime.reduce u v) r of (after_node v u r one)
          (h (runtime.reduce u v)))
        λ later x. Meets-pure _ _ x
  advance-Extends k s ss rest v (rejected e) h one =
      Meets-if _ (runtime.is_interrupt e) _ _
        (λ _. Meets-pure _ _ (v, [], refl, sym (append-nil v.completed_steps), tt))
        λ _. record { at = λ st. tt }

  nodes_from-Extends :
      (k fuel i : ℕ) (ss : List RecoveryStep) (gs : GraphState D)
      → R (Extends gs.completed_steps ss) (runtime.stream k (nodes_from ctx fuel i ss) gs)
  unfolding nodes_from
  nodes_from-Extends k fuel i [] gs =
      rw sequential.at_end (Meets-pure _ _ (gs, [], refl, sym (append-nil gs.completed_steps), tt))
  nodes_from-Extends zero fuel i (s ∷ ss) gs = record {
    at = λ st. rw (sequential.at_limit (wrapped_node ctx fuel i s) goes_on _ gs st).1 tt;
  }
  nodes_from-Extends (suc k) fuel i (s ∷ ss) gs = rw sequential.at_node (
      Meets-bind _ (Replied (OneOf s)) _ _ (Meets-attempt (OneOf s) _ (wrapped-OneOf fuel i s gs))
        (λ reply one. advance-Extends k s ss _ gs reply (nodes_from-Extends k fuel (suc i) ss) one))

  final-Begins :
      (done : List StepResult) (ss : List RecoveryStep) (values : List (GraphState D))
      → Extends done ss values
      → Appends done ss (final_results values)
  unfolding final_results
  final-Begins done ss values (g, rs, at, eq, begins) = (
    rs,
    subst (λ o. elim o [ none ↦ [] | some v ↦ v.completed_steps ] ≡ done ++ rs) (sym at) eq,
    begins,
  )

-- The results that are saved for a thread
abbrev pub saved_results : {D : Type 0} → Option (GraphState D) → List StepResult
saved_results none = []
saved_results (some g) = g.completed_steps

-- The graph engine, on a runtime that runs a graph's nodes one after the other, up to its limit of
-- super-steps, and reduces as the schema says: a run that returns gives the results that were saved
-- for the engine's thread before, and behind them the results of first steps of the plan, in order
-- and one for each step, and none behind a step that failed or an approval that was skipped.
pub execute_plan-Begins :
    {W D : Type 0} (ctx : NodeContext W D)
    (runtime : Runtime (EngineState W) (GraphState D) GraphUpdate) (fuel : ℕ)
    (saved : Option (GraphState D)) (plan : RecoveryPlan) (diagnosis : D) (s : EngineState W)
    (results : List StepResult)
    → IsSequential runtime
    → ((u : GraphUpdate) (v : GraphState D) → runtime.reduce u v ≡ reduce u v)
    → (execute_plan ctx runtime fuel saved plan diagnosis s).0 ≡ ok results
    → Appends (saved_results saved) plan.steps results
unfolding execute_plan stream_to_completion build_graph input_state
execute_plan-Begins {W} {D} ctx runtime fuel saved plan diagnosis s results sequential reduces r =
    by_saved saved r
  where
    from :
        (gs : GraphState D)
        → (stream_to_completion ctx runtime
            (runtime.stream runtime.recursion_limit (nodes_from ctx fuel 0 plan.steps) gs)
            s).0
          ≡ ok results
        → Appends gs.completed_steps plan.steps results
    from gs e = subst (Holds (returning (Appends gs.completed_steps plan.steps))) e (
        (Meets-bind (returning (Appends gs.completed_steps plan.steps))
            (Extends ctx runtime sequential reduces gs.completed_steps plan.steps) _ _
            (nodes_from-Extends ctx runtime sequential reduces runtime.recursion_limit fuel 0
              plan.steps gs)
            (λ values x. Meets-pure _ _ (
              final-Begins ctx runtime sequential reduces gs.completed_steps plan.steps values
                x))).at
          s)

    by_saved :
        (o : Option (GraphState D))
        → (execute_plan ctx runtime fuel o plan diagnosis s).0 ≡ ok results
        → Appends (saved_results o) plan.steps results
    by_saved none e = from (initial_state plan diagnosis) e
    by_saved (some g) e = from (record g { plan = plan; diagnosis = diagnosis }) e
