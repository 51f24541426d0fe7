-- ===== src/Graph/RollbackLaws.antt =====
-- What a rollback does with the backend, and the results that it gives.
use crisismode.Base.{
  ℕ, zero, suc, ◌≤◌, ◌<◌, String, length, true, arith, ◌≡◌, refl, sym, ◌∙◌, ap, subst, Option, none,
  some, List, [], ◌∷◌, ◌++◌, map, last, last-cons, All, flat_map, append_assoc, append-nil,
  map-append, ◌⊎◌, inl, inr,
}
use crisismode.Types.{
  Value, Command, RollbackType, RollbackDirective, automatic, manual, command, SystemActionStep,
  StepResult, rolled_back, failed, RecoveryStep, system_action,
}
use crisismode.Engine.Effects.{
  Exec, ok, threw, pure, attempt, Reply, resolved, rejected, ◌>>=◌, try_await,
}
use crisismode.Engine.State.{Env, Event, EngineState, call}
use crisismode.Graph.Flow.{Graph, node, Runtime, IsSequential, advance, follow, raise}
use crisismode.Graph.Rollback.{
  RollbackState, RollbackUpdate, reduce, initial_state, directive_of, rollback_result, rolled,
  not_rolled, after_rollback, logged_only, send, by_captures, roll_back, rollback_node,
  build_rollback_graph, last_results, final_of, stream_rollback, execute_rollback,
}
use crisismode.Graph.Stacks.{Undoable, Stacks, Stacks-extract, Stacks-Undoable}

-- The commands that a directive gives explicitly
abbrev pub explicit_commands : RollbackType → Option Command → List Command
explicit_commands command (some c) = c ∷ []
explicit_commands _ _ = []

abbrev pub directive_commands : Option RollbackDirective → List Command
directive_commands none = []
directive_commands (some d) = explicit_commands d.type d.command

abbrev pub step_commands : RecoveryStep → List Command
step_commands (system_action a) = directive_commands a.rollback
step_commands _ = []

abbrev pub commands_of : StepResult → List Command
commands_of r = step_commands r.step

-- One result for each action, with the action, and rolled back or failed
abbrev pub Covers : List StepResult → List StepResult → Type 0
Covers [] [] = Unit
Covers [] (q ∷ qs) = ⊥
Covers (r ∷ rs) [] = ⊥
Covers (r ∷ rs) (q ∷ qs) =
    (q.step ≡ r.step) × ((q.status ≡ rolled_back) ⊎ (q.status ≡ failed)) × Covers rs qs

-- One result, for the action of `r`
abbrev RollsOne : StepResult → RollbackUpdate → Type 0
RollsOne r u =
    (q : StepResult) × (u.rollback_results ≡ q ∷ [])
    × (q.step ≡ r.step)
    × ((q.status ≡ rolled_back) ⊎ (q.status ≡ failed))

module _ {W D : Type 0} (env : Env W D) where
  -- The action returns, with the commands added to the trace.
  abbrev pub Sends :
      {A : Type 0} → (A → Type 0) → List Command → Exec (EngineState W) A → EngineState W → Type 0
  Sends {A} P cs m s =
      (a : A) × (after : EngineState W) × (m s ≡ (ok a, after))
      × P a
      × (after.trace ≡ s.trace ++ map Event.command cs)

  traced :
      (s s1 s2 : EngineState W) (cs ds : List Command)
      → s1.trace ≡ s.trace ++ map Event.command cs
      → s2.trace ≡ s1.trace ++ map Event.command ds
      → s2.trace ≡ s.trace ++ map Event.command (cs ++ ds)
  traced s s1 s2 cs ds t1 t2 =
      t2
      ∙ ap (λ t. t ++ map Event.command ds) t1
      ∙ append_assoc s.trace (map Event.command cs) (map Event.command ds)
      ∙ ap (λ t. s.trace ++ t) (sym (map-append Event.command cs ds))

  send-Sends :
      (step : SystemActionStep) (d : RollbackDirective) (r : StepResult) (c : Command)
      (s : EngineState W)
      → Sends (RollsOne r) (c ∷ []) (send step d r env c) s
  unfolding send after_rollback rolled not_rolled rollback_result call attempt try_await ◌>>=◌
  send-Sends step d r c s = by_reply (env.execute_command c s.world)
    where
      by_reply :
          (x : Reply Value × W)
          → Sends
              (RollsOne r)
              (c ∷ [])
              (do
                reply ← attempt (call (Event.command c) (λ w. x))
                pure (after_rollback step d r reply))
              s
      by_reply (resolved v, w) = (_, _, refl, (_, refl, refl, inl refl), refl)
      by_reply (rejected e, w) = (_, _, refl, (_, refl, refl, inr refl), refl)

  roll_back-Sends :
      (step : SystemActionStep) (d : RollbackDirective) (r : StepResult) (t : RollbackType)
      (c : Option Command) (s : EngineState W)
      → Sends (RollsOne r) (explicit_commands t c) (roll_back step d r env none t c) s
  unfolding roll_back by_captures logged_only rolled rollback_result
  roll_back-Sends step d r command (some c) s = send-Sends step d r c s
  roll_back-Sends step d r command none s =
      (_, _, refl, (_, refl, refl, inl refl), sym (append-nil s.trace))
  roll_back-Sends step d r automatic c s =
      (_, _, refl, (_, refl, refl, inl refl), sym (append-nil s.trace))
  roll_back-Sends step d r manual c s =
      (_, _, refl, (_, refl, refl, inl refl), sym (append-nil s.trace))

  node-Sends :
      (r : StepResult) (v : RollbackState) (s : EngineState W)
      → Undoable r
      → Sends (RollsOne r) (commands_of r) (rollback_node env none r v) s
  unfolding rollback_node directive_of
  node-Sends r v s (a, d, is, has, _) =
      subst (λ t. Sends (RollsOne r) (step_commands t) (on_directive (directive_of t)) s) (sym is)
        (subst
          (λ o.
            Sends (RollsOne r) (directive_commands o)
              (on_directive (elim o [ none ↦ none | some x ↦ some (a, x) ])) s)
          (sym has) (roll_back-Sends a d r d.type d.command s))
    where
      on_directive :
          Option (SystemActionStep × RollbackDirective) → Exec (EngineState W) RollbackUpdate
      on_directive o = elim o [
        | none ↦ raise "Cannot read properties of undefined (reading 'description')"
        | some x ↦ roll_back x.0 x.1 r env none x.1.type x.1.command
      ]

  module _ (runtime : Runtime (EngineState W) RollbackState RollbackUpdate)
      (sequential : IsSequential runtime)
      (reduces : (u : RollbackUpdate) (v : RollbackState) → runtime.reduce u v ≡ reduce u v) where
    -- The last value has the results for the actions, behind those it had.
    abbrev Ends : List StepResult → List StepResult → List RollbackState → Type 0
    Ends done rs values =
        (g : RollbackState) × (qs : List StepResult) × (last values ≡ some g)
        × (g.rollback_results ≡ done ++ qs)
        × Covers rs qs

    joined :
        (v : RollbackState) (u : RollbackUpdate) (q : StepResult) (qs : List StepResult)
        (g : RollbackState)
        → u.rollback_results ≡ q ∷ []
        → g.rollback_results ≡ (runtime.reduce u v).rollback_results ++ qs
        → g.rollback_results ≡ v.rollback_results ++ q ∷ qs
    unfolding reduce
    joined v u q qs g one eq =
        eq
        ∙ ap (λ w. w.rollback_results ++ qs) (reduces u v)
        ∙ ap (λ l. (v.rollback_results ++ l) ++ qs) one
        ∙ append_assoc v.rollback_results (q ∷ []) qs

    -- A node that returns, with an edge that is always taken, and then the rest
    node-runs :
        (f : RollbackState → Exec (EngineState W) RollbackUpdate)
        (rest : Graph (EngineState W) RollbackState RollbackUpdate) (k : ℕ) (v : RollbackState)
        (u : RollbackUpdate) (values : List RollbackState) (s s1 s2 : EngineState W)
        → f v s ≡ (ok u, s1)
        → runtime.stream k rest (runtime.reduce u v) s1 ≡ (ok values, s2)
        → runtime.stream (suc k) (node f (λ w. true) rest) v s ≡ (ok (v ∷ values), s2)
    unfolding attempt try_await ◌>>=◌ advance follow
    node-runs f rest k v u values s s1 s2 e1 e2 =
        ap (λ (m : Exec (EngineState W) (List RollbackState)). m s)
          (sequential.at_node k f (λ w. true) rest v)
        ∙ rw e1 (rw e2 refl)

    stream-Sends :
        (k : ℕ) (rs : List StepResult) (v : RollbackState) (s : EngineState W)
        → All Undoable rs
        → length rs ≤ k
        → Sends
            (Ends v.rollback_results rs)
            (flat_map commands_of rs)
            (runtime.stream k (build_rollback_graph env none rs) v)
            s
    unfolding build_rollback_graph
    stream-Sends k [] v s h enough = rw sequential.at_end (
      v ∷ [],
      s,
      refl,
      (v, [], refl, sym (append-nil v.rollback_results), tt),
      sym (append-nil s.trace),
    )
    stream-Sends zero (r ∷ rs) v s h enough = absurd (omega arith)
    stream-Sends (suc k) (r ∷ rs) v s h enough =
        let (u, s1, e1, (q, one, of, status), t1) = node-Sends r v s h.0 in
        let (values, s2, e2, (g, qs, at, eq, covers), t2) =
          stream-Sends k rs (runtime.reduce u v) s1 h.1 (omega arith) in
        (
          v ∷ values,
          s2,
          node-runs _ _ k v u values s s1 s2 e1 e2,
          (g, q ∷ qs, last-cons v values g at, joined v u q qs g one eq, (of, status, covers)),
          traced s s1 s2 (commands_of r) (flat_map commands_of rs) t1 t2,
        )

    stream-rejects :
        (k : ℕ) (rs : List StepResult) (v : RollbackState) (s : EngineState W)
        → All Undoable rs
        → k < length rs
        → (error : String) × ((runtime.stream k (build_rollback_graph env none rs) v s).0
            ≡ threw error)
    unfolding build_rollback_graph attempt try_await ◌>>=◌ advance follow
    stream-rejects k [] v s h short = absurd (omega arith)
    stream-rejects zero (r ∷ rs) v s h short = sequential.at_limit _ _ _ v s
    stream-rejects (suc k) (r ∷ rs) v s h short =
        let (u, s1, e1, _, _) = node-Sends r v s h.0 in
        let (error, e2) = stream-rejects k rs (runtime.reduce u v) s1 h.1 (omega arith) in
        (
          error,
          rw
              (
                sequential.at_node k (rollback_node env none r) (λ w. true)
                    (build_rollback_graph env none rs) v,
                e1,
                e2,
              )
              refl,
        )

final-Covers :
    (rs : List StepResult) (values : List RollbackState) (g : RollbackState) (qs : List StepResult)
    → last values ≡ some g
    → g.rollback_results ≡ qs
    → Covers rs qs
    → Covers rs (last_results values).0
unfolding last_results final_of
final-Covers rs values g qs at eq covers =
    subst (λ o. Covers rs (final_of o).0) (sym at) (subst (Covers rs) (sym eq) covers)

-- A rollback without a capture store, of a run in which no more actions can be undone than the
-- runtime has super-steps, always returns: with one result for each action that succeeded and has a
-- rollback directive, the last such action first, rolled back or failed; and it has sent the
-- explicit commands of these directives, in that order, whichever of them failed. The runtime is
-- assumed to run the nodes of a graph one after the other and to reduce as the schema says.
pub execute_rollback-Sends :
    {W D : Type 0} (env : Env W D) (runtime : Runtime (EngineState W) RollbackState RollbackUpdate)
    (completed stack : List StepResult) (s : EngineState W)
    → IsSequential runtime
    → ((u : RollbackUpdate) (v : RollbackState) → runtime.reduce u v ≡ reduce u v)
    → Stacks completed stack
    → length stack ≤ runtime.recursion_limit
    → Sends env
        (λ answer. Covers stack answer.0)
        (flat_map commands_of stack)
        (execute_rollback env none runtime completed)
        s
unfolding execute_rollback stream_rollback initial_state ◌>>=◌
execute_rollback-Sends {W} {D} env runtime completed stack s sequential reduces stacks enough =
    rw (Stacks-extract stacks) (by_steps stack (Stacks-Undoable stacks) enough)
  where
    by_steps :
        (rs : List StepResult)
        → All Undoable rs
        → length rs ≤ runtime.recursion_limit
        → Sends env
            (λ answer. Covers rs answer.0)
            (flat_map commands_of rs)
            (stream_rollback env none runtime rs)
            s
    by_steps [] h k = (_, s, refl, tt, sym (append-nil s.trace))
    by_steps (r ∷ rs) h k =
        let (values, s2, e, (g, qs, at, eq, covers), t) =
          stream-Sends env runtime sequential reduces runtime.recursion_limit (r ∷ rs)
            (initial_state (r ∷ rs)) s h k in
        (last_results values, s2, rw e refl, final-Covers (r ∷ rs) values g qs at eq covers, t)

-- A rollback without a capture store, of a run in which more actions can be undone than the runtime
-- has super-steps, is rejected: no result comes back, not even those of the actions that are rolled
-- back by then. The runtime is assumed to run the nodes of a graph one after the other and to reduce
-- as the schema says.
pub execute_rollback-rejects :
    {W D : Type 0} (env : Env W D) (runtime : Runtime (EngineState W) RollbackState RollbackUpdate)
    (completed stack : List StepResult) (s : EngineState W)
    → IsSequential runtime
    → ((u : RollbackUpdate) (v : RollbackState) → runtime.reduce u v ≡ reduce u v)
    → Stacks completed stack
    → runtime.recursion_limit < length stack
    → (error : String) × ((execute_rollback env none runtime completed s).0 ≡ threw error)
unfolding execute_rollback stream_rollback ◌>>=◌
execute_rollback-rejects env runtime completed stack s sequential reduces stacks short =
    rw (Stacks-extract stacks) (by_steps stack (Stacks-Undoable stacks) short)
  where
    by_steps :
        (rs : List StepResult)
        → All Undoable rs
        → runtime.recursion_limit < length rs
        → (error : String) × ((stream_rollback env none runtime rs s).0 ≡ threw error)
    by_steps [] h k = absurd (omega arith)
    by_steps (r ∷ rs) h k =
        let (error, e) =
          stream-rejects env runtime sequential reduces runtime.recursion_limit (r ∷ rs)
            (initial_state (r ∷ rs)) s h k in
        (error, rw e refl)
