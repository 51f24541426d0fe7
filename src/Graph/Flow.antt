-- ===== src/Graph/Flow.antt =====
-- What the engine uses of `@langchain/langgraph`: sequential graphs of nodes that return updates,
-- and `stream` with the stream mode `values`. The runtime is a parameter; `IsSequential` states
-- what its documentation promises of such graphs.
use crisismode.Base.{ℕ, suc, String, Bool, List, [], ◌∷◌, if◌then◌else◌, ◌≡◌}
use crisismode.Engine.Effects.{Exec, pure, attempt, Reply, resolved, rejected, threw, ◌>>=◌}

-- A node, the test of the edge behind it (the next node, or `END`), and what follows
pub data Graph (S V U : Type 0) : Type 0 where
  end : Graph S V U
  node : (V → Exec S U) → (V → Bool) → Graph S V U → Graph S V U

-- `throw`
abbrev pub raise : {S A : Type 0} → String → Exec S A
raise e s = (threw e, s)

-- A runtime, for a state schema with values `V`, updates `U` and its reducers
pub record Runtime (S V U : Type 0) : Type 0 where
  pub reduce : U → V → V
  -- The super-steps that a run has for nodes where the caller sets no `recursionLimit`
  pub recursion_limit : ℕ
  -- The values that `stream` emits, from the first on, with a limit on the super-steps
  pub stream : ℕ → Graph S V U → V → Exec S (List V)
  -- The error that `interrupt` throws
  pub is_interrupt : String → Bool

module _ {S V : Type 0} where
  -- What follows on a node that has returned, given the stream of the rest
  unfoldable pub follow : (V → Bool) → (V → Exec S (List V)) → V → Exec S (List V)
  follow edge rest v = if edge v then rest v else pure (v ∷ [])

  -- A node that interrupts ends the stream; any other error rejects it.
  unfoldable pub advance :
      {U : Type 0}
      → (U → V → V)
      → (String → Bool)
      → (V → Bool)
      → (V → Exec S (List V))
      → V
      → Reply U
      → Exec S (List V)
  unfolding follow
  advance reduce is_interrupt edge rest v (resolved u) = do
    later ← follow edge rest (reduce u v)
    pure (v ∷ later)
  advance reduce is_interrupt edge rest v (rejected e) =
      if is_interrupt e then pure (v ∷ []) else raise e

module _ {S V U : Type 0} (runtime : Runtime S V U) where
  -- The nodes run one after the other, each on the values that its predecessors left and in a
  -- super-step of its own. A graph with more nodes to run than super-steps is left rejects.
  pub record IsSequential : Type 0 where
    pub at_end : (k : ℕ) (v : V) → runtime.stream k end v ≡ pure (v ∷ [])
    pub at_node :
        (k : ℕ) (f : V → Exec S U) (edge : V → Bool) (rest : Graph S V U) (v : V)
        → runtime.stream (suc k) (node f edge rest) v ≡ (
            attempt (f v) >>= λ (reply : Reply U).
            advance runtime.reduce runtime.is_interrupt edge (runtime.stream k rest) v reply)
    pub at_limit :
        (f : V → Exec S U) (edge : V → Bool) (rest : Graph S V U) (v : V) (s : S)
        → (error : String) × ((runtime.stream 0 (node f edge rest) v s).0 ≡ threw error)
