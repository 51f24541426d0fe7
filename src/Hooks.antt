-- ===== src/Hooks.antt =====
-- The lifecycle hooks of src/framework/hooks: `types.ts` and `registry.ts`. A handler acts on the
-- world `W` outside the program; it may return a result, return nothing, or throw.
pub mod Order
use crisismode.Base.{
  ℕ, String, Bool, true, false, ◌&&◌, Option, none, some, List, [], ◌∷◌, ◌++◌, map, any, filter,
  find, is_empty, not, leb, nat_eq, if◌then◌else◌, ◌==◌, or_else, is_some,
}
use crisismode.Types.{
  RecoveryPlan, RecoveryStep, StepResult, AgentManifest, AgentContext, ExecutionState,
  ExecutionMode,
}

pub data HookPoint : Type 0 where
  plan_validate plan_validated step_before step_after step_failed : HookPoint
  precondition_check approval_request capture_before recovery_complete : HookPoint

unfoldable pub point_index : HookPoint → ℕ
point_index plan_validate = 0
point_index plan_validated = 1
point_index step_before = 2
point_index step_after = 3
point_index step_failed = 4
point_index precondition_check = 5
point_index approval_request = 6
point_index capture_before = 7
point_index recovery_complete = 8

unfoldable pub same_point : HookPoint → HookPoint → Bool
unfolding point_index
same_point p q = nat_eq (point_index p) (point_index q)

-- The diagnosis is left out: no hook point of the engine gives one.
pub record HookContext : Type 0 where
  pub plan : Option RecoveryPlan
  pub step : Option RecoveryStep
  pub step_result : Option StepResult
  pub manifest : Option AgentManifest
  pub agent_context : Option AgentContext
  pub execution_state : Option ExecutionState
  pub mode : Option ExecutionMode

pub record HookResult : Type 0 where
  pub abort : Bool
  pub reason : Option String

pub data HookSource : Type 0 where
  builtin plugin playbook user : HookSource

unfoldable pub is_builtin_source : Option HookSource → Bool
is_builtin_source (some builtin) = true
is_builtin_source _ = false

-- `{}`
abbrev pub go_on : HookResult
go_on = record { abort = false; reason = none }

-- What becomes of the promise of a handler
pub data HandlerOutcome : Type 0 where
  resolved : Option HookResult → HandlerOutcome
  rejected : String → HandlerOutcome

abbrev pub HookHandler : Type 0 → Type 0
HookHandler W = HookContext → W → HandlerOutcome × W

pub record HookRegistration (W : Type 0) : Type 0 where
  pub name : String
  pub point : HookPoint
  pub priority : ℕ
  pub handler : HookHandler W
  pub source : Option HookSource

-- The map `hooks`: one entry for each point that has a hook
abbrev pub HookRegistry : Type 0 → Type 0
HookRegistry W = List (HookPoint × List (HookRegistration W))

module _ {W : Type 0} where
  unfoldable pub hooks_at : HookPoint → HookRegistry W → List (HookRegistration W)
  unfolding same_point
  hooks_at p [] = []
  hooks_at p ((q, l) ∷ m) = if same_point q p then l else hooks_at p m

  -- `this.hooks.set(point, list)`
  unfoldable pub set_hooks : HookPoint → List (HookRegistration W) → HookRegistry W → HookRegistry W
  unfolding same_point
  set_hooks p l [] = (p, l) ∷ []
  set_hooks p l ((q, k) ∷ m) = if same_point q p then (p, l) ∷ m else (q, k) ∷ set_hooks p l m

  -- The loops that filter every list and delete the entries that become empty
  unfoldable pub keep_hooks : (HookRegistration W → Bool) → HookRegistry W → HookRegistry W
  keep_hooks keep [] = []
  keep_hooks keep ((q, l) ∷ m) =
      let kept = filter keep l in
      let rest = keep_hooks keep m in if is_empty kept then rest else (q, kept) ∷ rest

  -- `list.sort((a, b) => a.priority - b.priority)`, a stable sort, by insertion: a hook goes behind
  -- those of its priority that stand before it.
  unfoldable pub insert_hook :
      HookRegistration W → List (HookRegistration W) → List (HookRegistration W)
  insert_hook r [] = r ∷ []
  insert_hook r (h ∷ hs) = if leb h.priority r.priority then h ∷ insert_hook r hs else r ∷ h ∷ hs

  unfoldable pub sort_onto :
      List (HookRegistration W) → List (HookRegistration W) → List (HookRegistration W)
  unfolding insert_hook
  sort_onto done [] = done
  sort_onto done (h ∷ hs) = sort_onto (insert_hook h done) hs

  unfoldable pub sort_hooks : List (HookRegistration W) → List (HookRegistration W)
  unfolding sort_onto
  sort_hooks hs = sort_onto [] hs

  unfoldable pub register : HookRegistration W → HookRegistry W → HookRegistry W
  unfolding hooks_at set_hooks keep_hooks sort_hooks
  register r m =
      let others = keep_hooks (λ h. not (h.name == r.name)) m in
      set_hooks r.point (sort_hooks (hooks_at r.point others ++ r ∷ [])) others

  -- The first hook of a list that has the name, and whether it is builtin
  unfoldable pub named_builtin : String → HookPoint × List (HookRegistration W) → Bool
  unfolding is_builtin_source
  named_builtin name (q, l) = elim (find (λ h. h.name == name) l) [
    | none ↦ false
    | some h ↦ is_builtin_source h.source
  ]

  unfoldable pub is_named : String → HookPoint × List (HookRegistration W) → Bool
  is_named name (q, l) = is_some (find (λ h. h.name == name) l)

  -- The loop returns false at the first list whose hook of that name is builtin.
  unfoldable pub unregister : String → HookRegistry W → HookRegistry W × Bool
  unfolding keep_hooks named_builtin is_named
  unregister name m =
      if any (named_builtin name) m
      then (m, false)
      else if not (any (is_named name) m)
      then (m, false)
      else (keep_hooks (λ h. not (h.name == name)) m, true)

  unfoldable pub clear : HookRegistry W → HookRegistry W
  unfolding keep_hooks is_builtin_source
  clear m = keep_hooks (λ h. is_builtin_source h.source) m

  -- The loop of `fire`: a handler that throws is passed over, and the first abort ends the loop.
  unfoldable pub run_hooks : List (HookRegistration W) → HookContext → W → HookResult × W
  run_hooks [] c w = (go_on, w)
  run_hooks (h ∷ hs) c w =
      let (outcome, w') = h.handler c w in
      let rest = run_hooks hs c w' in
      elim outcome [
        | rejected _ ↦ rest
        | resolved none ↦ rest
        | resolved (some r) ↦ if r.abort then (r, w') else rest
      ]

  unfoldable pub fire : HookPoint → HookContext → HookRegistry W → W → HookResult × W
  unfolding hooks_at run_hooks
  fire p c m w = run_hooks (hooks_at p m) c w
