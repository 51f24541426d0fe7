-- ===== src/Risk.antt =====
-- src/framework/risk.ts and step-walker.ts.
pub mod Bounds
pub mod Depth
use crisismode.Base.{
  ℕ, suc, zero, String, Bool, true, false, ◌≡◌, refl, Option, none, some, List, [], ◌∷◌, ◌++◌, max,
  ltb, leb, if◌then◌else◌, add,
}
use crisismode.Types.{
  RiskLevel, routine, elevated, high, critical, RecoveryStep, ElseStep, SystemActionStep,
  system_action, diagnosis_action, human_notification, human_approval, checkpoint,
  replanning_checkpoint, conditional, skip, otherwise, RecoveryPlan,
}

-- `RISK_ORDER.indexOf(level)`
unfoldable pub index_of : RiskLevel → ℕ
index_of routine = 0
index_of elevated = 1
index_of high = 2
index_of critical = 3

-- `RISK_ORDER[i]!`, for the indices that it has
unfoldable pub level_at : ℕ → RiskLevel
level_at zero = routine
level_at (suc zero) = elevated
level_at (suc (suc zero)) = high
level_at (suc (suc (suc _))) = critical

unfoldable pub risk_exceeds : RiskLevel → RiskLevel → Bool
unfolding index_of
risk_exceeds a b = ltb (index_of b) (index_of a)

-- The choice between the risks of the two branches of a conditional
unfoldable pub join_risk : Option RiskLevel → Option RiskLevel → Option RiskLevel
unfolding index_of
join_risk none none = none
join_risk none (some e) = some e
join_risk (some t) none = some t
join_risk (some t) (some e) = if leb (index_of e) (index_of t) then some t else some e

unfoldable mutual
  pub get_step_risk : RecoveryStep → Option RiskLevel
  get_step_risk (system_action s) = some s.risk_level
  get_step_risk (diagnosis_action _) = none
  get_step_risk (human_notification _) = none
  get_step_risk (human_approval _) = none
  get_step_risk (checkpoint _) = none
  get_step_risk (replanning_checkpoint _) = none
  get_step_risk (conditional _ t e) = join_risk (get_step_risk t) (get_else_risk e)

  pub get_else_risk : ElseStep → Option RiskLevel
  get_else_risk skip = none
  get_else_risk (otherwise s) = get_step_risk s

-- What one step, or one branch of a conditional, adds to the maximum if it is a system action
unfoldable pub action_index : ℕ → RecoveryStep → ℕ
unfolding index_of
action_index m (system_action s) = max m (index_of s.risk_level)
action_index m _ = m

unfoldable pub else_index : ℕ → ElseStep → ℕ
unfolding action_index
else_index m skip = m
else_index m (otherwise s) = action_index m s

-- One round of the loop of `getMaxRiskIndex`
unfoldable pub max_step : ℕ → RecoveryStep → ℕ
unfolding action_index else_index
max_step m (conditional _ t e) = else_index (action_index m t) e
max_step m s = action_index m s

unfoldable pub max_from : ℕ → List RecoveryStep → ℕ
max_from m [] = m
max_from m (s ∷ ss) = max_from (max_step m s) ss

unfoldable pub get_max_risk_index : List RecoveryStep → ℕ
get_max_risk_index steps = max_from 0 steps

unfoldable pub derive_plan_max_risk_level : RecoveryPlan → RiskLevel
derive_plan_max_risk_level plan = level_at (get_max_risk_index plan.steps)

-- The steps that `walkSteps` visits for one step: the step, and the branches of a conditional,
-- but nothing below these.
unfoldable pub visits : RecoveryStep → List RecoveryStep
visits (conditional c t skip) = conditional c t skip ∷ t ∷ []
visits (conditional c t (otherwise e)) = conditional c t (otherwise e) ∷ t ∷ e ∷ []
visits s = s ∷ []

-- `walkSteps`, as the list of the steps that the visitor is called with, in order
unfoldable pub walk_steps : List RecoveryStep → List RecoveryStep
walk_steps [] = []
walk_steps (s ∷ ss) = visits s ++ walk_steps ss

unfoldable pub system_actions_of : List RecoveryStep → List SystemActionStep
system_actions_of [] = []
system_actions_of (system_action s ∷ ss) = s ∷ system_actions_of ss
system_actions_of (_ ∷ ss) = system_actions_of ss

unfoldable pub collect_system_actions : List RecoveryStep → List SystemActionStep
collect_system_actions steps = system_actions_of (walk_steps steps)

unfoldable pub contexts_from : List String → List RecoveryStep → List String
contexts_from seen [] = seen
contexts_from seen (system_action s ∷ ss) = contexts_from (add seen s.execution_context) ss
contexts_from seen (diagnosis_action s ∷ ss) = contexts_from (add seen s.execution_context) ss
contexts_from seen (_ ∷ ss) = contexts_from seen ss

unfoldable pub collect_execution_contexts : List RecoveryStep → List String
collect_execution_contexts steps = contexts_from [] (walk_steps steps)
