-- ===== src/Escalation.antt =====
-- src/framework/escalation.ts.
use crisismode.Base.{
  ℕ, String, Bool, true, false, ◌||◌, arith, ◌≡◌, refl, ◌∙◌, ap, List, [], ◌∷◌, map, any, ltb,
  if◌then◌else◌,
}
use crisismode.Types.{
  RiskLevel, routine, elevated, high, critical, RecoveryStep, ElseStep, system_action,
  diagnosis_action, human_notification, human_approval, checkpoint, replanning_checkpoint,
  conditional, skip, otherwise, RecoveryPlan,
}

-- `EscalationLevel`: 1 to 5
pub data EscalationLevel : Type 0 where
  observe diagnose suggest repair_safe repair_destructive : EscalationLevel

unfoldable pub number : EscalationLevel → ℕ
number observe = 1
number diagnose = 2
number suggest = 3
number repair_safe = 4
number repair_destructive = 5

pub record EscalationInfo : Type 0 where
  pub level : EscalationLevel
  pub label : String
  pub description : String
  pub gate : String

unfoldable pub label : EscalationLevel → String
label observe = "Observe"
label diagnose = "Diagnose"
label suggest = "Suggest"
label repair_safe = "Repair (safe)"
label repair_destructive = "Repair (destructive)"

unfoldable pub description : EscalationLevel → String
description observe = "Read-only health checks — no system interaction"
description diagnose = "Read-only queries against live systems"
description suggest = "Generate recovery plans without executing"
description repair_safe = "Execute routine and elevated-risk recovery actions"
description repair_destructive = "Execute high and critical-risk recovery actions"

unfoldable pub gate : EscalationLevel → String
gate observe = "Always available"
gate diagnose = "Requires network access to target systems"
gate suggest = "Requires diagnosis findings"
gate repair_safe = "Requires --execute flag and plan approval"
gate repair_destructive = "Requires --execute flag, human approval, and elevated permissions"

unfoldable pub get_escalation_info : EscalationLevel → EscalationInfo
unfolding label description gate
get_escalation_info level = record {
  level = level;
  label = label level;
  description = description level;
  gate = gate level;
}

unfoldable pub risk_to_escalation : RiskLevel → EscalationLevel
risk_to_escalation routine = repair_safe
risk_to_escalation elevated = repair_safe
risk_to_escalation high = repair_destructive
risk_to_escalation critical = repair_destructive

-- `Math.max(a, b)`
unfoldable pub max_level : EscalationLevel → EscalationLevel → EscalationLevel
unfolding number
max_level a b = if ltb (number a) (number b) then b else a

unfoldable mutual
  pub step_escalation_level : RecoveryStep → EscalationLevel
  step_escalation_level (diagnosis_action s) = diagnose
  step_escalation_level (human_notification s) = suggest
  step_escalation_level (human_approval s) = suggest
  step_escalation_level (checkpoint s) = suggest
  step_escalation_level (replanning_checkpoint s) = suggest
  step_escalation_level (system_action s) = risk_to_escalation s.risk_level
  step_escalation_level (conditional c t e) =
      max_level (step_escalation_level t) (else_escalation_level e)

  pub else_escalation_level : ElseStep → EscalationLevel
  else_escalation_level skip = observe
  else_escalation_level (otherwise s) = step_escalation_level s

-- The loop of `planEscalationLevel`
unfoldable pub escalate_from : EscalationLevel → List RecoveryStep → EscalationLevel
unfolding step_escalation_level number
escalate_from most [] = most
escalate_from most (s ∷ ss) =
    let level = step_escalation_level s in
    escalate_from (if ltb (number most) (number level) then level else most) ss

unfoldable pub plan_escalation_level : RecoveryPlan → EscalationLevel
unfolding escalate_from
plan_escalation_level plan = escalate_from suggest plan.steps

unfoldable pub all_escalation_levels : List EscalationInfo
unfolding get_escalation_info
all_escalation_levels =
    map get_escalation_info (observe ∷ diagnose ∷ suggest ∷ repair_safe ∷ repair_destructive ∷ [])

abbrev pub is_destructive : EscalationLevel → Bool
is_destructive repair_destructive = true
is_destructive _ = false

abbrev pub is_severe : RiskLevel → Bool
is_severe high = true
is_severe critical = true
is_severe _ = false

-- The step, or a step of its branches at any depth, is an action of high or critical risk.
unfoldable mutual
  pub has_severe : RecoveryStep → Bool
  has_severe (system_action s) = is_severe s.risk_level
  has_severe (conditional c t e) = has_severe t || has_severe_else e
  has_severe (diagnosis_action s) = false
  has_severe (human_notification s) = false
  has_severe (human_approval s) = false
  has_severe (checkpoint s) = false
  has_severe (replanning_checkpoint s) = false

  pub has_severe_else : ElseStep → Bool
  has_severe_else skip = false
  has_severe_else (otherwise s) = has_severe s

risk-severe : (r : RiskLevel) → is_destructive (risk_to_escalation r) ≡ is_severe r
unfolding risk_to_escalation
risk-severe routine = refl
risk-severe elevated = refl
risk-severe high = refl
risk-severe critical = refl

max_level-or :
    (a b : EscalationLevel)
    → is_destructive (max_level a b) ≡ (is_destructive a || is_destructive b)
unfolding max_level number
max_level-or a b = ground arith

choice-or :
    (a b : EscalationLevel)
    → is_destructive (if ltb (number a) (number b) then b else a)
      ≡ (is_destructive a || is_destructive b)
unfolding max_level
choice-or a b = max_level-or a b

mutual
  unfolding step_escalation_level else_escalation_level has_severe has_severe_else

  step-severe : (s : RecoveryStep) → is_destructive (step_escalation_level s) ≡ has_severe s
  step-severe (system_action s) = risk-severe s.risk_level
  step-severe (conditional c t e) =
      max_level-or (step_escalation_level t) (else_escalation_level e)
      ∙ ap (λ b. b || is_destructive (else_escalation_level e)) (step-severe t)
      ∙ ap (λ b. has_severe t || b) (else-severe e)
  step-severe (diagnosis_action s) = refl
  step-severe (human_notification s) = refl
  step-severe (human_approval s) = refl
  step-severe (checkpoint s) = refl
  step-severe (replanning_checkpoint s) = refl

  else-severe : (e : ElseStep) → is_destructive (else_escalation_level e) ≡ has_severe_else e
  else-severe skip = refl
  else-severe (otherwise s) = step-severe s

or_assoc : (a b c : Bool) → ((a || b) || c) ≡ (a || (b || c))
or_assoc a b c = ground arith

escalate_from-severe :
    (ss : List RecoveryStep) (most : EscalationLevel)
    → is_destructive (escalate_from most ss) ≡ (is_destructive most || any has_severe ss)
unfolding escalate_from
escalate_from-severe [] most = ground arith
escalate_from-severe (s ∷ ss) most =
    escalate_from-severe ss _
    ∙ ap (λ b. b || any has_severe ss) (choice-or most (step_escalation_level s))
    ∙ ap (λ b. (is_destructive most || b) || any has_severe ss) (step-severe s)
    ∙ or_assoc (is_destructive most) (has_severe s) (any has_severe ss)

-- A plan needs the level of destructive repair exactly if an action of high or critical risk is in
-- it, in a branch of a conditional at any depth too.
pub plan_escalation_level-severe :
    (plan : RecoveryPlan) → is_destructive (plan_escalation_level plan) ≡ any has_severe plan.steps
unfolding plan_escalation_level
plan_escalation_level-severe plan = escalate_from-severe plan.steps suggest
