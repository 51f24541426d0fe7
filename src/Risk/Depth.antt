-- ===== src/Risk/Depth.antt =====
-- The risk of a step counts the actions at every depth; the walk over a plan stops one level below
-- a conditional. The two agree on plans without nested conditionals.
use crisismode.Base.{
  ℕ, ◌≤◌, Bool, true, false, ◌≡◌, ◌↔◌, ◌||◌, Option, none, some, List, [], ◌∷◌, ◌++◌, refl, sym,
  append-nil, arith, All, any, All-append, All-append_split, or-false, Bool-cases, inl, inr, leb,
  leb→le, leb→lt,
}
use crisismode.Types.{
  RiskLevel, RecoveryStep, ElseStep, SystemActionStep, system_action, diagnosis_action,
  human_notification, human_approval, checkpoint, replanning_checkpoint, conditional, skip,
  otherwise,
}
use crisismode.Risk.{
  index_of, join_risk, get_step_risk, get_else_risk, visits, walk_steps, system_actions_of,
  collect_system_actions,
}
use crisismode.Risk.Bounds.{system_actions_of-append}

-- The system actions of a step at every depth: the specification
unfoldable mutual
  pub deep_actions : RecoveryStep → List SystemActionStep
  deep_actions (system_action s) = s ∷ []
  deep_actions (diagnosis_action _) = []
  deep_actions (human_notification _) = []
  deep_actions (human_approval _) = []
  deep_actions (checkpoint _) = []
  deep_actions (replanning_checkpoint _) = []
  deep_actions (conditional _ t e) = deep_actions t ++ deep_else e

  pub deep_else : ElseStep → List SystemActionStep
  deep_else skip = []
  deep_else (otherwise s) = deep_actions s

-- A risk, if there is one, is at most `n`.
abbrev pub Fits : ℕ → Option RiskLevel → Type 0
Fits n none = Unit
Fits n (some r) = index_of r ≤ n

abbrev pub OfRisk : ℕ → SystemActionStep → Type 0
OfRisk n a = index_of a.risk_level ≤ n

join_risk-Fits : (n : ℕ) (a b : Option RiskLevel) → Fits n (join_risk a b) ↔ (Fits n a × Fits n b)
unfolding join_risk
join_risk-Fits n none none = (λ h. (tt, tt), λ h. tt)
join_risk-Fits n none (some e) = (λ h. (tt, h), λ h. h.1)
join_risk-Fits n (some t) none = (λ h. (h, tt), λ h. h.0)
join_risk-Fits n (some t) (some e) = elim (Bool-cases (leb (index_of e) (index_of t))) [
  | inl le ↦ rw le (λ h. (h, omega (arith, leb→le _ _ le)), λ h. h.0)
  | inr gt ↦ rw gt (λ h. (omega (arith, leb→lt _ _ gt), h), λ h. h.1)
]

mutual
  unfolding get_step_risk deep_actions

  risk-Fits :
      (n : ℕ) (s : RecoveryStep) → Fits n (get_step_risk s) ↔ All (OfRisk n) (deep_actions s)
  risk-Fits n (system_action s) = (λ h. (h, tt), λ h. h.0)
  risk-Fits n (diagnosis_action _) = (λ h. tt, λ h. tt)
  risk-Fits n (human_notification _) = (λ h. tt, λ h. tt)
  risk-Fits n (human_approval _) = (λ h. tt, λ h. tt)
  risk-Fits n (checkpoint _) = (λ h. tt, λ h. tt)
  risk-Fits n (replanning_checkpoint _) = (λ h. tt, λ h. tt)
  risk-Fits n (conditional _ t e) =
      let first = risk-Fits n t in
      let second = else_risk-Fits n e in
      let both = join_risk-Fits n (get_step_risk t) (get_else_risk e) in
      (
        λ h.
            All-append (OfRisk n) (deep_actions t) (deep_else e) (first.0 (both.0 h).0)
              (second.0 (both.0 h).1),
        λ h.
            let (left, right) = All-append_split (OfRisk n) (deep_actions t) (deep_else e) h in
            both.1 (first.1 left, second.1 right),
      )

  else_risk-Fits : (n : ℕ) (e : ElseStep) → Fits n (get_else_risk e) ↔ All (OfRisk n) (deep_else e)
  else_risk-Fits n skip = (λ h. tt, λ h. tt)
  else_risk-Fits n (otherwise s) = risk-Fits n s

-- The risk that is computed for a step, if any, is at most `n` exactly if every system action in
-- it is, at whatever depth of conditionals it stands.
pub get_step_risk-Fits_iff :
    (n : ℕ) (s : RecoveryStep) → Fits n (get_step_risk s) ↔ All (OfRisk n) (deep_actions s)
get_step_risk-Fits_iff n s = risk-Fits n s

-- `step.type === 'conditional'`, and a conditional with a conditional for a branch
unfoldable pub is_conditional : RecoveryStep → Bool
is_conditional (conditional _ _ _) = true
is_conditional _ = false

unfoldable pub is_nested : RecoveryStep → Bool
unfolding is_conditional
is_nested (conditional _ t skip) = is_conditional t
is_nested (conditional _ t (otherwise e)) = is_conditional t || is_conditional e
is_nested _ = false

flat-deep :
    (s : RecoveryStep) → is_conditional s ≡ false → deep_actions s ≡ system_actions_of (s ∷ [])
unfolding is_conditional deep_actions system_actions_of
flat-deep (system_action s) h = refl
flat-deep (conditional _ t e) h = cc
flat-deep _ h = refl

-- Without nested conditionals, the walk visits every action that a step holds.
pub deep-visits :
    (s : RecoveryStep) → is_nested s ≡ false → deep_actions s ≡ system_actions_of (visits s)
unfolding is_nested deep_actions visits system_actions_of
deep-visits (conditional c t skip) h = rw append-nil (flat-deep t h)
deep-visits (conditional c t (otherwise e)) h =
    let (flat_t, flat_e) = or-false (is_conditional t) (is_conditional e) h in
    rw (flat-deep t flat_t, flat-deep e flat_e) (sym (system_actions_of-append (t ∷ []) (e ∷ [])))
deep-visits (system_action s) h = refl
deep-visits _ h = refl

abbrev pub deep_steps : List RecoveryStep → List SystemActionStep
deep_steps [] = []
deep_steps (s ∷ ss) = deep_actions s ++ deep_steps ss

pub deep-walk_steps :
    (ss : List RecoveryStep) → any is_nested ss ≡ false → deep_steps ss ≡ collect_system_actions ss
unfolding walk_steps collect_system_actions system_actions_of
deep-walk_steps [] h = refl
deep-walk_steps (s ∷ ss) h =
    let (flat, rest) = or-false (is_nested s) (any is_nested ss) h in
    rw (deep-visits s flat, deep-walk_steps ss rest)
      (sym (system_actions_of-append (visits s) (walk_steps ss)))
