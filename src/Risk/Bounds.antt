-- ===== src/Risk/Bounds.antt =====
-- What the risk of a plan says of the actions in it.
use crisismode.Base.{
  ℕ, zero, suc, ◌≤◌, ◌≡◌, refl, ◌↔◌, List, [], ◌∷◌, ◌++◌, arith, All, All-append, All-append_split,
}
use crisismode.Types.{
  RiskLevel, routine, RecoveryStep, ElseStep, SystemActionStep, system_action, diagnosis_action,
  human_notification, human_approval, checkpoint, replanning_checkpoint, conditional, skip,
  otherwise, RecoveryPlan,
}
use crisismode.Risk.{
  index_of, level_at, action_index, else_index, max_step, max_from, get_max_risk_index,
  derive_plan_max_risk_level, visits, walk_steps, system_actions_of, collect_system_actions,
}

pub index_of-le : (r : RiskLevel) → index_of r ≤ 3
unfolding index_of
index_of-le routine = omega arith
index_of-le _ = omega arith

pub index_of-level_at : (n : ℕ) → n ≤ 3 → index_of (level_at n) ≡ n
unfolding level_at index_of
index_of-level_at zero h = refl
index_of-level_at (suc zero) h = refl
index_of-level_at (suc (suc zero)) h = refl
index_of-level_at (suc (suc (suc n))) h = omega arith

-- The bounds that a maximum keeps: it grows, it covers what was added, it stays in the table.
pub record Covers (m m' : ℕ) : Type 0 where
  pub grows : m ≤ m'
  pub in_table : m ≤ 3 → m' ≤ 3

action_index-Covers : (m : ℕ) (s : RecoveryStep) → Covers m (action_index m s)
unfolding action_index
action_index-Covers m (system_action s) = record {
  grows = omega arith;
  in_table = λ h. omega (arith, index_of-le s.risk_level);
}
action_index-Covers m _ = record { grows = omega arith; in_table = λ h. h }

else_index-Covers : (m : ℕ) (e : ElseStep) → Covers m (else_index m e)
unfolding else_index
else_index-Covers m skip = record { grows = omega arith; in_table = λ h. h }
else_index-Covers m (otherwise s) = action_index-Covers m s

Covers-trans : {a b c : ℕ} → Covers a b → Covers b c → Covers a c
Covers-trans p q = record {
  grows = omega (arith, p.grows, q.grows);
  in_table = λ h. q.in_table (p.in_table h);
}

max_step-Covers : (m : ℕ) (s : RecoveryStep) → Covers m (max_step m s)
unfolding max_step
max_step-Covers m (conditional _ t e) =
    Covers-trans (action_index-Covers m t) (else_index-Covers (action_index m t) e)
max_step-Covers m (system_action s) = action_index-Covers m (system_action s)
max_step-Covers m (diagnosis_action s) = action_index-Covers m (diagnosis_action s)
max_step-Covers m (human_notification s) = action_index-Covers m (human_notification s)
max_step-Covers m (human_approval s) = action_index-Covers m (human_approval s)
max_step-Covers m (checkpoint s) = action_index-Covers m (checkpoint s)
max_step-Covers m (replanning_checkpoint s) = action_index-Covers m (replanning_checkpoint s)

pub max_from-Covers : (m : ℕ) (ss : List RecoveryStep) → Covers m (max_from m ss)
unfolding max_from
max_from-Covers m [] = record { grows = omega arith; in_table = λ h. h }
max_from-Covers m (s ∷ ss) = Covers-trans (max_step-Covers m s) (max_from-Covers (max_step m s) ss)

-- Every system action of a list of visited steps is within `n`.
abbrev pub Within : ℕ → List RecoveryStep → Type 0
Within n ss = All (λ (a : SystemActionStep). index_of a.risk_level ≤ n) (system_actions_of ss)

pub system_actions_of-append :
    (ss ts : List RecoveryStep)
    → system_actions_of (ss ++ ts) ≡ system_actions_of ss ++ system_actions_of ts
unfolding system_actions_of
system_actions_of-append [] ts = refl
system_actions_of-append (system_action s ∷ ss) ts = rw (system_actions_of-append ss ts)
system_actions_of-append (diagnosis_action s ∷ ss) ts = system_actions_of-append ss ts
system_actions_of-append (human_notification s ∷ ss) ts = system_actions_of-append ss ts
system_actions_of-append (human_approval s ∷ ss) ts = system_actions_of-append ss ts
system_actions_of-append (checkpoint s ∷ ss) ts = system_actions_of-append ss ts
system_actions_of-append (replanning_checkpoint s ∷ ss) ts = system_actions_of-append ss ts
system_actions_of-append (conditional c t e ∷ ss) ts = system_actions_of-append ss ts

abbrev OfRisk : ℕ → SystemActionStep → Type 0
OfRisk n a = index_of a.risk_level ≤ n

pub Within-append :
    (n : ℕ) (ss ts : List RecoveryStep) → Within n (ss ++ ts) ↔ (Within n ss × Within n ts)
Within-append n ss ts = rw system_actions_of-append (
  All-append_split (OfRisk n) (system_actions_of ss) (system_actions_of ts),
  λ (h, k). All-append (OfRisk n) (system_actions_of ss) (system_actions_of ts) h k,
)

action_index-le_iff :
    (m n : ℕ) (s : RecoveryStep) → (action_index m s ≤ n) ↔ ((m ≤ n) × Within n (s ∷ []))
unfolding action_index system_actions_of
action_index-le_iff m n (system_action s) =
    (λ h. (omega arith, (omega arith, tt)), λ h. omega (arith, h.0, h.1.0))
action_index-le_iff m n _ = (λ h. (h, tt), λ h. h.0)

max_step-le_iff :
    (m n : ℕ) (s : RecoveryStep) → (max_step m s ≤ n) ↔ ((m ≤ n) × Within n (visits s))
unfolding max_step visits else_index system_actions_of
max_step-le_iff m n (conditional c t skip) = action_index-le_iff m n t
max_step-le_iff m n (conditional c t (otherwise e)) =
    let first = action_index-le_iff m n t in
    let second = action_index-le_iff (action_index m t) n e in
    let both = Within-append n (t ∷ []) (e ∷ []) in
    (
      λ h. ((first.0 (second.0 h).0).0, both.1 ((first.0 (second.0 h).0).1, (second.0 h).1)),
      λ h. second.1 (first.1 (h.0, (both.0 h.1).0), (both.0 h.1).1),
    )
max_step-le_iff m n (system_action s) = action_index-le_iff m n (system_action s)
max_step-le_iff m n (diagnosis_action s) = action_index-le_iff m n (diagnosis_action s)
max_step-le_iff m n (human_notification s) = action_index-le_iff m n (human_notification s)
max_step-le_iff m n (human_approval s) = action_index-le_iff m n (human_approval s)
max_step-le_iff m n (checkpoint s) = action_index-le_iff m n (checkpoint s)
max_step-le_iff m n (replanning_checkpoint s) = action_index-le_iff m n (replanning_checkpoint s)

max_from-le_iff :
    (m n : ℕ) (ss : List RecoveryStep) → (max_from m ss ≤ n) ↔ ((m ≤ n) × Within n (walk_steps ss))
unfolding max_from walk_steps system_actions_of
max_from-le_iff m n [] = (λ h. (h, tt), λ h. h.0)
max_from-le_iff m n (s ∷ ss) =
    let first = max_step-le_iff m n s in
    let later = max_from-le_iff (max_step m s) n ss in
    let both = Within-append n (visits s) (walk_steps ss) in
    (
      λ h. ((first.0 (later.0 h).0).0, both.1 ((first.0 (later.0 h).0).1, (later.0 h).1)),
      λ h. later.1 (first.1 (h.0, (both.0 h.1).0), (both.0 h.1).1),
    )

pub index_of-derive :
    (plan : RecoveryPlan)
    → index_of (derive_plan_max_risk_level plan) ≡ get_max_risk_index plan.steps
unfolding derive_plan_max_risk_level get_max_risk_index
index_of-derive plan = index_of-level_at _ ((max_from-Covers 0 plan.steps).in_table (omega arith))

-- The risk level that is derived for a plan is at most `r` exactly if every system action that
-- the walk over the plan reaches, branches of conditionals included, is at most `r`.
pub derive_plan_max_risk_level-le_iff :
    (plan : RecoveryPlan) (r : RiskLevel)
    → (index_of (derive_plan_max_risk_level plan) ≤ index_of r)
      ↔ All
          (λ (a : SystemActionStep). index_of a.risk_level ≤ index_of r)
          (collect_system_actions plan.steps)
unfolding collect_system_actions get_max_risk_index
derive_plan_max_risk_level-le_iff plan r =
    let bound = max_from-le_iff 0 (index_of r) plan.steps in
    rw index_of-derive (λ h. (bound.0 h).1, λ h. bound.1 (omega arith, h))
