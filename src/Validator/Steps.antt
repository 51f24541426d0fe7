-- ===== src/Validator/Steps.antt =====
-- What the checks on the steps of a plan come to: contexts, captures and notifications.
use crisismode.Base.{
  ◌≤◌, String, Bool, true, false, ◌≡◌, refl, sym, ◌↔◌, ◌⊎◌, inl, inr, ◌&&◌, ◌||◌, not, List, [],
  ◌∷◌, any, includes, add, is_empty, All, All-append, All-append_split, arith, Bool-cases, ◌==◌,
  eq_iff, subst,
}
use crisismode.Types.{
  RiskLevel, routine, elevated, high, critical, RecoveryStep, SystemActionStep, system_action,
  diagnosis_action, human_notification, human_approval, checkpoint, replanning_checkpoint,
  conditional,
}
use crisismode.Risk.{
  risk_exceeds, index_of, get_step_risk, walk_steps, contexts_from, system_actions_of,
}
use crisismode.Risk.Depth.{OfRisk, deep_actions, deep_steps, get_step_risk-Fits_iff}
use crisismode.Validator.Checks.{exceeds, lacks_capture, is_notification, is_routine}
use crisismode.Validator.Meaning.{not-any, exceeds-false}

-- The execution context of a step, if it has one, passes a test
abbrev pub RunsIn : (String → Bool) → RecoveryStep → Type 0
RunsIn p (system_action s) = p s.execution_context ≡ true
RunsIn p (diagnosis_action s) = p s.execution_context ≡ true
RunsIn p _ = Unit

module _ (p : String → Bool) where
  abbrev Passes : String → Type 0
  Passes x = p x ≡ true

  includes-All : (x : String) (xs : List String) → includes x xs ≡ true → All Passes xs → p x ≡ true
  includes-All x [] h k = cc
  includes-All x (y ∷ ys) h k = elim (Bool-cases (x == y)) [
    | inl same ↦ subst (λ z. p z ≡ true) (sym ((eq_iff x y).0 same)) k.0
    | inr other ↦ includes-All x ys (ground arith) k.1
  ]

  All-add :
      (x : String) (seen : List String) → All Passes (add seen x) ↔ (All Passes seen × Passes x)
  All-add x seen = elim (Bool-cases (includes x seen)) [
    | inl known ↦ rw known (λ h. (h, includes-All x seen known h), λ h. h.0)
    | inr fresh ↦ rw fresh (
      λ h. let (a, b) = All-append_split Passes seen (x ∷ []) h in (a, b.0),
      λ (a, b). All-append Passes seen (x ∷ []) a (b, tt),
    )
  ]

  All-add_then :
      (c : String) (seen later : List String) (Rest : Type 0)
      → All Passes later ↔ (All Passes (add seen c) × Rest)
      → All Passes later ↔ (All Passes seen × (Passes c × Rest))
  All-add_then c seen later Rest split =
      let new = All-add c seen in
      (
        λ h. ((new.0 (split.0 h).0).0, ((new.0 (split.0 h).0).1, (split.0 h).1)),
        λ h. split.1 (new.1 (h.0, h.1.0), h.1.1),
      )

  -- The collected contexts pass a test exactly if those of the steps do.
  pub contexts_from-All :
      (seen : List String) (ss : List RecoveryStep)
      → All Passes (contexts_from seen ss) ↔ (All Passes seen × All (RunsIn p) ss)
  unfolding contexts_from
  contexts_from-All seen [] = (λ h. (h, tt), λ h. h.0)
  contexts_from-All seen (system_action s ∷ ss) =
      All-add_then s.execution_context seen _ _
        (contexts_from-All (add seen s.execution_context) ss)
  contexts_from-All seen (diagnosis_action s ∷ ss) =
      All-add_then s.execution_context seen _ _
        (contexts_from-All (add seen s.execution_context) ss)
  contexts_from-All seen (_ ∷ ss) =
      let split = contexts_from-All seen ss in
      (λ h. ((split.0 h).0, (tt, (split.0 h).1)), λ h. split.1 (h.0, h.1.1))

-- An action above routine risk captures state before it runs.
abbrev pub Preserved : SystemActionStep → Type 0
Preserved a = 1 ≤ index_of a.risk_level → is_empty a.state_preservation.before ≡ false

lacks-false :
    (r : RiskLevel) (b : Bool)
    → ((risk_exceeds r routine && (b && not (is_routine r))) ≡ false) ↔ (1 ≤ index_of r → b ≡ false)
unfolding risk_exceeds index_of is_routine
lacks-false routine b = (λ h k. ground arith, λ h. refl)
lacks-false elevated b = (λ h k. ground arith, λ h. ground (arith, h (omega arith)))
lacks-false high b = (λ h k. ground arith, λ h. ground (arith, h (omega arith)))
lacks-false critical b = (λ h k. ground arith, λ h. ground (arith, h (omega arith)))

lacks_capture-false :
    (a : SystemActionStep) → (lacks_capture (system_action a) ≡ false) ↔ Preserved a
unfolding lacks_capture
lacks_capture-false a = lacks-false a.risk_level (is_empty a.state_preservation.before)

pub Preserved-iff :
    (ss : List RecoveryStep)
    → All (λ s. lacks_capture s ≡ false) ss ↔ All Preserved (system_actions_of ss)
unfolding lacks_capture system_actions_of
Preserved-iff [] = (λ h. tt, λ h. tt)
Preserved-iff (system_action a ∷ ss) = (
  λ h. ((lacks_capture-false a).0 h.0, (Preserved-iff ss).0 h.1),
  λ h. ((lacks_capture-false a).1 h.0, (Preserved-iff ss).1 h.1),
)
Preserved-iff (diagnosis_action s ∷ ss) =
    (λ h. (Preserved-iff ss).0 h.1, λ h. (refl, (Preserved-iff ss).1 h))
Preserved-iff (human_notification s ∷ ss) =
    (λ h. (Preserved-iff ss).0 h.1, λ h. (refl, (Preserved-iff ss).1 h))
Preserved-iff (human_approval s ∷ ss) =
    (λ h. (Preserved-iff ss).0 h.1, λ h. (refl, (Preserved-iff ss).1 h))
Preserved-iff (checkpoint s ∷ ss) =
    (λ h. (Preserved-iff ss).0 h.1, λ h. (refl, (Preserved-iff ss).1 h))
Preserved-iff (replanning_checkpoint s ∷ ss) =
    (λ h. (Preserved-iff ss).0 h.1, λ h. (refl, (Preserved-iff ss).1 h))
Preserved-iff (conditional c t e ∷ ss) =
    (λ h. (Preserved-iff ss).0 h.1, λ h. (refl, (Preserved-iff ss).1 h))

steps-Fits :
    (bound : RiskLevel) (ss : List RecoveryStep)
    → All (λ s. exceeds bound (get_step_risk s) ≡ false) ss
      ↔ All (OfRisk (index_of bound)) (deep_steps ss)
steps-Fits bound [] = (λ h. tt, λ h. tt)
steps-Fits bound (s ∷ ss) =
    let fits = get_step_risk-Fits_iff (index_of bound) s in
    let test = exceeds-false bound (get_step_risk s) in
    (
      λ h.
          All-append (OfRisk (index_of bound)) (deep_actions s) (deep_steps ss)
            (fits.0 (test.0 h.0)) ((steps-Fits bound ss).0 h.1),
      λ h.
          let (left, right) =
            All-append_split (OfRisk (index_of bound)) (deep_actions s) (deep_steps ss) h in
          (test.1 (fits.1 left), (steps-Fits bound ss).1 right),
    )

or-true : (a b : Bool) → ((a || b) ≡ true) ↔ ((a ≡ true) ⊎ (b ≡ true))
or-true true b = (λ h. inl refl, λ h. refl)
or-true false b = (λ h. inr h, λ h. ground arith)

-- Either all the actions are routine, or the walk meets a notification.
pub notified_iff :
    (ss : List RecoveryStep)
    → ((not (any (λ s. exceeds routine (get_step_risk s)) ss)
          || any is_notification (walk_steps ss))
        ≡ true)
      ↔ (All (OfRisk (index_of routine)) (deep_steps ss)
          ⊎ (any is_notification (walk_steps ss) ≡ true))
notified_iff ss =
    let quiet = not-any (λ s. exceeds routine (get_step_risk s)) ss in
    let calm = steps-Fits routine ss in
    let either =
      or-true (not (any (λ s. exceeds routine (get_step_risk s)) ss))
        (any is_notification (walk_steps ss)) in
    (
      λ h. elim (either.0 h) [ inl a ↦ inl (calm.0 (quiet.0 a)) | inr b ↦ inr b ],
      λ h. either.1 (elim h [ inl a ↦ inl (quiet.1 (calm.1 a)) | inr b ↦ inr b ]),
    )
