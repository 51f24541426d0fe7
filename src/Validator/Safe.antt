-- ===== src/Validator/Safe.antt =====
-- What a valid plan guarantees of the actions in it.
use crisismode.Base.{
  ◌≤◌, String, Bool, true, false, ◌≡◌, subst, List, [], ◌∷◌, All, All-mono, All→any-false, arith,
}
use crisismode.Types.{RecoveryStep, SystemActionStep, system_action, RecoveryPlan, AgentManifest}
use crisismode.Risk.{
  index_of, walk_steps, collect_system_actions, system_actions_of, derive_plan_max_risk_level,
}
use crisismode.Risk.Depth.{OfRisk, deep_steps, is_nested, deep-walk_steps}
use crisismode.Risk.Bounds.{derive_plan_max_risk_level-le_iff}
use crisismode.Capabilities.{Registry}
use crisismode.Validator.Checks.{ValidationOptions, validate_plan, names_no_component}
use crisismode.Validator.Steps.{RunsIn, Preserved}
use crisismode.Validator.Conditions.{Accepted, Known, declares_context}
use crisismode.Validator.Accepted.{validate_plan-valid_iff}

-- What a valid plan lets an operator rely on for one of its actions
pub record SafeAction (registry : Registry) (plan : RecoveryPlan) (manifest : AgentManifest)
    (a : SystemActionStep) : Type 0 where
  pub within_manifest : index_of a.risk_level ≤ index_of manifest.max_risk_level
  pub within_plan : index_of a.risk_level ≤ index_of (derive_plan_max_risk_level plan)
  pub context : declares_context manifest a.execution_context ≡ true
  pub preserved : Preserved a
  pub component : names_no_component a ≡ false
  pub known : Known registry a.required_capabilities

All-both {ℓ κ} :
    {A : Type ℓ} (P Q : A → Type κ) (xs : List A) → All P xs → All Q xs → All (λ x. P x × Q x) xs
All-both P Q [] h k = tt
All-both P Q (x ∷ xs) h k = ((h.0, k.0), All-both P Q xs h.1 k.1)

contexts-actions :
    (p : String → Bool) (ss : List RecoveryStep)
    → All (RunsIn p) ss
    → All (λ (a : SystemActionStep). p a.execution_context ≡ true) (system_actions_of ss)
unfolding system_actions_of
contexts-actions p [] h = tt
contexts-actions p (system_action a ∷ ss) h = (h.0, contexts-actions p ss h.1)
contexts-actions p (_ ∷ ss) h = contexts-actions p ss h.1

collected-contexts :
    (p : String → Bool) (ss : List RecoveryStep)
    → All (RunsIn p) (walk_steps ss)
    → All (λ (a : SystemActionStep). p a.execution_context ≡ true) (collect_system_actions ss)
unfolding collect_system_actions
collected-contexts p ss h = contexts-actions p (walk_steps ss) h

module _ (registry : Registry) (guides : List String) (plan : RecoveryPlan)
    (manifest : AgentManifest) where
  safe-actions :
      Accepted registry guides plan manifest
      → All (SafeAction registry plan manifest) (collect_system_actions plan.steps)
  safe-actions h =
      let actions = collect_system_actions plan.steps in
      let flat = deep-walk_steps plan.steps (All→any-false is_nested plan.steps h.flat) in
      let risks = subst (All (OfRisk (index_of manifest.max_risk_level))) flat h.risks in
      let derived =
        (derive_plan_max_risk_level-le_iff plan (derive_plan_max_risk_level plan)).0
          (omega arith) in
      let contexts = collected-contexts (declares_context manifest) plan.steps h.contexts in
      All-mono actions
        (λ a ((m, p), ((q, c), (n, k))). record {
          within_manifest = m;
          within_plan = p;
          context = n;
          preserved = q;
          component = c;
          known = k;
        })
        (All-both _ _ actions (All-both _ _ actions risks derived) (
          All-both _ _ actions (All-both _ _ actions h.preserved h.components)
            (All-both _ _ actions contexts h.steps_known)))

  -- In a valid plan, every system action at any depth of conditionals is within the risk of the
  -- manifest and within the risk that is derived for the plan, runs in a declared execution
  -- context, captures state first if its risk is above routine, names a component that it
  -- affects, and requires registered capabilities only.
  pub validate_plan-SafeAction :
      (options : ValidationOptions)
      → (validate_plan registry guides plan manifest options).valid ≡ true
      → All (SafeAction registry plan manifest) (deep_steps plan.steps)
  validate_plan-SafeAction options h =
      let accepted = ((validate_plan-valid_iff registry guides plan manifest options).0 h).0 in
      rw (deep-walk_steps plan.steps (All→any-false is_nested plan.steps accepted.flat))
        (safe-actions accepted)
