-- ===== src/Validator/Conditions.antt =====
-- What the checks of `validatePlan` ask of a plan, one by one.
use crisismode.Base.{
  String, Bool, true, false, ◌≡◌, refl, ◌↔◌, ◌⊎◌, inl, inr, not, List, [], ◌∷◌, map, any, filter,
  flat_map, includes, is_empty, is_some, or_else, All, All-mono, Bool-cases, template,
}
use crisismode.Types.{
  routine, RecoveryStep, human_notification, SystemActionStep, RecoveryPlan, AgentManifest,
  ExecutionContextDeclaration,
}
use crisismode.Risk.{index_of, walk_steps, collect_system_actions, collect_execution_contexts}
use crisismode.Risk.Depth.{OfRisk, deep_steps, is_nested}
use crisismode.Capabilities.{Registry, is_known_capability}
use crisismode.Validator.Checks.{
  report, check_execution_contexts, check_guide_ids, check_blast_radius_components,
  check_capability_declarations, check_manifest_capabilities, check_step_capabilities,
  check_executable_capabilities, names_no_component, is_notification, unregistered, undeclared_by,
  unresolved_guides, declared_from, pair,
}
use crisismode.Validator.Meaning.{is_empty-map, is_empty-flat_map, is_empty-filter-not, Distinct}
use crisismode.Validator.Steps.{RunsIn, contexts_from-All, Preserved}

abbrev pub declares_context : AgentManifest → String → Bool
declares_context manifest c = includes c (map (λ ec. ec.name) manifest.execution_contexts)

-- The guides that a notification refers to are registered.
abbrev pub GuidesKnown : List String → RecoveryStep → Type 0
GuidesKnown guides (human_notification s) =
    All (λ g. includes g guides ≡ true) (or_else s.message.guide_ids [])
GuidesKnown guides _ = Unit

abbrev pub Known : Registry → List String → Type 0
Known registry ids = All (λ id. is_known_capability id registry ≡ true) ids

-- What the checks that are always made ask of a plan
pub record Accepted (registry : Registry) (guides : List String) (plan : RecoveryPlan)
    (manifest : AgentManifest) : Type 0 where
  pub scenario : includes plan.metadata.scenario manifest.failure_scenarios ≡ true
  pub contexts : All (RunsIn (declares_context manifest)) (walk_steps plan.steps)
  pub risks : All (OfRisk (index_of manifest.max_risk_level)) (deep_steps plan.steps)
  pub unique : Distinct (walk_steps plan.steps)
  pub preserved : All Preserved (collect_system_actions plan.steps)
  pub notified :
      All (OfRisk (index_of routine)) (deep_steps plan.steps)
      ⊎ (any is_notification (walk_steps plan.steps) ≡ true)
  pub guides_known : All (GuidesKnown guides) (walk_steps plan.steps)
  pub rollback : is_some plan.rollback_strategy ≡ true
  pub components : All (λ a. names_no_component a ≡ false) (collect_system_actions plan.steps)
  pub flat : All (λ s. is_nested s ≡ false) plan.steps
  pub declares :
      All
        (λ (a : SystemActionStep). is_empty a.required_capabilities ≡ false)
        (collect_system_actions plan.steps)
  pub manifest_known :
      All
        (λ (ec : ExecutionContextDeclaration). Known registry (or_else ec.capabilities []))
        manifest.execution_contexts
  pub steps_known :
      All
        (λ (a : SystemActionStep). Known registry a.required_capabilities)
        (collect_system_actions plan.steps)

pub iff-All {ℓ κ} :
    {A : Type ℓ} {P Q : A → Type κ} (xs : List A) → ((x : A) → P x ↔ Q x) → All P xs ↔ All Q xs
iff-All xs h = (All-mono xs (λ x. (h x).0), All-mono xs (λ x. (h x).1))

pub iff_trans {ℓ} : {A B C : Type ℓ} → (A ↔ B) → (B ↔ C) → A ↔ C
iff_trans f g = (λ a. g.0 (f.0 a), λ c. f.1 (g.1 c))

pub contexts_iff :
    (plan : RecoveryPlan) (manifest : AgentManifest)
    → ((check_execution_contexts plan manifest).passed ≡ true)
      ↔ All (RunsIn (declares_context manifest)) (walk_steps plan.steps)
unfolding check_execution_contexts report collect_execution_contexts
contexts_iff plan manifest =
    let test =
      is_empty-filter-not (declares_context manifest) (collect_execution_contexts plan.steps) in
    let walk = contexts_from-All (declares_context manifest) [] (walk_steps plan.steps) in
    (λ h. (walk.0 (test.0 h)).1, λ h. test.1 (walk.1 (tt, h)))

guides_known :
    (guides : List String) (s : RecoveryStep)
    → (is_empty (unresolved_guides guides s) ≡ true) ↔ GuidesKnown guides s
unfolding unresolved_guides
guides_known guides (human_notification s) =
    rw is_empty-map (is_empty-filter-not (λ g. includes g guides) (or_else s.message.guide_ids []))
guides_known guides _ = (λ h. tt, λ h. refl)

pub guides_iff :
    (guides : List String) (plan : RecoveryPlan)
    → ((check_guide_ids guides plan).passed ≡ true)
      ↔ All (GuidesKnown guides) (walk_steps plan.steps)
unfolding check_guide_ids report
guides_iff guides plan =
    iff_trans (is_empty-flat_map (unresolved_guides guides) (walk_steps plan.steps))
      (iff-All (walk_steps plan.steps) (guides_known guides))

-- A report of the actions that fail a test, by their ids
module _ {ℓ κ} {A : Type ℓ} {B : Type κ} where
  filtered_iff :
      (label : A → B) (p : A → Bool) (xs : List A)
      → (is_empty (map label (filter p xs)) ≡ true) ↔ All (λ x. p x ≡ false) xs
  filtered_iff label p [] = (λ h. tt, λ h. refl)
  filtered_iff label p (x ∷ xs) = elim (Bool-cases (p x)) [
    | inl held ↦ rw held (λ h. cc, λ h. cc)
    | inr failed ↦
        rw failed (λ h. (refl, (filtered_iff label p xs).0 h), λ h. (filtered_iff label p xs).1 h.1)
  ]

  -- A report of the ids that fail a test, element by element
  labelled_iff :
      (label : A → String → B) (test : A → String → Bool) (ids : A → List String) (xs : List A)
      → (is_empty (flat_map (λ x. map (label x) (filter (λ id. not (test x id)) (ids x))) xs)
          ≡ true)
        ↔ All (λ x. All (λ id. test x id ≡ true) (ids x)) xs
  labelled_iff label test ids xs =
      iff_trans (is_empty-flat_map (λ x. map (label x) (filter (λ id. not (test x id)) (ids x))) xs)
        (iff-All xs λ x. rw is_empty-map (is_empty-filter-not (test x) (ids x)))

pub components_iff :
    (actions : List SystemActionStep)
    → ((check_blast_radius_components actions).passed ≡ true)
      ↔ All (λ a. names_no_component a ≡ false) actions
unfolding check_blast_radius_components report
components_iff actions = filtered_iff (λ a. a.step_id) names_no_component actions

pub declares_iff :
    (actions : List SystemActionStep)
    → ((check_capability_declarations actions).passed ≡ true)
      ↔ All (λ a. is_empty a.required_capabilities ≡ false) actions
unfolding check_capability_declarations report
declares_iff actions = filtered_iff (λ a. a.step_id) (λ a. is_empty a.required_capabilities) actions

pub manifest-Known_iff :
    (registry : Registry) (manifest : AgentManifest)
    → ((check_manifest_capabilities registry manifest).passed ≡ true)
      ↔ All (λ ec. Known registry (or_else ec.capabilities [])) manifest.execution_contexts
unfolding check_manifest_capabilities report unregistered
manifest-Known_iff registry manifest =
    labelled_iff (λ ec. pair ec.name) (λ ec id. is_known_capability id registry)
      (λ ec. or_else ec.capabilities []) manifest.execution_contexts

pub steps-Known_iff :
    (registry : Registry) (actions : List SystemActionStep)
    → ((check_step_capabilities registry actions).passed ≡ true)
      ↔ All (λ a. Known registry a.required_capabilities) actions
unfolding check_step_capabilities report unregistered
steps-Known_iff registry actions =
    labelled_iff (λ a. pair a.step_id) (λ a id. is_known_capability id registry)
      (λ a. a.required_capabilities) actions

-- The execution context of an action declares the capabilities that the action requires.
abbrev pub Declared : AgentManifest → SystemActionStep → Type 0
Declared manifest a =
    All
      (λ id. includes id (declared_from a.execution_context [] manifest.execution_contexts) ≡ true)
      a.required_capabilities

pub executable_iff :
    (actions : List SystemActionStep) (manifest : AgentManifest)
    → ((check_executable_capabilities actions manifest).passed ≡ true)
      ↔ All (Declared manifest) actions
unfolding check_executable_capabilities report undeclared_by
executable_iff actions manifest =
    labelled_iff (λ a id. template (a.step_id ∷ ":" ∷ id ∷ "@" ∷ a.execution_context ∷ []))
      (λ a id. includes id (declared_from a.execution_context [] manifest.execution_contexts))
      (λ a. a.required_capabilities) actions
