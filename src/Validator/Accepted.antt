-- ===== src/Validator/Accepted.antt =====
-- What `validatePlan` accepts.
use crisismode.Base.{
  String, Bool, true, false, ◌≡◌, refl, ◌↔◌, Option, none, some, List, [], ◌∷◌, ◌++◌, is_some, All,
  All-append, All-append_split, every→All, All→every, and-true, find,
}
use crisismode.Types.{
  ExecutionMode, execute, dry_run, SystemActionStep, RecoveryPlan, AgentManifest,
  CapabilityProviderDescriptor,
}
use crisismode.Risk.{walk_steps, collect_system_actions}
use crisismode.Risk.Depth.{is_nested}
use crisismode.Safety.BlastRadius.{find_context}
use crisismode.Capabilities.{Registry}
use crisismode.Providers.Correct.{serves, resolve_step_providers-resolved_iff}
use crisismode.Validator.Checks.{
  ValidationOptions, ValidationCheck, report, check_scenario, check_risk_levels,
  check_unique_step_ids, check_state_preservation, check_human_notification,
  check_rollback_strategy, check_no_nested_conditionals, check_provider_resolution, base_checks,
  executable_checks, provider_checks, validate_plan,
}
use crisismode.Validator.Meaning.{not-any, not-exceeding, unique_iff}
use crisismode.Validator.Steps.{Preserved, Preserved-iff, notified_iff}
use crisismode.Validator.Conditions.{
  Accepted, Declared, iff_trans, contexts_iff, guides_iff, components_iff, declares_iff,
  manifest-Known_iff, steps-Known_iff, executable_iff,
}

-- A check passed
abbrev Passed : ValidationCheck → Type 0
Passed c = c.passed ≡ true

-- Each capability that an action requires is served by some provider of the backend.
abbrev pub Served :
    Registry → AgentManifest → List CapabilityProviderDescriptor → SystemActionStep → Type 0
Served registry manifest providers a =
    All
      (λ id.
        is_some (
          find (serves registry id a (find_context a.execution_context manifest) execute) providers)
        ≡ true)
      a.required_capabilities

module _ (registry : Registry) (guides : List String) (plan : RecoveryPlan)
    (manifest : AgentManifest) where
  preservation_iff :
      Passed (check_state_preservation plan) ↔ All Preserved (collect_system_actions plan.steps)
  unfolding check_state_preservation report collect_system_actions
  preservation_iff =
      iff_trans (not-any _ (walk_steps plan.steps)) (Preserved-iff (walk_steps plan.steps))

  base_iff :
      All Passed (base_checks registry guides plan manifest (collect_system_actions plan.steps))
      ↔ Accepted registry guides plan manifest
  unfolding base_checks check_scenario check_risk_levels check_unique_step_ids
      check_human_notification check_rollback_strategy check_no_nested_conditionals report
  base_iff =
      let actions = collect_system_actions plan.steps in
      (
        λ (a, (b, (c, (d, (e, (f, (g, (h, (i, (j, (k, (l, (m, _))))))))))))). record {
          scenario = a;
          contexts = (contexts_iff plan manifest).0 b;
          risks = (not-exceeding manifest.max_risk_level plan.steps).0 c;
          unique = (unique_iff (walk_steps plan.steps)).0 d;
          preserved = preservation_iff.0 e;
          notified = (notified_iff plan.steps).0 f;
          guides_known = (guides_iff guides plan).0 g;
          rollback = h;
          components = (components_iff actions).0 i;
          flat = (not-any is_nested plan.steps).0 j;
          declares = (declares_iff actions).0 k;
          manifest_known = (manifest-Known_iff registry manifest).0 l;
          steps_known = (steps-Known_iff registry actions).0 m;
        },
        λ r. (
          r.scenario,
          (
            (contexts_iff plan manifest).1 r.contexts,
            (
              (not-exceeding manifest.max_risk_level plan.steps).1 r.risks,
              (
                (unique_iff (walk_steps plan.steps)).1 r.unique,
                (
                  preservation_iff.1 r.preserved,
                  (
                    (notified_iff plan.steps).1 r.notified,
                    (
                      (guides_iff guides plan).1 r.guides_known,
                      (
                        r.rollback,
                        (
                          (components_iff actions).1 r.components,
                          (
                            (not-any is_nested plan.steps).1 r.flat,
                            (
                              (declares_iff actions).1 r.declares,
                              (
                                (manifest-Known_iff registry manifest).1 r.manifest_known,
                                ((steps-Known_iff registry actions).1 r.steps_known, tt),
                              ),
                            ),
                          ),
                        ),
                      ),
                    ),
                  ),
                ),
              ),
            ),
          ),
        ),
      )

  -- What the options add
  abbrev pub Executable : Bool → Type 0
  Executable true = All (Declared manifest) (collect_system_actions plan.steps)
  Executable false = Unit

  abbrev pub Provided : Option (List CapabilityProviderDescriptor) → Option ExecutionMode → Type 0
  Provided (some providers) (some execute) =
      All (Served registry manifest providers) (collect_system_actions plan.steps)
  Provided _ _ = Unit

  options_iff :
      (b : Bool)
      → All Passed
          (executable_checks registry guides plan manifest (collect_system_actions plan.steps) b)
        ↔ Executable b
  unfolding executable_checks
  options_iff true =
      let both = executable_iff (collect_system_actions plan.steps) manifest in
      (λ h. both.0 h.0, λ h. (both.1 h, tt))
  options_iff false = (λ h. tt, λ h. tt)

  Served-iff :
      (providers : List CapabilityProviderDescriptor) (actions : List SystemActionStep)
      → Passed (check_provider_resolution registry actions manifest providers)
        ↔ All (Served registry manifest providers) actions
  unfolding check_provider_resolution
  Served-iff providers [] = (λ h. tt, λ h. refl)
  Served-iff providers (a ∷ actions) =
      let step = resolve_step_providers-resolved_iff registry a manifest providers execute in
      let rest = Served-iff providers actions in
      (
        λ h. let (first, later) = and-true _ _ h in (step.0 first, rest.0 later),
        λ h. rw (step.1 h.0) (rest.1 h.1),
      )

  Provided-iff :
      (p : Option (List CapabilityProviderDescriptor)) (m : Option ExecutionMode)
      → All Passed
          (provider_checks registry guides plan manifest (collect_system_actions plan.steps) p m)
        ↔ Provided p m
  unfolding provider_checks
  Provided-iff (some providers) (some execute) =
      let both = Served-iff providers (collect_system_actions plan.steps) in
      (λ h. both.0 h.0, λ h. (both.1 h, tt))
  Provided-iff (some providers) (some dry_run) = (λ h. tt, λ h. tt)
  Provided-iff (some providers) none = (λ h. tt, λ h. tt)
  Provided-iff none m = (λ h. tt, λ h. tt)

  -- A plan is valid exactly if: its scenario is in the manifest; every step that the walk visits
  -- runs in a declared execution context; every system action, at any depth, is within the
  -- manifest's risk; the visited steps have pairwise different ids; every visited action above
  -- routine risk captures state before it runs; all actions are routine or a notification is
  -- visited; the guides that notifications name, and all capabilities of the manifest and of the
  -- visited actions, are registered; there is a rollback strategy; every visited action names a
  -- component and a capability; no conditional is nested; and, as the options ask, the contexts
  -- declare the capabilities of the actions and some provider serves each of these.
  pub validate_plan-valid_iff :
      (options : ValidationOptions)
      → ((validate_plan registry guides plan manifest options).valid ≡ true) ↔ (
          Accepted registry guides plan manifest
          × (Executable options.require_executable_capabilities
              × Provided options.backend options.execution_mode))
  unfolding validate_plan
  validate_plan-valid_iff options =
      let actions = collect_system_actions plan.steps in
      let base = base_checks registry guides plan manifest actions in
      let required =
        executable_checks registry guides plan manifest actions
          options.require_executable_capabilities in
      let live =
        provider_checks registry guides plan manifest actions options.backend
          options.execution_mode in
      (
        λ h.
            let (first, others) =
              All-append_split Passed base (required ++ live)
                (every→All (λ (c : ValidationCheck). c.passed) (base ++ (required ++ live)) h) in
            let (second, third) = All-append_split Passed required live others in
            (base_iff.0 first, ((options_iff _).0 second, (Provided-iff _ _).0 third)),
        λ (a, (b, c)).
            All→every (λ (c : ValidationCheck). c.passed) (base ++ (required ++ live))
              (All-append Passed base (required ++ live) (base_iff.1 a)
                (All-append Passed required live ((options_iff _).1 b) ((Provided-iff _ _).1 c))),
      )
