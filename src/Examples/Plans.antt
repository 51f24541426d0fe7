-- ===== src/Examples/Plans.antt =====
-- The validator, the risk, the blast radius, the providers and the registries.
use crisismode.Base.{
  ℕ, ◌≤◌, String, true, false, ◌≡◌, refl, ◌↔◌, ◌⊎◌, none, some, [], ◌∷◌, All, find, is_some, arith,
  to_lower_case, trim,
}
use crisismode.Types.{
  execute, elevated, SystemActionStep, system_action, autopilot, conditional, skip, skipped,
  captured,
}
use crisismode.Risk.{
  index_of, derive_plan_max_risk_level, collect_system_actions, get_step_risk, walk_steps, visits,
  system_actions_of, contexts_from, collect_execution_contexts, risk_exceeds, join_risk,
}
use crisismode.Risk.Bounds.{derive_plan_max_risk_level-le_iff}
use crisismode.Risk.Depth.{
  Fits, OfRisk, deep_actions, deep_steps, get_step_risk-Fits_iff, is_nested,
}
use crisismode.Safety.Capture.{
  execute_capture, simulate_capture_data, IsSkippable, execute_capture_cases,
}
use crisismode.Safety.Normalize.{normalize_identifier}
use crisismode.Safety.BlastRadius.{validate_blast_radius, find_context}
use crisismode.Safety.Represented.{
  IsRepresented, validate_blast_radius-valid_iff, validate_blast_radius-blank_component,
}
use crisismode.Capabilities.{
  get, get_capability, is_known_capability, register_external_capability, unregister_capability,
}
use crisismode.Capabilities.Laws.{
  IsConsistent, register_external_capability-IsConsistent, unregister_capability-IsConsistent,
}
use crisismode.Providers.Resolve.{resolve_capability_provider, resolve_step_providers}
use crisismode.Providers.Correct.{
  Names, serves, resolve_capability_provider-Names, resolve_step_providers-resolved_iff,
}
use crisismode.Approval.{should_auto_approve}
use crisismode.Approval.Gate.{MayProceed, should_auto_approve-MayProceed_iff}
use crisismode.Hooks.{
  HookRegistration, HookRegistry, resolved, step_before, register, unregister, clear,
}
use crisismode.Hooks.Order.{IsOrdered, operations-IsOrdered}
use crisismode.Validator.Checks.{
  validate_plan, check_scenario, check_execution_contexts, check_risk_levels, check_unique_step_ids,
  check_state_preservation, check_human_notification, check_guide_ids, check_rollback_strategy,
  check_blast_radius_components, check_no_nested_conditionals, check_capability_declarations,
  check_manifest_capabilities, check_step_capabilities, check_executable_capabilities,
  check_provider_resolution, exceeds, has_duplicates, lacks_capture, is_notification,
  unresolved_guides, names_no_component, unregistered, undeclared_by, declared_from, report,
}
use crisismode.Validator.Conditions.{Accepted}
use crisismode.Validator.Accepted.{Executable, Provided, validate_plan-valid_iff}
use crisismode.Validator.Safe.{SafeAction, validate_plan-SafeAction}
use crisismode.Examples.Data.{
  lag, promote, recovery, if_healthy, context, manifest, can_failover, registry, provider, options,
  blank, agent_context,
}

validate_plan-valid_iff_example :
    ((validate_plan registry ("failover" ∷ []) recovery manifest options).valid ≡ true) ↔ (
      Accepted registry ("failover" ∷ []) recovery manifest
      × (Executable registry ("failover" ∷ []) recovery manifest true
          × Provided registry
              ("failover" ∷ [])
              recovery
              manifest
              (some (provider ∷ []))
              (some execute)))
validate_plan-valid_iff_example =
    validate_plan-valid_iff registry ("failover" ∷ []) recovery manifest options

recovery-valid : (validate_plan registry ("failover" ∷ []) recovery manifest options).valid ≡ true
unfolding validate_plan check_scenario check_execution_contexts check_risk_levels
    check_unique_step_ids check_state_preservation check_human_notification check_guide_ids
    check_rollback_strategy check_blast_radius_components check_no_nested_conditionals
    check_capability_declarations check_manifest_capabilities check_step_capabilities
    check_executable_capabilities check_provider_resolution collect_system_actions
    collect_execution_contexts walk_steps visits system_actions_of contexts_from get_step_risk
    join_risk risk_exceeds exceeds has_duplicates lacks_capture is_notification unresolved_guides
    names_no_component is_nested unregistered undeclared_by declared_from resolve_step_providers
    resolve_capability_provider find_context is_known_capability get_capability report
recovery-valid = refl

validate_plan-SafeAction_example :
    All (SafeAction registry recovery manifest) (deep_steps recovery.steps)
validate_plan-SafeAction_example =
    validate_plan-SafeAction registry ("failover" ∷ []) recovery manifest options recovery-valid

derive_plan_max_risk_level-le_iff_example :
    (index_of (derive_plan_max_risk_level recovery) ≤ index_of elevated)
    ↔ All
        (λ (a : SystemActionStep). index_of a.risk_level ≤ index_of elevated)
        (collect_system_actions recovery.steps)
derive_plan_max_risk_level-le_iff_example = derive_plan_max_risk_level-le_iff recovery elevated

get_step_risk-Fits_iff_example :
    Fits 2 (get_step_risk (conditional if_healthy (system_action promote) skip))
    ↔ All (OfRisk 2) (deep_actions (conditional if_healthy (system_action promote) skip))
get_step_risk-Fits_iff_example =
    get_step_risk-Fits_iff 2 (conditional if_healthy (system_action promote) skip)

execute_capture_cases_example :
    (IsSkippable lag
      × ((execute_capture lag 7).status ≡ skipped)
      × ((execute_capture lag 7).data_value ≡ none))
    ⊎ ((¬ IsSkippable lag)
        × ((execute_capture lag 7).status ≡ captured)
        × ((execute_capture lag 7).data_value ≡ some (simulate_capture_data lag 7)))
execute_capture_cases_example = execute_capture_cases lag 7

validate_blast_radius-valid_iff_example :
    ((validate_blast_radius promote manifest none).valid ≡ true)
    ↔ IsRepresented promote manifest none
validate_blast_radius-valid_iff_example = validate_blast_radius-valid_iff promote manifest none

-- A target that nothing declares
abbrev stray : SystemActionStep
stray = record promote { target = "payroll" }

validate_blast_radius-blank_component_example :
    (validate_blast_radius stray manifest (some agent_context)).valid ≡ true
unfolding find_context normalize_identifier to_lower_case trim
validate_blast_radius-blank_component_example =
    validate_blast_radius-blank_component stray manifest agent_context context blank [] [] refl refl
      refl refl

registry-IsConsistent : IsConsistent registry
unfolding get
registry-IsConsistent id = refl

register_external_capability-IsConsistent_example :
    IsConsistent (register_external_capability can_failover registry)
register_external_capability-IsConsistent_example =
    register_external_capability-IsConsistent can_failover registry registry-IsConsistent

unregister_capability-IsConsistent_example :
    IsConsistent (unregister_capability "db.failover" registry).0
unregister_capability-IsConsistent_example =
    unregister_capability-IsConsistent "db.failover" registry registry-IsConsistent

resolve_capability_provider-Names_example :
    Names
      (resolve_capability_provider registry "db.failover" promote
        (some context)
        (provider ∷ [])
        execute)
      (find (serves registry "db.failover" promote (some context) execute) (provider ∷ []))
resolve_capability_provider-Names_example =
    resolve_capability_provider-Names registry "db.failover" promote (some context) (provider ∷ [])
      execute

resolve_step_providers-resolved_iff_example :
    ((resolve_step_providers registry promote manifest (provider ∷ []) execute).resolved ≡ true)
    ↔ All
        (λ id.
          is_some (
            find
              (serves registry id promote (find_context promote.execution_context manifest) execute)
              (provider ∷ []))
          ≡ true)
        promote.required_capabilities
resolve_step_providers-resolved_iff_example =
    resolve_step_providers-resolved_iff registry promote manifest (provider ∷ []) execute

should_auto_approve-MayProceed_iff_example :
    (should_auto_approve elevated autopilot false false ≡ true)
    ↔ MayProceed elevated autopilot false false
should_auto_approve-MayProceed_iff_example =
    should_auto_approve-MayProceed_iff elevated autopilot false false

-- A hook that does nothing
abbrev idle : String → ℕ → HookRegistration ℕ
idle name priority = record {
  name = name;
  point = step_before;
  priority = priority;
  handler = λ c w. (resolved none, w);
  source = none;
}

abbrev two_hooks : HookRegistry ℕ
two_hooks = (step_before, idle "first" 1 ∷ idle "second" 5 ∷ []) ∷ []

operations-IsOrdered_example :
    IsOrdered (register (idle "third" 3) two_hooks)
    × (IsOrdered (unregister "first" two_hooks).0 × IsOrdered (clear two_hooks))
operations-IsOrdered_example =
    operations-IsOrdered (idle "third" 3) "first" two_hooks (((omega arith, tt), (tt, tt)), tt)
