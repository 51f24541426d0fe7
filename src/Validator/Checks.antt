-- ===== src/Validator/Checks.antt =====
-- The checks of src/framework/validator.ts, and `validatePlan`. The ids of the registered
-- remediation guides are an argument, as is the capability registry.
use crisismode.Base.{
  String, Bool, true, false, ◌&&◌, ◌||◌, not, Option, none, some, List, [], ◌∷◌, ◌++◌, map, any,
  every, filter, flat_map, includes, add, is_empty, is_some, or_else, length, template, join, show,
  if◌then◌else◌, ◌==◌,
}
use crisismode.Types.{
  RiskLevel, routine, elevated, high, critical, ExecutionMode, execute, RecoveryStep,
  SystemActionStep, system_action, human_notification, step_id, RecoveryPlan, RollbackStrategyType,
  AgentManifest, ExecutionContextDeclaration, CapabilityProviderDescriptor,
}
use crisismode.Risk.{
  risk_exceeds, get_step_risk, walk_steps, collect_system_actions, collect_execution_contexts,
}
use crisismode.Risk.Depth.{is_nested}
use crisismode.Capabilities.{Registry, is_known_capability}
use crisismode.Providers.Resolve.{
  ProviderCapabilityReference, resolve_step_providers, flatten_provider_resolutions,
  summarize_live_provider_readiness,
}

pub record ValidationDetails : Type 0 where
  pub blocked_capabilities : List ProviderCapabilityReference
  pub supported_capabilities : List ProviderCapabilityReference

pub record ValidationCheck : Type 0 where
  pub name : String
  pub passed : Bool
  pub message : String
  pub details : Option ValidationDetails

pub record ValidationResult : Type 0 where
  pub valid : Bool
  pub checks : List ValidationCheck

-- `backend` is what its `listCapabilityProviders?.() ?? []` gives.
pub record ValidationOptions : Type 0 where
  pub require_executable_capabilities : Bool
  pub backend : Option (List CapabilityProviderDescriptor)
  pub execution_mode : Option ExecutionMode

pub risk_name : RiskLevel → String
risk_name routine = "routine"
risk_name elevated = "elevated"
risk_name high = "high"
risk_name critical = "critical"

pub strategy_name : RollbackStrategyType → String
strategy_name RollbackStrategyType.stepwise = "stepwise"
strategy_name RollbackStrategyType.checkpoint = "checkpoint"
strategy_name RollbackStrategyType.full = "full"
strategy_name RollbackStrategyType.none = "none"

-- A check with the message for either result
unfoldable pub report : String → Bool → List String → List String → ValidationCheck
report name passed good bad = record {
  name = name;
  passed = passed;
  message = template (if passed then good else bad);
  details = none;
}

-- `${…}:${…}`
pub pair : String → String → String
pair a b = template (a ∷ ":" ∷ b ∷ [])

unfoldable pub check_scenario : RecoveryPlan → AgentManifest → ValidationCheck
unfolding report
check_scenario plan manifest =
    report "Scenario declared in manifest"
      (includes plan.metadata.scenario manifest.failure_scenarios)
      ("Scenario '" ∷ plan.metadata.scenario ∷ "' is declared" ∷ [])
      ("Scenario '" ∷ plan.metadata.scenario ∷ "' not found in manifest" ∷ [])

unfoldable pub check_execution_contexts : RecoveryPlan → AgentManifest → ValidationCheck
unfolding report
check_execution_contexts plan manifest =
    let declared = map (λ ec. ec.name) manifest.execution_contexts in
    let undeclared =
      filter (λ c. not (includes c declared)) (collect_execution_contexts plan.steps) in
    report "Execution contexts declared" (is_empty undeclared)
      ("All execution contexts are declared in manifest" ∷ [])
      ("Undeclared contexts: " ∷ join ", " undeclared ∷ [])

-- `risk && riskExceeds(risk, bound)`
unfoldable pub exceeds : RiskLevel → Option RiskLevel → Bool
exceeds bound none = false
exceeds bound (some risk) = risk_exceeds risk bound

unfoldable pub check_risk_levels : RecoveryPlan → AgentManifest → ValidationCheck
unfolding report exceeds
check_risk_levels plan manifest =
    let bound = manifest.max_risk_level in
    report "Risk levels within manifest maximum"
      (not (any (λ s. exceeds bound (get_step_risk s)) (walk_steps plan.steps)))
      ("All steps within max risk level '" ∷ risk_name bound ∷ "'" ∷ [])
      ("Some steps exceed manifest max risk level '" ∷ risk_name bound ∷ "'" ∷ [])

-- The walk of `checkUniqueStepIds`: the ids it has seen, and whether one came twice
unfoldable pub seen_from : List String → List RecoveryStep → List String
seen_from seen [] = seen
seen_from seen (s ∷ ss) = seen_from (add seen (step_id s)) ss

unfoldable pub has_duplicates : List String → List RecoveryStep → Bool
has_duplicates seen [] = false
has_duplicates seen (s ∷ ss) = includes (step_id s) seen || has_duplicates (add seen (step_id s)) ss

unfoldable pub check_unique_step_ids : RecoveryPlan → ValidationCheck
unfolding report
check_unique_step_ids plan =
    report "Unique step IDs" (not (has_duplicates [] (walk_steps plan.steps)))
      ("All " ∷ show (length (seen_from [] (walk_steps plan.steps))) ∷ " step IDs are unique" ∷ [])
      ("Duplicate step IDs found" ∷ [])

unfoldable pub is_routine : RiskLevel → Bool
is_routine routine = true
is_routine _ = false

unfoldable pub lacks_capture : RecoveryStep → Bool
unfolding is_routine
lacks_capture (system_action s) =
    risk_exceeds s.risk_level routine
    && (is_empty s.state_preservation.before && not (is_routine s.risk_level))
lacks_capture _ = false

unfoldable pub check_state_preservation : RecoveryPlan → ValidationCheck
unfolding report
check_state_preservation plan =
    report "State preservation for elevated+ steps"
      (not (any lacks_capture (walk_steps plan.steps)))
      ("All elevated+ steps have required state preservation" ∷ [])
      ("Some elevated+ steps missing required before captures" ∷ [])

unfoldable pub is_notification : RecoveryStep → Bool
is_notification (human_notification _) = true
is_notification _ = false

unfoldable pub check_human_notification : RecoveryPlan → ValidationCheck
unfolding report exceeds is_notification
check_human_notification plan =
    let has_elevated_plus = any (λ s. exceeds routine (get_step_risk s)) plan.steps in
    let has_notification = any is_notification (walk_steps plan.steps) in
    report "Human notification for elevated+ plans" (not has_elevated_plus || has_notification)
      ("Plan includes human notification" ∷ [])
      ("Plan has elevated+ steps but no human notification" ∷ [])

unfoldable pub unresolved_guides : List String → RecoveryStep → List String
unfolding pair
unresolved_guides guides (human_notification s) =
    map (pair s.step_id) (filter (λ g. not (includes g guides)) (or_else s.message.guide_ids []))
unresolved_guides guides _ = []

unfoldable pub check_guide_ids : List String → RecoveryPlan → ValidationCheck
unfolding report
check_guide_ids guides plan =
    let unresolved = flat_map (unresolved_guides guides) (walk_steps plan.steps) in
    report "Human notification guide ids resolve" (is_empty unresolved)
      ("All human-notification guideIds resolve to a registered guide" ∷ [])
      ("Unknown guide ids: " ∷ join ", " unresolved ∷ [])

unfoldable pub check_rollback_strategy : RecoveryPlan → ValidationCheck
unfolding report
check_rollback_strategy plan =
    report "Rollback strategy declared" (is_some plan.rollback_strategy)
      (elim plan.rollback_strategy [
        | none ↦ []
        | some r ↦ "Rollback strategy: " ∷ strategy_name r.type ∷ []
      ])
      ("Missing rollback strategy" ∷ [])

unfoldable pub names_no_component : SystemActionStep → Bool
names_no_component s =
    is_empty s.blast_radius.direct_components && is_empty s.blast_radius.indirect_components

unfoldable pub check_blast_radius_components : List SystemActionStep → ValidationCheck
unfolding report
check_blast_radius_components actions =
    let missing = map (λ s. s.step_id) (filter names_no_component actions) in
    report "Blast radius declares affected components" (is_empty missing)
      ("All system actions declare at least one affected component in blast radius" ∷ [])
      ("Blast radius missing affected components on steps: " ∷ join ", " missing ∷ [])

unfoldable pub check_no_nested_conditionals : RecoveryPlan → ValidationCheck
unfolding report
check_no_nested_conditionals plan =
    report "No nested conditionals" (not (any is_nested plan.steps))
      ("No nested conditional steps found" ∷ [])
      ("Nested conditional steps detected (not permitted)" ∷ [])

unfoldable pub check_capability_declarations : List SystemActionStep → ValidationCheck
unfolding report
check_capability_declarations actions =
    let missing = map (λ s. s.step_id) (filter (λ s. is_empty s.required_capabilities) actions) in
    report "System actions declare required capabilities" (is_empty missing)
      ("All " ∷ show (length actions) ∷ " system actions declare capabilities" ∷ [])
      ("Missing capabilities on steps: " ∷ join ", " missing ∷ [])

module _ (registry : Registry) where
  -- The capabilities of a list that are not registered
  unfoldable pub unregistered : List String → List String
  unregistered ids = filter (λ id. not (is_known_capability id registry)) ids

  unfoldable pub check_manifest_capabilities : AgentManifest → ValidationCheck
  unfolding report
  check_manifest_capabilities manifest =
      let unknown =
        flat_map (λ ec. map (pair ec.name) (unregistered (or_else ec.capabilities [])))
          manifest.execution_contexts in
      report "Manifest capabilities are registered" (is_empty unknown)
        ("All manifest execution-context capabilities exist in the registry" ∷ [])
        ("Unknown manifest capabilities: " ∷ join ", " unknown ∷ [])

  unfoldable pub check_step_capabilities : List SystemActionStep → ValidationCheck
  unfolding report
  check_step_capabilities actions =
      let unknown =
        flat_map (λ s. map (pair s.step_id) (unregistered s.required_capabilities)) actions in
      report "Step capabilities are registered" (is_empty unknown)
        ("All step capabilities exist in the registry" ∷ [])
        ("Unknown step capabilities: " ∷ join ", " unknown ∷ [])

-- `contextCapabilities.get(name) ?? new Set()`: of two contexts with one name the later counts.
unfoldable pub declared_from : String → List String → List ExecutionContextDeclaration → List String
declared_from name found [] = found
declared_from name found (ec ∷ ecs) =
    declared_from name (if ec.name == name then or_else ec.capabilities [] else found) ecs

unfoldable pub undeclared_by : AgentManifest → SystemActionStep → List String
undeclared_by manifest s =
    filter
      (λ id. not (includes id (declared_from s.execution_context [] manifest.execution_contexts)))
      s.required_capabilities

unfoldable pub check_executable_capabilities :
    List SystemActionStep → AgentManifest → ValidationCheck
unfolding report
check_executable_capabilities actions manifest =
    let unresolved =
      flat_map
        (λ s.
          map (λ id. template (s.step_id ∷ ":" ∷ id ∷ "@" ∷ s.execution_context ∷ []))
            (undeclared_by manifest s))
        actions in
    report "Required capabilities resolve for live execution" (is_empty unresolved)
      ("All required capabilities resolve to the declared execution contexts" ∷ [])
      ("Unresolved live capabilities: " ∷ join ", " unresolved ∷ [])

unfoldable pub check_provider_resolution :
    Registry
    → List SystemActionStep
    → AgentManifest
    → List CapabilityProviderDescriptor
    → ValidationCheck
check_provider_resolution registry actions manifest providers =
    let resolutions =
      map (λ s. resolve_step_providers registry s manifest providers execute) actions in
    let flattened = flatten_provider_resolutions resolutions in
    record {
      name = "Provider resolution for live execution";
      passed = every (λ r. r.resolved) resolutions;
      message = summarize_live_provider_readiness resolutions;
      details = some (record {
        blocked_capabilities = filter (λ r. not r.resolved) flattened;
        supported_capabilities = filter (λ r. r.resolved) flattened;
      });
    }

module _ (registry : Registry) (guides : List String) (plan : RecoveryPlan)
    (manifest : AgentManifest) where
  -- The checks that are made whatever the options are
  unfoldable pub base_checks : List SystemActionStep → List ValidationCheck
  base_checks actions =
      check_scenario plan manifest
      ∷ check_execution_contexts plan manifest
      ∷ check_risk_levels plan manifest
      ∷ check_unique_step_ids plan
      ∷ check_state_preservation plan
      ∷ check_human_notification plan
      ∷ check_guide_ids guides plan
      ∷ check_rollback_strategy plan
      ∷ check_blast_radius_components actions
      ∷ check_no_nested_conditionals plan
      ∷ check_capability_declarations actions
      ∷ check_manifest_capabilities registry manifest
      ∷ check_step_capabilities registry actions
      ∷ []

  unfoldable pub executable_checks : List SystemActionStep → Bool → List ValidationCheck
  executable_checks actions true = check_executable_capabilities actions manifest ∷ []
  executable_checks actions false = []

  unfoldable pub provider_checks :
      List SystemActionStep
      → Option (List CapabilityProviderDescriptor)
      → Option ExecutionMode
      → List ValidationCheck
  provider_checks actions (some providers) (some execute) =
      check_provider_resolution registry actions manifest providers ∷ []
  provider_checks actions _ _ = []

  unfoldable pub validate_plan : ValidationOptions → ValidationResult
  unfolding base_checks executable_checks provider_checks
  validate_plan options =
      let actions = collect_system_actions plan.steps in
      let checks =
        base_checks actions
        ++ executable_checks actions options.require_executable_capabilities
        ++ provider_checks actions options.backend options.execution_mode in
      record { valid = every (λ c. c.passed) checks; checks = checks }
