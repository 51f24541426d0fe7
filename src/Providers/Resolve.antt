-- ===== src/Providers/Resolve.antt =====
-- `resolveStepProviders`, `resolveCapabilityProvider` and the summaries.
use crisismode.Base.{
  ℕ, String, Bool, true, false, Option, none, some, List, [], ◌∷◌, map, any, every, filter,
  flat_map, ◌==◌, length, includes, add, not, is_empty, or_else, nat_eq, if◌then◌else◌, template,
  join, show,
}
use crisismode.Types.{
  ExecutionMode, dry_run, execute, CommandType, sql, structured_command, kubernetes_api, api_call,
  configuration_change, SystemActionStep, AgentManifest, ExecutionContextDeclaration,
  CapabilityDefinition, CapabilityProviderDescriptor, CapabilityProviderResolution,
}
use crisismode.Safety.BlastRadius.{find_context}
use crisismode.Capabilities.{Registry, get_capability}

pub record StepProviderResolution : Type 0 where
  pub step_id : String
  pub resolved : Bool
  pub providers : List String
  pub capabilities : List CapabilityProviderResolution
  pub summary : String

pub record ProviderCapabilityReference : Type 0 where
  pub step_id : String
  pub capability : String
  pub resolved : Bool
  pub provider_id : Option String
  pub reason : Option String

unfoldable pub mode_name : ExecutionMode → String
mode_name dry_run = "dry-run"
mode_name execute = "execute"

command_index : CommandType → ℕ
command_index sql = 0
command_index structured_command = 1
command_index kubernetes_api = 2
command_index api_call = 3
command_index configuration_change = 4

unfoldable pub command_name : CommandType → String
command_name sql = "sql"
command_name structured_command = "structured_command"
command_name kubernetes_api = "kubernetes_api"
command_name api_call = "api_call"
command_name configuration_change = "configuration_change"

-- `commandTypes.includes(type)`
unfoldable pub has_command_type : CommandType → CapabilityProviderDescriptor → Bool
unfolding command_index
has_command_type t p = any (λ u. nat_eq (command_index u) (command_index t)) p.command_types

unfoldable pub supports_mode : ExecutionMode → CapabilityProviderDescriptor → Bool
supports_mode execute p = p.supports_execute
supports_mode dry_run p = p.supports_dry_run

unfoldable pub blocked : String → List String → CapabilityProviderResolution
blocked capability reason = record {
  capability = capability;
  resolved = false;
  provider_id = none;
  reason = some (template reason);
}

unfoldable pub resolved_by : String → CapabilityProviderDescriptor → CapabilityProviderResolution
resolved_by capability p = record {
  capability = capability;
  resolved = true;
  provider_id = some p.id;
  reason = none;
}

-- The tests on the lists that the filters leave: with the capability, in the mode, in the
-- execution context, for the command type and for the target kind.
unfoldable pub select_provider :
    String
    → SystemActionStep
    → ExecutionContextDeclaration
    → ExecutionMode
    → (supporting in_mode in_context for_command for_target : List CapabilityProviderDescriptor)
    → CapabilityProviderResolution
unfolding blocked resolved_by
select_provider id step ec mode [] _ _ _ _ =
    blocked id ("no provider is registered for capability '" ∷ id ∷ "'" ∷ [])
select_provider id step ec mode (_ ∷ _) [] _ _ _ =
    blocked id
      ("registered providers for '" ∷ id ∷ "' do not support " ∷ mode_name mode ∷ " mode" ∷ [])
select_provider id step ec mode (_ ∷ _) (_ ∷ _) [] _ _ = blocked id (
    "no "
    ∷ mode_name mode
    ∷ " provider for '"
    ∷ id
    ∷ "' supports execution context '"
    ∷ step.execution_context
    ∷ "'"
    ∷ [])
select_provider id step ec mode (_ ∷ _) (_ ∷ _) (_ ∷ _) [] _ = blocked id (
    "no "
    ∷ mode_name mode
    ∷ " provider for '"
    ∷ id
    ∷ "' supports command type '"
    ∷ command_name step.command.type
    ∷ "'"
    ∷ [])
select_provider id step ec mode (_ ∷ _) (_ ∷ _) (_ ∷ _) (_ ∷ _) [] = blocked id (
    "no "
    ∷ mode_name mode
    ∷ " provider for '"
    ∷ id
    ∷ "' supports target kind '"
    ∷ ec.target
    ∷ "'"
    ∷ [])
select_provider id step ec mode (_ ∷ _) (_ ∷ _) (_ ∷ _) (_ ∷ _) (p ∷ _) = resolved_by id p

-- The filters on the registered providers, one after the other
unfoldable pub choose_provider :
    String
    → SystemActionStep
    → ExecutionContextDeclaration
    → List CapabilityProviderDescriptor
    → ExecutionMode
    → CapabilityProviderResolution
unfolding select_provider has_command_type supports_mode
choose_provider id step ec providers mode =
    let supporting = filter (λ p. includes id p.capabilities) providers in
    let in_mode = filter (supports_mode mode) supporting in
    let in_context = filter (λ p. includes step.execution_context p.execution_contexts) in_mode in
    let for_command = filter (has_command_type step.command.type) in_context in
    let for_target = filter (λ p. includes ec.target p.target_kinds) for_command in
    select_provider id step ec mode supporting in_mode in_context for_command for_target

-- The tests on the capability itself, as it was found in the registry
unfoldable pub resolve_declared :
    String
    → SystemActionStep
    → ExecutionContextDeclaration
    → Option CapabilityDefinition
    → List CapabilityProviderDescriptor
    → ExecutionMode
    → CapabilityProviderResolution
unfolding choose_provider
resolve_declared id step ec none providers mode =
    blocked id ("capability '" ∷ id ∷ "' is not registered" ∷ [])
resolve_declared id step ec (some definition) providers mode =
    if not (includes id (or_else ec.capabilities []))
    then blocked id
        ("capability '" ∷ id ∷ "' is not declared on execution context '" ∷ ec.name ∷ "'" ∷ [])
    else if not (includes ec.target definition.target_kinds)
    then blocked id
        ("capability '" ∷ id ∷ "' is not compatible with target kind '" ∷ ec.target ∷ "'" ∷ [])
    else choose_provider id step ec providers mode

unfoldable pub resolve_capability_provider :
    Registry
    → String
    → SystemActionStep
    → Option ExecutionContextDeclaration
    → List CapabilityProviderDescriptor
    → ExecutionMode
    → CapabilityProviderResolution
unfolding resolve_declared
resolve_capability_provider registry id step none providers mode =
    blocked id ("execution context '" ∷ step.execution_context ∷ "' is not declared" ∷ [])
resolve_capability_provider registry id step (some ec) providers mode =
    resolve_declared id step ec (get_capability id registry) providers mode

describe : String → CapabilityProviderResolution → String
describe step_id r =
    if r.resolved
    then template (step_id ∷ ":" ∷ r.capability ∷ " -> " ∷ or_else r.provider_id "undefined" ∷ [])
    else template (step_id ∷ ":" ∷ r.capability ∷ " blocked: " ∷ or_else r.reason "undefined" ∷ [])

pub describe_capability_resolutions : String → List CapabilityProviderResolution → String
unfolding describe
describe_capability_resolutions step_id rs = join "; " (map (describe step_id) rs)

-- `[...new Set(capabilities.flatMap(…))]`
unfoldable pub provider_ids : List String → List CapabilityProviderResolution → List String
provider_ids seen [] = seen
provider_ids seen (r ∷ rs) =
    provider_ids
      (elim r.provider_id [ none ↦ seen | some p ↦ if p == "" then seen else add seen p ]) rs

module _ (registry : Registry) where
  -- `providers` is what `backend.listCapabilityProviders?.() ?? []` gives.
  unfoldable pub resolve_step_providers :
      SystemActionStep
      → AgentManifest
      → List CapabilityProviderDescriptor
      → ExecutionMode
      → StepProviderResolution
  unfolding provider_ids
  resolve_step_providers step manifest providers mode =
      let capabilities =
        map
          (λ id.
            resolve_capability_provider registry id step
              (find_context step.execution_context manifest) providers mode)
          step.required_capabilities in
      record {
        step_id = step.step_id;
        resolved = every (λ r. r.resolved) capabilities;
        providers = provider_ids [] capabilities;
        capabilities = capabilities;
        summary = describe_capability_resolutions step.step_id capabilities;
      }

reference : String → CapabilityProviderResolution → ProviderCapabilityReference
reference step_id r = record {
  step_id = step_id;
  capability = r.capability;
  resolved = r.resolved;
  provider_id = r.provider_id;
  reason = r.reason;
}

unfoldable pub flatten_provider_resolutions :
    List StepProviderResolution → List ProviderCapabilityReference
unfolding reference
flatten_provider_resolutions rs = flat_map (λ r. map (reference r.step_id) r.capabilities) rs

mention : ProviderCapabilityReference → String
mention c = template (c.capability ∷ " (" ∷ c.step_id ∷ ")" ∷ [])

pub summarize_live_provider_readiness : List StepProviderResolution → String
unfolding flatten_provider_resolutions mention
summarize_live_provider_readiness rs =
    let flattened = flatten_provider_resolutions rs in
    let missing = filter (λ c. not c.resolved) flattened in
    let supported = filter (λ c. c.resolved) flattened in
    if is_empty missing
    then (if is_empty supported
        then "No system actions require live provider resolution."
        else template (
            "All "
            ∷ show (length supported)
            ∷ " live capability requirement(s) resolved successfully."
            ∷ []))
    else template (
        "Missing live providers for "
        ∷ join ", " (map mention missing)
        ∷ "."
        ∷ (if is_empty supported
            then ""
            else template
                (" Supported in this plan: " ∷ join ", " (map mention supported) ∷ "." ∷ []))
        ∷ [])
