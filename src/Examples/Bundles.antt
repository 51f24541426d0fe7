-- ===== src/Examples/Bundles.antt =====
-- A bundle that proposes an action of a registered template.
use crisismode.Base.{◌≡◌, refl, none, some, [], ◌∷◌, if◌then◌else◌, ◌==◌}
use crisismode.Types.{elevated, automatic, end, RecoveryStep, RecoveryPlan}
use crisismode.Validator.Checks.{is_routine}
use crisismode.Engine.Effects.{resolved}
use crisismode.Templates.{
  system_action, ActionTemplate, TemplateExpansionArgs, Templates, has_none, class_error,
  risk_error, action_error, template_error, has, get, added, register, template_to_step,
}
use crisismode.Templates.Registered.{
  Registered, empty, registers, IsScaffolded, template_to_step-IsScaffolded, get-register,
}
use crisismode.Bundle.{AdapterRequest, AdapterResponse, Build, adapter_response_to_plan}
use crisismode.Bundle.Checks.{PassesChecks, adapter_response_to_plan-PassesChecks}
use crisismode.Bundle.Gates.{GatedPlan, adapter_response_to_plan-GatedPlan}
use crisismode.Examples.Data.{lag, healthy, promote, plan_of}

abbrev restart : ActionTemplate
restart = record {
  action_id = "restart";
  display_name = "Restart the replica";
  description = "Restart it";
  skill_domain = "postgresql";
  action_class = 2;
  mutation_type = "restart";
  step_type = system_action;
  target_kinds = "postgresql" ∷ [];
  required_capabilities = "db.failover" ∷ [];
  execution_context = "pg";
  default_timeout = "PT5M";
  risk_level = some elevated;
  blast_radius = some promote.blast_radius;
  preconditions = none;
  state_captures_before = some (lag ∷ []);
  state_captures_after = none;
  success_check = some (record { description = "replica answers"; check = healthy });
  rollback = some (record {
    type = automatic;
    description = "start it again";
    estimated_duration = none;
    command = none;
  });
}

restart-register : register restart [] ≡ resolved (restart ∷ [])
unfolding register has template_error action_error risk_error class_error has_none is_routine added
restart-register = refl

abbrev templates : Templates
templates = restart ∷ []

templates-Registered : Registered templates
templates-Registered = registers restart empty restart-register

abbrev args : TemplateExpansionArgs
args = record { step_id = "s1"; target = "db-1"; params = none; command = none }

template_to_step-IsScaffolded_example :
    (s : RecoveryStep) × (template_to_step restart args ≡ resolved s) × IsScaffolded 2 s
unfolding get
template_to_step-IsScaffolded_example =
    template_to_step-IsScaffolded templates "restart" restart args templates-Registered refl

get-register_example :
    get "restart" templates ≡ (if "restart" == "restart" then some restart else get "restart" [])
get-register_example = get-register restart [] templates "restart" restart-register

abbrev request : AdapterRequest
request = record { incident_session_id = "i1"; case_id = "c1" }

abbrev response : AdapterResponse
response = record {
  proposed_actions =
      record {
        action_id = "restart";
        summary = "Restart the replica";
        action_class = 2;
        mutation_type = "restart";
        evidence_refs = "e1" ∷ [];
        params = end;
      }
      ∷ [];
  primary_hypothesis_id = some "h1";
  unsafe_actions_avoided = [];
  evidence_refs = "e1" ∷ [];
}

adapter_response_to_plan-PassesChecks_example :
    (answer : RecoveryPlan × Build) × (adapter_response_to_plan
        (λ t. t)
        templates
        request
        (plan_of []).metadata
        (plan_of []).impact
        response
      ≡ resolved answer)
    × PassesChecks answer.0
adapter_response_to_plan-PassesChecks_example =
    adapter_response_to_plan-PassesChecks (λ t. t) templates request (plan_of []).metadata
      (plan_of []).impact response templates-Registered

abbrev built :
    (answer : RecoveryPlan × Build) × (adapter_response_to_plan
        (λ t. t)
        templates
        request
        (plan_of []).metadata
        (plan_of []).impact
        response
      ≡ resolved answer)
    × PassesChecks answer.0
built =
    adapter_response_to_plan-PassesChecks (λ t. t) templates request (plan_of []).metadata
      (plan_of []).impact response templates-Registered

adapter_response_to_plan-GatedPlan_example :
    GatedPlan templates request response.proposed_actions built.0.0
adapter_response_to_plan-GatedPlan_example =
    adapter_response_to_plan-GatedPlan (λ t. t) templates request (plan_of []).metadata
      (plan_of []).impact response built.0 built.1
