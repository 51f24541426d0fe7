-- ===== src/Templates.antt =====
-- src/framework/action-template-registry.ts: the registry of action templates and their expansion
-- into steps. The registry is a list in the order of registration.
pub mod Registered
use crisismode.Base.{
  ℕ, String, Bool, true, false, ◌&&◌, not, Option, none, some, List, [], ◌∷◌, ◌++◌, find, filter,
  any, is_some, is_empty, or_else, template, if◌then◌else◌, ◌==◌, leb,
}
use crisismode.Types.{
  Value, text, boolean, Fields, RiskLevel, routine, BlastRadius, CaptureDirective, PreCondition,
  RollbackDirective, SuccessCriteria, CheckExpression, Operator, eq, Command, structured_command,
  RecoveryStep, SystemActionStep, DiagnosisActionStep, OutputCapture, StatePreservation,
}
use crisismode.Types
use crisismode.Validator.Checks.{risk_name, is_routine}
use crisismode.Engine.Effects.{Reply, resolved, rejected}
use crisismode.Graph.Rollback.{field_of}

pub data StepType : Type 0 where
  diagnosis_action system_action : StepType

-- The fields of `ActionTemplate` that are read here and in bundle-to-plan.ts
pub record ActionTemplate : Type 0 where
  pub action_id : String
  pub display_name : String
  pub description : String
  pub skill_domain : String
  pub action_class : ℕ
  pub mutation_type : String
  pub step_type : StepType
  pub target_kinds : List String
  pub required_capabilities : List String
  pub execution_context : String
  pub default_timeout : String
  pub risk_level : Option RiskLevel
  pub blast_radius : Option BlastRadius
  pub preconditions : Option (List PreCondition)
  pub state_captures_before : Option (List CaptureDirective)
  pub state_captures_after : Option (List CaptureDirective)
  pub success_check : Option SuccessCriteria
  pub rollback : Option RollbackDirective

pub record TemplateExpansionArgs : Type 0 where
  pub step_id : String
  pub target : String
  pub params : Option Fields
  pub command : Option Command

-- `!list?.length`
unfoldable pub has_none : {A : Type 0} → Option (List A) → Bool
has_none none = true
has_none (some xs) = is_empty xs

unfoldable pub class_error : ActionTemplate → RiskLevel → Option String
unfolding is_routine has_none
class_error t risk =
    let fails = λ (what : String).
      some (template ("Template " ∷ t.action_id ∷ ": action_class >= 2 requires " ∷ what ∷ [])) in
    if is_routine risk
    then fails "risk_level >= elevated"
    else if has_none t.state_captures_before
    then fails "state_captures_before"
    else if not (is_some t.success_check)
    then fails "success_check"
    else if not (is_some t.rollback)
    then fails "rollback"
    else none

unfoldable pub risk_error : ActionTemplate → RiskLevel → Option String
unfolding class_error
risk_error t risk =
    if not (is_routine risk) && has_none t.state_captures_before
    then some (
        template (
          "Template "
          ∷ t.action_id
          ∷ ": "
          ∷ risk_name risk
          ∷ " risk requires state_captures_before"
          ∷ []))
    else if leb 2 t.action_class
    then class_error t risk
    else none

unfoldable pub action_error : ActionTemplate → Option RiskLevel → Option BlastRadius → Option String
unfolding risk_error
action_error t none blast =
    some (template ("Template " ∷ t.action_id ∷ " is system_action but missing risk_level" ∷ []))
action_error t (some risk) none =
    some (template ("Template " ∷ t.action_id ∷ " is system_action but missing blast_radius" ∷ []))
action_error t (some risk) (some blast) = risk_error t risk

-- What `register` throws for a new id, if it throws
unfoldable pub template_error : ActionTemplate → StepType → Option String
unfolding action_error
template_error t diagnosis_action = none
template_error t system_action = action_error t t.risk_level t.blast_radius

abbrev pub Templates : Type 0
Templates = List ActionTemplate

unfoldable pub has : String → Templates → Bool
has action_id ts = any (λ t. t.action_id == action_id) ts

unfoldable pub get : String → Templates → Option ActionTemplate
get action_id ts = find (λ t. t.action_id == action_id) ts

unfoldable pub list_by_domain : String → Templates → List ActionTemplate
list_by_domain skill_domain ts = filter (λ t. t.skill_domain == skill_domain) ts

unfoldable pub added : Templates → ActionTemplate → Option String → Reply Templates
added ts t none = resolved (ts ++ t ∷ [])
added ts t (some e) = rejected e

-- `register`
unfoldable pub register : ActionTemplate → Templates → Reply Templates
unfolding has template_error added
register t ts =
    if has t.action_id ts
    then rejected (template ("Action template already registered: " ∷ t.action_id ∷ []))
    else added ts t (template_error t t.step_type)

-- `registerBuiltInActionTemplates`, with its flag; an error leaves what was registered before it
unfoldable pub register_all : List ActionTemplate → Templates → Templates × Option String
unfolding register
register_all [] ts = (ts, none)
register_all (t ∷ rest) ts = elim (register t ts) [
  | resolved ts' ↦ register_all rest ts'
  | rejected e ↦ (ts, some e)
]

abbrev pub noop_command : Command
noop_command = record {
  type = structured_command;
  subtype = none;
  statement = none;
  operation = some "noop";
  parameters = none;
}

unfoldable pub text_value : Option Value → Option String
text_value (some (text t)) = if t == "" then none else some t
text_value _ = none

unfoldable pub capture_name : Option Fields → Option String
unfolding text_value
capture_name none = none
capture_name (some params) = text_value (field_of "outputCaptureName" params)

unfoldable pub output_capture : Option String → Option OutputCapture
output_capture none = none
output_capture (some name) =
    some (record { name = name; format = "table"; available_to = "subsequent_steps" })

unfoldable pub build_diagnosis_step : ActionTemplate → TemplateExpansionArgs → DiagnosisActionStep
unfolding capture_name output_capture
build_diagnosis_step t args = record {
  step_id = args.step_id;
  name = t.display_name;
  description = some t.description;
  execution_context = t.execution_context;
  target = args.target;
  command = or_else args.command noop_command;
  output_capture = output_capture (capture_name args.params);
  timeout = t.default_timeout;
}

-- The success criteria of a template that has none
unfoldable pub placeholder_check : ActionTemplate → SuccessCriteria
placeholder_check t = record {
  description = template (t.display_name ∷ " reports completion" ∷ []);
  check = record {
    type = "placeholder";
    statement = none;
    operation = none;
    parameters = none;
    operator = eq;
    value = boolean true;
  };
}

unfoldable pub pre_conditions : Option (List PreCondition) → Option (List PreCondition)
pre_conditions none = none
pre_conditions (some []) = none
pre_conditions (some (p ∷ ps)) = some (p ∷ ps)

unfoldable pub system_step :
    ActionTemplate → TemplateExpansionArgs → RiskLevel → BlastRadius → SystemActionStep
unfolding placeholder_check pre_conditions
system_step t args risk blast = record {
  step_id = args.step_id;
  name = t.display_name;
  description = some t.description;
  execution_context = t.execution_context;
  target = args.target;
  risk_level = risk;
  required_capabilities = t.required_capabilities;
  command = or_else args.command noop_command;
  pre_conditions = pre_conditions t.preconditions;
  state_preservation = record {
    before = or_else t.state_captures_before [];
    after = or_else t.state_captures_after [];
  };
  success_criteria = or_else t.success_check (placeholder_check t);
  rollback = t.rollback;
  blast_radius = blast;
  timeout = t.default_timeout;
  retry_policy = none;
  state_transition = none;
}

unfoldable pub build_system_action_step :
    ActionTemplate
    → TemplateExpansionArgs
    → Option RiskLevel
    → Option BlastRadius
    → Reply RecoveryStep
unfolding system_step
build_system_action_step t args (some risk) (some blast) =
    resolved (Types.system_action (system_step t args risk blast))
build_system_action_step t args _ _ = rejected (
    template
      ("Cannot build system_action without risk_level and blast_radius (" ∷ t.action_id ∷ ")" ∷ []))

unfoldable pub expand : ActionTemplate → TemplateExpansionArgs → StepType → Reply RecoveryStep
unfolding build_system_action_step build_diagnosis_step
expand t args diagnosis_action = resolved (Types.diagnosis_action (build_diagnosis_step t args))
expand t args system_action = build_system_action_step t args t.risk_level t.blast_radius

-- `templateToStep`
unfoldable pub template_to_step : ActionTemplate → TemplateExpansionArgs → Reply RecoveryStep
unfolding expand
template_to_step t args = expand t args t.step_type
