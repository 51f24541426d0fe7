-- ===== src/Bundle.antt =====
-- src/framework/bundle-to-plan.ts: the steps of a plan for the actions that a bundle proposes. The
-- metadata and the impact of the plan, which are text, are given.
pub mod Checks
pub mod Gates
use crisismode.Base.{
  ℕ, suc, String, Bool, true, false, not, Option, none, some, List, [], ◌∷◌, ◌++◌, length, any,
  is_some, is_empty, or_else, template, join, show, nat_eq, leb, if◌then◌else◌, ◌==◌,
}
use crisismode.Types.{
  Value, text, Fields, RiskLevel, routine, Approver, Recipient, Urgency, TimeoutAction,
  RecoveryStep, SystemActionStep, system_action, diagnosis_action, human_notification,
  human_approval, HumanApprovalStep, HumanNotificationStep, RecoveryPlan, PlanMetadata, PlanImpact,
  RollbackStrategy, RollbackStrategyType,
}
use crisismode.Risk.{risk_exceeds}
use crisismode.Engine.Effects.{Reply, resolved, rejected}
use crisismode.Graph.Rollback.{field_of}
use crisismode.Templates.{ActionTemplate, Templates, get, template_to_step}

pub record ProposedAction : Type 0 where
  pub action_id : String
  pub summary : String
  pub action_class : ℕ
  pub mutation_type : String
  pub evidence_refs : List String
  pub params : Fields

-- What is read of `AdapterRequest` and `AdapterResponse` for the steps
pub record AdapterRequest : Type 0 where
  pub incident_session_id : String
  pub case_id : String

pub record AdapterResponse : Type 0 where
  pub proposed_actions : List ProposedAction
  pub primary_hypothesis_id : Option String
  pub unsafe_actions_avoided : List String
  pub evidence_refs : List String

-- What the loop over the actions changes
pub record Build : Type 0 where
  pub step_counter : ℕ
  pub steps : List RecoveryStep
  pub rejected : List String
  pub warnings : List String
  pub step_id_to_action_id : List (String × String)

-- `padStart(3, '0')`
unfoldable pub pad_start : ℕ → String
pad_start n = template ((if leb n 9 then "00" else if leb n 99 then "0" else "") ∷ show n ∷ [])

unfoldable pub step_id_at : ℕ → String
unfolding pad_start
step_id_at n = template ("bundle-step-" ∷ pad_start n ∷ [])

unfoldable pub text_target : Option Value → Option String
text_target (some (text t)) = if t == "" then none else some t
text_target _ = none

unfoldable pub first_kind : List String → Option String
first_kind [] = none
first_kind (k ∷ ks) = if k == "" then none else some k

-- `pickTarget`; an empty target is no target for the caller
unfoldable pub pick_target : ProposedAction → ActionTemplate → Option String
unfolding text_target first_kind
pick_target action t = elim (text_target (field_of "target" action.params)) [
  | none ↦ first_kind t.target_kinds
  | some target ↦ some target
]

unfoldable pub class_warnings : ProposedAction → ActionTemplate → List String
class_warnings action t =
    (if nat_eq action.action_class t.action_class
      then []
      else template (
          action.action_id
          ∷ ": response.action_class="
          ∷ show action.action_class
          ∷ " but template.action_class="
          ∷ show t.action_class
          ∷ "; using template"
          ∷ [])
        ∷ [])
    ++ (if action.mutation_type == t.mutation_type
        then []
        else template (
            action.action_id ∷ ": response.mutation_type=" ∷ action.mutation_type
            ∷ " but template.mutation_type=" ∷ t.mutation_type ∷ "; using template" ∷ [])
          ∷ [])

-- `annotateProvenance`
unfoldable pub annotate_provenance : Option String → AdapterRequest → ProposedAction → String
annotate_provenance existing request action =
    let tag = template (
      "[bundle: incident_session="
      ∷ request.incident_session_id
      ∷ ", case="
      ∷ request.case_id
      ∷ ", evidence="
      ∷ (if is_empty action.evidence_refs then "none" else join "," action.evidence_refs)
      ∷ "]"
      ∷ []) in
    elim existing [ none ↦ tag | some e ↦ if e == "" then tag else template (e ∷ "\n" ∷ tag ∷ []) ]

-- `step.description = …`, on the steps that a template gives
unfoldable pub stamp : AdapterRequest → ProposedAction → RecoveryStep → RecoveryStep
unfolding annotate_provenance
stamp request action (system_action s) =
    system_action
      (record s { description = some (annotate_provenance s.description request action) })
stamp request action (diagnosis_action s) =
    diagnosis_action
      (record s { description = some (annotate_provenance s.description request action) })
stamp request action s = s

-- An action of more than routine risk
unfoldable pub is_elevated : RecoveryStep → Bool
is_elevated (system_action s) = risk_exceeds s.risk_level routine
is_elevated _ = false

unfoldable pub has_elevated_or_higher : List RecoveryStep → Bool
unfolding is_elevated
has_elevated_or_higher steps = any is_elevated steps

unfoldable pub build_notification_step :
    String → AdapterRequest → AdapterResponse → HumanNotificationStep
build_notification_step id request response = record {
  step_id = id;
  name = "Notify on-call before elevated+ recovery actions";
  recipients = record { role = "on_call"; urgency = Urgency.high } ∷ [];
  message = record {
    summary = template (
        "Bundle-driven recovery initiating for "
        ∷ request.case_id
        ∷ (if is_some response.primary_hypothesis_id then "" else " (no primary hypothesis)")
        ∷ []);
    detail = template (
        "Plan derived from incident-generator bundle incident_session="
        ∷ request.incident_session_id
        ∷ ", case="
        ∷ request.case_id
        ∷ ". "
        ∷ show (length response.proposed_actions)
        ∷ " proposed action(s); "
        ∷ show (length response.unsafe_actions_avoided)
        ∷ " unsafe action(s) avoided."
        ∷ []);
    context_references = some response.evidence_refs;
    action_required = false;
    guide_ids = none;
    guide_vars = none;
  };
  channel = "auto";
}

unfoldable pub is_action : RecoveryStep → Bool
is_action (system_action _) = true
is_action _ = false

unfoldable pub is_reversible_action : RecoveryStep → Bool
is_reversible_action (system_action s) = is_some s.rollback
is_reversible_action _ = false

unfoldable pub derive_rollback_strategy : List RecoveryStep → RollbackStrategy
unfolding is_action is_reversible_action
derive_rollback_strategy steps =
    if not (any is_action steps)
    then record {
      type = RollbackStrategyType.none;
      description = "Read-only plan; no rollback required.";
    }
    else if any is_reversible_action steps
    then record {
      type = RollbackStrategyType.stepwise;
      description =
          "Stepwise rollback: each mutating step carries its own rollback directive from its action template. Stop on first failure and execute rollbacks in reverse order.";
    }
    else record {
      type = RollbackStrategyType.stepwise;
      description =
          "Stop on first failure; mutating steps are routine-risk and can be undone by manual reversal of the underlying action.";
    }

unfoldable pub reject : ProposedAction → String → Build → Build
reject action reason b = record b {
  rejected = b.rejected ++ template (action.action_id ∷ reason ∷ []) ∷ [];
}

abbrev pub no_steps : Build
no_steps = record {
  step_counter = 0;
  steps = [];
  rejected = [];
  warnings = [];
  step_id_to_action_id = [];
}

unfoldable pub warn_empty : Build → Build
warn_empty b =
    if is_empty b.steps
    then record b { warnings = b.warnings ++ "No executable steps produced from bundle" ∷ [] }
    else b

unfoldable pub plan_of : PlanMetadata → PlanImpact → Build → RecoveryPlan
unfolding derive_rollback_strategy
plan_of metadata impact b = record {
  api_version = "crisismode/v1";
  metadata = metadata;
  impact = impact;
  steps = b.steps;
  rollback_strategy = some (derive_rollback_strategy b.steps);
}

module _ (to_lower_case : String → String) (registry : Templates) (request : AdapterRequest) where
  unfoldable pub build_approval_step : String → ProposedAction → ActionTemplate → HumanApprovalStep
  build_approval_step id action t = record {
    step_id = id;
    name = template ("Approve: " ∷ t.display_name ∷ []);
    description = some (
        template (
          "Bundle action_policy requires human approval for any mutation. Action "
          ∷ action.action_id
          ∷ " would "
          ∷ to_lower_case t.description
          ∷ []));
    approvers = record { role = "on_call"; required = true } ∷ [];
    required_approvals = 1;
    presentation = record {
      summary = template ("Approve " ∷ action.action_id ∷ " (" ∷ t.mutation_type ∷ ")" ∷ []);
      detail = action.summary;
      context_references = some action.evidence_refs;
      proposed_actions = action.action_id ∷ [];
      risk_summary =
          some (template ("class " ∷ show action.action_class ∷ " / " ∷ t.mutation_type ∷ []));
      alternatives = ("abort", "Reject and abort the recovery plan.") ∷ [];
    };
    timeout = "PT15M";
    timeout_action = TimeoutAction.pause;
    escalate_to = none;
  }

  -- The approval in front of an action that mutates
  unfoldable pub add_approval : ProposedAction → ActionTemplate → Build → Build
  unfolding build_approval_step step_id_at
  add_approval action t b =
      let id = step_id_at (suc b.step_counter) in
      if t.mutation_type == "none" then b else record b {
        step_counter = suc b.step_counter;
        steps = b.steps ++ human_approval (build_approval_step id action t) ∷ [];
        step_id_to_action_id = b.step_id_to_action_id ++ (id, action.action_id) ∷ [];
      }

  unfoldable pub add_expanded : ProposedAction → Build → Reply RecoveryStep → Reply Build
  unfolding stamp step_id_at
  add_expanded action b (rejected e) = rejected e
  add_expanded action b (resolved step) = resolved (record b {
    step_counter = suc b.step_counter;
    steps = b.steps ++ stamp request action step ∷ [];
    step_id_to_action_id =
        b.step_id_to_action_id ++ (step_id_at (suc b.step_counter), action.action_id) ∷ [];
  })

  unfoldable pub add_step : ProposedAction → ActionTemplate → String → Build → Reply Build
  unfolding add_expanded step_id_at
  add_step action t target b = add_expanded action b (
      template_to_step t (record {
        step_id = step_id_at (suc b.step_counter);
        target = target;
        params = some action.params;
        command = none;
      }))

  unfoldable pub add_targeted :
      ProposedAction → ActionTemplate → Option String → Build → Reply Build
  unfolding add_step add_approval reject
  add_targeted action t none b = resolved (reject action " (no target could be inferred)" b)
  add_targeted action t (some target) b = add_step action t target (add_approval action t b)

  unfoldable pub add_known : ProposedAction → Option ActionTemplate → Build → Reply Build
  unfolding add_targeted reject class_warnings pick_target
  add_known action none b = resolved (reject action " (no template registered)" b)
  add_known action (some t) b =
      add_targeted action t (pick_target action t)
        (record b { warnings = b.warnings ++ class_warnings action t })

  -- One round of the loop
  unfoldable pub add_action : ProposedAction → Build → Reply Build
  unfolding add_known
  add_action action b = add_known action (get action.action_id registry) b

  unfoldable pub add_actions : List ProposedAction → Build → Reply Build
  unfolding add_action
  add_actions [] b = resolved b
  add_actions (a ∷ rest) b = elim (add_action a b) [
    | resolved b' ↦ add_actions rest b'
    | rejected e ↦ rejected e
  ]

  unfoldable pub notify_first : AdapterResponse → Build → Build
  unfolding has_elevated_or_higher build_notification_step step_id_at
  notify_first response b =
      if has_elevated_or_higher b.steps
      then record b {
        step_counter = suc b.step_counter;
        steps =
            human_notification
              (build_notification_step (step_id_at (suc b.step_counter)) request response)
            ∷ b.steps;
      }
      else b

  -- After the loop
  unfoldable pub finish_plan :
      PlanMetadata → PlanImpact → AdapterResponse → Reply Build → Reply (RecoveryPlan × Build)
  unfolding notify_first warn_empty plan_of
  finish_plan metadata impact response (rejected e) = rejected e
  finish_plan metadata impact response (resolved b) =
      let b' = notify_first response (warn_empty b) in resolved (plan_of metadata impact b', b')

  -- `adapterResponseToPlan`: the plan, with what else the loop has gathered
  unfoldable pub adapter_response_to_plan :
      PlanMetadata → PlanImpact → AdapterResponse → Reply (RecoveryPlan × Build)
  unfolding add_actions finish_plan
  adapter_response_to_plan metadata impact response =
      finish_plan metadata impact response (add_actions response.proposed_actions no_steps)
