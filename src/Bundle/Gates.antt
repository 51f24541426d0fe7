-- ===== src/Bundle/Gates.antt =====
-- The approvals in the plan for a bundle.
use mathlib.Core.List.{Mem, mem-cons_self, mem-cons_of_mem}
use crisismode.Base.{
  suc, String, Bool, true, false, ◌≡◌, refl, arith, subst, Option, none, some, List, [], ◌∷◌, ◌++◌,
  All, All-mono, if◌then◌else◌, ◌==◌, ◌⊎◌, inl, inr, is_empty,
}
use crisismode.Types.{
  RecoveryStep, HumanApprovalStep, HumanNotificationStep, human_approval, human_notification,
  RecoveryPlan, PlanMetadata, PlanImpact,
}
use crisismode.Engine.Effects.{Reply, resolved, rejected}
use crisismode.Templates.{ActionTemplate, TemplateExpansionArgs, Templates, get, template_to_step}
use crisismode.Bundle.{
  ProposedAction, AdapterRequest, AdapterResponse, Build, stamp, has_elevated_or_higher,
  add_approval, add_expanded, add_step, add_targeted, add_known, add_action, add_actions, no_steps,
  notify_first, warn_empty, plan_of, finish_plan, build_approval_step, build_notification_step,
  step_id_at, adapter_response_to_plan, reject, pick_target,
}

-- The step is what the template of the action gives, with its provenance.
abbrev pub ComesFrom : AdapterRequest → ProposedAction → ActionTemplate → RecoveryStep → Type 0
ComesFrom request action t s =
    (args : TemplateExpansionArgs) × (expanded : RecoveryStep) × (template_to_step t args
      ≡ resolved expanded)
    × (s ≡ stamp request action expanded)

-- Steps of actions: one that does not mutate stands alone, any other behind an approval for it.
pub data Gated (registry : Templates) (request : AdapterRequest) (proposed : List ProposedAction)
    : List RecoveryStep → Type 0 where
  nothing : Gated registry request proposed []
  harmless :
      {ss : List RecoveryStep} (action : ProposedAction) (t : ActionTemplate) (s : RecoveryStep)
      → Gated registry request proposed ss
      → Mem action proposed
      → get action.action_id registry ≡ some t
      → (t.mutation_type == "none") ≡ true
      → ComesFrom request action t s
      → Gated registry request proposed (ss ++ s ∷ [])
  approved :
      {ss : List RecoveryStep} (action : ProposedAction) (t : ActionTemplate)
      (a : HumanApprovalStep) (s : RecoveryStep)
      → Gated registry request proposed ss
      → Mem action proposed
      → get action.action_id registry ≡ some t
      → (t.mutation_type == "none") ≡ false
      → a.presentation.proposed_actions ≡ action.action_id ∷ []
      → ComesFrom request action t s
      → Gated registry request proposed ((ss ++ human_approval a ∷ []) ++ s ∷ [])

module _ (to_lower_case : String → String) (registry : Templates) (request : AdapterRequest)
    (proposed : List ProposedAction) where
  abbrev Stays : Reply Build → Type 0
  Stays (resolved b) = Gated registry request proposed b.steps
  Stays (rejected e) = Unit

  add_step-Gated :
      (action : ProposedAction) (t : ActionTemplate) (target : String) (b : Build)
      → ((s : RecoveryStep)
          → ComesFrom request action t s
          → Gated registry request proposed (b.steps ++ s ∷ []))
      → Stays (add_step to_lower_case registry request action t target b)
  unfolding add_step add_expanded
  add_step-Gated action t target b h = by_reply (template_to_step t args) refl
    where
      args : TemplateExpansionArgs
      args = record {
        step_id = step_id_at (suc b.step_counter);
        target = target;
        params = some action.params;
        command = none;
      }

      by_reply :
          (r : Reply RecoveryStep)
          → template_to_step t args ≡ r
          → Stays (add_expanded to_lower_case registry request action b r)
      by_reply (resolved s) e = h (stamp request action s) (args, s, e, refl)
      by_reply (rejected x) e = tt

  add_targeted-Gated :
      (action : ProposedAction) (t : ActionTemplate) (target : Option String) (b : Build)
      → get action.action_id registry ≡ some t
      → Mem action proposed
      → Gated registry request proposed b.steps
      → Stays (add_targeted to_lower_case registry request action t target b)
  unfolding add_targeted reject add_approval build_approval_step
  add_targeted-Gated action t none b e i h = h
  add_targeted-Gated action t (some target) b e i h = by_test (t.mutation_type == "none") refl
    where
      id : String
      id = step_id_at (suc b.step_counter)

      after : Build
      after = record b {
        step_counter = suc b.step_counter;
        steps =
            b.steps
            ++ human_approval (build_approval_step to_lower_case registry request id action t) ∷ [];
        step_id_to_action_id = b.step_id_to_action_id ++ (id, action.action_id) ∷ [];
      }

      by_test :
          (x : Bool)
          → (t.mutation_type == "none") ≡ x
          → Stays (add_step to_lower_case registry request action t target (if x then b else after))
      by_test true m = add_step-Gated action t target b λ s from. harmless action t s h i e m from
      by_test false m =
          add_step-Gated action t target after λ s from. approved action t _ s h i e m refl from

  add_known-Gated :
      (action : ProposedAction) (o : Option ActionTemplate) (b : Build)
      → get action.action_id registry ≡ o
      → Mem action proposed
      → Gated registry request proposed b.steps
      → Stays (add_known to_lower_case registry request action o b)
  unfolding add_known reject
  add_known-Gated action none b e i h = h
  add_known-Gated action (some t) b e i h =
      add_targeted-Gated action t (pick_target action t) _ e i h

  add_actions-Gated :
      (actions : List ProposedAction) (b : Build)
      → All (λ a. Mem a proposed) actions
      → Gated registry request proposed b.steps
      → Stays (add_actions to_lower_case registry request actions b)
  unfolding add_actions add_action
  add_actions-Gated [] b is h = h
  add_actions-Gated (a ∷ rest) b (i, is) h =
      go_on (add_known to_lower_case registry request a (get a.action_id registry) b)
        (add_known-Gated a (get a.action_id registry) b refl i h)
        (λ b' k. add_actions-Gated rest b' is k)
    where
      go_on :
          (r : Reply Build)
          → Stays r
          → ((b' : Build)
              → Gated registry request proposed b'.steps
              → Stays (add_actions to_lower_case registry request rest b'))
          → Stays (elim r [
            | resolved b' ↦ add_actions to_lower_case registry request rest b'
            | rejected e ↦ rejected e
          ])
      go_on (resolved b') k next = next b' k
      go_on (rejected e) k next = tt

-- Gated steps, or these behind one notification
abbrev pub GatedPlan : Templates → AdapterRequest → List ProposedAction → RecoveryPlan → Type 0
GatedPlan registry request proposed plan =
    Gated registry request proposed plan.steps
    ⊎ ((n : HumanNotificationStep) × (ss : List RecoveryStep) × (plan.steps
          ≡ human_notification n ∷ ss)
        × Gated registry request proposed ss)

All-Mem : {A : Type 0} (xs : List A) → All (λ x. Mem x xs) xs
All-Mem [] = tt
All-Mem (x ∷ xs) = (mem-cons_self, All-mono xs (λ y m. mem-cons_of_mem x m) (All-Mem xs))

resolved-inj : {A : Type 0} {a b : A} → resolved a ≡ resolved b → a ≡ b
resolved-inj h = cc

-- In the plan for a bundle, behind the notification if there is one, every step comes from the
-- template of a proposed action; and if the template mutates, the step in front of it is an approval
-- by a human that proposes just that action.
pub adapter_response_to_plan-GatedPlan :
    (to_lower_case : String → String) (registry : Templates) (request : AdapterRequest)
    (metadata : PlanMetadata) (impact : PlanImpact) (response : AdapterResponse)
    (answer : RecoveryPlan × Build)
    → adapter_response_to_plan to_lower_case registry request metadata impact response
      ≡ resolved answer
    → GatedPlan registry request response.proposed_actions answer.0
unfolding adapter_response_to_plan finish_plan notify_first warn_empty plan_of
adapter_response_to_plan-GatedPlan to_lower_case registry request metadata impact response answer
      h =
    by_loop (add_actions to_lower_case registry request response.proposed_actions no_steps)
      (add_actions-Gated to_lower_case registry request response.proposed_actions
        response.proposed_actions no_steps (All-Mem response.proposed_actions) nothing)
      h
  where
    told : Build → Bool → Build
    told b x =
        if x
        then record b {
          step_counter = suc b.step_counter;
          steps =
              human_notification
                (build_notification_step (step_id_at (suc b.step_counter)) request response)
              ∷ b.steps;
        }
        else b

    by_tests :
        (b : Build) (x : Bool)
        → Gated registry request response.proposed_actions b.steps
        → GatedPlan registry request response.proposed_actions (plan_of metadata impact (told b x))
    by_tests b true g = inr (_, b.steps, refl, g)
    by_tests b false g = inl g

    warned :
        (b : Build) (y : Bool)
        → Gated registry request response.proposed_actions b.steps
        → Gated registry request response.proposed_actions
            (if y
              then record b {
                warnings = b.warnings ++ "No executable steps produced from bundle" ∷ [];
              }
              else b).steps
    warned b true g = g
    warned b false g = g

    by_loop :
        (r : Reply Build)
        → Stays to_lower_case registry request response.proposed_actions r
        → finish_plan to_lower_case registry request metadata impact response r ≡ resolved answer
        → GatedPlan registry request response.proposed_actions answer.0
    by_loop (resolved b) g e =
        subst
          (λ (p : RecoveryPlan × Build). GatedPlan registry request response.proposed_actions p.0)
          (resolved-inj e)
          (by_tests (warn_empty b) (has_elevated_or_higher (warn_empty b).steps)
            (warned b (is_empty b.steps) g))
    by_loop (rejected x) g e = ground arith
