-- ===== src/Bundle/Checks.antt =====
-- The plan for a bundle, and the checks of the validator that it passes.
use crisismode.Base.{
  ℕ, suc, String, Bool, true, false, not, ◌||◌, arith, ◌≡◌, refl, sym, ap, subst, Option, none,
  some, List, [], ◌∷◌, any, is_empty, All, All-append, if◌then◌else◌, ◌==◌,
}
use crisismode.Types.{
  RecoveryStep, system_action, diagnosis_action, human_notification, human_approval, checkpoint,
  replanning_checkpoint, conditional, RecoveryPlan, PlanMetadata, PlanImpact, routine,
}
use crisismode.Risk.{visits, walk_steps, get_step_risk}
use crisismode.Risk.Depth.{is_nested}
use crisismode.Validator.Checks.{
  report, exceeds, lacks_capture, is_notification, check_state_preservation,
  check_human_notification, check_rollback_strategy, check_no_nested_conditionals,
}
use crisismode.Engine.Effects.{Reply, resolved, rejected}
use crisismode.Templates.{ActionTemplate, Templates, get}
use crisismode.Templates.Registered.{Registered, IsScaffolded, template_to_step-IsScaffolded}
use crisismode.Bundle.{
  ProposedAction, AdapterRequest, AdapterResponse, Build, stamp, is_elevated,
  has_elevated_or_higher, add_approval, add_expanded, add_step, add_targeted, add_known, add_action,
  add_actions, no_steps, notify_first, warn_empty, plan_of, finish_plan, build_notification_step,
  step_id_at, adapter_response_to_plan, reject, pick_target,
}

-- A step that is no conditional and does not lack the captures of its risk
abbrev IsReady : RecoveryStep → Type 0
IsReady (conditional c t e) = ⊥
IsReady s = lacks_capture s ≡ false

stamp-IsReady :
    (class : ℕ) (request : AdapterRequest) (action : ProposedAction) (s : RecoveryStep)
    → IsScaffolded class s
    → IsReady (stamp request action s)
unfolding stamp lacks_capture
stamp-IsReady class request action (system_action s) h = h.0
stamp-IsReady class request action (diagnosis_action s) h = h
stamp-IsReady class request action (human_notification s) h = elim h [ ]
stamp-IsReady class request action (human_approval s) h = elim h [ ]
stamp-IsReady class request action (checkpoint s) h = elim h [ ]
stamp-IsReady class request action (replanning_checkpoint s) h = elim h [ ]
stamp-IsReady class request action (conditional c t e) h = elim h [ ]

either :
    (x : Bool) (a b : Build)
    → All IsReady a.steps
    → All IsReady b.steps
    → All IsReady (if x then a else b).steps
either true a b h k = h
either false a b h k = k

module _ (to_lower_case : String → String) (registry : Templates) (request : AdapterRequest)
    (registered : Registered registry) where
  -- The round goes on, with steps that are ready.
  abbrev Goes : Reply Build → Type 0
  Goes r = (b : Build) × (r ≡ resolved b) × All IsReady b.steps

  add_approval-IsReady :
      (action : ProposedAction) (t : ActionTemplate) (b : Build)
      → All IsReady b.steps
      → All IsReady (add_approval to_lower_case registry request action t b).steps
  unfolding add_approval lacks_capture
  add_approval-IsReady action t b h =
      either (t.mutation_type == "none") b _ h
        (All-append IsReady b.steps (human_approval _ ∷ []) h (refl, tt))

  add_step-Goes :
      (action : ProposedAction) (t : ActionTemplate) (target : String) (b : Build)
      → get action.action_id registry ≡ some t
      → All IsReady b.steps
      → Goes (add_step to_lower_case registry request action t target b)
  unfolding add_step add_expanded
  add_step-Goes action t target b e h =
      let (s, expanded, scaffolded) =
        template_to_step-IsScaffolded registry action.action_id t _ registered e in
      subst (λ r. Goes (add_expanded to_lower_case registry request action b r)) (sym expanded)
        (
          _,
          refl,
          All-append IsReady b.steps (stamp request action s ∷ []) h
              (stamp-IsReady t.action_class request action s scaffolded, tt),
        )

  add_targeted-Goes :
      (action : ProposedAction) (t : ActionTemplate) (target : Option String) (b : Build)
      → get action.action_id registry ≡ some t
      → All IsReady b.steps
      → Goes (add_targeted to_lower_case registry request action t target b)
  unfolding add_targeted reject
  add_targeted-Goes action t none b e h = (_, refl, h)
  add_targeted-Goes action t (some target) b e h =
      add_step-Goes action t target (add_approval to_lower_case registry request action t b) e
        (add_approval-IsReady action t b h)

  add_known-Goes :
      (action : ProposedAction) (o : Option ActionTemplate) (b : Build)
      → get action.action_id registry ≡ o
      → All IsReady b.steps
      → Goes (add_known to_lower_case registry request action o b)
  unfolding add_known reject
  add_known-Goes action none b e h = (_, refl, h)
  add_known-Goes action (some t) b e h = add_targeted-Goes action t (pick_target action t) _ e h

  add_actions-Goes :
      (actions : List ProposedAction) (b : Build)
      → All IsReady b.steps
      → Goes (add_actions to_lower_case registry request actions b)
  unfolding add_actions add_action
  add_actions-Goes [] b h = (b, refl, h)
  add_actions-Goes (a ∷ rest) b h =
      let (b', e, h') = add_known-Goes a (get a.action_id registry) b refl h in
      subst
        (λ r. Goes (elim r [
          | resolved b ↦ add_actions to_lower_case registry request rest b
          | rejected e ↦ rejected e
        ]))
        (sym e) (add_actions-Goes rest b' h')

-- What the validator sees of a ready step
record Seen (s : RecoveryStep) : Type 0 where
  alone : visits s ≡ s ∷ []
  captured : lacks_capture s ≡ false
  flat : is_nested s ≡ false
  risky : exceeds routine (get_step_risk s) ≡ is_elevated s

ready-Seen : (s : RecoveryStep) → IsReady s → Seen s
unfolding visits is_nested exceeds get_step_risk is_elevated
ready-Seen (system_action s) h = record { alone = refl; captured = h; flat = refl; risky = refl }
ready-Seen (diagnosis_action s) h = record { alone = refl; captured = h; flat = refl; risky = refl }
ready-Seen (human_notification s) h = record {
  alone = refl;
  captured = h;
  flat = refl;
  risky = refl;
}
ready-Seen (human_approval s) h = record { alone = refl; captured = h; flat = refl; risky = refl }
ready-Seen (checkpoint s) h = record { alone = refl; captured = h; flat = refl; risky = refl }
ready-Seen (replanning_checkpoint s) h = record {
  alone = refl;
  captured = h;
  flat = refl;
  risky = refl;
}
ready-Seen (conditional c t e) h = elim h [ ]

walk_steps-ready :
    (ss : List RecoveryStep) → All IsReady ss → any lacks_capture (walk_steps ss) ≡ false
unfolding walk_steps
walk_steps-ready [] h = refl
walk_steps-ready (s ∷ ss) h =
    let seen = ready-Seen s h.0 in rw (seen.alone, seen.captured) (walk_steps-ready ss h.1)

nested-ready : (ss : List RecoveryStep) → All IsReady ss → any is_nested ss ≡ false
nested-ready [] h = refl
nested-ready (s ∷ ss) h = let seen = ready-Seen s h.0 in rw seen.flat (nested-ready ss h.1)

risky-ready :
    (ss : List RecoveryStep)
    → All IsReady ss
    → any (λ s. exceeds routine (get_step_risk s)) ss ≡ has_elevated_or_higher ss
unfolding has_elevated_or_higher
risky-ready [] h = refl
risky-ready (s ∷ ss) h =
    let seen = ready-Seen s h.0 in rw seen.risky (ap (λ b. is_elevated s || b) (risky-ready ss h.1))

-- The checks of the validator that the steps of a bundle are built for
abbrev pub PassesChecks : RecoveryPlan → Type 0
PassesChecks plan =
    ((check_state_preservation plan).passed ≡ true)
    × ((check_human_notification plan).passed ≡ true)
    × ((check_rollback_strategy plan).passed ≡ true)
    × ((check_no_nested_conditionals plan).passed ≡ true)

ready-PassesChecks :
    (metadata : PlanMetadata) (impact : PlanImpact) (b : Build)
    → All IsReady b.steps
    → (not (has_elevated_or_higher b.steps) || any is_notification (walk_steps b.steps)) ≡ true
    → PassesChecks (plan_of metadata impact b)
unfolding plan_of check_state_preservation check_human_notification check_rollback_strategy
    check_no_nested_conditionals report
ready-PassesChecks metadata impact b h told = (
  rw (walk_steps-ready b.steps h) refl,
  rw (risky-ready b.steps h) told,
  refl,
  rw (nested-ready b.steps h) refl,
)

warned : (b : Build) → All IsReady b.steps → All IsReady (warn_empty b).steps
unfolding warn_empty
warned b h = either (is_empty b.steps) _ b h h

-- With a notification in front, if an action is of more than routine risk
notified :
    (to_lower_case : String → String) (registry : Templates) (request : AdapterRequest)
    (response : AdapterResponse) (b : Build)
    → All IsReady b.steps
    → All IsReady (notify_first to_lower_case registry request response b).steps
      × ((not (
              has_elevated_or_higher (notify_first to_lower_case registry request response b).steps)
            || any is_notification
                (walk_steps (notify_first to_lower_case registry request response b).steps))
          ≡ true)
unfolding notify_first walk_steps visits is_notification lacks_capture
notified to_lower_case registry request response b h = by_test (has_elevated_or_higher b.steps) refl
  where
    notice : Build
    notice = record b {
      step_counter = suc b.step_counter;
      steps =
          human_notification
            (build_notification_step (step_id_at (suc b.step_counter)) request response)
          ∷ b.steps;
    }

    by_test :
        (x : Bool)
        → has_elevated_or_higher b.steps ≡ x
        → All IsReady (if x then notice else b).steps
          × ((not (has_elevated_or_higher (if x then notice else b).steps)
                || any is_notification (walk_steps (if x then notice else b).steps))
              ≡ true)
    by_test true e = ((refl, h), ground arith)
    by_test false e = (h, rw e refl)

-- On a registry that registration has filled, a bundle always gives a plan; and the validator's
-- checks of state preservation, of the notification of a human, of the rollback strategy and of
-- nested conditionals pass on it.
pub adapter_response_to_plan-PassesChecks :
    (to_lower_case : String → String) (registry : Templates) (request : AdapterRequest)
    (metadata : PlanMetadata) (impact : PlanImpact) (response : AdapterResponse)
    → Registered registry
    → (answer : RecoveryPlan × Build) × (adapter_response_to_plan to_lower_case registry request
          metadata impact response
        ≡ resolved answer)
      × PassesChecks answer.0
unfolding adapter_response_to_plan finish_plan
adapter_response_to_plan-PassesChecks to_lower_case registry request metadata impact response r =
    let (b, e, h) =
      add_actions-Goes to_lower_case registry request r response.proposed_actions no_steps tt in
    let (ready, told) =
      notified to_lower_case registry request response (warn_empty b) (warned b h) in
    (
      _,
      ap (finish_plan to_lower_case registry request metadata impact response) e,
      ready-PassesChecks metadata impact
          (notify_first to_lower_case registry request response (warn_empty b)) ready told,
    )
