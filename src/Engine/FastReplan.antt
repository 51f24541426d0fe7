-- ===== src/Engine/FastReplan.antt =====
-- The conditions of a fast replan.
use crisismode.Base.{
  ◌≤◌, String, Bool, true, false, ◌≡◌, refl, ◌↔◌, List, [], All, includes, map, every, every→All,
  All→every, ltb, ltb→le, arith, not, if◌then◌else◌,
}
use crisismode.Types.{SystemActionStep, AffectedSystem, RecoveryStep, RecoveryPlan}
use crisismode.Risk.{
  index_of, walk_steps, contexts_from, collect_execution_contexts, collect_system_actions,
  get_max_risk_index, derive_plan_max_risk_level,
}
use crisismode.Risk.Bounds.{index_of-derive, derive_plan_max_risk_level-le_iff}
use crisismode.Validator.Steps.{RunsIn, contexts_from-All}
use crisismode.Engine.Steps.{check_fast_replan_conditions}

-- A revised plan stays within the original one.
pub record StaysWithin (original revised : RecoveryPlan) : Type 0 where
  pub contexts :
      All
        (RunsIn (λ c. includes c (collect_execution_contexts original.steps)))
        (walk_steps revised.steps)
  pub risks :
      All
        (λ (a : SystemActionStep).
          index_of a.risk_level ≤ index_of (derive_plan_max_risk_level original))
        (collect_system_actions revised.steps)
  pub targets :
      All
        (λ (s : AffectedSystem).
          includes s.identifier (map (λ t. t.identifier) original.impact.affected_systems) ≡ true)
        revised.impact.affected_systems

every-contexts :
    (p : String → Bool) (ss : List RecoveryStep)
    → (every p (collect_execution_contexts ss) ≡ true) ↔ All (RunsIn p) (walk_steps ss)
unfolding collect_execution_contexts
every-contexts p ss =
    let walked = contexts_from-All p [] (walk_steps ss) in
    (
      λ h. (walked.0 (every→All p (contexts_from [] (walk_steps ss)) h)).1,
      λ h. All→every p (contexts_from [] (walk_steps ss)) (walked.1 (tt, h)),
    )

-- The cascade of the tests
tests_iff :
    (a b c : Bool)
    → ((if not a then false else if b then false else c) ≡ true)
      ↔ ((a ≡ true) × ((b ≡ false) × (c ≡ true)))
tests_iff true true c = (λ h. cc, λ h. cc)
tests_iff true false c = (λ h. (refl, (refl, h)), λ h. h.1.1)
tests_iff false b c = (λ h. cc, λ h. cc)

module _ (original revised : RecoveryPlan) where
  risks_iff_within :
      (ltb (get_max_risk_index original.steps) (get_max_risk_index revised.steps) ≡ false)
      ↔ All
          (λ (a : SystemActionStep).
            index_of a.risk_level ≤ index_of (derive_plan_max_risk_level original))
          (collect_system_actions revised.steps)
  risks_iff_within =
      let bound = derive_plan_max_risk_level-le_iff revised (derive_plan_max_risk_level original) in
      (
        λ h. bound.0 (rw (index_of-derive revised, index_of-derive original) (ltb→le _ _ h)),
        λ h.
            let le = bound.1 h in
            ground (arith, rw (index_of-derive revised, index_of-derive original) at le),
      )

  -- The conditions of a fast replan hold exactly if every step that the walk over the revised plan
  -- visits runs in an execution context of the original plan, no visited system action of the
  -- revised plan is above the risk that is derived for the original, and every system that the
  -- revised plan affects is one that the original affects.
  pub check_fast_replan_conditions-StaysWithin_iff :
      (check_fast_replan_conditions original revised ≡ true) ↔ StaysWithin original revised
  unfolding check_fast_replan_conditions
  check_fast_replan_conditions-StaysWithin_iff =
      let known =
        every-contexts (λ c. includes c (collect_execution_contexts original.steps))
          revised.steps in
      let risky = ltb (get_max_risk_index original.steps) (get_max_risk_index revised.steps) in
      let inside : AffectedSystem → Bool =
        λ s. includes s.identifier (map (λ t. t.identifier) original.impact.affected_systems) in
      let cascade =
        tests_iff
          (every (λ c. includes c (collect_execution_contexts original.steps))
            (collect_execution_contexts revised.steps))
          risky (every inside revised.impact.affected_systems) in
      (
        λ h.
            let (a, (b, c)) = cascade.0 h in
            record {
              contexts = known.0 a;
              risks = risks_iff_within.0 b;
              targets = every→All inside revised.impact.affected_systems c;
            },
        λ w. cascade.1 (
          known.1 w.contexts,
          (risks_iff_within.1 w.risks, All→every inside revised.impact.affected_systems w.targets),
        ),
      )
