-- ===== src/Catalog/Approves.antt =====
-- What a plan satisfies when the criteria of a standing approval let it through.
use crisismode.Base.{
  ◌≤◌, String, Bool, true, false, not, arith, ◌≡◌, refl, sym, ◌∙◌, ap, subst, Option, none, some,
  List, [], ◌∷◌, ◌++◌, map, length, includes, All, flat_map, if◌then◌else◌, ◌==◌, eq_iff, ltb→le,
}
use crisismode.Base.Numbers.{Numbers}
use crisismode.Types.{RecoveryStep, RecoveryPlan, Command, step_id}
use crisismode.Risk.{risk_exceeds, derive_plan_max_risk_level}
use crisismode.Catalog.Flat.{empty-append}
use crisismode.Catalog.Patterns.{IsMet, patterns-IsMet}
use crisismode.Catalog.Depth.{IsIn, Carries, by_action, by_diagnosis, flatten-IsIn}
use crisismode.Catalog.Entry.{MatchCriteria, CatalogEntry, CatalogMatchInput, Library}
use crisismode.Catalog.Operations.{
  FlatStep, flatten_steps, command_of, classify_command, normalized, unknown_reasons,
  performed_reasons, step_reasons, evaluate_forbidden_operations,
}
use crisismode.Catalog.Criteria.{
  Note, rejects, accepts, failures, verdict, reasons_notes, parse_iso_duration_seconds, consent,
  expiry, agent_name_notes, scenario_notes, environment_notes, version_notes, risk_notes,
  step_count_notes, duration_notes, pattern_notes, operation_notes, joined, criteria,
  evaluate_entry,
}

-- The command of a step performs none of the operations.
abbrev pub Avoids : {N : Type 0} → Library N → List String → RecoveryStep → Type 0
Avoids library ops s =
    (c : Command)
    → Carries s c
    → All (λ op. includes (normalized library op) (classify_command library c) ≡ false) ops

-- All that `evaluateEntry` asks, told without the messages
pub record Approves {N : Type 0} (numbers : Numbers N) (library : Library N) (entry : CatalogEntry)
    (plan : RecoveryPlan) (input : CatalogMatchInput N) : Type 0 where
  pub consented : includes entry.catalog_id input.pre_authorized_catalogs ≡ true
  pub unexpired :
      (t : N) × (library.parse_date entry.expires_at ≡ some t) × (numbers.less input.now t ≡ true)
  pub agent : plan.metadata.agent_name ≡ entry.match_criteria.agent_name
  pub scenario : plan.metadata.scenario ≡ entry.match_criteria.scenario
  pub environment : input.environment ≡ some entry.match_criteria.environment
  pub version :
      (library.is_prerelease plan.metadata.agent_version ≡ false)
      × (library.satisfies plan.metadata.agent_version entry.match_criteria.agent_version_constraint
          ≡ true)
  pub risk :
      risk_exceeds (derive_plan_max_risk_level plan) entry.match_criteria.max_risk_level ≡ false
  pub steps : length plan.steps ≤ entry.match_criteria.max_step_count
  pub patterns : All (IsMet plan.steps) entry.match_criteria.required_step_patterns
  pub operations :
      All
        (λ top.
          (s : RecoveryStep)
          → IsIn s top
          → Avoids library entry.match_criteria.forbidden_operations s)
        plan.steps
  pub duration :
      (most : N) × (planned : N) × (parse_iso_duration_seconds numbers library
          entry.match_criteria.max_estimated_duration
        ≡ some most)
      × (parse_iso_duration_seconds numbers library plan.metadata.estimated_duration ≡ some planned)
      × (numbers.less most planned ≡ false)

failures-append : (ns ms : List Note) → failures (ns ++ ms) ≡ failures ns ++ failures ms
failures-append [] ms = refl
failures-append (rejects r ∷ ns) ms = ap (λ l. r ∷ l) (failures-append ns ms)
failures-append (accepts n ∷ ns) ms = failures-append ns ms

-- Notes that have no failure together have none each.
joined-passes :
    (nss : List (List Note)) → failures (joined nss) ≡ [] → All (λ ns. failures ns ≡ []) nss
joined-passes [] h = tt
joined-passes (ns ∷ []) h = (h, tt)
joined-passes (ns ∷ ms ∷ nss) h =
    let (here, later) =
      empty-append (failures ns) (failures (joined (ms ∷ nss)))
        (sym (failures-append ns (joined (ms ∷ nss))) ∙ h) in
    (here, joined-passes (ms ∷ nss) later)

verdict-passes : (b : Bool) (good bad : List String) → failures (verdict b good bad) ≡ [] → b ≡ true
verdict-passes true good bad h = refl
verdict-passes false good bad h = ground arith

not-true : (b : Bool) → not b ≡ true → b ≡ false
not-true b h = ground arith

guard-passes :
    (b : Bool) (r : String) (rest : List Note)
    → failures (if b then rejects r ∷ [] else rest) ≡ []
    → (b ≡ false) × (failures rest ≡ [])
guard-passes true r rest h = ground arith
guard-passes false r rest h = (refl, h)

no_reason : (b : Bool) (reason : String) → (if b then reason ∷ [] else []) ≡ [] → b ≡ false
no_reason true reason h = ground arith
no_reason false reason h = refl

reasons-passes :
    (rs : List String) (asked : Bool) (note : List String)
    → failures (reasons_notes rs asked note) ≡ []
    → rs ≡ []
unfolding reasons_notes
reasons-passes [] asked note h = refl
reasons-passes (r ∷ rs) asked note h = ground arith

flat_map-empty :
    {A B : Type 0} (f : A → List B) (xs : List A) → flat_map f xs ≡ [] → All (λ x. f x ≡ []) xs
flat_map-empty f [] h = tt
flat_map-empty f (x ∷ xs) h =
    let (here, later) = empty-append (f x) (flat_map f xs) h in (here, flat_map-empty f xs later)

All-of : {A : Type 0} {P : A → Type 0} → ((a : A) → P a) → (xs : List A) → All P xs
All-of h [] = tt
All-of h (x ∷ xs) = (h x, All-of h xs)

All-implies :
    {A : Type 0} {P Q : A → Type 0} → ((a : A) → P a → Q a) → (xs : List A) → All P xs → All Q xs
All-implies h [] k = tt
All-implies h (x ∷ xs) k = (h x k.0, All-implies h xs k.1)

Carries-command_of : (s : RecoveryStep) (c : Command) → Carries s c → command_of s ≡ some c
unfolding command_of
Carries-command_of s c (by_action a) = refl
Carries-command_of s c (by_diagnosis d) = refl

module _ {N : Type 0} (library : Library N) where
  performed-passes :
      (id : String) (c : Command) (op : String)
      → performed_reasons library id c op ≡ []
      → includes op (classify_command library c) ≡ false
  unfolding performed_reasons
  performed-passes id c op h = no_reason (includes op (classify_command library c)) _ h

  each-passes :
      (id : String) (c : Command) (ops : List String)
      → flat_map (performed_reasons library id c) (map (normalized library) ops) ≡ []
      → All (λ op. includes (normalized library op) (classify_command library c) ≡ false) ops
  each-passes id c [] h = tt
  each-passes id c (op ∷ ops) h =
      let (here, later) =
        empty-append (performed_reasons library id c (normalized library op))
          (flat_map (performed_reasons library id c) (map (normalized library) ops)) h in
      (performed-passes id c (normalized library op) here, each-passes id c ops later)

  abbrev reasons_of : FlatStep → List String → Option Command → List String
  reasons_of f ops o = elim o [
    | none ↦ []
    | some c ↦
        flat_map (performed_reasons library (step_id f.step) c) (map (normalized library) ops)
  ]

  step-passes :
      (ops : List String) (f : FlatStep)
      → step_reasons library (map (normalized library) ops) f ≡ []
      → Avoids library ops f.step
  unfolding step_reasons
  step-passes ops f h c carries =
      each-passes (step_id f.step) c ops
        (subst (λ o. reasons_of f ops o ≡ []) (Carries-command_of f.step c carries) h)

  operations-passes :
      (plan : RecoveryPlan) (ops : List String)
      → evaluate_forbidden_operations library plan ops ≡ []
      → All (λ top. (s : RecoveryStep) → IsIn s top → Avoids library ops s) plan.steps
  unfolding evaluate_forbidden_operations flatten_steps
  operations-passes plan [] h = All-of (λ top s n c carries. tt) plan.steps
  operations-passes plan (op ∷ ops) h =
      let (known, clean) =
        empty-append (flat_map (unknown_reasons library) (map (normalized library) (op ∷ ops))) _
          h in
      flatten-IsIn (Avoids library (op ∷ ops)) 0 plan.steps (
        All-implies (step-passes (op ∷ ops)) (flatten_steps plan.steps) (
          flat_map-empty (step_reasons library (map (normalized library) (op ∷ ops)))
            (flatten_steps plan.steps) clean))

module _ {N : Type 0} (numbers : Numbers N) (library : Library N) where
  expiry-passes :
      (e : CatalogEntry) (now : N) (o : Option N)
      → failures (expiry numbers library e now o) ≡ []
      → (t : N) × (o ≡ some t) × (numbers.less now t ≡ true)
  unfolding expiry
  expiry-passes e now none h = ground arith
  expiry-passes e now (some t) h = (t, refl, verdict-passes (numbers.less now t) _ _ h)

  environment-passes :
      (c : MatchCriteria) (o : Option String)
      → failures (environment_notes numbers library c o) ≡ []
      → o ≡ some c.environment
  unfolding environment_notes
  environment-passes c none h = ground arith
  environment-passes c (some e) h =
      ap some ((eq_iff e c.environment).0 (verdict-passes (e == c.environment) _ _ h))

  duration-passes :
      (c : MatchCriteria) (text : String) (o p : Option N)
      → failures (duration_notes numbers library c text o p) ≡ []
      → (most : N) × (planned : N) × (o ≡ some most)
        × (p ≡ some planned)
        × (numbers.less most planned ≡ false)
  unfolding duration_notes
  duration-passes c text none p h = ground arith
  duration-passes c text (some m) none h = ground arith
  duration-passes c text (some m) (some s) h =
      (m, s, refl, refl, not-true _ (verdict-passes (not (numbers.less m s)) _ _ h))

  version-passes :
      (c : MatchCriteria) (v : String)
      → failures (version_notes numbers library c v) ≡ []
      → (library.is_prerelease v ≡ false) × (library.satisfies v c.agent_version_constraint ≡ true)
  unfolding version_notes
  version-passes c v h =
      let a = guard-passes (not (library.valid v)) _ _ h in
      let b = guard-passes (not (library.valid_range c.agent_version_constraint)) _ _ a.1 in
      let p = guard-passes (library.is_prerelease v) _ _ b.1 in
      (p.0, verdict-passes (library.satisfies v c.agent_version_constraint) _ _ p.1)

  -- An entry without a failure approves the plan.
  pub evaluate-Approves :
      (e : CatalogEntry) (plan : RecoveryPlan) (input : CatalogMatchInput N)
      → failures (evaluate_entry numbers library e plan input) ≡ []
      → Approves numbers library e plan input
  unfolding evaluate_entry criteria consent agent_name_notes scenario_notes risk_notes
      step_count_notes pattern_notes operation_notes
  evaluate-Approves e plan input h =
      let c = e.match_criteria in
      let (a, (b, (d, (f, (g, (i, (j, (k, (l, (m, (n, _))))))))))) =
        joined-passes (criteria numbers library e plan input) h in
      record {
        consented = verdict-passes _ _ _ a;
        unexpired = expiry-passes e input.now (library.parse_date e.expires_at) b;
        agent = (eq_iff _ _).0 (verdict-passes _ _ _ d);
        scenario = (eq_iff _ _).0 (verdict-passes _ _ _ f);
        environment = environment-passes c input.environment g;
        version = version-passes c plan.metadata.agent_version i;
        risk = not-true _ (verdict-passes _ _ _ j);
        steps = ltb→le _ _ (not-true _ (verdict-passes _ _ _ k));
        patterns = patterns-IsMet plan c.required_step_patterns (reasons-passes _ _ _ l);
        operations = operations-passes library plan c.forbidden_operations (reasons-passes _ _ _ m);
        duration = duration-passes c plan.metadata.estimated_duration _ _ n;
      }
