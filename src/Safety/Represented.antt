-- ===== src/Safety/Represented.antt =====
-- When the blast radius check accepts a step.
use crisismode.Base.{
  ℕ, String, ◌≢◌, ◌⊎◌, All, sym, ap, ◌∙◌, subst, eq_iff, ◌==◌, if◌then◌else◌, find, Bool, true,
  false, ◌≡◌, refl, ◌↔◌, Option, some, List, [], ◌∷◌, any, is_empty, arith, Option-cases, ◌++◌,
  flat_map, inl, inr, has_infix,
}
use mathlib.Core.Bool.{false≢true}
use crisismode.Types.{
  SystemActionStep, AgentManifest, AgentContext, TopologyComponent, ExecutionContextDeclaration,
}
use crisismode.Safety.Normalize.{normalize_identifier}
use crisismode.Safety.References.{Declared, InContext, known_iff}
use crisismode.Safety.BlastRadius.{
  find_context, known_references, declared_references, context_references, instance_references,
  component_references, represents, declared_verdict, validate_in, validate_blast_radius,
}

clash : {b : Bool} → b ≡ true → b ≡ false → ⊥
clash h k = ground arith

Bool-not-true : (b : Bool) → (b ≡ true → ⊥) → b ≡ false
Bool-not-true true h = absurd (h refl)
Bool-not-true false h = refl

declared_verdict-valid : (step : SystemActionStep) → (declared_verdict step).valid ≡ true
unfolding declared_verdict
declared_verdict-valid step = ground arith

-- What the tests of the check ask
record PassesTests (step : SystemActionStep) (m : AgentManifest) (c : Option AgentContext)
    : Type 0 where
  pub context : ExecutionContextDeclaration
  pub found : find_context step.execution_context m ≡ some context
  pub specific : is_empty (normalize_identifier step.target) ≡ false
  pub known :
      any (represents (normalize_identifier step.target)) (known_references context step m c) ≡ true

validate_in-valid :
    (ec : ExecutionContextDeclaration) (step : SystemActionStep) (m : AgentManifest)
    (c : Option AgentContext)
    → (validate_in ec step m c).valid ≡ true
    → (is_empty (normalize_identifier step.target) ≡ false)
      × (any (represents (normalize_identifier step.target)) (known_references ec step m c) ≡ true)
unfolding validate_in
validate_in-valid ec step m c h = (ground arith, ground arith)

valid-validate_in :
    (ec : ExecutionContextDeclaration) (step : SystemActionStep) (m : AgentManifest)
    (c : Option AgentContext)
    → is_empty (normalize_identifier step.target) ≡ false
    → any (represents (normalize_identifier step.target)) (known_references ec step m c) ≡ true
    → (validate_in ec step m c).valid ≡ true
unfolding validate_in
valid-validate_in ec step m c a b = ground (arith, declared_verdict-valid step)

accepted :
    (step : SystemActionStep) (m : AgentManifest) (c : Option AgentContext)
    → (validate_blast_radius step m c).valid ≡ true
    → PassesTests step m c
unfolding validate_blast_radius
accepted step m c h = elim (Option-cases (find_context step.execution_context m)) [
  | inl missing ↦ absurd (false≢true (rw (missing, validate_blast_radius) at h))
  | inr (ec, found) ↦
      let (specific, known) =
        validate_in-valid ec step m c (rw (found, validate_blast_radius) at h) in
      record { context = ec; found = found; specific = specific; known = known }
]

tests_iff :
    (step : SystemActionStep) (m : AgentManifest) (c : Option AgentContext)
    → ((validate_blast_radius step m c).valid ≡ true) ↔ PassesTests step m c
unfolding validate_blast_radius
tests_iff step m c = (
  accepted step m c,
  λ h.
      rw (h.found, validate_blast_radius) (valid-validate_in h.context step m c h.specific h.known),
)

-- The first execution context with a name
abbrev pub FirstNamed :
    String → List ExecutionContextDeclaration → ExecutionContextDeclaration → Type 0
FirstNamed name ecs ec =
    (before : List ExecutionContextDeclaration) × (after : List ExecutionContextDeclaration) × (ecs
      ≡ before ++ ec ∷ after)
    × All (λ e. e.name ≢ name) before
    × (ec.name ≡ name)

-- What the check accepts
pub record IsRepresented (step : SystemActionStep) (m : AgentManifest) (c : Option AgentContext)
    : Type 0 where
  pub context : ExecutionContextDeclaration
  pub found : FirstNamed step.execution_context m.execution_contexts context
  pub specific : normalize_identifier step.target ≢ []
  pub known :
      Declared (normalize_identifier step.target) context step m
      ⊎ InContext (normalize_identifier step.target) c

nothing_stands : {A : Type 0} (before after : List A) (x : A) → [] ≡ before ++ x ∷ after → ⊥
nothing_stands [] after x h = ground arith
nothing_stands (b ∷ before) after x h = ground arith

find-FirstNamed :
    (name : String) (ecs : List ExecutionContextDeclaration) (ec : ExecutionContextDeclaration)
    → (find (λ e. e.name == name) ecs ≡ some ec) ↔ FirstNamed name ecs ec
find-FirstNamed name [] ec =
    (λ h. ground arith, λ (before, after, e, _, _). absurd (nothing_stands before after ec e))
find-FirstNamed name (x ∷ xs) ec = (
  λ h. from (x.name == name) refl h (find-FirstNamed name xs ec).0,
  λ (before, after, e, others, is). to before after e others is (find-FirstNamed name xs ec).1,
)
  where
    from :
        (b : Bool)
        → (x.name == name) ≡ b
        → (if b then some x else find (λ e. e.name == name) xs) ≡ some ec
        → (find (λ e. e.name == name) xs ≡ some ec → FirstNamed name xs ec)
        → FirstNamed name (x ∷ xs) ec
    from true t h later =
        let same : x ≡ ec = cc in
        (
          [],
          xs,
          ap (λ e. e ∷ xs) same,
          tt,
          subst (λ e. e.name ≡ name) same ((eq_iff x.name name).0 t),
        )
    from false t h later =
        let (before, after, e, others, is) = later h in
        (
          x ∷ before,
          after,
          ap (λ l. x ∷ l) e,
          (λ same. clash ((eq_iff x.name name).1 same) t, others),
          is,
        )

    to :
        (before after : List ExecutionContextDeclaration)
        → (x ∷ xs) ≡ before ++ ec ∷ after
        → All (λ e. e.name ≢ name) before
        → ec.name ≡ name
        → (FirstNamed name xs ec → find (λ e. e.name == name) xs ≡ some ec)
        → (if x.name == name then some x else find (λ e. e.name == name) xs) ≡ some ec
    to [] after e others is later =
        let same : x ≡ ec = ground arith in
        rw ((eq_iff x.name name).1 (ap (λ y. y.name) same ∙ is)) (ap some same)
    to (b ∷ before) after e others is later =
        let same : x ≡ b = ground arith in
        let rest : xs ≡ before ++ ec ∷ after = ground arith in
        rw
          (Bool-not-true (x.name == name)
            (λ t. others.0 (ap (λ y. y.name) (sym same) ∙ (eq_iff x.name name).0 t)))
          (later (before, after, rest, others.1, is))

not_empty_iff : (xs : List ℕ) → (is_empty xs ≡ false) ↔ (xs ≢ [])
not_empty_iff [] = (λ h. ground arith, λ h. absurd (h refl))
not_empty_iff (x ∷ xs) = (λ h e. ground arith, λ h. refl)

-- A step passes the blast radius check exactly if the manifest has an execution context of its name,
-- of which the first counts, its target is not blank, and the target, normalised, is equal to a
-- reference that is declared or stands in the context, or one of the two is a part of the other.
-- The references are the target of the execution context, the technologies and components of the
-- manifest's target systems and the components of the step's blast radius, where they are not
-- blank, and the instance of the trigger and the identifiers, roles and technologies of the
-- topology, blank or not.
pub validate_blast_radius-valid_iff :
    (step : SystemActionStep) (m : AgentManifest) (c : Option AgentContext)
    → ((validate_blast_radius step m c).valid ≡ true) ↔ IsRepresented step m c
unfolding find_context
validate_blast_radius-valid_iff step m c = (
  λ h.
      let p = (tests_iff step m c).0 h in
      record {
        context = p.context;
        found = (find-FirstNamed step.execution_context m.execution_contexts p.context).0 p.found;
        specific = (not_empty_iff _).0 p.specific;
        known = (known_iff (normalize_identifier step.target) p.context step m c).0 p.known;
      },
  λ r. (tests_iff step m c).1 (record {
    context = r.context;
    found = (find-FirstNamed step.execution_context m.execution_contexts r.context).1 r.found;
    specific = (not_empty_iff _).1 r.specific;
    known = (known_iff (normalize_identifier step.target) r.context step m c).1 r.known;
  }),
)

any-append : (p : List ℕ → Bool) (xs ys : List (List ℕ)) → any p ys ≡ true → any p (xs ++ ys) ≡ true
any-append p [] ys h = h
any-append p (x ∷ xs) ys h = ground (arith, any-append p xs ys h)

-- Every text contains the empty one.
has_infix-nil : (cs : List ℕ) → has_infix cs [] ≡ true
unfolding has_infix
has_infix-nil [] = refl
has_infix-nil (c ∷ cs) = refl

represents-nil : (target : List ℕ) → represents target [] ≡ true
unfolding represents
represents-nil target = ground (arith, has_infix-nil target)

blank_component :
    (target : List ℕ) (k : TopologyComponent) (before after : List TopologyComponent)
    → normalize_identifier k.role ≡ []
    → any (represents target) (flat_map component_references (before ++ k ∷ after)) ≡ true
unfolding component_references
blank_component target k [] after h = rw h (ground (arith, represents-nil target))
blank_component target k (b ∷ before) after h =
    any-append (represents target) (component_references b)
      (flat_map component_references (before ++ k ∷ after))
      (blank_component target k before after h)

-- If the context has a component with a blank role, whatever else it has, then every step with a
-- declared execution context and a target that is not blank passes the blast radius check, and the
-- target need not be known.
pub validate_blast_radius-blank_component :
    (step : SystemActionStep) (m : AgentManifest) (c : AgentContext)
    (ec : ExecutionContextDeclaration) (k : TopologyComponent)
    (before after : List TopologyComponent)
    → find_context step.execution_context m ≡ some ec
    → is_empty (normalize_identifier step.target) ≡ false
    → c.components ≡ before ++ k ∷ after
    → normalize_identifier k.role ≡ []
    → (validate_blast_radius step m (some c)).valid ≡ true
unfolding known_references
validate_blast_radius-blank_component step m c ec k before after found specific split blank =
    (tests_iff step m (some c)).1 (record {
      context = ec;
      found = found;
      specific = specific;
      known =
          any-append (represents (normalize_identifier step.target)) (declared_references ec step m)
            (context_references (some c))
            (any-append (represents (normalize_identifier step.target)) (instance_references c)
              (flat_map component_references c.components)
              (rw split (blank_component (normalize_identifier step.target) k before after blank)));
    })
