-- ===== src/Safety/References.antt =====
-- What it is for the blast radius check to know a reference, told without its lists and tests.
use crisismode.Base.{
  Some, ℕ, String, Bool, true, false, not, ◌≡◌, ◌≢◌, refl, sym, subst, ◌↔◌, ◌⊎◌, inl, inr, arith,
  Option, none, some, List, [], ◌∷◌, ◌++◌, map, any, filter, flat_map, is_empty, if◌then◌else◌,
  ◌==◌, eq_iff,
}
use crisismode.Types.{
  Value, text, null, boolean, number, array, object, Fields, end, field, SystemActionStep,
  AgentManifest, TargetSystem, ExecutionContextDeclaration, TopologyComponent, AgentContext,
}
use crisismode.Safety.Normalize.{normalize_identifier}
use crisismode.Safety.BlastRadius.{
  instance_of, system_references, declared_references, instance_references, component_references,
  context_references, known_references, represents,
}
use crisismode.Safety.Parts.{
  Matches, iff_trans, either_iff, represents-Matches_iff, any-Some, Some-mono_iff, Some-append,
  Some-flat_map,
}

-- The first field `instance` of a payload is a text that satisfies `P`.
abbrev pub Instance : (String → Type 0) → Fields → Type 0
Instance P end = ⊥
Instance P (field k v fs) =
    ((k ≡ "instance") × (s : String) × (v ≡ text s) × P s) ⊎ ((k ≢ "instance") × Instance P fs)

-- A text that is not blank and matches
abbrev pub Names : List ℕ → String → Type 0
Names target s = (normalize_identifier s ≢ []) × Matches target (normalize_identifier s)

-- The manifest or the step has a reference that is not blank and matches.
abbrev pub Declared :
    List ℕ → ExecutionContextDeclaration → SystemActionStep → AgentManifest → Type 0
Declared target ec step m =
    Names target ec.target
    ⊎ (Some
          (λ (system : TargetSystem).
            Names target system.technology ⊎ Some (Names target) system.components)
          m.target_systems
        ⊎ (Some (Names target) step.blast_radius.direct_components
            ⊎ Some (Names target) step.blast_radius.indirect_components))

-- The instance of the trigger or a part of a component of the topology matches, blank or not.
abbrev pub InContext : List ℕ → Option AgentContext → Type 0
InContext target none = ⊥
InContext target (some c) =
    Instance (λ s. Matches target (normalize_identifier s)) c.trigger_payload
    ⊎ Some
        (λ (k : TopologyComponent).
          Matches target (normalize_identifier k.identifier)
          ⊎ (Matches target (normalize_identifier k.role)
              ⊎ Matches target (normalize_identifier k.technology)))
        c.components

keep_iff :
    (P : List ℕ → Type 0) (r : List ℕ) (rest : List (List ℕ)) (B : Type 0)
    → Some P rest ↔ B
    → Some P (if not (is_empty r) then r ∷ rest else rest) ↔ (((r ≢ []) × P r) ⊎ B)
keep_iff P [] rest B f =
    (λ h. inr (f.0 h), λ h. elim h [ inl k ↦ absurd (k.0 refl) | inr b ↦ f.1 b ])
keep_iff P (c ∷ cs) rest B f = either_iff (λ p. (λ e. ground arith, p), λ h. h.1) f

-- The references that are left when the blank ones are dropped
Some-filter :
    (P : List ℕ → Type 0) (ss : List String)
    → Some P (filter (λ r. not (is_empty r)) (map normalize_identifier ss))
      ↔ Some (λ s. (normalize_identifier s ≢ []) × P (normalize_identifier s)) ss
Some-filter P [] = (λ h. h, λ h. h)
Some-filter P (s ∷ ss) = keep_iff P (normalize_identifier s) _ _ (Some-filter P ss)

clash : {b : Bool} → b ≡ true → b ≡ false → ⊥
clash h k = ground arith

text-inj : {s t : String} → text s ≡ text t → s ≡ t
text-inj h = cc

module _ (target : List ℕ) where
  abbrev Hits : List (List ℕ) → Type 0
  Hits = Some (Matches target)

  declared_references-Declared_iff :
      (ec : ExecutionContextDeclaration) (step : SystemActionStep) (m : AgentManifest)
      → Hits (declared_references ec step m) ↔ Declared target ec step m
  unfolding declared_references system_references
  declared_references-Declared_iff ec step m =
      iff_trans
        (Some-filter (Matches target) (
          ec.target
          ∷ (flat_map system_references m.target_systems
              ++ (step.blast_radius.direct_components ++ step.blast_radius.indirect_components))))
        (either_iff (λ h. h, λ h. h)
          (iff_trans (Some-append (Names target) (flat_map system_references m.target_systems) _) (
            either_iff (Some-flat_map (Names target) system_references m.target_systems) (
              Some-append (Names target) step.blast_radius.direct_components
                step.blast_radius.indirect_components))))

  abbrev instance_list : Option String → List (List ℕ)
  instance_list o = elim o [ none ↦ [] | some s ↦ normalize_identifier s ∷ [] ]

  instance_of-Instance_iff :
      (fs : Fields)
      → Hits (instance_list (instance_of fs))
        ↔ Instance (λ s. Matches target (normalize_identifier s)) fs
  unfolding instance_of
  instance_of-Instance_iff end = (λ h. h, λ h. h)
  instance_of-Instance_iff (field k v fs) =
      by_test (k == "instance") refl v (instance_of-Instance_iff fs)
    where
      by_test :
          (b : Bool)
          → (k == "instance") ≡ b
          → (v : Value)
          → Hits (instance_list (instance_of fs))
            ↔ Instance (λ s. Matches target (normalize_identifier s)) fs
          → Hits
              (instance_list (if b then elim v [ text s ↦ some s | _ ↦ none ] else instance_of fs))
            ↔ Instance (λ s. Matches target (normalize_identifier s)) (field k v fs)
      by_test false e v later = (
        λ h. inr (λ is. clash ((eq_iff k "instance").1 is) e, later.0 h),
        λ h. elim h [
          | inl (is, _, _, _) ↦ absurd (clash ((eq_iff k "instance").1 is) e)
          | inr (_, i) ↦ later.1 i
        ],
      )
      by_test true e (text s) later = (
        λ h. elim h [ inl p ↦ inl ((eq_iff k "instance").0 e, s, refl, p) | inr b ↦ absurd b ],
        λ h. elim h [
          | inl (_, t, same, p) ↦
              inl (subst (λ x. Matches target (normalize_identifier x)) (sym (text-inj same)) p)
          | inr (other, _) ↦ absurd (other ((eq_iff k "instance").0 e))
        ],
      )
      by_test true e null later = (
        λ h. absurd h,
        λ h. elim h [
          | inl (_, s, same, _) ↦ ground arith
          | inr (other, _) ↦ absurd (other ((eq_iff k "instance").0 e))
        ],
      )
      by_test true e (boolean x) later = (
        λ h. absurd h,
        λ h. elim h [
          | inl (_, s, same, _) ↦ ground arith
          | inr (other, _) ↦ absurd (other ((eq_iff k "instance").0 e))
        ],
      )
      by_test true e (number x) later = (
        λ h. absurd h,
        λ h. elim h [
          | inl (_, s, same, _) ↦ ground arith
          | inr (other, _) ↦ absurd (other ((eq_iff k "instance").0 e))
        ],
      )
      by_test true e (array x) later = (
        λ h. absurd h,
        λ h. elim h [
          | inl (_, s, same, _) ↦ ground arith
          | inr (other, _) ↦ absurd (other ((eq_iff k "instance").0 e))
        ],
      )
      by_test true e (object x) later = (
        λ h. absurd h,
        λ h. elim h [
          | inl (_, s, same, _) ↦ ground arith
          | inr (other, _) ↦ absurd (other ((eq_iff k "instance").0 e))
        ],
      )

  component_references-Matches_iff :
      (k : TopologyComponent)
      → Hits (component_references k) ↔ (
          Matches target (normalize_identifier k.identifier)
          ⊎ (Matches target (normalize_identifier k.role)
              ⊎ Matches target (normalize_identifier k.technology)))
  unfolding component_references
  component_references-Matches_iff k =
      either_iff (λ h. h, λ h. h)
        (either_iff (λ h. h, λ h. h) (λ h. elim h [ inl a ↦ a | inr b ↦ absurd b ], λ h. inl h))

  context_references-InContext_iff :
      (o : Option AgentContext) → Hits (context_references o) ↔ InContext target o
  unfolding context_references instance_references
  context_references-InContext_iff none = (λ h. h, λ h. h)
  context_references-InContext_iff (some c) =
      iff_trans (Some-append (Matches target) (instance_references c) _) (
        either_iff (instance_of-Instance_iff c.trigger_payload) (
          iff_trans (Some-flat_map (Matches target) component_references c.components)
            (Some-mono_iff component_references-Matches_iff c.components)))

  -- The list of known references has one that represents the target.
  pub known_iff :
      (ec : ExecutionContextDeclaration) (step : SystemActionStep) (m : AgentManifest)
      (o : Option AgentContext)
      → (any (represents target) (known_references ec step m o) ≡ true)
        ↔ (Declared target ec step m ⊎ InContext target o)
  unfolding known_references
  known_iff ec step m o = iff_trans (any-Some (represents target) _) (
      iff_trans (Some-mono_iff (represents-Matches_iff target) _) (
        iff_trans (Some-append (Matches target) (declared_references ec step m) _) (
          either_iff (declared_references-Declared_iff ec step m)
            (context_references-InContext_iff o))))
