-- ===== src/Catalog/Patterns.antt =====
-- What the step patterns of a standing approval ask of a plan, told without its flat list.
use crisismode.Base.{
  ℕ, suc, ◌≤◌, ◌<◌, String, Bool, true, false, not, ◌&&◌, ◌≡◌, refl, sym, ap, ◌∙◌, subst, arith,
  ◌⊎◌, inl, inr, Option, none, some, List, [], ◌∷◌, ◌++◌, filter, All, All-mono, Some,
  if◌then◌else◌, ◌==◌, eq_iff, ltb, Bool-cases, and-true,
}
use crisismode.Types.{RecoveryStep, SystemActionStep, system_action, RecoveryPlan}
use crisismode.Catalog.Entry.{StepPattern}
use crisismode.Catalog.Depth.{IsIn, visit-IsIn, flatten-IsIn}
use crisismode.Catalog.Operations.{
  FlatStep, visit, flatten_from, flatten_steps, step_type, first, first_mutation_index, before,
  position_reasons, reasons_at, pattern_reasons, evaluate_step_patterns,
}
use crisismode.Catalog.Flat.{
  visit-index, visit-Outer, Outer, flatten-index, empty-append, flatten-stands, Some-mono,
  Some-filtered, Some-All, Some-split, filter-Some, first-filter,
}

-- No system action stands in the step, at any depth.
abbrev pub Unmutated : RecoveryStep → Type 0
Unmutated top = (a : SystemActionStep) → IsIn (system_action a) top → ⊥

-- A step of the type stands in the plan itself, in no branch, and neither in it nor in front of it
-- is a system action.
abbrev pub Early : String → List RecoveryStep → Type 0
Early type steps =
    (xs : List RecoveryStep) × (s : RecoveryStep) × (ys : List RecoveryStep) × (steps
      ≡ xs ++ s ∷ ys)
    × (step_type s ≡ type)
    × All Unmutated (xs ++ s ∷ [])

-- A step of the type is in the plan, at any depth; and where the pattern asks for it, one comes
-- before the first system action, if there is any.
abbrev pub IsMet : List RecoveryStep → StepPattern → Type 0
IsMet steps p =
    Some (λ top. (s : RecoveryStep) × IsIn s top × (step_type s ≡ p.type)) steps
    × ((p.position ≡ "any")
        ⊎ ((p.position ≡ "before_first_mutation") × (All Unmutated steps ⊎ Early p.type steps)))

abbrev is_mutation : FlatStep → Bool
is_mutation f = step_type f.step == "system_action"

clash : {b : Bool} → b ≡ true → b ≡ false → ⊥
clash h k = ground arith

-- A test of the types finds no system action in the step.
quiet-Unmutated :
    (s : RecoveryStep) (i : ℕ) (b : Bool)
    → All (λ (f : FlatStep). is_mutation f ≡ false) (visit s i b)
    → Unmutated s
unfolding step_type
quiet-Unmutated s i b h a n =
    clash refl
      (visit-IsIn (λ x. (step_type x == "system_action") ≡ false) (system_action a) s i b h n)

abbrev index_of_first : Option FlatStep → Option ℕ
index_of_first o = elim o [ none ↦ none | some f ↦ some f.index ]

none-All :
    {A : Type 0} (p : A → Bool) (xs : List A)
    → first (filter p xs) ≡ none
    → All (λ x. p x ≡ false) xs
none-All p [] h = tt
none-All p (x ∷ xs) h = elim (Bool-cases (p x)) [
  | inl kept ↦ absurd (some_first kept)
  | inr dropped ↦ (dropped, none-All p xs (rw dropped at h))
]
  where
    some_first : p x ≡ true → ⊥
    some_first kept = ground arith

Unmutated-All :
    (i : ℕ) (ss : List RecoveryStep)
    → first_mutation_index (flatten_from i ss) ≡ none
    → All Unmutated ss
unfolding first_mutation_index step_type
Unmutated-All i ss h =
    All-mono ss (λ top quiet a n. clash refl (quiet (system_action a) n))
      (flatten-IsIn (λ x. (step_type x == "system_action") ≡ false) i ss
        (none-All is_mutation (flatten_from i ss)
          (no_index (first (filter is_mutation (flatten_from i ss))) h)))
  where
    no_index : (o : Option FlatStep) → index_of_first o ≡ none → o ≡ none
    no_index none e = refl
    no_index (some f) e = ground arith

-- A step outside branches, of a type and in front of the first system action
abbrev Before : String → ℕ → FlatStep → Type 0
Before type i f = (f.is_conditional ≡ false) × (step_type f.step ≡ type) × (f.index < i)

Before-Early :
    (type : String) (k i : ℕ) (ss : List RecoveryStep)
    → index_of_first (first (filter is_mutation (flatten_from k ss))) ≡ some i
    → Some (Before type i) (flatten_from k ss)
    → Early type ss
unfolding flatten_from
Before-Early type k i [] h found = absurd found
Before-Early type k i (s ∷ ss) h found =
    elim (first-filter is_mutation (λ f. f.index ≡ k) (visit s k false) (flatten_from (suc k) ss)
      (visit-index s k false)) [
        | inl (f, at, is) ↦ absurd (too_late f at is)
        | inr (quiet, later) ↦
            elim (Some-split (Before type i) (visit s k false) (flatten_from (suc k) ss) found) [
              | inl stands ↦
                  let (f, (outside, is, _), outer) =
                    Some-All (Before type i) (Outer s) (visit s k false) stands (visit-Outer s k) in
                  (
                    [],
                    s,
                    ss,
                    refl,
                    same_step f outside is outer,
                    (quiet-Unmutated s k false quiet, tt),
                  )
              | inr stands ↦
                  let (xs, t, ys, e, is, clean) =
                    Before-Early type (suc k) i ss (sym (ap index_of_first later) ∙ h) stands in
                  (s ∷ xs, t, ys, ap (λ l. s ∷ l) e, is, (quiet-Unmutated s k false quiet, clean))
            ]
      ]
  where
    too_late :
        (f : FlatStep)
        → first (filter is_mutation (visit s k false ++ flatten_from (suc k) ss)) ≡ some f
        → f.index ≡ k
        → ⊥
    too_late f at is =
        let here_first : some f.index ≡ some i = sym (ap index_of_first at) ∙ h in
        let (g, (_, _, lt), le) =
          Some-All (Before type i) (λ g. k ≤ g.index) (flatten_from k (s ∷ ss)) found
            (flatten-index k (s ∷ ss)) in
        ground arith

    same_step :
        (f : FlatStep)
        → f.is_conditional ≡ false
        → step_type f.step ≡ type
        → Outer s f
        → step_type s ≡ type
    same_step f outside is (inl inside) = absurd (clash inside outside)
    same_step f outside is (inr same) = ap step_type (sym same) ∙ is

before-found :
    (p : StepPattern) (i : ℕ) (m : FlatStep) (ms : List FlatStep)
    → position_reasons p i m ms ≡ []
    → Some (λ (f : FlatStep). (not f.is_conditional && ltb f.index i) ≡ true) ms
unfolding position_reasons
before-found p i m ms h = by_before (before i not ms) _ refl h
  where
    by_before :
        (bs : List FlatStep) (message : String)
        → before i not ms ≡ bs
        → elim bs as (λ _. List String) [ _ ∷ _ ↦ [] | [] ↦ message ∷ [] ] ≡ []
        → Some (λ (f : FlatStep). (not f.is_conditional && ltb f.index i) ≡ true) ms
    by_before [] message e k = ground arith
    by_before (b ∷ bs) message e k = filter-Some _ ms b bs e

module _ (steps : List RecoveryStep) (p : StepPattern) where
  abbrev of_type : FlatStep → Bool
  of_type f = step_type f.step == p.type

  placed :
      (flat ms : List FlatStep) (m : FlatStep) (i : ℕ)
      → filter of_type flat ≡ ms
      → position_reasons p i m ms ≡ []
      → Some (Before p.type i) flat
  placed flat ms m i e h =
      Some-mono flat
        (λ f (is, test).
          let (outside, lt) = and-true (not f.is_conditional) (ltb f.index i) test in
          (ground arith, (eq_iff (step_type f.step) p.type).0 is, ground arith))
        (Some-filtered of_type (λ (f : FlatStep). (not f.is_conditional && ltb f.index i) ≡ true)
          flat
          (subst (Some (λ (f : FlatStep). (not f.is_conditional && ltb f.index i) ≡ true)) (sym e)
            (before-found p i m ms h)))

  early :
      (o : Option ℕ) (m : FlatStep) (ms : List FlatStep)
      → first_mutation_index (flatten_steps steps) ≡ o
      → filter of_type (flatten_steps steps) ≡ m ∷ ms
      → reasons_at p o m (m ∷ ms) ≡ []
      → All Unmutated steps ⊎ Early p.type steps
  unfolding reasons_at flatten_steps first_mutation_index
  early none m ms at e h = inl (Unmutated-All 0 steps at)
  early (some i) m ms at e h =
      inr (Before-Early p.type 0 i steps at (placed (flatten_steps steps) (m ∷ ms) m i e h))

  met :
      (ms : List FlatStep)
      → filter of_type (flatten_steps steps) ≡ ms
      → pattern_reasons p (first_mutation_index (flatten_steps steps)) ms ≡ []
      → IsMet steps p
  unfolding pattern_reasons flatten_steps
  met [] e h = ground arith
  met (m ∷ ms) e h = (
    Some-mono steps (λ top (s, n, is). (s, n, (eq_iff (step_type s) p.type).0 is))
        (flatten-stands (λ s. (step_type s == p.type) ≡ true) 0 steps
          (filter-Some of_type (flatten_from 0 steps) m ms e)),
    by_position (p.position == "any") (p.position == "before_first_mutation") _ refl refl h,
  )
    where
      by_position :
          (a b : Bool) (message : String)
          → (p.position == "any") ≡ a
          → (p.position == "before_first_mutation") ≡ b
          → (if a
              then []
              else (if b
                  then reasons_at p (first_mutation_index (flatten_steps steps)) m (m ∷ ms)
                  else message ∷ []))
            ≡ []
          → (p.position ≡ "any")
            ⊎ ((p.position ≡ "before_first_mutation") × (All Unmutated steps ⊎ Early p.type steps))
      by_position true b message at bt k = inl ((eq_iff p.position "any").0 at)
      by_position false true message at bt k = inr (
        (eq_iff p.position "before_first_mutation").0 bt,
        early (first_mutation_index (flatten_steps steps)) m ms refl e k,
      )
      by_position false false message at bt k = ground arith

-- Patterns without a reason against the plan are met.
pub patterns-IsMet :
    (plan : RecoveryPlan) (ps : List StepPattern)
    → evaluate_step_patterns plan ps ≡ []
    → All (IsMet plan.steps) ps
unfolding evaluate_step_patterns
patterns-IsMet plan [] h = tt
patterns-IsMet plan (p ∷ ps) h =
    let (here_empty, later) =
      empty-append
        (pattern_reasons p (first_mutation_index (flatten_steps plan.steps))
          (filter (λ f. step_type f.step == p.type) (flatten_steps plan.steps)))
        (evaluate_step_patterns plan ps) h in
    (met plan.steps p _ refl here_empty, patterns-IsMet plan ps later)
