-- ===== src/Catalog/Flat.antt =====
-- The flat list of the steps of a plan: where its elements stand, and lemmas on lists.
use crisismode.Base.{
  ℕ, suc, ◌≤◌, Bool, true, false, ◌≡◌, refl, arith, ◌⊎◌, inl, inr, some, List, [], ◌∷◌, ◌++◌,
  filter, All, All-append, All-mono, Some, if◌then◌else◌, Bool-cases,
}
use crisismode.Types.{
  RecoveryStep, ElseStep, system_action, diagnosis_action, human_notification, human_approval,
  checkpoint, replanning_checkpoint, conditional, skip, otherwise,
}
use crisismode.Catalog.Depth.{IsIn, here, in_then, in_else}
use crisismode.Catalog.Operations.{FlatStep, visit, visit_else, flatten_from, first}

mutual
  unfolding visit

  pub visit-stands :
      (s : RecoveryStep) (i : ℕ) (b : Bool) → All (λ (f : FlatStep). IsIn f.step s) (visit s i b)
  visit-stands (conditional c t e) i b = (
    here,
    All-append _ (visit t i true) (visit_else e i)
        (All-mono (visit t i true) (λ f n. in_then c e n) (visit-stands t i true))
        (else-stands c t e i),
  )
  visit-stands (system_action s) i b = (here, tt)
  visit-stands (diagnosis_action s) i b = (here, tt)
  visit-stands (human_notification s) i b = (here, tt)
  visit-stands (human_approval s) i b = (here, tt)
  visit-stands (checkpoint s) i b = (here, tt)
  visit-stands (replanning_checkpoint s) i b = (here, tt)

  else-stands :
      (c : _) (t : RecoveryStep) (e : ElseStep) (i : ℕ)
      → All (λ (f : FlatStep). IsIn f.step (conditional c t e)) (visit_else e i)
  else-stands c t skip i = tt
  else-stands c t (otherwise s) i =
      All-mono (visit s i true) (λ f n. in_else c t n) (visit-stands s i true)

mutual
  unfolding visit

  pub visit-index :
      (s : RecoveryStep) (i : ℕ) (b : Bool) → All (λ (f : FlatStep). f.index ≡ i) (visit s i b)
  visit-index (conditional c t e) i b =
      (refl, All-append _ (visit t i true) (visit_else e i) (visit-index t i true) (else-index e i))
  visit-index (system_action s) i b = (refl, tt)
  visit-index (diagnosis_action s) i b = (refl, tt)
  visit-index (human_notification s) i b = (refl, tt)
  visit-index (human_approval s) i b = (refl, tt)
  visit-index (checkpoint s) i b = (refl, tt)
  visit-index (replanning_checkpoint s) i b = (refl, tt)

  else-index : (e : ElseStep) (i : ℕ) → All (λ (f : FlatStep). f.index ≡ i) (visit_else e i)
  else-index skip i = tt
  else-index (otherwise s) i = visit-index s i true

mutual
  unfolding visit

  visit-inner :
      (s : RecoveryStep) (i : ℕ) → All (λ (f : FlatStep). f.is_conditional ≡ true) (visit s i true)
  visit-inner (conditional c t e) i =
      (refl, All-append _ (visit t i true) (visit_else e i) (visit-inner t i) (else-inner e i))
  visit-inner (system_action s) i = (refl, tt)
  visit-inner (diagnosis_action s) i = (refl, tt)
  visit-inner (human_notification s) i = (refl, tt)
  visit-inner (human_approval s) i = (refl, tt)
  visit-inner (checkpoint s) i = (refl, tt)
  visit-inner (replanning_checkpoint s) i = (refl, tt)

  else-inner :
      (e : ElseStep) (i : ℕ) → All (λ (f : FlatStep). f.is_conditional ≡ true) (visit_else e i)
  else-inner skip i = tt
  else-inner (otherwise s) i = visit-inner s i

-- What is not in a branch is the step itself.
abbrev pub Outer : RecoveryStep → FlatStep → Type 0
Outer s f = (f.is_conditional ≡ true) ⊎ (f.step ≡ s)

pub visit-Outer : (s : RecoveryStep) (i : ℕ) → All (Outer s) (visit s i false)
unfolding visit
visit-Outer (conditional c t e) i = (
  inr refl,
  All-mono (visit t i true ++ visit_else e i) (λ f h. inl h)
      (All-append _ (visit t i true) (visit_else e i) (visit-inner t i) (else-inner e i)),
)
visit-Outer (system_action s) i = (inr refl, tt)
visit-Outer (diagnosis_action s) i = (inr refl, tt)
visit-Outer (human_notification s) i = (inr refl, tt)
visit-Outer (human_approval s) i = (inr refl, tt)
visit-Outer (checkpoint s) i = (inr refl, tt)
visit-Outer (replanning_checkpoint s) i = (inr refl, tt)

pub flatten-index :
    (i : ℕ) (ss : List RecoveryStep) → All (λ (f : FlatStep). i ≤ f.index) (flatten_from i ss)
unfolding flatten_from
flatten-index i [] = tt
flatten-index i (s ∷ ss) =
    All-append _ (visit s i false) (flatten_from (suc i) ss)
      (All-mono (visit s i false) (λ f e. omega (arith, e)) (visit-index s i false))
      (All-mono (flatten_from (suc i) ss) (λ f le. omega (arith, le)) (flatten-index (suc i) ss))

pub empty-append : {A : Type 0} (xs ys : List A) → xs ++ ys ≡ [] → (xs ≡ []) × (ys ≡ [])
empty-append [] ys h = (refl, h)
empty-append (x ∷ xs) ys h = ground arith

module _ {A : Type 0} where
  pub Some-All : (P Q : A → Type 0) (xs : List A) → Some P xs → All Q xs → (x : A) × P x × Q x
  Some-All P Q [] h k = absurd h
  Some-All P Q (x ∷ xs) (inl p) k = (x, p, k.0)
  Some-All P Q (x ∷ xs) (inr h) k = Some-All P Q xs h k.1

  pub Some-split : (P : A → Type 0) (xs ys : List A) → Some P (xs ++ ys) → Some P xs ⊎ Some P ys
  Some-split P [] ys h = inr h
  Some-split P (x ∷ xs) ys (inl p) = inl (inl p)
  Some-split P (x ∷ xs) ys (inr h) = elim (Some-split P xs ys h) [
    | inl k ↦ inl (inr k)
    | inr k ↦ inr k
  ]

  pub filter-Some :
      (p : A → Bool) (xs : List A) (m : A) (ms : List A)
      → filter p xs ≡ m ∷ ms
      → Some (λ x. p x ≡ true) xs
  filter-Some p [] m ms h = ground arith
  filter-Some p (x ∷ xs) m ms h = by_test (p x) refl h (filter-Some p xs m ms)
    where
      by_test :
          (b : Bool)
          → p x ≡ b
          → (if b then x ∷ filter p xs else filter p xs) ≡ m ∷ ms
          → (filter p xs ≡ m ∷ ms → Some (λ y. p y ≡ true) xs)
          → (p x ≡ true) ⊎ Some (λ y. p y ≡ true) xs
      by_test true e k later = inl e
      by_test false e k later = inr (later k)

  -- The first element that passes stands in the first list, or none of that list does.
  pub first-filter :
      (p : A → Bool) (Q : A → Type 0) (xs ys : List A)
      → All Q xs
      → ((x : A) × (first (filter p (xs ++ ys)) ≡ some x) × Q x)
        ⊎ (All (λ x. p x ≡ false) xs × (first (filter p (xs ++ ys)) ≡ first (filter p ys)))
  first-filter p Q [] ys h = inr (tt, refl)
  first-filter p Q (x ∷ xs) ys h = elim (Bool-cases (p x)) [
    | inl kept ↦ inl (x, rw kept refl, h.0)
    | inr dropped ↦
        rw dropped
          (elim (first-filter p Q xs ys h.1) [ inl k ↦ inl k | inr k ↦ inr ((refl, k.0), k.1) ])
  ]

-- What stands in the flat list stands in the plan.
pub flatten-stands :
    (P : RecoveryStep → Type 0) (i : ℕ) (ss : List RecoveryStep)
    → Some (λ (f : FlatStep). P f.step) (flatten_from i ss)
    → Some (λ top. (s : RecoveryStep) × IsIn s top × P s) ss
unfolding flatten_from
flatten-stands P i [] h = absurd h
flatten-stands P i (s ∷ ss) h =
    elim (Some-split (λ (f : FlatStep). P f.step) (visit s i false) (flatten_from (suc i) ss) h) [
      | inl stands ↦
          let (f, p, n) =
            Some-All (λ (f : FlatStep). P f.step) (λ f. IsIn f.step s) (visit s i false) stands
              (visit-stands s i false) in
          inl (f.step, n, p)
      | inr stands ↦ inr (flatten-stands P (suc i) ss stands)
    ]

pub Some-mono :
    {A : Type 0} {P Q : A → Type 0} (xs : List A) → ((x : A) → P x → Q x) → Some P xs → Some Q xs
Some-mono [] f h = absurd h
Some-mono (x ∷ xs) f (inl p) = inl (f x p)
Some-mono (x ∷ xs) f (inr h) = inr (Some-mono xs f h)

-- A test that passes on an element of a filtered list passes on one of the list.
pub Some-filtered :
    {A : Type 0} (p : A → Bool) (P : A → Type 0) (xs : List A)
    → Some P (filter p xs)
    → Some (λ x. (p x ≡ true) × P x) xs
Some-filtered p P [] h = absurd h
Some-filtered p P (x ∷ xs) h = elim (Bool-cases (p x)) [
  | inl kept ↦ by_head kept (rw kept at h) (Some-filtered p P xs)
  | inr dropped ↦ inr (Some-filtered p P xs (rw dropped at h))
]
  where
    by_head :
        p x ≡ true
        → Some P (x ∷ filter p xs)
        → (Some P (filter p xs) → Some (λ y. (p y ≡ true) × P y) xs)
        → Some (λ y. (p y ≡ true) × P y) (x ∷ xs)
    by_head kept (inl q) later = inl (kept, q)
    by_head kept (inr q) later = inr (later q)
