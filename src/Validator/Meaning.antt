-- ===== src/Validator/Meaning.antt =====
-- What the single checks of the validator mean for a plan.
use crisismode.Base.{
  String, Bool, true, false, ◌≡◌, refl, ◌∙◌, ◌↔◌, inl, inr, ◌&&◌, ◌||◌, not, Option, none, some,
  List, [], ◌∷◌, ◌++◌, map, any, filter, flat_map, includes, add, is_empty, All, All-append,
  All-append_split, arith, Bool-cases, ◌==◌, ltb→le, subst, or-false, and-true, any-false,
  All→any-false, All-mono,
}
use crisismode.Types.{
  RiskLevel, RecoveryStep, conditional, skip, otherwise, system_action, diagnosis_action,
  human_notification, human_approval, checkpoint, replanning_checkpoint, step_id,
}
use crisismode.Risk.{risk_exceeds, index_of, get_step_risk, visits, walk_steps}
use crisismode.Risk.Depth.{Fits, OfRisk, deep_actions, deep_steps, get_step_risk-Fits_iff}
use crisismode.Validator.Checks.{exceeds, has_duplicates}

module _ {ℓ κ} {A : Type ℓ} {B : Type κ} where
  pub is_empty-map : (f : A → B) (xs : List A) → is_empty (map f xs) ≡ is_empty xs
  is_empty-map f [] = refl
  is_empty-map f (x ∷ xs) = refl

is_empty-append {ℓ} :
    {A : Type ℓ} (xs ys : List A) → is_empty (xs ++ ys) ≡ (is_empty xs && is_empty ys)
is_empty-append [] ys = refl
is_empty-append (x ∷ xs) ys = refl

module _ {ℓ κ} {A : Type ℓ} {B : Type κ} where
  pub is_empty-flat_map :
      (f : A → List B) (xs : List A)
      → (is_empty (flat_map f xs) ≡ true) ↔ All (λ x. is_empty (f x) ≡ true) xs
  is_empty-flat_map f [] = (λ h. tt, λ h. refl)
  is_empty-flat_map f (x ∷ xs) = rw is_empty-append (
    λ h. let (first, rest) = and-true _ _ h in (first, (is_empty-flat_map f xs).0 rest),
    λ (first, rest). rw (first, (is_empty-flat_map f xs).1 rest),
  )

pub is_empty-filter-not {ℓ} :
    {A : Type ℓ} (p : A → Bool) (xs : List A)
    → (is_empty (filter (λ x. not (p x)) xs) ≡ true) ↔ All (λ x. p x ≡ true) xs
is_empty-filter-not p [] = (λ h. tt, λ h. refl)
is_empty-filter-not p (x ∷ xs) = elim (Bool-cases (p x)) [
  | inl held ↦
      rw held (λ h. (refl, (is_empty-filter-not p xs).0 h), λ h. (is_empty-filter-not p xs).1 h.1)
  | inr failed ↦ rw failed (λ h. cc, λ h. cc)
]

pub not-any {ℓ} :
    {A : Type ℓ} (p : A → Bool) (xs : List A) → (not (any p xs) ≡ true) ↔ All (λ x. p x ≡ false) xs
not-any p xs = (λ h. any-false p xs (ground arith), λ h. rw (All→any-false p xs h))

pub exceeds-false :
    (bound : RiskLevel) (o : Option RiskLevel) → (exceeds bound o ≡ false) ↔ Fits (index_of bound) o
unfolding exceeds risk_exceeds
exceeds-false bound none = (λ h. tt, λ h. refl)
exceeds-false bound (some r) = (λ h. ltb→le _ _ h, λ h. ground arith)

-- The risk of a step fits
abbrev StepFits : RiskLevel → RecoveryStep → Type 0
StepFits bound s = Fits (index_of bound) (get_step_risk s)

visits-Fits :
    (bound : RiskLevel) (s : RecoveryStep)
    → All (StepFits bound) (visits s) ↔ All (OfRisk (index_of bound)) (deep_actions s)
unfolding visits deep_actions get_step_risk
visits-Fits bound (conditional c t skip) = (
  λ h. (get_step_risk-Fits_iff _ (conditional c t skip)).0 h.0,
  λ h. (
    (get_step_risk-Fits_iff _ (conditional c t skip)).1 h,
    ((get_step_risk-Fits_iff _ t).1 (All-append_split (OfRisk _) (deep_actions t) [] h).0, tt),
  ),
)
visits-Fits bound (conditional c t (otherwise e)) = (
  λ h. (get_step_risk-Fits_iff _ (conditional c t (otherwise e))).0 h.0,
  λ h.
      let (left, right) = All-append_split (OfRisk _) (deep_actions t) (deep_actions e) h in
      (
        (get_step_risk-Fits_iff _ (conditional c t (otherwise e))).1 h,
        ((get_step_risk-Fits_iff _ t).1 left, ((get_step_risk-Fits_iff _ e).1 right, tt)),
      ),
)
visits-Fits bound (system_action s) = (λ h. (h.0, tt), λ h. (h.0, tt))
visits-Fits bound (diagnosis_action s) = (λ h. tt, λ h. (tt, tt))
visits-Fits bound (human_notification s) = (λ h. tt, λ h. (tt, tt))
visits-Fits bound (human_approval s) = (λ h. tt, λ h. (tt, tt))
visits-Fits bound (checkpoint s) = (λ h. tt, λ h. (tt, tt))
visits-Fits bound (replanning_checkpoint s) = (λ h. tt, λ h. (tt, tt))

walk-Fits :
    (bound : RiskLevel) (ss : List RecoveryStep)
    → All (StepFits bound) (walk_steps ss) ↔ All (OfRisk (index_of bound)) (deep_steps ss)
unfolding walk_steps
walk-Fits bound [] = (λ h. tt, λ h. tt)
walk-Fits bound (s ∷ ss) = (
  λ h.
      let (first, rest) = All-append_split (StepFits bound) (visits s) (walk_steps ss) h in
      All-append (OfRisk _) (deep_actions s) (deep_steps ss) ((visits-Fits bound s).0 first)
        ((walk-Fits bound ss).0 rest),
  λ h.
      let (first, rest) = All-append_split (OfRisk _) (deep_actions s) (deep_steps ss) h in
      All-append (StepFits bound) (visits s) (walk_steps ss) ((visits-Fits bound s).1 first)
        ((walk-Fits bound ss).1 rest),
)

-- No visited step exceeds a bound exactly if no system action does, at any depth.
pub not-exceeding :
    (bound : RiskLevel) (ss : List RecoveryStep)
    → (not (any (λ s. exceeds bound (get_step_risk s)) (walk_steps ss)) ≡ true)
      ↔ All (OfRisk (index_of bound)) (deep_steps ss)
not-exceeding bound ss =
    let tested = not-any (λ s. exceeds bound (get_step_risk s)) (walk_steps ss) in
    (
      λ h.
          (walk-Fits bound ss).0 (
            All-mono (walk_steps ss) (λ s. (exceeds-false bound (get_step_risk s)).0) (tested.0 h)),
      λ h. tested.1 (
          All-mono (walk_steps ss) (λ s. (exceeds-false bound (get_step_risk s)).1)
            ((walk-Fits bound ss).1 h)),
    )

abbrev pub Distinct : List RecoveryStep → Type 0
Distinct [] = Unit
Distinct (s ∷ ss) = All (λ t. (step_id t == step_id s) ≡ false) ss × Distinct ss

includes-add :
    (x y : String) (seen : List String)
    → includes y seen ≡ false
    → includes x (add seen y) ≡ (includes x seen || (x == y))
includes-add x y seen fresh = rw fresh (go seen)
  where
    go : (xs : List String) → includes x (xs ++ y ∷ []) ≡ (includes x xs || (x == y))
    go [] = ground arith
    go (z ∷ zs) = rw (go zs) (ground arith)

-- None of the steps has an id of the list
abbrev Fresh : List String → List RecoveryStep → Type 0
Fresh seen ss = All (λ s. includes (step_id s) seen ≡ false) ss

Fresh-add :
    (id : String) (seen : List String) (ss : List RecoveryStep)
    → includes id seen ≡ false
    → Fresh (add seen id) ss ↔ (Fresh seen ss × All (λ s. (step_id s == id) ≡ false) ss)
Fresh-add id seen [] fresh = (λ h. (tt, tt), λ h. tt)
Fresh-add id seen (s ∷ ss) fresh =
    let rest = Fresh-add id seen ss fresh in
    let added = includes-add (step_id s) id seen fresh in
    (
      λ h.
          let (new, other) = or-false _ _ (subst (λ b. b ≡ false) added h.0) in
          ((new, (rest.0 h.1).0), (other, (rest.0 h.1).1)),
      λ h. (added ∙ ground (arith, h.0.0, h.1.0), rest.1 (h.0.1, h.1.1)),
    )

false-or : (a b : Bool) → a ≡ false → b ≡ false → (a || b) ≡ false
false-or a b h k = ground arith

has_duplicates-false :
    (seen : List String) (ss : List RecoveryStep)
    → (has_duplicates seen ss ≡ false) ↔ (Fresh seen ss × Distinct ss)
unfolding has_duplicates
has_duplicates-false seen [] = (λ h. (tt, tt), λ h. refl)
has_duplicates-false seen (s ∷ ss) = (
  λ h.
      let (new, none_later) = or-false _ _ h in
      let (fresh, distinct) = (has_duplicates-false (add seen (step_id s)) ss).0 none_later in
      let (unseen, other) = (Fresh-add (step_id s) seen ss new).0 fresh in
      ((new, unseen), (other, distinct)),
  λ ((new, unseen), (other, distinct)). false-or _ _ new (
      (has_duplicates-false (add seen (step_id s)) ss).1
        ((Fresh-add (step_id s) seen ss new).1 (unseen, other), distinct)),
)

nothing-Fresh : (ss : List RecoveryStep) → Fresh [] ss
nothing-Fresh [] = tt
nothing-Fresh (s ∷ ss) = (refl, nothing-Fresh ss)

-- The walk finds no id twice exactly if the visited steps have pairwise different ids.
pub unique_iff : (ss : List RecoveryStep) → (not (has_duplicates [] ss) ≡ true) ↔ Distinct ss
unique_iff ss =
    let found = has_duplicates-false [] ss in
    (λ h. (found.0 (ground arith)).1, λ h. rw (found.1 (nothing-Fresh ss, h)))
