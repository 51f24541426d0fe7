-- ===== src/Catalog/Safety.antt =====
-- What a standing approval that matches says of the plan.
use crisismode.Base.{
  String, Bool, true, false, not, arith, ◌≡◌, refl, Option, none, some, List, [], ◌∷◌, ◌++◌, map,
  is_empty, All, filter, find, if◌then◌else◌, ◌⊎◌, inl, inr,
}
use crisismode.Base.Numbers.{Numbers}
use crisismode.Types.{RiskLevel, RecoveryPlan}
use crisismode.Risk.{risk_exceeds}
use crisismode.Catalog.Entry.{CatalogEntry, CatalogMatchInput, CatalogMatchResult, Library}
use crisismode.Catalog.Criteria.{Note, failures, detail, evaluate_entry}
use crisismode.Catalog.Match.{covered_levels_for, unmatched, matched_by, match_from, match_catalog}
use crisismode.Catalog.Approves.{Approves, evaluate-Approves}

keep_within :
    (most l : RiskLevel) (b : Bool) (kept : List RiskLevel)
    → risk_exceeds l most ≡ b
    → All (λ k. risk_exceeds k most ≡ false) kept
    → All (λ k. risk_exceeds k most ≡ false) (if not b then l ∷ kept else kept)
keep_within most l true kept h k = k
keep_within most l false kept h k = (h, k)

within :
    (most : RiskLevel) (levels : List RiskLevel)
    → All (λ l. risk_exceeds l most ≡ false) (filter (λ l. not (risk_exceeds l most)) levels)
within most [] = tt
within most (l ∷ ls) = keep_within most l (risk_exceeds l most) _ refl (within most ls)

empty-is_empty : {A : Type 0} (xs : List A) → is_empty xs ≡ true → xs ≡ []
empty-is_empty [] h = refl
empty-is_empty (x ∷ xs) h = ground arith

-- No entry and no covered level, or an entry that approves the plan, and levels within its limit
abbrev pub IsSafe :
    {N : Type 0}
    → Numbers N
    → Library N
    → RecoveryPlan
    → CatalogMatchInput N
    → CatalogMatchResult
    → Type 0
IsSafe numbers library plan input r =
    ((r.matched ≡ false) × (r.catalog_entry ≡ none) × (r.covered_risk_levels ≡ []))
    ⊎ ((e : CatalogEntry) × (r.matched ≡ true)
        × (r.catalog_entry ≡ some e)
        × Approves numbers library e plan input
        × All (λ l. risk_exceeds l e.match_criteria.max_risk_level ≡ false) r.covered_risk_levels)

module _ {N : Type 0} (numbers : Numbers N) (library : Library N) (plan : RecoveryPlan)
    (input : CatalogMatchInput N) where
  match_from-IsSafe :
      (details : List String) (entries : List CatalogEntry)
      → IsSafe numbers library plan input (match_from numbers library plan input details entries)
  unfolding match_from matched_by unmatched covered_levels_for
  match_from-IsSafe details [] = inl (refl, refl, refl)
  match_from-IsSafe details (e ∷ es) =
      by_test (is_empty (failures notes)) refl (match_from-IsSafe details' es)
    where
      notes : List Note
      notes = evaluate_entry numbers library e plan input

      details' : List String
      details' = details ++ map (detail e.catalog_id) notes

      by_test :
          (b : Bool)
          → is_empty (failures notes) ≡ b
          → IsSafe numbers library plan input (match_from numbers library plan input details' es)
          → IsSafe numbers library plan input (
              if b
              then matched_by e details'
              else match_from numbers library plan input details' es)
      by_test true h rest = inr (
        e,
        refl,
        refl,
        evaluate-Approves numbers library e plan input (empty-is_empty (failures notes) h),
        within e.match_criteria.max_risk_level e.satisfies_approval_for,
      )
      by_test false h rest = rest

  -- A match is safe: either no entry matches and no risk level is covered, or the entry was
  -- authorized by the operator, has not expired, names the agent, the scenario and the
  -- environment of the plan, accepts its released version, the risk that is derived for it, its
  -- number of steps and its duration, every type of step that the entry requires is in the plan,
  -- at any depth of conditionals, and where the entry says so outside branches and before the
  -- first system action, if there is any, no command of a step performs a forbidden operation, at
  -- any depth of conditionals, and every covered level is within the limit of the entry.
  pub match_catalog-IsSafe :
      (entries : List CatalogEntry)
      → IsSafe numbers library plan input (match_catalog numbers library plan input entries)
  unfolding match_catalog unmatched
  match_catalog-IsSafe [] = inl (refl, refl, refl)
  match_catalog-IsSafe (e ∷ es) = match_from-IsSafe [] (e ∷ es)

  chosen_entry :
      (e : CatalogEntry) (b : Bool) (r : CatalogMatchResult) (o : Option CatalogEntry)
      (details : List String)
      → r.catalog_entry ≡ o
      → (if b then matched_by e details else r).catalog_entry ≡ (if b then some e else o)
  unfolding matched_by
  chosen_entry e true r o details h = refl
  chosen_entry e false r o details h = h

  match_from-find :
      (details : List String) (entries : List CatalogEntry)
      → (match_from numbers library plan input details entries).catalog_entry
        ≡ find (λ e. is_empty (failures (evaluate_entry numbers library e plan input))) entries
  unfolding match_from matched_by unmatched
  match_from-find details [] = refl
  match_from-find details (e ∷ es) =
      chosen_entry e (is_empty (failures (evaluate_entry numbers library e plan input))) _ _ _ (
        match_from-find
          (details ++ map (detail e.catalog_id) (evaluate_entry numbers library e plan input)) es)

  -- The entry of a match is the first one that rejects nothing.
  pub match_catalog-find :
      (entries : List CatalogEntry)
      → (match_catalog numbers library plan input entries).catalog_entry
        ≡ find (λ e. is_empty (failures (evaluate_entry numbers library e plan input))) entries
  unfolding match_catalog unmatched
  match_catalog-find [] = refl
  match_catalog-find (e ∷ es) = match_from-find [] (e ∷ es)
