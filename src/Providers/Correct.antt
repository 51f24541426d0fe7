-- ===== src/Providers/Correct.antt =====
-- The cascade of filters finds the first provider that meets every requirement.
use mathlib.Core.Option
use crisismode.Base.{
  String, Bool, true, false, ◌≡◌, refl, ◌↔◌, ◌&&◌, Option, none, some, List, [], ◌∷◌, arith, map,
  every, filter, find, includes, not, is_some, or_else, All, if◌then◌else◌, and-true,
}
use crisismode.Types.{
  ExecutionMode, SystemActionStep, AgentManifest, ExecutionContextDeclaration, CapabilityDefinition,
  CapabilityProviderDescriptor, CapabilityProviderResolution,
}
use crisismode.Safety.BlastRadius.{find_context}
use crisismode.Capabilities.{Registry, get_capability}
use crisismode.Providers.Resolve.{
  has_command_type, supports_mode, select_provider, choose_provider, resolve_declared, blocked,
  resolve_capability_provider, resolve_step_providers,
}

module _ {ℓ} {A : Type ℓ} where
  filter-filter :
      (p q : A → Bool) (xs : List A) → filter q (filter p xs) ≡ filter (λ x. p x && q x) xs
  filter-filter p q [] = refl
  filter-filter p q (x ∷ xs) = ground (arith, filter-filter p q xs)

  abbrev head? : List A → Option A
  head? [] = none
  head? (x ∷ xs) = some x

  head?-filter : (p : A → Bool) (xs : List A) → head? (filter p xs) ≡ find p xs
  head?-filter p [] = refl
  head?-filter p (x ∷ xs) = ground (arith, head?-filter p xs)

  head?-filter₅ :
      (p q r s t : A → Bool) (xs : List A)
      → head? (filter t (filter s (filter r (filter q (filter p xs)))))
        ≡ find (λ x. (((p x && q x) && r x) && s x) && t x) xs
  head?-filter₅ p q r s t xs =
      rw
        (
          filter-filter p q xs,
          filter-filter (λ x. p x && q x) r xs,
          filter-filter (λ x. (p x && q x) && r x) s xs,
          filter-filter (λ x. ((p x && q x) && r x) && s x) t xs,
        )
        (head?-filter _ xs)

-- What is asked of a provider
abbrev pub suits :
    String
    → SystemActionStep
    → ExecutionContextDeclaration
    → ExecutionMode
    → CapabilityProviderDescriptor
    → Bool
suits id step ec mode p =
    (((includes id p.capabilities && supports_mode mode p)
        && includes step.execution_context p.execution_contexts)
      && has_command_type step.command.type p)
    && includes ec.target p.target_kinds

-- The resolution names `o`, or is blocked if there is none.
pub record Names (r : CapabilityProviderResolution) (o : Option CapabilityProviderDescriptor)
    : Type 0 where
  pub resolved : r.resolved ≡ is_some o
  pub provider : r.provider_id ≡ Option.map (λ p. p.id) o

select_provider-Names :
    (id : String) (step : SystemActionStep) (ec : ExecutionContextDeclaration)
    (mode : ExecutionMode) (s m c f t : List CapabilityProviderDescriptor)
    → (s ≡ [] → t ≡ [])
    → (m ≡ [] → t ≡ [])
    → (c ≡ [] → t ≡ [])
    → (f ≡ [] → t ≡ [])
    → Names (select_provider id step ec mode s m c f t) (head? t)
unfolding select_provider
select_provider-Names id step ec mode [] m c f t a _ _ _ =
    rw (a refl) (record { resolved = refl; provider = refl })
select_provider-Names id step ec mode (_ ∷ _) [] c f t _ a _ _ =
    rw (a refl) (record { resolved = refl; provider = refl })
select_provider-Names id step ec mode (_ ∷ _) (_ ∷ _) [] f t _ _ a _ =
    rw (a refl) (record { resolved = refl; provider = refl })
select_provider-Names id step ec mode (_ ∷ _) (_ ∷ _) (_ ∷ _) [] t _ _ _ a =
    rw (a refl) (record { resolved = refl; provider = refl })
select_provider-Names id step ec mode (_ ∷ _) (_ ∷ _) (_ ∷ _) (_ ∷ _) [] _ _ _ _ = record {
  resolved = refl;
  provider = refl;
}
select_provider-Names id step ec mode (_ ∷ _) (_ ∷ _) (_ ∷ _) (_ ∷ _) (p ∷ _) _ _ _ _ = record {
  resolved = refl;
  provider = refl;
}

choose_provider-Names :
    (id : String) (step : SystemActionStep) (ec : ExecutionContextDeclaration)
    (providers : List CapabilityProviderDescriptor) (mode : ExecutionMode)
    → Names (choose_provider id step ec providers mode) (find (suits id step ec mode) providers)
unfolding choose_provider
choose_provider-Names id step ec providers mode =
    rw
      (← head?-filter₅ (λ p. includes id p.capabilities) (supports_mode mode)
        (λ p. includes step.execution_context p.execution_contexts)
        (has_command_type step.command.type) (λ p. includes ec.target p.target_kinds) providers)
      (select_provider-Names id step ec mode _ _ _ _ _ (λ e. rw e) (λ e. rw e) (λ e. rw e)
        (λ e. rw e))

-- What is asked of a provider, of the capability as it is registered, and of the context
abbrev pub serves_as :
    Option CapabilityDefinition
    → String
    → SystemActionStep
    → ExecutionContextDeclaration
    → ExecutionMode
    → CapabilityProviderDescriptor
    → Bool
serves_as none id step ec mode p = false
serves_as (some d) id step ec mode p =
    (includes id (or_else ec.capabilities []) && includes ec.target d.target_kinds)
    && suits id step ec mode p

abbrev pub serves :
    Registry
    → String
    → SystemActionStep
    → Option ExecutionContextDeclaration
    → ExecutionMode
    → CapabilityProviderDescriptor
    → Bool
serves registry id step none mode p = false
serves registry id step (some ec) mode p = serves_as (get_capability id registry) id step ec mode p

find-false : (xs : List CapabilityProviderDescriptor) → find (λ p. false) xs ≡ none
find-false [] = refl
find-false (x ∷ xs) = find-false xs

resolve_declared-Names :
    (id : String) (step : SystemActionStep) (ec : ExecutionContextDeclaration)
    (d : Option CapabilityDefinition) (providers : List CapabilityProviderDescriptor)
    (mode : ExecutionMode)
    → Names
        (resolve_declared id step ec d providers mode)
        (find (serves_as d id step ec mode) providers)
unfolding resolve_declared
resolve_declared-Names id step ec none providers mode =
    rw find-false (record { resolved = refl; provider = refl })
resolve_declared-Names id step ec (some d) providers mode =
    declared (includes id (or_else ec.capabilities [])) (includes ec.target d.target_kinds)
  where
    declared :
        (a b : Bool)
        → Names
            (if not a
              then blocked id (
                  "capability '" ∷ id ∷ "' is not declared on execution context '" ∷ ec.name ∷ "'"
                  ∷ [])
              else if not b
              then blocked id (
                  "capability '" ∷ id ∷ "' is not compatible with target kind '" ∷ ec.target ∷ "'"
                  ∷ [])
              else choose_provider id step ec providers mode)
            (find (λ p. (a && b) && suits id step ec mode p) providers)
    declared true true = choose_provider-Names id step ec providers mode
    declared true false = rw find-false (record { resolved = refl; provider = refl })
    declared false b = rw find-false (record { resolved = refl; provider = refl })

-- A capability is resolved exactly to the first of the backend's providers that serves it: its
-- execution context is declared and declares the capability, the capability is registered and
-- fits the target kind of the context, and the provider has the capability, runs in the mode,
-- and supports the context, the type of the command and the target kind. If no provider does,
-- it is blocked.
pub resolve_capability_provider-Names :
    (registry : Registry) (id : String) (step : SystemActionStep)
    (context : Option ExecutionContextDeclaration) (providers : List CapabilityProviderDescriptor)
    (mode : ExecutionMode)
    → Names
        (resolve_capability_provider registry id step context providers mode)
        (find (serves registry id step context mode) providers)
unfolding resolve_capability_provider
resolve_capability_provider-Names registry id step none providers mode =
    rw find-false (record { resolved = refl; provider = refl })
resolve_capability_provider-Names registry id step (some ec) providers mode =
    resolve_declared-Names id step ec (get_capability id registry) providers mode

-- A step is resolved exactly if for each capability that it requires some provider of the backend
-- serves it.
pub resolve_step_providers-resolved_iff :
    (registry : Registry) (step : SystemActionStep) (m : AgentManifest)
    (providers : List CapabilityProviderDescriptor) (mode : ExecutionMode)
    → ((resolve_step_providers registry step m providers mode).resolved ≡ true)
      ↔ All
          (λ id.
            is_some (
              find (serves registry id step (find_context step.execution_context m) mode) providers)
            ≡ true)
          step.required_capabilities
unfolding resolve_step_providers
resolve_step_providers-resolved_iff registry step m providers mode = go step.required_capabilities
  where
    go :
        (ids : List String)
        → (every
              (λ r. r.resolved)
              (map
                (λ id.
                  resolve_capability_provider registry id step
                    (find_context step.execution_context m)
                    providers
                    mode)
                ids)
            ≡ true)
          ↔ All
              (λ id.
                is_some (
                  find
                    (serves registry id step (find_context step.execution_context m) mode)
                    providers)
                ≡ true)
              ids
    go [] = (λ h. tt, λ h. refl)
    go (id ∷ ids) =
        let names =
          resolve_capability_provider-Names registry id step (find_context step.execution_context m)
            providers mode in
        rw names.resolved (
          λ h. let (first, rest) = and-true _ _ h in (first, (go ids).0 rest),
          λ (first, rest). rw (first, (go ids).1 rest),
        )
