-- ===== src/Environment/Verdict.antt =====
-- When the guard of the environment qualifies a diagnosis.
use crisismode.Base.{
  String, Bool, true, false, not, ◌||◌, arith, ◌≡◌, refl, sym, Option, none, some, List, [], ◌∷◌,
  ◌++◌, map, any, find, is_empty, if◌then◌else◌, ◌⊎◌, inl, inr, or_else,
}
use crisismode.Types.{Value}
use crisismode.Environment.{
  DiagnosisFinding, warning, partial, DiagnosisResult, NetworkProfile, Confidences, test_words,
  name_resolution_errors, unreachable_scenarios, is_unavailable, is_isolated, reason_if,
  environment_reasons, assess_environment, error_text, reached, unresolved_finding,
  degraded_finding, guard_target, guard_unresolved, apply_environment_guard,
}

-- A finding on the environment is put in front, and the diagnosis is partial and capped.
abbrev pub IsQualified :
    {N : Type 0} → Confidences N → DiagnosisResult N → DiagnosisResult N → Type 0
IsQualified numbers d r =
    (f : DiagnosisFinding) × (f.source ≡ "environment_check")
    × (f.severity ≡ warning)
    × (r.findings ≡ f ∷ d.findings)
    × (r.status ≡ partial)
    × (r.diagnostic_plan_needed ≡ true)
    × ((r.confidence ≡ numbers.math_min d.confidence numbers.three_fifths)
        ⊎ (r.confidence ≡ numbers.math_min d.confidence numbers.half))

-- No name resolution, no internet, or no network at all on this machine
abbrev pub is_degraded : Option NetworkProfile → Bool
is_degraded none = false
is_degraded (some p) =
    not p.dns_available || (is_unavailable p.internet_status || is_isolated p.mode)

-- The diagnosis is that the target cannot be reached, and a finding has an error of name resolution
-- or the machine is degraded and did not reach the target when it started.
abbrev pub IsExcused :
    {N : Type 0}
    → (Value → String)
    → Option NetworkProfile
    → Option String
    → DiagnosisResult N
    → Type 0
IsExcused as_text profile name d =
    (test_words unreachable_scenarios (or_else d.scenario "") ≡ true)
    × ((any (λ f. test_words name_resolution_errors (error_text as_text f)) d.findings ≡ true)
        ⊎ ((reached profile name ≡ false) × (is_degraded profile ≡ true)))

assess-is_degraded :
    (profile : Option NetworkProfile) → (assess_environment profile).suspect ≡ is_degraded profile
unfolding assess_environment environment_reasons
assess-is_degraded none = refl
assess-is_degraded (some p) =
    by_tests p.dns_available (is_unavailable p.internet_status) (is_isolated p.mode)
  where
    by_tests :
        (a b c : Bool)
        → (if is_empty (
              (if a
                then []
                else "This machine cannot resolve DNS names (resolver probe failed at startup)."
                  ∷ [])
              ++ (reason_if b "This machine cannot reach the internet (all egress probes failed)."
                  ++ reason_if c
                      "The network profile classified this host as isolated (no working network)."))
            then false
            else true)
          ≡ (not a || (b || c))
    by_tests true true c = refl
    by_tests true false true = refl
    by_tests true false false = refl
    by_tests false b c = refl

found :
    {A : Type 0} (p : String → Bool) (g : A → String) (xs : List A) (e : String)
    → find p (map g xs) ≡ some e
    → any (λ x. p (g x)) xs ≡ true
found p g [] e h = ground arith
found p g (x ∷ xs) e h = by_test (p (g x)) h (found p g xs e)
  where
    by_test :
        (b : Bool)
        → (if b then some (g x) else find p (map g xs)) ≡ some e
        → (find p (map g xs) ≡ some e → any (λ y. p (g y)) xs ≡ true)
        → (b || any (λ y. p (g y)) xs) ≡ true
    by_test true k later = refl
    by_test false k later = later k

missing :
    {A : Type 0} (p : String → Bool) (g : A → String) (xs : List A)
    → find p (map g xs) ≡ none
    → any (λ x. p (g x)) xs ≡ false
missing p g [] h = refl
missing p g (x ∷ xs) h = by_test (p (g x)) h (missing p g xs)
  where
    by_test :
        (b : Bool)
        → (if b then some (g x) else find p (map g xs)) ≡ none
        → (find p (map g xs) ≡ none → any (λ y. p (g y)) xs ≡ false)
        → (b || any (λ y. p (g y)) xs) ≡ false
    by_test true k later = ground arith
    by_test false k later = later k

clash : {b : Bool} → b ≡ true → b ≡ false → ⊥
clash h k = ground arith

module _ {N : Type 0} (numbers : Confidences N) (as_text : Value → String)
    (profile : Option NetworkProfile) (name : Option String) (d : DiagnosisResult N) where
  -- Excused and qualified, or neither
  abbrev Settled : DiagnosisResult N → Type 0
  Settled r =
      (IsExcused as_text profile name d × IsQualified numbers d r)
      ⊎ ((IsExcused as_text profile name d → ⊥) × (r ≡ d))

  guard_target-Settled :
      test_words unreachable_scenarios (or_else d.scenario "") ≡ true
      → any (λ f. test_words name_resolution_errors (error_text as_text f)) d.findings ≡ false
      → Settled (guard_target numbers as_text profile name d)
  unfolding guard_target degraded_finding
  guard_target-Settled u n =
      by_tests (reached profile name) (assess_environment profile).suspect refl
        (assess-is_degraded profile)
    where
      by_tests :
          (x y : Bool)
          → reached profile name ≡ x
          → y ≡ is_degraded profile
          → Settled (
              if x
              then d
              else (if y
                  then record d {
                    status = partial;
                    confidence = numbers.math_min d.confidence numbers.half;
                    findings =
                        degraded_finding
                          (or_else name "the target")
                          (assess_environment profile).reasons
                        ∷ d.findings;
                    diagnostic_plan_needed = true;
                  }
                  else d))
      by_tests true y e g = inr (λ h. elim h.1 [ inl k ↦ clash k n | inr k ↦ clash e k.0 ], refl)
      by_tests false true e g =
          inl ((u, inr (e, sym g)), (_, refl, refl, refl, refl, refl, inr refl))
      by_tests false false e g =
          inr (λ h. elim h.1 [ inl k ↦ clash k n | inr k ↦ clash k.1 (sym g) ], refl)

-- The guard puts one warning about the environment in front of the findings, makes the diagnosis
-- partial and caps its confidence at 0.6 or 0.5, exactly if the diagnosis is that the target cannot
-- be reached and either the error of some finding is one of name resolution or the machine is
-- degraded and its first probe of the target, if any, did not reach it; else it changes nothing.
pub apply_environment_guard-Settled :
    {N : Type 0} (numbers : Confidences N) (as_text : Value → String)
    (profile : Option NetworkProfile) (name : Option String) (d : DiagnosisResult N)
    → (IsExcused as_text profile name d
        × IsQualified numbers d (apply_environment_guard numbers as_text profile name d))
      ⊎ ((IsExcused as_text profile name d → ⊥)
          × (apply_environment_guard numbers as_text profile name d ≡ d))
unfolding apply_environment_guard guard_unresolved unresolved_finding
apply_environment_guard-Settled numbers as_text profile name d =
    by_test (test_words unreachable_scenarios (or_else d.scenario "")) refl
  where
    errors : List String
    errors = map (error_text as_text) d.findings

    by_error :
        (o : Option String)
        → find (test_words name_resolution_errors) errors ≡ o
        → test_words unreachable_scenarios (or_else d.scenario "") ≡ true
        → Settled numbers as_text profile name d (guard_unresolved numbers as_text profile name d o)
    by_error none e u =
        guard_target-Settled numbers as_text profile name d u
          (missing (test_words name_resolution_errors) (error_text as_text) d.findings e)
    by_error (some x) e u = inl (
      (u, inl (found (test_words name_resolution_errors) (error_text as_text) d.findings x e)),
      (_, refl, refl, refl, refl, refl, inl refl),
    )

    by_test :
        (b : Bool)
        → test_words unreachable_scenarios (or_else d.scenario "") ≡ b
        → Settled numbers as_text profile name d (
            if b
            then guard_unresolved numbers as_text profile name d
                (find (test_words name_resolution_errors) errors)
            else d)
    by_test true u = by_error (find (test_words name_resolution_errors) errors) refl u
    by_test false u = inr (λ h. clash h.0 u, refl)
