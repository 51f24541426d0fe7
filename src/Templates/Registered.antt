-- ===== src/Templates/Registered.antt =====
-- What a registered template promises of the steps that it is expanded into.
use crisismode.Base.{
  ℕ, String, Bool, true, false, not, arith, ◌≡◌, refl, sym, ap, subst, Option, none, some, List, [],
  ◌∷◌, ◌++◌, find, any, is_some, is_empty, or_else, All, All-append, if◌then◌else◌, ◌==◌, eq_iff,
  or-false, leb,
}
use crisismode.Types.{
  RiskLevel, routine, elevated, high, critical, BlastRadius, RecoveryStep, SystemActionStep,
}
use crisismode.Types
use crisismode.Risk.{risk_exceeds}
use crisismode.Validator.Checks.{is_routine, lacks_capture}
use crisismode.Engine.Effects.{resolved, rejected}
use crisismode.Templates.{
  StepType, diagnosis_action, system_action, ActionTemplate, TemplateExpansionArgs, has_none,
  class_error, action_error, template_error, Templates, has, get, added, register, risk_error,
  system_step, build_system_action_step, expand, template_to_step,
}

-- The registries that registration leads to
pub data Registered : Templates → Type 0 where
  empty : Registered []
  registers :
      {ts ts' : Templates} (t : ActionTemplate)
      → Registered ts
      → register t ts ≡ resolved ts'
      → Registered ts'

-- What the expansion may rely on
abbrev IsSound : ActionTemplate → Type 0
IsSound t = template_error t t.step_type ≡ none

-- An action or a diagnosis that the validator's check of state preservation lets pass; an action of class 2 or more
-- is not routine and has a rollback directive.
abbrev pub IsScaffolded : ℕ → RecoveryStep → Type 0
IsScaffolded class (Types.system_action s) =
    (lacks_capture (Types.system_action s) ≡ false)
    × (leb 2 class ≡ true → (is_routine s.risk_level ≡ false) × (is_some s.rollback ≡ true))
IsScaffolded class (Types.diagnosis_action s) = lacks_capture (Types.diagnosis_action s) ≡ false
IsScaffolded class s = ⊥

-- What a registration that succeeds says
register-inverts :
    (t : ActionTemplate) (ts ts' : Templates)
    → register t ts ≡ resolved ts'
    → (has t.action_id ts ≡ false) × IsSound t × (ts' ≡ ts ++ t ∷ [])
unfolding register added
register-inverts t ts ts' h =
    by_tests (has t.action_id ts) (template_error t t.step_type) _ refl refl h
  where
    by_tests :
        (b : Bool) (o : Option String) (e : String)
        → has t.action_id ts ≡ b
        → template_error t t.step_type ≡ o
        → (if b then rejected e else added ts t o) ≡ resolved ts'
        → (has t.action_id ts ≡ false) × IsSound t × (ts' ≡ ts ++ t ∷ [])
    by_tests true o x e f h = ground arith
    by_tests false none x e f h = (e, f, cc)
    by_tests false (some y) x e f h = ground arith

Registered-AllSound : (ts : Templates) → Registered ts → All IsSound ts
Registered-AllSound ts empty = tt
Registered-AllSound ts (registers {ts = us} t r e) =
    let (fresh, sound, eq) = register-inverts t us ts e in
    subst (All IsSound) (sym eq)
      (All-append IsSound us (t ∷ []) (Registered-AllSound us r) (sound, tt))

some-inj : {a b : ActionTemplate} → some a ≡ some b → a ≡ b
some-inj h = cc

find-All :
    (P : ActionTemplate → Type 0) (p : ActionTemplate → Bool) (ts : Templates) (t : ActionTemplate)
    → All P ts
    → find p ts ≡ some t
    → P t
find-All P p [] t h e = ground arith
find-All P p (u ∷ us) t h e = by_test (p u) e (find-All P p us t h.1)
  where
    by_test :
        (b : Bool) → (if b then some u else find p us) ≡ some t → (find p us ≡ some t → P t) → P t
    by_test true e rest = subst P (some-inj e) h.0
    by_test false e rest = rest e

captured-has_none : {A : Type 0} (o : Option (List A)) → is_empty (or_else o []) ≡ has_none o
unfolding has_none
captured-has_none none = refl
captured-has_none (some xs) = refl

-- The tests of a template that is not routine
tests_pass :
    (no_captures above_one checked reversible : Bool) (a b c d : String)
    → (if no_captures
        then some a
        else if above_one
        then (if no_captures
            then some b
            else if not checked
            then some c
            else if not reversible
            then some d
            else none)
        else none)
      ≡ none
    → (no_captures ≡ false) × (above_one ≡ true → reversible ≡ true)
tests_pass true above checked reversible a b c d h = ground arith
tests_pass false false checked reversible a b c d h = (refl, λ e. ground arith)
tests_pass false true false reversible a b c d h = ground arith
tests_pass false true true false a b c d h = ground arith
tests_pass false true true true a b c d h = (refl, λ e. refl)

routine_class :
    (above_one : Bool) (a : String)
    → (if above_one then some a else none) ≡ none
    → above_one ≡ true
    → ⊥
routine_class true a h e = ground arith
routine_class false a h e = ground arith

risk_error-Scaffolds :
    (t : ActionTemplate) (args : TemplateExpansionArgs) (risk : RiskLevel) (blast : BlastRadius)
    → risk_error t risk ≡ none
    → IsScaffolded t.action_class (Types.system_action (system_step t args risk blast))
unfolding risk_error class_error lacks_capture is_routine risk_exceeds system_step
risk_error-Scaffolds t args routine blast h =
    (refl, λ above. elim (routine_class (leb 2 t.action_class) _ h above) [ ])
risk_error-Scaffolds t args elevated blast h =
    let tests =
      tests_pass (has_none t.state_captures_before) (leb 2 t.action_class) (is_some t.success_check)
        (is_some t.rollback) _ _ _ _ h in
    (rw (captured-has_none t.state_captures_before, tests.0) refl, λ above. (refl, tests.1 above))
risk_error-Scaffolds t args high blast h =
    let tests =
      tests_pass (has_none t.state_captures_before) (leb 2 t.action_class) (is_some t.success_check)
        (is_some t.rollback) _ _ _ _ h in
    (rw (captured-has_none t.state_captures_before, tests.0) refl, λ above. (refl, tests.1 above))
risk_error-Scaffolds t args critical blast h =
    let tests =
      tests_pass (has_none t.state_captures_before) (leb 2 t.action_class) (is_some t.success_check)
        (is_some t.rollback) _ _ _ _ h in
    (rw (captured-has_none t.state_captures_before, tests.0) refl, λ above. (refl, tests.1 above))

expand-Scaffolds :
    (t : ActionTemplate) (args : TemplateExpansionArgs) (kind : StepType)
    → template_error t kind ≡ none
    → (s : RecoveryStep) × (expand t args kind ≡ resolved s) × IsScaffolded t.action_class s
unfolding template_error expand lacks_capture
expand-Scaffolds t args diagnosis_action h = (_, refl, refl)
expand-Scaffolds t args system_action h = by_options t.risk_level t.blast_radius h
  where
    by_options :
        (o : Option RiskLevel) (p : Option BlastRadius)
        → action_error t o p ≡ none
        → (s : RecoveryStep) × (build_system_action_step t args o p ≡ resolved s)
          × IsScaffolded t.action_class s
    by_options (some r) (some b) h = (_, refl, risk_error-Scaffolds t args r b h)
    by_options none p h = ground arith
    by_options (some r) none h = ground arith

-- A template that the registry gives always expands: into a step that does not lack the captures
-- that the validator asks of an action, and, for an action of class 2 or more, into one that is not
-- routine and has a rollback directive.
pub template_to_step-IsScaffolded :
    (ts : Templates) (id : String) (t : ActionTemplate) (args : TemplateExpansionArgs)
    → Registered ts
    → get id ts ≡ some t
    → (s : RecoveryStep) × (template_to_step t args ≡ resolved s) × IsScaffolded t.action_class s
unfolding template_to_step get
template_to_step-IsScaffolded ts id t args r e =
    expand-Scaffolds t args t.step_type
      (find-All IsSound (λ u. u.action_id == id) ts t (Registered-AllSound ts r) e)

find-fresh :
    (p : ActionTemplate → Bool) (ts : Templates) (t : ActionTemplate)
    → any p ts ≡ false
    → p t ≡ true
    → find p (ts ++ t ∷ []) ≡ some t
find-fresh p [] t h e = rw e refl
find-fresh p (u ∷ us) t h e =
    let (here, later) = or-false (p u) (any p us) h in rw here (find-fresh p us t later e)

find-other :
    (p : ActionTemplate → Bool) (ts : Templates) (t : ActionTemplate)
    → p t ≡ false
    → find p (ts ++ t ∷ []) ≡ find p ts
find-other p [] t e = rw e refl
find-other p (u ∷ us) t e = ap (λ o. if p u then some u else o) (find-other p us t e)

-- After a registration that succeeds, the new template is found under its id, and under any other
-- id what was found before it.
pub get-register :
    (t : ActionTemplate) (ts ts' : Templates) (id : String)
    → register t ts ≡ resolved ts'
    → get id ts' ≡ (if t.action_id == id then some t else get id ts)
unfolding get has
get-register t ts ts' id h =
    let (fresh, sound, eq) = register-inverts t ts ts' h in
    subst
      (λ us.
        find (λ u. u.action_id == id) us
        ≡ (if t.action_id == id then some t else find (λ u. u.action_id == id) ts))
      (sym eq) (by_test (t.action_id == id) refl fresh)
  where
    by_test :
        (b : Bool)
        → (t.action_id == id) ≡ b
        → any (λ u. u.action_id == t.action_id) ts ≡ false
        → find (λ u. u.action_id == id) (ts ++ t ∷ [])
          ≡ (if b then some t else find (λ u. u.action_id == id) ts)
    by_test true e fresh =
        find-fresh (λ u. u.action_id == id) ts t
          (subst (λ i. any (λ u. u.action_id == i) ts ≡ false) ((eq_iff t.action_id id).0 e) fresh)
          e
    by_test false e fresh = find-other (λ u. u.action_id == id) ts t e
