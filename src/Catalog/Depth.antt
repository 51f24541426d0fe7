-- ===== src/Catalog/Depth.antt =====
-- The steps of a plan at any depth of conditionals, told without the flat list of a match.
use crisismode.Base.{ℕ, suc, Bool, true, false, List, [], ◌∷◌, All, All-append_split}
use crisismode.Types.{
  RecoveryStep, ElseStep, SystemActionStep, DiagnosisActionStep, system_action, diagnosis_action,
  human_notification, human_approval, checkpoint, replanning_checkpoint, conditional,
  ConditionalHead, otherwise, Command,
}
use crisismode.Catalog.Operations.{FlatStep, visit, visit_else, flatten_from}

-- A step is another one, or stands in a branch of it.
pub data IsIn (s : RecoveryStep) : RecoveryStep → Type 0 where
  here : IsIn s s
  in_then :
      (c : ConditionalHead) {t : RecoveryStep} (e : ElseStep)
      → IsIn s t
      → IsIn s (conditional c t e)
  in_else :
      (c : ConditionalHead) (t : RecoveryStep) {e : RecoveryStep}
      → IsIn s e
      → IsIn s (conditional c t (otherwise e))

-- The steps that have a command
pub data Carries : RecoveryStep → Command → Type 0 where
  by_action : (a : SystemActionStep) → Carries (system_action a) a.command
  by_diagnosis : (d : DiagnosisActionStep) → Carries (diagnosis_action d) d.command

module _ (P : RecoveryStep → Type 0) where
  head-visit :
      (s : RecoveryStep) (i : ℕ) (b : Bool) → All (λ (f : FlatStep). P f.step) (visit s i b) → P s
  unfolding visit
  head-visit (conditional c t e) i b h = h.0
  head-visit (system_action s) i b h = h.0
  head-visit (diagnosis_action s) i b h = h.0
  head-visit (human_notification s) i b h = h.0
  head-visit (human_approval s) i b h = h.0
  head-visit (checkpoint s) i b h = h.0
  head-visit (replanning_checkpoint s) i b h = h.0

  pub visit-IsIn :
      (x : RecoveryStep) (s : RecoveryStep) (i : ℕ) (b : Bool)
      → All (λ (f : FlatStep). P f.step) (visit s i b)
      → IsIn x s
      → P x
  unfolding visit
  visit-IsIn x s i b h here = head-visit s i b h
  visit-IsIn x s i b h (in_then c {t} e n) =
      visit-IsIn x t i true (All-append_split _ (visit t i true) (visit_else e i) h.1).0 n
  visit-IsIn x s i b h (in_else c t {e} n) =
      visit-IsIn x e i true (All-append_split _ (visit t i true) (visit e i true) h.1).1 n

  -- What holds of the flat list holds of every step at any depth.
  pub flatten-IsIn :
      (i : ℕ) (ss : List RecoveryStep)
      → All (λ (f : FlatStep). P f.step) (flatten_from i ss)
      → All (λ top. (x : RecoveryStep) → IsIn x top → P x) ss
  unfolding flatten_from
  flatten-IsIn i [] h = tt
  flatten-IsIn i (s ∷ ss) h =
      let (first, rest) =
        All-append_split (λ (f : FlatStep). P f.step) (visit s i false) (flatten_from (suc i) ss)
          h in
      (λ x n. visit-IsIn x s i false first n, flatten-IsIn (suc i) ss rest)
