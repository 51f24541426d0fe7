-- ===== src/Graph/Stacks.antt =====
-- The actions of a run that a rollback undoes, the last one first.
use crisismode.Base.{
  Bool-cases, Bool, true, false, arith, ◌≡◌, refl, ◌∙◌, ap, Option, none, some, List, [], ◌∷◌, ◌++◌,
  filter, All, if◌then◌else◌, inl, inr,
}
use crisismode.Types.{
  RollbackDirective, SystemActionStep, StepResult, StepStatus, success, RecoveryStep, system_action,
}
use crisismode.Graph.Rollback.{
  directive_of, is_reversible, reversed, extract_rollback_steps, is_success,
}

-- An action that succeeded, with what it takes to undo it
abbrev pub Undoable : StepResult → Type 0
Undoable r =
    (a : SystemActionStep) × (d : RollbackDirective) × (r.step ≡ system_action a)
    × (a.rollback ≡ some d)
    × (r.status ≡ success)

-- The results of a run, and the stack of those that can be undone
pub data Stacks : List StepResult → List StepResult → Type 0 where
  nothing : Stacks [] []
  pushed :
      {past stack : List StepResult} (r : StepResult)
      → Stacks past stack
      → Undoable r
      → Stacks (past ++ r ∷ []) (r ∷ stack)
  passed :
      {past stack : List StepResult} (r : StepResult)
      → Stacks past stack
      → (Undoable r → ⊥)
      → Stacks (past ++ r ∷ []) stack

Undoable-is_reversible : (r : StepResult) → Undoable r → is_reversible r ≡ true
unfolding is_reversible directive_of is_success
Undoable-is_reversible r (a, d, is, has, done) = rw (is, has, done) refl

is_reversible-Undoable : (r : StepResult) → is_reversible r ≡ true → Undoable r
unfolding is_reversible directive_of is_success
is_reversible-Undoable r h = by_step r.step refl (h)
  where
    by_status :
        (a : SystemActionStep) (d : RollbackDirective) (t : StepStatus)
        → r.step ≡ system_action a
        → a.rollback ≡ some d
        → r.status ≡ t
        → is_success t ≡ true
        → Undoable r
    by_status a d success is has e k = (a, d, is, has, e)
    by_status a d t is has e k = ground arith

    by_directive :
        (a : SystemActionStep) (o : Option RollbackDirective)
        → r.step ≡ system_action a
        → a.rollback ≡ o
        → elim (elim o as (λ _. Option (SystemActionStep × RollbackDirective)) [
          | none ↦ none
          | some d ↦ some (a, d)
        ]) [ none ↦ false | some p ↦ is_success r.status ]
          ≡ true
        → Undoable r
    by_directive a none is has k = ground arith
    by_directive a (some d) is has k = by_status a d r.status is has refl k

    by_step :
        (t : RecoveryStep)
        → r.step ≡ t
        → elim (directive_of t) [ none ↦ false | some p ↦ is_success r.status ] ≡ true
        → Undoable r
    by_step (system_action a) is k = by_directive a a.rollback is refl k
    by_step t is k = ground arith

filter-snoc :
    (p : StepResult → Bool) (xs : List StepResult) (y : StepResult)
    → filter p (xs ++ y ∷ []) ≡ (if p y then filter p xs ++ y ∷ [] else filter p xs)
filter-snoc p [] y = ground arith
filter-snoc p (x ∷ xs) y = ground (arith, filter-snoc p xs y)

reversed-snoc : (xs : List StepResult) (y : StepResult) → reversed (xs ++ y ∷ []) ≡ y ∷ reversed xs
reversed-snoc [] y = refl
reversed-snoc (x ∷ xs) y = ap (λ l. l ++ x ∷ []) (reversed-snoc xs y)

-- The extraction gives the stack.
pub Stacks-extract :
    {past stack : List StepResult} → Stacks past stack → extract_rollback_steps past ≡ stack
unfolding extract_rollback_steps
Stacks-extract nothing = refl
Stacks-extract (pushed {past} {stack} r h u) =
    ap reversed (filter-snoc is_reversible past r)
    ∙ rw (Undoable-is_reversible r u)
        (reversed-snoc (filter is_reversible past) r ∙ ap (λ l. r ∷ l) (Stacks-extract h))
Stacks-extract (passed {past} {stack} r h u) =
    ap reversed (filter-snoc is_reversible past r) ∙ elim (Bool-cases (is_reversible r)) [
      | inl kept ↦ absurd (u (is_reversible-Undoable r kept))
      | inr dropped ↦ rw dropped (Stacks-extract h)
    ]

pub Stacks-Undoable : {past stack : List StepResult} → Stacks past stack → All Undoable stack
Stacks-Undoable nothing = tt
Stacks-Undoable (pushed r h u) = (u, Stacks-Undoable h)
Stacks-Undoable (passed r h u) = Stacks-Undoable h
