-- ===== src/Engine/Captures.antt =====
-- The gate on failed required captures.
use crisismode.Base.{false, ◌≡◌, refl, List, [], ◌∷◌, All, inl, inr, ℕ}
use crisismode.Types.{CaptureDirective, CheckpointStep, StepResult, success}
use crisismode.Safety.Capture.{CaptureResult, execute_capture, is_failed, execute_capture_cases}
use crisismode.Engine.Effects.{Outcome, ok, threw, exhausted, ◌>>=◌}
use crisismode.Engine.State.{Env, Config, EngineState, add_capture, notify}
use crisismode.Engine.Action.{required_failed, take_capture, take_captures}
use crisismode.Engine.Steps.{execute_checkpoint}
use crisismode.Engine.Logic.{Post, Meets, Meets-pure, Meets-bind, Holds}

-- A result comes back, and it satisfies `Q`.
abbrev surely : {A : Type 0} → (A → Type 0) → Post A
surely Q = record { returns = Q; throws = λ e. ⊥; exhausts = ⊥ }

abbrev Fine : CaptureResult → Type 0
Fine r = is_failed r.status ≡ false

execute_capture-Fine : (c : CaptureDirective) (now : ℕ) → Fine (execute_capture c now)
unfolding is_failed
execute_capture-Fine c now = elim (execute_capture_cases c now) [
  | inl (skip, status, value) ↦ rw status refl
  | inr (keep, status, value) ↦ rw status refl
]

required_failed-Fine :
    (rs : List CaptureResult) (cs : List CaptureDirective)
    → All Fine rs
    → required_failed rs cs ≡ false
unfolding required_failed
required_failed-Fine [] cs h = refl
required_failed-Fine (r ∷ rs) [] h = refl
required_failed-Fine (r ∷ rs) (c ∷ cs) h = rw h.0 (required_failed-Fine rs cs h.1)

module _ {W D : Type 0} (env : Env W D) (cfg : Config W) where
  take_capture-Fine : (c : CaptureDirective) → Meets (surely Fine) (take_capture env cfg c)
  take_capture-Fine c = record {
    at = λ s.
        unfold take_capture add_capture notify ◌>>=◌ in execute_capture-Fine c (env.now s.world);
  }

  take_captures-Fine :
      (cs : List CaptureDirective) → Meets (surely (All Fine)) (take_captures env cfg cs)
  unfolding take_captures
  take_captures-Fine [] = Meets-pure _ _ tt
  take_captures-Fine (c ∷ cs) = Meets-bind _ Fine _ _ (take_capture-Fine c) λ r fine.
      Meets-bind _ (All Fine) _ _ (take_captures-Fine cs) λ rs rest. Meets-pure _ _ (fine, rest)

  checkpoint-Fine :
      (c : CheckpointStep) → Meets (surely (λ r. r.status ≡ success)) (execute_checkpoint env cfg c)
  unfolding execute_checkpoint
  checkpoint-Fine c =
      Meets-bind _ (All Fine) _ _ (take_captures-Fine c.state_captures)
        λ rs fine. Meets-pure _ _ (rw (required_failed-Fine rs c.state_captures fine) refl)

surely-ok :
    {A : Type 0} (Q : A → Type 0) (r : Outcome A)
    → Holds (surely Q) r
    → (a : A) × ((r ≡ ok a) × Q a)
surely-ok Q (ok a) h = (a, (refl, h))
surely-ok Q (threw e) h = absurd h
surely-ok Q exhausted h = absurd h

-- A checkpoint step always succeeds, in any world and whatever its captures are, required ones
-- included: the engine's captures do not fail.
pub execute_checkpoint-succeeds :
    {W D : Type 0} (env : Env W D) (cfg : Config W) (c : CheckpointStep) (s : EngineState W)
    → (r : StepResult) × (((execute_checkpoint env cfg c s).0 ≡ ok r) × (r.status ≡ success))
execute_checkpoint-succeeds env cfg c s = surely-ok _ _ ((checkpoint-Fine env cfg c).at s)
