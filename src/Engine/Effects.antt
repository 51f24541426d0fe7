-- ===== src/Engine/Effects.antt =====
-- Asynchronous methods that mutate the engine and may throw. The state outlives an exception.
-- `exhausted` is no outcome of the program: it says that the fuel for nested replanning ran out.
use crisismode.Base.{String}

pub data Outcome (A : Type 0) : Type 0 where
  ok : A → Outcome A
  threw : String → Outcome A
  exhausted : Outcome A

-- What a promise comes to
pub data Reply (A : Type 0) : Type 0 where
  resolved : A → Reply A
  rejected : String → Reply A

abbrev pub Exec : Type 0 → Type 0 → Type 0
Exec S A = S → Outcome A × S

module _ {S A : Type 0} where
  abbrev pub pure : A → Exec S A
  pure a s = (ok a, s)

  abbrev pub diverge : Exec S A
  diverge s = (exhausted, s)

  -- `try { return await m } catch (err) { … }`
  abbrev pub catch_outcome : Outcome A → (String → Exec S A) → Exec S A
  catch_outcome (ok a) handler s = (ok a, s)
  catch_outcome (threw e) handler s = handler e s
  catch_outcome exhausted handler s = (exhausted, s)

  unfoldable pub try_await : Exec S A → (String → Exec S A) → Exec S A
  try_await m handler s = let (r, s') = m s in catch_outcome r handler s'

-- The value that is read from the state
abbrev pub gets : {S A : Type 0} → (S → A) → Exec S A
gets f s = (ok (f s), s)

abbrev pub modify : {S : Type 0} → (S → S) → Exec S (Unit {0})
modify f s = (ok tt, f s)

module _ {S A B : Type 0} where
  abbrev pub continue : Outcome A → (A → Exec S B) → Exec S B
  continue (ok a) f s = f a s
  continue (threw e) f s = (threw e, s)
  continue exhausted f s = (exhausted, s)

  infixl 5 ◌>>=◌ ◌>>◌
  unfoldable pub ◌>>=◌ : Exec S A → (A → Exec S B) → Exec S B
  ◌>>=◌ m f s = let (r, s') = m s in continue r f s'

  abbrev pub ◌>>◌ : Exec S A → Exec S B → Exec S B
  m >> n = m >>= λ _. n

-- `try { … = await m } catch (err) { … }`, as a value
unfoldable pub attempt : {S A : Type 0} → Exec S A → Exec S (Reply A)
attempt m = try_await (m >>= λ a. pure (resolved a)) (λ e. pure (rejected e))
