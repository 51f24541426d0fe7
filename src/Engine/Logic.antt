-- ===== src/Engine/Logic.antt =====
-- Rules for the actions of the engine: `Meets P m` bounds the outcome of `m` from any state, and
-- `Keeps P m` says that `m` keeps `P` of the state, whatever its outcome.
use crisismode.Base.{String, Bool, true, false, ◌≡◌, refl, if◌then◌else◌}
use crisismode.Engine.Effects.{
  Outcome, ok, threw, exhausted, Exec, pure, gets, attempt, Reply, resolved, rejected, diverge,
  try_await, continue, catch_outcome, ◌>>=◌,
}

-- What may be returned, what may be thrown, and whether the fuel may run out
pub record Post (A : Type 0) : Type 1 where
  pub returns : A → Type 0
  pub throws : String → Type 0
  pub exhausts : Type 0

abbrev pub Holds : {A : Type 0} → Post A → Outcome A → Type 0
Holds P (ok a) = P.returns a
Holds P (threw e) = P.throws e
Holds P exhausted = P.exhausts

-- The same postcondition with other results
abbrev pub yields : {A B : Type 0} → Post A → (B → Type 0) → Post B
yields P Q = record { returns = Q; throws = P.throws; exhausts = P.exhausts }

pub record Meets {S A : Type 0} (P : Post A) (m : Exec S A) : Type 0 where
  pub at : (s : S) → Holds P (m s).0

module _ {S A B : Type 0} where
  pub Meets-bind :
      (P : Post B) (Q : A → Type 0) (m : Exec S A) (f : A → Exec S B)
      → Meets (yields P Q) m
      → ((a : A) → Q a → Meets P (f a))
      → Meets P (m >>= f)
  unfolding ◌>>=◌
  Meets-bind P Q m f hm hf = record { at = λ s. go (m s).0 (m s).1 (hm.at s) }
    where
      go : (r : Outcome A) (s : S) → Holds (yields P Q) r → Holds P (continue r f s).0
      go (ok a) s h = (hf a h).at s
      go (threw e) s h = h
      go exhausted s h = h

module _ {S A : Type 0} where
  pub Meets-pure : (P : Post A) (a : A) → P.returns a → Meets {S = S} P (pure a)
  Meets-pure P a h = record { at = λ s. h }

  pub Meets-gets : (P : Post A) (f : S → A) → ((a : A) → P.returns a) → Meets {S = S} P (gets f)
  Meets-gets P f h = record { at = λ s. h (f s) }

  pub Meets-if :
      (P : Post A) (b : Bool) (m n : Exec S A)
      → (b ≡ true → Meets P m)
      → (b ≡ false → Meets P n)
      → Meets P (if b then m else n)
  Meets-if P true m n hm hn = hm refl
  Meets-if P false m n hm hn = hn refl

  -- What is thrown under an awaited `try` is what the handler throws.
  pub Meets-try :
      (P : Post A) (T : String → Type 0) (m : Exec S A) (handler : String → Exec S A)
      → Meets (record { returns = P.returns; throws = T; exhausts = P.exhausts }) m
      → ((e : String) → T e → Meets P (handler e))
      → Meets P (try_await m handler)
  unfolding try_await
  Meets-try P T m handler hm hh = record { at = λ s. go (m s).0 (m s).1 (hm.at s) }
    where
      go :
          (r : Outcome A) (s : S)
          → Holds (record { returns = P.returns; throws = T; exhausts = P.exhausts }) r
          → Holds P (catch_outcome r handler s).0
      go (ok a) s h = h
      go (threw e) s h = (hh e h).at s
      go exhausted s h = h

pub record Keeps {S A : Type 0} (P : S → Type 0) (action : Exec S A) : Type 0 where
  pub at : (before : S) → P before → P (action before).1

module _ {S A : Type 0} {P : S → Type 0} where
  pub Keeps-pure : (result : A) → Keeps P (pure result)
  Keeps-pure result = record { at = λ s kept. kept }

  pub Keeps-diverge : Keeps P (diverge {A = A})
  Keeps-diverge = record { at = λ s kept. kept }

  -- A test that chooses between two actions
  pub Keeps-if :
      (test : Bool) (first second : Exec S A)
      → (test ≡ true → Keeps P first)
      → (test ≡ false → Keeps P second)
      → Keeps P (if test then first else second)
  Keeps-if true first second on off = on refl
  Keeps-if false first second on off = off refl

  pub Keeps-gets : (read : S → A) → Keeps P (gets read)
  Keeps-gets read = record { at = λ s kept. kept }

  pub Keeps-try :
      (m : Exec S A) (handler : String → Exec S A)
      → Keeps P m
      → ((e : String) → Keeps P (handler e))
      → Keeps P (try_await m handler)
  unfolding try_await
  Keeps-try m handler hm hh = record { at = λ s h. go (m s).0 (m s).1 (hm.at s h) }
    where
      go : (r : Outcome A) (s : S) → P s → P (catch_outcome r handler s).1
      go (ok a) s h = h
      go (threw e) s h = (hh e).at s h
      go exhausted s h = h

module _ {S A B : Type 0} {P : S → Type 0} where
  pub Keeps-bind :
      (action : Exec S A) (next : A → Exec S B)
      → Keeps P action
      → ((result : A) → Keeps P (next result))
      → Keeps P (action >>= next)
  unfolding ◌>>=◌
  Keeps-bind action next before after = record {
    at = λ s h. go (action s).0 (action s).1 (before.at s h);
  }
    where
      go : (r : Outcome A) (s : S) → P s → P (continue r next s).1
      go (ok a) s h = (after a).at s h
      go (threw e) s h = h
      go exhausted s h = h

module _ {S A : Type 0} {P : S → Type 0} where
  pub Keeps-attempt : (m : Exec S A) → Keeps P m → Keeps P (attempt m)
  unfolding attempt
  Keeps-attempt m h =
      Keeps-try _ _ (Keeps-bind m _ h (λ a. Keeps-pure (resolved a))) (λ e. Keeps-pure (rejected e))

-- Any outcome, with a result in `Q`
abbrev pub returning : {A : Type 0} → (A → Type 0) → Post A
returning Q = record { returns = Q; throws = λ e. Unit; exhausts = Unit }

module _ {S A B : Type 0} {P : S → Type 0} where
  -- The rest may use what is known of the result.
  pub Keeps-bind-Meets :
      (Q : A → Type 0) (m : Exec S A) (f : A → Exec S B)
      → Keeps P m
      → Meets (returning Q) m
      → ((a : A) → Q a → Keeps P (f a))
      → Keeps P (m >>= f)
  unfolding ◌>>=◌
  Keeps-bind-Meets Q m f hm hq hf = record { at = λ s h. go (m s).0 (m s).1 (hm.at s h) (hq.at s) }
    where
      go : (r : Outcome A) (s : S) → P s → Holds (returning Q) r → P (continue r f s).1
      go (ok a) s h k = (hf a k).at s h
      go (threw e) s h k = h
      go exhausted s h k = h

pub ruleset keeps_rules = (Keeps-pure, Keeps-gets, Keeps-bind, Keeps-if, Keeps-try, Keeps-attempt)

-- What a promise comes to, when it is resolved
abbrev pub Replied : {A : Type 0} → (A → Type 0) → Reply A → Type 0
Replied P (resolved a) = P a
Replied P (rejected e) = Unit

pub Meets-attempt :
    {S A : Type 0} (P : A → Type 0) (m : Exec S A)
    → Meets (returning P) m
    → Meets (returning (Replied P)) (attempt m)
unfolding attempt
Meets-attempt P m h =
    Meets-try _ (λ e. Unit) _ _ (Meets-bind _ P m _ (record { at = h.at }) λ a p. Meets-pure _ _ p)
      λ e _. Meets-pure _ _ tt
