-- ===== src/Base/Lists.antt =====
-- Lists as the program uses arrays: `some`, `every`, `filter`, `find`, `includes`, `slice`.
use Prim.Native.Nat.{ℕ, suc}
use Prim.Native.String.{String}
use mathlib.Core.Path.{◌≡◌, refl}
use mathlib.Core.Logic.{◌⊎◌}
use mathlib.Core.Bool.{Bool, true, false, ◌&&◌, ◌||◌}
use mathlib.Core.Option.{Option, none, some}
use mathlib.Core.List.{List, [], ◌∷◌, ◌++◌}
use native.Mathlib.Omega.{arith}
use text.Mathlib.Text.{◌==◌}
use crisismode.Base.Tests.{if◌then◌else◌}

module _ {ℓ} {A : Type ℓ} where
  abbrev pub length : List A → ℕ
  length [] = 0
  length (x ∷ xs) = suc (length xs)

  abbrev pub any : (A → Bool) → List A → Bool
  any p [] = false
  any p (x ∷ xs) = p x || any p xs

  abbrev pub every : (A → Bool) → List A → Bool
  every p [] = true
  every p (x ∷ xs) = p x && every p xs

  abbrev pub filter : (A → Bool) → List A → List A
  filter p [] = []
  filter p (x ∷ xs) = let rest = filter p xs in if p x then x ∷ rest else rest

  abbrev pub find : (A → Bool) → List A → Option A
  find p [] = none
  find p (x ∷ xs) = if p x then some x else find p xs

  abbrev pub last : List A → Option A
  last [] = none
  last (x ∷ []) = some x
  last (x ∷ y ∷ xs) = last (y ∷ xs)

  abbrev pub is_empty : List A → Bool
  is_empty [] = true
  is_empty (x ∷ xs) = false

  -- Some element satisfies `P`.
  abbrev pub Some : (A → Type 0) → List A → Type 0
  Some P [] = ⊥
  Some P (x ∷ xs) = P x ⊎ Some P xs

  -- Every element satisfies `P`.
  abbrev pub All {κ} : (A → Type κ) → List A → Type κ
  All P [] = Unit
  All P (x ∷ xs) = P x × All P xs

module _ {ℓ κ} {A : Type ℓ} {B : Type κ} where
  abbrev pub flat_map : (A → List B) → List A → List B
  flat_map f [] = []
  flat_map f (x ∷ xs) = f x ++ flat_map f xs

-- `xs.includes(x)` on arrays and sets of text
abbrev pub includes : String → List String → Bool
includes x [] = false
includes x (y ∷ ys) = x == y || includes x ys

-- `new Set(xs)`: the first occurrence of each value, in order of insertion
abbrev pub add : List String → String → List String
add seen x = if includes x seen then seen else seen ++ x ∷ []

module _ {ℓ κ} {A : Type ℓ} where
  pub All-mono : {P Q : A → Type κ} (xs : List A) → ((x : A) → P x → Q x) → All P xs → All Q xs
  All-mono [] f h = tt
  All-mono (x ∷ xs) f h = (f x h.0, All-mono xs f h.1)

module _ {ℓ κ} {A : Type ℓ} (P : A → Type κ) where
  pub All-append : (xs ys : List A) → All P xs → All P ys → All P (xs ++ ys)
  All-append [] ys h k = k
  All-append (x ∷ xs) ys h k = (h.0, All-append xs ys h.1 k)

  pub All-append_split : (xs ys : List A) → All P (xs ++ ys) → All P xs × All P ys
  All-append_split [] ys h = (tt, h)
  All-append_split (x ∷ xs) ys h =
      let (left, right) = All-append_split xs ys h.1 in ((h.0, left), right)

module _ {ℓ} {A : Type ℓ} (p : A → Bool) where
  -- What `every` tests holds of each element, and the other way round.
  pub every→All : (xs : List A) → every p xs ≡ true → All (λ x. p x ≡ true) xs
  every→All [] h = tt
  every→All (x ∷ xs) h = (ground arith, every→All xs (ground arith))

  pub All→every : (xs : List A) → All (λ x. p x ≡ true) xs → every p xs ≡ true
  All→every [] h = refl
  All→every (x ∷ xs) h = ground (arith, h.0, All→every xs h.1)

  pub any-false : (xs : List A) → any p xs ≡ false → All (λ x. p x ≡ false) xs
  any-false [] h = tt
  any-false (x ∷ xs) h = (ground arith, any-false xs (ground arith))

  pub All→any-false : (xs : List A) → All (λ x. p x ≡ false) xs → any p xs ≡ false
  All→any-false [] h = refl
  All→any-false (x ∷ xs) h = ground (arith, h.0, All→any-false xs h.1)

module _ {ℓ} {A : Type ℓ} where
  pub last-append : (xs : List A) (y : A) → last (xs ++ y ∷ []) ≡ some y
  last-append [] y = refl
  last-append (x ∷ []) y = refl
  last-append (x ∷ z ∷ xs) y = last-append (z ∷ xs) y

  -- An element in front is not the last one of a list that has one.
  pub last-cons : (x : A) (xs : List A) (y : A) → last xs ≡ some y → last (x ∷ xs) ≡ some y
  last-cons x [] y h = cc
  last-cons x (z ∷ xs) y h = h
