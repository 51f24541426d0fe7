-- ===== src/Safety/Parts.antt =====
-- What the tests of the blast radius check say of texts and of lists.
use crisismode.Base.{
  Some, ℕ, Bool, true, false, ◌||◌, ◌≡◌, refl, ap, ◌↔◌, ◌⊎◌, inl, inr, arith, List, [], ◌∷◌, ◌++◌,
  any, flat_map, nat_eq, codes_eq, is_prefix, has_infix, and-true,
}
use crisismode.Safety.BlastRadius.{represents}

-- One list stands in another.
abbrev pub Part : List ℕ → List ℕ → Type 0
Part xs ys = (before : List ℕ) × (after : List ℕ) × (ys ≡ before ++ (xs ++ after))

-- Equal, or one a part of the other
abbrev pub Matches : List ℕ → List ℕ → Type 0
Matches target reference = (reference ≡ target) ⊎ (Part target reference ⊎ Part reference target)

pub iff_trans : {A B C : Type 0} → A ↔ B → B ↔ C → A ↔ C
iff_trans f g = (λ a. g.0 (f.0 a), λ c. f.1 (g.1 c))

pub either_iff : {A B C D : Type 0} → A ↔ B → C ↔ D → (A ⊎ C) ↔ (B ⊎ D)
either_iff f g = (
  λ x. elim x [ inl a ↦ inl (f.0 a) | inr c ↦ inr (g.0 c) ],
  λ x. elim x [ inl b ↦ inl (f.1 b) | inr d ↦ inr (g.1 d) ],
)

or_iff : (a b : Bool) → ((a || b) ≡ true) ↔ ((a ≡ true) ⊎ (b ≡ true))
or_iff true b = (λ h. inl refl, λ h. refl)
or_iff false b = (λ h. inr h, λ h. elim h [ inl k ↦ ground arith | inr k ↦ k ])

codes_eq_iff : (xs ys : List ℕ) → (codes_eq xs ys ≡ true) ↔ (xs ≡ ys)
unfolding codes_eq
codes_eq_iff [] [] = (λ h. refl, λ h. refl)
codes_eq_iff [] (y ∷ ys) = (λ h. ground arith, λ h. ground arith)
codes_eq_iff (x ∷ xs) [] = (λ h. ground arith, λ h. ground arith)
codes_eq_iff (x ∷ xs) (y ∷ ys) =
    (λ h. ground (arith, codes_eq_iff xs ys), λ h. ground (arith, codes_eq_iff xs ys))

is_prefix_iff :
    (ds cs : List ℕ) → (is_prefix ds cs ≡ true) ↔ ((after : List ℕ) × (cs ≡ ds ++ after))
unfolding is_prefix
is_prefix_iff [] cs = (λ h. (cs, refl), λ h. refl)
is_prefix_iff (d ∷ ds) [] = (λ h. ground arith, λ h. ground arith)
is_prefix_iff (d ∷ ds) (c ∷ cs) = (
  λ h.
      let (head, tail) = and-true (nat_eq d c) (is_prefix ds cs) h in
      let (after, e) = (is_prefix_iff ds cs).0 tail in (after, ground (arith, e)),
  λ (after, e).
      let rest : is_prefix ds cs ≡ true = (is_prefix_iff ds cs).1 (after, ground arith) in
      ground (arith, rest),
)

has_infix-Part_iff : (cs ds : List ℕ) → (has_infix cs ds ≡ true) ↔ Part ds cs
unfolding has_infix
has_infix-Part_iff [] ds = (
  λ h. let (after, e) = (is_prefix_iff ds []).0 h in ([], after, e),
  λ (before, after, e). (is_prefix_iff ds []).1 (at_start before after e),
)
  where
    at_start :
        (before after : List ℕ) → [] ≡ before ++ (ds ++ after) → (rest : List ℕ) × ([] ≡ ds ++ rest)
    at_start [] after e = (after, e)
    at_start (b ∷ before) after e = ground arith
has_infix-Part_iff (c ∷ cs) ds = (
  λ h. from ((or_iff (is_prefix ds (c ∷ cs)) (has_infix cs ds)).0 h) (has_infix-Part_iff cs ds).0,
  λ (before, after, e).
      (or_iff (is_prefix ds (c ∷ cs)) (has_infix cs ds)).1
        (to before after e (has_infix-Part_iff cs ds).1),
)
  where
    from :
        (is_prefix ds (c ∷ cs) ≡ true) ⊎ (has_infix cs ds ≡ true)
        → (has_infix cs ds ≡ true → Part ds cs)
        → Part ds (c ∷ cs)
    from (inl p) later = let (after, e) = (is_prefix_iff ds (c ∷ cs)).0 p in ([], after, e)
    from (inr p) later = let (before, after, e) = later p in (c ∷ before, after, ap (λ l. c ∷ l) e)

    to :
        (before after : List ℕ)
        → (c ∷ cs) ≡ before ++ (ds ++ after)
        → (Part ds cs → has_infix cs ds ≡ true)
        → (is_prefix ds (c ∷ cs) ≡ true) ⊎ (has_infix cs ds ≡ true)
    to [] after e later = inl ((is_prefix_iff ds (c ∷ cs)).1 (after, e))
    to (b ∷ before) after e later = inr (later (before, after, ground arith))

pub represents-Matches_iff :
    (target reference : List ℕ) → (represents target reference ≡ true) ↔ Matches target reference
unfolding represents
represents-Matches_iff target reference = iff_trans (or_iff (codes_eq reference target) _) (
    either_iff (codes_eq_iff reference target) (
      iff_trans (or_iff (has_infix reference target) (has_infix target reference))
        (either_iff (has_infix-Part_iff reference target) (has_infix-Part_iff target reference))))

module _ {A : Type 0} where
  pub any-Some : (p : A → Bool) (xs : List A) → (any p xs ≡ true) ↔ Some (λ x. p x ≡ true) xs
  any-Some p [] = (λ h. ground arith, λ h. absurd h)
  any-Some p (x ∷ xs) =
      iff_trans (or_iff (p x) (any p xs)) (either_iff (λ h. h, λ h. h) (any-Some p xs))

  pub Some-mono_iff :
      {P Q : A → Type 0} → ((x : A) → P x ↔ Q x) → (xs : List A) → Some P xs ↔ Some Q xs
  Some-mono_iff f [] = (λ h. h, λ h. h)
  Some-mono_iff f (x ∷ xs) = either_iff (f x) (Some-mono_iff f xs)

  pub Some-append : (P : A → Type 0) (xs ys : List A) → Some P (xs ++ ys) ↔ (Some P xs ⊎ Some P ys)
  Some-append P [] ys = (λ h. inr h, λ h. elim h [ inl k ↦ absurd k | inr k ↦ k ])
  Some-append P (x ∷ xs) ys = iff_trans (either_iff (λ h. h, λ h. h) (Some-append P xs ys)) (
    λ h. elim h [ inl a ↦ inl (inl a) | inr b ↦ elim b [ inl c ↦ inl (inr c) | inr c ↦ inr c ] ],
    λ h. elim h [ inl a ↦ elim a [ inl b ↦ inl b | inr b ↦ inr (inl b) ] | inr c ↦ inr (inr c) ],
  )

pub Some-flat_map :
    {A B : Type 0} (P : B → Type 0) (f : A → List B) (xs : List A)
    → Some P (flat_map f xs) ↔ Some (λ x. Some P (f x)) xs
Some-flat_map P f [] = (λ h. h, λ h. h)
Some-flat_map P f (x ∷ xs) =
    iff_trans (Some-append P (f x) (flat_map f xs))
      (either_iff (λ h. h, λ h. h) (Some-flat_map P f xs))
