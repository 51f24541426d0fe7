-- ===== src/Base/Text.antt =====
-- Template literals and the text methods of JavaScript that the program calls.
use Prim.Native.Nat.{ℕ, zero, suc, ◌+◌, ◌/◌, ◌%◌}
use Prim.Native.Char.{code}
use Prim.Native.String
use Prim.Native.String.{String}
use mathlib.Core.Bool.{Bool, true, false, ◌&&◌, ◌||◌}
use mathlib.Core.List.{List, [], ◌∷◌, reverse}
use crisismode.Base.Tests.{leb, nat_eq, if◌then◌else◌}

-- `${a}${b}…`
pub template : List String → String
template [] = ""
template (s ∷ ss) = String.◌++◌ s (template ss)

-- `xs.join(sep)`
pub join : String → List String → String
join sep [] = ""
join sep (s ∷ []) = s
join sep (s ∷ t ∷ ss) = String.◌++◌ s (String.◌++◌ sep (join sep (t ∷ ss)))

digit : ℕ → String
digit zero = "0"
digit (suc zero) = "1"
digit (suc (suc zero)) = "2"
digit (suc (suc (suc zero))) = "3"
digit (suc (suc (suc (suc zero)))) = "4"
digit (suc (suc (suc (suc (suc zero))))) = "5"
digit (suc (suc (suc (suc (suc (suc zero)))))) = "6"
digit (suc (suc (suc (suc (suc (suc (suc zero))))))) = "7"
digit (suc (suc (suc (suc (suc (suc (suc (suc zero)))))))) = "8"
digit _ = "9"

show_within : ℕ → ℕ → String
unfolding digit
show_within zero n = ""
show_within (suc fuel) n =
    let rest = show_within fuel (n / 10) in
    if leb n 9 then digit n else String.◌++◌ rest (digit (n % 10))

-- A number in a template literal, in decimal. `n + 1` rounds are more than `n` has digits.
pub show : ℕ → String
unfolding show_within
show n = show_within (suc n) n

-- The code units of a text, which is taken to be ASCII where the program changes its case or
-- trims it.
abbrev pub codes : String → List ℕ
codes String.[] = []
codes (String.◌∷◌ c s) = code c ∷ codes s

unfoldable pub is_space : ℕ → Bool
is_space c = nat_eq c 32 || leb 9 c && leb c 13

trim_start : List ℕ → List ℕ
unfolding is_space
trim_start [] = []
trim_start (c ∷ cs) = let rest = trim_start cs in if is_space c then rest else c ∷ cs

-- `s.trim()`
unfoldable pub trim : List ℕ → List ℕ
unfolding trim_start
trim cs = reverse (trim_start (reverse (trim_start cs)))

lower_code : ℕ → ℕ
lower_code c = if leb 65 c && leb c 90 then c + 32 else c

-- `s.toLowerCase()`
unfoldable pub to_lower_case : List ℕ → List ℕ
unfolding lower_code
to_lower_case [] = []
to_lower_case (c ∷ cs) = lower_code c ∷ to_lower_case cs

-- Equality and `s.includes(t)` of code units
unfoldable pub codes_eq : List ℕ → List ℕ → Bool
codes_eq [] [] = true
codes_eq [] (d ∷ ds) = false
codes_eq (c ∷ cs) [] = false
codes_eq (c ∷ cs) (d ∷ ds) = nat_eq c d && codes_eq cs ds

unfoldable pub is_prefix : List ℕ → List ℕ → Bool
is_prefix [] cs = true
is_prefix (d ∷ ds) [] = false
is_prefix (d ∷ ds) (c ∷ cs) = nat_eq d c && is_prefix ds cs

unfoldable pub has_infix : List ℕ → List ℕ → Bool
unfolding is_prefix
has_infix [] ds = is_prefix ds []
has_infix (c ∷ cs) ds = is_prefix ds (c ∷ cs) || has_infix cs ds

-- `typeof s === 'string' && s.trim().length > 0`
unfoldable pub has_text : String → Bool
unfolding trim
has_text s = elim (trim (codes s)) [ [] ↦ false | _ ↦ true ]
