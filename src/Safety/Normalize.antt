-- ===== src/Safety/Normalize.antt =====
-- `normalizeIdentifier` of src/framework/safety.ts, on the code units of an ASCII text.
use crisismode.Base.{
  ℕ, String, Bool, false, ◌≡◌, refl, ◌||◌, List, [], ◌∷◌, nat_eq, if◌then◌else◌, codes, is_space,
  trim, to_lower_case,
}

-- The class `[_\s]`
is_separator : ℕ → Bool
is_separator c = nat_eq c b'_' || is_space c

-- `.replace(/[_\s]+/g, '-')`: each run of separators gives one dash. `inside` tells whether the
-- character before was a separator.
replace_runs : Bool → List ℕ → List ℕ
replace_runs inside [] = []
replace_runs inside (c ∷ cs) =
    let here = is_separator c in
    let rest = replace_runs here cs in
    if here then (if inside then rest else b'-' ∷ rest) else c ∷ rest

unfoldable pub normalize_identifier : String → List ℕ
unfolding replace_runs is_separator is_space
normalize_identifier value = replace_runs false (to_lower_case (trim (codes value)))

normalize_sample : normalize_identifier "  Kafka_ \tBroker 01" ≡ codes "kafka-broker-01"
unfolding normalize_identifier trim to_lower_case
normalize_sample = refl
