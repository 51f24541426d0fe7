-- ===== src/Examples/Catalogs.antt =====
-- A standing approval of the promotion of a replica.
use crisismode.Base.{
  ℕ, ◌+◌, ◌-◌, ◌*◌, ◌/◌, String, false, ◌≡◌, refl, none, some, List, [], ◌∷◌, find, is_empty, show,
  ltb, if◌then◌else◌, ◌==◌,
}
use crisismode.Base.Numbers.{Numbers}
use crisismode.Types.{RecoveryPlan, elevated, high}
use crisismode.Catalog.Entry.{CatalogEntry, CatalogMatchInput, Library}
use crisismode.Catalog.Criteria.{failures, evaluate_entry}
use crisismode.Catalog.Match.{match_catalog}
use crisismode.Catalog.Safety.{IsSafe, match_catalog-IsSafe, match_catalog-find}
use crisismode.Risk.{
  risk_exceeds, derive_plan_max_risk_level, level_at, get_max_risk_index, max_from, max_step,
}
use crisismode.Catalog.Operations.{evaluate_step_patterns, visit, evaluate_forbidden_operations}
use crisismode.Examples.Data.{recovery}

abbrev numbers : Numbers ℕ
numbers = record {
  of_nat = λ n. n;
  literal = λ t. if t == "15" then 15 else if t == "5" then 5 else 0;
  add = λ a b. a + b;
  sub = λ a b. a - b;
  mul = λ a b. a * b;
  div = λ a b. a / b;
  less = ltb;
  abs = λ n. n;
  round = λ n. n;
  ceil = λ n. n;
  to_fixed = λ k n. show n;
  to_text = show;
}

-- What the entry and the plan below need of the library
abbrev library : Library ℕ
library = record {
  regex_test = λ pattern t. t == "DROP TABLE orders";
  regex_exec = λ pattern t.
      if t == "PT15M"
      then some (none ∷ none ∷ none ∷ some "15" ∷ none ∷ [])
      else if t == "PT5M"
      then some (none ∷ none ∷ none ∷ some "5" ∷ none ∷ [])
      else none;
  replace_all = λ pattern by t. t;
  split = λ sep t. t ∷ [];
  trim = λ t. t;
  to_lower_case = λ t. t;
  slice = λ from to t. t;
  parse_date = λ t. if t == "tomorrow" then some 2 else none;
  to_iso_string = show;
  valid = λ v. v == "1";
  valid_range = λ r. r == "^1";
  is_prerelease = λ v. false;
  satisfies = λ v r. v == "1";
}

abbrev entry : String → CatalogEntry
entry id = record {
  catalog_id = id;
  expires_at = "tomorrow";
  match_criteria = record {
    agent_name = "pg";
    agent_version_constraint = "^1";
    scenario = "replica_lag";
    environment = "staging";
    max_risk_level = high;
    required_step_patterns =
        record { type = "human_notification"; position = "before_first_mutation" } ∷ [];
    forbidden_operations = "ddl" ∷ [];
    max_step_count = 3;
    max_estimated_duration = "PT15M";
  };
  satisfies_approval_for = elevated ∷ high ∷ [];
}

abbrev input : CatalogMatchInput ℕ
input = record { pre_authorized_catalogs = "standing" ∷ []; environment = some "staging"; now = 1 }

abbrev entries : List CatalogEntry
entries = entry "other" ∷ entry "standing" ∷ []

-- The recovery, with a duration that can be read
abbrev timed : RecoveryPlan
timed = record recovery { metadata = record recovery.metadata { estimated_duration = "PT5M" } }

timed-match_catalog :
    (match_catalog numbers library timed input entries).catalog_entry ≡ some (entry "standing")
unfolding match_catalog risk_exceeds derive_plan_max_risk_level level_at get_max_risk_index max_from
    max_step evaluate_step_patterns visit evaluate_forbidden_operations
timed-match_catalog = refl

match_catalog-IsSafe_example :
    IsSafe numbers library timed input (match_catalog numbers library timed input entries)
match_catalog-IsSafe_example = match_catalog-IsSafe numbers library timed input entries

match_catalog-find_example :
    (match_catalog numbers library timed input entries).catalog_entry
    ≡ find (λ e. is_empty (failures (evaluate_entry numbers library e timed input))) entries
match_catalog-find_example = match_catalog-find numbers library timed input entries
