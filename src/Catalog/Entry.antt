-- ===== src/Catalog/Entry.antt =====
-- `CatalogEntry` of packages/agent-sdk/src/types/catalog-entry.ts, and what a match is given. What
-- the matching takes from JavaScript and from `semver` is a parameter.
use crisismode.Base.{ℕ, String, Bool, Option, List}
use crisismode.Types.{RiskLevel}

pub record StepPattern : Type 0 where
  pub type : String
  pub position : String

pub record MatchCriteria : Type 0 where
  pub agent_name : String
  pub agent_version_constraint : String
  pub scenario : String
  pub environment : String
  pub max_risk_level : RiskLevel
  pub required_step_patterns : List StepPattern
  pub forbidden_operations : List String
  pub max_step_count : ℕ
  pub max_estimated_duration : String

pub record CatalogEntry : Type 0 where
  pub catalog_id : String
  pub expires_at : String
  pub match_criteria : MatchCriteria
  pub satisfies_approval_for : List RiskLevel

pub record CatalogMatchInput (N : Type 0) : Type 0 where
  pub pre_authorized_catalogs : List String
  pub environment : Option String
  pub now : N

pub record CatalogMatchResult : Type 0 where
  pub matched : Bool
  pub catalog_entry : Option CatalogEntry
  pub covered_risk_levels : List RiskLevel
  pub match_details : List String

-- Regular expressions are given as they are written in the program. A date or a duration is a
-- number of the type `N`; none stands for NaN.
pub record Library (N : Type 0) : Type 0 where
  pub regex_test : String → String → Bool
  -- The groups, without the whole match
  pub regex_exec : String → String → Option (List (Option String))
  pub replace_all : String → String → String → String
  pub split : String → String → List String
  pub trim : String → String
  pub to_lower_case : String → String
  pub slice : ℕ → ℕ → String → String
  pub parse_date : String → Option N
  pub to_iso_string : N → String
  pub valid : String → Bool
  pub valid_range : String → Bool
  pub is_prerelease : String → Bool
  pub satisfies : String → String → Bool
