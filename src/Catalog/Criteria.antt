-- ===== src/Catalog/Criteria.antt =====
-- `evaluateEntry` and the parser of durations: each criterion gives notes, in the program's order.
use crisismode.Base.{
  ℕ, String, Bool, true, false, not, Option, none, some, List, [], ◌∷◌, ◌++◌, map, length, includes,
  template, join, or_else, is_empty, is_some, any, if◌then◌else◌, ◌==◌, ltb, show,
}
use crisismode.Base.Numbers.{Numbers}
use crisismode.Types.{RiskLevel, RecoveryPlan}
use crisismode.Risk.{risk_exceeds, derive_plan_max_risk_level}
use crisismode.Validator.Checks.{risk_name}
use crisismode.Catalog.Entry.{StepPattern, MatchCriteria, CatalogEntry, CatalogMatchInput, Library}
use crisismode.Catalog.Operations.{evaluate_step_patterns, evaluate_forbidden_operations}

-- A call of `reject` or of `accept`
pub data Note : Type 0 where
  rejects : String → Note
  accepts : String → Note

-- The reasons of rejection
abbrev pub failures : List Note → List String
failures [] = []
failures (rejects r ∷ ns) = r ∷ failures ns
failures (accepts _ ∷ ns) = failures ns

-- The notes of one criterion after the other
abbrev pub joined : List (List Note) → List Note
joined [] = []
joined (ns ∷ []) = ns
joined (ns ∷ ms ∷ nss) = ns ++ joined (ms ∷ nss)

unfoldable pub detail : String → Note → String
detail id (rejects r) = template ("Catalog '" ∷ id ∷ "' rejected: " ∷ r ∷ [])
detail id (accepts n) = template ("Catalog '" ∷ id ∷ "': " ∷ n ∷ [])

abbrev pub verdict : Bool → List String → List String → List Note
verdict true good bad = accepts (template good) ∷ []
verdict false good bad = rejects (template bad) ∷ []

-- Every reason is a rejection; if there is none, and something was asked for, that is noted.
unfoldable pub reasons_notes : List String → Bool → List String → List Note
reasons_notes [] true note = accepts (template note) ∷ []
reasons_notes [] false note = []
reasons_notes (r ∷ rs) asked note = map rejects (r ∷ rs)

abbrev pub iso_duration : String
iso_duration =
    "/^P(?!$)(?:(\\d+)W)?(?:(\\d+)D)?(?:T(?!$)(?:(\\d+)H)?(?:(\\d+)M)?(?:(\\d+(?:\\.\\d+)?)S)?)?$/i"

module _ {N : Type 0} (numbers : Numbers N) (library : Library N) where
  unfoldable pub duration_part : Option String → ℕ → N
  duration_part group seconds =
      numbers.mul (numbers.literal (or_else group "0")) (numbers.of_nat seconds)

  unfoldable pub duration_of : List (Option String) → Option N
  unfolding duration_part
  duration_of (weeks ∷ days ∷ hours ∷ minutes ∷ seconds ∷ []) =
      if any is_some (weeks ∷ days ∷ hours ∷ minutes ∷ seconds ∷ [])
      then some (
          numbers.add
            (numbers.add
              (numbers.add (numbers.add (duration_part weeks 604800) (duration_part days 86400))
                (duration_part hours 3600))
              (duration_part minutes 60))
            (numbers.literal (or_else seconds "0")))
      else none
  duration_of _ = none

  -- `parseIsoDurationSeconds`
  unfoldable pub parse_iso_duration_seconds : String → Option N
  unfolding duration_of
  parse_iso_duration_seconds value = elim (library.regex_exec iso_duration (library.trim value)) [
    | none ↦ none
    | some groups ↦ duration_of groups
  ]

  unfoldable pub consent : String → CatalogMatchInput N → List Note
  consent id input =
      verdict (includes id input.pre_authorized_catalogs)
        ("operator pre-authorized this catalog" ∷ [])
        ("catalog '" ∷ id
          ∷ "' is not pre-authorized by the operator (context.preAuthorizedCatalogs)" ∷ [])

  unfoldable pub expiry : CatalogEntry → N → Option N → List Note
  expiry entry now none =
      rejects (
        template (
          "catalog '" ∷ entry.catalog_id ∷ "' has an unparseable expiresAt '" ∷ entry.expires_at
          ∷ "'" ∷ []))
      ∷ []
  expiry entry now (some expires_at) =
      verdict (numbers.less now expires_at)
        ("approval is unexpired (expires " ∷ entry.expires_at ∷ ")" ∷ [])
        ("catalog approval expired at "
          ∷ entry.expires_at
          ∷ " (evaluated "
          ∷ library.to_iso_string now
          ∷ "); re-approval is required"
          ∷ [])

  unfoldable pub agent_name_notes : MatchCriteria → RecoveryPlan → List Note
  agent_name_notes c plan =
      verdict (plan.metadata.agent_name == c.agent_name)
        ("agent name matches (" ∷ c.agent_name ∷ ")" ∷ [])
        ("plan agent name '" ∷ plan.metadata.agent_name ∷ "' does not match catalog agentName '"
          ∷ c.agent_name ∷ "'" ∷ [])

  unfoldable pub scenario_notes : MatchCriteria → RecoveryPlan → List Note
  scenario_notes c plan =
      verdict (plan.metadata.scenario == c.scenario) ("scenario matches (" ∷ c.scenario ∷ ")" ∷ [])
        ("plan scenario '" ∷ plan.metadata.scenario ∷ "' does not match catalog scenario '"
          ∷ c.scenario ∷ "'" ∷ [])

  unfoldable pub environment_notes : MatchCriteria → Option String → List Note
  environment_notes c none =
      rejects (
        template (
          "the deployment environment is unknown, and this catalog is only approved for environment '"
          ∷ c.environment ∷ "'" ∷ []))
      ∷ []
  environment_notes c (some environment) =
      verdict (environment == c.environment) ("environment matches (" ∷ c.environment ∷ ")" ∷ []) (
        "environment '" ∷ environment ∷ "' does not match the approved environment '"
        ∷ c.environment ∷ "'" ∷ [])

  unfoldable pub version_notes : MatchCriteria → String → List Note
  version_notes c version =
      if not (library.valid version)
      then rejects (
          template (
            "plan agent version '" ∷ version
            ∷ "' is not a valid semantic version, so agentVersionConstraint '"
            ∷ c.agent_version_constraint ∷ "' cannot be evaluated" ∷ []))
        ∷ []
      else if not (library.valid_range c.agent_version_constraint)
      then rejects (
          template (
            "catalog agentVersionConstraint '" ∷ c.agent_version_constraint
            ∷ "' is not a valid semver range" ∷ []))
        ∷ []
      else if library.is_prerelease version
      then rejects (
          template (
            "plan agent version '" ∷ version
            ∷ "' is a prerelease build; a standing catalog approval is only granted to released agent versions"
            ∷ []))
        ∷ []
      else verdict (library.satisfies version c.agent_version_constraint)
          ("agent version " ∷ version ∷ " satisfies " ∷ c.agent_version_constraint ∷ [])
          ("plan agent version '" ∷ version ∷ "' does not satisfy agentVersionConstraint '"
            ∷ c.agent_version_constraint ∷ "'" ∷ [])

  unfoldable pub risk_notes : MatchCriteria → RiskLevel → List Note
  risk_notes c plan_risk =
      verdict (not (risk_exceeds plan_risk c.max_risk_level))
        ("plan risk level '"
          ∷ risk_name plan_risk
          ∷ "' is within maxRiskLevel '"
          ∷ risk_name c.max_risk_level
          ∷ "'"
          ∷ [])
        ("plan risk level '"
          ∷ risk_name plan_risk
          ∷ "' exceeds catalog maxRiskLevel '"
          ∷ risk_name c.max_risk_level
          ∷ "'"
          ∷ [])

  unfoldable pub step_count_notes : MatchCriteria → ℕ → List Note
  step_count_notes c count =
      verdict (not (ltb c.max_step_count count))
        ("step count " ∷ show count ∷ " is within maxStepCount " ∷ show c.max_step_count ∷ [])
        ("plan step count " ∷ show count ∷ " exceeds maxStepCount " ∷ show c.max_step_count ∷ [])

  unfoldable pub duration_notes : MatchCriteria → String → Option N → Option N → List Note
  duration_notes c planned none plan_seconds =
      rejects (
        template (
          "catalog maxEstimatedDuration '" ∷ c.max_estimated_duration
          ∷ "' is not a parseable ISO-8601 duration" ∷ []))
      ∷ []
  duration_notes c planned (some most) none =
      rejects (
        template (
          "plan estimated duration '" ∷ planned
          ∷ "' is not a parseable ISO-8601 duration, so maxEstimatedDuration '"
          ∷ c.max_estimated_duration ∷ "' cannot be enforced" ∷ []))
      ∷ []
  duration_notes c planned (some most) (some plan_seconds) =
      verdict (not (numbers.less most plan_seconds))
        ("estimated duration " ∷ planned ∷ " is within " ∷ c.max_estimated_duration ∷ [])
        ("plan estimated duration '" ∷ planned ∷ "' exceeds maxEstimatedDuration '"
          ∷ c.max_estimated_duration ∷ "'" ∷ [])

  unfoldable pub pattern_notes : MatchCriteria → RecoveryPlan → List Note
  unfolding reasons_notes
  pattern_notes c plan =
      reasons_notes (evaluate_step_patterns plan c.required_step_patterns)
        (not (is_empty c.required_step_patterns))
        ("required step patterns satisfied ("
          ∷ join ", " (map StepPattern.type c.required_step_patterns)
          ∷ ")"
          ∷ [])

  unfoldable pub operation_notes : MatchCriteria → RecoveryPlan → List Note
  unfolding reasons_notes
  operation_notes c plan =
      reasons_notes (evaluate_forbidden_operations library plan c.forbidden_operations)
        (not (is_empty c.forbidden_operations))
        ("no step performs a forbidden operation (" ∷ join ", " c.forbidden_operations ∷ ")" ∷ [])

  -- The criteria of an entry, in their order
  unfoldable pub criteria : CatalogEntry → RecoveryPlan → CatalogMatchInput N → List (List Note)
  unfolding consent expiry agent_name_notes scenario_notes environment_notes version_notes
      risk_notes step_count_notes pattern_notes operation_notes duration_notes
      parse_iso_duration_seconds
  criteria entry plan input =
      let c = entry.match_criteria in
      consent entry.catalog_id input
      ∷ expiry entry input.now (library.parse_date entry.expires_at)
      ∷ agent_name_notes c plan
      ∷ scenario_notes c plan
      ∷ environment_notes c input.environment
      ∷ version_notes c plan.metadata.agent_version
      ∷ risk_notes c (derive_plan_max_risk_level plan)
      ∷ step_count_notes c (length plan.steps)
      ∷ pattern_notes c plan
      ∷ operation_notes c plan
      ∷ duration_notes c plan.metadata.estimated_duration
          (parse_iso_duration_seconds c.max_estimated_duration)
          (parse_iso_duration_seconds plan.metadata.estimated_duration)
      ∷ []

  -- `evaluateEntry`
  unfoldable pub evaluate_entry : CatalogEntry → RecoveryPlan → CatalogMatchInput N → List Note
  unfolding criteria
  evaluate_entry entry plan input = joined (criteria entry plan input)
