-- ===== src/Environment.antt =====
-- src/framework/environment-guard.ts: whether a target that cannot be reached is to blame, or the
-- machine that looks. The confidence is a floating-point number, whose type is a parameter.
pub mod Verdict
use crisismode.Base.{
  ℕ, suc, String, Bool, true, false, ◌&&◌, ◌||◌, arith, ◌≡◌, refl, sym, ◌∙◌, Option, none, some,
  List, [], ◌∷◌, map, any, find, length, is_empty, ◌++◌, if◌then◌else◌, ◌==◌, ◌⊎◌, inl, inr, ◌↔◌,
  or_else, codes, to_lower_case, has_infix, template, join, Bool-cases,
}
use crisismode.Types.{Value, null, boolean, text, array, Items, nil, cons, Fields, end, field}

pub data DiagnosisStatus : Type 0 where
  identified partial inconclusive unable : DiagnosisStatus

pub data FindingSeverity : Type 0 where
  info warning critical : FindingSeverity

-- The fields that are attached when a finding is shown are left out.
pub record DiagnosisFinding : Type 0 where
  pub source : String
  pub observation : String
  pub severity : FindingSeverity
  pub «data» : Option Fields

pub record DiagnosisResult (N : Type 0) : Type 0 where
  pub status : DiagnosisStatus
  pub scenario : Option String
  pub confidence : N
  pub findings : List DiagnosisFinding
  pub diagnostic_plan_needed : Bool

pub data ConnectivityStatus : Type 0 where
  available unavailable degraded unknown : ConnectivityStatus

pub data NetworkMode : Type 0 where
  full private_only isolated unknown_mode : NetworkMode

pub record ProbeResult : Type 0 where
  pub target : String
  pub reachable : Bool

-- What the guard reads of a profile
pub record NetworkProfile : Type 0 where
  pub internet_status : ConnectivityStatus
  pub target_probes : List ProbeResult
  pub dns_available : Bool
  pub mode : NetworkMode

-- `/a|b|…/i.test(s)`, for words in lower case
unfoldable pub test_words : List String → String → Bool
test_words words s = any (λ w. has_infix (to_lower_case (codes s)) (codes w)) words

abbrev pub name_resolution_errors : List String
name_resolution_errors = "enotfound" ∷ "eai_again" ∷ "getaddrinfo" ∷ []

abbrev pub unreachable_scenarios : List String
unreachable_scenarios = "unreachable" ∷ "connection_refused" ∷ "connection_failure" ∷ []

unfoldable pub is_unavailable : ConnectivityStatus → Bool
is_unavailable unavailable = true
is_unavailable _ = false

unfoldable pub is_isolated : NetworkMode → Bool
is_isolated isolated = true
is_isolated _ = false

pub record EnvironmentVerdict : Type 0 where
  pub suspect : Bool
  pub reasons : List String

abbrev pub reason_if : Bool → String → List String
reason_if b reason = if b then reason ∷ [] else []

unfoldable pub environment_reasons : NetworkProfile → List String
unfolding is_unavailable is_isolated
environment_reasons profile =
    (if profile.dns_available
      then []
      else "This machine cannot resolve DNS names (resolver probe failed at startup)." ∷ [])
    ++ (reason_if (is_unavailable profile.internet_status)
          "This machine cannot reach the internet (all egress probes failed)."
        ++ reason_if (is_isolated profile.mode)
            "The network profile classified this host as isolated (no working network).")

unfoldable pub assess_environment : Option NetworkProfile → EnvironmentVerdict
unfolding environment_reasons
assess_environment none = record { suspect = false; reasons = [] }
assess_environment (some profile) =
    let reasons = environment_reasons profile in
    record { suspect = if is_empty reasons then false else true; reasons = reasons }

-- `data?.[name]`
unfoldable pub get_field : String → Fields → Option Value
get_field name end = none
get_field name (field n v rest) = if n == name then some v else get_field name rest

unfoldable pub data_error : Option Fields → Option Value
unfolding get_field
data_error none = none
data_error (some fs) = get_field "error" fs

-- `String(v ?? '')`, where `as_text` is `String` on a value that is not null
unfoldable pub text_of : (Value → String) → Option Value → String
text_of as_text none = ""
text_of as_text (some null) = ""
text_of as_text (some v) = as_text v

unfoldable pub error_text : (Value → String) → DiagnosisFinding → String
unfolding data_error text_of
error_text as_text f = text_of as_text (data_error f.«data»)

unfoldable pub probed : List ProbeResult → Option String → Option ProbeResult
probed probes none = none
probed probes (some name) = find (λ p. p.target == name) probes

-- `targetProbe?.reachable`
unfoldable pub reached : Option NetworkProfile → Option String → Bool
unfolding probed
reached none name = false
reached (some profile) name = elim (probed profile.target_probes name) [
  | none ↦ false
  | some p ↦ p.reachable
]

unfoldable pub values : List String → Items
values [] = nil
values (s ∷ ss) = cons (text s) (values ss)

unfoldable pub unresolved_finding : String → String → DiagnosisFinding
unresolved_finding label error = record {
  source = "environment_check";
  observation = template (
      "The hostname for " ∷ label
      ∷ " does not resolve (DNS lookup failed). The service itself may be healthy — this points to a DNS or configuration problem on this machine, not the service."
      ∷ []);
  severity = warning;
  «data» = some (field "error" (text error) (field "redHerring" (boolean true) end));
}

unfoldable pub degraded_finding : String → List String → DiagnosisFinding
unfolding values
degraded_finding label reasons = record {
  source = "environment_check";
  observation = template (
      label
      ∷ " is unreachable, but this machine's own connectivity is degraded: "
      ∷ join " " reasons
      ∷ " Verify local network and DNS before acting on "
      ∷ label
      ∷ " — the service may be healthy."
      ∷ []);
  severity = warning;
  «data» = some (field "reasons" (array (values reasons)) (field "redHerring" (boolean true) end));
}

-- `math_min` is `Math.min`, and the two numbers are 0.6 and 0.5.
pub record Confidences (N : Type 0) : Type 0 where
  pub math_min : N → N → N
  pub three_fifths : N
  pub half : N

module _ {N : Type 0} (numbers : Confidences N) (as_text : Value → String)
    (profile : Option NetworkProfile) (target_name : Option String) where
  -- The second and the third case
  unfoldable pub guard_target : DiagnosisResult N → DiagnosisResult N
  unfolding reached assess_environment degraded_finding
  guard_target diagnosis =
      let env = assess_environment profile in
      if reached profile target_name
      then diagnosis
      else (if env.suspect
          then record diagnosis {
            status = partial;
            confidence = numbers.math_min diagnosis.confidence numbers.half;
            findings =
                degraded_finding (or_else target_name "the target") env.reasons
                ∷ diagnosis.findings;
            diagnostic_plan_needed = true;
          }
          else diagnosis)

  unfoldable pub guard_unresolved : DiagnosisResult N → Option String → DiagnosisResult N
  unfolding guard_target unresolved_finding
  guard_unresolved diagnosis (some error) = record diagnosis {
    status = partial;
    scenario = some "target_unresolvable";
    confidence = numbers.math_min diagnosis.confidence numbers.three_fifths;
    findings = unresolved_finding (or_else target_name "the target") error ∷ diagnosis.findings;
    diagnostic_plan_needed = true;
  }
  guard_unresolved diagnosis none = guard_target diagnosis

  unfoldable pub apply_environment_guard : DiagnosisResult N → DiagnosisResult N
  unfolding test_words error_text guard_unresolved
  apply_environment_guard diagnosis =
      if test_words unreachable_scenarios (or_else diagnosis.scenario "")
      then guard_unresolved diagnosis
          (find (test_words name_resolution_errors) (map (error_text as_text) diagnosis.findings))
      else diagnosis
