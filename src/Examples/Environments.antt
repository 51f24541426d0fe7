-- ===== src/Examples/Environments.antt =====
-- A diagnosis of a host whose name does not resolve.
use crisismode.Base.{
  ℕ, String, true, false, ◌≡◌, refl, some, [], ◌∷◌, ◌⊎◌, min, has_infix, to_lower_case,
}
use crisismode.Types.{text, end, field, Value}
use crisismode.Environment.{
  identified, critical, full, available, DiagnosisResult, NetworkProfile, Confidences,
  apply_environment_guard,
}
use crisismode.Environment.Verdict.{IsQualified, IsExcused, apply_environment_guard-Settled}

abbrev tenths : Confidences ℕ
tenths = record { math_min = min; three_fifths = 6; half = 5 }

abbrev online : NetworkProfile
online = record {
  internet_status = available;
  target_probes = record { target = "db"; reachable = false } ∷ [];
  dns_available = true;
  mode = full;
}

abbrev lost : DiagnosisResult ℕ
lost = record {
  status = identified;
  scenario = some "db_unreachable";
  confidence = 9;
  findings =
      record {
        source = "pg";
        observation = "no answer";
        severity = critical;
        «data» = some (field "error" (text "getaddrinfo ENOTFOUND db") end);
      }
      ∷ [];
  diagnostic_plan_needed = false;
}

abbrev as_text : Value → String
as_text (text s) = s
as_text _ = ""

lost-confidence :
    (apply_environment_guard tenths as_text (some online) (some "db") lost).confidence ≡ 6
unfolding apply_environment_guard has_infix to_lower_case
lost-confidence = refl

apply_environment_guard-Settled_example :
    (IsExcused as_text (some online) (some "db") lost
      × IsQualified tenths lost
          (apply_environment_guard tenths as_text (some online) (some "db") lost))
    ⊎ ((IsExcused as_text (some online) (some "db") lost → ⊥)
        × (apply_environment_guard tenths as_text (some online) (some "db") lost ≡ lost))
apply_environment_guard-Settled_example =
    apply_environment_guard-Settled tenths as_text (some online) (some "db") lost
