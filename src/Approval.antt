-- ===== src/Approval.antt =====
-- src/framework/coordinator.ts, and `isCatalogCovered` of catalog.ts.
pub mod Gate
use crisismode.Base.{
  ℕ, String, Bool, true, false, ◌||◌, ◌&&◌, List, [], ◌∷◌, any, nat_eq, codes, codes_eq, trim,
  to_lower_case, if◌then◌else◌,
}
use crisismode.Types.{
  RiskLevel, routine, elevated, high, critical, TrustLevel, observe, copilot, autopilot,
  full_autonomy,
}
use crisismode.Risk.{index_of}

pub data ApprovalResult : Type 0 where
  approved skipped rejected : ApprovalResult

says : String → String → Bool
says answer word = codes_eq (to_lower_case (trim (codes answer))) (codes word)

-- What `requestApproval` makes of the answer that the operator types
unfoldable pub read_decision : String → ApprovalResult
unfolding says codes_eq to_lower_case trim
read_decision answer =
    if says answer "approve" || (says answer "a" || (says answer "yes" || says answer "y"))
    then approved
    else if says answer "skip" || says answer "s"
    then skipped
    else rejected

unfoldable pub is_catalog_covered : RiskLevel → List RiskLevel → Bool
unfolding index_of
is_catalog_covered level covered = any (λ c. nat_eq (index_of c) (index_of level)) covered

is_autonomous : TrustLevel → Bool
is_autonomous observe = false
is_autonomous copilot = false
is_autonomous autopilot = true
is_autonomous full_autonomy = true

is_observe : TrustLevel → Bool
is_observe observe = true
is_observe _ = false

unfoldable pub should_auto_approve : RiskLevel → TrustLevel → Bool → Bool → Bool
unfolding is_autonomous is_observe
should_auto_approve high trust covered require_all = false
should_auto_approve critical trust covered require_all = false
should_auto_approve elevated trust covered require_all =
    if require_all then false else if covered then true else is_autonomous trust
should_auto_approve routine trust covered require_all =
    if covered then true else if is_observe trust then false else true
