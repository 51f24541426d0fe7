-- ===== src/Approval/Gate.antt =====
-- When an approval step is satisfied without a human.
use crisismode.Base.{Bool, true, false, ◌≡◌, refl, ◌≢◌, ◌↔◌, ◌⊎◌, inl, inr, arith}
use crisismode.Types.{
  RiskLevel, routine, elevated, high, critical, TrustLevel, observe, copilot, autopilot,
  full_autonomy,
}
use crisismode.Approval.{should_auto_approve}

-- A standing approval of the catalog for a routine or, if policy allows it, an elevated plan;
-- or trust that is high enough for the level.
pub data MayProceed : RiskLevel → TrustLevel → Bool → Bool → Type 0 where
  catalog_routine : {t : TrustLevel} {policy : Bool} → MayProceed routine t true policy
  catalog_elevated : {t : TrustLevel} → MayProceed elevated t true false
  trusted_routine :
      {t : TrustLevel} {covered policy : Bool} → t ≢ observe → MayProceed routine t covered policy
  trusted_elevated :
      {t : TrustLevel} {covered : Bool}
      → (t ≡ autopilot) ⊎ (t ≡ full_autonomy)
      → MayProceed elevated t covered false

opens :
    (r : RiskLevel) (t : TrustLevel) (covered policy : Bool)
    → should_auto_approve r t covered policy ≡ true
    → MayProceed r t covered policy
unfolding should_auto_approve
opens high t c p h = cc
opens critical t c p h = cc
opens elevated t c true h = cc
opens elevated t true false h = catalog_elevated
opens elevated autopilot false false h = trusted_elevated (inl refl)
opens elevated full_autonomy false false h = trusted_elevated (inr refl)
opens elevated observe false false h = cc
opens elevated copilot false false h = cc
opens routine t true p h = catalog_routine
opens routine observe false p h = cc
opens routine _ false p h = trusted_routine (λ e. ground arith)

allowed :
    {r : RiskLevel} {t : TrustLevel} {covered policy : Bool}
    → MayProceed r t covered policy
    → should_auto_approve r t covered policy ≡ true
unfolding should_auto_approve
allowed catalog_routine = refl
allowed catalog_elevated = refl
allowed (trusted_routine h) = ground arith
allowed (trusted_elevated h) = ground arith

-- The gate opens without a human exactly in the cases of `MayProceed`; so never for a plan of
-- high or critical risk, whatever the catalog and the trust level say.
pub should_auto_approve-MayProceed_iff :
    (r : RiskLevel) (t : TrustLevel) (covered policy : Bool)
    → (should_auto_approve r t covered policy ≡ true) ↔ MayProceed r t covered policy
should_auto_approve-MayProceed_iff r t covered policy = (opens r t covered policy, allowed)
