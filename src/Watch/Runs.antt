-- ===== src/Watch/Runs.antt =====
-- The loop that counts the cycles with one status, compared with the longest run of it.
use crisismode.Base.{
  ℕ, suc, ◌+◌, ◌≤◌, max, Bool, true, false, arith, ◌≡◌, List, [], ◌∷◌, if◌then◌else◌,
}
use crisismode.Watch.Data.{HealthStatus, status_eq, HealthSnapshot}
use crisismode.Watch.Sequences.{statuses}
use crisismode.Watch.Patterns.{scan_consecutive, count_consecutive_status}

-- How many elements at the front have the status
abbrev pub leading : HealthStatus → List HealthStatus → ℕ
leading status [] = 0
leading status (s ∷ ss) = let rest = leading status ss in if status_eq s status then suc rest else 0

-- The greatest number of elements in a row that have the status, wherever they start
abbrev pub longest_run : HealthStatus → List HealthStatus → ℕ
longest_run status [] = 0
longest_run status (s ∷ ss) = max (leading status (s ∷ ss)) (longest_run status ss)

leading-longest_run :
    (status : HealthStatus) (ss : List HealthStatus) → leading status ss ≤ longest_run status ss
leading-longest_run status [] = omega arith
leading-longest_run status (s ∷ ss) = omega arith

module _ {N : Type 0} (status : HealthStatus) where
  scan-longest :
      (most current : ℕ) (ss : List (HealthSnapshot N))
      → current ≤ most
      → scan_consecutive status most current ss
        ≡ max most (max (current + leading status (statuses ss)) (longest_run status (statuses ss)))
  unfolding scan_consecutive
  scan-longest most current [] h = omega arith
  scan-longest most current (s ∷ ss) h =
      by_test (status_eq s.status status)
        (scan-longest (max most (suc current)) (suc current) ss (omega arith))
        (scan-longest most 0 ss (omega arith))
    where
      Found : ℕ → ℕ → Type 0
      Found m c =
          scan_consecutive status m c ss
          ≡ max m (max (c + leading status (statuses ss)) (longest_run status (statuses ss)))

      by_test :
          (b : Bool)
          → Found (max most (suc current)) (suc current)
          → Found most 0
          → (if b
              then scan_consecutive status (max most (suc current)) (suc current) ss
              else scan_consecutive status most 0 ss)
            ≡ max most (
                max (current + (if b then suc (leading status (statuses ss)) else 0)) (
                  max
                    (if b then suc (leading status (statuses ss)) else 0)
                    (longest_run status (statuses ss))))
      by_test true longer reset = omega arith
      by_test false longer reset =
          let bound = leading-longest_run status (statuses ss) in omega arith

-- The number of consecutive cycles is the length of the longest run of the status.
pub count_consecutive_status-longest_run :
    {N : Type 0} (status : HealthStatus) (snapshots : List (HealthSnapshot N))
    → count_consecutive_status status snapshots ≡ longest_run status (statuses snapshots)
unfolding count_consecutive_status
count_consecutive_status-longest_run status snapshots =
    let counted = scan-longest status 0 0 snapshots (omega arith) in
    let bound = leading-longest_run status (statuses snapshots) in omega arith
