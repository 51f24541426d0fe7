-- ===== src/Watch/Sequences.antt =====
-- The loop that looks for a sequence of statuses, compared with a count of its occurrences.
use crisismode.Base.{
  ℕ, suc, ◌+◌, Bool, true, false, arith, ◌≡◌, refl, sym, ◌∙◌, ap, List, [], ◌∷◌, map, length, ltb,
  if◌then◌else◌,
}
use crisismode.Watch.Data.{HealthStatus, healthy, recovering, unhealthy, unknown, HealthSnapshot}
use crisismode.Watch.Patterns.{matches_at, scan_sequences, find_status_sequences}

-- The list starts with a degradation: healthy, recovering, unhealthy, one after the other.
abbrev starts_degradation : List HealthStatus → Bool
starts_degradation (healthy ∷ recovering ∷ unhealthy ∷ ss) = true
starts_degradation _ = false

-- The number of places at which a degradation starts
abbrev pub degradations : List HealthStatus → ℕ
degradations [] = 0
degradations (s ∷ ss) =
    let rest = degradations ss in if starts_degradation (s ∷ ss) then suc rest else rest

abbrev pub degradation : List HealthStatus
degradation = healthy ∷ recovering ∷ unhealthy ∷ []

suc_out : (x count n : ℕ) → x ≡ suc count + n → x ≡ count + suc n
suc_out x count n h = omega arith

abbrev pub statuses : {N : Type 0} → List (HealthSnapshot N) → List HealthStatus
statuses = map HealthSnapshot.status

length-map : {A B : Type 0} (f : A → B) (xs : List A) → length (map f xs) ≡ length xs
length-map f [] = refl
length-map f (x ∷ xs) = ap suc (length-map f xs)

module _ {N : Type 0} where
  -- At each index of the sequence, the rest is counted behind what has been seen of it.
  abbrev Counts : List (HealthSnapshot N) → Type 0
  Counts ss =
      (count : ℕ)
      → (scan_sequences degradation count 0 ss ≡ count + degradations (statuses ss))
        × (scan_sequences degradation count 1 ss ≡ count + degradations (healthy ∷ statuses ss))
        × (scan_sequences degradation count 2 ss
            ≡ count + degradations (healthy ∷ recovering ∷ statuses ss))

  scan-Counts : (ss : List (HealthSnapshot N)) → Counts ss
  unfolding scan_sequences matches_at
  scan-Counts [] = λ count. (omega arith, omega arith, omega arith)
  scan-Counts (s ∷ ss) = by_status s.status (scan-Counts ss)
    where
      by_status : (status : HealthStatus) → Counts ss → Counts (record s { status = status } ∷ ss)
      by_status healthy h count = ((h count).1, (h count).1, (h count).1)
      by_status recovering h count = ((h count).0, (h count).2, (h count).0)
      by_status unhealthy h count =
          ((h count).0, (h count).0, suc_out _ count (degradations (statuses ss)) (h (suc count)).0)
      by_status unknown h count = ((h count).0, (h count).0, (h count).0)

starts_one : (s : HealthStatus) → starts_degradation (s ∷ []) ≡ false
starts_one s = ground arith

starts_two : (s t : HealthStatus) → starts_degradation (s ∷ t ∷ []) ≡ false
starts_two s t = ground arith

short : (ss : List HealthStatus) → ltb (length ss) 3 ≡ true → degradations ss ≡ 0
short [] h = refl
short (s ∷ []) h = rw (starts_one s) refl
short (s ∷ t ∷ []) h = rw (starts_two s t, starts_one t) refl
short (s ∷ t ∷ u ∷ ss) h = ground arith

-- The loop that looks for degradation cycles counts the places at which a healthy snapshot is
-- followed by a recovering and an unhealthy one at once.
pub find_status_sequences-degradations :
    {N : Type 0} (snapshots : List (HealthSnapshot N))
    → find_status_sequences degradation snapshots ≡ degradations (statuses snapshots)
unfolding find_status_sequences
find_status_sequences-degradations snapshots = by_test (ltb (length snapshots) 3) refl
  where
    by_test :
        (b : Bool)
        → ltb (length snapshots) 3 ≡ b
        → (if b then 0 else scan_sequences degradation 0 0 snapshots)
          ≡ degradations (statuses snapshots)
    by_test true h = sym (
        short (statuses snapshots)
          (ap (λ n. ltb n 3) (length-map HealthSnapshot.status snapshots) ∙ h))
    by_test false h = let counted = (scan-Counts snapshots 0).0 in omega arith
