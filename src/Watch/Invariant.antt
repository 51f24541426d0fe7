-- ===== src/Watch/Invariant.antt =====
-- What holds of every state that a watch session comes to, and what is kept by persisting it.
use crisismode.Base.{
  ℕ, zero, suc, ◌-◌, ◌≤◌, ◌<◌, String, Bool, true, false, arith, ◌≡◌, refl, sym, ◌∙◌, ap, Option,
  List, [], ◌∷◌, ◌++◌, length, last, last-append, ltb, ltb→le, if◌then◌else◌,
}
use crisismode.Types.{RecoveryPlan}
use crisismode.Watch.Data.{
  HealthAssessment, HealthSnapshot, WatchState, max_snapshots, drop, slice_last, new_watch_state,
  snapshot_of, trim, record_health, record_proposal, serialise, status_of, status_of_last,
  deserialise,
}

length-drop : {A : Type 0} (n : ℕ) (xs : List A) → length (drop n xs) ≡ length xs - n
length-drop zero xs = omega arith
length-drop (suc n) [] = omega arith
length-drop (suc n) (x ∷ xs) = let shorter = length-drop n xs in omega arith

last-drop : {A : Type 0} (n : ℕ) (xs : List A) → n < length xs → last (drop n xs) ≡ last xs
last-drop zero xs h = refl
last-drop (suc n) [] h = ground arith
last-drop (suc n) (x ∷ y ∷ xs) h = last-drop n (y ∷ xs) (by_suc h)
  where
    by_suc : suc n < suc (suc (length xs)) → n < suc (length xs)
    by_suc k = omega arith
last-drop (suc n) (x ∷ []) h = ground arith

lt_of_ltb : (a b : ℕ) → ltb a b ≡ true → a < b
lt_of_ltb a b h = ground arith

module _ {N : Type 0} where
  length-trim : (ss : List (HealthSnapshot N)) → length (trim ss) ≤ max_snapshots
  unfolding trim slice_last
  length-trim ss = by_test (ltb max_snapshots (length ss)) refl
    where
      by_test :
          (b : Bool)
          → ltb max_snapshots (length ss) ≡ b
          → length (if b then drop (length ss - max_snapshots) ss else ss) ≤ max_snapshots
      by_test true h =
          let over = lt_of_ltb max_snapshots (length ss) h in
          let dropped = length-drop (length ss - max_snapshots) ss in omega arith
      by_test false h = ltb→le max_snapshots (length ss) h

  last-trim : (ss : List (HealthSnapshot N)) → last (trim ss) ≡ last ss
  unfolding trim slice_last
  last-trim ss = by_test (ltb max_snapshots (length ss)) refl
    where
      by_test :
          (b : Bool)
          → ltb max_snapshots (length ss) ≡ b
          → last (if b then drop (length ss - max_snapshots) ss else ss) ≡ last ss
      by_test true h =
          let over = lt_of_ltb max_snapshots (length ss) h in
          last-drop (length ss - max_snapshots) ss (omega arith)
      by_test false h = refl

  -- The snapshots stay within the limit, and the last status is that of the last snapshot.
  abbrev pub IsConsistent : WatchState N → Type 0
  IsConsistent w =
      (length w.snapshots ≤ max_snapshots) × (w.last_status ≡ status_of_last w.snapshots)

-- The states of a session
pub data Reached {N : Type 0} : WatchState N → Type 0 where
  begun :
      (target : String) (start : Option String) (now : String)
      → Reached (new_watch_state target start now)
  health_recorded :
      {w : WatchState N} (a : HealthAssessment N) (cycle : ℕ)
      → Reached w
      → Reached (record_health a cycle w).1
  proposal_recorded :
      {w : WatchState N} (scenario : Option String) (confidence : N) (plan : RecoveryPlan)
      (cycle : ℕ) (now : String)
      → Reached w
      → Reached (record_proposal scenario confidence plan cycle now w).1

record_health-IsConsistent :
    {N : Type 0} (a : HealthAssessment N) (cycle : ℕ) (w : WatchState N)
    → IsConsistent (record_health a cycle w).1
unfolding record_health status_of_last status_of snapshot_of
record_health-IsConsistent a cycle w =
    let added = w.snapshots ++ snapshot_of a cycle ∷ [] in
    (
      length-trim added,
      ap status_of (sym (last-trim added ∙ last-append w.snapshots (snapshot_of a cycle))),
    )

-- In every state of a session at most 1000 snapshots are kept, and the last status that the next
-- transition is judged by is the status of the last snapshot.
pub Reached-IsConsistent : {N : Type 0} (w : WatchState N) → Reached w → IsConsistent w
unfolding new_watch_state status_of_last status_of record_proposal
Reached-IsConsistent w (begun target start now) = (omega arith, refl)
Reached-IsConsistent w (health_recorded a cycle r) = record_health-IsConsistent a cycle _
Reached-IsConsistent w (proposal_recorded {w = v} scenario confidence plan cycle now r) =
    Reached-IsConsistent v r

-- A state of a session that is written and read back is the same state.
pub deserialise-serialise :
    {N : Type 0} (w : WatchState N) → Reached w → deserialise (serialise w) ≡ w
unfolding deserialise serialise
deserialise-serialise w r =
    ap (λ s. record w { last_status = s }) (sym (Reached-IsConsistent w r).1)
