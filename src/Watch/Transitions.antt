-- ===== src/Watch/Transitions.antt =====
-- The transitions that a watch session keeps, in their order.
use crisismode.Base.{
  ℕ, String, Bool, true, false, not, arith, ◌≡◌, ◌≢◌, refl, subst, Option, none, some, List, [],
  ◌∷◌, ◌++◌, if◌then◌else◌,
}
use crisismode.Watch.Data.{
  HealthStatus, status_eq, HealthTransition, WatchState, transition_from, push_transition,
  record_health, record_proposal, new_watch_state,
}
use crisismode.Watch.Invariant.{Reached, begun, health_recorded, proposal_recorded}

-- From one status to another by transitions: each begins where the one before it ended, and
-- changes the status.
pub data Leads : HealthStatus → List HealthTransition → HealthStatus → Type 0 where
  stays : {a : HealthStatus} → Leads a [] a
  moves :
      {a b : HealthStatus} {ts : List HealthTransition} (t : HealthTransition)
      → Leads a ts b
      → t.from ≡ b
      → t.from ≢ t.to
      → Leads a (ts ++ t ∷ []) t.to

-- The transitions lead from a first status to the last one. None is there before the first check.
abbrev pub Explains : List HealthTransition → Option HealthStatus → Type 0
Explains ts none = ts ≡ []
Explains ts (some b) = (a : HealthStatus) × Leads a ts b

status_eq-same : (a b : HealthStatus) → status_eq a b ≡ true → a ≡ b
status_eq-same a b h = ground arith

status_eq-other : (a b : HealthStatus) → status_eq a b ≡ false → a ≢ b
status_eq-other a b h = ground arith

explain-next :
    (ts : List HealthTransition) (before : Option HealthStatus) (status : HealthStatus) (cycle : ℕ)
    (time : String)
    → Explains ts before
    → Explains (push_transition (transition_from before status cycle time) ts) (some status)
unfolding push_transition transition_from
explain-next ts none status cycle time h = rw h (status, stays)
explain-next ts (some b) status cycle time (a, leads) = by_test (status_eq b status) refl
  where
    by_test :
        (same : Bool)
        → status_eq b status ≡ same
        → Explains
            (push_transition
              (if not same
                then some (record { from = b; to = status; cycle = cycle; timestamp = time })
                else none)
              ts)
            (some status)
    by_test true e = (a, subst (Leads a ts) (status_eq-same b status e) leads)
    by_test false e = (a, moves _ leads refl (status_eq-other b status e))

-- In every state of a session the transitions explain the last status: each changes the status,
-- begins where the one before it ended, and the last one ends in the last status that was seen,
-- however many snapshots have been dropped.
pub Reached-Explains :
    {N : Type 0} (w : WatchState N) → Reached w → Explains w.transitions w.last_status
unfolding new_watch_state record_health record_proposal
Reached-Explains w (begun target start now) = refl
Reached-Explains w (health_recorded {w = v} a cycle r) =
    explain-next v.transitions v.last_status a.status cycle a.observed_at (Reached-Explains v r)
Reached-Explains w (proposal_recorded {w = v} scenario confidence plan cycle now r) =
    Reached-Explains v r
