-- ===== src/Watch/Data.antt =====
-- The state of a watch session and what it records. A confidence is a floating-point number of a
-- type that is a parameter: the state only stores it.
use crisismode.Base.{
  ℕ, zero, suc, ◌-◌, String, Bool, true, false, not, Option, none, some, List, [], ◌∷◌, ◌++◌,
  length, last, or_else, if◌then◌else◌, ltb,
}
use crisismode.Types.{RecoveryPlan}

pub data HealthStatus : Type 0 where
  healthy recovering unhealthy unknown : HealthStatus

-- `===`
abbrev pub status_eq : HealthStatus → HealthStatus → Bool
status_eq healthy healthy = true
status_eq recovering recovering = true
status_eq unhealthy unhealthy = true
status_eq unknown unknown = true
status_eq _ _ = false

-- The fields of `HealthAssessment` that are read; a signal is only counted
pub record HealthAssessment (N : Type 0) : Type 0 where
  pub status : HealthStatus
  pub confidence : N
  pub signals : List String
  pub observed_at : String

pub record HealthSnapshot (N : Type 0) : Type 0 where
  pub cycle : ℕ
  pub status : HealthStatus
  pub confidence : N
  pub signal_count : ℕ
  pub timestamp : String

pub record HealthTransition : Type 0 where
  pub from : HealthStatus
  pub to : HealthStatus
  pub cycle : ℕ
  pub timestamp : String

pub record RecoveryProposal (N : Type 0) : Type 0 where
  pub id : String
  pub cycle : ℕ
  pub scenario : Option String
  pub confidence : N
  pub step_count : ℕ
  pub timestamp : String

pub record WatchState (N : Type 0) : Type 0 where
  pub target : String
  pub started_at : String
  pub snapshots : List (HealthSnapshot N)
  pub transitions : List HealthTransition
  pub proposals : List (RecoveryProposal N)
  pub last_status : Option HealthStatus
  pub last_updated : String

-- Version 1
pub record SerializedWatchState (N : Type 0) : Type 0 where
  pub target : String
  pub snapshots : List (HealthSnapshot N)
  pub transitions : List HealthTransition
  pub proposals : List (RecoveryProposal N)
  pub started_at : String
  pub last_updated : String

abbrev pub max_snapshots : ℕ
max_snapshots = 1000

abbrev pub drop : {A : Type 0} → ℕ → List A → List A
drop zero xs = xs
drop (suc n) [] = []
drop (suc n) (x ∷ xs) = drop n xs

-- `xs.slice(-n)`, for an `n` other than 0
unfoldable pub slice_last : {A : Type 0} → ℕ → List A → List A
slice_last n xs = drop (length xs - n) xs

-- The constructor; `now` is the time if no start is given
unfoldable pub new_watch_state : {N : Type 0} → String → Option String → String → WatchState N
new_watch_state target started_at now = record {
  target = target;
  started_at = or_else started_at now;
  snapshots = [];
  transitions = [];
  proposals = [];
  last_status = none;
  last_updated = or_else started_at now;
}

unfoldable pub transition_from :
    Option HealthStatus → HealthStatus → ℕ → String → Option HealthTransition
transition_from none status cycle timestamp = none
transition_from (some before) status cycle timestamp =
    if not (status_eq before status)
    then some (record { from = before; to = status; cycle = cycle; timestamp = timestamp })
    else none

unfoldable pub push_transition :
    Option HealthTransition → List HealthTransition → List HealthTransition
push_transition none ts = ts
push_transition (some t) ts = ts ++ t ∷ []

module _ {N : Type 0} where
  unfoldable pub snapshot_of : HealthAssessment N → ℕ → HealthSnapshot N
  snapshot_of assessment cycle = record {
    cycle = cycle;
    status = assessment.status;
    confidence = assessment.confidence;
    signal_count = length assessment.signals;
    timestamp = assessment.observed_at;
  }

  unfoldable pub trim : List (HealthSnapshot N) → List (HealthSnapshot N)
  unfolding slice_last
  trim snapshots =
      if ltb max_snapshots (length snapshots) then slice_last max_snapshots snapshots else snapshots

  -- `recordHealth`: the transition that is returned, and the state
  unfoldable pub record_health :
      HealthAssessment N → ℕ → WatchState N → Option HealthTransition × WatchState N
  unfolding snapshot_of trim transition_from push_transition
  record_health assessment cycle w =
      let transition =
        transition_from w.last_status assessment.status cycle assessment.observed_at in
      (
        transition,
        record w {
          snapshots = trim (w.snapshots ++ snapshot_of assessment cycle ∷ []);
          transitions = push_transition transition w.transitions;
          last_status = some assessment.status;
          last_updated = assessment.observed_at;
        },
      )

  unfoldable pub proposal_of : Option String → N → RecoveryPlan → ℕ → String → RecoveryProposal N
  proposal_of scenario confidence plan cycle now = record {
    id = plan.metadata.plan_id;
    cycle = cycle;
    scenario = scenario;
    confidence = confidence;
    step_count = length plan.steps;
    timestamp = now;
  }

  -- `recordProposal`, for a plan with metadata and steps
  unfoldable pub record_proposal :
      Option String
      → N
      → RecoveryPlan
      → ℕ
      → String
      → WatchState N
      → RecoveryProposal N × WatchState N
  unfolding proposal_of
  record_proposal scenario confidence plan cycle now w =
      let proposal = proposal_of scenario confidence plan cycle now in
      (proposal, record w { proposals = w.proposals ++ proposal ∷ [] })

  unfoldable pub get_last_snapshot : WatchState N → Option (HealthSnapshot N)
  get_last_snapshot w = last w.snapshots

  unfoldable pub serialise : WatchState N → SerializedWatchState N
  serialise w = record {
    target = w.target;
    snapshots = w.snapshots;
    transitions = w.transitions;
    proposals = w.proposals;
    started_at = w.started_at;
    last_updated = w.last_updated;
  }

  unfoldable pub status_of : Option (HealthSnapshot N) → Option HealthStatus
  status_of none = none
  status_of (some s) = some s.status

  unfoldable pub status_of_last : List (HealthSnapshot N) → Option HealthStatus
  unfolding status_of
  status_of_last snapshots = status_of (last snapshots)

  unfoldable pub deserialise : SerializedWatchState N → WatchState N
  unfolding status_of_last
  deserialise d = record {
    target = d.target;
    started_at = d.started_at;
    snapshots = d.snapshots;
    transitions = d.transitions;
    proposals = d.proposals;
    last_status = status_of_last d.snapshots;
    last_updated = d.last_updated;
  }
