-- ===== src/Examples/Watches.antt =====
-- A watch session that sees a failure come and go.
use crisismode.Base.{ℕ, ◌≡◌, none, some, List, [], ◌∷◌}
use crisismode.Watch.Data.{
  HealthStatus, healthy, recovering, unhealthy, HealthAssessment, HealthSnapshot, WatchState,
  new_watch_state, record_health, serialise, deserialise,
}
use crisismode.Watch.Invariant.{
  IsConsistent, Reached, begun, health_recorded, Reached-IsConsistent, deserialise-serialise,
}
use crisismode.Watch.Transitions.{Explains, Reached-Explains}
use crisismode.Watch.Patterns.{find_status_sequences, count_consecutive_status}
use crisismode.Watch.Sequences.{
  statuses, degradation, degradations, find_status_sequences-degradations,
}
use crisismode.Watch.Runs.{longest_run, count_consecutive_status-longest_run}
use crisismode.Maturity.{
  MaturitySource, get, weakest, build_maturity_by_kind, build_maturity_by_kind-weakest,
}
use crisismode.Escalation.{
  is_destructive, has_severe, plan_escalation_level, plan_escalation_level-severe,
}
use crisismode.Base.{any}
use crisismode.Examples.Data.{recovery}

abbrev seen : HealthStatus → HealthAssessment ℕ
seen status = record { status = status; confidence = 1; signals = []; observed_at = "noon" }

abbrev session : WatchState ℕ
session =
    (record_health (seen unhealthy) 2
      (record_health (seen recovering) 1
        (record_health (seen healthy) 0 (new_watch_state "db" none "noon")).1).1).1

session-Reached : Reached session
session-Reached = health_recorded (seen unhealthy) 2 (
    health_recorded (seen recovering) 1 (health_recorded (seen healthy) 0 (begun "db" none "noon")))

Reached-IsConsistent_example : IsConsistent session
Reached-IsConsistent_example = Reached-IsConsistent session session-Reached

deserialise-serialise_example : deserialise (serialise session) ≡ session
deserialise-serialise_example = deserialise-serialise session session-Reached

Reached-Explains_example : Explains session.transitions session.last_status
Reached-Explains_example = Reached-Explains session session-Reached

abbrev snapshot : HealthStatus → HealthSnapshot ℕ
snapshot status = record {
  cycle = 0;
  status = status;
  confidence = 1;
  signal_count = 0;
  timestamp = "noon";
}

abbrev snapshots : List (HealthSnapshot ℕ)
snapshots =
    snapshot healthy
    ∷ snapshot healthy
    ∷ snapshot recovering
    ∷ snapshot unhealthy
    ∷ snapshot unhealthy
    ∷ []

find_status_sequences-degradations_example :
    find_status_sequences degradation snapshots ≡ degradations (statuses snapshots)
find_status_sequences-degradations_example = find_status_sequences-degradations snapshots

count_consecutive_status-longest_run_example :
    count_consecutive_status unhealthy snapshots ≡ longest_run unhealthy (statuses snapshots)
count_consecutive_status-longest_run_example =
    count_consecutive_status-longest_run unhealthy snapshots

abbrev sources : List MaturitySource
sources =
    record { kind = "postgresql"; plugin_maturity = some "live_validated" }
    ∷ record { kind = "postgresql"; plugin_maturity = some "experimental" }
    ∷ record { kind = "redis"; plugin_maturity = some "live_validated" }
    ∷ []

build_maturity_by_kind-weakest_example :
    get "postgresql" (build_maturity_by_kind sources) ≡ weakest "postgresql" none sources
build_maturity_by_kind-weakest_example = build_maturity_by_kind-weakest "postgresql" sources

plan_escalation_level-severe_example :
    is_destructive (plan_escalation_level recovery) ≡ any has_severe recovery.steps
plan_escalation_level-severe_example = plan_escalation_level-severe recovery
