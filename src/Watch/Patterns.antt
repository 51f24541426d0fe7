-- ===== src/Watch/Patterns.antt =====
-- The patterns that a watch session looks for in what it keeps. Floating-point arithmetic is a
-- parameter.
use crisismode.Base.{
  ℕ, zero, suc, ◌/◌, max, String, Bool, false, ◌&&◌, ◌||◌, Option, none, some, List, [], ◌∷◌, ◌++◌,
  length, last, filter, show, template, if◌then◌else◌, ltb, leb, nat_eq,
}
use crisismode.Base.Numbers.{Numbers}
use crisismode.Watch.Data.{
  HealthStatus, healthy, recovering, unhealthy, status_eq, HealthSnapshot, HealthTransition,
  WatchState, slice_last, drop,
}

pub record RecurringPattern : Type 0 where
  pub pattern : String
  pub occurrences : ℕ
  pub first_seen : String
  pub last_seen : String
  pub description : String

abbrev pub pattern_window : ℕ
pattern_window = 20

abbrev pub head : {A : Type 0} → List A → Option A
head [] = none
head (x ∷ xs) = some x

abbrev pub take : {A : Type 0} → ℕ → List A → List A
take zero xs = []
take (suc n) [] = []
take (suc n) (x ∷ xs) = x ∷ take n xs

-- `xs[i]`
abbrev pub get_elem? : {A : Type 0} → List A → ℕ → Option A
get_elem? [] i = none
get_elem? (x ∷ xs) zero = some x
get_elem? (x ∷ xs) (suc i) = get_elem? xs i

-- `status === sequence[i]`
unfoldable pub matches_at : List HealthStatus → ℕ → HealthStatus → Bool
matches_at sequence i status = elim (get_elem? sequence i) [
  | none ↦ false
  | some expected ↦ status_eq status expected
]

-- The loop of `findStatusSequences`
unfoldable pub scan_sequences :
    {N : Type 0} → List HealthStatus → ℕ → ℕ → List (HealthSnapshot N) → ℕ
unfolding matches_at
scan_sequences sequence count seq_index [] = count
scan_sequences sequence count seq_index (s ∷ ss) =
    let found = scan_sequences sequence (suc count) 0 ss in
    let further = scan_sequences sequence count (suc seq_index) ss in
    let again = scan_sequences sequence count 1 ss in
    let reset = scan_sequences sequence count 0 ss in
    if matches_at sequence seq_index s.status
    then if nat_eq (suc seq_index) (length sequence) then found else further
    else if matches_at sequence 0 s.status
    then again
    else reset

unfoldable pub find_status_sequences :
    {N : Type 0} → List HealthStatus → List (HealthSnapshot N) → ℕ
unfolding scan_sequences
find_status_sequences sequence snapshots =
    if ltb (length snapshots) (length sequence) then 0 else scan_sequences sequence 0 0 snapshots

-- The loop of `countConsecutiveStatus`, with `max` and `current`
unfoldable pub scan_consecutive : {N : Type 0} → HealthStatus → ℕ → ℕ → List (HealthSnapshot N) → ℕ
scan_consecutive status most current [] = most
scan_consecutive status most current (s ∷ ss) =
    let longer = scan_consecutive status (max most (suc current)) (suc current) ss in
    let reset = scan_consecutive status most 0 ss in
    if status_eq s.status status then longer else reset

unfoldable pub count_consecutive_status : {N : Type 0} → HealthStatus → List (HealthSnapshot N) → ℕ
unfolding scan_consecutive
count_consecutive_status status snapshots = scan_consecutive status 0 0 snapshots

abbrev pub with_status :
    {N : Type 0} → HealthStatus → List (HealthSnapshot N) → List (HealthSnapshot N)
with_status status snapshots = filter (λ s. status_eq s.status status) snapshots

unfoldable pub first_time : {N : Type 0} → List (HealthSnapshot N) → String → String
first_time snapshots default = elim (head snapshots) [ none ↦ default | some s ↦ s.timestamp ]

unfoldable pub last_time : {N : Type 0} → List (HealthSnapshot N) → String → String
last_time snapshots default = elim (last snapshots) [ none ↦ default | some s ↦ s.timestamp ]

unfoldable pub is_flap : HealthTransition → Bool
is_flap t =
    (status_eq t.from healthy && status_eq t.to unhealthy)
    || (status_eq t.from unhealthy && status_eq t.to healthy)

unfoldable pub flaps_of : List HealthTransition → List HealthTransition
unfolding is_flap slice_last
flaps_of transitions = filter is_flap (slice_last pattern_window transitions)

abbrev pub transition_time : Option HealthTransition → String
transition_time none = ""
transition_time (some t) = t.timestamp

unfoldable pub flapping : List HealthTransition → List RecurringPattern
flapping flaps =
    if leb 3 (length flaps)
    then record {
      pattern = "flapping";
      occurrences = length flaps;
      first_seen = transition_time (head flaps);
      last_seen = transition_time (last flaps);
      description = template (
          "Health status flapping between healthy and unhealthy ("
          ∷ show (length flaps)
          ∷ " transitions in recent window)"
          ∷ []);
    }
      ∷ []
    else []

module _ {N : Type 0} (numbers : Numbers N) where
  -- `reduce((s, snap) => s + snap.confidence, …)`
  unfoldable pub sum_confidence : N → List (HealthSnapshot N) → N
  sum_confidence total [] = total
  sum_confidence total (s ∷ ss) = sum_confidence (numbers.add total s.confidence) ss

  unfoldable pub average_confidence : List (HealthSnapshot N) → N
  unfolding sum_confidence
  average_confidence ss =
      numbers.div (sum_confidence (numbers.of_nat 0) ss) (numbers.of_nat (length ss))

  -- `detectConfidenceDrift`
  unfoldable pub detect_confidence_drift : List (HealthSnapshot N) → Option N
  unfolding average_confidence
  detect_confidence_drift ss =
      if ltb (length ss) 10
      then none
      else let half = length ss / 2 in
        let drift =
          numbers.sub (average_confidence (drop half ss)) (average_confidence (take half ss)) in
        if numbers.less (numbers.abs drift) (numbers.literal "0.05") then none else some drift

module _ {N : Type 0} (w : WatchState N) where
  unfoldable pub degradation_cycle : ℕ → List RecurringPattern
  unfolding first_time last_time
  degradation_cycle sequences =
      if leb 2 sequences
      then record {
        pattern = "degradation-cycle";
        occurrences = sequences;
        first_seen = first_time (with_status recovering w.snapshots) w.started_at;
        last_seen = last_time (with_status recovering w.snapshots) w.last_updated;
        description = template (
            "Recurring degradation cycle: healthy → recovering → unhealthy ("
            ∷ show sequences
            ∷ " occurrences)"
            ∷ []);
      }
        ∷ []
      else []

  unfoldable pub persistent_unhealthy : ℕ → List RecurringPattern
  unfolding first_time last_time
  persistent_unhealthy consecutive =
      if leb 5 consecutive
      then record {
        pattern = "persistent-unhealthy";
        occurrences = consecutive;
        first_seen = first_time (with_status unhealthy w.snapshots) w.started_at;
        last_seen = last_time (with_status unhealthy w.snapshots) w.last_updated;
        description =
            template
              ("System has been unhealthy for " ∷ show consecutive ∷ " consecutive cycles" ∷ []);
      }
        ∷ []
      else []

  module _ (numbers : Numbers N) where
    unfoldable pub confidence_drift : Option N → List RecurringPattern
    unfolding first_time last_time
    confidence_drift none = []
    confidence_drift (some drift) =
        record {
          pattern = "confidence-drift";
          occurrences = 1;
          first_seen = first_time w.snapshots "";
          last_seen = last_time w.snapshots "";
          description = template (
              "Confidence trending "
              ∷ (if numbers.less drift (numbers.of_nat 0) then "down" else "up")
              ∷ " ("
              ∷ numbers.to_fixed 1 (numbers.mul drift (numbers.of_nat 100))
              ∷ "% change)"
              ∷ []);
        }
        ∷ []

    unfoldable pub detect_patterns : List RecurringPattern
    unfolding flaps_of flapping degradation_cycle find_status_sequences confidence_drift
        detect_confidence_drift persistent_unhealthy count_consecutive_status
    detect_patterns =
        if ltb (length w.snapshots) 3
        then []
        else flapping (flaps_of w.transitions)
          ++ degradation_cycle
              (find_status_sequences (healthy ∷ recovering ∷ unhealthy ∷ []) w.snapshots)
          ++ confidence_drift (detect_confidence_drift numbers w.snapshots)
          ++ persistent_unhealthy (count_consecutive_status unhealthy w.snapshots)
