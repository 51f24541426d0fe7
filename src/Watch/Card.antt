-- ===== src/Watch/Card.antt =====
-- The health card of a watch session, its forecasts and its summary.
use crisismode.Base.{
  ℕ, suc, ◌*◌, min, String, Bool, false, ◌&&◌, not, Option, none, some, List, [], ◌∷◌, ◌++◌, map,
  length, last, show, template, flat_map, if◌then◌else◌, ltb, leb, ◌==◌,
}
use crisismode.Base.Numbers.{Numbers}
use crisismode.Watch.Data.{
  HealthStatus, healthy, recovering, unhealthy, unknown, status_eq, HealthSnapshot,
  HealthTransition, RecoveryProposal, WatchState, slice_last, get_last_snapshot,
}
use crisismode.Watch.Patterns.{RecurringPattern, with_status, average_confidence, detect_patterns}

pub data Driver : Type 0 where
  confidence_trend signal_growth pattern_recurrence status_trajectory : Driver

pub record DegradationForecast (N : Type 0) : Type 0 where
  pub predicted_status : HealthStatus
  pub confidence : N
  pub cycles_until : N
  pub driver : Driver
  pub explanation : String
  pub recommendation : String

pub record HealthCard (N : Type 0) : Type 0 where
  pub target : String
  pub current_status : HealthStatus
  pub current_confidence : N
  pub uptime_percent : N
  pub avg_confidence : N
  pub total_cycles : ℕ
  pub transition_count : ℕ
  pub proposal_count : ℕ
  pub patterns : List RecurringPattern
  pub forecasts : List (DegradationForecast N)
  pub last_checked : String
  pub watching_since : String

pub record WatchStateSummary (N : Type 0) : Type 0 where
  pub total_cycles : ℕ
  pub health_snapshots : List (HealthSnapshot N)
  pub transitions : List HealthTransition
  pub proposals : List (RecoveryProposal N)
  pub patterns : List RecurringPattern
  pub started_at : String
  pub last_updated : String
  pub uptime_percent : N
  pub avg_confidence : N

-- The sums of `linearSlope`
pub record Sums (N : Type 0) : Type 0 where
  pub sum_x : N
  pub sum_y : N
  pub sum_xy : N
  pub sum_x2 : N

module _ {N : Type 0} (numbers : Numbers N) where
  -- The loop of `linearSlope`, from index `i`
  unfoldable pub slope_sums : ℕ → List N → Sums N → Sums N
  slope_sums i [] sums = sums
  slope_sums i (v ∷ vs) sums = slope_sums (suc i) vs (record {
    sum_x = numbers.add sums.sum_x (numbers.of_nat i);
    sum_y = numbers.add sums.sum_y v;
    sum_xy = numbers.add sums.sum_xy (numbers.mul (numbers.of_nat i) v);
    sum_x2 = numbers.add sums.sum_x2 (numbers.of_nat (i * i));
  })

  abbrev no_sums : Sums N
  no_sums = record {
    sum_x = numbers.of_nat 0;
    sum_y = numbers.of_nat 0;
    sum_xy = numbers.of_nat 0;
    sum_x2 = numbers.of_nat 0;
  }

  unfoldable pub equals : N → N → Bool
  equals a b = not (numbers.less a b) && not (numbers.less b a)

  unfoldable pub linear_slope : List N → N
  unfolding slope_sums equals
  linear_slope values =
      let n = numbers.of_nat (length values) in
      let sums = slope_sums 0 values no_sums in
      let denominator =
        numbers.sub (numbers.mul n sums.sum_x2) (numbers.mul sums.sum_x sums.sum_x) in
      if ltb (length values) 2
      then numbers.of_nat 0
      else if equals denominator (numbers.of_nat 0)
      then numbers.of_nat 0
      else numbers.div (numbers.sub (numbers.mul n sums.sum_xy) (numbers.mul sums.sum_x sums.sum_y))
          denominator

  abbrev pub minimum : N → N → N
  minimum a b = if numbers.less b a then b else a

  unfoldable pub confidence_trend_forecast : N → HealthSnapshot N → List (DegradationForecast N)
  confidence_trend_forecast slope latest =
      let threshold = numbers.literal "0.5" in
      let cycles_until =
        numbers.ceil (numbers.div (numbers.sub latest.confidence threshold) (numbers.abs slope)) in
      if numbers.less slope (numbers.literal "-0.01") && numbers.less threshold latest.confidence
      then record {
        predicted_status = unhealthy;
        confidence =
            minimum (numbers.mul (numbers.abs slope) (numbers.of_nat 20)) (numbers.literal "0.9");
        cycles_until = cycles_until;
        driver = confidence_trend;
        explanation = template (
            "Confidence declining at "
            ∷ numbers.to_fixed 2 (numbers.mul slope (numbers.of_nat 100))
            ∷ "%/cycle — will cross unhealthy threshold in ~"
            ∷ numbers.to_text cycles_until
            ∷ " cycles"
            ∷ []);
        recommendation =
            "Investigate root cause now while system is still healthy. Run `crisismode diagnose`.";
      }
        ∷ []
      else []

  unfoldable pub signal_growth_forecast : N → HealthSnapshot N → List (DegradationForecast N)
  signal_growth_forecast slope latest =
      let cycles_until =
        numbers.ceil (numbers.div (numbers.of_nat (latest.signal_count * 2)) slope) in
      if numbers.less (numbers.literal "0.1") slope && leb 2 latest.signal_count
      then record {
        predicted_status = unhealthy;
        confidence = minimum (numbers.mul slope (numbers.of_nat 5)) (numbers.literal "0.8");
        cycles_until =
            if numbers.less cycles_until (numbers.of_nat 1) then numbers.of_nat 1 else cycles_until;
        driver = signal_growth;
        explanation = template (
            "Health signal count growing at "
            ∷ numbers.to_fixed 2 slope
            ∷ "/cycle (currently "
            ∷ show latest.signal_count
            ∷ " signals)"
            ∷ []);
        recommendation =
            "New health signals appearing — check for emerging issues with `crisismode scan --verbose`.";
      }
        ∷ []
      else []

  unfoldable pub pattern_forecast : RecurringPattern → List (DegradationForecast N)
  pattern_forecast p =
      let times = numbers.of_nat p.occurrences in
      (if p.pattern == "flapping" && leb 4 p.occurrences
        then record {
          predicted_status = unhealthy;
          confidence =
              minimum (numbers.mul times (numbers.literal "0.15")) (numbers.literal "0.85");
          cycles_until = numbers.of_nat 3;
          driver = pattern_recurrence;
          explanation = template (
              "Flapping detected ("
              ∷ show p.occurrences
              ∷ " transitions) — system likely to become unstable again"
              ∷ []);
          recommendation =
              "Flapping indicates an intermittent root cause. Investigate before the next failure cycle.";
        }
          ∷ []
        else [])
      ++ (if p.pattern == "degradation-cycle" && leb 2 p.occurrences
          then record {
            predicted_status = unhealthy;
            confidence =
                minimum (numbers.mul times (numbers.literal "0.2")) (numbers.literal "0.9");
            cycles_until = numbers.of_nat 5;
            driver = pattern_recurrence;
            explanation = template (
                "Degradation cycle detected ("
                ∷ show p.occurrences
                ∷ "x) — system repeatedly failing and partially recovering"
                ∷ []);
            recommendation =
                "Recurring degradation suggests incomplete recovery. Review previous recovery proposals.";
          }
            ∷ []
          else [])

  unfoldable pub status_weight : HealthStatus → N
  status_weight healthy = numbers.of_nat 1
  status_weight recovering = numbers.literal "0.5"
  status_weight unhealthy = numbers.of_nat 0
  status_weight unknown = numbers.literal "0.3"

  abbrev is_unhealthy : Option HealthStatus → Bool
  is_unhealthy none = false
  is_unhealthy (some s) = status_eq s unhealthy

  unfoldable pub trajectory_forecast : N → Option HealthStatus → List (DegradationForecast N)
  trajectory_forecast slope last_status =
      if numbers.less slope (numbers.literal "-0.1") && not (is_unhealthy last_status)
      then record {
        predicted_status = unhealthy;
        confidence =
            minimum (numbers.mul (numbers.abs slope) (numbers.of_nat 3)) (numbers.literal "0.8");
        cycles_until = numbers.ceil (numbers.div (numbers.of_nat 1) (numbers.abs slope));
        driver = status_trajectory;
        explanation = "Health status trending downward across recent cycles";
        recommendation = "System health deteriorating. Proactive diagnosis recommended.";
      }
        ∷ []
      else []

  -- `sort((a, b) => b.confidence - a.confidence)`, which is stable
  unfoldable pub insert_forecast :
      DegradationForecast N → List (DegradationForecast N) → List (DegradationForecast N)
  insert_forecast f [] = f ∷ []
  insert_forecast f (g ∷ gs) =
      let rest = insert_forecast f gs in
      if numbers.less f.confidence g.confidence then g ∷ rest else f ∷ g ∷ gs

  unfoldable pub sort_forecasts : List (DegradationForecast N) → List (DegradationForecast N)
  unfolding insert_forecast
  sort_forecasts [] = []
  sort_forecasts (f ∷ fs) = insert_forecast f (sort_forecasts fs)

  unfoldable pub forecasts_from :
      WatchState N → Option (HealthSnapshot N) → List (DegradationForecast N)
  unfolding linear_slope slice_last confidence_trend_forecast signal_growth_forecast
      pattern_forecast trajectory_forecast status_weight sort_forecasts
  forecasts_from w none = []
  forecasts_from w (some latest) =
      let recent = slice_last (min (length w.snapshots) 30) w.snapshots in
      sort_forecasts (
        confidence_trend_forecast (linear_slope (map HealthSnapshot.confidence recent)) latest
        ++ signal_growth_forecast (linear_slope (map (λ s. numbers.of_nat s.signal_count) recent))
            latest
        ++ flat_map pattern_forecast (detect_patterns w numbers)
        ++ trajectory_forecast
            (linear_slope (map (λ s. status_weight s.status) (slice_last 5 w.snapshots)))
            w.last_status)

  -- `forecastDegradation`
  unfoldable pub forecast_degradation : WatchState N → List (DegradationForecast N)
  unfolding forecasts_from
  forecast_degradation w =
      if ltb (length w.snapshots) 5 then [] else forecasts_from w (last w.snapshots)

  -- `Math.round(x * 10 ** k) / 10 ** k`
  unfoldable pub rounded_at : ℕ → N → N
  rounded_at factor x =
      numbers.div (numbers.round (numbers.mul x (numbers.of_nat factor))) (numbers.of_nat factor)

  unfoldable pub uptime : ℕ → ℕ → N
  uptime healthy_cycles total =
      if ltb 0 total
      then numbers.mul (numbers.div (numbers.of_nat healthy_cycles) (numbers.of_nat total))
          (numbers.of_nat 100)
      else numbers.of_nat 100

  unfoldable pub card_from : WatchState N → Option (HealthSnapshot N) → HealthCard N
  unfolding rounded_at uptime forecast_degradation
  card_from w latest =
      let total = length w.snapshots in
      record {
        target = w.target;
        current_status = elim latest [ none ↦ unknown | some s ↦ s.status ];
        current_confidence = elim latest [ none ↦ numbers.of_nat 0 | some s ↦ s.confidence ];
        uptime_percent = rounded_at 10 (uptime (length (with_status healthy w.snapshots)) total);
        avg_confidence =
            rounded_at 1000
              (if ltb 0 total then average_confidence numbers w.snapshots else numbers.of_nat 0);
        total_cycles = total;
        transition_count = length w.transitions;
        proposal_count = length w.proposals;
        patterns = detect_patterns w numbers;
        forecasts = forecast_degradation w;
        last_checked = elim latest [ none ↦ w.started_at | some s ↦ s.timestamp ];
        watching_since = w.started_at;
      }

  unfoldable pub get_health_card : WatchState N → HealthCard N
  unfolding card_from get_last_snapshot
  get_health_card w = card_from w (get_last_snapshot w)

  unfoldable pub get_summary : WatchState N → WatchStateSummary N
  unfolding get_health_card card_from
  get_summary w = record {
    total_cycles = length w.snapshots;
    health_snapshots = w.snapshots;
    transitions = w.transitions;
    proposals = w.proposals;
    patterns = (get_health_card w).patterns;
    started_at = w.started_at;
    last_updated = w.last_updated;
    uptime_percent = (get_health_card w).uptime_percent;
    avg_confidence = (get_health_card w).avg_confidence;
  }
