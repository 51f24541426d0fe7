-- ===== src/Safety/Capture.antt =====
-- `executeCapture` of src/framework/safety.ts. The clock is an argument, `now`; the time stamp of
-- the result is left out.
use crisismode.Base.{
  ℕ, String, Bool, true, false, ◌≡◌, ◌⊎◌, inl, inr, refl, ◌&&◌, Option, none, some, List, [], ◌∷◌,
  arith, template, show, if◌then◌else◌,
}
use crisismode.Types.{
  Value, Items, Fields, text, boolean, array, object, nil, cons, end, field, CapturePolicy,
  required, best_effort, deferred, CaptureCost, expensive, CaptureType, sql_query, file_snapshot,
  command_output, api_snapshot, filesystem_snapshot, custom, CaptureDirective, CaptureStatus,
  captured, skipped, failed,
}

pub record CaptureResult : Type 0 where
  pub name : String
  pub capture_type : CaptureType
  pub status : CaptureStatus
  pub reason : Option String
  pub data_value : Option Value

-- The texts of the union `CaptureType`
capture_type_name : CaptureType → String
capture_type_name sql_query = "sql_query"
capture_type_name file_snapshot = "file_snapshot"
capture_type_name command_output = "command_output"
capture_type_name api_snapshot = "api_snapshot"
capture_type_name filesystem_snapshot = "filesystem_snapshot"
capture_type_name custom = "custom"

texts : List String → Items
texts [] = nil
texts (s ∷ ss) = cons (text s) (texts ss)

-- A field of an object literal whose value may be undefined
optional_field : String → Option Value → Fields → Fields
optional_field k none fs = fs
optional_field k (some v) fs = field k v fs

optional_text : Option String → Option Value
optional_text none = none
optional_text (some s) = some (text s)

optional_texts : Option (List String) → Option Value
unfolding texts
optional_texts none = none
optional_texts (some ss) = some (array (texts ss))

simulate_as : CaptureType → CaptureDirective → ℕ → Value
unfolding optional_field optional_text optional_texts capture_type_name
simulate_as sql_query c now = object (
    field "rows" (text "[simulated query result]")
      (optional_field "statement" (optional_text c.statement) end))
simulate_as file_snapshot c now = object (
    optional_field "files" (optional_texts c.targets)
      (field "snapshotId" (text (template ("snap-" ∷ show now ∷ []))) end))
simulate_as command_output c now = object (field "output" (text "[simulated command output]") end)
simulate_as other c now =
    object (field "type" (text (capture_type_name other)) (field "captured" (boolean true) end))

pub simulate_capture_data : CaptureDirective → ℕ → Value
unfolding simulate_as
simulate_capture_data c now = simulate_as c.capture_type c now

is_deferred : CapturePolicy → Bool
is_deferred deferred = true
is_deferred _ = false

is_best_effort : CapturePolicy → Bool
is_best_effort best_effort = true
is_best_effort _ = false

is_expensive : CaptureCost → Bool
is_expensive expensive = true
is_expensive _ = false

unfoldable pub is_required : CapturePolicy → Bool
is_required required = true
is_required _ = false

unfoldable pub is_failed : CaptureStatus → Bool
is_failed failed = true
is_failed _ = false

unfoldable pub execute_capture : CaptureDirective → ℕ → CaptureResult
unfolding is_deferred is_best_effort is_expensive
execute_capture c now =
    if is_deferred c.capture_policy
    then record {
      name = c.name;
      capture_type = c.capture_type;
      status = skipped;
      reason = some "Deferred capture - queued for post-action or post-recovery execution";
      data_value = none;
    }
    else if is_expensive c.capture_cost && is_best_effort c.capture_policy
    then record {
      name = c.name;
      capture_type = c.capture_type;
      status = skipped;
      reason = some "Expensive capture skipped during active degradation (best_effort)";
      data_value = none;
    }
    else record {
      name = c.name;
      capture_type = c.capture_type;
      status = captured;
      reason = none;
      data_value = some (simulate_capture_data c now);
    }

-- Deferred, or expensive and only best effort
abbrev pub IsSkippable : CaptureDirective → Type 0
IsSkippable c =
    (c.capture_policy ≡ deferred)
    ⊎ ((c.capture_cost ≡ expensive) × (c.capture_policy ≡ best_effort))

abbrev Outcome : CaptureDirective → CaptureResult → Value → Type 0
Outcome c r v =
    (IsSkippable c × (r.status ≡ skipped) × (r.data_value ≡ none))
    ⊎ ((¬ IsSkippable c) × (r.status ≡ captured) × (r.data_value ≡ some v))

cases :
    (p : CapturePolicy) (k : CaptureCost) (c : CaptureDirective) (now : ℕ)
    → c.capture_policy ≡ p
    → c.capture_cost ≡ k
    → Outcome c (execute_capture c now) (simulate_capture_data c now)
unfolding execute_capture
cases deferred k c now hp hk = inl (inl hp, rw hp, rw hp)
cases best_effort expensive c now hp hk = inl (inr (hk, hp), rw (hp, hk), rw (hp, hk))
cases required k c now hp hk = inr (λ h. ground arith, ground arith, ground arith)
cases best_effort k c now hp hk = inr (λ h. ground arith, ground arith, ground arith)

-- A capture is skipped exactly if it is deferred, or expensive and only best effort. Any other is
-- captured, with its data, also a required one of any cost; none fails.
pub execute_capture_cases :
    (c : CaptureDirective) (now : ℕ)
    → (IsSkippable c
        × ((execute_capture c now).status ≡ skipped)
        × ((execute_capture c now).data_value ≡ none))
      ⊎ ((¬ IsSkippable c)
          × ((execute_capture c now).status ≡ captured)
          × ((execute_capture c now).data_value ≡ some (simulate_capture_data c now)))
execute_capture_cases c now = cases c.capture_policy c.capture_cost c now refl refl
