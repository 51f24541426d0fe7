-- ===== src/Catalog/Operations.antt =====
-- The steps of a plan as a match sees them, and the operations that their commands perform.
use crisismode.Base.{
  ℕ, suc, String, Bool, true, false, ◌&&◌, not, Option, none, some, List, [], ◌∷◌, ◌++◌, map,
  filter, includes, flat_map, template, join, is_some, if◌then◌else◌, ◌==◌, ltb, show,
}
use crisismode.Types.{
  RecoveryStep, ElseStep, system_action, diagnosis_action, human_notification, human_approval,
  checkpoint, replanning_checkpoint, conditional, skip, otherwise, RecoveryPlan, Command,
  CommandType, sql, structured_command, kubernetes_api, api_call, configuration_change, step_id,
}
use crisismode.Catalog.Entry.{StepPattern, Library}

pub record FlatStep : Type 0 where
  -- Of the step at the top level that it belongs to
  pub index : ℕ
  pub step : RecoveryStep
  pub is_conditional : Bool

unfoldable mutual
  -- `visit`
  pub visit : RecoveryStep → ℕ → Bool → List FlatStep
  visit (conditional c t e) i b =
      record { index = i; step = conditional c t e; is_conditional = b } ∷ visit t i true
      ++ visit_else e i
  visit (system_action s) i b =
      record { index = i; step = system_action s; is_conditional = b } ∷ []
  visit (diagnosis_action s) i b =
      record { index = i; step = diagnosis_action s; is_conditional = b } ∷ []
  visit (human_notification s) i b =
      record { index = i; step = human_notification s; is_conditional = b } ∷ []
  visit (human_approval s) i b =
      record { index = i; step = human_approval s; is_conditional = b } ∷ []
  visit (checkpoint s) i b = record { index = i; step = checkpoint s; is_conditional = b } ∷ []
  visit (replanning_checkpoint s) i b =
      record { index = i; step = replanning_checkpoint s; is_conditional = b } ∷ []

  pub visit_else : ElseStep → ℕ → List FlatStep
  visit_else skip i = []
  visit_else (otherwise s) i = visit s i true

-- `flattenSteps`, from an index on
unfoldable pub flatten_from : ℕ → List RecoveryStep → List FlatStep
flatten_from i [] = []
flatten_from i (s ∷ ss) = visit s i false ++ flatten_from (suc i) ss

unfoldable pub flatten_steps : List RecoveryStep → List FlatStep
unfolding flatten_from
flatten_steps steps = flatten_from 0 steps

-- `step.type`
unfoldable pub step_type : RecoveryStep → String
step_type (system_action s) = "system_action"
step_type (diagnosis_action s) = "diagnosis_action"
step_type (human_notification s) = "human_notification"
step_type (human_approval s) = "human_approval"
step_type (checkpoint s) = "checkpoint"
step_type (replanning_checkpoint s) = "replanning_checkpoint"
step_type (conditional c t e) = "conditional"

abbrev pub first : {A : Type 0} → List A → Option A
first [] = none
first (x ∷ xs) = some x

unfoldable pub first_mutation_index : List FlatStep → Option ℕ
unfolding step_type
first_mutation_index flat = elim (first (filter (λ f. step_type f.step == "system_action") flat)) [
  | none ↦ none
  | some f ↦ some f.index
]

-- The matches at an index before `i`, with a test on whether they are conditional
abbrev pub before : ℕ → (Bool → Bool) → List FlatStep → List FlatStep
before i test matches = filter (λ f. test f.is_conditional && ltb f.index i) matches

unfoldable pub position_reasons : StepPattern → ℕ → FlatStep → List FlatStep → List String
position_reasons p i m matches = elim (before i not matches) [
  | _ ∷ _ ↦ []
  | [] ↦
      (if is_some (first (before i (λ b. b) matches))
        then template (
            "required step pattern '"
            ∷ p.type
            ∷ "' must appear before_first_mutation unconditionally, but every '"
            ∷ p.type
            ∷ "' step before the first mutating step (index "
            ∷ show i
            ∷ ") is inside a conditional branch and may not run"
            ∷ [])
        else template (
            "required step pattern '"
            ∷ p.type
            ∷ "' must appear before_first_mutation, but the first '"
            ∷ p.type
            ∷ "' step is at index "
            ∷ show m.index
            ∷ " and the first mutating step is at index "
            ∷ show i
            ∷ []))
      ∷ []
]

unfoldable pub reasons_at : StepPattern → Option ℕ → FlatStep → List FlatStep → List String
unfolding position_reasons
reasons_at p none m matches = []
reasons_at p (some i) m matches = position_reasons p i m matches

unfoldable pub pattern_reasons : StepPattern → Option ℕ → List FlatStep → List String
unfolding reasons_at
pattern_reasons p mutation [] =
    template ("plan is missing required step pattern '" ∷ p.type ∷ "'" ∷ []) ∷ []
pattern_reasons p mutation (m ∷ ms) =
    if p.position == "any"
    then []
    else if p.position == "before_first_mutation"
    then reasons_at p mutation m (m ∷ ms)
    else template (
        "required step pattern '" ∷ p.type ∷ "' declares unsupported position '" ∷ p.position
        ∷ "', which cannot be enforced" ∷ [])
      ∷ []

unfoldable pub evaluate_step_patterns : RecoveryPlan → List StepPattern → List String
unfolding pattern_reasons first_mutation_index flatten_steps step_type
evaluate_step_patterns plan patterns =
    let flat = flatten_steps plan.steps in
    flat_map
      (λ (p : StepPattern).
        pattern_reasons p (first_mutation_index flat)
          (filter (λ f. step_type f.step == p.type) flat))
      patterns

unfoldable pub command_type_text : CommandType → String
command_type_text sql = "sql"
command_type_text structured_command = "structured_command"
command_type_text kubernetes_api = "kubernetes_api"
command_type_text api_call = "api_call"
command_type_text configuration_change = "configuration_change"

-- A text that is there and not empty
abbrev pub text_of : Option String → Option String
text_of none = none
text_of (some t) = if t == "" then none else some t

unfoldable pub command_of : RecoveryStep → Option Command
command_of (system_action s) = some s.command
command_of (diagnosis_action s) = some s.command
command_of _ = none

abbrev pub evaluable_forbidden_operations : List String
evaluable_forbidden_operations = "ddl" ∷ "admin_privilege" ∷ []

abbrev pub admin_privilege_sql : String
admin_privilege_sql =
    "/^(?:grant|revoke|reassign\\s+owned|set\\s+role|(?:create|alter|drop)\\s+(?:role|user|group)\\b)/i"

abbrev pub ddl_sql : String
ddl_sql = "/^(?:create|alter|drop|truncate|rename|comment\\s+on|refresh\\s+materialized)\\b/i"

abbrev pub sql_comment : String
sql_comment = "/--[^\\n]*|\\/\\*[\\s\\S]*?\\*\\//g"

abbrev pub opaque_sql_body : String
opaque_sql_body = "/\\$[A-Za-z_]*\\$|^\\s*(?:do|execute)\\b/i"

module _ {N : Type 0} (library : Library N) where
  unfoldable pub split_statements : String → List String
  split_statements statement =
      filter (λ f. not (f == ""))
        (map library.trim (library.split ";" (library.replace_all sql_comment " " statement)))

  unfoldable pub normalized : String → String
  normalized op = library.to_lower_case (library.trim op)

  unfoldable pub fragment_classes : String → List String
  fragment_classes fragment =
      (if library.regex_test admin_privilege_sql fragment then "admin_privilege" ∷ [] else [])
      ++ (if library.regex_test ddl_sql fragment then "ddl" ∷ [] else [])

  unfoldable pub statement_classes : Option String → List String
  unfolding fragment_classes split_statements
  statement_classes none = []
  statement_classes (some statement) =
      (if library.regex_test opaque_sql_body statement then "ddl" ∷ "admin_privilege" ∷ [] else [])
      ++ flat_map fragment_classes (split_statements statement)

  unfoldable pub named_class : Option String → List String
  unfolding normalized
  named_class none = []
  named_class (some t) = normalized t ∷ []

  -- `classifyCommand`; a set is a list of its elements here
  unfoldable pub classify_command : Command → List String
  unfolding named_class statement_classes
  classify_command c =
      named_class (text_of c.subtype)
      ++ named_class (text_of c.operation)
      ++ statement_classes (text_of c.statement)

  unfoldable pub operation_text : Command → Option String → String
  unfolding command_type_text
  operation_text c none = command_type_text c.type
  operation_text c (some operation) = template (command_type_text c.type ∷ ": " ∷ operation ∷ [])

  unfoldable pub describe : Command → Option String → String
  unfolding operation_text command_type_text
  describe c none = operation_text c (text_of c.operation)
  describe c (some statement) =
      template (command_type_text c.type ∷ ": " ∷ library.slice 0 80 (library.trim statement) ∷ [])

  unfoldable pub describe_command : Command → String
  unfolding describe
  describe_command c = describe c (text_of c.statement)

  unfoldable pub unknown_reasons : String → List String
  unknown_reasons op =
      if includes op evaluable_forbidden_operations
      then []
      else template (
          "catalog forbids operation '"
          ∷ op
          ∷ "', which this classifier cannot evaluate (it derives only "
          ∷ join ", " (map (λ c. template ("'" ∷ c ∷ "'" ∷ [])) evaluable_forbidden_operations)
          ∷ " from a command), so the criterion cannot be enforced"
          ∷ [])
        ∷ []

  unfoldable pub performed_reasons : String → Command → String → List String
  unfolding describe_command classify_command
  performed_reasons id c op =
      if includes op (classify_command c)
      then template (
          "step '"
          ∷ id
          ∷ "' performs forbidden operation '"
          ∷ op
          ∷ "' ("
          ∷ describe_command c
          ∷ ")"
          ∷ [])
        ∷ []
      else []

  unfoldable pub step_reasons : List String → FlatStep → List String
  unfolding performed_reasons command_of
  step_reasons ops f = elim (command_of f.step) [
    | none ↦ []
    | some c ↦ flat_map (performed_reasons (step_id f.step) c) ops
  ]

  unfoldable pub evaluate_forbidden_operations : RecoveryPlan → List String → List String
  unfolding unknown_reasons step_reasons flatten_steps normalized
  evaluate_forbidden_operations plan [] = []
  evaluate_forbidden_operations plan (op ∷ ops) =
      let ops' = map normalized (op ∷ ops) in
      flat_map unknown_reasons ops' ++ flat_map (step_reasons ops') (flatten_steps plan.steps)
