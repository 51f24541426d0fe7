-- ===== src/Graph/Rollback/Captures.antt =====
-- The commands that src/framework/graph-rollback.ts derives from the captures of a step.
use crisismode.Base.{
  String, Bool, true, false, not, nat_eq, Option, none, some, List, [], ◌∷◌, template,
  if◌then◌else◌, ◌==◌,
}
use crisismode.Types.{
  Value, null, boolean, number, text, object, Fields, end, field, CaptureType, sql_query,
  file_snapshot, command_output, api_snapshot, filesystem_snapshot, custom, CommandType, sql,
  structured_command, api_call, Command, SystemActionStep,
}
use crisismode.Engine.Effects.{Exec, pure, Reply, resolved, rejected, ◌>>=◌}
use crisismode.Graph.Flow.{raise}

pub record CaptureMetadata : Type 0 where
  pub id : String
  pub capture_type : CaptureType

pub record StoredCapture : Type 0 where
  pub metadata : CaptureMetadata
  pub data_value : Value

-- What the rollback calls: the rollback-capable captures of a step, a capture by its id, and
-- `generateSqlRestore` on the captured statement and rows, which throws when these have no text
pub record CaptureStore (S : Type 0) : Type 0 where
  pub list : String → Exec S (List CaptureMetadata)
  pub get : String → Exec S (Option StoredCapture)
  pub generate_sql_restore : Value → Value → Reply String

pub data RestorationType : Type 0 where
  sql_restore config_restore api_restore file_restore : RestorationType

pub record CaptureRollbackCommand : Type 0 where
  pub step_id : String
  pub description : String
  pub command : Command
  pub capture_id : String
  pub restoration_type : RestorationType

-- `!!value`
unfoldable pub is_truthy : Value → Bool
is_truthy null = false
is_truthy (boolean b) = b
is_truthy (number n) = not (nat_eq n 0)
is_truthy (text t) = not (t == "")
is_truthy _ = true

-- The value of a field, or none for `undefined`
unfoldable pub field_of : String → Fields → Option Value
field_of key end = none
field_of key (field k v rest) = if k == key then some v else field_of key rest

unfoldable pub data_field : String → Value → Option Value
unfolding field_of
data_field key (object fields) = field_of key fields
data_field key _ = none

-- A field that is there and not falsy
unfoldable pub truthy_field : String → Value → Option Value
unfolding data_field is_truthy
truthy_field key data_value = elim (data_field key data_value) [
  | none ↦ none
  | some v ↦ if is_truthy v then some v else none
]

-- `!data`
unfoldable pub is_missing : Value → Bool
unfolding is_truthy
is_missing v = not (is_truthy v)

unfoldable pub restore_command :
    CommandType → Option String → Option String → Option Fields → Command
restore_command type statement operation parameters = record {
  type = type;
  subtype = none;
  statement = statement;
  operation = operation;
  parameters = parameters;
}

module _ {S : Type 0} (store : CaptureStore S) (step : SystemActionStep) where
  unfoldable pub restoration :
      StoredCapture → String → RestorationType → Command → CaptureRollbackCommand
  restoration stored what type command = record {
    step_id = step.step_id;
    description = template ("Restore " ∷ what ∷ " state captured before: " ∷ step.name ∷ []);
    command = command;
    capture_id = stored.metadata.id;
    restoration_type = type;
  }

  unfoldable pub restored_sql :
      StoredCapture → Reply String → Exec S (Option CaptureRollbackCommand)
  unfolding restoration restore_command
  restored_sql stored (resolved statement) =
      pure (
        some
          (restoration stored "SQL" sql_restore (restore_command sql (some statement) none none)))
  restored_sql stored (rejected e) = raise e

  unfoldable pub derive_sql :
      StoredCapture → Option Value → Option Value → Exec S (Option CaptureRollbackCommand)
  unfolding restored_sql
  derive_sql stored (some statement) (some rows) =
      restored_sql stored (store.generate_sql_restore statement rows)
  derive_sql stored _ _ = pure none

  unfoldable pub derive_api :
      StoredCapture → Option Value → Option Value → Option CaptureRollbackCommand
  unfolding restoration restore_command
  derive_api stored (some endpoint) (some response) = some (
      restoration stored "API" api_restore (
        restore_command api_call none (some "restore")
          (some (field "endpoint" endpoint (field "previousState" response end)))))
  derive_api stored _ _ = none

  unfoldable pub derive_files : StoredCapture → Option Value → Option CaptureRollbackCommand
  unfolding restoration restore_command
  derive_files stored (some snapshots) = some (
      restoration stored "file" file_restore (
        restore_command structured_command none (some "restore_files")
          (some (field "snapshots" snapshots end))))
  derive_files stored none = none

  unfoldable pub derive_by_type :
      StoredCapture → CaptureType → Exec S (Option CaptureRollbackCommand)
  unfolding truthy_field data_field derive_sql derive_api derive_files
  derive_by_type stored sql_query =
      derive_sql stored (truthy_field "statement" stored.data_value)
        (data_field "rows" stored.data_value)
  derive_by_type stored api_snapshot = pure (
      derive_api stored (truthy_field "endpoint" stored.data_value)
        (data_field "response" stored.data_value))
  derive_by_type stored file_snapshot =
      pure (derive_files stored (truthy_field "snapshots" stored.data_value))
  derive_by_type stored filesystem_snapshot =
      pure (derive_files stored (truthy_field "snapshots" stored.data_value))
  derive_by_type stored command_output = pure none
  derive_by_type stored custom = pure none

  -- `deriveRollbackCommand`
  unfoldable pub derive_rollback_command : StoredCapture → Exec S (Option CaptureRollbackCommand)
  unfolding is_missing derive_by_type
  derive_rollback_command stored =
      if is_missing stored.data_value
      then pure none
      else derive_by_type stored stored.metadata.capture_type

  unfoldable pub derive_found : Option StoredCapture → Exec S (Option CaptureRollbackCommand)
  unfolding derive_rollback_command
  derive_found none = pure none
  derive_found (some stored) = derive_rollback_command stored

  unfoldable pub push_command :
      Option CaptureRollbackCommand → List CaptureRollbackCommand → List CaptureRollbackCommand
  push_command none cs = cs
  push_command (some c) cs = c ∷ cs

  unfoldable pub commands_from : List CaptureMetadata → Exec S (List CaptureRollbackCommand)
  unfolding derive_found push_command
  commands_from [] = pure []
  commands_from (m ∷ ms) = do
    stored ← store.get m.id
    derived ← derive_found stored
    later ← commands_from ms
    pure (push_command derived later)

  -- `generateCaptureRollbackCommands`, for an action
  unfoldable pub generate_capture_rollback_commands : Exec S (List CaptureRollbackCommand)
  unfolding commands_from
  generate_capture_rollback_commands = do captures ← store.list step.step_id; commands_from captures
