-- ===== src/Models/Public.antt =====
-- models.py: `RunRecord.public`, the projection that a client gets. A time, which the source
-- prints with isoformat(), is its number here.
use workflow_runtime_core.Base.{ℕ, String, Option, none, some}
use workflow_runtime_core.Json
use workflow_runtime_core.Json.{Json, null, num, str, obj, Fields, end, field}
use workflow_runtime_core.Models.{
  RunRecord, status_value, CancellationState, not_requested, confirmed, requested, unavailable,
  cancellation_state, usage, public_execution_metadata,
}

abbrev state_value : CancellationState → String
state_value not_requested = "not_requested"
state_value confirmed = "confirmed"
state_value requested = "requested"
state_value unavailable = "unavailable"

abbrev text_or_null : Option String → Json
text_or_null none = null
text_or_null (some s) = str s

abbrev value_or_null : Option Json → Json
value_or_null none = null
value_or_null (some v) = v

abbrev dict_or_null : Option Fields → Json
dict_or_null none = null
dict_or_null (some d) = obj d

-- payload[key] = value, where there is a value
abbrev with_value : String → Option Json → Fields → Fields
with_value k none rest = rest
with_value k (some v) rest = field k v rest

abbrev dict_value : Option Fields → Option Json
dict_value none = none
dict_value (some d) = some (obj d)

abbrev time_value : Option ℕ → Option Json
time_value none = none
time_value (some t) = some (num t)

-- if execution: payload["execution"] = execution
abbrev non_empty : Fields → Option Json
non_empty end = none
non_empty (field k v d) = some (obj (field k v d))

abbrev attempt_fields : Option String → ℕ → Option String → Fields → Fields
attempt_fields none attempt_no retry_of rest = rest
attempt_fields (some w) attempt_no retry_of rest = field "workspace_id" (str w) (
    field "attempt"
      (obj (field "attempt_no" (num attempt_no) (field "retry_of" (text_or_null retry_of) end)))
      rest)

unfoldable pub public : RunRecord → ℕ → Fields
public run now = field "run_id" (str run.run_id) (
    field "workflow" (str run.workflow) (
      field "status" (str (status_value run.status)) (
        field "client_slug" (text_or_null run.client_slug) (
          field "created_at" (num run.created_at) (
            field "updated_at" (num run.updated_at) (
              field "interrupt_payload" (value_or_null run.interrupt_payload) (
                field "error" (text_or_null run.error) (
                  field "artifacts" (dict_or_null run.artifacts_json) (
                    attempt_fields run.workspace_id run.attempt_no run.retry_of (
                      with_value "progress" (dict_value run.progress_json) (
                        with_value "heartbeat_at" (time_value run.heartbeat_at) (
                          with_value "failure" (dict_value run.error_json) (
                            with_value "execution"
                              (non_empty (public_execution_metadata run.execution_metadata_json))
                              (field "cancellation" (str (state_value (cancellation_state run now)))
                                (field "usage" (obj (usage run)) end)))))))))))))))

-- The fields of an object, where there is one.
abbrev pub inside : Option Json → Fields
inside (some (obj d)) = d
inside _ = end
