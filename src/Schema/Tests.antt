-- ===== src/Schema/Tests.antt =====
-- A record, and runs of the theorems about src/state/workflow-schema.ts.
use dsh_codex_workflow.Common.{String, Bool, true, ◌≡◌, refl}
use dsh_codex_workflow.Common.Result.{ok, err}
use dsh_codex_workflow.Json.{
  Fields, whole, num, str, obj, empty, field, lookup, put, Distinct, bool,
}
use dsh_codex_workflow.Schema.Validation.{
  check_retry, validate_retry_state, check_cleanup, validate_terminal_cleanup,
  invalid_retry_attempts,
}
use dsh_codex_workflow.Schema.{
  group_of, no_fields, add_field, distribute, envelope, serialize_workflow_record,
  deserialize_workflow_record, migrate_workflow_record,
}
use dsh_codex_workflow.Schema.RoundTrip.{ReadsBack, serialize-deserialize}

-- Births and trimmed texts are accepted here.
abbrev any_text : String → Bool
any_text s = true

abbrev retry_marker : Fields
retry_marker =
    field "stage" (str "planning")
      (field "attempts" (num (whole 2)) (field "awaitingStartReceipt" (bool true) empty))

abbrev flat_record : Fields
flat_record = field "id" (str "w1") (
    field "phase" (str "planning") (
      field "retryState" (obj retry_marker)
        (field "submissionId" (str "s1") (field "novel" (num (whole 7)) empty))))

flat_record-Distinct : Distinct flat_record
unfolding lookup
flat_record-Distinct = (refl, (refl, (refl, (refl, (refl, tt)))))

abbrev stored_record : Fields
unfolding envelope distribute add_field group_of put
stored_record = envelope (distribute flat_record no_fields)

stored_test : serialize_workflow_record any_text any_text flat_record ≡ ok stored_record
unfolding serialize_workflow_record validate_terminal_cleanup validate_retry_state check_retry
    check_cleanup lookup stored_record envelope
stored_test = refl

serialize-deserialize_example :
    ReadsBack flat_record (deserialize_workflow_record any_text any_text (obj stored_record))
serialize-deserialize_example =
    serialize-deserialize any_text any_text flat_record stored_record flat_record-Distinct
      stored_test

migrate_test :
    migrate_workflow_record any_text any_text
      (obj (put "schemaVersion" (num (whole 1)) flat_record))
    ≡ ok stored_record
unfolding migrate_workflow_record deserialize_workflow_record serialize_workflow_record
    validate_terminal_cleanup validate_retry_state check_retry check_cleanup lookup put distribute
    envelope add_field group_of
migrate_test = refl

-- A record with a retry marker of no attempts is not stored.
refused_test :
    serialize_workflow_record any_text any_text
      (field "retryState" (obj (field "attempts" (num (whole 0)) empty)) empty)
    ≡ err invalid_retry_attempts
unfolding serialize_workflow_record validate_terminal_cleanup validate_retry_state check_retry
    lookup
refused_test = refl
