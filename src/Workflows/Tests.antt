-- ===== src/Workflows/Tests.antt =====
-- Two writers of one workflow, and a cancelled one: runs of the theorems about
-- src/infrastructure/workflow-repository.ts.
use dsh_codex_workflow.Queue.Rows.{has_id}
use dsh_codex_workflow.Common.{
  ℕ, String, Bool, true, false, ◌≡◌, refl, Option, none, some, [], ◌∷◌, ◌++◌, if◌then◌else◌, str_eq,
}
use dsh_codex_workflow.Common.Result.{ok}
use dsh_codex_workflow.Common.Table.{get, update_where, count_where, Unique}
use dsh_codex_workflow.Json.{Json, str, num, whole, obj, empty, field, lookup, put}
use dsh_codex_workflow.Schema.{deserialize_workflow_record}
use dsh_codex_workflow.Schema.Validation.{
  validate_terminal_cleanup, validate_retry_state, check_cleanup,
}
use dsh_codex_workflow.Workflows.{
  WorkflowRow, id_of, load_workflow, Kind, committed, Outcome, Mutation, commit, update_row,
  parse_workflow_json, compare_and_update_workflow,
}
use dsh_codex_workflow.Workflows.Updates.{saves, updates, run, is_committed, no_lost_update}
use dsh_codex_workflow.Workflows.Cancellation.{calls, prunes, changed, cancelled-Final}
use dsh_codex_workflow.Workflows.Loop.{Answers, update, update-Answers}

abbrev any_text : String → Bool
any_text s = true

-- Two texts that are JSON.
abbrev parse : String → Option Json
parse text =
    if str_eq text "{executing}"
    then some (obj (field "phase" (str "executing") empty))
    else if str_eq text "{cancelled}"
    then some (obj (field "phase" (str "cancelled") empty))
    else none

abbrev row : ℕ → String → ℕ → WorkflowRow
row revision json at = record { id = "w"; revision = revision; record_json = json; updated_at = at }

abbrev cancel : Mutation (Unit {0})
cancel raw revision = ok (tt, some "{cancelled}")

abbrev cancelled_outcome : Outcome (Unit {0})
cancelled_outcome = record {
  kind = committed;
  result = some tt;
  revision = 4;
  record_json = "{cancelled}";
}

cancel_test :
    compare_and_update_workflow any_text any_text parse "w" 3 cancel false 20
      (row 3 "{executing}" 10 ∷ [])
    ≡ ok (row 4 "{cancelled}" 20 ∷ [], cancelled_outcome)
unfolding compare_and_update_workflow update_row commit parse_workflow_json
    deserialize_workflow_record validate_terminal_cleanup validate_retry_state check_cleanup get
    update_where count_where lookup put
cancel_test = refl

abbrev outrun_outcome : Outcome (Unit {0})
outrun_outcome = record {
  kind = Kind.suppressed;
  result = none;
  revision = 4;
  record_json = "{cancelled}";
}

late_test :
    compare_and_update_workflow any_text any_text parse "w" 3 cancel false 30
      (run any_text any_text parse [] (row 4 "{cancelled}" 20 ∷ []))
    ≡ ok (row 4 "{cancelled}" 20 ∷ [], outrun_outcome)
unfolding run compare_and_update_workflow update_row commit parse_workflow_json
    deserialize_workflow_record validate_terminal_cleanup validate_retry_state check_cleanup get
    update_where count_where lookup put
late_test = refl

no_lost_update_example :
    ((row 4 "{cancelled}" 20 ∷ []) ≡ run any_text any_text parse [] (row 4 "{cancelled}" 20 ∷ []))
    × (is_committed outrun_outcome.kind ≡ false)
no_lost_update_example =
    no_lost_update any_text any_text parse "w" 3 20 30 cancel cancel false false []
      (row 3 "{executing}" 10 ∷ []) (row 4 "{cancelled}" 20 ∷ []) (row 4 "{cancelled}" 20 ∷ [])
      cancelled_outcome outrun_outcome cancel_test refl refl late_test

cancelled_test :
    parse_workflow_json any_text any_text parse "{cancelled}"
    ≡ ok (put "schemaVersion" (num (whole 1)) (field "phase" (str "cancelled") empty))
unfolding parse_workflow_json deserialize_workflow_record validate_terminal_cleanup
    validate_retry_state check_cleanup lookup put
cancelled_test = refl

cancelled-Final_example :
    load_workflow "w" (
      changed any_text any_text parse
        (calls (updates "w" 4 cancel false 40)
          ∷ calls (saves "v" "{executing}" 50)
          ∷ prunes ("v" ∷ [])
          ∷ [])
        (row 4 "{cancelled}" 20 ∷ []))
    ≡ some (row 4 "{cancelled}" 20)
unfolding get lookup put has_id
cancelled-Final_example =
    cancelled-Final any_text any_text parse
      (calls (updates "w" 4 cancel false 40)
        ∷ calls (saves "v" "{executing}" 50)
        ∷ prunes ("v" ∷ [])
        ∷ [])
      "w" (row 4 "{cancelled}" 20)
      (put "schemaVersion" (num (whole 1)) (field "phase" (str "cancelled") empty))
      (row 4 "{cancelled}" 20 ∷ []) (refl, (refl, (refl, tt))) refl cancelled_test refl

row_alone : Unique id_of (row 3 "{executing}" 10 ∷ [])
unfolding get
row_alone = (refl, tt)

-- Another writer saves in the first round, and none comes between in the second.
update-Answers_example : Answers any_text any_text parse (
    update any_text any_text parse "w" cancel false 20
      ((saves "w" "{executing}" 15 ∷ []) ∷ [] ++ [] ∷ [])
      (row 3 "{executing}" 10 ∷ []))
update-Answers_example =
    update-Answers any_text any_text parse "w" cancel false 20
      ((saves "w" "{executing}" 15 ∷ []) ∷ []) [] (row 3 "{executing}" 10 ∷ []) row_alone
