-- ===== src/Prune/Tests.antt =====
-- One request and one workflow, pruned and kept: runs of the theorems about `pruneApply` of
-- src/coordination.ts.
use dsh_codex_workflow.Common.{
  ℕ, String, Bool, true, ◌≡◌, refl, Option, none, some, [], ◌∷◌, if◌then◌else◌, str_eq,
}
use dsh_codex_workflow.Common.Table.{get, delete_where, count_where, Unique}
use dsh_codex_workflow.Json.{Json, str, obj, empty, field, lookup, put}
use dsh_codex_workflow.Schema.{deserialize_workflow_record}
use dsh_codex_workflow.Schema.Validation.{
  validate_terminal_cleanup, validate_retry_state, check_cleanup,
}
use dsh_codex_workflow.Queue.Rows.{Row, done, new_row, take_over, acked}
use dsh_codex_workflow.Workflows.{WorkflowRow, parse_workflow_json}
use dsh_codex_workflow.Prune.{
  RequestCandidate, WorkflowCandidate, receipt_delivered_at, workflow_prune_state, finished,
  retired, prune_request, prune_requests, prune_workflow, prune_workflows,
}
use dsh_codex_workflow.Prune.Safety.{Kept, prune_requests-Kept, prune_workflows-Kept}

abbrev any_text : String → Bool
any_text s = true

abbrev parse : String → Option Json
parse text =
    if str_eq text "{delivered}"
    then some (obj (field "deliveredAt" (str "day5") empty))
    else if str_eq text "{passed}"
    then some (obj (field "phase" (str "passed") empty))
    else none

abbrev date : String → Option ℕ
date s = if str_eq s "day5" then some 5 else none

abbrev finished_row : Row
finished_row = acked "{delivered}" (take_over "A" 4 (new_row "r" "h" "{c}" 1))

abbrev candidate : RequestCandidate
candidate = record { request_id = "r"; status = done; terminal_at = 5 }

row_alone : Unique (λ x. x.request_id) (finished_row ∷ [])
unfolding get
row_alone = (refl, tt)

removed_test :
    prune_requests any_text any_text parse date 10 20 (candidate ∷ []) (finished_row ∷ []) ≡ ([], 1)
unfolding prune_requests prune_request receipt_delivered_at lookup get delete_where count_where
removed_test = refl

-- Not old enough.
kept_test :
    prune_requests any_text any_text parse date 10 12 (candidate ∷ []) (finished_row ∷ [])
    ≡ (finished_row ∷ [], 0)
unfolding prune_requests prune_request receipt_delivered_at lookup get delete_where count_where
kept_test = refl

prune_requests-Kept_example :
    Kept
      (λ x. x.request_id)
      (finished any_text any_text parse date 10 20)
      "r"
      finished_row
      (prune_requests any_text any_text parse date 10 20 (candidate ∷ []) (finished_row ∷ [])).0
unfolding get
prune_requests-Kept_example =
    prune_requests-Kept any_text any_text parse date 10 20 (candidate ∷ []) "r" finished_row
      (finished_row ∷ []) row_alone refl

abbrev passed : WorkflowRow
passed = record { id = "w"; revision = 3; record_json = "{passed}"; updated_at = 5 }

abbrev passed_candidate : WorkflowCandidate
passed_candidate = record { id = "w"; phase = "passed"; revision = 3; updated_at = 5 }

workflow_alone : Unique (λ x. x.id) (passed ∷ [])
unfolding get
workflow_alone = (refl, tt)

retired_test :
    prune_workflows any_text any_text parse date 10 20 (passed_candidate ∷ []) (passed ∷ [])
    ≡ ([], 1)
unfolding prune_workflows prune_workflow workflow_prune_state parse_workflow_json
    deserialize_workflow_record validate_terminal_cleanup validate_retry_state check_cleanup lookup
    put get delete_where count_where
retired_test = refl

prune_workflows-Kept_example :
    Kept
      (λ x. x.id)
      (retired any_text any_text parse date 10 20)
      "w"
      passed
      (prune_workflows any_text any_text parse date 10 20 (passed_candidate ∷ []) (passed ∷ [])).0
unfolding get
prune_workflows-Kept_example =
    prune_workflows-Kept any_text any_text parse date 10 20 (passed_candidate ∷ []) "w" passed
      (passed ∷ []) workflow_alone refl
