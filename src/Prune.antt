-- ===== src/Prune.antt =====
-- Pruning of finished rows: `pruneCandidates` and `pruneApply` of src/coordination.ts.
pub mod Histories
pub mod Safety
mod Tests
use dsh_codex_workflow.Common.{
  ℕ, ◌+◌, String, Bool, true, false, not, ◌&&◌, ◌||◌, Option, none, some, List, [], ◌∷◌, ◌==◌, leb,
  if◌then◌else◌, str_eq,
}
use dsh_codex_workflow.Common.Result.{Result, ok, err}
use dsh_codex_workflow.Common.Sort.{sort}
use dsh_codex_workflow.Common.Table.{get, select_where, delete_where, count_where}
use dsh_codex_workflow.Json.{Json, Fields, str, lookup, object}
use dsh_codex_workflow.Queue.Rows.{Status, Row, status_eq, is_final}
use dsh_codex_workflow.Queue.Operations.{Queue, queue_row}
use dsh_codex_workflow.Workflows.{WorkflowRow, id_of, load_workflow, parse_workflow_json}

pub record RequestCandidate : Type 0 where
  pub request_id : String
  pub status : Status
  pub terminal_at : ℕ

pub record WorkflowCandidate : Type 0 where
  pub id : String
  pub phase : String
  pub revision : ℕ
  pub updated_at : ℕ

pub record PruneState : Type 0 where
  pub phase : String
  pub submission_active : Bool

-- `time <= now - olderThanMs`, without a negative difference.
abbrev pub is_older : ℕ → ℕ → ℕ → Bool
is_older older now time = leb (time + older) now

abbrev pub text_or_empty : Option Json → String
text_or_empty (some (str s)) = s
text_or_empty _ = ""

abbrev pub is_active_state : String → Bool
is_active_state s =
    str_eq s "queued"
    || str_eq s "sending"
    || str_eq s "retrying"
    || str_eq s "verdict_ready"
    || str_eq s "received"
    || str_eq s "applied"

abbrev pub is_terminal_phase : String → Bool
is_terminal_phase s = str_eq s "passed" || str_eq s "cancelled"

-- `JSON.parse` and `Date.parse` are parameters.
module _ (valid_birth trimmed : String → Bool) (parse_json : String → Option Json)
    (parse_date : String → Option ℕ) where
  unfoldable pub receipt_delivered_at : String → Option ℕ
  receipt_delivered_at text = elim (parse_json text) [
    | none ↦ none
    | some v ↦ elim (lookup "deliveredAt" (object v)) [
      | some (str date) ↦ parse_date date
      | _ ↦ none
    ]
  ]

  unfoldable pub workflow_prune_state : String → Option PruneState
  workflow_prune_state text = elim (parse_workflow_json valid_birth trimmed parse_json text) [
    | err _ ↦ none
    | ok record_fields ↦ some (record {
      phase = text_or_empty (lookup "phase" record_fields);
      submission_active = is_active_state (text_or_empty (lookup "submissionState" record_fields));
    })
  ]

  -- When a row with a receipt was delivered; an empty receipt counts as none.
  abbrev pub terminal_at : Row → Option ℕ
  terminal_at r = elim r.receipt_json [
    | none ↦ none
    | some text ↦ if str_eq text "" then none else receipt_delivered_at text
  ]

  -- A final row whose receipt is old enough.
  abbrev pub finished : ℕ → ℕ → Row → Bool
  finished older now r =
      is_final r.status && elim (terminal_at r) [ none ↦ false | some t ↦ is_older older now t ]

  -- A terminal workflow that is old enough and has no active submission.
  abbrev pub retired : ℕ → ℕ → WorkflowRow → Bool
  retired older now w =
      is_older older now w.updated_at && elim (workflow_prune_state w.record_json) [
        | none ↦ false
        | some s ↦ not s.submission_active && is_terminal_phase s.phase
      ]

  abbrev request_candidate : Row → RequestCandidate
  request_candidate r = record {
    request_id = r.request_id;
    status = r.status;
    terminal_at = elim (terminal_at r) [ none ↦ 0 | some t ↦ t ];
  }

  abbrev workflow_candidate : WorkflowRow → WorkflowCandidate
  workflow_candidate w = record {
    id = w.id;
    phase = elim (workflow_prune_state w.record_json) [ none ↦ "" | some s ↦ s.phase ];
    revision = w.revision;
    updated_at = w.updated_at;
  }

  abbrev pub each {ℓ κ} : {A : Type ℓ} {B : Type κ} → (A → B) → List A → List B
  each f [] = []
  each f (a ∷ as') = f a ∷ each f as'

  unfoldable pub prune_candidates :
      ℕ → ℕ → Queue → List WorkflowRow → List RequestCandidate × List WorkflowCandidate
  prune_candidates older now q ws = (
    each request_candidate
        (sort (λ a b. leb a.created_at b.created_at) (select_where (finished older now) q)),
    each workflow_candidate
        (sort (λ a b. leb a.updated_at b.updated_at) (select_where (retired older now) ws)),
  )

  -- The candidate is still what the preview saw.
  abbrev pub still_request : ℕ → ℕ → RequestCandidate → Row → Bool
  still_request older now c r =
      status_eq r.status c.status
      && finished older now r
      && elim (terminal_at r) [ none ↦ false | some t ↦ t == c.terminal_at ]

  abbrev pub still_workflow : ℕ → ℕ → WorkflowCandidate → WorkflowRow → Bool
  still_workflow older now c w =
      w.revision == c.revision
      && w.updated_at == c.updated_at
      && retired older now w
      && elim (workflow_prune_state w.record_json) [
        | none ↦ false
        | some s ↦ str_eq s.phase c.phase
      ]

  abbrev pub same_receipt : Option String → Option String → Bool
  same_receipt (some a) (some b) = str_eq a b
  same_receipt _ _ = false

  -- `DELETE … WHERE request_id = ? AND status = ? AND receipt_json = ?`.
  abbrev pub is_row : Row → Row → Bool
  is_row row r =
      str_eq r.request_id row.request_id
      && status_eq r.status row.status
      && same_receipt r.receipt_json row.receipt_json

  abbrev pub is_workflow : WorkflowCandidate → WorkflowRow → Bool
  is_workflow c w = str_eq w.id c.id && w.revision == c.revision && w.updated_at == c.updated_at

  unfoldable pub prune_request : ℕ → ℕ → RequestCandidate → Queue → Queue × ℕ
  prune_request older now c q = elim (queue_row c.request_id q) [
    | none ↦ (q, 0)
    | some r ↦
        if still_request older now c r
        then (delete_where (is_row r) q, count_where (is_row r) q)
        else (q, 0)
  ]

  unfoldable pub prune_requests : ℕ → ℕ → List RequestCandidate → Queue → Queue × ℕ
  prune_requests older now [] q = (q, 0)
  prune_requests older now (c ∷ cs) q =
      let (q₁, n) = prune_request older now c q in
      let (q₂, m) = prune_requests older now cs q₁ in (q₂, n + m)

  unfoldable pub prune_workflow :
      ℕ → ℕ → WorkflowCandidate → List WorkflowRow → List WorkflowRow × ℕ
  prune_workflow older now c ws = elim (load_workflow c.id ws) [
    | none ↦ (ws, 0)
    | some w ↦
        if still_workflow older now c w
        then (delete_where (is_workflow c) ws, count_where (is_workflow c) ws)
        else (ws, 0)
  ]

  unfoldable pub prune_workflows :
      ℕ → ℕ → List WorkflowCandidate → List WorkflowRow → List WorkflowRow × ℕ
  prune_workflows older now [] ws = (ws, 0)
  prune_workflows older now (c ∷ cs) ws =
      let (ws₁, n) = prune_workflow older now c ws in
      let (ws₂, m) = prune_workflows older now cs ws₁ in (ws₂, n + m)
