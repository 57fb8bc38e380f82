-- ===== src/Verdict/Staging.antt =====
-- The writes of a running review on its submission: `updateCurrent` of
-- src/application/submission-execution.ts and the phases A and C of the verdict there, and the
-- failure of phase B, `enqueueStagedVerdict` of src/workflow.ts. `latestReviewConflict` is left out.
use dsh_codex_workflow.Common.{
  ℕ, String, Bool, true, false, not, ◌&&◌, Option, none, some, str_eq, ◌==◌, if◌then◌else◌,
}
use dsh_codex_workflow.Common.Result.{Result, ok, err}
use dsh_codex_workflow.Bridge.Protocol.{SubmitVerdict}
use dsh_codex_workflow.Review.{ReviewResult, running}
use dsh_codex_workflow.Verdict.{
  sending, verdict_ready, received, failed, CallbackState, idle, StagedVerdict, WorkflowRecord,
  Rejection, lease_lost, not_current, context_changed, same_text, submission_terminal,
  update_record,
}
use dsh_codex_workflow.Verdict.Admission.{ReviewIdentity, SubmitLease, submission_review_identity}

-- One review of a submission: its lease, if it has one, its prompt and the identity it began with.
pub record ReviewRun : Type 0 where
  pub submission_id : String
  pub lease : Option SubmitLease
  pub prompt : String
  pub identity : String

abbrev pub same_number : Option ℕ → ℕ → Bool
same_number none n = false
same_number (some m) n = m == n

abbrev pub holds_lease : Option SubmitLease → WorkflowRecord → Bool
holds_lease none r = true
holds_lease (some l) r =
    same_text r.submission_lease_token (some l.owner)
    && same_number r.submission_lease_epoch l.epoch

abbrev pub is_current : ReviewRun → WorkflowRecord → Bool
is_current run r =
    same_text r.submission_id (some run.submission_id)
    && not (submission_terminal r.submission_state)
    && holds_lease run.lease r

abbrev pub text_or : String → Option String → String
text_or d none = d
text_or d (some s) = s

abbrev pub start_attempt : String → ℕ → WorkflowRecord → WorkflowRecord
start_attempt now attempt r = record r {
  submission_state = some sending;
  submission_attempts = some attempt;
  submission_retry_at = none;
  process_state = some running;
  active_turn_id = none;
  last_progress_at = some now;
  last_progress_message = some "Continuing the current background review";
}

-- Phase A. `thread` is that of the record the run has.
abbrev pub verdict_command :
    String → String → String → String → ReviewResult → WorkflowRecord → SubmitVerdict
verdict_command now request thread submission verdict r = record {
  request_id = request;
  created_at = now;
  workflow_id = r.id;
  codex_thread_id = text_or thread r.codex_thread_id;
  submission_id = some submission;
  dsh_session_id = some r.dsh_session_id;
  verdict = verdict;
}

abbrev pub stage_verdict : SubmitVerdict → WorkflowRecord → WorkflowRecord
stage_verdict c r = record r {
  submission_review_pending = none;
  submission_state = some verdict_ready;
  staged_verdict = some (record { command = c; created_at = c.created_at });
  submission_error = none;
  submission_retry_at = none;
  review_contract_failures = some 0;
}

abbrev pub staged_request : Option StagedVerdict → Option String
staged_request none = none
staged_request (some s) = some s.command.request_id

-- Phase C.
abbrev pub mark_received : String → WorkflowRecord → WorkflowRecord
mark_received request r =
    if same_text (staged_request r.staged_verdict) (some request)
    then record r { submission_state = some received; callback_state = some idle }
    else r

abbrev pub enqueue_rejected : String → String → WorkflowRecord → WorkflowRecord
enqueue_rejected submission message r =
    if same_text r.submission_id (some submission)
    then record r {
      submission_state = some failed;
      submission_error = some message;
      callback_state = some CallbackState.failed;
    }
    else r

module _ (digest : ReviewIdentity → String) where
  -- The mutation, behind its guards. `owns` is the answer of the lease table.
  abbrev pub fenced :
      ReviewRun
      → Bool
      → (WorkflowRecord → WorkflowRecord)
      → WorkflowRecord
      → Result Rejection WorkflowRecord
  fenced run owns fn r =
      if not owns
      then err lease_lost
      else if not (is_current run r)
      then err not_current
      else if not (str_eq (submission_review_identity digest r run.prompt) run.identity)
      then err context_changed
      else ok (fn r)

  unfoldable pub update_current :
      ReviewRun
      → Bool
      → (WorkflowRecord → WorkflowRecord)
      → WorkflowRecord
      → Result Rejection (Bool × WorkflowRecord)
  update_current run owns fn r = update_record false (fenced run owns fn) r
