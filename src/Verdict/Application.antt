-- ===== src/Verdict/Application.antt =====
-- `applyExternalVerdictInternal` of src/workflow.ts.
use dsh_codex_workflow.Common.{
  ℕ, ◌+◌, ◌-◌, String, false, not, ◌&&◌, ◌||◌, Option, none, some, str_eq, if◌then◌else◌,
}
use dsh_codex_workflow.Common.Result.{Result, ok, err, ◌>>=◌, ◌>>◌}
use dsh_codex_workflow.Bridge.Protocol.{SubmitVerdict}
use dsh_codex_workflow.Review.{ReviewResult, ProcessState}
use dsh_codex_workflow.Verdict.{
  SubmissionState, waiting_verdict, verdict_ready, received, applied, idle, disabled, StoredError,
  cannot_be_verified, changed_since_review, ReviewEvidence, StagedVerdict, WorkflowRecord,
  Rejection, not_a_bridge_workflow, thread_mismatch, session_mismatch, already_applied,
  stale_submission, missing_submission_id, already_staged, still_staging, not_applicable,
  before_submission, ReviewLimits, Instant, is_truthy, same_text, is_some, or_else, is_bridge,
  has_cancelled, submission_active, update_record,
}
use dsh_codex_workflow.Verdict.Outcome.{
  apply_review_consistency, track_no_change, ReviewOutcome, compute_review_outcome,
}

abbrev pub reset_desktop_open_state : WorkflowRecord → Option String → WorkflowRecord
reset_desktop_open_state r submission = record r {
  desktop_open_submission_id = or_else submission r.applied_verdict_request_id;
  desktop_open_attempts = some 0;
  desktop_open_next_at = none;
  desktop_open_error = none;
  desktop_open_state = some disabled;
}

abbrev pub in_state : Option SubmissionState → Result Rejection (Unit {0})
in_state none = ok tt
in_state (some waiting_verdict) = ok tt
in_state (some received) = ok tt
in_state (some _) = err not_applicable

abbrev pub staged_in_state : Option SubmissionState → Result Rejection (Unit {0})
staged_in_state (some verdict_ready) = err still_staging
staged_in_state (some received) = ok tt
staged_in_state _ = err not_applicable

abbrev pub staged_or_not :
    SubmitVerdict → Option SubmissionState → Option StagedVerdict → Result Rejection (Unit {0})
staged_or_not c state none = in_state state
staged_or_not c state (some staged) =
    if str_eq staged.command.request_id c.request_id
    then staged_in_state state
    else err already_staged

-- The guards of the transaction, after that of a replay.
unfoldable pub check_applicable : SubmitVerdict → WorkflowRecord → Result Rejection (Unit {0})
check_applicable c r =
    if is_some c.submission_id && same_text r.applied_verdict_submission_id c.submission_id
    then err already_applied
    else if is_some c.submission_id && not (same_text r.submission_id c.submission_id)
    then err stale_submission
    else if not (is_some c.submission_id)
        && (is_truthy r.submission_id && submission_active r.submission_state)
    then err missing_submission_id
    else staged_or_not c r.submission_state r.staged_verdict
      >> (if is_some r.pending_review_request then ok tt else err before_submission)

abbrev pub fingerprint_of : Option ReviewEvidence → String
fingerprint_of none = ""
fingerprint_of (some e) = e.fingerprint

-- The writes of a verdict that is refused because of the workspace. Only where nothing can be verified
-- is the notice of the submission dropped.
abbrev pub refuse_verdict :
    Instant → SubmitVerdict → StoredError → String → WorkflowRecord → WorkflowRecord
refuse_verdict now c e message r =
    reset_desktop_open_state
      (record r {
        error = some e;
        latest_review = none;
        pending_review_request = none;
        submission_state = some applied;
        applied_verdict_request_id = some c.request_id;
        applied_verdict_submission_id = or_else c.submission_id r.submission_id;
        applied_verdict_evidence_fingerprint = none;
        staged_verdict = none;
        callback_state = some idle;
        process_state = some ProcessState.failed;
        active_turn_id = none;
        last_progress_at = some now.iso;
        last_progress_message = some message;
      })
      (or_else c.submission_id r.submission_id)

abbrev pub elapsed_ms : ℕ → Option ℕ → Option ℕ → Option ℕ
elapsed_ms now none before = before
elapsed_ms now (some started) before = some (now - started)

-- `Date.parse` is `parse_date`, which answers `none` for NaN.
module _ (parse_date : String → Option ℕ) (limits : ReviewLimits) where
  -- `Math.max(0, now - started)` is the subtraction that stops at 0.
  abbrev pub review_elapsed : Instant → WorkflowRecord → Option ℕ
  review_elapsed now r = elim r.review_started_at [
    | none ↦ r.review_elapsed_ms
    | some text ↦
        if str_eq text ""
        then r.review_elapsed_ms
        else elapsed_ms now.ms (parse_date text) r.review_elapsed_ms
  ]

  -- The record after `trackNoChange` and the count of the cycle.
  abbrev pub counted : ReviewEvidence → WorkflowRecord → WorkflowRecord
  counted e r = record (track_no_change r e) {
    review_cycles = (track_no_change r e).review_cycles + 1;
  }

  abbrev pub accept_verdict :
      Instant
      → SubmitVerdict
      → ReviewEvidence
      → ReviewResult
      → ReviewOutcome
      → WorkflowRecord
      → WorkflowRecord
  accept_verdict now c e result computed r =
      reset_desktop_open_state
        (record r {
          latest_review = some result;
          pending_review_request = none;
          submission_state = some applied;
          applied_verdict_request_id = some c.request_id;
          applied_verdict_submission_id = or_else c.submission_id r.submission_id;
          applied_verdict_evidence_fingerprint = some e.fingerprint;
          staged_verdict = none;
          callback_state = some idle;
          phase = computed.phase;
          error = computed.error;
          no_change_review_rounds =
              or_else computed.no_change_review_rounds r.no_change_review_rounds;
          process_state = some ProcessState.completed;
          active_turn_id = none;
          last_progress_at = some now.iso;
          last_progress_message = some "Review completed";
          review_elapsed_ms = review_elapsed now r;
        })
        (or_else c.submission_id r.submission_id)

  -- The end of the transaction, after the guards.
  unfoldable pub judge :
      Instant → SubmitVerdict → ReviewEvidence → WorkflowRecord → Result Rejection WorkflowRecord
  judge now c e r =
      if str_eq (fingerprint_of r.latest_review_evidence) "" || str_eq e.fingerprint ""
      then ok (
          refuse_verdict now c cannot_be_verified
            "Review failed: workspace evidence was insufficient"
            (record r { submission_notice = none }))
      else if str_eq (fingerprint_of r.latest_review_evidence) e.fingerprint
      then apply_review_consistency c.verdict >>= (λ result. ok (
          accept_verdict now c e result (compute_review_outcome limits (counted e r) result)
            (counted e r)))
      else ok (
          refuse_verdict now c changed_since_review
            "Review failed: workspace changed during delivery" r)

  unfoldable pub apply_verdict :
      Instant → SubmitVerdict → ReviewEvidence → WorkflowRecord → Result Rejection WorkflowRecord
  apply_verdict now c e r =
      if same_text r.applied_verdict_request_id (some c.request_id)
      then ok r
      else check_applicable c r >> judge now c e r

  -- The checks on the record that is loaded first; `e` is collected between them and the transaction,
  -- which finds `r`. The answer is the record that is returned and the one that is stored.
  unfoldable pub apply_external_verdict :
      Instant
      → SubmitVerdict
      → ReviewEvidence
      → WorkflowRecord
      → WorkflowRecord
      → Result Rejection (WorkflowRecord × WorkflowRecord)
  apply_external_verdict now c e loaded r =
      if not (is_bridge loaded.origin)
      then err not_a_bridge_workflow
      else if not (same_text loaded.codex_thread_id (some c.codex_thread_id))
      then err thread_mismatch
      else if is_some c.dsh_session_id
          && not (same_text (some loaded.dsh_session_id) c.dsh_session_id)
      then err session_mismatch
      else if has_cancelled loaded.phase
      then ok (loaded, r)
      else update_record false (apply_verdict now c e) r >>= (λ (suppressed, x). ok (x, x))
