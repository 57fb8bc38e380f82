-- ===== src/Verdict/Admission.antt =====
-- The admission of a submission: `submissionReviewIdentity` of
-- src/application/submission-review-checkpoint.ts, the transaction of `submitInternal` of src/workflow.ts.
use dsh_codex_workflow.Common.{
  ℕ, ◌+◌, String, Bool, true, false, not, ◌&&◌, Option, none, some, str_eq, if◌then◌else◌,
}
use dsh_codex_workflow.Common.Result.{Result, ok, err, ◌>>◌}
use dsh_codex_workflow.Review.{ReviewResult}
use dsh_codex_workflow.Verdict.{
  WorkflowPhase, executing, fixing, queued, CallbackState, WorkflowOrigin, EvidenceKind,
  ReviewInput, ReviewEvidence, WorkflowRecord, Rejection, not_a_bridge_workflow, session_mismatch,
  manager_stopped, aborted, context_changed, recovery_state_changed, active_submission, wrong_phase,
  is_truthy, is_bridge, submission_active, update_record,
}
use dsh_codex_workflow.Verdict.Recovery.{assert_submission_review_round, recovery_state_kept}

-- What `submissionReviewIdentity` digests.
pub record ReviewIdentity : Type 0 where
  pub id : String
  pub submission_id : Option String
  pub dsh_session_id : String
  pub origin : Option WorkflowOrigin
  pub codex_thread_id : Option String
  pub cwd : String
  pub task : String
  pub plan_markdown : Option String
  pub created_at : String
  pub mode : Option String
  pub phase : WorkflowPhase
  pub latest_review : Option ReviewResult
  pub pending_review_request : Option ReviewInput
  pub reviewer_model : Option String
  pub reviewer_effort : Option String
  pub evidence : Option (EvidenceKind × String × Bool)
  pub prompt : String

abbrev pub evidence_identity : Option ReviewEvidence → Option (EvidenceKind × String × Bool)
evidence_identity none = none
evidence_identity (some e) = some (e.kind, e.fingerprint, e.insufficient)

abbrev pub identity_of : WorkflowRecord → String → ReviewIdentity
identity_of r prompt = record {
  id = r.id;
  submission_id = r.submission_id;
  dsh_session_id = r.dsh_session_id;
  origin = r.origin;
  codex_thread_id = r.codex_thread_id;
  cwd = r.cwd;
  task = r.task;
  plan_markdown = r.plan_markdown;
  created_at = r.created_at;
  mode = r.mode;
  phase = r.phase;
  latest_review = r.latest_review;
  pending_review_request = r.pending_review_request;
  reviewer_model = r.reviewer_model;
  reviewer_effort = r.reviewer_effort;
  evidence = evidence_identity r.latest_review_evidence;
  prompt = prompt;
}

abbrev pub may_submit : WorkflowPhase → Bool
may_submit executing = true
may_submit fixing = true
may_submit _ = false

pub record SubmitLease : Type 0 where
  pub owner : String
  pub epoch : ℕ

-- What one call of `submitInternal` holds: the record it was admitted on, the request, the evidence
-- of the request and that of the selection reviewed before, the new identity and the lease.
pub record Submission : Type 0 where
  pub admitted : WorkflowRecord
  pub request : ReviewInput
  pub evidence : ReviewEvidence
  pub recovery_evidence : ReviewEvidence
  pub new_review_round : Bool
  pub submission_id : String
  pub lease : SubmitLease

-- The writes of the transaction.
abbrev pub queue_submission : ℕ → ℕ → Submission → WorkflowRecord → WorkflowRecord
queue_submission now ttl s r = record r {
  pending_review_request = some s.request;
  latest_review_evidence = some s.evidence;
  submission_id = some s.submission_id;
  submission_state = some queued;
  submission_attempts = some 0;
  submission_review_pending = none;
  submission_error = none;
  submission_callback_reason = none;
  submission_retry_at = none;
  submission_notice = none;
  submission_lease_token = some s.lease.owner;
  submission_lease_epoch = some s.lease.epoch;
  submission_lease_until = some (now + ttl);
  callback_state = some CallbackState.queued;
  callback_error = none;
}

-- `digest` is the SHA-256 of the JSON text of an identity.
abbrev pub submission_review_identity : (ReviewIdentity → String) → WorkflowRecord → String → String
submission_review_identity digest r prompt = digest (identity_of r prompt)

module _ (trim : String → String) (digest : ReviewIdentity → String) where
  -- `assertAdmission` of a call that was admitted on `admitted`.
  unfoldable pub assert_admission :
      Bool → Bool → WorkflowRecord → WorkflowRecord → Result Rejection (Unit {0})
  assert_admission stopped signal_aborted admitted current =
      if not (str_eq current.dsh_session_id admitted.dsh_session_id)
      then err session_mismatch
      else if not (is_bridge current.origin)
      then err not_a_bridge_workflow
      else if not (may_submit current.phase)
      then err wrong_phase
      else if is_truthy current.submission_id && submission_active current.submission_state
      then err active_submission
      else if not (
          str_eq (submission_review_identity digest current "")
            (submission_review_identity digest admitted ""))
      then err context_changed
      else if not (recovery_state_kept trim admitted current)
      then err recovery_state_changed
      else if stopped
      then err manager_stopped
      else if signal_aborted
      then err aborted
      else ok tt

  -- The mutation.
  abbrev pub admit :
      ℕ → ℕ → Bool → Bool → Submission → WorkflowRecord → Result Rejection WorkflowRecord
  admit now ttl stopped signal_aborted s r =
      assert_admission stopped signal_aborted s.admitted r
      >> (assert_submission_review_round trim r s.recovery_evidence s.new_review_round
          >> ok (queue_submission now ttl s r))

  unfoldable pub submit :
      ℕ → ℕ → Bool → Bool → Submission → WorkflowRecord → Result Rejection (Bool × WorkflowRecord)
  submit now ttl stopped signal_aborted s r =
      update_record false (admit now ttl stopped signal_aborted s) r
