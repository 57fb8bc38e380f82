-- ===== src/Verdict/Delivery.antt =====
-- The delivery of an applied verdict and the decision on it: `assertVerdictStillValidInternal`,
-- `commitVerdictDeliveryInternal`, `commitSubmissionNoticeDeliveryInternal` and `decideInternal` of
-- src/workflow.ts.
use Prim.Native.String.{find, len}
use dsh_codex_workflow.Common.{
  String, Bool, true, false, not, ◌&&◌, ◌||◌, Option, none, some, str_eq, leb, if◌then◌else◌,
}
use dsh_codex_workflow.Common.Result.{Result, ok, err, ◌>>=◌}
use dsh_codex_workflow.Bridge.Protocol.{SubmitVerdict, SubmissionNotice}
use dsh_codex_workflow.Verdict.{
  WorkflowPhase, passed, waiting_review_decision, executing, fixing, SubmissionState, applied, idle,
  NoticeState, Decision, accept, fix, StoredError, cannot_be_verified, changed_since_review,
  changed_after_review, other_text, ReviewEvidence, NoticeRecord, WorkflowRecord, Rejection,
  not_waiting_for_decision, nothing_to_decide, is_truthy, same_text, is_some, has_cancelled,
  update_record,
}

-- `/…/.test(text)` of a pattern that is a plain text.
abbrev pub has_part : String → String → Bool
has_part text part = leb (find text part) (len text)

abbrev pub is_voided : Option StoredError → Bool
is_voided (some changed_after_review) = true
is_voided (some (other_text s)) = has_part s "workspace changed after the review"
is_voided _ = false

abbrev pub is_refused : Option StoredError → Bool
is_refused (some cannot_be_verified) = true
is_refused (some changed_since_review) = true
is_refused (some (other_text s)) = has_part s "was not applied" || has_part s "cannot be verified"
is_refused _ = false

abbrev pub regress : WorkflowPhase → WorkflowPhase
regress passed = executing
regress waiting_review_decision = executing
regress p = p

abbrev pub invalidate : SubmitVerdict → WorkflowRecord → WorkflowRecord
invalidate c r =
    if has_cancelled r.phase
    then r
    else if not (same_text r.submission_id c.submission_id)
    then r
    else record r {
      phase = regress r.phase;
      error = some changed_after_review;
      latest_review = none;
      applied_verdict_evidence_fingerprint = none;
      staged_verdict = none;
    }

-- The verdict is void unless a cancellation came first.
abbrev pub is_void :
    Bool × WorkflowRecord → Result Rejection (Bool × WorkflowRecord × WorkflowRecord)
is_void (suppressed, x) = ok (not (suppressed || has_cancelled x.phase), x, x)

-- `loaded` is the record that is read first, `e` the evidence collected then, and `r` the record that
-- the transaction finds. The answer says whether the verdict is void.
unfoldable pub assert_verdict_still_valid :
    SubmitVerdict
    → ReviewEvidence
    → WorkflowRecord
    → WorkflowRecord
    → Result Rejection (Bool × WorkflowRecord × WorkflowRecord)
assert_verdict_still_valid c e loaded r =
    if has_cancelled loaded.phase
    then ok (false, loaded, r)
    else if is_voided loaded.error
    then ok (true, loaded, r)
    else if is_refused loaded.error
    then ok (false, loaded, r)
    else if not (is_truthy loaded.applied_verdict_evidence_fingerprint)
    then ok (false, loaded, r)
    else if not (same_text loaded.submission_id c.submission_id)
    then ok (false, loaded, r)
    else if not (str_eq e.fingerprint "")
        && same_text (some e.fingerprint) loaded.applied_verdict_evidence_fingerprint
    then ok (false, loaded, r)
    else update_record false (λ x. ok (invalidate c x)) r >>= is_void

abbrev pub is_applied : Option SubmissionState → Bool
is_applied (some applied) = true
is_applied _ = false

abbrev pub delivers : SubmitVerdict → WorkflowRecord → Bool
delivers c r =
    (not (is_some c.submission_id) || same_text r.submission_id c.submission_id)
    && same_text r.applied_verdict_request_id (some c.request_id)
    && is_applied r.submission_state

-- The answer says whether the delivery was committed.
unfoldable pub commit_verdict_delivery : SubmitVerdict → WorkflowRecord → WorkflowRecord × Bool
commit_verdict_delivery c r =
    if has_cancelled r.phase
    then (r, false)
    else if delivers c r
    then (
      record r { submission_state = some SubmissionState.delivered; callback_state = some idle },
      true,
    )
    else (r, false)

abbrev pub notice_request : Option NoticeRecord → Option String
notice_request none = none
notice_request (some n) = some n.command.request_id

abbrev pub notice_delivered : Option NoticeRecord → Option NoticeRecord
notice_delivered none = none
notice_delivered (some n) = some (record n { state = NoticeState.delivered })

-- A cancelled workflow is written as well.
unfoldable pub commit_submission_notice_delivery :
    SubmissionNotice → WorkflowRecord → WorkflowRecord × Bool
commit_submission_notice_delivery c r =
    if str_eq r.dsh_session_id c.dsh_session_id
      && same_text r.codex_thread_id (some c.codex_thread_id)
      && same_text r.submission_id (some c.submission_id)
      && same_text (notice_request r.submission_notice) (some c.request_id)
    then (record r { submission_notice = notice_delivered r.submission_notice }, true)
    else (r, false)

abbrev pub is_waiting_decision : WorkflowPhase → Bool
is_waiting_decision waiting_review_decision = true
is_waiting_decision _ = false

abbrev pub decided_phase : Decision → WorkflowPhase
decided_phase accept = passed
decided_phase fix = fixing

abbrev pub non_empty : Option String → Option String
non_empty note = if is_truthy note then note else none

abbrev pub decided : String → Decision → Option String → WorkflowRecord → WorkflowRecord
decided now d note r = record r {
  review_decision = some (record { decision = d; note = non_empty note; decided_at = now });
  no_change_review_rounds = some 0;
  phase = decided_phase d;
  error = none;
}

-- `loaded` is the record that the owning session is checked against.
unfoldable pub decide :
    String
    → Decision
    → Option String
    → WorkflowRecord
    → WorkflowRecord
    → Result Rejection (Bool × WorkflowRecord)
decide now d note loaded r =
    if not (is_waiting_decision loaded.phase)
    then err not_waiting_for_decision
    else if not (is_some loaded.latest_review)
    then err nothing_to_decide
    else update_record false (λ x. ok (decided now d note x)) r
