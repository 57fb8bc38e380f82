-- ===== src/Verdict/History.antt =====
-- Histories of calls on one workflow record: the submissions, the running reviews, the verdicts, the
-- deliveries and the decisions of src/workflow.ts and src/application/submission-execution.ts, in
-- any order. The record that a call has loaded may be any earlier one.
use dsh_codex_workflow.Common.{ℕ, String, Bool, true, false, Option, List, [], ◌∷◌}
use dsh_codex_workflow.Common.Result.{Result, ok, err}
use dsh_codex_workflow.Bridge.Protocol.{SubmitVerdict, SubmissionNotice}
use dsh_codex_workflow.Verdict.{
  Decision, ReviewEvidence, WorkflowRecord, Rejection, ReviewLimits, Instant, update_record,
}
use dsh_codex_workflow.Verdict.Application.{apply_external_verdict}
use dsh_codex_workflow.Verdict.Admission.{ReviewIdentity, Submission, submit}
use dsh_codex_workflow.Verdict.Staging.{
  ReviewRun, start_attempt, stage_verdict, mark_received, enqueue_rejected, update_current,
}
use dsh_codex_workflow.Verdict.Delivery.{
  assert_verdict_still_valid, commit_verdict_delivery, commit_submission_notice_delivery, decide,
}

pub data Call : Type 0 where
  submits : ℕ → ℕ → Bool → Bool → Submission → Call
  sends : ReviewRun → Bool → String → ℕ → Call
  stages : ReviewRun → Bool → SubmitVerdict → Call
  receives : ReviewRun → Bool → String → Call
  rejects : String → String → Call
  answers : Instant → SubmitVerdict → ReviewEvidence → WorkflowRecord → Call
  validates : SubmitVerdict → ReviewEvidence → WorkflowRecord → Call
  commits : SubmitVerdict → Call
  notifies : SubmissionNotice → Call
  decides : String → Decision → Option String → WorkflowRecord → Call

-- A call that throws stores nothing.
abbrev pub stored : WorkflowRecord → Result Rejection (Bool × WorkflowRecord) → WorkflowRecord
stored r (ok (suppressed, x)) = x
stored r (err e) = r

abbrev pub stored_too :
    WorkflowRecord → Result Rejection (WorkflowRecord × WorkflowRecord) → WorkflowRecord
stored_too r (ok (returned, x)) = x
stored_too r (err e) = r

abbrev pub stored_last :
    WorkflowRecord → Result Rejection (Bool × WorkflowRecord × WorkflowRecord) → WorkflowRecord
stored_last r (ok (void, returned, x)) = x
stored_last r (err e) = r

abbrev pub first_of : WorkflowRecord × Bool → WorkflowRecord
first_of (r, b) = r

abbrev pub is_ok {ℓ} : {A : Type ℓ} → Result Rejection A → Bool
is_ok (ok _) = true
is_ok (err _) = false

module _ (parse_date : String → Option ℕ) (limits : ReviewLimits) (trim : String → String)
    (digest : ReviewIdentity → String) where
  unfoldable pub step : Call → WorkflowRecord → WorkflowRecord
  step (submits now ttl stopped signal_aborted s) r =
      stored r (submit trim digest now ttl stopped signal_aborted s r)
  step (sends run owns now attempt) r =
      stored r (update_current digest run owns (start_attempt now attempt) r)
  step (stages run owns c) r = stored r (update_current digest run owns (stage_verdict c) r)
  step (receives run owns request) r =
      stored r (update_current digest run owns (mark_received request) r)
  step (rejects submission message) r =
      stored r (update_record false (λ x. ok (enqueue_rejected submission message x)) r)
  step (answers now c e loaded) r =
      stored_too r (apply_external_verdict parse_date limits now c e loaded r)
  step (validates c e loaded) r = stored_last r (assert_verdict_still_valid c e loaded r)
  step (commits c) r = first_of (commit_verdict_delivery c r)
  step (notifies c) r = first_of (commit_submission_notice_delivery c r)
  step (decides now d note loaded) r = stored r (decide now d note loaded r)

  unfoldable pub run : List Call → WorkflowRecord → WorkflowRecord
  run [] r = r
  run (c ∷ cs) r = run cs (step c r)
