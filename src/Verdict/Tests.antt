-- ===== src/Verdict/Tests.antt =====
-- Runs of the verdict pipeline of src/workflow.ts.
use dsh_codex_workflow.Verdict.Outcome.{
  apply_review_consistency, track_no_change, compute_review_outcome, some_blocking,
}
use dsh_codex_workflow.Common.{◌≤◌, ◌-◌, suc, ◌≡◌, ◌≢◌, refl, true, false, [], ◌∷◌}
use dsh_codex_workflow.Common.Result.{ok}
use dsh_codex_workflow.Verdict.{executing, passed}
use dsh_codex_workflow.Verdict.Application.{
  apply_external_verdict, apply_verdict, check_applicable, judge,
}
use dsh_codex_workflow.Verdict.Admission.{submit, assert_admission}
use dsh_codex_workflow.Verdict.Recovery.{
  bridge_review_unavailable_reason, assert_submission_review_round,
}
use dsh_codex_workflow.Verdict.Staging.{update_current}
use dsh_codex_workflow.Verdict.Delivery.{assert_verdict_still_valid, commit_verdict_delivery}
use dsh_codex_workflow.Verdict.History.{sends, stages, receives, step, run}
use dsh_codex_workflow.Verdict.Once.{effects, effects-Once}
use dsh_codex_workflow.Verdict.Rounds.{repairs, repairs-bound}
use dsh_codex_workflow.Verdict.Samples.{
  no_date, same_string, task_of, limits, noon, seen, started, submission, waiting_record, clean,
  verdict_of, review_run, received_record, later_calls, bad_calls, applied_record,
}
use dsh_codex_workflow.Verdict.Passing.{Justified, passed-Justified, relayed-Current}

submit-started :
    submit same_string task_of 1200 300 false false submission started ≡ ok (false, waiting_record)
unfolding submit assert_admission bridge_review_unavailable_reason assert_submission_review_round
submit-started = refl

review-waiting :
    run no_date limits same_string task_of
      (sends review_run true "12:00" 1
        ∷ stages review_run true (verdict_of "v1" clean)
        ∷ receives review_run true "v1"
        ∷ [])
      waiting_record
    ≡ received_record
unfolding run step update_current
review-waiting = refl

one-effect : effects no_date limits same_string task_of "s1" later_calls received_record ≡ 1
unfolding effects step apply_external_verdict apply_verdict check_applicable judge
    apply_review_consistency compute_review_outcome track_no_change some_blocking
    commit_verdict_delivery
one-effect = refl

effects-Once_example :
    effects no_date limits same_string task_of "s1" later_calls received_record ≤ 1
effects-Once_example =
    effects-Once no_date limits same_string task_of "s1" later_calls received_record
      (refl, (refl, (refl, tt)))

one-repair : repairs no_date limits same_string task_of bad_calls waiting_record ≡ 1
unfolding repairs step update_current apply_external_verdict apply_verdict check_applicable judge
    apply_review_consistency track_no_change compute_review_outcome some_blocking
one-repair = refl

repairs-bound_example :
    repairs no_date limits same_string task_of bad_calls waiting_record
    ≤ limits.max_review_cycles - suc waiting_record.review_cycles
repairs-bound_example = repairs-bound no_date limits same_string task_of bad_calls waiting_record

received-phase : received_record.phase ≡ executing
unfolding run step update_current
received-phase = refl

received_unpassed : received_record.phase ≢ passed
received_unpassed h = let k = rw received-phase at h in cc

apply-received :
    apply_external_verdict no_date limits noon (verdict_of "v1" clean) seen started received_record
    ≡ ok (applied_record, applied_record)
unfolding apply_external_verdict run step update_current apply_verdict check_applicable judge
    apply_review_consistency
apply-received = refl

applied-phase : applied_record.phase ≡ passed
unfolding step apply_external_verdict run update_current apply_verdict check_applicable judge
    apply_review_consistency compute_review_outcome
applied-phase = refl

passed-Justified_example : Justified (verdict_of "v1" clean) seen received_record applied_record
passed-Justified_example =
    passed-Justified no_date limits noon (verdict_of "v1" clean) seen started received_record
      applied_record applied_record apply-received received_unpassed applied-phase

check-applied :
    assert_verdict_still_valid (verdict_of "v1" clean) seen applied_record applied_record
    ≡ ok (false, applied_record, applied_record)
unfolding assert_verdict_still_valid step apply_external_verdict run update_current apply_verdict
    check_applicable judge apply_review_consistency compute_review_outcome track_no_change
check-applied = refl

relayed-Current_example : seen.fingerprint ≡ "f1"
relayed-Current_example =
    relayed-Current no_date limits noon (verdict_of "v1" clean) "s1" seen seen started
      received_record applied_record applied_record applied_record applied_record false refl
      apply-received received_unpassed applied-phase check-applied applied-phase
