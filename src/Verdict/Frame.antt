-- ===== src/Verdict/Frame.antt =====
-- What the calls on a workflow record of src/workflow.ts other than a submission and a verdict leave
-- alone: the submission, the verdict applied last and the number of review cycles.
use dsh_codex_workflow.Common.{
  ℕ, String, ◌≡◌, refl, sym, subst, ◌⊎◌, inl, inr, Bool, true, false, not, ◌&&◌, Option, some,
  str_eq, Bool-cases, if◌then◌else◌,
}
use dsh_codex_workflow.Common.Result.{Result, ok, ◌>>=◌, ◌>>◌, bind_ok, answer_cases, ok_unique}
use dsh_codex_workflow.Bridge.Protocol.{SubmitVerdict}
use dsh_codex_workflow.Verdict.{
  Decision, ReviewEvidence, WorkflowRecord, Rejection, lease_lost, not_waiting_for_decision,
  nothing_to_decide, not_current, context_changed, ReviewLimits, is_truthy, same_text,
  has_cancelled, update_record,
}
use dsh_codex_workflow.Verdict.Admission.{
  ReviewIdentity, Submission, submission_review_identity, assert_admission, queue_submission, admit,
  submit,
}
use dsh_codex_workflow.Verdict.Recovery.{assert_submission_review_round}
use dsh_codex_workflow.Verdict.Staging.{
  ReviewRun, is_current, start_attempt, stage_verdict, staged_request, mark_received,
  enqueue_rejected, fenced, update_current,
}
use dsh_codex_workflow.Verdict.Delivery.{
  is_voided, is_refused, invalidate, is_void, assert_verdict_still_valid, delivers,
  commit_verdict_delivery, commit_submission_notice_delivery, decided, decide,
}
use dsh_codex_workflow.Verdict.Cases.{guard_ok, updated}
use dsh_codex_workflow.Verdict.History.{
  Call, submits, sends, stages, receives, rejects, answers, validates, commits, notifies, decides,
  stored, first_of, step,
}

abbrev pub Frame : WorkflowRecord → WorkflowRecord → Type 0
Frame r x =
    (x.submission_id ≡ r.submission_id)
    × (x.applied_verdict_submission_id ≡ r.applied_verdict_submission_id)
    × (x.review_cycles ≡ r.review_cycles)

still : (r x : WorkflowRecord) → x ≡ r → Frame r x
still r x eq = rw eq (refl, refl, refl)

-- One of two records with the frame of `r`.
either : (b : Bool) (r x y : WorkflowRecord) → Frame r x → Frame r y → Frame r (if b then x else y)
either true r x y f g = f
either false r x y f g = g

update-Frame :
    (ignore : Bool) (fn : WorkflowRecord → Result Rejection WorkflowRecord) (r : WorkflowRecord)
    → ((x : WorkflowRecord) → fn r ≡ ok x → Frame r x)
    → Frame r (stored r (update_record ignore fn r))
update-Frame ignore fn r keep = elim (answer_cases (update_record ignore fn r)) [
  | inl ((s, x), h) ↦
      rw h (elim (updated ignore fn r s x h) [
        | inl (eq, gone) ↦ still r x eq
        | inr made ↦ keep x made
      ])
  | inr (e, h) ↦ rw h (refl, refl, refl)
]

-- A mutation that never throws.
plain-Frame :
    (fn : WorkflowRecord → WorkflowRecord) (r : WorkflowRecord)
    → Frame r (fn r)
    → Frame r (stored r (update_record false (λ x. ok (fn x)) r))
plain-Frame fn r keep =
    update-Frame false (λ x. ok (fn x)) r (λ x h. subst (Frame r) (ok_unique (fn r) x h) keep)

module _ (digest : ReviewIdentity → String) where
  current-Frame :
      (run : ReviewRun) (owns : Bool) (fn : WorkflowRecord → WorkflowRecord) (r : WorkflowRecord)
      → Frame r (fn r)
      → Frame r (stored r (update_current digest run owns fn r))
  unfolding update_current
  current-Frame run owns fn r keep = update-Frame false (fenced digest run owns fn) r (λ x h.
      let (owned, h1) = guard_ok (not owns) lease_lost h in
      let (current, h2) = guard_ok (not (is_current run r)) not_current h1 in
      let (same, h3) =
        guard_ok (not (str_eq (submission_review_identity digest r run.prompt) run.identity))
          context_changed h2 in
      subst (Frame r) (ok_unique (fn r) x h3) keep)

decide-Frame :
    (now : String) (d : Decision) (note : Option String) (loaded r : WorkflowRecord) (s : Bool)
    (x : WorkflowRecord)
    → decide now d note loaded r ≡ ok (s, x)
    → Frame r x
unfolding decide
decide-Frame now d note loaded r s x h =
    let (waits, h1) = guard_ok _ not_waiting_for_decision h in
    let (some_review, h2) = guard_ok _ nothing_to_decide h1 in
    elim (updated false (λ y. ok (decided now d note y)) r s x h2) [
      | inl (eq, gone) ↦ still r x eq
      | inr made ↦ subst (Frame r) (ok_unique (decided now d note r) x made) (refl, refl, refl)
    ]

-- An invalidation stores the record or the invalidated one.
check_cases :
    (c : SubmitVerdict) (e : ReviewEvidence) (loaded r : WorkflowRecord) (void : Bool)
    (returned x : WorkflowRecord)
    → assert_verdict_still_valid c e loaded r ≡ ok (void, returned, x)
    → (x ≡ r) ⊎ (x ≡ invalidate c r)
unfolding assert_verdict_still_valid
check_cases c e loaded r void returned x h = kept false (has_cancelled loaded.phase) h (λ h1.
    kept true (is_voided loaded.error) h1 (λ h2. kept false (is_refused loaded.error) h2 (λ h3.
      kept false (not (is_truthy loaded.applied_verdict_evidence_fingerprint)) h3 (λ h4.
        kept false (not (same_text loaded.submission_id c.submission_id)) h4 (λ h5.
          kept false
            (not (str_eq e.fingerprint "")
              && same_text (some e.fingerprint) loaded.applied_verdict_evidence_fingerprint)
            h5 written)))))
  where
    kept :
        (v b : Bool) {m : Result Rejection (Bool × WorkflowRecord × WorkflowRecord)}
        → (if b then ok (v, loaded, r) else m) ≡ ok (void, returned, x)
        → (m ≡ ok (void, returned, x) → (x ≡ r) ⊎ (x ≡ invalidate c r))
        → (x ≡ r) ⊎ (x ≡ invalidate c r)
    kept v true k rest = inl cc
    kept v false k rest = rest k

    written :
        (update_record false (λ y. ok (invalidate c y)) r >>= is_void) ≡ ok (void, returned, x)
        → (x ≡ r) ⊎ (x ≡ invalidate c r)
    written k =
        let ((s, y), made, same) =
          bind_ok (update_record false (λ y. ok (invalidate c y)) r) _ _ k in
        elim (updated false (λ y. ok (invalidate c y)) r s y made) [
          | inl (eq, gone) ↦ inl cc
          | inr done ↦ inr cc
        ]

invalidate-Frame : (c : SubmitVerdict) (r : WorkflowRecord) → Frame r (invalidate c r)
invalidate-Frame c r =
    either (has_cancelled r.phase) r r _ (refl, refl, refl)
      (either (not (same_text r.submission_id c.submission_id)) r r _ (refl, refl, refl)
        (refl, refl, refl))

first-Frame :
    (b : Bool) (r x : WorkflowRecord)
    → Frame r x
    → Frame r (first_of (if b then (x, true) else (r, false)))
first-Frame true r x f = f
first-Frame false r x f = (refl, refl, refl)

commit-Frame :
    (c : SubmitVerdict) (r : WorkflowRecord) → Frame r (first_of (commit_verdict_delivery c r))
unfolding commit_verdict_delivery
commit-Frame c r = elim (Bool-cases (has_cancelled r.phase)) [
  | inl gone ↦ rw gone (refl, refl, refl)
  | inr live ↦ rw live (first-Frame (delivers c r) r _ (refl, refl, refl))
]

-- A submission keeps the record or queues itself on it.
pub submit_cases :
    (trim : String → String) (digest : ReviewIdentity → String) (now ttl : ℕ)
    (stopped signal_aborted : Bool) (x : Submission) (r : WorkflowRecord) (suppressed : Bool)
    (y : WorkflowRecord)
    → submit trim digest now ttl stopped signal_aborted x r ≡ ok (suppressed, y)
    → (y ≡ r) ⊎ (y ≡ queue_submission now ttl x r)
unfolding submit
submit_cases trim digest now ttl stopped signal_aborted x r suppressed y h =
    elim (updated false (admit trim digest now ttl stopped signal_aborted x) r suppressed y h) [
      | inl (eq, gone) ↦ inl eq
      | inr made ↦
          let (u, admitted, h1) =
            bind_ok (assert_admission trim digest stopped signal_aborted x.admitted r)
              (λ _.
                assert_submission_review_round trim r x.recovery_evidence x.new_review_round
                >> ok (queue_submission now ttl x r))
              y made in
          let (v, round, last) =
            bind_ok (assert_submission_review_round trim r x.recovery_evidence x.new_review_round)
              (λ _. ok (queue_submission now ttl x r)) y h1 in
          inr (sym (ok_unique (queue_submission now ttl x r) y last))
    ]

module _ (parse_date : String → Option ℕ) (limits : ReviewLimits) (trim : String → String)
    (digest : ReviewIdentity → String) where
  -- The other calls.
  abbrev pub is_other : Call → Bool
  is_other (submits _ _ _ _ _) = false
  is_other (answers _ _ _ _) = false
  is_other _ = true

  pub step-Frame :
      (call : Call) (r : WorkflowRecord)
      → is_other call ≡ true
      → Frame r (step parse_date limits trim digest call r)
  unfolding step commit_submission_notice_delivery
  step-Frame (submits _ _ _ _ _) r h = absurd cc
  step-Frame (answers _ _ _ _) r h = absurd cc
  step-Frame (sends run owns now attempt) r h =
      current-Frame digest run owns (start_attempt now attempt) r (refl, refl, refl)
  step-Frame (stages run owns c) r h =
      current-Frame digest run owns (stage_verdict c) r (refl, refl, refl)
  step-Frame (receives run owns request) r h =
      current-Frame digest run owns (mark_received request) r (
        either (same_text (staged_request r.staged_verdict) (some request)) r _ r (refl, refl, refl)
          (refl, refl, refl))
  step-Frame (rejects submission message) r h =
      plain-Frame (enqueue_rejected submission message) r (
        either (same_text r.submission_id (some submission)) r _ r (refl, refl, refl)
          (refl, refl, refl))
  step-Frame (validates c e loaded) r h =
      elim (answer_cases (assert_verdict_still_valid c e loaded r)) [
        | inr (failure, k) ↦ rw k (refl, refl, refl)
        | inl ((void, returned, x), k) ↦ rw k (elim (check_cases c e loaded r void returned x k) [
          | inl eq ↦ still r x eq
          | inr eq ↦ rw eq (invalidate-Frame c r)
        ])
      ]
  step-Frame (commits c) r h = commit-Frame c r
  step-Frame (notifies c) r h = first-Frame _ r _ (refl, refl, refl)
  step-Frame (decides now d note loaded) r h = elim (answer_cases (decide now d note loaded r)) [
    | inr (failure, k) ↦ rw k (refl, refl, refl)
    | inl ((s, x), k) ↦ rw k (decide-Frame now d note loaded r s x k)
  ]
