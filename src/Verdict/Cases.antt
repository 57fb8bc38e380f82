-- ===== src/Verdict/Cases.antt =====
-- What an answer of `applyExternalVerdictInternal` of src/workflow.ts comes from.
use dsh_codex_workflow.Common.{
  ℕ, String, ◌≡◌, refl, sym, subst, ◌∙◌, ◌⊎◌, inl, inr, Bool, true, false, not, ◌&&◌, ◌||◌, Option,
  none, some, str_eq, str_eq_iff, arith, if◌then◌else◌,
}
use dsh_codex_workflow.Common.Result.{Result, ok, err, bind_ok, ok_unique, ok_parts}
use dsh_codex_workflow.Bridge.Protocol.{SubmitVerdict}
use dsh_codex_workflow.Review.{ReviewResult}
use dsh_codex_workflow.Verdict.{
  cannot_be_verified, changed_since_review, ReviewEvidence, WorkflowRecord, Rejection, ReviewLimits,
  Instant, not_a_bridge_workflow, thread_mismatch, session_mismatch, same_text, is_some, or_else,
  is_bridge, has_cancelled, update_record,
}
use dsh_codex_workflow.Verdict.Outcome.{
  apply_review_consistency, track_no_change, compute_review_outcome,
}
use dsh_codex_workflow.Verdict.Application.{
  check_applicable, fingerprint_of, refuse_verdict, counted, accept_verdict, judge, apply_verdict,
  apply_external_verdict,
}

-- A guard that was passed, and a test that chose between two calls.
pub guard_ok {ℓ} :
    {A : Type ℓ} (b : Bool) (e : Rejection) {m : Result Rejection A} {y : A}
    → (if b then err e else m) ≡ ok y
    → (b ≡ false) × (m ≡ ok y)
guard_ok true e h = absurd cc
guard_ok false e h = (refl, h)

pub branch_ok {ℓ} :
    {A : Type ℓ} (b : Bool) {m n : Result Rejection A} {y : A}
    → (if b then m else n) ≡ ok y
    → ((b ≡ true) × (m ≡ ok y)) ⊎ ((b ≡ false) × (n ≡ ok y))
branch_ok true h = inl (refl, h)
branch_ok false h = inr (refl, h)

-- A transaction keeps the record or stores what its mutation makes of it.
pub updated :
    (ignore : Bool) (fn : WorkflowRecord → Result Rejection WorkflowRecord) (r : WorkflowRecord)
    (suppressed : Bool) (x : WorkflowRecord)
    → update_record ignore fn r ≡ ok (suppressed, x)
    → ((x ≡ r) × ((not ignore && has_cancelled r.phase) ≡ true)) ⊎ (fn r ≡ ok x)
updated ignore fn r suppressed x h = elim (branch_ok (not ignore && has_cancelled r.phase) h) [
  | inl (gone, kept) ↦ inl (sym (ok_parts true suppressed r x kept).1, gone)
  | inr (live, h1) ↦
      let (y, made, same) = bind_ok (fn r) _ (suppressed, x) h1 in
      inr (subst (λ z. fn r ≡ ok z) (ok_parts false suppressed y x same).1 made)
]

or_false : (a b : Bool) → (a || b) ≡ false → b ≡ false
or_false a b h = ground arith

-- A replay, or a workflow that is cancelled: the verdict changes nothing.
abbrev pub is_idle : SubmitVerdict → WorkflowRecord → WorkflowRecord → Bool
is_idle c loaded r =
    same_text r.applied_verdict_request_id (some c.request_id)
    || has_cancelled r.phase
    || has_cancelled loaded.phase

module _ (parse_date : String → Option ℕ) (limits : ReviewLimits) where
  pub data Judged (now : Instant) (c : SubmitVerdict) (e : ReviewEvidence) (r x : WorkflowRecord)
      : Type 0 where
    unverifiable :
        x
          ≡ refuse_verdict now c cannot_be_verified
              "Review failed: workspace evidence was insufficient"
              (record r { submission_notice = none })
        → Judged now c e r x
    changed :
        x
          ≡ refuse_verdict now c changed_since_review
              "Review failed: workspace changed during delivery" r
        → Judged now c e r x
    accepted :
        (result : ReviewResult)
        → apply_review_consistency c.verdict ≡ ok result
        → str_eq e.fingerprint "" ≡ false
        → fingerprint_of r.latest_review_evidence ≡ e.fingerprint
        → x
          ≡ accept_verdict parse_date limits now c e result
              (compute_review_outcome limits (counted parse_date limits e r) result)
              (counted parse_date limits e r)
        → Judged now c e r x

  pub judge_cases :
      (now : Instant) (c : SubmitVerdict) (e : ReviewEvidence) (r x : WorkflowRecord)
      → judge parse_date limits now c e r ≡ ok x
      → Judged now c e r x
  unfolding judge
  judge_cases now c e r x h =
      elim (branch_ok
        (str_eq (fingerprint_of r.latest_review_evidence) "" || str_eq e.fingerprint "") h) [
          | inl (nothing, done) ↦ unverifiable (sym (ok_unique _ x done))
          | inr (both, h1) ↦
              elim (branch_ok (str_eq (fingerprint_of r.latest_review_evidence) e.fingerprint) h1) [
                | inr (differ, done) ↦ changed (sym (ok_unique _ x done))
                | inl (equal, done) ↦
                    let (result, consistent, last) =
                      bind_ok (apply_review_consistency c.verdict) _ x done in
                    accepted result consistent (or_false _ _ both)
                      ((str_eq_iff (fingerprint_of r.latest_review_evidence) e.fingerprint).0 equal)
                      (sym (ok_unique _ x last))
              ]
        ]

  -- What a verdict that takes effect leaves, whether it is applied or refused for good.
  pub Judged-identity :
      (now : Instant) (c : SubmitVerdict) (e : ReviewEvidence) (r x : WorkflowRecord)
      → Judged now c e r x
      → (x.applied_verdict_request_id ≡ some c.request_id)
        × (x.applied_verdict_submission_id ≡ or_else c.submission_id r.submission_id)
        × (x.submission_id ≡ r.submission_id)
  unfolding track_no_change
  Judged-identity now c e r x (unverifiable eq) = rw eq (refl, refl, refl)
  Judged-identity now c e r x (changed eq) = rw eq (refl, refl, refl)
  Judged-identity now c e r x (accepted result a b d eq) = rw eq (refl, refl, refl)

  verdict_cases :
      (now : Instant) (c : SubmitVerdict) (e : ReviewEvidence) (r x : WorkflowRecord)
      → apply_verdict parse_date limits now c e r ≡ ok x
      → ((x ≡ r) × (same_text r.applied_verdict_request_id (some c.request_id) ≡ true))
        ⊎ ((same_text r.applied_verdict_request_id (some c.request_id) ≡ false)
            × (check_applicable c r ≡ ok tt)
            × Judged now c e r x)
  unfolding apply_verdict
  verdict_cases now c e r x h =
      elim (branch_ok (same_text r.applied_verdict_request_id (some c.request_id)) h) [
        | inl (replay, done) ↦ inl (sym (ok_unique r x done), replay)
        | inr (first, h1) ↦
            let (u, checked, last) = bind_ok (check_applicable c r) _ x h1 in
            inr (first, checked, judge_cases now c e r x last)
      ]

  pub external_cases :
      (now : Instant) (c : SubmitVerdict) (e : ReviewEvidence)
      (loaded r returned x : WorkflowRecord)
      → apply_external_verdict parse_date limits now c e loaded r ≡ ok (returned, x)
      → ((x ≡ r) × (is_idle c loaded r ≡ true))
        ⊎ ((same_text r.applied_verdict_request_id (some c.request_id) ≡ false)
            × (check_applicable c r ≡ ok tt)
            × Judged now c e r x)
  unfolding apply_external_verdict
  external_cases now c e loaded r returned x h =
      let (bridge, h1) = guard_ok (not (is_bridge loaded.origin)) not_a_bridge_workflow h in
      let (thread, h2) =
        guard_ok (not (same_text loaded.codex_thread_id (some c.codex_thread_id))) thread_mismatch
          h1 in
      let (session, h3) =
        guard_ok
          (is_some c.dsh_session_id
            && not (same_text (some loaded.dsh_session_id) c.dsh_session_id))
          session_mismatch h2 in
      elim (branch_ok (has_cancelled loaded.phase) h3) [
        | inl (gone, kept) ↦ inl (sym (ok_parts loaded returned r x kept).1, ground arith)
        | inr (live, written) ↦
            let ((suppressed, y), stored, same) =
              bind_ok (update_record false (apply_verdict parse_date limits now c e) r) _
                (returned, x) written in
            let eq = (ok_parts y returned y x same).1 in
            elim (updated false (apply_verdict parse_date limits now c e) r suppressed y stored) [
              | inl (kept, gone) ↦ inl (sym eq ∙ kept, ground arith)
              | inr done ↦ elim (verdict_cases now c e r y done) [
                | inl (kept, replay) ↦ inl (sym eq ∙ kept, ground arith)
                | inr (first, open_, j) ↦ inr (first, open_, subst (Judged now c e r) eq j)
              ]
            ]
      ]
