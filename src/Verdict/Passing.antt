-- ===== src/Verdict/Passing.antt =====
-- A workflow that a verdict makes pass: `applyExternalVerdictInternal` and
-- `assertVerdictStillValidInternal` of src/workflow.ts.
use dsh_codex_workflow.Common.{
  ℕ, String, ◌≡◌, refl, sym, subst, ap, ◌≢◌, inl, inr, Bool, true, false, not, ◌&&◌, Option, none,
  some, str_eq, str_eq_iff, leb, arith, Bool-cases,
}
use dsh_codex_workflow.Common.Result.{Result, ok, ok_unique}
use dsh_codex_workflow.Bridge.Protocol.{SubmitVerdict}
use dsh_codex_workflow.Review.{ReviewResult, Verdict, pass, changes_requested}
use dsh_codex_workflow.Verdict.{
  WorkflowPhase, passed, waiting_review_decision, ReviewEvidence, WorkflowRecord, Rejection,
  ReviewLimits, Instant, same_text, has_cancelled,
}
use dsh_codex_workflow.Verdict.Outcome.{
  is_pass, has_content, has_blocking, zero_or, apply_review_consistency, track_no_change,
  compute_review_outcome,
}
use dsh_codex_workflow.Verdict.Application.{fingerprint_of, counted, apply_external_verdict}
use dsh_codex_workflow.Verdict.Delivery.{regress, assert_verdict_still_valid}
use dsh_codex_workflow.Verdict.Cases.{
  unverifiable, changed, accepted, Judged-identity, external_cases,
}
use dsh_codex_workflow.Verdict.Once.{guards_passed}

outcome-passed :
    (limits : ReviewLimits) (r : WorkflowRecord) (result : ReviewResult)
    → (compute_review_outcome limits r result).phase ≡ passed
    → (is_pass result.verdict ≡ true) × ((compute_review_outcome limits r result).error ≡ none)
unfolding compute_review_outcome
outcome-passed limits r result h = elim (Bool-cases (is_pass result.verdict)) [
  | inl passes ↦ (passes, rw passes refl)
  | inr fails ↦ absurd (never fails)
]
  where
    never : is_pass result.verdict ≡ false → ⊥
    never fails = elim (Bool-cases (has_blocking result)) [
      | inr b ↦ let k = rw (fails, b) at h in cc
      | inl b ↦
          elim (Bool-cases
            (leb limits.max_no_change_review_rounds (zero_or r.no_change_review_rounds))) [
              | inl d ↦ let k = rw (fails, b, d) at h in cc
              | inr d ↦ elim (Bool-cases (leb limits.max_review_cycles r.review_cycles)) [
                | inl f ↦ let k = rw (fails, b, d, f) at h in cc
                | inr f ↦ let k = rw (fails, b, d, f) at h in cc
              ]
            ]
    ]

-- A consistent result that passes is the verdict itself, and has nothing to repair.
consistent-pass :
    (v result : ReviewResult)
    → apply_review_consistency v ≡ ok result
    → is_pass result.verdict ≡ true
    → (v.verdict ≡ pass) × (has_content v ≡ false) × (result ≡ v)
unfolding apply_review_consistency
consistent-pass v result h passes = by_verdict v.verdict refl
  where
    demoted :
        ◌≡◌ {A = Result Rejection ReviewResult}
          (ok (record v { verdict = changes_requested }))
          (ok result)
        → ⊥
    demoted k =
        let no_pass =
          subst (λ y. is_pass y.verdict ≡ true)
            (sym (ok_unique (record v { verdict = changes_requested }) result k)) passes in
        cc

    by_verdict :
        (w : Verdict) → v.verdict ≡ w → (v.verdict ≡ pass) × (has_content v ≡ false) × (result ≡ v)
    by_verdict pass eq = elim (Bool-cases (has_content v)) [
      | inr bare ↦ let k = rw (eq, bare) at h in (eq, bare, cc)
      | inl content ↦ let k = rw (eq, content) at h in absurd (demoted k)
    ]
    by_verdict changes_requested eq = elim (Bool-cases (has_content v)) [
      | inr bare ↦ let k = rw (eq, bare) at h in absurd cc
      | inl content ↦ let k = rw (eq, content) at h in absurd (demoted k)
    ]

regress_never : (p : WorkflowPhase) → regress p ≢ passed
regress_never passed h = cc
regress_never waiting_review_decision h = cc
regress_never _ h = cc

-- A relay that leaves a pass in place has found the workspace of the verdict.
still-current :
    (c : SubmitVerdict) (e : ReviewEvidence) (x returned y : WorkflowRecord) (void : Bool)
    (fingerprint : String)
    → x.error ≡ none
    → x.applied_verdict_evidence_fingerprint ≡ some fingerprint
    → str_eq fingerprint "" ≡ false
    → same_text x.submission_id c.submission_id ≡ true
    → assert_verdict_still_valid c e x x ≡ ok (void, returned, y)
    → y.phase ≡ passed
    → e.fingerprint ≡ fingerprint
unfolding assert_verdict_still_valid
still-current c e x returned y void fingerprint no_error kept non_empty same h after =
    elim (Bool-cases (has_cancelled x.phase)) [
      | inl gone ↦
          let k = rw gone at h in
          absurd (not_both x.phase (subst (λ z. z.phase ≡ passed) (sym (stored_eq k)) after) gone)
      | inr live ↦
          elim (Bool-cases (not (str_eq e.fingerprint "") && str_eq e.fingerprint fingerprint)) [
            | inl equal ↦ ground (arith, str_eq_iff e.fingerprint fingerprint)
            | inr differ ↦
                let k = rw (live, no_error, kept, non_empty, same, differ) at h in
                absurd
                  (regress_never x.phase (subst (λ z. z.phase ≡ passed) (sym (stored_eq k)) after))
          ]
    ]
  where
    not_both : (p : WorkflowPhase) → p ≡ passed → has_cancelled p ≡ true → ⊥
    not_both p a b = let k = rw a at b in cc

    stored_eq :
        {v : Bool} {l z : WorkflowRecord}
        → ◌≡◌ {A = Result Rejection (Bool × WorkflowRecord × WorkflowRecord)}
            (ok (v, l, z))
            (ok (void, returned, y))
        → z ≡ y
    stored_eq k = cc

abbrev pub Justified : SubmitVerdict → ReviewEvidence → WorkflowRecord → WorkflowRecord → Type 0
Justified c e r x =
    (c.verdict.verdict ≡ pass)
    × (has_content c.verdict ≡ false)
    × (str_eq e.fingerprint "" ≡ false)
    × (fingerprint_of r.latest_review_evidence ≡ e.fingerprint)
    × (x.applied_verdict_evidence_fingerprint ≡ some e.fingerprint)
    × (x.latest_review ≡ some c.verdict)
    × (x.error ≡ none)

module _ (parse_date : String → Option ℕ) (limits : ReviewLimits) where
  -- If a workflow that has not passed passes by a verdict, then the verdict is a pass without findings
  -- and test gaps, the workspace can be verified and is the one that was submitted, and the record
  -- keeps its fingerprint and the review, and no error.
  pub passed-Justified :
      (now : Instant) (c : SubmitVerdict) (e : ReviewEvidence)
      (loaded r returned x : WorkflowRecord)
      → apply_external_verdict parse_date limits now c e loaded r ≡ ok (returned, x)
      → r.phase ≢ passed
      → x.phase ≡ passed
      → Justified c e r x
  unfolding track_no_change
  passed-Justified now c e loaded r returned x h before after =
      elim (external_cases parse_date limits now c e loaded r returned x h) [
        | inl (eq, idle) ↦ absurd (before (subst (λ y. y.phase ≡ passed) eq after))
        | inr (first, checked, judged) ↦ elim judged [
          | unverifiable eq ↦ absurd (before (subst (λ y. y.phase ≡ passed) eq after))
          | changed eq ↦ absurd (before (subst (λ y. y.phase ≡ passed) eq after))
          | accepted result consistent non_empty same eq ↦
              let (passes, clear) =
                outcome-passed limits (counted parse_date limits e r) result
                  (subst (λ y. y.phase ≡ passed) eq after) in
              let (verdict, nothing, unchanged) =
                consistent-pass c.verdict result consistent passes in
              (
                verdict,
                nothing,
                non_empty,
                same,
                rw eq refl,
                rw eq (ap some unchanged),
                rw eq clear,
              )
        ]
      ]

  own_submission :
      (now : Instant) (c : SubmitVerdict) (submission : String) (e : ReviewEvidence)
      (loaded r returned x : WorkflowRecord)
      → c.submission_id ≡ some submission
      → apply_external_verdict parse_date limits now c e loaded r ≡ ok (returned, x)
      → r.phase ≢ passed
      → x.phase ≡ passed
      → same_text x.submission_id c.submission_id ≡ true
  own_submission now c submission e loaded r returned x answers h before passes =
      elim (external_cases parse_date limits now c e loaded r returned x h) [
        | inl (eq, idle) ↦ absurd (before (subst (λ y. y.phase ≡ passed) eq passes))
        | inr (first, checked, judged) ↦
            let (unapplied, current) = guards_passed c submission r answers checked in
            let (request, applied, same) = Judged-identity parse_date limits now c e r x judged in
            rw (same, answers) current
      ]

  -- If a workflow that has not passed passes by a verdict for its submission and still has passed
  -- when the delivery has checked the workspace, then the workspace is the one of the verdict.
  pub relayed-Current :
      (now : Instant) (c : SubmitVerdict) (submission : String) (e later : ReviewEvidence)
      (loaded r returned x relayed y : WorkflowRecord) (void : Bool)
      → c.submission_id ≡ some submission
      → apply_external_verdict parse_date limits now c e loaded r ≡ ok (returned, x)
      → r.phase ≢ passed
      → x.phase ≡ passed
      → assert_verdict_still_valid c later x x ≡ ok (void, relayed, y)
      → y.phase ≡ passed
      → later.fingerprint ≡ e.fingerprint
  relayed-Current now c submission e later loaded r returned x relayed y void answers h before
        passes check after =
      let (verdict, nothing, non_empty, same, kept, review, no_error) =
        passed-Justified now c e loaded r returned x h before passes in
      still-current c later x relayed y void e.fingerprint no_error kept non_empty
        (own_submission now c submission e loaded r returned x answers h before passes) check after
