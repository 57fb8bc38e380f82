-- ===== src/Verdict/Rounds.antt =====
-- The rounds of automatic repair that the outcomes of `computeReviewOutcome` of src/workflow.ts ask
-- for are bounded by `maxReviewCycles`.
use dsh_codex_workflow.Common.{
  ℕ, suc, ◌+◌, ◌-◌, ◌≤◌, ◌<◌, String, ◌≡◌, refl, subst, ◌⊎◌, inl, inr, Bool, true, false, ◌&&◌,
  Option, List, [], ◌∷◌, ltb, leb, arith, Bool-cases, if◌then◌else◌,
}
use dsh_codex_workflow.Common.Result.{answer_cases}
use dsh_codex_workflow.Bridge.Protocol.{SubmitVerdict}
use dsh_codex_workflow.Review.{ReviewResult}
use dsh_codex_workflow.Verdict.{
  WorkflowPhase, fixing, ReviewEvidence, WorkflowRecord, ReviewLimits, Instant,
}
use dsh_codex_workflow.Verdict.Outcome.{
  is_pass, has_blocking, zero_or, track_no_change, compute_review_outcome,
}
use dsh_codex_workflow.Verdict.Application.{counted, apply_external_verdict}
use dsh_codex_workflow.Verdict.Admission.{ReviewIdentity, submit}
use dsh_codex_workflow.Verdict.Cases.{Judged, unverifiable, changed, accepted, external_cases}
use dsh_codex_workflow.Verdict.Frame.{step-Frame, submit_cases}
use dsh_codex_workflow.Verdict.History.{Call, submits, answers, step}

abbrev pub is_fixing : WorkflowPhase → Bool
is_fixing fixing = true
is_fixing _ = false

outcome-fixing :
    (limits : ReviewLimits) (r : WorkflowRecord) (result : ReviewResult)
    → is_fixing (compute_review_outcome limits r result).phase ≡ true
    → r.review_cycles < limits.max_review_cycles
unfolding compute_review_outcome
outcome-fixing limits r result h = elim (Bool-cases (is_pass result.verdict)) [
  | inl a ↦ let k = rw a at h in absurd cc
  | inr a ↦ elim (Bool-cases (has_blocking result)) [
    | inr b ↦ let k = rw (a, b) at h in absurd cc
    | inl b ↦
        elim (Bool-cases
          (leb limits.max_no_change_review_rounds (zero_or r.no_change_review_rounds))) [
            | inl d ↦ let k = rw (a, b, d) at h in absurd cc
            | inr d ↦ elim (Bool-cases (leb limits.max_review_cycles r.review_cycles)) [
              | inl f ↦ let k = rw (a, b, d, f) at h in absurd cc
              | inr f ↦ ground arith
            ]
          ]
  ]
]

-- A call counts no cycle, or counts one and asks for a repair only below the limit.
abbrev Counts : ReviewLimits → WorkflowRecord → WorkflowRecord → Type 0
Counts limits r x =
    (x.review_cycles ≡ r.review_cycles)
    ⊎ ((x.review_cycles ≡ r.review_cycles + 1)
        × (is_fixing x.phase ≡ true → r.review_cycles + 1 < limits.max_review_cycles))

module _ (parse_date : String → Option ℕ) (limits : ReviewLimits) (trim : String → String)
    (digest : ReviewIdentity → String) where
  Judged-Counts :
      (now : Instant) (c : SubmitVerdict) (e : ReviewEvidence) (r x : WorkflowRecord)
      → Judged parse_date limits now c e r x
      → Counts limits r x
  unfolding track_no_change
  Judged-Counts now c e r x (unverifiable eq) = inl (rw eq refl)
  Judged-Counts now c e r x (changed eq) = inl (rw eq refl)
  Judged-Counts now c e r x (accepted result consistent some_text same eq) = inr (
    rw eq refl,
    λ fix.
        outcome-fixing limits (counted parse_date limits e r) result
          (subst (λ y. is_fixing y.phase ≡ true) eq fix),
  )

  step-Counts :
      (call : Call) (r : WorkflowRecord)
      → Counts limits r (step parse_date limits trim digest call r)
  unfolding step
  step-Counts (submits now ttl stopped signal_aborted s) r =
      elim (answer_cases (submit trim digest now ttl stopped signal_aborted s r)) [
        | inr (failure, k) ↦ rw k (inl refl)
        | inl ((suppressed, y), k) ↦
            elim (submit_cases trim digest now ttl stopped signal_aborted s r suppressed y k) [
              | inl eq ↦ rw (k, eq) (inl refl)
              | inr eq ↦ rw (k, eq) (inl refl)
            ]
      ]
  step-Counts (answers now c e loaded) r =
      elim (answer_cases (apply_external_verdict parse_date limits now c e loaded r)) [
        | inr (failure, k) ↦ rw k (inl refl)
        | inl ((returned, x), k) ↦
            elim (external_cases parse_date limits now c e loaded r returned x k) [
              | inl (eq, idle) ↦ rw (k, eq) (inl refl)
              | inr (first, checked, judged) ↦ rw k (Judged-Counts now c e r x judged)
            ]
      ]
  step-Counts call r = inl (step-Frame parse_date limits trim digest call r refl).2

  -- A call that counts a review cycle and asks for a repair.
  abbrev pub asks_repair : Call → WorkflowRecord → Bool
  asks_repair c r =
      let x = step parse_date limits trim digest c r in
      ltb r.review_cycles x.review_cycles && is_fixing x.phase

  -- How many of them a history has.
  unfoldable pub repairs : List Call → WorkflowRecord → ℕ
  repairs [] r = 0
  repairs (c ∷ cs) r =
      let rest = repairs cs (step parse_date limits trim digest c r) in
      if asks_repair c r then suc rest else rest

  -- In any history, the automatic repairs are fewer than the review cycles that were left.
  pub repairs-bound :
      (cs : List Call) (r : WorkflowRecord)
      → repairs cs r ≤ limits.max_review_cycles - suc r.review_cycles
  unfolding repairs
  repairs-bound [] r = omega arith
  repairs-bound (c ∷ cs) r =
      let later = repairs-bound cs (step parse_date limits trim digest c r) in
      elim (step-Counts c r) [
        | inl same ↦ ground arith
        | inr (one, below) ↦
            elim (Bool-cases (is_fixing (step parse_date limits trim digest c r).phase)) [
              | inl fix ↦ let lt = below fix in ground arith
              | inr other ↦ ground arith
            ]
      ]
