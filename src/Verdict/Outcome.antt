-- ===== src/Verdict/Outcome.antt =====
-- `applyReviewConsistency`, `trackNoChange` and `computeReviewOutcome` of src/workflow.ts. The message
-- to the session is left out of an outcome.
use dsh_codex_workflow.Common.{
  ℕ, ◌+◌, Bool, true, false, not, ◌||◌, Option, none, some, List, [], ◌∷◌, leb, str_eq,
  if◌then◌else◌,
}
use dsh_codex_workflow.Common.Result.{Result, ok, err}
use dsh_codex_workflow.Review.{Finding, Verdict, pass, changes_requested, ReviewResult}
use dsh_codex_workflow.Verdict.{
  WorkflowPhase, passed, waiting_review_decision, blocked, fixing, StoredError,
  no_verifiable_change, changes_after_cycles, ReviewEvidence, WorkflowRecord, Rejection,
  invalid_review, ReviewLimits, same_text,
}

pub record ReviewOutcome : Type 0 where
  pub phase : WorkflowPhase
  pub error : Option StoredError
  pub no_change_review_rounds : Option ℕ

abbrev pub is_empty {ℓ} : {A : Type ℓ} → List A → Bool
is_empty [] = true
is_empty (_ ∷ _) = false

abbrev pub is_pass : Verdict → Bool
is_pass pass = true
is_pass changes_requested = false

abbrev pub zero_or : Option ℕ → ℕ
zero_or none = 0
zero_or (some n) = n

abbrev pub has_content : ReviewResult → Bool
has_content r = not (is_empty r.findings) || not (is_empty r.test_gaps)

unfoldable pub apply_review_consistency : ReviewResult → Result Rejection ReviewResult
apply_review_consistency r = elim r.verdict [
  | pass ↦ ok (if has_content r then record r { verdict = changes_requested } else r)
  | changes_requested ↦ if has_content r then ok r else err invalid_review
]

abbrev pub unobservable : ReviewEvidence → Bool
unobservable e = e.insufficient || str_eq e.fingerprint ""

abbrev pub unchanged_rounds : WorkflowRecord → ReviewEvidence → Option ℕ
unchanged_rounds r e =
    if unobservable e
    then some 0
    else if same_text r.previous_review_fingerprint (some e.fingerprint)
    then some (zero_or r.no_change_review_rounds + 1)
    else some 0

unfoldable pub track_no_change : WorkflowRecord → ReviewEvidence → WorkflowRecord
track_no_change r e = record r {
  latest_review_evidence = some e;
  no_change_review_rounds = unchanged_rounds r e;
  previous_review_fingerprint = if unobservable e then none else some e.fingerprint;
}

unfoldable pub some_blocking : List Finding → Bool
some_blocking [] = false
some_blocking (f ∷ fs) = f.blocking || some_blocking fs

abbrev pub has_blocking : ReviewResult → Bool
has_blocking r = some_blocking r.findings || not (is_empty r.test_gaps)

unfoldable pub compute_review_outcome : ReviewLimits → WorkflowRecord → ReviewResult → ReviewOutcome
compute_review_outcome limits r result =
    if is_pass result.verdict
    then record { phase = passed; error = none; no_change_review_rounds = some 0 }
    else if not (has_blocking result)
    then record { phase = waiting_review_decision; error = none; no_change_review_rounds = some 0 }
    else if leb limits.max_no_change_review_rounds (zero_or r.no_change_review_rounds)
    then record {
      phase = blocked;
      error = some (no_verifiable_change r.no_change_review_rounds);
      no_change_review_rounds = r.no_change_review_rounds;
    }
    else if leb limits.max_review_cycles r.review_cycles
    then record {
      phase = blocked;
      error = some (changes_after_cycles r.review_cycles);
      no_change_review_rounds = r.no_change_review_rounds;
    }
    else record {
      phase = fixing;
      error = none;
      no_change_review_rounds = r.no_change_review_rounds;
    }
