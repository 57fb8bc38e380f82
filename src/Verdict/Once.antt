-- ===== src/Verdict/Once.antt =====
-- `applyExternalVerdictInternal` of src/workflow.ts lets one verdict take effect for a submission.
use dsh_codex_workflow.Common.{
  ℕ, suc, ◌≤◌, String, ◌≡◌, refl, subst, ap, ◌⊎◌, inl, inr, Bool, true, false, not, ◌&&◌, ◌||◌,
  Option, none, some, List, [], ◌∷◌, str_eq, str_eq_iff, arith, Bool-cases, Option-cases, All,
  if◌then◌else◌,
}
use dsh_codex_workflow.Common.Result.{ok, err, answer_cases}
use dsh_codex_workflow.Bridge.Protocol.{SubmitVerdict}
use dsh_codex_workflow.Verdict.{
  ReviewEvidence, WorkflowRecord, Rejection, already_applied, stale_submission, ReviewLimits,
  Instant, same_text, is_some, or_else,
}
use dsh_codex_workflow.Verdict.Application.{check_applicable, apply_external_verdict}
use dsh_codex_workflow.Verdict.Admission.{ReviewIdentity, Submission, submit}
use dsh_codex_workflow.Verdict.Cases.{guard_ok, is_idle, Judged-identity, external_cases}
use dsh_codex_workflow.Verdict.Frame.{step-Frame, submit_cases}
use dsh_codex_workflow.Verdict.History.{Call, submits, answers, stored, stored_too, is_ok, step}

-- Whatever is asked for it later, no verdict can take effect for submission `s`: the verdict that was
-- applied last is one of it, or another submission has come.
abbrev pub Settled : String → WorkflowRecord → Type 0
Settled s r =
    (same_text r.applied_verdict_submission_id (some s) || not (same_text r.submission_id (some s)))
    ≡ true

-- No submission gets the identity `s` again.
abbrev pub is_fresh : String → Call → Bool
is_fresh s (submits _ _ _ _ x) = not (str_eq x.submission_id s)
is_fresh s _ = true

same_text-eq : (o : Option String) (s : String) → same_text o (some s) ≡ true → o ≡ some s
same_text-eq none s h = absurd cc
same_text-eq (some t) s h = ap some ((str_eq_iff t s).0 h)

same_text_refl : (s : String) → same_text (some s) (some s) ≡ true
same_text_refl s = (str_eq_iff s s).1 refl

-- The guards that a verdict which takes effect has passed.
pub guards_passed :
    (c : SubmitVerdict) (s : String) (r : WorkflowRecord)
    → c.submission_id ≡ some s
    → check_applicable c r ≡ ok tt
    → (same_text r.applied_verdict_submission_id (some s) ≡ false)
      × (same_text r.submission_id (some s) ≡ true)
unfolding check_applicable
guards_passed c s r eq h =
    let (first, h1) =
      guard_ok
        (is_some c.submission_id && same_text r.applied_verdict_submission_id c.submission_id)
        already_applied h in
    let (recent, h2) =
      guard_ok (is_some c.submission_id && not (same_text r.submission_id c.submission_id))
        stale_submission h1 in
    (
      subst (λ o. (is_some o && same_text r.applied_verdict_submission_id o) ≡ false) eq first,
      not_false (subst (λ o. (is_some o && not (same_text r.submission_id o)) ≡ false) eq recent),
    )
  where
    not_false : {b : Bool} → not b ≡ false → b ≡ true
    not_false {b = b} k = ground arith

module _ (parse_date : String → Option ℕ) (limits : ReviewLimits) (trim : String → String)
    (digest : ReviewIdentity → String) where
  -- A verdict for submission `s` takes effect: the call returns, and is neither a replay of the verdict
  -- that was applied last nor stopped by a cancellation.
  abbrev pub takes_effect : String → Call → WorkflowRecord → Bool
  takes_effect s (answers now c e loaded) r =
      same_text c.submission_id (some s)
      && is_ok (apply_external_verdict parse_date limits now c e loaded r)
      && not (is_idle c loaded r)
  takes_effect s _ r = false

  -- How often one does in a history.
  unfoldable pub effects : String → List Call → WorkflowRecord → ℕ
  effects s [] r = 0
  effects s (c ∷ cs) r =
      let rest = effects s cs (step parse_date limits trim digest c r) in
      if takes_effect s c r then suc rest else rest

  -- An answer for a submission that takes effect is judged, and settles the submission.
  effect-Settles :
      (s : String) (call : Call) (r : WorkflowRecord)
      → takes_effect s call r ≡ true
      → (Settled s r → ⊥) × Settled s (step parse_date limits trim digest call r)
  unfolding step
  effect-Settles s (answers now c e loaded) r h =
      elim (answer_cases (apply_external_verdict parse_date limits now c e loaded r)) [
        | inr (failure, k) ↦ absurd (failed k)
        | inl ((returned, x), k) ↦
            elim (external_cases parse_date limits now c e loaded r returned x k) [
              | inl (kept, idle) ↦ absurd (ground arith)
              | inr (first, checked, judged) ↦
                  let eq = same_text-eq c.submission_id s (ground arith) in
                  let (unapplied, current) = guards_passed c s r eq checked in
                  let (request, applied, same) =
                    Judged-identity parse_date limits now c e r x judged in
                  ((λ settled. ground arith), rw (k, applied, eq, same_text_refl s) refl)
            ]
      ]
    where
      failed :
          {failure : Rejection}
          → apply_external_verdict parse_date limits now c e loaded r ≡ err failure
          → ⊥
      failed k = let h' = rw k at h in ground arith
  effect-Settles s _ r h = absurd cc

  submit-Settled :
      (s : String) (now ttl : ℕ) (stopped signal_aborted : Bool) (x : Submission)
      (r : WorkflowRecord)
      → not (str_eq x.submission_id s) ≡ true
      → Settled s r
      → Settled s (stored r (submit trim digest now ttl stopped signal_aborted x r))
  submit-Settled s now ttl stopped signal_aborted x r fresh h =
      elim (answer_cases (submit trim digest now ttl stopped signal_aborted x r)) [
        | inr (failure, k) ↦ rw k h
        | inl ((suppressed, y), k) ↦
            elim (submit_cases trim digest now ttl stopped signal_aborted x r suppressed y k) [
              | inl eq ↦ rw (k, eq) h
              | inr eq ↦ rw (k, eq) (ground arith)
            ]
      ]

  answer-Settled :
      (s : String) (now : Instant) (c : SubmitVerdict) (e : ReviewEvidence)
      (loaded r : WorkflowRecord)
      → Settled s r
      → Settled s (stored_too r (apply_external_verdict parse_date limits now c e loaded r))
  answer-Settled s now c e loaded r h =
      elim (answer_cases (apply_external_verdict parse_date limits now c e loaded r)) [
        | inr (failure, k) ↦ rw k h
        | inl ((returned, x), k) ↦
            elim (external_cases parse_date limits now c e loaded r returned x k) [
              | inl (eq, idle) ↦ rw (k, eq) h
              | inr (first, checked, judged) ↦
                  let (request, applied, same) =
                    Judged-identity parse_date limits now c e r x judged in
                  rw (k, applied, same) (of_command (Option-cases c.submission_id) checked)
            ]
      ]
    where
      of_command :
          ((c.submission_id ≡ none) ⊎ ((t : String) × (c.submission_id ≡ some t)))
          → check_applicable c r ≡ ok tt
          → (same_text (or_else c.submission_id r.submission_id) (some s)
              || not (same_text r.submission_id (some s)))
            ≡ true
      of_command (inl eq) checked = rw eq (ground arith)
      of_command (inr (t, eq)) checked =
          let (unapplied, current) = guards_passed c t r eq checked in
          rw (eq, same_text-eq r.submission_id t current) (ground arith)

  step-Settled :
      (s : String) (call : Call) (r : WorkflowRecord)
      → is_fresh s call ≡ true
      → Settled s r
      → Settled s (step parse_date limits trim digest call r)
  unfolding step
  step-Settled s (submits now ttl stopped signal_aborted x) r fresh h =
      submit-Settled s now ttl stopped signal_aborted x r fresh h
  step-Settled s (answers now c e loaded) r fresh h = answer-Settled s now c e loaded r h
  step-Settled s call r fresh h =
      let (same, applied, cycles) = step-Frame parse_date limits trim digest call r refl in
      rw (same, applied) h

  effects-Settled :
      (s : String) (cs : List Call) (r : WorkflowRecord)
      → All (λ c. is_fresh s c ≡ true) cs
      → Settled s r
      → effects s cs r ≡ 0
  unfolding effects
  effects-Settled s [] r fresh h = refl
  effects-Settled s (c ∷ cs) r (f, fresh) h = elim (Bool-cases (takes_effect s c r)) [
    | inl again ↦ absurd ((effect-Settles s c r again).0 h)
    | inr quiet ↦ rw quiet (
        effects-Settled s cs (step parse_date limits trim digest c r) fresh
          (step-Settled s c r f h))
  ]

  -- In any history in which no new submission gets the identity of `s`, at most one verdict takes
  -- effect for `s`.
  pub effects-Once :
      (s : String) (cs : List Call) (r : WorkflowRecord)
      → All (λ c. is_fresh s c ≡ true) cs
      → effects s cs r ≤ 1
  unfolding effects
  effects-Once s [] r fresh = omega arith
  effects-Once s (c ∷ cs) r (f, fresh) = elim (Bool-cases (takes_effect s c r)) [
    | inl effect ↦
        rw
          (
            effect,
            effects-Settled s cs (step parse_date limits trim digest c r) fresh
                (effect-Settles s c r effect).1,
          )
          (omega arith)
    | inr quiet ↦ rw quiet (effects-Once s cs (step parse_date limits trim digest c r) fresh)
  ]
