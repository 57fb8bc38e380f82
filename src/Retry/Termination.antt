-- ===== src/Retry/Termination.antt =====
-- The loop of src/transient-retry.ts ends within its budget.
use dsh_codex_workflow.Common.{
  ℕ, ◌+◌, ◌≤◌, ◌<◌, ◌≡◌, refl, ap, ◌∙◌, false, Option, none, some, List, [], ◌∷◌, ltb, leb,
  if◌then◌else◌, length, arith, Bool-cases, Option-cases, inl, inr,
}
use dsh_codex_workflow.Common.Result.{ok, err, answer_cases}
use dsh_codex_workflow.Retry.{
  BackoffPolicy, backoff_delay_ms, Ended, returned, aborted, threw, exhausted, Turn, after_failure,
  retry_transient,
}
use dsh_codex_workflow.Retry.Bounds.{delay-bounds}

module _ {ℓ κ μ} {E : Type ℓ} {R : Type κ} {A : Type μ} (classify : E → Option R) where
  -- The clock does not go back, and a sleep takes the delay that was asked for.
  abbrev pub Clocked : BackoffPolicy → ℕ → ℕ → List (Turn E A) → Type 0
  Clocked policy attempt from [] = Unit
  Clocked policy attempt from (t ∷ ts) =
      (from ≤ t.failed_at)
      × (t.failed_at + backoff_delay_ms attempt policy t.jitter ≤ t.woke_at)
      × Clocked policy (attempt + 1) t.woke_at ts

  failed_turn :
      (deadline : ℕ) (policy : BackoffPolicy) (attempt : ℕ) (t : Turn E A) (ts : List (Turn E A))
      (error : E) (reason : R)
      → t.aborted_before ≡ false
      → t.result ≡ err error
      → classify error ≡ some reason
      → retry_transient classify deadline policy attempt (t ∷ ts)
        ≡ after_failure classify deadline policy attempt t error reason
            (retry_transient classify deadline policy (attempt + 1) ts)
  unfolding retry_transient
  failed_turn deadline policy attempt t ts error reason go bad transient =
      let again = retry_transient classify deadline policy (attempt + 1) ts in
      let on_reason : E → Option R → Option (Ended E R A) = λ e o. elim o [
        | none ↦ some (threw e)
        | some r ↦ after_failure classify deadline policy attempt t e r again
      ] in
      ap
        (λ b.
          if b
          then some aborted
          else elim t.result [ ok a ↦ some (returned a) | err e ↦ on_reason e (classify e) ])
        go
      ∙ ap (λ r. elim r [ ok a ↦ some (returned a) | err e ↦ on_reason e (classify e) ]) bad
      ∙ ap (on_reason error) transient

  -- A failure ends the loop, or leaves it before the deadline.
  failure-ends :
      (deadline : ℕ) (policy : BackoffPolicy) (attempt : ℕ) (t : Turn E A) (error : E) (reason : R)
      (again : Option (Ended E R A))
      → (leb deadline t.woke_at ≡ false → (e : Ended E R A) × (again ≡ some e))
      → (e : Ended E R A) × (after_failure classify deadline policy attempt t error reason again
          ≡ some e)
  unfolding after_failure
  failure-ends deadline policy attempt t error reason again next =
      elim (Bool-cases (ltb deadline (t.failed_at + backoff_delay_ms attempt policy t.jitter))) [
        | inl over ↦ (exhausted reason (attempt + 1) error, rw (over, after_failure) refl)
        | inr under ↦ elim (Bool-cases t.aborted_after) [
          | inl stop ↦ (aborted, rw (under, stop, after_failure) refl)
          | inr go ↦ elim (Bool-cases (leb deadline t.woke_at)) [
            | inl late ↦
                (exhausted reason (attempt + 1) error, rw (under, go, late, after_failure) refl)
            | inr soon ↦ let (e, end) = next soon in (e, rw (under, go, soon, after_failure) end)
          ]
        ]
      ]

  -- The loop ends: started at `from` with the deadline not passed, it needs no more turns than there
  -- are milliseconds up to the deadline, and one more, whatever the operation does.
  pub retry-ends :
      (deadline : ℕ) (policy : BackoffPolicy) (attempt from : ℕ) (ts : List (Turn E A))
      → Clocked policy attempt from ts
      → from ≤ deadline
      → deadline < from + length ts
      → (e : Ended E R A) × (retry_transient classify deadline policy attempt ts ≡ some e)
  unfolding retry_transient after_failure
  retry-ends deadline policy attempt from [] c early enough = absurd (omega (arith, early, enough))
  retry-ends deadline policy attempt from (t ∷ ts) (later, slept, c) early enough =
      elim (Bool-cases t.aborted_before) [
        | inl stop ↦ (aborted, rw (stop, retry_transient) refl)
        | inr go ↦ elim (answer_cases t.result) [
          | inl (a, good) ↦ (returned a, rw (go, good, retry_transient) refl)
          | inr (error, bad) ↦ elim (Option-cases (classify error)) [
            | inl terminal ↦ (threw error, rw (go, bad, terminal, retry_transient) refl)
            | inr (reason, transient) ↦
                let (e, end) =
                  failure-ends deadline policy attempt t error reason
                    (retry_transient classify deadline policy (attempt + 1) ts)
                    (λ soon.
                      let waited = (delay-bounds attempt policy t.jitter).0 in
                      retry-ends deadline policy (attempt + 1) t.woke_at ts c (ground arith)
                        (omega (arith, later, slept, waited, enough))) in
                (e, failed_turn deadline policy attempt t ts error reason go bad transient ∙ end)
          ]
        ]
      ]
