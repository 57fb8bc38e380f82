-- ===== src/Retry/Bounds.antt =====
-- Every delay of src/transient-retry.ts is at least one millisecond and at most the policy's
-- maximum.
use dsh_codex_workflow.Common.{ℕ, ◌≤◌, ◌/◌, max, ◌==◌, arith, Bool-cases, inl, inr}
use dsh_codex_workflow.Retry.{
  BackoffPolicy, PartialPolicy, normalize_backoff, max_delay, backoff_delay_ms,
}

-- Between one millisecond and the maximum delay of the policy, for every policy, attempt and jitter.
pub delay-bounds :
    (attempt : ℕ) (policy : BackoffPolicy) (jitter : ℕ → ℕ)
    → (1 ≤ backoff_delay_ms attempt policy jitter)
      × (backoff_delay_ms attempt policy jitter ≤ max_delay policy)
unfolding backoff_delay_ms
delay-bounds attempt policy jitter = elim (Bool-cases (policy.jitter_ratio == 0)) [
  | inl still ↦ rw still (omega arith, omega arith)
  | inr moving ↦ rw moving (omega arith, omega arith)
]

-- However a policy is given, in thousandths of a millisecond, with fields missing, negative or not
-- finite, the normalized one has a delay of at least one millisecond at every attempt, and of
-- at most its own maximum rounded down, or of exactly one millisecond where that maximum is below
-- one.
pub normalized-bounds :
    (given : PartialPolicy) (attempt : ℕ) (jitter : ℕ → ℕ)
    → (1 ≤ backoff_delay_ms attempt (normalize_backoff given) jitter)
      × (backoff_delay_ms attempt (normalize_backoff given) jitter
          ≤ max 1 ((normalize_backoff given).max_ms / 1000))
normalized-bounds given attempt jitter = delay-bounds attempt (normalize_backoff given) jitter
