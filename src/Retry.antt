-- ===== src/Retry.antt =====
-- Bounded backoff of src/transient-retry.ts. The amounts of a policy are in thousandths of
-- a millisecond and its jitter ratio is in thousandths; delays and the clock are in milliseconds.
pub mod Bounds
pub mod Termination
mod Tests
use dsh_codex_workflow.Common.{
  ℕ, ◌+◌, ◌*◌, ◌/◌, ◌^◌, min, max, Bool, true, false, Option, none, some, List, [], ◌∷◌, ◌==◌, ltb,
  leb, if◌then◌else◌,
}
use dsh_codex_workflow.Common.Result.{Result, ok, err}

pub record BackoffPolicy : Type 0 where
  pub base_ms : ℕ
  pub max_ms : ℕ
  pub budget_ms : ℕ
  pub jitter_ratio : ℕ

abbrev pub default_backoff : BackoffPolicy
default_backoff = record {
  base_ms = 3000000;
  max_ms = 60000000;
  budget_ms = 1200000000;
  jitter_ratio = 250;
}

-- A field of a policy as a caller may give it.
pub data Given : Type 0 where
  missing not_finite negative : Given
  amount : ℕ → Given

pub record PartialPolicy : Type 0 where
  pub base_ms : Given
  pub max_ms : Given
  pub budget_ms : Given
  pub jitter_ratio : Given

abbrev pub positive : Given → ℕ → ℕ
positive (amount n) fallback = if ltb 0 n then n else fallback
positive _ fallback = fallback

abbrev pub budget_or : Given → ℕ → ℕ
budget_or (amount n) fallback = n
budget_or _ fallback = fallback

-- A finite ratio below zero becomes 0.
abbrev pub ratio_or : Given → ℕ → ℕ
ratio_or (amount n) fallback = n
ratio_or negative fallback = 0
ratio_or _ fallback = fallback

unfoldable pub normalize_backoff : PartialPolicy → BackoffPolicy
normalize_backoff p = record {
  base_ms = positive p.base_ms default_backoff.base_ms;
  max_ms = positive p.max_ms default_backoff.max_ms;
  budget_ms = budget_or p.budget_ms default_backoff.budget_ms;
  jitter_ratio = ratio_or p.jitter_ratio default_backoff.jitter_ratio;
}

-- In whole milliseconds: the fraction of `maxMs` is dropped.
abbrev pub max_delay : BackoffPolicy → ℕ
max_delay policy = max 1 (policy.max_ms / 1000)

-- In thousandths of a millisecond.
abbrev pub ceiling : ℕ → BackoffPolicy → ℕ
ceiling attempt policy = max 1000 (min (max_delay policy * 1000) (policy.base_ms * 2 ^ attempt))

-- `Math.round`, from thousandths to milliseconds.
abbrev pub rounded : ℕ → ℕ
rounded thousandths = (thousandths + 500) / 1000

-- `jitter` is `Math.round(ceiling * factor)` in milliseconds, for the factor that the random source gave.
unfoldable pub backoff_delay_ms : ℕ → BackoffPolicy → (ℕ → ℕ) → ℕ
backoff_delay_ms attempt policy jitter =
    if policy.jitter_ratio == 0
    then rounded (ceiling attempt policy)
    else min (max_delay policy) (max 1 (jitter (ceiling attempt policy)))

pub data Ended {ℓ κ μ} (E : Type ℓ) (R : Type κ) (A : Type μ) : Type (ℓ ⊔ κ ⊔ μ) where
  returned : A → Ended E R A
  aborted : Ended E R A
  threw : E → Ended E R A
  exhausted : R → ℕ → E → Ended E R A

-- What one turn of the loop meets: whether the signal has aborted before it and after the sleep, the
-- operation's result, the clock when it has failed and when the sleep is over, and the jitter.
pub record Turn {ℓ μ} (E : Type ℓ) (A : Type μ) : Type (ℓ ⊔ μ) where
  pub aborted_before : Bool
  pub result : Result E A
  pub failed_at : ℕ
  pub aborted_after : Bool
  pub woke_at : ℕ
  pub jitter : ℕ → ℕ

module _ {ℓ κ μ} {E : Type ℓ} {R : Type κ} {A : Type μ} (classify : E → Option R) where
  -- After a failure for the reason `reason`: `again` is the rest of the loop.
  unfoldable pub after_failure :
      ℕ → BackoffPolicy → ℕ → Turn E A → E → R → Option (Ended E R A) → Option (Ended E R A)
  after_failure deadline policy attempt t error reason again =
      if ltb deadline (t.failed_at + backoff_delay_ms attempt policy t.jitter)
      then some (exhausted reason (attempt + 1) error)
      else if t.aborted_after
      then some aborted
      else if leb deadline t.woke_at
      then some (exhausted reason (attempt + 1) error)
      else again

  -- The loop of `retryTransient`; `none` when the turns are used up and it still goes on.
  unfoldable pub retry_transient : ℕ → BackoffPolicy → ℕ → List (Turn E A) → Option (Ended E R A)
  retry_transient deadline policy attempt [] = none
  retry_transient deadline policy attempt (t ∷ ts) =
      let again = retry_transient deadline policy (attempt + 1) ts in
      if t.aborted_before then some aborted else elim t.result [
        | ok a ↦ some (returned a)
        | err error ↦ elim (classify error) [
          | none ↦ some (threw error)
          | some reason ↦ after_failure deadline policy attempt t error reason again
        ]
      ]
