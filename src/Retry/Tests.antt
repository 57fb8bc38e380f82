-- ===== src/Retry/Tests.antt =====
-- An operation that fails once and then returns: runs of the theorems about src/transient-retry.ts.
use dsh_codex_workflow.Common.{
  ℕ, ◌≤◌, ◌/◌, max, String, false, ◌≡◌, refl, Option, none, some, List, [], ◌∷◌, arith,
  if◌then◌else◌, str_eq,
}
use dsh_codex_workflow.Common.Result.{ok, err}
use dsh_codex_workflow.Retry.{
  BackoffPolicy, missing, negative, amount, PartialPolicy, normalize_backoff, backoff_delay_ms,
  Ended, returned, Turn, after_failure, retry_transient,
}
use dsh_codex_workflow.Retry.Bounds.{normalized-bounds}
use dsh_codex_workflow.Retry.Termination.{retry-ends}

abbrev partly_given : PartialPolicy
partly_given = record {
  base_ms = amount 0;
  max_ms = missing;
  budget_ms = amount 5;
  jitter_ratio = negative;
}

abbrev no_jitter : ℕ → ℕ
no_jitter n = n

normalized-bounds_example :
    (1 ≤ backoff_delay_ms 2 (normalize_backoff partly_given) no_jitter)
    × (backoff_delay_ms 2 (normalize_backoff partly_given) no_jitter
        ≤ max 1 ((normalize_backoff partly_given).max_ms / 1000))
normalized-bounds_example = normalized-bounds partly_given 2 no_jitter

-- A maximum of half a millisecond is a delay of one.
half_test :
    backoff_delay_ms 2 (normalize_backoff (record partly_given { max_ms = amount 500 })) no_jitter
    ≡ 1
unfolding backoff_delay_ms normalize_backoff
half_test = refl

-- The third delay is four times the first.
delay_test : backoff_delay_ms 2 (normalize_backoff partly_given) no_jitter ≡ 12000
unfolding backoff_delay_ms normalize_backoff
delay_test = refl

abbrev small : BackoffPolicy
small = record { base_ms = 1000; max_ms = 2000; budget_ms = 3000; jitter_ratio = 0 }

abbrev overloaded : String → Option String
overloaded error = if str_eq error "overloaded" then some "overloaded" else none

abbrev turn : ℕ → ℕ → Turn String ℕ
turn failed woke = record {
  aborted_before = false;
  result = err "overloaded";
  failed_at = failed;
  aborted_after = false;
  woke_at = woke;
  jitter = no_jitter;
}

abbrev last_turn : Turn String ℕ
last_turn = record (turn 12 14) { result = ok 7 }

abbrev turns : List (Turn String ℕ)
turns = turn 10 11 ∷ last_turn ∷ turn 14 16 ∷ turn 16 18 ∷ []

returned_test : retry_transient overloaded 13 small 0 turns ≡ some (returned 7)
unfolding retry_transient after_failure backoff_delay_ms
returned_test = refl

retry-ends_example :
    (e : Ended String String ℕ) × (retry_transient overloaded 13 small 0 turns ≡ some e)
unfolding backoff_delay_ms
retry-ends_example =
    retry-ends overloaded 13 small 0 10 turns
      (
        omega arith,
        omega arith,
        (omega arith, omega arith, (omega arith, omega arith, (omega arith, omega arith, tt))),
      )
      (omega arith) (omega arith)
