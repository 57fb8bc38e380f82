-- ===== src/Usage/Tests.antt =====
-- Two threads in a ledger of one: runs of the theorems about src/usage-accounting.ts.
use dsh_codex_workflow.Common.{ℕ, String, ◌≡◌, refl, none, some, [], ◌∷◌, arith}
use dsh_codex_workflow.Json.{Json, whole, str, num, obj, empty, field, lookup}
use dsh_codex_workflow.Usage.{
  TokenUsageBreakdown, TokenUsageSnapshot, absent, breakdown, parse_token_usage_snapshot,
}
use dsh_codex_workflow.Usage.Capacity.{records, run, WithinCapacity, run-WithinCapacity}

abbrev counts : ℕ → Json
counts n = obj (
    field "totalTokens" (num (whole n)) (
      field "inputTokens" (num (whole n)) (
        field "cachedInputTokens" (num (whole 0)) (
          field "outputTokens" (num (whole 1))
            (field "reasoningOutputTokens" (num (whole 0)) empty)))))

abbrev notification : String → ℕ → Json
notification thread n = obj (
    field "threadId" (str thread) (
      field "turnId" (str "turn") (
        field "tokenUsage" (obj (field "total" (counts n) (field "last" (counts n) empty))) empty)))

abbrev counted : ℕ → TokenUsageBreakdown
counted n = record {
  total_tokens = n;
  input_tokens = n;
  cached_input_tokens = 0;
  cache_write_input_tokens = none;
  output_tokens = 1;
  reasoning_output_tokens = 0;
}

abbrev snapshot : String → ℕ → TokenUsageSnapshot
snapshot thread n = record {
  thread_id = thread;
  turn_id = "turn";
  total = counted n;
  last = counted n;
  model_context_window = absent;
}

snapshot_test : parse_token_usage_snapshot (notification "b" 9) ≡ some (snapshot "b" 9)
unfolding parse_token_usage_snapshot breakdown lookup
snapshot_test = refl

run-WithinCapacity_example :
    WithinCapacity 1 (run 1 (records (notification "a" 4) ∷ records (notification "b" 9) ∷ []) [])
run-WithinCapacity_example =
    run-WithinCapacity 1 (records (notification "a" 4) ∷ records (notification "b" 9) ∷ []) []
      (tt, omega arith)
