-- ===== src/Usage.antt =====
-- Token usage of threads: src/usage-accounting.ts. The map of snapshots is a list in insertion order.
pub mod Capacity
mod Tests
use dsh_codex_workflow.Common.{
  ℕ, suc, String, Bool, true, false, not, ◌&&◌, Option, none, some, List, [], ◌∷◌, ◌++◌, ◌==◌, leb,
  ltb, if◌then◌else◌, str_eq, length, drop,
}
use dsh_codex_workflow.Common.Table.{get, delete_where}
use dsh_codex_workflow.Json.{Json, whole, null, num, str, obj, Fields, lookup}

pub record TokenUsageBreakdown : Type 0 where
  pub total_tokens : ℕ
  pub input_tokens : ℕ
  pub cached_input_tokens : ℕ
  pub cache_write_input_tokens : Option ℕ
  pub output_tokens : ℕ
  pub reasoning_output_tokens : ℕ

-- `undefined`, `null` or a number.
pub data Window : Type 0 where
  absent unknown : Window
  tokens : ℕ → Window

pub record TokenUsageSnapshot : Type 0 where
  pub thread_id : String
  pub turn_id : String
  pub total : TokenUsageBreakdown
  pub last : TokenUsageBreakdown
  pub model_context_window : Window

abbrev pub thread_of : TokenUsageSnapshot → String
thread_of s = s.thread_id

-- A safe integer that is not negative.
abbrev pub counter : Option Json → Option ℕ
counter (some (num (whole n))) = if leb n 9007199254740991 then some n else none
counter _ = none

abbrev pub optional_counter : Option Json → Option (Option ℕ)
optional_counter none = some none
optional_counter (some v) = elim (counter (some v)) [ none ↦ none | some n ↦ some (some n) ]

abbrev pub read_window : Option Json → Option Window
read_window none = some absent
read_window (some null) = some unknown
read_window (some v) = elim (counter (some v)) [ none ↦ none | some n ↦ some (tokens n) ]

abbrev pub properties : Option Json → Option Fields
properties (some (obj fs)) = some fs
properties _ = none

-- `value && …` of a text that is not empty.
abbrev pub filled_text : Option Json → Option String
filled_text (some (str s)) = if str_eq s "" then none else some s
filled_text _ = none

infixl 5 ◌>>=?◌
abbrev pub ◌>>=?◌ {ℓ κ} : {A : Type ℓ} {B : Type κ} → Option A → (A → Option B) → Option B
none >>=? f = none
some a >>=? f = f a

unfoldable pub breakdown : Option Json → Option TokenUsageBreakdown
breakdown v = properties v >>=? (λ fs. counter (lookup "totalTokens" fs) >>=? (λ total.
    counter (lookup "inputTokens" fs) >>=? (λ input.
      counter (lookup "cachedInputTokens" fs) >>=? (λ cached.
        counter (lookup "outputTokens" fs) >>=? (λ output.
          counter (lookup "reasoningOutputTokens" fs) >>=? (λ reasoning.
            optional_counter (lookup "cacheWriteInputTokens" fs) >>=? (λ written. some (record {
              total_tokens = total;
              input_tokens = input;
              cached_input_tokens = cached;
              cache_write_input_tokens = written;
              output_tokens = output;
              reasoning_output_tokens = reasoning;
            }))))))))

unfoldable pub parse_token_usage_snapshot : Json → Option TokenUsageSnapshot
parse_token_usage_snapshot params = properties (some params) >>=? (λ value.
    filled_text (lookup "threadId" value) >>=? (λ thread.
      filled_text (lookup "turnId" value) >>=? (λ turn.
        properties (lookup "tokenUsage" value) >>=? (λ usage.
          breakdown (lookup "total" usage) >>=? (λ total.
            breakdown (lookup "last" usage) >>=? (λ last.
              read_window (lookup "modelContextWindow" usage) >>=? (λ window. some (record {
                thread_id = thread;
                turn_id = turn;
                total = total;
                last = last;
                model_context_window = window;
              }))))))))

abbrev same_option : Option ℕ → Option ℕ → Bool
same_option none none = true
same_option (some a) (some b) = a == b
same_option _ _ = false

abbrev same_breakdown : TokenUsageBreakdown → TokenUsageBreakdown → Bool
same_breakdown a b =
    a.total_tokens == b.total_tokens
    && a.input_tokens == b.input_tokens
    && a.cached_input_tokens == b.cached_input_tokens
    && same_option a.cache_write_input_tokens b.cache_write_input_tokens
    && a.output_tokens == b.output_tokens
    && a.reasoning_output_tokens == b.reasoning_output_tokens

abbrev same_window : Window → Window → Bool
same_window absent absent = true
same_window unknown unknown = true
same_window (tokens a) (tokens b) = a == b
same_window _ _ = false

-- Two snapshots print as the same JSON text.
abbrev pub same_snapshot : TokenUsageSnapshot → TokenUsageSnapshot → Bool
same_snapshot a b =
    str_eq a.thread_id b.thread_id
    && str_eq a.turn_id b.turn_id
    && same_breakdown a.total b.total
    && same_breakdown a.last b.last
    && same_window a.model_context_window b.model_context_window

abbrev pub Ledger : Type 0
Ledger = List TokenUsageSnapshot

abbrev pub of_thread : String → TokenUsageSnapshot → Bool
of_thread id s = str_eq s.thread_id id

-- `delete` and `set` move the thread to the end; the oldest goes when there are too many.
unfoldable pub store_snapshot : ℕ → TokenUsageSnapshot → Ledger → Ledger
store_snapshot max_threads s l =
    let l' = delete_where (of_thread s.thread_id) l ++ s ∷ [] in
    if ltb max_threads (length l') then drop 1 l' else l'

abbrev pub news : TokenUsageSnapshot → Option TokenUsageSnapshot → Option TokenUsageSnapshot
news s none = some s
news s (some previous) = if same_snapshot previous s then none else some s

-- `record`: the new ledger, and the snapshot unless it repeats the last one of its thread.
unfoldable pub record_usage : ℕ → Json → Ledger → Ledger × Option TokenUsageSnapshot
record_usage max_threads params l = elim (parse_token_usage_snapshot params) [
  | none ↦ (l, none)
  | some s ↦ (store_snapshot max_threads s l, news s (get thread_of s.thread_id l))
]

unfoldable pub forget : String → Ledger → Ledger
forget id l = delete_where (of_thread id) l
