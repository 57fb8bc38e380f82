-- ===== src/Authority/Tests.antt =====
-- A correction that drops a conflicting gap, and runs of the theorems about src/review-authority.ts.
use dsh_codex_workflow.Common.{String, true, false, ◌≡◌, refl, some, List, [], ◌∷◌}
use dsh_codex_workflow.Common.Result.{ok, err}
use dsh_codex_workflow.Json.{
  Fields, str, num, whole, bool, arr, obj, nil, item, empty, field, lookup,
}
use dsh_codex_workflow.Review.{high, Finding, changes_requested, ReviewResult}
use dsh_codex_workflow.Authority.Multiset.{
  tally, take_required, extras, remove_first, has_some, trace_exact,
}
use dsh_codex_workflow.Authority.Preservation.{
  test_gap, ConflictEntry, same_finding, conflicted, filter_index, trace_findings, check_extras,
  dropped_gap, reconciliation_preservation_violation,
}
use dsh_codex_workflow.Authority.Alignment.{
  read_entry, read_entries, parse_alignment, Coherent, parse_alignment-Coherent,
}
use dsh_codex_workflow.Authority.Soundness.{Preserves, accepted-Preserves}

abbrev leak : Finding
leak = record {
  severity = high;
  blocking = true;
  title = "leak";
  body = "b";
  file = some "a.ts";
  line = some (whole 3);
}

abbrev review : List String → ReviewResult
review gaps = record {
  verdict = changes_requested;
  findings = leak ∷ [];
  test_gaps = gaps;
  summary = "s";
}

abbrev second_gap : ConflictEntry
second_gap = record {
  kind = test_gap;
  index = 1;
  reason = "r";
  violated = "v";
  high_severity_exception = false;
}

kept_test :
    reconciliation_preservation_violation
      (review ("g0" ∷ "g1" ∷ []))
      (second_gap ∷ [])
      (review ("g0" ∷ []))
    ≡ ok tt
unfolding reconciliation_preservation_violation check_extras take_required extras tally
    trace_findings trace_exact filter_index conflicted has_some remove_first same_finding
kept_test = refl

dropped_test :
    reconciliation_preservation_violation
      (review ("g0" ∷ "g1" ∷ []))
      (second_gap ∷ [])
      (review ("g1" ∷ []))
    ≡ err (dropped_gap "g0")
unfolding reconciliation_preservation_violation take_required tally filter_index conflicted
    same_finding
dropped_test = refl

accepted-Preserves_example :
    Preserves (review ("g0" ∷ "g1" ∷ [])) (second_gap ∷ []) (review ("g0" ∷ []))
accepted-Preserves_example =
    accepted-Preserves (review ("g0" ∷ "g1" ∷ [])) (second_gap ∷ []) (review ("g0" ∷ [])) kept_test

abbrev answer : Fields
answer = field "aligned" (bool false) (
    field "conflicts"
      (arr (
        item
          (obj (
            field "kind" (str "testGap") (
              field "index" (num (whole 1))
                (field "reason" (str "r") (field "violated" (str "v") empty)))))
          nil))
      empty)

answer_test :
    parse_alignment answer (review ("g0" ∷ "g1" ∷ []))
    ≡ ok (record { aligned = false; conflicts = second_gap ∷ [] })
unfolding parse_alignment read_entries read_entry lookup
answer_test = refl

parse_alignment-Coherent_example :
    Coherent (review ("g0" ∷ "g1" ∷ [])) (record { aligned = false; conflicts = second_gap ∷ [] })
parse_alignment-Coherent_example =
    parse_alignment-Coherent answer (review ("g0" ∷ "g1" ∷ []))
      (record { aligned = false; conflicts = second_gap ∷ [] }) answer_test
