-- ===== src/Authority/Preservation.antt =====
-- `reconciliationPreservationViolation` of src/review-authority.ts.
use dsh_codex_workflow.Common.{
  ℕ, suc, ◌-◌, String, Bool, true, false, not, ◌&&◌, ◌||◌, Option, none, some, List, [], ◌∷◌, ◌==◌,
  ltb, if◌then◌else◌, str_eq, length,
}
use dsh_codex_workflow.Common.Result.{Result, ok, err, ◌>>=◌}
use dsh_codex_workflow.Json.{Number, whole, below_zero, fraction}
use dsh_codex_workflow.Review.{Severity, critical, high, medium, low, Finding, ReviewResult}
use dsh_codex_workflow.Authority.Multiset.{
  tally, take_required, extras, remove_first, has_some, trace_exact,
}

pub data ConflictKind : Type 0 where
  finding test_gap : ConflictKind

pub record ConflictEntry : Type 0 where
  pub kind : ConflictKind
  pub index : ℕ
  pub reason : String
  pub violated : String
  pub high_severity_exception : Bool

abbrev pub severity_code : Severity → ℕ
severity_code critical = 0
severity_code high = 1
severity_code medium = 2
severity_code low = 3

abbrev pub same_bool : Bool → Bool → Bool
same_bool true b = b
same_bool false b = not b

abbrev pub same_text : Option String → Option String → Bool
same_text none none = true
same_text (some a) (some b) = str_eq a b
same_text _ _ = false

abbrev pub same_number : Number → Number → Bool
same_number (whole a) (whole b) = a == b
same_number (below_zero a) (below_zero b) = a == b
same_number (fraction a) (fraction b) = str_eq a b
same_number _ _ = false

abbrev pub same_line : Option Number → Option Number → Bool
same_line none none = true
same_line (some a) (some b) = same_number a b
same_line _ _ = false

-- `findingMatches`; two findings have the same `findingKey` just if they match.
unfoldable pub same_finding : Finding → Finding → Bool
same_finding a b =
    severity_code a.severity == severity_code b.severity
    && same_bool a.blocking b.blocking
    && str_eq a.title b.title
    && str_eq a.body b.body
    && same_text a.file b.file
    && same_line a.line b.line

-- The weaker trace of a corrected finding.
abbrev pub traceable : Finding → Finding → Bool
traceable source corrected =
    str_eq source.title corrected.title
    && same_text source.file corrected.file
    && same_line source.line corrected.line

abbrev pub is_finding : ConflictKind → Bool
is_finding finding = true
is_finding test_gap = false

-- `conflicts.filter(…).map(…)`, as a test of an index.
unfoldable pub conflicted : Bool → List ConflictEntry → ℕ → Bool
conflicted findings [] i = false
conflicted findings (c ∷ cs) i =
    (same_bool findings (is_finding c.kind) && c.index == i) || conflicted findings cs i

-- `values.filter((_, index) => test(index))`, from an index on.
unfoldable pub filter_index {ℓ} : {A : Type ℓ} → (ℕ → Bool) → ℕ → List A → List A
filter_index test i [] = []
filter_index test i (v ∷ vs) =
    let rest = filter_index test (suc i) vs in if test i then v ∷ rest else rest

pub data Violation : Type 0 where
  dropped_finding : Finding → Violation
  dropped_gap : String → Violation
  added_findings : ℕ → Violation
  added_gaps : ℕ → Violation
  unauthorized_finding : Finding → Violation
  unauthorized_gap : String → Violation

-- The source that a corrected finding uses up: an exact one, or else a traceable one.
abbrev pub source_of : Finding → List Finding → Finding → Bool
source_of f unused s =
    if has_some same_finding (λ x. same_finding x f) unused then same_finding s f else traceable s f

unfoldable pub trace_findings : List Finding → List Finding → Result Finding (List Finding)
trace_findings [] unused = ok unused
trace_findings (f ∷ fs) unused =
    let rest = trace_findings fs (remove_first same_finding (source_of f unused) unused) in
    if has_some same_finding (source_of f unused) unused then rest else err f

-- An error of one kind as a violation.
abbrev pub blame {ℓ κ} :
    {E : Type ℓ} {A : Type κ} → (E → Violation) → Result E A → Result Violation A
blame f (ok a) = ok a
blame f (err e) = err (f e)

abbrev pub required {ℓ} : {A : Type ℓ} → Bool → List ConflictEntry → List A → List A
required findings cs vs = filter_index (λ i. not (conflicted findings cs i)) 0 vs

abbrev pub sources {ℓ} : {A : Type ℓ} → Bool → List ConflictEntry → List A → List A
sources findings cs vs = filter_index (conflicted findings cs) 0 vs

-- What is left of the corrected entries once the required ones have taken theirs.
abbrev pub extra_findings : ReviewResult → (Finding → ℕ) → List Finding
extra_findings corrected left = extras same_finding corrected.findings left

abbrev pub extra_gaps : ReviewResult → (String → ℕ) → List String
extra_gaps corrected left = extras str_eq corrected.test_gaps left

-- `if (extra.length > sources.length) return …`.
abbrev pub no_more {ℓ} :
    {A : Type ℓ} → (ℕ → Violation) → List A → List A → Result Violation (Unit {0})
no_more f extra source =
    if ltb (length source) (length extra) then err (f (length extra - length source)) else ok tt

unfoldable pub check_extras :
    ReviewResult → List ConflictEntry → List Finding → List String → Result Violation (Unit {0})
check_extras original cs fs gs =
    no_more added_findings fs (sources true cs original.findings) >>= (λ _.
      no_more added_gaps gs (sources false cs original.test_gaps) >>= (λ _.
        blame unauthorized_finding (trace_findings fs (sources true cs original.findings)) >>= (λ _.
          blame unauthorized_gap (trace_exact str_eq gs (sources false cs original.test_gaps))
          >>= (λ _. ok tt))))

-- `err` is the violation that the code describes in words, `ok` is `undefined`.
unfoldable pub reconciliation_preservation_violation :
    ReviewResult → List ConflictEntry → ReviewResult → Result Violation (Unit {0})
reconciliation_preservation_violation original cs corrected =
    blame dropped_finding (
      take_required same_finding (required true cs original.findings)
        (tally same_finding corrected.findings))
    >>= (λ left_findings.
        blame dropped_gap (
          take_required str_eq (required false cs original.test_gaps)
            (tally str_eq corrected.test_gaps))
        >>= (λ left_gaps.
            check_extras original cs (extra_findings corrected left_findings)
              (extra_gaps corrected left_gaps)))
