-- ===== src/Authority/Soundness.antt =====
-- What a correction that passes the preservation check of src/review-authority.ts has kept.
use dsh_codex_workflow.Common.{
  ℕ, suc, ◌+◌, ◌≤◌, String, ◌≡◌, refl, sym, ap, Bool, true, false, not, Option, none, some, List,
  [], ◌∷◌, ◌==◌, str_eq, str_eq_iff, arith, Bool-cases, &&_true, inl, inr,
}
use dsh_codex_workflow.Common.Result.{Result, ok, err, bind_ok, ok_unique}
use dsh_codex_workflow.Json.{Number, whole, below_zero, fraction}
use dsh_codex_workflow.Review.{Severity, critical, high, medium, low, Finding, ReviewResult}
use dsh_codex_workflow.Authority.Multiset.{
  tally, take_required, trace_exact, take_required-counts, tally-extras, trace_exact-counts,
}
use dsh_codex_workflow.Authority.Preservation.{
  ConflictEntry, severity_code, same_bool, same_text, same_number, same_line, same_finding,
  filter_index, conflicted, Violation, added_findings, added_gaps, dropped_finding, dropped_gap,
  unauthorized_finding, unauthorized_gap, trace_findings, blame, required, sources, no_more,
  extra_findings, extra_gaps, check_extras, reconciliation_preservation_violation,
}

same_severity : (a b : Severity) → (severity_code a == severity_code b) ≡ true → a ≡ b
same_severity critical critical h = refl
same_severity critical high h = absurd (ground arith)
same_severity critical medium h = absurd (ground arith)
same_severity critical low h = absurd (ground arith)
same_severity high critical h = absurd (ground arith)
same_severity high high h = refl
same_severity high medium h = absurd (ground arith)
same_severity high low h = absurd (ground arith)
same_severity medium critical h = absurd (ground arith)
same_severity medium high h = absurd (ground arith)
same_severity medium medium h = refl
same_severity medium low h = absurd (ground arith)
same_severity low critical h = absurd (ground arith)
same_severity low high h = absurd (ground arith)
same_severity low medium h = absurd (ground arith)
same_severity low low h = refl

same_bool-eq : (a b : Bool) → same_bool a b ≡ true → a ≡ b
same_bool-eq true b h = sym h
same_bool-eq false true h = absurd (ground arith)
same_bool-eq false false h = refl

same_text-eq : (a b : Option String) → same_text a b ≡ true → a ≡ b
same_text-eq none none h = refl
same_text-eq none (some b) h = absurd (ground arith)
same_text-eq (some a) none h = absurd (ground arith)
same_text-eq (some a) (some b) h = ap (λ x. some x) ((str_eq_iff a b).0 h)

same_number-eq : (a b : Number) → same_number a b ≡ true → a ≡ b
same_number-eq (whole a) (whole b) h = let same : a ≡ b = ground arith in ap (λ x. whole x) same
same_number-eq (below_zero a) (below_zero b) h =
    let same : a ≡ b = ground arith in ap (λ x. below_zero x) same
same_number-eq (fraction a) (fraction b) h = ap (λ x. fraction x) ((str_eq_iff a b).0 h)
same_number-eq (whole a) (below_zero b) h = absurd (ground arith)
same_number-eq (whole a) (fraction b) h = absurd (ground arith)
same_number-eq (below_zero a) (whole b) h = absurd (ground arith)
same_number-eq (below_zero a) (fraction b) h = absurd (ground arith)
same_number-eq (fraction a) (whole b) h = absurd (ground arith)
same_number-eq (fraction a) (below_zero b) h = absurd (ground arith)

same_line-eq : (a b : Option Number) → same_line a b ≡ true → a ≡ b
same_line-eq none none h = refl
same_line-eq none (some b) h = absurd (ground arith)
same_line-eq (some a) none h = absurd (ground arith)
same_line-eq (some a) (some b) h = ap (λ x. some x) (same_number-eq a b h)

pub same_finding-eq : (a b : Finding) → same_finding a b ≡ true → a ≡ b
unfolding same_finding
same_finding-eq a b h =
    let (h₁, l) = &&_true _ (same_line a.line b.line) h in
    let (h₂, f) = &&_true _ (same_text a.file b.file) h₁ in
    let (h₃, d) = &&_true _ (str_eq a.body b.body) h₂ in
    let (h₄, t) = &&_true _ (str_eq a.title b.title) h₃ in
    let (s, k) =
      &&_true (severity_code a.severity == severity_code b.severity)
        (same_bool a.blocking b.blocking) h₄ in
    λ i. record {
      severity = same_severity a.severity b.severity s i;
      blocking = same_bool-eq a.blocking b.blocking k i;
      title = (str_eq_iff a.title b.title).0 t i;
      body = (str_eq_iff a.body b.body).0 d i;
      file = same_text-eq a.file b.file f i;
      line = same_line-eq a.line b.line l i;
    }

-- A list is its entries that pass a test of the index and those that do not.
filter_index-partition :
    {K : Type 0} (eq : K → K → Bool) (test : ℕ → Bool) (i : ℕ) (vs : List K) (k : K)
    → tally eq (filter_index (λ j. not (test j)) i vs) k + tally eq (filter_index test i vs) k
      ≡ tally eq vs k
unfolding filter_index tally
filter_index-partition eq test i [] k = omega arith
filter_index-partition eq test i (v ∷ vs) k = elim (Bool-cases (test i)) [
  | inl yes_in ↦
      rw (yes_in, filter_index) (ground (arith, filter_index-partition eq test (suc i) vs k))
  | inr no_out ↦
      rw (no_out, filter_index) (ground (arith, filter_index-partition eq test (suc i) vs k))
]

-- What the check guarantees of a corrected review: no entry without a conflict is lost, each as
-- often as it stood, and no test gap is new.
pub record Preserves (original : ReviewResult) (cs : List ConflictEntry) (corrected : ReviewResult)
    : Type 0 where
  pub findings_kept :
      (f : Finding)
      → tally same_finding (required true cs original.findings) f
        ≤ tally same_finding corrected.findings f
  pub gaps_kept :
      (g : String)
      → tally str_eq (required false cs original.test_gaps) g ≤ tally str_eq corrected.test_gaps g
  pub gaps_original :
      (g : String) → tally str_eq corrected.test_gaps g ≤ tally str_eq original.test_gaps g

blame_ok : {E A : Type 0} (f : E → Violation) (r : Result E A) (a : A) → blame f r ≡ ok a → r ≡ ok a
blame_ok f (ok x) a h = ap (λ y. ok y) (ok_unique x a h)
blame_ok f (err e) a h = absurd cc

-- The gaps that are traced.
traced_gaps :
    (original : ReviewResult) (cs : List ConflictEntry) (fs : List Finding) (gs : List String)
    (g : String)
    → check_extras original cs fs gs ≡ ok tt
    → tally str_eq gs g ≤ tally str_eq (sources false cs original.test_gaps) g
unfolding check_extras
traced_gaps original cs fs gs g h =
    let (_, _, h₁) =
      bind_ok (no_more added_findings fs (sources true cs original.findings)) _ tt h in
    let (_, _, h₂) =
      bind_ok (no_more added_gaps gs (sources false cs original.test_gaps)) _ tt h₁ in
    let (_, _, h₃) =
      bind_ok (blame unauthorized_finding (trace_findings fs (sources true cs original.findings))) _
        tt h₂ in
    let (rest, traced, _) =
      bind_ok (blame unauthorized_gap (trace_exact str_eq gs (sources false cs original.test_gaps)))
        _ tt h₃ in
    trace_exact-counts str_eq (λ a b. (str_eq_iff a b).0) gs (sources false cs original.test_gaps)
      rest g
      (blame_ok unauthorized_gap (trace_exact str_eq gs (sources false cs original.test_gaps)) rest
        traced)

-- A corrected review that passes keeps every finding and every test gap that is not in conflict, at
-- least as often as the original has it, and has no test gap more often than the original.
pub accepted-Preserves :
    (original : ReviewResult) (cs : List ConflictEntry) (corrected : ReviewResult)
    → reconciliation_preservation_violation original cs corrected ≡ ok tt
    → Preserves original cs corrected
unfolding reconciliation_preservation_violation
accepted-Preserves original cs corrected h =
    let (left_f, taken_f, h₁) =
      bind_ok
        (blame dropped_finding (
          take_required same_finding (required true cs original.findings)
            (tally same_finding corrected.findings)))
        _ tt h in
    let (left_g, taken_g, h₂) =
      bind_ok
        (blame dropped_gap (
          take_required str_eq (required false cs original.test_gaps)
            (tally str_eq corrected.test_gaps)))
        _ tt h₁ in
    let counts_f = λ (f : Finding).
      take_required-counts same_finding same_finding-eq (required true cs original.findings)
        (tally same_finding corrected.findings) left_f f
        (blame_ok dropped_finding _ left_f taken_f) in
    let counts_g = λ (g : String).
      take_required-counts str_eq (λ a b. (str_eq_iff a b).0) (required false cs original.test_gaps)
        (tally str_eq corrected.test_gaps) left_g g (blame_ok dropped_gap _ left_g taken_g) in
    record {
      findings_kept = λ f. omega (arith, counts_f f);
      gaps_kept = λ g. omega (arith, counts_g g);
      gaps_original = λ g.
          let extra =
            tally-extras str_eq (λ a b. (str_eq_iff a b).0) corrected.test_gaps left_g g
              (omega (arith, counts_g g)) in
          let traced =
            traced_gaps original cs (extra_findings corrected left_f) (extra_gaps corrected left_g)
              g h₂ in
          omega (
            arith,
            counts_g g,
            extra,
            traced,
            filter_index-partition str_eq (conflicted false cs) 0 original.test_gaps g,
          );
    }
