-- ===== src/Authority/Alignment.antt =====
-- `parseAlignment` of src/review-authority.ts, on the properties of the object that
-- `parseJsonObject` has read.
use dsh_codex_workflow.Common.{
  ℕ, ◌<◌, String, ◌≡◌, refl, subst, Bool, true, false, Option, none, some, List, [], ◌∷◌, leb,
  str_eq, if◌then◌else◌, length, All, arith, Bool-cases, inl, inr,
}
use dsh_codex_workflow.Common.Result.{Result, ok, err, ◌>>=◌, bind_ok, ok_unique}
use dsh_codex_workflow.Json.{
  Json, Items, Fields, str, num, whole, bool, arr, obj, nil, item, lookup,
}
use dsh_codex_workflow.Review.{ReviewResult}
use dsh_codex_workflow.Authority.Preservation.{ConflictKind, finding, test_gap, ConflictEntry}

pub data AlignmentError : Type 0 where
  missing_aligned conflicts_not_array invalid_entry invalid_kind invalid_index : AlignmentError
  invalid_details out_of_range invalid_exception : AlignmentError
  aligned_with_conflicts conflict_without_entry : AlignmentError

pub record AlignmentOutcome : Type 0 where
  pub aligned : Bool
  pub conflicts : List ConflictEntry

abbrev pub read_kind : Option Json → Result AlignmentError ConflictKind
read_kind (some (str s)) =
    if str_eq s "finding"
    then ok finding
    else if str_eq s "testGap"
    then ok test_gap
    else err invalid_kind
read_kind _ = err invalid_kind

abbrev pub read_index : Option Json → Result AlignmentError ℕ
read_index (some (num (whole n))) = ok n
read_index _ = err invalid_index

abbrev pub read_text : Option Json → Result AlignmentError String
read_text (some (str s)) = ok s
read_text _ = err invalid_details

abbrev pub read_exception : Option Json → Result AlignmentError Bool
read_exception none = ok false
read_exception (some (bool b)) = ok b
read_exception _ = err invalid_exception

abbrev pub upper_bound : ConflictKind → ReviewResult → ℕ
upper_bound finding result = length result.findings
upper_bound test_gap result = length result.test_gaps

abbrev pub in_range : ℕ → ℕ → Result AlignmentError (Unit {0})
in_range bound index = if leb bound index then err out_of_range else ok tt

unfoldable pub read_entry : ReviewResult → Json → Result AlignmentError ConflictEntry
read_entry result (obj fs) = read_kind (lookup "kind" fs) >>= (λ kind.
    read_index (lookup "index" fs) >>= (λ index. read_text (lookup "reason" fs) >>= (λ reason.
      read_text (lookup "violated" fs) >>= (λ violated.
        in_range (upper_bound kind result) index >>= (λ _.
          read_exception (lookup "highSeverityException" fs) >>= (λ exception. ok (record {
            kind = kind;
            index = index;
            reason = reason;
            violated = violated;
            high_severity_exception = exception;
          })))))))
read_entry result _ = err invalid_entry

unfoldable pub read_entries : ReviewResult → Items → Result AlignmentError (List ConflictEntry)
read_entries result nil = ok []
read_entries result (item v vs) =
    let rest = read_entries result vs in read_entry result v >>= (λ c. rest >>= (λ cs. ok (c ∷ cs)))

abbrev pub no_entries : List ConflictEntry → Bool
no_entries [] = true
no_entries (_ ∷ _) = false

-- `aligned` and the conflicts must agree.
abbrev pub outcome : Bool → List ConflictEntry → Result AlignmentError AlignmentOutcome
outcome true [] = ok (record { aligned = true; conflicts = [] })
outcome true (_ ∷ _) = err aligned_with_conflicts
outcome false [] = err conflict_without_entry
outcome false (c ∷ cs) = ok (record { aligned = false; conflicts = c ∷ cs })

unfoldable pub parse_alignment : Fields → ReviewResult → Result AlignmentError AlignmentOutcome
parse_alignment value result = elim (lookup "aligned" value) [
  | some (bool aligned) ↦ elim (lookup "conflicts" value) [
    | some (arr vs) ↦ read_entries result vs >>= outcome aligned
    | _ ↦ err conflicts_not_array
  ]
  | _ ↦ err missing_aligned
]

abbrev pub InRange : ReviewResult → ConflictEntry → Type 0
InRange result c = c.index < upper_bound c.kind result

-- What is known of an accepted answer.
pub record Coherent (result : ReviewResult) (o : AlignmentOutcome) : Type 0 where
  pub agrees : o.aligned ≡ no_entries o.conflicts
  pub all_in_range : All (InRange result) o.conflicts

read_entry-InRange :
    (result : ReviewResult) (v : Json) (c : ConflictEntry)
    → read_entry result v ≡ ok c
    → InRange result c
unfolding read_entry
read_entry-InRange result (obj fs) c h =
    let (kind, _, h₁) = bind_ok (read_kind (lookup "kind" fs)) _ c h in
    let (index, _, h₂) = bind_ok (read_index (lookup "index" fs)) _ c h₁ in
    let (reason, _, h₃) = bind_ok (read_text (lookup "reason" fs)) _ c h₂ in
    let (violated, _, h₄) = bind_ok (read_text (lookup "violated" fs)) _ c h₃ in
    let (_, range, h₅) = bind_ok (in_range (upper_bound kind result) index) _ c h₄ in
    let (exception, _, h₆) = bind_ok (read_exception (lookup "highSeverityException" fs)) _ c h₅ in
    subst (InRange result) (ok_unique _ c h₆) (below index (upper_bound kind result) range)
  where
    below : (i b : ℕ) → in_range b i ≡ ok tt → i < b
    below i b e = elim (Bool-cases (leb b i)) [
      | inl out ↦ absurd (never (rw out at e))
      | inr within ↦ ground arith
    ]
      where
        never : ◌≡◌ {A = Result AlignmentError (Unit {0})} (err out_of_range) (ok tt) → ⊥
        never x = cc
read_entry-InRange result Json.null c h = absurd cc
read_entry-InRange result (bool b) c h = absurd cc
read_entry-InRange result (num n) c h = absurd cc
read_entry-InRange result (str s) c h = absurd cc
read_entry-InRange result (arr vs) c h = absurd cc

read_entries-InRange :
    (result : ReviewResult) (vs : Items) (cs : List ConflictEntry)
    → read_entries result vs ≡ ok cs
    → All (InRange result) cs
unfolding read_entries
read_entries-InRange result nil cs h = subst (All (InRange result)) (ok_unique [] cs h) tt
read_entries-InRange result (item v vs) cs h =
    let (c, first, h₁) = bind_ok (read_entry result v) _ cs h in
    let (rest, others, h₂) = bind_ok (read_entries result vs) _ cs h₁ in
    subst (All (InRange result)) (ok_unique (c ∷ rest) cs h₂)
      (read_entry-InRange result v c first, read_entries-InRange result vs rest others)

outcome-Coherent :
    (result : ReviewResult) (aligned : Bool) (cs : List ConflictEntry) (o : AlignmentOutcome)
    → All (InRange result) cs
    → outcome aligned cs ≡ ok o
    → Coherent result o
outcome-Coherent result true [] o all h =
    subst (Coherent result) (ok_unique _ o h) (record { agrees = refl; all_in_range = tt })
outcome-Coherent result true (c ∷ cs) o all h = absurd cc
outcome-Coherent result false [] o all h = absurd cc
outcome-Coherent result false (c ∷ cs) o all h =
    subst (Coherent result) (ok_unique _ o h) (record { agrees = refl; all_in_range = all })

-- An accepted alignment answer says that the review is aligned just if it lists no conflict, and
-- every conflict that it lists is the index of a finding or of a test gap of the review.
pub parse_alignment-Coherent :
    (value : Fields) (result : ReviewResult) (o : AlignmentOutcome)
    → parse_alignment value result ≡ ok o
    → Coherent result o
unfolding parse_alignment
parse_alignment-Coherent value result o h = by_aligned (lookup "aligned" value) h
  where
    by_conflicts :
        (b : Bool) (c : Option Json)
        → elim c [
          | some (arr vs) ↦ read_entries result vs >>= outcome b
          | _ ↦ err conflicts_not_array
        ]
          ≡ ok o
        → Coherent result o
    by_conflicts b (some (arr vs)) h =
        let (cs, read, h₁) = bind_ok (read_entries result vs) (outcome b) o h in
        outcome-Coherent result b cs o (read_entries-InRange result vs cs read) h₁
    by_conflicts b _ h = absurd cc

    by_aligned :
        (a : Option Json)
        → elim a [
          | some (bool aligned) ↦ elim (lookup "conflicts" value) [
            | some (arr vs) ↦ read_entries result vs >>= outcome aligned
            | _ ↦ err conflicts_not_array
          ]
          | _ ↦ err missing_aligned
        ]
          ≡ ok o
        → Coherent result o
    by_aligned (some (bool b)) h = by_conflicts b (lookup "conflicts" value) h
    by_aligned _ h = absurd cc
