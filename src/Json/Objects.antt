-- ===== src/Json/Objects.antt =====
-- Reading properties after assignments.
use dsh_codex_workflow.Common.{
  String, subst, ◌≡◌, refl, ◌∙◌, true, Option, none, some, inl, inr, arith, if◌then◌else◌, str_eq,
  str_eq_iff, Bool-cases,
}
use dsh_codex_workflow.Json.{Json, Fields, empty, field, lookup, put, assign, Distinct}

pub lookup-put :
    (j k : String) (v : Json) (fs : Fields)
    → lookup j (put k v fs) ≡ (if str_eq k j then some v else lookup j fs)
unfolding lookup put
lookup-put j k v empty = refl
lookup-put j k v (field n w rest) = elim (Bool-cases (str_eq n k)) [
  | inl hit ↦ elim (Bool-cases (str_eq n j)) [
    | inl h ↦ ground (arith, str_eq_iff n k, str_eq_iff n j, str_eq_iff k j)
    | inr h ↦ ground (arith, str_eq_iff n k, str_eq_iff n j, str_eq_iff k j)
  ]
  | inr miss ↦ elim (Bool-cases (str_eq n j)) [
    | inl h ↦ ground (arith, str_eq_iff n k, str_eq_iff n j, str_eq_iff k j, lookup-put j k v rest)
    | inr h ↦ ground (arith, lookup-put j k v rest)
  ]
]

pub put-Distinct : (k : String) (v : Json) (fs : Fields) → Distinct fs → Distinct (put k v fs)
unfolding put lookup
put-Distinct k v empty d = (refl, tt)
put-Distinct k v (field n w rest) d = elim (Bool-cases (str_eq n k)) [
  | inl hit ↦ rw (hit, put) d
  | inr miss ↦
      rw (miss, put)
        (
          lookup-put n k v rest ∙ ground (arith, str_eq_iff n k, str_eq_iff k n),
          put-Distinct k v rest d.1,
        )
]

abbrev pub or_else : Option Json → Option Json → Option Json
or_else none y = y
or_else (some x) y = some x

-- `Object.assign` lets the source win.
pub lookup-assign :
    (k : String) (target source : Fields)
    → Distinct source
    → lookup k (assign target source) ≡ or_else (lookup k source) (lookup k target)
unfolding assign lookup
lookup-assign k target empty d = refl
lookup-assign k target (field n v rest) d =
    lookup-assign k (put n v target) rest d.1 ∙ elim (Bool-cases (str_eq n k)) [
      | inl hit ↦ ground (arith, lookup-put k n v target, gone hit)
      | inr miss ↦ ground (arith, lookup-put k n v target)
    ]
  where
    gone : str_eq n k ≡ true → lookup k rest ≡ none
    gone hit = subst (λ x. lookup x rest ≡ none) ((str_eq_iff n k).0 hit) d.0
