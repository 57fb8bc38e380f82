-- ===== src/Schema/Flattening.antt =====
-- The groups of properties of src/state/workflow-schema.ts, distributed and put together again.
use dsh_codex_workflow.Common.{
  String, subst, ◌≡◌, refl, ap, ◌∙◌, true, false, Option, none, some, inl, inr, arith,
  if◌then◌else◌, str_eq, str_eq_iff, Bool-cases,
}
use dsh_codex_workflow.Json.{Json, Fields, empty, field, lookup, assign, Distinct}
use dsh_codex_workflow.Json.Objects.{lookup-put, put-Distinct, or_else, lookup-assign}
use dsh_codex_workflow.Schema.{
  Group, identity, planning, execution, review, submission, bridge, desktop, extensions, same_group,
  group_of, Groups, add_field, distribute, envelope, flatten,
}

pub add-Distinct :
    (g h : Group) (k : String) (v : Json) (gs : Groups)
    → Distinct (gs h)
    → Distinct (add_field g k v gs h)
unfolding add_field
add-Distinct g h k v gs d = elim (Bool-cases (same_group g h)) [
  | inl hit ↦ rw (hit, add_field) (put-Distinct k v (gs h) d)
  | inr miss ↦ rw (miss, add_field) d
]

pub distribute-Distinct :
    (h : Group) (fs : Fields) (gs : Groups)
    → ((h : Group) → Distinct (gs h))
    → Distinct (distribute fs gs h)
unfolding distribute
distribute-Distinct h empty gs d = d h
distribute-Distinct h (field k v rest) gs d = distribute-Distinct h rest _ added
  where
    added :
        (g : Group)
        → Distinct ((if str_eq k "schemaVersion" then gs else add_field (group_of k) k v gs) g)
    added g = elim (Bool-cases (str_eq k "schemaVersion")) [
      | inl hit ↦ rw hit (d g)
      | inr miss ↦ rw miss (add-Distinct (group_of k) g k v gs (d g))
    ]

-- What the group `h` holds of the property `j`.
pub lookup-add :
    (j : String) (g h : Group) (k : String) (v : Json) (gs : Groups)
    → lookup j (add_field g k v gs h)
      ≡ (if same_group g h then if str_eq k j then some v else lookup j (gs h) else lookup j (gs h))
unfolding add_field
lookup-add j g h k v gs = ground (arith, lookup-put j k v (gs h))

pub lookup-distribute :
    (j : String) (h : Group) (fs : Fields) (gs : Groups)
    → Distinct fs
    → str_eq j "schemaVersion" ≡ false
    → lookup j (distribute fs gs h) ≡ (
        if same_group (group_of j) h
        then or_else (lookup j fs) (lookup j (gs h))
        else lookup j (gs h))
unfolding distribute lookup
lookup-distribute j h empty gs d ne = ground arith
lookup-distribute j h (field k v rest) gs d ne = elim (Bool-cases (str_eq k "schemaVersion")) [
  | inl version ↦ rw version (lookup-distribute j h rest gs d.1 ne ∙ ground (arith, other version))
  | inr plain ↦ rw plain (
      lookup-distribute j h rest (add_field (group_of k) k v gs) d.1 ne
      ∙ elim (Bool-cases (str_eq k j)) [
        | inl hit ↦ rw (gone hit, lookup-add j (group_of k) h k v gs, hit, same hit) (ground arith)
        | inr miss ↦ rw (lookup-add j (group_of k) h k v gs, miss) (ground arith)
      ])
]
  where
    other : str_eq k "schemaVersion" ≡ true → str_eq k j ≡ false
    other version = elim (Bool-cases (str_eq k j)) [
      | inl hit ↦ absurd (
          ground
            (arith, str_eq_iff k j, str_eq_iff k "schemaVersion", str_eq_iff j "schemaVersion"))
      | inr miss ↦ miss
    ]

    gone : str_eq k j ≡ true → lookup j rest ≡ none
    gone hit = subst (λ x. lookup x rest ≡ none) ((str_eq_iff k j).0 hit) d.0

    same : str_eq k j ≡ true → group_of k ≡ group_of j
    same hit = ap group_of ((str_eq_iff k j).0 hit)

pub or_none : (x : Option Json) → or_else x none ≡ x
or_none none = refl
or_none (some v) = refl

-- One of the groups has the property, and the others have not.
pub one_group :
    (g : Group) (x : Option Json)
    → or_else (if same_group g extensions then x else none) (
        or_else (if same_group g desktop then x else none) (
          or_else (if same_group g bridge then x else none) (
            or_else (if same_group g submission then x else none) (
              or_else (if same_group g review then x else none) (
                or_else (if same_group g execution then x else none) (
                  or_else
                    (if same_group g planning then x else none)
                    (or_else (if same_group g identity then x else none) none)))))))
      ≡ x
one_group identity x = or_none x
one_group planning x = or_none x
one_group execution x = or_none x
one_group review x = or_none x
one_group submission x = or_none x
one_group bridge x = or_none x
one_group desktop x = or_none x
one_group extensions x = or_none x

-- The groups together, if one of them at most holds the property.
pub lookup-flatten :
    (j : String) (g : Group) (gs : Groups) (x : Option Json)
    → ((h : Group) → Distinct (gs h))
    → str_eq j "schemaVersion" ≡ false
    → ((h : Group) → lookup j (gs h) ≡ (if same_group g h then x else none))
    → lookup j (flatten (envelope gs)) ≡ x
unfolding flatten envelope lookup
lookup-flatten j g gs x d ne only =
    rw
      (
        merged extensions _,
        merged desktop _,
        merged bridge _,
        merged submission _,
        merged review _,
        merged execution _,
        merged planning _,
        merged identity _,
      )
      (rw absent (one_group g x))
  where
    absent : str_eq "schemaVersion" j ≡ false
    absent = ground (arith, str_eq_iff "schemaVersion" j, str_eq_iff j "schemaVersion")

    merged :
        (h : Group) (flat : Fields)
        → lookup j (assign flat (gs h))
          ≡ or_else (if same_group g h then x else none) (lookup j flat)
    merged h flat = lookup-assign j flat (gs h) (d h) ∙ rw (only h) refl
