-- ===== src/Schema/RoundTrip.antt =====
-- Reading back what src/state/workflow-schema.ts stores.
use dsh_codex_workflow.Common.{
  ◌⊎◌, String, subst, ◌≡◌, refl, sym, ap, ◌∙◌, Bool, false, some, inl, inr, str_eq,
}
use dsh_codex_workflow.Common.Result.{Result, ok, err, ◌>>=◌, bind_ok}
use dsh_codex_workflow.Json.{object, Json, Fields, whole, num, obj, lookup, put, Distinct}
use dsh_codex_workflow.Json.Objects.{put-Distinct}
use dsh_codex_workflow.Schema.Validation.{
  Error, unsupported_version, validate_terminal_cleanup, validate-retry,
}
use dsh_codex_workflow.Schema.{
  Version, second, first, unknown, version_of, group_of, Groups, no_fields, distribute, envelope,
  flatten, serialize_workflow_record, deserialize_workflow_record, migrate_workflow_record,
}
use dsh_codex_workflow.Schema.Flattening.{
  distribute-Distinct, lookup-distribute, or_none, lookup-flatten,
}

-- What is read back of a record.
abbrev pub ReadsBack : Fields → Result Error Fields → Type 0
ReadsBack flat answer =
    (back : Fields) × (answer ≡ ok back)
    × ((j : String) → str_eq j "schemaVersion" ≡ false → lookup j back ≡ lookup j flat)

-- A stored record says version 2.
envelope-version : (gs : Groups) → lookup "schemaVersion" (envelope gs) ≡ some (num (whole 2))
unfolding envelope lookup
envelope-version gs = refl

-- A checked record is the record.
from_ok :
    (r : Result Error (Unit {0})) (x y : Fields)
    → ◌≡◌ {A = Result Error Fields} (r >>= λ _. ok x) (ok y)
    → (r ≡ ok tt) × (x ≡ y)
from_ok (ok tt) x y h = (refl, cc)
from_ok (err e) x y h = absurd cc

unknown_version :
    (v : Json) (x : Fields) → ◌≡◌ {A = Result Error Fields} (err (unsupported_version v)) (ok x) → ⊥
unknown_version v x h = cc

version_cases : (v : Version) → (v ≡ second) ⊎ ((v ≡ first) ⊎ ((j : Json) × (v ≡ unknown j)))
version_cases second = inl refl
version_cases first = inr (inl refl)
version_cases (unknown j) = inr (inr (j, refl))

module _ (valid_birth trimmed : String → Bool) where
  -- The stored groups, read back, have the record's properties.
  stored-fields :
      (flat : Fields) (j : String)
      → Distinct flat
      → str_eq j "schemaVersion" ≡ false
      → lookup j (flatten (envelope (distribute flat no_fields))) ≡ lookup j flat
  unfolding lookup
  stored-fields flat j d ne =
      lookup-flatten j (group_of j) (distribute flat no_fields) (lookup j flat)
        (λ h. distribute-Distinct h flat no_fields (λ g. tt)) ne
        (λ h. lookup-distribute j h flat no_fields d ne ∙ rw (or_none (lookup j flat)) refl)

  -- A record that is stored is read back with the same properties, its version apart.
  pub serialize-deserialize :
      (flat stored : Fields)
      → Distinct flat
      → serialize_workflow_record valid_birth trimmed flat ≡ ok stored
      → ReadsBack flat (deserialize_workflow_record valid_birth trimmed (obj stored))
  unfolding serialize_workflow_record deserialize_workflow_record
  serialize-deserialize flat stored d e =
      let (valid, same) =
        from_ok (validate_terminal_cleanup valid_birth trimmed flat)
          (envelope (distribute flat no_fields)) stored e in
      let reads : (j : String)
          → str_eq j "schemaVersion" ≡ false
          → lookup j (flatten stored) ≡ lookup j flat =
        λ j ne.
          subst (λ x. lookup j (flatten x) ≡ lookup j flat) same (stored-fields flat j d ne) in
      let accepted =
        validate-retry valid_birth trimmed (flatten stored) flat (reads "retryState" refl)
        ∙ valid in
      let version =
        subst (λ x. lookup "schemaVersion" x ≡ some (num (whole 2))) same
          (envelope-version (distribute flat no_fields)) in
      (flatten stored, rw (version, accepted, deserialize_workflow_record) refl, reads)

  -- What is stored says version 2.
  serialize-version :
      (flat stored : Fields)
      → serialize_workflow_record valid_birth trimmed flat ≡ ok stored
      → version_of (lookup "schemaVersion" stored) ≡ second
  unfolding serialize_workflow_record
  serialize-version flat stored e =
      let (_, same) =
        from_ok (validate_terminal_cleanup valid_birth trimmed flat)
          (envelope (distribute flat no_fields)) stored e in
      ap version_of (
        subst (λ x. lookup "schemaVersion" x ≡ some (num (whole 2))) same
          (envelope-version (distribute flat no_fields)))

  migrate-second :
      (v back : Fields)
      → version_of (lookup "schemaVersion" v) ≡ second
      → deserialize_workflow_record valid_birth trimmed (obj v) ≡ ok back
      → migrate_workflow_record valid_birth trimmed (obj v) ≡ ok v
  unfolding migrate_workflow_record
  migrate-second v back h e = rw (h, e, migrate_workflow_record) refl

  -- Another version is refused.
  deserialize-unknown :
      (raw v : Json)
      → version_of (lookup "schemaVersion" (object raw)) ≡ unknown v
      → deserialize_workflow_record valid_birth trimmed raw ≡ err (unsupported_version v)
  unfolding deserialize_workflow_record
  deserialize-unknown raw v h = rw (h, deserialize_workflow_record) refl

  migrate-unknown :
      (raw v : Json)
      → version_of (lookup "schemaVersion" (object raw)) ≡ unknown v
      → migrate_workflow_record valid_birth trimmed raw ≡ err (unsupported_version v)
  unfolding migrate_workflow_record
  migrate-unknown raw v h = rw (h, deserialize-unknown raw v h, migrate_workflow_record) refl

  -- A first-version record is stored as it is read.
  migrate-first :
      (raw : Json) (migrated : Fields)
      → Distinct (object raw)
      → version_of (lookup "schemaVersion" (object raw)) ≡ first
      → (deserialize_workflow_record valid_birth trimmed raw
          >>= serialize_workflow_record valid_birth trimmed)
        ≡ ok migrated
      → migrate_workflow_record valid_birth trimmed (obj migrated) ≡ ok migrated
  unfolding deserialize_workflow_record
  migrate-first raw migrated d h e =
      let (flat, read, kept) =
        bind_ok (deserialize_workflow_record valid_birth trimmed raw)
          (serialize_workflow_record valid_birth trimmed) migrated e in
      let (_, same) =
        from_ok
          (validate_terminal_cleanup valid_birth trimmed
            (put "schemaVersion" (num (whole 1)) (object raw)))
          (put "schemaVersion" (num (whole 1)) (object raw)) flat
          (sym (rw (h, deserialize_workflow_record) refl) ∙ read) in
      let distinct =
        subst Distinct same (put-Distinct "schemaVersion" (num (whole 1)) (object raw) d) in
      let (back, again, _) = serialize-deserialize flat migrated distinct kept in
      migrate-second migrated back (serialize-version flat migrated kept) again

  -- The migration is idempotent: a migrated record is migrated to itself.
  pub migrate_again :
      (raw : Json) (migrated : Fields)
      → Distinct (object raw)
      → migrate_workflow_record valid_birth trimmed raw ≡ ok migrated
      → migrate_workflow_record valid_birth trimmed (obj migrated) ≡ ok migrated
  unfolding migrate_workflow_record deserialize_workflow_record
  migrate_again raw migrated d e =
      elim (version_cases (version_of (lookup "schemaVersion" (object raw)))) [
        | inl is_second ↦
            let (back, read, same) =
              bind_ok (deserialize_workflow_record valid_birth trimmed raw) (λ _. ok (object raw))
                migrated (sym (rw (is_second, migrate_workflow_record) refl) ∙ e) in
            let equal : object raw ≡ migrated = cc in
            subst (λ v. migrate_workflow_record valid_birth trimmed (obj v) ≡ ok v) equal
              (migrate-second (object raw) back is_second read)
        | inr (inl is_first) ↦
            migrate-first raw migrated d is_first
              (sym (rw (is_first, migrate_workflow_record) refl) ∙ e)
        | inr (inr (v, is_unknown)) ↦
            absurd (unknown_version v migrated (sym (migrate-unknown raw v is_unknown) ∙ e))
      ]
