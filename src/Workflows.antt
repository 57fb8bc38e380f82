-- ===== src/Workflows.antt =====
-- Durable workflow rows: `WorkflowRepositorySql` of src/infrastructure/workflow-repository.ts and
-- the retry loop of `update` in src/store.ts.
pub mod Revisions
pub mod Updates
pub mod Cancellation
pub mod Keys
pub mod Loop
mod Tests
use dsh_codex_workflow.Common.{
  ℕ, suc, ◌+◌, String, Bool, true, false, not, ◌&&◌, Option, none, some, List, [], ◌∷◌, ◌++◌, ◌==◌,
  leb, if◌then◌else◌, str_eq,
}
use dsh_codex_workflow.Common.Result.{Result, ok, err, ◌>>=◌}
use dsh_codex_workflow.Common.Table.{get, update_where, count_where, at}
use dsh_codex_workflow.Common.Sort.{sort, before}
use dsh_codex_workflow.Json.{Json, Fields, str, lookup}
use dsh_codex_workflow.Schema.{deserialize_workflow_record}
use dsh_codex_workflow.Schema.Validation.{Error}

pub record WorkflowRow : Type 0 where
  pub id : String
  pub revision : ℕ
  pub record_json : String
  pub updated_at : ℕ

abbrev pub id_of : WorkflowRow → String
id_of w = w.id

abbrev pub load_workflow : String → List WorkflowRow → Option WorkflowRow
load_workflow id ws = get id_of id ws

-- `ORDER BY updated_at DESC`.
pub list_workflows : List WorkflowRow → List WorkflowRow
list_workflows ws = sort (λ a b. leb b.updated_at a.updated_at) ws

abbrev pub revision_or_zero : Option WorkflowRow → ℕ
revision_or_zero none = 0
revision_or_zero (some w) = w.revision

abbrev pub written : ℕ → String → ℕ → WorkflowRow → WorkflowRow
written revision json now w = record w { revision = revision; record_json = json; updated_at = now }

abbrev pub any_row : WorkflowRow → Bool
any_row w = true

-- `INSERT … ON CONFLICT(id) DO UPDATE`.
unfoldable pub put_row : String → ℕ → String → ℕ → List WorkflowRow → List WorkflowRow
put_row id revision json now ws = elim (load_workflow id ws) [
  | none ↦ ws ++ record { id = id; revision = revision; record_json = json; updated_at = now } ∷ []
  | some _ ↦ update_where (at id_of id any_row) (written revision json now) ws
]

unfoldable pub save_workflow : String → String → ℕ → List WorkflowRow → List WorkflowRow
unfolding put_row
save_workflow id json now ws = put_row id (revision_or_zero (load_workflow id ws) + 1) json now ws

unfoldable pub insert_workflow_if_absent :
    String → String → ℕ → List WorkflowRow → List WorkflowRow × Bool
insert_workflow_if_absent id json now ws = elim (load_workflow id ws) [
  | none ↦ (ws ++ record { id = id; revision = 1; record_json = json; updated_at = now } ∷ [], true)
  | some _ ↦ (ws, false)
]

pub data Kind : Type 0 where
  committed suppressed retry : Kind

pub record Outcome {ℓ} (A : Type ℓ) : Type ℓ where
  pub kind : Kind
  pub result : Option A
  pub revision : ℕ
  pub record_json : String

pub data Failure : Type 0 where
  unknown_workflow : String → Failure
  no_active_transaction : Failure
  not_json : Failure
  invalid_record : Error → Failure
  mutation_threw : String → Failure

-- The `catch` block rolls back and throws the error again. SQLite refuses to roll back where no
-- transaction is active, and that refusal is then thrown in place of the error.
abbrev pub caught : Bool → Failure → Failure
caught true e = e
caught false e = no_active_transaction

-- What a mutation answers: a result, and the record to store if there is one.
abbrev pub Mutation {ℓ} : Type ℓ → Type ℓ
Mutation A = Fields → ℕ → Result Failure (A × Option String)

-- `raw.phase === "cancelled"`.
abbrev pub is_cancelled : Fields → Bool
is_cancelled raw = elim (lookup "phase" raw) [ some (str s) ↦ str_eq s "cancelled" | _ ↦ false ]

module _ {ℓ} {A : Type ℓ} where
  -- The end of the transaction, after the mutation.
  unfoldable pub commit :
      WorkflowRow → ℕ → List WorkflowRow → A × Option String → List WorkflowRow × Outcome A
  commit w now ws (result, json) = elim json [
    | none ↦ (
      ws,
      record {
        kind = committed;
        result = some result;
        revision = w.revision;
        record_json = w.record_json;
      },
    )
    | some text ↦
        let p = at id_of w.id (λ x. x.revision == w.revision) in
        if count_where p ws == 1
        then (
          update_where p (written (w.revision + 1) text now) ws,
          record {
            kind = committed;
            result = some result;
            revision = w.revision + 1;
            record_json = text;
          },
        )
        else (
          ws,
          record {
            kind = retry;
            result = none;
            revision = w.revision;
            record_json = w.record_json;
          },
        )
  ]

  -- The transaction on a row that exists, once its record is parsed.
  unfoldable pub update_row :
      WorkflowRow
      → ℕ
      → Mutation A
      → Bool
      → ℕ
      → List WorkflowRow
      → Fields
      → Result Failure (List WorkflowRow × Outcome A)
  update_row w expected mutate ignore_cancelled now ws raw =
      if not ignore_cancelled && is_cancelled raw
      then ok (
        ws,
        record {
          kind = suppressed;
          result = none;
          revision = w.revision;
          record_json = w.record_json;
        },
      )
      else if w.revision == expected
      then mutate raw w.revision >>= (λ answer. ok (commit w now ws answer))
      else ok (
        ws,
        record { kind = retry; result = none; revision = w.revision; record_json = w.record_json },
      )

-- `JSON.parse` is `parse_json`.
module _ (valid_birth trimmed : String → Bool) (parse_json : String → Option Json) where
  unfoldable pub parse_workflow_json : String → Result Failure Fields
  parse_workflow_json text = elim (parse_json text) [
    | none ↦ err not_json
    | some j ↦ elim (deserialize_workflow_record valid_birth trimmed j) [
      | ok fs ↦ ok fs
      | err e ↦ err (invalid_record e)
    ]
  ]

  unfoldable pub compare_and_update_workflow {ℓ} :
      {A : Type ℓ}
      → String
      → ℕ
      → Mutation A
      → Bool
      → ℕ
      → List WorkflowRow
      → Result Failure (List WorkflowRow × Outcome A)
  compare_and_update_workflow id expected mutate ignore_cancelled now ws =
      elim (load_workflow id ws) [
        | none ↦ err (caught false (unknown_workflow id))
        | some w ↦
            parse_workflow_json w.record_json
            >>= update_row w expected mutate ignore_cancelled now ws
      ]
