-- ===== src/Workflows/Keys.antt =====
-- The table of src/infrastructure/workflow-repository.ts has one row for an id.
use dsh_codex_workflow.Common.{
  ℕ, ◌+◌, String, ◌≡◌, refl, ap, subst, ◌∙◌, inl, inr, Bool, Option, none, some, List, [], ◌∷◌,
  arith, ◌==◌, Bool-cases, Option-cases,
}
use dsh_codex_workflow.Common.Result.{ok, answer_cases}
use dsh_codex_workflow.Common.Table.{
  count_where, Unique, at, Unique-append_one, Unique-update, count-at,
}
use dsh_codex_workflow.Json.{Json}
use dsh_codex_workflow.Workflows.{
  WorkflowRow, id_of, load_workflow, revision_or_zero, written, any_row, put_row, save_workflow,
  insert_workflow_if_absent, committed, Outcome, Mutation, commit, compare_and_update_workflow,
}
use dsh_codex_workflow.Workflows.Revisions.{stopped, outrun, applied}
use dsh_codex_workflow.Workflows.Updates.{
  Call, saves, inserts, updates, after, step, run, cas_cases,
}

save-Unique :
    (id json : String) (now : ℕ) (ws : List WorkflowRow)
    → Unique id_of ws
    → Unique id_of (save_workflow id json now ws)
unfolding save_workflow
save-Unique id json now ws u = put-Unique (revision_or_zero (load_workflow id ws) + 1)
  where
    put-Unique : (n : ℕ) → Unique id_of (put_row id n json now ws)
    put-Unique n = elim (Option-cases (load_workflow id ws)) [
      | inl fresh ↦
          rw (fresh, put_row)
            (Unique-append_one id_of ws
              (record { id = id; revision = n; record_json = json; updated_at = now }) u fresh)
      | inr (old, found) ↦
          rw (found, put_row)
            (Unique-update id_of (at id_of id any_row) (written n json now) (λ r. refl) ws u)
    ]

insert-Unique :
    (id json : String) (now : ℕ) (ws : List WorkflowRow)
    → Unique id_of ws
    → Unique id_of (insert_workflow_if_absent id json now ws).0
unfolding insert_workflow_if_absent
insert-Unique id json now ws u = elim (Option-cases (load_workflow id ws)) [
  | inl fresh ↦
      rw (fresh, insert_workflow_if_absent)
        (Unique-append_one id_of ws
          (record { id = id; revision = 1; record_json = json; updated_at = now }) u fresh)
  | inr (old, found) ↦ rw (found, insert_workflow_if_absent) u
]

module _ {ℓ} {A : Type ℓ} where
  pub commit-Unique :
      (w : WorkflowRow) (now : ℕ) (answer : A × Option String) (ws : List WorkflowRow)
      → Unique id_of ws
      → Unique id_of (commit w now ws answer).0
  unfolding commit
  commit-Unique w now (result, none) ws u = u
  commit-Unique w now (result, some text) ws u =
      elim (Bool-cases (count_where (at id_of w.id (λ x. x.revision == w.revision)) ws == 1)) [
        | inl one ↦ rw one (
            Unique-update id_of (at id_of w.id (λ x. x.revision == w.revision))
              (written (w.revision + 1) text now) (λ r. refl) ws u)
        | inr none_hit ↦ rw none_hit u
      ]

  -- The conditional UPDATE finds the row that its transaction has read.
  pub commit-committed :
      (w : WorkflowRow) (now : ℕ) (answer : A × Option String) (ws : List WorkflowRow)
      → Unique id_of ws
      → load_workflow w.id ws ≡ some w
      → (commit w now ws answer).1.kind ≡ committed
  unfolding commit
  commit-committed w now (result, none) ws u e = refl
  commit-committed w now (result, some text) ws u e = rw one refl
    where
      one : count_where (at id_of w.id (λ x. x.revision == w.revision)) ws ≡ 1
      one = count-at id_of w.id (λ x. x.revision == w.revision) ws u ∙ rw e (ground arith)

module _ (valid_birth trimmed : String → Bool) (parse_json : String → Option Json) where
  pub cas-Unique {ℓ} :
      {A : Type ℓ} (id : String) (expected : ℕ) (mutate : Mutation A) (ignore : Bool) (now : ℕ)
      (ws ws' : List WorkflowRow) (out : Outcome A)
      → Unique id_of ws
      → compare_and_update_workflow valid_birth trimmed parse_json id expected mutate ignore now ws
        ≡ ok (ws', out)
      → Unique id_of ws'
  cas-Unique id expected mutate ignore now ws ws' out u h =
      let (x, found, raw, parsed, ending) =
        cas_cases valid_birth trimmed parse_json id expected mutate ignore now ws ws' out h in
      elim ending [
        | stopped s t kind ↦ rw t u
        | outrun s n t kind ↦ rw t u
        | applied answer s same m done ↦
            subst (Unique id_of) (ap (λ p. p.0) done) (commit-Unique x now answer ws u)
      ]

  step-Unique :
      (c : Call) (ws : List WorkflowRow)
      → Unique id_of ws
      → Unique id_of (step valid_birth trimmed parse_json c ws)
  unfolding step
  step-Unique (saves id json now) ws u = save-Unique id json now ws u
  step-Unique (inserts id json now) ws u = insert-Unique id json now ws u
  step-Unique (updates id expected mutate ignore now) ws u =
      elim (answer_cases (
        compare_and_update_workflow valid_birth trimmed parse_json id expected mutate ignore now
          ws)) [
            | inl ((ws', out), h) ↦
                rw (h, after) (cas-Unique id expected mutate ignore now ws ws' out u h)
            | inr (x, h) ↦ rw (h, after) u
          ]

  pub run-Unique :
      (cs : List Call) (ws : List WorkflowRow)
      → Unique id_of ws
      → Unique id_of (run valid_birth trimmed parse_json cs ws)
  unfolding run
  run-Unique [] ws u = u
  run-Unique (c ∷ cs) ws u =
      run-Unique cs (step valid_birth trimmed parse_json c ws) (step-Unique c ws u)
