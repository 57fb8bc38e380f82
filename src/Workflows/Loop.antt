-- ===== src/Workflows/Loop.antt =====
-- The loop of `WorkflowStore.update` in src/store.ts: load the row, try a compare-and-update on its
-- revision, and begin again if another writer was faster. A round is what the other writers do
-- between the two.
use dsh_codex_workflow.Common.{
  ℕ, String, ◌≡◌, refl, sym, ap, subst, ◌∙◌, inl, inr, Bool, true, false, Option, none, some, List,
  [], ◌∷◌, ◌++◌, if◌then◌else◌, Bool-cases, Option-cases, some_unique,
}
use dsh_codex_workflow.Common.Result.{Result, ok, err, answer_cases}
use dsh_codex_workflow.Json.{Json}
use dsh_codex_workflow.Workflows.{
  WorkflowRow, id_of, load_workflow, Kind, retry, Outcome, Failure, unknown_workflow, Mutation,
  compare_and_update_workflow,
}
use dsh_codex_workflow.Workflows.Revisions.{stopped, outrun, applied}
use dsh_codex_workflow.Common.Table.{Unique, key-get}
use dsh_codex_workflow.Workflows.Updates.{Call, run, cas_cases}
use dsh_codex_workflow.Workflows.Keys.{commit-committed, cas-Unique, run-Unique}

abbrev is_retry : Kind → Bool
is_retry retry = true
is_retry _ = false

module _ {ℓ} {A : Type ℓ} (valid_birth trimmed : String → Bool)
    (parse_json : String → Option Json) where
  -- One try: the row that was loaded, then the table that the transaction finds.
  pub attempt :
      String
      → Mutation A
      → Bool
      → ℕ
      → WorkflowRow
      → List WorkflowRow
      → Result Failure (List WorkflowRow × Outcome A)
  attempt id mutate ignore now loaded ws =
      compare_and_update_workflow valid_birth trimmed parse_json id loaded.revision mutate ignore
        now ws

  -- `none` when the rounds are used up and the loop is still trying.
  pub update :
      String
      → Mutation A
      → Bool
      → ℕ
      → List (List Call)
      → List WorkflowRow
      → Option (Result Failure (List WorkflowRow × Outcome A))
  unfolding attempt
  update id mutate ignore now [] ws = none
  update id mutate ignore now (others ∷ rounds) ws =
      let found = run valid_birth trimmed parse_json others ws in
      let again = λ (t : List WorkflowRow). update id mutate ignore now rounds t in
      elim (load_workflow id ws) [
        | none ↦ some (err (unknown_workflow id))
        | some loaded ↦ elim (attempt id mutate ignore now loaded found) [
          | err e ↦ some (err e)
          | ok (ws', out) ↦ if is_retry out.kind then again ws' else some (ok (ws', out))
        ]
      ]

  abbrev pub Answers : Option (Result Failure (List WorkflowRow × Outcome A)) → Type ℓ
  Answers answer = (r : Result Failure (List WorkflowRow × Outcome A)) × (answer ≡ some r)

  -- A try on the row that was loaded is not told to try again.
  not_retried :
      (id : String) (mutate : Mutation A) (ignore : Bool) (now : ℕ) (w : WorkflowRow)
      (ws ws' : List WorkflowRow) (out : Outcome A)
      → Unique id_of ws
      → load_workflow id ws ≡ some w
      → attempt id mutate ignore now w ws ≡ ok (ws', out)
      → is_retry out.kind ≡ false
  unfolding attempt
  not_retried id mutate ignore now w ws ws' out u found h =
      let (x, e, raw, parsed, ending) =
        cas_cases valid_birth trimmed parse_json id w.revision mutate ignore now ws ws' out h in
      elim ending [
        | stopped s t kind ↦ rw kind refl
        | outrun s stale t kind ↦
            absurd (stale (ap (λ y. y.revision) (some_unique (load_workflow id ws) x w e found)))
        | applied answer s same m done ↦
            let mine = subst (λ k. load_workflow k ws ≡ some x) (sym (key-get id_of id ws e)) e in
            rw (sym (ap (λ p. p.1.kind) done) ∙ commit-committed x now answer ws u mine) refl
      ]

  -- A round in which no other writer comes between ends the loop.
  quiet_round :
      (id : String) (mutate : Mutation A) (ignore : Bool) (now : ℕ) (rounds : List (List Call))
      (ws : List WorkflowRow)
      → Unique id_of ws
      → Answers (update id mutate ignore now ([] ∷ rounds) ws)
  unfolding update run
  quiet_round id mutate ignore now rounds ws u = elim (Option-cases (load_workflow id ws)) [
    | inl gone ↦ (err (unknown_workflow id), rw (gone, update) refl)
    | inr (w, found) ↦ elim (answer_cases (attempt id mutate ignore now w ws)) [
      | inl ((ws', out), h) ↦ (
        ok (ws', out),
        rw (found, h, not_retried id mutate ignore now w ws ws' out u found h, update) refl,
      )
      | inr (e, h) ↦ (err e, rw (found, h, update) refl)
    ]
  ]

  -- The loop ends: whatever the other writers do in the rounds before, it answers (with a record or
  -- an error) in the first round in which none of them comes between.
  pub update-Answers :
      (id : String) (mutate : Mutation A) (ignore : Bool) (now : ℕ)
      (before rounds : List (List Call)) (ws : List WorkflowRow)
      → Unique id_of ws
      → Answers (update id mutate ignore now (before ++ [] ∷ rounds) ws)
  unfolding update
  update-Answers id mutate ignore now [] rounds ws u = quiet_round id mutate ignore now rounds ws u
  update-Answers id mutate ignore now (others ∷ before) rounds ws u =
      elim (Option-cases (load_workflow id ws)) [
        | inl gone ↦ (err (unknown_workflow id), rw (gone, update) refl)
        | inr (w, found) ↦ elim (answer_cases (attempt id mutate ignore now w table)) [
          | inr (e, h) ↦ (err e, rw (found, h, update) refl)
          | inl ((ws', out), h) ↦ elim (Bool-cases (is_retry out.kind)) [
            | inl again ↦
                let (r, e) =
                  update-Answers id mutate ignore now before rounds ws' (next_unique w ws' out h) in
                (r, rw (found, h, again, update) e)
            | inr ends ↦ (ok (ws', out), rw (found, h, ends, update) refl)
          ]
        ]
      ]
    where
      table : List WorkflowRow
      table = run valid_birth trimmed parse_json others ws

      next_unique :
          (w : WorkflowRow) (ws' : List WorkflowRow) (out : Outcome A)
          → attempt id mutate ignore now w table ≡ ok (ws', out)
          → Unique id_of ws'
      next_unique w ws' out h =
          cas-Unique valid_birth trimmed parse_json id w.revision mutate ignore now table ws' out
            (run-Unique valid_birth trimmed parse_json others ws u) h
