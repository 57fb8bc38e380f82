-- ===== src/Workflows/Updates.antt =====
-- What a writer of src/infrastructure/workflow-repository.ts may rely on.
use dsh_codex_workflow.Common.{
  ℕ, ◌+◌, ◌<◌, String, ◌≡◌, refl, sym, ap, subst, ◌∙◌, inl, inr, Bool, true, false, Option, none,
  some, List, [], ◌∷◌, arith, ◌==◌, str_eq_refl, Bool-cases, Option-cases, some_unique,
}
use dsh_codex_workflow.Common.Result.{Result, ok, err, bind_ok, answer_cases}
use dsh_codex_workflow.Common.Table.{count_where, at, key-get, get-update}
use dsh_codex_workflow.Json.{Json, Fields}
use dsh_codex_workflow.Workflows.{
  WorkflowRow, id_of, load_workflow, written, save_workflow, insert_workflow_if_absent, Kind,
  committed, suppressed, retry, Outcome, Failure, no_active_transaction, Mutation,
  parse_workflow_json, commit, update_row, compare_and_update_workflow,
}
use dsh_codex_workflow.Workflows.Revisions.{
  Grows, save-Grows, insert-Grows, commit-Grows, Ending, stopped, outrun, applied, update_row_cases,
}

-- The calls of the repository that write a row. `pruneApply` of src/coordination.ts, which deletes
-- rows, is no call of the repository.
pub data Call : Type 0 where
  saves : String → String → ℕ → Call
  inserts : String → String → ℕ → Call
  updates : String → ℕ → Mutation (Unit {0}) → Bool → ℕ → Call

-- The table after a call that may throw: the transaction is rolled back.
abbrev pub after {ℓ} :
    {A : Type ℓ} → List WorkflowRow → Result Failure (List WorkflowRow × A) → List WorkflowRow
after ws (ok (ws', _)) = ws'
after ws (err _) = ws

abbrev pub is_committed : Kind → Bool
is_committed committed = true
is_committed _ = false

abbrev pub stores {ℓ} : {A : Type ℓ} → A × Option String → Bool
stores (_, none) = false
stores (_, some _) = true

not_suppressed : {k : Kind} → k ≡ suppressed → k ≡ committed → ⊥
not_suppressed a b = cc

not_retry : {k : Kind} → k ≡ retry → k ≡ committed → ⊥
not_retry a b = cc

module _ (valid_birth trimmed : String → Bool) (parse_json : String → Option Json) where
  unfoldable pub step : Call → List WorkflowRow → List WorkflowRow
  step (saves id json now) ws = save_workflow id json now ws
  step (inserts id json now) ws = (insert_workflow_if_absent id json now ws).0
  step (updates id expected mutate ignore now) ws =
      after ws (
        compare_and_update_workflow valid_birth trimmed parse_json id expected mutate ignore now ws)

  unfoldable pub run : List Call → List WorkflowRow → List WorkflowRow
  run [] ws = ws
  run (c ∷ cs) ws = run cs (step c ws)

  -- A compare-and-update that does not throw has read the row.
  pub cas_cases {ℓ} :
      {A : Type ℓ} (id : String) (expected : ℕ) (mutate : Mutation A) (ignore : Bool) (now : ℕ)
      (ws ws' : List WorkflowRow) (out : Outcome A)
      → compare_and_update_workflow valid_birth trimmed parse_json id expected mutate ignore now ws
        ≡ ok (ws', out)
      → (w : WorkflowRow) × (load_workflow id ws ≡ some w)
        × (raw : Fields) × (parse_workflow_json valid_birth trimmed parse_json w.record_json
            ≡ ok raw)
        × Ending w expected mutate ignore now ws raw ws' out
  unfolding compare_and_update_workflow
  cas_cases {A = A} id expected mutate ignore now ws ws' out h =
      elim (Option-cases (load_workflow id ws)) [
        | inl gone ↦ absurd (no_error (rw (gone, compare_and_update_workflow) at h))
        | inr (w, found) ↦
            let (raw, parsed, rest) =
              bind_ok (parse_workflow_json valid_birth trimmed parse_json w.record_json)
                (update_row w expected mutate ignore now ws) (ws', out)
                (rw (found, compare_and_update_workflow) at h) in
            (
              w,
              found,
              raw,
              parsed,
              update_row_cases w expected mutate ignore now ws raw ws' out rest,
            )
      ]
    where
      no_error :
          ◌≡◌ {A = Result Failure (List WorkflowRow × Outcome A)}
            (err no_active_transaction)
            (ok (ws', out))
          → ⊥
      no_error e = cc

  pub cas-Grows {ℓ} :
      {A : Type ℓ} (id : String) (expected : ℕ) (mutate : Mutation A) (ignore : Bool) (now : ℕ)
      (ws ws' : List WorkflowRow) (out : Outcome A) (k : String) (w : WorkflowRow)
      → compare_and_update_workflow valid_birth trimmed parse_json id expected mutate ignore now ws
        ≡ ok (ws', out)
      → load_workflow k ws ≡ some w
      → Grows k w ws'
  cas-Grows id expected mutate ignore now ws ws' out k w h e =
      let (x, found, raw, parsed, ending) = cas_cases id expected mutate ignore now ws ws' out h in
      elim ending [
        | stopped s t kind ↦ (w, rw t e, omega arith)
        | outrun s n t kind ↦ (w, rw t e, omega arith)
        | applied answer s same m done ↦
            subst (Grows k w) (ap (λ p. p.0) done) (commit-Grows x now answer k w ws e)
      ]

  step-Grows :
      (c : Call) (k : String) (w : WorkflowRow) (ws : List WorkflowRow)
      → load_workflow k ws ≡ some w
      → Grows k w (step c ws)
  unfolding step
  step-Grows (saves id json now) k w ws e = save-Grows id json now k w ws e
  step-Grows (inserts id json now) k w ws e = insert-Grows id json now k w ws e
  step-Grows (updates id expected mutate ignore now) k w ws e =
      elim (answer_cases (
        compare_and_update_workflow valid_birth trimmed parse_json id expected mutate ignore now
          ws)) [
            | inl ((ws', out), h) ↦
                rw (h, after) (cas-Grows id expected mutate ignore now ws ws' out k w h e)
            | inr (x, h) ↦ rw (h, after) (w, e, omega arith)
          ]

  pub run-Grows :
      (cs : List Call) (k : String) (w : WorkflowRow) (ws : List WorkflowRow)
      → load_workflow k ws ≡ some w
      → Grows k w (run cs ws)
  unfolding run
  run-Grows [] k w ws e = (w, e, omega arith)
  run-Grows (c ∷ cs) k w ws e =
      let (w₁, e₁, le₁) = step-Grows c k w ws e in
      let (w₂, e₂, le₂) = run-Grows cs k w₁ (step c ws) e₁ in (w₂, e₂, omega (arith, le₁, le₂))

  -- A stored answer has the next revision in the table.
  commit-stored {ℓ} :
      {A : Type ℓ} (w : WorkflowRow) (now : ℕ) (answer : A × Option String)
      (ws ws' : List WorkflowRow) (out : Outcome A)
      → load_workflow w.id ws ≡ some w
      → commit w now ws answer ≡ (ws', out)
      → out.kind ≡ committed
      → out.revision ≡ w.revision + 1
      → (w' : WorkflowRow) × (load_workflow w.id ws' ≡ some w') × (w.revision < w'.revision)
  unfolding commit
  commit-stored w now (result, none) ws ws' out e done kind next =
      absurd (ground (arith, ap (λ p. p.1.revision) done))
  commit-stored w now (result, some text) ws ws' out e done kind next =
      elim (Bool-cases (count_where p ws == 1)) [
        | inl one ↦
            let table = ap (λ q. q.0) (rw one at done) in
            subst
              (λ t.
                (w' : WorkflowRow) × (load_workflow w.id t ≡ some w') × (w.revision < w'.revision))
              table
              (
                written (w.revision + 1) text now w,
                get-update id_of p (written (w.revision + 1) text now) (λ r. refl) w.id ws
                    ∙ rw (e, mine) refl,
                omega arith,
              )
        | inr none_hit ↦ absurd (not_retry (sym (ap (λ q. q.1.kind) (rw none_hit at done))) kind)
      ]
    where
      p : WorkflowRow → Bool
      p = at id_of w.id (λ x. x.revision == w.revision)

      mine : p w ≡ true
      mine = ground (arith, str_eq_refl w.id)

  cas-stored {ℓ} :
      {A : Type ℓ} (id : String) (expected now : ℕ) (mutate : Mutation A) (ignore : Bool)
      (ws ws' : List WorkflowRow) (out : Outcome A)
      → compare_and_update_workflow valid_birth trimmed parse_json id expected mutate ignore now ws
        ≡ ok (ws', out)
      → out.kind ≡ committed
      → out.revision ≡ expected + 1
      → (w : WorkflowRow) × (load_workflow id ws' ≡ some w) × (expected < w.revision)
  cas-stored id expected now mutate ignore ws ws' out h kind next =
      let (w, found, raw, parsed, ending) = cas_cases id expected mutate ignore now ws ws' out h in
      let named = key-get id_of id ws found in
      elim ending [
        | stopped s t k ↦ absurd (not_suppressed k kind)
        | outrun s n t k ↦ absurd (not_retry k kind)
        | applied answer s same m done ↦
            let (w', e', lt) =
              commit-stored w now answer ws ws' out
                (subst (λ x. load_workflow x ws ≡ some w) (sym named) found) done kind
                (rw same next) in
            (
              w',
              subst (λ x. load_workflow x ws' ≡ some w') named e',
              subst (λ n. n < w'.revision) same lt,
            )
      ]

  -- No write is lost: after a writer that read revision `expected` has stored its record, and after
  -- any calls, another writer that read the same revision does not commit and changes nothing.
  pub no_lost_update {ℓ κ} :
      {A : Type ℓ} {B : Type κ} (id : String) (expected now₁ now₂ : ℕ) (mutate₁ : Mutation A)
      (mutate₂ : Mutation B) (ignore₁ ignore₂ : Bool) (between : List Call)
      (ws ws₁ ws₂ : List WorkflowRow) (out₁ : Outcome A) (out₂ : Outcome B)
      → compare_and_update_workflow valid_birth trimmed parse_json id expected mutate₁ ignore₁ now₁
          ws
        ≡ ok (ws₁, out₁)
      → out₁.kind ≡ committed
      → out₁.revision ≡ expected + 1
      → compare_and_update_workflow valid_birth trimmed parse_json id expected mutate₂ ignore₂ now₂
          (run between ws₁)
        ≡ ok (ws₂, out₂)
      → (ws₂ ≡ run between ws₁) × (is_committed out₂.kind ≡ false)
  no_lost_update id expected now₁ now₂ mutate₁ mutate₂ ignore₁ ignore₂ between ws ws₁ ws₂ out₁ out₂
        h₁ kind next h₂ =
      let (w₁, e₁, lt₁) = cas-stored id expected now₁ mutate₁ ignore₁ ws ws₁ out₁ h₁ kind next in
      let (w', e', le') = run-Grows between id w₁ ws₁ e₁ in
      let (w₂, found₂, raw₂, parsed₂, ending₂) =
        cas_cases id expected mutate₂ ignore₂ now₂ (run between ws₁) ws₂ out₂ h₂ in
      elim ending₂ [
        | stopped s t k ↦ (t, rw k refl)
        | outrun s n t k ↦ (t, rw k refl)
        | applied answer s same m done ↦ absurd (
            omega (
              arith,
              lt₁,
              le',
              same,
              ap (λ w. w.revision)
                  (some_unique (load_workflow id (run between ws₁)) w' w₂ e' found₂),
            ))
      ]
