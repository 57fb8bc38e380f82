-- ===== src/Workflows/Revisions.antt =====
-- Revisions of src/infrastructure/workflow-repository.ts only grow, so a writer that read an old
-- revision is turned away.
use dsh_codex_workflow.Common.{
  ℕ, ◌+◌, ◌≤◌, String, ◌≡◌, refl, sym, ap, subst, ◌∙◌, ◌≢◌, inl, inr, Bool, true, false, not, ◌&&◌,
  Option, none, some, List, [], ◌∷◌, arith, ◌==◌, str_eq, str_eq_iff, Bool-cases, Option-cases,
  &&_true,
}
use dsh_codex_workflow.Common.Result.{ok, bind_ok, ok_parts}
use dsh_codex_workflow.Common.Table.{
  update_where, count_where, at, key-get, get-append_some, get-update,
}
use dsh_codex_workflow.Json.{Fields}
use dsh_codex_workflow.Workflows.{
  WorkflowRow, id_of, load_workflow, revision_or_zero, written, any_row, put_row, save_workflow,
  insert_workflow_if_absent, suppressed, retry, Outcome, Mutation, is_cancelled, commit, update_row,
}

-- The row that a request id has is not lost, and its revision does not fall.
abbrev pub Grows : String → WorkflowRow → List WorkflowRow → Type 0
Grows k w ws = (w' : WorkflowRow) × (load_workflow k ws ≡ some w') × (w.revision ≤ w'.revision)

update-Grows :
    (p : WorkflowRow → Bool) (n : ℕ) (json : String) (now : ℕ) (k : String) (w : WorkflowRow)
    (ws : List WorkflowRow)
    → load_workflow k ws ≡ some w
    → (p w ≡ true → w.revision ≤ n)
    → Grows k w (update_where p (written n json now) ws)
update-Grows p n json now k w ws e le = elim (Bool-cases (p w)) [
  | inl hit ↦ (
    written n json now w,
    get-update id_of p (written n json now) (λ r. refl) k ws ∙ rw (e, hit),
    le hit,
  )
  | inr miss ↦
      (w, get-update id_of p (written n json now) (λ r. refl) k ws ∙ rw (e, miss), omega arith)
]

pub save-Grows :
    (id json : String) (now : ℕ) (k : String) (w : WorkflowRow) (ws : List WorkflowRow)
    → load_workflow k ws ≡ some w
    → Grows k w (save_workflow id json now ws)
unfolding save_workflow
save-Grows id json now k w ws e = put-Grows (revision_or_zero (load_workflow id ws) + 1) below
  where
    below : at id_of id any_row w ≡ true → w.revision ≤ revision_or_zero (load_workflow id ws) + 1
    below hit =
        let mine = (str_eq_iff w.id id).0 (&&_true (str_eq w.id id) true hit).0 in
        let same = sym (key-get id_of k ws e) ∙ mine in
        rw (subst (λ x. load_workflow x ws ≡ some w) same e) (omega arith)

    put-Grows :
        (n : ℕ)
        → (at id_of id any_row w ≡ true → w.revision ≤ n)
        → Grows k w (put_row id n json now ws)
    put-Grows n le = elim (Option-cases (load_workflow id ws)) [
      | inl fresh ↦ (
        w,
        rw (fresh, put_row)
            (get-append_some id_of k ws
              (record { id = id; revision = n; record_json = json; updated_at = now } ∷ []) e),
        omega arith,
      )
      | inr (old, found) ↦
          rw (found, put_row) (update-Grows (at id_of id any_row) n json now k w ws e le)
    ]

pub insert-Grows :
    (id json : String) (now : ℕ) (k : String) (w : WorkflowRow) (ws : List WorkflowRow)
    → load_workflow k ws ≡ some w
    → Grows k w (insert_workflow_if_absent id json now ws).0
unfolding insert_workflow_if_absent
insert-Grows id json now k w ws e = elim (Option-cases (load_workflow id ws)) [
  | inl fresh ↦ (
    w,
    rw (fresh, insert_workflow_if_absent)
        (get-append_some id_of k ws
          (record { id = id; revision = 1; record_json = json; updated_at = now } ∷ []) e),
    omega arith,
  )
  | inr (old, found) ↦ (w, rw (found, insert_workflow_if_absent) e, omega arith)
]

module _ {ℓ} {A : Type ℓ} where
  pub commit-Grows :
      (x : WorkflowRow) (now : ℕ) (answer : A × Option String) (k : String) (w : WorkflowRow)
      (ws : List WorkflowRow)
      → load_workflow k ws ≡ some w
      → Grows k w (commit x now ws answer).0
  unfolding commit
  commit-Grows x now (result, none) k w ws e = (w, e, omega arith)
  commit-Grows x now (result, some text) k w ws e = elim (Bool-cases (count_where p ws == 1)) [
    | inl one ↦ rw one (update-Grows p (x.revision + 1) text now k w ws e (λ hit. ground arith))
    | inr none_hit ↦ rw none_hit (w, e, omega arith)
  ]
    where
      p : WorkflowRow → Bool
      p = at id_of x.id (λ y. y.revision == x.revision)

  -- How a compare-and-update that does not throw ends.
  pub data Ending (w : WorkflowRow) (expected : ℕ) (mutate : Mutation A) (ignore : Bool) (now : ℕ)
      (ws : List WorkflowRow) (raw : Fields) (ws' : List WorkflowRow) (out : Outcome A)
      : Type ℓ where
    stopped :
        (not ignore && is_cancelled raw) ≡ true
        → ws' ≡ ws
        → out.kind ≡ suppressed
        → Ending w expected mutate ignore now ws raw ws' out
    outrun :
        (not ignore && is_cancelled raw) ≡ false
        → w.revision ≢ expected
        → ws' ≡ ws
        → out.kind ≡ retry
        → Ending w expected mutate ignore now ws raw ws' out
    applied :
        (answer : A × Option String)
        → (not ignore && is_cancelled raw) ≡ false
        → w.revision ≡ expected
        → mutate raw w.revision ≡ ok answer
        → commit w now ws answer ≡ (ws', out)
        → Ending w expected mutate ignore now ws raw ws' out

  pub update_row_cases :
      (w : WorkflowRow) (expected : ℕ) (mutate : Mutation A) (ignore : Bool) (now : ℕ)
      (ws : List WorkflowRow) (raw : Fields) (ws' : List WorkflowRow) (out : Outcome A)
      → update_row w expected mutate ignore now ws raw ≡ ok (ws', out)
      → Ending w expected mutate ignore now ws raw ws' out
  unfolding update_row
  update_row_cases w expected mutate ignore now ws raw ws' out h =
      elim (Bool-cases (not ignore && is_cancelled raw)) [
        | inl stop ↦
            let (t, o) = ok_parts ws ws' _ out (rw (stop, update_row) at h) in
            stopped stop (sym t) (sym (ap (λ x. x.kind) o))
        | inr go ↦ elim (Bool-cases (w.revision == expected)) [
          | inl current ↦
              let (answer, mutated, done) =
                bind_ok (mutate raw w.revision) (λ answer. ok (commit w now ws answer)) (ws', out)
                  (rw (go, current, update_row) at h) in
              applied answer go (ground arith) mutated cc
          | inr stale ↦
              let (t, o) = ok_parts ws ws' _ out (rw (go, stale, update_row) at h) in
              outrun go (λ same. ground arith) (sym t) (sym (ap (λ x. x.kind) o))
        ]
      ]
