-- ===== src/Workflows/Cancellation.antt =====
-- A cancelled workflow of src/infrastructure/workflow-repository.ts stays as it is until it is
-- pruned.
use dsh_codex_workflow.Common.{
  ℕ, ◌+◌, String, ◌≡◌, refl, sym, ap, subst, ◌∙◌, ◌≢◌, inl, inr, Bool, true, false, not, ◌&&◌, ◌||◌,
  Option, none, some, List, [], ◌∷◌, arith, ◌==◌, str_eq, str_eq_iff, Bool-cases, Option-cases,
  some_unique, All,
}
use dsh_codex_workflow.Common.Result.{Result, ok, answer_cases}
use dsh_codex_workflow.Common.Table.{
  count_where, at, key-get, get-append_some, get-update_other, delete_where,
}
use dsh_codex_workflow.Common.Table.Deletions.{get-delete_other}
use dsh_codex_workflow.Queue.Rows.{has_id}
use dsh_codex_workflow.Json.{Json, Fields}
use dsh_codex_workflow.Workflows.{
  WorkflowRow, id_of, load_workflow, revision_or_zero, written, any_row, put_row, save_workflow,
  insert_workflow_if_absent, Outcome, Failure, Mutation, parse_workflow_json, is_cancelled, commit,
  compare_and_update_workflow,
}
use dsh_codex_workflow.Workflows.Revisions.{stopped, outrun, applied}
use dsh_codex_workflow.Workflows.Updates.{Call, saves, inserts, updates, after, step, cas_cases}

-- The calls that respect the cancellation of `id`: no save of it, and no update that ignores it.
abbrev pub respects : String → Call → Bool
respects id (saves k _ _) = not (str_eq k id)
respects id (inserts _ _ _) = true
respects id (updates k _ _ ignore _) = not (str_eq k id) || not ignore

-- What happens to the table: a call of the repository, or a run of `pruneApply` of
-- src/coordination.ts, here as the ids of the rows that it deletes.
pub data Change : Type 0 where
  calls : Call → Change
  prunes : List String → Change

-- The changes that respect the cancellation of `id` and do not prune it.
abbrev pub leaves : String → Change → Bool
leaves id (calls c) = respects id c
leaves id (prunes ids) = not (has_id id ids)

abbrev pub pruned : List String → List WorkflowRow → List WorkflowRow
pruned ids ws = delete_where (λ w. has_id w.id ids) ws

-- A pruning that does not list the id.
pruned_other :
    (ids : List String) (id : String) (ws : List WorkflowRow)
    → not (has_id id ids) ≡ true
    → load_workflow id (pruned ids ws) ≡ load_workflow id ws
pruned_other ids id ws keep =
    get-delete_other id_of (λ w. has_id w.id ids) id ws (λ w same. rw same (ground arith))

save_other :
    (k json : String) (now : ℕ) (id : String) (w : WorkflowRow) (ws : List WorkflowRow)
    → str_eq k id ≡ false
    → load_workflow id ws ≡ some w
    → load_workflow id (save_workflow k json now ws) ≡ some w
unfolding save_workflow
save_other k json now id w ws ne e = put_other (revision_or_zero (load_workflow k ws) + 1)
  where
    put_other : (n : ℕ) → load_workflow id (put_row k n json now ws) ≡ some w
    put_other n = elim (Option-cases (load_workflow k ws)) [
      | inl fresh ↦
          rw (fresh, put_row)
            (get-append_some id_of id ws
              (record { id = k; revision = n; record_json = json; updated_at = now } ∷ []) e)
      | inr (old, found) ↦
          rw (found, put_row)
            (get-update_other id_of k any_row (written n json now) (λ r. refl) id ws
                (λ same. ground (arith, str_eq_iff k id))
              ∙ e)
    ]

commit_other {ℓ} :
    {A : Type ℓ} (x : WorkflowRow) (now : ℕ) (answer : A × Option String) (id : String)
    (ws : List WorkflowRow)
    → id ≢ x.id
    → load_workflow id (commit x now ws answer).0 ≡ load_workflow id ws
unfolding commit
commit_other x now (result, none) id ws ne = refl
commit_other x now (result, some text) id ws ne =
    elim (Bool-cases (count_where (at id_of x.id (λ y. y.revision == x.revision)) ws == 1)) [
      | inl one ↦ rw one (
          get-update_other id_of x.id (λ y. y.revision == x.revision)
            (written (x.revision + 1) text now) (λ r. refl) id ws ne)
      | inr none_hit ↦ rw none_hit refl
    ]

insert_kept :
    (k json : String) (now : ℕ) (id : String) (w : WorkflowRow) (ws : List WorkflowRow)
    → load_workflow id ws ≡ some w
    → load_workflow id (insert_workflow_if_absent k json now ws).0 ≡ some w
unfolding insert_workflow_if_absent
insert_kept k json now id w ws e = elim (Option-cases (load_workflow k ws)) [
  | inl fresh ↦
      rw (fresh, insert_workflow_if_absent)
        (get-append_some id_of id ws
          (record { id = k; revision = 1; record_json = json; updated_at = now } ∷ []) e)
  | inr (old, found) ↦ rw (found, insert_workflow_if_absent) e
]

module _ (valid_birth trimmed : String → Bool) (parse_json : String → Option Json) where
  ok_unique {ℓ} : {A : Type ℓ} (r : Result Failure A) (a b : A) → r ≡ ok a → r ≡ ok b → a ≡ b
  ok_unique r a b p q = cc

  both_kept :
      (dead ignore mine : Bool)
      → dead ≡ true
      → (not ignore && dead) ≡ false
      → mine ≡ true
      → (not mine || not ignore) ≡ true
      → ⊥
  both_kept dead ignore mine d s m k = ground arith

  not_mine : {k id : String} → str_eq k id ≡ false → k ≡ id → ⊥
  not_mine {k = k} {id = id} other eq = ground (arith, str_eq_iff k id)

  -- An update that respects the cancellation.
  update_kept {ℓ} :
      {A : Type ℓ} (k : String) (expected : ℕ) (mutate : Mutation A) (ignore : Bool) (now : ℕ)
      (id : String) (w : WorkflowRow) (raw : Fields) (ws ws' : List WorkflowRow) (out : Outcome A)
      → load_workflow id ws ≡ some w
      → parse_workflow_json valid_birth trimmed parse_json w.record_json ≡ ok raw
      → is_cancelled raw ≡ true
      → (not (str_eq k id) || not ignore) ≡ true
      → compare_and_update_workflow valid_birth trimmed parse_json k expected mutate ignore now ws
        ≡ ok (ws', out)
      → load_workflow id ws' ≡ some w
  update_kept k expected mutate ignore now id w raw ws ws' out e parsed dead keep h =
      let (x, found, raw', parsed', ending) =
        cas_cases valid_birth trimmed parse_json k expected mutate ignore now ws ws' out h in
      elim ending [
        | stopped s t kind ↦ rw t e
        | outrun s n t kind ↦ rw t e
        | applied answer s same m done ↦ elim (Bool-cases (str_eq k id)) [
          | inl mine ↦
              let eq =
                some_unique (load_workflow id ws) x w
                  (subst (λ i. load_workflow i ws ≡ some x) ((str_eq_iff k id).0 mine) found) e in
              let same_raw =
                ok_unique (parse_workflow_json valid_birth trimmed parse_json w.record_json) raw'
                  raw
                  (subst
                    (λ y.
                      parse_workflow_json valid_birth trimmed parse_json y.record_json ≡ ok raw')
                    eq parsed')
                  parsed in
              absurd (
                both_kept (is_cancelled raw') ignore (str_eq k id)
                  (subst (λ r. is_cancelled r ≡ true) (sym same_raw) dead) s mine keep)
          | inr other ↦
              subst (λ t. load_workflow id t ≡ some w) (ap (λ p. p.0) done)
                (commit_other x now answer id ws
                    (λ eq. not_mine other (sym (eq ∙ key-get id_of k ws found)))
                  ∙ e)
        ]
      ]

  unfoldable pub change : Change → List WorkflowRow → List WorkflowRow
  change (calls c) ws = step valid_birth trimmed parse_json c ws
  change (prunes ids) ws = pruned ids ws

  unfoldable pub changed : List Change → List WorkflowRow → List WorkflowRow
  changed [] ws = ws
  changed (c ∷ cs) ws = changed cs (change c ws)

  -- One call that respects the cancellation.
  call_kept :
      (c : Call) (id : String) (w : WorkflowRow) (raw : Fields) (ws : List WorkflowRow)
      → respects id c ≡ true
      → load_workflow id ws ≡ some w
      → parse_workflow_json valid_birth trimmed parse_json w.record_json ≡ ok raw
      → is_cancelled raw ≡ true
      → load_workflow id (step valid_birth trimmed parse_json c ws) ≡ some w
  unfolding step
  call_kept (saves k json now) id w raw ws r e parsed dead =
      save_other k json now id w ws (ground arith) e
  call_kept (inserts k json now) id w raw ws r e parsed dead = insert_kept k json now id w ws e
  call_kept (updates k expected mutate ignore now) id w raw ws r e parsed dead =
      elim (answer_cases (
        compare_and_update_workflow valid_birth trimmed parse_json k expected mutate ignore now
          ws)) [
            | inl ((ws', out), h) ↦
                rw (h, after)
                  (update_kept k expected mutate ignore now id w raw ws ws' out e parsed dead r h)
            | inr (x, h) ↦ rw (h, after) e
          ]

  -- A cancelled workflow keeps its row through every history of saves, inserts, compare-and-updates
  -- and prunings, as long as none of them saves that id, none of its updates asks to ignore the
  -- cancellation, and no pruning deletes it.
  pub cancelled-Final :
      (cs : List Change) (id : String) (w : WorkflowRow) (raw : Fields) (ws : List WorkflowRow)
      → All (λ c. leaves id c ≡ true) cs
      → load_workflow id ws ≡ some w
      → parse_workflow_json valid_birth trimmed parse_json w.record_json ≡ ok raw
      → is_cancelled raw ≡ true
      → load_workflow id (changed cs ws) ≡ some w
  unfolding changed change
  cancelled-Final [] id w raw ws keep e parsed dead = e
  cancelled-Final (calls c ∷ cs) id w raw ws (k, keep) e parsed dead =
      cancelled-Final cs id w raw (step valid_birth trimmed parse_json c ws) keep
        (call_kept c id w raw ws k e parsed dead) parsed dead
  cancelled-Final (prunes ids ∷ cs) id w raw ws (k, keep) e parsed dead =
      cancelled-Final cs id w raw (pruned ids ws) keep (pruned_other ids id ws k ∙ e) parsed dead
