-- ===== src/Prune/Safety.antt =====
-- What `pruneApply` of src/coordination.ts may delete.
use dsh_codex_workflow.Common.{
  ℕ, String, ◌≡◌, refl, sym, subst, ◌∙◌, ◌⊎◌, inl, inr, Bool, true, ◌&&◌, Option, none, some, List,
  [], ◌∷◌, ◌==◌, str_eq, str_eq_iff, Bool-cases, Option-cases, &&_true, some_unique,
}
use dsh_codex_workflow.Common.Table.{
  delete_where, get, Unique, key-get, get-delete_none, get-delete, Unique-delete,
}
use dsh_codex_workflow.Json.{Json}
use dsh_codex_workflow.Queue.Rows.{Row, status_eq}
use dsh_codex_workflow.Queue.Operations.{Queue, queue_row}
use dsh_codex_workflow.Workflows.{WorkflowRow, load_workflow}
use dsh_codex_workflow.Prune.{
  RequestCandidate, WorkflowCandidate, finished, retired, still_request, still_workflow, is_row,
  is_workflow, prune_request, same_receipt, prune_requests, prune_workflow, prune_workflows,
}

-- A row of a table after a deletion: it is there, or it is gone and was allowed to go.
module _ {A : Type 0} (key : A → String) (allowed : A → Bool) where
  abbrev pub Kept : String → A → List A → Type 0
  Kept k r rs = (get key k rs ≡ some r) ⊎ ((get key k rs ≡ none) × (allowed r ≡ true))

  delete-Kept :
      (p : A → Bool) (k : String) (r : A) (rs : List A)
      → Unique key rs
      → get key k rs ≡ some r
      → (p r ≡ true → allowed r ≡ true)
      → Kept k r (delete_where p rs)
  delete-Kept p k r rs u e may = elim (Bool-cases (p r)) [
    | inl hit ↦ inr (get-delete key p k rs u ∙ rw (e, hit) refl, may hit)
    | inr miss ↦ inl (get-delete key p k rs u ∙ rw (e, miss) refl)
  ]

module _ (valid_birth trimmed : String → Bool) (parse_json : String → Option Json)
    (parse_date : String → Option ℕ) (older now : ℕ) where
  request-Kept :
      (c : RequestCandidate) (k : String) (r : Row) (q : Queue)
      → Unique (λ x. x.request_id) q
      → queue_row k q ≡ some r
      → Kept
          (λ x. x.request_id)
          (finished valid_birth trimmed parse_json parse_date older now)
          k
          r
          (prune_request valid_birth trimmed parse_json parse_date older now c q).0
        × Unique
            (λ x. x.request_id)
            (prune_request valid_birth trimmed parse_json parse_date older now c q).0
  unfolding prune_request
  request-Kept c k r q u e = elim (Option-cases (queue_row c.request_id q)) [
    | inl gone ↦ rw (gone, prune_request) (inl e, u)
    | inr (x, found) ↦
        elim (Bool-cases (still_request valid_birth trimmed parse_json parse_date older now c x)) [
          | inl still ↦
              rw (found, still, prune_request)
                (
                  delete-Kept (λ y. y.request_id)
                      (finished valid_birth trimmed parse_json parse_date older now)
                      (is_row valid_birth trimmed parse_json parse_date x) k r q u e
                      (may x found still),
                  Unique-delete (λ y. y.request_id)
                      (is_row valid_birth trimmed parse_json parse_date x) q u,
                )
          | inr changed ↦ rw (found, changed, prune_request) (inl e, u)
        ]
  ]
    where
      may :
          (x : Row)
          → queue_row c.request_id q ≡ some x
          → still_request valid_birth trimmed parse_json parse_date older now c x ≡ true
          → is_row valid_birth trimmed parse_json parse_date x r ≡ true
          → finished valid_birth trimmed parse_json parse_date older now r ≡ true
      may x found still hit =
          let (a, _) =
            &&_true _
              (same_receipt valid_birth trimmed parse_json parse_date r.receipt_json x.receipt_json)
              hit in
          let (i, _) = &&_true (str_eq r.request_id x.request_id) (status_eq r.status x.status) a in
          let same_id =
            sym (key-get (λ y. y.request_id) k q e)
            ∙ (str_eq_iff r.request_id x.request_id).0 i
            ∙ key-get (λ y. y.request_id) c.request_id q found in
          let same =
            some_unique (queue_row c.request_id q) r x
              (subst (λ y. queue_row y q ≡ some r) same_id e) found in
          let (b, _) =
            &&_true
              (status_eq x.status c.status
                && finished valid_birth trimmed parse_json parse_date older now x)
              _ still in
          subst (λ y. finished valid_birth trimmed parse_json parse_date older now y ≡ true)
            (sym same)
            (&&_true (status_eq x.status c.status)
              (finished valid_birth trimmed parse_json parse_date older now x) b).1

  prune_request-none :
      (c : RequestCandidate) (k : String) (q : Queue)
      → queue_row k q ≡ none
      → queue_row k (prune_request valid_birth trimmed parse_json parse_date older now c q).0 ≡ none
  unfolding prune_request
  prune_request-none c k q e = elim (Option-cases (queue_row c.request_id q)) [
    | inl gone ↦ rw (gone, prune_request) e
    | inr (x, found) ↦
        elim (Bool-cases (still_request valid_birth trimmed parse_json parse_date older now c x)) [
          | inl still ↦
              rw (found, still, prune_request)
                (get-delete_none (λ y. y.request_id)
                  (is_row valid_birth trimmed parse_json parse_date x) k q e)
          | inr changed ↦ rw (found, changed, prune_request) e
        ]
  ]

  gone-stays :
      (cs : List RequestCandidate) (k : String) (q : Queue)
      → queue_row k q ≡ none
      → queue_row k (prune_requests valid_birth trimmed parse_json parse_date older now cs q).0
        ≡ none
  unfolding prune_requests
  gone-stays [] k q e = e
  gone-stays (c ∷ cs) k q e =
      gone-stays cs k (prune_request valid_birth trimmed parse_json parse_date older now c q).0
        (prune_request-none c k q e)

  -- Whatever candidates it is given, `pruneApply` leaves the row of a request as it is, or deletes it
  -- when it is done or cancelled with a receipt that was delivered before the cutoff.
  pub prune_requests-Kept :
      (cs : List RequestCandidate) (k : String) (r : Row) (q : Queue)
      → Unique (λ x. x.request_id) q
      → queue_row k q ≡ some r
      → Kept
          (λ x. x.request_id)
          (finished valid_birth trimmed parse_json parse_date older now)
          k
          r
          (prune_requests valid_birth trimmed parse_json parse_date older now cs q).0
  unfolding prune_requests
  prune_requests-Kept [] k r q u e = inl e
  prune_requests-Kept (c ∷ cs) k r q u e =
      let (one, u') = request-Kept c k r q u e in
      elim one [
        | inl here ↦
            prune_requests-Kept cs k r
              (prune_request valid_birth trimmed parse_json parse_date older now c q).0 u' here
        | inr (gone, old) ↦ inr (
          gone-stays cs k (prune_request valid_birth trimmed parse_json parse_date older now c q).0
              gone,
          old,
        )
      ]

  workflow-Kept :
      (c : WorkflowCandidate) (k : String) (r : WorkflowRow) (q : List WorkflowRow)
      → Unique (λ x. x.id) q
      → load_workflow k q ≡ some r
      → Kept
          (λ x. x.id)
          (retired valid_birth trimmed parse_json parse_date older now)
          k
          r
          (prune_workflow valid_birth trimmed parse_json parse_date older now c q).0
        × Unique
            (λ x. x.id)
            (prune_workflow valid_birth trimmed parse_json parse_date older now c q).0
  unfolding prune_workflow
  workflow-Kept c k r q u e = elim (Option-cases (load_workflow c.id q)) [
    | inl gone ↦ rw (gone, prune_workflow) (inl e, u)
    | inr (x, found) ↦
        elim (Bool-cases (still_workflow valid_birth trimmed parse_json parse_date older now c x)) [
          | inl still ↦
              rw (found, still, prune_workflow)
                (
                  delete-Kept (λ y. y.id)
                      (retired valid_birth trimmed parse_json parse_date older now)
                      (is_workflow valid_birth trimmed parse_json parse_date c) k r q u e
                      (may x found still),
                  Unique-delete (λ y. y.id)
                      (is_workflow valid_birth trimmed parse_json parse_date c) q u,
                )
          | inr changed ↦ rw (found, changed, prune_workflow) (inl e, u)
        ]
  ]
    where
      may :
          (x : WorkflowRow)
          → load_workflow c.id q ≡ some x
          → still_workflow valid_birth trimmed parse_json parse_date older now c x ≡ true
          → is_workflow valid_birth trimmed parse_json parse_date c r ≡ true
          → retired valid_birth trimmed parse_json parse_date older now r ≡ true
      may x found still hit =
          let (a, _) = &&_true _ (r.updated_at == c.updated_at) hit in
          let (i, _) = &&_true (str_eq r.id c.id) (r.revision == c.revision) a in
          let same_id = sym (key-get (λ y. y.id) k q e) ∙ (str_eq_iff r.id c.id).0 i in
          let same =
            some_unique (load_workflow c.id q) r x
              (subst (λ y. load_workflow y q ≡ some r) same_id e) found in
          let (b, _) =
            &&_true
              ((x.revision == c.revision && x.updated_at == c.updated_at)
                && retired valid_birth trimmed parse_json parse_date older now x)
              _ still in
          subst (λ y. retired valid_birth trimmed parse_json parse_date older now y ≡ true)
            (sym same)
            (&&_true (x.revision == c.revision && x.updated_at == c.updated_at)
              (retired valid_birth trimmed parse_json parse_date older now x) b).1

  prune_workflow-none :
      (c : WorkflowCandidate) (k : String) (q : List WorkflowRow)
      → load_workflow k q ≡ none
      → load_workflow k (prune_workflow valid_birth trimmed parse_json parse_date older now c q).0
        ≡ none
  unfolding prune_workflow
  prune_workflow-none c k q e = elim (Option-cases (load_workflow c.id q)) [
    | inl gone ↦ rw (gone, prune_workflow) e
    | inr (x, found) ↦
        elim (Bool-cases (still_workflow valid_birth trimmed parse_json parse_date older now c x)) [
          | inl still ↦
              rw (found, still, prune_workflow)
                (get-delete_none (λ y. y.id)
                  (is_workflow valid_birth trimmed parse_json parse_date c) k q e)
          | inr changed ↦ rw (found, changed, prune_workflow) e
        ]
  ]

  gone_workflow-stays :
      (cs : List WorkflowCandidate) (k : String) (q : List WorkflowRow)
      → load_workflow k q ≡ none
      → load_workflow k (prune_workflows valid_birth trimmed parse_json parse_date older now cs q).0
        ≡ none
  unfolding prune_workflows
  gone_workflow-stays [] k q e = e
  gone_workflow-stays (c ∷ cs) k q e =
      gone_workflow-stays cs k
        (prune_workflow valid_birth trimmed parse_json parse_date older now c q).0
        (prune_workflow-none c k q e)

  -- Whatever candidates it is given, `pruneApply` leaves a workflow as it is, or deletes it when
  -- it is passed or cancelled, was updated before the cutoff and has no active submission.
  pub prune_workflows-Kept :
      (cs : List WorkflowCandidate) (k : String) (r : WorkflowRow) (q : List WorkflowRow)
      → Unique (λ x. x.id) q
      → load_workflow k q ≡ some r
      → Kept
          (λ x. x.id)
          (retired valid_birth trimmed parse_json parse_date older now)
          k
          r
          (prune_workflows valid_birth trimmed parse_json parse_date older now cs q).0
  unfolding prune_workflows
  prune_workflows-Kept [] k r q u e = inl e
  prune_workflows-Kept (c ∷ cs) k r q u e =
      let (one, u') = workflow-Kept c k r q u e in
      elim one [
        | inl here ↦
            prune_workflows-Kept cs k r
              (prune_workflow valid_birth trimmed parse_json parse_date older now c q).0 u' here
        | inr (gone, old) ↦ inr (
          gone_workflow-stays cs k
              (prune_workflow valid_birth trimmed parse_json parse_date older now c q).0 gone,
          old,
        )
      ]
