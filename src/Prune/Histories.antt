-- ===== src/Prune/Histories.antt =====
-- `pruneApply` of src/coordination.ts on the queue, in the calls of the histories of Queue.
use dsh_codex_workflow.Common.{
  All, ℕ, String, ◌≡◌, refl, ◌⊎◌, inl, inr, Bool, true, false, ◌&&◌, Option, some, List, [], ◌∷◌,
  arith, ◌==◌, str_eq, str_eq_refl, Bool-cases, Option-cases, &&_true,
}
use dsh_codex_workflow.Common.Table.{delete_where, Unique, key-get}
use dsh_codex_workflow.Common.Table.Deletions.{delete-one}
use dsh_codex_workflow.Json.{Json}
use dsh_codex_workflow.Queue.Rows.{Row, id_of, status_code, is_final, status_eq, prunable, has_id}
use dsh_codex_workflow.Queue.Operations.{Queue, queue_row}
use dsh_codex_workflow.Queue.Transitions.{Call, prunes, step, run}
use dsh_codex_workflow.Queue.Keys.{step-Unique}
use dsh_codex_workflow.Prune.{
  RequestCandidate, finished, still_request, is_row, prune_request, prune_requests,
}

abbrev pub is_pruning : Call → Bool
is_pruning (prunes ids) = true
is_pruning _ = false

module _ (valid_birth trimmed : String → Bool) (parse_json : String → Option Json)
    (parse_date : String → Option ℕ) (older now : ℕ) where
  code_eq : (n : ℕ) → (n == n) ≡ true
  code_eq n = ground arith

  -- A receipt that says when it was delivered is a text that is not empty.
  finished-filled :
      (r : Row)
      → finished valid_birth trimmed parse_json parse_date older now r ≡ true
      → (t : String) × (r.receipt_json ≡ some t) × (str_eq t "" ≡ false)
  finished-filled r h =
      let (_, late) = &&_true (is_final r.status) _ h in
      elim (Option-cases r.receipt_json) [
        | inl gone ↦ absurd (ground (arith, gone, late))
        | inr (t, there) ↦ elim (Bool-cases (str_eq t "")) [
          | inl blank ↦ absurd (ground (arith, there, blank, late))
          | inr full ↦ (t, there, full)
        ]
      ]

  -- The row of a candidate that is still what the preview saw may be pruned.
  still-prunable :
      (c : RequestCandidate) (r : Row)
      → still_request valid_birth trimmed parse_json parse_date older now c r ≡ true
      → (prunable r ≡ true) × (is_row valid_birth trimmed parse_json parse_date r r ≡ true)
  still-prunable c r h =
      let (a, _) =
        &&_true
          (status_eq r.status c.status
            && finished valid_birth trimmed parse_json parse_date older now r)
          _ h in
      let (_, ended) =
        &&_true (status_eq r.status c.status)
          (finished valid_birth trimmed parse_json parse_date older now r) a in
      let (final, _) = &&_true (is_final r.status) _ ended in
      let (t, there, full) = finished-filled r ended in
      (
        ground (arith, there, final, full),
        ground
            (arith, there, str_eq_refl r.request_id, code_eq (status_code r.status), str_eq_refl t),
      )

  -- A candidate has its row deleted as by `prunes`, or nothing happens.
  prune_request-step :
      (c : RequestCandidate) (q : Queue)
      → Unique id_of q
      → ((prune_request valid_birth trimmed parse_json parse_date older now c q).0 ≡ q)
        ⊎ ((prune_request valid_birth trimmed parse_json parse_date older now c q).0
            ≡ step (prunes (c.request_id ∷ [])) q)
  unfolding prune_request step has_id
  prune_request-step c q u = elim (Option-cases (queue_row c.request_id q)) [
    | inl gone ↦ inl (rw (gone, prune_request) refl)
    | inr (x, found) ↦
        elim (Bool-cases (still_request valid_birth trimmed parse_json parse_date older now c x)) [
          | inr changed ↦ inl (rw (found, changed, prune_request) refl)
          | inl still ↦
              inr (rw (found, still, prune_request) (deleted x found (still-prunable c x still)))
        ]
  ]
    where
      deleted :
          (x : Row)
          → queue_row c.request_id q ≡ some x
          → (prunable x ≡ true) × (is_row valid_birth trimmed parse_json parse_date x x ≡ true)
          → delete_where (is_row valid_birth trimmed parse_json parse_date x) q
            ≡ delete_where (λ r. prunable r && has_id r.request_id (c.request_id ∷ [])) q
      deleted x found (may, self) =
          let named = key-get id_of c.request_id q found in
          delete-one id_of (is_row valid_birth trimmed parse_json parse_date x)
            (λ r. prunable r && has_id r.request_id (c.request_id ∷ [])) c.request_id x q u found
            self (rw (may, named, str_eq_refl c.request_id) refl)
            (λ r other. rw (named, other) refl) (λ r other. rw other (ground arith))

  -- What `pruneApply` does to a queue without two rows of the same id is what some history of the
  -- calls `prunes` does.
  pub prune_requests-run :
      (candidates : List RequestCandidate) (q : Queue)
      → Unique id_of q
      → (cs : List Call) × All (λ c. is_pruning c ≡ true) cs
        × ((prune_requests valid_birth trimmed parse_json parse_date older now candidates q).0
            ≡ run cs q)
  unfolding prune_requests run
  prune_requests-run [] q u = ([], tt, refl)
  prune_requests-run (c ∷ candidates) q u = elim (prune_request-step c q u) [
    | inl same ↦ let (cs, only, e) = prune_requests-run candidates q u in (cs, only, rw same e)
    | inr gone ↦
        let (cs, only, e) =
          prune_requests-run candidates (step (prunes (c.request_id ∷ [])) q)
            (step-Unique (prunes (c.request_id ∷ [])) q u) in
        (prunes (c.request_id ∷ []) ∷ cs, (refl, only), rw gone e)
  ]
