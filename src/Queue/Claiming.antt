-- ===== src/Queue/Claiming.antt =====
-- `claimNext` of src/infrastructure/queue-repository.ts: which row is claimed, and what the claim
-- leaves in the table.
use mathlib.Core.Path.{refl}
use mathlib.Core.List.{Memᴰ}
use dsh_codex_workflow.Common.{
  ℕ, ◌+◌, String, ◌≡◌, sym, ap, subst, ◌∙◌, inl, inr, true, Option, none, some, List, [], ◌∷◌,
  arith, if◌then◌else◌, str_eq_iff, Bool-cases, Option-cases,
}
use dsh_codex_workflow.Common.Result.{Result, ok}
use dsh_codex_workflow.Common.Table.{
  update_where, count_where, Unique, at, key-get, get-update, count-at, update_none,
}
use dsh_codex_workflow.Queue.Rows.{Row, id_of, Router, claimable, take_over}
use dsh_codex_workflow.Queue.Operations.{
  Queue, Error, queue_row, claim_candidates, claim_first, is_nil, claim_next,
}

-- The claim of row `r` by one UPDATE.
abbrev pub claim_of : String → ℕ → ℕ → String → Queue → Queue
claim_of owner till now id q = update_where (at id_of id (claimable now)) (take_over owner till) q

pub data ClaimResult (owner : String) (till now : ℕ) (ids : List String) (q : Queue)
    (res : Result Error (Queue × Option Row)) : Type 0 where
  idle : res ≡ ok (q, none) → ClaimResult owner till now ids q res
  won :
      (id : String) (r : Row)
      → Memᴰ id ids
      → queue_row id q ≡ some r
      → claimable now r ≡ true
      → res ≡ ok (claim_of owner till now id q, some (take_over owner till r))
      → ClaimResult owner till now ids q res

module _ (owner : String) (till now : ℕ) where
  pub claim_of-row :
      (id : String) (q : Queue) (r : Row)
      → queue_row id q ≡ some r
      → claimable now r ≡ true
      → queue_row id (claim_of owner till now id q) ≡ some (take_over owner till r)
  claim_of-row id q r e h =
      get-update id_of (at id_of id (claimable now)) (take_over owner till) (λ r. refl) id q
      ∙ rw (e, h) (ground (arith, str_eq_iff r.request_id id, key-get id_of id q e))

  count_claimable :
      (id : String) (q : Queue) (r : Row)
      → Unique id_of q
      → queue_row id q ≡ some r
      → count_where (at id_of id (claimable now)) q ≡ (if claimable now r then 1 else 0)
  count_claimable id q r u e = count-at id_of id (claimable now) q u ∙ rw e

  count_missing :
      (id : String) (q : Queue)
      → Unique id_of q
      → queue_row id q ≡ none
      → count_where (at id_of id (claimable now)) q ≡ 0
  count_missing id q u e = count-at id_of id (claimable now) q u ∙ rw e

  -- A claimable candidate at the head is claimed.
  pub claim_first-head :
      (id : String) (ids : List String) (q : Queue) (r : Row)
      → Unique id_of q
      → queue_row id q ≡ some r
      → claimable now r ≡ true
      → claim_first owner till now (id ∷ ids) q
        ≡ ok (claim_of owner till now id q, some (take_over owner till r))
  unfolding claim_first
  claim_first-head id ids q r u e h =
      rw (count_claimable id q r u e) (rw h (rw (claim_of-row id q r e h)))

  claim_first-skip :
      (id : String) (ids : List String) (q : Queue)
      → count_where (at id_of id (claimable now)) q ≡ 0
      → claim_first owner till now (id ∷ ids) q ≡ claim_first owner till now ids q
  unfolding claim_first
  claim_first-skip id ids q z = rw z (ap (claim_first owner till now ids) (update_none _ _ q z))

  weaken :
      {id : String} {ids : List String} {q : Queue} {res res' : Result Error (Queue × Option Row)}
      → res' ≡ res
      → ClaimResult owner till now ids q res
      → ClaimResult owner till now (id ∷ ids) q res'
  weaken h (idle e) = idle (h ∙ e)
  weaken h (won j r m e c d) = won j r (Memᴰ.tail m) e c (h ∙ d)

  -- The loop claims one claimable candidate or none, and never fails.
  pub claim_first_cases :
      (ids : List String) (q : Queue)
      → Unique id_of q
      → ClaimResult owner till now ids q (claim_first owner till now ids q)
  unfolding claim_first
  claim_first_cases [] q u = idle refl
  claim_first_cases (id ∷ ids) q u = elim (Option-cases (queue_row id q)) [
    | inl gone ↦
        weaken (claim_first-skip id ids q (count_missing id q u gone)) (claim_first_cases ids q u)
    | inr (r, e) ↦ elim (Bool-cases (claimable now r)) [
      | inl free ↦ won id r (Memᴰ.head refl) e free (claim_first-head id ids q r u e free)
      | inr busy ↦
          weaken (claim_first-skip id ids q (count_claimable id q r u e ∙ rw busy))
            (claim_first_cases ids q u)
    ]
  ]

-- `claimNext` hands out one claimable candidate of the table, or leaves the table alone.
pub claim_next_cases :
    (seen : Queue) (owner : String) (lease : ℕ) (router : Router) (now : ℕ) (q : Queue)
    → Unique id_of q
    → ClaimResult owner
        (now + lease)
        now
        (claim_candidates now router q)
        q
        (claim_next seen owner lease router now q)
unfolding claim_next
claim_next_cases seen owner lease router now q u =
    elim (Bool-cases (is_nil (claim_candidates now router seen))) [
      | inl none_seen ↦ idle (rw none_seen)
      | inr some_seen ↦
          subst (ClaimResult owner (now + lease) now (claim_candidates now router q) q)
            (sym (rw some_seen))
            (claim_first_cases owner (now + lease) now (claim_candidates now router q) q u)
    ]
