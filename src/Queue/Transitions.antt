-- ===== src/Queue/Transitions.antt =====
-- The life of one row: the transitions that the statements of src/infrastructure/queue-repository.ts
-- make on it, as a relation, and the calls on the whole queue that are followed row by row.
use dsh_codex_workflow.Common.{
  ℕ, ◌+◌, String, ◌≡◌, refl, ◌∙◌, inl, inr, Bool, true, not, ◌&&◌, ◌||◌, ◌⊎◌, Option, none, some,
  List, [], ◌∷◌, str_eq, Bool-cases, Option-cases, &&_true,
}
use dsh_codex_workflow.Common.Result.{Result, ok, err}
use dsh_codex_workflow.Common.Table.{
  update_where, delete_where, Unique, at, get-append_some, get-update,
}
use dsh_codex_workflow.Queue.Rows.{
  Status, Row, id_of, is_processing, is_waiting, is_dead, new_row, Router, expired, claimable,
  take_over, owned_by, acked, parked, buried, renewed, orphaned, quarantined, requeued,
  lacks_receipt, receipted, prunable, has_id,
}
use dsh_codex_workflow.Queue.Operations.{
  Queue, Error, queue_row, enqueue_command, claim_next, ack_claim, retry_claim, dead_letter_claim,
  renew_claim, recover_queue_orphans, quarantine_row, import_legacy_row, import_legacy_receipt,
  requeue_request,
}
use dsh_codex_workflow.Queue.Claiming.{idle, won, claim_next_cases}

-- What may happen to a row in one call. `fenced e o` is a mutation by the holder of claim `e`, `o`.
pub data Change (r r' : Row) : Type 0 where
  kept : r' ≡ r → Change r r'
  claimed :
      (owner : String) (till now : ℕ)
      → claimable now r ≡ true
      → r' ≡ take_over owner till r
      → Change r r'
  finished :
      (epoch : ℕ) (owner receipt : String)
      → owned_by epoch owner r ≡ true
      → r' ≡ acked receipt r
      → Change r r'
  set_aside :
      (epoch : ℕ) (owner error : String) (next : ℕ)
      → owned_by epoch owner r ≡ true
      → r' ≡ parked error next r
      → Change r r'
  given_up :
      (epoch : ℕ) (owner error : String) (now : ℕ)
      → owned_by epoch owner r ≡ true
      → r' ≡ buried error now r
      → Change r r'
  prolonged :
      (epoch : ℕ) (owner : String) (till : ℕ)
      → owned_by epoch owner r ≡ true
      → r' ≡ renewed till r
      → Change r r'
  recovered : (now : ℕ) → expired now r ≡ true → r' ≡ orphaned now r → Change r r'
  isolated :
      (error : String) (now : ℕ)
      → (is_processing r.status || is_waiting r.status) ≡ true
      → r' ≡ quarantined error now r
      → Change r r'
  imported : (receipt : String) → lacks_receipt r ≡ true → r' ≡ receipted receipt r → Change r r'
  revived : (now : ℕ) → is_dead r.status ≡ true → r' ≡ requeued now r → Change r r'

pub data Call : Type 0 where
  enqueues : String → String → String → ℕ → Call
  claims : Queue → String → ℕ → Router → ℕ → Call
  acks : String → ℕ → String → String → Call
  retries : String → ℕ → String → String → ℕ → Call
  buries : String → ℕ → String → String → ℕ → Call
  renews : String → ℕ → String → ℕ → Call
  recovers : ℕ → Call
  quarantines : String → Status → ℕ → String → String → ℕ → Call
  imports_row :
      String → String → String → Status → ℕ → Option String → Option ℕ → Option ℕ → ℕ → Call
  imports_receipt : String → String → String → ℕ → Call
  requeues : String → ℕ → Call
  -- The deletions of one `pruneApply`, by the ids of the rows.
  prunes : List String → Call

-- The table after a call that may throw: the transaction is rolled back.
abbrev pub after {ℓ} : {A : Type ℓ} → Queue → Result Error (Queue × A) → Queue
after q (ok (q', _)) = q'
after q (err _) = q

unfoldable pub step : Call → Queue → Queue
step (enqueues id hash json created) q = after q (enqueue_command id hash json created q)
step (claims seen owner lease router now) q = after q (claim_next seen owner lease router now q)
step (acks id epoch owner receipt) q = (ack_claim id epoch owner receipt q).0
step (retries id epoch owner error next) q = (retry_claim id epoch owner error next q).0
step (buries id epoch owner error now) q = (dead_letter_claim id epoch owner error now q).0
step (renews id epoch owner till) q = (renew_claim id epoch owner till q).0
step (recovers now) q = (recover_queue_orphans now q).0
step (quarantines id status epoch owner error now) q =
    (quarantine_row id status epoch owner error now q).0
step (imports_row id hash json status attempts error next dead now) q =
    import_legacy_row id hash json status attempts error next dead now q
step (imports_receipt id hash receipt now) q = import_legacy_receipt id hash receipt now q
step (requeues id now) q = after q (requeue_request id now q)
step (prunes ids) q = delete_where (λ r. prunable r && has_id r.request_id ids) q

unfoldable pub run : List Call → Queue → Queue
run [] q = q
run (c ∷ cs) q = run cs (step c q)

-- No pruning deletes the row of `k`.
abbrev pub spares : String → Call → Bool
spares k (prunes ids) = not (has_id k ids)
spares k _ = true

-- A row of a table, followed into the next table, where it is or, if it may be pruned, is not.
abbrev pub Moves : String → Row → Queue → Type 0
Moves k r q' = (r' : Row) × (queue_row k q' ≡ some r') × Change r r'

abbrev pub Follows : String → Row → Queue → Type 0
Follows k r q' = Moves k r q' ⊎ ((queue_row k q' ≡ none) × (prunable r ≡ true))

module _ (p : Row → Bool) (f : Row → Row) (same : (r : Row) → id_of (f r) ≡ id_of r) where
  pub update-Moves :
      (k : String) (q : Queue) (r : Row)
      → queue_row k q ≡ some r
      → (p r ≡ true → Change r (f r))
      → Moves k r (update_where p f q)
  update-Moves k q r e change = elim (Bool-cases (p r)) [
    | inl hit ↦ (f r, get-update id_of p f same k q ∙ rw (e, hit), change hit)
    | inr miss ↦ (r, get-update id_of p f same k q ∙ rw (e, miss), kept refl)
  ]

-- A statement by key follows a row of its key by `q`, and any other row by nothing.
pub at-Moves :
    (id : String) (test : Row → Bool) (f : Row → Row) (same : (r : Row) → id_of (f r) ≡ id_of r)
    (k : String) (q : Queue) (r : Row)
    → queue_row k q ≡ some r
    → (test r ≡ true → Change r (f r))
    → Moves k r (update_where (at id_of id test) f q)
at-Moves id test f same k q r e change =
    update-Moves (at id_of id test) f same k q r e
      (λ h. change (&&_true (str_eq r.request_id id) (test r) h).1)

pub enqueue-Moves :
    (id hash json : String) (created : ℕ) (k : String) (q : Queue) (r : Row)
    → queue_row k q ≡ some r
    → Moves k r (after q (enqueue_command id hash json created q))
unfolding enqueue_command
enqueue-Moves id hash json created k q r e = elim (Option-cases (queue_row id q)) [
  | inl fresh ↦ (
    r,
    rw (fresh, after) (get-append_some id_of k q (new_row id hash json created ∷ []) e),
    kept refl,
  )
  | inr (x, old) ↦ elim (Bool-cases (str_eq x.command_hash hash)) [
    | inl yes_same ↦ (r, rw (old, yes_same, after) e, kept refl)
    | inr differs ↦ (r, rw (old, differs, after) e, kept refl)
  ]
]

pub claim-Moves :
    (seen : Queue) (owner : String) (lease : ℕ) (router : Router) (now : ℕ) (k : String) (q : Queue)
    (r : Row)
    → Unique id_of q
    → queue_row k q ≡ some r
    → Moves k r (after q (claim_next seen owner lease router now q))
claim-Moves seen owner lease router now k q r u e =
    elim (claim_next_cases seen owner lease router now q u) [
      | idle h ↦ (r, rw h e, kept refl)
      | won id x m ex c h ↦ rw h (
          at-Moves id (claimable now) (take_over owner (now + lease)) (λ r. refl) k q r e
            (λ free. claimed owner (now + lease) now free refl))
    ]

pub requeue-Moves :
    (id : String) (now : ℕ) (k : String) (q : Queue) (r : Row)
    → queue_row k q ≡ some r
    → Moves k r (after q (requeue_request id now q))
unfolding requeue_request
requeue-Moves id now k q r e = elim (Option-cases (queue_row id q)) [
  | inl gone ↦ (r, rw (gone, after) e, kept refl)
  | inr (x, ex) ↦ elim (Bool-cases (is_waiting x.status)) [
    | inl waits ↦ (r, rw (ex, waits, after) e, kept refl)
    | inr moves ↦ elim (Bool-cases (is_dead x.status)) [
      | inl dead ↦
          rw (ex, moves, dead, after)
            (at-Moves id (λ r. is_dead r.status) (requeued now) (λ r. refl) k q r e
              (λ h. revived now h refl))
      | inr alive ↦ (r, rw (ex, moves, alive, after) e, kept refl)
    ]
  ]
]

pub receipt-Moves :
    (id hash receipt : String) (now : ℕ) (k : String) (q : Queue) (r : Row)
    → queue_row k q ≡ some r
    → Moves k r (import_legacy_receipt id hash receipt now q)
unfolding import_legacy_receipt
receipt-Moves id hash receipt now k q r e = elim (Option-cases (queue_row id q)) [
  | inl fresh ↦ (r, rw (fresh, import_legacy_receipt) (get-append_some id_of k q _ e), kept refl)
  | inr (x, ex) ↦
      rw (ex, import_legacy_receipt)
        (at-Moves id lacks_receipt (receipted receipt) (λ r. refl) k q r e
          (λ h. imported receipt h refl))
]
