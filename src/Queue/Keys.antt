-- ===== src/Queue/Keys.antt =====
-- The primary key of the queue of src/infrastructure/queue-repository.ts, and histories of calls.
use dsh_codex_workflow.Common.{
  ℕ, ◌+◌, String, ◌≡◌, refl, inl, inr, Bool, none, some, List, [], ◌∷◌, ◌++◌, str_eq, Bool-cases,
  Option-cases, All, ◌&&◌, true,
}
use dsh_codex_workflow.Common.Table.{
  update_where, Unique, at, Unique-append_one, Unique-update, Unique-delete,
}
use dsh_codex_workflow.Queue.Rows.{
  Status, Row, id_of, is_processing, is_waiting, is_dead, new_row, legacy_row, Router, expired,
  claimable, take_over, owned_by, acked, parked, buried, renewed, orphaned, quarantined, requeued,
  lacks_receipt, receipted, prunable, has_id,
}
use dsh_codex_workflow.Queue.Operations.{
  Queue, queue_row, enqueue_command, claim_next, ack_claim, retry_claim, dead_letter_claim,
  renew_claim, recover_queue_orphans, quarantine_row, import_legacy_row, import_legacy_receipt,
  requeue_request,
}
use dsh_codex_workflow.Queue.Claiming.{idle, won, claim_next_cases}
use dsh_codex_workflow.Queue.Transitions.{
  Change, Call, enqueues, claims, acks, retries, buries, renews, recovers, quarantines, imports_row,
  imports_receipt, requeues, prunes, spares, after, step, run,
}
use dsh_codex_workflow.Queue.Refinement.{step-Moves}

insert-Unique :
    (x : Row) (q : Queue)
    → Unique id_of q
    → Unique id_of (elim (queue_row x.request_id q) [ none ↦ q ++ x ∷ [] | some _ ↦ q ])
insert-Unique x q u = elim (Option-cases (queue_row x.request_id q)) [
  | inl fresh ↦ rw fresh (Unique-append_one id_of q x u fresh)
  | inr (y, old) ↦ rw old u
]

enqueue-Unique :
    (id hash json : String) (created : ℕ) (q : Queue)
    → Unique id_of q
    → Unique id_of (after q (enqueue_command id hash json created q))
unfolding enqueue_command
enqueue-Unique id hash json created q u = elim (Option-cases (queue_row id q)) [
  | inl fresh ↦ rw (fresh, after) (Unique-append_one id_of q (new_row id hash json created) u fresh)
  | inr (x, old) ↦ elim (Bool-cases (str_eq x.command_hash hash)) [
    | inl agrees ↦ rw (old, agrees, after) u
    | inr differs ↦ rw (old, differs, after) u
  ]
]

at-Unique :
    (id : String) (test : Row → Bool) (f : Row → Row) (same : (r : Row) → id_of (f r) ≡ id_of r)
    (q : Queue)
    → Unique id_of q
    → Unique id_of (update_where (at id_of id test) f q)
at-Unique id test f same q = Unique-update id_of (at id_of id test) f same q

claim-Unique :
    (seen : Queue) (owner : String) (lease : ℕ) (router : Router) (now : ℕ) (q : Queue)
    → Unique id_of q
    → Unique id_of (after q (claim_next seen owner lease router now q))
claim-Unique seen owner lease router now q u =
    elim (claim_next_cases seen owner lease router now q u) [
      | idle h ↦ rw h u
      | won id x m ex c h ↦
          rw h (at-Unique id (claimable now) (take_over owner (now + lease)) (λ r. refl) q u)
    ]

quarantine-Unique :
    (id : String) (status : Status) (epoch : ℕ) (owner error : String) (now : ℕ) (q : Queue)
    → Unique id_of q
    → Unique id_of (quarantine_row id status epoch owner error now q).0
unfolding quarantine_row
quarantine-Unique id status epoch owner error now q u = elim (Bool-cases (is_processing status)) [
  | inl held ↦ rw held (at-Unique id (owned_by epoch owner) (quarantined error now) (λ r. refl) q u)
  | inr free ↦
      rw free (at-Unique id (λ r. is_waiting r.status) (quarantined error now) (λ r. refl) q u)
]

receipt-Unique :
    (id hash receipt : String) (now : ℕ) (q : Queue)
    → Unique id_of q
    → Unique id_of (import_legacy_receipt id hash receipt now q)
unfolding import_legacy_receipt
receipt-Unique id hash receipt now q u = elim (Option-cases (queue_row id q)) [
  | inl fresh ↦ rw (fresh, import_legacy_receipt) (Unique-append_one id_of q _ u fresh)
  | inr (x, old) ↦
      rw (old, import_legacy_receipt)
        (at-Unique id lacks_receipt (receipted receipt) (λ r. refl) q u)
]

requeue-Unique :
    (id : String) (now : ℕ) (q : Queue)
    → Unique id_of q
    → Unique id_of (after q (requeue_request id now q))
unfolding requeue_request
requeue-Unique id now q u = elim (Option-cases (queue_row id q)) [
  | inl gone ↦ rw (gone, after) u
  | inr (x, old) ↦ elim (Bool-cases (is_waiting x.status)) [
    | inl waits ↦ rw (old, waits, after) u
    | inr moves ↦ elim (Bool-cases (is_dead x.status)) [
      | inl dead ↦
          rw (old, moves, dead, after)
            (at-Unique id (λ r. is_dead r.status) (requeued now) (λ r. refl) q u)
      | inr alive ↦ rw (old, moves, alive, after) u
    ]
  ]
]

-- No call makes two rows of one request.
pub step-Unique : (c : Call) (q : Queue) → Unique id_of q → Unique id_of (step c q)
unfolding step ack_claim retry_claim dead_letter_claim renew_claim recover_queue_orphans
    import_legacy_row
step-Unique (enqueues id hash json created) q u = enqueue-Unique id hash json created q u
step-Unique (claims seen owner lease router now) q u = claim-Unique seen owner lease router now q u
step-Unique (acks id epoch owner receipt) q u =
    at-Unique id (owned_by epoch owner) (acked receipt) (λ r. refl) q u
step-Unique (retries id epoch owner error next) q u =
    at-Unique id (owned_by epoch owner) (parked error next) (λ r. refl) q u
step-Unique (buries id epoch owner error now) q u =
    at-Unique id (owned_by epoch owner) (buried error now) (λ r. refl) q u
step-Unique (renews id epoch owner till) q u =
    at-Unique id (owned_by epoch owner) (renewed till) (λ r. refl) q u
step-Unique (recovers now) q u = Unique-update id_of (expired now) (orphaned now) (λ r. refl) q u
step-Unique (quarantines id status epoch owner error now) q u =
    quarantine-Unique id status epoch owner error now q u
step-Unique (imports_row id hash json status attempts error next dead now) q u =
    insert-Unique (legacy_row id hash json status attempts error next dead now) q u
step-Unique (imports_receipt id hash receipt now) q u = receipt-Unique id hash receipt now q u
step-Unique (requeues id now) q u = requeue-Unique id now q u
step-Unique (prunes ids) q u = Unique-delete id_of (λ r. prunable r && has_id r.request_id ids) q u

pub run-Unique : (cs : List Call) (q : Queue) → Unique id_of q → Unique id_of (run cs q)
unfolding run
run-Unique [] q u = u
run-Unique (c ∷ cs) q u = run-Unique cs (step c q) (step-Unique c q u)

-- A property of a row that every transition keeps holds after any history that does not prune the
-- request, of the row that the request then has.
pub run-keeps {ℓ} :
    (P : Row → Type ℓ)
    → ((r r' : Row) → Change r r' → P r → P r')
    → (cs : List Call) (q : Queue) (k : String) (r : Row) → All (λ c. spares k c ≡ true) cs
    → Unique id_of q
    → queue_row k q ≡ some r
    → P r
    → (r' : Row) × (queue_row k (run cs q) ≡ some r') × P r'
unfolding run
run-keeps P keep [] q k r s u e h = (r, e, h)
run-keeps P keep (c ∷ cs) q k r (s, ss) u e h =
    let (x, ex, change) = step-Moves c q k r u e s in
    run-keeps P keep cs (step c q) k x ss (step-Unique c q u) ex (keep r x change h)
