-- ===== src/Queue/Refinement.antt =====
-- Every call on the queue of src/infrastructure/queue-repository.ts, seen as a transition of each
-- of its rows.
use dsh_codex_workflow.Common.{
  ℕ, String, ◌≡◌, refl, ◌∙◌, false, inl, inr, true, none, some, [], ◌∷◌, ◌++◌, arith, Bool-cases,
  Option-cases, ◌&&◌,
}
use dsh_codex_workflow.Common.Table.{Unique, key-get, get-append_some, get-delete}
use dsh_codex_workflow.Queue.Rows.{
  Status, Row, id_of, is_processing, is_waiting, legacy_row, expired, owned_by, acked, parked,
  buried, renewed, orphaned, quarantined, prunable, has_id,
}
use dsh_codex_workflow.Queue.Operations.{
  Queue, queue_row, update_one, ack_claim, retry_claim, dead_letter_claim, renew_claim,
  recover_queue_orphans, quarantine_row, import_legacy_row,
}
use dsh_codex_workflow.Queue.Transitions.{
  Moves, spares, prunes, Change, kept, finished, set_aside, given_up, prolonged, recovered,
  isolated, Call, enqueues, claims, acks, retries, buries, renews, recovers, quarantines,
  imports_row, imports_receipt, requeues, step, update-Moves, at-Moves, enqueue-Moves, claim-Moves,
  requeue-Moves, receipt-Moves,
}

-- The same claim mutation, for each new value of the row.
module _ (id : String) (epoch : ℕ) (owner : String) (f : Row → Row)
    (same : (r : Row) → id_of (f r) ≡ id_of r) where
  owned-Moves :
      (k : String) (q : Queue) (r : Row)
      → queue_row k q ≡ some r
      → (owned_by epoch owner r ≡ true → Change r (f r))
      → Moves k r (update_one id (owned_by epoch owner) f q).0
  unfolding update_one
  owned-Moves = at-Moves id (owned_by epoch owner) f same

quarantine-Moves :
    (id : String) (status : Status) (epoch : ℕ) (owner error : String) (now : ℕ) (k : String)
    (q : Queue) (r : Row)
    → queue_row k q ≡ some r
    → Moves k r (quarantine_row id status epoch owner error now q).0
unfolding quarantine_row
quarantine-Moves id status epoch owner error now k q r e =
    elim (Bool-cases (is_processing status)) [
      | inl held ↦ rw held (
          at-Moves id (owned_by epoch owner) (quarantined error now) (λ r. refl) k q r e
            (λ h. isolated error now (ground arith) refl))
      | inr free ↦ rw free (
          at-Moves id (λ r. is_waiting r.status) (quarantined error now) (λ r. refl) k q r e
            (λ h. isolated error now (ground arith) refl))
    ]

import-Moves :
    (x : Row) (k : String) (q : Queue) (r : Row)
    → queue_row k q ≡ some r
    → Moves k r (elim (queue_row x.request_id q) [ none ↦ q ++ x ∷ [] | some _ ↦ q ])
import-Moves x k q r e = elim (Option-cases (queue_row x.request_id q)) [
  | inl fresh ↦ rw fresh (r, get-append_some id_of k q (x ∷ []) e, kept refl)
  | inr (y, old) ↦ rw old (r, e, kept refl)
]

pub step-Moves :
    (c : Call) (q : Queue) (k : String) (r : Row)
    → Unique id_of q
    → queue_row k q ≡ some r
    → spares k c ≡ true
    → Moves k r (step c q)
unfolding step ack_claim retry_claim dead_letter_claim renew_claim recover_queue_orphans
    import_legacy_row
step-Moves (enqueues id hash json created) q k r u e s = enqueue-Moves id hash json created k q r e
step-Moves (claims seen owner lease router now) q k r u e s =
    claim-Moves seen owner lease router now k q r u e
step-Moves (acks id epoch owner receipt) q k r u e s =
    owned-Moves id epoch owner (acked receipt) (λ r. refl) k q r e
      (λ h. finished epoch owner receipt h refl)
step-Moves (retries id epoch owner error next) q k r u e s =
    owned-Moves id epoch owner (parked error next) (λ r. refl) k q r e
      (λ h. set_aside epoch owner error next h refl)
step-Moves (buries id epoch owner error now) q k r u e s =
    owned-Moves id epoch owner (buried error now) (λ r. refl) k q r e
      (λ h. given_up epoch owner error now h refl)
step-Moves (renews id epoch owner till) q k r u e s =
    owned-Moves id epoch owner (renewed till) (λ r. refl) k q r e
      (λ h. prolonged epoch owner till h refl)
step-Moves (recovers now) q k r u e s =
    update-Moves (expired now) (orphaned now) (λ r. refl) k q r e (λ h. recovered now h refl)
step-Moves (quarantines id status epoch owner error now) q k r u e s =
    quarantine-Moves id status epoch owner error now k q r e
step-Moves (imports_row id hash json status attempts error next dead now) q k r u e s =
    import-Moves (legacy_row id hash json status attempts error next dead now) k q r e
step-Moves (imports_receipt id hash receipt now) q k r u e s =
    receipt-Moves id hash receipt now k q r e
step-Moves (requeues id now) q k r u e s = requeue-Moves id now k q r e
step-Moves (prunes ids) q k r u e s = (
  r,
  get-delete id_of (λ x. prunable x && has_id x.request_id ids) k q u ∙ rw (e, stays) refl,
  kept refl,
)
  where
    stays : (prunable r && has_id r.request_id ids) ≡ false
    stays = let same = key-get id_of k q e in rw same (ground arith)
