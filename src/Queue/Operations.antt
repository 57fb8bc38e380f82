-- ===== src/Queue/Operations.antt =====
-- The operations of src/infrastructure/queue-repository.ts: the SQL statements and transactions on
-- the table. A transaction that throws is rolled back, so an operation that may throw returns an
-- error or the new table.
use dsh_codex_workflow.Common.{
  ℕ, ◌+◌, String, Bool, true, false, Option, none, some, List, [], ◌∷◌, ◌++◌, map, ◌==◌,
  if◌then◌else◌, str_eq,
}
use dsh_codex_workflow.Common.Table.{update_where, count_where, select_where, get, at}
use dsh_codex_workflow.Common.Sort.{sort, before}
use dsh_codex_workflow.Common.Result.{Result, ok, err}
use dsh_codex_workflow.Queue.Rows.{
  Status, Row, id_of, is_processing, is_inbox, is_waiting, is_dead, status_eq, new_row, legacy_row,
  or_zero, Router, retry_due, expired, claimable, take_over, owned_by, acked, parked, buried,
  renewed, orphaned, quarantined, requeued, lacks_receipt, receipted, done,
}

abbrev pub Queue : Type 0
Queue = List Row

pub data Error : Type 0 where
  different_command : String → Error
  row_vanished : String → Error
  cannot_requeue : Status → Error

abbrev pub queue_row : String → Queue → Option Row
queue_row id q = get id_of id q

pub data Enqueued : Type 0 where
  inserted duplicate : Enqueued

unfoldable pub enqueue_command :
    String → String → String → ℕ → Queue → Result Error (Queue × Enqueued)
enqueue_command id hash json created q = elim (queue_row id q) [
  | none ↦ ok (q ++ new_row id hash json created ∷ [], inserted)
  | some r ↦ if str_eq r.command_hash hash then ok (q, duplicate) else err (different_command id)
]

-- `probe && eligible(probe.command_json)`.
abbrev pub probed : (String → Bool) → Option Row → Bool
probed eligible none = false
probed eligible (some r) = eligible r.command_json

-- The router probes the command of each candidate; without a router all are kept.
unfoldable pub eligible_ids : Router → Queue → List String → List String
eligible_ids none q ids = ids
eligible_ids (some eligible) q [] = []
eligible_ids (some eligible) q (id ∷ ids) =
    let rest = eligible_ids (some eligible) q ids in
    if probed eligible (queue_row id q) then id ∷ rest else rest

-- The three SELECTs of `claimCandidates`, each with its ORDER BY.
abbrev pub by_attempt : Row → Row → Bool
by_attempt a b =
    before (or_zero a.next_attempt_at) a.request_id (or_zero b.next_attempt_at) b.request_id

abbrev pub by_claim : Row → Row → Bool
by_claim a b = before a.claim_until a.request_id b.claim_until b.request_id

abbrev pub by_creation : Row → Row → Bool
by_creation a b = before a.created_at a.request_id b.created_at b.request_id

abbrev pub due_rows : ℕ → Queue → List Row
due_rows now q = sort by_attempt (select_where (retry_due now) q)

abbrev pub expired_rows : ℕ → Queue → List Row
expired_rows now q = sort by_claim (select_where (expired now) q)

abbrev pub inbox_rows : Queue → List Row
inbox_rows q = sort by_creation (select_where (λ r. is_inbox r.status) q)

-- Due retries first, then expired claims, then the inbox by arrival.
unfoldable pub candidate_rows : ℕ → Queue → List Row
candidate_rows now q = due_rows now q ++ (expired_rows now q ++ inbox_rows q)

unfoldable pub claim_candidates : ℕ → Router → Queue → List String
claim_candidates now router q = eligible_ids router q (map id_of (candidate_rows now q))

unfoldable pub claim_first :
    String → ℕ → ℕ → List String → Queue → Result Error (Queue × Option Row)
claim_first owner till now [] q = ok (q, none)
claim_first owner till now (id ∷ ids) q =
    let p = at id_of id (claimable now) in
    let claimed = update_where p (take_over owner till) q in
    let rest = claim_first owner till now ids claimed in
    if count_where p q == 1
    then elim (queue_row id claimed) [
      | none ↦ err (row_vanished id)
      | some r ↦ ok (claimed, some r)
    ]
    else rest

abbrev pub is_nil : List String → Bool
is_nil [] = true
is_nil (_ ∷ _) = false

-- `seen` is the table that the read-only probe saw, before the transaction began.
unfoldable pub claim_next :
    Queue → String → ℕ → Router → ℕ → Queue → Result Error (Queue × Option Row)
claim_next seen owner lease_ms router now q =
    if is_nil (claim_candidates now router seen)
    then ok (q, none)
    else claim_first owner (now + lease_ms) now (claim_candidates now router q) q

-- An UPDATE by key: the new table, and whether one row changed.
unfoldable pub update_one : String → (Row → Bool) → (Row → Row) → Queue → Queue × Bool
update_one id q f rows =
    (update_where (at id_of id q) f rows, count_where (at id_of id q) rows == 1)

unfoldable pub ack_claim : String → ℕ → String → String → Queue → Queue × Bool
unfolding update_one
ack_claim id epoch owner receipt = update_one id (owned_by epoch owner) (acked receipt)

unfoldable pub retry_claim : String → ℕ → String → String → ℕ → Queue → Queue × Bool
unfolding update_one
retry_claim id epoch owner error next = update_one id (owned_by epoch owner) (parked error next)

unfoldable pub dead_letter_claim : String → ℕ → String → String → ℕ → Queue → Queue × Bool
unfolding update_one
dead_letter_claim id epoch owner error now = update_one id (owned_by epoch owner) (buried error now)

unfoldable pub renew_claim : String → ℕ → String → ℕ → Queue → Queue × Bool
unfolding update_one
renew_claim id epoch owner till = update_one id (owned_by epoch owner) (renewed till)

unfoldable pub recover_queue_orphans : ℕ → Queue → Queue × ℕ
recover_queue_orphans now q =
    (update_where (expired now) (orphaned now) q, count_where (expired now) q)

unfoldable pub quarantine_row : String → Status → ℕ → String → String → ℕ → Queue → Queue × Bool
unfolding update_one
quarantine_row id status epoch owner error now q =
    if is_processing status
    then update_one id (owned_by epoch owner) (quarantined error now) q
    else update_one id (λ r. is_waiting r.status) (quarantined error now) q

-- `ON CONFLICT(request_id) DO NOTHING`.
unfoldable pub import_legacy_row :
    String → String → String → Status → ℕ → Option String → Option ℕ → Option ℕ → ℕ → Queue → Queue
import_legacy_row id hash json status attempts error next dead now q = elim (queue_row id q) [
  | none ↦ q ++ legacy_row id hash json status attempts error next dead now ∷ []
  | some _ ↦ q
]

-- `ON CONFLICT(request_id) DO UPDATE … WHERE queue.receipt_json IS NULL`.
unfoldable pub import_legacy_receipt : String → String → String → ℕ → Queue → Queue
import_legacy_receipt id hash receipt now q = elim (queue_row id q) [
  | none ↦
      q ++ record (new_row id hash "{}" now) { status = done; receipt_json = some receipt } ∷ []
  | some _ ↦ update_where (at id_of id lacks_receipt) (receipted receipt) q
]

unfoldable pub queue_rows_by_status : Status → Queue → List Row
queue_rows_by_status status q = sort by_creation (select_where (λ r. status_eq r.status status) q)

pub record Requeued : Type 0 where
  pub changed : Bool
  pub from : Option Status

-- The UPDATE of `requeueRequest`, on a dead-letter or failed row.
unfoldable pub requeue_dead : String → ℕ → Status → Queue → Queue × Requeued
unfolding update_one
requeue_dead id now from q =
    let (q', changed) = update_one id (λ r. is_dead r.status) (requeued now) q in
    (q', record { changed = changed; from = some from })

-- `requeueRequest` of src/coordination.ts.
unfoldable pub requeue_request : String → ℕ → Queue → Result Error (Queue × Requeued)
unfolding requeue_dead
requeue_request id now q = elim (queue_row id q) [
  | none ↦ ok (q, record { changed = false; from = none })
  | some r ↦
      if is_waiting r.status
      then ok (q, record { changed = false; from = some r.status })
      else if is_dead r.status
      then ok (requeue_dead id now r.status q)
      else err (cannot_requeue r.status)
]
