-- ===== src/Queue/Repetition.antt =====
-- Repeated calls: enqueueing one request again, recovering orphans again, requeueing again.
use dsh_codex_workflow.Common.{
  ℕ, String, ◌≡◌, refl, ap, subst, ◌∙◌, inl, inr, true, false, none, some, List, [], ◌∷◌, ◌++◌,
  arith, if◌then◌else◌, str_eq, str_eq_iff, str_eq_refl, Bool-cases, Option-cases, All, ◌&&◌, leb,
}
use dsh_codex_workflow.Common.Result.{ok, err}
use dsh_codex_workflow.Common.Table.{
  update_where, count_where, get, Unique, get-append_none, get-update, update_none, update-count,
}
use dsh_codex_workflow.Queue.Rows.{
  claimable, owned_by, retry, Row, id_of, is_processing, is_waiting, is_dead, new_row, expired,
  orphaned, requeued,
}
use dsh_codex_workflow.Queue.Operations.{
  Queue, different_command, cannot_requeue, queue_row, Enqueued, duplicate, enqueue_command,
  recover_queue_orphans, requeue_dead, requeue_request,
}
use dsh_codex_workflow.Queue.Transitions.{Call, spares, enqueues, after, step, run}
use dsh_codex_workflow.Queue.Keys.{step-Unique}
use dsh_codex_workflow.Queue.Fencing.{update_one-done}
use dsh_codex_workflow.Queue.Receipts.{run-Extends}

enqueue_known :
    (id hash json : String) (created : ℕ) (q : Queue) (r : Row)
    → queue_row id q ≡ some r
    → enqueue_command id hash json created q
      ≡ (if str_eq r.command_hash hash then ok (q, duplicate) else err (different_command id))
unfolding enqueue_command
enqueue_known id hash json created q r e = rw (e, enqueue_command)

-- A successful enqueue leaves a row with the command's hash.
enqueue-stored :
    (id hash json : String) (created : ℕ) (q q' : Queue) (answer : Enqueued)
    → enqueue_command id hash json created q ≡ ok (q', answer)
    → (r : Row) × (queue_row id q' ≡ some r) × (r.command_hash ≡ hash)
unfolding enqueue_command get
enqueue-stored id hash json created q q' answer h = elim (Option-cases (queue_row id q)) [
  | inl fresh ↦ (new_row id hash json created, stored_new fresh (ground arith), refl)
  | inr (r, old) ↦ elim (Bool-cases (str_eq r.command_hash hash)) [
    | inl agrees ↦ (r, ground arith, (str_eq_iff _ _).0 agrees)
    | inr differs ↦ absurd (ground arith)
  ]
]
  where
    stored_new :
        queue_row id q ≡ none
        → q' ≡ q ++ new_row id hash json created ∷ []
        → queue_row id q' ≡ some (new_row id hash json created)
    stored_new fresh e =
        ap (queue_row id) e
        ∙ get-append_none id_of id q (new_row id hash json created ∷ []) fresh
        ∙ rw (str_eq_refl id)

-- After a request was enqueued and any calls were made that do not prune it, enqueueing it again with
-- the same hash is answered `duplicate`, and with another hash it throws; the table stays as it is
-- either way.
pub enqueue_again :
    (id hash hash' json json' : String) (created created' : ℕ) (q q' : Queue) (answer : Enqueued)
    (between : List Call)
    → All (λ c. spares id c ≡ true) between
    → Unique id_of q
    → enqueue_command id hash json created q ≡ ok (q', answer)
    → enqueue_command id hash' json' created' (run between q')
      ≡ (if str_eq hash hash' then ok (run between q', duplicate) else err (different_command id))
unfolding step
enqueue_again id hash hash' json json' created created' q q' answer between s u h =
    let (r, e, same) = enqueue-stored id hash json created q q' answer h in
    let u' : Unique id_of q' =
      subst (λ t. Unique id_of (after q t)) h (step-Unique (enqueues id hash json created) q u) in
    let (x, ex, ext) = run-Extends between q' id r s u' e in
    enqueue_known id hash' json' created' (run between q') x ex
    ∙ ap
        (λ t. if str_eq t hash' then ok (run between q', duplicate) else err (different_command id))
        (ext.hash_kept ∙ same)

not_orphan : (now : ℕ) (r : Row) → expired now (orphaned now r) ≡ false
not_orphan now r = refl

-- What becomes of a row: where its claim has expired it is due at once and may be claimed, with its
-- epoch, attempts and command kept, and no claim holds it; otherwise it is left as it is.
pub data Recovered (now : ℕ) (r r' : Row) : Type 0 where
  due :
      (is_processing r.status && leb r.claim_until now) ≡ true
      → r'.status ≡ retry
      → r'.next_attempt_at ≡ some now
      → r'.claim_epoch ≡ r.claim_epoch
      → r'.claim_owner ≡ ""
      → r'.claim_until ≡ 0
      → r'.attempts ≡ r.attempts
      → r'.request_id ≡ r.request_id
      → r'.command_json ≡ r.command_json
      → claimable now r' ≡ true
      → ((epoch : ℕ) (owner : String) → owned_by epoch owner r' ≡ false)
      → Recovered now r r'
  left : (is_processing r.status && leb r.claim_until now) ≡ false → r' ≡ r → Recovered now r r'

orphaned-Recovered :
    (now : ℕ) (r : Row) → Recovered now r (if expired now r then orphaned now r else r)
orphaned-Recovered now r = elim (Bool-cases (expired now r)) [
  | inl late ↦
      rw late
        (due late refl refl refl refl refl refl refl refl (ground arith) (λ epoch owner. refl))
  | inr alive ↦ rw alive (left alive refl)
]

-- `recoverQueueOrphans` puts exactly the processing rows whose deadline is reached back to retry, due
-- at once, without an owner and a deadline, and with their epoch, attempts and command kept: each of
-- them may be claimed, and no holder of a claim may change it. Every other row stays. Called again at the same time it changes no row and answers 0.
pub recover_again :
    (now : ℕ) (q : Queue) (k : String) (r : Row)
    → queue_row k q ≡ some r
    → ((r' : Row) × (queue_row k (recover_queue_orphans now q).0 ≡ some r') × Recovered now r r')
      × (recover_queue_orphans now (recover_queue_orphans now q).0
          ≡ ((recover_queue_orphans now q).0, 0))
unfolding recover_queue_orphans
recover_again now q k r e = (
  (
    if expired now r then orphaned now r else r,
    get-update id_of (expired now) (orphaned now) (λ x. refl) k q ∙ rw e refl,
    orphaned-Recovered now r,
  ),
  rw none_left (λ i. (
    update_none (expired now) (orphaned now) (update_where (expired now) (orphaned now) q) none_left
        i,
    0,
  )),
)
  where
    none_left : count_where (expired now) (update_where (expired now) (orphaned now) q) ≡ 0
    none_left = update-count (expired now) (orphaned now) (not_orphan now) q

requeue_known :
    (id : String) (now : ℕ) (q : Queue) (r : Row)
    → queue_row id q ≡ some r
    → requeue_request id now q ≡ (
        if is_waiting r.status
        then ok (q, record { changed = false; from = some r.status })
        else if is_dead r.status
        then ok (requeue_dead id now r.status q)
        else err (cannot_requeue r.status))
unfolding requeue_request
requeue_known id now q r e = rw (e, requeue_request)

requeue-revives :
    (id : String) (now : ℕ) (q : Queue) (r : Row)
    → Unique id_of q
    → queue_row id q ≡ some r
    → is_dead r.status ≡ true
    → (requeue_dead id now r.status q
        ≡ ((requeue_dead id now r.status q).0, record { changed = true; from = some r.status }))
      × (queue_row id (requeue_dead id now r.status q).0 ≡ some (requeued now r))
unfolding requeue_dead
requeue-revives id now q r u e h =
    let (changed, stored) =
      update_one-done id (λ x. is_dead x.status) (requeued now) q r (λ x. refl) u e h in
    (rw changed, stored)

dead-not_waiting : (r : Row) → is_dead r.status ≡ true → is_waiting r.status ≡ false
dead-not_waiting r h = ground arith

-- Requeueing a dead-letter or failed request puts it back to retry, due at once, with its attempts
-- and epoch kept, and says so; requeueing it again at any time changes nothing and says that.
pub requeue_again :
    (id : String) (now later : ℕ) (q : Queue) (r : Row)
    → Unique id_of q
    → queue_row id q ≡ some r
    → is_dead r.status ≡ true
    → (q' : Queue) × (requeue_request id now q
        ≡ ok (q', record { changed = true; from = some r.status }))
      × (queue_row id q' ≡ some (requeued now r))
      × (requeue_request id later q' ≡ ok (q', record { changed = false; from = some retry }))
requeue_again id now later q r u e h =
    let (said, stored) = requeue-revives id now q r u e h in
    (
      (requeue_dead id now r.status q).0,
      requeue_known id now q r e ∙ rw (dead-not_waiting r h) (rw h (ap ok said)),
      stored,
      requeue_known id later (requeue_dead id now r.status q).0 (requeued now r) stored,
    )
