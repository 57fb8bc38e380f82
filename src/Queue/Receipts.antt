-- ===== src/Queue/Receipts.antt =====
-- What survives histories of calls on the queue until a row is pruned: the final receipt, the
-- command and the count of attempts of a request.
use dsh_codex_workflow.Common.{
  ℕ, ◌≤◌, String, ◌≡◌, refl, sym, subst, ◌∙◌, true, false, some, List, All, arith,
}
use dsh_codex_workflow.Common.Table.{Unique}
use dsh_codex_workflow.Queue.Rows.{done, Row, id_of, owned_by, acked, lacks_receipt}
use dsh_codex_workflow.Queue.Operations.{Queue, queue_row, update_one, ack_claim}
use dsh_codex_workflow.Queue.Transitions.{
  Change, kept, claimed, finished, set_aside, given_up, prolonged, recovered, isolated, imported,
  revived, Call, spares, acks, step, run,
}
use dsh_codex_workflow.Queue.Keys.{step-Unique, run-keeps}
use dsh_codex_workflow.Queue.Fencing.{update_one-done}

-- A row with a final receipt.
abbrev pub IsFinal : Row → Type 0
IsFinal r = (r.status ≡ done) × (lacks_receipt r ≡ false)

-- No transition leaves a final row.
Change-IsFinal : (r r' : Row) → Change r r' → IsFinal r → r' ≡ r
Change-IsFinal r r' (kept e) f = e
Change-IsFinal r r' (claimed owner till now c e) f = ground arith
Change-IsFinal r r' (finished epoch owner receipt h e) f = ground arith
Change-IsFinal r r' (set_aside epoch owner error next h e) f = ground arith
Change-IsFinal r r' (given_up epoch owner error now h e) f = ground arith
Change-IsFinal r r' (prolonged epoch owner till h e) f = ground arith
Change-IsFinal r r' (recovered now h e) f = ground arith
Change-IsFinal r r' (isolated error now h e) f = ground arith
Change-IsFinal r r' (imported receipt h e) f = cc
Change-IsFinal r r' (revived now h e) f = ground arith

-- A row that is done and holds a receipt is the same row after every history of calls that does not
-- prune it.
pub run-IsFinal :
    (cs : List Call) (q : Queue) (k : String) (r : Row)
    → All (λ c. spares k c ≡ true) cs
    → Unique id_of q
    → queue_row k q ≡ some r
    → IsFinal r
    → queue_row k (run cs q) ≡ some r
run-IsFinal cs q k r s u e f =
    let (r', e', same) =
      run-keeps (λ x. x ≡ r)
        (λ x y change t. Change-IsFinal x y change (subst IsFinal (sym t) f) ∙ t) cs q k r s u e
        refl in
    subst (λ x. queue_row k (run cs q) ≡ some x) same e'

-- An acknowledgement by the holder of the claim stores the receipt, and no later history of calls
-- changes the row, as long as none of them prunes the request.
pub ack-run :
    (id owner receipt : String) (epoch : ℕ) (later : List Call) (q : Queue) (r : Row)
    → All (λ c. spares id c ≡ true) later
    → Unique id_of q
    → queue_row id q ≡ some r
    → owned_by epoch owner r ≡ true
    → ((ack_claim id epoch owner receipt q).1 ≡ true)
      × (queue_row id (run later (ack_claim id epoch owner receipt q).0) ≡ some (acked receipt r))
unfolding ack_claim step update_one
ack-run id owner receipt epoch later q r s u e h =
    let (answer, stored) =
      update_one-done id (owned_by epoch owner) (acked receipt) q r (λ x. refl) u e h in
    (
      answer,
      run-IsFinal later _ id (acked receipt r) s (step-Unique (acks id epoch owner receipt) q u)
          stored (refl, refl),
    )

-- What a request was enqueued with, and a count that only grows.
pub record Extends (r r' : Row) : Type 0 where
  pub id_kept : r'.request_id ≡ r.request_id
  pub hash_kept : r'.command_hash ≡ r.command_hash
  pub json_kept : r'.command_json ≡ r.command_json
  pub date_kept : r'.created_at ≡ r.created_at
  pub attempts_grow : r.attempts ≤ r'.attempts
  pub epoch_grows : r.claim_epoch ≤ r'.claim_epoch

Change-Extends : (r r' : Row) → Change r r' → Extends r r'
Change-Extends r r' (kept e) = ground arith
Change-Extends r r' (claimed owner till now c e) = ground arith
Change-Extends r r' (finished epoch owner receipt h e) = ground arith
Change-Extends r r' (set_aside epoch owner error next h e) = ground arith
Change-Extends r r' (given_up epoch owner error now h e) = ground arith
Change-Extends r r' (prolonged epoch owner till h e) = ground arith
Change-Extends r r' (recovered now h e) = ground arith
Change-Extends r r' (isolated error now h e) = ground arith
Change-Extends r r' (imported receipt h e) = ground arith
Change-Extends r r' (revived now h e) = ground arith

-- After any history of calls that does not prune it a request still has its row, with the same id,
-- command and creation date, and with no fewer attempts and no lower epoch.
pub run-Extends :
    (cs : List Call) (q : Queue) (k : String) (r : Row)
    → All (λ c. spares k c ≡ true) cs
    → Unique id_of q
    → queue_row k q ≡ some r
    → (r' : Row) × (queue_row k (run cs q) ≡ some r') × Extends r r'
run-Extends cs q k r s u e =
    run-keeps (Extends r) (λ x y change h. let k = Change-Extends x y change in ground arith) cs q k
      r s u e (ground arith)
