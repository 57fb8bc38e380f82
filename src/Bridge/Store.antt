-- ===== src/Bridge/Store.antt =====
-- `BridgeStore` of src/bridge-store.ts: commands and receipts over the queue of
-- src/infrastructure/queue-repository.ts.
pub mod Turns
pub mod Answers
pub mod Receipts
mod Tests
use Prim.Native.String.{len}
use dsh_codex_workflow.Common.{
  ℕ, ◌+◌, String, Bool, true, false, ◌||◌, Option, none, some, List, [], ◌∷◌, map, ltb,
  if◌then◌else◌, str_eq,
}
use dsh_codex_workflow.Common.Result.{Result, ok, err, ◌>>=◌}
use dsh_codex_workflow.Json.{Json, Fields, str, obj, empty, field, lookup}
use dsh_codex_workflow.Queue.Rows.{Status, Row, Router}
use dsh_codex_workflow.Queue.Operations.{
  Queue, Error, Enqueued, Requeued, queue_row, enqueue_command, claim_next, ack_claim, retry_claim,
  dead_letter_claim, renew_claim, recover_queue_orphans, quarantine_row, queue_rows_by_status,
  requeue_request,
}
use dsh_codex_workflow.Queue.Transitions.{Call, run}
use dsh_codex_workflow.Bridge.Protocol.{
  BridgeCommand, DispatchPlan, SubmitVerdict, SubmissionNotice, dispatch_plan, submit_verdict,
  submission_notice, Failure, parse_bridge_command,
}
use dsh_codex_workflow.Bridge.Encoding.{command_json, text_field}

-- Why a claimed row is no command: what `wrapClaim` throws.
pub data WrapFailure : Type 0 where
  not_json : WrapFailure
  no_command : Failure → WrapFailure
  payload_exceeds : ℕ → WrapFailure

-- What the store takes from the platform: the regular expressions of the protocol, `Date.parse`,
-- JSON texts, SHA-256, the message of an error, and its own two settings.
pub record Host : Type 0 where
  pub valid_uuid : String → Bool
  pub valid_date : String → Bool
  pub windows_path : String → Bool
  pub parse_date : String → Option ℕ
  pub parse_json : String → Option Json
  pub stringify : Json → String
  -- `JSON.stringify(_, null, 2)` with a newline.
  pub pretty : Json → String
  pub sha256 : String → String
  pub message : WrapFailure → String
  pub max_payload_bytes : ℕ
  pub lease_ms : ℕ

pub data StoreError : Type 0 where
  store_closed no_coordination : StoreError
  invalid_request_id : String → StoreError
  invalid_deadline : StoreError
  queue_error : Error → StoreError
  not_json : StoreError

-- `coordination` is there once a call has opened it, and `close` takes it away for good.
pub record BridgeStore : Type 0 where
  pub closed : Bool
  pub opened : Bool
  pub queue : Queue

pub data ReceiptStatus : Type 0 where
  delivered duplicate no_such_workflow cancelled failed rejected : ReceiptStatus

pub record BridgeReceipt : Type 0 where
  pub request_id : String
  pub status : ReceiptStatus
  pub workflow_id : Option String
  pub delivered_at : Option String
  pub error : Option String
  pub command_hash : Option String

pub record ClaimedBridgeCommand : Type 0 where
  pub request_id : String
  pub instance_id : String
  pub command : BridgeCommand
  pub attempts : ℕ
  pub last_error : Option String
  pub claim_epoch : ℕ
  pub claim_owner : String
  pub claim_until : ℕ

abbrev pub request_id_of : BridgeCommand → String
request_id_of (dispatch_plan c) = c.request_id
request_id_of (submit_verdict c) = c.request_id
request_id_of (submission_notice c) = c.request_id

-- `x ? { key: x } : {}`: an empty text counts as absent.
abbrev pub filled : Option String → Option String
filled none = none
filled (some s) = if str_eq s "" then none else some s

abbrev pub status_text : ReceiptStatus → String
status_text delivered = "delivered"
status_text duplicate = "duplicate"
status_text no_such_workflow = "no_such_workflow"
status_text cancelled = "cancelled"
status_text failed = "failed"
status_text rejected = "rejected"

unfoldable pub receipt_json : BridgeReceipt → Json
receipt_json r = obj (
    field "requestId" (str r.request_id) (
      field "status" (str (status_text r.status)) (
        text_field "commandHash" r.command_hash (
          text_field "workflowId" r.workflow_id
            (text_field "deliveredAt" r.delivered_at (text_field "error" r.error empty))))))

-- A call answers or throws, and leaves a store either way.
abbrev pub Answer {ℓ} : Type ℓ → Type ℓ
Answer A = BridgeStore × Result StoreError A

abbrev pub wrapped : String → Row → BridgeCommand → ClaimedBridgeCommand
wrapped instance_id r c = record {
  request_id = r.request_id;
  instance_id = instance_id;
  command = c;
  attempts = r.attempts;
  last_error = filled r.last_error;
  claim_epoch = r.claim_epoch;
  claim_owner = r.claim_owner;
  claim_until = r.claim_until;
}

-- `ensure`, which every call but `renew` begins with: the store has its coordination, unless it
-- was closed.
abbrev pub opening {ℓ} : {A : Type ℓ} → BridgeStore → (BridgeStore → Answer A) → Answer A
opening s f = if s.closed then (s, err store_closed) else f (record s { opened = true })

-- A call on the queue: one that throws leaves the queue as it was.
abbrev pub on_queue {ℓ} : {A : Type ℓ} → BridgeStore → Result Error (Queue × A) → Answer A
on_queue s (ok (q, a)) = (record s { queue = q }, ok a)
on_queue s (err e) = (s, err (queue_error e))

abbrev pub replaced {ℓ κ} : {A : Type ℓ} {B : Type κ} → B → Answer A → Answer B
replaced b (s, ok _) = (s, ok b)
replaced b (s, err e) = (s, err e)

abbrev pub stored_receipt : Option Row → Option String
stored_receipt none = none
stored_receipt (some r) = filled r.receipt_json

abbrev pub RowView : Type 0
RowView = String × ℕ × Option String

module _ (h : Host) where
  unfoldable pub command_hash : BridgeCommand → String
  command_hash c = h.sha256 (h.stringify (command_json c))

  abbrev pub read_command : String → Result WrapFailure BridgeCommand
  read_command text = elim (h.parse_json text) [
    | none ↦ err not_json
    | some v ↦ elim (parse_bridge_command h.valid_uuid h.valid_date h.windows_path v) [
      | ok c ↦ ok c
      | err f ↦ err (no_command f)
    ]
  ]

  abbrev pub too_large : String → Bool
  too_large text = ltb h.max_payload_bytes (len text)

  -- `eligible` answers none where it throws.
  abbrev pub routes : (BridgeCommand → Option Bool) → String → Bool
  routes eligible text = if too_large text then true else elim (read_command text) [
    | err _ ↦ true
    | ok c ↦ elim (eligible c) [ none ↦ true | some b ↦ b ]
  ]

  abbrev pub routed : Option (BridgeCommand → Option Bool) → Router
  routed none = none
  routed (some eligible) = some (routes eligible)

  unfoldable pub wrap_claim : Row → String → Result WrapFailure ClaimedBridgeCommand
  wrap_claim r instance_id = read_command r.command_json >>= (λ c.
      if too_large r.command_json
      then err (payload_exceeds h.max_payload_bytes)
      else ok (wrapped instance_id r c))

  abbrev pub with_id {ℓ} : {A : Type ℓ} → String → BridgeStore → (BridgeStore → Answer A) → Answer A
  with_id id s f = if h.valid_uuid id then f s else (s, err (invalid_request_id id))

  unfoldable pub enqueue : BridgeCommand → ℕ → BridgeStore → Answer String
  unfolding command_hash
  enqueue c now s = opening s (λ s₁. with_id (request_id_of c) s₁ (λ s₂.
      replaced (request_id_of c) (
        on_queue s₂ (
          enqueue_command (request_id_of c) (command_hash c) (h.stringify (command_json c)) now
            s₂.queue))))

  abbrev pub full_receipt : ClaimedBridgeCommand → BridgeReceipt → String → BridgeReceipt
  full_receipt claim result now_text = record {
    request_id = claim.request_id;
    status = result.status;
    workflow_id = filled result.workflow_id;
    delivered_at = elim result.delivered_at [ none ↦ some now_text | some t ↦ some t ];
    error = filled result.error;
    command_hash = elim result.command_hash [
      | none ↦ some (command_hash claim.command)
      | some t ↦ some t
    ];
  }

  abbrev pub receipt_text : ClaimedBridgeCommand → BridgeReceipt → String → String
  receipt_text claim result now_text = h.pretty (receipt_json (full_receipt claim result now_text))

  unfoldable pub ack : ClaimedBridgeCommand → BridgeReceipt → String → BridgeStore → Answer Bool
  ack claim result now_text s = opening s (λ s₁. on_queue s₁ (
      ok (
        ack_claim claim.request_id claim.claim_epoch claim.claim_owner
          (receipt_text claim result now_text) s₁.queue)))

  unfoldable pub retry : ClaimedBridgeCommand → String → String → BridgeStore → Answer Bool
  retry claim error next_attempt_at s = opening s (λ s₁. elim (h.parse_date next_attempt_at) [
    | none ↦ (s₁, err invalid_deadline)
    | some next ↦
        on_queue s₁ (
          ok (retry_claim claim.request_id claim.claim_epoch claim.claim_owner error next s₁.queue))
  ])

  unfoldable pub dead_letter : ClaimedBridgeCommand → String → ℕ → BridgeStore → Answer Bool
  dead_letter claim error now s = opening s (λ s₁. on_queue s₁ (
      ok (
        dead_letter_claim claim.request_id claim.claim_epoch claim.claim_owner error now s₁.queue)))

  -- It does not open the store, and fails where nothing else has.
  unfoldable pub renew : ClaimedBridgeCommand → ℕ → BridgeStore → Answer Bool
  renew claim now s =
      if s.opened
      then on_queue s (
          ok (
            renew_claim claim.request_id claim.claim_epoch claim.claim_owner (now + h.lease_ms)
              s.queue))
      else (s, err no_coordination)

  -- `JSON.parse` of the text that is stored; the value is not checked.
  abbrev pub parsed_receipt : Option String → Result StoreError (Option Json)
  parsed_receipt none = ok none
  parsed_receipt (some text) = elim (h.parse_json text) [
    | none ↦ err not_json
    | some value ↦ ok (some value)
  ]

  unfoldable pub receipt : String → BridgeStore → Answer (Option Json)
  receipt id s =
      opening s
        (λ s₁. with_id id s₁ (λ s₂. (s₂, parsed_receipt (stored_receipt (queue_row id s₂.queue)))))

  unfoldable pub recover_orphans : ℕ → BridgeStore → Answer ℕ
  recover_orphans now s = opening s (λ s₁. on_queue s₁ (ok (recover_queue_orphans now s₁.queue)))

  unfoldable pub rows_by_status : Status → BridgeStore → Answer (List RowView)
  rows_by_status status s = opening s (λ s₁. (
    s₁,
    ok (
        map (λ r. (r.request_id, r.attempts, filled r.last_error))
          (queue_rows_by_status status s₁.queue)),
  ))

  unfoldable pub requeue : String → ℕ → BridgeStore → Answer Requeued
  requeue id now s =
      opening s (λ s₁. with_id id s₁ (λ s₂. on_queue s₂ (requeue_request id now s₂.queue)))

-- After it every call but `renew` throws that the store is closed.
unfoldable pub close : BridgeStore → BridgeStore
close s = record s { closed = true; opened = false }
