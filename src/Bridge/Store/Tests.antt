-- ===== src/Bridge/Store/Tests.antt =====
-- Runs of src/bridge-store.ts: a malformed row before a command.
use dsh_codex_workflow.Common.Sort.{sort}
use dsh_codex_workflow.Common.{
  ℕ, String, ◌≡◌, refl, Bool, true, false, Option, none, some, List, [], ◌∷◌, if◌then◌else◌, str_eq,
  arith,
}
use dsh_codex_workflow.Common.Result.{ok}
use dsh_codex_workflow.Common.Table.{get, count_where, select_where, update_where}
use dsh_codex_workflow.Queue.Rows.{Row, new_row, take_over}
use dsh_codex_workflow.Queue.Operations.{
  Queue, claim_next, claim_candidates, eligible_ids, candidate_rows, enqueue_command, claim_first,
  recover_queue_orphans,
}
use dsh_codex_workflow.Queue.Transitions.{recovers, run, step}
use dsh_codex_workflow.Bridge.Protocol.{BridgeCommand, submit_verdict}
use dsh_codex_workflow.Bridge.Encoding.{command_json}
use dsh_codex_workflow.Bridge.Store.{
  enqueue, wrap_claim, Host, BridgeStore, delivered, BridgeReceipt, ClaimedBridgeCommand, Answer,
  wrapped, routed, ack, receipt, receipt_json, command_hash,
}
use dsh_codex_workflow.Bridge.Store.Turns.{Turn, claim_next_command}
use dsh_codex_workflow.Bridge.Store.Answers.{Settled, claim_next_command-Settled}
use dsh_codex_workflow.Bridge.Store.Receipts.{ack-receipt, enqueue-claimed}
use dsh_codex_workflow.Review.{pass}

abbrev command : BridgeCommand
command = submit_verdict (record {
  request_id = "r";
  created_at = "2025-01-01";
  workflow_id = "w";
  codex_thread_id = "t";
  submission_id = some "s";
  dsh_session_id = none;
  verdict = record { verdict = pass; findings = []; test_gaps = []; summary = "" };
})

abbrev any_text : String → Bool
any_text s = true

-- The one receipt that is printed below.
abbrev full : BridgeReceipt
full = record {
  request_id = "r";
  status = delivered;
  workflow_id = some "w";
  delivered_at = some "now";
  error = none;
  command_hash = some "{}";
}

abbrev host : Host
host = record {
  valid_uuid = any_text;
  valid_date = any_text;
  windows_path = any_text;
  parse_date = λ s. some 5;
  parse_json = λ s.
      if str_eq s "bad"
      then none
      else if str_eq s "receipt"
      then some (receipt_json full)
      else some (command_json command);
  stringify = λ v. "{}";
  pretty = λ v. "receipt";
  sha256 = λ s. s;
  message = λ w. "malformed";
  max_payload_bytes = 10;
  lease_ms = 60;
}

abbrev store : BridgeStore
store = record {
  closed = false;
  opened = false;
  queue = new_row "m" "x" "bad" 1 ∷ new_row "r" "{}" "{}" 2 ∷ [];
}

abbrev turn_at : ℕ → Turn
turn_at n = record { before = []; after_probe = []; between = []; now = n; later = n }

abbrev turns : List Turn
turns = turn_at 1 ∷ turn_at 2 ∷ turn_at 3 ∷ []

abbrev answer : Option (Answer (Option ClaimedBridgeCommand))
answer = claim_next_command host "me" none turns store

claim_next_command-Settled_example :
    (q : Queue) × (found : Option ClaimedBridgeCommand) × (answer
      ≡ some (record store { opened = true; queue = q }, ok found))
    × Settled host "me" (routed host none) turns q found
unfolding get count_where
claim_next_command-Settled_example =
    claim_next_command-Settled host "me" none turns store refl
      ((refl, refl, refl), ((refl, refl, refl), ((refl, refl, refl), tt))) (refl, (refl, tt))
      (omega arith)

abbrev taken : Row
taken = take_over "me" 61 (new_row "r" "{}" "{}" 2)

abbrev claim : ClaimedBridgeCommand
claim = wrapped "me" taken command

abbrev claimed : BridgeStore
claimed = record { closed = false; opened = true; queue = taken ∷ [] }

abbrev verdict_receipt : BridgeReceipt
verdict_receipt = record {
  request_id = "r";
  status = delivered;
  workflow_id = some "w";
  delivered_at = none;
  error = none;
  command_hash = none;
}

ack-receipt_example :
    ((ack host claim verdict_receipt "now" claimed).1 ≡ ok true)
    × ((receipt host "r" (record (ack host claim verdict_receipt "now" claimed).0 {
      queue = run (recovers 9 ∷ []) (ack host claim verdict_receipt "now" claimed).0.queue;
    })).1
        ≡ ok (some (receipt_json full)))
unfolding get command_hash
ack-receipt_example =
    ack-receipt host claim verdict_receipt "now" claimed (recovers 9 ∷ []) taken (refl, tt) refl
      refl (refl, tt) refl refl refl refl

abbrev empty_store : BridgeStore
empty_store = record { closed = false; opened = false; queue = [] }

abbrev enqueued : Queue
enqueued = (enqueue host command 4 empty_store).0.queue

abbrev delivered_row : Row
delivered_row = take_over "me" 61 (new_row "r" "{}" "{}" 4)

claim_next-enqueued :
    claim_next enqueued "me" 60 none 1 (run (recovers 9 ∷ []) enqueued)
    ≡ ok (delivered_row ∷ [], some delivered_row)
unfolding claim_next enqueue claim_candidates eligible_ids candidate_rows sort select_where
    enqueue_command get claim_first run step recover_queue_orphans update_where count_where
claim_next-enqueued = refl

enqueue-claimed_example :
    wrap_claim host delivered_row "me" ≡ ok (wrapped "me" delivered_row command)
unfolding get
enqueue-claimed_example =
    enqueue-claimed host command 4 empty_store (recovers 9 ∷ []) enqueued (delivered_row ∷ []) "me"
      "me" 60 1 none delivered_row (refl, tt) refl refl tt refl
      ((refl, refl), (refl, refl), refl, (refl, refl), (refl, refl), tt, tt) refl refl
      claim_next-enqueued refl
