-- ===== src/Bridge/Store/Receipts.antt =====
-- What `BridgeStore` of src/bridge-store.ts gives back: the command that was enqueued, and the
-- receipt that was acknowledged.
use dsh_codex_workflow.Common.{
  ℕ, String, ◌≡◌, refl, ap, subst, ◌∙◌, Bool, true, false, Option, none, some, List, if◌then◌else◌,
  str_eq, [], ◌∷◌, ◌++◌, str_eq_refl, some_unique, All,
}
use dsh_codex_workflow.Common.Result.{ok, err, ◌>>=◌}
use dsh_codex_workflow.Common.Table.{Unique, get, get-append_none, Unique-append_one}
use dsh_codex_workflow.Queue.Rows.{Row, id_of, Router, owned_by, new_row}
use dsh_codex_workflow.Queue.Operations.{
  Queue, inserted, queue_row, claim_next, enqueue_command, ack_claim,
}
use dsh_codex_workflow.Queue.Fencing.{claim_next-Won}
use dsh_codex_workflow.Queue.Receipts.{run-Extends, ack-run}
use dsh_codex_workflow.Queue.Keys.{run-Unique}
use dsh_codex_workflow.Queue.Transitions.{Call, spares, run}
use dsh_codex_workflow.Json.{Json}
use dsh_codex_workflow.Bridge.Protocol.{BridgeCommand}
use dsh_codex_workflow.Bridge.Encoding.{command_json}
use dsh_codex_workflow.Bridge.RoundTrip.{ValidCommand, encode-parse}
use dsh_codex_workflow.Bridge.Store.{
  payload_exceeds, Host, BridgeStore, BridgeReceipt, ClaimedBridgeCommand, store_closed, Answer,
  opening, request_id_of, command_hash, read_command, too_large, wrapped, wrap_claim, enqueue,
  receipt_text, ack, receipt, replaced, on_queue, with_id, stored_receipt, parsed_receipt,
  full_receipt, receipt_json, invalid_request_id,
}

enqueue_new :
    (id hash json : String) (created : ℕ) (q : Queue)
    → queue_row id q ≡ none
    → enqueue_command id hash json created q ≡ ok (q ++ new_row id hash json created ∷ [], inserted)
unfolding enqueue_command
enqueue_new id hash json created q fresh = rw (fresh, enqueue_command) refl

module _ (h : Host) where
  opening-open {ℓ} :
      {A : Type ℓ} (s : BridgeStore) (f : BridgeStore → Answer A)
      → s.closed ≡ false
      → opening s f ≡ f (record s { opened = true })
  opening-open s f running =
      ap (λ b. if b then (s, err store_closed) else f (record s { opened = true })) running

  with_id-valid {ℓ} :
      {A : Type ℓ} (id : String) (s : BridgeStore) (f : BridgeStore → Answer A)
      → h.valid_uuid id ≡ true
      → with_id h id s f ≡ f s
  with_id-valid id s f valid = ap (λ b. if b then f s else (s, err (invalid_request_id id))) valid

  receipt-open :
      (id : String) (s : BridgeStore)
      → s.closed ≡ false
      → h.valid_uuid id ≡ true
      → receipt h id s
        ≡ (record s { opened = true }, parsed_receipt h (stored_receipt (queue_row id s.queue)))
  unfolding receipt
  receipt-open id s running valid =
      opening-open s
        (λ x. with_id h id x (λ y. (y, parsed_receipt h (stored_receipt (queue_row id y.queue)))))
        running
      ∙ with_id-valid id (record s { opened = true })
          (λ y. (y, parsed_receipt h (stored_receipt (queue_row id y.queue)))) valid

  -- An acknowledgement by the holder of a claim answers true, and whatever calls are made on the
  -- queue afterwards, as long as none of them prunes the request, the store then answers the request
  -- with the value of exactly that receipt, if its text is not empty and is read as the value that
  -- was printed.
  pub ack-receipt :
      (claim : ClaimedBridgeCommand) (result : BridgeReceipt) (now_text : String) (s : BridgeStore)
      (later : List Call) (r : Row)
      → All (λ c. spares claim.request_id c ≡ true) later
      → s.closed ≡ false
      → h.valid_uuid claim.request_id ≡ true
      → Unique id_of s.queue
      → queue_row claim.request_id s.queue ≡ some r
      → owned_by claim.claim_epoch claim.claim_owner r ≡ true
      → str_eq (receipt_text h claim result now_text) "" ≡ false
      → h.parse_json (receipt_text h claim result now_text)
        ≡ some (receipt_json (full_receipt h claim result now_text))
      → ((ack h claim result now_text s).1 ≡ ok true)
        × ((receipt h claim.request_id (record (ack h claim result now_text s).0 {
          queue = run later (ack h claim result now_text s).0.queue;
        })).1
            ≡ ok (some (receipt_json (full_receipt h claim result now_text))))
  unfolding ack
  ack-receipt claim result now_text s later r spared running valid u e owned some_text printed =
      let text = receipt_text h claim result now_text in
      let (answer, stored) =
        ack-run claim.request_id claim.claim_owner text claim.claim_epoch later s.queue r spared u e
          owned in
      let q = (ack_claim claim.request_id claim.claim_epoch claim.claim_owner text s.queue).0 in
      let opened =
        opening-open s
          (λ s₁.
            on_queue s₁
              (ok (ack_claim claim.request_id claim.claim_epoch claim.claim_owner text s₁.queue)))
          running in
      (
        ap (λ (a : Answer Bool). a.1) opened ∙ ap ok answer,
        ap
              (λ (a : Answer Bool).
                (receipt h claim.request_id (record a.0 { queue = run later a.0.queue })).1)
              opened
            ∙ ap (λ (a : Answer (Option Json)). a.1)
                (receipt-open claim.request_id (record s { opened = true; queue = run later q })
                  running valid)
            ∙ ap (λ o. parsed_receipt h (stored_receipt o)) stored
            ∙ rw (some_text, printed) refl,
      )

  read-own :
      (c : BridgeCommand)
      → ValidCommand h.valid_uuid h.valid_date h.windows_path c
      → h.parse_json (h.stringify (command_json c)) ≡ some (command_json c)
      → read_command h (h.stringify (command_json c)) ≡ ok c
  read-own c valid printed =
      rw (printed, read_command)
        (rw (encode-parse h.valid_uuid h.valid_date h.windows_path c valid) refl)

  abbrev own_row : BridgeCommand → ℕ → Row
  own_row c created =
      new_row (request_id_of c) (command_hash h c) (h.stringify (command_json c)) created

  enqueue-open :
      (c : BridgeCommand) (created : ℕ) (s : BridgeStore)
      → s.closed ≡ false
      → h.valid_uuid (request_id_of c) ≡ true
      → queue_row (request_id_of c) s.queue ≡ none
      → (enqueue h c created s).0.queue ≡ s.queue ++ own_row c created ∷ []
  unfolding enqueue
  enqueue-open c created s running valid fresh =
      let id = request_id_of c in
      let call = λ (x : BridgeStore). replaced id (
        on_queue x
          (enqueue_command id (command_hash h c) (h.stringify (command_json c)) created x.queue)) in
      let opened = record s { opened = true } in
      ap (λ (a : Answer String). a.0.queue)
        (opening-open s (λ x. with_id h id x call) running
          ∙ with_id-valid id opened call valid
          ∙ ap (λ x. replaced id (on_queue opened x))
              (enqueue_new id (command_hash h c) (h.stringify (command_json c)) created s.queue
                fresh))

  wrap-own :
      (c : BridgeCommand) (r : Row) (instance_id : String)
      → ValidCommand h.valid_uuid h.valid_date h.windows_path c
      → h.parse_json (h.stringify (command_json c)) ≡ some (command_json c)
      → too_large h (h.stringify (command_json c)) ≡ false
      → r.command_json ≡ h.stringify (command_json c)
      → wrap_claim h r instance_id ≡ ok (wrapped instance_id r c)
  unfolding wrap_claim
  wrap-own c r instance_id form printed small same =
      ap
        (λ t. read_command h t >>= (λ x.
          if too_large h t
          then err (payload_exceeds h.max_payload_bytes)
          else ok (wrapped instance_id r x)))
        same
      ∙ ap
          (λ x. x >>= (λ y.
            if too_large h (h.stringify (command_json c))
            then err (payload_exceeds h.max_payload_bytes)
            else ok (wrapped instance_id r y)))
          (read-own c form printed)
      ∙ ap
          (λ b.
            if b then err (payload_exceeds h.max_payload_bytes) else ok (wrapped instance_id r c))
          small

  -- A command of a valid form that was enqueued under a new request id, whose JSON text is read as
  -- the value that was printed and is not too large, is what every later claim of that request
  -- returns, whatever calls are made on the queue in between, as long as none of them prunes the
  -- request.
  pub enqueue-claimed :
      (c : BridgeCommand) (created : ℕ) (s : BridgeStore) (between : List Call) (seen q' : Queue)
      (owner instance_id : String) (lease now : ℕ) (router : Router) (r : Row)
      → All (λ x. spares (request_id_of c) x ≡ true) between
      → s.closed ≡ false
      → h.valid_uuid (request_id_of c) ≡ true
      → Unique id_of s.queue
      → queue_row (request_id_of c) s.queue ≡ none
      → ValidCommand h.valid_uuid h.valid_date h.windows_path c
      → h.parse_json (h.stringify (command_json c)) ≡ some (command_json c)
      → too_large h (h.stringify (command_json c)) ≡ false
      → claim_next seen owner lease router now (run between (enqueue h c created s).0.queue)
        ≡ ok (q', some r)
      → r.request_id ≡ request_id_of c
      → wrap_claim h r instance_id ≡ ok (wrapped instance_id r c)
  unfolding get
  enqueue-claimed c created s between seen q' owner instance_id lease now router r spared running
        valid u fresh form printed small claimed same =
      let id = request_id_of c in
      let q = s.queue ++ own_row c created ∷ [] in
      let queued = enqueue-open c created s running valid fresh in
      let u₁ : Unique id_of q = Unique-append_one id_of s.queue (own_row c created) u fresh in
      let stored : queue_row id q ≡ some (own_row c created) =
        get-append_none id_of id s.queue (own_row c created ∷ []) fresh
        ∙ rw (str_eq_refl id, get) refl in
      let (x, ex, kept) = run-Extends between q id (own_row c created) spared u₁ stored in
      let w =
        claim_next-Won seen owner lease router now (run between q) q' r (run-Unique between q u₁) (
          subst (λ t. claim_next seen owner lease router now (run between t) ≡ ok (q', some r))
            queued claimed) in
      let met =
        some_unique (queue_row id (run between q)) w.before x
          (subst (λ k. queue_row k (run between q) ≡ some w.before) same w.stored) ex in
      wrap-own c r instance_id form printed small (
        ap (λ (y : Row). y.command_json) w.taken
        ∙ ap (λ (y : Row). y.command_json) met
        ∙ kept.json_kept)
