-- ===== src/Bridge/Store/Turns.antt =====
-- `claimNext` of src/bridge-store.ts: its loop, which quarantines the rows that are no commands.
-- Other processes may call between the statements.
use dsh_codex_workflow.Common.{
  ℕ, Bool, if◌then◌else◌, String, true, Option, none, some, List, [], ◌∷◌,
}
use dsh_codex_workflow.Common.Result.{Result, ok, err}
use dsh_codex_workflow.Queue.Rows.{Row, Router}
use dsh_codex_workflow.Queue.Operations.{Queue, Error, claim_next, quarantine_row}
use dsh_codex_workflow.Queue.Transitions.{Call, run}
use dsh_codex_workflow.Bridge.Protocol.{BridgeCommand}
use dsh_codex_workflow.Bridge.Store.{
  WrapFailure, Host, StoreError, store_closed, queue_error, BridgeStore, ClaimedBridgeCommand,
  Answer, routed, wrap_claim,
}

-- What one turn meets: the calls of other processes before the read-only probe, between the probe
-- and the claim, and between the claim and the quarantine, and two readings of the clock.
pub record Turn : Type 0 where
  pub before : List Call
  pub after_probe : List Call
  pub between : List Call
  pub now : ℕ
  pub later : ℕ

pub data Outcome : Type 0 where
  answered : Queue → Result Error (Option ClaimedBridgeCommand) → Outcome
  again : Queue → Outcome

module _ (h : Host) (instance_id : String) (router : Router) where
  abbrev pub quarantine : Turn → Row → WrapFailure → Queue → Queue
  quarantine t r why q =
      (quarantine_row r.request_id r.status r.claim_epoch r.claim_owner (h.message why) t.later
        (run t.between q)).0

  abbrev pub on_claim : Turn → Queue → Row → Result WrapFailure ClaimedBridgeCommand → Outcome
  on_claim t q r (ok c) = answered q (ok (some c))
  on_claim t q r (err why) = again (quarantine t r why q)

  abbrev pub on_row : Turn → Queue → Result Error (Queue × Option Row) → Outcome
  on_row t q (err e) = answered q (err e)
  on_row t q (ok (q', none)) = answered q' (ok none)
  on_row t q (ok (q', some r)) = on_claim t q' r (wrap_claim h r instance_id)

  unfoldable pub turn : Turn → Queue → Outcome
  turn t q =
      let seen = run t.before q in
      let table = run t.after_probe seen in
      on_row t table (claim_next seen instance_id h.lease_ms router t.now table)

  -- `for (;;)`, on the list of what its turns meet; none where the list is too short.
  unfoldable pub claim_loop :
      List Turn → Queue → Option (Queue × Result Error (Option ClaimedBridgeCommand))
  claim_loop [] q = none
  claim_loop (t ∷ ts) q = elim (turn t q) [
    | answered q' a ↦ some (q', a)
    | again q' ↦ claim_loop ts q'
  ]

abbrev pub thrown {ℓ} : {A : Type ℓ} → Result Error A → Result StoreError A
thrown (ok a) = ok a
thrown (err e) = err (queue_error e)

abbrev pub looped :
    BridgeStore
    → Option (Queue × Result Error (Option ClaimedBridgeCommand))
    → Option (Answer (Option ClaimedBridgeCommand))
looped s none = none
looped s (some (q, a)) = some (record s { queue = q }, thrown a)

unfoldable pub claim_next_command :
    (h : Host)
    → String
    → Option (BridgeCommand → Option Bool)
    → List Turn
    → BridgeStore
    → Option (Answer (Option ClaimedBridgeCommand))
claim_next_command h instance_id eligible turns s =
    if s.closed
    then some (s, err store_closed)
    else looped (record s { opened = true })
        (claim_loop h instance_id (routed h eligible) turns s.queue)
