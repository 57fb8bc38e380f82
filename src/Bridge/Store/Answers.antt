-- ===== src/Bridge/Store/Answers.antt =====
-- The loop of `claimNext` of src/bridge-store.ts ends, and what its answer means.
use mathlib.Core.List.{Memᴰ}
use dsh_codex_workflow.Common.{
  ℕ, suc, ◌+◌, ◌<◌, String, ◌≡◌, refl, sym, ap, subst, ◌∙◌, inl, inr, Bool, true, false, ◌&&◌, ◌||◌,
  Option, none, some, List, [], ◌∷◌, arith, length, All, if◌then◌else◌, &&_true, str_eq_refl,
}
use dsh_codex_workflow.Common.Result.{Result, ok, err, answer_cases}
use dsh_codex_workflow.Common.Table.{Unique, count_where, at, key-get, Unique-update, mem-get}
use dsh_codex_workflow.Common.Table.Counts.{count-update_at, count_cases}
use dsh_codex_workflow.Queue.Rows.{
  Status, processing, Row, id_of, is_waiting, is_processing, Router, claimable, take_over, owned_by,
  quarantined,
}
use dsh_codex_workflow.Queue.Operations.{
  Queue, Error, queue_row, claim_next, update_one, quarantine_row,
}
use dsh_codex_workflow.Queue.Claiming.{claim_of, idle, won, claim_next_cases, claim_of-row}
use dsh_codex_workflow.Queue.Progress.{claim_next-served}
use dsh_codex_workflow.Queue.Routing.{allows, ready}
use dsh_codex_workflow.Queue.Transitions.{run}
use dsh_codex_workflow.Bridge.Store.{
  Host, BridgeStore, store_closed, ClaimedBridgeCommand, wrap_claim, routed,
}
use dsh_codex_workflow.Bridge.Store.Turns.{
  Turn, Outcome, answered, again, on_claim, on_row, turn, claim_loop, looped, claim_next_command,
}
use dsh_codex_workflow.Bridge.Protocol.{BridgeCommand}

-- A row that a claim may still take, now or later.
abbrev pub is_open : Row → Bool
is_open r = is_waiting r.status || is_processing r.status

abbrev pub open_rows : Queue → ℕ
open_rows q = count_where is_open q

-- No other process calls in between.
abbrev pub Quiet : Turn → Type 0
Quiet t = (t.before ≡ []) × (t.after_probe ≡ []) × (t.between ≡ [])

processing-quarantine :
    (id : String) (status : Status) (epoch : ℕ) (owner error : String) (now : ℕ) (q : Queue)
    → status ≡ processing
    → quarantine_row id status epoch owner error now q
      ≡ update_one id (owned_by epoch owner) (quarantined error now) q
unfolding quarantine_row
processing-quarantine id status epoch owner error now q e = rw e refl

busy-owned : (r : Row) → r.status ≡ processing → owned_by r.claim_epoch r.claim_owner r ≡ true
busy-owned r e = ground (arith, str_eq_refl r.claim_owner)

-- The quarantine of a row that was just claimed closes it, and no other row.
quarantine-open_rows :
    (now : ℕ) (error : String) (q : Queue) (r : Row)
    → Unique id_of q
    → queue_row r.request_id q ≡ some r
    → r.status ≡ processing
    → Unique id_of
        (update_one r.request_id (owned_by r.claim_epoch r.claim_owner) (quarantined error now) q).0
      × (suc (
            open_rows
              (update_one r.request_id
                (owned_by r.claim_epoch r.claim_owner)
                (quarantined error now)
                q).0)
          ≡ open_rows q)
unfolding update_one
quarantine-open_rows now error q r u e busy =
    let test = owned_by r.claim_epoch r.claim_owner in
    (
      Unique-update id_of (at id_of r.request_id test) (quarantined error now) (λ x. refl) q u,
      ground (
        arith,
        busy,
        count-update_at id_of is_open test (quarantined error now) r.request_id q r u e
            (busy-owned r busy),
      ),
    )

-- One turn without other callers.
data TurnResult (h : Host) (instance_id : String) (router : Router) (now : ℕ) (q : Queue)
    (o : Outcome) : Type 0 where
  rests :
      claim_next q instance_id h.lease_ms router now q ≡ ok (q, none)
      → o ≡ answered q (ok none)
      → TurnResult h instance_id router now q o
  serves :
      (q' : Queue) (r : Row) (c : ClaimedBridgeCommand)
      → queue_row r.request_id q' ≡ some r
      → wrap_claim h r instance_id ≡ ok c
      → r.status ≡ processing
      → o ≡ answered q' (ok (some c))
      → TurnResult h instance_id router now q o
  discards :
      (q' : Queue)
      → Unique id_of q'
      → suc (open_rows q') ≡ open_rows q
      → o ≡ again q'
      → TurnResult h instance_id router now q o

turn-Quiet :
    (h : Host) (instance_id : String) (router : Router) (t : Turn) (q : Queue)
    → Quiet t
    → turn h instance_id router t q
      ≡ on_row h instance_id router t q (claim_next q instance_id h.lease_ms router t.now q)
unfolding turn run
turn-Quiet h instance_id router t q (b, a, w) = rw (b, a) refl

won_row :
    (h : Host) (instance_id : String) (router : Router) (t : Turn) (q q' : Queue) (r : Row)
    → t.between ≡ []
    → Unique id_of q
    → Unique id_of q'
    → queue_row r.request_id q' ≡ some r
    → r.status ≡ processing
    → open_rows q' ≡ open_rows q
    → TurnResult h instance_id router t.now q
        (on_claim h instance_id router t q' r (wrap_claim h r instance_id))
unfolding run
won_row h instance_id router t q q' r quiet u u' e busy same =
    elim (answer_cases (wrap_claim h r instance_id)) [
      | inl (c, fine) ↦ serves q' r c e fine busy (rw fine refl)
      | inr (why, bad) ↦
          let (u'', fewer) = quarantine-open_rows t.later (h.message why) q' r u' e busy in
          discards _ u'' (fewer ∙ same) (
            rw (bad, quiet)
              (ap (λ (x : Queue × Bool). again x.0)
                (processing-quarantine r.request_id r.status r.claim_epoch r.claim_owner
                  (h.message why) t.later q' busy)))
    ]

turn-TurnResult :
    (h : Host) (instance_id : String) (router : Router) (t : Turn) (q : Queue)
    → Quiet t
    → Unique id_of q
    → TurnResult h instance_id router t.now q (turn h instance_id router t q)
turn-TurnResult h instance_id router t q quiet u =
    elim (claim_next_cases q instance_id h.lease_ms router t.now q u) [
      | idle e ↦ rests e (turn-Quiet h instance_id router t q quiet ∙ rw e refl)
      | won id x m ex free e ↦
          let same = key-get id_of id q ex in
          subst (TurnResult h instance_id router t.now q)
            (sym (turn-Quiet h instance_id router t q quiet ∙ rw e refl))
            (won_row h instance_id router t q (claim_of instance_id (t.now + h.lease_ms) t.now id q)
              (take_over instance_id (t.now + h.lease_ms) x) quiet.2 u
              (Unique-update id_of (at id_of id (claimable t.now))
                (take_over instance_id (t.now + h.lease_ms)) (λ r. refl) q u)
              (subst
                (λ k.
                  queue_row k (claim_of instance_id (t.now + h.lease_ms) t.now id q)
                  ≡ some (take_over instance_id (t.now + h.lease_ms) x))
                (sym same) (claim_of-row instance_id (t.now + h.lease_ms) t.now id q x ex free))
              refl
              (ground (
                arith,
                count-update_at id_of is_open (claimable t.now)
                    (take_over instance_id (t.now + h.lease_ms)) id q x u ex free,
              )))
    ]

-- What an answer means: either no row that is ready and that the router allows is left, or the row
-- of the claim is stored as processing and its command is the one that its text holds.
pub data Settled (h : Host) (instance_id : String) (router : Router) (turns : List Turn) (q : Queue)
    (found : Option ClaimedBridgeCommand) : Type 0 where
  nothing_left :
      (t : Turn)
      → Memᴰ t turns
      → count_where (λ r. ready t.now r && allows router r.command_json) q ≡ 0
      → found ≡ none
      → Settled h instance_id router turns q found
  claim_held :
      (r : Row) (c : ClaimedBridgeCommand)
      → queue_row r.request_id q ≡ some r
      → r.status ≡ processing
      → wrap_claim h r instance_id ≡ ok c
      → found ≡ some c
      → Settled h instance_id router turns q found

nothing-ready :
    (owner : String) (lease now : ℕ) (router : Router) (q : Queue)
    → Unique id_of q
    → claim_next q owner lease router now q ≡ ok (q, none)
    → count_where (λ r. ready now r && allows router r.command_json) q ≡ 0
nothing-ready owner lease now router q u e =
    elim (count_cases (λ (r : Row). ready now r && allows router r.command_json) q) [
      | inl zero_rows ↦ zero_rows
      | inr (r, m, h) ↦
          let (is_ready, allowed) = &&_true (ready now r) (allows router r.command_json) h in
          let (q', r', e') =
            claim_next-served owner lease now router q r.request_id r u (mem-get id_of r q u m)
              is_ready allowed in
          absurd (never q' r' (sym e' ∙ e))
    ]
  where
    never :
        (q' : Queue) (r' : Row)
        → ◌≡◌ {A = Result Error (Queue × Option Row)} (ok (q', some r')) (ok (q, none))
        → ⊥
    never q' r' x = cc

later-Settled :
    (h : Host) (instance_id : String) (router : Router) (t : Turn) (ts : List Turn) (q : Queue)
    (found : Option ClaimedBridgeCommand)
    → Settled h instance_id router ts q found
    → Settled h instance_id router (t ∷ ts) q found
later-Settled h instance_id router t ts q found (nothing_left x m z e) =
    nothing_left x (Memᴰ.tail m) z e
later-Settled h instance_id router t ts q found (claim_held r c e b w f) = claim_held r c e b w f

pub claim_loop-Settled :
    (h : Host) (instance_id : String) (router : Router) (turns : List Turn) (q : Queue)
    → All Quiet turns
    → Unique id_of q
    → open_rows q < length turns
    → (q' : Queue) × (found : Option ClaimedBridgeCommand) × (claim_loop h instance_id router turns
          q
        ≡ some (q', ok found))
      × Settled h instance_id router turns q' found
unfolding claim_loop
claim_loop-Settled h instance_id router [] q quiet u fuel = absurd (omega arith)
claim_loop-Settled h instance_id router (t ∷ ts) q (quiet, rest) u fuel =
    elim (turn-TurnResult h instance_id router t q quiet u) [
      | rests e o ↦ (
        q,
        none,
        rw (o, claim_loop) refl,
        nothing_left t (Memᴰ.head refl) (nothing-ready instance_id h.lease_ms t.now router q u e)
            refl,
      )
      | serves q' r c e fine busy o ↦
          (q', some c, rw (o, claim_loop) refl, claim_held r c e busy fine refl)
      | discards q' u' fewer o ↦
          let (q'', found, e, settled) =
            claim_loop-Settled h instance_id router ts q' rest u' (omega (arith, fewer, fuel)) in
          (
            q'',
            found,
            rw (o, claim_loop) e,
            later-Settled h instance_id router t ts q'' found settled,
          )
    ]

-- `claimNext` of an open store answers, however many of its rows are no commands: where no other
-- process calls in between, one turn more than there are waiting and processing rows is enough.
-- Its answer is a claim whose row is stored as processing and holds the command that is returned,
-- or nothing, and then no row is left that is ready and that the router allows.
pub claim_next_command-Settled :
    (h : Host) (instance_id : String) (eligible : Option (BridgeCommand → Option Bool))
    (turns : List Turn) (s : BridgeStore)
    → s.closed ≡ false
    → All Quiet turns
    → Unique id_of s.queue
    → open_rows s.queue < length turns
    → (q : Queue) × (found : Option ClaimedBridgeCommand) × (claim_next_command h instance_id
          eligible turns s
        ≡ some (record s { opened = true; queue = q }, ok found))
      × Settled h instance_id (routed h eligible) turns q found
unfolding claim_next_command
claim_next_command-Settled h instance_id eligible turns s running quiet u fuel =
    let (q, found, e, settled) =
      claim_loop-Settled h instance_id (routed h eligible) turns s.queue quiet u fuel in
    let opened = record s { opened = true } in
    (
      q,
      found,
      ap
            (λ b.
              if b
              then some (s, err store_closed)
              else looped opened (claim_loop h instance_id (routed h eligible) turns s.queue))
            running
          ∙ ap (looped opened) e,
      settled,
    )
