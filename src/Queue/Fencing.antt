-- ===== src/Queue/Fencing.antt =====
-- Fencing of claims by epoch and owner, over histories of calls on the queue of
-- src/infrastructure/queue-repository.ts.
use mathlib.Core.List.{Memᴰ}
use dsh_codex_workflow.Common.{
  ℕ, ◌+◌, ◌≤◌, ◌<◌, String, ◌≡◌, refl, sym, ap, subst, ◌∙◌, Bool, true, false, some, List, arith,
  str_eq_iff, some_unique, All,
}
use dsh_codex_workflow.Common.Result.{ok}
use dsh_codex_workflow.Common.Table.{
  count_where, Unique, at, key-get, get-update, Unique-update, count-at, update_none,
}
use dsh_codex_workflow.Queue.Rows.{
  Row, id_of, Router, claimable, take_over, owned_by, acked, parked, buried, renewed, quarantined,
  processing,
}
use dsh_codex_workflow.Queue.Operations.{
  Queue, queue_row, claim_candidates, claim_next, update_one, ack_claim, retry_claim,
  dead_letter_claim, renew_claim, quarantine_row,
}
use dsh_codex_workflow.Queue.Claiming.{claim_of, idle, won, claim_of-row, claim_next_cases}
use dsh_codex_workflow.Queue.Transitions.{
  Change, kept, claimed, finished, set_aside, given_up, prolonged, recovered, isolated, imported,
  revived, Call, spares, run,
}
use dsh_codex_workflow.Queue.Keys.{run-Unique, run-keeps}

-- A mutation whose test fails on the row changes nothing.
pub update_one-refused :
    (id : String) (test : Row → Bool) (f : Row → Row) (q : Queue) (r : Row)
    → Unique id_of q
    → queue_row id q ≡ some r
    → test r ≡ false
    → update_one id test f q ≡ (q, false)
unfolding update_one
update_one-refused id test f q r u e h =
    let zero_rows : count_where (at id_of id test) q ≡ 0 = count-at id_of id test q u ∙ rw (e, h) in
    rw zero_rows (λ i. (update_none (at id_of id test) f q zero_rows i, false))

-- A mutation whose test holds on the row rewrites that row.
pub update_one-done :
    (id : String) (test : Row → Bool) (f : Row → Row) (q : Queue) (r : Row)
    → ((x : Row) → id_of (f x) ≡ id_of x)
    → Unique id_of q
    → queue_row id q ≡ some r
    → test r ≡ true
    → ((update_one id test f q).1 ≡ true) × (queue_row id (update_one id test f q).0 ≡ some (f r))
unfolding update_one
update_one-done id test f q r same u e h = (
  rw (count-at id_of id test q u) (rw (e, h)),
  get-update id_of (at id_of id test) f same id q
      ∙ rw (e, h) (ground (arith, str_eq_iff r.request_id id, key-get id_of id q e)),
)

pub record Won (owner : String) (till now : ℕ) (ids : List String) (q q' : Queue) (r : Row)
    : Type 0 where
  pub before : Row
  pub candidate : Memᴰ r.request_id ids
  pub stored : queue_row r.request_id q ≡ some before
  pub free : claimable now before ≡ true
  pub taken : r ≡ take_over owner till before
  pub table : q' ≡ claim_of owner till now r.request_id q

won_lem :
    (owner : String) (till now : ℕ) (ids : List String) (q q' : Queue) (r : Row) (id : String)
    (x : Row)
    → Memᴰ id ids
    → queue_row id q ≡ some x
    → claimable now x ≡ true
    → r ≡ take_over owner till x
    → q' ≡ claim_of owner till now id q
    → Won owner till now ids q q' r
won_lem owner till now ids q q' r id x m e free t h =
    let same : r.request_id ≡ id = ap id_of t ∙ key-get id_of id q e in
    record {
      before = x;
      candidate = subst (λ k. Memᴰ k ids) (sym same) m;
      stored = subst (λ k. queue_row k q ≡ some x) (sym same) e;
      free = free;
      taken = t;
      table = subst (λ k. q' ≡ claim_of owner till now k q) (sym same) h;
    }

-- What a claim that returns a row has done.
pub claim_next-Won :
    (seen : Queue) (owner : String) (lease : ℕ) (router : Router) (now : ℕ) (q q' : Queue) (r : Row)
    → Unique id_of q
    → claim_next seen owner lease router now q ≡ ok (q', some r)
    → Won owner (now + lease) now (claim_candidates now router q) q q' r
claim_next-Won seen owner lease router now q q' r u e =
    elim (claim_next_cases seen owner lease router now q u) [
      | idle h ↦ cc
      | won id x m ex free h ↦
          won_lem owner (now + lease) now (claim_candidates now router q) q q' r id x m ex free (cc)
            (cc)
    ]

-- No mutation of the claim has any effect, and each says so.
abbrev pub Refused : String → ℕ → String → Queue → Type 0
Refused id epoch owner q =
    ((receipt : String) → ack_claim id epoch owner receipt q ≡ (q, false))
    × ((error : String) (next : ℕ) → retry_claim id epoch owner error next q ≡ (q, false))
    × ((error : String) (now : ℕ) → dead_letter_claim id epoch owner error now q ≡ (q, false))
    × ((till : ℕ) → renew_claim id epoch owner till q ≡ (q, false))
    × ((error : String) (now : ℕ)
        → quarantine_row id processing epoch owner error now q ≡ (q, false))

not_owned-Refused :
    (id : String) (epoch : ℕ) (owner : String) (q : Queue) (r : Row)
    → Unique id_of q
    → queue_row id q ≡ some r
    → owned_by epoch owner r ≡ false
    → Refused id epoch owner q
unfolding ack_claim retry_claim dead_letter_claim renew_claim quarantine_row
not_owned-Refused id epoch owner q r u e h = (
  λ receipt. update_one-refused id (owned_by epoch owner) (acked receipt) q r u e h,
  λ error next. update_one-refused id (owned_by epoch owner) (parked error next) q r u e h,
  λ error now. update_one-refused id (owned_by epoch owner) (buried error now) q r u e h,
  λ till. update_one-refused id (owned_by epoch owner) (renewed till) q r u e h,
  λ error now. update_one-refused id (owned_by epoch owner) (quarantined error now) q r u e h,
)

-- Epochs never fall.
pub Change-epoch : (r r' : Row) → Change r r' → r.claim_epoch ≤ r'.claim_epoch
Change-epoch r r' (kept e) = ground arith
Change-epoch r r' (claimed owner till now c e) = ground arith
Change-epoch r r' (finished epoch owner receipt h e) = ground arith
Change-epoch r r' (set_aside epoch owner error next h e) = ground arith
Change-epoch r r' (given_up epoch owner error now h e) = ground arith
Change-epoch r r' (prolonged epoch owner till h e) = ground arith
Change-epoch r r' (recovered now h e) = ground arith
Change-epoch r r' (isolated error now h e) = ground arith
Change-epoch r r' (imported receipt h e) = ground arith
Change-epoch r r' (revived now h e) = ground arith

stale-not_owned :
    (epoch : ℕ) (owner : String) (r : Row) → epoch < r.claim_epoch → owned_by epoch owner r ≡ false
stale-not_owned epoch owner r h = ground arith

-- The row that a claim returns is the one it stores.
pub Won-stored :
    (owner : String) (till now : ℕ) (ids : List String) (q q' : Queue) (r : Row)
    → Won owner till now ids q q' r
    → queue_row r.request_id q' ≡ some r
Won-stored owner till now ids q q' r w =
    rw w.table
      (claim_of-row owner till now r.request_id q w.before w.stored w.free ∙ ap some (sym w.taken))

pub Won-Unique :
    (owner : String) (till now : ℕ) (ids : List String) (q q' : Queue) (r : Row)
    → Won owner till now ids q q' r
    → Unique id_of q
    → Unique id_of q'
Won-Unique owner till now ids q q' r w u = rw w.table (
    Unique-update id_of (at id_of r.request_id (claimable now)) (take_over owner till) (λ r. refl) q
      u)

-- A later claim of a row has a higher epoch than the row had at any time before.
Won-epoch :
    (owner : String) (till now : ℕ) (ids : List String) (q q₂ : Queue) (r₂ : Row)
    (between : List Call) (id : String) (r : Row)
    → All (λ c. spares id c ≡ true) between
    → Unique id_of q
    → queue_row id q ≡ some r
    → Won owner till now ids (run between q) q₂ r₂
    → r₂.request_id ≡ id
    → r.claim_epoch < r₂.claim_epoch
Won-epoch owner till now ids q q₂ r₂ between id r s u e w same =
    let (y, ey, h) =
      run-keeps (λ x. r.claim_epoch ≤ x.claim_epoch)
        (λ x y change le. omega (arith, Change-epoch x y change, le)) between q id r s u e
        (omega arith) in
    let met : y ≡ w.before =
      some_unique (queue_row id (run between q)) y w.before ey
        (subst (λ k. queue_row k (run between q) ≡ some w.before) same w.stored) in
    omega (arith, ap (λ (x : Row). x.claim_epoch) w.taken, ap (λ (x : Row). x.claim_epoch) met, h)

-- Once a request has a higher epoch, the mutations of a lower one are refused until it is pruned.
pub stale-Refused :
    (id owner : String) (epoch : ℕ) (cs : List Call) (q : Queue) (r : Row)
    → All (λ c. spares id c ≡ true) cs
    → Unique id_of q
    → queue_row id q ≡ some r
    → epoch < r.claim_epoch
    → Refused id epoch owner (run cs q)
stale-Refused id owner epoch cs q r s u e h =
    let (r', e', h') =
      run-keeps (λ x. epoch < x.claim_epoch)
        (λ x y change lt. omega (arith, Change-epoch x y change, lt)) cs q id r s u e h in
    not_owned-Refused id epoch owner (run cs q) r' (run-Unique cs q u) e'
      (stale-not_owned epoch owner r' h')

-- After a claim was granted, any calls were made, and another claim was granted for the same
-- request, every mutation with the first claim's epoch and owner (acknowledgement, retry, dead
-- letter, renewal, and the quarantine of a processing row) is refused and changes nothing, whatever
-- calls come in between, as long as none of them prunes the request.
pub superseded-Refused :
    (seen₁ seen₂ q q₁ q₂ : Queue) (owner₁ owner₂ : String) (lease₁ lease₂ now₁ now₂ : ℕ)
    (router₁ router₂ : Router) (r₁ r₂ : Row) (between later : List Call)
    → All (λ c. spares r₁.request_id c ≡ true) between
    → All (λ c. spares r₁.request_id c ≡ true) later
    → Unique id_of q
    → claim_next seen₁ owner₁ lease₁ router₁ now₁ q ≡ ok (q₁, some r₁)
    → claim_next seen₂ owner₂ lease₂ router₂ now₂ (run between q₁) ≡ ok (q₂, some r₂)
    → r₂.request_id ≡ r₁.request_id
    → Refused r₁.request_id r₁.claim_epoch r₁.claim_owner (run later q₂)
superseded-Refused seen₁ seen₂ q q₁ q₂ owner₁ owner₂ lease₁ lease₂ now₁ now₂ router₁ router₂ r₁ r₂
      between later s₁ s₂ u e₁ e₂ same =
    let w₁ = claim_next-Won seen₁ owner₁ lease₁ router₁ now₁ q q₁ r₁ u e₁ in
    let u₁ = Won-Unique owner₁ _ now₁ _ q q₁ r₁ w₁ u in
    let u₂ = run-Unique between q₁ u₁ in
    let w₂ = claim_next-Won seen₂ owner₂ lease₂ router₂ now₂ (run between q₁) q₂ r₂ u₂ e₂ in
    stale-Refused r₁.request_id r₁.claim_owner r₁.claim_epoch later q₂ r₂ s₂
      (Won-Unique owner₂ _ now₂ _ _ q₂ r₂ w₂ u₂)
      (subst (λ k. queue_row k q₂ ≡ some r₂) same (Won-stored owner₂ _ now₂ _ _ q₂ r₂ w₂))
      (Won-epoch owner₂ _ now₂ _ q₁ q₂ r₂ between r₁.request_id r₁ s₁ u₁
        (Won-stored owner₁ _ now₁ _ q q₁ r₁ w₁) w₂ same)
