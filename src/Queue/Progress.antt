-- ===== src/Queue/Progress.antt =====
-- Progress and exclusion of `claimNext` of src/infrastructure/queue-repository.ts.
use mathlib.Core.List.{Memᴰ}
use dsh_codex_workflow.Common.{
  ℕ, ◌+◌, ◌<◌, String, ◌≡◌, refl, sym, ap, subst, ◌∙◌, ◌≢◌, true, false, some, List, [], ◌∷◌, arith,
  some_unique,
}
use dsh_codex_workflow.Common.Result.{ok}
use dsh_codex_workflow.Common.Table.{Unique}
use dsh_codex_workflow.Queue.Rows.{processing, Row, id_of, Router, claimable, take_over}
use dsh_codex_workflow.Queue.Operations.{
  Queue, queue_row, claim_candidates, claim_first, is_nil, claim_next,
}
use dsh_codex_workflow.Queue.Claiming.{claim_of, claim_first-head}
use dsh_codex_workflow.Queue.Fencing.{claim_next-Won}
use dsh_codex_workflow.Queue.Routing.{
  allows, ready, ready-claimable, ready-in_candidates, candidates-ready,
}

-- A loop over candidates that are all claimable claims the first.
first-claimed :
    (owner : String) (till now : ℕ) (ids : List String) (q : Queue) (id : String)
    → Unique id_of q
    → Memᴰ id ids
    → ((j : String) → Memᴰ j ids → (r : Row) × (queue_row j q ≡ some r) × (claimable now r ≡ true))
    → (q' : Queue) × (r' : Row) × (claim_first owner till now ids q ≡ ok (q', some r'))
first-claimed owner till now [] q id u m all = elim m [ ]
first-claimed owner till now (j ∷ ids) q id u m all =
    let (r, e, h) = all j (Memᴰ.head refl) in
    (
      claim_of owner till now j q,
      take_over owner till r,
      claim_first-head owner till now j ids q r u e h,
    )

mem-not_nil : (id : String) (ids : List String) → Memᴰ id ids → is_nil ids ≡ false
mem-not_nil id [] m = elim m [ ]
mem-not_nil id (j ∷ ids) m = refl

-- Whenever some request is ready (a due retry, an expired claim or an inbox row) and the router
-- allows its command, `claimNext` hands out a claim, whatever the other rows are: a row that the
-- router rejects never blocks the queue. The probe must have seen the table of the transaction.
pub claim_next-served :
    (owner : String) (lease now : ℕ) (router : Router) (q : Queue) (id : String) (r : Row)
    → Unique id_of q
    → queue_row id q ≡ some r
    → ready now r ≡ true
    → allows router r.command_json ≡ true
    → (q' : Queue) × (r' : Row) × (claim_next q owner lease router now q ≡ ok (q', some r'))
unfolding claim_next
claim_next-served owner lease now router q id r u e h a =
    let m = ready-in_candidates now router q id r e h a in
    rw (mem-not_nil r.request_id (claim_candidates now router q) m) (
      first-claimed owner (now + lease) now (claim_candidates now router q) q r.request_id u m
        (λ j k.
          let (x, ex, hx, _) = candidates-ready now router q j u k in
          (x, ex, ready-claimable now x hx)))

-- What a granted claim says of the tables before and after it.
pub record Granted (owner : String) (lease now : ℕ) (router : Router) (q q' : Queue) (r : Row)
    : Type 0 where
  pub source : Row
  pub found : queue_row r.request_id q ≡ some source
  pub was_ready : ready now source ≡ true
  pub was_allowed : allows router source.command_json ≡ true
  pub result : r ≡ take_over owner (now + lease) source
  pub returned : queue_row r.request_id q' ≡ some r
  pub others : (k : String) → k ≢ r.request_id → queue_row k q' ≡ queue_row k q

-- A claim that has not expired is not granted again: the next claim is of another request.
pub claim_next-exclusive :
    (seen : Queue) (owner : String) (lease now : ℕ) (router : Router) (q q' : Queue) (r live : Row)
    → Unique id_of q
    → queue_row live.request_id q ≡ some live
    → live.status ≡ processing
    → now < live.claim_until
    → claim_next seen owner lease router now q ≡ ok (q', some r)
    → r.request_id ≢ live.request_id
claim_next-exclusive seen owner lease now router q q' r live u stored busy unexpired e same =
    let w = claim_next-Won seen owner lease router now q q' r u e in
    let met =
      some_unique (queue_row r.request_id q) w.before live w.stored
        (subst (λ k. queue_row k q ≡ some live) (sym same) stored) in
    not_claimable now live busy unexpired (ap (claimable now) (sym met) ∙ w.free)
  where
    not_claimable :
        (now : ℕ) (x : Row)
        → x.status ≡ processing
        → now < x.claim_until
        → claimable now x ≡ true
        → ⊥
    not_claimable now x busy unexpired h = ground arith
