-- ===== src/Queue/Tests.antt =====
-- A small queue and one run of each theorem about src/infrastructure/queue-repository.ts.
use dsh_codex_workflow.Common.Sort.{sort}
use dsh_codex_workflow.Common.{String, ◌≡◌, refl, ◌≢◌, true, none, some, [], ◌∷◌, arith, str_eq}
use dsh_codex_workflow.Common.Result.{ok, err}
use dsh_codex_workflow.Common.Table.{update_where, count_where, select_where, get, Unique}
use dsh_codex_workflow.Queue.Rows.{Row, id_of, new_row, Router, take_over, acked, has_id}
use dsh_codex_workflow.Queue.Operations.{
  Queue, different_command, queue_row, inserted, enqueue_command, eligible_ids, candidate_rows,
  claim_candidates, claim_first, claim_next, ack_claim, recover_queue_orphans,
}
use dsh_codex_workflow.Queue.Transitions.{prunes, recovers, requeues, run}
use dsh_codex_workflow.Queue.Fencing.{Refused, superseded-Refused}
use dsh_codex_workflow.Queue.Receipts.{ack-run, Extends, run-Extends}
use dsh_codex_workflow.Queue.Progress.{claim_next-served, claim_next-exclusive}
use dsh_codex_workflow.Queue.Repetition.{enqueue_again, Recovered, recover_again}

abbrev plan_row : Row
plan_row = new_row "plan" "h1" "{p}" 5

abbrev verdict_row : Row
verdict_row = new_row "verdict" "h2" "{v}" 7

abbrev two_rows : Queue
two_rows = plan_row ∷ verdict_row ∷ []

two_rows-Unique : Unique id_of two_rows
unfolding get
two_rows-Unique = (refl, (refl, tt))

-- A router that takes verdicts only.
abbrev only_verdicts : Router
only_verdicts = some (λ json. str_eq json "{v}")

abbrev first_claim : Row
first_claim = take_over "A" 110 plan_row

abbrev claimed_rows : Queue
claimed_rows = first_claim ∷ verdict_row ∷ []

claimed_rows-Unique : Unique id_of claimed_rows
unfolding get
claimed_rows-Unique = (refl, (refl, tt))

first_claim_test :
    claim_next two_rows "A" 100 none 10 two_rows ≡ ok (claimed_rows, some first_claim)
unfolding claim_next claim_first claim_candidates candidate_rows eligible_ids sort select_where
    update_where count_where get
first_claim_test = refl

abbrev second_claim : Row
second_claim = take_over "B" 300 first_claim

abbrev reclaimed_rows : Queue
reclaimed_rows = second_claim ∷ verdict_row ∷ []

-- The first claim ran out at 110 and is taken over at 200; the inbox comes after it.
second_claim_test :
    claim_next claimed_rows "B" 100 none 200 (run [] claimed_rows)
    ≡ ok (reclaimed_rows, some second_claim)
unfolding run claim_next claim_first claim_candidates candidate_rows eligible_ids sort select_where
    update_where count_where get
second_claim_test = refl

superseded-Refused_example :
    Refused "plan" 1 "A" (run (prunes ("verdict" ∷ []) ∷ recovers 250 ∷ []) reclaimed_rows)
unfolding has_id
superseded-Refused_example =
    superseded-Refused two_rows claimed_rows two_rows claimed_rows reclaimed_rows "A" "B" 100 100 10
      200 none none first_claim second_claim [] (prunes ("verdict" ∷ []) ∷ recovers 250 ∷ []) tt
      (refl, (refl, tt)) two_rows-Unique first_claim_test second_claim_test refl

ack-run_example :
    ((ack_claim "plan" 1 "A" "{ok}" claimed_rows).1 ≡ true)
    × (queue_row "plan"
          (run (requeues "plan" 120 ∷ []) (ack_claim "plan" 1 "A" "{ok}" claimed_rows).0)
        ≡ some (acked "{ok}" first_claim))
unfolding get
ack-run_example =
    ack-run "plan" "A" "{ok}" 1 (requeues "plan" 120 ∷ []) claimed_rows first_claim (refl, tt)
      claimed_rows-Unique refl refl

run-Extends_example :
    (r' : Row) × (queue_row "plan" (run (recovers 250 ∷ []) claimed_rows) ≡ some r')
    × Extends first_claim r'
unfolding get
run-Extends_example =
    run-Extends (recovers 250 ∷ []) claimed_rows "plan" first_claim (refl, tt) claimed_rows-Unique
      refl

claim_next-served_example :
    (q' : Queue) × (r' : Row) × (claim_next two_rows "A" 100 only_verdicts 10 two_rows
      ≡ ok (q', some r'))
unfolding get
claim_next-served_example =
    claim_next-served "A" 100 10 only_verdicts two_rows "verdict" verdict_row two_rows-Unique refl
      refl refl

abbrev verdict_claim : Row
verdict_claim = take_over "B" 120 verdict_row

verdict_claim_test :
    claim_next claimed_rows "B" 100 none 20 claimed_rows
    ≡ ok (first_claim ∷ verdict_claim ∷ [], some verdict_claim)
unfolding claim_next claim_first claim_candidates candidate_rows eligible_ids sort select_where
    update_where count_where get
verdict_claim_test = refl

claim_next-exclusive_example : ◌≢◌ {A = String} "verdict" "plan"
unfolding get
claim_next-exclusive_example =
    claim_next-exclusive claimed_rows "B" 100 20 none claimed_rows
      (first_claim ∷ verdict_claim ∷ []) verdict_claim first_claim claimed_rows-Unique refl refl
      (omega arith) verdict_claim_test

plan_enqueued : enqueue_command "plan" "h1" "{p}" 5 [] ≡ ok (plan_row ∷ [], inserted)
unfolding enqueue_command get
plan_enqueued = refl

enqueue_again_example :
    enqueue_command "plan" "h9" "{q}" 8 (run (recovers 6 ∷ []) (plan_row ∷ []))
    ≡ err (different_command "plan")
enqueue_again_example =
    enqueue_again "plan" "h1" "h9" "{p}" "{q}" 5 8 [] (plan_row ∷ []) inserted (recovers 6 ∷ [])
      (refl, tt) tt plan_enqueued

recover_again_example :
    ((r' : Row) × (queue_row "plan" (recover_queue_orphans 200 claimed_rows).0 ≡ some r')
      × Recovered 200 first_claim r')
    × (recover_queue_orphans 200 (recover_queue_orphans 200 claimed_rows).0
        ≡ ((recover_queue_orphans 200 claimed_rows).0, 0))
unfolding get
recover_again_example = recover_again 200 claimed_rows "plan" first_claim refl
