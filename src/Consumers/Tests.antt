-- ===== src/Consumers/Tests.antt =====
-- Runs of src/application/submission-review-consumer.ts.
use dsh_codex_workflow.Common.{◌≡◌, refl, true, false, some, List, [], ◌∷◌}
use dsh_codex_workflow.Common.Result.{ok, err}
use dsh_codex_workflow.Common.Table.{get, update_where}
use dsh_codex_workflow.Consumers.{
  key_of, has, has_text, assert_context, Refusal, ConsumerOptions, Registration, Consumers,
  no_consumers, fresh, prepare, adopt, close,
}
use dsh_codex_workflow.Consumers.Handoff.{HandedOver, adopt-HandedOver}
use dsh_codex_workflow.Consumers.History.{Call, prepare_call, adopt_call, settle_call, run}
use dsh_codex_workflow.Consumers.Retirement.{closed-Exclusive}

abbrev first : ConsumerOptions
first = record {
  workflow_id = "w";
  submission_id = "s";
  owner = "a";
  epoch = 1;
  identity = "reviewer";
  child = some 7;
  require_original = true;
}

abbrev successor : ConsumerOptions
successor = record first { owner = "b"; epoch = 2 }

abbrev first_consumer : Registration
first_consumer = fresh first no_consumers

abbrev registered : Consumers
registered = record no_consumers { current = first_consumer ∷ []; next = 1 }

abbrev after_close : Consumers
after_close = record registered { closing = 0 ∷ []; retired = "w:s" ∷ []; closed_children = 7 ∷ [] }

prepare-first : prepare first no_consumers ≡ ok (registered, first_consumer)
unfolding prepare has_text assert_context get has
prepare-first = refl

close-first : close first_consumer registered ≡ (after_close, true)
unfolding close has get
close-first = refl

abbrev attempts : List Call
attempts =
    prepare_call successor
    ∷ adopt_call true false (fresh successor registered)
    ∷ settle_call first_consumer
    ∷ []

closed-Exclusive_example :
    (close first_consumer (run attempts after_close) ≡ (run attempts after_close, false))
    × ((e : Refusal) × (prepare successor (run attempts after_close) ≡ err e))
    × ((e : Refusal) × (adopt true false (fresh successor registered) (run attempts after_close)
          ≡ err e))
closed-Exclusive_example =
    closed-Exclusive first_consumer registered after_close attempts 7 successor
      (fresh successor registered) true false close-first refl refl refl

abbrev successor_consumer : Registration
successor_consumer = fresh successor registered

abbrev with_successor : Consumers
with_successor = record registered { next = 2 }

abbrev after_handoff : Consumers
after_handoff = record with_successor { current = successor_consumer ∷ []; aborted = 0 ∷ [] }

prepare-successor : prepare successor registered ≡ ok (with_successor, successor_consumer)
unfolding prepare has_text assert_context get has
prepare-successor = refl

get-first_consumer : get key_of "w:s" with_successor.current ≡ some first_consumer
unfolding get
get-first_consumer = refl

adopt-successor : adopt true false successor_consumer with_successor ≡ ok after_handoff
unfolding adopt assert_context get has update_where
adopt-successor = refl

adopt-HandedOver_example :
    HandedOver true false successor_consumer first_consumer with_successor after_handoff
adopt-HandedOver_example =
    adopt-HandedOver true false successor_consumer first_consumer with_successor after_handoff
      get-first_consumer refl adopt-successor
