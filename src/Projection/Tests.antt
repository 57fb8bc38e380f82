-- ===== src/Projection/Tests.antt =====
-- A review that starts, streams and ends: runs of the theorems about src/review-events.ts.
use dsh_codex_workflow.Common.{ℕ, false, ◌≡◌, refl, none, some, List, [], ◌∷◌}
use dsh_codex_workflow.Common.Table.{get}
use dsh_codex_workflow.Projection.Live.{
  message, LiveEntry, ViewEntry, no_details, any_names, change_first, append_entry, append_live,
}
use dsh_codex_workflow.Projection.Reviews.{
  Event, review_start, live, in_reviewing, project, init, apply_codex_workflow_projection,
  apply_event, apply_review_live, upsert,
}
use dsh_codex_workflow.Projection.Bounds.{Consistent}
use dsh_codex_workflow.Projection.Consistency.{project-Consistent}

abbrev piece : List ℕ → LiveEntry
piece text = record {
  kind = message;
  item_id = "m1";
  text = text;
  replace = false;
  details = no_details;
}

abbrev shown : List ℕ → ViewEntry
shown text = record { kind = message; item_id = "m1"; text = text; details = no_details }

-- Two pieces of one message are joined.
joined_test : append_live (piece (72 ∷ []) ∷ piece (105 ∷ []) ∷ []) [] ≡ shown (72 ∷ 105 ∷ []) ∷ []
unfolding append_live append_entry any_names change_first
joined_test = refl

abbrev events : List Event
events =
    review_start (record {
      workflow_id = "w";
      child_session_id = none;
      review_id = "r1";
      attempt = 1;
      started_at = "t0";
    })
    ∷ live (record {
      workflow_id = "w";
      stage = in_reviewing;
      review_id = some "r1";
      entries = piece (72 ∷ []) ∷ [];
      at = "t1";
    })
    ∷ []

active_test :
    get (λ r. r.review_id) "r1" (project events init).reviews ≡ (project events init).active_review
unfolding project apply_codex_workflow_projection apply_event apply_review_live upsert append_live
    append_entry any_names get
active_test = refl

project-Consistent_example : Consistent (project events init)
project-Consistent_example = project-Consistent events
