-- ===== src/Projection/Reviews.antt =====
-- The state and the events of src/review-events.ts, and `applyCodexWorkflowProjection`. The events
-- are typed, so the failure that its `catch` records does not arise; a projection that has failed
-- before stays as it is.
use dsh_codex_workflow.Common.{
  ℕ, String, Bool, false, Option, none, some, List, [], ◌∷◌, if◌then◌else◌, str_eq,
}
use dsh_codex_workflow.Common.Table.{get}
use dsh_codex_workflow.Review.{
  ReviewResult, Verdict, PlannerQuestion, ProcessState, running, ReviewStep,
}
use dsh_codex_workflow.Projection.Live.{LiveEntry, ViewEntry, truthy, over, append_live}

pub data PlanStatus : Type 0 where
  planning waiting_input ready failed : PlanStatus

pub record PlanView : Type 0 where
  pub workflow_id : String
  pub child_session_id : Option String
  pub status : PlanStatus
  pub process_state : Option ProcessState
  pub plan_markdown : Option String
  pub questions : List PlannerQuestion
  pub assumptions : List String
  pub message : Option String
  pub live : Option (List ViewEntry)

pub record ReviewView : Type 0 where
  pub workflow_id : String
  pub child_session_id : Option String
  pub review_id : String
  pub attempt : ℕ
  pub started_at : String
  pub finished_at : Option String
  pub process_state : ProcessState
  pub step : Option ReviewStep
  pub message : Option String
  pub elapsed_ms : Option ℕ
  pub verdict : Option Verdict
  pub result : Option ReviewResult
  pub visible_text : Option String
  pub summary : Option String
  pub error : Option String
  pub live : Option (List ViewEntry)

pub record State : Type 0 where
  pub current_workflow_id : Option String
  pub plan : Option PlanView
  pub active_review : Option ReviewView
  pub reviews : List ReviewView
  pub failure : Option String

abbrev pub init : State
init = record {
  current_workflow_id = none;
  plan = none;
  active_review = none;
  reviews = [];
  failure = none;
}

pub record PlanUpdated : Type 0 where
  pub workflow_id : String
  pub child_session_id : Option String
  pub status : PlanStatus
  pub process_state : Option ProcessState
  pub plan_markdown : Option String
  pub questions : List PlannerQuestion
  pub assumptions : List String
  pub message : Option String

pub record ReviewStart : Type 0 where
  pub workflow_id : String
  pub child_session_id : Option String
  pub review_id : String
  pub attempt : ℕ
  pub started_at : String

pub record ReviewProgress : Type 0 where
  pub workflow_id : String
  pub review_id : String
  pub step : Option ReviewStep
  pub process_state : ProcessState
  pub message : Option String
  pub elapsed_ms : Option ℕ
  pub at : String

pub record ReviewEnd : Type 0 where
  pub workflow_id : String
  pub review_id : String
  pub process_state : ProcessState
  pub verdict : Option Verdict
  pub result : Option ReviewResult
  pub visible_text : Option String
  pub summary : Option String
  pub error : Option String
  pub finished_at : String

pub data Stage : Type 0 where
  in_planning in_reviewing : Stage

pub record LiveEvent : Type 0 where
  pub workflow_id : String
  pub stage : Stage
  pub review_id : Option String
  pub entries : List LiveEntry
  pub at : String

pub data Event : Type 0 where
  plan_updated : PlanUpdated → Event
  review_start : ReviewStart → Event
  review_progress : ReviewProgress → Event
  review_end : ReviewEnd → Event
  live : LiveEvent → Event
  other_event : Event

abbrev pub review_id_of : ReviewView → String
review_id_of r = r.review_id

unfoldable pub upsert : List ReviewView → ReviewView → List ReviewView
upsert [] next = next ∷ []
upsert (r ∷ rs) next =
    let rest = upsert rs next in if str_eq r.review_id next.review_id then next ∷ rs else r ∷ rest

abbrev pub is_current : State → String → Bool
is_current s id = elim s.current_workflow_id [ none ↦ false | some w ↦ str_eq w id ]

abbrev pub child_of : Option PlanView → Option String
child_of none = none
child_of (some p) = p.child_session_id

abbrev pub entries_or_nil : Option (List ViewEntry) → List ViewEntry
entries_or_nil none = []
entries_or_nil (some vs) = vs

-- `state.plan?.workflowId === id ? state.plan.live ?? [] : []`.
abbrev pub live_of_plan : String → Option PlanView → List ViewEntry
live_of_plan id none = []
live_of_plan id (some p) = if str_eq p.workflow_id id then entries_or_nil p.live else []

abbrev pub planned_view : State → PlanUpdated → PlanView
planned_view s e = record {
  workflow_id = e.workflow_id;
  child_session_id =
      truthy
        (over e.child_session_id (if is_current s e.workflow_id then child_of s.plan else none));
  status = e.status;
  process_state = e.process_state;
  plan_markdown = e.plan_markdown;
  questions = e.questions;
  assumptions = e.assumptions;
  message = e.message;
  live = some (live_of_plan e.workflow_id s.plan);
}

-- A review of which nothing but its id is known.
abbrev pub blank_review : String → String → String → ReviewView
blank_review workflow_id review_id started_at = record {
  workflow_id = workflow_id;
  child_session_id = none;
  review_id = review_id;
  attempt = 0;
  started_at = started_at;
  finished_at = none;
  process_state = running;
  step = none;
  message = none;
  elapsed_ms = none;
  verdict = none;
  result = none;
  visible_text = none;
  summary = none;
  error = none;
  live = none;
}

abbrev pub started_view : ReviewStart → ReviewView
started_view e = record (blank_review e.workflow_id e.review_id e.started_at) {
  child_session_id = e.child_session_id;
  attempt = e.attempt;
}

-- `state.reviews.find(…) ?? { … }`.
abbrev pub review_or_blank : String → String → String → List ReviewView → ReviewView
review_or_blank workflow_id review_id at rs = elim (get review_id_of review_id rs) [
  | none ↦ blank_review workflow_id review_id at
  | some r ↦ r
]

abbrev pub progressed_view : ReviewProgress → ReviewView → ReviewView
progressed_view e r = record r {
  workflow_id = e.workflow_id;
  review_id = e.review_id;
  step = over e.step r.step;
  process_state = e.process_state;
  message = over e.message r.message;
  elapsed_ms = over e.elapsed_ms r.elapsed_ms;
}

abbrev pub ended_view : ReviewEnd → ReviewView → ReviewView
ended_view e r = record r {
  workflow_id = e.workflow_id;
  review_id = e.review_id;
  process_state = e.process_state;
  verdict = over e.verdict r.verdict;
  result = over e.result r.result;
  visible_text = over e.visible_text r.visible_text;
  summary = over e.summary r.summary;
  error = over e.error r.error;
  finished_at = some e.finished_at;
}

abbrev pub blank_plan : String → PlanView
blank_plan id = record {
  workflow_id = id;
  child_session_id = none;
  status = planning;
  process_state = none;
  plan_markdown = none;
  questions = [];
  assumptions = [];
  message = none;
  live = none;
}

-- `state.plan?.workflowId === id ? state.plan : { … }`.
abbrev pub plan_or_blank : String → Option PlanView → PlanView
plan_or_blank id none = blank_plan id
plan_or_blank id (some p) = if str_eq p.workflow_id id then p else blank_plan id

-- `newWorkflow ? null : state.activeReview`, and the same of the reviews.
abbrev pub kept_active : State → String → Option ReviewView
kept_active s id = if is_current s id then s.active_review else none

abbrev pub kept_reviews : State → String → List ReviewView
kept_reviews s id = if is_current s id then s.reviews else []

unfoldable pub apply_planning_live : State → LiveEvent → State
apply_planning_live s e =
    let p = plan_or_blank e.workflow_id s.plan in
    record s {
      current_workflow_id = some e.workflow_id;
      plan = some (record p { live = some (append_live e.entries (entries_or_nil p.live)) });
      active_review = kept_active s e.workflow_id;
      reviews = kept_reviews s e.workflow_id;
    }

abbrev pub live_view : LiveEvent → String → List ReviewView → ReviewView
live_view e id rs =
    let r = review_or_blank e.workflow_id id e.at rs in
    record r { live = some (append_live e.entries (entries_or_nil r.live)) }

-- `state.activeReview?.reviewId === id ? updated : state.activeReview`.
abbrev pub active_after : String → ReviewView → Option ReviewView → Option ReviewView
active_after id updated none = none
active_after id updated (some r) = if str_eq r.review_id id then some updated else some r

unfoldable pub apply_review_live : State → LiveEvent → String → State
apply_review_live s e id =
    let updated = live_view e id s.reviews in
    record s {
      current_workflow_id = some e.workflow_id;
      active_review = active_after id updated s.active_review;
      reviews = upsert s.reviews updated;
    }

unfoldable pub apply_event : State → Event → State
apply_event s (plan_updated e) = record s {
  current_workflow_id = some e.workflow_id;
  plan = some (planned_view s e);
  active_review = kept_active s e.workflow_id;
  reviews = kept_reviews s e.workflow_id;
}
apply_event s (review_start e) = record s {
  current_workflow_id = some e.workflow_id;
  plan = if is_current s e.workflow_id then s.plan else none;
  active_review = some (started_view e);
  reviews = upsert (kept_reviews s e.workflow_id) (started_view e);
}
apply_event s (review_progress e) =
    let r = progressed_view e (review_or_blank e.workflow_id e.review_id e.at s.reviews) in
    record s {
      current_workflow_id = some e.workflow_id;
      active_review = some r;
      reviews = upsert s.reviews r;
    }
apply_event s (review_end e) =
    let r = ended_view e (review_or_blank e.workflow_id e.review_id e.finished_at s.reviews) in
    record s {
      current_workflow_id = some e.workflow_id;
      active_review = none;
      reviews = upsert s.reviews r;
    }
apply_event s (live e) = elim e.stage [
  | in_planning ↦ apply_planning_live s e
  | in_reviewing ↦ elim (truthy e.review_id) [ none ↦ s | some id ↦ apply_review_live s e id ]
]
apply_event s other_event = s

-- `applyCodexWorkflowProjection`.
unfoldable pub apply_codex_workflow_projection : State → Event → State
apply_codex_workflow_projection s e = elim s.failure [ some _ ↦ s | none ↦ apply_event s e ]

unfoldable pub project : List Event → State → State
project [] s = s
project (e ∷ es) s = project es (apply_codex_workflow_projection s e)
