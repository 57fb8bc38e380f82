-- ===== src/Projection/Consistency.antt =====
-- The active review of src/review-events.ts is one of the reviews, and every live view is within its
-- limits.
use dsh_codex_workflow.Common.{
  String, ◌≡◌, ap, ◌∙◌, inl, inr, false, Option, none, some, List, [], ◌∷◌, arith, if◌then◌else◌,
  str_eq, str_eq_iff, Bool-cases,
}
use dsh_codex_workflow.Common.Table.{get}
use dsh_codex_workflow.Projection.Live.{truthy, append_live-Bounded}
use dsh_codex_workflow.Projection.Reviews.{
  PlanView, ReviewView, State, init, Stage, in_planning, in_reviewing, LiveEvent, Event,
  plan_updated, review_start, review_progress, review_end, live, other_event, review_id_of, upsert,
  is_current, entries_or_nil, live_of_plan, started_view, review_or_blank, progressed_view,
  ended_view, plan_or_blank, kept_reviews, apply_planning_live, live_view, active_after,
  apply_review_live, apply_event, apply_codex_workflow_projection, project,
}
use dsh_codex_workflow.Projection.Bounds.{
  Limited, LimitedPlan, Consistent, get-upsert, upsert-All, nothing-Limited,
  review_or_blank-Limited, review_or_blank-id, stored_active, kept_listed, kept-Limited,
}

plan_live-Limited :
    (id : String) (p : Option PlanView) → LimitedPlan p → Limited (some (live_of_plan id p))
plan_live-Limited id none l = nothing-Limited
plan_live-Limited id (some p) l = elim (Bool-cases (str_eq p.workflow_id id)) [
  | inl same ↦ rw same l
  | inr new ↦ rw new nothing-Limited
]

plan_or_blank-Limited :
    (id : String) (p : Option PlanView) → LimitedPlan p → Limited (plan_or_blank id p).live
plan_or_blank-Limited id none l = nothing-Limited
plan_or_blank-Limited id (some p) l = elim (Bool-cases (str_eq p.workflow_id id)) [
  | inl same ↦ rw same l
  | inr new ↦ rw new nothing-Limited
]

planning_live-Consistent :
    (s : State) (e : LiveEvent) → Consistent s → Consistent (apply_planning_live s e)
unfolding apply_planning_live
planning_live-Consistent s e c = record {
  active_listed = kept_listed s e.workflow_id c;
  plan_limited =
      let p = plan_or_blank e.workflow_id s.plan in
      let l = plan_or_blank-Limited e.workflow_id s.plan c.plan_limited in
      append_live-Bounded e.entries (entries_or_nil p.live) l.0 l.1;
  reviews_limited = kept-Limited s e.workflow_id c;
}

apart :
    (a r : ReviewView) {u id : String}
    → u ≡ id
    → str_eq a.review_id id ≡ false
    → ◌≡◌ {A = Option ReviewView} (some a) (some r)
    → str_eq u r.review_id ≡ false
apart a r {u = u} {id = id} named other e =
    ground (arith, ids, str_eq_iff u r.review_id, str_eq_iff a.review_id id)
  where
    same : a ≡ r
    same = cc

    ids : a.review_id ≡ r.review_id
    ids = ap review_id_of same

review_live-Consistent :
    (s : State) (e : LiveEvent) (id : String) → Consistent s → Consistent (apply_review_live s e id)
unfolding apply_review_live
review_live-Consistent s e id c = record {
  active_listed = λ r h. listed s.active_review c.active_listed r h;
  plan_limited = c.plan_limited;
  reviews_limited =
      upsert-All s.reviews updated c.reviews_limited
        (append_live-Bounded e.entries (entries_or_nil old.live) l.0 l.1);
}
  where
    old : ReviewView
    old = review_or_blank e.workflow_id id e.at s.reviews

    l : Limited old.live
    l = review_or_blank-Limited e.workflow_id id e.at s.reviews c.reviews_limited

    updated : ReviewView
    updated = live_view e id s.reviews

    named : updated.review_id ≡ id
    named = review_or_blank-id e.workflow_id id e.at s.reviews

    listed :
        (a : Option ReviewView)
        → ((r : ReviewView) → a ≡ some r → get review_id_of r.review_id s.reviews ≡ some r)
        → (r : ReviewView) → active_after id updated a ≡ some r
        → get review_id_of r.review_id (upsert s.reviews updated) ≡ some r
    listed none h r x = absurd cc
    listed (some a) h r x = elim (Bool-cases (str_eq a.review_id id)) [
      | inl same ↦ stored_active s.reviews updated r (rw same at x)
      | inr other ↦
          get-upsert r.review_id s.reviews updated
          ∙ rw (apart a r named other (rw other at x)) (h r (rw other at x))
    ]

event-Consistent : (s : State) (e : Event) → Consistent s → Consistent (apply_event s e)
unfolding apply_event
event-Consistent s (plan_updated e) c = record {
  active_listed = kept_listed s e.workflow_id c;
  plan_limited = plan_live-Limited e.workflow_id s.plan c.plan_limited;
  reviews_limited = kept-Limited s e.workflow_id c;
}
event-Consistent s (review_start e) c = record {
  active_listed = stored_active (kept_reviews s e.workflow_id) (started_view e);
  plan_limited = kept_plan s.plan c.plan_limited;
  reviews_limited =
      upsert-All (kept_reviews s e.workflow_id) (started_view e) (kept-Limited s e.workflow_id c)
        nothing-Limited;
}
  where
    kept_plan :
        (p : Option PlanView)
        → LimitedPlan p
        → LimitedPlan (if is_current s e.workflow_id then p else none)
    kept_plan p l = elim (Bool-cases (is_current s e.workflow_id)) [
      | inl same ↦ rw same l
      | inr new ↦ rw new tt
    ]
event-Consistent s (review_progress e) c = record {
  active_listed =
      stored_active s.reviews
        (progressed_view e (review_or_blank e.workflow_id e.review_id e.at s.reviews));
  plan_limited = c.plan_limited;
  reviews_limited =
      upsert-All s.reviews
        (progressed_view e (review_or_blank e.workflow_id e.review_id e.at s.reviews))
        c.reviews_limited
        (review_or_blank-Limited e.workflow_id e.review_id e.at s.reviews c.reviews_limited);
}
event-Consistent s (review_end e) c = record {
  active_listed = λ r h. absurd (none_some r h);
  plan_limited = c.plan_limited;
  reviews_limited =
      upsert-All s.reviews
        (ended_view e (review_or_blank e.workflow_id e.review_id e.finished_at s.reviews))
        c.reviews_limited
        (review_or_blank-Limited e.workflow_id e.review_id e.finished_at s.reviews
          c.reviews_limited);
}
  where
    none_some : (r : ReviewView) → ◌≡◌ {A = Option ReviewView} none (some r) → ⊥
    none_some r h = cc
event-Consistent s (live e) c = by_stage e.stage
  where
    by_id :
        (o : Option String) → Consistent (elim o [ none ↦ s | some id ↦ apply_review_live s e id ])
    by_id none = c
    by_id (some id) = review_live-Consistent s e id c

    by_stage :
        (g : Stage)
        → Consistent (elim g [
          | in_planning ↦ apply_planning_live s e
          | in_reviewing ↦ elim (truthy e.review_id) [
            | none ↦ s
            | some id ↦ apply_review_live s e id
          ]
        ])
    by_stage in_planning = planning_live-Consistent s e c
    by_stage in_reviewing = by_id (truthy e.review_id)
event-Consistent s other_event c = c

run-Consistent : (es : List Event) (s : State) → Consistent s → Consistent (project es s)
unfolding project apply_codex_workflow_projection
run-Consistent [] s c = c
run-Consistent (e ∷ es) s c =
    run-Consistent es (apply_codex_workflow_projection s e) (by_failure s.failure)
  where
    by_failure : (f : Option String) → Consistent (elim f [ some _ ↦ s | none ↦ apply_event s e ])
    by_failure none = event-Consistent s e c
    by_failure (some _) = c

-- After any events from the initial state the active review is one of the reviews, with the same
-- content, and the live views of the plan and of every review are within their limits.
pub project-Consistent : (es : List Event) → Consistent (project es init)
project-Consistent es = run-Consistent es init start
  where
    none_some : (r : ReviewView) → ◌≡◌ {A = Option ReviewView} none (some r) → ⊥
    none_some r h = cc

    start : Consistent init
    start = record {
      active_listed = λ r h. absurd (none_some r h);
      plan_limited = tt;
      reviews_limited = tt;
    }
