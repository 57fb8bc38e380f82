-- ===== src/Consumers/Retirement.antt =====
-- What stays closed: histories of calls on `SubmissionReviewConsumers` of
-- src/application/submission-review-consumer.ts, in any order.
use dsh_codex_workflow.Common.{
  ℕ, ◌≡◌, refl, subst, Bool, true, false, not, ◌&&◌, ◌||◌, Option, some, List, Bool-cases, inl, inr,
  ap,
}
use dsh_codex_workflow.Common.Result.{err}
use dsh_codex_workflow.Common.Table.{get}
use dsh_codex_workflow.Consumers.{
  Refusal, unavailable, context_changed, closing_or_closed, ConsumerOptions, Registration,
  Consumers, has, has_text, key_of, key_for, found_closing, context_differs, assert_context,
  prepare, is_current, adopt, close,
}
use dsh_codex_workflow.Consumers.History.{Call, run, fst_of, has_head, has_text_head, run-Kept}

-- A closed child session is refused with every registration that may be found.
context-refuses :
    (o : ConsumerOptions) (c : ℕ) (found : Option Registration) (s : Consumers)
    → o.child ≡ some c
    → has c s.closed_children ≡ true
    → (e : Refusal) × (assert_context o found s ≡ err e)
unfolding assert_context
context-refuses o c found s q gone = elim (Bool-cases (context_differs o found)) [
  | inl differs ↦ (context_changed, rw differs refl)
  | inr same ↦ elim (Bool-cases (found_closing found s)) [
    | inl f ↦ (closing_or_closed, rw (same, f) refl)
    | inr f ↦ (closing_or_closed, rw (same, f, q, gone) refl)
  ]
]

-- What `close` leaves behind where it starts a cleanup.
record Closed (r : Registration) (s : Consumers) : Type 0 where
  key_retired : r.options.require_original ≡ true → has_text r.key s.retired ≡ true
  children : (c : ℕ) → r.options.child ≡ some c → has c s.closed_children ≡ true
  started : has r.token s.closing ≡ true

close-Closed : (r : Registration) (s t : Consumers) → close r s ≡ (t, true) → Closed r t
unfolding close
close-Closed r s t h = elim (Bool-cases (has r.token s.closing || not (is_current r s))) [
  | inl out ↦ absurd (never (rw out at h))
  | inr now ↦ subst (Closed r) (ap fst_of (rw now at h)) (record {
    key_retired = λ q. rw q (has_text_head r.key s.retired);
    children = λ c q. rw q (has_head c s.closed_children);
    started = has_head r.token s.closing;
  })
]
  where
    never : ◌≡◌ {A = Consumers × Bool} (s, false) (t, true) → ⊥
    never q = cc

-- Once the cleanup of a review conversation has been started, whatever is called afterwards and in
-- whatever order, no consumer of its submission that requires the original can be prepared: no
-- replacement is created.
pub closed-Unavailable :
    (r : Registration) (s t : Consumers) (cs : List Call) (o : ConsumerOptions)
    → close r s ≡ (t, true)
    → r.options.require_original ≡ true
    → key_for o ≡ r.key
    → o.require_original ≡ true
    → prepare o (run cs t) ≡ err unavailable
unfolding prepare
closed-Unavailable r s t cs o h original same required =
    let gone = (run-Kept cs t).retired_kept r.key ((close-Closed r s t h).key_retired original) in
    rw (required, same, gone) refl

-- Once the cleanup of a review conversation has been started, whatever is called afterwards and in
-- whatever order, closing its consumer again starts no second cleanup, and no consumer that has the
-- same child session is prepared or adopted.
pub closed-Exclusive :
    (r : Registration) (s t : Consumers) (cs : List Call) (c : ℕ) (o : ConsumerOptions)
    (x : Registration) (can stopped : Bool)
    → close r s ≡ (t, true)
    → r.options.child ≡ some c
    → o.child ≡ some c
    → x.options.child ≡ some c
    → (close r (run cs t) ≡ (run cs t, false))
      × ((e : Refusal) × (prepare o (run cs t) ≡ err e))
      × ((e : Refusal) × (adopt can stopped x (run cs t) ≡ err e))
unfolding close prepare adopt
closed-Exclusive r s t cs c o x can stopped h child same₁ same₂ =
    let closed = close-Closed r s t h in
    let kept = run-Kept cs t in
    let gone = kept.children_kept c (closed.children c child) in
    let u = run cs t in
    (
      rw (kept.closing_kept r.token closed.started) refl,
      elim (Bool-cases (o.require_original && has_text (key_for o) u.retired)) [
        | inl out ↦ (unavailable, rw out refl)
        | inr within ↦
            let (e, refused) =
              context-refuses o c (get key_of (key_for o) u.current) u same₁ gone in
            (e, rw (within, refused) refl)
      ],
      let (e, refused) = context-refuses x.options c (get key_of x.key u.current) u same₂ gone in
          (e, rw refused refl),
    )
