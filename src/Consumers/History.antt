-- ===== src/Consumers/History.antt =====
-- Histories of calls on `SubmissionReviewConsumers` of
-- src/application/submission-review-consumer.ts, and what every call keeps.
use dsh_codex_workflow.Common.{
  ℕ, suc, String, ◌≡◌, refl, Bool, true, false, not, ◌&&◌, ◌||◌, Option, none, some, List, [], ◌∷◌,
  ◌==◌, str_eq, str_eq_refl, if◌then◌else◌, Bool-cases, inl, inr, arith, leb,
}
use dsh_codex_workflow.Common.Result.{Result, ok, err, answer_cases}
use dsh_codex_workflow.Common.Table.{get, delete_where}
use dsh_codex_workflow.Consumers.{
  Refusal, ConsumerOptions, Registration, Consumers, has, has_text, key_of, key_for, same_child,
  assert_context, same_claim, fresh, place, prepared, prepare, is_current, cancel_wait, adopted,
  adopt, add_child, close, settle, retire,
}

pub data Call : Type 0 where
  prepare_call : ConsumerOptions → Call
  adopt_call : Bool → Bool → Registration → Call
  cancel_call close_call settle_call : Registration → Call
  retire_call : Bool → Bool → ConsumerOptions → Option Registration → Call

abbrev prepared_or : Consumers → Result Refusal (Consumers × Registration) → Consumers
prepared_or s (ok (s', r)) = s'
prepared_or s (err e) = s

abbrev adopted_or : Consumers → Result Refusal Consumers → Consumers
adopted_or s (ok s') = s'
adopted_or s (err e) = s

abbrev pub fst_of : Consumers × Bool → Consumers
fst_of (s, b) = s

-- A refused call changes nothing.
unfoldable pub step : Call → Consumers → Consumers
step (prepare_call o) s = prepared_or s (prepare o s)
step (adopt_call can stopped r) s = adopted_or s (adopt can stopped r s)
step (cancel_call r) s = cancel_wait r s
step (close_call r) s = fst_of (close r s)
step (settle_call r) s = settle r s
step (retire_call can_publish can_retire o found) s =
    fst_of (retire can_publish can_retire o found s)

unfoldable pub run : List Call → Consumers → Consumers
run [] s = s
run (c ∷ cs) s = run cs (step c s)

-- Nothing that was retired, closed or cleaned up becomes available again.
pub record Kept (s t : Consumers) : Type 0 where
  pub retired_kept : (k : String) → has_text k s.retired ≡ true → has_text k t.retired ≡ true
  pub children_kept : (c : ℕ) → has c s.closed_children ≡ true → has c t.closed_children ≡ true
  pub closing_kept : (n : ℕ) → has n s.closing ≡ true → has n t.closing ≡ true

same-Kept : (s : Consumers) → Kept s s
same-Kept s = record { retired_kept = λ k h. h; children_kept = λ c h. h; closing_kept = λ n h. h }

others-Kept :
    (s : Consumers) (rs : List Registration) (stopped : List ℕ) (n : ℕ)
    → Kept s (record s { current = rs; aborted = stopped; next = n })
others-Kept s rs stopped n = record {
  retired_kept = λ k h. h;
  children_kept = λ c h. h;
  closing_kept = λ m h. h;
}

prepared_or-Kept : (o : ConsumerOptions) (s : Consumers) → Kept s (prepared_or s (prepare o s))
unfolding prepare
prepared_or-Kept o s = elim (Bool-cases (o.require_original && has_text (key_for o) s.retired)) [
  | inl out ↦ rw out (same-Kept s)
  | inr within ↦
      rw within (elim (answer_cases (assert_context o (get key_of (key_for o) s.current) s)) [
        | inr (e, refused) ↦ rw refused (same-Kept s)
        | inl (_, fine) ↦ rw fine (by_found (get key_of (key_for o) s.current))
      ])
]
  where
    by_found : (found : Option Registration) → Kept s (prepared_or s (ok (prepared o found s)))
    by_found none = others-Kept s (place (fresh o s) s.current) s.aborted (suc s.next)
    by_found (some r) = elim (Bool-cases (same_claim o r)) [
      | inl same ↦ rw same (same-Kept s)
      | inr other ↦ rw other (others-Kept s s.current s.aborted (suc s.next))
    ]

adopted-Kept :
    (r : Registration) (found : Option Registration) (s : Consumers)
    → Kept s (adopted_or s (adopted r found s))
adopted-Kept r none s = others-Kept s (place r s.current) s.aborted s.next
adopted-Kept r (some x) s = elim (Bool-cases (x.token == r.token)) [
  | inl same ↦ rw same (same-Kept s)
  | inr other ↦ elim (Bool-cases (leb r.options.epoch x.options.epoch)) [
    | inl old ↦ rw (other, old) (same-Kept s)
    | inr new ↦ rw (other, new) (others-Kept s (place r s.current) (x.token ∷ s.aborted) s.next)
  ]
]

adopt-Kept :
    (can stopped : Bool) (r : Registration) (s : Consumers)
    → Kept s (adopted_or s (adopt can stopped r s))
unfolding adopt
adopt-Kept can stopped r s =
    elim (answer_cases (assert_context r.options (get key_of r.key s.current) s)) [
      | inr (e, refused) ↦ rw refused (same-Kept s)
      | inl (_, fine) ↦ elim (Bool-cases (stopped || has r.token s.aborted || not can)) [
        | inl out ↦ rw (fine, out) (same-Kept s)
        | inr within ↦ rw (fine, within) (adopted-Kept r (get key_of r.key s.current) s)
      ]
    ]

has-cons : (n m : ℕ) (ms : List ℕ) → has n ms ≡ true → has n (m ∷ ms) ≡ true
unfolding has
has-cons n m ms h = ground arith

pub has_head : (n : ℕ) (ms : List ℕ) → has n (n ∷ ms) ≡ true
unfolding has
has_head n ms = ground arith

has_text-cons :
    (k t : String) (ts : List String) → has_text k ts ≡ true → has_text k (t ∷ ts) ≡ true
unfolding has_text
has_text-cons k t ts h = elim (Bool-cases (str_eq k t)) [ inl e ↦ rw e refl | inr e ↦ rw e h ]

pub has_text_head : (k : String) (ts : List String) → has_text k (k ∷ ts) ≡ true
unfolding has_text
has_text_head k ts = rw (str_eq_refl k) refl

close-Kept : (r : Registration) (s : Consumers) → Kept s (fst_of (close r s))
unfolding close
close-Kept r s = elim (Bool-cases (has r.token s.closing || not (is_current r s))) [
  | inl out ↦ rw out (same-Kept s)
  | inr now ↦ rw now (record {
    retired_kept = λ k h. by_original k r.options.require_original h;
    children_kept = λ c h. by_child c r.options.child h;
    closing_kept = λ n h. has-cons n r.token s.closing h;
  })
]
  where
    by_original :
        (k : String) (b : Bool)
        → has_text k s.retired ≡ true
        → has_text k (if b then r.key ∷ s.retired else s.retired) ≡ true
    by_original k true h = has_text-cons k r.key s.retired h
    by_original k false h = h

    by_child :
        (c : ℕ) (o : Option ℕ)
        → has c s.closed_children ≡ true
        → has c (add_child o s.closed_children) ≡ true
    by_child c none h = h
    by_child c (some d) h = has-cons c d s.closed_children h

step-Kept : (c : Call) (s : Consumers) → Kept s (step c s)
unfolding step settle retire
step-Kept (prepare_call o) s = prepared_or-Kept o s
step-Kept (adopt_call can stopped r) s = adopt-Kept can stopped r s
step-Kept (cancel_call r) s = others-Kept s s.current (r.token ∷ s.aborted) s.next
step-Kept (close_call r) s = close-Kept r s
step-Kept (settle_call r) s = elim (Bool-cases (is_current r s)) [
  | inl now ↦
      rw now (others-Kept s (delete_where (λ x. str_eq x.key r.key) s.current) s.aborted s.next)
  | inr other ↦ rw other (same-Kept s)
]
step-Kept (retire_call can_publish can_retire o none) s = same-Kept s
step-Kept (retire_call can_publish can_retire o (some r)) s =
    elim (Bool-cases (
      not (is_current r s)
      || not (same_child r.options.child o.child)
      || (str_eq r.key (key_for o) && leb o.epoch r.options.epoch)
      || can_publish
      || not can_retire)) [ inl out ↦ rw out (same-Kept s) | inr fine ↦ rw fine (close-Kept r s) ]

pub run-Kept : (cs : List Call) (s : Consumers) → Kept s (run cs s)
unfolding run
run-Kept [] s = same-Kept s
run-Kept (c ∷ cs) s =
    let first = step-Kept c s in
    let rest = run-Kept cs (step c s) in
    record {
      retired_kept = λ k h. rest.retired_kept k (first.retired_kept k h);
      children_kept = λ c h. rest.children_kept c (first.children_kept c h);
      closing_kept = λ n h. rest.closing_kept n (first.closing_kept n h);
    }
