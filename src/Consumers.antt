-- ===== src/Consumers.antt =====
-- `SubmissionReviewConsumers` of src/application/submission-review-consumer.ts: who may publish and
-- who cleans up a review conversation. Objects have an identity (`token`), and a consumer and its
-- registration, which are created together, are one record.
pub mod History
pub mod Retirement
pub mod Handoff
mod Tests
use Prim.Native.String.{◌++◌ as ◌<>◌}
use dsh_codex_workflow.Common.{
  ℕ, suc, String, Bool, true, false, not, ◌&&◌, ◌||◌, Option, none, some, List, [], ◌∷◌, ◌++◌, ◌==◌,
  leb, if◌then◌else◌, str_eq,
}
use dsh_codex_workflow.Common.Result.{Result, ok, err, ◌>>=◌, ◌>>◌}
use dsh_codex_workflow.Common.Table.{get, update_where, delete_where}

-- `SubmissionReviewUnavailableError` and the causes of a `SubmissionReviewContextError`.
pub data Refusal : Type 0 where
  unavailable context_changed closing_or_closed out_of_scope obsolete_generation : Refusal

pub record ConsumerOptions : Type 0 where
  pub workflow_id : String
  pub submission_id : String
  pub owner : String
  pub epoch : ℕ
  pub identity : String
  pub child : Option ℕ
  pub require_original : Bool

pub record Registration : Type 0 where
  pub token : ℕ
  pub key : String
  pub options : ConsumerOptions

pub record Consumers : Type 0 where
  pub current : List Registration
  pub closed_children : List ℕ
  pub retired : List String
  -- Registrations whose cleanup has been started (`closeTask`, `closing`).
  pub closing : List ℕ
  -- Registrations whose wait was cancelled (`controller.abort`).
  pub aborted : List ℕ
  pub next : ℕ

abbrev pub no_consumers : Consumers
no_consumers = record {
  current = [];
  closed_children = [];
  retired = [];
  closing = [];
  aborted = [];
  next = 0;
}

unfoldable pub has : ℕ → List ℕ → Bool
has n [] = false
has n (m ∷ ms) = n == m || has n ms

unfoldable pub has_text : String → List String → Bool
has_text s [] = false
has_text s (t ∷ ts) = str_eq s t || has_text s ts

abbrev pub key_of : Registration → String
key_of r = r.key

abbrev pub key_for : ConsumerOptions → String
key_for o = o.workflow_id <> (":" <> o.submission_id)

abbrev pub same_child : Option ℕ → Option ℕ → Bool
same_child none none = true
same_child (some a) (some b) = a == b
same_child _ _ = false

abbrev pub child_closed : Option ℕ → Consumers → Bool
child_closed none s = false
child_closed (some c) s = has c s.closed_children

abbrev pub found_closing : Option Registration → Consumers → Bool
found_closing none s = false
found_closing (some r) s = has r.token s.closing

-- `this.retired.has(key) || !this.current.has(key) || this.current.get(key)?.closing`.
unfoldable pub assert_original_available : String → String → Consumers → Result Refusal (Unit {0})
assert_original_available workflow submission s =
    let key = workflow <> (":" <> submission) in
    elim (get key_of key s.current) [
      | none ↦ err unavailable
      | some r ↦ if has_text key s.retired || has r.token s.closing then err unavailable else ok tt
    ]

abbrev pub context_differs : ConsumerOptions → Option Registration → Bool
context_differs o none = false
context_differs o (some r) =
    not (str_eq r.options.identity o.identity) || not (same_child r.options.child o.child)

unfoldable pub assert_context :
    ConsumerOptions → Option Registration → Consumers → Result Refusal (Unit {0})
assert_context o found s =
    if context_differs o found
    then err context_changed
    else if found_closing found s || child_closed o.child s
    then err closing_or_closed
    else ok tt

abbrev pub same_claim : ConsumerOptions → Registration → Bool
same_claim o r = str_eq r.options.owner o.owner && r.options.epoch == o.epoch

abbrev pub fresh : ConsumerOptions → Consumers → Registration
fresh o s = record { token = s.next; key = key_for o; options = o }

abbrev pub place : Registration → List Registration → List Registration
place r rs = elim (get key_of r.key rs) [
  | none ↦ rs ++ r ∷ []
  | some _ ↦ update_where (λ x. str_eq x.key r.key) (λ _. r) rs
]

-- Only a first consumer is registered at once; a successor is registered by `adopt`.
abbrev pub prepared : ConsumerOptions → Option Registration → Consumers → Consumers × Registration
prepared o none s =
    (record s { current = place (fresh o s) s.current; next = suc s.next }, fresh o s)
prepared o (some r) s =
    if same_claim o r then (s, r) else (record s { next = suc s.next }, fresh o s)

unfoldable pub prepare : ConsumerOptions → Consumers → Result Refusal (Consumers × Registration)
prepare o s =
    if o.require_original && has_text (key_for o) s.retired
    then err unavailable
    else assert_context o (get key_of (key_for o) s.current) s
      >> ok (prepared o (get key_of (key_for o) s.current) s)

abbrev pub is_current : Registration → Consumers → Bool
is_current r s = elim (get key_of r.key s.current) [ none ↦ false | some x ↦ x.token == r.token ]

abbrev pub cancel_wait : Registration → Consumers → Consumers
cancel_wait r s = record s { aborted = r.token ∷ s.aborted }

abbrev pub adopted : Registration → Option Registration → Consumers → Result Refusal Consumers
adopted r none s = ok (record s { current = place r s.current })
adopted r (some x) s =
    if x.token == r.token
    then ok s
    else if leb r.options.epoch x.options.epoch
    then err obsolete_generation
    else ok (cancel_wait x (record s { current = place r s.current }))

-- `can_adopt` is the answer of the admission guard, `stopped` says that the caller's own signal is
-- aborted.
unfoldable pub adopt : Bool → Bool → Registration → Consumers → Result Refusal Consumers
adopt can_adopt stopped r s =
    assert_context r.options (get key_of r.key s.current) s
    >> (if stopped || has r.token s.aborted || not can_adopt
        then err out_of_scope
        else adopted r (get key_of r.key s.current) s)

abbrev pub add_child : Option ℕ → List ℕ → List ℕ
add_child none cs = cs
add_child (some c) cs = c ∷ cs

-- The part of `close` before its cleanup: whether the cleanup is started now.
unfoldable pub close : Registration → Consumers → Consumers × Bool
close r s = if has r.token s.closing || not (is_current r s) then (s, false) else (
  record s {
    closing = r.token ∷ s.closing;
    retired = if r.options.require_original then r.key ∷ s.retired else s.retired;
    closed_children = add_child r.options.child s.closed_children;
  },
  true,
)

-- What follows the cleanup, whether it succeeds or not.
unfoldable pub settle : Registration → Consumers → Consumers
settle r s =
    if is_current r s
    then record s { current = delete_where (λ x. str_eq x.key r.key) s.current }
    else s

abbrev same_resources : ConsumerOptions → Registration → Bool
same_resources o r =
    str_eq r.options.workflow_id o.workflow_id && same_child r.options.child o.child

abbrev has_child : Option ℕ → Bool
has_child none = false
has_child (some _) = true

unfoldable pub first_where : (Registration → Bool) → List Registration → Option Registration
first_where p [] = none
first_where p (r ∷ rs) = let rest = first_where p rs in if p r then some r else rest

-- `captureRetirement`: the registration that a later retirement is about.
unfoldable pub capture_retirement : ConsumerOptions → Consumers → Option Registration
capture_retirement o s = elim (get key_of (key_for o) s.current) [
  | some r ↦ some r
  | none ↦ if has_child o.child then first_where (same_resources o) s.current else none
]

-- The function that it returns; `can_publish` and `can_retire` are the answers of the guards.
unfoldable pub retire :
    Bool → Bool → ConsumerOptions → Option Registration → Consumers → Consumers × Bool
retire can_publish can_retire o none s = (s, false)
retire can_publish can_retire o (some r) s =
    if not (is_current r s)
      || not (same_child r.options.child o.child)
      || (str_eq r.key (key_for o) && leb o.epoch r.options.epoch)
      || can_publish
      || not can_retire
    then (s, false)
    else close r s
