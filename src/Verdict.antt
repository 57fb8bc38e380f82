-- ===== src/Verdict.antt =====
-- The record of a workflow (src/types.ts), as far as the submission and the verdict of its review
-- read or write it, and the refusals of src/workflow.ts. A time is the text or the number that the
-- code stores.
pub mod Outcome
pub mod Application
pub mod Cases
pub mod Recovery
pub mod Admission
pub mod Staging
pub mod Delivery
pub mod History
pub mod Frame
pub mod Once
pub mod Passing
pub mod Rounds
mod Samples
mod Tests
use dsh_codex_workflow.Common.{
  ℕ, String, Bool, true, false, not, ◌&&◌, Option, none, some, List, str_eq, if◌then◌else◌,
}
use dsh_codex_workflow.Common.Result.{Result, ok, err, ◌>>=◌}
use dsh_codex_workflow.Bridge.Protocol.{SubmitVerdict, SubmissionNotice}
use dsh_codex_workflow.Review.{ReviewResult, ProcessState}

pub data WorkflowPhase : Type 0 where
  planning waiting_input executing reviewing fixing waiting_review_decision passed blocked failed
        cancelled :
      WorkflowPhase

pub data SubmissionState : Type 0 where
  queued sending waiting_verdict retrying verdict_ready received applied delivered failed :
      SubmissionState

pub data CallbackState : Type 0 where
  idle queued sending waiting_verdict retrying failed : CallbackState

pub data WorkflowOrigin : Type 0 where
  dsh codex_bridge : WorkflowOrigin

pub data NoticeState : Type 0 where
  prepared enqueued delivered : NoticeState

pub data DesktopOpenState : Type 0 where
  pending opened disabled : DesktopOpenState

pub data Decision : Type 0 where
  accept fix : Decision

pub data EvidenceKind : Type 0 where
  git files : EvidenceKind

-- `record.error`, by its text.
pub data StoredError : Type 0 where
  -- "workspace cannot be verified (insufficient evidence); the verdict was not applied …"
  cannot_be_verified : StoredError
  -- "workspace changed since the review (…); the verdict was not applied …"
  changed_since_review : StoredError
  -- "workspace changed after the review (…); the applied verdict is void …"
  changed_after_review : StoredError
  no_verifiable_change : Option ℕ → StoredError
  changes_after_cycles : ℕ → StoredError
  other_text : String → StoredError

pub record ReviewInput : Type 0 where
  pub implementation_summary : String
  pub changed_files : Option (List String)
  pub test_results : Option String

-- The fields of the evidence that a verdict depends on.
pub record ReviewEvidence : Type 0 where
  pub kind : EvidenceKind
  pub changed_files : List String
  pub fingerprint : String
  pub insufficient : Bool

pub record ReviewDecision : Type 0 where
  pub decision : Decision
  pub note : Option String
  pub decided_at : String

pub record StagedVerdict : Type 0 where
  pub command : SubmitVerdict
  pub created_at : String

pub record NoticeRecord : Type 0 where
  pub command : SubmissionNotice
  pub state : NoticeState

pub record WorkflowRecord : Type 0 where
  pub id : String
  pub dsh_session_id : String
  pub cwd : String
  pub task : String
  pub plan_markdown : Option String
  pub created_at : String
  pub origin : Option WorkflowOrigin
  pub codex_thread_id : Option String
  pub phase : WorkflowPhase
  pub error : Option StoredError
  pub review_cycles : ℕ
  pub no_change_review_rounds : Option ℕ
  pub previous_review_fingerprint : Option String
  pub latest_review : Option ReviewResult
  pub latest_review_evidence : Option ReviewEvidence
  pub pending_review_request : Option ReviewInput
  pub review_decision : Option ReviewDecision
  pub review_started_at : Option String
  pub review_elapsed_ms : Option ℕ
  pub last_progress_at : Option String
  pub last_progress_message : Option String
  pub active_turn_id : Option String
  pub process_state : Option ProcessState
  pub callback_state : Option CallbackState
  pub callback_error : Option String
  pub submission_id : Option String
  pub submission_state : Option SubmissionState
  pub submission_attempts : Option ℕ
  pub submission_review_pending : Option Bool
  pub submission_error : Option String
  pub submission_callback_reason : Option String
  pub submission_retry_at : Option ℕ
  pub submission_notice : Option NoticeRecord
  pub submission_lease_token : Option String
  pub submission_lease_epoch : Option ℕ
  pub submission_lease_until : Option ℕ
  pub reviewer_thread_origin : Option String
  pub reviewer_model : Option String
  pub reviewer_effort : Option String
  pub mode : Option String
  pub review_contract_failures : Option ℕ
  pub applied_verdict_request_id : Option String
  pub applied_verdict_submission_id : Option String
  pub applied_verdict_evidence_fingerprint : Option String
  pub staged_verdict : Option StagedVerdict
  pub desktop_open_submission_id : Option String
  pub desktop_open_attempts : Option ℕ
  pub desktop_open_next_at : Option ℕ
  pub desktop_open_error : Option String
  pub desktop_open_state : Option DesktopOpenState

-- What the calls throw, by the text.
pub data Rejection : Type 0 where
  not_a_bridge_workflow thread_mismatch session_mismatch : Rejection
  already_applied stale_submission missing_submission_id already_staged still_staging : Rejection
  not_applicable before_submission invalid_review : Rejection
  manager_stopped aborted context_changed recovery_state_changed active_submission : Rejection
  wrong_phase review_unavailable lease_lost not_current not_waiting_for_decision nothing_to_decide :
      Rejection

-- `maxReviewCycles` and `maxNoChangeReviewRounds`.
pub record ReviewLimits : Type 0 where
  pub max_review_cycles : ℕ
  pub max_no_change_review_rounds : ℕ

-- A reading of the clock, as a text and in milliseconds.
pub record Instant : Type 0 where
  pub iso : String
  pub ms : ℕ

-- The truth value of an optional text.
abbrev pub is_truthy : Option String → Bool
is_truthy none = false
is_truthy (some s) = not (str_eq s "")

-- `===` of two optional texts.
abbrev pub same_text : Option String → Option String → Bool
same_text none none = true
same_text (some a) (some b) = str_eq a b
same_text _ _ = false

abbrev pub is_some {ℓ} : {A : Type ℓ} → Option A → Bool
is_some none = false
is_some (some _) = true

-- `a ?? b`.
abbrev pub or_else {ℓ} : {A : Type ℓ} → Option A → Option A → Option A
or_else none b = b
or_else (some a) b = some a

abbrev pub is_bridge : Option WorkflowOrigin → Bool
is_bridge (some codex_bridge) = true
is_bridge _ = false

abbrev pub has_cancelled : WorkflowPhase → Bool
has_cancelled cancelled = true
has_cancelled _ = false

-- `SUBMISSION_ACTIVE`.
abbrev pub submission_active : Option SubmissionState → Bool
submission_active none = false
submission_active (some applied) = false
submission_active (some delivered) = false
submission_active (some failed) = false
submission_active (some _) = true

-- `SUBMISSION_TERMINAL`.
abbrev pub submission_terminal : Option SubmissionState → Bool
submission_terminal (some applied) = true
submission_terminal (some delivered) = true
submission_terminal (some failed) = true
submission_terminal _ = false

-- One call of `store.update` on the record that its transaction finds, with whether it was
-- suppressed. Its loop is modelled in Workflows/Loop.
abbrev pub update_record :
    Bool
    → (WorkflowRecord → Result Rejection WorkflowRecord)
    → WorkflowRecord
    → Result Rejection (Bool × WorkflowRecord)
update_record ignore_cancelled fn r =
    if not ignore_cancelled && has_cancelled r.phase
    then ok (true, r)
    else fn r >>= (λ r'. ok (false, r'))
