-- ===== src/Verdict/Recovery.antt =====
-- src/application/submission-recovery-policy.ts: when a failed submission may be reviewed again, and the
-- comparison of `assertAdmission` in src/workflow.ts.
use Prim.Native.String.{slice, len}
use dsh_codex_workflow.Common.{
  String, Bool, true, false, not, ◌&&◌, ◌||◌, Option, none, some, List, [], ◌∷◌, str_eq, ltb,
  if◌then◌else◌,
}
use dsh_codex_workflow.Common.Result.{Result, ok, err}
use dsh_codex_workflow.Verdict.{
  SubmissionState, failed, EvidenceKind, git, files, ReviewEvidence, WorkflowRecord, Rejection,
  review_unavailable, is_truthy, same_text, is_some, is_bridge,
}
use dsh_codex_workflow.Verdict.Outcome.{zero_or}

pub data Unavailable : Type 0 where
  thread_unavailable handle_unavailable : Unavailable

abbrev historical_unavailable_messages : List String
historical_unavailable_messages =
    "original ephemeral Reviewer consumer is retired or unavailable in this process; refusing to create a replacement"
    ∷ "original ephemeral Reviewer consumer was retired; no replacement will be created"
    ∷ "original ephemeral Reviewer consumer was retired and is unavailable; no replacement will be created"
    ∷ "original ephemeral Reviewer operation is unavailable in this process; no replacement will be created"
    ∷ "the original ephemeral Reviewer process was lost; submit a new review round"
    ∷ "the retained ephemeral Reviewer process was lost; its original thread cannot be resumed" ∷ []

abbrev historical_result_unavailable_messages : List String
historical_result_unavailable_messages =
    "completed Reviewer result is unavailable in this process; refusing to repeat the original review"
    ∷ []

unfoldable pub has_message : String → List String → Bool
has_message s [] = false
has_message s (t ∷ ts) = str_eq s t || has_message s ts

-- `messages.some((value) => known.has(value))`.
unfoldable pub some_message : List String → List String → Bool
some_message [] known = false
some_message (m ∷ ms) known = has_message m known || some_message ms known

abbrev pub same_kind : EvidenceKind → EvidenceKind → Bool
same_kind git git = true
same_kind files files = true
same_kind _ _ = false

-- Whether the evidence of the record and the new one show a change.
abbrev pub evidence_changed : Option ReviewEvidence → ReviewEvidence → Bool
evidence_changed none e = false
evidence_changed (some p) e =
    not p.insufficient
    && not (str_eq p.fingerprint "")
    && not e.insufficient
    && not (str_eq e.fingerprint "")
    && same_kind p.kind e.kind
    && not (str_eq p.fingerprint e.fingerprint)

abbrev pub has_failed : Option SubmissionState → Bool
has_failed (some failed) = true
has_failed _ = false

abbrev pub same_bool : Bool → Bool → Bool
same_bool a b = if a then b else not b

-- `String.prototype.trim` is `trim`.
module _ (trim : String → String) where
  abbrev error_text : Option String → String
  error_text none = ""
  error_text (some s) = trim s

  abbrev pub without_prefix : String → String → List String → List String
  without_prefix prefix message rest =
      if str_eq (slice message 0 (len prefix)) prefix
      then trim (slice message (len prefix) (len message)) ∷ rest
      else rest

  abbrev pub recorded_messages : WorkflowRecord → List String
  recorded_messages r =
      let message = error_text r.submission_error in
      message
      ∷ without_prefix "reviewer failed: " message
          (without_prefix "Codex Reviewer 后台审查失败：" message [])

  unfoldable pub bridge_review_unavailable_reason : WorkflowRecord → Option Unavailable
  bridge_review_unavailable_reason r =
      if not (is_bridge r.origin)
        || not (has_failed r.submission_state)
        || not (is_truthy r.submission_id)
      then none
      else if same_text r.submission_callback_reason (some "original_reviewer_unavailable")
      then some thread_unavailable
      else if same_text r.submission_callback_reason (some "original_review_result_unavailable")
      then some handle_unavailable
      else if not (same_text r.reviewer_thread_origin (some "app-server-ephemeral"))
          || not (ltb 0 (zero_or r.submission_attempts))
      then none
      else if some_message (recorded_messages r) historical_unavailable_messages
      then some thread_unavailable
      else if some_message (recorded_messages r) historical_result_unavailable_messages
      then some handle_unavailable
      else none

  unfoldable pub assert_submission_review_round :
      WorkflowRecord → ReviewEvidence → Bool → Result Rejection (Unit {0})
  assert_submission_review_round r e new_review_round =
      if not (is_some (bridge_review_unavailable_reason r)) || new_review_round
      then ok tt
      else if evidence_changed r.latest_review_evidence e
      then ok tt
      else err review_unavailable

  -- What a failed submission was recorded with must not have changed either.
  abbrev pub recovery_state_kept : WorkflowRecord → WorkflowRecord → Bool
  recovery_state_kept record_ current =
      let unavailable = is_some (bridge_review_unavailable_reason record_) in
      same_bool (is_some (bridge_review_unavailable_reason current)) unavailable
      && (not unavailable
          || (same_text current.submission_callback_reason record_.submission_callback_reason
              && same_text current.submission_error record_.submission_error))
