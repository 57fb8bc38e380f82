-- ===== src/Verdict/Samples.antt =====
-- The records and calls of the runs of src/workflow.ts in Tests.
use dsh_codex_workflow.Common.{ℕ, String, true, false, Option, none, some, List, [], ◌∷◌}
use dsh_codex_workflow.Bridge.Protocol.{SubmitVerdict}
use dsh_codex_workflow.Review.{ReviewResult, high, pass, running}
use dsh_codex_workflow.Verdict.{
  executing, queued, received, idle, codex_bridge, git, ReviewInput, ReviewEvidence, WorkflowRecord,
  ReviewLimits, Instant, CallbackState,
}
use dsh_codex_workflow.Verdict.Admission.{ReviewIdentity, Submission}
use dsh_codex_workflow.Verdict.Staging.{ReviewRun}
use dsh_codex_workflow.Verdict.History.{Call, sends, stages, receives, answers, commits, step}

abbrev pub no_date : String → Option ℕ
no_date s = none

abbrev pub same_string : String → String
same_string s = s

abbrev pub task_of : ReviewIdentity → String
task_of i = i.task

abbrev pub limits : ReviewLimits
limits = record { max_review_cycles = 3; max_no_change_review_rounds = 2 }

abbrev pub noon : Instant
noon = record { iso = "12:00"; ms = 1200 }

abbrev pub seen : ReviewEvidence
seen = record { kind = git; changed_files = "a.ts" ∷ []; fingerprint = "f1"; insufficient = false }

abbrev pub request : ReviewInput
request = record { implementation_summary = "done"; changed_files = none; test_results = none }

abbrev pub started : WorkflowRecord
started = record {
  id = "w";
  dsh_session_id = "session";
  cwd = "/work";
  task = "task";
  plan_markdown = some "plan";
  created_at = "11:00";
  origin = some codex_bridge;
  codex_thread_id = some "thread";
  phase = executing;
  error = none;
  review_cycles = 0;
  no_change_review_rounds = some 0;
  previous_review_fingerprint = none;
  latest_review = none;
  latest_review_evidence = none;
  pending_review_request = none;
  review_decision = none;
  review_started_at = none;
  review_elapsed_ms = none;
  last_progress_at = none;
  last_progress_message = none;
  active_turn_id = none;
  process_state = none;
  callback_state = some idle;
  callback_error = none;
  submission_id = none;
  submission_state = none;
  submission_attempts = none;
  submission_review_pending = none;
  submission_error = none;
  submission_callback_reason = none;
  submission_retry_at = none;
  submission_notice = none;
  submission_lease_token = none;
  submission_lease_epoch = none;
  submission_lease_until = none;
  reviewer_thread_origin = none;
  reviewer_model = none;
  reviewer_effort = none;
  mode = none;
  review_contract_failures = none;
  applied_verdict_request_id = none;
  applied_verdict_submission_id = none;
  applied_verdict_evidence_fingerprint = none;
  staged_verdict = none;
  desktop_open_submission_id = none;
  desktop_open_attempts = none;
  desktop_open_next_at = none;
  desktop_open_error = none;
  desktop_open_state = none;
}

abbrev pub submission : Submission
submission = record {
  admitted = started;
  request = request;
  evidence = seen;
  recovery_evidence = seen;
  new_review_round = false;
  submission_id = "s1";
  lease = record { owner = "p"; epoch = 1 };
}

abbrev pub waiting_record : WorkflowRecord
waiting_record = record started {
  pending_review_request = some request;
  latest_review_evidence = some seen;
  submission_id = some "s1";
  submission_state = some queued;
  submission_attempts = some 0;
  submission_lease_token = some "p";
  submission_lease_epoch = some 1;
  submission_lease_until = some 1500;
  callback_state = some CallbackState.queued;
}

abbrev pub clean : ReviewResult
clean = record { verdict = pass; findings = []; test_gaps = []; summary = "fine" }

abbrev pub broken : ReviewResult
broken = record {
  verdict = pass;
  findings =
      record {
        severity = high;
        blocking = true;
        title = "leak";
        body = "fix it";
        file = none;
        line = none;
      }
      ∷ [];
  test_gaps = [];
  summary = "leaks";
}

abbrev pub verdict_of : String → ReviewResult → SubmitVerdict
verdict_of id result = record {
  request_id = id;
  created_at = "12:00";
  workflow_id = "w";
  codex_thread_id = "thread";
  submission_id = some "s1";
  dsh_session_id = some "session";
  verdict = result;
}

abbrev pub review_run : ReviewRun
review_run = record {
  submission_id = "s1";
  lease = some (record { owner = "p"; epoch = 1 });
  prompt = "";
  identity = "task";
}

abbrev pub received_record : WorkflowRecord
received_record = record waiting_record {
  submission_state = some received;
  submission_attempts = some 1;
  staged_verdict = some (record { command = verdict_of "v1" clean; created_at = "12:00" });
  process_state = some running;
  last_progress_at = some "12:00";
  last_progress_message = some "Continuing the current background review";
  callback_state = some idle;
  review_contract_failures = some 0;
}

abbrev pub later_calls : List Call
later_calls =
    answers noon (verdict_of "v1" clean) seen started
    ∷ answers noon (verdict_of "v2" broken) seen started
    ∷ commits (verdict_of "v1" clean)
    ∷ []

-- A blocking finding demotes the pass and asks for a repair.
abbrev pub bad_calls : List Call
bad_calls =
    sends review_run true "12:00" 1
    ∷ stages review_run true (verdict_of "v1" broken)
    ∷ receives review_run true "v1"
    ∷ answers noon (verdict_of "v1" broken) seen started
    ∷ []

abbrev pub applied_record : WorkflowRecord
applied_record =
    step no_date limits same_string task_of (answers noon (verdict_of "v1" clean) seen started)
      received_record
