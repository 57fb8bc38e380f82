-- ===== src/Bridge/Encoding.antt =====
-- The JSON value that `encodeBridgeCommand` of src/bridge-protocol.ts prints for a command: absent
-- optional properties are left out.
use dsh_codex_workflow.Common.{String, Bool, Option, none, some, List, [], ◌∷◌}
use dsh_codex_workflow.Json.{
  Number, whole, Json, bool, num, str, arr, obj, Items, nil, item, Fields, empty, field,
}
use dsh_codex_workflow.Review.{
  Severity, critical, high, medium, low, Verdict, pass, changes_requested, Finding, ReviewResult,
}
use dsh_codex_workflow.Bridge.Protocol.{
  DispatchPlan, SubmitVerdict, SubmissionNotice, BridgeCommand, dispatch_plan, submit_verdict,
  submission_notice,
}

abbrev pub severity_text : Severity → String
severity_text critical = "critical"
severity_text high = "high"
severity_text medium = "medium"
severity_text low = "low"

abbrev pub verdict_text : Verdict → String
verdict_text pass = "pass"
verdict_text changes_requested = "changes_requested"

-- A property that is left out when it is `undefined`.
abbrev pub text_field : String → Option String → Fields → Fields
text_field k none rest = rest
text_field k (some s) rest = field k (str s) rest

abbrev pub number_field : String → Option Number → Fields → Fields
number_field k none rest = rest
number_field k (some n) rest = field k (num n) rest

unfoldable pub strings_json : List String → Items
strings_json [] = nil
strings_json (s ∷ ss) = item (str s) (strings_json ss)

abbrev pub finding_fields :
    Severity → Bool → String → String → Option String → Option Number → Fields
finding_fields severity blocking title body file line =
    field "severity" (str (severity_text severity)) (
      field "blocking" (bool blocking) (
        field "title" (str title)
          (field "body" (str body) (text_field "file" file (number_field "line" line empty)))))

unfoldable pub findings_json : List Finding → Items
findings_json [] = nil
findings_json (f ∷ fs) =
    item (obj (finding_fields f.severity f.blocking f.title f.body f.file f.line))
      (findings_json fs)

abbrev pub review_fields : ReviewResult → Fields
review_fields r = field "verdict" (str (verdict_text r.verdict)) (
    field "findings" (arr (findings_json r.findings))
      (field "testGaps" (arr (strings_json r.test_gaps)) (field "summary" (str r.summary) empty)))

abbrev pub dispatch_fields : DispatchPlan → Fields
dispatch_fields c = field "version" (num (whole 1)) (
    field "kind" (str "dispatch_plan") (
      field "requestId" (str c.request_id) (
        field "createdAt" (str c.created_at) (
          field "codexThreadId" (str c.codex_thread_id) (
            field "target"
              (obj (
                text_field "dshSessionId" c.target_session_id
                  (field "cwd" (str c.target_cwd) empty)))
              (field "task" (str c.task) (
                field "planMarkdown" (str c.plan_markdown)
                  (field "assumptions" (arr (strings_json c.assumptions)) empty))))))))

abbrev pub submit_fields : SubmitVerdict → Fields
submit_fields c = field "version" (num (whole 1)) (
    field "kind" (str "submit_verdict") (
      field "requestId" (str c.request_id) (
        field "createdAt" (str c.created_at) (
          field "workflowId" (str c.workflow_id) (
            field "codexThreadId" (str c.codex_thread_id) (
              text_field "submissionId" c.submission_id (
                text_field "dshSessionId" c.dsh_session_id
                  (field "verdict" (obj (review_fields c.verdict)) empty))))))))

abbrev pub notice_fields : SubmissionNotice → Fields
notice_fields c = field "version" (num (whole 1)) (
    field "kind" (str "submission_notice") (
      field "requestId" (str c.request_id) (
        field "createdAt" (str c.created_at) (
          field "workflowId" (str c.workflow_id) (
            field "submissionId" (str c.submission_id) (
              field "codexThreadId" (str c.codex_thread_id) (
                field "dshSessionId" (str c.dsh_session_id)
                  (field "level" (str "error") (field "message" (str c.message) empty)))))))))

unfoldable pub command_json : BridgeCommand → Json
command_json (dispatch_plan c) = obj (dispatch_fields c)
command_json (submit_verdict c) = obj (submit_fields c)
command_json (submission_notice c) = obj (notice_fields c)
