-- ===== src/Bridge/Protocol.antt =====
-- The commands of src/bridge-protocol.ts and their parsers. The regular expressions of a UUID and of
-- an absolute Windows path, and `Date.parse`, are parameters.
use dsh_codex_workflow.Common.{
  String, Bool, true, false, Option, none, some, List, [], ◌∷◌, ◌==◌, if◌then◌else◌, str_eq,
}
use dsh_codex_workflow.Common.Result.{Result, ok, err, ◌>>=◌}
use dsh_codex_workflow.Json.{
  Number, whole, is_integer, Json, null, bool, num, str, arr, obj, Items, nil, item, Fields, empty,
  field, lookup,
}
use dsh_codex_workflow.Review.{
  Severity, critical, high, medium, low, Verdict, pass, changes_requested, Finding, ReviewResult,
}

pub record DispatchPlan : Type 0 where
  pub request_id : String
  pub created_at : String
  pub codex_thread_id : String
  pub target_session_id : Option String
  pub target_cwd : String
  pub task : String
  pub plan_markdown : String
  pub assumptions : List String

pub record SubmitVerdict : Type 0 where
  pub request_id : String
  pub created_at : String
  pub workflow_id : String
  pub codex_thread_id : String
  pub submission_id : Option String
  pub dsh_session_id : Option String
  pub verdict : ReviewResult

pub record SubmissionNotice : Type 0 where
  pub request_id : String
  pub created_at : String
  pub workflow_id : String
  pub submission_id : String
  pub codex_thread_id : String
  pub dsh_session_id : String
  pub message : String

pub data BridgeCommand : Type 0 where
  dispatch_plan : DispatchPlan → BridgeCommand
  submit_verdict : SubmitVerdict → BridgeCommand
  submission_notice : SubmissionNotice → BridgeCommand

-- What `fail` says, by its label.
pub data Failure : Type 0 where
  must_be_string must_not_be_empty must_be_uuid must_be_timestamp must_be_strings : String → Failure
  must_be_object must_be_array unknown_field invalid : String → Failure

abbrev pub member : String → List String → Bool
member k [] = false
member k (n ∷ ns) = if str_eq k n then true else member k ns

-- The loop over the keys of an object.
unfoldable pub known_keys : List String → Fields → Result Failure (Unit {0})
known_keys keys empty = ok tt
known_keys keys (field k v rest) =
    let others = known_keys keys rest in if member k keys then others else err (unknown_field k)

-- `requireString(value, label, nonEmpty)`.
abbrev pub require_string : Option Json → String → Bool → Result Failure String
require_string (some (str s)) label false = ok s
require_string (some (str s)) label true =
    if str_eq s "" then err (must_not_be_empty label) else ok s
require_string _ label non_empty = err (must_be_string label)

abbrev pub optional_string : Option Json → String → Result Failure (Option String)
optional_string none label = ok none
optional_string (some v) label = require_string (some v) label true >>= (λ s. ok (some s))

unfoldable pub read_strings : String → Items → Result Failure (List String)
read_strings label nil = ok []
read_strings label (item (str s) vs) = read_strings label vs >>= (λ ss. ok (s ∷ ss))
read_strings label (item _ vs) = err (must_be_strings label)

abbrev pub require_string_array : Option Json → String → Result Failure (List String)
require_string_array (some (arr vs)) label = read_strings label vs
require_string_array _ label = err (must_be_strings label)

abbrev pub read_verdict : Option Json → Result Failure Verdict
read_verdict (some (str s)) =
    if str_eq s "pass"
    then ok pass
    else if str_eq s "changes_requested"
    then ok changes_requested
    else err (invalid "verdict")
read_verdict _ = err (invalid "verdict")

abbrev pub read_severity : Option Json → Result Failure Severity
read_severity (some (str s)) =
    if str_eq s "critical"
    then ok critical
    else if str_eq s "high"
    then ok high
    else if str_eq s "medium"
    then ok medium
    else if str_eq s "low"
    then ok low
    else err (invalid "severity")
read_severity _ = err (invalid "severity")

abbrev pub read_blocking : Option Json → Result Failure Bool
read_blocking (some (bool b)) = ok b
read_blocking _ = err (invalid "blocking")

-- A `null` file or line counts as absent.
abbrev pub read_file : Option Json → Result Failure (Option String)
read_file none = ok none
read_file (some null) = ok none
read_file (some v) = require_string (some v) "finding.file" false >>= (λ s. ok (some s))

abbrev pub read_line : Option Json → Result Failure (Option Number)
read_line none = ok none
read_line (some null) = ok none
read_line (some (num n)) = if is_integer n then ok (some n) else err (invalid "finding.line")
read_line (some _) = err (invalid "finding.line")

abbrev pub finding_keys : List String
finding_keys = "severity" ∷ "blocking" ∷ "title" ∷ "body" ∷ "file" ∷ "line" ∷ []

unfoldable pub parse_finding : Json → Result Failure Finding
parse_finding (obj fs) = read_severity (lookup "severity" fs) >>= (λ severity.
    read_blocking (lookup "blocking" fs) >>= (λ blocking.
      require_string (lookup "title" fs) "finding.title" true >>= (λ title.
        require_string (lookup "body" fs) "finding.body" true >>= (λ body.
          read_file (lookup "file" fs) >>= (λ file. read_line (lookup "line" fs) >>= (λ line.
            known_keys finding_keys fs >>= (λ _. ok (record {
              severity = severity;
              blocking = blocking;
              title = title;
              body = body;
              file = file;
              line = line;
            }))))))))
parse_finding _ = err (must_be_object "finding")

unfoldable pub parse_findings : Items → Result Failure (List Finding)
parse_findings nil = ok []
parse_findings (item v vs) =
    let rest = parse_findings vs in parse_finding v >>= (λ f. rest >>= (λ fs. ok (f ∷ fs)))

abbrev pub read_findings : Option Json → Result Failure (List Finding)
read_findings (some (arr vs)) = parse_findings vs
read_findings _ = err (must_be_array "verdict.findings")

abbrev pub verdict_keys : List String
verdict_keys = "verdict" ∷ "findings" ∷ "testGaps" ∷ "summary" ∷ []

unfoldable pub parse_review_result : Option Json → Result Failure ReviewResult
parse_review_result (some (obj fs)) = read_verdict (lookup "verdict" fs) >>= (λ verdict.
    read_findings (lookup "findings" fs) >>= (λ findings.
      require_string_array (lookup "testGaps" fs) "verdict.testGaps" >>= (λ gaps.
        require_string (lookup "summary" fs) "verdict.summary" false >>= (λ summary.
          known_keys verdict_keys fs >>= (λ _. ok (record {
            verdict = verdict;
            findings = findings;
            test_gaps = gaps;
            summary = summary;
          }))))))
parse_review_result _ = err (must_be_object "verdict")

abbrev pub is_version : Option Json → Bool
is_version (some (num (whole n))) = n == 1
is_version _ = false

abbrev pub is_text : String → Option Json → Bool
is_text t (some (str s)) = str_eq s t
is_text t _ = false

-- `if (!test) fail(label)`.
abbrev pub check : Bool → String → Result Failure (Unit {0})
check test label = if test then ok tt else err (invalid label)

module _ (valid_uuid valid_date windows_path : String → Bool) where
  abbrev pub require_uuid : Option Json → String → Result Failure String
  require_uuid v label =
      require_string v label true >>= (λ s. if valid_uuid s then ok s else err (must_be_uuid label))

  abbrev pub optional_uuid : Option Json → String → Result Failure (Option String)
  optional_uuid none label = ok none
  optional_uuid (some v) label = require_uuid (some v) label >>= (λ s. ok (some s))

  abbrev pub require_iso_date : Option Json → String → Result Failure String
  require_iso_date v label =
      require_string v label true
      >>= (λ s. if valid_date s then ok s else err (must_be_timestamp label))

  abbrev pub target_keys : List String
  target_keys = "cwd" ∷ "dshSessionId" ∷ []

  unfoldable pub parse_target : Option Json → Result Failure (String × Option String)
  parse_target (some (obj fs)) = require_string (lookup "cwd" fs) "target.cwd" true >>= (λ cwd.
      check (windows_path cwd) "target.cwd" >>= (λ _.
        optional_string (lookup "dshSessionId" fs) "target.dshSessionId"
        >>= (λ session. known_keys target_keys fs >>= (λ _. ok (cwd, session)))))
  parse_target _ = err (must_be_object "target")

  abbrev pub dispatch_keys : List String
  dispatch_keys =
      "version" ∷ "kind" ∷ "requestId" ∷ "createdAt" ∷ "codexThreadId" ∷ "target" ∷ "task"
      ∷ "planMarkdown" ∷ "assumptions" ∷ []

  unfoldable pub parse_dispatch_plan_command : Fields → Result Failure DispatchPlan
  parse_dispatch_plan_command fs = check (is_version (lookup "version" fs)) "version" >>= (λ _.
      check (is_text "dispatch_plan" (lookup "kind" fs)) "kind" >>= (λ _.
        require_uuid (lookup "requestId" fs) "requestId" >>= (λ request_id.
          require_iso_date (lookup "createdAt" fs) "createdAt" >>= (λ created_at.
            require_uuid (lookup "codexThreadId" fs) "codexThreadId" >>= (λ thread.
              parse_target (lookup "target" fs) >>= (λ target.
                require_string (lookup "task" fs) "task" true >>= (λ task.
                  require_string (lookup "planMarkdown" fs) "planMarkdown" true >>= (λ plan.
                    require_string_array (lookup "assumptions" fs) "assumptions" >>= (λ assumptions.
                      known_keys dispatch_keys fs >>= (λ _. ok (record {
                        request_id = request_id;
                        created_at = created_at;
                        codex_thread_id = thread;
                        target_session_id = target.1;
                        target_cwd = target.0;
                        task = task;
                        plan_markdown = plan;
                        assumptions = assumptions;
                      })))))))))))

  abbrev pub submit_keys : List String
  submit_keys =
      "version" ∷ "kind" ∷ "requestId" ∷ "createdAt" ∷ "workflowId" ∷ "codexThreadId"
      ∷ "submissionId" ∷ "dshSessionId" ∷ "verdict" ∷ []

  unfoldable pub parse_submit_verdict_command : Fields → Result Failure SubmitVerdict
  parse_submit_verdict_command fs = check (is_version (lookup "version" fs)) "version" >>= (λ _.
      check (is_text "submit_verdict" (lookup "kind" fs)) "kind" >>= (λ _.
        require_uuid (lookup "requestId" fs) "requestId" >>= (λ request_id.
          require_iso_date (lookup "createdAt" fs) "createdAt" >>= (λ created_at.
            require_string (lookup "workflowId" fs) "workflowId" true >>= (λ workflow_id.
              require_uuid (lookup "codexThreadId" fs) "codexThreadId" >>= (λ thread.
                optional_uuid (lookup "submissionId" fs) "submissionId" >>= (λ submission.
                  optional_string (lookup "dshSessionId" fs) "dshSessionId" >>= (λ session.
                    parse_review_result (lookup "verdict" fs) >>= (λ verdict.
                      known_keys submit_keys fs >>= (λ _. ok (record {
                        request_id = request_id;
                        created_at = created_at;
                        workflow_id = workflow_id;
                        codex_thread_id = thread;
                        submission_id = submission;
                        dsh_session_id = session;
                        verdict = verdict;
                      })))))))))))

  abbrev pub notice_keys : List String
  notice_keys =
      "version" ∷ "kind" ∷ "requestId" ∷ "createdAt" ∷ "workflowId" ∷ "submissionId"
      ∷ "codexThreadId" ∷ "dshSessionId" ∷ "level" ∷ "message" ∷ []

  unfoldable pub parse_submission_notice_command : Fields → Result Failure SubmissionNotice
  parse_submission_notice_command fs = check (is_version (lookup "version" fs)) "version" >>= (λ _.
      check (is_text "submission_notice" (lookup "kind" fs)) "kind" >>= (λ _.
        check (is_text "error" (lookup "level" fs)) "level" >>= (λ _.
          require_uuid (lookup "requestId" fs) "requestId" >>= (λ request_id.
            require_iso_date (lookup "createdAt" fs) "createdAt" >>= (λ created_at.
              require_string (lookup "workflowId" fs) "workflowId" true >>= (λ workflow_id.
                require_uuid (lookup "submissionId" fs) "submissionId" >>= (λ submission.
                  require_uuid (lookup "codexThreadId" fs) "codexThreadId" >>= (λ thread.
                    require_string (lookup "dshSessionId" fs) "dshSessionId" true >>= (λ session.
                      require_string (lookup "message" fs) "message" true >>= (λ message.
                        known_keys notice_keys fs >>= (λ _. ok (record {
                          request_id = request_id;
                          created_at = created_at;
                          workflow_id = workflow_id;
                          submission_id = submission;
                          codex_thread_id = thread;
                          dsh_session_id = session;
                          message = message;
                        }))))))))))))

  unfoldable pub parse_bridge_command : Json → Result Failure BridgeCommand
  parse_bridge_command (obj fs) = check (is_version (lookup "version" fs)) "version" >>= (λ _.
      if is_text "dispatch_plan" (lookup "kind" fs)
      then parse_dispatch_plan_command fs >>= (λ c. ok (dispatch_plan c))
      else if is_text "submit_verdict" (lookup "kind" fs)
      then parse_submit_verdict_command fs >>= (λ c. ok (submit_verdict c))
      else if is_text "submission_notice" (lookup "kind" fs)
      then parse_submission_notice_command fs >>= (λ c. ok (submission_notice c))
      else err (invalid "kind"))
  parse_bridge_command _ = err (must_be_object "command")
