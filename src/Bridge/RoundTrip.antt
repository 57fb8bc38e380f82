-- ===== src/Bridge/RoundTrip.antt =====
-- The parsers of src/bridge-protocol.ts accept what its encoder prints.
use dsh_codex_workflow.Common.{
  String, ◌≡◌, refl, Bool, true, false, Option, none, some, List, [], ◌∷◌, str_eq, All,
}
use dsh_codex_workflow.Common.Result.{ok}
use dsh_codex_workflow.Json.{Number, is_integer, Json, obj, Fields, lookup}
use dsh_codex_workflow.Review.{
  Severity, critical, high, medium, low, Verdict, pass, changes_requested, Finding, ReviewResult,
}
use dsh_codex_workflow.Bridge.Protocol.{
  SubmitVerdict, BridgeCommand, dispatch_plan, submit_verdict, submission_notice, known_keys,
  read_strings, read_severity, read_verdict, parse_finding, parse_findings, parse_review_result,
  parse_target, parse_dispatch_plan_command, parse_submit_verdict_command,
  parse_submission_notice_command, parse_bridge_command,
}
use dsh_codex_workflow.Bridge.Encoding.{
  text_field, severity_text, verdict_text, strings_json, finding_fields, findings_json,
  review_fields, submit_fields, command_json,
}

abbrev pub Filled : String → Type 0
Filled s = str_eq s "" ≡ false

-- `undefined`, or a text that is not empty.
abbrev pub OptionFilled : Option String → Type 0
OptionFilled none = Unit
OptionFilled (some s) = Filled s

abbrev pub IsInteger : Option Number → Type 0
IsInteger none = Unit
IsInteger (some n) = is_integer n ≡ true

abbrev pub ValidFinding : Finding → Type 0
ValidFinding f = Filled f.title × Filled f.body × IsInteger f.line

strings-read : (label : String) (ss : List String) → read_strings label (strings_json ss) ≡ ok ss
unfolding read_strings strings_json
strings-read label [] = refl
strings-read label (s ∷ ss) = rw (strings-read label ss) refl

severity-read : (s : Severity) → read_severity (some (Json.str (severity_text s))) ≡ ok s
severity-read critical = refl
severity-read high = refl
severity-read medium = refl
severity-read low = refl

verdict-read : (v : Verdict) → read_verdict (some (Json.str (verdict_text v))) ≡ ok v
verdict-read pass = refl
verdict-read changes_requested = refl

finding-read :
    (severity : Severity) (blocking : Bool) (title body : String) (file : Option String)
    (line : Option Number)
    → Filled title
    → Filled body
    → IsInteger line
    → parse_finding (obj (finding_fields severity blocking title body file line))
      ≡ ok (record {
        severity = severity;
        blocking = blocking;
        title = title;
        body = body;
        file = file;
        line = line;
      })
unfolding parse_finding lookup known_keys
finding-read severity blocking title body none none t b l = rw (severity-read severity, t, b) refl
finding-read severity blocking title body (some f) none t b l =
    rw (severity-read severity, t, b) refl
finding-read severity blocking title body none (some n) t b l =
    rw (severity-read severity, t, b, l) refl
finding-read severity blocking title body (some f) (some n) t b l =
    rw (severity-read severity, t, b, l) refl

findings-read :
    (fs : List Finding) → All ValidFinding fs → parse_findings (findings_json fs) ≡ ok fs
unfolding parse_findings findings_json
findings-read [] v = refl
findings-read (f ∷ fs) ((t, b, l), v) =
    rw (finding-read f.severity f.blocking f.title f.body f.file f.line t b l, findings-read fs v)
      refl

review-read :
    (r : ReviewResult)
    → All ValidFinding r.findings
    → parse_review_result (some (obj (review_fields r))) ≡ ok r
unfolding parse_review_result lookup known_keys
review-read r v =
    rw
      (
        verdict-read r.verdict,
        findings-read r.findings v,
        strings-read "verdict.testGaps" r.test_gaps,
      )
      refl

module _ (valid_uuid valid_date windows_path : String → Bool) where
  abbrev pub IsUuid : String → Type 0
  IsUuid s = Filled s × (valid_uuid s ≡ true)

  abbrev pub IsDate : String → Type 0
  IsDate s = Filled s × (valid_date s ≡ true)

  abbrev pub OptionUuid : Option String → Type 0
  OptionUuid none = Unit
  OptionUuid (some s) = IsUuid s

  -- What the types of a command do not say of its fields.
  abbrev pub ValidCommand : BridgeCommand → Type 0
  ValidCommand (dispatch_plan c) =
      IsUuid c.request_id
      × IsDate c.created_at
      × IsUuid c.codex_thread_id
      × OptionFilled c.target_session_id
      × Filled c.target_cwd
      × (windows_path c.target_cwd ≡ true)
      × Filled c.task
      × Filled c.plan_markdown
  ValidCommand (submit_verdict c) =
      IsUuid c.request_id
      × IsDate c.created_at
      × Filled c.workflow_id
      × IsUuid c.codex_thread_id
      × OptionUuid c.submission_id
      × OptionFilled c.dsh_session_id
      × All ValidFinding c.verdict.findings
  ValidCommand (submission_notice c) =
      IsUuid c.request_id
      × IsDate c.created_at
      × Filled c.workflow_id
      × IsUuid c.submission_id
      × IsUuid c.codex_thread_id
      × Filled c.dsh_session_id
      × Filled c.message

  target-read :
      (session : Option String) (cwd : String)
      → OptionFilled session
      → Filled cwd
      → windows_path cwd ≡ true
      → parse_target valid_uuid valid_date windows_path (
          some (
            obj
              (text_field "dshSessionId" session (Fields.field "cwd" (Json.str cwd) Fields.empty))))
        ≡ ok (cwd, session)
  unfolding parse_target lookup known_keys
  target-read none cwd s w w' = rw (w, w') refl
  target-read (some i) cwd s w w' = rw (w, w', s) refl

  submit-read :
      (c : SubmitVerdict) (submission session : Option String)
      → Filled c.request_id
      → valid_uuid c.request_id ≡ true
      → Filled c.created_at
      → valid_date c.created_at ≡ true
      → Filled c.workflow_id
      → Filled c.codex_thread_id
      → valid_uuid c.codex_thread_id ≡ true
      → OptionUuid submission
      → OptionFilled session
      → All ValidFinding c.verdict.findings
      → parse_bridge_command valid_uuid valid_date windows_path
          (obj (submit_fields (record c { submission_id = submission; dsh_session_id = session })))
        ≡ ok (submit_verdict (record c { submission_id = submission; dsh_session_id = session }))
  unfolding parse_bridge_command parse_submit_verdict_command lookup known_keys
  submit-read c none none r r' d d' w t t' i s v =
      rw (r, r', d, d', w, t, t', review-read c.verdict v) refl
  submit-read c none (some x) r r' d d' w t t' i s v =
      rw (r, r', d, d', w, t, t', s, review-read c.verdict v) refl
  submit-read c (some y) none r r' d d' w t t' (i, i') s v =
      rw (r, r', d, d', w, t, t', i, i', review-read c.verdict v) refl
  submit-read c (some y) (some x) r r' d d' w t t' (i, i') s v =
      rw (r, r', d, d', w, t, t', i, i', s, review-read c.verdict v) refl

  -- A command whose fields have the forms that the protocol asks for is parsed from its own encoding.
  pub encode-parse :
      (c : BridgeCommand)
      → ValidCommand c
      → parse_bridge_command valid_uuid valid_date windows_path (command_json c) ≡ ok c
  unfolding parse_bridge_command parse_dispatch_plan_command parse_submit_verdict_command
      parse_submission_notice_command command_json lookup known_keys
  encode-parse (dispatch_plan c) ((r, r'), (d, d'), (t, t'), s, w, w', k, p) =
      rw
        (
          r,
          r',
          d,
          d',
          t,
          t',
          target-read c.target_session_id c.target_cwd s w w',
          k,
          p,
          strings-read "assumptions" c.assumptions,
        )
        refl
  encode-parse (submit_verdict c) ((r, r'), (d, d'), w, (t, t'), i, s, v) =
      submit-read c c.submission_id c.dsh_session_id r r' d d' w t t' i s v
  encode-parse (submission_notice c) ((r, r'), (d, d'), w, (i, i'), (t, t'), s, m) =
      rw (r, r', d, d', w, i, i', t, t', s, m) refl
