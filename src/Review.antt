-- ===== src/Review.antt =====
-- Review results and planner questions of src/types.ts.
use dsh_codex_workflow.Json.{Number}
use dsh_codex_workflow.Common.{String, Bool, Option, List}

pub data Severity : Type 0 where
  critical high medium low : Severity

pub data Verdict : Type 0 where
  pass changes_requested : Verdict

pub record Finding : Type 0 where
  pub severity : Severity
  pub blocking : Bool
  pub title : String
  pub body : String
  pub file : Option String
  pub line : Option Number

pub record ReviewResult : Type 0 where
  pub verdict : Verdict
  pub findings : List Finding
  pub test_gaps : List String
  pub summary : String

pub record QuestionOption : Type 0 where
  pub label : String
  pub description : Option String

pub record PlannerQuestion : Type 0 where
  pub id : String
  pub header : String
  pub question : String
  pub options : Option (List QuestionOption)
  pub allow_other : Bool
  pub secret : Bool

pub data ProcessState : Type 0 where
  running waiting completed failed cancelled stale : ProcessState

pub data ReviewStep : Type 0 where
  reviewing native_turn readback display_rewrite conversion alignment reconciliation finalizing :
      ReviewStep
