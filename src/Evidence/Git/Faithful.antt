-- ===== src/Evidence/Git/Faithful.antt =====
-- The evidence of a git workspace in src/evidence.ts says what git printed.
use dsh_codex_workflow.Common.{ℕ, String, ◌≡◌, List, ltb, length}
use dsh_codex_workflow.Evidence.Characters.{utf8, fitting}
use dsh_codex_workflow.Evidence.Porcelain.{PorcelainEntry, status_text, changed_files}
use dsh_codex_workflow.Evidence.Git.{GitEvidence}

-- What the evidence says of the entries and of the text of the diff.
pub record Faithful (limit : ℕ) (revision : String) (es : List PorcelainEntry) (cs : List ℕ)
    (ev : GitEvidence) : Type 0 where
  pub at_revision : ev.base_revision ≡ revision
  pub names : ev.changed_files ≡ changed_files es
  pub states : ev.status ≡ status_text es
  pub characters : ev.diff ≡ utf8 (fitting limit cs)
  pub size : ev.diff_bytes ≡ length (utf8 cs)
  pub says_truncated : ev.diff_truncated ≡ ltb limit (length (utf8 cs))
