-- ===== src/Evidence/Git.antt =====
-- `collectGitEvidence`, `readGitBaseRevision` and `collectEvidence` of src/evidence.ts. What git
-- prints and what the platform tells of files are given.
pub mod Faithful
use dsh_codex_workflow.Common.{
  ℕ, String, Bool, true, false, not, ◌&&◌, ◌||◌, Option, none, some, List, [], ◌∷◌, ◌++◌, ◌==◌, leb,
  ltb, if◌then◌else◌, str_eq, take,
}
use dsh_codex_workflow.Common.Result.{Result, ok, err, ◌>>=◌}
use dsh_codex_workflow.Evidence.Bytes.{Buffer, concat, stream, no_diff, whole_characters}
use dsh_codex_workflow.Evidence.Porcelain.{
  Text, PorcelainEntry, parse_porcelain, status_text, changed_files,
}
use dsh_codex_workflow.Evidence.Files.{Platform, FileEvidence, is_within}

pub record GitRun : Type 0 where
  pub code : ℕ
  pub stdout : String
  pub stderr_empty : Bool

pub data GitError : Type 0 where
  git_failed unresolved_head head_changed : GitError

pub data Captured : Type 0 where
  output : String → Captured
  missing_ref : Captured

-- `runGitCapture`, with the exit code that means a missing reference.
unfoldable pub run_git_capture : GitRun → Option ℕ → Result GitError Captured
run_git_capture r missing_code = if r.code == 0 then ok (output r.stdout) else elim missing_code [
  | none ↦ err git_failed
  | some m ↦
      if r.code == m && (r.code == 2 || r.stderr_empty) then ok missing_ref else err git_failed
]

-- The three commands that may be run for the base revision; the last is about the branch.
pub record Revisions : Type 0 where
  pub head : GitRun
  pub symbolic_ref : GitRun
  pub show_ref : String → GitRun

module _ (trim : String → String) where
  abbrev pub branch_of : Captured → String
  branch_of (output s) = trim s
  branch_of missing_ref = trim ""

  abbrev pub unborn_if_missing : Captured → Result GitError String
  unborn_if_missing missing_ref = ok "unborn"
  unborn_if_missing (output _) = err unresolved_head

  abbrev pub base_of : Revisions → Captured → Result GitError String
  base_of g (output s) = ok (trim s)
  base_of g missing_ref =
      run_git_capture g.symbolic_ref none
      >>= (λ branch. run_git_capture (g.show_ref (branch_of branch)) (some 2) >>= unborn_if_missing)

  unfoldable pub read_git_base_revision : Revisions → Result GitError String
  unfolding run_git_capture
  read_git_base_revision g = run_git_capture g.head (some 1) >>= base_of g

-- What is hashed: texts and digests.
pub data Piece : Type 0 where
  text : String → Piece
  units : Text → Piece
  bytes : Buffer → Piece

pub record GitEvidence : Type 0 where
  pub base_revision : String
  pub changed_files : List Text
  pub status : Text
  pub diff : Buffer
  pub diff_truncated : Bool
  pub diff_bytes : ℕ
  pub fingerprint : String

-- One collection: what the commands print, the revision before and after, and the files of the
-- workspace.
pub record GitFacts : Type 0 where
  pub before : Revisions
  pub after : Revisions
  pub status_output : Result GitError Text
  -- The chunks of `git diff <revision>`, or of the two diffs of an unborn branch.
  pub diff_chunks : String → Result GitError (List Buffer)
  pub os : Platform
  pub cwd : String
  -- `resolve(cwd, path)`, for a path as git printed it.
  pub resolve : Text → String
  pub sha256 : List Piece → String
  pub sha256_bytes : List Piece → Buffer

abbrev untracked : Text
untracked = b'?' ∷ b'?' ∷ []

abbrev same_text : Text → Text → Bool
same_text [] [] = true
same_text (a ∷ as') (b ∷ bs) = a == b && same_text as' bs
same_text _ _ = false

-- The digests of the files that git does not track: those in the workspace by their path that are
-- regular and can be read.
module _ (os : Platform) (cwd : String) (resolve : Text → String) where
  abbrev pub digest_of : String → List Piece → List Piece
  digest_of target rest = elim (os.hash_file target) [ none ↦ rest | some d ↦ text d ∷ rest ]

  abbrev pub file_piece : String → List Piece → List Piece
  file_piece target rest = elim (os.is_file target) [
    | none ↦ rest
    | some regular ↦ if regular then digest_of target rest else rest
  ]

  unfoldable pub untracked_pieces : List PorcelainEntry → List Piece
  untracked_pieces [] = []
  untracked_pieces (e ∷ es) =
      let rest = untracked_pieces es in
      if not (same_text e.xy untracked)
      then rest
      else if not (is_within os cwd (resolve e.path))
      then rest
      else file_piece (resolve e.path) rest

module _ (trim : String → String) (max_diff_bytes : ℕ) (g : GitFacts) where
  abbrev pub git_evidence : String → List PorcelainEntry → List Buffer → GitEvidence
  git_evidence revision entries chunks =
      let d = stream max_diff_bytes chunks no_diff in
      record {
        base_revision = revision;
        changed_files = changed_files entries;
        status = status_text entries;
        diff = whole_characters (take max_diff_bytes (concat d.captured));
        diff_truncated = ltb max_diff_bytes d.seen_bytes;
        diff_bytes = d.seen_bytes;
        fingerprint = g.sha256 (
            text "HEAD:"
            ∷ text revision
            ∷ text "\n"
            ∷ units (status_text entries)
            ∷ text "\n"
            ∷ text (g.sha256 (bytes d.hashed ∷ []))
            ∷ text "\n"
            ∷ bytes (g.sha256_bytes (untracked_pieces g.os g.cwd g.resolve entries))
            ∷ []);
      }

  unfoldable pub collect_git_evidence : Result GitError GitEvidence
  unfolding read_git_base_revision
  collect_git_evidence = read_git_base_revision trim g.before >>= (λ revision.
      g.status_output >>= (λ stdout. g.diff_chunks revision >>= (λ chunks.
        read_git_base_revision trim g.after >>= (λ revision'.
          if str_eq revision' revision
          then ok (git_evidence revision (parse_porcelain stdout) chunks)
          else err head_changed))))

pub data Evidence : Type 0 where
  git : GitEvidence → Evidence
  files : FileEvidence → Evidence

-- `collectEvidence`: a failure of git leads to the evidence of files.
unfoldable pub collect_evidence :
    Bool → Result GitError GitEvidence → Option FileEvidence → Option Evidence
collect_evidence is_repository from_git from_files =
    if is_repository
    then elim from_git [
      | ok e ↦ some (git e)
      | err _ ↦ elim from_files [ none ↦ none | some f ↦ some (files f) ]
    ]
    else elim from_files [ none ↦ none | some f ↦ some (files f) ]
