-- ===== src/Evidence/Tests.antt =====
-- Runs of src/evidence.ts.
use Prim.Native.String.{◌++◌ as ◌<>◌}
use dsh_codex_workflow.Common.{
  ℕ, ◌&&◌, String, ◌≡◌, refl, true, false, none, some, List, [], ◌∷◌, if◌then◌else◌, str_eq, length,
  take, All,
}
use dsh_codex_workflow.Common.Result.{ok, err}
use dsh_codex_workflow.Evidence.Git.{
  GitRun, Revisions, GitFacts, head_changed, collect_evidence, untracked_pieces, Piece,
}
use dsh_codex_workflow.Evidence.Git.Faithful.{Faithful}
use dsh_codex_workflow.Evidence.Bytes.{Buffer, concat, new_capturer, push_all, stream, no_diff}
use dsh_codex_workflow.Evidence.Characters.{fitting}
use dsh_codex_workflow.Evidence.Failure.{
  is_none, is_without_git, some_unreadable, collect_evidence_throws, leads_to_unreadable,
}
use dsh_codex_workflow.Evidence.Porcelain.{PorcelainEntry, parse_porcelain, parse_parts, split}
use dsh_codex_workflow.Evidence.Porcelain.RoundTrip.{porcelain, ValidEntry, porcelain-parse}
use dsh_codex_workflow.Evidence.Files.{
  Platform, collect_file_evidence, given_entries, resolve_within_cwd,
}
use dsh_codex_workflow.Evidence.Files.Inside.{Inside}
use dsh_codex_workflow.Evidence.Capture.{push_all-stream}

-- "a€", of one and three bytes, in two chunks; three bytes hold only the first character.
abbrev chunks : List Buffer
chunks = (0x61 ∷ 0xe2 ∷ []) ∷ (0x82 ∷ 0xac ∷ []) ∷ []

abbrev text : List ℕ
text = 0x61 ∷ 0x20ac ∷ []

fitting_test : fitting 3 text ≡ 0x61 ∷ []
unfolding fitting
fitting_test = refl

-- A rename of "b" to "a" and a file that git does not track.
abbrev entries : List PorcelainEntry
entries =
    record { xy = b'R' ∷ b' ' ∷ []; path = b'b' ∷ []; target = some (b'a' ∷ []) }
    ∷ record { xy = b'?' ∷ b'?' ∷ []; path = b'c' ∷ []; target = none }
    ∷ []

entries-ValidEntry : All ValidEntry entries
entries-ValidEntry = (
  record {
    x = b'R';
    y = b' ';
    letters = refl;
    no_nul = (refl, (refl, tt));
    path_no_nul = (refl, tt);
    target_fits = (refl, refl, refl, (refl, tt));
  },
  (
    record {
      x = b'?';
      y = b'?';
      letters = refl;
      no_nul = (refl, (refl, tt));
      path_no_nul = (refl, tt);
      target_fits = (refl, refl);
    },
    tt,
  ),
)

porcelain-parse_example : parse_porcelain (porcelain entries) ≡ entries
porcelain-parse_example = porcelain-parse entries entries-ValidEntry

-- A rename of "src/x" to "a" in the working tree alone, as git prints it: the old path is read as an
-- entry of its own, with its first characters as the status.
abbrev worktree_rename : List ℕ
worktree_rename = b' ' ∷ b'R' ∷ b' ' ∷ b'a' ∷ 0 ∷ b's' ∷ b'r' ∷ b'c' ∷ b'/' ∷ b'x' ∷ 0 ∷ []

worktree_rename_test :
    parse_porcelain worktree_rename
    ≡ record { xy = b' ' ∷ b'R' ∷ []; path = b'a' ∷ []; target = none }
      ∷ record { xy = b's' ∷ b'r' ∷ []; path = b'/' ∷ b'x' ∷ []; target = none }
      ∷ []
unfolding parse_porcelain parse_parts split
worktree_rename_test = refl

-- A workspace "/w" with the one file "/w/a".
abbrev platform : Platform
platform = record {
  resolve = λ base p. base <> ("/" <> p);
  relative = λ base p. if str_eq p "/w/a" then "a" else "..";
  is_absolute = λ p. false;
  realpath = λ p. some p;
  is_file = λ p. some (str_eq p "/w/a");
  hash_file = λ p. some "digest";
  sha256 = λ s. "print";
  locale_le = λ a b. true;
  code_unit_le = λ a b. true;
}

push_all-stream_example :
    (concat (push_all 3 chunks new_capturer).chunks ≡ take 3 (concat chunks))
    × ((push_all 3 chunks new_capturer).total_bytes ≡ length (concat chunks))
    × (concat (stream 3 chunks no_diff).captured ≡ take 3 (concat chunks))
    × ((stream 3 chunks no_diff).seen_bytes ≡ length (concat chunks))
    × ((stream 3 chunks no_diff).hashed ≡ concat chunks)
push_all-stream_example = push_all-stream 3 chunks

abbrev head_run : GitRun
head_run = record { code = 0; stdout = "abc"; stderr_empty = true }

abbrev revisions : Revisions
revisions = record { head = head_run; symbolic_ref = head_run; show_ref = λ b. head_run }

abbrev facts : GitFacts
facts = record {
  before = revisions;
  after = revisions;
  status_output = ok (porcelain entries);
  diff_chunks = λ r. ok chunks;
  os = platform;
  cwd = "/w";
  resolve = λ p. "/w/a";
  sha256 = λ ps. "print";
  sha256_bytes = λ ps. [];
}

abbrev as_is : String → String
as_is s = s

-- The untracked file is hashed, and is not where it lies outside.
untracked_test : untracked_pieces platform "/w" (λ p. "/w/a") entries ≡ Piece.text "digest" ∷ []
unfolding untracked_pieces
untracked_test = refl

untracked_outside_test : untracked_pieces platform "/w" (λ p. "/x") entries ≡ []
unfolding untracked_pieces
untracked_outside_test = refl

-- A file of the workspace that cannot be read.
abbrev locked : Platform
locked = record platform { hash_file = λ p. none }

locked_test : some_unreadable locked "/w" ("x" ∷ "a" ∷ []) ≡ true
unfolding some_unreadable leads_to_unreadable resolve_within_cwd
locked_test = refl

collect_evidence_throws_example :
    is_none (
      collect_evidence true
        (err head_changed)
        (collect_file_evidence locked 100 "/w" (some ("x" ∷ "a" ∷ []))))
    ≡ (is_without_git true (err head_changed)
        && some_unreadable locked "/w" (given_entries (some ("x" ∷ "a" ∷ []))))
collect_evidence_throws_example =
    collect_evidence_throws locked "/w" 100 true (err head_changed) (some ("x" ∷ "a" ∷ []))
