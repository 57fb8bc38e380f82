-- ===== src/Evidence/Files.antt =====
-- `collectFileEvidence` of src/evidence.ts: evidence of a workspace without git.
pub mod Inside
use Prim.Native.Char.{code}
use Prim.Native.String
use Prim.Native.String.{◌++◌ as ◌<>◌}
use text.Mathlib.Text.{starts_with}
use dsh_codex_workflow.Common.{
  ℕ, String, Bool, true, false, not, ◌&&◌, ◌||◌, Option, none, some, List, [], ◌∷◌, ◌++◌, map, ltb,
  if◌then◌else◌, str_eq,
}
use dsh_codex_workflow.Common.Sort.{sort}
use dsh_codex_workflow.Evidence.Bytes.{
  Buffer, concat, DiffCapturer, new_capturer, push, whole_characters,
}
use dsh_codex_workflow.Evidence.Characters.{utf8}

-- What the platform tells: the paths of Node, the file system (none where a call throws), SHA-256
-- in hexadecimal, and the two orders of the sorts.
pub record Platform : Type 0 where
  pub resolve : String → String → String
  pub relative : String → String → String
  pub is_absolute : String → Bool
  pub realpath : String → Option String
  pub is_file : String → Option Bool
  pub hash_file : String → Option String
  pub sha256 : String → String
  pub locale_le : String → String → Bool
  pub code_unit_le : String → String → Bool

pub record FileHash : Type 0 where
  pub path : String
  pub sha256 : String

pub record FileEvidence : Type 0 where
  pub changed_files : List String
  pub status : String
  pub diff : Buffer
  pub diff_truncated : Bool
  pub diff_bytes : ℕ
  pub file_hashes : List FileHash
  pub missing_files : List String
  pub rejected_paths : List String
  pub fingerprint : String
  pub insufficient : Bool

abbrev pub codes : String → List ℕ
codes String.[] = []
codes (String.◌∷◌ c s) = code c ∷ codes s

-- `Buffer.from(text, "utf8")`.
abbrev pub bytes_of : String → Buffer
bytes_of s = utf8 (codes s)

pub data Resolved : Type 0 where
  outside missing : Resolved
  inside : String → Resolved

pub record Collected : Type 0 where
  pub hashes : List FileHash
  pub absent : List String
  pub rejected : List String
  pub capturer : DiffCapturer

abbrev pub nothing_collected : Collected
nothing_collected = record { hashes = []; absent = []; rejected = []; capturer = new_capturer }

unfoldable pub join_lines : List String → String
join_lines [] = ""
join_lines (l ∷ []) = l
join_lines (l ∷ m ∷ ls) = l <> ("\n" <> join_lines (m ∷ ls))

unfoldable pub concat_text : List String → String
concat_text [] = ""
concat_text (s ∷ ss) = s <> concat_text ss

-- `filter` of the entries that are not empty.
unfoldable pub filled_paths : List String → List String
filled_paths [] = []
filled_paths (p ∷ ps) = let rest = filled_paths ps in if str_eq p "" then rest else p ∷ rest

abbrev pub is_none_hashed : List FileHash → Bool
is_none_hashed [] = true
is_none_hashed (_ ∷ _) = false

abbrev pub given_entries : Option (List String) → List String
given_entries none = []
given_entries (some ps) = filled_paths ps

module _ (os : Platform) where
  abbrev pub is_within : String → String → Bool
  is_within base target =
      let rel = os.relative base target in
      str_eq rel "" || (not (starts_with rel "..") && not (os.is_absolute rel))

  -- `realpath(cwd).catch(() => cwd)`.
  abbrev pub real_directory : String → String
  real_directory cwd = elim (os.realpath cwd) [ none ↦ cwd | some p ↦ p ]

  unfoldable pub resolve_within_cwd : String → String → String → Resolved
  resolve_within_cwd cwd real_cwd entry =
      if not (is_within cwd (os.resolve cwd entry))
      then outside
      else elim (os.realpath (os.resolve cwd entry)) [
        | none ↦ missing
        | some target ↦ if is_within real_cwd target then inside target else outside
      ]

module _ (os : Platform) (max_diff_bytes : ℕ) (cwd : String) where
  abbrev pub capture : String → Collected → DiffCapturer
  capture line c = push max_diff_bytes (bytes_of line) c.capturer

  abbrev pub reject : String → Collected → Collected
  reject entry c = record c {
    rejected = c.rejected ++ entry ∷ [];
    capturer = capture ("x rejected " <> (entry <> "\n")) c;
  }

  abbrev pub miss : String → Collected → Collected
  miss entry c = record c {
    absent = c.absent ++ entry ∷ [];
    capturer = capture ("! missing " <> (entry <> "\n")) c;
  }

  abbrev pub keep_hash : String → String → Collected → Collected
  keep_hash entry sha c = record c {
    hashes = c.hashes ++ record { path = entry; sha256 = sha } ∷ [];
    capturer = capture ("+ " <> (entry <> ("\t" <> (sha <> "\n")))) c;
  }

  -- A file that is there, by its real path; none where its hash throws.
  abbrev pub hash_entry : String → String → Collected → Option Collected
  hash_entry entry target c = elim (os.is_file target) [
    | none ↦ some (miss entry c)
    | some false ↦ some (reject entry c)
    | some true ↦ elim (os.hash_file target) [
      | none ↦ none
      | some sha ↦ some (keep_hash entry sha c)
    ]
  ]

  -- The body of the loop.
  unfoldable pub collect_entry : String → String → Collected → Option Collected
  collect_entry real_cwd entry c = elim (resolve_within_cwd os cwd real_cwd entry) [
    | outside ↦ some (reject entry c)
    | missing ↦ some (miss entry c)
    | inside target ↦ hash_entry entry target c
  ]

  unfoldable pub collect_entries : String → List String → Collected → Option Collected
  collect_entries real_cwd [] c = some c
  collect_entries real_cwd (e ∷ es) c = elim (collect_entry real_cwd e c) [
    | none ↦ none
    | some c' ↦ collect_entries real_cwd es c'
  ]

  unfoldable pub status_of : Collected → String
  status_of c = join_lines (
      map (λ f. "+ " <> f.path) c.hashes
      ++ (map (λ p. "! missing " <> p) c.absent ++ map (λ p. "x rejected " <> p) c.rejected))

  unfoldable pub fingerprint_of : Collected → String
  fingerprint_of c = os.sha256 (
      concat_text (
        map (λ f. "+" <> (f.path <> (":" <> (f.sha256 <> "\n"))))
          (sort (λ a b. os.locale_le a.path b.path) c.hashes)
        ++ (map (λ p. "!" <> (p <> "\n")) (sort os.code_unit_le c.absent)
            ++ map (λ p. "x" <> (p <> "\n")) (sort os.code_unit_le c.rejected))))

  abbrev pub evidence_of : List String → Collected → FileEvidence
  evidence_of entries c = record {
    changed_files = entries;
    status = status_of c;
    diff = whole_characters (concat c.capturer.chunks);
    diff_truncated = ltb max_diff_bytes c.capturer.total_bytes;
    diff_bytes = c.capturer.total_bytes;
    file_hashes = c.hashes;
    missing_files = c.absent;
    rejected_paths = c.rejected;
    fingerprint = if is_none_hashed c.hashes then "" else fingerprint_of c;
    insufficient = is_none_hashed c.hashes;
  }

  unfoldable pub collect_file_evidence : Option (List String) → Option FileEvidence
  collect_file_evidence changed =
      elim (collect_entries (real_directory os cwd) (given_entries changed) nothing_collected) [
        | none ↦ none
        | some c ↦ some (evidence_of (given_entries changed) c)
      ]
