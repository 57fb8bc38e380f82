-- ===== src/Evidence/Files/Inside.antt =====
-- Which files `collectFileEvidence` of src/evidence.ts hashes, and that it accounts for every entry.
use mathlib.Core.List.{Memᴰ}
use mathlib.Core.List.Memᴰ
use dsh_codex_workflow.Common.{◌+◌, String, ◌≡◌, true, some, List, length, All}
use dsh_codex_workflow.Evidence.Files.{Platform, FileHash, Collected, is_within, real_directory}

-- The path lies in the workspace as written and as the file system resolves it, and its digest is
-- that of the regular file there.
pub record Inside (os : Platform) (cwd : String) (f : FileHash) : Type 0 where
  pub target : String
  pub within : is_within os cwd (os.resolve cwd f.path) ≡ true
  pub real : os.realpath (os.resolve cwd f.path) ≡ some target
  pub real_within : is_within os (real_directory os cwd) target ≡ true
  pub regular : os.is_file target ≡ some true
  pub digest : os.hash_file target ≡ some f.sha256

-- A path is hashed under its own name, or listed as missing or as rejected.
pub data Named (hashes : List FileHash) (absent rejected : List String) (p : String) : Type 0 where
  is_hashed : (f : FileHash) → Memᴰ f hashes → f.path ≡ p → Named hashes absent rejected p
  is_absent : Memᴰ p absent → Named hashes absent rejected p
  is_rejected : Memᴰ p rejected → Named hashes absent rejected p

-- What the loop keeps, after the entries `done`.
record Accounts (os : Platform) (cwd : String) (done : List String) (c : Collected) : Type 0 where
  all_inside : All (Inside os cwd) c.hashes
  all_named : All (Named c.hashes c.absent c.rejected) done
  all_counted : length c.hashes + length c.absent + length c.rejected ≡ length done
