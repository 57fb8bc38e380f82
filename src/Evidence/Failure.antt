-- ===== src/Evidence/Failure.antt =====
-- When `collectEvidence` of src/evidence.ts throws: its `catch` covers git, and the hash of a file
-- stands outside of it.
use dsh_codex_workflow.Common.{
  ℕ, String, ◌≡◌, refl, sym, ap, ◌∙◌, inl, inr, Bool, true, false, ◌&&◌, ◌||◌, Option, none, some,
  List, [], ◌∷◌, Option-cases,
}
use dsh_codex_workflow.Common.Result.{Result, ok, err}
use dsh_codex_workflow.Evidence.Files.{
  Platform, Resolved, outside, missing, inside, Collected, nothing_collected, given_entries,
  real_directory, resolve_within_cwd, hash_entry, collect_entry, collect_entries,
  collect_file_evidence,
}
use dsh_codex_workflow.Evidence.Git.{GitError, GitEvidence, files, collect_evidence}

abbrev pub is_none {ℓ} : {A : Type ℓ} → Option A → Bool
is_none none = true
is_none (some _) = false

-- No evidence comes from git.
abbrev pub is_without_git : Bool → Result GitError GitEvidence → Bool
is_without_git true (ok _) = false
is_without_git true (err _) = true
is_without_git false _ = true

module _ (os : Platform) (cwd : String) where
  -- A regular file whose hash throws.
  abbrev pub is_unreadable : String → Bool
  is_unreadable target = elim (os.is_file target) [
    | some true ↦ is_none (os.hash_file target)
    | _ ↦ false
  ]

  -- A path that leads to one within the workspace.
  unfoldable pub leads_to_unreadable : String → Bool
  leads_to_unreadable entry = elim (resolve_within_cwd os cwd (real_directory os cwd) entry) [
    | inside target ↦ is_unreadable target
    | _ ↦ false
  ]

  unfoldable pub some_unreadable : List String → Bool
  some_unreadable [] = false
  some_unreadable (e ∷ es) = leads_to_unreadable e || some_unreadable es

  module _ (limit : ℕ) where
    hash_entry-none :
        (entry target : String) (c : Collected)
        → is_none (hash_entry os limit cwd entry target c) ≡ is_unreadable target
    hash_entry-none entry target c = elim (Option-cases (os.is_file target)) [
      | inl gone ↦ rw (gone, is_none, is_unreadable) refl
      | inr (false, other) ↦ rw (other, is_none, is_unreadable) refl
      | inr (true, regular) ↦ elim (Option-cases (os.hash_file target)) [
        | inl throws ↦ rw (regular, throws, is_none, is_unreadable) refl
        | inr (sha, digest) ↦ rw (regular, digest, is_none, is_unreadable) refl
      ]
    ]

    collect_entry-none :
        (entry : String) (c : Collected)
        → is_none (collect_entry os limit cwd (real_directory os cwd) entry c)
          ≡ leads_to_unreadable entry
    unfolding collect_entry leads_to_unreadable
    collect_entry-none entry c =
        by_place (resolve_within_cwd os cwd (real_directory os cwd) entry) refl
      where
        by_place :
            (r : Resolved)
            → resolve_within_cwd os cwd (real_directory os cwd) entry ≡ r
            → is_none (collect_entry os limit cwd (real_directory os cwd) entry c)
              ≡ leads_to_unreadable entry
        by_place outside e = rw (e, collect_entry, leads_to_unreadable) refl
        by_place missing e = rw (e, collect_entry, leads_to_unreadable) refl
        by_place (inside target) e =
            rw (e, collect_entry, leads_to_unreadable) (hash_entry-none entry target c)

    collect_entries-none :
        (es : List String) (c : Collected)
        → is_none (collect_entries os limit cwd (real_directory os cwd) es c) ≡ some_unreadable es
    unfolding collect_entries some_unreadable
    collect_entries-none [] c = refl
    collect_entries-none (e ∷ es) c =
        elim (Option-cases (collect_entry os limit cwd (real_directory os cwd) e c)) [
          | inl throws ↦
              let found = sym (ap is_none throws) ∙ collect_entry-none e c in
              rw (throws, is_none, sym found) refl
          | inr (c', done) ↦
              let found = sym (ap is_none done) ∙ collect_entry-none e c in
              rw (done, is_none, collect_entries, sym found) (collect_entries-none es c')
        ]

    files_throw :
        (changed : Option (List String))
        → is_none (elim (collect_file_evidence os limit cwd changed) [
          | none ↦ none
          | some f ↦ some (files f)
        ])
          ≡ some_unreadable (given_entries changed)
    unfolding collect_file_evidence
    files_throw changed =
        let all = collect_entries-none (given_entries changed) nothing_collected in
        elim (Option-cases (
          collect_entries os limit cwd (real_directory os cwd) (given_entries changed)
            nothing_collected)) [
              | inl throws ↦
                  let found = sym (ap is_none throws) ∙ all in rw (throws, is_none, sym found) refl
              | inr (c, done) ↦
                  let found = sym (ap is_none done) ∙ all in rw (done, is_none, sym found) refl
            ]

    -- `collectEvidence` throws just where no evidence comes from git and one of the paths given leads
    -- to a regular file of the workspace whose hash throws.
    pub collect_evidence_throws :
        (is_repository : Bool) (from_git : Result GitError GitEvidence)
        (changed : Option (List String))
        → is_none
            (collect_evidence is_repository from_git (collect_file_evidence os limit cwd changed))
          ≡ (is_without_git is_repository from_git && some_unreadable (given_entries changed))
    unfolding collect_evidence
    collect_evidence_throws true (ok e) changed = refl
    collect_evidence_throws true (err e) changed = files_throw changed
    collect_evidence_throws false from_git changed = files_throw changed
