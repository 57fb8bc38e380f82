-- ===== src/Evidence/Porcelain.antt =====
-- `parsePorcelain` of src/evidence.ts on the output of `git status --porcelain=v1 -z`, and what
-- `collectGitEvidence` makes of its entries. A text is its UTF-16 code units.
pub mod RoundTrip
use dsh_codex_workflow.Common.{
  ℕ, Bool, true, false, not, ◌&&◌, ◌||◌, Option, none, some, List, [], ◌∷◌, ◌++◌, ◌==◌,
  if◌then◌else◌, take, drop,
}

abbrev pub Text : Type 0
Text = List ℕ

pub record PorcelainEntry : Type 0 where
  pub xy : Text
  pub path : Text
  pub target : Option Text

abbrev pub put_first : ℕ → List Text → List Text
put_first c [] = (c ∷ []) ∷ []
put_first c (t ∷ ts) = (c ∷ t) ∷ ts

-- `stdout.split("\0")`.
unfoldable pub split : Text → List Text
split [] = [] ∷ []
split (c ∷ cs) = let rest = split cs in if c == 0 then [] ∷ rest else put_first c rest

abbrev pub is_empty : Text → Bool
is_empty [] = true
is_empty (_ ∷ _) = false

abbrev pub is_rename_code : Text → Bool
is_rename_code [] = false
is_rename_code (c ∷ _) = c == b'R' || c == b'C'

-- The part is a rename or a copy and names a path.
abbrev pub renames : Text → Bool
renames part = is_rename_code (take 2 part) && not (is_empty (drop 3 part))

abbrev pub plain : Text → PorcelainEntry
plain part = record { xy = take 2 part; path = drop 3 part; target = none }

-- Git lists the destination first and the source second.
abbrev pub renamed : Text → Text → PorcelainEntry
renamed part other = record { xy = take 2 part; path = other; target = some (drop 3 part) }

-- The loop over the parts; a rename takes two of them.
unfoldable pub parse_parts : List Text → List PorcelainEntry
parse_parts [] = []
parse_parts (p ∷ []) = if is_empty p then [] else plain p ∷ []
parse_parts (p ∷ o ∷ ps) = elim (is_empty p) [
  | true ↦ parse_parts (o ∷ ps)
  | false ↦ elim (renames p && not (is_empty o)) [
    | true ↦ renamed p o ∷ parse_parts ps
    | false ↦ plain p ∷ parse_parts (o ∷ ps)
  ]
]

unfoldable pub parse_porcelain : Text → List PorcelainEntry
parse_porcelain stdout = parse_parts (split stdout)

-- An empty target counts as none.
abbrev pub arrow : Text
arrow = b' ' ∷ b'-' ∷ b'>' ∷ b' ' ∷ []

abbrev pub status_line : PorcelainEntry → Text
status_line e = elim e.target [
  | some (c ∷ cs) ↦ e.xy ++ b' ' ∷ (e.path ++ (arrow ++ c ∷ cs))
  | _ ↦ e.xy ++ b' ' ∷ e.path
]

-- `map(…).join("\n")`.
unfoldable pub status_text : List PorcelainEntry → Text
status_text [] = []
status_text (e ∷ []) = status_line e
status_text (e ∷ f ∷ es) = status_line e ++ b'\n' ∷ status_text (f ∷ es)

unfoldable pub changed_files : List PorcelainEntry → List Text
changed_files [] = []
changed_files (e ∷ es) = elim e.target [
  | some (c ∷ cs) ↦ e.path ∷ (c ∷ cs) ∷ changed_files es
  | _ ↦ e.path ∷ changed_files es
]
