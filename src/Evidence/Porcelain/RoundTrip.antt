-- ===== src/Evidence/Porcelain/RoundTrip.antt =====
-- What git prints is what `parsePorcelain` of src/evidence.ts reads.
use dsh_codex_workflow.Common.{
  ℕ, ◌≡◌, refl, ap, sym, ◌∙◌, true, false, Option, none, some, List, [], ◌∷◌, ◌++◌, ◌==◌, All,
}
use mathlib.Core.List.{append_assoc}
use dsh_codex_workflow.Evidence.Porcelain.{
  Text, PorcelainEntry, split, is_empty, is_rename_code, renames, plain, renamed, parse_parts,
  parse_porcelain,
}

-- The format of `-z`: two status letters, a space and a path; for a rename the new path, and the
-- old one in a part of its own.
abbrev pub porcelain_entry : Text → Text → Option Text → Text
porcelain_entry xy path none = xy ++ b' ' ∷ (path ++ 0 ∷ [])
porcelain_entry xy path (some t) = xy ++ b' ' ∷ (t ++ 0 ∷ (path ++ 0 ∷ []))

unfoldable pub porcelain : List PorcelainEntry → Text
porcelain [] = []
porcelain (e ∷ es) = porcelain_entry e.xy e.path e.target ++ porcelain es

abbrev pub NoNul : Text → Type 0
NoNul t = All (λ c. (c == 0) ≡ false) t

-- An entry with two paths is a rename or a copy in the index, and says so in its first letter. One
-- with a single path is no rename or copy at all, in either letter.
abbrev pub ValidTarget : ℕ → ℕ → Text → Option Text → Type 0
ValidTarget x y path none = (is_rename_code (x ∷ []) ≡ false) × (is_rename_code (y ∷ []) ≡ false)
ValidTarget x y path (some t) =
    (is_rename_code (x ∷ []) ≡ true) × (is_empty path ≡ false) × (is_empty t ≡ false) × NoNul t

pub record ValidEntry (e : PorcelainEntry) : Type 0 where
  pub x : ℕ
  pub y : ℕ
  pub letters : e.xy ≡ x ∷ y ∷ []
  pub no_nul : NoNul (x ∷ y ∷ [])
  pub path_no_nul : NoNul e.path
  pub target_fits : ValidTarget x y e.path e.target

split-nul : (t rest : Text) → NoNul t → split (t ++ 0 ∷ rest) ≡ t ∷ split rest
unfolding split
split-nul [] rest h = refl
split-nul (c ∷ t) rest (h, hs) = rw (h, split-nul t rest hs) refl

parse_parts-plain :
    (p : Text) (qs : List Text)
    → is_empty p ≡ false
    → renames p ≡ false
    → parse_parts (p ∷ qs) ≡ plain p ∷ parse_parts qs
unfolding parse_parts
parse_parts-plain p [] h r = rw h refl
parse_parts-plain p (o ∷ ps) h r = rw (h, r, parse_parts) refl

parse_parts-renamed :
    (p o : Text) (ps : List Text)
    → is_empty p ≡ false
    → renames p ≡ true
    → is_empty o ≡ false
    → parse_parts (p ∷ o ∷ ps) ≡ renamed p o ∷ parse_parts ps
unfolding parse_parts
parse_parts-renamed p o ps h r k = rw (h, r, k, parse_parts) refl

plain-read :
    (x y : ℕ) (path : Text) (rest : Text)
    → NoNul (x ∷ y ∷ [])
    → NoNul path
    → is_rename_code (x ∷ []) ≡ false
    → parse_porcelain (porcelain_entry (x ∷ y ∷ []) path none ++ rest)
      ≡ record { xy = x ∷ y ∷ []; path = path; target = none } ∷ parse_porcelain rest
unfolding parse_porcelain
plain-read x y path rest h k r =
    let p = x ∷ y ∷ b' ' ∷ path in
    ap (λ t. parse_parts (split (x ∷ y ∷ b' ' ∷ t))) (append_assoc path (0 ∷ []) rest)
    ∙ ap parse_parts (split-nul p rest (h.0, (h.1.0, (refl, k))))
    ∙ parse_parts-plain p (split rest) refl (rw r refl)

renamed-read :
    (x y : ℕ) (path t : Text) (rest : Text)
    → NoNul (x ∷ y ∷ [])
    → NoNul path
    → is_rename_code (x ∷ []) ≡ true
    → is_empty path ≡ false
    → is_empty t ≡ false
    → NoNul t
    → parse_porcelain (porcelain_entry (x ∷ y ∷ []) path (some t) ++ rest)
      ≡ record { xy = x ∷ y ∷ []; path = path; target = some t } ∷ parse_porcelain rest
unfolding parse_porcelain
renamed-read x y path t rest h k r e f n =
    let p = x ∷ y ∷ b' ' ∷ t in
    ap (λ u. parse_parts (split (x ∷ y ∷ b' ' ∷ u)))
      (append_assoc t (0 ∷ (path ++ 0 ∷ [])) rest
        ∙ ap (λ u. t ++ 0 ∷ u) (append_assoc path (0 ∷ []) rest))
    ∙ ap parse_parts (
        split-nul p (path ++ 0 ∷ rest) (h.0, (h.1.0, (refl, n)))
        ∙ ap (λ ps. p ∷ ps) (split-nul path rest k))
    ∙ parse_parts-renamed p path (split rest) refl (rw (r, f) refl) e

entry-read :
    (x y : ℕ) (path : Text) (target : Option Text) (rest : Text)
    → NoNul (x ∷ y ∷ [])
    → NoNul path
    → ValidTarget x y path target
    → parse_porcelain (porcelain_entry (x ∷ y ∷ []) path target ++ rest)
      ≡ record { xy = x ∷ y ∷ []; path = path; target = target } ∷ parse_porcelain rest
entry-read x y path none rest h k (v, _) = plain-read x y path rest h k v
entry-read x y path (some t) rest h k (r, e, f, n) = renamed-read x y path t rest h k r e f n

-- What git prints for entries whose renames and copies are all in the index, with an R or a C in
-- the first status letter, is parsed into these entries, if no path holds a zero character and no
-- path of a rename is empty. Renames and copies of the working tree, with the R or C in the second
-- letter and two paths as well, are left out: they are read as two entries.
pub porcelain-parse :
    (es : List PorcelainEntry) → All ValidEntry es → parse_porcelain (porcelain es) ≡ es
unfolding porcelain parse_porcelain parse_parts split
porcelain-parse [] v = refl
porcelain-parse (e ∷ es) (v, vs) =
    ap (λ xy. parse_porcelain (porcelain_entry xy e.path e.target ++ porcelain es)) v.letters
    ∙ entry-read v.x v.y e.path e.target (porcelain es) v.no_nul v.path_no_nul v.target_fits
    ∙ ap
        (λ xy.
          record { xy = xy; path = e.path; target = e.target } ∷ parse_porcelain (porcelain es))
        (sym v.letters)
    ∙ ap (λ rest. e ∷ rest) (porcelain-parse es vs)
