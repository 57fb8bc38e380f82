-- ===== src/Projection/Live.antt =====
-- Live entries of src/review-events.ts: `appendLive`. A text is its UTF-16 code units.
use dsh_codex_workflow.Common.{
  ℕ, zero, suc, ◌≤◌, String, ◌≡◌, refl, Bool, true, false, ◌&&◌, Option, none, some, List, [], ◌∷◌,
  ◌++◌, ◌==◌, leb, if◌then◌else◌, str_eq, length, take, drop, length-append, length-take,
  length-drop, arith, Bool-cases, inl, inr,
}

abbrev pub Text : Type 0
Text = List ℕ

-- `text.slice(0, n)`.
abbrev pub clip : ℕ → Text → Text
clip n text = take n text

pub data EntryKind : Type 0 where
  message plan reasoning tool : EntryKind

abbrev pub kind_code : EntryKind → ℕ
kind_code message = 0
kind_code plan = 1
kind_code reasoning = 2
kind_code tool = 3

-- An exit code is a number or another integer, kept as it is written.
pub data ExitCode : Type 0 where
  exited : ℕ → ExitCode
  below_zero : ℕ → ExitCode

-- The optional details of an entry.
pub record Details : Type 0 where
  pub command : Option String
  pub cwd : Option String
  pub exit_code : Option ExitCode
  pub status : Option String
  pub files : Option (List String)

pub record LiveEntry : Type 0 where
  pub kind : EntryKind
  pub item_id : String
  pub text : Text
  pub replace : Bool
  pub details : Details

pub record ViewEntry : Type 0 where
  pub kind : EntryKind
  pub item_id : String
  pub text : Text
  pub details : Details

-- `value ? { key: value } : {}`: an empty text counts as absent.
abbrev pub truthy : Option String → Option String
truthy none = none
truthy (some s) = if str_eq s "" then none else some s

-- Spreading an optional property over an older one.
abbrev pub over {ℓ} : {A : Type ℓ} → Option A → Option A → Option A
over none old = old
over (some new) old = some new

abbrev pub details_over : Details → Details → Details
details_over new old = record {
  command = over (truthy new.command) old.command;
  cwd = over (truthy new.cwd) old.cwd;
  exit_code = over new.exit_code old.exit_code;
  status = over (truthy new.status) old.status;
  files = over new.files old.files;
}

abbrev pub no_details : Details
no_details = record { command = none; cwd = none; exit_code = none; status = none; files = none }

-- `item.kind === entry.kind && item.itemId === entry.itemId`.
abbrev pub names : EntryKind → String → ViewEntry → Bool
names kind id v = kind_code v.kind == kind_code kind && str_eq v.item_id id

-- `findIndex(test) >= 0`.
unfoldable pub any_names : EntryKind → String → List ViewEntry → Bool
any_names kind id [] = false
any_names kind id (v ∷ vs) = if names kind id v then true else any_names kind id vs

-- The assignment at the index that `findIndex` gave.
unfoldable pub change_first :
    EntryKind → String → (ViewEntry → ViewEntry) → List ViewEntry → List ViewEntry
change_first kind id f [] = []
change_first kind id f (v ∷ vs) =
    let rest = change_first kind id f vs in if names kind id v then f v ∷ vs else v ∷ rest

abbrev pub max_text : ℕ
max_text = 65536

abbrev pub max_entries : ℕ
max_entries = 96

abbrev pub new_entry : LiveEntry → ViewEntry
new_entry e = record {
  kind = e.kind;
  item_id = e.item_id;
  text = clip max_text e.text;
  details = details_over e.details no_details;
}

abbrev pub changed_entry : LiveEntry → ViewEntry → ViewEntry
changed_entry e v = record v {
  text = clip max_text (if e.replace then e.text else v.text ++ e.text);
  details = details_over e.details v.details;
}

-- `if (next.length >= 96) next.shift()`.
abbrev pub make_room : List ViewEntry → List ViewEntry
make_room vs = if leb max_entries (length vs) then drop 1 vs else vs

unfoldable pub append_entry : LiveEntry → List ViewEntry → List ViewEntry
append_entry e vs =
    if any_names e.kind e.item_id vs
    then change_first e.kind e.item_id (changed_entry e) vs
    else make_room vs ++ new_entry e ∷ []

unfoldable pub append_live : List LiveEntry → List ViewEntry → List ViewEntry
append_live [] vs = vs
append_live (e ∷ es) vs = append_live es (append_entry e vs)

-- No more entries than the limit, and no entry longer than its limit.
abbrev pub Bounded : List ViewEntry → Type 0
Bounded [] = Unit
Bounded (v ∷ vs) = (length v.text ≤ max_text) × Bounded vs

length-change :
    (kind : EntryKind) (id : String) (f : ViewEntry → ViewEntry) (vs : List ViewEntry)
    → length (change_first kind id f vs) ≡ length vs
unfolding change_first
length-change kind id f [] = refl
length-change kind id f (v ∷ vs) = ground (arith, length-change kind id f vs)

change-Bounded :
    (kind : EntryKind) (id : String) (f : ViewEntry → ViewEntry) (vs : List ViewEntry)
    → ((v : ViewEntry) → length (f v).text ≤ max_text)
    → Bounded vs
    → Bounded (change_first kind id f vs)
unfolding change_first
change-Bounded kind id f [] short b = tt
change-Bounded kind id f (v ∷ vs) short (b, bs) = elim (Bool-cases (names kind id v)) [
  | inl hit ↦ rw (hit, change_first) (short v, bs)
  | inr miss ↦ rw (miss, change_first) (b, change-Bounded kind id f vs short bs)
]

drop-Bounded : (n : ℕ) (vs : List ViewEntry) → Bounded vs → Bounded (drop n vs)
drop-Bounded zero vs b = b
drop-Bounded (suc n) [] b = tt
drop-Bounded (suc n) (v ∷ vs) (b, bs) = drop-Bounded n vs bs

append-Bounded :
    (vs : List ViewEntry) (v : ViewEntry)
    → Bounded vs
    → length v.text ≤ max_text
    → Bounded (vs ++ v ∷ [])
append-Bounded [] v b short = (short, tt)
append-Bounded (x ∷ vs) v (b, bs) short = (b, append-Bounded vs v bs short)

clip-short : (text : Text) → length (clip max_text text) ≤ max_text
clip-short text = omega (arith, length-take max_text text)

append_entry-Bounded :
    (e : LiveEntry) (vs : List ViewEntry)
    → length vs ≤ max_entries
    → Bounded vs
    → (length (append_entry e vs) ≤ max_entries) × Bounded (append_entry e vs)
unfolding append_entry
append_entry-Bounded e vs n b = elim (Bool-cases (any_names e.kind e.item_id vs)) [
  | inl old ↦ rw old (
    rw (length-change e.kind e.item_id (changed_entry e) vs) n,
    change-Bounded e.kind e.item_id (changed_entry e) vs
        (λ v. clip-short (if e.replace then e.text else v.text ++ e.text)) b,
  )
  | inr fresh ↦ elim (Bool-cases (leb max_entries (length vs))) [
    | inl full ↦
        rw (fresh, full)
          (
            omega (arith, length-append (drop 1 vs) (new_entry e ∷ []), length-drop 1 vs, n),
            append-Bounded (drop 1 vs) (new_entry e) (drop-Bounded 1 vs b) (clip-short e.text),
          )
    | inr room ↦
        rw (fresh, room)
          (
            ground (arith, length-append vs (new_entry e ∷ [])),
            append-Bounded vs (new_entry e) b (clip-short e.text),
          )
  ]
]

-- Appending keeps a live view within its limits: at most 96 entries, each of at most 65,536 code
-- units.
pub append_live-Bounded :
    (es : List LiveEntry) (vs : List ViewEntry)
    → length vs ≤ max_entries
    → Bounded vs
    → (length (append_live es vs) ≤ max_entries) × Bounded (append_live es vs)
unfolding append_live
append_live-Bounded [] vs n b = (n, b)
append_live-Bounded (e ∷ es) vs n b =
    let (n', b') = append_entry-Bounded e vs n b in append_live-Bounded es (append_entry e vs) n' b'
