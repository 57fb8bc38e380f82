-- ===== src/Relay.antt =====
-- `LiveRelay` of src/application/live-relay.ts: live entries are cut into pieces and emitted in
-- batches. The timer is one more caller of `flush`.
pub mod Delivery
mod Tests
use dsh_codex_workflow.Common.{
  ℕ, zero, suc, ◌+◌, ◌-◌, String, Bool, true, false, ◌&&◌, List, [], ◌∷◌, ◌++◌, ◌==◌, leb, ltb,
  if◌then◌else◌, length, drop, min,
}
use dsh_codex_workflow.Projection.Live.{
  Text, clip, EntryKind, tool, LiveEntry, details_over, no_details,
}

pub record Relay : Type 0 where
  pub pending : List LiveEntry
  pub accepted : ℕ
  pub closed : Bool
  pub emitted : List (List LiveEntry)

abbrev pub is_nil {ℓ} : {A : Type ℓ} → List A → Bool
is_nil [] = true
is_nil (_ ∷ _) = false

unfoldable pub flush : Relay → Relay
flush s =
    if is_nil s.pending then s else record s { pending = []; emitted = s.emitted ++ s.pending ∷ [] }

abbrev pub total_length : List LiveEntry → ℕ
total_length [] = 0
total_length (e ∷ es) = length e.text + total_length es

abbrev pub chunk : ℕ
chunk = 2048

abbrev pub allowance : ℕ
allowance = 98304

abbrev is_tool : EntryKind → Bool
is_tool tool = true
is_tool _ = false

-- How much of one entry is kept.
abbrev pub limit_of : EntryKind → ℕ
limit_of kind = if is_tool kind then 8192 else allowance

-- `clip_id` is `slice(0, 128)` of an item's id.
module _ (clip_id : String → String) where
  abbrev pub piece : LiveEntry → ℕ → Text → LiveEntry
  piece e offset text = record {
    kind = e.kind;
    item_id = clip_id e.item_id;
    text = clip chunk (drop offset text);
    replace = e.replace && offset == 0;
    details = details_over e.details no_details;
  }

  unfoldable pub push_piece : LiveEntry → Relay → Relay
  push_piece p s =
      let s' = record s { pending = s.pending ++ p ∷ [] } in
      if leb chunk (total_length s'.pending) then flush s' else s'

  -- The `for` loop over the offsets; each turn takes at least one code unit.
  unfoldable pub push_pieces : ℕ → ℕ → LiveEntry → Text → Relay → Relay
  push_pieces zero offset e text s = s
  push_pieces (suc fuel) offset e text s =
      let rest = push_pieces fuel (offset + chunk) e text (push_piece (piece e offset text) s) in
      if ltb offset (length text) then rest else s

  abbrev pub accepted_text : Relay → LiveEntry → Text
  accepted_text s e = clip (min (allowance - s.accepted) (limit_of e.kind)) e.text

  unfoldable pub accept : LiveEntry → Text → Relay → Relay
  accept e text s =
      push_pieces (length text) 0 e text (record s { accepted = s.accepted + length text })

  unfoldable pub on_progress : LiveEntry → Relay → Relay
  on_progress e s =
      if s.closed
      then s
      else if is_nil e.text
      then s
      else if leb allowance s.accepted
      then s
      else accept e (accepted_text s e) s

unfoldable pub close : Relay → Relay
close s = record (flush s) { closed = true }
