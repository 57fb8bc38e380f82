-- ===== src/Evidence/Bytes.antt =====
-- Bounded capture of bytes and the cut before decoding: `DiffCapturer`, the `data` handler of
-- `streamGitDiff` and `decodeUtf8Safely` of src/evidence.ts. A buffer is the list of its bytes.
use Prim.Native.Nat.{bit_and}
use dsh_codex_workflow.Common.{
  ℕ, zero, suc, ◌+◌, ◌-◌, Bool, ◌&&◌, none, some, List, [], ◌∷◌, ◌++◌, ◌==◌, leb, ltb,
  if◌then◌else◌, length, take, get_elem?, min,
}

abbrev pub Buffer : Type 0
Buffer = List ℕ

-- `Buffer.concat`.
unfoldable pub concat : List Buffer → Buffer
concat [] = []
concat (c ∷ cs) = c ++ concat cs

pub record DiffCapturer : Type 0 where
  pub chunks : List Buffer
  pub captured_bytes : ℕ
  pub total_bytes : ℕ

abbrev pub new_capturer : DiffCapturer
new_capturer = record { chunks = []; captured_bytes = 0; total_bytes = 0 }

unfoldable pub push : ℕ → Buffer → DiffCapturer → DiffCapturer
push max_bytes chunk c =
    let counted = record c { total_bytes = c.total_bytes + length chunk } in
    let taken = min (length chunk) (max_bytes - c.captured_bytes) in
    if leb max_bytes c.captured_bytes then counted else record counted {
      chunks = c.chunks ++ take taken chunk ∷ [];
      captured_bytes = c.captured_bytes + taken;
    }

unfoldable pub push_all : ℕ → List Buffer → DiffCapturer → DiffCapturer
push_all max_bytes [] c = c
push_all max_bytes (b ∷ bs) c = push_all max_bytes bs (push max_bytes b c)

-- `streamGitDiff`: what its `data` handler keeps, its digest aside.
pub record StreamedDiff : Type 0 where
  pub captured : List Buffer
  pub kept_bytes : ℕ
  pub seen_bytes : ℕ
  pub hashed : Buffer

abbrev pub no_diff : StreamedDiff
no_diff = record { captured = []; kept_bytes = 0; seen_bytes = 0; hashed = [] }

unfoldable pub on_data : ℕ → Buffer → StreamedDiff → StreamedDiff
on_data max_bytes chunk d =
    let hashed = record d {
      hashed = d.hashed ++ chunk;
      seen_bytes = d.seen_bytes + length chunk;
    } in
    let remaining = max_bytes - d.kept_bytes in
    let taken = min (length chunk) remaining in
    if ltb 0 remaining
    then record hashed {
      captured = d.captured ++ take taken chunk ∷ [];
      kept_bytes = d.kept_bytes + taken;
    }
    else hashed

unfoldable pub stream : ℕ → List Buffer → StreamedDiff → StreamedDiff
stream max_bytes [] d = d
stream max_bytes (b ∷ bs) d = stream max_bytes bs (on_data max_bytes b d)

-- `buffer[i]`, within the buffer.
abbrev pub byte_at : Buffer → ℕ → ℕ
byte_at b i = elim (get_elem? b i) [ none ↦ 0 | some x ↦ x ]

unfoldable pub is_continuation : ℕ → Bool
is_continuation b = bit_and b 0xc0 == 0x80

-- `while (start > 0 && continuation) start -= 1`.
unfoldable pub sequence_start : Buffer → ℕ → ℕ
sequence_start b zero = zero
sequence_start b (suc k) = if is_continuation (byte_at b (suc k)) then sequence_start b k else suc k

unfoldable pub sequence_length : ℕ → ℕ
sequence_length lead =
    if bit_and lead 0x80 == 0
    then 1
    else if bit_and lead 0xe0 == 0xc0
    then 2
    else if bit_and lead 0xf0 == 0xe0
    then 3
    else if bit_and lead 0xf8 == 0xf0
    then 4
    else 0

abbrev pub end_at : Buffer → ℕ → ℕ
end_at b start =
    let n = sequence_length (byte_at b start) in
    if ltb 0 n && ltb (length b - start) n then start else length b

-- The bytes that `decodeUtf8Safely` decodes.
unfoldable pub whole_characters : Buffer → Buffer
whole_characters [] = []
whole_characters (x ∷ xs) = let b = x ∷ xs in take (end_at b (sequence_start b (length b - 1))) b
