-- ===== src/Evidence/Characters.antt =====
-- `decodeUtf8Safely` of src/evidence.ts on the beginning of a text in UTF-8.
use dsh_codex_workflow.Common.{
  ℕ, zero, suc, ◌+◌, ◌-◌, ◌/◌, ◌%◌, ◌<◌, ◌≡◌, refl, inl, inr, Bool, true, false, ◌&&◌, List, [],
  ◌∷◌, ◌++◌, ◌==◌, leb, ltb, if◌then◌else◌, length, arith, Bool-cases, All,
}
use dsh_codex_workflow.Evidence.Bytes.{Buffer, is_continuation, sequence_length}

-- The bytes of a code point, and of a text.
abbrev pub code_bytes : ℕ → Buffer
code_bytes c =
    if ltb c 0x80
    then c ∷ []
    else if ltb c 0x800
    then (0xc0 + c / 64) ∷ (0x80 + c % 64) ∷ []
    else if ltb c 0x10000
    then (0xe0 + c / 4096) ∷ (0x80 + c / 64 % 64) ∷ (0x80 + c % 64) ∷ []
    else (0xf0 + c / 262144) ∷ (0x80 + c / 4096 % 64) ∷ (0x80 + c / 64 % 64) ∷ (0x80 + c % 64) ∷ []

unfoldable pub utf8 : List ℕ → Buffer
utf8 [] = []
utf8 (c ∷ cs) = code_bytes c ++ utf8 cs

-- The first code points of a text, as many as `limit` bytes hold.
unfoldable pub fitting : ℕ → List ℕ → List ℕ
fitting limit [] = []
fitting limit (c ∷ cs) =
    let rest = fitting (limit - length (code_bytes c)) cs in
    if leb (length (code_bytes c)) limit then c ∷ rest else []

-- Every byte is tried.
all_below : ℕ → (ℕ → Bool) → Bool
all_below zero p = true
all_below (suc n) p = p n && all_below n p

below-all : (n : ℕ) (p : ℕ → Bool) (x : ℕ) → all_below n p ≡ true → x < n → p x ≡ true
unfolding all_below
below-all zero p x h lt = absurd (omega arith)
below-all (suc n) p x h lt = ground (arith, below-all n p x)

abbrev same_bool : Bool → Bool → Bool
same_bool true b = b
same_bool false true = false
same_bool false false = true

same_bool_eq : (a b : Bool) → same_bool a b ≡ true → a ≡ b
same_bool_eq true true h = refl
same_bool_eq true false h = cc
same_bool_eq false true h = cc
same_bool_eq false false h = refl

continuation_table :
    all_below 256 (λ x. same_bool (is_continuation x) (leb 128 x && ltb x 192)) ≡ true
unfolding all_below is_continuation
continuation_table = refl

abbrev length_of : ℕ → ℕ
length_of x =
    if ltb x 128
    then 1
    else if ltb x 192
    then 0
    else if ltb x 224
    then 2
    else if ltb x 240
    then 3
    else if ltb x 248
    then 4
    else 0

length_table : all_below 256 (λ x. sequence_length x == length_of x) ≡ true
unfolding all_below sequence_length
length_table = refl

continuation_byte : (x : ℕ) → x < 256 → is_continuation x ≡ (leb 128 x && ltb x 192)
continuation_byte x h = same_bool_eq _ _ (below-all 256 _ x continuation_table h)

length_byte : (x : ℕ) → x < 256 → sequence_length x ≡ length_of x
length_byte x h =
    ground (arith, below-all 256 (λ x. sequence_length x == length_of x) x length_table h)

-- A lead byte and the continuation bytes that it asks for.
pub record IsCharacter (b : Buffer) : Type 0 where
  pub lead : ℕ
  pub tail : Buffer
  pub shape : b ≡ lead ∷ tail
  pub leads : is_continuation lead ≡ false
  pub asks : sequence_length lead ≡ suc (length tail)
  pub follow : All (λ x. is_continuation x ≡ true) tail

middle_byte : (x : ℕ) → x < 64 → is_continuation (0x80 + x) ≡ true
middle_byte x h = ground (arith, continuation_byte (0x80 + x))

pub code_bytes-IsCharacter : (c : ℕ) → c < 0x110000 → IsCharacter (code_bytes c)
code_bytes-IsCharacter c h = elim (Bool-cases (ltb c 0x80)) [
  | inl one ↦ rw one (record {
    lead = c;
    tail = [];
    shape = refl;
    leads = ground (arith, continuation_byte c);
    asks = ground (arith, length_byte c);
    follow = tt;
  })
  | inr more ↦ elim (Bool-cases (ltb c 0x800)) [
    | inl two ↦
        rw (more, two)
          (record {
            lead = 0xc0 + c / 64;
            tail = (0x80 + c % 64) ∷ [];
            shape = refl;
            leads = ground (arith, continuation_byte (0xc0 + c / 64));
            asks = ground (arith, length_byte (0xc0 + c / 64));
            follow = (middle_byte (c % 64) (omega arith), tt);
          })
    | inr more₂ ↦ elim (Bool-cases (ltb c 0x10000)) [
      | inl three ↦
          rw (more, more₂, three)
            (record {
              lead = 0xe0 + c / 4096;
              tail = (0x80 + c / 64 % 64) ∷ (0x80 + c % 64) ∷ [];
              shape = refl;
              leads = ground (arith, continuation_byte (0xe0 + c / 4096));
              asks = ground (arith, length_byte (0xe0 + c / 4096));
              follow = (
                middle_byte (c / 64 % 64) (omega arith),
                (middle_byte (c % 64) (omega arith), tt),
              );
            })
      | inr four ↦
          rw (more, more₂, four)
            (record {
              lead = 0xf0 + c / 262144;
              tail = (0x80 + c / 4096 % 64) ∷ (0x80 + c / 64 % 64) ∷ (0x80 + c % 64) ∷ [];
              shape = refl;
              leads = ground (arith, continuation_byte (0xf0 + c / 262144));
              asks = ground (arith, length_byte (0xf0 + c / 262144));
              follow = (
                middle_byte (c / 4096 % 64) (omega arith),
                (middle_byte (c / 64 % 64) (omega arith), (middle_byte (c % 64) (omega arith), tt)),
              );
            })
    ]
  ]
]
