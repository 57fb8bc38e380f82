-- ===== src/Evidence/Cut.antt =====
-- Where `decodeUtf8Safely` of src/evidence.ts cuts the beginning of a text in UTF-8.
use mathlib.Core.List.{append-nil}
use dsh_codex_workflow.Common.{
  ℕ, zero, suc, ◌+◌, ◌-◌, ◌≤◌, ◌<◌, ◌≡◌, refl, ap, sym, ◌∙◌, subst, ◌⊎◌, inl, inr, true, false,
  ◌&&◌, List, [], ◌∷◌, ◌++◌, leb, ltb, if◌then◌else◌, length, take, arith, Bool-cases,
  length-append, length-take, leb→le, All,
}
use dsh_codex_workflow.Evidence.Bytes.{
  Buffer, concat, new_capturer, push_all, byte_at, is_continuation, sequence_start, sequence_length,
  end_at, whole_characters,
}
use dsh_codex_workflow.Evidence.Capture.{take-append, take_all, push_all-stream}
use dsh_codex_workflow.Evidence.Characters.{
  code_bytes, utf8, fitting, IsCharacter, code_bytes-IsCharacter,
}

abbrev cut : Buffer → Buffer
cut b = take (end_at b (sequence_start b (length b - 1))) b

cut-nil : cut [] ≡ []
unfolding sequence_start
cut-nil = take_nil (end_at [] (sequence_start [] (length {A = ℕ} [] - 1)))
  where
    take_nil : (n : ℕ) → take {A = ℕ} n [] ≡ []
    take_nil zero = refl
    take_nil (suc n) = refl

whole_characters-cut : (b : Buffer) → whole_characters b ≡ cut b
unfolding whole_characters
whole_characters-cut [] = sym cut-nil
whole_characters-cut (x ∷ xs) = refl

byte_at-append : (xs ys : Buffer) (i : ℕ) → byte_at (xs ++ ys) (length xs + i) ≡ byte_at ys i
byte_at-append [] ys i = let e : 0 + i ≡ i = omega arith in rw e refl
byte_at-append (x ∷ xs) ys i =
    let e : suc (length xs) + i ≡ suc (length xs + i) = omega arith in rw e (byte_at-append xs ys i)

-- The search for a sequence's start does not pass a lead byte.
start-append :
    (xs : Buffer) (r : ℕ) (rs : Buffer) (j : ℕ)
    → is_continuation r ≡ false
    → sequence_start (xs ++ r ∷ rs) (length xs + j) ≡ length xs + sequence_start (r ∷ rs) j
unfolding sequence_start
start-append [] r rs zero h = refl
start-append (x ∷ xs) r rs zero h =
    let e : suc (length xs) + 0 ≡ suc (length xs) = omega arith in
    let at_lead : byte_at (x ∷ (xs ++ r ∷ rs)) (suc (length xs)) ≡ r =
      subst (λ n. byte_at (x ∷ (xs ++ r ∷ rs)) n ≡ r) e (byte_at-append (x ∷ xs) (r ∷ rs) 0) in
    rw e (rw (at_lead, h) refl)
start-append xs r rs (suc j) h =
    let e : length xs + suc j ≡ suc (length xs + j) = omega arith in
    let same : byte_at (xs ++ r ∷ rs) (suc (length xs + j)) ≡ byte_at (r ∷ rs) (suc j) =
      subst (λ n. byte_at (xs ++ r ∷ rs) n ≡ byte_at (r ∷ rs) (suc j)) e
        (byte_at-append xs (r ∷ rs) (suc j)) in
    rw e (
      rw same (elim (Bool-cases (is_continuation (byte_at (r ∷ rs) (suc j)))) [
        | inl more ↦ rw more (start-append xs r rs j h)
        | inr found ↦ rw found (omega arith)
      ]))

take-beyond {ℓ} :
    {A : Type ℓ} (xs ys : List A) (n : ℕ) → take (length xs + n) (xs ++ ys) ≡ xs ++ take n ys
take-beyond [] ys n = let e : 0 + n ≡ n = omega arith in rw e refl
take-beyond (x ∷ xs) ys n =
    let e : suc (length xs) + n ≡ suc (length xs + n) = omega arith in
    rw e (ap (◌∷◌ x) (take-beyond xs ys n))

end-append :
    (xs ys : Buffer) (start : ℕ)
    → end_at (xs ++ ys) (length xs + start) ≡ length xs + end_at ys start
end-append xs ys start =
    let e = byte_at-append xs ys start in
    let n = sequence_length (byte_at ys start) in
    let l = length-append xs ys in
    let rest : length xs + length ys - (length xs + start) ≡ length ys - start = omega arith in
    rw (e, l, rest)
      (elim (Bool-cases (ltb 0 n && ltb (length ys - start) n)) [
        | inl short ↦ rw short refl
        | inr full ↦ rw full refl
      ])

-- Bytes before a lead byte are kept.
cut-append :
    (xs : Buffer) (r : ℕ) (rs : Buffer)
    → is_continuation r ≡ false
    → cut (xs ++ r ∷ rs) ≡ xs ++ cut (r ∷ rs)
cut-append xs r rs h =
    let last : length (xs ++ r ∷ rs) - 1 ≡ length xs + (length (r ∷ rs) - 1) =
      omega (arith, length-append xs (r ∷ rs)) in
    ap (λ n. take (end_at (xs ++ r ∷ rs) (sequence_start (xs ++ r ∷ rs) n)) (xs ++ r ∷ rs)) last
    ∙ ap (λ n. take (end_at (xs ++ r ∷ rs) n) (xs ++ r ∷ rs))
        (start-append xs r rs (length (r ∷ rs) - 1) h)
    ∙ ap (λ n. take n (xs ++ r ∷ rs))
        (end-append xs (r ∷ rs) (sequence_start (r ∷ rs) (length (r ∷ rs) - 1)))
    ∙ take-beyond xs (r ∷ rs) (end_at (r ∷ rs) (sequence_start (r ∷ rs) (length (r ∷ rs) - 1)))

-- Within one character the search runs back to its lead byte.
start_lead :
    (lead : ℕ) (tail : Buffer) (j : ℕ)
    → All (λ x. is_continuation x ≡ true) tail
    → j ≤ length tail
    → sequence_start (lead ∷ tail) j ≡ 0
unfolding sequence_start
start_lead lead tail zero all h = refl
start_lead lead tail (suc j) all h =
    rw (byte-continuation tail j all h) (start_lead lead tail j all (omega (arith, h)))
  where
    byte-continuation :
        (t : Buffer) (j : ℕ)
        → All (λ x. is_continuation x ≡ true) t
        → suc j ≤ length t
        → is_continuation (byte_at t j) ≡ true
    byte-continuation [] j a h = absurd (omega arith)
    byte-continuation (x ∷ t) zero a h = a.0
    byte-continuation (x ∷ t) (suc j) a h = byte-continuation t j a.1 (omega arith)

is_missing : (l m : ℕ) → (ltb 0 (suc (l + m)) && ltb (suc l - 0) (suc (l + m))) ≡ ltb 0 m
is_missing l m = ground arith

cut_character :
    (lead : ℕ) (t : Buffer) (missing : ℕ)
    → sequence_length lead ≡ suc (length t + missing)
    → All (λ x. is_continuation x ≡ true) t
    → cut (lead ∷ t) ≡ (if ltb 0 missing then [] else lead ∷ t)
cut_character lead t missing asks all =
    let last : suc (length t) - 1 ≡ length t = omega arith in
    let back : sequence_start (lead ∷ t) (suc (length t) - 1) ≡ 0 =
      rw last (start_lead lead t (length t) all (omega arith)) in
    let missed = is_missing (length t) missing in
    rw (back, asks)
      (rw missed (elim (Bool-cases (ltb 0 missing)) [
        | inl short ↦ rw short refl
        | inr full ↦ rw full (ap (◌∷◌ lead) (take_all (length t) t (omega arith)))
      ]))

-- The beginning of one character.
cut_begun :
    (b : Buffer) (n : ℕ) → IsCharacter b → cut (take n b) ≡ (if leb (length b) n then b else [])
cut_begun b n c = rw c.shape (by_length n)
  where
    All-take :
        (m : ℕ) (t : Buffer)
        → All (λ x. is_continuation x ≡ true) t
        → All (λ x. is_continuation x ≡ true) (take m t)
    All-take zero t a = tt
    All-take (suc m) [] a = tt
    All-take (suc m) (x ∷ t) (h, a) = (h, All-take m t a)

    by_length :
        (n : ℕ)
        → cut (take n (c.lead ∷ c.tail))
          ≡ (if leb (suc (length c.tail)) n then c.lead ∷ c.tail else [])
    by_length zero =
        let none_fits : leb (suc (length c.tail)) 0 ≡ false = ground arith in rw none_fits cut-nil
    by_length (suc m) = elim (Bool-cases (leb (length c.tail) m)) [
      | inl fits ↦
          let all_fits : leb (suc (length c.tail)) (suc m) ≡ true = ground arith in
          let asks : sequence_length c.lead ≡ suc (length c.tail + 0) = omega (arith, c.asks) in
          rw (all_fits, take_all m c.tail (leb→le (length c.tail) m fits))
            (cut_character c.lead c.tail 0 asks c.follow)
      | inr short ↦
          let cut_off : leb (suc (length c.tail)) (suc m) ≡ false = ground arith in
          let missing : ltb 0 (length c.tail - m) ≡ true = ground arith in
          let asks : sequence_length c.lead ≡ suc (length (take m c.tail) + (length c.tail - m)) =
            ground (arith, c.asks, length-take m c.tail) in
          rw cut_off (
            cut_character c.lead (take m c.tail) (length c.tail - m) asks
              (All-take m c.tail c.follow)
            ∙ rw missing refl)
    ]

-- A text begins with a lead byte, and so does each beginning of it.
begins :
    (n : ℕ) (cs : List ℕ)
    → All (λ c. c < 0x110000) cs
    → (take n (utf8 cs) ≡ [])
      ⊎ ((r : ℕ) × (rs : Buffer) × (take n (utf8 cs) ≡ r ∷ rs) × (is_continuation r ≡ false))
unfolding utf8
begins zero cs v = inl refl
begins (suc n) [] v = inl refl
begins (suc n) (c ∷ cs) v =
    let k = code_bytes-IsCharacter c v.0 in
    inr (k.lead, take n (k.tail ++ utf8 cs), ap (λ b. take (suc n) (b ++ utf8 cs)) k.shape, k.leads)

cut-kept :
    (b u : Buffer)
    → cut b ≡ b
    → (u ≡ []) ⊎ ((r : ℕ) × (rs : Buffer) × (u ≡ r ∷ rs) × (is_continuation r ≡ false))
    → cut (b ++ u) ≡ b ++ cut u
cut-kept b u h (inl e) =
    ap (λ x. cut (b ++ x)) e
    ∙ ap cut (append-nil b)
    ∙ h
    ∙ sym (ap (λ x. b ++ cut x) e ∙ ap (λ x. b ++ x) cut-nil ∙ append-nil b)
cut-kept b u h (inr (r, rs, e, leads)) =
    ap (λ x. cut (b ++ x)) e ∙ cut-append b r rs leads ∙ ap (λ x. b ++ cut x) (sym e)

cut-utf8 :
    (limit : ℕ) (cs : List ℕ)
    → All (λ c. c < 0x110000) cs
    → cut (take limit (utf8 cs)) ≡ utf8 (fitting limit cs)
unfolding utf8 fitting
cut-utf8 zero [] v = cut-nil
cut-utf8 (suc n) [] v = cut-nil
cut-utf8 limit (c ∷ cs) v =
    let b = code_bytes c in
    let k = code_bytes-IsCharacter c v.0 in
    take-split limit c cs ∙ elim (Bool-cases (leb (length b) limit)) [
      | inl fits ↦
          let whole : take limit b ≡ b = take_all limit b (leb→le (length b) limit fits) in
          let self : cut b ≡ b = ap cut (sym whole) ∙ cut_begun b limit k ∙ rw fits refl in
          rw (fits, whole)
            (cut-kept b (take (limit - length b) (utf8 cs)) self (begins (limit - length b) cs v.1)
              ∙ ap (λ x. b ++ x) (cut-utf8 (limit - length b) cs v.1))
      | inr short ↦
          let nothing : limit - length b ≡ 0 = ground arith in
          rw (short, nothing)
            (ap cut (append-nil (take limit b)) ∙ cut_begun b limit k ∙ rw short refl)
    ]
  where
    take-split :
        (limit c : ℕ) (cs : List ℕ)
        → cut (take limit (code_bytes c ++ utf8 cs))
          ≡ cut (take limit (code_bytes c) ++ take (limit - length (code_bytes c)) (utf8 cs))
    take-split limit c cs = ap cut (take-append limit (code_bytes c) (utf8 cs))

pub whole_characters-utf8 :
    (limit : ℕ) (cs : List ℕ)
    → All (λ c. c < 0x110000) cs
    → whole_characters (take limit (utf8 cs)) ≡ utf8 (fitting limit cs)
whole_characters-utf8 limit cs v = whole_characters-cut (take limit (utf8 cs)) ∙ cut-utf8 limit cs v

-- However a text in UTF-8 arrives in chunks, the bytes that are captured and decoded are the
-- encoding of its first characters, as many as the limit holds: no character is cut in two and
-- none that fits is lost.
pub push_all-fitting :
    (limit : ℕ) (bs : List Buffer) (cs : List ℕ)
    → All (λ c. c < 0x110000) cs
    → concat bs ≡ utf8 cs
    → whole_characters (concat (push_all limit bs new_capturer).chunks) ≡ utf8 (fitting limit cs)
push_all-fitting limit bs cs v e =
    ap whole_characters ((push_all-stream limit bs).0 ∙ ap (take limit) e)
    ∙ whole_characters-utf8 limit cs v
