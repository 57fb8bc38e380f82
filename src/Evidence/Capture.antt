-- ===== src/Evidence/Capture.antt =====
-- The two bounded captures of src/evidence.ts keep the same prefix of what they are given.
use mathlib.Core.List.{append_assoc, append-nil}
use dsh_codex_workflow.Common.{
  ℕ, zero, suc, ◌+◌, ◌-◌, ◌≤◌, ◌≡◌, refl, ap, sym, ◌∙◌, inl, inr, List, [], ◌∷◌, ◌++◌, leb, ltb,
  length, take, min, arith, Bool-cases, length-append, length-take, leb→le,
}
use dsh_codex_workflow.Evidence.Bytes.{
  Buffer, concat, DiffCapturer, new_capturer, push, push_all, StreamedDiff, no_diff, on_data,
  stream,
}

pub take-append {ℓ} :
    {A : Type ℓ} (n : ℕ) (xs ys : List A) → take n (xs ++ ys) ≡ take n xs ++ take (n - length xs) ys
take-append zero xs ys = let e : zero - length xs ≡ 0 = omega arith in rw e refl
take-append (suc n) [] ys = let e : suc n - zero ≡ suc n = omega arith in rw e refl
take-append (suc n) (x ∷ xs) ys =
    let e : suc n - suc (length xs) ≡ n - length xs = omega arith in
    rw e (ap (◌∷◌ x) (take-append n xs ys))

pub take_all {ℓ} : {A : Type ℓ} (n : ℕ) (xs : List A) → length xs ≤ n → take n xs ≡ xs
take_all zero [] h = refl
take_all zero (x ∷ xs) h = absurd (omega arith)
take_all (suc n) [] h = refl
take_all (suc n) (x ∷ xs) h = ap (◌∷◌ x) (take_all n xs (omega arith))

take_more {ℓ} : {A : Type ℓ} (n : ℕ) (xs : List A) → take (min (length xs) n) xs ≡ take n xs
take_more zero xs = let e : min (length xs) 0 ≡ 0 = omega arith in rw e refl
take_more (suc n) [] = let e : min 0 (suc n) ≡ 0 = omega arith in rw e refl
take_more (suc n) (x ∷ xs) =
    let e : min (suc (length xs)) (suc n) ≡ suc (min (length xs) n) = omega arith in
    rw e (ap (◌∷◌ x) (take_more n xs))

concat-append : (cs ds : List Buffer) → concat (cs ++ ds) ≡ concat cs ++ concat ds
unfolding concat
concat-append [] ds = refl
concat-append (c ∷ cs) ds = rw (concat-append cs ds) (sym (append_assoc c (concat cs) (concat ds)))

-- A capture of the first `limit` of the bytes seen.
record Captures (limit : ℕ) (seen : Buffer) (chunks : List Buffer) (captured total : ℕ)
    : Type 0 where
  kept : concat chunks ≡ take limit seen
  counted : captured ≡ length (take limit seen)
  all_counted : total ≡ length seen

-- The capture is full, or it takes what is left of the chunk.
full-take :
    (limit : ℕ) (seen chunk : Buffer)
    → limit ≤ length (take limit seen)
    → take limit (seen ++ chunk) ≡ take limit seen
full-take limit seen chunk full =
    let e : limit - length seen ≡ 0 = omega (arith, length-take limit seen, full) in
    take-append limit seen chunk ∙ rw e (append-nil (take limit seen))

room-take :
    (limit : ℕ) (seen chunk : Buffer)
    → take limit (seen ++ chunk)
      ≡ take limit seen ++ take (min (length chunk) (limit - length (take limit seen))) chunk
room-take limit seen chunk =
    let e : limit - length (take limit seen) ≡ limit - length seen =
      omega (arith, length-take limit seen) in
    take-append limit seen chunk ∙ rw (e, take_more (limit - length seen) chunk) refl

module _ (limit : ℕ) (seen chunk : Buffer) (chunks : List Buffer) (captured total : ℕ)
    (c : Captures limit seen chunks captured total) where
  full-Captures :
      limit ≤ captured → Captures limit (seen ++ chunk) chunks captured (total + length chunk)
  full-Captures full =
      let e = full-take limit seen chunk (omega (arith, c.counted, full)) in
      record {
        kept = c.kept ∙ sym e;
        counted = c.counted ∙ ap length (sym e);
        all_counted = omega (arith, c.all_counted, length-append seen chunk);
      }

  more-Captures :
      Captures limit
        (seen ++ chunk)
        (chunks ++ take (min (length chunk) (limit - captured)) chunk ∷ [])
        (captured + min (length chunk) (limit - captured))
        (total + length chunk)
  unfolding concat
  more-Captures =
      let taken = take (min (length chunk) (limit - captured)) chunk in
      let e : take limit (seen ++ chunk) ≡ take limit seen ++ taken =
        room-take limit seen chunk
        ∙ ap (λ n. take limit seen ++ take (min (length chunk) (limit - n)) chunk)
            (sym c.counted) in
      record {
        kept = concat-append chunks (taken ∷ []) ∙ rw (append-nil taken, c.kept) (sym e);
        counted = omega (
          arith,
          c.counted,
          ap length e,
          length-append (take limit seen) taken,
          length-take (min (length chunk) (limit - captured)) chunk,
        );
        all_counted = omega (arith, c.all_counted, length-append seen chunk);
      }

push-Captures :
    (limit : ℕ) (seen chunk : Buffer) (c : DiffCapturer)
    → Captures limit seen c.chunks c.captured_bytes c.total_bytes
    → Captures limit
        (seen ++ chunk)
        (push limit chunk c).chunks
        (push limit chunk c).captured_bytes
        (push limit chunk c).total_bytes
unfolding push
push-Captures limit seen chunk c k = elim (Bool-cases (leb limit c.captured_bytes)) [
  | inl full ↦ rw full (
      full-Captures limit seen chunk c.chunks c.captured_bytes c.total_bytes k
        (leb→le limit c.captured_bytes full))
  | inr room ↦ rw room (more-Captures limit seen chunk c.chunks c.captured_bytes c.total_bytes k)
]

push_all-Captures :
    (limit : ℕ) (bs : List Buffer) (seen : Buffer) (c : DiffCapturer)
    → Captures limit seen c.chunks c.captured_bytes c.total_bytes
    → Captures limit
        (seen ++ concat bs)
        (push_all limit bs c).chunks
        (push_all limit bs c).captured_bytes
        (push_all limit bs c).total_bytes
unfolding push_all concat
push_all-Captures limit [] seen c k = rw (append-nil seen) k
push_all-Captures limit (b ∷ bs) seen c k =
    rw (← append_assoc seen b (concat bs))
      (push_all-Captures limit bs (seen ++ b) (push limit b c) (push-Captures limit seen b c k))

on_data-Captures :
    (limit : ℕ) (seen chunk : Buffer) (d : StreamedDiff)
    → Captures limit seen d.captured d.kept_bytes d.seen_bytes
    → d.hashed ≡ seen
    → Captures limit
        (seen ++ chunk)
        (on_data limit chunk d).captured
        (on_data limit chunk d).kept_bytes
        (on_data limit chunk d).seen_bytes
      × ((on_data limit chunk d).hashed ≡ seen ++ chunk)
unfolding on_data
on_data-Captures limit seen chunk d k e = elim (Bool-cases (ltb 0 (limit - d.kept_bytes))) [
  | inl room ↦ rw room (
    more-Captures limit seen chunk d.captured d.kept_bytes d.seen_bytes k,
    ap (λ b. b ++ chunk) e,
  )
  | inr full ↦ rw full (
    full-Captures limit seen chunk d.captured d.kept_bytes d.seen_bytes k (ground arith),
    ap (λ b. b ++ chunk) e,
  )
]

stream-Captures :
    (limit : ℕ) (bs : List Buffer) (seen : Buffer) (d : StreamedDiff)
    → Captures limit seen d.captured d.kept_bytes d.seen_bytes
    → d.hashed ≡ seen
    → Captures limit
        (seen ++ concat bs)
        (stream limit bs d).captured
        (stream limit bs d).kept_bytes
        (stream limit bs d).seen_bytes
      × ((stream limit bs d).hashed ≡ seen ++ concat bs)
unfolding stream concat
stream-Captures limit [] seen d k e = rw (append-nil seen) (k, e)
stream-Captures limit (b ∷ bs) seen d k e =
    let (k', e') = on_data-Captures limit seen b d k e in
    rw (← append_assoc seen b (concat bs))
      (stream-Captures limit bs (seen ++ b) (on_data limit b d) k' e')

nothing-Captures : (limit : ℕ) → Captures limit [] [] 0 0
unfolding concat
nothing-Captures zero = record { kept = refl; counted = refl; all_counted = refl }
nothing-Captures (suc n) = record { kept = refl; counted = refl; all_counted = refl }

-- However the bytes arrive in chunks, the capturer of file evidence and the stream of a git diff keep
-- the same bytes, which are the first ones up to the limit; both count all bytes, and the stream
-- hashes all of them.
pub push_all-stream :
    (limit : ℕ) (bs : List Buffer)
    → (concat (push_all limit bs new_capturer).chunks ≡ take limit (concat bs))
      × ((push_all limit bs new_capturer).total_bytes ≡ length (concat bs))
      × (concat (stream limit bs no_diff).captured ≡ take limit (concat bs))
      × ((stream limit bs no_diff).seen_bytes ≡ length (concat bs))
      × ((stream limit bs no_diff).hashed ≡ concat bs)
push_all-stream limit bs =
    let c = push_all-Captures limit bs [] new_capturer (nothing-Captures limit) in
    let (d, e) = stream-Captures limit bs [] no_diff (nothing-Captures limit) refl in
    (c.kept, c.all_counted, d.kept, d.all_counted, e)
