-- ===== src/Authority/Multiset.antt =====
-- The tallies of `reconciliationPreservationViolation` in src/review-authority.ts. A `Map` from
-- identities to counts is a function, 0 where the map has no entry.
use dsh_codex_workflow.Common.{
  ℕ, suc, ◌+◌, ◌-◌, ◌≤◌, ◌≡◌, refl, ap, Bool, true, false, List, [], ◌∷◌, ◌==◌, if◌then◌else◌,
  arith, Bool-cases, inl, inr,
}
use dsh_codex_workflow.Common.Result.{Result, ok, err, ok_unique}

module _ {ℓ} {K : Type ℓ} (eq : K → K → Bool) where
  -- `count(values, key)`, read at an identity.
  unfoldable pub tally : List K → K → ℕ
  tally [] k = 0
  tally (v ∷ vs) k = let n = tally vs k in if eq v k then suc n else n

  -- `counts.set(identity, remaining - 1)`.
  abbrev pub lower : K → (K → ℕ) → K → ℕ
  lower k m j = if eq k j then m k - 1 else m j

  -- The loop over the required entries: each takes one of its count.
  unfoldable pub take_required : List K → (K → ℕ) → Result K (K → ℕ)
  take_required [] m = ok m
  take_required (k ∷ ks) m =
      let rest = take_required ks (lower k m) in if m k == 0 then err k else rest

  -- The filter that keeps the entries whose count is not used up.
  unfoldable pub extras : List K → (K → ℕ) → List K
  extras [] m = []
  extras (k ∷ ks) m =
      let rest = extras ks (if m k == 0 then m else lower k m) in
      if m k == 0 then rest else k ∷ rest

  -- `indexOf` and `splice`: the list without the first such entry.
  unfoldable pub remove_first : (K → Bool) → List K → List K
  remove_first test [] = []
  remove_first test (v ∷ vs) = let rest = remove_first test vs in if test v then vs else v ∷ rest

  unfoldable pub has_some : (K → Bool) → List K → Bool
  has_some test [] = false
  has_some test (v ∷ vs) = if test v then true else has_some test vs

  -- The loop that traces each extra entry to an unused source entry.
  unfoldable pub trace_exact : List K → List K → Result K (List K)
  trace_exact [] unused = ok unused
  trace_exact (k ∷ ks) unused =
      let rest = trace_exact ks (remove_first (λ v. eq v k) unused) in
      if has_some (λ v. eq v k) unused then rest else err k

  module _ (eq_sound : (a b : K) → eq a b ≡ true → a ≡ b) where
    lower-at : (k : K) (m : K → ℕ) (j : K) → lower k m j ≡ (if eq k j then m j - 1 else m j)
    lower-at k m j = elim (Bool-cases (eq k j)) [
      | inl same ↦ rw same (ap (λ x. m x - 1) (eq_sound k j same))
      | inr other ↦ rw other refl
    ]

    same_count : (m : K → ℕ) (k j : K) → eq k j ≡ true → m k ≡ m j
    same_count m k j h = ap m (eq_sound k j h)

    -- Every required entry has taken one of the count.
    pub take_required-counts :
        (ks : List K) (m m' : K → ℕ) (j : K) → take_required ks m ≡ ok m' → m j ≡ tally ks j + m' j
    unfolding take_required tally
    take_required-counts [] m m' j h =
        let same = ok_unique m m' h in
        let here : m j ≡ m' j = ap (λ f. f j) same in omega (arith, here)
    take_required-counts (k ∷ ks) m m' j h = elim (Bool-cases (m k == 0)) [
      | inl gone ↦ absurd (never (rw (gone, take_required) at h))
      | inr left ↦
          let rest : lower k m j ≡ tally ks j + m' j =
            take_required-counts ks (lower k m) m' j (rw (left, take_required) at h) in
          step (eq k j) (lower-at k m j) rest (same_count m k j)
    ]
      where
        never : ◌≡◌ {A = Result K (K → ℕ)} (err k) (ok m') → ⊥
        never e = cc

        step :
            (b : Bool)
            → lower k m j ≡ (if b then m j - 1 else m j)
            → lower k m j ≡ tally ks j + m' j
            → (b ≡ true → m k ≡ m j)
            → m j ≡ (if b then suc (tally ks j) else tally ks j) + m' j
        step true low rest same = ground (arith, same refl)
        step false low rest same = omega (arith, low, rest)

    -- The entries that are kept are those that the count has left.
    pub tally-extras :
        (ks : List K) (m : K → ℕ) (j : K) → m j ≤ tally ks j → tally (extras ks m) j ≡ m j
    unfolding extras tally
    tally-extras [] m j h = omega (arith, h)
    tally-extras (k ∷ ks) m j h = elim (Bool-cases (m k == 0)) [
      | inl gone ↦
          rw (gone, extras) (tally-extras ks m j (used_up (eq k j) gone (same_count m k j) h))
      | inr left ↦
          rw (left, extras)
            (let low = lower-at k m j in
              let rest =
                tally-extras ks (lower k m) j (lowered (eq k j) low (same_count m k j) h) in
              restored (eq k j) left low rest (same_count m k j))
    ]
      where
        used_up :
            (b : Bool)
            → (m k == 0) ≡ true
            → (b ≡ true → m k ≡ m j)
            → m j ≤ (if b then suc (tally ks j) else tally ks j)
            → m j ≤ tally ks j
        used_up true gone same le = ground (arith, same refl)
        used_up false gone same le = le

        lowered :
            (b : Bool)
            → lower k m j ≡ (if b then m j - 1 else m j)
            → (b ≡ true → m k ≡ m j)
            → m j ≤ (if b then suc (tally ks j) else tally ks j)
            → lower k m j ≤ tally ks j
        lowered true low same le = omega (arith, low, le)
        lowered false low same le = omega (arith, low, le)

        restored :
            (b : Bool)
            → (m k == 0) ≡ false
            → lower k m j ≡ (if b then m j - 1 else m j)
            → tally (extras ks (lower k m)) j ≡ lower k m j
            → (b ≡ true → m k ≡ m j)
            → (if b then suc (tally (extras ks (lower k m)) j) else tally (extras ks (lower k m)) j)
              ≡ m j
        restored true left low rest same = ground (arith, same refl)
        restored false left low rest same = omega (arith, low, rest)

    tally-remove :
        (k : K) (vs : List K) (j : K)
        → has_some (λ v. eq v k) vs ≡ true
        → tally vs j ≡ (
            if eq k j
            then suc (tally (remove_first (λ v. eq v k) vs) j)
            else tally (remove_first (λ v. eq v k) vs) j)
    unfolding has_some tally remove_first
    tally-remove k [] j h = ground arith
    tally-remove k (v ∷ vs) j h = elim (Bool-cases (eq v k)) [
      | inl hit ↦ same_branch hit
      | inr miss ↦ ground (arith, tally-remove k vs j)
    ]
      where
        same_branch :
            eq v k ≡ true
            → (if eq v j then suc (tally vs j) else tally vs j) ≡ (
                if eq k j
                then suc (tally (if eq v k then vs else v ∷ remove_first (λ w. eq w k) vs) j)
                else tally (if eq v k then vs else v ∷ remove_first (λ w. eq w k) vs) j)
        same_branch hit =
            rw hit (ap (λ x. if eq x j then suc (tally vs j) else tally vs j) (eq_sound v k hit))

    -- Each extra entry is traced to a source entry of its own.
    pub trace_exact-counts :
        (ks vs vs' : List K) (j : K) → trace_exact ks vs ≡ ok vs' → tally ks j ≤ tally vs j
    unfolding trace_exact tally
    trace_exact-counts [] vs vs' j h = omega arith
    trace_exact-counts (k ∷ ks) vs vs' j h = elim (Bool-cases (has_some (λ v. eq v k) vs)) [
      | inl found ↦
          let rest =
            trace_exact-counts ks (remove_first (λ v. eq v k) vs) vs' j
              (rw (found, trace_exact) at h) in
          rw (tally-remove k vs j found) (ground (arith, rest))
      | inr gone ↦ absurd (never (rw (gone, trace_exact) at h))
    ]
      where
        never : ◌≡◌ {A = Result K (List K)} (err k) (ok vs') → ⊥
        never e = cc
