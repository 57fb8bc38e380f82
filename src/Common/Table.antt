-- ===== src/Common/Table.antt =====
-- SQL statements over one table, held as a list of rows.
pub mod Counts
pub mod Deletions
use Prim.Native.Nat.{ℕ, suc}
use Prim.Native.String.{String}
use mathlib.Core.Path.{◌≡◌, refl, sym, ap, subst, ◌∙◌}
use mathlib.Core.Bool.{Bool, true, false, ◌&&◌}
use mathlib.Core.Option
use mathlib.Core.Option.{Option, none, some}
use mathlib.Core.Logic.{inl, inr, ◌≢◌}
use mathlib.Core.List.{List, [], ◌∷◌, ◌++◌, Memᴰ}
use native.Mathlib.Omega.{arith}
use dsh_codex_workflow.Common.Tests.{
  Option-cases, if◌then◌else◌, str_eq, str_eq_iff, str_eq_refl, Bool-cases,
}

module _ {ℓ} {A : Type ℓ} where
  -- UPDATE … SET f WHERE p.
  unfoldable pub update_where : (A → Bool) → (A → A) → List A → List A
  update_where p f [] = []
  update_where p f (r ∷ rs) = (if p r then f r else r) ∷ update_where p f rs

  -- The number of rows that a WHERE clause selects (`changes` of an UPDATE or DELETE).
  unfoldable pub count_where : (A → Bool) → List A → ℕ
  count_where p [] = 0
  count_where p (r ∷ rs) = let n = count_where p rs in if p r then suc n else n

  -- SELECT * … WHERE p.
  unfoldable pub select_where : (A → Bool) → List A → List A
  select_where p [] = []
  select_where p (r ∷ rs) = let rest = select_where p rs in if p r then r ∷ rest else rest

  -- DELETE … WHERE p.
  unfoldable pub delete_where : (A → Bool) → List A → List A
  delete_where p [] = []
  delete_where p (r ∷ rs) = let rest = delete_where p rs in if p r then rest else r ∷ rest

  abbrev pub OptionAll {κ} : (A → Type κ) → Option A → Type κ
  OptionAll P none = Unit
  OptionAll P (some a) = P a

module _ {ℓ} {A : Type ℓ} (key : A → String) where
  -- SELECT … WHERE key = k, read by `get()`.
  unfoldable pub get : String → List A → Option A
  get k [] = none
  get k (r ∷ rs) = if str_eq (key r) k then some r else get k rs

  -- PRIMARY KEY.
  abbrev pub Unique : List A → Type ℓ
  Unique [] = Unit
  Unique (r ∷ rs) = (get (key r) rs ≡ none) × Unique rs

  -- `key = k AND q`.
  abbrev pub at : String → (A → Bool) → A → Bool
  at k q r = str_eq (key r) k && q r

  pub key-get : (k : String) (rs : List A) {r : A} → get k rs ≡ some r → key r ≡ k
  unfolding get
  key-get k [] h = cc
  key-get k (x ∷ rs) {r} h = elim (Bool-cases (str_eq (key x) k)) [
    | inl hit ↦ ground (arith, (str_eq_iff (key x) k).0 hit)
    | inr miss ↦ key-get k rs (ground arith)
  ]

  pub get-append_none :
      (k : String) (rs ss : List A) → get k rs ≡ none → get k (rs ++ ss) ≡ get k ss
  unfolding get
  get-append_none k [] ss h = refl
  get-append_none k (x ∷ rs) ss h = ground (arith, get-append_none k rs ss)

  pub get-append_some :
      (k : String) (rs ss : List A) {r : A} → get k rs ≡ some r → get k (rs ++ ss) ≡ some r
  unfolding get
  get-append_some k [] ss h = cc
  get-append_some k (x ∷ rs) ss {r} h = ground (arith, get-append_some k rs ss {r = r})

  pub Unique-append_one :
      (rs : List A) (r : A) → Unique rs → get (key r) rs ≡ none → Unique (rs ++ r ∷ [])
  unfolding get
  Unique-append_one [] r u h = (refl, tt)
  Unique-append_one (x ∷ rs) r u h = (
    rw (get-append_none (key x) rs (r ∷ []) u.0)
        (ground (arith, str_eq_iff (key r) (key x), str_eq_iff (key x) (key r))),
    Unique-append_one rs r u.1 (ground arith),
  )

module _ {ℓ} {A : Type ℓ} (key : A → String) (p : A → Bool) (f : A → A)
    (same : (r : A) → key (f r) ≡ key r) where
  pub get-update :
      (k : String) (rs : List A)
      → get key k (update_where p f rs) ≡ Option.map (λ r. if p r then f r else r) (get key k rs)
  unfolding get update_where
  get-update k [] = refl
  get-update k (x ∷ rs) = ground (arith, same x, get-update k rs)

  pub Unique-update : (rs : List A) → Unique key rs → Unique key (update_where p f rs)
  unfolding update_where
  Unique-update [] u = tt
  Unique-update (x ∷ rs) u =
      (rw (key_branch x) (rw (get-update (key x) rs) (rw u.0)), Unique-update rs u.1)
    where
      key_branch : (r : A) → key (if p r then f r else r) ≡ key r
      key_branch r = ground (arith, same r)

-- A statement by key leaves the rows of other keys.
pub get-update_other {ℓ} :
    {A : Type ℓ} (key : A → String) (id : String) (q : A → Bool) (f : A → A)
    → ((r : A) → key (f r) ≡ key r)
    → (k : String) (rs : List A) → k ≢ id
    → get key k (update_where (at key id q) f rs) ≡ get key k rs
get-update_other {A} key id q f same k rs ne = elim (Option-cases (get key k rs)) [
  | inl gone ↦ get-update key (at key id q) f same k rs ∙ rw gone
  | inr (r, e) ↦ get-update key (at key id q) f same k rs ∙ rw (e, other r (key-get key k rs e))
]
  where
    other : (r : A) → key r ≡ k → at key id q r ≡ false
    other r e = elim (Bool-cases (str_eq (key r) id)) [
      | inl hit ↦ absurd (ne (sym e ∙ (str_eq_iff _ _).0 hit))
      | inr miss ↦ rw miss
    ]

module _ {ℓ} {A : Type ℓ} (key : A → String) (k : String) (q : A → Bool) where
  -- A statement by key changes at most the one row.
  pub count-at :
      (rs : List A)
      → Unique key rs
      → count_where (at key k q) rs
        ≡ elim (get key k rs) [ none ↦ 0 | some r ↦ if q r then 1 else 0 ]
  unfolding get count_where
  count-at [] u = refl
  count-at (x ∷ rs) u = elim (Bool-cases (str_eq (key x) k)) [
    | inl hit ↦
        ground
          (arith, count-at rs u.1, subst (λ j. get key j rs ≡ none) ((str_eq_iff _ _).0 hit) u.0)
    | inr miss ↦ ground (arith, count-at rs u.1)
  ]

module _ {ℓ} {A : Type ℓ} (key : A → String) (p : A → Bool) where
  pub get-delete_none :
      (k : String) (rs : List A) → get key k rs ≡ none → get key k (delete_where p rs) ≡ none
  unfolding get delete_where
  get-delete_none k [] h = refl
  get-delete_none k (x ∷ rs) h = ground (arith, get-delete_none k rs)

  -- What is deleted and what stays.
  pub get-delete :
      (k : String) (rs : List A)
      → Unique key rs
      → get key k (delete_where p rs)
        ≡ elim (get key k rs) [ none ↦ none | some r ↦ if p r then none else some r ]
  unfolding get delete_where
  get-delete k [] u = refl
  get-delete k (x ∷ rs) u = elim (Bool-cases (str_eq (key x) k)) [
    | inl hit ↦ ground (
      arith,
      get-delete_none k rs (subst (λ j. get key j rs ≡ none) ((str_eq_iff _ _).0 hit) u.0),
    )
    | inr miss ↦ ground (arith, get-delete k rs u.1)
  ]

  pub Unique-delete : (rs : List A) → Unique key rs → Unique key (delete_where p rs)
  unfolding delete_where
  Unique-delete [] u = tt
  Unique-delete (x ∷ rs) u = ground (arith, get-delete_none (key x) rs u.0, Unique-delete rs u.1)

module _ {ℓ} {A : Type ℓ} where
  pub update_none :
      (p : A → Bool) (f : A → A) (rs : List A) → count_where p rs ≡ 0 → update_where p f rs ≡ rs
  unfolding count_where update_where
  update_none p f [] h = refl
  update_none p f (x ∷ rs) h = ground (arith, update_none p f rs)

-- An UPDATE that leaves no row selected selects none when it is repeated.
pub update-count {ℓ} :
    {A : Type ℓ} (p : A → Bool) (f : A → A)
    → ((r : A) → p (f r) ≡ false)
    → (rs : List A) → count_where p (update_where p f rs) ≡ 0
unfolding count_where update_where
update-count p f done [] = refl
update-count p f done (x ∷ rs) = elim (Bool-cases (p x)) [
  | inl hit ↦ rw hit (rw (done x) (update-count p f done rs))
  | inr miss ↦ rw miss (rw miss (update-count p f done rs))
]

-- Membership and lookup by key.
module _ {ℓ} {A : Type ℓ} where
  pub mem-select :
      (p : A → Bool) (r : A) (rs : List A) → Memᴰ r rs → p r ≡ true → Memᴰ r (select_where p rs)
  unfolding select_where
  mem-select p r [] m h = elim m [ ]
  mem-select p r (x ∷ rs) (Memᴰ.head e) h = rw (ap p (sym e) ∙ h) (Memᴰ.head e)
  mem-select p r (x ∷ rs) (Memᴰ.tail m) h = elim (Bool-cases (p x)) [
    | inl hit ↦ rw hit (Memᴰ.tail (mem-select p r rs m h))
    | inr miss ↦ rw miss (mem-select p r rs m h)
  ]

  pub select-mem :
      (p : A → Bool) (r : A) (rs : List A) → Memᴰ r (select_where p rs) → Memᴰ r rs × (p r ≡ true)
  unfolding select_where
  select-mem p r [] m = elim m [ ]
  select-mem p r (x ∷ rs) m = elim (Bool-cases (p x)) [
    | inl hit ↦
        at_hit hit (select-mem p r rs)
          (subst (λ t. Memᴰ r (if t then x ∷ select_where p rs else select_where p rs)) hit m)
    | inr miss ↦
        let (k, h) =
          select-mem p r rs
            (subst (λ t. Memᴰ r (if t then x ∷ select_where p rs else select_where p rs)) miss m) in
        (Memᴰ.tail k, h)
  ]
    where
      at_hit :
          p x ≡ true
          → (Memᴰ r (select_where p rs) → Memᴰ r rs × (p r ≡ true))
          → Memᴰ r (x ∷ select_where p rs)
          → Memᴰ r (x ∷ rs) × (p r ≡ true)
      at_hit hit ih (Memᴰ.head e) = (Memᴰ.head e, ap p e ∙ hit)
      at_hit hit ih (Memᴰ.tail k) = let (l, h) = ih k in (Memᴰ.tail l, h)

module _ {ℓ} {A : Type ℓ} (key : A → String) where
  pub get-mem : (k : String) (r : A) (rs : List A) → get key k rs ≡ some r → Memᴰ r rs
  unfolding get
  get-mem k r [] h = cc
  get-mem k r (x ∷ rs) h = elim (Bool-cases (str_eq (key x) k)) [
    | inl hit ↦ Memᴰ.head (ground arith)
    | inr miss ↦ Memᴰ.tail (get-mem k r rs (ground arith))
  ]

  pub mem-get : (r : A) (rs : List A) → Unique key rs → Memᴰ r rs → get key (key r) rs ≡ some r
  unfolding get
  mem-get r [] u m = elim m [ ]
  mem-get r (x ∷ rs) u (Memᴰ.head e) =
      rw (ap (λ y. str_eq (key x) (key y)) e ∙ str_eq_refl (key x)) (ap some (sym e))
  mem-get r (x ∷ rs) u (Memᴰ.tail m) = elim (Bool-cases (str_eq (key x) (key r))) [
    | inl hit ↦ absurd (
        no_both (get key (key r) rs) r (mem-get r rs u.1 m)
          (subst (λ k. get key k rs ≡ none) ((str_eq_iff _ _).0 hit) u.0))
    | inr miss ↦ rw miss (mem-get r rs u.1 m)
  ]
    where
      no_both : (o : Option A) (a : A) → o ≡ some a → o ≡ none → ⊥
      no_both o a p q = cc
