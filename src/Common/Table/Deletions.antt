-- ===== src/Common/Table/Deletions.antt =====
-- Deletions from one table: what they leave alone, and when two of them are the same.
use Prim.Native.String.{String}
use mathlib.Core.Path.{◌≡◌, refl, sym, ap, subst, ◌∙◌}
use mathlib.Core.Bool.{Bool, true, false}
use mathlib.Core.Option.{none, some}
use mathlib.Core.Logic.{inl, inr}
use mathlib.Core.List.{List, [], ◌∷◌}
use native.Mathlib.Omega.{arith}
use dsh_codex_workflow.Common.Tests.{str_eq, str_eq_iff, Bool-cases, some_unique}
use dsh_codex_workflow.Common.Table.{delete_where, get, Unique}

module _ {ℓ} {A : Type ℓ} (key : A → String) (p : A → Bool) where
  -- A row stays where the deletion meets no row of its key.
  pub get-delete_other :
      (k : String) (rs : List A)
      → ((r : A) → key r ≡ k → p r ≡ false)
      → get key k (delete_where p rs) ≡ get key k rs
  unfolding get delete_where
  get-delete_other k [] h = refl
  get-delete_other k (x ∷ rs) h = elim (Bool-cases (str_eq (key x) k)) [
    | inl hit ↦ rw (h x ((str_eq_iff (key x) k).0 hit), hit) refl
    | inr miss ↦ ground (arith, get-delete_other k rs h)
  ]

  -- A deletion that meets no row changes nothing.
  delete_none :
      (k : String) (rs : List A)
      → get key k rs ≡ none
      → ((r : A) → str_eq (key r) k ≡ false → p r ≡ false)
      → delete_where p rs ≡ rs
  unfolding get delete_where
  delete_none k [] e miss = refl
  delete_none k (x ∷ rs) e miss = elim (Bool-cases (str_eq (key x) k)) [
    | inl hit ↦ ground (arith, e)
    | inr other ↦ rw (miss x other) (ap (◌∷◌ x) (delete_none k rs (rw (other, get) at e) miss))
  ]

-- Two deletions of the one row of a key are the same.
module _ {ℓ} {A : Type ℓ} (key : A → String) (p p' : A → Bool) where
  pub delete-one :
      (k : String) (a : A) (rs : List A)
      → Unique key rs
      → get key k rs ≡ some a
      → p a ≡ true
      → p' a ≡ true
      → ((r : A) → str_eq (key r) k ≡ false → p r ≡ false)
      → ((r : A) → str_eq (key r) k ≡ false → p' r ≡ false)
      → delete_where p rs ≡ delete_where p' rs
  unfolding get delete_where
  delete-one k a [] u e h h' miss miss' = refl
  delete-one k a (x ∷ rs) u e h h' miss miss' = elim (Bool-cases (str_eq (key x) k)) [
    | inl hit ↦
        let alone = subst (λ j. get key j rs ≡ none) ((str_eq_iff (key x) k).0 hit) u.0 in
        let same : x ≡ a = some_unique (some x) x a refl (rw (hit, get) at e) in
        rw (ap p same ∙ h, ap p' same ∙ h')
          (delete_none key p k rs alone miss ∙ sym (delete_none key p' k rs alone miss'))
    | inr other ↦
        rw (miss x other, miss' x other)
          (ap (◌∷◌ x) (delete-one k a rs u.1 (rw (other, get) at e) h h' miss miss'))
  ]
