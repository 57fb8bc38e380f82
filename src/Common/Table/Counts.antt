-- ===== src/Common/Table/Counts.antt =====
-- How many rows a test selects before and after a statement by key.
use Prim.Native.Nat.{ℕ, ◌+◌}
use Prim.Native.String.{String}
use mathlib.Core.Path.{◌≡◌, refl, ap, subst, ◌∙◌}
use mathlib.Core.Bool.{Bool, true}
use mathlib.Core.Option.{none, some}
use mathlib.Core.Logic.{◌⊎◌, inl, inr}
use mathlib.Core.List.{List, [], ◌∷◌, Memᴰ}
use native.Mathlib.Omega.{arith}
use dsh_codex_workflow.Common.Tests.{if◌then◌else◌, str_eq, str_eq_iff, Bool-cases, some_unique}
use dsh_codex_workflow.Common.Table.{
  update_where, count_where, get, Unique, at, count-at, update_none,
}

abbrev pub one_if : Bool → ℕ
one_if b = if b then 1 else 0

module _ {ℓ} {A : Type ℓ} (key : A → String) where
  -- The statement rewrites one row, and every other row counts as before.
  pub count-update_at :
      (p test : A → Bool) (f : A → A) (k : String) (rs : List A) (r : A)
      → Unique key rs
      → get key k rs ≡ some r
      → test r ≡ true
      → count_where p (update_where (at key k test) f rs) + one_if (p r)
        ≡ count_where p rs + one_if (p (f r))
  unfolding get count_where update_where
  count-update_at p test f k [] r u e h = absurd cc
  count-update_at p test f k (x ∷ rs) r u e h = elim (Bool-cases (str_eq (key x) k)) [
    | inl hit ↦
        let same : x ≡ r = some_unique (some x) x r refl (rw hit at e) in
        let gone = subst (λ j. get key j rs ≡ none) ((str_eq_iff _ _).0 hit) u.0 in
        let still = update_none (at key k test) f rs (count-at key k test rs u.1 ∙ rw gone) in
        rw (hit, still, ap test same ∙ h) (ground (arith, ap p same, ap (λ y. p (f y)) same))
    | inr miss ↦ ground (arith, count-update_at p test f k rs r u.1 (rw miss at e) h)
  ]

module _ {ℓ} {A : Type ℓ} where
  -- Either no row passes a test, or some row does.
  pub count_cases :
      (p : A → Bool) (rs : List A) → (count_where p rs ≡ 0) ⊎ ((r : A) × Memᴰ r rs × (p r ≡ true))
  unfolding count_where
  count_cases p [] = inl refl
  count_cases p (x ∷ rs) = elim (Bool-cases (p x)) [
    | inl hit ↦ inr (x, Memᴰ.head refl, hit)
    | inr miss ↦ elim (count_cases p rs) [
      | inl zero_rows ↦ inl (rw miss zero_rows)
      | inr (r, m, h) ↦ inr (r, Memᴰ.tail m, h)
    ]
  ]
