-- ===== src/Common/Sort.antt =====
-- ORDER BY: insertion into an ordered list by a Boolean order.
use Prim.Native.Nat.{ℕ, compare as compare_num, Ordering}
use Prim.Native.String.{String, compare as compare_text}
use mathlib.Core.Path.{◌≡◌, subst}
use mathlib.Core.Logic.{◌⊎◌, inl, inr}
use mathlib.Core.Bool.{Bool, true, false}
use mathlib.Core.List.{List, [], ◌∷◌, Memᴰ}
use dsh_codex_workflow.Common.Tests.{if◌then◌else◌, Bool-cases}

-- `ORDER BY n, id`: by number, and among equal numbers by the text's bytes.
abbrev pub before : ℕ → String → ℕ → String → Bool
before m s n t = elim (compare_num m n) [
  | Ordering.lt ↦ true
  | Ordering.gt ↦ false
  | Ordering.eq ↦ elim (compare_text s t) [ Ordering.gt ↦ false | _ ↦ true ]
]

module _ {ℓ} {A : Type ℓ} (le : A → A → Bool) where
  unfoldable pub insert_sorted : A → List A → List A
  insert_sorted a [] = a ∷ []
  insert_sorted a (x ∷ xs) = if le a x then a ∷ x ∷ xs else x ∷ insert_sorted a xs

  unfoldable pub sort : List A → List A
  unfolding insert_sorted
  sort [] = []
  sort (x ∷ xs) = insert_sorted x (sort xs)

-- Sorting neither drops nor makes up an element.
module _ {ℓ} {A : Type ℓ} (le : A → A → Bool) where
  pub mem-insert_sorted :
      (a b : A) (xs : List A) → (b ≡ a) ⊎ Memᴰ b xs → Memᴰ b (insert_sorted le a xs)
  unfolding insert_sorted
  mem-insert_sorted a b [] (inl e) = Memᴰ.head e
  mem-insert_sorted a b [] (inr m) = elim m [ ]
  mem-insert_sorted a b (x ∷ xs) m = elim (Bool-cases (le a x)) [
    | inl first ↦ rw first (at_head m)
    | inr later ↦ rw later (below m (mem-insert_sorted a b xs))
  ]
    where
      at_head : (b ≡ a) ⊎ Memᴰ b (x ∷ xs) → Memᴰ b (a ∷ x ∷ xs)
      at_head (inl e) = Memᴰ.head e
      at_head (inr m) = Memᴰ.tail m

      below :
          (b ≡ a) ⊎ Memᴰ b (x ∷ xs)
          → ((b ≡ a) ⊎ Memᴰ b xs → Memᴰ b (insert_sorted le a xs))
          → Memᴰ b (x ∷ insert_sorted le a xs)
      below (inl e) ih = Memᴰ.tail (ih (inl e))
      below (inr (Memᴰ.head e)) ih = Memᴰ.head e
      below (inr (Memᴰ.tail m)) ih = Memᴰ.tail (ih (inr m))

  pub mem-sort : (b : A) (xs : List A) → Memᴰ b xs → Memᴰ b (sort le xs)
  unfolding sort
  mem-sort b [] m = elim m [ ]
  mem-sort b (x ∷ xs) (Memᴰ.head e) = mem-insert_sorted x b (sort le xs) (inl e)
  mem-sort b (x ∷ xs) (Memᴰ.tail m) = mem-insert_sorted x b (sort le xs) (inr (mem-sort b xs m))

  pub insert_sorted-mem :
      (a b : A) (xs : List A) → Memᴰ b (insert_sorted le a xs) → (b ≡ a) ⊎ Memᴰ b xs
  unfolding insert_sorted
  insert_sorted-mem a b [] (Memᴰ.head e) = inl e
  insert_sorted-mem a b [] (Memᴰ.tail m) = inr m
  insert_sorted-mem a b (x ∷ xs) m = elim (Bool-cases (le a x)) [
    | inl first ↦
        at_head (subst (λ t. Memᴰ b (if t then a ∷ x ∷ xs else x ∷ insert_sorted le a xs)) first m)
    | inr later ↦
        below (subst (λ t. Memᴰ b (if t then a ∷ x ∷ xs else x ∷ insert_sorted le a xs)) later m)
          (insert_sorted-mem a b xs)
  ]
    where
      at_head : Memᴰ b (a ∷ x ∷ xs) → (b ≡ a) ⊎ Memᴰ b (x ∷ xs)
      at_head (Memᴰ.head e) = inl e
      at_head (Memᴰ.tail m) = inr m

      below :
          Memᴰ b (x ∷ insert_sorted le a xs)
          → (Memᴰ b (insert_sorted le a xs) → (b ≡ a) ⊎ Memᴰ b xs)
          → (b ≡ a) ⊎ Memᴰ b (x ∷ xs)
      below (Memᴰ.head e) ih = inr (Memᴰ.head e)
      below (Memᴰ.tail m) ih = elim (ih m) [ inl e ↦ inl e | inr k ↦ inr (Memᴰ.tail k) ]

  pub sort-mem : (b : A) (xs : List A) → Memᴰ b (sort le xs) → Memᴰ b xs
  unfolding sort
  sort-mem b [] m = m
  sort-mem b (x ∷ xs) m = elim (insert_sorted-mem x b (sort le xs) m) [
    | inl e ↦ Memᴰ.head e
    | inr k ↦ Memᴰ.tail (sort-mem b xs k)
  ]
