-- ===== src/Lease/Epochs.antt =====
-- The rows of the leases of src/infrastructure/coordination-repositories.ts and their epochs.
use dsh_codex_workflow.Common.{
  ℕ, ◌+◌, ◌≤◌, String, ◌≡◌, refl, sym, subst, ◌∙◌, inl, inr, Bool, true, none, some, List, [], ◌∷◌,
  ◌++◌, arith, str_eq, str_eq_iff, Bool-cases, Option-cases, some_unique,
}
use dsh_codex_workflow.Common.Table.{
  update_where, Unique, at, key-get, get-append_some, Unique-append_one, get-update, Unique-update,
}
use dsh_codex_workflow.Lease.{
  Lease, resource_of, lease_row, granted, upsert, epoch_or_zero, is_live, acquire_lease, held_by,
  prolonged, released, renew_lease, release_lease, Call, acquires, renews, releases, step, run,
}

abbrev pub Later : String → Lease → List Lease → Type 0
Later k l ls = (l' : Lease) × (lease_row k ls ≡ some l') × (l.epoch ≤ l'.epoch)

pub update-Later :
    (p : Lease → Bool) (f : Lease → Lease)
    → ((l : Lease) → resource_of (f l) ≡ resource_of l)
    → (k : String) (ls : List Lease) (l : Lease) → lease_row k ls ≡ some l
    → (p l ≡ true → l.epoch ≤ (f l).epoch)
    → Later k l (update_where p f ls)
update-Later p f same k ls l e grows = elim (Bool-cases (p l)) [
  | inl hit ↦ (f l, get-update resource_of p f same k ls ∙ rw (e, hit), grows hit)
  | inr miss ↦ (l, get-update resource_of p f same k ls ∙ rw (e, miss), omega arith)
]

pub upsert_fresh :
    (resource : String) (epoch : ℕ) (owner : String) (till : ℕ) (ls : List Lease)
    → lease_row resource ls ≡ none
    → upsert resource epoch owner till ls
      ≡ ls ++ record { resource = resource; epoch = epoch; owner = owner; lease_until = till } ∷ []
unfolding upsert
upsert_fresh resource epoch owner till ls e = rw (e, upsert)

pub upsert_old :
    (resource : String) (epoch : ℕ) (owner : String) (till : ℕ) (ls : List Lease) (x : Lease)
    → lease_row resource ls ≡ some x
    → upsert resource epoch owner till ls
      ≡ update_where (λ l. str_eq l.resource resource) (granted epoch owner till) ls
unfolding upsert
upsert_old resource epoch owner till ls x e = rw (e, upsert)

pub upsert-Later :
    (resource : String) (owner : String) (till : ℕ) (k : String) (ls : List Lease) (l : Lease)
    → lease_row k ls ≡ some l
    → Later k l (upsert resource (epoch_or_zero (lease_row resource ls) + 1) owner till ls)
upsert-Later resource owner till k ls l e = elim (Option-cases (lease_row resource ls)) [
  | inl fresh ↦
      rw (upsert_fresh resource _ owner till ls fresh)
        (l, get-append_some resource_of k ls _ e, omega arith)
  | inr (x, old) ↦ rw (upsert_old resource _ owner till ls x old) (
      rw old (
        update-Later (λ y. str_eq y.resource resource) (granted (x.epoch + 1) owner till)
          (λ y. refl) k ls l e (λ hit. below x old ((str_eq_iff _ _).0 hit))))
]
  where
    below :
        (x : Lease) → lease_row resource ls ≡ some x → l.resource ≡ resource → l.epoch ≤ x.epoch + 1
    below x old named =
        let one : x ≡ l =
          some_unique (lease_row resource ls) x l old
            (subst (λ j. lease_row j ls ≡ some l) (sym (key-get resource_of k ls e) ∙ named) e) in
        rw one (omega arith)

-- No call on leases lowers an epoch or drops a row.
pub step-Later :
    (c : Call) (ls : List Lease) (k : String) (l : Lease)
    → lease_row k ls ≡ some l
    → Later k l (step c ls)
unfolding step acquire_lease renew_lease release_lease
step-Later (acquires resource ttl owner now) ls k l e =
    elim (Bool-cases (is_live now (lease_row resource ls))) [
      | inl live ↦ rw (live, step) (l, e, omega arith)
      | inr free ↦ rw (free, step) (upsert-Later resource owner (now + ttl) k ls l e)
    ]
step-Later (renews resource epoch owner ttl now) ls k l e =
    update-Later (at resource_of resource (held_by epoch owner)) (prolonged (now + ttl)) (λ y. refl)
      k ls l e (λ h. omega arith)
step-Later (releases resource epoch owner) ls k l e =
    update-Later (at resource_of resource (held_by epoch owner)) released (λ y. refl) k ls l e
      (λ h. omega arith)

pub upsert-Unique :
    (resource : String) (epoch : ℕ) (owner : String) (till : ℕ) (ls : List Lease)
    → Unique resource_of ls
    → Unique resource_of (upsert resource epoch owner till ls)
upsert-Unique resource epoch owner till ls u = elim (Option-cases (lease_row resource ls)) [
  | inl fresh ↦
      rw (upsert_fresh resource epoch owner till ls fresh)
        (Unique-append_one resource_of ls _ u fresh)
  | inr (x, old) ↦ rw (upsert_old resource epoch owner till ls x old) (
      Unique-update resource_of (λ y. str_eq y.resource resource) (granted epoch owner till)
        (λ y. refl) ls u)
]

pub step-Unique :
    (c : Call) (ls : List Lease) → Unique resource_of ls → Unique resource_of (step c ls)
unfolding step acquire_lease renew_lease release_lease
step-Unique (acquires resource ttl owner now) ls u =
    elim (Bool-cases (is_live now (lease_row resource ls))) [
      | inl live ↦ rw (live, step) u
      | inr free ↦ rw (free, step) (upsert-Unique resource _ owner (now + ttl) ls u)
    ]
step-Unique (renews resource epoch owner ttl now) ls u =
    Unique-update resource_of (at resource_of resource (held_by epoch owner))
      (prolonged (now + ttl)) (λ y. refl) ls u
step-Unique (releases resource epoch owner) ls u =
    Unique-update resource_of (at resource_of resource (held_by epoch owner)) released (λ y. refl)
      ls u

pub run-Unique :
    (cs : List Call) (ls : List Lease) → Unique resource_of ls → Unique resource_of (run cs ls)
unfolding run
run-Unique [] ls u = u
run-Unique (c ∷ cs) ls u = run-Unique cs (step c ls) (step-Unique c ls u)

pub run-Later :
    (cs : List Call) (ls : List Lease) (k : String) (l : Lease)
    → lease_row k ls ≡ some l
    → Later k l (run cs ls)
unfolding run
run-Later [] ls k l e = (l, e, omega arith)
run-Later (c ∷ cs) ls k l e =
    let (x, ex, le) = step-Later c ls k l e in
    let (y, ey, le') = run-Later cs (step c ls) k x ex in (y, ey, omega (arith, le, le'))
