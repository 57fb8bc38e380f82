-- ===== src/Lease/Fencing.antt =====
-- Fencing of the leases of src/infrastructure/coordination-repositories.ts: epochs only grow, and
-- who lost a lease never gets it back under its old epoch.
use dsh_codex_workflow.Common.{
  ℕ, ◌+◌, ◌<◌, String, ◌≡◌, refl, ap, subst, ◌∙◌, inl, inr, Bool, true, false, none, some, List, [],
  ◌∷◌, arith, ltb, str_eq, str_eq_iff, str_eq_refl, Bool-cases, Option-cases,
}
use dsh_codex_workflow.Common.Table.{
  count_where, select_where, get, Unique, at, key-get, get-append_none, get-update, count-at,
  update_none,
}
use dsh_codex_workflow.Lease.{
  Lease, Grant, resource_of, lease_row, granted, upsert, epoch_or_zero, is_live, acquire_lease,
  held_by, prolonged, released, renew_lease, release_lease, is_lease_owner, Call, acquires, step,
  run,
}
use dsh_codex_workflow.Lease.Epochs.{upsert_fresh, upsert_old, step-Unique, run-Unique, run-Later}

-- The pair of an epoch and an owner has no authority over a resource: it is no owner at any time,
-- and its renewals and releases are refused and change nothing.
abbrev pub Lost : String → ℕ → String → List Lease → Type 0
Lost resource epoch owner ls =
    ((now : ℕ) → is_lease_owner resource epoch owner now ls ≡ false)
    × ((ttl now : ℕ) → renew_lease resource epoch owner ttl now ls ≡ (ls, false))
    × (release_lease resource epoch owner ls ≡ (ls, false))

count_zero-select {ℓ} :
    {A : Type ℓ} (p : A → Bool) (rs : List A) → count_where p rs ≡ 0 → select_where p rs ≡ []
unfolding count_where select_where
count_zero-select p [] h = refl
count_zero-select p (x ∷ rs) h = ground (arith, count_zero-select p rs)

not_held-Lost :
    (resource : String) (epoch : ℕ) (owner : String) (ls : List Lease)
    → count_where (at resource_of resource (held_by epoch owner)) ls ≡ 0
    → Lost resource epoch owner ls
unfolding is_lease_owner renew_lease release_lease
not_held-Lost resource epoch owner ls z = (
  λ now. rw (count_zero-select _ ls z, is_lease_owner),
  λ ttl now. rw z (λ i. (update_none _ (prolonged (now + ttl)) ls z i, false)),
  rw z (λ i. (update_none _ released ls z i, false)),
)

higher-not_held :
    (epoch : ℕ) (owner : String) (l : Lease) → epoch < l.epoch → held_by epoch owner l ≡ false
higher-not_held epoch owner l h = ground arith

higher-Lost :
    (resource : String) (epoch : ℕ) (owner : String) (ls : List Lease) (l : Lease)
    → Unique resource_of ls
    → lease_row resource ls ≡ some l
    → epoch < l.epoch
    → Lost resource epoch owner ls
higher-Lost resource epoch owner ls l u e h = not_held-Lost resource epoch owner ls (
    count-at resource_of resource (held_by epoch owner) ls u
    ∙ rw (e, higher-not_held epoch owner l h))

upsert-stored :
    (resource : String) (epoch : ℕ) (owner : String) (till : ℕ) (ls : List Lease)
    → (l : Lease) × (lease_row resource (upsert resource epoch owner till ls) ≡ some l)
      × (l.epoch ≡ epoch)
      × (l.owner ≡ owner)
      × (l.lease_until ≡ till)
upsert-stored resource epoch owner till ls = elim (Option-cases (lease_row resource ls)) [
  | inl fresh ↦ (
    record { resource = resource; epoch = epoch; owner = owner; lease_until = till },
    rw (upsert_fresh resource epoch owner till ls fresh)
        (get-append_none resource_of resource ls _ fresh ∙ at_new),
    refl,
    refl,
    refl,
  )
  | inr (x, old) ↦ (
    granted epoch owner till x,
    rw (upsert_old resource epoch owner till ls x old) (
        get-update resource_of (λ l. str_eq l.resource resource) (granted epoch owner till)
          (λ y. refl) resource ls
        ∙ rw (old, (str_eq_iff x.resource resource).1 (key-get resource_of resource ls old))),
    refl,
    refl,
    refl,
  )
]
  where
    at_new :
        lease_row resource
          (record { resource = resource; epoch = epoch; owner = owner; lease_until = till } ∷ [])
        ≡ some (record { resource = resource; epoch = epoch; owner = owner; lease_until = till })
    at_new = unfold get in rw (str_eq_refl resource)

-- What a grant says of the tables before and after it.
pub record Acquired (resource : String) (ttl : ℕ) (owner : String) (now : ℕ) (ls ls' : List Lease)
    (g : Grant) : Type 0 where
  pub stored : Lease
  pub found : lease_row resource ls' ≡ some stored
  pub same_epoch : stored.epoch ≡ g.epoch
  pub same_owner : stored.owner ≡ owner
  pub deadline : stored.lease_until ≡ now + ttl
  pub was_free : is_live now (lease_row resource ls) ≡ false
  pub next_epoch : g.epoch ≡ epoch_or_zero (lease_row resource ls) + 1
  pub for_owner : g.owner ≡ owner

-- A lease is granted only on a resource with no live lease; the grant's epoch is the stored one
-- plus one (one, if there was none), and the table then holds the lease for the caller until `now`
-- plus the time to live.
pub acquire-Acquired :
    (resource : String) (ttl : ℕ) (owner : String) (now : ℕ) (ls ls' : List Lease) (g : Grant)
    → acquire_lease resource ttl owner now ls ≡ (ls', some g)
    → Acquired resource ttl owner now ls ls' g
unfolding acquire_lease
acquire-Acquired resource ttl owner now ls ls' g h =
    elim (Bool-cases (is_live now (lease_row resource ls))) [
      | inl live ↦ absurd (ground arith)
      | inr free ↦
          let epoch = epoch_or_zero (lease_row resource ls) + 1 in
          let (l, e, ee, eo, et) = upsert-stored resource epoch owner (now + ttl) ls in
          record {
            stored = l;
            found = subst (λ t. lease_row resource t ≡ some l) (ground arith) e;
            same_epoch = ground arith;
            same_owner = eo;
            deadline = et;
            was_free = free;
            next_epoch = ground arith;
            for_owner = ground arith;
          }
    ]

-- After a lease was granted, any calls were made and the same resource was granted again, the first
-- grant has lost its authority for good: at no time is it the owner, and its renewals and releases
-- are refused and change nothing, whatever calls follow.
pub superseded-Lost :
    (resource owner₁ owner₂ : String) (ttl₁ ttl₂ now₁ now₂ : ℕ) (ls ls₁ ls₂ : List Lease)
    (g₁ g₂ : Grant) (between later : List Call)
    → Unique resource_of ls
    → acquire_lease resource ttl₁ owner₁ now₁ ls ≡ (ls₁, some g₁)
    → acquire_lease resource ttl₂ owner₂ now₂ (run between ls₁) ≡ (ls₂, some g₂)
    → Lost resource g₁.epoch g₁.owner (run later ls₂)
unfolding step
superseded-Lost resource owner₁ owner₂ ttl₁ ttl₂ now₁ now₂ ls ls₁ ls₂ g₁ g₂ between later u e₁ e₂ =
    let a₁ = acquire-Acquired resource ttl₁ owner₁ now₁ ls ls₁ g₁ e₁ in
    let a₂ = acquire-Acquired resource ttl₂ owner₂ now₂ (run between ls₁) ls₂ g₂ e₂ in
    let u₁ : Unique resource_of ls₁ =
      subst (λ t. Unique resource_of t.0) e₁
        (step-Unique (acquires resource ttl₁ owner₁ now₁) ls u) in
    let u₂ : Unique resource_of ls₂ =
      subst (λ t. Unique resource_of t.0) e₂
        (step-Unique (acquires resource ttl₂ owner₂ now₂) (run between ls₁)
          (run-Unique between ls₁ u₁)) in
    let (m, em, le) = run-Later between ls₁ resource a₁.stored a₁.found in
    let (l, el, le') = run-Later later ls₂ resource a₂.stored a₂.found in
    higher-Lost resource g₁.epoch g₁.owner (run later ls₂) l (run-Unique later ls₂ u₂) el
      (omega (arith, a₁.same_epoch, a₂.same_epoch, a₂.next_epoch, ap epoch_or_zero em, le, le'))

-- While a lease lives, nobody else acquires the resource: the call is refused and changes nothing.
pub acquire-live :
    (resource : String) (ttl : ℕ) (owner : String) (now : ℕ) (ls : List Lease) (l : Lease)
    → lease_row resource ls ≡ some l
    → now < l.lease_until
    → acquire_lease resource ttl owner now ls ≡ (ls, none)
unfolding acquire_lease
acquire-live resource ttl owner now ls l e h = rw (ap (is_live now) e ∙ live) (refl)
  where
    live : ltb now l.lease_until ≡ true
    live = ground arith
