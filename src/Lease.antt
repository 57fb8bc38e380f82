-- ===== src/Lease.antt =====
-- Fenced leases: `LeaseRepositorySql` of src/infrastructure/coordination-repositories.ts.
pub mod Epochs
pub mod Fencing
mod Tests
use dsh_codex_workflow.Common.{
  ℕ, ◌+◌, ◌-◌, ◌/◌, String, Bool, false, ◌&&◌, Option, none, some, List, [], ◌∷◌, ◌++◌, ltb, ◌==◌,
  if◌then◌else◌, str_eq,
}
use dsh_codex_workflow.Common.Table.{update_where, count_where, select_where, get, at}

pub record Lease : Type 0 where
  pub resource : String
  pub epoch : ℕ
  pub owner : String
  pub lease_until : ℕ

pub record Grant : Type 0 where
  pub epoch : ℕ
  pub owner : String

abbrev pub resource_of : Lease → String
resource_of l = l.resource

abbrev pub lease_row : String → List Lease → Option Lease
lease_row resource ls = get resource_of resource ls

abbrev pub granted : ℕ → String → ℕ → Lease → Lease
granted epoch owner till l = record l { epoch = epoch; owner = owner; lease_until = till }

-- `INSERT … ON CONFLICT(resource) DO UPDATE` writes epoch, owner and deadline.
pub upsert : String → ℕ → String → ℕ → List Lease → List Lease
upsert resource epoch owner till ls = elim (lease_row resource ls) [
  | none ↦
      ls ++ record { resource = resource; epoch = epoch; owner = owner; lease_until = till } ∷ []
  | some _ ↦ update_where (λ l. str_eq l.resource resource) (granted epoch owner till) ls
]

abbrev pub epoch_or_zero : Option Lease → ℕ
epoch_or_zero none = 0
epoch_or_zero (some l) = l.epoch

abbrev pub is_live : ℕ → Option Lease → Bool
is_live now none = false
is_live now (some l) = ltb now l.lease_until

pub acquire_lease : String → ℕ → String → ℕ → List Lease → List Lease × Option Grant
unfolding upsert
acquire_lease resource ttl owner now ls =
    let epoch = epoch_or_zero (lease_row resource ls) + 1 in
    if is_live now (lease_row resource ls) then (ls, none) else (
      upsert resource epoch owner (now + ttl) ls,
      some (record { epoch = epoch; owner = owner }),
    )

-- `epoch = ? AND owner = ?`.
abbrev pub held_by : ℕ → String → Lease → Bool
held_by epoch owner l = l.epoch == epoch && str_eq l.owner owner

abbrev pub prolonged : ℕ → Lease → Lease
prolonged till l = record l { lease_until = till }

abbrev pub released : Lease → Lease
released l = record l { owner = ""; lease_until = 0 }

pub renew_lease : String → ℕ → String → ℕ → ℕ → List Lease → List Lease × Bool
renew_lease resource epoch owner ttl now ls = (
  update_where (at resource_of resource (held_by epoch owner)) (prolonged (now + ttl)) ls,
  count_where (at resource_of resource (held_by epoch owner)) ls == 1,
)

pub release_lease : String → ℕ → String → List Lease → List Lease × Bool
release_lease resource epoch owner ls = (
  update_where (at resource_of resource (held_by epoch owner)) released ls,
  count_where (at resource_of resource (held_by epoch owner)) ls == 1,
)

-- The SELECT of `isLeaseOwner` asks for the resource, the epoch and the owner.
pub is_lease_owner : String → ℕ → String → ℕ → List Lease → Bool
is_lease_owner resource epoch owner now ls =
    elim (select_where (at resource_of resource (held_by epoch owner)) ls) [
      | [] ↦ false
      | l ∷ _ ↦ ltb now l.lease_until
    ]

pub lease_info : String → List Lease → Option Lease
lease_info resource ls = lease_row resource ls

pub data Call : Type 0 where
  acquires : String → ℕ → String → ℕ → Call
  renews : String → ℕ → String → ℕ → ℕ → Call
  releases : String → ℕ → String → Call

pub step : Call → List Lease → List Lease
step (acquires resource ttl owner now) ls = (acquire_lease resource ttl owner now ls).0
step (renews resource epoch owner ttl now) ls = (renew_lease resource epoch owner ttl now ls).0
step (releases resource epoch owner) ls = (release_lease resource epoch owner ls).0

pub run : List Call → List Lease → List Lease
run [] ls = ls
run (c ∷ cs) ls = run cs (step c ls)
