-- ===== src/Lease/Tests.antt =====
-- Runs of the theorems about the leases of src/infrastructure/coordination-repositories.ts.
use dsh_codex_workflow.Common.{ℕ, String, ◌≡◌, refl, some, [], ◌∷◌}
use dsh_codex_workflow.Common.Table.{update_where, count_where, get}
use dsh_codex_workflow.Lease.{Lease, Grant, acquire_lease, renew_lease, renews, releases, step, run}
use dsh_codex_workflow.Lease.Fencing.{Lost, Acquired, acquire-Acquired, superseded-Lost}

abbrev lease : ℕ → String → ℕ → Lease
lease epoch owner till = record {
  resource = "callback";
  epoch = epoch;
  owner = owner;
  lease_until = till;
}

abbrev grant : ℕ → String → Grant
grant epoch owner = record { epoch = epoch; owner = owner }

first_grant_test : acquire_lease "callback" 60 "A" 10 [] ≡ (lease 1 "A" 70 ∷ [], some (grant 1 "A"))
unfolding acquire_lease get
first_grant_test = refl

second_grant_test :
    acquire_lease "callback" 60 "B" 90
      (run (renews "callback" 1 "A" 5 80 ∷ []) (lease 1 "A" 70 ∷ []))
    ≡ (lease 2 "B" 150 ∷ [], some (grant 2 "B"))
unfolding acquire_lease run step renew_lease update_where count_where get
second_grant_test = refl

superseded-Lost_example :
    Lost "callback" 1 "A" (run (releases "callback" 2 "B" ∷ []) (lease 2 "B" 150 ∷ []))
superseded-Lost_example =
    superseded-Lost "callback" "A" "B" 60 60 10 90 [] (lease 1 "A" 70 ∷ []) (lease 2 "B" 150 ∷ [])
      (grant 1 "A") (grant 2 "B") (renews "callback" 1 "A" 5 80 ∷ [])
      (releases "callback" 2 "B" ∷ []) tt first_grant_test second_grant_test

acquire-Acquired_example : Acquired "callback" 60 "A" 10 [] (lease 1 "A" 70 ∷ []) (grant 1 "A")
acquire-Acquired_example =
    acquire-Acquired "callback" 60 "A" 10 [] (lease 1 "A" 70 ∷ []) (grant 1 "A") first_grant_test
