-- ===== src/Consumers/Handoff.antt =====
-- What an adoption hands over: `adopt` of src/application/submission-review-consumer.ts.
use dsh_codex_workflow.Common.{
  ◌<◌, ◌≡◌, refl, Bool, true, false, not, ◌||◌, some, List, [], ◌∷◌, ◌==◌, str_eq, str_eq_refl,
  Bool-cases, inl, inr, arith, leb, subst,
}
use dsh_codex_workflow.Common.Result.{Result, ok, err, bind_ok, ok_unique}
use dsh_codex_workflow.Common.Table.{get, update_where}
use dsh_codex_workflow.Consumers.{
  Refusal, out_of_scope, obsolete_generation, Registration, Consumers, has, key_of, assert_context,
  place, is_current, cancel_wait, adopted, adopt,
}

get-replaced :
    (r x : Registration) (rs : List Registration)
    → get key_of r.key rs ≡ some x
    → get key_of r.key (update_where (λ y. str_eq y.key r.key) (λ _. r) rs) ≡ some r
unfolding get update_where
get-replaced r x [] h = absurd cc
get-replaced r x (y ∷ rs) h = elim (Bool-cases (str_eq y.key r.key)) [
  | inl hit ↦ rw (hit, str_eq_refl r.key) refl
  | inr miss ↦ rw (miss, miss) (get-replaced r x rs (rw miss at h))
]

place-get :
    (r x : Registration) (rs : List Registration)
    → get key_of r.key rs ≡ some x
    → get key_of r.key (place r rs) ≡ some r
place-get r x rs h = let replaced = get-replaced r x rs h in rw (h, place) replaced

-- What is known after the adoption of `r`, where `x` held its key.
pub record HandedOver (can stopped : Bool) (r x : Registration) (s t : Consumers) : Type 0 where
  pub allowed : can ≡ true
  pub running : stopped ≡ false
  pub not_cancelled : has r.token s.aborted ≡ false
  pub newer : x.options.epoch < r.options.epoch
  pub now_current : is_current r t ≡ true
  pub predecessor_cancelled : has x.token t.aborted ≡ true

adopted-ok :
    (r x : Registration) (s t : Consumers)
    → get key_of r.key s.current ≡ some x
    → (x.token == r.token) ≡ false
    → adopted r (some x) s ≡ ok t
    → (leb r.options.epoch x.options.epoch ≡ false)
      × (cancel_wait x (record s { current = place r s.current }) ≡ t)
adopted-ok r x s t held other h = elim (Bool-cases (leb r.options.epoch x.options.epoch)) [
  | inl old ↦ absurd (never (rw (other, old) at h))
  | inr new ↦ (new, ok_unique _ t (rw (other, new) at h))
]
  where
    never : ◌≡◌ {A = Result Refusal Consumers} (err obsolete_generation) (ok t) → ⊥
    never q = cc

adopt-adopted :
    (can stopped : Bool) (r x : Registration) (s t : Consumers)
    → get key_of r.key s.current ≡ some x
    → adopt can stopped r s ≡ ok t
    → ((stopped || has r.token s.aborted || not can) ≡ false) × (adopted r (some x) s ≡ ok t)
unfolding adopt
adopt-adopted can stopped r x s t held h =
    let (_, _, rest) = bind_ok (assert_context r.options (get key_of r.key s.current) s) _ t h in
    elim (Bool-cases (stopped || has r.token s.aborted || not can)) [
      | inl out ↦ absurd (never (rw out at rest))
      | inr within ↦ (within, rw held at (rw within at rest))
    ]
  where
    never : ◌≡◌ {A = Result Refusal Consumers} (err out_of_scope) (ok t) → ⊥
    never q = cc

-- An adoption that takes a key over from another consumer happens only while its guard allows it
-- and it was neither stopped nor cancelled, and only from an older lease generation; the adopting
-- consumer is then the current one, and the wait of the other is cancelled.
pub adopt-HandedOver :
    (can stopped : Bool) (r x : Registration) (s t : Consumers)
    → get key_of r.key s.current ≡ some x
    → (x.token == r.token) ≡ false
    → adopt can stopped r s ≡ ok t
    → HandedOver can stopped r x s t
unfolding has
adopt-HandedOver can stopped r x s t held other h =
    let (within, h₁) = adopt-adopted can stopped r x s t held h in
    let (new, same) = adopted-ok r x s t held other h₁ in
    subst (HandedOver can stopped r x s) same (record {
      allowed = ground arith;
      running = ground arith;
      not_cancelled = ground arith;
      newer = ground arith;
      now_current = rw (place-get r x s.current held, is_current) (ground arith);
      predecessor_cancelled = ground arith;
    })
