-- ===== src/Queue/Routing.antt =====
-- Whom `claimNext` of src/infrastructure/queue-repository.ts serves: a request that is ready and
-- that the router allows is enough for a claim, and nothing else is ever claimed.
use mathlib.Core.List.{Memᴰ}
use dsh_codex_workflow.Common.Sort.{mem-sort, sort-mem}
use dsh_codex_workflow.Common.{
  ℕ, String, ◌≡◌, refl, sym, ap, subst, ◌∙◌, ◌⊎◌, inl, inr, Bool, true, false, ◌||◌, none, some,
  List, [], ◌∷◌, ◌++◌, map, arith, if◌then◌else◌, Bool-cases,
}
use dsh_codex_workflow.Common.Table.{Unique, key-get, mem-select, select-mem, get-mem, mem-get}
use dsh_codex_workflow.Queue.Rows.{Row, id_of, is_inbox, Router, retry_due, expired, claimable}
use dsh_codex_workflow.Queue.Operations.{
  Queue, queue_row, probed, eligible_ids, by_attempt, by_claim, by_creation, due_rows, expired_rows,
  inbox_rows, candidate_rows, claim_candidates,
}

abbrev pub allows : Router → String → Bool
allows none json = true
allows (some eligible) json = eligible json

-- A due retry, an expired claim or a row of the inbox.
abbrev pub ready : ℕ → Row → Bool
ready now r = retry_due now r || (expired now r || is_inbox r.status)

pub ready-claimable : (now : ℕ) (r : Row) → ready now r ≡ true → claimable now r ≡ true
ready-claimable now r h = ground arith

mem-append_left {ℓ} : {A : Type ℓ} (a : A) (xs ys : List A) → Memᴰ a xs → Memᴰ a (xs ++ ys)
mem-append_left a [] ys m = elim m [ ]
mem-append_left a (x ∷ xs) ys (Memᴰ.head e) = Memᴰ.head e
mem-append_left a (x ∷ xs) ys (Memᴰ.tail m) = Memᴰ.tail (mem-append_left a xs ys m)

mem-append_right {ℓ} : {A : Type ℓ} (a : A) (xs ys : List A) → Memᴰ a ys → Memᴰ a (xs ++ ys)
mem-append_right a [] ys m = m
mem-append_right a (x ∷ xs) ys m = Memᴰ.tail (mem-append_right a xs ys m)

append-mem {ℓ} : {A : Type ℓ} (a : A) (xs ys : List A) → Memᴰ a (xs ++ ys) → Memᴰ a xs ⊎ Memᴰ a ys
append-mem a [] ys m = inr m
append-mem a (x ∷ xs) ys (Memᴰ.head e) = inl (Memᴰ.head e)
append-mem a (x ∷ xs) ys (Memᴰ.tail m) = elim (append-mem a xs ys m) [
  | inl k ↦ inl (Memᴰ.tail k)
  | inr k ↦ inr k
]

or_cases : (a b : Bool) → (a || b) ≡ true → (a ≡ true) ⊎ (b ≡ true)
or_cases true b h = inl refl
or_cases false b h = inr h

ready-candidate :
    (now : ℕ) (q : Queue) (r : Row) → Memᴰ r q → ready now r ≡ true → Memᴰ r (candidate_rows now q)
unfolding candidate_rows
ready-candidate now q r m h =
    elim (or_cases (retry_due now r) (expired now r || is_inbox r.status) h) [
      | inl due_now ↦
          mem-append_left r (due_rows now q) (expired_rows now q ++ inbox_rows q)
            (mem-sort by_attempt r _ (mem-select (retry_due now) r q m due_now))
      | inr rest ↦
          mem-append_right r (due_rows now q) (expired_rows now q ++ inbox_rows q)
            (elim (or_cases (expired now r) (is_inbox r.status) rest) [
              | inl over ↦
                  mem-append_left r (expired_rows now q) (inbox_rows q)
                    (mem-sort by_claim r _ (mem-select (expired now) r q m over))
              | inr arrived ↦
                  mem-append_right r (expired_rows now q) (inbox_rows q)
                    (mem-sort by_creation r _ (mem-select (λ x. is_inbox x.status) r q m arrived))
            ])
    ]

-- Each test of a SELECT makes a row ready.
due-ready : (now : ℕ) (r : Row) → retry_due now r ≡ true → ready now r ≡ true
due-ready now r h = ground arith

expired-ready : (now : ℕ) (r : Row) → expired now r ≡ true → ready now r ≡ true
expired-ready now r h = ground arith

inbox-ready : (now : ℕ) (r : Row) → is_inbox r.status ≡ true → ready now r ≡ true
inbox-ready now r h = ground arith

candidate-ready :
    (now : ℕ) (q : Queue) (r : Row)
    → Memᴰ r (candidate_rows now q)
    → Memᴰ r q × (ready now r ≡ true)
unfolding candidate_rows
candidate-ready now q r m =
    elim (append-mem r (due_rows now q) (expired_rows now q ++ inbox_rows q) m) [
      | inl k ↦
          let (l, h) = select-mem (retry_due now) r q (sort-mem by_attempt r _ k) in
          (l, due-ready now r h)
      | inr k ↦ elim (append-mem r (expired_rows now q) (inbox_rows q) k) [
        | inl j ↦
            let (l, h) = select-mem (expired now) r q (sort-mem by_claim r _ j) in
            (l, expired-ready now r h)
        | inr j ↦
            let (l, h) = select-mem (λ x. is_inbox x.status) r q (sort-mem by_creation r _ j) in
            (l, inbox-ready now r h)
      ]
    ]

mem-ids : (r : Row) (rs : List Row) → Memᴰ r rs → Memᴰ r.request_id (map id_of rs)
mem-ids r [] m = elim m [ ]
mem-ids r (x ∷ rs) (Memᴰ.head e) = Memᴰ.head (ap id_of e)
mem-ids r (x ∷ rs) (Memᴰ.tail m) = Memᴰ.tail (mem-ids r rs m)

ids-mem :
    (id : String) (rs : List Row)
    → Memᴰ id (map id_of rs)
    → (r : Row) × Memᴰ r rs × (id ≡ r.request_id)
ids-mem id [] m = elim m [ ]
ids-mem id (x ∷ rs) (Memᴰ.head e) = (x, Memᴰ.head refl, e)
ids-mem id (x ∷ rs) (Memᴰ.tail m) = let (r, k, e) = ids-mem id rs m in (r, Memᴰ.tail k, e)

-- The router keeps the ids of the rows whose command it allows.
eligible-mem :
    (router : Router) (q : Queue) (r : Row) (ids : List String)
    → queue_row r.request_id q ≡ some r
    → Memᴰ r.request_id ids
    → allows router r.command_json ≡ true
    → Memᴰ r.request_id (eligible_ids router q ids)
unfolding eligible_ids
eligible-mem none q r ids e m h = m
eligible-mem (some f) q r [] e m h = elim m [ ]
eligible-mem (some f) q r (id ∷ ids) e (Memᴰ.head same) h =
    rw (ap (probed f) (subst (λ k. queue_row k q ≡ some r) same e) ∙ h) (Memᴰ.head same)
eligible-mem (some f) q r (id ∷ ids) e (Memᴰ.tail m) h =
    elim (Bool-cases (probed f (queue_row id q))) [
      | inl good ↦ rw good (Memᴰ.tail (eligible-mem (some f) q r ids e m h))
      | inr bad ↦ rw bad (eligible-mem (some f) q r ids e m h)
    ]

mem-eligible :
    (router : Router) (q : Queue) (id : String) (ids : List String) (x : Row)
    → queue_row id q ≡ some x
    → Memᴰ id (eligible_ids router q ids)
    → Memᴰ id ids × (allows router x.command_json ≡ true)
unfolding eligible_ids
mem-eligible none q id ids x e m = (m, refl)
mem-eligible (some f) q id [] x e m = elim m [ ]
mem-eligible (some f) q id (j ∷ ids) x e m = elim (Bool-cases (probed f (queue_row j q))) [
  | inl good ↦ at_good good (mem-eligible (some f) q id ids x e) (kept_if good)
  | inr bad ↦ let (k, h) = mem-eligible (some f) q id ids x e (kept_if bad) in (Memᴰ.tail k, h)
]
  where
    kept_if :
        {b : Bool}
        → probed f (queue_row j q) ≡ b
        → Memᴰ id (if b then j ∷ eligible_ids (some f) q ids else eligible_ids (some f) q ids)
    kept_if h =
        subst
          (λ b.
            Memᴰ id (if b then j ∷ eligible_ids (some f) q ids else eligible_ids (some f) q ids))
          h m

    at_good :
        probed f (queue_row j q) ≡ true
        → (Memᴰ id (eligible_ids (some f) q ids) → Memᴰ id ids × (f x.command_json ≡ true))
        → Memᴰ id (j ∷ eligible_ids (some f) q ids)
        → Memᴰ id (j ∷ ids) × (f x.command_json ≡ true)
    at_good good ih (Memᴰ.head same) =
        (Memᴰ.head same, ap (probed f) (sym e ∙ ap (λ k. queue_row k q) same) ∙ good)
    at_good good ih (Memᴰ.tail k) = let (l, h) = ih k in (Memᴰ.tail l, h)

eligible-sub :
    (router : Router) (q : Queue) (id : String) (ids : List String)
    → Memᴰ id (eligible_ids router q ids)
    → Memᴰ id ids
unfolding eligible_ids
eligible-sub none q id ids m = m
eligible-sub (some f) q id [] m = elim m [ ]
eligible-sub (some f) q id (j ∷ ids) m =
    passed (probed f (queue_row j q)) (eligible-sub (some f) q id ids) m
  where
    passed :
        (b : Bool)
        → (Memᴰ id (eligible_ids (some f) q ids) → Memᴰ id ids)
        → Memᴰ id (if b then j ∷ eligible_ids (some f) q ids else eligible_ids (some f) q ids)
        → Memᴰ id (j ∷ ids)
    passed true ih (Memᴰ.head same) = Memᴰ.head same
    passed true ih (Memᴰ.tail k) = Memᴰ.tail (ih k)
    passed false ih k = Memᴰ.tail (ih k)

pub ready-in_candidates :
    (now : ℕ) (router : Router) (q : Queue) (id : String) (r : Row)
    → queue_row id q ≡ some r
    → ready now r ≡ true
    → allows router r.command_json ≡ true
    → Memᴰ r.request_id (claim_candidates now router q)
unfolding claim_candidates
ready-in_candidates now router q id r e h a =
    eligible-mem router q r (map id_of (candidate_rows now q))
      (subst (λ k. queue_row k q ≡ some r) (sym (key-get id_of id q e)) e)
      (mem-ids r (candidate_rows now q) (ready-candidate now q r (get-mem id_of id r q e) h)) a

pub candidates-ready :
    (now : ℕ) (router : Router) (q : Queue) (id : String)
    → Unique id_of q
    → Memᴰ id (claim_candidates now router q)
    → (r : Row) × (queue_row id q ≡ some r)
      × (ready now r ≡ true)
      × (allows router r.command_json ≡ true)
unfolding claim_candidates
candidates-ready now router q id u m =
    let (r, k, same) = ids-mem id (candidate_rows now q) (eligible-sub router q id _ m) in
    let (l, h) = candidate-ready now q r k in
    let e : queue_row id q ≡ some r =
      subst (λ j. queue_row j q ≡ some r) (sym same) (mem-get id_of r q u l) in
    (r, e, h, (mem-eligible router q id (map id_of (candidate_rows now q)) r e m).1)
