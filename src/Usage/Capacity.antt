-- ===== src/Usage/Capacity.antt =====
-- The ledger of src/usage-accounting.ts holds one snapshot of a thread and no more than it may.
use dsh_codex_workflow.Common.{
  ℕ, ◌+◌, ◌≤◌, String, ◌≡◌, refl, ◌∙◌, inl, inr, Bool, false, none, some, List, [], ◌∷◌, ◌++◌,
  arith, ltb, if◌then◌else◌, str_eq_iff, str_eq_refl, Bool-cases, Option-cases, length, drop,
  length-append, length-drop,
}
use dsh_codex_workflow.Common.Table.{
  delete_where, get, Unique, key-get, get-append_none, Unique-append_one, get-delete, Unique-delete,
}
use dsh_codex_workflow.Json.{Json}
use dsh_codex_workflow.Usage.{
  TokenUsageSnapshot, thread_of, Ledger, of_thread, parse_token_usage_snapshot, store_snapshot,
  record_usage, forget,
}

pub data Call : Type 0 where
  records : Json → Call
  forgets : String → Call

unfoldable pub run : ℕ → List Call → Ledger → Ledger
run capacity [] l = l
run capacity (records params ∷ cs) l = run capacity cs (record_usage capacity params l).0
run capacity (forgets id ∷ cs) l = run capacity cs (forget id l)

-- One snapshot of a thread, and not more snapshots than the capacity.
abbrev pub WithinCapacity : ℕ → Ledger → Type 0
WithinCapacity capacity l = Unique thread_of l × (length l ≤ capacity)

length-delete : (p : TokenUsageSnapshot → Bool) (l : Ledger) → length (delete_where p l) ≤ length l
unfolding delete_where
length-delete p [] = omega arith
length-delete p (x ∷ l) = ground (arith, length-delete p l)

-- The thread of a snapshot is free once it is deleted.
freed :
    (s : TokenUsageSnapshot) (l : Ledger)
    → Unique thread_of l
    → get thread_of s.thread_id (delete_where (of_thread s.thread_id) l) ≡ none
freed s l u = elim (Option-cases (get thread_of s.thread_id l)) [
  | inl gone ↦ get-delete thread_of (of_thread s.thread_id) s.thread_id l u ∙ rw gone refl
  | inr (x, e) ↦
      get-delete thread_of (of_thread s.thread_id) s.thread_id l u
      ∙ rw e (named x (key-get thread_of s.thread_id l e))
]
  where
    named :
        (x : TokenUsageSnapshot)
        → x.thread_id ≡ s.thread_id
        → (if of_thread s.thread_id x then none else some x) ≡ none
    named x e = ground (arith, str_eq_iff x.thread_id s.thread_id)

drop-Unique : (l : Ledger) → Unique thread_of l → Unique thread_of (drop 1 l)
drop-Unique [] u = tt
drop-Unique (x ∷ l) u = u.1

store-WithinCapacity :
    (capacity : ℕ) (s : TokenUsageSnapshot) (l : Ledger)
    → WithinCapacity capacity l
    → WithinCapacity capacity (store_snapshot capacity s l)
unfolding store_snapshot
store-WithinCapacity capacity s l (u, n) = elim (Bool-cases (ltb capacity (length stored))) [
  | inl full ↦
      rw (full, store_snapshot)
        (drop-Unique stored stored-Unique, omega (arith, length-drop 1 stored, longer))
  | inr room ↦ rw (room, store_snapshot) (stored-Unique, ground arith)
]
  where
    kept : Ledger
    kept = delete_where (of_thread s.thread_id) l

    stored : Ledger
    stored = kept ++ s ∷ []

    stored-Unique : Unique thread_of stored
    stored-Unique =
        Unique-append_one thread_of kept s (Unique-delete thread_of (of_thread s.thread_id) l u)
          (freed s l u)

    longer : length stored ≤ capacity + 1
    longer = omega (arith, length-append kept (s ∷ []), length-delete (of_thread s.thread_id) l, n)

-- After any calls the ledger has one snapshot of a thread and is within its capacity.
pub run-WithinCapacity :
    (capacity : ℕ) (cs : List Call) (l : Ledger)
    → WithinCapacity capacity l
    → WithinCapacity capacity (run capacity cs l)
unfolding run record_usage forget
run-WithinCapacity capacity [] l w = w
run-WithinCapacity capacity (forgets id ∷ cs) l (u, n) =
    run-WithinCapacity capacity cs (forget id l)
      (Unique-delete thread_of (of_thread id) l u, omega (arith, length-delete (of_thread id) l, n))
run-WithinCapacity capacity (records params ∷ cs) l w =
    elim (Option-cases (parse_token_usage_snapshot params)) [
      | inl bad ↦ rw (bad, run, record_usage) (run-WithinCapacity capacity cs l w)
      | inr (s, good) ↦
          rw (good, run, record_usage)
            (run-WithinCapacity capacity cs (store_snapshot capacity s l)
              (store-WithinCapacity capacity s l w))
    ]

-- A snapshot that is read from a notification is the one that the ledger then has of its thread, if
-- the capacity is at least one: the thread that goes for want of room is another.
pub record-latest :
    (capacity : ℕ) (params : Json) (s : TokenUsageSnapshot) (l : Ledger)
    → 1 ≤ capacity
    → Unique thread_of l
    → parse_token_usage_snapshot params ≡ some s
    → get thread_of s.thread_id (record_usage capacity params l).0 ≡ some s
unfolding record_usage store_snapshot get
record-latest capacity params s l c u good =
    rw (good, record_usage) (latest (delete_where (of_thread s.thread_id) l) (freed s l u))
  where
    alone : get thread_of s.thread_id (s ∷ []) ≡ some s
    alone = rw (str_eq_refl s.thread_id) refl

    latest :
        (kept : Ledger)
        → get thread_of s.thread_id kept ≡ none
        → get thread_of s.thread_id (
            if ltb capacity (length (kept ++ s ∷ []))
            then drop 1 (kept ++ s ∷ [])
            else kept ++ s ∷ [])
          ≡ some s
    latest [] e =
        let fits : ltb capacity 1 ≡ false = ground arith in rw (fits, str_eq_refl s.thread_id) refl
    latest (x ∷ kept) e = elim (Bool-cases (ltb capacity (length (x ∷ kept ++ s ∷ [])))) [
      | inl full ↦
          rw full (get-append_none thread_of s.thread_id kept (s ∷ []) (ground arith) ∙ alone)
      | inr room ↦ rw room (get-append_none thread_of s.thread_id (x ∷ kept) (s ∷ []) e ∙ alone)
    ]
