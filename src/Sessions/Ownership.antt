-- ===== src/Sessions/Ownership.antt =====
-- What the live-session registry of src/infrastructure/coordination-repositories.ts holds after a
-- refresh, session by session.
use mathlib.Core.Option
use dsh_codex_workflow.Common.{
  ℕ, String, ◌≡◌, refl, sym, ap, subst, ◌∙◌, ◌⊎◌, inl, inr, false, Option, none, some, List, [],
  ◌∷◌, ◌++◌, arith, if◌then◌else◌, str_eq, str_eq_iff, Bool-cases, Option-cases,
}
use dsh_codex_workflow.Common.Table.{
  update_where, delete_where, get, Unique, key-get, get-append_none, get-append_some, get-update,
  get-delete,
}
use dsh_codex_workflow.Sessions.{
  Session, Agent, session_of, owned, session_row, upsert, upsert_all, refresh_owner_sessions,
}

-- The last agent of the list with this session id.
abbrev pub last_agent : String → List Agent → Option Agent
last_agent k [] = none
last_agent k (a ∷ as') = elim (last_agent k as') [
  | some b ↦ some b
  | none ↦ if str_eq a.session_id k then some a else none
]

module _ (normalize : String → String) (owner : String) (ttl now : ℕ) where
  upsert-fresh :
      (a : Agent) (ss : List Session)
      → get session_of a.session_id ss ≡ none
      → upsert normalize owner ttl now a ss ≡ ss ++ session_row normalize owner ttl now a ∷ []
  unfolding upsert
  upsert-fresh a ss e = rw (e, upsert)

  abbrev rewritten : Agent → Session → Session
  rewritten a s = record (session_row normalize owner ttl now a) { session_id = s.session_id }

  upsert-old :
      (a : Agent) (ss : List Session) (s : Session)
      → get session_of a.session_id ss ≡ some s
      → upsert normalize owner ttl now a ss
        ≡ update_where (λ x. str_eq x.session_id a.session_id) (rewritten a) ss
  unfolding upsert
  upsert-old a ss s e = rw (e, upsert)

  get-upsert_fresh :
      (k : String) (a : Agent) (ss : List Session)
      → get session_of a.session_id ss ≡ none
      → get session_of k (ss ++ session_row normalize owner ttl now a ∷ []) ≡ (
          if str_eq a.session_id k
          then some (session_row normalize owner ttl now a)
          else get session_of k ss)
  unfolding get
  get-upsert_fresh k a ss fresh = elim (Option-cases (get session_of k ss)) [
    | inl gone ↦ get-append_none session_of k ss _ gone ∙ rw gone
    | inr (s, e) ↦ get-append_some session_of k ss _ e ∙ rw (not_fresh s e) (sym e)
  ]
    where
      not_fresh : (s : Session) → get session_of k ss ≡ some s → str_eq a.session_id k ≡ false
      not_fresh s e = elim (Bool-cases (str_eq a.session_id k)) [
        | inl hit ↦ absurd (
            clash (get session_of k ss) s e
              (subst (λ j. get session_of j ss ≡ none) ((str_eq_iff _ _).0 hit) fresh))
        | inr miss ↦ miss
      ]
        where
          clash : (o : Option Session) (x : Session) → o ≡ some x → o ≡ none → ⊥
          clash o x p q = cc

  rewritten-row :
      (a : Agent) (s : Session)
      → s.session_id ≡ a.session_id
      → rewritten a s ≡ session_row normalize owner ttl now a
  rewritten-row a s e =
      ap (λ (i : String). record (session_row normalize owner ttl now a) { session_id = i }) e

  get-rewritten :
      (k : String) (a : Agent) (ss : List Session) (s : Session)
      → get session_of a.session_id ss ≡ some s
      → get session_of k (update_where (λ x. str_eq x.session_id a.session_id) (rewritten a) ss) ≡ (
          if str_eq a.session_id k
          then some (session_row normalize owner ttl now a)
          else get session_of k ss)
  get-rewritten k a ss s old =
      get-update session_of (λ x. str_eq x.session_id a.session_id) (rewritten a) (λ x. refl) k ss
      ∙ elim (Bool-cases (str_eq a.session_id k)) [
        | inl hit ↦
            let here = key-get session_of a.session_id ss old in
            rw
              (
                hit,
                subst (λ j. get session_of j ss ≡ some s) ((str_eq_iff _ _).0 hit) old,
                (str_eq_iff s.session_id a.session_id).1 here,
              )
              (ap some (rewritten-row a s here))
        | inr miss ↦ rw miss (elsewhere miss (Option-cases (get session_of k ss)))
      ]
    where
      elsewhere :
          str_eq a.session_id k ≡ false
          → (get session_of k ss ≡ none) ⊎ ((t : Session) × (get session_of k ss ≡ some t))
          → Option.map
              (λ x. if str_eq x.session_id a.session_id then rewritten a x else x)
              (get session_of k ss)
            ≡ get session_of k ss
      elsewhere miss (inl gone) = rw gone
      elsewhere miss (inr (t, e)) = rw (e, other miss t (key-get session_of k ss e))
        where
          other :
              str_eq a.session_id k ≡ false
              → (t : Session) → t.session_id ≡ k
              → str_eq t.session_id a.session_id ≡ false
          other miss t e =
              ground (arith, str_eq_iff t.session_id a.session_id, str_eq_iff a.session_id k)

  get-upsert :
      (k : String) (a : Agent) (ss : List Session)
      → get session_of k (upsert normalize owner ttl now a ss) ≡ (
          if str_eq a.session_id k
          then some (session_row normalize owner ttl now a)
          else get session_of k ss)
  get-upsert k a ss = elim (Option-cases (get session_of a.session_id ss)) [
    | inl fresh ↦ rw (upsert-fresh a ss fresh) (get-upsert_fresh k a ss fresh)
    | inr (s, old) ↦ rw (upsert-old a ss s old) (get-rewritten k a ss s old)
  ]

  get-upsert_all :
      (k : String) (rows : List Agent) (ss : List Session)
      → get session_of k (upsert_all normalize owner ttl now rows ss) ≡ elim (last_agent k rows) [
        | some a ↦ some (session_row normalize owner ttl now a)
        | none ↦ get session_of k ss
      ]
  unfolding upsert_all
  get-upsert_all k [] ss = refl
  get-upsert_all k (a ∷ rest) ss =
      get-upsert_all k rest (upsert normalize owner ttl now a ss) ∙ chosen (last_agent k rest)
    where
      chosen :
          (o : Option Agent)
          → elim o as (λ _. Option Session) [
            | some b ↦ some (session_row normalize owner ttl now b)
            | none ↦ get session_of k (upsert normalize owner ttl now a ss)
          ]
            ≡ elim (elim o as (λ _. Option Agent) [
              | some b ↦ some b
              | none ↦ if str_eq a.session_id k then some a else none
            ]) [
              | some b ↦ some (session_row normalize owner ttl now b)
              | none ↦ get session_of k ss
            ]
      chosen (some b) = refl
      chosen none = get-upsert k a ss ∙ ground arith

  -- After a refresh a session has the row of the owner's agent of that id (the last one, if the
  -- list repeats it), whoever had it before; a session that the list does not name keeps its row if
  -- it belongs to another owner and is gone if it was this owner's.
  pub refresh-session :
      (k : String) (rows : List Agent) (ss : List Session)
      → Unique session_of ss
      → get session_of k (refresh_owner_sessions normalize owner rows ttl now ss)
        ≡ elim (last_agent k rows) [
          | some a ↦ some (session_row normalize owner ttl now a)
          | none ↦ elim (get session_of k ss) [
            | none ↦ none
            | some s ↦ if owned owner s then none else some s
          ]
        ]
  unfolding refresh_owner_sessions
  refresh-session k rows ss u = get-upsert_all k rows (delete_where (owned owner) ss) ∙ (λ i.
      elim (last_agent k rows) [
        | some a ↦ some (session_row normalize owner ttl now a)
        | none ↦ get-delete session_of (owned owner) k ss u i
      ])
