-- ===== src/Sessions.antt =====
-- The live-session registry: `LiveSessionRepositorySql` of
-- src/infrastructure/coordination-repositories.ts.
pub mod Ownership
mod Tests
use dsh_codex_workflow.Common.{
  ℕ, ◌+◌, ◌-◌, ◌/◌, String, Bool, ◌&&◌, none, some, List, [], ◌∷◌, ◌++◌, ltb, str_eq,
}
use dsh_codex_workflow.Common.Table.{update_where, count_where, select_where, delete_where, get}
use dsh_codex_workflow.Common.Sort.{before, sort}

pub record Session : Type 0 where
  pub session_id : String
  pub runtime_owner : String
  pub cwd : String
  pub cwd_key : String
  pub lease_until : ℕ
  pub updated_at : ℕ

pub record Agent : Type 0 where
  pub session_id : String
  pub cwd : String

abbrev pub session_of : Session → String
session_of s = s.session_id

abbrev pub owned : String → Session → Bool
owned owner s = str_eq s.runtime_owner owner

-- `normalize` is `normalizeCwdKey`, whose `resolve` is Node's `path.resolve`.
module _ (normalize : String → String) where
  abbrev pub session_row : String → ℕ → ℕ → Agent → Session
  session_row owner ttl now a = record {
    session_id = a.session_id;
    runtime_owner = owner;
    cwd = a.cwd;
    cwd_key = normalize a.cwd;
    lease_until = now + ttl;
    updated_at = now;
  }

  -- `ON CONFLICT(session_id) DO UPDATE` writes every column but the key.
  pub upsert : String → ℕ → ℕ → Agent → List Session → List Session
  upsert owner ttl now a ss = elim (get session_of a.session_id ss) [
    | none ↦ ss ++ session_row owner ttl now a ∷ []
    | some _ ↦
        update_where (λ s. str_eq s.session_id a.session_id)
          (λ s. record (session_row owner ttl now a) { session_id = s.session_id }) ss
  ]

  pub upsert_all : String → ℕ → ℕ → List Agent → List Session → List Session
  unfolding upsert
  upsert_all owner ttl now [] ss = ss
  upsert_all owner ttl now (a ∷ as') ss = upsert_all owner ttl now as' (upsert owner ttl now a ss)

  pub refresh_owner_sessions : String → List Agent → ℕ → ℕ → List Session → List Session
  unfolding upsert_all
  refresh_owner_sessions owner rows ttl now ss =
      upsert_all owner ttl now rows (delete_where (owned owner) ss)

pub renew_owner_sessions : String → ℕ → ℕ → List Session → List Session × ℕ
renew_owner_sessions owner ttl now ss = (
  update_where (owned owner) (λ s. record s { lease_until = now + ttl; updated_at = now }) ss,
  count_where (owned owner) ss,
)

pub release_owner_sessions : String → List Session → List Session × ℕ
release_owner_sessions owner ss = (delete_where (owned owner) ss, count_where (owned owner) ss)

pub sessions_for_owner : String → ℕ → List Session → List Session
sessions_for_owner owner now ss = select_where (λ s. owned owner s && ltb now s.lease_until) ss

pub live_sessions_for_cwd : String → ℕ → List Session → List Session
live_sessions_for_cwd key now ss =
    select_where (λ s. str_eq s.cwd_key key && ltb now s.lease_until) ss

pub list_live_sessions : ℕ → List Session → List Session
list_live_sessions now ss =
    sort (λ a b. before 0 a.session_id 0 b.session_id)
      (select_where (λ s. ltb now s.lease_until) ss)
