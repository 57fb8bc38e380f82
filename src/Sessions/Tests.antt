-- ===== src/Sessions/Tests.antt =====
-- A run of the theorem about the live-session registry.
use dsh_codex_workflow.Common.{String, ◌≡◌, refl, none, List, [], ◌∷◌}
use dsh_codex_workflow.Common.Table.{get, Unique}
use dsh_codex_workflow.Sessions.{Session, Agent, session_of, refresh_owner_sessions}
use dsh_codex_workflow.Sessions.Ownership.{refresh-session}

abbrev stored : String → String → Session
stored id owner = record {
  session_id = id;
  runtime_owner = owner;
  cwd = "/w";
  cwd_key = "/w";
  lease_until = 50;
  updated_at = 1;
}

abbrev registry : List Session
registry = stored "s1" "A" ∷ stored "s2" "B" ∷ stored "s3" "A" ∷ []

registry-Unique : Unique session_of registry
unfolding get
registry-Unique = (refl, (refl, (refl, tt)))

-- Owner A takes `s2` over from B and drops `s3`.
abbrev agents : List Agent
agents = record { session_id = "s2"; cwd = "/x" } ∷ record { session_id = "s1"; cwd = "/w" } ∷ []

refresh-session_example :
    get session_of "s3" (refresh_owner_sessions (λ p. p) "A" agents 60 100 registry) ≡ none
unfolding get
refresh-session_example = refresh-session (λ p. p) "A" 60 100 "s3" agents registry registry-Unique
