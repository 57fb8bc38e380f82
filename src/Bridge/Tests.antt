-- ===== src/Bridge/Tests.antt =====
-- A verdict command and a refused one: runs of the theorems about src/bridge-protocol.ts.
use dsh_codex_workflow.Common.{String, Bool, true, ◌≡◌, refl, none, some, [], ◌∷◌}
use dsh_codex_workflow.Common.Result.{ok, err}
use dsh_codex_workflow.Json.{whole, str, num, obj, empty, field, lookup}
use dsh_codex_workflow.Review.{high, changes_requested}
use dsh_codex_workflow.Bridge.Protocol.{
  BridgeCommand, submit_verdict, invalid, parse_bridge_command,
}
use dsh_codex_workflow.Bridge.Encoding.{command_json}
use dsh_codex_workflow.Bridge.RoundTrip.{encode-parse}

abbrev any_text : String → Bool
any_text s = true

abbrev verdict_command : BridgeCommand
verdict_command = submit_verdict (record {
  request_id = "r";
  created_at = "2025-01-01";
  workflow_id = "w";
  codex_thread_id = "t";
  submission_id = some "s";
  dsh_session_id = none;
  verdict = record {
    verdict = changes_requested;
    findings =
        record {
          severity = high;
          blocking = true;
          title = "leak";
          body = "b";
          file = none;
          line = some (whole 3);
        }
        ∷ [];
    test_gaps = "gap" ∷ [];
    summary = "";
  };
})

encode-parse_example :
    parse_bridge_command any_text any_text any_text (command_json verdict_command)
    ≡ ok verdict_command
encode-parse_example =
    encode-parse any_text any_text any_text verdict_command
      ((refl, refl), (refl, refl), refl, (refl, refl), (refl, refl), tt, ((refl, refl, refl), tt))

unknown_kind_test :
    parse_bridge_command any_text any_text any_text
      (obj (field "version" (num (whole 1)) (field "kind" (str "other") empty)))
    ≡ err (invalid "kind")
unfolding parse_bridge_command lookup
unknown_kind_test = refl
