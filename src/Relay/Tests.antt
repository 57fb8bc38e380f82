-- ===== src/Relay/Tests.antt =====
-- A run of the theorem about src/application/live-relay.ts.
use dsh_codex_workflow.Common.{String, false, ◌≡◌, refl, [], ◌∷◌}
use dsh_codex_workflow.Projection.Live.{message, LiveEntry, no_details}
use dsh_codex_workflow.Relay.{Relay, flush, push_piece, push_pieces, accept, on_progress}
use dsh_codex_workflow.Relay.Delivery.{delivered, Delivers, on_progress-Delivers}

abbrev same_id : String → String
same_id s = s

abbrev fresh : Relay
fresh = record { pending = []; accepted = 0; closed = false; emitted = [] }

abbrev greeting : LiveEntry
greeting = record {
  kind = message;
  item_id = "m";
  text = 72 ∷ 105 ∷ [];
  replace = false;
  details = no_details;
}

greeting_test : delivered (on_progress same_id greeting fresh) ≡ 72 ∷ 105 ∷ []
unfolding on_progress accept push_pieces push_piece flush
greeting_test = refl

on_progress-Delivers_example : Delivers same_id greeting fresh (on_progress same_id greeting fresh)
on_progress-Delivers_example = on_progress-Delivers same_id greeting fresh
