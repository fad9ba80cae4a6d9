-- ===== src/Nodes/Apply/Tests.antt =====
-- A report of a replica that was started.
use cloudbase.Prelude.{int_of_text, ℕ, ◌≡◌, refl, ◌≢◌, true, none, some, List, [], ◌∷◌, has_text}
use cloudbase.Prelude.Result.{Result, ok}
use cloudbase.Nodes.{
  null, str, NodeCommand, Store, Effect, command_with_id, command_done, command_update,
}
use cloudbase.Nodes.Apply.{Report, apply_command_result, finished, known_status}
use cloudbase.Nodes.Apply.Outcome.{apply_finishes, StartsBy}
use cloudbase.Nodes.Apply.Statuses.{StatesKnown, apply-StatesKnown}
use cloudbase.Nodes.Sample.{start_web, start_replica, elsewhere, web, web_replica, sample}

abbrev started : Report
started = record {
  status = "done";
  result = some (("container_id", str "c0ffee") ∷ []);
  error_message = none;
}

abbrev reported : Result (Store × List Effect)
reported = apply_command_result 50 7 2 started sample

abbrev after : Store
after = record sample {
  commands = start_web ∷ finished 50 started start_replica ∷ elsewhere ∷ [];
  apps = record web { updated_at = 50 } ∷ [];
  replicas =
      record web_replica { status = "starting"; container_id = str "c0ffee"; last_error = null }
      ∷ [];
}

abbrev sent : List Effect
sent = command_done 2 ∷ command_update 7 2 "done" (some 3) (some "starting") none ∷ []

reported-eq : reported ≡ ok (after, sent)
unfolding apply_command_result
reported-eq = refl

apply_finishes_example :
    (c : NodeCommand) × (command_with_id 2 sample ≡ some c)
    × (c.node_id ≡ 7)
    × (has_text "done" known_status ≡ true)
    × (command_with_id 2 after ≡ some (finished 50 started c))
    × ((k : ℕ) → 2 ≢ k → command_with_id k after ≡ command_with_id k sample)
    × (after.nodes ≡ sample.nodes)
    × (after.invites ≡ sample.invites)
    × StartsBy (command_done 2) sent
apply_finishes_example = apply_finishes 50 7 2 started sample after sent reported-eq

apply-StatesKnown_example : StatesKnown after
apply-StatesKnown_example =
    apply-StatesKnown 50 7 2 started sample after sent ((refl, tt), (refl, tt)) reported-eq

numbers-eq : (int_of_text " 42 " ≡ some 42) × (int_of_text "4x" ≡ none)
unfolding int_of_text
numbers-eq = (refl, refl)
