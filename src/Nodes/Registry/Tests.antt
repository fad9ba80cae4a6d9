-- ===== src/Nodes/Registry/Tests.antt =====
-- Runs of the registry.
use cloudbase.Prelude.{
  ℕ, ◌≤◌, ◌≡◌, refl, ◌≢◌, false, none, some, List, [], ◌∷◌, arith, ◌==◌, length, select, find,
}
use cloudbase.Prelude.Result.{ok, raise}
use cloudbase.Nodes.{Node, NodeInvite, Store, Effect, audit, node_connected, get_node_by_token}
use cloudbase.Nodes.Registry.{
  RegisterRequest, Drawn, new_invite, node_of, join_node, register_node, disabled, put_node,
  disable_node, without_node, delete_node,
}
use cloudbase.Nodes.Registry.Invites.{OpenInvite, invite_once}
use cloudbase.Nodes.Registry.Removal.{NoneLeft, removed_clean}
use cloudbase.Nodes.Registry.Disabling.{disabled_refused}
use cloudbase.Nodes.Sample.{sample}

abbrev berlin : RegisterRequest
berlin = record {
  invite_code = "code";
  name = "berlin";
  role = "edge";
  api_base_url = none;
  public_host = some "192.0.2.7";
  heartbeat_interval = 15;
  capabilities = [];
  metadata_json = [];
}

abbrev drawn : Drawn
drawn = record { id = 8; auth_token = "t8" }

abbrev invite : NodeInvite
invite = new_invite 100 1 "code" none 10

abbrev invited : Store
invited = record sample { invites = invite ∷ [] }

abbrev joined : Store
joined = join_node 200 drawn berlin invite invited

abbrev welcome : List Effect
welcome = audit "node.connect" "agent" ∷ node_connected 8 "berlin" ∷ []

joins : register_node 50 200 drawn berlin invited ≡ ok (joined, welcome)
unfolding register_node
joins = refl

invite_once_example :
    OpenInvite 200 "code" invited
    × ((max_nodes' now' : ℕ) (drawn' : Drawn) (req' : RegisterRequest)
        → req'.invite_code ≡ "code"
        → register_node max_nodes' now' drawn' req' joined ≡ raise 400)
    × (length joined.nodes ≡ 1)
    × (length joined.nodes ≤ 50)
invite_once_example = invite_once 50 200 drawn berlin invited joined welcome joins

abbrev left : Store
left = without_node 8 joined

leaves : delete_node 8 "admin" joined ≡ ok (left, audit "node.delete" "admin" ∷ [])
unfolding delete_node
leaves = refl

removed_clean_example :
    ((n : Node) × (find (λ m. m.id == 8) joined.nodes ≡ some n) × (n.is_local ≡ false))
    × NoneLeft 8 left
    × ((k : ℕ)
        → 8 ≢ k
        → (select (λ n. n.id == k) left.nodes ≡ select (λ n. n.id == k) joined.nodes)
          × (select (λ c. c.node_id == k) left.commands
              ≡ select (λ c. c.node_id == k) joined.commands))
    × (left.apps ≡ joined.apps)
    × (left.replicas ≡ joined.replicas)
removed_clean_example =
    removed_clean 8 "admin" joined left (audit "node.delete" "admin" ∷ []) leaves

abbrev berlin_node : Node
berlin_node = node_of 200 drawn berlin

abbrev silenced : Store
silenced = put_node 8 (disabled 300 berlin_node) joined

silences : disable_node 300 8 "admin" joined ≡ ok (silenced, audit "node.disable" "admin" ∷ [])
unfolding disable_node
silences = refl

disabled_refused_example : get_node_by_token "t8" silenced ≡ raise 401
disabled_refused_example =
    disabled_refused 300 8 "admin" "t8" berlin_node joined silenced
      (audit "node.disable" "admin" ∷ []) refl refl (omega arith) (omega arith) silences
