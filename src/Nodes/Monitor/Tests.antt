-- ===== src/Nodes/Monitor/Tests.antt =====
-- A check that finds one stale node.
use cloudbase.Prelude.{◌≡◌, refl, true, false, none, some, [], ◌∷◌, map}
use cloudbase.Nodes.{Node, Replica, Store}
use cloudbase.Nodes.Monitor.{monitored, down, mark_stale_nodes_offline}
use cloudbase.Nodes.Monitor.Replicas.{lowered, stale_replicas_down}
use cloudbase.Nodes.Sample.{web_replica, sample}

abbrev paris : Node
paris = record {
  id = 7;
  name = "paris";
  role = "node";
  status = "online";
  api_base_url = none;
  public_host = none;
  auth_token = some "t7";
  is_local = false;
  enabled = true;
  capabilities = [];
  metadata_json = [];
  heartbeat_interval = 15;
  last_seen = some 1000000;
  offline_since = none;
  connection_type = some "websocket";
}

abbrev serving : Replica
serving = record web_replica { status = "running"; tunnel_port = some 9100 }

abbrev watched : Store
watched = record sample { nodes = paris ∷ []; replicas = serving ∷ web_replica ∷ [] }

stale_replicas_down_example :
    (mark_stale_nodes_offline 31000001 watched).0.replicas
    ≡ map (lowered 31000001 (monitored watched)) (serving ∷ web_replica ∷ [])
stale_replicas_down_example = stale_replicas_down 31000001 watched

after-eq :
    map (lowered 31000001 (monitored watched)) watched.replicas ≡ down serving ∷ web_replica ∷ []
after-eq = refl
