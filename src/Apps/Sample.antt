-- ===== src/Apps/Sample.antt =====
-- A host, a second node that is offline, and an application with an instance on each, for the tests.
use cloudbase.Prelude.{ℕ, String, Bool, true, false, none, some, [], ◌∷◌, ◌==◌}
use cloudbase.Nodes.{Node, Replica, Store, end}
use cloudbase.Nodes.Sample.{web, web_replica}
use cloudbase.Apps.Work.{Work}
use cloudbase.Apps.Start.{started, refused, Build, Docker}
use cloudbase.Apps.Runtime.{Host}
use cloudbase.Apps.Ports.{PortRange}
use cloudbase.Apps.Scale.{ScaleRequest}

abbrev node_row : ℕ → Bool → String → Node
node_row id is_local status = record {
  id = id;
  name = "node";
  role = "worker";
  status = status;
  api_base_url = none;
  public_host = none;
  auth_token = none;
  is_local = is_local;
  enabled = true;
  capabilities = [];
  metadata_json = [];
  heartbeat_interval = 15;
  last_seen = none;
  offline_since = none;
  connection_type = none;
}

abbrev pub local_node : Node
local_node = node_row 1 true "online"

abbrev pub far_node : Node
far_node = node_row 7 false "offline"

abbrev built : Build
built = record { works = true; revision = none }

-- The port 8000 is taken by another container, and the port after it by another program.
abbrev pub conflict : Docker
conflict = record {
  desired_revision = none;
  first_build = built;
  second_build = built;
  first_run = λ p. refused "Bind for 0.0.0.0:65530 failed: port is already allocated";
  second_run = λ p. started "c1";
  third_run = λ p. started "c2";
  busy = λ p. p == 65531;
}

abbrev free_docker : Docker
free_docker = record {
  desired_revision = none;
  first_build = built;
  second_build = built;
  first_run = λ p. started "c1";
  second_run = λ p. started "c2";
  third_run = λ p. started "c3";
  busy = λ p. false;
}

abbrev pub host : Host
host = record {
  now = 1000;
  base_domain = "example.org";
  local = local_node;
  docker = λ r. free_docker;
  image_tag = "cloudbase-web";
  key = λ kind id. kind;
  env_vars = end;
  github_token = none;
  revision = none;
  legacy_running = false;
  pages_written = true;
  nginx_written = true;
}

abbrev pub here : Replica
here = record web_replica { node_id = some 1; external_port = some 65530; status = "stopped" }

abbrev pub there : Replica
there = record web_replica { id = 6; status = "stopped" }

abbrev pub tables : Store
tables = record {
  nodes = local_node ∷ far_node ∷ [];
  invites = [];
  commands = [];
  apps = web ∷ [];
  replicas = here ∷ there ∷ [];
}

abbrev pub work : Work
work = record { saved = tables; tables = tables; transitions = []; actions = [] }

abbrev pub range : PortRange
range = record { active = λ p. p == 8000; first = 8000; last = 8003 }

abbrev pub anywhere : ScaleRequest
anywhere = record {
  node_id = none;
  cpu_limit = none;
  memory_limit_mb = none;
  read_only_root = none;
  tmpfs_enabled = none;
  tmpfs_size_mb = none;
}
