-- ===== src/Nodes/Sample.antt =====
-- Tables with two commands queued for one node, for the tests.
use cloudbase.Prelude.{false, none, some, [], ◌∷◌}
use cloudbase.Nodes.{num, null, NodeCommand, DockerOptions, Application, Replica, Store}
use cloudbase.Nodes.Queue.{new_command}

abbrev pub start_web : NodeCommand
start_web = new_command 20 1 "k1" 7 "start_app" [] (some 3)

abbrev pub start_replica : NodeCommand
start_replica = new_command 10 2 "k2" 7 "start_replica" (("replica_id", num 5) ∷ []) (some 3)

abbrev pub elsewhere : NodeCommand
elsewhere = new_command 5 3 "k3" 8 "start_app" [] (some 4)

abbrev pub no_limits : DockerOptions
no_limits = record {
  cpu_limit = none;
  memory_limit_mb = none;
  read_only_root = false;
  tmpfs_enabled = false;
  tmpfs_size_mb = none;
}

abbrev pub web : Application
web = record {
  id = 3;
  name = "web";
  repo_url = "https://example.org/web.git";
  domain = none;
  extra_domains = [];
  redirect_domains = [];
  app_type = none;
  start_command = some "python3 main.py";
  port = some 8000;
  external_port = none;
  pid = none;
  node_id = some 7;
  status = "starting";
  working_dir = null;
  last_error = null;
  nginx_enabled = false;
  restart_policy = none;
  docker_image = none;
  source_revision = none;
  image_revision = none;
  docker = no_limits;
  no_web = false;
  maintenance_mode = false;
  update_mode = false;
  updated_at = 0;
}

abbrev pub web_replica : Replica
web_replica = record {
  id = 5;
  app_id = 3;
  node_id = some 7;
  external_port = none;
  tunnel_port = none;
  container_id = null;
  status = "pending";
  last_error = null;
  docker = no_limits;
}

abbrev pub sample : Store
sample = record {
  nodes = [];
  invites = [];
  commands = start_web ∷ start_replica ∷ elsewhere ∷ [];
  apps = web ∷ [];
  replicas = web_replica ∷ [];
}
