-- ===== src/Apps/Scale.antt =====
-- `scale_app`: one more instance of an application, on this host or on another node.
pub mod Limit
use cloudbase.Prelude.{
  ℕ, zero, suc, ◌+◌, ◌-◌, ◌*◌, ◌≤◌, ◌<◌, min, max, String, ◌≡◌, refl, sym, ap, ◌∙◌, ◌≢◌, ◌↔◌, ◌⊎◌,
  inl, inr, Bool, true, false, not, ◌&&◌, ◌||◌, Option, none, some, List, [], ◌∷◌, ◌++◌, map, arith,
  str_eq, eq_iff, ltb, leb, ◌==◌, ==_iff, if◌then◌else◌, Bool-cases, Option-cases, some-eq, is_some,
  is_some-none, All, length, select, find, any, all, update_where, count_where, length-append, take,
  order_by, find-holds, has_text, starts_with, contains, lower, ends_with, text_length, strip,
  starts_with_comparable, starts_with_apart, starts_with_shorter, starts_with_of_eq, eq_apart,
}
use cloudbase.Prelude.Result.{
  Result, ok, raise, raise_if, is_ok, bind-ok, raise_if-ok, Result-cases,
}
use cloudbase.Nodes.{
  Json, null, bool, num, str, Dict, Node, DockerOptions, Application, Replica, Store,
}
use cloudbase.Apps.Work.{
  run_container, audit_app, Tx, ◌>>=◌, ◌>>◌, return, lift, act, raise_when, commit, read, write_app,
  write_replica, queue,
}
use cloudbase.Apps.Start.{
  running_on, running_before, http, failed, Started, refresh, start_instance_local,
}
use cloudbase.Apps.Runtime.{Host, num_of, remote_payload}
use cloudbase.Apps.Lifecycle.{get_or_404}
use cloudbase.Apps.Instances.{republish}
use cloudbase.Apps.Ports.{PortRange, assign_external_port}

pub record ScaleRequest : Type 0 where
  pub node_id : Option ℕ
  pub cpu_limit : Option ℕ
  pub memory_limit_mb : Option ℕ
  pub read_only_root : Option Bool
  pub tmpfs_enabled : Option Bool
  pub tmpfs_size_mb : Option ℕ

abbrev pub or_else {ℓ} : {A : Type ℓ} → Option A → A → A
or_else none d = d
or_else (some a) d = a

abbrev pub or_option {ℓ} : {A : Type ℓ} → Option A → Option A → Option A
or_option none d = d
or_option (some a) d = some a

-- `_instance_docker_options`: the request overrides the application.
abbrev pub instance_options : Application → ScaleRequest → DockerOptions
instance_options app req = record {
  cpu_limit = or_option req.cpu_limit app.docker.cpu_limit;
  memory_limit_mb = or_option req.memory_limit_mb app.docker.memory_limit_mb;
  read_only_root = or_else req.read_only_root app.docker.read_only_root;
  tmpfs_enabled = or_else req.tmpfs_enabled app.docker.tmpfs_enabled;
  tmpfs_size_mb = or_option req.tmpfs_size_mb app.docker.tmpfs_size_mb;
}

-- The options that the row of an instance on this host is given.
abbrev pub own_options : ScaleRequest → DockerOptions
own_options req = record {
  cpu_limit = req.cpu_limit;
  memory_limit_mb = req.memory_limit_mb;
  read_only_root = or_else req.read_only_root false;
  tmpfs_enabled = or_else req.tmpfs_enabled false;
  tmpfs_size_mb = req.tmpfs_size_mb;
}

abbrev pub no_options : DockerOptions
no_options = record {
  cpu_limit = none;
  memory_limit_mb = none;
  read_only_root = false;
  tmpfs_enabled = false;
  tmpfs_size_mb = none;
}

-- SQLite gives a new row the next number after the largest.
pub next_replica_id : List Replica → ℕ
next_replica_id [] = 1
next_replica_id (r ∷ rs) = max (suc r.id) (next_replica_id rs)

abbrev pub new_replica : ℕ → ℕ → ℕ → ℕ → Replica
new_replica id app_id node_id port = record {
  id = id;
  app_id = app_id;
  node_id = some node_id;
  external_port = some port;
  tunnel_port = none;
  container_id = null;
  status = "pending";
  last_error = null;
  docker = no_options;
}

-- The new row, which the session sees at once.
pub add_replica : ℕ → ℕ → ℕ → Tx Replica
unfolding next_replica_id
add_replica app_id node_id port w =
    let r = new_replica (next_replica_id w.tables.replicas) app_id node_id port in
    (ok r, record w { tables = record w.tables { replicas = w.tables.replicas ++ r ∷ [] } })

-- `d[key] = value`
abbrev pub set_key : String → Json → Dict → Dict
set_key key v [] = (key, v) ∷ []
set_key key v ((k, old) ∷ d) = if str_eq k key then (k, v) ∷ d else (k, old) ∷ set_key key v d

abbrev pub with_options : DockerOptions → Dict → Dict
with_options o d = set_key "docker_tmpfs_size_mb" (num_of o.tmpfs_size_mb) (
    set_key "docker_tmpfs_enabled" (bool o.tmpfs_enabled) (
      set_key "docker_read_only_root" (bool o.read_only_root) (
        set_key "docker_memory_limit_mb" (num_of o.memory_limit_mb)
          (set_key "docker_cpu_limit" (num_of o.cpu_limit) d))))

-- The node that the request names, which must be enabled, or this host.
abbrev pub target_node : Host → Option ℕ → Store → Result Node
target_node host none s = ok host.local
target_node host (some id) s = elim (find (λ n. n.id == id && n.enabled) s.nodes) [
  | none ↦ raise 400
  | some n ↦ ok n
]

abbrev pub record_failure : Json → Application → Replica → Tx Replica
record_failure message app r = do
  write_app app
  write_replica (record r { status = "error"; last_error = message })
  commit
  lift (raise 500)

-- The start on this host: any error is written to the row, committed, and raised again.
pub scaled_here : Host → Started → Tx Replica
scaled_here host (running_on cid port, app, r) = do
  act (run_container app.id r.id port)
  write_app app
  write_replica (record r { status = "running"; container_id = str cid })
  republish host app
  return (record r { status = "running"; container_id = str cid })
scaled_here host (running_before cid, app, r) = do
  write_app app
  write_replica (record r { status = "running"; container_id = str cid })
  republish host app
  return (record r { status = "running"; container_id = str cid })
scaled_here host (http code, app, r) = record_failure (str "") app r
scaled_here host (failed message, app, r) = record_failure (str message) app r

pub scaled_there : Host → Node → ScaleRequest → Application → ℕ → Replica → Tx Replica
scaled_there host node req app port r = do
  raise_when (not (str_eq node.status "online")) 400
  let app' = refresh host.revision app
  write_app app'
  queue host.now (host.key "start" r.id) node.id app.id "start_replica" (
      with_options (instance_options app' req) (remote_payload host app' port)
      ++ ("replica_id", num r.id) ∷ [])
  write_replica (record r { status = "starting" })
  return (record r { status = "starting" })

pub start_scaled : Host → Node → ScaleRequest → Application → ℕ → Replica → Tx Replica
unfolding scaled_here scaled_there
start_scaled host node req app port r =
    if node.is_local
    then scaled_here host (
        start_instance_local (host.docker r) host.image_tag app
          (record r { docker = own_options req }))
    else scaled_there host node req app port r

-- The part of `scale_app` after the limit: the node, the port and the new row.
pub scale_placed : Host → ℕ → ScaleRequest → Application → Node → ℕ → Tx Replica
unfolding start_scaled add_replica
scale_placed host app_id req app node port = do
  r ← add_replica app_id node.id port
  r' ← start_scaled host node req app port r
  act (audit_app "app.scale_up" app.name r'.id)
  commit
  return r'

abbrev pub scale_checked : Host → PortRange → ℕ → ScaleRequest → Store → Application → Tx Replica
scale_checked host range app_id req s app = do
  node ← lift (target_node host req.node_id s)
  port ← lift (assign_external_port range none node.id none s)
  scale_placed host app_id req app node port

-- `limit` is `limits.max_instances` of the configuration.
unfoldable pub scale_app : Host → PortRange → ℕ → ℕ → ScaleRequest → Tx Replica
unfolding scale_placed
scale_app host range limit app_id req = do
  app ← get_or_404 app_id
  s ← read
  raise_when (leb limit (length s.replicas)) 400
  scale_checked host range app_id req s app
