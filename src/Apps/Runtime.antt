-- ===== src/Apps/Runtime.antt =====
-- What the handlers do to one instance, and to the nginx configuration of its application.
pub mod Stable
pub mod Status
use cloudbase.Prelude.{
  ℕ, zero, suc, ◌+◌, ◌-◌, ◌*◌, ◌≤◌, ◌<◌, min, max, String, ◌≡◌, refl, sym, ap, ◌∙◌, ◌≢◌, ◌↔◌, ◌⊎◌,
  inl, inr, Bool, true, false, not, ◌&&◌, ◌||◌, Option, none, some, List, [], ◌∷◌, ◌++◌, map, arith,
  str_eq, eq_iff, ltb, leb, ◌==◌, ==_iff, if◌then◌else◌, Bool-cases, Option-cases, some-eq, is_some,
  is_some-none, All, length, select, find, any, all, update_where, count_where, length-append, take,
  order_by, find-holds, has_text, starts_with, contains, lower, ends_with, text_length, strip,
  starts_with_comparable, starts_with_apart, starts_with_shorter, starts_with_of_eq, eq_apart,
}
use cloudbase.Prelude.Result.{
  Result, ok, raise, raise_if, is_ok, bind-ok, raise_if-ok, Result-cases,
}
use cloudbase.Nodes.{
  Json, null, bool, num, str, object, Fields, end, field, Dict, json_of, Node, Application, Replica,
  Store, node_with_id,
}
use cloudbase.Apps.Work.{
  stop_container, run_container, Tx, ◌>>◌, return, lift, act, write_app, write_replica, queue,
  or_num, or_text,
}
use cloudbase.Apps.Start.{
  Docker, running_on, running_before, http, failed, Started, refresh, port_of, start_instance_local,
}

-- What a handler finds around it, besides the tables: the clock of the event loop, the base domain of
-- the settings, the row of this host, what docker answers for an instance, the random keys of commands,
-- the decrypted variables and token of the application, the revision of its sources, and whether its
-- pages and its nginx configuration can be written.
pub record Host : Type 0 where
  pub now : ℕ
  pub base_domain : String
  pub local : Node
  pub docker : Replica → Docker
  pub image_tag : String
  pub key : String → ℕ → String
  pub env_vars : Fields
  pub github_token : Option String
  pub revision : Option String
  pub legacy_running : Bool
  pub pages_written : Bool
  pub nginx_written : Bool

abbrev pub num_of : Option ℕ → Json
num_of none = null
num_of (some n) = num n

-- `_docker_runtime_options`
abbrev pub docker_runtime_options : Application → Fields
docker_runtime_options app = field "cpu_limit" (num_of app.docker.cpu_limit) (
    field "memory_limit_mb" (num_of app.docker.memory_limit_mb) (
      field "read_only_root" (bool app.docker.read_only_root) (
        field "tmpfs_enabled" (bool app.docker.tmpfs_enabled) (
          field "tmpfs_size_mb" (num_of app.docker.tmpfs_size_mb)
            (field "restart_policy" (str (or_text app.restart_policy "no")) end)))))

-- `detect_app_type_from_command` of backend/process_manager.py
abbrev pub begins_any : String → List String → Bool
begins_any cmd prefixes = any (λ p. starts_with cmd p) prefixes

pub type_of_command : String → String
type_of_command cmd =
    if starts_with cmd "node "
      || contains cmd "npm "
      || str_eq cmd "npm start"
      || starts_with cmd "npx "
    then "nodejs"
    else if begins_any cmd ("python" ∷ "python3" ∷ "uvicorn" ∷ "gunicorn" ∷ "flask" ∷ [])
    then "python"
    else if begins_any cmd ("ruby" ∷ "bundle exec ruby" ∷ "rails" ∷ [])
    then "ruby"
    else if begins_any cmd ("go run" ∷ "go build" ∷ "./ " ∷ [])
    then "go"
    else if begins_any cmd ("php" ∷ "composer" ∷ [])
    then "php"
    else if begins_any cmd ("java" ∷ "mvn" ∷ "gradle" ∷ [])
    then "java"
    else if starts_with cmd "dotnet" || ends_with cmd ".exe"
    then "dotnet"
    else "unknown"

unfoldable pub detect_app_type_from_command : String → String
unfolding type_of_command
detect_app_type_from_command cmd = type_of_command (lower (strip cmd))

abbrev pub start_command_of : Application → String
start_command_of app = or_text app.start_command ""

-- `_remote_replica_command_payload`, after it has looked at the sources' revision.
pub remote_payload : Host → Application → ℕ → Dict
unfolding detect_app_type_from_command
remote_payload host app external_port =
    ("app_id", num app.id)
    ∷ ("app_name", str app.name)
    ∷ ("repo_url", str app.repo_url)
    ∷ ("github_token", json_of host.github_token)
    ∷ ("app_type", str (or_text app.app_type (detect_app_type_from_command (start_command_of app))))
    ∷ ("start_command", json_of app.start_command)
    ∷ ("internal_port", num (or_num app.port 8000))
    ∷ ("external_port", num external_port)
    ∷ ("env_vars", object host.env_vars)
    ∷ ("restart_policy", json_of app.restart_policy)
    ∷ ("docker_cpu_limit", num_of app.docker.cpu_limit)
    ∷ ("docker_memory_limit_mb", num_of app.docker.memory_limit_mb)
    ∷ ("docker_read_only_root", bool app.docker.read_only_root)
    ∷ ("docker_tmpfs_enabled", bool app.docker.tmpfs_enabled)
    ∷ ("docker_tmpfs_size_mb", num_of app.docker.tmpfs_size_mb)
    ∷ ("docker_options", object (docker_runtime_options app))
    ∷ ("source_revision", json_of host.revision)
    ∷ []

-- `_derive_app_status_from_instances`
abbrev pub has_status : String → List Replica → Bool
has_status status rs = any (λ r. str_eq r.status status) rs

abbrev pub first_status : List String → List Replica → Option String
first_status [] rs = none
first_status (s ∷ ss) rs = let rest = first_status ss rs in if has_status s rs then some s else rest

abbrev pub at_rest : Replica → Bool
at_rest r = has_text r.status ("stopped" ∷ "error" ∷ "pending" ∷ [])

abbrev pub rest_status : List Replica → String
rest_status rs = if all at_rest rs && has_status "error" rs then "error" else "stopped"

unfoldable pub derive_app_status : List Replica → String
derive_app_status rs =
    elim (first_status ("running" ∷ "starting" ∷ "restarting" ∷ "stopping" ∷ "deploying" ∷ []) rs) [
      | some s ↦ s
      | none ↦ rest_status rs
    ]

abbrev pub error_replica : String → Replica → Replica
error_replica message r = record r { status = "error"; last_error = str message }

abbrev pub running_replica : String → Replica → Replica
running_replica cid r = record r { status = "running"; container_id = str cid; last_error = null }

abbrev pub starting_replica : Replica → Replica
starting_replica r = record r { status = "starting"; last_error = null }

abbrev pub cleared_replica : Replica → Replica
cleared_replica r = record r { status = "stopped"; container_id = null; tunnel_port = none }

abbrev pub reachable : Node → Bool
reachable n = str_eq n.status "online" && n.enabled

-- `_resolve_replica_node`, with the map of the nodes' rows.
abbrev pub is_node : ℕ → Option ℕ → Bool
is_node id none = true
is_node id (some k) = k == id

abbrev pub replica_node : Host → Store → Replica → Option Node
replica_node host s r =
    if is_node host.local.id r.node_id
    then some host.local
    else elim r.node_id [ none ↦ none | some k ↦ node_with_id k s ]

-- The rows after `_start_instance_local`, which raises unless a container runs.
pub finish_start : Started → Tx Application
finish_start (running_on cid port, app, r) = do
  act (run_container app.id r.id port)
  write_app app
  write_replica (running_replica cid r)
  return app
finish_start (running_before cid, app, r) = do
  write_app app
  write_replica (running_replica cid r)
  return app
finish_start (http code, app, r) = lift (raise code)
finish_start (failed message, app, r) = lift (raise 500)

-- The command that starts an instance on another node.
pub start_remote : Host → Node → Application → Replica → Tx Application
unfolding remote_payload
start_remote host node app r = do
  let app' = refresh host.revision app
  write_app app'
  queue host.now (host.key "start" r.id) node.id app.id "start_replica"
      (remote_payload host app' (port_of app' r) ++ ("replica_id", num r.id) ∷ [])
  write_replica (starting_replica r)
  return app'

-- `_start_replica_runtime`
unfoldable pub start_replica_runtime : Host → Application → Replica → Option Node → Tx Application
unfolding finish_start start_remote
start_replica_runtime host app r none = do
  write_replica (error_replica "Replica node not found" r)
  return app
start_replica_runtime host app r (some node) =
    if node.is_local
    then finish_start (start_instance_local (host.docker r) host.image_tag app r)
    else if reachable node
    then start_remote host node app r
    else (do write_replica (error_replica "Node is offline" r); return app)

abbrev pub stop_payload : Application → Replica → Dict
stop_payload app r =
    ("app_id", num app.id) ∷ ("replica_id", num r.id) ∷ ("app_name", str app.name) ∷ []

abbrev pub queue_stop : Host → Node → Application → Replica → Tx (Unit {0})
queue_stop host node app r =
    queue host.now (host.key "stop" r.id) node.id app.id "stop_replica" (stop_payload app r)

abbrev pub stopped_clean : Replica → Replica
stopped_clean r = record (cleared_replica r) { last_error = null }

abbrev pub stop_here : Application → Replica → Tx (Unit {0})
stop_here app r = do act (stop_container app.id r.id); write_replica (stopped_clean r)

-- `_stop_replica_runtime`
unfoldable pub stop_replica_runtime : Host → Application → Replica → Option Node → Tx (Unit {0})
stop_replica_runtime host app r none = stop_here app r
stop_replica_runtime host app r (some node) =
    if node.is_local
    then stop_here app r
    else if reachable node
    then (do
      queue_stop host node app r
      write_replica (record r { status = "stopping"; last_error = null }))
    else write_replica (stopped_clean r)
