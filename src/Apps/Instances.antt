-- ===== src/Apps/Instances.antt =====
-- The handlers of one instance: a new one, the restart of one, and its removal.
use cloudbase.Prelude.{
  ℕ, String, not, ◌&&◌, Option, none, some, List, [], ◌∷◌, ◌++◌, str_eq, ◌==◌, if◌then◌else◌,
  select, find, has_text,
}
use cloudbase.Prelude.Result.{ok, raise}
use cloudbase.Nodes.{num, Node, Application, Replica, Store, node_with_id}
use cloudbase.Apps.Work.{
  stop_container, run_container, audit_app, Tx, ◌>>=◌, ◌>>◌, return, lift, act, when, commit, read,
  write_app, write_replica, queue,
}
use cloudbase.Apps.Start.{
  running_on, running_before, http, failed, Started, refresh, port_of, start_instance_local,
}
use cloudbase.Apps.Runtime.{
  Host, remote_payload, derive_app_status, running_replica, error_replica, queue_stop,
}
use cloudbase.Apps.Nginx.{has_public_domain, write_app_nginx_config}
use cloudbase.Apps.Lifecycle.{get_or_404, load_replicas}

-- The row of an instance of an application.
abbrev pub instance_of : ℕ → ℕ → Store → Option Replica
instance_of app_id id s = find (λ r. r.id == id && r.app_id == app_id) s.replicas

abbrev pub get_instance : ℕ → ℕ → Tx Replica
get_instance app_id id w =
    (elim (instance_of app_id id w.tables) [ none ↦ raise 404 | some r ↦ ok r ], w)

-- The row of the node of an instance, if it has one.
abbrev pub node_of : Store → Replica → Option Node
node_of s r = elim r.node_id [ none ↦ none | some k ↦ if k == 0 then none else node_with_id k s ]

-- The nginx configuration and the commit at the end.
abbrev pub republish : Host → Application → Tx (Unit {0})
republish host app = when (has_public_domain host app) (write_app_nginx_config host app none)

-- A failed start that raises no `HTTPException` is written to the row.
pub finish_restart : Started → Tx (Application × Replica)
finish_restart (running_on cid port, app, r) = do
  act (run_container app.id r.id port)
  write_app app
  write_replica (running_replica cid r)
  return (app, running_replica cid r)
finish_restart (running_before cid, app, r) = do
  write_app app
  write_replica (running_replica cid r)
  return (app, running_replica cid r)
finish_restart (http code, app, r) = lift (raise code)
finish_restart (failed message, app, r) = do
  write_app app
  write_replica (error_replica message r)
  return (app, error_replica message r)

pub restart_instance_here : Host → Application → Replica → Tx (Application × Replica)
unfolding finish_restart
restart_instance_here host app r = do
  when (str_eq r.status "running") (act (stop_container app.id r.id))
  finish_restart (start_instance_local (host.docker r) host.image_tag app r)

pub restart_instance_there : Host → Node → Application → Replica → Tx (Application × Replica)
restart_instance_there host node app r = do
  queue_stop host node app r
  let app' = refresh host.revision app
  write_app app'
  queue host.now (host.key "start" r.id) node.id app.id "start_replica"
      (remote_payload host app' (port_of app' r) ++ ("replica_id", num r.id) ∷ [])
  write_replica (record r { status = "starting" })
  return (app', record r { status = "starting" })

pub restart_on : Host → Application → Replica → Option Node → Tx (Application × Replica)
unfolding restart_instance_here restart_instance_there
restart_on host app r none = restart_instance_here host app r
restart_on host app r (some node) =
    if node.is_local
    then restart_instance_here host app r
    else if str_eq node.status "online"
    then restart_instance_there host node app r
    else lift (raise 400)

-- `restart_instance`
unfoldable pub restart_instance : Host → ℕ → ℕ → Tx Replica
unfolding restart_on
restart_instance host app_id id = do
  app ← get_or_404 app_id
  r ← get_instance app_id id
  s ← read
  (app', r') ← restart_on host app r (node_of s r)
  act (audit_app "instance.restart" app'.name app'.id)
  republish host app'
  commit
  return r'

-- What a removal stops: a container of this host, or one of another node, which is told even while it
-- is offline.
pub stop_removed : Host → Application → Replica → Option Node → Tx (Unit {0})
stop_removed host app r none =
    when (not (has_text r.status ("stopped" ∷ "error" ∷ []))) (act (stop_container app.id r.id))
stop_removed host app r (some node) =
    if node.is_local
    then when (not (has_text r.status ("stopped" ∷ "error" ∷ [])))
        (act (stop_container app.id r.id))
    else when (not (has_text r.status ("stopped" ∷ "error" ∷ "deploying" ∷ [])))
        (queue_stop host node app r)

abbrev pub delete_row : ℕ → Tx (Unit {0})
delete_row id w = (
  ok tt,
  record w {
    tables = record w.tables { replicas = select (λ r. not (r.id == id)) w.tables.replicas };
  },
)

abbrev pub status_of_rows : List Replica → String
unfolding derive_app_status
status_of_rows [] = "stopped"
status_of_rows (r ∷ rs) = derive_app_status (r ∷ rs)

-- `delete_instance`
unfoldable pub delete_instance : Host → ℕ → ℕ → Tx (Unit {0})
unfolding stop_removed status_of_rows
delete_instance host app_id id = do
  app ← get_or_404 app_id
  r ← get_instance app_id id
  s ← read
  stop_removed host app r (node_of s r)
  delete_row r.id
  rows ← load_replicas app_id
  let app' = record app { status = status_of_rows rows }
  write_app app'
  republish host app'
  act (audit_app "instance.delete" app.name app.id)
  commit
