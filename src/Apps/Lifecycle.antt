-- ===== src/Apps/Lifecycle.antt =====
-- The handlers that start, stop and restart all instances of an application.
pub mod Derived
pub mod Settled
pub mod Handlers
pub mod Loops
use cloudbase.Prelude.{
  ℕ, zero, suc, ◌+◌, ◌-◌, ◌*◌, ◌≤◌, ◌<◌, min, max, String, ◌≡◌, refl, sym, ap, ◌∙◌, ◌≢◌, ◌↔◌, ◌⊎◌,
  inl, inr, Bool, true, false, not, ◌&&◌, ◌||◌, Option, none, some, List, [], ◌∷◌, ◌++◌, map, arith,
  str_eq, eq_iff, ltb, leb, ◌==◌, ==_iff, if◌then◌else◌, Bool-cases, Option-cases, some-eq, is_some,
  is_some-none, All, length, select, find, any, all, update_where, count_where, length-append, take,
  order_by, find-holds, has_text, starts_with, contains, lower, ends_with, text_length, strip,
  starts_with_comparable, starts_with_apart, starts_with_shorter, starts_with_of_eq, eq_apart,
}
use cloudbase.Prelude.Result.{
  Result, ok, raise, raise_if, is_ok, bind-ok, raise_if-ok, Result-cases,
}
use cloudbase.Nodes.{Node, Application, Replica, Store, app_with_id}
use cloudbase.Apps.Work.{
  stop_legacy, stop_container, restore_later, audit_app, Tx, ◌>>=◌, ◌>>◌, return, act, when,
  raise_when, commit, read, write_app, write_replica, app_replicas,
}
use cloudbase.Apps.Runtime.{
  Host, derive_app_status, error_replica, cleared_replica, reachable, replica_node, start_remote,
  start_replica_runtime, stop_replica_runtime, queue_stop,
}
use cloudbase.Apps.Start.{refresh}
use cloudbase.Apps.Nginx.{has_public_domain, set_transition, write_app_nginx_config}

-- `_get_or_404`
abbrev pub get_or_404 : ℕ → Tx Application
get_or_404 id w = (elim (app_with_id id w.tables) [ none ↦ raise 404 | some a ↦ ok a ], w)

abbrev pub load_replicas : ℕ → Tx (List Replica)
load_replicas app_id w = (ok (app_replicas app_id w.tables), w)

-- `_has_live_replicas`
abbrev pub is_live : Replica → Bool
is_live r = has_text r.status ("running" ∷ "starting" ∷ "restarting" ∷ [])

-- What a restart or a stop finds to stop.
abbrev pub to_stop : Replica → Bool
to_stop r =
    has_text r.status ("running" ∷ "starting" ∷ "restarting" ∷ "stopping" ∷ "node_offline" ∷ [])

abbrev pub to_start : Replica → Bool
to_start r =
    not (is_live r) && has_text r.status ("stopped" ∷ "error" ∷ "pending" ∷ "node_offline" ∷ [])

-- `_best_effort_stop_legacy_app_container`
abbrev pub stop_legacy_container : Host → ℕ → Tx (Unit {0})
stop_legacy_container host app_id = when host.legacy_running (act (stop_legacy app_id))

-- The page that visitors see until the instances answer.
abbrev pub shows_page : Host → Application → Bool
shows_page host app = has_public_domain host app && not app.maintenance_mode && not app.update_mode

abbrev pub begin_page : Host → Application → String → Tx (Unit {0})
begin_page host app mode = do
  set_transition app.id mode host.now
  write_app_nginx_config host app (some mode)

-- The application takes the status of its instances, as they are now.
pub settle : Host → Bool → Application → Tx Application
unfolding derive_app_status
settle host page app = do
  rows ← load_replicas app.id
  let app' = record app { status = derive_app_status rows; pid = none }
  write_app app'
  when (has_public_domain host app' && not page) (write_app_nginx_config host app' none)
  return app'

-- The end of a handler: the audit log, the commit, and the task that takes the page away.
abbrev pub finish : Host → Bool → String → String → Application → Tx Application
finish host page event label app = do
  act (audit_app event app.name app.id)
  commit
  when page (act (restore_later app.id host.now label))
  return app

-- One instance of a start, and the loop over them.
abbrev pub start_one : Host → Store → Application → Replica → Tx Application
start_one host s app r w =
    if to_start r then start_replica_runtime host app r (replica_node host s r) w else (ok app, w)

pub start_all : Host → Store → Application → List Replica → Tx Application
start_all host s app [] = return app
start_all host s app (r ∷ rs) = start_one host s app r >>= λ app'. start_all host s app' rs

-- The part of `start_app` after the page, and after the checks.
abbrev pub start_instances : Host → Bool → Application → List Replica → Tx Application
start_instances host page app rows = do
  stop_legacy_container host app.id
  s ← read
  started ← start_all host s (refresh host.revision app) rows
  settled ← settle host page started
  finish host page "app.start" "start" settled

abbrev pub start_checked : Host → Application → List Replica → Tx Application
start_checked host app rows = do
  raise_when (length rows == 0) 400
  let page = not (any is_live rows) && shows_page host app
  when page (begin_page host app "starting")
  start_instances host page app rows

-- `start_app`
unfoldable pub start_app : Host → ℕ → Tx Application
unfolding settle start_all start_replica_runtime write_app_nginx_config
start_app host app_id = do
  app ← get_or_404 app_id
  rows ← load_replicas app_id
  start_checked host app rows

abbrev pub stop_one : Host → Store → Application → Replica → Tx (Unit {0})
stop_one host s app r = when (to_stop r) (stop_replica_runtime host app r (replica_node host s r))

pub stop_all : Host → Store → Application → List Replica → Tx (Unit {0})
stop_all host s app [] = return tt
stop_all host s app (r ∷ rs) = stop_one host s app r >>= λ done. stop_all host s app rs

-- An application without instances is stopped at once.
abbrev pub stop_empty : Host → Application → Tx Application
stop_empty host app = do
  let app' = record app { status = "stopped"; pid = none }
  write_app app'
  when (has_public_domain host app') (write_app_nginx_config host app' none)
  return app'

abbrev pub stop_found : Host → Application → List Replica → Tx Application
stop_found host app rows =
    if length rows == 0
    then stop_empty host app
    else read >>= λ s. stop_all host s app rows >>= λ done. settle host false app

-- `stop_app`
unfoldable pub stop_app : Host → ℕ → Tx Application
unfolding settle stop_all stop_replica_runtime write_app_nginx_config
stop_app host app_id = do
  app ← get_or_404 app_id
  rows ← load_replicas app_id
  stop_legacy_container host app_id
  settled ← stop_found host app rows
  finish host false "app.stop" "stop" settled

-- One instance of a restart: on this host its container is stopped and started, on another node the
-- commands for both are queued.
abbrev pub restart_here : Host → Node → Application → Replica → Tx Application
restart_here host node app r = do
  when (to_stop r) (act (stop_container app.id r.id))
  write_replica (cleared_replica r)
  start_replica_runtime host app (cleared_replica r) (some node)

abbrev pub restart_remote : Host → Node → Application → Replica → Tx Application
restart_remote host node app r = do
  when (to_stop r) (queue_stop host node app r)
  start_remote host node app r

pub restart_one : Host → Application → Replica → Option Node → Tx Application
restart_one host app r none = do
  write_replica (error_replica "Replica node not found" r)
  return app
restart_one host app r (some node) =
    if node.is_local
    then restart_here host node app r
    else if reachable node
    then restart_remote host node app r
    else (do write_replica (error_replica "Node is offline" r); return app)

pub restart_all : Host → Store → Application → List Replica → Tx Application
unfolding restart_one
restart_all host s app [] = return app
restart_all host s app (r ∷ rs) =
    restart_one host app r (replica_node host s r) >>= λ app'. restart_all host s app' rs

abbrev pub restart_instances : Host → Bool → Application → List Replica → Tx Application
restart_instances host page app rows = do
  stop_legacy_container host app.id
  s ← read
  restarted ← restart_all host s app rows
  settled ← settle host page restarted
  finish host page "app.restart" "restart" settled

abbrev pub restart_checked : Host → Application → List Replica → Tx Application
restart_checked host app rows = do
  raise_when (length rows == 0) 400
  let page = any is_live rows && shows_page host app
  when page (begin_page host app "restart")
  restart_instances host page app rows

-- `restart_app`
unfoldable pub restart_app : Host → ℕ → Tx Application
unfolding settle restart_all start_replica_runtime write_app_nginx_config
restart_app host app_id = do
  app ← get_or_404 app_id
  rows ← load_replicas app_id
  restart_checked host app rows
