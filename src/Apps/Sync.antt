-- ===== src/Apps/Sync.antt =====
-- `_sync_process_status`: the rows follow what runs on this host.
use cloudbase.Prelude.{
  ℕ, Bool, false, not, ◌&&◌, Option, none, some, [], ◌∷◌, str_eq, ltb, ◌==◌, if◌then◌else◌, length,
  update_where, has_text,
}
use cloudbase.Nodes.{str, Application, Replica, Store, node_with_id}
use cloudbase.Apps.Work.{set_app, or_num, app_replicas}
use cloudbase.Apps.Runtime.{derive_app_status}

-- What the host says: which containers and processes run, the age of a row, the process behind a port,
-- and whether the application is one of docker, a column that is not modelled.
pub record Machine : Type 0 where
  pub container_runs : Replica → Bool
  pub app_runs : Application → Bool
  pub process_runs : ℕ → Bool
  pub age : Replica → ℕ
  pub process_on : ℕ → Option ℕ
  pub uses_docker : Bool

abbrev pub is_remote_row : Store → Replica → Bool
is_remote_row s r = elim r.node_id [
  | none ↦ false
  | some k ↦ not (k == 0) && elim (node_with_id k s) [ none ↦ false | some n ↦ not n.is_local ]
]

abbrev pub timed_out : Replica → Replica
timed_out r = record r { status = "error"; last_error = str "Timed out" }

-- One instance as it should be; the text of the timeout is shortened.
abbrev pub observed : Machine → Replica → Replica
observed machine r =
    if has_text r.status ("deploying" ∷ "starting" ∷ [])
    then if ltb 600 (machine.age r) then timed_out r else r
    else if str_eq r.status "stopping"
    then r
    else record r { status = if machine.container_runs r then "running" else "stopped" }

abbrev pub sync_row : Machine → Store → Replica → Replica
sync_row machine s r = if is_remote_row s r then r else observed machine r

pub sync_rows : Machine → Application → Store → Store
unfolding derive_app_status
sync_rows machine app s =
    let rows = update_where (λ r. r.app_id == app.id) (sync_row machine s) s.replicas in
    let s' = record s { replicas = rows } in
    set_app (record app { status = derive_app_status (app_replicas app.id s') }) s'

-- An application without instances: its container, or its process, which may be found by its port.
abbrev pub by_port : Machine → Application → Application
by_port machine app = elim app.port [
  | none ↦ record app { status = "stopped"; pid = none }
  | some p ↦ elim (if p == 0 then none else machine.process_on p) [
    | none ↦ record app { status = "stopped"; pid = none }
    | some found ↦
        if found == 0
        then record app { status = "stopped"; pid = none }
        else record app { status = "running"; pid = some found }
  ]
]

abbrev pub sync_process : Machine → Application → Application
sync_process machine app =
    if or_num app.pid 0 == 0
    then app
    else if machine.process_runs (or_num app.pid 0)
    then record app { status = "running" }
    else by_port machine app

abbrev pub sync_single : Machine → Application → Application
sync_single machine app =
    if machine.uses_docker
    then record app { status = if machine.app_runs app then "running" else "stopped" }
    else sync_process machine app

-- `here` is whether the node of the application is this host.
unfoldable pub sync_process_status : Machine → Bool → Application → Store → Store
unfolding sync_rows
sync_process_status machine here app s =
    if not here
    then s
    else if length (app_replicas app.id s) == 0
    then set_app (sync_single machine app) s
    else sync_rows machine app s
