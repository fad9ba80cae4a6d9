-- ===== src/Apps/Recovery.antt =====
-- backend/routers/nodes.py: the instances of a node that came back are started again.
use cloudbase.Prelude.{
  ℕ, String, Bool, false, not, ◌&&◌, Option, none, some, List, [], ◌∷◌, ◌++◌, str_eq, ◌==◌, select,
  any, has_text, contains,
}
use cloudbase.Nodes.{null, num, Dict, NodeCommand, Application, Replica, app_with_id}
use cloudbase.Apps.Work.{
  Tx, ◌>>=◌, ◌>>◌, return, when, commit, read, write_app, write_replica, queue,
}
use cloudbase.Apps.Start.{refresh, port_of}
use cloudbase.Apps.Runtime.{Host, remote_payload, error_replica}

-- How a payload is stored as a text, `json.dumps`, and how a number is written.
pub record Printer : Type 0 where
  pub dumps : Dict → String
  pub mention : ℕ → String

-- A pending command whose payload mentions the instance: `LIKE '%"replica_id": {id}%'`, where
-- `mention` writes the text between the wildcards.
abbrev pub is_pending : Printer → ℕ → ℕ → NodeCommand → Bool
is_pending printer node_id id c =
    c.node_id == node_id
    && str_eq c.command_type "start_replica"
    && has_text c.status ("queued" ∷ "in_progress" ∷ [])
    && contains (printer.dumps c.payload) (printer.mention id)

abbrev pub recovered : Replica → Replica
recovered r = record r { status = "starting"; tunnel_port = none; last_error = null }

pub restart_on_node : Host → ℕ → Replica → Application → Tx (Unit {0})
restart_on_node host node_id r app = do
  let app' = refresh host.revision app
  write_app app'
  write_replica (recovered r)
  commit
  queue host.now (host.key "recover" r.id) node_id app.id "start_replica"
      (remote_payload host app' (port_of app' r) ++ ("replica_id", num r.id) ∷ [])

pub recover_known : Host → ℕ → Replica → Option Application → Tx (Unit {0})
unfolding restart_on_node
recover_known host node_id r none = do
  write_replica (error_replica "App not found during node recovery" r)
  commit
recover_known host node_id r (some app) = restart_on_node host node_id r app

abbrev pub recover_one : Printer → Host → ℕ → Replica → Tx (Unit {0})
recover_one printer host node_id r = do
  s ← read
  when (not (any (is_pending printer node_id r.id) s.commands))
      (recover_known host node_id r (app_with_id r.app_id s))

pub recover_each : Printer → Host → ℕ → List Replica → Tx (Unit {0})
unfolding recover_known
recover_each printer host node_id [] = return tt
recover_each printer host node_id (r ∷ rs) =
    recover_one printer host node_id r >>= λ done. recover_each printer host node_id rs

abbrev pub is_lost : ℕ → Replica → Bool
is_lost node_id r =
    elim r.node_id [ none ↦ false | some k ↦ k == node_id ] && str_eq r.status "node_offline"

-- `recover_node_replicas`
unfoldable pub recover_node_replicas : Printer → Host → ℕ → Tx (Unit {0})
unfolding recover_each
recover_node_replicas printer host node_id = do
  s ← read
  recover_each printer host node_id (select (is_lost node_id) s.replicas)
