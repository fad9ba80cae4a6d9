-- ===== src/Nodes/Monitor.antt =====
-- backend/routers/nodes.py: the check that takes nodes offline whose heartbeat stopped.
pub mod Replicas
mod Tests
use cloudbase.Prelude.{
  ℕ, zero, suc, ◌+◌, ◌-◌, ◌*◌, ◌≤◌, ◌<◌, min, max, String, ◌≡◌, refl, sym, ap, ◌∙◌, ◌≢◌, ◌↔◌, ◌⊎◌,
  inl, inr, Bool, true, false, not, ◌&&◌, ◌||◌, Option, none, some, List, [], ◌∷◌, ◌++◌, map, arith,
  str_eq, eq_iff, ltb, leb, ◌==◌, ==_iff, if◌then◌else◌, Bool-cases, Option-cases, some-eq, is_some,
  is_some-none, All, length, select, find, any, all, update_where, count_where, length-append, take,
  order_by, find-holds, has_text, starts_with, contains, text_length, strip, starts_with_comparable,
  starts_with_apart, starts_with_shorter, starts_with_of_eq, eq_apart,
}
use cloudbase.Prelude.Result.{Result, ok, raise, ◌>>=◌, ◌>>◌, raise_if, is_ok, bind-ok, raise_if-ok}
use cloudbase.Nodes.{Node, Replica, Store, Effect, node_offline}
use cloudbase.Nodes.Registry.{stands_on, since}

-- Times are whole microseconds. A clock that went back counts as no time.
abbrev pub silent_for : ℕ → Option ℕ → ℕ → Bool
silent_for now none interval = false
silent_for now (some seen) interval = ltb (max (interval * 2) 20 * 1000000) (now - seen)

abbrev pub is_stale : ℕ → Node → Bool
is_stale now n = silent_for now n.last_seen n.heartbeat_interval && not (str_eq n.status "offline")

abbrev pub is_live : Replica → Bool
is_live r = has_text r.status ("running" ∷ "starting" ∷ [])

abbrev pub offline_node : ℕ → Node → Node
offline_node now n = record n {
  status = "offline";
  offline_since = since now n.offline_since;
  connection_type = none;
}

abbrev pub down : Replica → Replica
down r = record r { status = "node_offline"; tunnel_port = none }

abbrev pub take_offline : ℕ → Node → Store → Store
take_offline now n s = record s {
  nodes = update_where (λ m. m.id == n.id) (λ m. offline_node now n) s.nodes;
  replicas = update_where (λ r. stands_on n.id r.node_id && is_live r) down s.replicas;
}

-- The loop over the nodes that the query returned.
pub mark_each : ℕ → List Node → Store → Store × List Effect
mark_each now [] s = (s, [])
mark_each now (n ∷ ns) s =
    let (s', effects) = mark_each now ns (if is_stale now n then take_offline now n s else s) in
    (s', if is_stale now n then node_offline n.id ∷ effects else effects)

abbrev pub monitored : Store → List Node
monitored s = select (λ n. n.enabled && not n.is_local) s.nodes

unfoldable pub mark_stale_nodes_offline : ℕ → Store → Store × List Effect
unfolding mark_each
mark_stale_nodes_offline now s = mark_each now (monitored s) s
