-- ===== src/Apps/Ports/Free.antt =====
-- Which port a new instance gets.
use cloudbase.Prelude.{any, ◌&&◌, ◌==◌, ℕ, Bool, false, ◌||◌, Option, none, some}
use cloudbase.Nodes.{Store}
use cloudbase.Apps.Ports.{on_node, is_other, used_ports, pick_free_external_port, PortRange}

abbrev pub is_port : ℕ → Option ℕ → Bool
is_port p none = false
is_port p (some q) = q == p

-- A port that a new instance may not have: the row of an application of the node has it, but for the
-- one that is left out, the row of an instance of the node, or a socket of the host.
abbrev pub taken_port : PortRange → ℕ → Option ℕ → Store → ℕ → Bool
taken_port range node_id exclude s p =
    any (λ a. on_node node_id a.node_id && is_other exclude a && is_port p a.external_port) s.apps
    || any (λ r. on_node node_id r.node_id && is_port p r.external_port) s.replicas
    || range.active p

module _ (range : PortRange) (node_id : ℕ) (exclude : Option ℕ) (s : Store) where
  abbrev picked : Option ℕ
  picked =
      pick_free_external_port range.active range.first range.last (used_ports node_id exclude s)
