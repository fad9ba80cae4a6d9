-- ===== src/Nodes/Local/Tests.antt =====
-- The row of the host in empty tables, and once more later.
use cloudbase.Prelude.{◌≡◌, refl, some, [], ◌∷◌, lower}
use cloudbase.Prelude.Result.{ok}
use cloudbase.Nodes.{Node, Store}
use cloudbase.Nodes.Local.{System, new_local, with_public_ip, ensure_local_node}
use cloudbase.Nodes.Local.One.{OneLocal, ensure_local_node-OneLocal}

abbrev empty : Store
empty = record { nodes = []; invites = []; commands = []; apps = []; replicas = [] }

abbrev system : System
system = record { info = []; public_ip = some "192.0.2.1"; monotonic = 900; refresh_seconds = 300 }

abbrev first : Node
first = with_public_ip system (new_local 50 1)

abbrev renamed : Node
renamed = record first { name = "my-local-box"; status = "offline" }

abbrev placed : Store
placed = record empty { nodes = renamed ∷ [] }

abbrev settled : Store
settled = record empty { nodes = first ∷ [] }

created-eq : ensure_local_node 50 0 system empty ≡ ok (first, settled, 900)
unfolding ensure_local_node
created-eq = refl

-- A name with "local" in it does not last.
restored-eq : ensure_local_node 60 900 system placed ≡ ok (first, settled, 900)
unfolding ensure_local_node lower
restored-eq = refl

ensure_local_node-OneLocal_example : OneLocal (first, settled, 900)
ensure_local_node-OneLocal_example =
    ensure_local_node-OneLocal 60 900 system placed (first, settled, 900) (tt, tt) restored-eq
