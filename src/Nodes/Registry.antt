-- ===== src/Nodes/Registry.antt =====
-- backend/routers/nodes.py: the registry of nodes: invites, registration, and the endpoints that change or
-- remove a node.
pub mod Invites
pub mod Removal
pub mod Disabling
mod Tests
use cloudbase.Prelude.{
  ℕ, zero, suc, ◌+◌, ◌-◌, ◌*◌, ◌≤◌, ◌<◌, min, max, String, ◌≡◌, refl, sym, ap, ◌∙◌, ◌≢◌, ◌↔◌, ◌⊎◌,
  inl, inr, Bool, true, false, not, ◌&&◌, ◌||◌, Option, none, some, List, [], ◌∷◌, ◌++◌, map, arith,
  str_eq, eq_iff, ltb, leb, ◌==◌, ==_iff, if◌then◌else◌, Bool-cases, Option-cases, some-eq, is_some,
  is_some-none, All, length, select, find, any, all, update_where, count_where, length-append, take,
  order_by, find-holds, has_text, starts_with, contains, text_length, strip, starts_with_comparable,
  starts_with_apart, starts_with_shorter, starts_with_of_eq, eq_apart,
}
use cloudbase.Prelude.Result.{Result, ok, raise, ◌>>=◌, ◌>>◌, raise_if, is_ok, bind-ok, raise_if-ok}
use cloudbase.Nodes.{
  Dict, Node, NodeInvite, NodeCommand, Store, Effect, node_connected, audit, node_with_id,
  get_node_or_404,
}

abbrev pub new_invite : ℕ → ℕ → String → Option String → ℕ → NodeInvite
new_invite now fresh_id code note ttl_minutes = record {
  id = fresh_id;
  code = code;
  note = note;
  expires_at = now + ttl_minutes * 60 * 1000000;
  used_at = none;
  node_id = none;
}

-- `create_invite`; the code is drawn at random, times are whole microseconds.
unfoldable pub create_invite : ℕ → ℕ → String → Option String → ℕ → Store → NodeInvite × Store
create_invite now fresh_id code note ttl_minutes s =
    let invite = new_invite now fresh_id code note ttl_minutes in
    (invite, record s { invites = s.invites ++ invite ∷ [] })

pub record RegisterRequest : Type 0 where
  pub invite_code : String
  pub name : String
  pub role : String
  pub api_base_url : Option String
  pub public_host : Option String
  pub heartbeat_interval : ℕ
  pub capabilities : Dict
  pub metadata_json : Dict

-- What a registration draws: the id of the row and the node's token.
pub record Drawn : Type 0 where
  pub id : ℕ
  pub auth_token : String

abbrev pub node_of : ℕ → Drawn → RegisterRequest → Node
node_of now drawn req = record {
  id = drawn.id;
  name = req.name;
  role = if has_text req.role ("main" ∷ "node" ∷ "hybrid" ∷ []) then req.role else "node";
  status = "online";
  api_base_url = req.api_base_url;
  public_host = req.public_host;
  auth_token = some drawn.auth_token;
  is_local = false;
  enabled = true;
  capabilities = req.capabilities;
  metadata_json = req.metadata_json;
  heartbeat_interval = req.heartbeat_interval;
  last_seen = some now;
  offline_since = none;
  connection_type = none;
}

abbrev pub invite_with : String → Store → Option NodeInvite
invite_with code s = find (λ i. str_eq i.code code) s.invites

abbrev pub some_invite : Option NodeInvite → Result NodeInvite
some_invite none = raise 400
some_invite (some i) = ok i

abbrev pub use_invite : ℕ → ℕ → NodeInvite → NodeInvite
use_invite now node_id i = record i { used_at = some now; node_id = some node_id }

abbrev pub node_named : String → Store → Option Node
node_named name s = find (λ n. str_eq n.name name) s.nodes

abbrev pub join_node : ℕ → Drawn → RegisterRequest → NodeInvite → Store → Store
join_node now drawn req invite s = record s {
  nodes = s.nodes ++ node_of now drawn req ∷ [];
  invites = update_where (λ i. str_eq i.code req.invite_code) (use_invite now drawn.id) s.invites;
}

-- `register_node`, with the limit on nodes of the configuration. The code of an invite is unique.
unfoldable pub register_node :
    ℕ → ℕ → Drawn → RegisterRequest → Store → Result (Store × List Effect)
register_node max_nodes now drawn req s = do
  invite ← some_invite (invite_with req.invite_code s)
  raise_if (is_some invite.used_at) 400
  raise_if (ltb invite.expires_at now) 400
  raise_if (is_some (node_named req.name s)) 400
  raise_if (leb max_nodes (length s.nodes)) 400
  ok (
    join_node now drawn req invite s,
    audit "node.connect" "agent" ∷ node_connected drawn.id req.name ∷ [],
  )

abbrev pub put_node : ℕ → Node → Store → Store
put_node node_id node s = record s {
  nodes = update_where (λ n. n.id == node_id) (λ n. node) s.nodes;
}

unfoldable pub enable_node : ℕ → String → Store → Result (Store × List Effect)
enable_node node_id actor s = do
  node ← get_node_or_404 node_id s
  ok (put_node node_id (record node { enabled = true }) s, audit "node.enable" actor ∷ [])

abbrev pub since : ℕ → Option ℕ → Option ℕ
since now none = some now
since now (some t) = some t

abbrev pub disabled : ℕ → Node → Node
disabled now node = record node {
  enabled = false;
  status = "offline";
  offline_since = since now node.offline_since;
}

unfoldable pub disable_node : ℕ → ℕ → String → Store → Result (Store × List Effect)
disable_node now node_id actor s = do
  node ← get_node_or_404 node_id s
  raise_if node.is_local 400
  ok (put_node node_id (disabled now node) s, audit "node.disable" actor ∷ [])

pub rename_node : ℕ → Option String → Store → Node → Result Node
rename_node node_id none s node = ok node
rename_node node_id (some name) s node = do
  raise_if (str_eq (strip name) "") 400
  raise_if (is_some (find (λ n. str_eq n.name (strip name) && not (n.id == node_id)) s.nodes)) 409
  ok (record node { name = strip name })

unfoldable pub update_node : ℕ → Option String → String → Store → Result (Store × List Effect)
unfolding rename_node
update_node node_id name actor s = do
  node ← get_node_or_404 node_id s
  renamed ← rename_node node_id name s node
  ok (put_node node_id renamed s, audit "node.rename" actor ∷ [])

abbrev pub stands_on : ℕ → Option ℕ → Bool
stands_on node_id none = false
stands_on node_id (some id) = id == node_id

abbrev pub app_count : ℕ → Store → ℕ
app_count node_id s = count_where (λ a. stands_on node_id a.node_id) s.apps

abbrev pub replica_count : ℕ → Store → ℕ
replica_count node_id s = count_where (λ r. stands_on node_id r.node_id) s.replicas

abbrev pub without_node : ℕ → Store → Store
without_node node_id s = record s {
  nodes = select (λ n. not (n.id == node_id)) s.nodes;
  invites = select (λ i. not (stands_on node_id i.node_id)) s.invites;
  commands = select (λ c. not (c.node_id == node_id)) s.commands;
}

unfoldable pub delete_node : ℕ → String → Store → Result (Store × List Effect)
delete_node node_id actor s = do
  node ← get_node_or_404 node_id s
  raise_if node.is_local 400
  raise_if (ltb 0 (app_count node_id s) || ltb 0 (replica_count node_id s)) 400
  ok (without_node node_id s, audit "node.delete" actor ∷ [])
