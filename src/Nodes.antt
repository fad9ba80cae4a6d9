-- ===== src/Nodes.antt =====
-- backend/models.py: the tables of nodes, invites, commands, applications and replicas.
pub mod Queue
pub mod Apply
pub mod Registry
pub mod Monitor
pub mod Sample
pub mod Local
use cloudbase.Prelude.{
  ℕ, zero, suc, ◌+◌, ◌-◌, ◌*◌, ◌≤◌, ◌<◌, min, max, String, ◌≡◌, refl, sym, ap, ◌∙◌, ◌≢◌, ◌↔◌, ◌⊎◌,
  inl, inr, Bool, true, false, not, ◌&&◌, ◌||◌, Option, none, some, List, [], ◌∷◌, ◌++◌, map, arith,
  str_eq, eq_iff, ltb, leb, ◌==◌, ==_iff, if◌then◌else◌, Bool-cases, Option-cases, some-eq, is_some,
  is_some-none, All, length, select, find, any, all, update_where, count_where, length-append, take,
  order_by, find-holds, has_text, starts_with, contains, text_length, strip, starts_with_comparable,
  starts_with_apart, starts_with_shorter, starts_with_of_eq, eq_apart,
}
use cloudbase.Prelude.Result.{Result, ok, raise, ◌>>=◌, ◌>>◌, raise_if, is_ok, bind-ok, raise_if-ok}

-- The JSON values that command payloads and results hold. Lists inside them are not modelled: the
-- handlers below make and read none.
mutual
  pub data Json : Type 0 where
    null : Json
    bool : Bool → Json
    num : ℕ → Json
    str : String → Json
    object : Fields → Json

  pub data Fields : Type 0 where
    end : Fields
    field : String → Json → Fields → Fields

-- A JSON object.
abbrev pub Dict : Type 0
Dict = List (String × Json)

pub record Node : Type 0 where
  pub id : ℕ
  pub name : String
  pub role : String
  pub status : String
  pub api_base_url : Option String
  pub public_host : Option String
  pub auth_token : Option String
  pub is_local : Bool
  pub enabled : Bool
  pub capabilities : Dict
  pub metadata_json : Dict
  pub heartbeat_interval : ℕ
  pub last_seen : Option ℕ
  pub offline_since : Option ℕ
  pub connection_type : Option String

pub record NodeInvite : Type 0 where
  pub id : ℕ
  pub code : String
  pub note : Option String
  pub expires_at : ℕ
  pub used_at : Option ℕ
  pub node_id : Option ℕ

-- `payload` and `result` are the dicts of the JSON texts that the columns hold.
pub record NodeCommand : Type 0 where
  pub id : ℕ
  pub node_id : ℕ
  pub app_id : Option ℕ
  pub command_type : String
  pub payload : Dict
  pub status : String
  pub idempotency_key : String
  pub result : Option Dict
  pub error_message : Option String
  pub created_at : ℕ
  pub dispatched_at : Option ℕ
  pub completed_at : Option ℕ

-- What limits a container. A share of a processor is counted in thousandths.
pub record DockerOptions : Type 0 where
  pub cpu_limit : Option ℕ
  pub memory_limit_mb : Option ℕ
  pub read_only_root : Bool
  pub tmpfs_enabled : Bool
  pub tmpfs_size_mb : Option ℕ

-- The columns of `Application` that the handlers touch. A column that is written from a payload
-- holds a `Json`; the lists of domains are those of the JSON texts that the columns hold.
pub record Application : Type 0 where
  pub id : ℕ
  pub name : String
  pub repo_url : String
  pub domain : Option String
  pub extra_domains : List String
  pub redirect_domains : List String
  pub app_type : Option String
  pub start_command : Option String
  pub port : Option ℕ
  pub external_port : Option ℕ
  pub pid : Option ℕ
  pub node_id : Option ℕ
  pub status : String
  pub working_dir : Json
  pub last_error : Json
  pub nginx_enabled : Bool
  pub restart_policy : Option String
  pub docker_image : Option String
  pub source_revision : Option String
  pub image_revision : Option String
  pub docker : DockerOptions
  pub no_web : Bool
  pub maintenance_mode : Bool
  pub update_mode : Bool
  pub updated_at : ℕ

-- `docker` holds what the instance has in place of the application's own limits.
pub record Replica : Type 0 where
  pub id : ℕ
  pub app_id : ℕ
  pub node_id : Option ℕ
  pub external_port : Option ℕ
  pub tunnel_port : Option ℕ
  pub container_id : Json
  pub status : String
  pub last_error : Json
  pub docker : DockerOptions

pub record Store : Type 0 where
  pub nodes : List Node
  pub invites : List NodeInvite
  pub commands : List NodeCommand
  pub apps : List Application
  pub replicas : List Replica

-- What a handler does beside its writes: it sets an event that others wait on, or sends a message to
-- the browsers that follow a node, or adds to the audit log.
pub data Effect : Type 0 where
  wake_node : ℕ → Effect
  command_done : ℕ → Effect
  command_update : ℕ → ℕ → String → Option ℕ → Option String → Option String → Effect
  node_offline : ℕ → Effect
  node_connected : ℕ → String → Effect
  audit : String → String → Effect

-- The value of a key, `None` where it is missing: `d.get(key)`.
abbrev pub get : String → Dict → Json
get key [] = null
get key ((k, v) ∷ d) = if str_eq k key then v else get key d

abbrev pub has_key : String → Dict → Bool
has_key key d = any (λ e. str_eq e.0 key) d

-- d.get(key, default)
abbrev pub get_or : String → Json → Dict → Json
get_or key default d = if has_key key d then get key d else default

-- bool(v)
abbrev pub truthy : Json → Bool
truthy null = false
truthy (bool b) = b
truthy (num n) = not (n == 0)
truthy (str s) = not (str_eq s "")
truthy (object end) = false
truthy (object (field key v fields)) = true

-- An optional text of a request, stored in a column.
abbrev pub json_of : Option String → Json
json_of none = null
json_of (some s) = str s

-- `v if v in allowed else default`
abbrev pub one_of : List String → String → Json → String
one_of allowed default (str s) = if has_text s allowed then s else default
one_of allowed default _ = default

-- A message that is not empty: `if error_message:`
abbrev pub is_text : Option String → Bool
is_text none = false
is_text (some s) = not (str_eq s "")

abbrev pub node_with_id : ℕ → Store → Option Node
node_with_id id s = find (λ n. n.id == id) s.nodes

abbrev pub command_with_id : ℕ → Store → Option NodeCommand
command_with_id id s = find (λ c. c.id == id) s.commands

abbrev pub app_with_id : ℕ → Store → Option Application
app_with_id id s = find (λ a. a.id == id) s.apps

abbrev pub replica_with_id : ℕ → Store → Option Replica
replica_with_id id s = find (λ r. r.id == id) s.replicas

-- A column with no unique constraint: `scalar_one_or_none` raises on several rows.
abbrev pub scalar_one_or_none {ℓ} : {A : Type ℓ} → List A → Result (Option A)
scalar_one_or_none [] = ok none
scalar_one_or_none (x ∷ []) = ok (some x)
scalar_one_or_none (x ∷ y ∷ xs) = raise 500

abbrev pub has_token : String → Node → Bool
has_token token n = elim n.auth_token [ none ↦ false | some t ↦ str_eq t token && n.enabled ]

abbrev pub some_node : Option Node → Result Node
some_node none = raise 401
some_node (some n) = ok n

-- `get_node_by_token_or_401`
unfoldable pub get_node_by_token : String → Store → Result Node
get_node_by_token token s = do
  found ← scalar_one_or_none (select (has_token token) s.nodes)
  some_node found

-- `get_node_or_404`
abbrev pub get_node_or_404 : ℕ → Store → Result Node
get_node_or_404 id s = elim (node_with_id id s) [ none ↦ raise 404 | some n ↦ ok n ]
