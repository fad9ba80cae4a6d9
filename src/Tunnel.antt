-- ===== src/Tunnel.antt =====
-- backend/tunnel_server.py: the table of reverse tunnels, the ports they listen on, and the messages that
-- pass between nginx and the agents.
pub mod Ports
pub mod Sound
pub mod Opening
pub mod Messages
mod Tests
use cloudbase.Prelude.{
  ℕ, zero, suc, ◌+◌, ◌-◌, ◌*◌, ◌≤◌, ◌<◌, min, max, String, ◌≡◌, refl, sym, ap, ◌∙◌, ◌≢◌, ◌↔◌, ◌⊎◌,
  inl, inr, Bool, true, false, not, ◌&&◌, ◌||◌, Option, none, some, List, [], ◌∷◌, ◌++◌, map, arith,
  str_eq, eq_iff, ltb, leb, ◌==◌, ==_iff, if◌then◌else◌, Bool-cases, Option-cases, some-eq, is_some,
  is_some-none, All, length, select, find, any, all, update_where, count_where, length-append, take,
  order_by, find-holds, has_text, starts_with, contains, text_length, strip, starts_with_comparable,
  starts_with_apart, starts_with_shorter, starts_with_of_eq, eq_apart,
}
use cloudbase.Prelude.Result.{Result, ok, raise, ◌>>=◌, ◌>>◌, raise_if, is_ok, bind-ok, raise_if-ok}

-- `_TunnelEntry`. A websocket is known by its identity, an open connection by its id. Whether the
-- listener is up is an effect.
pub record Entry : Type 0 where
  pub replica_id : ℕ
  pub local_port : ℕ
  pub ws : ℕ
  pub conns : List String

-- `_tunnels`, in the order in which its keys were inserted
abbrev pub Tunnels : Type 0
Tunnels = List Entry

pub data Effect : Type 0 where
  listen : ℕ → Effect
  stop_listening : ℕ → Effect
  send_connect : ℕ → String → Effect
  send_close : ℕ → String → Effect
  write : String → String → Effect
  close_writer : String → Effect

-- A message of an agent that is JSON and names a connection.
pub data Message : Type 0 where
  data_of : String → String → Message
  close_of : String → Message
  other_of : String → Message

abbrev pub has_replica : ℕ → Entry → Bool
has_replica replica_id e = e.replica_id == replica_id

abbrev pub entry_of : ℕ → Tunnels → Option Entry
entry_of replica_id t = find (has_replica replica_id) t

abbrev pub port_used : Tunnels → ℕ → Bool
port_used t port = any (λ e. e.local_port == port) t

-- The loop over `count` ports from `port` on.
pub first_free : Tunnels → ℕ → ℕ → Option ℕ
first_free t zero port = none
first_free t (suc count) port =
    let rest = first_free t count (suc port) in if port_used t port then rest else some port

-- `stop`: the listener first, then every connection.
abbrev pub stop : Entry → List Effect
stop e = stop_listening e.local_port ∷ map close_writer e.conns

-- `close_tunnel`
unfoldable pub close_tunnel : ℕ → Tunnels → Tunnels × List Effect
close_tunnel replica_id t = elim (entry_of replica_id t) [
  | none ↦ (t, [])
  | some e ↦ (select (λ d. not (has_replica replica_id d)) t, stop e)
]

-- `_tunnels[replica_id] = entry`
abbrev pub put_entry : Entry → Tunnels → Tunnels
put_entry e t = elim (entry_of e.replica_id t) [
  | none ↦ t ++ e ∷ []
  | some d ↦ update_where (has_replica e.replica_id) (λ d. e) t
]

abbrev pub fresh_entry : ℕ → ℕ → ℕ → Entry
fresh_entry replica_id port ws = record {
  replica_id = replica_id;
  local_port = port;
  ws = ws;
  conns = [];
}

-- The ports from `port_min` to `port_max` of the configuration are for tunnels.
module _ (port_min port_max : ℕ) where
  -- `_next_free_port`
  unfoldable pub next_free_port : Tunnels → Option ℕ
  unfolding first_free
  next_free_port t = first_free t (port_max + 1 - port_min) port_min

  -- What `open_tunnel` does from the choice of the port to its call of `start`, where nothing else runs
  -- in between.
  unfoldable pub register : ℕ → ℕ → Tunnels → Option ℕ × Tunnels × List Effect
  unfolding next_free_port
  register replica_id ws t = elim (next_free_port t) [
    | none ↦ (none, t, [])
    | some port ↦ (some port, put_entry (fresh_entry replica_id port ws) t, listen port ∷ [])
  ]

  -- `open_tunnel`, where nothing else runs while the old tunnel is stopped and the port can be opened.
  unfoldable pub open_tunnel : ℕ → ℕ → Tunnels → Option ℕ × Tunnels × List Effect
  unfolding register close_tunnel
  open_tunnel replica_id ws t =
      let (t', stopped) = close_tunnel replica_id t in
      let (port, t'', started) = register replica_id ws t' in (port, t'', stopped ++ started)

-- `get_tunnel_port`
abbrev pub get_tunnel_port : ℕ → Tunnels → Option ℕ
get_tunnel_port replica_id t = elim (entry_of replica_id t) [
  | none ↦ none
  | some e ↦ some e.local_port
]

-- `is_active_tunnel`
abbrev pub is_active_tunnel : ℕ → ℕ → Tunnels → Bool
is_active_tunnel replica_id ws t = elim (entry_of replica_id t) [
  | none ↦ false
  | some e ↦ e.ws == ws
]

-- `active_tunnel_count`
abbrev pub active_tunnel_count : Tunnels → ℕ
active_tunnel_count t = length t

abbrev pub add_conn : String → Entry → Entry
add_conn conn_id e =
    if has_text conn_id e.conns then e else record e { conns = e.conns ++ conn_id ∷ [] }

abbrev pub drop_conn : String → Entry → Entry
drop_conn conn_id e = record e { conns = select (λ c. not (str_eq c conn_id)) e.conns }

-- `_accept_conn`: a connection of nginx, with an id drawn for it, and whether the agent's socket took
-- the message.
unfoldable pub accept_conn : String → Bool → Entry → Entry × List Effect
accept_conn conn_id sent e =
    if sent
    then (add_conn conn_id e, send_connect e.ws conn_id ∷ [])
    else (drop_conn conn_id (add_conn conn_id e), close_writer conn_id ∷ [])

-- The end of `_tcp_to_ws`: nginx has closed its side.
unfoldable pub end_conn : String → Entry → Entry × List Effect
end_conn conn_id e = (
  drop_conn conn_id e,
  send_close e.ws conn_id ∷ (if has_text conn_id e.conns then close_writer conn_id ∷ [] else []),
)

abbrev pub conn_of : Message → String
conn_of (data_of conn_id bytes) = conn_id
conn_of (close_of conn_id) = conn_id
conn_of (other_of conn_id) = conn_id

pub deliver : Bool → Message → Entry → Entry × List Effect
deliver written (data_of conn_id bytes) e =
    if has_text conn_id e.conns
    then if written then (e, write conn_id bytes ∷ []) else (drop_conn conn_id e, [])
    else (e, [])
deliver written (close_of conn_id) e =
    if has_text conn_id e.conns then (drop_conn conn_id e, close_writer conn_id ∷ []) else (e, [])
deliver written (other_of conn_id) e = (e, [])

-- `_TunnelEntry.dispatch`; `written` says whether the bytes could be decoded and written.
unfoldable pub dispatch_entry : Bool → Message → Entry → Entry × List Effect
unfolding deliver
dispatch_entry written message e =
    if str_eq (conn_of message) "" then (e, []) else deliver written message e

-- `dispatch_message`
unfoldable pub dispatch_message : ℕ → Bool → Message → Tunnels → Tunnels × List Effect
unfolding dispatch_entry
dispatch_message replica_id written message t = elim (entry_of replica_id t) [
  | none ↦ (t, [])
  | some e ↦ let (e', effects) = dispatch_entry written message e in (put_entry e' t, effects)
]
