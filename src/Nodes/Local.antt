-- ===== src/Nodes/Local.antt =====
-- `ensure_local_node`: the row of the server's own host.
pub mod One
mod Tests
use cloudbase.Prelude.{
  ℕ, zero, suc, ◌+◌, ◌-◌, ◌*◌, ◌≤◌, ◌<◌, min, max, String, ◌≡◌, refl, sym, ap, ◌∙◌, ◌≢◌, ◌↔◌, ◌⊎◌,
  inl, inr, Bool, true, false, not, ◌&&◌, ◌||◌, Option, none, some, List, [], ◌∷◌, ◌++◌, map, arith,
  str_eq, eq_iff, ltb, leb, ◌==◌, ==_iff, if◌then◌else◌, Bool-cases, Option-cases, some-eq, is_some,
  is_some-none, All, length, select, find, any, all, update_where, count_where, length-append, take,
  order_by, find-holds, has_text, starts_with, contains, lower, ends_with, text_length, strip,
  starts_with_comparable, starts_with_apart, starts_with_shorter, starts_with_of_eq, eq_apart,
}
use cloudbase.Prelude.Result.{
  Result, ok, raise, ◌>>=◌, ◌>>◌, raise_if, is_ok, bind-ok, raise_if-ok, Result-cases,
}
use cloudbase.Nodes.{Json, bool, str, Dict, Node, Store, scalar_one_or_none, is_text}

-- What the system says of itself, the clock of the process, and how long that is good for.
pub record System : Type 0 where
  pub info : Dict
  pub public_ip : Option String
  pub monotonic : ℕ
  pub refresh_seconds : ℕ

abbrev pub is_default_name : String → Bool
is_default_name name =
    has_text name
      ("local-cloudbase" ∷ "local_cloudbase" ∷ "local-cloudbae" ∷ "local_cloudbae" ∷ "" ∷ [])
    || contains (lower name) "local"

abbrev pub back_online : Node → Node
back_online n = record n {
  status = "online";
  offline_since = none;
  name = if is_default_name n.name then "Primary Node" else n.name;
}

-- `info["public_ip"] = ip` where there is one; the system's own answer has no such key.
abbrev pub with_public_ip : System → Node → Node
with_public_ip system n = elim system.public_ip [
  | none ↦ record n { metadata_json = system.info }
  | some ip ↦ if str_eq ip "" then record n { metadata_json = system.info } else record n {
    public_host = some ip;
    metadata_json = system.info ++ ("public_ip", str ip) ∷ [];
  }
]

abbrev pub needs_info : ℕ → System → Node → Bool
needs_info last system n =
    length n.metadata_json == 0 || leb system.refresh_seconds (system.monotonic - last)

-- The row that is there, and the time of the last look at the system.
pub refreshed : ℕ → System → Node → Node × ℕ
refreshed last system n =
    if needs_info last system n
    then (with_public_ip system (back_online n), system.monotonic)
    else (back_online n, last)

pub next_node_id : List Node → ℕ
next_node_id [] = 1
next_node_id (n ∷ ns) = max (suc n.id) (next_node_id ns)

abbrev pub new_local : ℕ → ℕ → Node
new_local now id = record {
  id = id;
  name = "Primary Node";
  role = "hybrid";
  status = "online";
  api_base_url = none;
  public_host = none;
  auth_token = none;
  is_local = true;
  enabled = true;
  capabilities = ("local_execution", bool true) ∷ [];
  metadata_json = [];
  heartbeat_interval = 15;
  last_seen = some now;
  offline_since = none;
  connection_type = none;
}

abbrev pub put_local : Node → Store → Store
put_local n s = record s { nodes = update_where (λ m. m.id == n.id) (λ m. n) s.nodes }

pub place_local : ℕ → ℕ → System → Option Node → Store → Node × Store × ℕ
unfolding refreshed next_node_id
place_local now last system (some n) s =
    let (n', last') = refreshed last system n in (n', put_local n' s, last')
place_local now last system none s =
    let n = with_public_ip system (new_local now (next_node_id s.nodes)) in
    (n, record s { nodes = s.nodes ++ n ∷ [] }, system.monotonic)

-- `last` is `_last_local_info_refresh_at`.
unfoldable pub ensure_local_node : ℕ → ℕ → System → Store → Result (Node × Store × ℕ)
unfolding place_local
ensure_local_node now last system s = do
  found ← scalar_one_or_none (select (λ n. n.is_local) s.nodes)
  ok (place_local now last system found s)
