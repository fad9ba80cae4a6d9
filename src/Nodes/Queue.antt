-- ===== src/Nodes/Queue.antt =====
-- backend/routers/nodes.py: queueing commands for a node, and handing them to its agent.
pub mod Plain
pub mod Once
pub mod Exact
pub mod Dedupe
mod Tests
use cloudbase.Prelude.{
  ℕ, zero, suc, ◌+◌, ◌-◌, ◌*◌, ◌≤◌, ◌<◌, min, max, String, ◌≡◌, refl, sym, ap, ◌∙◌, ◌≢◌, ◌↔◌, ◌⊎◌,
  inl, inr, Bool, true, false, not, ◌&&◌, ◌||◌, Option, none, some, List, [], ◌∷◌, ◌++◌, map, arith,
  str_eq, eq_iff, ltb, leb, ◌==◌, ==_iff, if◌then◌else◌, Bool-cases, Option-cases, some-eq, is_some,
  All, length, select, find, any, all, update_where, count_where, length-append, take, order_by,
  find-holds, has_text, starts_with, contains, text_length, strip, starts_with_comparable,
  starts_with_apart, starts_with_shorter, starts_with_of_eq, eq_apart,
}
use cloudbase.Prelude.Result.{Result, ok, raise, ◌>>=◌, ◌>>◌, raise_if, is_ok, bind-ok, raise_if-ok}
use cloudbase.Nodes.{Dict, NodeCommand, Store, Effect, wake_node}

-- What the agent is sent of a command.
pub record Item : Type 0 where
  pub id : ℕ
  pub app_id : Option ℕ
  pub command_type : String
  pub payload : Dict
  pub idempotency_key : String
  pub created_at : ℕ

abbrev pub item_of : NodeCommand → Item
item_of c = record {
  id = c.id;
  app_id = c.app_id;
  command_type = c.command_type;
  payload = c.payload;
  idempotency_key = c.idempotency_key;
  created_at = c.created_at;
}

abbrev pub queued_with_id : ℕ → NodeCommand → Bool
queued_with_id id c = c.id == id && str_eq c.status "queued"

abbrev pub in_progress_at : ℕ → NodeCommand → NodeCommand
in_progress_at now c = record c { status = "in_progress"; dispatched_at = some now }

-- The guarded `UPDATE` of one command: whether it changed one row, and the table.
pub claim : ℕ → ℕ → List NodeCommand → Bool × List NodeCommand
claim now id cs = (
  count_where (queued_with_id id) cs == 1,
  update_where (queued_with_id id) (in_progress_at now) cs,
)

abbrev pub queued_for : ℕ → NodeCommand → Bool
queued_for node_id c = c.node_id == node_id && str_eq c.status "queued"

-- The commands that a claimer sees, at most 100, the oldest first. A negative limit is read as 0.
pub pending : ℕ → ℕ → List NodeCommand → List NodeCommand
pending node_id limit cs =
    take (min (max limit 1) 100) (order_by (λ c. c.created_at) (select (queued_for node_id) cs))

-- The loop over the commands that were seen, on the table as it is by then.
pub claim_each : ℕ → List NodeCommand → List NodeCommand → List Item × List NodeCommand
claim_each now [] cs = ([], cs)
claim_each now (c ∷ seen) cs =
    let (claimed, cs') = claim now c.id cs in
    let (items, cs'') = claim_each now seen cs' in
    (if claimed then item_of c ∷ items else items, cs'')

-- `_claim_pending_commands`
unfoldable pub claim_pending_commands : ℕ → ℕ → ℕ → Store → List Item × Store
unfolding claim claim_each pending
claim_pending_commands now node_id limit s =
    let (items, cs) = claim_each now (pending node_id limit s.commands) s.commands in
    (items, record s { commands = cs })

pub same_app : Option ℕ → Option ℕ → Bool
same_app none none = true
same_app (some a) (some b) = a == b
same_app _ _ = false

pub is_in_flight : NodeCommand → Bool
is_in_flight c = has_text c.status ("queued" ∷ "in_progress" ∷ [])

pub duplicate_of : ℕ → String → Option ℕ → NodeCommand → Bool
unfolding same_app is_in_flight
duplicate_of node_id command_type app_id c =
    c.node_id == node_id
    && str_eq c.command_type command_type
    && is_in_flight c
    && same_app c.app_id app_id

-- ORDER BY created_at DESC LIMIT 1
newer : NodeCommand → Option NodeCommand → NodeCommand
newer c none = c
newer c (some d) = if leb d.created_at c.created_at then c else d

pub newest : List NodeCommand → Option NodeCommand
unfolding newer
newest [] = none
newest (c ∷ cs) = some (newer c (newest cs))

abbrev pub new_command : ℕ → ℕ → String → ℕ → String → Dict → Option ℕ → NodeCommand
new_command now id key node_id command_type payload app_id = record {
  id = id;
  node_id = node_id;
  app_id = app_id;
  command_type = command_type;
  payload = payload;
  status = "queued";
  idempotency_key = key;
  result = none;
  error_message = none;
  created_at = now;
  dispatched_at = none;
  completed_at = none;
}

-- The arguments of `queue_node_command`, with the time, the row's id and the random key.
pub record QueueRequest : Type 0 where
  pub now : ℕ
  pub fresh_id : ℕ
  pub key : String
  pub node_id : ℕ
  pub command_type : String
  pub payload : Dict
  pub app_id : Option ℕ
  pub allow_existing_inflight : Bool

abbrev pub command_of : QueueRequest → NodeCommand
command_of q = new_command q.now q.fresh_id q.key q.node_id q.command_type q.payload q.app_id

add_command : QueueRequest → Store → NodeCommand × Store × List Effect
add_command q s = (
  command_of q,
  record s { commands = s.commands ++ command_of q ∷ [] },
  wake_node q.node_id ∷ [],
)

existing_command : QueueRequest → Store → Option NodeCommand
unfolding duplicate_of newest
existing_command q s =
    if q.allow_existing_inflight
    then newest (select (duplicate_of q.node_id q.command_type q.app_id) s.commands)
    else none

unfoldable pub queue_node_command : QueueRequest → Store → NodeCommand × Store × List Effect
unfolding add_command existing_command
queue_node_command q s = elim (existing_command q s) [
  | some existing ↦ (existing, s, [])
  | none ↦ add_command q s
]
