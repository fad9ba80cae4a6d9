-- ===== src/Nodes/Apply.antt =====
-- backend/routers/nodes.py: what the result of a command does to the tables.
pub mod Outcome
pub mod Statuses
mod Tests
use cloudbase.Prelude.{
  ℕ, zero, suc, ◌+◌, ◌-◌, ◌*◌, ◌≤◌, ◌<◌, min, max, String, ◌≡◌, refl, sym, ap, ◌∙◌, ◌≢◌, ◌↔◌, ◌⊎◌,
  inl, inr, Bool, true, false, not, ◌&&◌, ◌||◌, Option, none, some, List, [], ◌∷◌, ◌++◌, map, arith,
  str_eq, eq_iff, ltb, leb, ◌==◌, ==_iff, if◌then◌else◌, Bool-cases, Option-cases, some-eq, is_some,
  All, length, select, find, any, all, update_where, count_where, length-append, take, order_by,
  find-holds, has_text, starts_with, contains, text_length, strip, int_of_text,
  starts_with_comparable, starts_with_apart, starts_with_shorter, starts_with_of_eq, eq_apart,
}
use cloudbase.Prelude.Result.{Result, ok, raise, ◌>>=◌, ◌>>◌, raise_if, is_ok, bind-ok, raise_if-ok}
use cloudbase.Nodes.{
  Json, null, bool, num, str, object, end, field, Dict, Node, NodeCommand, Application, Replica,
  Store, Effect, command_done, command_update, get, has_key, truthy, json_of, one_of, is_text,
  command_with_id, app_with_id, replica_with_id, get_node_by_token,
}
use cloudbase.Nodes as Tables

-- What an agent reports of a command.
pub record Report : Type 0 where
  pub status : String
  pub result : Option Dict
  pub error_message : Option String

-- `result_payload or {}`
abbrev pub result_of : Report → Dict
result_of r = elim r.result [ none ↦ [] | some d ↦ d ]

-- `if result_payload:`
abbrev pub has_result : Dict → Bool
has_result [] = false
has_result (e ∷ d) = true

abbrev pub is_done : Report → Bool
is_done r = str_eq r.status "done"

pub note_error : Report → Application → Application
note_error r app =
    if is_text r.error_message then record app { last_error = json_of r.error_message } else app

pub clear_error : Application → Application
clear_error app = record app { last_error = null }

pub fail_app : Report → Application → Application
fail_app r app = note_error r (record app { status = "error" })

pub nginx_from : Dict → Application → Application
nginx_from d app =
    if has_key "nginx_enabled" d
    then record app { nginx_enabled = truthy (get "nginx_enabled" d) }
    else app

abbrev pub end_states : List String
end_states = "running" ∷ "stopped" ∷ "error" ∷ []

pub deployed : Dict → Application → Application
unfolding nginx_from
deployed d app =
    if has_result d
    then record (nginx_from d
        (record app { working_dir = Tables.get_or "working_dir" app.working_dir d })) {
          status = one_of end_states "stopped" (get "status" d);
        }
    else record app { status = "stopped" }

pub deploy_app : Report → Application → Application
unfolding deployed clear_error fail_app note_error
deploy_app r app = if is_done r then clear_error (deployed (result_of r) app) else fail_app r app

pub update_app : Report → Application → Application
unfolding nginx_from clear_error note_error
update_app r app =
    if is_done r then clear_error (nginx_from (result_of r) app) else note_error r app

pub git_pull : Report → Application → Application
unfolding clear_error note_error
git_pull r app = if is_done r then clear_error app else note_error r app

-- start_app, restart_app and stop_app: the states that a report may name, and the one otherwise.
pub set_state : List String → String → Report → Application → Application
unfolding clear_error fail_app note_error
set_state allowed default r app =
    if is_done r
    then clear_error (record app { status = one_of allowed default (get "status" (result_of r)) })
    else fail_app r app

pub delete_app : Report → Application → Application
unfolding clear_error fail_app note_error
delete_app r app =
    if is_done r then clear_error (record app { status = "stopped" }) else fail_app r app

pub save_nginx_config : Report → Application → Application
unfolding clear_error note_error
save_nginx_config r app =
    if is_done r
    then if truthy (get "ok" (result_of r))
      then clear_error (record app { nginx_enabled = true })
      else record app { last_error = get "message" (result_of r) }
    else note_error r app

pub save_maintenance_pages : Report → Application → Application
unfolding clear_error note_error
save_maintenance_pages r app =
    if is_done r
    then if truthy (Tables.get_or "ok" (bool true) (result_of r))
      then clear_error app
      else record app { last_error = get "message" (result_of r) }
    else note_error r app

pub restore_maintenance : Dict → Application → Application
restore_maintenance payload app =
    if has_key "previous_maintenance_mode" payload
    then record app { maintenance_mode = truthy (get "previous_maintenance_mode" payload) }
    else app

pub restore_update : Dict → Application → Application
restore_update payload app =
    if has_key "previous_update_mode" payload
    then record app { update_mode = truthy (get "previous_update_mode" payload) }
    else app

-- toggle_maintenance_mode and toggle_update_mode: a failure takes both modes back.
pub toggle_mode : Dict → Report → Application → Application
unfolding clear_error note_error restore_maintenance restore_update
toggle_mode payload r app =
    if is_done r
    then clear_error app
    else note_error r (restore_update payload (restore_maintenance payload app))

-- The application's row after the report, but for `updated_at`.
pub app_after : String → Dict → Report → Application → Application
unfolding deploy_app update_app git_pull set_state delete_app save_nginx_config
    save_maintenance_pages toggle_mode
app_after kind payload r app =
    if str_eq kind "deploy_app"
    then deploy_app r app
    else if str_eq kind "update_app"
    then update_app r app
    else if str_eq kind "git_pull"
    then git_pull r app
    else if str_eq kind "start_app"
    then set_state ("running" ∷ "starting" ∷ "stopped" ∷ "error" ∷ []) "running" r app
    else if str_eq kind "restart_app"
    then set_state ("running" ∷ "restarting" ∷ "stopped" ∷ "error" ∷ []) "running" r app
    else if str_eq kind "stop_app"
    then set_state ("stopped" ∷ "stopping" ∷ "running" ∷ "error" ∷ []) "stopped" r app
    else if str_eq kind "delete_app"
    then delete_app r app
    else if str_eq kind "save_nginx_config"
    then save_nginx_config r app
    else if str_eq kind "save_maintenance_pages"
    then save_maintenance_pages r app
    else if has_text kind ("toggle_maintenance_mode" ∷ "toggle_update_mode" ∷ [])
    then toggle_mode payload r app
    else app

pub note_replica_error : Report → Replica → Replica
note_replica_error r rep =
    if is_text r.error_message then record rep { last_error = json_of r.error_message } else rep

pub first_replica_after : Report → Replica → Replica
unfolding note_replica_error
first_replica_after r rep =
    if is_done r
    then record rep {
      status = one_of end_states "stopped" (Tables.get_or "status" (str "stopped") (result_of r));
      last_error = null;
    }
    else note_replica_error r (record rep { status = "error" })

-- The replica stays "starting" until its tunnel connects.
pub started_replica : Report → Replica → Replica
started_replica r rep =
    if is_done r
    then record rep {
      status = "starting";
      container_id = get "container_id" (result_of r);
      last_error = null;
    }
    else record rep { status = "error"; last_error = json_of r.error_message }

pub stopped_replica : Report → Replica → Replica
unfolding note_replica_error
stopped_replica r rep =
    if is_done r
    then record rep { status = "stopped" }
    else note_replica_error r (record rep { status = "error" })

-- The replica's row after the report.
pub replica_after : String → Report → Replica → Replica
unfolding first_replica_after started_replica stopped_replica
replica_after kind r rep =
    if str_eq kind "deploy_app"
    then first_replica_after r rep
    else if str_eq kind "start_replica"
    then started_replica r rep
    else stopped_replica r rep

-- The payload's entry that names a replica, for the commands that touch one.
pub replica_entry : String → Dict → Json
replica_entry kind payload =
    if str_eq kind "deploy_app"
    then get "first_replica_id" payload
    else if has_text kind ("start_replica" ∷ "stop_replica" ∷ [])
    then get "replica_id" payload
    else null

-- `int(v)` of an entry that is not empty. A text is read when it consists of digits, and taken to raise
-- otherwise; signs and underscores are not read.
pub replica_id_of : Json → Result (Option ℕ)
replica_id_of null = ok none
replica_id_of (bool b) = ok (if b then some 1 else none)
replica_id_of (num n) = ok (if n == 0 then none else some n)
replica_id_of (str s) =
    if str_eq s ""
    then ok none
    else elim (int_of_text s) [ none ↦ raise 500 | some id ↦ ok (some id) ]
replica_id_of (object end) = ok none
replica_id_of (object (field key v fields)) = raise 500

abbrev pub same_id : Option ℕ → ℕ → Bool
same_id none id = false
same_id (some k) id = k == id

-- The rows that the command's application and its replica stand in.
pub touch_tables : ℕ → NodeCommand → Report → ℕ → Option ℕ → Store → Store
unfolding app_after replica_after
touch_tables now cmd r app_id replica_id s = record s {
  apps =
      update_where (λ a. a.id == app_id)
        (λ a. record (app_after cmd.command_type cmd.payload r a) { updated_at = now }) s.apps;
  replicas =
      update_where (λ rep. same_id replica_id rep.id) (replica_after cmd.command_type r) s.replicas;
}

-- Nothing more happens for a command without an application, or whose application is gone.
touch : ℕ → NodeCommand → Report → Store → Option Application → Result Store
unfolding touch_tables replica_entry replica_id_of
touch now cmd r s none = ok s
touch now cmd r s (some app) = do
  replica_id ← replica_id_of (replica_entry cmd.command_type cmd.payload)
  ok (touch_tables now cmd r app.id replica_id s)

command_app : NodeCommand → Store → Option Application
command_app cmd s = elim cmd.app_id [
  | none ↦ none
  | some id ↦ if id == 0 then none else app_with_id id s
]

abbrev pub finished : ℕ → Report → NodeCommand → NodeCommand
finished now r c = record c {
  status = r.status;
  result = r.result;
  completed_at = some now;
  error_message = r.error_message;
}

effects_of : ℕ → NodeCommand → Report → Store → List Effect
unfolding command_app
effects_of node_id cmd r s =
    command_done cmd.id
    ∷ command_update node_id cmd.id r.status cmd.app_id
        (elim (command_app cmd s) [ none ↦ none | some a ↦ some a.status ]) r.error_message
    ∷ []

abbrev own_command : ℕ → ℕ → Store → Result NodeCommand
own_command node_id command_id s = elim (command_with_id command_id s) [
  | none ↦ raise 404
  | some c ↦ if c.node_id == node_id then ok c else raise 404
]

abbrev pub known_status : List String
known_status = "done" ∷ "failed" ∷ []

-- `_apply_command_result`; a raised error leaves the tables as they were, since nothing was committed.
unfoldable pub apply_command_result : ℕ → ℕ → ℕ → Report → Store → Result (Store × List Effect)
unfolding touch effects_of command_app
apply_command_result now node_id command_id r s = do
  cmd ← own_command node_id command_id s
  raise_if (not (has_text r.status known_status)) 400
  s' ←
      touch now cmd r
        (record s { commands = update_where (λ c. c.id == command_id) (finished now r) s.commands })
        (command_app cmd s)
  ok (s', effects_of node_id cmd r s')

-- `report_command_result`: the endpoint that an agent calls with its token.
unfoldable pub report_command_result :
    ℕ → Option String → ℕ → Report → Store → Result (Store × List Effect)
report_command_result now none command_id r s = raise 401
report_command_result now (some token) command_id r s = do
  raise_if (str_eq token "") 401
  node ← get_node_by_token token s
  apply_command_result now node.id command_id r s
