-- ===== src/Crash.antt =====
-- backend/main.py: the monitor that restarts crashed instances of this host.
pub mod Window
mod Tests
use cloudbase.Prelude.{
  ℕ, zero, suc, ◌+◌, ◌-◌, ◌*◌, ◌≤◌, ◌<◌, min, max, String, ◌≡◌, refl, sym, ap, ◌∙◌, ◌≢◌, ◌↔◌, ◌⊎◌,
  inl, inr, Bool, true, false, not, ◌&&◌, ◌||◌, Option, none, some, List, [], ◌∷◌, ◌++◌, map, arith,
  str_eq, eq_iff, ltb, leb, ◌==◌, ==_iff, if◌then◌else◌, Bool-cases, Option-cases, some-eq, is_some,
  is_some-none, All, length, select, find, any, all, update_where, count_where, length-append, take,
  order_by, find-holds, has_text, starts_with, contains, lower, ends_with, text_length, strip,
  starts_with_comparable, starts_with_apart, starts_with_shorter, starts_with_of_eq, eq_apart,
}
use cloudbase.Prelude.Result.{
  Result, ok, raise, ◌>>=◌, ◌>>◌, raise_if, is_ok, bind-ok, raise_if-ok, Result-cases,
}
use cloudbase.Nodes.{null, str, Node, Application, Replica, Store, node_with_id, app_with_id}
use cloudbase.Apps.Work.{Action, run_container, Work, set_replica, set_app, or_text, app_replicas}
use cloudbase.Apps.Start.{Attempt, started, reused, refused, port_of}
use cloudbase.Apps.Runtime.{Host, derive_app_status}
use cloudbase.Apps.Nginx.{has_public_domain, write_app_nginx_config}

-- MAX_RESTARTS_PER_WINDOW and RESTART_WINDOW_SECONDS
pub record Limits : Type 0 where
  pub max_restarts : ℕ
  pub window : ℕ

-- What docker says of an instance: whether its container runs, and what comes of a new run.
pub record Probe : Type 0 where
  pub alive : Replica → Bool
  pub run : Replica → Attempt

-- `_restart_history`, a dict that holds an empty list for a new key: an application and an instance.
abbrev pub History : Type 0
History = ℕ → ℕ → List ℕ

pub record Watch : Type 0 where
  pub work : Work
  pub history : History

abbrev pub set_history : ℕ → ℕ → List ℕ → History → History
set_history app_id id ts h a r = if app_id == a && id == r then ts else h a r

abbrev pub recent : ℕ → ℕ → List ℕ → List ℕ
recent window now ts = select (λ t. ltb (now - t) window) ts

abbrev pub recent_restarts : Limits → Host → Application → Replica → Watch → List ℕ
recent_restarts limits host a r m = recent limits.window host.now (m.history a.id r.id)

-- What the monitor does about one instance.
pub data Decision : Type 0 where
  leave : Decision
  mark_stopped : Application → Decision
  give_up : Application → Decision
  restart : Application → Decision

abbrev pub is_elsewhere : Store → Replica → Bool
is_elsewhere s r = elim r.node_id [
  | none ↦ false
  | some k ↦ elim (node_with_id k s) [ none ↦ false | some n ↦ not n.is_local ]
]

abbrev pub decide_app : Limits → Host → Replica → Watch → Application → Decision
decide_app limits host r m a =
    if str_eq (or_text a.restart_policy "no") "no"
    then mark_stopped a
    else if leb limits.max_restarts (length (recent_restarts limits host a r m))
    then give_up a
    else restart a

unfoldable pub decide : Limits → Host → Probe → Replica → Watch → Decision
decide limits host probe r m =
    if is_elsewhere m.work.tables r || probe.alive r
    then leave
    else elim (app_with_id r.app_id m.work.tables) [
      | none ↦ leave
      | some a ↦ decide_app limits host r m a
    ]

-- A write and a commit.
abbrev pub save : Store → Work → Work
save s w = record w { saved = s; tables = s }

-- The configuration of nginx is written anew; that it fails is ignored.
abbrev pub try_nginx : Host → Application → Work → Work
unfolding write_app_nginx_config
try_nginx host a w =
    if has_public_domain host a then (write_app_nginx_config host a none w).1 else w

abbrev pub after_run : Application → Replica → Attempt → Work → Replica × Work
after_run a r (started cid) w = (
  record r { status = "running"; container_id = str cid; last_error = null },
  record w { actions = w.actions ++ run_container a.id r.id (port_of a r) ∷ [] },
)
after_run a r (reused cid) w =
    (record r { status = "running"; container_id = str cid; last_error = null }, w)
after_run a r (refused message) w = (record r { status = "error"; last_error = str message }, w)

-- The application takes the status of its instances after the run.
abbrev pub with_rows : Application → Replica → Store → Store
unfolding derive_app_status
with_rows a r s =
    let s' = set_replica r s in
    set_app (record a { status = derive_app_status (app_replicas a.id s') }) s'

pub restart_crashed : Host → Probe → Application → Replica → Work → Work
unfolding try_nginx with_rows
restart_crashed host probe a r w =
    let (r', w') = after_run a r (probe.run r) w in
    let saved = save (with_rows a r' w'.tables) w' in
    if has_text r'.status ("error" ∷ "stopped" ∷ []) then try_nginx host a saved else saved

pub apply_decision : Limits → Host → Probe → Replica → Watch → Decision → Watch
unfolding try_nginx restart_crashed
apply_decision limits host probe r m leave = m
apply_decision limits host probe r m (mark_stopped a) = record m {
  work =
      try_nginx host a (save (set_replica (record r { status = "stopped" }) m.work.tables) m.work);
}
apply_decision limits host probe r m (give_up a) = record m {
  work = try_nginx host a (
      save (set_replica (record r { status = "error"; last_error = str "Crashed" }) m.work.tables)
        m.work);
  history = set_history a.id r.id (recent_restarts limits host a r m) m.history;
}
apply_decision limits host probe r m (restart a) = record m {
  work = restart_crashed host probe a r m.work;
  history = set_history a.id r.id (recent_restarts limits host a r m ++ host.now ∷ []) m.history;
}

-- One instance, and one pass over those that are marked as running.
unfoldable pub check_instance : Limits → Host → Probe → Replica → Watch → Watch
unfolding apply_decision
check_instance limits host probe r m =
    apply_decision limits host probe r m (decide limits host probe r m)

pub check_all : Limits → Host → Probe → List Replica → Watch → Watch
check_all limits host probe [] m = m
check_all limits host probe (r ∷ rs) m =
    check_all limits host probe rs (check_instance limits host probe r m)

unfoldable pub crash_pass : Limits → Host → Probe → Watch → Watch
unfolding check_all
crash_pass limits host probe m =
    check_all limits host probe (select (λ r. str_eq r.status "running") m.work.tables.replicas) m
