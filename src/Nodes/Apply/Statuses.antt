-- ===== src/Nodes/Apply/Statuses.antt =====
-- The states of applications and replicas that reports lead to.
use cloudbase.Prelude.{
  ℕ, String, ◌≡◌, refl, inl, inr, Bool, true, false, not, Option, none, some, List, [], ◌∷◌, arith,
  str_eq, eq_iff, ◌==◌, if◌then◌else◌, Bool-cases, All, all, has_text,
}
use cloudbase.Prelude.Result.{ok, raise_if, bind-ok}
use cloudbase.Prelude.Rows.{All-update_where}
use cloudbase.Nodes.{
  Json, null, bool, num, str, object, Dict, get, one_of, NodeCommand, Application, Replica, Store,
  Effect, is_text, has_key, get_or, truthy,
}
use cloudbase.Nodes.Apply.{
  Report, result_of, end_states, own_command, known_status, command_app, touch, app_after,
  replica_after, set_state, deploy_app, fail_app, note_error, clear_error, nginx_from, deployed,
  update_app, git_pull, delete_app, save_nginx_config, save_maintenance_pages, toggle_mode,
  restore_maintenance, restore_update, note_replica_error, first_replica_after, started_replica,
  stopped_replica, touch_tables, same_id, replica_id_of, replica_entry, has_result, is_done,
  apply_command_result,
}

abbrev pub app_states : List String
app_states =
    "deploying" ∷ "running" ∷ "starting" ∷ "restarting" ∷ "stopping" ∷ "stopped" ∷ "error" ∷ []

abbrev pub replica_states : List String
replica_states =
    "pending" ∷ "starting" ∷ "running" ∷ "stopping" ∷ "stopped" ∷ "error" ∷ "node_offline" ∷ []

abbrev pub AppStateKnown : Application → Type 0
AppStateKnown a = has_text a.status app_states ≡ true

abbrev pub ReplicaStateKnown : Replica → Type 0
ReplicaStateKnown r = has_text r.status replica_states ≡ true

has_text_of_subset :
    (s : String) (allowed known : List String)
    → all (λ a. has_text a known) allowed ≡ true
    → has_text s allowed ≡ true
    → has_text s known ≡ true
has_text_of_subset s [] known sub h = cc
has_text_of_subset s (a ∷ allowed) known sub h = elim (Bool-cases (str_eq s a)) [
  | inl e ↦ rw ((eq_iff s a).0 e) (ground arith)
  | inr e ↦ has_text_of_subset s allowed known (ground arith) (ground arith)
]

-- A state that a report names is taken only from the list.
one_of-known :
    (allowed known : List String) (default : String) (v : Json)
    → all (λ a. has_text a known) allowed ≡ true
    → has_text default known ≡ true
    → has_text (one_of allowed default v) known ≡ true
one_of-known allowed known default null sub h = h
one_of-known allowed known default (bool b) sub h = h
one_of-known allowed known default (num n) sub h = h
one_of-known allowed known default (object fields) sub h = h
one_of-known allowed known default (str s) sub h = elim (Bool-cases (has_text s allowed)) [
  | inl e ↦ rw e (has_text_of_subset s allowed known sub e)
  | inr e ↦ rw e h
]

fail_app-known : (r : Report) (a : Application) → AppStateKnown (fail_app r a)
unfolding fail_app note_error
fail_app-known r a = elim (Bool-cases (is_text r.error_message)) [
  | inl e ↦ rw e refl
  | inr e ↦ rw e refl
]

set_state-known :
    (allowed : List String) (default : String) (r : Report) (a : Application)
    → all (λ s. has_text s app_states) allowed ≡ true
    → has_text default app_states ≡ true
    → AppStateKnown (set_state allowed default r a)
unfolding set_state
set_state-known allowed default r a sub d = elim (Bool-cases (is_done r)) [
  | inl e ↦ rw e (one_of-known allowed app_states default (get "status" (result_of r)) sub d)
  | inr e ↦ rw e (fail_app-known r a)
]

if_known : {A : Type 0} (P : A → Type 0) (b : Bool) (x y : A) → P x → P y → P (if b then x else y)
if_known P true x y p q = p
if_known P false x y p q = q

note_error-known : (r : Report) (a : Application) → AppStateKnown a → AppStateKnown (note_error r a)
unfolding note_error
note_error-known r a h = if_known AppStateKnown (is_text r.error_message) _ a h h

nginx_from-known : (d : Dict) (a : Application) → AppStateKnown a → AppStateKnown (nginx_from d a)
unfolding nginx_from
nginx_from-known d a h = if_known AppStateKnown (has_key "nginx_enabled" d) _ a h h

deployed-known : (d : Dict) (a : Application) → AppStateKnown (deployed d a)
unfolding deployed
deployed-known d a =
    if_known AppStateKnown (has_result d) _ _
      (one_of-known end_states app_states "stopped" (get "status" d) refl refl) refl

deploy_app-known : (r : Report) (a : Application) → AppStateKnown (deploy_app r a)
unfolding deploy_app clear_error
deploy_app-known r a =
    if_known AppStateKnown (is_done r) _ _ (deployed-known (result_of r) a) (fail_app-known r a)

module _ (r : Report) (a : Application) (h : AppStateKnown a) where
  update_app-known : AppStateKnown (update_app r a)
  unfolding update_app clear_error
  update_app-known =
      if_known AppStateKnown (is_done r) _ _ (nginx_from-known (result_of r) a h)
        (note_error-known r a h)

  git_pull-known : AppStateKnown (git_pull r a)
  unfolding git_pull clear_error
  git_pull-known = if_known AppStateKnown (is_done r) _ _ h (note_error-known r a h)

  delete_app-known : AppStateKnown (delete_app r a)
  unfolding delete_app clear_error
  delete_app-known = if_known AppStateKnown (is_done r) _ _ refl (fail_app-known r a)

  save_nginx_config-known : AppStateKnown (save_nginx_config r a)
  unfolding save_nginx_config clear_error
  save_nginx_config-known =
      if_known AppStateKnown (is_done r) _ _
        (if_known AppStateKnown (truthy (get "ok" (result_of r))) _ _ h h) (note_error-known r a h)

  save_maintenance_pages-known : AppStateKnown (save_maintenance_pages r a)
  unfolding save_maintenance_pages clear_error
  save_maintenance_pages-known =
      if_known AppStateKnown (is_done r) _ _
        (if_known AppStateKnown (truthy (get_or "ok" (bool true) (result_of r))) _ _ h h)
        (note_error-known r a h)

  toggle_mode-known : (payload : Dict) → AppStateKnown (toggle_mode payload r a)
  unfolding toggle_mode clear_error restore_maintenance restore_update
  toggle_mode-known payload = if_known AppStateKnown (is_done r) _ _ h (
      note_error-known r (restore_update payload (restore_maintenance payload a)) (
        if_known AppStateKnown (has_key "previous_update_mode" payload) _ _
          (if_known AppStateKnown (has_key "previous_maintenance_mode" payload) _ _ h h)
          (if_known AppStateKnown (has_key "previous_maintenance_mode" payload) _ _ h h)))

  modes-known :
      (kind : String) (payload : Dict)
      → AppStateKnown (
          if has_text kind ("toggle_maintenance_mode" ∷ "toggle_update_mode" ∷ [])
          then toggle_mode payload r a
          else a)
  modes-known kind payload =
      if_known AppStateKnown (has_text kind ("toggle_maintenance_mode" ∷ "toggle_update_mode" ∷ []))
        _ _ (toggle_mode-known payload) h

  app_after-known : (kind : String) (payload : Dict) → AppStateKnown (app_after kind payload r a)
  unfolding app_after
  app_after-known kind payload =
      if_known AppStateKnown (str_eq kind "deploy_app") _ _ (deploy_app-known r a) (
        if_known AppStateKnown (str_eq kind "update_app") _ _ update_app-known (
          if_known AppStateKnown (str_eq kind "git_pull") _ _ git_pull-known (
            if_known AppStateKnown (str_eq kind "start_app") _ _
              (set_state-known ("running" ∷ "starting" ∷ "stopped" ∷ "error" ∷ []) "running" r a
                refl refl)
              (if_known AppStateKnown (str_eq kind "restart_app") _ _
                (set_state-known ("running" ∷ "restarting" ∷ "stopped" ∷ "error" ∷ []) "running" r a
                  refl refl)
                (if_known AppStateKnown (str_eq kind "stop_app") _ _
                  (set_state-known ("stopped" ∷ "stopping" ∷ "running" ∷ "error" ∷ []) "stopped" r a
                    refl refl)
                  (if_known AppStateKnown (str_eq kind "delete_app") _ _ delete_app-known (
                    if_known AppStateKnown (str_eq kind "save_nginx_config") _ _
                      save_nginx_config-known
                      (if_known AppStateKnown (str_eq kind "save_maintenance_pages") _ _
                        save_maintenance_pages-known (modes-known kind payload)))))))))

module _ (r : Report) (rep : Replica) where
  first_replica_after-known : ReplicaStateKnown (first_replica_after r rep)
  unfolding first_replica_after note_replica_error
  first_replica_after-known =
      if_known ReplicaStateKnown (is_done r) _ _
        (one_of-known end_states replica_states "stopped"
          (get_or "status" (str "stopped") (result_of r)) refl refl)
        (if_known ReplicaStateKnown (is_text r.error_message) _ _ refl refl)

  replica_after-known : (kind : String) → ReplicaStateKnown (replica_after kind r rep)
  unfolding replica_after started_replica stopped_replica note_replica_error
  replica_after-known kind =
      if_known ReplicaStateKnown (str_eq kind "deploy_app") _ _ first_replica_after-known (
        if_known ReplicaStateKnown (str_eq kind "start_replica") _ _
          (if_known ReplicaStateKnown (is_done r) _ _ refl refl)
          (if_known ReplicaStateKnown (is_done r) _ _ refl
            (if_known ReplicaStateKnown (is_text r.error_message) _ _ refl refl)))

abbrev pub StatesKnown : Store → Type 0
StatesKnown s = All AppStateKnown s.apps × All ReplicaStateKnown s.replicas

tables-StatesKnown :
    (now : ℕ) (cmd : NodeCommand) (r : Report) (app_id : ℕ) (id : Option ℕ) (s : Store)
    → StatesKnown s
    → StatesKnown (touch_tables now cmd r app_id id s)
unfolding touch_tables
tables-StatesKnown now cmd r app_id id s (known_apps, known_replicas) =
    let app_kept = λ (a : Application) (h : AppStateKnown a).
      app_after-known r a h cmd.command_type cmd.payload in
    let replica_kept =
      λ (rep : Replica) (h : ReplicaStateKnown rep). replica_after-known r rep cmd.command_type in
    (
      All-update_where AppStateKnown (λ a. a.id == app_id)
          (λ a. record (app_after cmd.command_type cmd.payload r a) { updated_at = now }) s.apps
          app_kept known_apps,
      All-update_where ReplicaStateKnown (λ rep. same_id id rep.id)
          (replica_after cmd.command_type r) s.replicas replica_kept known_replicas,
    )

touch-StatesKnown :
    (now : ℕ) (cmd : NodeCommand) (r : Report) (s s' : Store) (app : Option Application)
    → StatesKnown s
    → touch now cmd r s app ≡ ok s'
    → StatesKnown s'
unfolding touch touch_tables
touch-StatesKnown now cmd r s s' none known e = ground arith
touch-StatesKnown now cmd r s s' (some app) (known_apps, known_replicas) e =
    let (id, found, e') =
      bind-ok (replica_id_of (replica_entry cmd.command_type cmd.payload)) _ e in
    let same : touch_tables now cmd r app.id id s ≡ s' = ground arith in
    rw (← same) (tables-StatesKnown now cmd r app.id id s (known_apps, known_replicas))

-- From tables where every application is in one of the seven states `app_states`, "deploying" among
-- them, and every replica in one of the seven `replica_states`, a
-- report that is taken leads to tables where they still are, whatever states the report names.
pub apply-StatesKnown :
    (now node_id command_id : ℕ) (r : Report) (s s' : Store) (effects : List Effect)
    → StatesKnown s
    → apply_command_result now node_id command_id r s ≡ ok (s', effects)
    → StatesKnown s'
unfolding apply_command_result
apply-StatesKnown now node_id command_id r s s' effects known e =
    let (cmd, owned, e₁) = bind-ok (own_command node_id command_id s) _ e in
    let (u, checked, e₂) = bind-ok (raise_if (not (has_text r.status known_status)) 400) _ e₁ in
    let (s'', touched, e₃) = bind-ok (touch now cmd r _ (command_app cmd s)) _ e₂ in
    let same : s'' ≡ s' = ground arith in
    rw (← same) (touch-StatesKnown now cmd r _ s'' (command_app cmd s) known touched)
