-- ===== src/Apps/Nginx.antt =====
-- The nginx configuration of one application: when it is written, in which mode and with which ports.
pub mod Wait
pub mod Restore
pub mod Guard
pub mod Stable
use cloudbase.Prelude.{
  ℕ, zero, suc, ◌+◌, ◌-◌, ◌*◌, ◌≤◌, ◌<◌, min, max, String, ◌≡◌, refl, sym, ap, ◌∙◌, ◌≢◌, ◌↔◌, ◌⊎◌,
  inl, inr, Bool, true, false, not, ◌&&◌, ◌||◌, Option, none, some, List, [], ◌∷◌, ◌++◌, map, arith,
  str_eq, eq_iff, ltb, leb, ◌==◌, ==_iff, if◌then◌else◌, Bool-cases, Option-cases, some-eq, is_some,
  is_some-none, All, length, select, find, any, all, update_where, count_where, length-append, take,
  order_by, find-holds, has_text, starts_with, contains, lower, ends_with, text_length, strip,
  starts_with_comparable, starts_with_apart, starts_with_shorter, starts_with_of_eq, eq_apart,
}
use cloudbase.Prelude.Result.{
  Result, ok, raise, raise_if, is_ok, bind-ok, raise_if-ok, Result-cases,
}
use cloudbase.Nodes.{Application, Replica, Store, node_with_id, app_with_id}
use cloudbase.Apps.Work.{
  write_nginx, remove_nginx, restore_later, Tx, ◌>>=◌, ◌>>◌, return, act, when, raise_when, read,
  write_app, or_num, or_text,
}
use cloudbase.Apps.Runtime.{Host}
use cloudbase.Apps.Nginx.Wait.{Poll, wait_for_app_backends_ready}

abbrev pub has_domain : Option String → Bool
has_domain none = false
has_domain (some s) = not (str_eq s "")

-- `_get_nginx_mode`
abbrev pub nginx_mode : Application → String
nginx_mode app =
    if app.update_mode then "update" else if app.maintenance_mode then "maintenance" else "normal"

abbrev pub has_custom : Application → Bool
has_custom app = app.nginx_enabled && has_domain app.domain

-- `_has_public_nginx_domain`
abbrev pub has_public_domain : Host → Application → Bool
has_public_domain host app = not app.no_web && (has_custom app || not (str_eq host.base_domain ""))

-- TRANSITION_HOLD_MAX_SECONDS
abbrev pub transition_hold_max_seconds : ℕ
transition_hold_max_seconds = 300

-- The dict `_active_transition_modes`.
abbrev pub transition_of : ℕ → List (ℕ × String × ℕ) → Option (String × ℕ)
transition_of app_id [] = none
transition_of app_id ((id, mode, at) ∷ ts) =
    if id == app_id then some (mode, at) else transition_of app_id ts

abbrev pub without_transition : ℕ → List (ℕ × String × ℕ) → List (ℕ × String × ℕ)
without_transition app_id ts = select (λ t. not (t.0 == app_id)) ts

-- `_set_active_transition_mode`
abbrev pub set_transition : ℕ → String → ℕ → Tx (Unit {0})
set_transition app_id mode now w = (
  ok tt,
  record w { transitions = (app_id, mode, now) ∷ without_transition app_id w.transitions },
)

-- `_clear_active_transition_mode`
abbrev pub clear_transition : ℕ → Tx (Unit {0})
clear_transition app_id w =
    (ok tt, record w { transitions = without_transition app_id w.transitions })

-- `_get_active_transition_mode`
abbrev pub active_mode : ℕ → ℕ → Tx (Option String)
active_mode now app_id w = elim (transition_of app_id w.transitions) [
  | none ↦ (ok none, w)
  | some (mode, at) ↦
      if ltb transition_hold_max_seconds (now - at)
      then (ok none, record w { transitions = without_transition app_id w.transitions })
      else (ok (some mode), w)
]

-- `_get_nginx_backends`: the port of a running instance, on this host or at this end of its tunnel.
abbrev pub is_remote : Store → Replica → Bool
is_remote s r = elim r.node_id [
  | none ↦ false
  | some k ↦ elim (node_with_id k s) [ none ↦ false | some n ↦ not n.is_local ]
]

abbrev pub address : Store → Replica → ℕ
address s r = if is_remote s r then or_num r.tunnel_port 0 else or_num r.external_port 0

abbrev pub serves : ℕ → Store → Replica → Bool
serves app_id s r = r.app_id == app_id && str_eq r.status "running" && not (address s r == 0)

unfoldable pub nginx_backends : ℕ → Store → List ℕ
nginx_backends app_id s = map (λ r. address s r) (select (λ r. serves app_id s r) s.replicas)

-- The mode that a write without one of its own takes.
abbrev pub holds_page : Option String → Bool
holds_page none = false
holds_page (some mode) = has_text mode ("restart" ∷ "starting" ∷ [])

abbrev pub held_mode : Host → Application → Tx String
held_mode host app =
    if str_eq (nginx_mode app) "normal"
    then (do
      active ← active_mode host.now app.id
      return (if holds_page active then or_text active "normal" else "normal"))
    else return (nginx_mode app)

abbrev pub effective_mode : Host → Application → Option String → Tx String
effective_mode host app none = held_mode host app
effective_mode host app (some mode) =
    if str_eq mode "" then return (nginx_mode app) else return mode

-- The page of an application that nginx serves.
pub write_page : Host → Application → Option String → Tx (Unit {0})
unfolding nginx_backends
write_page host app mode = do
  raise_when (not host.pages_written) 500
  s ← read
  chosen ← effective_mode host app mode
  raise_when (not host.nginx_written) 500
  act (write_nginx app.id chosen (nginx_backends app.id s))

-- `_write_app_nginx_config`
unfoldable pub write_app_nginx_config : Host → Application → Option String → Tx (Unit {0})
unfolding write_page
write_app_nginx_config host app mode =
    if app.no_web
    then (do write_app (record app { nginx_enabled = false }); act (remove_nginx app.name))
    else when (has_custom app || not (str_eq host.base_domain "")) (write_page host app mode)

-- `_restore_nginx_after_transition`: `ready` is what the wait for the backends came to.
pub restore_page : Host → Bool → ℕ → String → Application → Tx (Unit {0})
unfolding nginx_backends
restore_page host in_time started_at label app = do
  s ← read
  let backends = nginx_backends app.id s
  if length backends == 0
      then when in_time (act (restore_later app.id started_at label))
      else when host.nginx_written (act (write_nginx app.id (nginx_mode app) backends))

-- The look starts at the time of the host; `polls` is what the wait sees.
unfoldable pub restore_after_transition : Host → (ℕ → Poll) → ℕ → ℕ → String → Tx (Unit {0})
unfolding restore_page
restore_after_transition host polls app_id started_at label =
    let waited = wait_for_app_backends_ready polls host.now in
    let in_time = ltb (waited.1 - started_at) transition_hold_max_seconds in
    if not waited.0 && in_time then act (restore_later app_id started_at label) else (do
      clear_transition app_id
      s ← read
      elim (app_with_id app_id s) [
        | none ↦ return tt
        | some app ↦
            when (has_custom app || not (str_eq host.base_domain ""))
              (restore_page host in_time started_at label app)
      ])
