-- ===== src/Apps/Runtime/Stable.antt =====
-- Conditions that the start and the stop of an instance keep, whatever they do to its rows.
use cloudbase.Prelude.{
  ℕ, String, ◌≡◌, refl, ◌∙◌, inl, inr, true, false, Option, none, some, List, [], ◌∷◌, ◌++◌,
  Bool-cases,
}
use cloudbase.Nodes.{null, num, Dict, Node, Application, Replica}
use cloudbase.Apps.Work.{Action, Work, ◌>>◌, return, set_replica, set_app, write_replica, queue}
use cloudbase.Apps.Work.Post.{Post, Kept, Post-bind}
use cloudbase.Apps.Start.{
  Docker, running_on, running_before, http, failed, Started, is_revision, refresh, port_of,
  start_instance_local,
}
use cloudbase.Apps.Start.Port.{PortKept, start_instance_local-PortKept}
use cloudbase.Apps.Runtime.{
  Host, starting_replica, reachable, finish_start, start_remote, start_replica_runtime,
  stop_replica_runtime, stopped_clean, queue_stop, remote_payload,
}

-- A condition that does not look at the actions and the pages.
pub record Aside (I : Work → Type 0) : Type 0 where
  pub actions : (w : Work) (xs : List Action) → I w → I (record w { actions = xs })
  pub transitions :
      (w : Work) (ts : List (ℕ × String × ℕ)) → I w → I (record w { transitions = ts })

-- A condition that the writes of one application's rows keep, and the commands for the nodes that a
-- handler may talk to.
pub record Stable (I : Work → Type 0) (Allowed : Node → Type 0) (id : ℕ) : Type 0 where
  pub replica : (w : Work) (r : Replica) → I w → I (record w { tables = set_replica r w.tables })
  pub app :
      (w : Work) (a : Application) → a.id ≡ id → I w → I (record w { tables = set_app a w.tables })
  pub aside : Aside I
  pub saved : (w : Work) → I w → I (record w { saved = w.tables })
  pub command :
      (w : Work) (n : Node) (now : ℕ) (key : String) (app_id : ℕ) (kind : String) (payload : Dict)
      → Allowed n
      → I w
      → Kept I (queue now key n.id app_id kind payload w)

pub refresh-id : (revision : Option String) (app : Application) → (refresh revision app).id ≡ app.id
refresh-id revision app = elim (Bool-cases (is_revision revision)) [
  | inl e ↦ rw e refl
  | inr e ↦ rw e refl
]

-- The condition, with the application that a step returns.
abbrev pub Same : (Work → Type 0) → ℕ → Application → Work → Type 0
Same I id a w = (a.id ≡ id) × I w

module _ (I : Work → Type 0) (Allowed : Node → Type 0) (id : ℕ) (stable : Stable I Allowed id)
    (host : Host) where
  finish_start-Same :
      (docker : Docker) (port : ℕ) (r : Replica) (s : Started) (w : Work)
      → PortKept docker id port r s
      → I w
      → Post (Same I id) I (finish_start s w)
  unfolding finish_start
  finish_start-Same docker port r (running_on cid q, app, r') w (same, row, port_kept, where_from)
        h =
      (same, stable.replica _ _ (stable.app _ _ same (stable.aside.actions _ _ h)))
  finish_start-Same docker port r (running_before cid, app, r') w (same, row, port_kept) h =
      (same, stable.replica _ _ (stable.app _ _ same h))
  finish_start-Same docker port r (http code, app, r') w kept h = h
  finish_start-Same docker port r (failed message, app, r') w kept h = h

  pub start_remote-Same :
      (node : Node) (app : Application) (r : Replica) (w : Work)
      → Allowed node
      → Same I id app w
      → Post (Same I id) I (start_remote host node app r w)
  unfolding start_remote
  start_remote-Same node app r w allowed (same, h) =
      let same' = refresh-id host.revision app ∙ same in
      let app' = refresh host.revision app in
      Post-bind (λ u w'. I w') (Same I id) I
        (queue host.now (host.key "start" r.id) node.id app.id "start_replica"
          (remote_payload host app' (port_of app' r) ++ ("replica_id", num r.id) ∷ []))
        (λ u. write_replica (starting_replica r) >> return app')
        (record w { tables = set_app app' w.tables })
        (stable.command _ node _ _ _ _ _ allowed (stable.app w app' same' h))
        (λ u w' kept. (same', stable.replica w' _ kept))

  pub start_replica_runtime-Same :
      (app : Application) (r : Replica) (node : Option Node) (w : Work)
      → ((n : Node) → node ≡ some n → n.is_local ≡ false → reachable n ≡ true → Allowed n)
      → Same I id app w
      → Post (Same I id) I (start_replica_runtime host app r node w)
  unfolding start_replica_runtime
  start_replica_runtime-Same app r none w allowed (same, h) = (same, stable.replica _ _ h)
  start_replica_runtime-Same app r (some n) w allowed (same, h) = elim (Bool-cases n.is_local) [
    | inl e ↦ rw e (
        finish_start-Same (host.docker r) (port_of app r) r
          (start_instance_local (host.docker r) host.image_tag app r) w
          (rw (← same) (start_instance_local-PortKept (host.docker r) host.image_tag app r)) h)
    | inr e ↦ elim (Bool-cases (reachable n)) [
      | inl on ↦ rw (e, on) (start_remote-Same n app r w (allowed n refl e on) (same, h))
      | inr off ↦ rw (e, off) (same, stable.replica _ _ h)
    ]
  ]

  pub stop_replica_runtime-Kept :
      (app : Application) (r : Replica) (node : Option Node) (w : Work)
      → ((n : Node) → node ≡ some n → n.is_local ≡ false → reachable n ≡ true → Allowed n)
      → I w
      → Kept I (stop_replica_runtime host app r node w)
  unfolding stop_replica_runtime
  stop_replica_runtime-Kept app r none w allowed h =
      stable.replica _ (stopped_clean r) (stable.aside.actions _ _ h)
  stop_replica_runtime-Kept app r (some n) w allowed h = elim (Bool-cases n.is_local) [
    | inl e ↦ rw e (stable.replica _ (stopped_clean r) (stable.aside.actions _ _ h))
    | inr e ↦ elim (Bool-cases (reachable n)) [
      | inl on ↦
          rw (e, on)
            (Post-bind (λ u w'. I w') (λ u w'. I w') I (queue_stop host n app r)
              (λ u. write_replica (record r { status = "stopping"; last_error = null })) w
              (stable.command w n _ _ _ _ _ (allowed n refl e on) h)
              (λ u w' kept. stable.replica w' _ kept))
      | inr off ↦ rw (e, off) (stable.replica _ (stopped_clean r) h)
    ]
  ]
