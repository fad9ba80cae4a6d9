-- ===== src/Apps/Lifecycle/Loops.antt =====
-- The loops over the instances keep the conditions on an application's rows.
use cloudbase.Prelude.{
  ℕ, ◌≡◌, refl, ap, inl, inr, true, false, Option, none, some, List, [], ◌∷◌, Bool-cases,
}
use cloudbase.Nodes.{Node, Application, Replica, Store}
use cloudbase.Apps.Work.{stop_container, Work, ◌>>◌, act, when, write_replica}
use cloudbase.Apps.Work.Post.{Post, Kept, Post-bind, when-Kept}
use cloudbase.Apps.Runtime.{
  Host, cleared_replica, reachable, replica_node, start_remote, start_replica_runtime,
  stop_replica_runtime, queue_stop,
}
use cloudbase.Apps.Runtime.Stable.{
  Stable, Same, start_remote-Same, start_replica_runtime-Same, stop_replica_runtime-Kept,
}
use cloudbase.Apps.Lifecycle.{
  to_stop, to_start, start_one, start_all, stop_one, stop_all, restart_here, restart_remote,
  restart_one, restart_all,
}

module _ (I : Work → Type 0) (Allowed : Node → Type 0) (id : ℕ) (stable : Stable I Allowed id)
    (host : Host) (s : Store)
    (allowed : (r : Replica) (n : Node)
      → replica_node host s r ≡ some n
      → n.is_local ≡ false
      → reachable n ≡ true
      → Allowed n) where
  start_one-Same :
      (app : Application) (r : Replica) (w : Work)
      → Same I id app w
      → Post (Same I id) I (start_one host s app r w)
  start_one-Same app r w h = elim (Bool-cases (to_start r)) [
    | inl e ↦ rw e (
        start_replica_runtime-Same I Allowed id stable host app r (replica_node host s r) w
          (allowed r) h)
    | inr e ↦ rw e h
  ]

  pub start_all-Same :
      (app : Application) (rs : List Replica) (w : Work)
      → Same I id app w
      → Post (Same I id) I (start_all host s app rs w)
  unfolding start_all
  start_all-Same app [] w h = h
  start_all-Same app (r ∷ rs) w h =
      Post-bind (Same I id) (Same I id) I (start_one host s app r) (λ a. start_all host s a rs) w
        (start_one-Same app r w h) (λ a w' kept. start_all-Same a rs w' kept)

  pub stop_all-Kept :
      (app : Application) (rs : List Replica) (w : Work) → I w → Kept I (stop_all host s app rs w)
  unfolding stop_all
  stop_all-Kept app [] w h = h
  stop_all-Kept app (r ∷ rs) w h =
      Post-bind (λ u w'. I w') (λ u w'. I w') I (stop_one host s app r)
        (λ u. stop_all host s app rs) w
        (when-Kept I (to_stop r) (stop_replica_runtime host app r (replica_node host s r)) w h (λ e.
          stop_replica_runtime-Kept I Allowed id stable host app r (replica_node host s r) w
            (allowed r) h))
        (λ u w' kept. stop_all-Kept app rs w' kept)

  restart_here-Same :
      (node : Node) (app : Application) (r : Replica) (w : Work)
      → node.is_local ≡ true
      → Same I id app w
      → Post (Same I id) I (restart_here host node app r w)
  restart_here-Same node app r w here (same, h) =
      Post-bind (λ u w'. I w') (Same I id) I (when (to_stop r) (act (stop_container app.id r.id)))
        (λ u.
          write_replica (cleared_replica r)
          >> start_replica_runtime host app (cleared_replica r) (some node))
        w
        (when-Kept I (to_stop r) (act (stop_container app.id r.id)) w h
          (λ e. stable.aside.actions w _ h))
        (λ u w' kept.
          start_replica_runtime-Same I Allowed id stable host app (cleared_replica r) (some node) _
            (λ n e remote on.
              absurd (cc (here, ap (λ x. elim x [ none ↦ true | some m ↦ m.is_local ]) e, remote)))
            (same, stable.replica w' _ kept))

  restart_remote-Same :
      (node : Node) (app : Application) (r : Replica) (w : Work)
      → Allowed node
      → Same I id app w
      → Post (Same I id) I (restart_remote host node app r w)
  restart_remote-Same node app r w may (same, h) =
      Post-bind (λ u w'. I w') (Same I id) I (when (to_stop r) (queue_stop host node app r))
        (λ u. start_remote host node app r) w
        (when-Kept I (to_stop r) (queue_stop host node app r) w h
          (λ e. stable.command w node _ _ _ _ _ may h))
        (λ u w' kept. start_remote-Same I Allowed id stable host node app r w' may (same, kept))

  restart_one-Same :
      (app : Application) (r : Replica) (node : Option Node) (w : Work)
      → ((n : Node) → node ≡ some n → n.is_local ≡ false → reachable n ≡ true → Allowed n)
      → Same I id app w
      → Post (Same I id) I (restart_one host app r node w)
  unfolding restart_one
  restart_one-Same app r none w may (same, h) = (same, stable.replica w _ h)
  restart_one-Same app r (some n) w may (same, h) = elim (Bool-cases n.is_local) [
    | inl e ↦ simp e (restart_here-Same n app r w e (same, h))
    | inr e ↦ elim (Bool-cases (reachable n)) [
      | inl on ↦ simp (e, on) (restart_remote-Same n app r w (may n refl e on) (same, h))
      | inr off ↦ simp (e, off) (same, stable.replica w _ h)
    ]
  ]

  pub restart_all-Same :
      (app : Application) (rs : List Replica) (w : Work)
      → Same I id app w
      → Post (Same I id) I (restart_all host s app rs w)
  unfolding restart_all
  restart_all-Same app [] w h = h
  restart_all-Same app (r ∷ rs) w h =
      Post-bind (Same I id) (Same I id) I (restart_one host app r (replica_node host s r))
        (λ a. restart_all host s a rs) w
        (restart_one-Same app r (replica_node host s r) w (allowed r) h)
        (λ a w' kept. restart_all-Same a rs w' kept)
