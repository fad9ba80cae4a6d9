-- ===== src/Apps/Scale/Limit.antt =====
-- How many instances there are after one was added.
use cloudbase.Prelude.{
  ℕ, ◌≤◌, ◌<◌, refl, ap, inl, inr, none, [], ◌∷◌, ◌++◌, arith, str_eq, leb, ◌==◌, Bool-cases,
  Option-cases, length, update_where, length-append,
}
use cloudbase.Prelude.Result.{Result-cases}
use cloudbase.Prelude.Rows.{length-update}
use cloudbase.Nodes.{Json, num, str, Node, Application, Replica, Store, app_with_id}
use cloudbase.Apps.Work.{
  run_container, audit_app, Work, ◌>>=◌, ◌>>◌, return, act, raise_when, commit, read, write_replica,
  queue, set_app, set_replica,
}
use cloudbase.Apps.Work.Post.{Post, Kept, Post-bind, Post-left, when-Kept}
use cloudbase.Apps.Work.Commands.{queue-Kept}
use cloudbase.Apps.Start.{
  running_on, running_before, http, failed, Started, refresh, start_instance_local,
}
use cloudbase.Apps.Runtime.{Host, remote_payload}
use cloudbase.Apps.Runtime.Stable.{Stable}
use cloudbase.Apps.Nginx.{has_public_domain, write_app_nginx_config}
use cloudbase.Apps.Nginx.Stable.{write_app_nginx_config-Kept}
use cloudbase.Apps.Lifecycle.{get_or_404}
use cloudbase.Apps.Instances.{republish}
use cloudbase.Apps.Ports.{PortRange, assign_external_port}
use cloudbase.Apps.Scale.{
  ScaleRequest, own_options, instance_options, with_options, target_node, add_replica,
  record_failure, scaled_here, scaled_there, start_scaled, scale_placed, scale_checked, scale_app,
}

-- At most `limit` instances, in the session and as committed.
abbrev pub Within : ℕ → Work → Type 0
Within limit w = (length w.tables.replicas ≤ limit) × (length w.saved.replicas ≤ limit)

Within-Stable : (limit id : ℕ) → Stable (Within limit) (λ n. Unit) id
Within-Stable limit id = record {
  replica = λ w r (tables, saved).
      (rw (length-update (λ x. x.id == r.id) (λ x. r) w.tables.replicas) tables, saved);
  app = λ w a same h. h;
  aside = record { actions = λ w xs h. h; transitions = λ w ts h. h };
  saved = λ w (tables, saved). (tables, tables);
  command = λ w n now key app_id kind payload u (tables, saved).
      queue-Kept now key n.id app_id kind payload w (Within limit) (λ s xs (apps, ns, rs, cs).
        let few : length s.replicas ≤ limit = omega (arith, ap length rs, tables) in (few, few));
}

module _ (limit : ℕ) (host : Host) where
  republish-Within :
      (app : Application) (w : Work) → Within limit w → Kept (Within limit) (republish host app w)
  republish-Within app w h =
      when-Kept (Within limit) (has_public_domain host app) (write_app_nginx_config host app none) w
        h
        (λ on.
          write_app_nginx_config-Kept (Within limit) (λ n. Unit) app.id (Within-Stable limit app.id)
            host app none w refl h)

  record_failure-Within :
      (message : Json) (app : Application) (r : Replica) (w : Work)
      → Within limit w
      → Kept (Within limit) (record_failure message app r w)
  record_failure-Within message app r w (tables, saved) =
      let row = record r { status = "error"; last_error = message } in
      let few : length (update_where (λ x. x.id == r.id) (λ x. row) w.tables.replicas) ≤ limit =
        omega (arith, length-update (λ x. x.id == r.id) (λ x. row) w.tables.replicas, tables) in
      (few, few)

  scaled_here-Within :
      (s : Started) (w : Work) → Within limit w → Kept (Within limit) (scaled_here host s w)
  unfolding scaled_here
  scaled_here-Within (running_on cid port, app, r) w h =
      let stable = Within-Stable limit app.id in
      let acted = record w { actions = w.actions ++ run_container app.id r.id port ∷ [] } in
      let placed = record acted { tables = set_app app w.tables } in
      let r' = record r { status = "running"; container_id = str cid } in
      let written = record placed { tables = set_replica r' placed.tables } in
      Post-bind (λ u v. Within limit v) (λ u v. Within limit v) (Within limit) (republish host app)
        (λ u. return r') written (republish-Within app written (stable.replica placed r' h))
        (λ u v kept. kept)
  scaled_here-Within (running_before cid, app, r) w h =
      let stable = Within-Stable limit app.id in
      let placed = record w { tables = set_app app w.tables } in
      let r' = record r { status = "running"; container_id = str cid } in
      let written = record placed { tables = set_replica r' placed.tables } in
      Post-bind (λ u v. Within limit v) (λ u v. Within limit v) (Within limit) (republish host app)
        (λ u. return r') written (republish-Within app written (stable.replica placed r' h))
        (λ u v kept. kept)
  scaled_here-Within (http code, app, r) w h = record_failure-Within (str "") app r w h
  scaled_here-Within (failed message, app, r) w h = record_failure-Within (str message) app r w h

  scaled_there-Within :
      (node : Node) (req : ScaleRequest) (app : Application) (port : ℕ) (r : Replica) (w : Work)
      → Within limit w
      → Kept (Within limit) (scaled_there host node req app port r w)
  unfolding scaled_there
  scaled_there-Within node req app port r w h = elim (Bool-cases (str_eq node.status "online")) [
    | inl e ↦
        let app' = refresh host.revision app in
        let stable = Within-Stable limit app.id in
        let placed = record w { tables = set_app app' w.tables } in
        let r' = record r { status = "starting" } in
        simp e (
          Post-bind (λ u v. Within limit v) (λ u v. Within limit v) (Within limit)
            (queue host.now (host.key "start" r.id) node.id app.id "start_replica" (
              with_options (instance_options app' req) (remote_payload host app' port)
              ++ ("replica_id", num r.id) ∷ []))
            (λ u. write_replica r' >> return r') placed (stable.command placed node _ _ _ _ _ tt h)
            (λ u v kept. stable.replica v r' kept))
    | inr e ↦ simp e h
  ]

  start_scaled-Within :
      (node : Node) (req : ScaleRequest) (app : Application) (port : ℕ) (r : Replica) (w : Work)
      → Within limit w
      → Kept (Within limit) (start_scaled host node req app port r w)
  unfolding start_scaled
  start_scaled-Within node req app port r w h = elim (Bool-cases node.is_local) [
    | inl e ↦
        let own = record r { docker = own_options req } in
        simp e
          (scaled_here-Within (start_instance_local (host.docker r) host.image_tag app own) w h)
    | inr e ↦ simp e (scaled_there-Within node req app port r w h)
  ]

  -- The new row, when there is room for it.
  add_replica-Within :
      (app_id node_id port : ℕ) (w : Work)
      → length w.tables.replicas < limit
      → Within limit w
      → Post (λ r v. Within limit v) (Within limit) (add_replica app_id node_id port w)
  unfolding add_replica
  add_replica-Within app_id node_id port w room (tables, saved) =
      (omega (arith, length-append w.tables.replicas, room), saved)

  scale_placed-Within :
      (app_id : ℕ) (req : ScaleRequest) (app : Application) (node : Node) (port : ℕ) (w : Work)
      → length w.tables.replicas < limit
      → Within limit w
      → Kept (Within limit) (scale_placed host app_id req app node port w)
  unfolding scale_placed
  scale_placed-Within app_id req app node port w room h =
      Post-bind (λ r v. Within limit v) (λ r v. Within limit v) (Within limit)
        (add_replica app_id node.id port)
        (λ r. start_scaled host node req app port r >>= λ r'.
          act (audit_app "app.scale_up" app.name r'.id) >> (commit >> return r'))
        w (add_replica-Within app_id node.id port w room h)
        (λ r v kept.
          Post-bind (λ r v. Within limit v) (λ r v. Within limit v) (Within limit)
            (start_scaled host node req app port r)
            (λ r'. act (audit_app "app.scale_up" app.name r'.id) >> (commit >> return r')) v
            (start_scaled-Within node req app port r v kept)
            (λ r' v' (tables, saved). (tables, tables)))

  module _ (range : PortRange) (app_id : ℕ) (req : ScaleRequest) where
    -- The node and the port are chosen without a change.
    scale_checked-Within :
        (s : Store) (app : Application) (w : Work)
        → length w.tables.replicas < limit
        → Within limit w
        → Kept (Within limit) (scale_checked host range app_id req s app w)
    scale_checked-Within s app w room h = elim (Result-cases (target_node host req.node_id s)) [
      | inl (code, e) ↦ rw e h
      | inr (node, e) ↦ elim (Result-cases (assign_external_port range none node.id none s)) [
        | inl (code, e') ↦ rw (e, e') h
        | inr (port, e') ↦ rw (e, e') (scale_placed-Within app_id req app node port w room h)
      ]
    ]

    limit_then :
        (app : Application) (w : Work)
        → Within limit w
        → Kept (Within limit) (
            (raise_when (leb limit (length w.tables.replicas)) 400
                >> scale_checked host range app_id req w.tables app)
              w)
    limit_then app w h = elim (Bool-cases (leb limit (length w.tables.replicas))) [
      | inl e ↦ rw e h
      | inr e ↦ rw e (scale_checked-Within w.tables app w (ground arith) h)
    ]

get_or_404-Kept : (I : Work → Type 0) (id : ℕ) (w : Work) → I w → Kept I (get_or_404 id w)
get_or_404-Kept I id w h = elim (Option-cases (app_with_id id w.tables)) [
  | inl e ↦ rw e h
  | inr (a, e) ↦ rw e h
]

-- Adding an instance never takes the number of instances over the limit of the configuration, in the
-- session and as committed, whether the handler returns or raises.
pub scale_app-Within :
    (host : Host) (range : PortRange) (limit app_id : ℕ) (req : ScaleRequest) (w : Work)
    → Within limit w
    → Within limit (scale_app host range limit app_id req w).1
unfolding scale_app
scale_app-Within host range limit app_id req w h =
    Post-left (Within limit) (scale_app host range limit app_id req w) (
      Post-bind (λ a v. Within limit v) (λ r v. Within limit v) (Within limit) (get_or_404 app_id)
        (λ app. read >>= λ s.
          raise_when (leb limit (length s.replicas)) 400
          >> scale_checked host range app_id req s app)
        w (get_or_404-Kept (Within limit) app_id w h)
        (λ app v kept. limit_then limit host range app_id req app v kept))
