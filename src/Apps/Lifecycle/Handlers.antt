-- ===== src/Apps/Lifecycle/Handlers.antt =====
-- The handlers that start, stop and restart: each ends in the state that its end settles.
use cloudbase.Prelude.{
  ℕ, ◌≡◌, refl, sym, ap, ◌∙◌, inl, inr, Bool, true, false, not, ◌&&◌, some, List, [], ◌∷◌, arith,
  ◌==◌, Bool-cases, is_some, length, any,
}
use cloudbase.Nodes.{Node, Application, Replica, app_with_id}
use cloudbase.Apps.Work.{Work, ◌>>=◌, read, app_replicas}
use cloudbase.Apps.Work.Post.{Post, Post-bind}
use cloudbase.Apps.Runtime.{Host, derive_app_status, replica_node, reachable}
use cloudbase.Apps.Runtime.Stable.{Stable, Same, refresh-id}
use cloudbase.Apps.Start.{refresh}
use cloudbase.Apps.Nginx.{has_public_domain}
use cloudbase.Apps.Lifecycle.{
  get_or_404, load_replicas, is_live, stop_legacy_container, shows_page, settle, finish, start_all,
  stop_all, stop_empty, restart_all, start_instances, start_checked, stop_found, restart_instances,
  restart_checked, start_app, stop_app, restart_app,
}
use cloudbase.Apps.Lifecycle.Loops.{start_all-Same, stop_all-Kept, restart_all-Same}
use cloudbase.Apps.Lifecycle.Settled.{
  DerivedToo, Settled, finish-Settled, tail-Settled, get_or_404-Same, legacy-Kept, legacy_tables,
  checked-Settled, settle-Derived, placed-Derived,
}

length-empty : {A : Type 0} (xs : List A) → (length xs == 0) ≡ true → xs ≡ []
length-empty [] e = refl
length-empty (x ∷ xs) e = absurd (ground arith)

module _ (I : Work → Type 0) (Allowed : Node → Type 0) (id : ℕ) (stable : Stable I Allowed id)
    (has : (w : Work) → I w → is_some (app_with_id id w.tables) ≡ true) (host : Host) where
  module _
      (allowed : (w : Work)
        → I w
        → (r : Replica) (n : Node) → replica_node host w.tables r ≡ some n
        → n.is_local ≡ false
        → reachable n ≡ true
        → Allowed n) where
    start_instances-Settled :
        (page : Bool) (app : Application) (rows : List Replica) (w : Work)
        → Same I id app w
        → Post (Settled I Allowed id stable has host) I (start_instances host page app rows w)
    start_instances-Settled page app rows w (same, h) =
        Post-bind (λ u w'. I w') (Settled I Allowed id stable has host) I
          (stop_legacy_container host app.id)
          (λ u. read >>= λ s. start_all host s (refresh host.revision app) rows >>= λ started.
            settle host page started >>= λ a. finish host page "app.start" "start" a)
          w (legacy-Kept I Allowed id stable has host app.id w h)
          (λ u w' kept.
            Post-bind (Same I id) (Settled I Allowed id stable has host) I
              (start_all host w'.tables (refresh host.revision app) rows)
              (λ started. settle host page started >>= λ a. finish host page "app.start" "start" a)
              w'
              (start_all-Same I Allowed id stable host w'.tables (allowed w' kept)
                (refresh host.revision app) rows w' (refresh-id host.revision app ∙ same, kept))
              (λ a w'' still.
                tail-Settled I Allowed id stable has host page "app.start" "start" a w'' still))

    pub start_app-Settled :
        (w : Work) → I w → Post (Settled I Allowed id stable has host) I (start_app host id w)
    unfolding start_app
    start_app-Settled w h =
        Post-bind (Same I id) (Settled I Allowed id stable has host) I (get_or_404 id)
          (λ app. load_replicas id >>= λ rows. start_checked host app rows) w
          (get_or_404-Same I Allowed id stable has host w h)
          (λ app w' kept.
            let rows = app_replicas id w'.tables in
            checked-Settled I Allowed id stable has host "starting" (start_instances host)
              start_instances-Settled (not (any is_live rows) && shows_page host app) app rows w'
              kept)

    stop_all-Settled :
        (app : Application) (rows : List Replica) (w : Work)
        → Same I id app w
        → Post
            (DerivedToo I Allowed id stable has host)
            I
            ((stop_all host w.tables app rows >>= λ done. settle host false app) w)
    stop_all-Settled app rows w (same, h) =
        Post-bind (λ u w'. I w') (DerivedToo I Allowed id stable has host) I
          (stop_all host w.tables app rows) (λ done. settle host false app) w
          (stop_all-Kept I Allowed id stable host w.tables (allowed w h) app rows w h)
          (λ u w' kept. settle-Derived I Allowed id stable has host false app w' (same, kept))

    -- An application without instances has the status that no instances give.
    stop_empty-Derived :
        (app : Application) (w : Work)
        → (length (app_replicas id w.tables) == 0) ≡ true
        → Same I id app w
        → Post (DerivedToo I Allowed id stable has host) I (stop_empty host app w)
    unfolding derive_app_status
    stop_empty-Derived app w empty (same, h) =
        let none_left : app_replicas id w.tables ≡ [] =
          length-empty (app_replicas id w.tables) empty in
        placed-Derived I Allowed id stable has host "stopped" (has_public_domain host app) app w
          (rw (ap (λ k. app_replicas k w.tables) same ∙ none_left) refl) (λ on. ground arith)
          (same, h)

    stop_found-Derived :
        (app : Application) (rows : List Replica) (w : Work)
        → rows ≡ app_replicas id w.tables
        → Same I id app w
        → Post (DerivedToo I Allowed id stable has host) I (stop_found host app rows w)
    stop_found-Derived app rows w same_rows h = elim (Bool-cases (length rows == 0)) [
      | inl e ↦ rw e (stop_empty-Derived app w (ap (λ rs. length rs == 0) (sym same_rows) ∙ e) h)
      | inr e ↦ rw e (stop_all-Settled app rows w h)
    ]

    pub stop_app-Settled :
        (w : Work) → I w → Post (Settled I Allowed id stable has host) I (stop_app host id w)
    unfolding stop_app
    stop_app-Settled w h =
        Post-bind (Same I id) (Settled I Allowed id stable has host) I (get_or_404 id)
          (λ app. load_replicas id >>= λ rows. stop_legacy_container host id >>= λ u.
            stop_found host app rows >>= λ a. finish host false "app.stop" "stop" a)
          w (get_or_404-Same I Allowed id stable has host w h)
          (λ app w' (same, kept).
            let rows = app_replicas id w'.tables in
            Post-bind (λ u v. (v.tables ≡ w'.tables) × I v) (Settled I Allowed id stable has host) I
              (stop_legacy_container host id)
              (λ u. stop_found host app rows >>= λ a. finish host false "app.stop" "stop" a) w'
              (legacy_tables I Allowed id stable has host w' kept)
              (λ u v (tables, still).
                Post-bind (DerivedToo I Allowed id stable has host)
                  (Settled I Allowed id stable has host) I (stop_found host app rows)
                  (λ a. finish host false "app.stop" "stop" a) v
                  (stop_found-Derived app rows v (ap (app_replicas id) (sym tables)) (same, still))
                  (λ a v' d.
                    finish-Settled I Allowed id stable has host false "app.stop" "stop" a v' d)))

    restart_instances-Settled :
        (page : Bool) (app : Application) (rows : List Replica) (w : Work)
        → Same I id app w
        → Post (Settled I Allowed id stable has host) I (restart_instances host page app rows w)
    restart_instances-Settled page app rows w (same, h) =
        Post-bind (λ u w'. I w') (Settled I Allowed id stable has host) I
          (stop_legacy_container host app.id)
          (λ u. read >>= λ s. restart_all host s app rows >>= λ started.
            settle host page started >>= λ a. finish host page "app.restart" "restart" a)
          w (legacy-Kept I Allowed id stable has host app.id w h)
          (λ u w' kept.
            Post-bind (Same I id) (Settled I Allowed id stable has host) I
              (restart_all host w'.tables app rows)
              (λ started.
                settle host page started >>= λ a. finish host page "app.restart" "restart" a)
              w'
              (restart_all-Same I Allowed id stable host w'.tables (allowed w' kept) app rows w'
                (same, kept))
              (λ a w'' still.
                tail-Settled I Allowed id stable has host page "app.restart" "restart" a w'' still))

    pub restart_app-Settled :
        (w : Work) → I w → Post (Settled I Allowed id stable has host) I (restart_app host id w)
    unfolding restart_app
    restart_app-Settled w h =
        Post-bind (Same I id) (Settled I Allowed id stable has host) I (get_or_404 id)
          (λ app. load_replicas id >>= λ rows. restart_checked host app rows) w
          (get_or_404-Same I Allowed id stable has host w h)
          (λ app w' kept.
            let rows = app_replicas id w'.tables in
            checked-Settled I Allowed id stable has host "restart" (restart_instances host)
              restart_instances-Settled (any is_live rows && shows_page host app) app rows w' kept)
