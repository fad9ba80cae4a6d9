-- ===== src/Apps/Lifecycle/Settled.antt =====
-- The end of the handlers: the application's status is that of its instances, and all is committed.
use cloudbase.Prelude.{
  ℕ, String, ◌≡◌, refl, ap, ◌∙◌, inl, inr, Bool, true, false, not, ◌&&◌, ◌||◌, none, some, List, [],
  ◌∷◌, ◌++◌, arith, str_eq, ◌==◌, Bool-cases, Option-cases, is_some, length, find-holds,
}
use cloudbase.Prelude.Rows.{find-replace}
use cloudbase.Nodes.{Node, Application, Replica, Store, app_with_id}
use cloudbase.Apps.Work.{
  stop_legacy, restore_later, audit_app, Work, Tx, ◌>>=◌, ◌>>◌, return, act, when, raise_when,
  set_app, write_app, app_replicas,
}
use cloudbase.Apps.Work.Post.{Post, Kept, Post-bind, Post-of, when-Kept}
use cloudbase.Apps.Runtime.{Host, derive_app_status}
use cloudbase.Apps.Runtime.Stable.{Aside, Stable, Same}
use cloudbase.Apps.Nginx.{has_public_domain, has_custom, write_app_nginx_config, write_page}
use cloudbase.Apps.Nginx.Stable.{write_page-Kept, write_app_nginx_config-Kept}
use cloudbase.Apps.Lifecycle.{get_or_404, stop_legacy_container, begin_page, settle, finish}

-- The row of the application is the one that is returned, with the status of its instances.
abbrev pub Derived : ℕ → Application → Store → Type 0
Derived id a s =
    (a.id ≡ id)
    × (app_with_id id s ≡ some a)
    × (a.status ≡ derive_app_status (app_replicas id s))
    × (a.pid ≡ none)

module _ (I : Work → Type 0) (Allowed : Node → Type 0) (id : ℕ) (stable : Stable I Allowed id)
    (has : (w : Work) → I w → is_some (app_with_id id w.tables) ≡ true) (host : Host) where
  abbrev pub DerivedToo : Application → Work → Type 0
  DerivedToo a w = Derived id a w.tables × I w

  DerivedToo-Aside : (a : Application) → Aside (DerivedToo a)
  DerivedToo-Aside a = record {
    actions = λ w xs (d, h). (d, stable.aside.actions w xs h);
    transitions = λ w ts (d, h). (d, stable.aside.transitions w ts h);
  }

  nginx_tail :
      (app : Application) (test : Bool) (w : Work)
      → (test ≡ true → app.no_web ≡ false)
      → DerivedToo app w
      → Kept (DerivedToo app) (when test (write_app_nginx_config host app none) w)
  unfolding write_app_nginx_config
  nginx_tail app test w web h =
      when-Kept (DerivedToo app) test (write_app_nginx_config host app none) w h (λ on.
        simp (web on) (
          when-Kept (DerivedToo app) (has_custom app || not (str_eq host.base_domain ""))
            (write_page host app none) w h
            (λ may. write_page-Kept (DerivedToo app) (DerivedToo-Aside app) host app none w h)))

  app_replaced :
      (a : Application) (w : Work) → a.id ≡ id → I w → app_with_id id (set_app a w.tables) ≡ some a
  app_replaced a w same h = elim (Option-cases (app_with_id id w.tables)) [
    | inl e ↦ absurd (cc (has w h, ap is_some e))
    | inr (old, found) ↦ simp same (find-replace (λ x. x.id) id old a w.tables.apps same found)
  ]

  abbrev with_status : String → Application → Application
  with_status status app = record app { status = status; pid = none }

  -- The end of `settle`, and that of `stop_empty`.
  pub placed-Derived :
      (status : String) (test : Bool) (app : Application) (w : Work)
      → status ≡ derive_app_status (app_replicas app.id w.tables)
      → (test ≡ true → app.no_web ≡ false)
      → Same I id app w
      → Post DerivedToo I (
          (write_app (with_status status app)
              >> (when test (write_app_nginx_config host (with_status status app) none)
                  >> return (with_status status app)))
            w)
  placed-Derived status test app w derived web (same, h) =
      let app' = with_status status app in
      let step = when test (write_app_nginx_config host app' none) in
      let written = record w { tables = set_app app' w.tables } in
      let row = app_replaced app' w same h in
      let right = derived ∙ ap (λ k. derive_app_status (app_replicas k w.tables)) same in
      Post-bind (λ u. DerivedToo app') DerivedToo I step (λ u. return app') written
        (Post-of (λ u. DerivedToo app') (λ u. DerivedToo app') (DerivedToo app') I (step written)
          (λ u w' kept. kept) (λ w' kept. kept.1)
          (nginx_tail app' test written web ((same, row, right, refl), stable.app w app' same h)))
        (λ u w' kept. kept)

  pub settle-Derived :
      (page : Bool) (app : Application) (w : Work)
      → Same I id app w
      → Post DerivedToo I (settle host page app w)
  unfolding settle
  settle-Derived page app w h =
      placed-Derived (derive_app_status (app_replicas app.id w.tables))
        (has_public_domain host app && not page) app w refl (λ on. ground arith) h

  -- What a handler that returned leaves: the row with the status of its instances, and a commit.
  abbrev pub Settled : Application → Work → Type 0
  Settled a w = DerivedToo a w × (w.saved ≡ w.tables)

  pub finish-Settled :
      (page : Bool) (event label : String) (app : Application) (w : Work)
      → DerivedToo app w
      → Post Settled I (finish host page event label app w)
  finish-Settled page event label app w (d, h) =
      let acted = record w { actions = w.actions ++ audit_app event app.name app.id ∷ [] } in
      let kept = stable.saved acted (stable.aside.actions w acted.actions h) in
      elim (Bool-cases page) [
        | inl e ↦
            let task = restore_later app.id host.now label in
            let last =
              stable.aside.actions (record acted { saved = acted.tables })
                (acted.actions ++ task ∷ []) kept in
            rw e ((d, last), refl)
        | inr e ↦ rw e ((d, kept), refl)
      ]

  -- The end of each handler.
  pub tail-Settled :
      (page : Bool) (event label : String) (app : Application) (w : Work)
      → Same I id app w
      → Post Settled I ((settle host page app >>= λ a. finish host page event label a) w)
  tail-Settled page event label app w h =
      Post-bind DerivedToo Settled I (settle host page app) (λ a. finish host page event label a) w
        (settle-Derived page app w h) (λ a w' kept. finish-Settled page event label a w' kept)

  pub get_or_404-Same : (w : Work) → I w → Post (Same I id) I (get_or_404 id w)
  get_or_404-Same w h = elim (Option-cases (app_with_id id w.tables)) [
    | inl e ↦ rw e h
    | inr (a, e) ↦ rw e (ground (arith, find-holds (λ x. x.id == id) w.tables.apps a e), h)
  ]

  begin_page-Kept :
      (app : Application) (mode : String) (w : Work)
      → Same I id app w
      → Kept I (begin_page host app mode w)
  begin_page-Kept app mode w (same, h) =
      write_app_nginx_config-Kept I Allowed id stable host app (some mode) _ same
        (stable.aside.transitions w _ h)

  pub legacy-Kept : (app_id : ℕ) (w : Work) → I w → Kept I (stop_legacy_container host app_id w)
  legacy-Kept app_id w h =
      when-Kept I host.legacy_running (act (stop_legacy app_id)) w h
        (λ e. stable.aside.actions w (w.actions ++ stop_legacy app_id ∷ []) h)

  pub legacy_tables :
      (w : Work)
      → I w
      → Post (λ u v. (v.tables ≡ w.tables) × I v) I (stop_legacy_container host id w)
  legacy_tables w h = elim (Bool-cases host.legacy_running) [
    | inl e ↦ rw e (refl, stable.aside.actions w _ h)
    | inr e ↦ rw e (refl, h)
  ]

  -- A handler that checks, shows a page where it has to, and goes on.
  module _ (mode : String) (next : Bool → Application → List Replica → Tx Application)
      (next-Settled : (page : Bool) (app : Application) (rows : List Replica) (w : Work)
        → Same I id app w
        → Post Settled I (next page app rows w)) where
    page_then :
        (page : Bool) (app : Application) (rows : List Replica) (w : Work)
        → Same I id app w
        → Post Settled I ((when page (begin_page host app mode) >> next page app rows) w)
    page_then page app rows w (same, h) =
        Post-bind (λ u w'. I w') Settled I (when page (begin_page host app mode))
          (λ u. next page app rows) w
          (when-Kept I page (begin_page host app mode) w h
            (λ on. begin_page-Kept app mode w (same, h)))
          (λ u w' kept. next-Settled page app rows w' (same, kept))

    pub checked-Settled :
        (page : Bool) (app : Application) (rows : List Replica) (w : Work)
        → Same I id app w
        → Post Settled I (
            (raise_when (length rows == 0) 400
                >> (when page (begin_page host app mode) >> next page app rows))
              w)
    checked-Settled page app rows w h = elim (Bool-cases (length rows == 0)) [
      | inl e ↦ rw e h.1
      | inr e ↦ rw e (page_then page app rows w h)
    ]
