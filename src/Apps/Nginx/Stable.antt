-- ===== src/Apps/Nginx/Stable.antt =====
-- Writing the configuration keeps the conditions on an application's rows.
use cloudbase.Prelude.{
  ℕ, ◌-◌, String, ◌≡◌, inl, inr, not, ◌||◌, Option, none, some, str_eq, ltb, if◌then◌else◌,
  Bool-cases, Option-cases,
}
use cloudbase.Nodes.{Node, Application, Store}
use cloudbase.Apps.Work.{write_nginx, Work, ◌>>◌, return, act, raise_when, or_text}
use cloudbase.Apps.Work.Post.{Kept, Post-bind, when-Kept}
use cloudbase.Apps.Runtime.{Host}
use cloudbase.Apps.Runtime.Stable.{Aside, Stable}
use cloudbase.Apps.Nginx.{
  nginx_mode, has_custom, transition_hold_max_seconds, transition_of, active_mode, holds_page,
  effective_mode, nginx_backends, write_page, write_app_nginx_config,
}

module _ (I : Work → Type 0) (aside : Aside I) (host : Host) where
  active_mode-Kept : (now app_id : ℕ) (w : Work) → I w → Kept I (active_mode now app_id w)
  active_mode-Kept now app_id w h = elim (Option-cases (transition_of app_id w.transitions)) [
    | inl e ↦ rw (active_mode, e) h
    | inr ((mode, at), e) ↦ elim (Bool-cases (ltb transition_hold_max_seconds (now - at))) [
      | inl late ↦ rw (active_mode, e, late) (aside.transitions w _ h)
      | inr early ↦ rw (active_mode, e, early) h
    ]
  ]

  effective_mode-Kept :
      (app : Application) (mode : Option String) (w : Work)
      → I w
      → Kept I (effective_mode host app mode w)
  effective_mode-Kept app (some mode) w h = elim (Bool-cases (str_eq mode "")) [
    | inl e ↦ rw e h
    | inr e ↦ rw e h
  ]
  effective_mode-Kept app none w h = elim (Bool-cases (str_eq (nginx_mode app) "normal")) [
    | inl e ↦ rw e (
        Post-bind (λ a w'. I w') (λ a w'. I w') I (active_mode host.now app.id)
          (λ active. return (if holds_page active then or_text active "normal" else "normal")) w
          (active_mode-Kept host.now app.id w h) (λ a w' kept. kept))
    | inr e ↦ rw e h
  ]

  act_page :
      (app : Application) (chosen : String) (s : Store) (w : Work)
      → I w
      → Kept I (
          (raise_when (not host.nginx_written) 500
              >> act (write_nginx app.id chosen (nginx_backends app.id s)))
            w)
  act_page app chosen s w h = elim (Bool-cases host.nginx_written) [
    | inl e ↦ rw e (aside.actions w _ h)
    | inr e ↦ rw e h
  ]

  pub write_page-Kept :
      (app : Application) (mode : Option String) (w : Work)
      → I w
      → Kept I (write_page host app mode w)
  unfolding write_page
  write_page-Kept app mode w h = elim (Bool-cases host.pages_written) [
    | inl e ↦ rw e (
        Post-bind (λ a w'. I w') (λ a w'. I w') I (effective_mode host app mode)
          (λ chosen.
            raise_when (not host.nginx_written) 500
            >> act (write_nginx app.id chosen (nginx_backends app.id w.tables)))
          w (effective_mode-Kept app mode w h)
          (λ chosen w' kept. act_page app chosen w.tables w' kept))
    | inr e ↦ rw e h
  ]

module _ (I : Work → Type 0) (Allowed : Node → Type 0) (id : ℕ) (stable : Stable I Allowed id)
    (host : Host) where
  pub write_app_nginx_config-Kept :
      (app : Application) (mode : Option String) (w : Work)
      → app.id ≡ id
      → I w
      → Kept I (write_app_nginx_config host app mode w)
  unfolding write_app_nginx_config
  write_app_nginx_config-Kept app mode w same h = elim (Bool-cases app.no_web) [
    | inl e ↦ rw e (stable.aside.actions _ _ (stable.app w _ same h))
    | inr e ↦ rw e (
        when-Kept I (has_custom app || not (str_eq host.base_domain "")) (write_page host app mode)
          w h (λ on. write_page-Kept I stable.aside host app mode w h))
  ]
