-- ===== src/Apps/Nginx/Guard.antt =====
-- The page of a start or a restart, and the writes that come while it is shown.
use cloudbase.Prelude.{
  ℕ, ◌-◌, ◌≤◌, String, ◌≡◌, refl, ◌⊎◌, inl, inr, Bool, true, false, not, ◌||◌, none, some, [], ◌∷◌,
  ◌++◌, arith, str_eq, eq_iff, ltb, if◌then◌else◌, Bool-cases, count_where, has_text,
}
use cloudbase.Prelude.Result.{ok}
use cloudbase.Nodes.{Application, Store}
use cloudbase.Prelude.Rows.{count_where-append}
use cloudbase.Apps.Work.{
  Action, write_nginx, remove_nginx, Work, ◌>>◌, return, act, raise_when, or_text,
}
use cloudbase.Apps.Work.Post.{Post, Kept, Post-bind, when-Kept, step-returns}
use cloudbase.Apps.Runtime.{Host}
use cloudbase.Apps.Nginx.{
  nginx_mode, has_custom, transition_hold_max_seconds, transition_of, active_mode, holds_page,
  held_mode, nginx_backends, write_page, write_app_nginx_config,
}

-- A configuration that passes the visitors on to the instances.
abbrev pub is_normal_page : Action → Bool
is_normal_page (write_nginx id mode ports) = str_eq mode "normal"
is_normal_page _ = false

abbrev pub normal_pages : Work → ℕ
normal_pages w = count_where is_normal_page w.actions

page_name :
    (mode : String)
    → has_text mode ("restart" ∷ "starting" ∷ []) ≡ true
    → (mode ≡ "restart") ⊎ (mode ≡ "starting")
page_name mode h = elim (Bool-cases (str_eq mode "restart")) [
  | inl e ↦ inl ((eq_iff mode "restart").0 e)
  | inr e ↦ inr ((eq_iff mode "starting").0 (ground arith))
]

-- The page that is held is not the normal one.
abbrev held : String → String
held mode = if holds_page (some mode) then or_text (some mode) "normal" else "normal"

held-other :
    (mode : String)
    → has_text mode ("restart" ∷ "starting" ∷ []) ≡ true
    → str_eq (held mode) "normal" ≡ false
held-other mode h = elim (page_name mode h) [ inl e ↦ rw e refl | inr e ↦ rw e refl ]

module _ (host : Host) (app : Application) (n : ℕ) where
  abbrev Guarded : Work → Type 0
  Guarded w = normal_pages w ≡ n

  act_other :
      (a : Action) (w : Work)
      → is_normal_page a ≡ false
      → Guarded w
      → count_where is_normal_page (w.actions ++ a ∷ []) ≡ n
  act_other a w other h = rw (count_where-append, other) (omega (arith, h))

  page_written :
      (chosen : String) (s : Store) (w : Work)
      → str_eq chosen "normal" ≡ false
      → Guarded w
      → Kept Guarded (
          (raise_when (not host.nginx_written) 500
              >> act (write_nginx app.id chosen (nginx_backends app.id s)))
            w)
  page_written chosen s w other h = elim (Bool-cases host.nginx_written) [
    | inl e ↦ rw e (act_other (write_nginx app.id chosen (nginx_backends app.id s)) w other h)
    | inr e ↦ rw e h
  ]

  -- The mode that a write takes while the page is shown is not the normal one.
  held_mode-Post :
      (mode : String) (at : ℕ) (w : Work)
      → transition_of app.id w.transitions ≡ some (mode, at)
      → has_text mode ("restart" ∷ "starting" ∷ []) ≡ true
      → host.now - at ≤ transition_hold_max_seconds
      → Guarded w
      → Post
          (λ chosen w'. (str_eq chosen "normal" ≡ false) × Guarded w')
          Guarded
          (held_mode host app w)
  held_mode-Post mode at w shown page soon h =
      elim (Bool-cases (str_eq (nginx_mode app) "normal")) [
        | inl e ↦
            let early : ltb transition_hold_max_seconds (host.now - at) ≡ false = ground arith in
            let active : active_mode host.now app.id w ≡ (ok (some mode), w) =
              rw (active_mode, shown, early) refl in
            let taken : held_mode host app w ≡ (ok (held mode), w) = rw e (
              step-returns (active_mode host.now app.id)
                (λ found. return (if holds_page found then or_text found "normal" else "normal")) w
                w (some mode) active) in
            rw taken (held-other mode page, h)
        | inr e ↦ rw e (e, h)
      ]

  write_page-Guarded :
      (mode : String) (at : ℕ) (w : Work)
      → transition_of app.id w.transitions ≡ some (mode, at)
      → has_text mode ("restart" ∷ "starting" ∷ []) ≡ true
      → host.now - at ≤ transition_hold_max_seconds
      → Guarded w
      → Kept Guarded (write_page host app none w)
  unfolding write_page
  write_page-Guarded mode at w shown page soon h = elim (Bool-cases host.pages_written) [
    | inl e ↦ rw e (
        Post-bind (λ chosen w'. (str_eq chosen "normal" ≡ false) × Guarded w') (λ a w'. Guarded w')
          Guarded (held_mode host app)
          (λ chosen.
            raise_when (not host.nginx_written) 500
            >> act (write_nginx app.id chosen (nginx_backends app.id w.tables)))
          w (held_mode-Post mode at w shown page soon h)
          (λ chosen w' (other, kept). page_written chosen w.tables w' other kept))
    | inr e ↦ rw e h
  ]

-- While the page of a start or of a restart is shown, and for at most 300 seconds, no write without a
-- mode of its own passes visitors on to the instances, whether it succeeds or fails.
pub write_app_nginx_config-Guarded :
    (host : Host) (app : Application) (mode : String) (at : ℕ) (w : Work)
    → transition_of app.id w.transitions ≡ some (mode, at)
    → has_text mode ("restart" ∷ "starting" ∷ []) ≡ true
    → host.now - at ≤ transition_hold_max_seconds
    → Kept (λ w'. normal_pages w' ≡ normal_pages w) (write_app_nginx_config host app none w)
unfolding write_app_nginx_config
write_app_nginx_config-Guarded host app mode at w shown page soon = elim (Bool-cases app.no_web) [
  | inl e ↦ rw e (act_other host app (normal_pages w) (remove_nginx app.name) w refl refl)
  | inr e ↦ rw e (
      when-Kept (λ w'. normal_pages w' ≡ normal_pages w)
        (has_custom app || not (str_eq host.base_domain "")) (write_page host app none) w refl
        (λ on. write_page-Guarded host app (normal_pages w) mode at w shown page soon refl))
]
