-- ===== src/Apps/Lifecycle/Derived.antt =====
-- After a start, a stop or a restart: the status of the application, and the commands that were queued.
use cloudbase.Prelude.{
  ℕ, ◌≡◌, refl, sym, ap, ◌∙◌, ◌≢◌, inl, inr, true, false, none, some, List, arith, ◌==◌, Bool-cases,
  Option-cases, some-eq, is_some, find, find-holds,
}
use cloudbase.Prelude.Result.{ok, raise}
use mathlib.Core.Path.{subst}
use cloudbase.Prelude.Rows.{find-replace}
use cloudbase.Nodes.{NodeCommand, Node, Application, Replica, Store, app_with_id, node_with_id}
use cloudbase.Apps.Work.{Work, Tx, set_app, ◌>>=◌}
use cloudbase.Apps.Work.Post.{Post, Post-of, Post-ok, Post-left, step-raises}
use cloudbase.Apps.Work.Commands.{commands_for, queue-Kept}
use cloudbase.Apps.Runtime.{Host, reachable, replica_node, is_node}
use cloudbase.Apps.Runtime.Stable.{Stable}
use cloudbase.Apps.Lifecycle.{
  get_or_404, load_replicas, start_checked, stop_legacy_container, stop_found, finish,
  restart_checked, start_app, stop_app, restart_app,
}
use cloudbase.Apps.Lifecycle.Settled.{Derived}
use cloudbase.Apps.Lifecycle.Handlers.{start_app-Settled, stop_app-Settled, restart_app-Settled}

-- An update of the application's row keeps it in the table.
set_app-found :
    (id : ℕ) (a : Application) (s : Store)
    → a.id ≡ id
    → is_some (app_with_id id s) ≡ true
    → is_some (app_with_id id (set_app a s)) ≡ true
set_app-found id a s same h = elim (Option-cases (app_with_id id s)) [
  | inl e ↦ absurd (cc (h, ap is_some e))
  | inr (old, found) ↦ simp same (ap is_some (find-replace (λ x. x.id) id old a s.apps same found))
]

-- The tables still hold the application, the nodes and the commands for one of them.
abbrev Holds : ℕ → ℕ → List Node → List NodeCommand → Store → Type 0
Holds id k nodes commands s =
    (is_some (app_with_id id s) ≡ true) × (s.nodes ≡ nodes) × (commands_for k s ≡ commands)

module _ (id k : ℕ) (nodes : List Node) (commands : List NodeCommand) where
  abbrev Both : Work → Type 0
  Both w = Holds id k nodes commands w.tables × (commands_for k w.saved ≡ commands)

  abbrev Other : Node → Type 0
  Other n = n.id ≢ k

  Both-Stable : Stable Both Other id
  Both-Stable = record {
    replica = λ w r h. h;
    app = λ w a same ((found, same_nodes, same_commands), saved).
        ((set_app-found id a w.tables same found, same_nodes, same_commands), saved);
    aside = record { actions = λ w xs h. h; transitions = λ w ts h. h };
    saved = λ w (h, saved). (h, h.2);
    command = λ w n now key app_id kind payload other ((found, same_nodes, same_commands), saved).
        queue-Kept now key n.id app_id kind payload w Both (λ s xs (apps, ns, rs, cs).
          let kept = cs k (λ e. other (sym e)) ∙ same_commands in
          (
            (
              ap (λ rows. is_some (find (λ a. a.id == id) rows)) apps ∙ found,
              ns ∙ same_nodes,
              kept,
            ),
            kept,
          ));
  }

-- A node that a handler talks to is not one that is out of reach.
reached-other :
    (host : Host) (k : ℕ) (n : Node) (nodes : List Node) (s : Store) (r : Replica) (m : Node)
    → host.local.is_local ≡ true
    → find (λ x. x.id == k) nodes ≡ some n
    → reachable n ≡ false
    → s.nodes ≡ nodes
    → replica_node host s r ≡ some m
    → m.is_local ≡ false
    → reachable m ≡ true
    → m.id ≢ k
reached-other host k n nodes s r m here found off same found_m remote on at =
    elim (Bool-cases (is_node host.local.id r.node_id)) [
      | inl e ↦
          let local : host.local ≡ m = some-eq (rw e at found_m) in
          absurd (cc (here, remote, ap (λ x. x.is_local) local))
      | inr e ↦ elim (Option-cases r.node_id) [
        | inl none_id ↦ absurd (cc (rw (e, none_id) at found_m))
        | inr (j, some_id) ↦
            let found_j : node_with_id j s ≡ some m = rw (e, some_id) at found_m in
            let same_j : m.id ≡ j = ground (arith, find-holds (λ x. x.id == j) s.nodes m found_j) in
            let found_k : find (λ x. x.id == k) nodes ≡ some m =
              subst (λ i. find (λ x. x.id == i) nodes ≡ some m) (sym same_j ∙ at)
                (ap (λ ns. find (λ x. x.id == j) ns) (sym same) ∙ found_j) in
            absurd (cc (found, found_k, off, on))
      ]
    ]

-- The handlers that act on all instances of an application.
pub data Handler : Type 0 where
  on_start : Handler
  on_stop : Handler
  on_restart : Handler

abbrev pub handle : Handler → Host → ℕ → Tx Application
handle on_start = start_app
handle on_stop = stop_app
handle on_restart = restart_app

missing : (id : ℕ) (w : Work) → app_with_id id w.tables ≡ none → get_or_404 id w ≡ (raise 404, w)
missing id w e = rw (get_or_404, e) refl

absent :
    (h : Handler) (host : Host) (id : ℕ) (w : Work)
    → app_with_id id w.tables ≡ none
    → handle h host id w ≡ (raise 404, w)
unfolding start_app stop_app restart_app
absent on_start host id w e =
    step-raises (get_or_404 id) (λ app. load_replicas id >>= λ rows. start_checked host app rows) w
      w 404 (missing id w e)
absent on_stop host id w e =
    step-raises (get_or_404 id)
      (λ app. load_replicas id >>= λ rows. stop_legacy_container host id >>= λ u.
        stop_found host app rows >>= λ a. finish host false "app.stop" "stop" a)
      w w 404 (missing id w e)
absent on_restart host id w e =
    step-raises (get_or_404 id) (λ app. load_replicas id >>= λ rows. restart_checked host app rows)
      w w 404 (missing id w e)

handle-Settled :
    (h : Handler) (I : Work → Type 0) (Allowed : Node → Type 0) (id : ℕ) (host : Host)
    → Stable I Allowed id
    → ((w : Work) → I w → is_some (app_with_id id w.tables) ≡ true)
    → ((w : Work)
        → I w
        → (r : Replica) (n : Node) → replica_node host w.tables r ≡ some n
        → n.is_local ≡ false
        → reachable n ≡ true
        → Allowed n)
    → (w : Work) → I w
    → Post (λ a w'. (Derived id a w'.tables × I w') × (w'.saved ≡ w'.tables)) I (handle h host id w)
handle-Settled on_start I Allowed id host stable has allowed =
    start_app-Settled I Allowed id stable has host allowed
handle-Settled on_stop I Allowed id host stable has allowed =
    stop_app-Settled I Allowed id stable has host allowed
handle-Settled on_restart I Allowed id host stable has allowed =
    restart_app-Settled I Allowed id stable has host allowed

abbrev Found : ℕ → Work → Type 0
Found id w = is_some (app_with_id id w.tables) ≡ true

Found-Stable : (id : ℕ) → Stable (Found id) (λ n. Unit) id
Found-Stable id = record {
  replica = λ w r h. h;
  app = λ w a same h. set_app-found id a w.tables same h;
  aside = record { actions = λ w xs h. h; transitions = λ w ts h. h };
  saved = λ w h. h;
  command = λ w n now key app_id kind payload u h.
      queue-Kept now key n.id app_id kind payload w (Found id)
        (λ s xs (apps, ns, rs, cs). ap (λ rows. is_some (find (λ a. a.id == id) rows)) apps ∙ h);
}

-- A start, a stop or a restart that returns leaves the application's row as it returns it, without a
-- process and with the status that its instances give, and all of it is committed.
pub handle-Derived :
    (h : Handler) (host : Host) (id : ℕ) (w w' : Work) (a : Application)
    → handle h host id w ≡ (ok a, w')
    → Derived id a w'.tables × (w'.saved ≡ w'.tables)
handle-Derived h host id w w' a e = elim (Option-cases (app_with_id id w.tables)) [
  | inl none_found ↦ absurd (cc (sym (absent h host id w none_found) ∙ e))
  | inr (old, found) ↦
      let end =
        handle-Settled h (Found id) (λ n. Unit) id host (Found-Stable id) (λ v kept. kept)
          (λ v kept r n found_n remote on. tt) w (ap is_some found) in
      let ((derived, kept), committed) =
        Post-ok (λ b v. (Derived id b v.tables × Found id v) × (v.saved ≡ v.tables)) (Found id)
          (handle h host id w) a w' end e in
      (derived, committed)
]

-- A start, a stop or a restart queues no command for a node that is offline or disabled: the commands
-- of that node are as they were, in the session and as committed, also when the handler raises.
pub handle-unreached :
    (h : Handler) (host : Host) (id k : ℕ) (n : Node) (w : Work)
    → host.local.is_local ≡ true
    → node_with_id k w.tables ≡ some n
    → reachable n ≡ false
    → w.saved ≡ w.tables
    → (commands_for k (handle h host id w).1.tables ≡ commands_for k w.tables)
      × (commands_for k (handle h host id w).1.saved ≡ commands_for k w.tables)
handle-unreached h host id k n w here found_n off committed =
    elim (Option-cases (app_with_id id w.tables)) [
      | inl none_found ↦ rw (absent h host id w none_found) (refl, ap (commands_for k) committed)
      | inr (old, found) ↦
          let nodes = w.tables.nodes in
          let commands = commands_for k w.tables in
          let kept =
            handle-Settled h (Both id k nodes commands) (Other id k nodes commands) id host
              (Both-Stable id k nodes commands) (λ v b. b.0.0)
              (λ v b r m found_m remote on.
                reached-other host k n nodes v.tables r m here found_n off b.0.1 found_m remote on)
              w ((ap is_some found, refl, refl), ap (commands_for k) committed) in
          let left = Post-left (Both id k nodes commands) (handle h host id w) (
            Post-of
              (λ b v. (Derived id b v.tables × Both id k nodes commands v) × (v.saved ≡ v.tables))
              (λ b v. Both id k nodes commands v) (Both id k nodes commands)
              (Both id k nodes commands) (handle h host id w) (λ b v x. x.0.1) (λ v x. x) kept) in
          (left.0.2, left.1)
    ]
