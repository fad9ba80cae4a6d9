-- ===== src/Apps/Work/Commands.antt =====
-- What a queued command changes: the commands of its node, and what is committed.
use cloudbase.Prelude.{
  ℕ, String, ◌≡◌, refl, ◌≢◌, false, some, List, [], ◌∷◌, ◌++◌, arith, ◌==◌, select,
}
use mathlib.Core.List.{append-nil}
use cloudbase.Prelude.Rows.{select-append}
use cloudbase.Nodes.{Dict, NodeCommand, Store}
use cloudbase.Nodes.Queue.{QueueRequest, command_of}
use cloudbase.Nodes.Queue.Plain.{queue_added}
use cloudbase.Apps.Work.{Action, Work, next_id, queue}
use cloudbase.Apps.Work.Post.{Kept}

-- The commands for one node.
abbrev pub commands_for : ℕ → Store → List NodeCommand
commands_for node_id s = select (λ c. c.node_id == node_id) s.commands

-- Tables that differ in the commands of one node only.
abbrev pub OnlyFor : ℕ → Store → Store → Type 0
OnlyFor node_id s s' =
    (s'.apps ≡ s.apps)
    × (s'.nodes ≡ s.nodes)
    × (s'.replicas ≡ s.replicas)
    × ((k : ℕ) → k ≢ node_id → commands_for k s' ≡ commands_for k s)

module _ (now : ℕ) (key : String) (node_id app_id : ℕ) (kind : String) (payload : Dict)
    (w : Work) where
  abbrev request : QueueRequest
  request = record {
    now = now;
    fresh_id = next_id w.tables.commands;
    key = key;
    node_id = node_id;
    command_type = kind;
    payload = payload;
    app_id = some app_id;
    allow_existing_inflight = false;
  }

  queued_elsewhere :
      (k : ℕ)
      → k ≢ node_id
      → select (λ c. c.node_id == k) (w.tables.commands ++ command_of request ∷ [])
        ≡ commands_for k w.tables
  queued_elsewhere k ne =
      let other : (node_id == k) ≡ false = ground arith in
      rw (select-append, other) (append-nil (commands_for k w.tables))

  pub queue-Kept :
      (I : Work → Type 0)
      → ((s : Store) (xs : List Action)
          → OnlyFor node_id w.tables s
          → I (record w { saved = s; tables = s; actions = xs }))
      → Kept I (queue now key node_id app_id kind payload w)
  unfolding queue
  queue-Kept I keep =
      rw (queue_added request w.tables refl) (keep _ _ (refl, refl, refl, queued_elsewhere))
