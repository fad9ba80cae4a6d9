-- ===== src/Nodes/Queue/Dedupe.antt =====
-- Queueing with `allow_existing_inflight`.
use cloudbase.Prelude.{
  ℕ, ◌≤◌, String, ◌≡◌, refl, ap, ◌⊎◌, inl, inr, Bool, true, Option, none, some, List, [], ◌∷◌, ◌++◌,
  arith, eq_iff, leb, Bool-cases, Option-cases, some-eq, All, length, select, count_where,
}
use mathlib.Core.Path.{subst}
use cloudbase.Prelude.Rows.{count_where-append, select-holds}
use cloudbase.Nodes.{NodeCommand, Store}
use cloudbase.Nodes.Queue.{
  newer, existing_command, same_app, is_in_flight, duplicate_of, newest, QueueRequest, command_of,
  queue_node_command,
}

newest-none : (cs : List NodeCommand) → newest cs ≡ none → cs ≡ []
unfolding newest
newest-none [] e = refl
newest-none (c ∷ cs) e = cc

newer-or : (c d x : NodeCommand) → newer c (some d) ≡ x → (c ≡ x) ⊎ (d ≡ x)
unfolding newer
newer-or c d x e = elim (Bool-cases (leb d.created_at c.created_at)) [
  | inl le ↦ inl (rw le at e)
  | inr gt ↦ inr (rw gt at e)
]

newest-All :
    (P : NodeCommand → Type 0) (cs : List NodeCommand) (x : NodeCommand)
    → All P cs
    → newest cs ≡ some x
    → P x
unfolding newest
newest-All P [] x h e = cc
newest-All P (c ∷ cs) x (h, hs) e = elim (Option-cases (newest cs)) [
  | inl n ↦ subst P (some-eq (rw n at e)) h
  | inr (d, n) ↦ elim (newer-or c d x (some-eq (rw n at e))) [
    | inl same ↦ subst P same h
    | inr same ↦ newest-All P cs x hs (rw (← same) n)
  ]
]

same_app-eq : (a b : Option ℕ) → same_app a b ≡ true → a ≡ b
unfolding same_app
same_app-eq none none h = refl
same_app-eq none (some b) h = cc
same_app-eq (some a) none h = cc
same_app-eq (some a) (some b) h = ground arith

same_app_refl : (a : Option ℕ) → same_app a a ≡ true
unfolding same_app
same_app_refl none = refl
same_app_refl (some a) = ground arith

module _ (q : QueueRequest) (s : Store) where
  -- What was asked for, among the rows.
  abbrev asked : NodeCommand → Bool
  asked = duplicate_of q.node_id q.command_type q.app_id

  command_of-asked : asked (command_of q) ≡ true
  unfolding duplicate_of is_in_flight
  command_of-asked =
      rw (same_app_refl q.app_id) (ground (arith, eq_iff q.command_type q.command_type))

  existing_command-asked : (c : NodeCommand) → existing_command q s ≡ some c → asked c ≡ true
  unfolding existing_command
  existing_command-asked c e = elim (Bool-cases q.allow_existing_inflight) [
    | inl on ↦
        newest-All (λ d. asked d ≡ true) (select asked s.commands) c (select-holds asked s.commands)
          (rw on at e)
    | inr off ↦ ground arith
  ]

  -- The command that is returned is in flight, and of the node, type and application asked for.
  pub queue-asked : asked (queue_node_command q s).0 ≡ true
  unfolding queue_node_command
  queue-asked = elim (Option-cases (existing_command q s)) [
    | inl e ↦ rw (e, queue_node_command) command_of-asked
    | inr (c, e) ↦ rw (e, queue_node_command) (existing_command-asked c e)
  ]

  nothing_asked :
      q.allow_existing_inflight ≡ true
      → existing_command q s ≡ none
      → count_where asked s.commands ≡ 0
  unfolding existing_command
  nothing_asked on e = ap length (newest-none (select asked s.commands) (rw on at e))

  module _ (node_id : ℕ) (command_type : String) (app_id : Option ℕ) where
    same_request :
        duplicate_of node_id command_type app_id (command_of q) ≡ true
        → duplicate_of node_id command_type app_id ≡ asked
    unfolding duplicate_of is_in_flight
    same_request e =
        let n : q.node_id ≡ node_id = ground arith in
        let t : q.command_type ≡ command_type =
          ground (arith, eq_iff q.command_type command_type) in
        let a : q.app_id ≡ app_id = ground (arith, same_app-eq q.app_id app_id) in cc

    count-new :
        q.allow_existing_inflight ≡ true
        → existing_command q s ≡ none
        → count_where (duplicate_of node_id command_type app_id) s.commands ≤ 1
        → count_where (duplicate_of node_id command_type app_id) (s.commands ++ command_of q ∷ [])
          ≤ 1
    count-new on e few =
        elim (Bool-cases (duplicate_of node_id command_type app_id (command_of q))) [
          | inl same ↦
              let p = same_request same in
              rw (count_where-append, p, nothing_asked on e) (ground arith)
          | inr other ↦ rw (count_where-append, other) (omega arith)
        ]

-- A request that allows an existing command leaves at most one command in flight for each node, type
-- and application that had at most one; what it returns is a command in flight of the node, type and
-- application asked for.
pub queue_dedupe :
    (q : QueueRequest) (s : Store) (node_id : ℕ) (command_type : String) (app_id : Option ℕ)
    → q.allow_existing_inflight ≡ true
    → count_where (duplicate_of node_id command_type app_id) s.commands ≤ 1
    → (count_where (duplicate_of node_id command_type app_id) (queue_node_command q s).1.commands
        ≤ 1)
      × (duplicate_of q.node_id q.command_type q.app_id (queue_node_command q s).0 ≡ true)
unfolding queue_node_command
queue_dedupe q s node_id command_type app_id on few = elim (Option-cases (existing_command q s)) [
  | inl e ↦ (
    rw (e, queue_node_command) (count-new q s node_id command_type app_id on e few),
    queue-asked q s,
  )
  | inr (c, e) ↦ (rw (e, queue_node_command) few, queue-asked q s)
]
