-- ===== src/Nodes/Apply/Outcome.antt =====
-- What a report does to the command, and what it leaves alone.
use cloudbase.Prelude.{
  ℕ, ◌≡◌, refl, ap, ◌≢◌, inl, inr, true, not, Option, none, some, List, [], ◌∷◌, arith, ◌==◌,
  ==_iff, Bool-cases, Option-cases, update_where, find-holds, has_text,
}
use cloudbase.Prelude.Result.{Result, ok, raise_if, bind-ok, raise_if-ok}
use cloudbase.Prelude.Rows.{find-update_self, find-update_ne}
use cloudbase.Nodes.{NodeCommand, Application, Store, Effect, command_done, command_with_id}
use cloudbase.Nodes.Apply.{
  command_app, Report, own_command, touch, effects_of, known_status, finished, apply_command_result,
}

-- The tables that a report does not touch are as they were.
touch-commands :
    (now : ℕ) (cmd : NodeCommand) (r : Report) (s : Store) (app : Option Application) (s' : Store)
    → touch now cmd r s app ≡ ok s'
    → (s'.commands ≡ s.commands) × (s'.nodes ≡ s.nodes) × (s'.invites ≡ s.invites)
unfolding touch
touch-commands now cmd r s none s' e = ground arith
touch-commands now cmd r s (some app) s' e = ground arith

own_command-ok :
    (node_id command_id : ℕ) (s : Store) (c : NodeCommand)
    → own_command node_id command_id s ≡ ok c
    → (command_with_id command_id s ≡ some c) × (c.node_id ≡ node_id)
own_command-ok node_id command_id s c e = elim (Option-cases (command_with_id command_id s)) [
  | inl n ↦ cc (rw (n, own_command) at e)
  | inr (d, found) ↦ elim (Bool-cases (d.node_id == node_id)) [
    | inl own ↦
        let same : d ≡ c = ground arith in (rw found (ap some same), rw (← same) (ground arith))
    | inr other ↦ absurd (ground arith)
  ]
]

abbrev finish_rows : ℕ → ℕ → Report → Store → Store
finish_rows now id r s = record s {
  commands = update_where (λ c. c.id == id) (finished now r) s.commands;
}

abbrev pub StartsBy : Effect → List Effect → Type 0
StartsBy e [] = ⊥
StartsBy e (f ∷ fs) = f ≡ e

rows_after :
    (now command_id : ℕ) (r : Report) (s s' : Store) (cmd : NodeCommand)
    → command_with_id command_id s ≡ some cmd
    → s'.commands ≡ (finish_rows now command_id r s).commands
    → (command_with_id command_id s' ≡ some (finished now r cmd))
      × ((k : ℕ) → command_id ≢ k → command_with_id k s' ≡ command_with_id k s)
rows_after now command_id r s s' cmd found same = (
  rw (same, find-update_self (λ c. c.id) (finished now r) (λ c. refl) command_id s.commands, found),
  λ k ne.
      rw (same, find-update_ne (λ c. c.id) (finished now r) (λ c. refl) command_id k s.commands ne),
)

effects-start :
    (node_id command_id : ℕ) (r : Report) (s s' : Store) (cmd : NodeCommand) (effects : List Effect)
    → command_with_id command_id s ≡ some cmd
    → effects_of node_id cmd r s' ≡ effects
    → StartsBy (command_done command_id) effects
unfolding effects_of
effects-start node_id command_id r s s' cmd effects found e =
    let id_of : cmd.id ≡ command_id =
      (==_iff cmd.id command_id).0 (find-holds (λ c. c.id == command_id) s.commands cmd found) in
    rw (← e, id_of)

ok_pair :
    (s s' : Store) (es es' : List Effect)
    → ◌≡◌ {A = Result (Store × List Effect)} (ok (s, es)) (ok (s', es'))
    → (s ≡ s') × (es ≡ es')
ok_pair s s' es es' e = ground arith

-- A report that is taken comes from the command's own node and says "done" or "failed". The command's
-- row then holds the report and the time, whatever it held before; the rows of the other commands, the
-- nodes and the invites are as they were; and who waits for the command is woken first.
pub apply_finishes :
    (now node_id command_id : ℕ) (r : Report) (s s' : Store) (effects : List Effect)
    → apply_command_result now node_id command_id r s ≡ ok (s', effects)
    → (c : NodeCommand) × (command_with_id command_id s ≡ some c)
      × (c.node_id ≡ node_id)
      × (has_text r.status known_status ≡ true)
      × (command_with_id command_id s' ≡ some (finished now r c))
      × ((k : ℕ) → command_id ≢ k → command_with_id k s' ≡ command_with_id k s)
      × (s'.nodes ≡ s.nodes)
      × (s'.invites ≡ s.invites)
      × StartsBy (command_done command_id) effects
unfolding apply_command_result
apply_finishes now node_id command_id r s s' effects e =
    let (cmd, owned, e₁) = bind-ok (own_command node_id command_id s) _ e in
    let (u, checked, e₂) = bind-ok (raise_if (not (has_text r.status known_status)) 400) _ e₁ in
    let (s'', touched, e₃) =
      bind-ok (touch now cmd r (finish_rows now command_id r s) (command_app cmd s)) _ e₂ in
    let (found, own) = own_command-ok node_id command_id s cmd owned in
    let (same_commands, same_nodes, same_invites) =
      touch-commands now cmd r (finish_rows now command_id r s) (command_app cmd s) s'' touched in
    let (same_store, same_effects) = ok_pair s'' s' (effects_of node_id cmd r s'') effects e₃ in
    let (row, others) =
      rows_after now command_id r s s' cmd found (cc (same_store, same_commands)) in
    (
      cmd,
      found,
      own,
      ground (arith, raise_if-ok (not (has_text r.status known_status)) 400 checked),
      row,
      others,
      cc (same_store, same_nodes),
      cc (same_store, same_invites),
      effects-start node_id command_id r s s'' cmd effects found same_effects,
    )
