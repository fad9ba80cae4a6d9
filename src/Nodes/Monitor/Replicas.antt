-- ===== src/Nodes/Monitor/Replicas.antt =====
-- The replicas that a check takes offline.
use cloudbase.Prelude.{
  ℕ, ◌≡◌, refl, ap, ◌∙◌, inl, inr, Bool, true, false, ◌&&◌, List, [], ◌∷◌, map, if◌then◌else◌,
  Bool-cases, any, update_where,
}
use cloudbase.Nodes.{Node, Replica, Store}
use cloudbase.Nodes.Registry.{stands_on}
use cloudbase.Nodes.Monitor.{
  is_stale, is_live, down, take_offline, mark_each, monitored, mark_stale_nodes_offline,
}

-- A live replica on one of the nodes goes down, if that node is stale.
abbrev pub lowered : ℕ → List Node → Replica → Replica
lowered now ns r =
    if is_live r && any (λ n. is_stale now n && stands_on n.id r.node_id) ns then down r else r

untouched : (on live : Bool) (r : Replica) → live ≡ false → (if on && live then down r else r) ≡ r
untouched true live r gone = rw gone refl
untouched false live r gone = refl

lowered-step :
    (now : ℕ) (n : Node) (ns : List Node) (r : Replica)
    → is_stale now n ≡ true
    → lowered now ns (if stands_on n.id r.node_id && is_live r then down r else r)
      ≡ lowered now (n ∷ ns) r
lowered-step now n ns r stale = elim (Bool-cases (is_live r)) [
  | inl live ↦ elim (Bool-cases (stands_on n.id r.node_id)) [
    | inl on ↦ rw (stale, live, on) refl
    | inr off ↦ rw (stale, off, live) refl
  ]
  | inr gone ↦
      let kept : (if stands_on n.id r.node_id && is_live r then down r else r) ≡ r =
        untouched (stands_on n.id r.node_id) (is_live r) r gone in
      rw (kept, gone) refl
]

map-lowered :
    (now : ℕ) (n : Node) (ns : List Node) (rs : List Replica)
    → is_stale now n ≡ true
    → map (lowered now ns) (update_where (λ r. stands_on n.id r.node_id && is_live r) down rs)
      ≡ map (lowered now (n ∷ ns)) rs
map-lowered now n ns [] stale = refl
map-lowered now n ns (r ∷ rs) stale =
    rw (lowered-step now n ns r stale)
      (ap (λ zs. lowered now (n ∷ ns) r ∷ zs) (map-lowered now n ns rs stale))

lowered_fresh :
    (now : ℕ) (n : Node) (ns : List Node) (r : Replica)
    → is_stale now n ≡ false
    → lowered now ns r ≡ lowered now (n ∷ ns) r
lowered_fresh now n ns r fresh = rw fresh refl

map-lowered_fresh :
    (now : ℕ) (n : Node) (ns : List Node) (rs : List Replica)
    → is_stale now n ≡ false
    → map (lowered now ns) rs ≡ map (lowered now (n ∷ ns)) rs
map-lowered_fresh now n ns [] fresh = refl
map-lowered_fresh now n ns (r ∷ rs) fresh =
    rw (lowered_fresh now n ns r fresh)
      (ap (λ zs. lowered now (n ∷ ns) r ∷ zs) (map-lowered_fresh now n ns rs fresh))

map-lowered_nil : (now : ℕ) (rs : List Replica) → rs ≡ map (lowered now []) rs
map-lowered_nil now [] = refl
map-lowered_nil now (r ∷ rs) = elim (Bool-cases (is_live r)) [
  | inl e ↦ rw e (ap (λ zs. r ∷ zs) (map-lowered_nil now rs))
  | inr e ↦ rw e (ap (λ zs. r ∷ zs) (map-lowered_nil now rs))
]

mark_each-replicas :
    (now : ℕ) (ns : List Node) (s : Store)
    → (mark_each now ns s).0.replicas ≡ map (lowered now ns) s.replicas
unfolding mark_each
mark_each-replicas now [] s = map-lowered_nil now s.replicas
mark_each-replicas now (n ∷ ns) s = elim (Bool-cases (is_stale now n)) [
  | inl e ↦
      rw e (mark_each-replicas now ns (take_offline now n s) ∙ map-lowered now n ns s.replicas e)
  | inr e ↦ rw e (mark_each-replicas now ns s ∙ map-lowered_fresh now n ns s.replicas e)
]

-- The loop over the nodes takes down exactly the running and starting replicas of stale nodes that are
-- enabled and not the server's own host: it is one pass over the replicas, which leaves every other
-- replica as it was.
pub stale_replicas_down :
    (now : ℕ) (s : Store)
    → (mark_stale_nodes_offline now s).0.replicas ≡ map (lowered now (monitored s)) s.replicas
unfolding mark_stale_nodes_offline
stale_replicas_down now s = mark_each-replicas now (monitored s) s
