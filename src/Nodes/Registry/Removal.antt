-- ===== src/Nodes/Registry/Removal.antt =====
-- What is gone with a node that is removed, and what stays.
use cloudbase.Prelude.{
  ℕ, String, ◌≡◌, refl, ap, ◌≢◌, inl, inr, Bool, false, not, ◌||◌, some, List, [], ◌∷◌, arith, ltb,
  ◌==◌, Bool-cases, Option-cases, select, count_where,
}
use cloudbase.Prelude.Result.{ok, raise_if, bind-ok, raise_if-ok}
use cloudbase.Nodes.{Node, Store, Effect, node_with_id, get_node_or_404}
use cloudbase.Nodes.Registry.{stands_on, app_count, replica_count, without_node, delete_node}

count_after_remove :
    {A : Type 0} (p : A → Bool) (xs : List A) → count_where p (select (λ x. not (p x)) xs) ≡ 0
count_after_remove p [] = refl
count_after_remove p (x ∷ xs) = elim (Bool-cases (p x)) [
  | inl e ↦ rw e (count_after_remove p xs)
  | inr e ↦ rw (e, e) (count_after_remove p xs)
]

select_after_remove :
    {A : Type 0} (key : A → ℕ) (j k : ℕ) (xs : List A)
    → j ≢ k
    → select (λ x. key x == k) (select (λ x. not (key x == j)) xs) ≡ select (λ x. key x == k) xs
select_after_remove key j k [] ne = refl
select_after_remove key j k (x ∷ xs) ne = elim (Bool-cases (key x == j)) [
  | inl e ↦
      let other : (key x == k) ≡ false = ground arith in
      rw (e, other) (select_after_remove key j k xs ne)
  | inr e ↦ rw e (ground (arith, select_after_remove key j k xs ne))
]

pub get_node-ok :
    (id : ℕ) (s : Store) (n : Node) → get_node_or_404 id s ≡ ok n → node_with_id id s ≡ some n
get_node-ok id s n e = elim (Option-cases (node_with_id id s)) [
  | inl none_yet ↦ cc (rw (none_yet, get_node_or_404) at e)
  | inr (m, found) ↦ let same : m ≡ n = ground arith in rw found (ap some same)
]

abbrev pub NoneLeft : ℕ → Store → Type 0
NoneLeft node_id s =
    (count_where (λ n. n.id == node_id) s.nodes ≡ 0)
    × (count_where (λ i. stands_on node_id i.node_id) s.invites ≡ 0)
    × (count_where (λ c. c.node_id == node_id) s.commands ≡ 0)
    × (app_count node_id s ≡ 0)
    × (replica_count node_id s ≡ 0)

-- A node that is removed was there and is not the server's own host. Afterwards no row of
-- nodes, invites, commands, applications or replicas names it. The rows and the commands of other nodes are as they were, and so are all applications
-- and replicas.
pub removed_clean :
    (node_id : ℕ) (actor : String) (s s' : Store) (effects : List Effect)
    → delete_node node_id actor s ≡ ok (s', effects)
    → ((n : Node) × (node_with_id node_id s ≡ some n) × (n.is_local ≡ false))
      × NoneLeft node_id s'
      × ((k : ℕ)
          → node_id ≢ k
          → (select (λ n. n.id == k) s'.nodes ≡ select (λ n. n.id == k) s.nodes)
            × (select (λ c. c.node_id == k) s'.commands ≡ select (λ c. c.node_id == k) s.commands))
      × (s'.apps ≡ s.apps)
      × (s'.replicas ≡ s.replicas)
unfolding delete_node
removed_clean node_id actor s s' effects e =
    let (n, shown, e₁) = bind-ok (get_node_or_404 node_id s) _ e in
    let (u₁, remote, e₂) = bind-ok (raise_if n.is_local 400) _ e₁ in
    let (u₂, unused, e₃) =
      bind-ok (raise_if (ltb 0 (app_count node_id s) || ltb 0 (replica_count node_id s)) 400) _
        e₂ in
    let same : without_node node_id s ≡ s' = ground arith in
    let empty = raise_if-ok _ 400 unused in
    let no_apps : app_count node_id s ≡ 0 = ground (arith, empty) in
    let no_replicas : replica_count node_id s ≡ 0 = ground (arith, empty) in
    rw (← same) (
      (n, get_node-ok node_id s n shown, raise_if-ok n.is_local 400 remote),
      (
        count_after_remove (λ n. n.id == node_id) s.nodes,
        count_after_remove (λ i. stands_on node_id i.node_id) s.invites,
        count_after_remove (λ c. c.node_id == node_id) s.commands,
        no_apps,
        no_replicas,
      ),
      λ k ne. (
        select_after_remove (λ n. n.id) node_id k s.nodes ne,
        select_after_remove (λ c. c.node_id) node_id k s.commands ne,
      ),
      refl,
      refl,
    )
