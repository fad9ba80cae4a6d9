-- ===== src/Nodes/Registry/Disabling.antt =====
-- A node that is disabled.
use cloudbase.Prelude.{
  ℕ, ◌≤◌, String, ◌≡◌, refl, sym, ap, ◌∙◌, inl, inr, true, false, some, List, [], ◌∷◌, arith,
  str_eq, ◌==◌, Bool-cases, Option-cases, some-eq, length, select, count_where,
}
use cloudbase.Prelude.Result.{ok, raise, raise_if, bind-ok}
use cloudbase.Prelude.Counts.{flag, count-update_one}
use cloudbase.Nodes.{
  Node, Store, Effect, node_with_id, get_node_or_404, has_token, get_node_by_token,
}
use cloudbase.Nodes.Registry.{put_node, disabled, disable_node}
use cloudbase.Nodes.Registry.Removal.{get_node-ok}

no_rows : {A : Type 0} (xs : List A) → length xs ≡ 0 → xs ≡ []
no_rows [] e = refl
no_rows (x ∷ xs) e = absurd (omega arith)

disabled-has_token :
    (now : ℕ) (token : String) (n : Node) → has_token token (disabled now n) ≡ false
disabled-has_token now token n = elim (Option-cases n.auth_token) [
  | inl e ↦ rw (e, has_token) refl
  | inr (t, e) ↦
      rw (e, has_token)
        (elim (Bool-cases (str_eq t token)) [ inl h ↦ rw h refl | inr h ↦ rw h refl ])
]

-- An enabled node that was disabled cannot call in any more: its token, if no other enabled node has
-- it, is refused.
pub disabled_refused :
    (now node_id : ℕ) (actor token : String) (n : Node) (s s' : Store) (effects : List Effect)
    → node_with_id node_id s ≡ some n
    → has_token token n ≡ true
    → count_where (λ m. m.id == node_id) s.nodes ≤ 1
    → count_where (has_token token) s.nodes ≤ 1
    → disable_node now node_id actor s ≡ ok (s', effects)
    → get_node_by_token token s' ≡ raise 401
unfolding disable_node get_node_by_token
disabled_refused now node_id actor token n s s' effects found holds one_id one_token e =
    let (m, shown, e₁) = bind-ok (get_node_or_404 node_id s) _ e in
    let (u, remote, e₂) = bind-ok (raise_if m.is_local 400) _ e₁ in
    let same : put_node node_id (disabled now m) s ≡ s' = ground arith in
    let changed =
      count-update_one (λ a. a.id == node_id) (has_token token) m (disabled now m) s.nodes
        (get_node-ok node_id s m shown) one_id in
    let m_is_n : m ≡ n = some-eq (sym (get_node-ok node_id s m shown) ∙ found) in
    let was : flag (has_token token m) ≡ 1 = rw (m_is_n, holds) refl in
    let is : flag (has_token token (disabled now m)) ≡ 0 =
      ap flag (disabled-has_token now token m) in
    let nobody : select (has_token token) s'.nodes ≡ [] =
      no_rows _ (rw (← same) (omega (arith, changed, was, is, one_token))) in
    rw (nobody, get_node_by_token) refl
