-- ===== src/Access/Rules.antt =====
-- The rules of `resolve_required_permission`: which requests need which permission.
mod Prefixes
pub use Prefixes.{needs}
use cloudbase.Prelude.{
  String, ◌≡◌, refl, sym, ap, Bool-cases, ◌∙◌, ◌≢◌, ◌↔◌, ◌⊎◌, inl, inr, true, false, ◌&&◌, ◌||◌,
  some, arith, str_eq, eq_iff, if◌then◌else◌, starts_with, starts_with_apart, starts_with_shorter,
  eq_apart,
}
use cloudbase.Access.Rules.Prefixes.{
  apps_rule, nodes_rule, system_rule, users_rule, roles_rule, audit_rule,
}
use cloudbase.Access.Coverage.{is_ruled, has_rule_iff}
use cloudbase.Access.{Rule, resolve_apps_get_permission, is_write, resolve_required_permission}

-- The permission that a writing request needs.
pub data WriteNeeds (method path : String) : String → Type 0 where
  manage_apps : starts_with path "/api/apps" ≡ true → WriteNeeds method path "apps.manage"
  add_node : method ≡ "POST" → path ≡ "/api/nodes/invites" → WriteNeeds method path "nodes.add"
  manage_nodes :
      starts_with path "/api/nodes" ≡ true
      → (method ≢ "POST") ⊎ (path ≢ "/api/nodes/invites")
      → WriteNeeds method path "nodes.manage"
  manage_tokens :
      (method ≡ "POST") ⊎ (method ≡ "DELETE")
      → starts_with path "/api/system/github-tokens" ≡ true
      → WriteNeeds method path "tokens.manage"
  manage_system :
      starts_with path "/api/system" ≡ true
      → (starts_with path "/api/system/github-tokens" ≡ false)
        ⊎ ((method ≢ "POST") × (method ≢ "DELETE"))
      → WriteNeeds method path "system.manage"
  manage_users : starts_with path "/api/users" ≡ true → WriteNeeds method path "users.manage"
  manage_roles : starts_with path "/api/roles" ≡ true → WriteNeeds method path "roles.manage"
  view_audit : starts_with path "/api/audit-log" ≡ true → WriteNeeds method path "audit.view"

not_get : (method : String) → is_write method ≡ true → str_eq "GET" method ≡ false
unfolding is_write
not_get method w = ground (arith, eq_iff "GET" method, eq_iff method "GET")

pub write_rule :
    (method path perm : String)
    → is_write method ≡ true
    → WriteNeeds method path perm
    → resolve_required_permission method path ≡ needs perm
write_rule method path perm w (manage_apps h) = apps_rule method path h w
write_rule method path perm w (add_node m p) =
    nodes_rule method path (rw p) w
    ∙ ground (arith, eq_iff "POST" method, eq_iff "/api/nodes/invites" path)
write_rule method path perm w (manage_nodes h other) =
    nodes_rule method path h w
    ∙ ground (arith, eq_iff "POST" method, eq_iff "/api/nodes/invites" path)
write_rule method path perm w (manage_tokens m h) =
    system_rule method path
      (starts_with_shorter path "/api/system/github-tokens" "/api/system" refl h) w
    ∙ ground (arith, eq_iff "POST" method, eq_iff "DELETE" method)
write_rule method path perm w (manage_system h other) =
    system_rule method path h w ∙ ground (arith, eq_iff "POST" method, eq_iff "DELETE" method)
write_rule method path perm w (manage_users h) = users_rule method path h
write_rule method path perm w (manage_roles h) =
    roles_rule method path h ∙ ground (arith, not_get method w)
write_rule method path perm w (view_audit h) = audit_rule method path h

needs-eq : {perm perm' : String} → needs perm ≡ needs perm' → perm ≡ perm'
needs-eq e = cc

module _ (method path perm : String) (w : is_write method ≡ true)
    (e : resolve_required_permission method path ≡ needs perm) where
  found :
      {perm' : String}
      → resolve_required_permission method path ≡ needs perm'
      → WriteNeeds method path perm'
      → WriteNeeds method path perm
  found same given = rw (needs-eq (sym e ∙ same)) given

  nodes_found : starts_with path "/api/nodes" ≡ true → WriteNeeds method path perm
  nodes_found h = elim (Bool-cases (str_eq "POST" method && str_eq "/api/nodes/invites" path)) [
    | inl both ↦ found (nodes_rule method path h w ∙ rw both refl) (
        add_node (sym ((eq_iff "POST" method).0 (ground arith)))
          (sym ((eq_iff "/api/nodes/invites" path).0 (ground arith))))
    | inr other ↦ found (nodes_rule method path h w ∙ rw other refl) (
        manage_nodes h (elim (Bool-cases (str_eq "POST" method)) [
          | inl m ↦ inr (ground (arith, eq_iff "/api/nodes/invites" path))
          | inr m ↦ inl (ground (arith, eq_iff "POST" method))
        ]))
  ]

  system_found : starts_with path "/api/system" ≡ true → WriteNeeds method path perm
  system_found h = elim (Bool-cases (starts_with path "/api/system/github-tokens")) [
    | inr other ↦ found (system_rule method path h w ∙ ground arith) (manage_system h (inl other))
    | inl tokens ↦ elim (Bool-cases (str_eq "POST" method)) [
      | inl m ↦
          found (system_rule method path h w ∙ ground arith)
            (manage_tokens (inl (sym ((eq_iff "POST" method).0 m))) tokens)
      | inr m ↦ elim (Bool-cases (str_eq "DELETE" method)) [
        | inl d ↦
            found (system_rule method path h w ∙ ground arith)
              (manage_tokens (inr (sym ((eq_iff "DELETE" method).0 d))) tokens)
        | inr d ↦ found (system_rule method path h w ∙ ground arith) (
            manage_system h
              (inr (ground (arith, eq_iff "POST" method), ground (arith, eq_iff "DELETE" method))))
      ]
    ]
  ]

  -- The prefix that a rule was found under says which permission it is.
  ruled_found :
      (starts_with path "/api/apps" ≡ true)
        ⊎ (starts_with path "/api/nodes" ≡ true)
        ⊎ (starts_with path "/api/system" ≡ true)
        ⊎ (starts_with path "/api/users" ≡ true)
        ⊎ (starts_with path "/api/roles" ≡ true)
        ⊎ (starts_with path "/api/audit-log" ≡ true)
      → WriteNeeds method path perm
  ruled_found (inl h) = found (apps_rule method path h w) (manage_apps h)
  ruled_found (inr (inl h)) = nodes_found h
  ruled_found (inr (inr (inl h))) = system_found h
  ruled_found (inr (inr (inr (inl h)))) = found (users_rule method path h) (manage_users h)
  ruled_found (inr (inr (inr (inr (inl h))))) =
      found (roles_rule method path h ∙ ground (arith, not_get method w)) (manage_roles h)
  ruled_found (inr (inr (inr (inr (inr h))))) = found (audit_rule method path h) (view_audit h)

-- A request with a writing method (any but GET, HEAD and OPTIONS) needs a permission exactly when
-- `WriteNeeds` says so: that of the first of the prefixes /api/apps, /api/nodes, /api/system, /api/users,
-- /api/roles and /api/audit-log that its path has, but for the invites and the tokens of GitHub.
pub write_rule_iff :
    (method path perm : String)
    → is_write method ≡ true
    → (resolve_required_permission method path ≡ needs perm) ↔ WriteNeeds method path perm
write_rule_iff method path perm w = (
  λ e.
      let ruled : is_ruled path ≡ true = sym (has_rule_iff method path) ∙ ap (λ r. r.0) e in
      ruled_found method path perm w e (ground arith),
  write_rule method path perm w,
)

abbrev pub OpenRule : String → String → Type 0
OpenRule method path =
    (method ≡ "GET") × ((path ≡ "/api/roles") ⊎ (path ≡ "/api/roles/permissions"))
