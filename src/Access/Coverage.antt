-- ===== src/Access/Coverage.antt =====
-- Which paths the rules of `resolve_required_permission` cover.
use cloudbase.Prelude.{
  String, ◌≡◌, refl, sym, inl, inr, Bool, true, ◌||◌, Option, some, arith, Option-cases,
  starts_with, starts_with_shorter, starts_with_of_eq,
}
use cloudbase.Access.{
  method_rule, exact_override, prefix_override, after_exact, permission_exact_overrides,
  permission_prefix_overrides, resolve_required_permission,
}

-- Whether the path stands under the prefix of a router that the program protects.
abbrev pub is_ruled : String → Bool
is_ruled path =
    starts_with path "/api/apps"
    || starts_with path "/api/nodes"
    || starts_with path "/api/system"
    || starts_with path "/api/users"
    || starts_with path "/api/roles"
    || starts_with path "/api/audit-log"

method_rule-is_ruled : (method path : String) → (method_rule method path).0 ≡ is_ruled path
unfolding method_rule
method_rule-is_ruled method path = ground arith

exact_override-is_ruled :
    (method path : String) {perm : Option String}
    → exact_override method path permission_exact_overrides ≡ some perm
    → is_ruled path ≡ true
unfolding exact_override
exact_override-is_ruled method path e = ground (
  arith,
  starts_with_of_eq path "/api/nodes/invites" "/api/nodes" refl,
  starts_with_of_eq path "/api/roles" "/api/roles" refl,
  starts_with_of_eq path "/api/roles/permissions" "/api/roles" refl,
)

prefix_override-is_ruled :
    (method path : String) {perm : String}
    → prefix_override method path permission_prefix_overrides ≡ some perm
    → is_ruled path ≡ true
unfolding prefix_override
prefix_override-is_ruled method path e = ground (
  arith,
  starts_with_shorter path "/api/roles/" "/api/roles" refl,
  starts_with_shorter path "/api/apps/system/certs" "/api/apps" refl,
  starts_with_shorter path "/api/system/github-tokens" "/api/system" refl,
)

-- A request has a rule, whatever its method, exactly when its path begins with /api/apps, /api/nodes,
-- /api/system, /api/users, /api/roles or /api/audit-log.
pub has_rule_iff :
    (method path : String) → (resolve_required_permission method path).0 ≡ is_ruled path
unfolding resolve_required_permission
has_rule_iff method path =
    elim (Option-cases (exact_override method path permission_exact_overrides)) [
      | inr (perm, e) ↦ rw (e, after_exact) (sym (exact_override-is_ruled method path e))
      | inl e ↦ elim (Option-cases (prefix_override method path permission_prefix_overrides)) [
        | inr (perm, f) ↦ rw (e, after_exact, f) (sym (prefix_override-is_ruled method path f))
        | inl f ↦ rw (e, after_exact, f) (method_rule-is_ruled method path)
      ]
    ]
