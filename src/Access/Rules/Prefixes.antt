-- ===== src/Access/Rules/Prefixes.antt =====
-- Which rule holds under each prefix (`resolve_required_permission`).
use cloudbase.Prelude.{
  String, ◌≡◌, refl, ◌⊎◌, true, false, ◌&&◌, ◌||◌, none, some, arith, str_eq, eq_iff, if◌then◌else◌,
  starts_with, starts_with_apart, eq_apart,
}
use cloudbase.Access.{Rule, resolve_apps_get_permission, is_write, resolve_required_permission}

abbrev pub needs : String → Rule
needs perm = (true, some perm)

-- What is said of a path under one prefix rests on the prefixes that it does not have.
module _ (method path : String) where
  pub apps_rule :
      starts_with path "/api/apps" ≡ true
      → is_write method ≡ true
      → resolve_required_permission method path ≡ needs "apps.manage"
  unfolding resolve_required_permission is_write
  apps_rule h w = ground (
    arith,
    eq_iff "GET" method,
    eq_iff method "GET",
    eq_apart path "/api/apps" "/api/nodes/invites" refl h,
    starts_with_apart path "/api/apps" "/api/system/github-tokens" refl h,
  )

  pub apps_read_rule :
      starts_with path "/api/apps" ≡ true
      → is_write method ≡ false
      → (resolve_required_permission method path ≡ needs (resolve_apps_get_permission path))
        ⊎ ((starts_with path "/api/apps/system/certs" ≡ true)
            × (resolve_required_permission method path ≡ needs "apps.view"))
  unfolding resolve_required_permission is_write
  apps_read_rule h w = ground (
    arith,
    eq_apart path "/api/apps" "/api/nodes/invites" refl h,
    eq_apart path "/api/apps" "/api/roles" refl h,
    eq_apart path "/api/apps" "/api/roles/permissions" refl h,
    starts_with_apart path "/api/apps" "/api/roles/" refl h,
    starts_with_apart path "/api/apps" "/api/system/github-tokens" refl h,
  )

  pub nodes_rule :
      starts_with path "/api/nodes" ≡ true
      → is_write method ≡ true
      → resolve_required_permission method path
        ≡ needs (
            if str_eq "POST" method && str_eq "/api/nodes/invites" path
            then "nodes.add"
            else "nodes.manage")
  unfolding resolve_required_permission is_write
  nodes_rule h w = ground (
    arith,
    eq_iff "GET" method,
    eq_iff method "GET",
    starts_with_apart path "/api/nodes" "/api/apps" refl h,
    starts_with_apart path "/api/nodes" "/api/system/github-tokens" refl h,
  )

  pub system_rule :
      starts_with path "/api/system" ≡ true
      → is_write method ≡ true
      → resolve_required_permission method path
        ≡ needs (
            if (str_eq "POST" method || str_eq "DELETE" method)
              && starts_with path "/api/system/github-tokens"
            then "tokens.manage"
            else "system.manage")
  unfolding resolve_required_permission is_write
  system_rule h w = ground (
    arith,
    eq_iff "GET" method,
    eq_iff method "GET",
    eq_apart path "/api/system" "/api/nodes/invites" refl h,
    starts_with_apart path "/api/system" "/api/apps" refl h,
    starts_with_apart path "/api/system" "/api/nodes" refl h,
  )

  pub users_rule :
      starts_with path "/api/users" ≡ true
      → resolve_required_permission method path ≡ needs "users.manage"
  unfolding resolve_required_permission is_write
  users_rule h = ground (
    arith,
    eq_apart path "/api/users" "/api/nodes/invites" refl h,
    eq_apart path "/api/users" "/api/roles" refl h,
    eq_apart path "/api/users" "/api/roles/permissions" refl h,
    starts_with_apart path "/api/users" "/api/roles/" refl h,
    starts_with_apart path "/api/users" "/api/apps/system/certs" refl h,
    starts_with_apart path "/api/users" "/api/system/github-tokens" refl h,
    starts_with_apart path "/api/users" "/api/apps" refl h,
    starts_with_apart path "/api/users" "/api/nodes" refl h,
    starts_with_apart path "/api/users" "/api/system" refl h,
  )

  pub roles_rule :
      starts_with path "/api/roles" ≡ true
      → resolve_required_permission method path ≡ (
          if str_eq "GET" method
            && (str_eq "/api/roles" path || str_eq "/api/roles/permissions" path)
          then (true, none)
          else needs "roles.manage")
  unfolding resolve_required_permission is_write
  roles_rule h = ground (
    arith,
    eq_iff "GET" method,
    eq_iff method "GET",
    eq_apart path "/api/roles" "/api/nodes/invites" refl h,
    starts_with_apart path "/api/roles" "/api/apps/system/certs" refl h,
    starts_with_apart path "/api/roles" "/api/system/github-tokens" refl h,
    starts_with_apart path "/api/roles" "/api/apps" refl h,
    starts_with_apart path "/api/roles" "/api/nodes" refl h,
    starts_with_apart path "/api/roles" "/api/system" refl h,
    starts_with_apart path "/api/roles" "/api/users" refl h,
  )

  pub audit_rule :
      starts_with path "/api/audit-log" ≡ true
      → resolve_required_permission method path ≡ needs "audit.view"
  unfolding resolve_required_permission is_write
  audit_rule h = ground (
    arith,
    eq_apart path "/api/audit-log" "/api/nodes/invites" refl h,
    eq_apart path "/api/audit-log" "/api/roles" refl h,
    eq_apart path "/api/audit-log" "/api/roles/permissions" refl h,
    starts_with_apart path "/api/audit-log" "/api/roles/" refl h,
    starts_with_apart path "/api/audit-log" "/api/apps/system/certs" refl h,
    starts_with_apart path "/api/audit-log" "/api/system/github-tokens" refl h,
    starts_with_apart path "/api/audit-log" "/api/apps" refl h,
    starts_with_apart path "/api/audit-log" "/api/nodes" refl h,
    starts_with_apart path "/api/audit-log" "/api/system" refl h,
    starts_with_apart path "/api/audit-log" "/api/users" refl h,
    starts_with_apart path "/api/audit-log" "/api/roles" refl h,
  )
