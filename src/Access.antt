-- ===== src/Access.antt =====
-- backend/main.py: which permission a request needs, by its method and path.
pub mod Rules
pub mod Coverage
pub mod Middleware
use cloudbase.Prelude.{
  ℕ, zero, suc, ◌+◌, ◌-◌, ◌*◌, ◌≤◌, ◌<◌, String, ◌≡◌, refl, sym, ap, ◌∙◌, ◌≢◌, ◌↔◌, ◌⊎◌, inl, inr,
  Bool, true, false, not, ◌&&◌, ◌||◌, Option, none, some, List, [], ◌∷◌, ◌++◌, map, arith, str_eq,
  eq_iff, ltb, leb, ◌==◌, ==_iff, if◌then◌else◌, Bool-cases, Option-cases, is_some, All, length,
  select, find, any, all, update_where, count_where, length-append, find-holds, has_text,
  starts_with, contains, text_length, strip, starts_with_comparable, starts_with_apart,
  starts_with_shorter, starts_with_of_eq, eq_apart,
}
use cloudbase.Prelude.Result.{Result, ok, raise, ◌>>=◌, ◌>>◌, raise_if, is_ok}

-- `_PUBLIC`
abbrev pub public_paths : List String
public_paths = "/api/health" ∷ "/api/auth/login" ∷ "/api/auth/logout" ∷ "/api/auth/check" ∷ []

abbrev pub permission_write_map : List (String × String)
permission_write_map =
    ("/api/apps", "apps.manage")
    ∷ ("/api/nodes", "nodes.manage")
    ∷ ("/api/system", "system.manage")
    ∷ ("/api/users", "users.manage")
    ∷ ("/api/roles", "roles.manage")
    ∷ ("/api/audit-log", "audit.view")
    ∷ []

abbrev pub permission_read_map : List (String × String)
permission_read_map =
    ("/api/apps", "apps.view")
    ∷ ("/api/nodes", "nodes.view")
    ∷ ("/api/system", "system.manage")
    ∷ ("/api/users", "users.manage")
    ∷ ("/api/roles", "roles.manage")
    ∷ ("/api/audit-log", "audit.view")
    ∷ []

-- An override: a method, a path or a prefix of paths, and the permission, if one is needed.
abbrev pub Override : Type 0
Override = String × String × Option String

abbrev pub permission_exact_overrides : List Override
permission_exact_overrides =
    ("POST", "/api/nodes/invites", some "nodes.add")
    ∷ ("GET", "/api/roles", none)
    ∷ ("GET", "/api/roles/permissions", none)
    ∷ []

abbrev pub permission_prefix_overrides : List Override
permission_prefix_overrides =
    ("GET", "/api/roles/", some "roles.manage")
    ∷ ("GET", "/api/apps/system/certs", some "apps.view")
    ∷ ("GET", "/api/system/github-tokens", some "tokens.manage")
    ∷ ("POST", "/api/system/github-tokens", some "tokens.manage")
    ∷ ("DELETE", "/api/system/github-tokens", some "tokens.manage")
    ∷ []

unfoldable pub resolve_apps_get_permission : String → String
resolve_apps_get_permission path =
    if contains path "/logs"
    then "logs.view"
    else if contains path "/stats" || contains path "stats-remote" || contains path "stats-debug"
    then "stats.view"
    else "apps.view"

-- `(true, none)` lets any session pass, and `(false, none)` says that no rule applies.
abbrev pub Rule : Type 0
Rule = Bool × Option String

pub exact_override : String → String → List Override → Option (Option String)
exact_override method path overrides =
    elim (find (λ o. str_eq o.0 method && str_eq o.1 path) overrides) [
      | none ↦ none
      | some o ↦ some o.2
    ]

pub prefix_override : String → String → List Override → Option String
prefix_override method path overrides =
    elim (find (λ o. str_eq o.0 method && starts_with path o.1 && is_some o.2) overrides) [
      | none ↦ none
      | some o ↦ o.2
    ]

unfoldable pub is_write : String → Bool
is_write method = not (has_text method ("GET" ∷ "HEAD" ∷ "OPTIONS" ∷ []))

prefix_permission : Bool → String → String × String → String
prefix_permission write path (prefix, perm) =
    if not write && str_eq prefix "/api/apps" then resolve_apps_get_permission path else perm

pub prefix_rule : Bool → String → List (String × String) → Rule
unfolding prefix_permission
prefix_rule write path table = elim (find (λ row. starts_with path row.0) table) [
  | none ↦ (false, none)
  | some row ↦ (true, some (prefix_permission write path row))
]

pub method_rule : String → String → Rule
unfolding is_write prefix_rule
method_rule method path =
    prefix_rule (is_write method) path
      (if is_write method then permission_write_map else permission_read_map)

after_exact : String → String → Option (Option String) → Rule
unfolding prefix_override method_rule
after_exact method path (some perm) = (true, perm)
after_exact method path none = elim (prefix_override method path permission_prefix_overrides) [
  | some perm ↦ (true, some perm)
  | none ↦ method_rule method path
]

unfoldable pub resolve_required_permission : String → String → Rule
unfolding after_exact exact_override
resolve_required_permission method path =
    after_exact method path (exact_override method path permission_exact_overrides)
