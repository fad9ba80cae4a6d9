-- ===== src/Accounts.antt =====
-- backend/models.py: the tables of accounts, and the queries on them that other modules make
-- (`get_user_permissions` of backend/auth.py).
pub mod Users
pub mod Roles
use cloudbase.Prelude.{
  ℕ, zero, suc, ◌+◌, ◌-◌, ◌*◌, ◌≤◌, ◌<◌, min, max, String, ◌≡◌, refl, sym, ap, ◌∙◌, ◌≢◌, ◌↔◌, ◌⊎◌,
  inl, inr, Bool, true, false, not, ◌&&◌, ◌||◌, Option, none, some, List, [], ◌∷◌, ◌++◌, map, arith,
  str_eq, eq_iff, ltb, leb, ◌==◌, ==_iff, if◌then◌else◌, Bool-cases, Option-cases, some-eq, is_some,
  is_some-none, All, length, select, find, any, all, update_where, count_where, length-append, take,
  order_by, find-holds, has_text, starts_with, contains, text_length, strip, starts_with_comparable,
  starts_with_apart, starts_with_shorter, starts_with_of_eq, eq_apart,
}
use cloudbase.Prelude.Result.{Result, ok, raise, ◌>>=◌, ◌>>◌, raise_if, is_ok, bind-ok, raise_if-ok}

pub record Permission : Type 0 where
  pub id : ℕ
  pub name : String
  pub description : Option String

pub record Role : Type 0 where
  pub id : ℕ
  pub name : String
  pub description : Option String

pub record User : Type 0 where
  pub id : ℕ
  pub username : String
  pub password_hash : String
  pub role : String
  pub role_id : Option ℕ

pub record AuditEntry : Type 0 where
  pub action : String
  pub actor : String

-- The tables, and the credentials file that repeats the password of the root account.
-- A row of `role_permissions` is a role's id and a permission's id.
pub record Accounts : Type 0 where
  pub permissions : List Permission
  pub roles : List Role
  pub users : List User
  pub role_permissions : List (ℕ × ℕ)
  pub credentials : Option String
  pub audit_log : List AuditEntry

abbrev pub permission_names : List Permission → List String
permission_names ps = map (λ p. p.name) ps

abbrev pub user_named : String → Accounts → Option User
user_named name a = find (λ u. str_eq u.username name) a.users

abbrev pub user_with_id : ℕ → Accounts → Option User
user_with_id id a = find (λ u. u.id == id) a.users

abbrev pub role_with_id : ℕ → Accounts → Option Role
role_with_id id a = find (λ r. r.id == id) a.roles

abbrev pub grants : ℕ → List (ℕ × ℕ) → Permission → Bool
grants role_id rows p = any (λ row. row.1 == p.id && row.0 == role_id) rows

-- The join of `permissions` with the rows of one role.
abbrev pub role_permission_names : ℕ → Accounts → List String
role_permission_names role_id a =
    permission_names (select (grants role_id a.role_permissions) a.permissions)

permissions_of_user : Accounts → User → List String
permissions_of_user a user =
    if str_eq user.username "admin"
    then permission_names a.permissions
    else elim user.role_id [ none ↦ [] | some role_id ↦ role_permission_names role_id a ]

-- The names of the permissions that a user has, read from the tables.
unfoldable pub get_user_permissions : Accounts → String → List String
unfolding permissions_of_user
get_user_permissions a username = elim (user_named username a) [
  | none ↦ []
  | some user ↦ permissions_of_user a user
]

-- `log_audit`
abbrev pub log_audit : String → String → Accounts → Accounts
log_audit action actor a = record a {
  audit_log = a.audit_log ++ record { action = action; actor = actor } ∷ [];
}
