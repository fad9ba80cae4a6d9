-- ===== src/Accounts/Roles.antt =====
-- backend/routers/roles.py: the endpoints that write roles. Each runs behind `require_superadmin`, whose
-- session gives the actor.
pub mod Sound
pub mod Steps
mod Tests
use cloudbase.Prelude.{
  ℕ, zero, suc, ◌+◌, ◌-◌, ◌*◌, ◌≤◌, ◌<◌, min, max, String, ◌≡◌, refl, sym, ap, ◌∙◌, ◌≢◌, ◌↔◌, ◌⊎◌,
  inl, inr, Bool, true, false, not, ◌&&◌, ◌||◌, Option, none, some, List, [], ◌∷◌, ◌++◌, map, arith,
  str_eq, eq_iff, ltb, leb, ◌==◌, ==_iff, if◌then◌else◌, Bool-cases, Option-cases, some-eq, is_some,
  is_some-none, All, length, select, find, any, all, update_where, count_where, length-append, take,
  order_by, find-holds, has_text, starts_with, contains, text_length, strip, starts_with_comparable,
  starts_with_apart, starts_with_shorter, starts_with_of_eq, eq_apart,
}
use cloudbase.Prelude.Result.{Result, ok, raise, ◌>>=◌, ◌>>◌, raise_if, is_ok, bind-ok, raise_if-ok}
use cloudbase.Accounts.{Accounts, Role, role_with_id, log_audit}
use cloudbase.Accounts.Users.{found_or}

pub record CreateRoleRequest : Type 0 where
  pub name : String
  pub description : Option String
  pub permission_ids : List ℕ

pub record UpdateRoleRequest : Type 0 where
  pub name : Option String
  pub description : Option String
  pub permission_ids : Option (List ℕ)

abbrev pub is_builtin : Role → Bool
is_builtin r = has_text r.name ("Administrator" ∷ "Viewer" ∷ [])

abbrev pub has_permission : ℕ → Accounts → Bool
has_permission id a = is_some (find (λ p. p.id == id) a.permissions)

abbrev pub has_grant : ℕ → ℕ → List (ℕ × ℕ) → Bool
has_grant role_id id rows = any (λ row. row.0 == role_id && row.1 == id) rows

-- The loop over the ids that a request lists. A pair of a role and a permission is a primary key, so
-- the database refuses an id that is listed twice.
pub grant_all : ℕ → List ℕ → Accounts → Result Accounts
grant_all role_id [] a = ok a
grant_all role_id (id ∷ ids) a = do
  raise_if (not (has_permission id a)) 400
  raise_if (has_grant role_id id a.role_permissions) 500
  grant_all role_id ids (record a { role_permissions = a.role_permissions ++ (role_id, id) ∷ [] })

abbrev pub add_role : ℕ → CreateRoleRequest → Accounts → Accounts
add_role id req a = record a {
  roles = a.roles ++ record { id = id; name = strip req.name; description = req.description } ∷ [];
}

unfoldable pub create_role : ℕ → String → CreateRoleRequest → Accounts → Result Accounts
unfolding grant_all
create_role fresh_id actor req a = do
  raise_if (ltb (text_length (strip req.name)) 2) 400
  raise_if (has_text (strip req.name) ("Administrator" ∷ "Viewer" ∷ [])) 400
  raise_if (is_some (find (λ r. str_eq r.name (strip req.name)) a.roles)) 409
  granted ← grant_all fresh_id req.permission_ids (add_role fresh_id req a)
  ok (log_audit "role.create" actor granted)

pub rename_role : ℕ → Option String → Accounts → Role → Result Role
rename_role role_id none a role = ok role
rename_role role_id (some name) a role = do
  raise_if (ltb (text_length (strip name)) 2) 400
  raise_if (is_builtin role && not (str_eq (strip name) role.name)) 400
  raise_if (is_some (find (λ r. str_eq r.name (strip name) && not (r.id == role_id)) a.roles)) 409
  ok (record role { name = strip name })

abbrev pub describe : Option String → Role → Role
describe none role = role
describe (some description) role = record role { description = some description }

abbrev pub put_role : ℕ → Role → Accounts → Accounts
put_role role_id role a = record a {
  roles = update_where (λ r. r.id == role_id) (λ r. role) a.roles;
}

abbrev pub revoke_all : ℕ → Accounts → Accounts
revoke_all role_id a = record a {
  role_permissions = select (λ row. not (row.0 == role_id)) a.role_permissions;
}

-- The built-in roles are told by the name that the request may have changed by now.
pub replace_permissions : ℕ → Option (List ℕ) → Role → Accounts → Result Accounts
unfolding grant_all
replace_permissions role_id none role a = ok a
replace_permissions role_id (some ids) role a = do
  raise_if (is_builtin role) 400
  grant_all role_id ids (revoke_all role_id a)

unfoldable pub update_role : ℕ → String → UpdateRoleRequest → Accounts → Result Accounts
unfolding rename_role replace_permissions
update_role role_id actor req a = do
  role ← found_or 404 (role_with_id role_id a)
  renamed ← rename_role role_id req.name a role
  replaced ←
      replace_permissions role_id req.permission_ids renamed
        (put_role role_id (describe req.description renamed) a)
  ok (log_audit "role.update" actor replaced)

abbrev pub has_role : ℕ → Option ℕ → Bool
has_role role_id none = false
has_role role_id (some id) = id == role_id

-- With the role go its rows in `role_permissions`, by the foreign key.
unfoldable pub delete_role : ℕ → String → Accounts → Result Accounts
delete_role role_id actor a = do
  role ← found_or 404 (role_with_id role_id a)
  raise_if (is_builtin role) 400
  raise_if (any (λ u. has_role role_id u.role_id) a.users) 400
  ok (
      log_audit "role.delete" actor
        (record (revoke_all role_id a) { roles = select (λ r. not (r.id == role_id)) a.roles }))
