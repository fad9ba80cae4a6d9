-- ===== src/Accounts/Users.antt =====
-- backend/main.py: the endpoints that manage users. Each runs behind `require_superadmin`, whose session
-- gives the actor.
pub mod Sound
pub mod Steps
mod Tests
use cloudbase.Prelude.{
  ℕ, zero, suc, ◌+◌, ◌-◌, ◌*◌, ◌≤◌, ◌<◌, min, max, String, ◌≡◌, refl, sym, ap, ◌∙◌, ◌≢◌, ◌↔◌, ◌⊎◌,
  inl, inr, Bool, true, false, not, ◌&&◌, ◌||◌, Option, none, some, List, [], ◌∷◌, ◌++◌, map, arith,
  str_eq, eq_iff, ltb, leb, ◌==◌, ==_iff, if◌then◌else◌, Bool-cases, Option-cases, some-eq, is_some,
  is_some-none, All, length, select, find, any, all, update_where, count_where, length-append, take,
  order_by, find-holds, has_text, starts_with, contains, text_length, strip, starts_with_comparable,
  starts_with_apart, starts_with_shorter, starts_with_of_eq, eq_apart,
}
use cloudbase.Prelude.Result.{Result, ok, raise, ◌>>=◌, ◌>>◌, raise_if, is_ok, bind-ok, raise_if-ok}
use cloudbase.Accounts.{Accounts, User, Role, user_named, user_with_id, role_with_id, log_audit}

pub record CreateUserRequest : Type 0 where
  pub username : String
  pub password : String
  pub role_id : ℕ

pub record UpdateUserRequest : Type 0 where
  pub username : Option String
  pub password : Option String
  pub role_id : Option ℕ

abbrev pub found_or {ℓ} : {A : Type ℓ} → ℕ → Option A → Result A
found_or code none = raise code
found_or code (some x) = ok x

abbrev pub is_root : User → Bool
is_root u = str_eq u.username "admin"

abbrev pub user_of : (String → String) → ℕ → CreateUserRequest → Role → User
user_of hash_password id req role = record {
  id = id;
  username = strip req.username;
  password_hash = hash_password req.password;
  role = role.name;
  role_id = some role.id;
}

-- The package for password hashes is the argument `hash_password`, with the salt it draws.
unfoldable pub create_user :
    (String → String) → ℕ → String → CreateUserRequest → Accounts → Result Accounts
create_user hash_password fresh_id actor req a = do
  raise_if (ltb (text_length (strip req.username)) 2) 400
  raise_if (ltb (text_length req.password) 8) 400
  role ← found_or 400 (role_with_id req.role_id a)
  raise_if (is_some (user_named (strip req.username) a)) 409
  ok (
      log_audit "user.create" actor
        (record a { users = a.users ++ user_of hash_password fresh_id req role ∷ [] }))

pub rename_user : Option String → Accounts → User → Result User
rename_user none a user = ok user
rename_user (some username) a user = do
  raise_if (ltb (text_length (strip username)) 2) 400
  raise_if (is_root user) 400
  raise_if (is_some (user_named (strip username) a)) 409
  ok (record user { username = strip username })

pub assign_role : Option ℕ → Accounts → User → Result User
assign_role none a user = ok user
assign_role (some role_id) a user = do
  raise_if (is_root user) 400
  role ← found_or 400 (role_with_id role_id a)
  ok (record user { role_id = some role.id; role = role.name })

pub change_hash : (String → String) → Option String → User → Result User
change_hash hash_password none user = ok user
change_hash hash_password (some password) user = do
  raise_if (ltb (text_length password) 8) 400
  ok (record user { password_hash = hash_password password })

-- The credentials file follows the password of the root account.
abbrev pub saved_hash : Option String → User → Option String → Option String
saved_hash none user file = file
saved_hash (some password) user file = if is_root user then some user.password_hash else file

abbrev pub put_user : ℕ → User → Accounts → Accounts
put_user user_id user a = record a {
  users = update_where (λ u. u.id == user_id) (λ u. user) a.users;
}

unfoldable pub update_user :
    (String → String) → ℕ → String → UpdateUserRequest → Accounts → Result Accounts
unfolding rename_user assign_role change_hash
update_user hash_password user_id actor req a = do
  user ← found_or 404 (user_with_id user_id a)
  renamed ← rename_user req.username a user
  assigned ← assign_role req.role_id a renamed
  changed ← change_hash hash_password req.password assigned
  ok (
      log_audit "user.update" actor (record (put_user user_id changed a) {
        credentials = saved_hash req.password changed a.credentials;
      }))

unfoldable pub delete_user : ℕ → String → Accounts → Result Accounts
delete_user user_id actor a = do
  user ← found_or 404 (user_with_id user_id a)
  raise_if (is_root user) 400
  ok (
      log_audit "user.delete" actor
        (record a { users = select (λ u. not (u.id == user_id)) a.users }))

-- The session's own password; `username` is that of a token that was decoded.
unfoldable pub change_password : (String → String) → String → String → Accounts → Result Accounts
unfolding change_hash
change_password hash_password username password a = do
  raise_if (ltb (text_length password) 8) 400
  user ← found_or 404 (user_named username a)
  ok (
      log_audit "auth.change_password" user.username
        (record (put_user user.id (record user { password_hash = hash_password password }) a) {
          credentials =
              saved_hash (some password) (record user { password_hash = hash_password password })
                a.credentials;
        }))
