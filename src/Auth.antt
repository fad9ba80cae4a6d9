-- ===== src/Auth.antt =====
-- backend/auth.py: session tokens, the agent's token, and the guards of the handlers.
pub mod AgentToken
pub mod Guards
pub mod Sample
mod Tests
use cloudbase.Prelude.{
  ℕ, ◌+◌, ◌≤◌, ◌<◌, String, ◌≡◌, Bool, true, false, ◌||◌, Option, none, some, List, str_eq,
  if◌then◌else◌, has_text,
}
use cloudbase.Prelude.Result.{Result, ok, raise, ◌>>=◌}
use cloudbase.Accounts.{Accounts, User, user_named, get_user_permissions}

-- The claims of a token; times are whole seconds.
pub record Payload : Type 0 where
  pub sub : Option String
  pub role : Option String
  pub exp : Option ℕ
  pub iat : Option ℕ

-- The package jose, with the key and the algorithm of the server: `decode` is given the time, and
-- is `none` for what raises `JWTError`.
pub record Jwt : Type 1 where
  pub Token : Type 0
  pub is_empty : Token → Bool
  pub encode : Payload → Token
  pub decode : ℕ → Token → Option Payload
  pub encode_nonempty : (p : Payload) → is_empty (encode p) ≡ false
  pub decode-encode :
      (p : Payload) (exp now : ℕ) → p.exp ≡ some exp → now ≤ exp → decode now (encode p) ≡ some p
  pub decode_expired :
      (p : Payload) (exp now : ℕ) → p.exp ≡ some exp → exp < now → decode now (encode p) ≡ none

-- The result of `decode_token`
pub record TokenUser : Type 0 where
  pub username : String
  pub role : String

-- What a guard hands to its handler; `permissions` is `None` for the root account.
pub record Session : Type 0 where
  pub username : String
  pub role : String
  pub role_id : Option ℕ
  pub permissions : Option (List String)

default_role : String → String
default_role username = if str_eq username "admin" then "admin" else "viewer"

role_or_default : String → Option String → String
role_or_default username none = default_role username
role_or_default username (some role) = role

-- A claim that is missing or empty names nobody.
named_user : Payload → Option String → Option TokenUser
named_user p none = none
named_user p (some username) =
    if str_eq username ""
    then none
    else some (record { username = username; role = role_or_default username p.role })

user_of_payload : Option Payload → Option TokenUser
unfolding named_user role_or_default default_role
user_of_payload none = none
user_of_payload (some p) = named_user p p.sub

abbrev pub root_session : TokenUser → User → Session
root_session t u = record {
  username = t.username;
  role = u.role;
  role_id = u.role_id;
  permissions = none;
}

abbrev pub user_session : TokenUser → User → List String → Session
user_session t u perms = record {
  username = t.username;
  role = u.role;
  role_id = u.role_id;
  permissions = some perms;
}

-- The guards below ask for the row of the token's user first.
abbrev live_user : Accounts → TokenUser → Result User
live_user a t = elim (user_named t.username a) [ none ↦ raise 401 | some u ↦ ok u ]

abbrev superadmin_session : TokenUser → User → Result Session
superadmin_session t u = if str_eq u.username "admin" then ok (root_session t u) else raise 403

abbrev permitted_session : String → Accounts → TokenUser → User → Result Session
permitted_session permission a t u =
    if str_eq u.username "admin"
    then ok (root_session t u)
    else let perms = get_user_permissions a u.username in
      if has_text permission perms then ok (user_session t u perms) else raise 403

module _ (jwt : Jwt) where
  open jwt use {Token, is_empty, encode, decode}

  -- `exp` and `iat` are the whole seconds that jose makes of the two times.
  unfoldable pub create_access_token : ℕ → ℕ → String → String → Token
  create_access_token expire_seconds now username role = encode (record {
    sub = some username;
    role = some role;
    exp = some (now + expire_seconds);
    iat = some now;
  })

  unfoldable pub decode_token : ℕ → Token → Option TokenUser
  unfolding user_of_payload
  decode_token now token = user_of_payload (decode now token)

  -- A cookie that is missing or empty is no token.
  unfoldable pub cookie_user : ℕ → Option Token → Option TokenUser
  unfolding decode_token
  cookie_user now none = none
  cookie_user now (some token) = if is_empty token then none else decode_token now token

  unfoldable pub require_auth : ℕ → Option Token → Result TokenUser
  unfolding cookie_user
  require_auth now cookie = elim (cookie_user now cookie) [ none ↦ raise 401 | some t ↦ ok t ]

  unfoldable pub require_superadmin : Accounts → ℕ → Option Token → Result Session
  unfolding require_auth
  require_superadmin a now cookie = do
    t ← require_auth now cookie
    u ← live_user a t
    superadmin_session t u

  unfoldable pub require_permission : String → Accounts → ℕ → Option Token → Result Session
  unfolding require_auth
  require_permission permission a now cookie = do
    t ← require_auth now cookie
    u ← live_user a t
    permitted_session permission a t u

  -- The legacy guard asks for one fixed permission.
  unfoldable pub require_admin : Accounts → ℕ → Option Token → Result Session
  unfolding require_auth
  require_admin a now cookie = do
    t ← require_auth now cookie
    u ← live_user a t
    permitted_session "system.manage" a t u

  unfoldable pub get_current_actor : ℕ → Option Token → String
  unfolding cookie_user
  get_current_actor now cookie = elim (cookie_user now cookie) [
    | none ↦ "system"
    | some t ↦ t.username
  ]

  -- `true` if the socket may go on; otherwise it was closed.
  websocket_permitted : Accounts → Option String → TokenUser → Bool
  websocket_permitted a none t = true
  websocket_permitted a (some permission) t =
      str_eq t.username "admin" || has_text permission (get_user_permissions a t.username)

  unfoldable pub authorize_websocket : Accounts → ℕ → Option Token → Option String → Bool
  unfolding cookie_user websocket_permitted
  authorize_websocket a now cookie permission = elim (cookie_user now cookie) [
    | none ↦ false
    | some t ↦ websocket_permitted a permission t
  ]
