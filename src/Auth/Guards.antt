-- ===== src/Auth/Guards.antt =====
-- Session tokens and guards: what a token says and how long, and how the guards agree.
use cloudbase.Prelude.{
  Bool, not, ◌&&◌, ℕ, ◌+◌, String, ◌≡◌, refl, ◌≢◌, inl, inr, true, false, ◌||◌, Option, none, some,
  [], arith, str_eq, eq_iff, leb, if◌then◌else◌, Option-cases, is_some, find-holds, has_text,
}
use cloudbase.Prelude.Result.{ok, raise, ◌>>=◌, is_ok}
use cloudbase.Accounts.{Accounts, User, user_named, get_user_permissions}
use cloudbase.Auth.{
  live_user, permitted_session, Jwt, Payload, TokenUser, Session, create_access_token, cookie_user,
  get_current_actor, require_admin, require_auth, require_superadmin, require_permission,
  authorize_websocket,
}

cookie_user-create :
    (jwt : Jwt) (expire_seconds now later : ℕ) (username role : String)
    → username ≢ ""
    → cookie_user jwt later (some (create_access_token jwt expire_seconds now username role)) ≡ (
        if leb later (now + expire_seconds)
        then some (record { username = username; role = role })
        else none)
unfolding create_access_token cookie_user
cookie_user-create jwt expire_seconds now later username role named =
    let p : Payload = record {
      sub = some username;
      role = some role;
      exp = some (now + expire_seconds);
      iat = some now;
    } in
    ground (
      arith,
      eq_iff username "",
      jwt.encode_nonempty p,
      jwt.decode-encode p (now + expire_seconds) later refl,
      jwt.decode_expired p (now + expire_seconds) later refl,
    )

-- What the guards make of a token of a user while `live` holds: the session, the name of the actor,
-- and no way past any guard once it does not.
abbrev pub Lifetime :
    (jwt : Jwt) → Accounts → Option jwt.Token → ℕ → String → String → String → Bool → Type 0
Lifetime jwt a cookie later username role permission live =
    (require_auth jwt later cookie
      ≡ (if live then ok (record { username = username; role = role }) else raise 401))
    × (get_current_actor jwt later cookie ≡ (if live then username else "system"))
    × (authorize_websocket jwt a later cookie none ≡ live)
    × ((is_ok (require_superadmin jwt a later cookie) && not live) ≡ false)
    × ((is_ok (require_permission jwt permission a later cookie) && not live) ≡ false)
    × ((is_ok (require_admin jwt a later cookie) && not live) ≡ false)
    × ((authorize_websocket jwt a later cookie (some permission) && not live) ≡ false)

guards-Lifetime :
    (jwt : Jwt) (a : Accounts) (cookie : Option jwt.Token) (later : ℕ)
    (username role permission : String) (live : Bool)
    → cookie_user jwt later cookie
      ≡ (if live then some (record { username = username; role = role }) else none)
    → Lifetime jwt a cookie later username role permission live
unfolding require_auth get_current_actor authorize_websocket require_superadmin require_permission
    require_admin
guards-Lifetime jwt a cookie later username role permission true e = (
  rw (e, require_auth) refl,
  rw (e, get_current_actor) refl,
  rw (e, authorize_websocket) refl,
  ground arith,
  ground arith,
  ground arith,
  ground arith,
)
guards-Lifetime jwt a cookie later username role permission false e = (
  rw (e, require_auth) refl,
  rw (e, get_current_actor) refl,
  rw (e, authorize_websocket) refl,
  rw (e, require_superadmin, require_auth, ◌&&◌) refl,
  rw (e, require_permission, require_auth, ◌&&◌) refl,
  rw (e, require_admin, require_auth, ◌&&◌) refl,
  rw (e, authorize_websocket, ◌&&◌) refl,
)

-- The token that `create_access_token` makes for a user with a name is that user's session, for the
-- guard of a session, the actor's name and a websocket, until the whole second of its expiry. After
-- it no guard lets the token pass, whatever the accounts and the permission.
pub create_access_token-Lifetime :
    (jwt : Jwt) (a : Accounts) (expire_seconds now later : ℕ) (username role permission : String)
    → username ≢ ""
    → Lifetime jwt a
        (some (create_access_token jwt expire_seconds now username role))
        later
        username
        role
        permission
        (leb later (now + expire_seconds))
create_access_token-Lifetime jwt a expire_seconds now later username role permission named =
    guards-Lifetime jwt a (some (create_access_token jwt expire_seconds now username role)) later
      username role permission (leb later (now + expire_seconds))
      (cookie_user-create jwt expire_seconds now later username role named)

module _ (a : Accounts) (name : String) where
  permissions_of_nobody : user_named name a ≡ none → get_user_permissions a name ≡ []
  unfolding get_user_permissions
  permissions_of_nobody e = rw (e, get_user_permissions)

  user_named-username : {u : User} → user_named name a ≡ some u → u.username ≡ name
  user_named-username {u} e =
      (eq_iff u.username name).0 (find-holds (λ v. str_eq v.username name) a.users u e)

  root_has_row :
      is_some (user_named "admin" a) ≡ true → user_named name a ≡ none → str_eq name "admin" ≡ false
  root_has_row root e = ground (arith, eq_iff name "admin")

websocket_agrees_user :
    (a : Accounts) (permission : String) (t : TokenUser)
    → is_some (user_named "admin" a) ≡ true
    → (str_eq t.username "admin" || has_text permission (get_user_permissions a t.username))
      ≡ is_ok (live_user a t >>= permitted_session permission a t)
websocket_agrees_user a permission t root = elim (Option-cases (user_named t.username a)) [
  | inl e ↦ ground (arith, root_has_row a t.username root e, permissions_of_nobody a t.username e)
  | inr (u, e) ↦ ground (arith, e, user_named-username a t.username e)
]

-- Where the root account has its row, `authorize_websocket` lets a socket pass exactly when
-- `require_permission` lets a request with the same cookie pass.
pub websocket_agrees :
    (jwt : Jwt) (a : Accounts) (now : ℕ) (cookie : Option jwt.Token) (permission : String)
    → is_some (user_named "admin" a) ≡ true
    → authorize_websocket jwt a now cookie (some permission)
      ≡ is_ok (require_permission jwt permission a now cookie)
unfolding authorize_websocket require_permission
websocket_agrees jwt a now cookie permission root =
    elim (Option-cases (cookie_user jwt now cookie)) [
      | inl e ↦ rw (e, authorize_websocket, require_auth)
      | inr (t, e) ↦
          rw (e, authorize_websocket, require_auth) (websocket_agrees_user a permission t root)
    ]

-- What `require_superadmin` lets pass is let pass by every permission guard, with the same session.
superadmin_has_all :
    (jwt : Jwt) (a : Accounts) (now : ℕ) (cookie : Option jwt.Token) (permission : String)
    (s : Session)
    → require_superadmin jwt a now cookie ≡ ok s
    → require_permission jwt permission a now cookie ≡ ok s
unfolding require_superadmin require_permission
superadmin_has_all jwt a now cookie permission s e = ground arith
