-- ===== src/Accounts/Users/Steps.antt =====
-- What the endpoints keep of the table of users, over any run of them.
use cloudbase.Prelude.{
  ℕ, String, ◌≡◌, refl, inl, inr, not, Option, none, some, [], ◌∷◌, ◌++◌, arith, str_eq, ltb, ◌==◌,
  ==_iff, is_some, is_some-none, select, text_length, strip,
}
use cloudbase.Prelude.Result.{ok, raise_if, bind-ok, raise_if-ok}
use cloudbase.Prelude.Counts.{count-find-none, find_unique}
use cloudbase.Accounts.Users.Sound.{
  id_count, name_count, UsersSound, NameKept, put-UsersSound, remove-UsersSound, append-UsersSound,
}
use cloudbase.Accounts.{Accounts, User, user_named, user_with_id, role_with_id}
use cloudbase.Accounts.Users.{
  CreateUserRequest, UpdateUserRequest, found_or, is_root, user_of, create_user, rename_user,
  assign_role, change_hash, put_user, update_user, delete_user, change_password,
}

pub found_or-ok :
    {A : Type 0} (code : ℕ) (o : Option A) (x : A) → found_or code o ≡ ok x → o ≡ some x
found_or-ok code none x e = cc
found_or-ok code (some y) x e = ground arith

rename_user-kept :
    (name : Option String) (a : Accounts) (x y : User)
    → rename_user name a x ≡ ok y
    → (y.id ≡ x.id) × NameKept a.users x y
unfolding rename_user
rename_user-kept none a x y e = let same : x ≡ y = ground arith in rw (← same) (refl, inl refl)
rename_user-kept (some n) a x y e =
    let (u, long, e₁) = bind-ok (raise_if (ltb (text_length (strip n)) 2) 400) _ e in
    let (v, plain, e₂) = bind-ok (raise_if (is_root x) 400) _ e₁ in
    let (w, free, e₃) = bind-ok (raise_if (is_some (user_named (strip n) a)) 409) _ e₂ in
    let same : record x { username = strip n } ≡ y = ground arith in
    rw (← same)
      (refl, inr (raise_if-ok (is_root x) 400 plain, is_some-none _ (raise_if-ok _ 409 free)))

assign_role-kept :
    (role_id : Option ℕ) (a : Accounts) (x y : User)
    → assign_role role_id a x ≡ ok y
    → (y.id ≡ x.id) × (y.username ≡ x.username)
unfolding assign_role
assign_role-kept none a x y e = let same : x ≡ y = ground arith in rw (← same) (refl, refl)
assign_role-kept (some k) a x y e =
    let (v, plain, e₁) = bind-ok (raise_if (is_root x) 400) _ e in
    let (role, found, e₂) = bind-ok (found_or 400 (role_with_id k a)) _ e₁ in
    let same : record x { role_id = some role.id; role = role.name } ≡ y = ground arith in
    rw (← same) (refl, refl)

change_hash-kept :
    (hash_password : String → String) (password : Option String) (x y : User)
    → change_hash hash_password password x ≡ ok y
    → (y.id ≡ x.id) × (y.username ≡ x.username)
unfolding change_hash
change_hash-kept hash_password none x y e =
    let same : x ≡ y = ground arith in rw (← same) (refl, refl)
change_hash-kept hash_password (some p) x y e =
    let (v, long, e₁) = bind-ok (raise_if (ltb (text_length p) 8) 400) _ e in
    let same : record x { password_hash = hash_password p } ≡ y = ground arith in
    rw (← same) (refl, refl)

-- The endpoints that write to the table of users.
pub data UserStep (hash_password : String → String) : Accounts → Accounts → Type 0 where
  creates :
      {a a' : Accounts} (fresh_id : ℕ) (actor : String) (req : CreateUserRequest)
      → id_count fresh_id a.users ≡ 0
      → create_user hash_password fresh_id actor req a ≡ ok a'
      → UserStep hash_password a a'
  updates :
      {a a' : Accounts} (user_id : ℕ) (actor : String) (req : UpdateUserRequest)
      → update_user hash_password user_id actor req a ≡ ok a'
      → UserStep hash_password a a'
  deletes :
      {a a' : Accounts} (user_id : ℕ) (actor : String)
      → delete_user user_id actor a ≡ ok a'
      → UserStep hash_password a a'
  changes_password :
      {a a' : Accounts} (username password : String)
      → change_password hash_password username password a ≡ ok a'
      → UserStep hash_password a a'

pub data UserSteps (hash_password : String → String) : Accounts → Accounts → Type 0 where
  done : {a : Accounts} → UserSteps hash_password a a
  step :
      {a b c : Accounts}
      → UserStep hash_password a b
      → UserSteps hash_password b c
      → UserSteps hash_password a c

module _ (hash_password : String → String) where
  create_user-UsersSound :
      (fresh_id : ℕ) (actor : String) (req : CreateUserRequest) (a a' : Accounts)
      → id_count fresh_id a.users ≡ 0
      → create_user hash_password fresh_id actor req a ≡ ok a'
      → UsersSound a.users
      → UsersSound a'.users
  unfolding create_user
  create_user-UsersSound fresh_id actor req a a' fresh e (ids, names, root) =
      let name = strip req.username in
      let (u₁, long, e₁) = bind-ok (raise_if (ltb (text_length name) 2) 400) _ e in
      let (u₂, strong, e₂) = bind-ok (raise_if (ltb (text_length req.password) 8) 400) _ e₁ in
      let (role, found, e₃) = bind-ok (found_or 400 (role_with_id req.role_id a)) _ e₂ in
      let (u₃, free, e₄) = bind-ok (raise_if (is_some (user_named name a)) 409) _ e₃ in
      let new = user_of hash_password fresh_id req role in
      let same : a.users ++ new ∷ [] ≡ a'.users = ground arith in
      let none_yet : name_count name a.users ≡ 0 =
        count-find-none _ a.users (is_some-none _ (raise_if-ok _ 409 free)) in
      rw (← same) (append-UsersSound new a.users fresh none_yet (ids, names, root))

  update_user-UsersSound :
      (user_id : ℕ) (actor : String) (req : UpdateUserRequest) (a a' : Accounts)
      → update_user hash_password user_id actor req a ≡ ok a'
      → UsersSound a.users
      → UsersSound a'.users
  unfolding update_user
  update_user-UsersSound user_id actor req a a' e sound =
      let (x, found, e₁) = bind-ok (found_or 404 (user_with_id user_id a)) _ e in
      let (x₁, renamed, e₂) = bind-ok (rename_user req.username a x) _ e₁ in
      let (x₂, assigned, e₃) = bind-ok (assign_role req.role_id a x₁) _ e₂ in
      let (y, changed, e₄) = bind-ok (change_hash hash_password req.password x₂) _ e₃ in
      let same : (put_user user_id y a).users ≡ a'.users = ground arith in
      let (id₁, kept) = rename_user-kept req.username a x x₁ renamed in
      let (id₂, name₂) = assign_role-kept req.role_id a x₁ x₂ assigned in
      let (id₃, name₃) = change_hash-kept hash_password req.password x₂ y changed in
      let name : y.username ≡ x₁.username = cc in
      rw (← same) (
        put-UsersSound user_id x y a.users (found_or-ok 404 _ x found) sound (cc)
          (rw (← name) at kept))

  delete_user-UsersSound :
      (user_id : ℕ) (actor : String) (a a' : Accounts)
      → delete_user user_id actor a ≡ ok a'
      → UsersSound a.users
      → UsersSound a'.users
  unfolding delete_user
  delete_user-UsersSound user_id actor a a' e sound =
      let (x, found, e₁) = bind-ok (found_or 404 (user_with_id user_id a)) _ e in
      let (u, plain, e₂) = bind-ok (raise_if (is_root x) 400) _ e₁ in
      let same : select (λ u. not (u.id == user_id)) a.users ≡ a'.users = ground arith in
      rw (← same) (
        remove-UsersSound user_id x x a.users (found_or-ok 404 _ x found) sound
          (raise_if-ok (is_root x) 400 plain))

  change_password-UsersSound :
      (username password : String) (a a' : Accounts)
      → change_password hash_password username password a ≡ ok a'
      → UsersSound a.users
      → UsersSound a'.users
  unfolding change_password
  change_password-UsersSound username password a a' e sound =
      let (u, long, e₁) = bind-ok (raise_if (ltb (text_length password) 8) 400) _ e in
      let (x, found, e₂) = bind-ok (found_or 404 (user_named username a)) _ e₁ in
      let y = record x { password_hash = hash_password password } in
      let same : (put_user x.id y a).users ≡ a'.users = ground arith in
      let by_id =
        find_unique (λ u. u.id == x.id) (λ u. str_eq u.username username) x a.users
          (found_or-ok 404 _ x found) ((==_iff x.id x.id).1 refl) (sound.0 x.id) in
      rw (← same) (put-UsersSound x.id x y a.users by_id sound refl (inl refl))

  -- The users' ids and names stay unique and there is always one root account, over every run of the
  -- endpoints that write to the table of users, from tables that have these properties.
  pub users_stay_sound :
      {a a' : Accounts} → UserSteps hash_password a a' → UsersSound a.users → UsersSound a'.users
  users_stay_sound done sound = sound
  users_stay_sound (step {a = a} {b = b} (creates fresh_id actor req fresh e) steps) sound =
      users_stay_sound steps (create_user-UsersSound fresh_id actor req a b fresh e sound)
  users_stay_sound (step {a = a} {b = b} (updates user_id actor req e) steps) sound =
      users_stay_sound steps (update_user-UsersSound user_id actor req a b e sound)
  users_stay_sound (step {a = a} {b = b} (deletes user_id actor e) steps) sound =
      users_stay_sound steps (delete_user-UsersSound user_id actor a b e sound)
  users_stay_sound (step {a = a} {b = b} (changes_password username password e) steps) sound =
      users_stay_sound steps (change_password-UsersSound username password a b e sound)
