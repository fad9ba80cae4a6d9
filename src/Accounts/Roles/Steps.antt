-- ===== src/Accounts/Roles/Steps.antt =====
-- What the endpoints keep of roles and of the roles of users, over any run of them.
use cloudbase.Prelude.{
  ℕ, ◌≤◌, String, ◌≡◌, refl, inl, inr, false, not, ◌&&◌, Option, none, some, List, [], ◌∷◌, ◌++◌,
  arith, str_eq, eq_iff, ltb, ◌==◌, Bool-cases, is_some, is_some-none, select, find, any, has_text,
  text_length, strip,
}
use cloudbase.Prelude.Result.{ok, raise_if, bind-ok, raise_if-ok}
use cloudbase.Prelude.Counts.{count-find-none}
use cloudbase.Prelude.Rows.{count_where-append}
use cloudbase.Accounts.{Accounts, Role, User, role_with_id}
use cloudbase.Accounts.Users.{found_or}
use cloudbase.Accounts.Users.Steps.{found_or-ok}
use cloudbase.Accounts.Roles.{
  CreateRoleRequest, UpdateRoleRequest, is_builtin, has_permission, has_grant, grant_all, add_role,
  create_role, rename_role, describe, put_role, revoke_all, replace_permissions, update_role,
  has_role, delete_role,
}
use cloudbase.Accounts.Roles.Sound.{
  role_count, RolesSound, Assigned, AllAssigned, NameKept, put-role_count, put-RolesSound,
  remove-RolesSound, remove-AllAssigned, append-RolesSound,
}

-- The endpoints that write to the table of roles.
pub data RoleStep : Accounts → Accounts → Type 0 where
  creates :
      {a a' : Accounts} (fresh_id : ℕ) (actor : String) (req : CreateRoleRequest)
      → role_count fresh_id a.roles ≡ 0
      → create_role fresh_id actor req a ≡ ok a'
      → RoleStep a a'
  updates :
      {a a' : Accounts} (role_id : ℕ) (actor : String) (req : UpdateRoleRequest)
      → update_role role_id actor req a ≡ ok a'
      → RoleStep a a'
  deletes :
      {a a' : Accounts} (role_id : ℕ) (actor : String)
      → delete_role role_id actor a ≡ ok a'
      → RoleStep a a'

pub data RoleSteps : Accounts → Accounts → Type 0 where
  done : {a : Accounts} → RoleSteps a a
  step : {a b c : Accounts} → RoleStep a b → RoleSteps b c → RoleSteps a c

abbrev pub TablesSound : Accounts → Type 0
TablesSound a = RolesSound a.roles × AllAssigned a.roles a.users

abbrev SameTables : Accounts → Accounts → Type 0
SameTables a a' = (a'.roles ≡ a.roles) × (a'.users ≡ a.users)

grant_all-same :
    (role_id : ℕ) (ids : List ℕ) (a a' : Accounts)
    → grant_all role_id ids a ≡ ok a'
    → SameTables a a'
unfolding grant_all
grant_all-same role_id [] a a' e = let same : a ≡ a' = ground arith in rw (← same) (refl, refl)
grant_all-same role_id (id ∷ ids) a a' e =
    let (u, known, e₁) = bind-ok (raise_if (not (has_permission id a)) 400) _ e in
    let (v, new, e₂) = bind-ok (raise_if (has_grant role_id id a.role_permissions) 500) _ e₁ in
    grant_all-same role_id ids
      (record a { role_permissions = a.role_permissions ++ (role_id, id) ∷ [] }) a' e₂

replace_permissions-same :
    (role_id : ℕ) (ids : Option (List ℕ)) (role : Role) (a a' : Accounts)
    → replace_permissions role_id ids role a ≡ ok a'
    → SameTables a a'
unfolding replace_permissions
replace_permissions-same role_id none role a a' e =
    let same : a ≡ a' = ground arith in rw (← same) (refl, refl)
replace_permissions-same role_id (some ids) role a a' e =
    let (u, plain, e₁) = bind-ok (raise_if (is_builtin role) 400) _ e in
    grant_all-same role_id ids (revoke_all role_id a) a' e₁

TablesSound-of_same : (a a' : Accounts) → SameTables a a' → TablesSound a → TablesSound a'
TablesSound-of_same a a' (roles, users) sound = rw (roles, users) sound

renamed :
    (k : ℕ) (name : String) (roles : List Role) (x : Role)
    → (is_builtin x && not (str_eq name x.name)) ≡ false
    → find (λ r. str_eq r.name name && not (r.id == k)) roles ≡ none
    → NameKept k roles x (record x { name = name })
renamed k name roles x own free = elim (Bool-cases (is_builtin x)) [
  | inl e ↦ inl ((eq_iff name x.name).0 (ground arith))
  | inr e ↦ inr (e, free)
]

describe-kept :
    (description : Option String) (x : Role)
    → ((describe description x).id ≡ x.id) × ((describe description x).name ≡ x.name)
describe-kept none x = (refl, refl)
describe-kept (some d) x = (refl, refl)

Assigned-of_le :
    (roles roles' : List Role)
    → ((k : ℕ) → role_count k roles ≤ role_count k roles')
    → (role_id : Option ℕ) → Assigned roles role_id
    → Assigned roles' role_id
Assigned-of_le roles roles' le none a = a
Assigned-of_le roles roles' le (some k) a = omega (arith, le k, a)

AllAssigned-of_le :
    (roles roles' : List Role) (users : List User)
    → ((k : ℕ) → role_count k roles ≤ role_count k roles')
    → AllAssigned roles users
    → AllAssigned roles' users
AllAssigned-of_le roles roles' [] le all_of = tt
AllAssigned-of_le roles roles' (u ∷ users) le (a, all_of) =
    (Assigned-of_le roles roles' le u.role_id a, AllAssigned-of_le roles roles' users le all_of)

rename_role-kept :
    (role_id : ℕ) (name : Option String) (a : Accounts) (x y : Role)
    → rename_role role_id name a x ≡ ok y
    → (y.id ≡ x.id) × NameKept role_id a.roles x y
unfolding rename_role
rename_role-kept role_id none a x y e =
    let same : x ≡ y = ground arith in rw (← same) (refl, inl refl)
rename_role-kept role_id (some n) a x y e =
    let (u, long, e₁) = bind-ok (raise_if (ltb (text_length (strip n)) 2) 400) _ e in
    let (v, own, e₂) =
      bind-ok (raise_if (is_builtin x && not (str_eq (strip n) x.name)) 400) _ e₁ in
    let (w, free, e₃) =
      bind-ok
        (raise_if (is_some (find (λ r. str_eq r.name (strip n) && not (r.id == role_id)) a.roles))
          409)
        _ e₂ in
    let same : record x { name = strip n } ≡ y = ground arith in
    rw (← same) (
      refl,
      renamed role_id (strip n) a.roles x (raise_if-ok _ 400 own)
          (is_some-none _ (raise_if-ok _ 409 free)),
    )

create_role-TablesSound :
    (fresh_id : ℕ) (actor : String) (req : CreateRoleRequest) (a a' : Accounts)
    → role_count fresh_id a.roles ≡ 0
    → create_role fresh_id actor req a ≡ ok a'
    → TablesSound a
    → TablesSound a'
unfolding create_role
create_role-TablesSound fresh_id actor req a a' fresh e sound =
    let name = strip req.name in
    let (u₁, long, e₁) = bind-ok (raise_if (ltb (text_length name) 2) 400) _ e in
    let (u₂, plain, e₂) =
      bind-ok (raise_if (has_text name ("Administrator" ∷ "Viewer" ∷ [])) 400) _ e₁ in
    let (u₃, free, e₃) =
      bind-ok (raise_if (is_some (find (λ r. str_eq r.name name) a.roles)) 409) _ e₂ in
    let (b, granted, e₄) =
      bind-ok (grant_all fresh_id req.permission_ids (add_role fresh_id req a)) _ e₃ in
    let (same_roles, same_users) = grant_all-same fresh_id req.permission_ids _ b granted in
    let roles : a'.roles ≡ (add_role fresh_id req a).roles = ground (arith, same_roles) in
    let users : a'.users ≡ a.users = ground (arith, same_users) in
    let none_yet = count-find-none _ a.roles (is_some-none _ (raise_if-ok _ 409 free)) in
    rw (roles, users)
      (
        append-RolesSound _ a.roles fresh none_yet sound.0,
        AllAssigned-of_le a.roles _ a.users (λ k. rw count_where-append (omega arith)) sound.1,
      )

update_role-TablesSound :
    (role_id : ℕ) (actor : String) (req : UpdateRoleRequest) (a a' : Accounts)
    → update_role role_id actor req a ≡ ok a'
    → TablesSound a
    → TablesSound a'
unfolding update_role
update_role-TablesSound role_id actor req a a' e (sound, assigned) =
    let (x, found, e₁) = bind-ok (found_or 404 (role_with_id role_id a)) _ e in
    let (y, renamed, e₂) = bind-ok (rename_role role_id req.name a x) _ e₁ in
    let z = describe req.description y in
    let (b, replaced, e₃) =
      bind-ok (replace_permissions role_id req.permission_ids y (put_role role_id z a)) _ e₂ in
    let same = replace_permissions-same role_id req.permission_ids y _ b replaced in
    let (id, kept) = rename_role-kept role_id req.name a x y renamed in
    let (same_id, same_name) = describe-kept req.description y in
    let row = found_or-ok 404 _ x found in
    let put =
      put-RolesSound role_id x a.roles row sound z (cc (same_id, id)) (rw (← same_name) at kept) in
    let counts = put-role_count role_id x a.roles row sound z (cc (same_id, id)) in
    let users =
      AllAssigned-of_le a.roles (put_role role_id z a).roles a.users (λ k. omega (arith, counts k))
        assigned in
    TablesSound-of_same b a' (ground arith, ground arith)
      (TablesSound-of_same (put_role role_id z a) b same (put, users))

delete_role-TablesSound :
    (role_id : ℕ) (actor : String) (a a' : Accounts)
    → delete_role role_id actor a ≡ ok a'
    → TablesSound a
    → TablesSound a'
unfolding delete_role
delete_role-TablesSound role_id actor a a' e (sound, assigned) =
    let (x, found, e₁) = bind-ok (found_or 404 (role_with_id role_id a)) _ e in
    let (u, plain, e₂) = bind-ok (raise_if (is_builtin x) 400) _ e₁ in
    let (v, unused, e₃) =
      bind-ok (raise_if (any (λ u. has_role role_id u.role_id) a.users) 400) _ e₂ in
    let roles : select (λ r. not (r.id == role_id)) a.roles ≡ a'.roles = ground arith in
    let users : a.users ≡ a'.users = ground arith in
    let row = found_or-ok 404 _ x found in
    rw (← roles, ← users)
      (
        remove-RolesSound role_id x a.roles row sound (raise_if-ok _ 400 plain),
        remove-AllAssigned role_id x a.roles row sound a.users (raise_if-ok _ 400 unused) assigned,
      )

-- Over every run of the endpoints that write roles, from tables that have these properties: the ids
-- and names of roles stay unique, the two built-in roles stay under their names, and every role that
-- a user has exists.
pub roles_stay_sound : {a a' : Accounts} → RoleSteps a a' → TablesSound a → TablesSound a'
roles_stay_sound done sound = sound
roles_stay_sound (step {a = a} {b = b} (creates fresh_id actor req fresh e) steps) sound =
    roles_stay_sound steps (create_role-TablesSound fresh_id actor req a b fresh e sound)
roles_stay_sound (step {a = a} {b = b} (updates role_id actor req e) steps) sound =
    roles_stay_sound steps (update_role-TablesSound role_id actor req a b e sound)
roles_stay_sound (step {a = a} {b = b} (deletes role_id actor e) steps) sound =
    roles_stay_sound steps (delete_role-TablesSound role_id actor a b e sound)
