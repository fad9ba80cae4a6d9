-- ===== src/Accounts/Users/Tests.antt =====
-- A run of the endpoints for users.
use cloudbase.Prelude.{String, ◌≡◌, refl, some, List, [], ◌∷◌, arith, str_eq, if◌then◌else◌, strip}
use cloudbase.Prelude.Result.{Result, ok, raise}
use cloudbase.Accounts.{Accounts, User}
use cloudbase.Accounts.Users.{
  CreateUserRequest, UpdateUserRequest, create_user, update_user, delete_user, change_password,
}
use cloudbase.Accounts.Users.Sound.{UsersSound, append-UsersSound}
use cloudbase.Accounts.Users.Steps.{
  UserSteps, done, step, creates, updates, deletes, changes_password, users_stay_sound,
}
use cloudbase.Auth.Sample.{root_user, eve, sample_accounts}

abbrev hash : String → String
hash password = if str_eq password "long enough" then "h4" else "h5"

abbrev bob : CreateUserRequest
bob = record { username = " bob "; password = "correct horse"; role_id = 7 }

abbrev rename : UpdateUserRequest
rename = record { username = some "mallory"; password = some "battery staple"; role_id = some 7 }

only_root : UsersSound (root_user ∷ [])
only_root = (λ k. ground arith, λ n. ground arith, refl)

sample_UsersSound : UsersSound sample_accounts.users
sample_UsersSound = append-UsersSound eve (root_user ∷ []) refl refl only_root

abbrev users_after : List User
users_after =
    record root_user { password_hash = "h4" }
    ∷ record eve { username = "mallory"; password_hash = "h5" }
    ∷ []

abbrev or_empty : Result Accounts → Accounts
or_empty (ok a) = a
or_empty (raise code) = record sample_accounts { users = [] }

abbrev with_bob : Accounts
with_bob = or_empty (create_user hash 3 "admin" bob sample_accounts)

abbrev renamed : Accounts
renamed = or_empty (update_user hash 2 "admin" rename with_bob)

abbrev without_bob : Accounts
without_bob = or_empty (delete_user 3 "admin" renamed)

abbrev end : Accounts
end = or_empty (change_password hash "admin" "long enough" without_bob)

run : UserSteps hash sample_accounts end
unfolding create_user update_user delete_user change_password strip
run = step (creates 3 "admin" bob refl refl) (
    step (updates 2 "admin" rename refl)
      (step (deletes 3 "admin" refl) (step (changes_password "admin" "long enough" refl) done)))

end-eq : end.users ≡ users_after
unfolding create_user update_user delete_user change_password strip
end-eq = refl

users_stay_sound_example : UsersSound end.users
users_stay_sound_example = users_stay_sound hash run sample_UsersSound
