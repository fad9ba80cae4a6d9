-- ===== src/Accounts/Roles/Tests.antt =====
-- A run of the endpoints for roles.
use cloudbase.Prelude.{
  ◌≤◌, String, ◌≡◌, refl, inl, inr, none, some, List, [], ◌∷◌, ◌++◌, arith, str_eq, eq_iff,
  Bool-cases, length, select, strip,
}
use cloudbase.Prelude.Result.{Result, ok, raise}
use cloudbase.Accounts.{Accounts, Role}
use cloudbase.Accounts.Roles.{
  CreateRoleRequest, UpdateRoleRequest, create_role, update_role, delete_role,
}
use cloudbase.Accounts.Roles.Sound.{append-RolesSound}
use cloudbase.Accounts.Roles.Steps.{
  RoleSteps, TablesSound, done, step, creates, updates, deletes, roles_stay_sound,
}
use cloudbase.Auth.Sample.{operator, sample_accounts}

abbrev builtins : List Role
builtins =
    record { id = 1; name = "Administrator"; description = none }
    ∷ record { id = 2; name = "Viewer"; description = none }
    ∷ []

abbrev before : Accounts
before = record sample_accounts { roles = builtins ++ operator ∷ [] }

builtin_names : (n : String) → length (select (λ r. str_eq r.name n) builtins) ≤ 1
builtin_names n = elim (Bool-cases (str_eq "Viewer" n)) [
  | inl e ↦ rw (← (eq_iff "Viewer" n).0 e) (omega arith)
  | inr e ↦ ground arith
]

before-TablesSound : TablesSound before
before-TablesSound = (
  append-RolesSound operator builtins refl refl ((λ k. ground arith), builtin_names, refl, refl),
  (tt, (omega arith, tt)),
)

abbrev ops : CreateRoleRequest
ops = record { name = "Ops"; description = none; permission_ids = 1 ∷ 2 ∷ [] }

abbrev rename : UpdateRoleRequest
rename = record {
  name = some "Deployer";
  description = some "deploys";
  permission_ids = some (1 ∷ []);
}

abbrev or_empty : Result Accounts → Accounts
or_empty (ok a) = a
or_empty (raise code) = record before { roles = [] }

abbrev with_ops : Accounts
with_ops = or_empty (create_role 8 "admin" ops before)

abbrev renamed : Accounts
renamed = or_empty (update_role 7 "admin" rename with_ops)

abbrev end : Accounts
end = or_empty (delete_role 8 "admin" renamed)

run : RoleSteps before end
unfolding create_role update_role delete_role strip
run =
    step (creates 8 "admin" ops refl refl)
      (step (updates 7 "admin" rename refl) (step (deletes 8 "admin" refl) done))

end-eq : end.role_permissions ≡ (7, 1) ∷ []
unfolding create_role update_role delete_role strip
end-eq = refl

roles_stay_sound_example : TablesSound end
roles_stay_sound_example = roles_stay_sound run before-TablesSound
