-- ===== src/Access/Middleware/Tests.antt =====
-- Runs of the permission rules and of the middleware.
use cloudbase.Prelude.{String, ◌≡◌, refl, ◌↔◌, none, []}
use cloudbase.Accounts.{get_user_permissions}
use cloudbase.Auth.{cookie_user}
use cloudbase.Auth.Sample.{plain_jwt, sample_accounts, cookie_of}
use cloudbase.Access.{is_write, resolve_required_permission}
use cloudbase.Access.Rules.{needs, WriteNeeds, manage_apps, write_rule_iff}
use cloudbase.Access.Coverage.{is_ruled, has_rule_iff}
use cloudbase.Access.Middleware.{forward, respond, World, is_agent_path, Request, dispatch}
use cloudbase.Access.Middleware.Admitted.{Admitted, dispatch_iff, Holder, write_guarded}

write_rule_iff_example :
    (resolve_required_permission "PUT" "/api/system/github-tokens" ≡ needs "system.manage")
    ↔ WriteNeeds "PUT" "/api/system/github-tokens" "system.manage"
unfolding is_write
write_rule_iff_example = write_rule_iff "PUT" "/api/system/github-tokens" "system.manage" refl

has_rule_iff_example : (resolve_required_permission "PUT" "/api/auth/x").0 ≡ is_ruled "/api/auth/x"
has_rule_iff_example = has_rule_iff "PUT" "/api/auth/x"

abbrev world : World
world = record { accounts = sample_accounts; nodes = []; agent_token_file = none; now = 50 }

abbrev start_app : String → Request plain_jwt
start_app user = record {
  method = "POST";
  path = "/api/apps/3/start";
  cookie = cookie_of user;
  agent_token = "";
  node_token = "";
}

eve_starts : dispatch plain_jwt world (start_app "eve") ≡ forward
unfolding dispatch resolve_required_permission get_user_permissions cookie_user is_write
eve_starts = refl

nobody_starts : dispatch plain_jwt world (start_app "bob") ≡ respond 403
unfolding dispatch resolve_required_permission get_user_permissions cookie_user is_write
nobody_starts = refl

dispatch_iff_example :
    (dispatch plain_jwt world (start_app "eve") ≡ forward)
    ↔ Admitted plain_jwt world (start_app "eve")
dispatch_iff_example = dispatch_iff plain_jwt world (start_app "eve")

write_guarded_example : Holder plain_jwt world (start_app "eve") "apps.manage"
unfolding is_write is_agent_path
write_guarded_example =
    write_guarded plain_jwt world (start_app "eve") "apps.manage" refl (manage_apps refl) refl
      eve_starts
