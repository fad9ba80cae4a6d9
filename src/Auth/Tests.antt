-- ===== src/Auth/Tests.antt =====
-- Runs of the token functions and guards.
use cloudbase.Prelude.{String, ◌≡◌, ◌↔◌, refl, ◌≢◌, true, false, Option, some, arith, eq_iff, strip}
use cloudbase.Prelude.Result.{is_ok}
use cloudbase.Accounts.{get_user_permissions}
use cloudbase.Auth.{create_access_token, require_permission, authorize_websocket}
use cloudbase.Auth.AgentToken.{
  get_or_create_agent_token, verify_agent_token, is_ascii, agent_token_stable,
}
use cloudbase.Auth.Guards.{Lifetime, create_access_token-Lifetime, websocket_agrees}
use cloudbase.Auth.Sample.{plain_jwt, sample_accounts, cookie_of}

abbrev eve_token : Option plain_jwt.Token
eve_token = some (create_access_token plain_jwt 60 40 "eve" "Operator")

create_access_token-Lifetime_example :
    Lifetime plain_jwt sample_accounts eve_token 101 "eve" "Operator" "apps.view" false
create_access_token-Lifetime_example =
    create_access_token-Lifetime plain_jwt sample_accounts 60 40 101 "eve" "Operator" "apps.view"
      (ground (arith, eq_iff "eve" ""))

websocket_agrees_example :
    authorize_websocket plain_jwt sample_accounts 50 (cookie_of "eve") (some "apps.manage")
    ≡ is_ok (require_permission plain_jwt "apps.manage" sample_accounts 50 (cookie_of "eve"))
websocket_agrees_example =
    websocket_agrees plain_jwt sample_accounts 50 (cookie_of "eve") "apps.manage" refl

eve_may_manage :
    authorize_websocket plain_jwt sample_accounts 50 (cookie_of "eve") (some "apps.manage") ≡ true
unfolding authorize_websocket get_user_permissions
eve_may_manage = refl

agent_token_stable_example :
    (get_or_create_agent_token "cd" (get_or_create_agent_token "ab" (some " ")).1
      ≡ get_or_create_agent_token "ab" (some " "))
    × ((get_or_create_agent_token "ab" (some " ")).0 ≢ "")
    × ((token : String)
        → (verify_agent_token (get_or_create_agent_token "ab" (some " ")).1 token ≡ true)
          ↔ (token ≡ (get_or_create_agent_token "ab" (some " ")).0))
unfolding get_or_create_agent_token strip is_ascii
agent_token_stable_example =
    agent_token_stable "ab" (some " ") "cd" (ground (arith, eq_iff "ab" "")) refl refl
