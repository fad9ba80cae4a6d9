-- ===== src/Access/Middleware.antt =====
-- backend/main.py: `_AuthMiddleware.dispatch`, which every HTTP request passes.
pub mod Admitted
mod Tests
use cloudbase.Prelude.{
  ℕ, zero, suc, ◌+◌, ◌-◌, ◌*◌, ◌≤◌, ◌<◌, String, ◌≡◌, refl, sym, ap, ◌∙◌, ◌≢◌, ◌↔◌, ◌⊎◌, inl, inr,
  Bool, true, false, not, ◌&&◌, ◌||◌, Option, none, some, List, [], ◌∷◌, ◌++◌, map, arith, str_eq,
  eq_iff, ltb, leb, ◌==◌, ==_iff, if◌then◌else◌, Bool-cases, Option-cases, is_some, All, length,
  select, find, any, all, update_where, count_where, length-append, find-holds, has_text,
  starts_with, contains, text_length, strip, starts_with_comparable, starts_with_apart,
  starts_with_shorter, starts_with_of_eq, eq_apart,
}
use cloudbase.Prelude.Result.{Result, ok, raise, ◌>>=◌, ◌>>◌, raise_if, is_ok}
use cloudbase.Accounts.{Accounts, get_user_permissions}
use cloudbase.Auth.{Jwt, TokenUser, cookie_user}
use cloudbase.Auth.AgentToken.{verify_agent_token}
use cloudbase.Nodes.{Node, has_token, scalar_one_or_none}
use cloudbase.Access.{public_paths, Rule, resolve_required_permission}

pub data Outcome : Type 0 where
  forward : Outcome
  respond : ℕ → Outcome

-- What the middleware reads: the tables, the agent's token file and the time.
pub record World : Type 0 where
  pub accounts : Accounts
  pub nodes : List Node
  pub agent_token_file : Option String
  pub now : ℕ

abbrev permits : List String → Rule → Bool
permits perms (true, some perm) = has_text perm perms
permits perms (has_rule, perm) = true

session_outcome : World → String → String → TokenUser → Outcome
session_outcome w method path t =
    if str_eq t.username "admin"
    then forward
    else if permits (get_user_permissions w.accounts t.username)
        (resolve_required_permission method path)
    then forward
    else respond 403

abbrev node_outcome : Result (Option Node) → Outcome
node_outcome (ok (some n)) = forward
node_outcome (ok none) = respond 401
node_outcome (raise c) = respond c

-- Requests without a session: the local agent, or a node by its token.
token_outcome : World → String → String → Outcome
token_outcome w agent_token node_token =
    if not (str_eq agent_token "") && verify_agent_token w.agent_token_file agent_token
    then forward
    else if str_eq node_token ""
    then respond 401
    else node_outcome (scalar_one_or_none (select (has_token node_token) w.nodes))

unfoldable pub is_agent_path : String → Bool
is_agent_path path = starts_with path "/api/nodes/agent/" || starts_with path "/api/nodes/ws/agent"

pub is_protected : String → Bool
is_protected path =
    starts_with path "/api/" && not (has_text path public_paths) || starts_with path "/ws/"

module _ (jwt : Jwt) where
  open jwt use {Token}

  -- A header that is missing is the empty text.
  pub record Request : Type 0 where
    pub method : String
    pub path : String
    pub cookie : Option Token
    pub agent_token : String
    pub node_token : String

  protected_outcome : World → Request → Outcome
  unfolding session_outcome token_outcome cookie_user
  protected_outcome w r = elim (cookie_user jwt w.now r.cookie) [
    | some t ↦ session_outcome w r.method r.path t
    | none ↦ token_outcome w r.agent_token r.node_token
  ]

  unfoldable pub dispatch : World → Request → Outcome
  unfolding protected_outcome is_agent_path is_protected
  dispatch w r =
      if is_agent_path r.path
      then forward
      else if has_text r.path public_paths
      then forward
      else if is_protected r.path
      then protected_outcome w r
      else forward
