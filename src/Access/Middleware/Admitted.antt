-- ===== src/Access/Middleware/Admitted.antt =====
-- Which requests `_AuthMiddleware.dispatch` hands on.
use cloudbase.Prelude.{
  String, ◌≡◌, refl, ◌≢◌, ◌↔◌, ◌⊎◌, inl, inr, true, false, not, ◌&&◌, none, some, List, [], ◌∷◌,
  arith, str_eq, eq_iff, Bool-cases, Option-cases, select, any, has_text, starts_with,
  starts_with_shorter,
}
use cloudbase.Accounts.{get_user_permissions}
use cloudbase.Auth.{Jwt, TokenUser, cookie_user}
use cloudbase.Auth.AgentToken.{verify_agent_token}
use cloudbase.Nodes.{Node, has_token, scalar_one_or_none}
use cloudbase.Access.{public_paths, is_write, resolve_required_permission}
use cloudbase.Access.Rules.{
  WriteNeeds, manage_apps, add_node, manage_nodes, manage_tokens, manage_system, manage_users,
  manage_roles, view_audit, write_rule,
}
use cloudbase.Access.Middleware.{
  forward, World, permits, session_outcome, node_outcome, token_outcome, is_agent_path,
  is_protected, Request, protected_outcome, dispatch,
}

-- A credential of a machine: the local agent's token, or the token of exactly one enabled node.
pub data IsMachine (w : World) (agent_token node_token : String) : Type 0 where
  local_agent :
      agent_token ≢ ""
      → verify_agent_token w.agent_token_file agent_token ≡ true
      → IsMachine w agent_token node_token
  remote_node :
      (n : Node)
      → node_token ≢ ""
      → select (has_token node_token) w.nodes ≡ n ∷ []
      → IsMachine w agent_token node_token

node_outcome_forward :
    (ns : List Node) → node_outcome (scalar_one_or_none ns) ≡ forward → (n : Node) × (ns ≡ n ∷ [])
node_outcome_forward [] e = cc
node_outcome_forward (n ∷ []) e = (n, refl)
node_outcome_forward (n ∷ m ∷ ns) e = cc

module _ (w : World) (agent_token node_token : String) where
  token_outcome_sound :
      token_outcome w agent_token node_token ≡ forward → IsMachine w agent_token node_token
  unfolding token_outcome
  token_outcome_sound e =
      elim (Bool-cases
        (not (str_eq agent_token "") && verify_agent_token w.agent_token_file agent_token)) [
          | inl agent ↦ local_agent (ground (arith, eq_iff agent_token "")) (ground arith)
          | inr other ↦
              let found : node_outcome (scalar_one_or_none (select (has_token node_token) w.nodes))
                  ≡ forward =
                ground arith in
              let (n, same) = node_outcome_forward (select (has_token node_token) w.nodes) found in
              remote_node n (ground (arith, eq_iff node_token "")) same
        ]

  token_outcome_complete :
      IsMachine w agent_token node_token → token_outcome w agent_token node_token ≡ forward
  unfolding token_outcome
  token_outcome_complete (local_agent given valid) = ground (arith, eq_iff agent_token "")
  token_outcome_complete (remote_node n given same) = rw same (ground (arith, eq_iff node_token ""))

-- A session may make the request: it is the root account's, no permission is needed, or the user has
-- the permission in the tables.
abbrev pub Permitted : World → String → String → TokenUser → Type 0
Permitted w method path t =
    (t.username ≡ "admin")
    ⊎ (permits (get_user_permissions w.accounts t.username)
          (resolve_required_permission method path)
        ≡ true)

session_outcome_iff :
    (w : World) (method path : String) (t : TokenUser)
    → (session_outcome w method path t ≡ forward) ↔ Permitted w method path t
unfolding session_outcome
session_outcome_iff w method path t = ground (arith, eq_iff t.username "admin")

module _ (jwt : Jwt) (w : World) (r : Request jwt) where
  pub data Admitted : Type 0 where
    agent_endpoint : is_agent_path r.path ≡ true → Admitted
    public_path : has_text r.path public_paths ≡ true → Admitted
    unprotected : is_protected r.path ≡ false → Admitted
    session :
        (t : TokenUser)
        → cookie_user jwt w.now r.cookie ≡ some t
        → Permitted w r.method r.path t
        → Admitted
    machine :
        cookie_user jwt w.now r.cookie ≡ none → IsMachine w r.agent_token r.node_token → Admitted

  protected_outcome_sound : protected_outcome jwt w r ≡ forward → Admitted
  unfolding protected_outcome
  protected_outcome_sound e = elim (Option-cases (cookie_user jwt w.now r.cookie)) [
    | inr (t, found) ↦
        session t found
          ((session_outcome_iff w r.method r.path t).0 (rw (found, protected_outcome) at e))
    | inl nobody ↦
        machine nobody
          (token_outcome_sound w r.agent_token r.node_token (rw (nobody, protected_outcome) at e))
  ]

  protected_outcome_complete :
      (t : TokenUser)
      → cookie_user jwt w.now r.cookie ≡ some t
      → Permitted w r.method r.path t
      → protected_outcome jwt w r ≡ forward
  unfolding protected_outcome
  protected_outcome_complete t found p =
      rw (found, protected_outcome) ((session_outcome_iff w r.method r.path t).1 p)

  machine_outcome :
      cookie_user jwt w.now r.cookie ≡ none
      → IsMachine w r.agent_token r.node_token
      → protected_outcome jwt w r ≡ forward
  unfolding protected_outcome
  machine_outcome nobody m =
      rw (nobody, protected_outcome) (token_outcome_complete w r.agent_token r.node_token m)

  dispatch_sound : dispatch jwt w r ≡ forward → Admitted
  unfolding dispatch
  dispatch_sound e = elim (Bool-cases (is_agent_path r.path)) [
    | inl agent ↦ agent_endpoint agent
    | inr not_agent ↦ elim (Bool-cases (has_text r.path public_paths)) [
      | inl open_path ↦ public_path open_path
      | inr not_public ↦ elim (Bool-cases (is_protected r.path)) [
        | inr free ↦ unprotected free
        | inl guarded ↦ protected_outcome_sound (ground arith)
      ]
    ]
  ]

  -- It is enough that what `dispatch` asks at last says yes.
  dispatch_protected : protected_outcome jwt w r ≡ forward → dispatch jwt w r ≡ forward
  unfolding dispatch
  dispatch_protected e = ground arith

  dispatch_complete : Admitted → dispatch jwt w r ≡ forward
  unfolding dispatch
  dispatch_complete (agent_endpoint h) = rw h
  dispatch_complete (public_path h) = ground arith
  dispatch_complete (unprotected h) = ground arith
  dispatch_complete (session t found p) = dispatch_protected (protected_outcome_complete t found p)
  dispatch_complete (machine nobody m) = dispatch_protected (machine_outcome nobody m)

-- A request is handed on exactly when its path is open to all, its session may make it, or it has no
-- session and a machine's credential; there is no other way in.
pub dispatch_iff :
    (jwt : Jwt) (w : World) (r : Request jwt) → (dispatch jwt w r ≡ forward) ↔ Admitted jwt w r
dispatch_iff jwt w r = (dispatch_sound jwt w r, dispatch_complete jwt w r)

-- Who may make a request that needs the permission `perm`.
pub data Holder (jwt : Jwt) (w : World) (r : Request jwt) (perm : String) : Type 0 where
  root :
      (t : TokenUser)
      → cookie_user jwt w.now r.cookie ≡ some t
      → t.username ≡ "admin"
      → Holder jwt w r perm
  user :
      (t : TokenUser)
      → cookie_user jwt w.now r.cookie ≡ some t
      → has_text perm (get_user_permissions w.accounts t.username) ≡ true
      → Holder jwt w r perm
  machine : IsMachine w r.agent_token r.node_token → Holder jwt w r perm

has_text_apart :
    (s p : String) (qs : List String)
    → any (λ q. starts_with q p) qs ≡ false
    → starts_with s p ≡ true
    → has_text s qs ≡ false
has_text_apart s p [] d h = refl
has_text_apart s p (q ∷ qs) d h = ground (arith, has_text_apart s p qs, eq_iff s q)

protected_of_prefix :
    (path p : String)
    → starts_with p "/api/" ≡ true
    → any (λ q. starts_with q p) public_paths ≡ false
    → starts_with path p ≡ true
    → is_protected path ≡ true
unfolding is_protected
protected_of_prefix path p api apart h =
    rw (starts_with_shorter path p "/api/" api h, has_text_apart path p public_paths apart h)

-- What needs a permission is no public path, and stands under "/api/".
WriteNeeds-protected :
    (method path perm : String) → WriteNeeds method path perm → is_protected path ≡ true
unfolding is_protected
WriteNeeds-protected method path perm (manage_apps h) =
    protected_of_prefix path "/api/apps" refl refl h
WriteNeeds-protected method path perm (add_node m p) = rw p
WriteNeeds-protected method path perm (manage_nodes h other) =
    protected_of_prefix path "/api/nodes" refl refl h
WriteNeeds-protected method path perm (manage_tokens m h) =
    protected_of_prefix path "/api/system/github-tokens" refl refl h
WriteNeeds-protected method path perm (manage_system h other) =
    protected_of_prefix path "/api/system" refl refl h
WriteNeeds-protected method path perm (manage_users h) =
    protected_of_prefix path "/api/users" refl refl h
WriteNeeds-protected method path perm (manage_roles h) =
    protected_of_prefix path "/api/roles" refl refl h
WriteNeeds-protected method path perm (view_audit h) =
    protected_of_prefix path "/api/audit-log" refl refl h

no_prefix_of_eq :
    (s p q : String) → starts_with p q ≡ false → str_eq s p ≡ true → starts_with s q ≡ false
no_prefix_of_eq s p q d h = rw ((eq_iff s p).0 h) d

protected_is_private :
    (path : String) → is_protected path ≡ true → has_text path public_paths ≡ false
unfolding is_protected
protected_is_private path h = ground (
  arith,
  no_prefix_of_eq path "/api/health" "/ws/" refl,
  no_prefix_of_eq path "/api/auth/login" "/ws/" refl,
  no_prefix_of_eq path "/api/auth/logout" "/ws/" refl,
  no_prefix_of_eq path "/api/auth/check" "/ws/" refl,
)

Admitted-Holder :
    (jwt : Jwt) (w : World) (r : Request jwt) (perm : String)
    → is_write r.method ≡ true
    → WriteNeeds r.method r.path perm
    → is_agent_path r.path ≡ false
    → Admitted jwt w r
    → Holder jwt w r perm
Admitted-Holder jwt w r perm writes needed other (agent_endpoint h) = cc
Admitted-Holder jwt w r perm writes needed other (public_path h) =
    cc (protected_is_private r.path (WriteNeeds-protected r.method r.path perm needed))
Admitted-Holder jwt w r perm writes needed other (unprotected h) =
    cc (WriteNeeds-protected r.method r.path perm needed)
Admitted-Holder jwt w r perm writes needed other (session t found (inl is_root)) =
    root t found is_root
Admitted-Holder jwt w r perm writes needed other (session t found (inr permitted)) =
    user t found (rw (write_rule r.method r.path perm writes needed) at permitted)
Admitted-Holder jwt w r perm writes needed other (machine nobody m) = machine m

-- A writing request whose path and method need the permission `perm` (`WriteNeeds`: a path that begins
-- with one of the six prefixes of the rules), and that is not one of the agents' own endpoints, is handed on only for the root account, for a user who has `perm` in the tables at that
-- moment, or for a machine with a valid credential.
pub write_guarded :
    (jwt : Jwt) (w : World) (r : Request jwt) (perm : String)
    → is_write r.method ≡ true
    → WriteNeeds r.method r.path perm
    → is_agent_path r.path ≡ false
    → dispatch jwt w r ≡ forward
    → Holder jwt w r perm
write_guarded jwt w r perm writes needed other e =
    Admitted-Holder jwt w r perm writes needed other (dispatch_sound jwt w r e)
