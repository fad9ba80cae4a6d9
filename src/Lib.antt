-- ===== src/Lib.antt =====
-- Cloudbase runs web applications on its own host and on nodes: other hosts, whose agents call in. Its
-- server is a FastAPI program under backend/ with its tables in SQLite. This library models parts of
-- that server.
--
-- Parts, and the files that model them:
--   * Accounts: users, roles and permissions (backend/models.py), the permissions of a user
--     (`get_user_permissions` of backend/auth.py) and the audit log (backend/audit.py).
--     Accounts/Users and Accounts/Roles: the endpoints that write users (backend/main.py) and roles
--     (backend/routers/roles.py).
--   * Auth: session tokens, and the guards that endpoints and websockets call (backend/auth.py);
--     Auth/AgentToken: the token of the agent on the server's own host.
--   * RateLimit: the limit on login attempts (`_check_rate_limit` of backend/auth.py).
--   * Access: the tables of paths and the permission that a request needs (backend/main.py);
--     Access/Middleware: the middleware that every HTTP request passes (`_AuthMiddleware.dispatch`).
--     It calls Access for the permission, Accounts for those the user has, Auth for the session, and
--     Nodes for the token of a node.
--   * Nodes: the tables of nodes, commands, applications and replicas (backend/models.py);
--     Nodes/Queue: queueing a command and handing it to the agent of its node; Nodes/Apply: what the
--     agent's report does to the tables; Nodes/Registry: invites, registration, and the endpoints that
--     change or remove a node; Nodes/Monitor: the check that takes stale nodes offline; Nodes/Local:
--     the row of the server's own host (backend/routers/nodes.py).
--   * Apps: applications and their instances (backend/routers/applications.py). Apps/Start: one
--     instance is started on this host, with the build of its image and the retry on another port;
--     Apps/Runtime: the start and stop of an instance wherever it stands, and the status that the
--     instances give to their application; Apps/Nginx: when the configuration of nginx is written, in
--     which mode and with which ports; Apps/Lifecycle: the handlers that start, stop and restart an
--     application; Apps/Instances: the restart and the removal of one instance; Apps/Scale: a new
--     instance; Apps/Ports: host ports and domains that no two applications may share; Apps/Sync: the
--     rows follow what runs; Apps/Recovery: the instances of a node that came back
--     (`recover_node_replicas` of backend/routers/nodes.py). They queue commands through Nodes/Queue.
--     Apps/Work has the session of these handlers and the conditions that hold at their end.
--   * Crash: the monitor that restarts crashed instances (`_crash_monitor` of backend/main.py).
--   * Secrets: encrypted variables and texts (backend/env_crypto.py); Secrets/Vault: the file of saved
--     tokens (backend/token_vault.py).
--   * Config: config.yaml with its defaults, and the check of its numbers (backend/config.py).
--   * Sites: the files of nginx sites, how one is written and tested, and when others are disabled
--     (backend/nginx_manager.py). The paths that its regular expressions find in a message of nginx
--     are an argument.
--   * Tunnel: the table of reverse tunnels, the ports they listen on and the messages that pass
--     between nginx and the agents (backend/tunnel_server.py).
--   * Prelude: tests, lists, texts, rows of a table and results, for all of these.
--
-- How code corresponds to definitions. A definition has the name of the function that it models,
-- without the leading underscore. A table is the list of its rows in the order of their ids; a query
-- for a unique column is `find`, one for any other column `select`. A handler takes the tables and
-- returns `ok` with the new ones, or `raise` with the HTTP status of the error: the session is not
-- committed then, so the tables stay as they were. Times are natural numbers and arguments, as
-- are the ids of new rows and random keys. Events, messages to browsers and to agents are values of
-- a type of effects. A dict is an association list, or a function where only lookups matter.
--
-- The handlers of Apps commit in their course, whenever they queue a command. They run on `Work`: the
-- tables of the session, those that are committed, the dict of pages that are shown, and the list of
-- what was done outside; an error ends a handler and keeps its work so far. What docker, git, nginx
-- and the network answer is an argument, the records `Docker` and `Host`; the clock is read once in a
-- handler. The node of this host, which the handlers look up first, is an argument too.
--
-- The package for JSON web tokens is a parameter, the record `Jwt` of Auth: tokens with `encode` and
-- `decode`, and laws for what its documentation says of signed tokens and of expiry. The packages for
-- encryption and for JSON are the record `Cipher` of Secrets: a text is read back as it was written,
-- and an encrypted one is longer.
--
-- The package for password hashes is an argument of the endpoints that hash; that a tunnel's port can
-- be opened is assumed.
--
-- The wait of Apps/Nginx/Wait has fuel for 180 polls. It sleeps for a second after each, so that its
-- timeout of 180 seconds is over before, and more fuel changes nothing (`wait-fuel`). The other loops
-- run over a list or over a range of ports. The search for an open port ends at the port 65535, where
-- the socket of the program raises. Durations are whole seconds.
--
-- Not modelled: what only calls docker, nginx, git, the operating system or the browser's files; the
-- text of answers and logs, and of most error messages; columns that no modelled handler reads; the
-- parsing of JSON and YAML, so payloads are dicts already; floating-point measurements; password
-- hashing. Steps of different handlers do not interleave within a handler. The creation, deployment
-- and deletion of applications, the text of nginx configurations and Dockerfiles, the heartbeats of
-- nodes, the agent's side, statistics and files are not modelled either.
mod Prelude
pub mod RateLimit
pub mod Accounts
pub mod Nodes
pub mod Auth
pub mod Access
pub mod Tunnel
pub mod Apps
pub mod Crash
pub mod Secrets
pub mod Config
pub mod Sites
