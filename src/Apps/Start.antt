-- ===== src/Apps/Start.antt =====
-- `_start_instance_local`: an instance is started on this host, and its image is built first if needed.
pub mod Port
use cloudbase.Prelude.{
  ℕ, zero, suc, ◌+◌, ◌-◌, ◌*◌, ◌≤◌, ◌<◌, min, max, String, ◌≡◌, refl, sym, ap, ◌∙◌, ◌≢◌, ◌↔◌, ◌⊎◌,
  inl, inr, Bool, true, false, not, ◌&&◌, ◌||◌, Option, none, some, List, [], ◌∷◌, ◌++◌, map, arith,
  str_eq, eq_iff, ltb, leb, ◌==◌, ==_iff, if◌then◌else◌, Bool-cases, Option-cases, some-eq, is_some,
  is_some-none, All, length, select, find, any, all, update_where, count_where, length-append, take,
  order_by, find-holds, has_text, starts_with, contains, lower, ends_with, text_length, strip,
  starts_with_comparable, starts_with_apart, starts_with_shorter, starts_with_of_eq, eq_apart,
}
use cloudbase.Prelude.Result.{
  Result, ok, raise, ◌>>=◌, ◌>>◌, raise_if, is_ok, bind-ok, raise_if-ok, Result-cases,
}
use cloudbase.Prelude.Search.{first_clear}
use cloudbase.Nodes.{truthy, Application, Replica}
use cloudbase.Apps.Work.{or_num}

-- How a call of `run_replica_container` ends: with the id of a new container, which listens on the port
-- that was asked for, with that of the instance's container that runs already, whatever its port, or
-- with an exception and its text.
pub data Attempt : Type 0 where
  started : String → Attempt
  reused : String → Attempt
  refused : String → Attempt

-- What comes of one build: whether it works, and the revision of the sources after it.
pub record Build : Type 0 where
  pub works : Bool
  pub revision : Option String

-- What docker, git and the network of the host answer while one instance is started: the revision of
-- the sources, what comes of the first and of the second build, what comes of the runs on a port, in
-- their order, and the ports that accept connections.
pub record Docker : Type 0 where
  pub desired_revision : Option String
  pub first_build : Build
  pub second_build : Build
  pub first_run : ℕ → Attempt
  pub second_run : ℕ → Attempt
  pub third_run : ℕ → Attempt
  pub busy : ℕ → Bool

-- How the start ends: a new container and the port that it listens on, a container that ran before,
-- an `HTTPException`, or another exception.
pub data Outcome : Type 0 where
  running_on : String → ℕ → Outcome
  running_before : String → Outcome
  http : ℕ → Outcome
  failed : String → Outcome

abbrev pub is_revision : Option String → Bool
is_revision none = false
is_revision (some s) = not (str_eq s "")

-- `_refresh_app_source_revision`, with the revision that git shows.
abbrev pub refresh : Option String → Application → Application
refresh revision app =
    if is_revision revision then record app { source_revision = revision } else app

abbrev pub is_bind_conflict : String → Bool
is_bind_conflict message =
    contains (lower message) "bind for 0.0.0.0"
    || contains (lower message) "port is already allocated"
    || contains (lower message) "failed to set up container networking"

-- The search for a port that accepts no connection. Past the last port the socket raises.
abbrev pub open_port_after : (ℕ → Bool) → ℕ → Option ℕ
open_port_after busy port = first_clear busy (65535 - port) (suc port)

abbrev pub set_port : ℕ → Replica → Replica
set_port port r = record r { external_port = some port }

-- `replica.external_port or app.port or 8000`
abbrev pub port_of : Application → Replica → ℕ
port_of app r = or_num r.external_port (or_num app.port 8000)

abbrev pub same_revision : Option String → Option String → Bool
same_revision none none = true
same_revision (some a) (some b) = str_eq a b
same_revision _ _ = false

abbrev pub Started : Type 0
Started = Outcome × Application × Replica

-- The application after its image was built; `tag` is the image's name.
abbrev pub with_image : Build → String → Application → Application
with_image result tag app =
    let built = refresh result.revision (record app { docker_image = some tag }) in
    if is_revision result.revision then record built { image_revision = result.revision } else built

-- A build needs a working directory; one that fails raises.
pub build : Build → String → Application → Result Application
build result tag app =
    if not (truthy app.working_dir)
    then raise 400
    else if result.works
    then ok (with_image result tag app)
    else raise 500

-- The run after a conflict, on the next port that is open.
pub retry_on_open :
    (ℕ → Attempt) → (String → Outcome) → Docker → ℕ → Application → Replica → Started
retry_on_open run on_error docker port app r = elim (open_port_after docker.busy port) [
  | none ↦ (failed "port must be 0-65535", app, r)
  | some open_port ↦ elim (run open_port) [
    | started cid ↦ (running_on cid open_port, app, set_port open_port r)
    | reused cid ↦ (running_before cid, app, set_port open_port r)
    | refused message ↦ (on_error message, app, set_port open_port r)
  ]
]

-- The run after the image was built.
pub run_built : Docker → ℕ → Application → Replica → Attempt → Started
unfolding retry_on_open
run_built docker port app r (started cid) = (running_on cid port, app, r)
run_built docker port app r (reused cid) = (running_before cid, app, r)
run_built docker port app r (refused message) =
    if is_bind_conflict message
    then retry_on_open docker.third_run failed docker port app r
    else (http 500, app, r)

pub build_and_run : Docker → String → ℕ → Application → Replica → Started
unfolding build run_built
build_and_run docker tag port app r = elim (build docker.second_build tag app) [
  | raise code ↦ (if truthy app.working_dir then failed "build failed" else http code, app, r)
  | ok built ↦ run_built docker port built r (docker.second_run port)
]

pub first_attempt : Docker → String → ℕ → Application → Replica → Attempt → Started
unfolding retry_on_open build_and_run
first_attempt docker tag port app r (started cid) = (running_on cid port, app, r)
first_attempt docker tag port app r (reused cid) = (running_before cid, app, r)
first_attempt docker tag port app r (refused message) =
    if is_bind_conflict message
    then retry_on_open docker.second_run (λ text. http 500) docker port app r
    else build_and_run docker tag port app r

-- Whether the image is older than the sources.
abbrev pub needs_build : Docker → Application → Bool
needs_build docker app =
    is_revision docker.desired_revision
    && not (same_revision app.image_revision docker.desired_revision)

-- The name `tag` of the image is that of `dm.image_name`.
unfoldable pub start_instance_local : Docker → String → Application → Replica → Started
unfolding first_attempt build
start_instance_local docker tag app r =
    let current = refresh docker.desired_revision app in
    let port = port_of app r in
    elim (if needs_build docker current then build docker.first_build tag current else ok current) [
      | raise code ↦
          (if truthy app.working_dir then failed "build failed" else http code, current, r)
      | ok ready ↦ first_attempt docker tag port ready r (docker.first_run port)
    ]
