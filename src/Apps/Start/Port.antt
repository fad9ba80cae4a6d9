-- ===== src/Apps/Start/Port.antt =====
-- The port that a started instance listens on, and the port that the rows say.
use cloudbase.Prelude.{
  ℕ, suc, ◌-◌, ◌≤◌, ◌<◌, String, ◌≡◌, refl, ◌⊎◌, inl, inr, false, Option, arith, ◌==◌, Bool-cases,
  Option-cases,
}
use cloudbase.Prelude.Result.{ok, Result-cases}
use cloudbase.Prelude.Search.{first_clear-Lowest}
use cloudbase.Nodes.{truthy, Application, Replica}
use cloudbase.Apps.Start.{
  Attempt, started, reused, refused, Build, running_before, Docker, Outcome, running_on, http,
  failed, is_revision, refresh, is_bind_conflict, open_port_after, set_port, port_of, Started,
  with_image, build, retry_on_open, run_built, build_and_run, first_attempt, needs_build,
  start_instance_local,
}

-- The row of a started instance has the port that a new container listens on: the one it had, or one
-- after it that was open. Where a container ran already, that is the port that was asked for.
abbrev pub PortKept : Docker → ℕ → ℕ → Replica → Started → Type 0
PortKept docker id port r (running_on cid q, app', r') =
    (app'.id ≡ id)
    × (r'.id ≡ r.id)
    × (port_of app' r' ≡ q)
    × ((q ≡ port) ⊎ ((port < q) × (q ≤ 65535) × (docker.busy q ≡ false)))
PortKept docker id port r (running_before cid, app', r') =
    (app'.id ≡ id)
    × (r'.id ≡ r.id)
    × ((port_of app' r' ≡ port)
        ⊎ ((port < port_of app' r')
            × (port_of app' r' ≤ 65535)
            × (docker.busy (port_of app' r') ≡ false)))
PortKept docker id port r (http code, app', r') = Unit
PortKept docker id port r (failed message, app', r') = Unit

abbrev SameApp : Application → Application → Type 0
SameApp app app' = (app'.id ≡ app.id) × (app'.port ≡ app.port)

refresh-SameApp :
    (revision : Option String) (app : Application) → SameApp app (refresh revision app)
refresh-SameApp revision app = elim (Bool-cases (is_revision revision)) [
  | inl e ↦ rw e (refl, refl)
  | inr e ↦ rw e (refl, refl)
]

with_image-SameApp :
    (result : Build) (tag : String) (app : Application) → SameApp app (with_image result tag app)
with_image-SameApp result tag app = elim (Bool-cases (is_revision result.revision)) [
  | inl e ↦ rw e (refl, refl)
  | inr e ↦ rw e (refl, refl)
]

pub build-SameApp :
    (result : Build) (tag : String) (app app' : Application)
    → build result tag app ≡ ok app'
    → SameApp app app'
unfolding build
build-SameApp result tag app app' e =
    let same : with_image result tag app ≡ app' = ground arith in
    rw (← same) (with_image-SameApp result tag app)

Attempt-cases :
    (a : Attempt)
    → ((cid : String) × (a ≡ started cid))
      ⊎ ((cid : String) × (a ≡ reused cid))
      ⊎ ((text : String) × (a ≡ refused text))
Attempt-cases (started cid) = inl (cid, refl)
Attempt-cases (reused cid) = inr (inl (cid, refl))
Attempt-cases (refused text) = inr (inr (text, refl))

module _ (docker : Docker) (port : ℕ) (app : Application) (r : Replica)
    (here : port_of app r ≡ port) where
  retry_on_open-PortKept :
      (run : ℕ → Attempt) (on_error : String → Outcome)
      → ((text : String) (a : Application) (x : Replica)
          → PortKept docker app.id port r (on_error text, a, x))
      → PortKept docker app.id port r (retry_on_open run on_error docker port app r)
  unfolding retry_on_open
  retry_on_open-PortKept run on_error silent =
      elim (Option-cases (open_port_after docker.busy port)) [
        | inl e ↦
            let result : retry_on_open run on_error docker port app r
                ≡ (failed "port must be 0-65535", app, r) =
              rw (retry_on_open, e) refl in
            rw result tt
        | inr (q, e) ↦
            let found = first_clear-Lowest docker.busy (65535 - port) (suc port) in
            let (le, lt, free, below) = rw e at found in
            let named : (q == 0) ≡ false = ground arith in
            elim (Attempt-cases (run q)) [
              | inl (cid, h) ↦
                  let result : retry_on_open run on_error docker port app r
                      ≡ (running_on cid q, app, set_port q r) =
                    rw (retry_on_open, e, h) refl in
                  rw result (refl, refl, rw named refl, inr (omega arith, omega arith, free))
              | inr (inl (cid, h)) ↦
                  let result : retry_on_open run on_error docker port app r
                      ≡ (running_before cid, app, set_port q r) =
                    rw (retry_on_open, e, h) refl in
                  rw (result, named) (refl, refl, inr (omega arith, omega arith, free))
              | inr (inr (text, h)) ↦
                  let result : retry_on_open run on_error docker port app r
                      ≡ (on_error text, app, set_port q r) =
                    rw (retry_on_open, e, h) refl in
                  rw result (silent text app (set_port q r))
            ]
      ]

  run_built-PortKept : (a : Attempt) → PortKept docker app.id port r (run_built docker port app r a)
  unfolding run_built
  run_built-PortKept (started cid) = (refl, refl, here, inl refl)
  run_built-PortKept (reused cid) = (refl, refl, inl here)
  run_built-PortKept (refused message) = elim (Bool-cases (is_bind_conflict message)) [
    | inl e ↦ rw e (retry_on_open-PortKept docker.third_run failed (λ text a x. tt))
    | inr e ↦ rw e tt
  ]

module _ (docker : Docker) (tag : String) (port : ℕ) (app : Application) (r : Replica)
    (here : port_of app r ≡ port) where
  build_and_run-PortKept : PortKept docker app.id port r (build_and_run docker tag port app r)
  unfolding build_and_run
  build_and_run-PortKept = elim (Result-cases (build docker.second_build tag app)) [
    | inl (code, e) ↦ elim (Bool-cases (truthy app.working_dir)) [
      | inl h ↦
          let result : build_and_run docker tag port app r ≡ (failed "build failed", app, r) =
            rw (build_and_run, e, h) refl in
          rw result tt
      | inr h ↦
          let result : build_and_run docker tag port app r ≡ (http code, app, r) =
            rw (build_and_run, e, h) refl in
          rw result tt
    ]
    | inr (built, e) ↦
        let (id, same) = build-SameApp docker.second_build tag app built e in
        let result : build_and_run docker tag port app r
            ≡ run_built docker port built r (docker.second_run port) =
          rw (build_and_run, e) refl in
        rw (result, ← id)
          (run_built-PortKept docker port built r (rw same here) (docker.second_run port))
  ]

  first_attempt-PortKept :
      (a : Attempt) → PortKept docker app.id port r (first_attempt docker tag port app r a)
  unfolding first_attempt
  first_attempt-PortKept (started cid) = (refl, refl, here, inl refl)
  first_attempt-PortKept (reused cid) = (refl, refl, inl here)
  first_attempt-PortKept (refused message) = elim (Bool-cases (is_bind_conflict message)) [
    | inl e ↦ rw e (
        retry_on_open-PortKept docker port app r here docker.second_run (λ text. http 500)
          (λ text a x. tt))
    | inr e ↦ rw e build_and_run-PortKept
  ]

-- The container that a start makes listens on the port that its row says. That port is the one that the
-- row had, or, after a conflict, a later one of at most 65535 that was open. Where docker gives back a
-- container of the instance that ran already, the row says such a port too, but nothing is said of
-- the one that the container listens on.
pub start_instance_local-PortKept :
    (docker : Docker) (tag : String) (app : Application) (r : Replica)
    → PortKept docker app.id (port_of app r) r (start_instance_local docker tag app r)
unfolding start_instance_local
start_instance_local-PortKept docker tag app r =
    let current = refresh docker.desired_revision app in
    let port = port_of app r in
    let (id, same) = refresh-SameApp docker.desired_revision app in
    let ready_run : (ready : Application)
        → SameApp current ready
        → PortKept docker app.id port r
            (first_attempt docker tag port ready r (docker.first_run port)) =
      λ ready (ready_id, ready_port).
        rw (← id, ← ready_id)
          (first_attempt-PortKept docker tag port ready r (rw (ready_port, same) refl)
            (docker.first_run port)) in
    elim (Bool-cases (needs_build docker current)) [
      | inl stale ↦ elim (Result-cases (build docker.first_build tag current)) [
        | inl (code, e) ↦ elim (Bool-cases (truthy app.working_dir)) [
          | inl h ↦
              let result : start_instance_local docker tag app r
                  ≡ (failed "build failed", current, r) =
                rw (start_instance_local, stale, e, h) refl in
              rw result tt
          | inr h ↦
              let result : start_instance_local docker tag app r ≡ (http code, current, r) =
                rw (start_instance_local, stale, e, h) refl in
              rw result tt
        ]
        | inr (built, e) ↦
            let result : start_instance_local docker tag app r
                ≡ first_attempt docker tag port built r (docker.first_run port) =
              rw (start_instance_local, stale, e) refl in
            rw result (ready_run built (build-SameApp docker.first_build tag current built e))
      ]
      | inr fresh ↦
          let result : start_instance_local docker tag app r
              ≡ first_attempt docker tag port current r (docker.first_run port) =
            rw (start_instance_local, fresh) refl in
          rw result (ready_run current (refl, refl))
    ]
