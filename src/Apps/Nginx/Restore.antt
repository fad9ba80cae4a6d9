-- ===== src/Apps/Nginx/Restore.antt =====
-- The task that takes the page of a start or a restart away.
use cloudbase.Prelude.{
  ℕ, ◌+◌, ◌<◌, ◌⊎◌, ◌-◌, ◌≤◌, String, ◌≡◌, refl, inl, inr, Bool, true, false, not, ◌&&◌, ◌||◌, none,
  List, [], ◌∷◌, arith, str_eq, ltb, ◌==◌, Bool-cases, Option-cases, length, count_where,
}
use cloudbase.Prelude.Rows.{count_where-append}
use cloudbase.Nodes.{Application, app_with_id}
use cloudbase.Apps.Work.{Action, write_nginx, restore_later, Work, Tx, act, when}
use cloudbase.Apps.Runtime.{Host}
use cloudbase.Apps.Nginx.Wait.{Poll, wait_for_app_backends_ready, wait-end, wait-patient}
use cloudbase.Apps.Nginx.{
  nginx_mode, has_custom, transition_hold_max_seconds, transition_of, without_transition,
  nginx_backends, restore_page, restore_after_transition,
}

-- A task that looks again.
abbrev pub is_later : Action → Bool
is_later (restore_later app_id started_at label) = true
is_later _ = false

abbrev pub later_tasks : Work → ℕ
later_tasks w = count_where is_later w.actions

transition_of-without :
    (app_id : ℕ) (ts : List (ℕ × String × ℕ))
    → transition_of app_id (without_transition app_id ts) ≡ none
transition_of-without app_id [] = refl
transition_of-without app_id ((id, mode, at) ∷ ts) = elim (Bool-cases (id == app_id)) [
  | inl e ↦ rw e (transition_of-without app_id ts)
  | inr e ↦ rw (e, e) (transition_of-without app_id ts)
]

-- What holds of the work after the last look.
abbrev pub Ended : ℕ → ℕ → Work → Type 0
Ended app_id n w = (later_tasks w ≡ n) × (transition_of app_id w.transitions ≡ none)

when-Ended :
    (app_id n : ℕ) (test : Bool) (step : Tx (Unit {0})) (w : Work)
    → Ended app_id n w
    → Ended app_id n (step w).1
    → Ended app_id n (when test step w).1
when-Ended app_id n true step w h after = after
when-Ended app_id n false step w h after = h

written-Ended :
    (app_id n : ℕ) (w : Work) (id : ℕ) (mode : String) (ports : List ℕ)
    → Ended app_id n w
    → Ended app_id n (act (write_nginx id mode ports) w).1
written-Ended app_id n w id mode ports (tasks, gone) = (
  rw (count_where-append is_later w.actions (write_nginx id mode ports ∷ []))
      (omega (arith, tasks)),
  gone,
)

restore_page-Ended :
    (host : Host) (app_id n : ℕ) (in_time : Bool) (started_at : ℕ) (label : String)
    (app : Application) (w : Work)
    → in_time ≡ false
    → Ended app_id n w
    → Ended app_id n (restore_page host in_time started_at label app w).1
unfolding restore_page
restore_page-Ended host app_id n in_time started_at label app w late h =
    let ports = nginx_backends app.id w.tables in
    elim (Bool-cases (length ports == 0)) [
      | inl e ↦ rw (e, late) h
      | inr e ↦ rw e (
          when-Ended app_id n host.nginx_written (act (write_nginx app.id (nginx_mode app) ports)) w
            h (written-Ended app_id n w app.id (nginx_mode app) ports h))
    ]

last_look-Ended :
    (host : Host) (polls : ℕ → Poll) (app_id started_at : ℕ) (label : String) (w : Work)
    → ltb ((wait_for_app_backends_ready polls host.now).1 - started_at) transition_hold_max_seconds
      ≡ false
    → Ended app_id (later_tasks w) (restore_after_transition host polls app_id started_at label w).1
unfolding restore_after_transition
last_look-Ended host polls app_id started_at label w late =
    let waited = wait_for_app_backends_ready polls host.now in
    let in_time = ltb (waited.1 - started_at) transition_hold_max_seconds in
    let waits : (not waited.0 && in_time) ≡ false = ground arith in
    let cleared = record w { transitions = without_transition app_id w.transitions } in
    let ended : Ended app_id (later_tasks w) cleared =
      (refl, transition_of-without app_id w.transitions) in
    elim (Option-cases (app_with_id app_id w.tables)) [
      | inl e ↦ rw (waits, e) ended
      | inr (app, e) ↦
          rw (waits, e)
            (when-Ended app_id (later_tasks w) (has_custom app || not (str_eq host.base_domain ""))
              (restore_page host in_time started_at label app) cleared ended
              (restore_page-Ended host app_id (later_tasks w) in_time started_at label app cleared
                late ended))
    ]

-- What holds of a look that starts at `now`, within 300 seconds of the page, and ends at `ended`.
abbrev pub LookEnds : ℕ → (ℕ → Poll) → ℕ → ℕ → ℕ → ℕ → Work → Work → Type 0
LookEnds now polls longest app_id started_at ended w after =
    (ended ≤ started_at + 481 + longest)
    × (((wait_for_app_backends_ready polls now).0 ≡ true)
        ⊎ (now + 180 ≤ ended)
        ⊎ ((t : ℕ) × ((polls t).app_exists ≡ false)))
    × ((ended < started_at + transition_hold_max_seconds) ⊎ Ended app_id (later_tasks w) after)

-- A look of the task behind a page that starts within 300 seconds of the page ends within 481 seconds
-- and the length of the longest poll after the page. Unless it finds the backends ready or the
-- application gone, it takes 180 seconds at least. If it ends when the 300 seconds are over, then it
-- schedules no further look, and the page no longer holds back other writes.
pub restore_after_transition-Ended :
    (host : Host) (polls : ℕ → Poll) (longest app_id started_at : ℕ) (label : String) (w : Work)
    → ((t : ℕ) → (polls t).took ≤ longest)
    → host.now ≤ started_at + transition_hold_max_seconds
    → LookEnds host.now polls longest app_id started_at
        (wait_for_app_backends_ready polls host.now).1
        w
        (restore_after_transition host polls app_id started_at label w).1
restore_after_transition-Ended host polls longest app_id started_at label w short in_time =
    let ended = (wait_for_app_backends_ready polls host.now).1 in
    let bound = wait-end polls host.now longest short in
    (
      omega arith,
      wait-patient polls host.now,
      elim (Bool-cases (ltb (ended - started_at) transition_hold_max_seconds)) [
        | inl e ↦ inl (ground arith)
        | inr e ↦ inr (last_look-Ended host polls app_id started_at label w e)
      ],
    )
