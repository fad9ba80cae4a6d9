-- ===== src/Crash/Window.antt =====
-- How often an instance is restarted.
use cloudbase.Prelude.{
  ℕ, ◌-◌, ◌≤◌, ◌<◌, ◌≡◌, refl, sym, ap, ◌∙◌, inl, inr, Bool, true, false, ◌&&◌, ◌||◌, List, [], ◌∷◌,
  ◌++◌, arith, str_eq, ltb, leb, ◌==◌, if◌then◌else◌, Bool-cases, Option-cases, length, select,
  length-append,
}
use cloudbase.Nodes.{Application, Replica, app_with_id}
use cloudbase.Apps.Work.{or_text}
use cloudbase.Apps.Runtime.{Host}
use cloudbase.Crash.{
  Limits, Probe, Watch, recent, recent_restarts, Decision, leave, mark_stopped, give_up, restart,
  is_elsewhere, decide_app, decide, apply_decision, check_instance,
}

-- Whether a time falls in the window that ends at `t`.
abbrev pub in_window : ℕ → ℕ → ℕ → Bool
in_window window t a = leb a t && ltb (t - a) window

-- What the monitor looks at: an instance, with the clock and what docker says.
abbrev pub Look : Type 0
Look = Host × Probe × Replica

abbrev pub is_restart : ℕ → ℕ → Replica → Decision → Bool
is_restart app_id id r (restart a) = a.id == app_id && r.id == id
is_restart app_id id r _ = false

-- The times at which an instance is restarted, the newest first.
abbrev pub restarts_from : Limits → ℕ → ℕ → List ℕ → Watch → List Look → List ℕ
restarts_from limits app_id id h m [] = h
restarts_from limits app_id id h m ((host, probe, r) ∷ looks) =
    restarts_from limits app_id id
      (if is_restart app_id id r (decide limits host probe r m) then host.now ∷ h else h)
      (check_instance limits host probe r m) looks

-- The clock does not run backwards.
abbrev pub IsOrdered : ℕ → List Look → Type 0
IsOrdered last [] = Unit
IsOrdered last ((host, probe, r) ∷ looks) = (last ≤ host.now) × IsOrdered host.now looks

module _ (window : ℕ) where
  recent-append :
      (now : ℕ) (ts us : List ℕ)
      → recent window now (ts ++ us) ≡ recent window now ts ++ recent window now us
  recent-append now [] us = refl
  recent-append now (t ∷ ts) us = ground (arith, recent-append now ts us)

  recent-recent :
      (now later : ℕ) (ts : List ℕ)
      → now ≤ later
      → recent window later (recent window now ts) ≡ recent window later ts
  recent-recent now later [] h = refl
  recent-recent now later (t ∷ ts) h = ground (arith, recent-recent now later ts h)

  in_window-le-recent :
      (now t : ℕ) (h : List ℕ)
      → now ≤ t
      → length (select (in_window window t) h) ≤ length (recent window now h)
  in_window-le-recent now t [] le = omega arith
  in_window-le-recent now t (a ∷ h) le = ground (arith, in_window-le-recent now t h le)

-- What a stored list knows of the times `h`, from the time `last` on.
abbrev Tracks : ℕ → ℕ → List ℕ → List ℕ → Type 0
Tracks window last ts h =
    (now : ℕ) → last ≤ now → length (recent window now ts) ≡ length (recent window now h)

abbrev IsBounded : Limits → List ℕ → Type 0
IsBounded limits h = (t : ℕ) → length (select (in_window limits.window t) h) ≤ limits.max_restarts

module _ (limits : Limits) (host : Host) (probe : Probe) (r : Replica) (m : Watch)
    (app_id id last : ℕ) (h : List ℕ) (le : last ≤ host.now)
    (tracks : Tracks limits.window last (m.history app_id id) h) where
  abbrev after : Decision → List ℕ
  after d = if is_restart app_id id r d then host.now ∷ h else h

  Tracks-later : Tracks limits.window host.now (m.history app_id id) h
  Tracks-later now le' = tracks now (omega arith)

  module _ (a : Application) (same : (a.id == app_id && r.id == id) ≡ true) where
    same_history : m.history a.id r.id ≡ m.history app_id id
    same_history =
        let one : a.id ≡ app_id = ground arith in
        let two : r.id ≡ id = ground arith in
        ap (λ k. m.history k r.id) one ∙ ap (λ k. m.history app_id k) two

    recent_restarts-length :
        (now : ℕ)
        → host.now ≤ now
        → length (recent limits.window now (recent_restarts limits host a r m))
          ≡ length (recent limits.window now h)
    recent_restarts-length now le' =
        ap length (recent-recent limits.window host.now now (m.history a.id r.id) le')
        ∙ ap (λ ts. length (recent limits.window now ts)) same_history
        ∙ Tracks-later now le'

  -- The history after a decision about an application, seen at the instance of interest.
  apply_decision-Tracks :
      (d : Decision)
      → Tracks limits.window host.now
          ((apply_decision limits host probe r m d).history app_id id)
          (after d)
  unfolding apply_decision
  apply_decision-Tracks leave = Tracks-later
  apply_decision-Tracks (mark_stopped a) = Tracks-later
  apply_decision-Tracks (give_up a) = λ now le'. elim (Bool-cases (a.id == app_id && r.id == id)) [
    | inl e ↦ rw e (recent_restarts-length a e now le')
    | inr e ↦ rw e (Tracks-later now le')
  ]
  apply_decision-Tracks (restart a) = λ now le'. elim (Bool-cases (a.id == app_id && r.id == id)) [
    | inl e ↦ rw e (
        ground (
          arith,
          recent_restarts-length a e now le',
          ap length
              (recent-append limits.window now (recent_restarts limits host a r m) (host.now ∷ [])),
          length-append (recent limits.window now (recent_restarts limits host a r m))
              (recent limits.window now (host.now ∷ [])),
        ))
    | inr e ↦ rw e (Tracks-later now le')
  ]

  decide_app-few :
      (b a : Application)
      → decide_app limits host r m b ≡ restart a
      → length (recent_restarts limits host a r m) < limits.max_restarts
  decide_app-few b a e = elim (Bool-cases (str_eq (or_text b.restart_policy "no") "no")) [
    | inl never ↦ absurd (cc (rw never at e))
    | inr some_policy ↦
        elim (Bool-cases (leb limits.max_restarts (length (recent_restarts limits host b r m)))) [
          | inl many ↦ absurd (cc (rw (some_policy, many) at e))
          | inr few ↦
              let same : b ≡ a = cc (rw (some_policy, few) at e) in
              let few' : leb limits.max_restarts (length (recent_restarts limits host a r m))
                  ≡ false =
                ap (λ x. leb limits.max_restarts (length (recent_restarts limits host x r m)))
                  (sym same)
                ∙ few in
              ground arith
        ]
  ]

  -- A restart was allowed: few restarts are in the window that ends now.
  decide-few :
      (a : Application)
      → decide limits host probe r m ≡ restart a
      → length (recent_restarts limits host a r m) < limits.max_restarts
  unfolding decide
  decide-few a e = elim (Bool-cases (is_elsewhere m.work.tables r || probe.alive r)) [
    | inl quiet ↦ absurd (cc (rw (decide, quiet) at e))
    | inr crashed ↦ elim (Option-cases (app_with_id r.app_id m.work.tables)) [
      | inl gone ↦ absurd (cc (rw (decide, crashed, gone) at e))
      | inr (b, found) ↦ decide_app-few b a (rw (decide, crashed, found) at e)
    ]
  ]

  after-IsBounded :
      (d : Decision)
      → decide limits host probe r m ≡ d
      → IsBounded limits h
      → IsBounded limits (after d)
  after-IsBounded leave e b = b
  after-IsBounded (mark_stopped a) e b = b
  after-IsBounded (give_up a) e b = b
  after-IsBounded (restart a) e b = λ t. elim (Bool-cases (a.id == app_id && r.id == id)) [
    | inl same ↦ rw same (
        ground (
          arith,
          b t,
          decide-few a e,
          ap length (sym (same_history a same)),
          Tracks-later host.now (omega arith),
          ap (λ ts. length (recent limits.window host.now ts)) (same_history a same),
          in_window-le-recent limits.window host.now t h,
        ))
    | inr other ↦ rw other (b t)
  ]

module _ (limits : Limits) (app_id id : ℕ) where
  restarts_from-IsBounded :
      (looks : List Look) (last : ℕ) (h : List ℕ) (m : Watch)
      → IsOrdered last looks
      → Tracks limits.window last (m.history app_id id) h
      → IsBounded limits h
      → IsBounded limits (restarts_from limits app_id id h m looks)
  unfolding check_instance
  restarts_from-IsBounded [] last h m o tracks b = b
  restarts_from-IsBounded ((host, probe, r) ∷ looks) last h m (le, o) tracks b =
      let d = decide limits host probe r m in
      restarts_from-IsBounded looks host.now
        (after limits host probe r m app_id id last h le tracks d)
        (check_instance limits host probe r m) o
        (apply_decision-Tracks limits host probe r m app_id id last h le tracks d)
        (after-IsBounded limits host probe r m app_id id last h le tracks d refl b)

-- While the clock does not run backwards, the monitor restarts an instance at most
-- `limits.max_restarts` times in any window of `limits.window`, whatever it sees of all instances.
pub restarts_bound :
    (limits : Limits) (app_id id : ℕ) (looks : List Look) (m : Watch) (t : ℕ)
    → IsOrdered 0 looks
    → m.history app_id id ≡ []
    → length (select (in_window limits.window t) (restarts_from limits app_id id [] m looks))
      ≤ limits.max_restarts
restarts_bound limits app_id id looks m t ordered fresh =
    restarts_from-IsBounded limits app_id id looks 0 [] m ordered
      (λ now le. ap (λ ts. length (recent limits.window now ts)) fresh) (λ u. omega arith) t
