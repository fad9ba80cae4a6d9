-- ===== src/Crash/Tests.antt =====
-- Runs of the monitor on an instance whose container has gone.
use cloudbase.Prelude.{ℕ, ◌≤◌, ◌≡◌, refl, false, some, List, [], ◌∷◌, arith, length, select}
use cloudbase.Nodes.{Store}
use cloudbase.Nodes.Sample.{web}
use cloudbase.Apps.Start.{started}
use cloudbase.Apps.Sample.{host, here, there, tables, work}
use cloudbase.Crash.{Limits, Probe, Watch, decide, crash_pass, check_instance}
use cloudbase.Crash.Window.{Look, in_window, restarts_from, restarts_bound}

abbrev two : Limits
two = record { max_restarts = 2; window = 300 }

abbrev gone : Probe
gone = record { alive = λ r. false; run = λ r. started "c9" }

abbrev crashed : Store
crashed = record tables {
  apps = record web { restart_policy = some "always" } ∷ [];
  replicas = record here { status = "running" } ∷ there ∷ [];
}

abbrev watch : Watch
watch = record { work = record work { saved = crashed; tables = crashed }; history = λ a r. [] }

abbrev at : ℕ → Look
at now = (record host { now = now }, gone, record here { status = "running" })

abbrev looks : List Look
looks = at 1000 ∷ at 1010 ∷ at 1020 ∷ at 1310 ∷ []

-- The third crash within the window is given up; after it an instance is restarted again.
restarts-eq : restarts_from two 3 5 [] watch looks ≡ 1310 ∷ 1010 ∷ 1000 ∷ []
unfolding check_instance decide
restarts-eq = refl

restarts_bound_example :
    length (select (in_window 300 1310) (restarts_from two 3 5 [] watch looks)) ≤ 2
restarts_bound_example =
    restarts_bound two 3 5 looks watch 1310
      (omega arith, (omega arith, (omega arith, (omega arith, tt)))) refl

-- A pass over the tables restarts the instance and records when.
pass-eq : (crash_pass two host gone watch).history 3 5 ≡ 1000 ∷ []
unfolding crash_pass check_instance decide
pass-eq = refl
