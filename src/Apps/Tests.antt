-- ===== src/Apps/Tests.antt =====
-- Runs of the handlers on concrete tables, and the theorems at concrete inputs.
use cloudbase.Prelude.{
  ℕ, ◌≡◌, refl, ◌↔◌, true, false, none, some, [], ◌∷◌, arith, All, lower, strip,
}
use cloudbase.Prelude.Result.{ok, raise}
use cloudbase.Prelude.Search.{first_clear}
use cloudbase.Nodes.{Application, Replica, Store}
use cloudbase.Nodes.Sample.{web}
use cloudbase.Apps.Work.{Work}
use cloudbase.Apps.Work.Post.{Kept}
use cloudbase.Apps.Work.Commands.{commands_for}
use cloudbase.Apps.Start.{running_on, set_port, start_instance_local}
use cloudbase.Apps.Start.Port.{PortKept, start_instance_local-PortKept}
use cloudbase.Apps.Nginx.{write_app_nginx_config, restore_after_transition}
use cloudbase.Apps.Nginx.Restore.{LookEnds, restore_after_transition-Ended}
use cloudbase.Apps.Nginx.Wait.{Poll, verdict, wait_for_app_backends_ready}
use cloudbase.Apps.Nginx.Guard.{normal_pages, write_app_nginx_config-Guarded}
use cloudbase.Apps.Lifecycle.{start_app}
use cloudbase.Apps.Lifecycle.Settled.{Derived}
use cloudbase.Apps.Lifecycle.Derived.{on_start, on_stop, handle, handle-Derived, handle-unreached}
use cloudbase.Apps.Ports.{clashes, check_domain_conflicts}
use cloudbase.Apps.Ports.Domains.{Unshared, check_domain_conflicts-Unshared}
use cloudbase.Apps.Scale.{scale_app}
use cloudbase.Apps.Scale.Limit.{Within, scale_app-Within}
use cloudbase.Apps.Sample.{far_node, conflict, host, here, tables, work, range, anywhere}

-- The port is taken and the next one busy: the instance listens on the one after that.
moved-eq :
    start_instance_local conflict "cloudbase-web" web here
    ≡ (running_on "c1" 65532, web, set_port 65532 here)
unfolding start_instance_local lower first_clear
moved-eq = refl

start_instance_local-PortKept_example :
    PortKept conflict 3 65530 here (start_instance_local conflict "cloudbase-web" web here)
start_instance_local-PortKept_example =
    start_instance_local-PortKept conflict "cloudbase-web" web here

abbrev running : Replica
running = record here { status = "running" }

abbrev starting : Work
starting = record work { transitions = (3, "starting", 800) ∷ [] }

write_app_nginx_config-Guarded_example :
    Kept (λ w. normal_pages w ≡ 0) (write_app_nginx_config host web none starting)
write_app_nginx_config-Guarded_example =
    write_app_nginx_config-Guarded host web "starting" 800 starting refl refl (omega arith)

-- A start: the instance of this host runs, that of the node which is offline has an error.
abbrev started_work : Work
started_work = (start_app host 3 work).1

abbrev started_app : Application
started_app = record web { status = "running" }

started-eq : start_app host 3 work ≡ (ok started_app, started_work)
unfolding start_app start_instance_local
started-eq = refl

handle-Derived_example :
    Derived 3 started_app started_work.tables × (started_work.saved ≡ started_work.tables)
handle-Derived_example = handle-Derived on_start host 3 work started_work started_app started-eq

handle-unreached_example :
    (commands_for 7 (handle on_stop host 3 work).1.tables ≡ commands_for 7 tables)
    × (commands_for 7 (handle on_stop host 3 work).1.saved ≡ commands_for 7 tables)
handle-unreached_example = handle-unreached on_stop host 3 7 far_node work refl refl refl refl

abbrev with_domain : Store
with_domain = record tables { apps = record web { domain = some "Example.org" } ∷ [] }

refused-eq : check_domain_conflicts (" example.ORG" ∷ []) none with_domain ≡ raise 400
unfolding check_domain_conflicts clashes lower strip
refused-eq = refl

check_domain_conflicts-Unshared_example :
    (check_domain_conflicts ("example.org" ∷ []) (some 3) with_domain ≡ ok tt)
    ↔ All (Unshared ("example.org" ∷ []) (some 3)) with_domain.apps
check_domain_conflicts-Unshared_example =
    check_domain_conflicts-Unshared ("example.org" ∷ []) (some 3) with_domain

scale_app-Within_example : Within 3 (scale_app host range 3 3 anywhere work).1
scale_app-Within_example = scale_app-Within host range 3 3 anywhere work (omega arith, omega arith)

-- No backend answers, and each poll takes two seconds.
abbrev silent : ℕ → Poll
silent t = record { app_exists = true; backends = some false ∷ []; took = 2 }

restore_after_transition-Ended_example :
    LookEnds 1000 silent 2 3 700
      (wait_for_app_backends_ready silent 1000).1
      starting
      (restore_after_transition host silent 3 700 "start" starting).1
restore_after_transition-Ended_example =
    restore_after_transition-Ended host silent 2 3 700 "start" starting (λ t. omega arith)
      (omega arith)

waited-eq : wait_for_app_backends_ready silent 1000 ≡ (false, 1180)
unfolding wait_for_app_backends_ready verdict
waited-eq = refl
