-- ===== src/Apps/Runtime/Status.antt =====
-- The status of an application and those of its instances.
use cloudbase.Prelude.{String, ◌≡◌, Bool, true, false, ◌&&◌, ◌||◌, List, str_eq, all, any}
use cloudbase.Nodes.{Replica}
use cloudbase.Apps.Runtime.{has_status}

-- An instance that does not run and will not by itself.
abbrev pub is_resting : Replica → Bool
is_resting r = str_eq r.status "stopped" || str_eq r.status "error" || str_eq r.status "pending"

-- Every instance rests, and one of them has an error.
abbrev pub all_failed : List Replica → Bool
all_failed rs = all is_resting rs && any (λ r. str_eq r.status "error") rs

-- Which status the instances give their application. Each of the five busy statuses stands back behind
-- those before it. Without any, it is an error if an instance has one and all others rest, and else it
-- is stopped.
pub data Shown (rs : List Replica) : String → Type 0 where
  some_running : has_status "running" rs ≡ true → Shown rs "running"
  some_starting :
      has_status "running" rs ≡ false → has_status "starting" rs ≡ true → Shown rs "starting"
  some_restarting :
      has_status "running" rs ≡ false
      → has_status "starting" rs ≡ false
      → has_status "restarting" rs ≡ true
      → Shown rs "restarting"
  some_stopping :
      has_status "running" rs ≡ false
      → has_status "starting" rs ≡ false
      → has_status "restarting" rs ≡ false
      → has_status "stopping" rs ≡ true
      → Shown rs "stopping"
  some_deploying :
      has_status "running" rs ≡ false
      → has_status "starting" rs ≡ false
      → has_status "restarting" rs ≡ false
      → has_status "stopping" rs ≡ false
      → has_status "deploying" rs ≡ true
      → Shown rs "deploying"
  some_failed :
      has_status "running" rs ≡ false
      → has_status "starting" rs ≡ false
      → has_status "restarting" rs ≡ false
      → has_status "stopping" rs ≡ false
      → has_status "deploying" rs ≡ false
      → all_failed rs ≡ true
      → Shown rs "error"
  none_busy :
      has_status "running" rs ≡ false
      → has_status "starting" rs ≡ false
      → has_status "restarting" rs ≡ false
      → has_status "stopping" rs ≡ false
      → has_status "deploying" rs ≡ false
      → all_failed rs ≡ false
      → Shown rs "stopped"
