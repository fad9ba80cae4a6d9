-- ===== src/Apps/Work.antt =====
-- What a handler of applications works on: the session with its tables, and what was committed of it.
pub mod Commands
pub mod Post
use cloudbase.Prelude.{
  ℕ, zero, suc, ◌+◌, ◌-◌, ◌*◌, ◌≤◌, ◌<◌, min, max, String, ◌≡◌, refl, sym, ap, ◌∙◌, ◌≢◌, ◌↔◌, ◌⊎◌,
  inl, inr, Bool, true, false, not, ◌&&◌, ◌||◌, Option, none, some, List, [], ◌∷◌, ◌++◌, map, arith,
  str_eq, eq_iff, ltb, leb, ◌==◌, ==_iff, if◌then◌else◌, Bool-cases, Option-cases, some-eq, is_some,
  is_some-none, All, length, select, find, any, all, update_where, count_where, length-append, take,
  order_by, find-holds, has_text, starts_with, contains, lower, ends_with, text_length, strip,
  starts_with_comparable, starts_with_apart, starts_with_shorter, starts_with_of_eq, eq_apart,
}
use cloudbase.Prelude.Result.{
  Result, ok, raise, raise_if, is_ok, bind-ok, raise_if-ok, Result-cases,
}
use cloudbase.Nodes.{Dict, Application, Replica, NodeCommand, Store, Effect}
use cloudbase.Nodes.Queue.{queue_node_command}

-- What a handler does outside the tables. `write_nginx` has the page that is written and the ports that
-- it passes requests to; `restore_later` is a task that looks at the page again.
pub data Action : Type 0 where
  effect : Effect → Action
  stop_legacy : ℕ → Action
  stop_container : ℕ → ℕ → Action
  run_container : ℕ → ℕ → ℕ → Action
  build_image : ℕ → Action
  write_nginx : ℕ → String → List ℕ → Action
  remove_nginx : String → Action
  restore_later : ℕ → ℕ → String → Action
  audit_app : String → String → ℕ → Action

-- `tables` is what the session sees, `saved` what is committed: an error leaves the one behind and
-- keeps the other. `transitions` is the dict of the pages that an application shows while it starts.
pub record Work : Type 0 where
  pub saved : Store
  pub tables : Store
  pub transitions : List (ℕ × String × ℕ)
  pub actions : List Action

abbrev pub Tx {ℓ} : Type ℓ → Type ℓ
Tx A = Work → Result A × Work

infixl 5 ◌>>=◌ ◌>>◌
abbrev pub ◌>>=◌ : {A B : Type 0} → Tx A → (A → Tx B) → Tx B
◌>>=◌ m f w = let (r, w') = m w in elim r [ raise code ↦ (raise code, w') | ok a ↦ f a w' ]

abbrev pub ◌>>◌ : {A : Type 0} → Tx (Unit {0}) → Tx A → Tx A
m >> k = m >>= λ u. k

abbrev pub return : {A : Type 0} → A → Tx A
return a w = (ok a, w)

abbrev pub lift : {A : Type 0} → Result A → Tx A
lift r w = (r, w)

abbrev pub when : Bool → Tx (Unit {0}) → Tx (Unit {0})
when test m w = if test then m w else (ok tt, w)

abbrev pub raise_when : Bool → ℕ → Tx (Unit {0})
raise_when test code w = (raise_if test code, w)

abbrev pub act : Action → Tx (Unit {0})
act a w = (ok tt, record w { actions = w.actions ++ a ∷ [] })

abbrev pub commit : Tx (Unit {0})
commit w = (ok tt, record w { saved = w.tables })

abbrev pub read : Tx Store
read w = (ok w.tables, w)

abbrev pub set_replica : Replica → Store → Store
set_replica r s = record s { replicas = update_where (λ x. x.id == r.id) (λ x. r) s.replicas }

abbrev pub set_app : Application → Store → Store
set_app a s = record s { apps = update_where (λ x. x.id == a.id) (λ x. a) s.apps }

abbrev pub write_replica : Replica → Tx (Unit {0})
write_replica r w = (ok tt, record w { tables = set_replica r w.tables })

abbrev pub write_app : Application → Tx (Unit {0})
write_app a w = (ok tt, record w { tables = set_app a w.tables })

-- SQLite gives a new row the next number after the largest.
pub next_id : List NodeCommand → ℕ
next_id [] = 1
next_id (c ∷ cs) = max (suc c.id) (next_id cs)

-- `queue_node_command` with a random key: it commits the whole session.
pub queue : ℕ → String → ℕ → ℕ → String → Dict → Tx (Unit {0})
unfolding next_id
queue now key node_id app_id command_type payload w =
    let (c, s, effects) =
      queue_node_command
        (record {
          now = now;
          fresh_id = next_id w.tables.commands;
          key = key;
          node_id = node_id;
          command_type = command_type;
          payload = payload;
          app_id = some app_id;
          allow_existing_inflight = false;
        })
        w.tables in
    (ok tt, record w { saved = s; tables = s; actions = w.actions ++ map effect effects })

-- `v or default` of numbers.
abbrev pub or_num : Option ℕ → ℕ → ℕ
or_num none d = d
or_num (some n) d = if n == 0 then d else n

-- `v or default` of texts.
abbrev pub or_text : Option String → String → String
or_text none d = d
or_text (some s) d = if str_eq s "" then d else s

-- The rows of one application, in the order of the table.
abbrev pub app_replicas : ℕ → Store → List Replica
app_replicas app_id s = select (λ r. r.app_id == app_id) s.replicas
