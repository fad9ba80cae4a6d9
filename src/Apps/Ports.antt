-- ===== src/Apps/Ports.antt =====
-- The host port of a new instance, and the domains of a new application: what no two may share.
mod Compared
pub mod Domains
pub mod Free
use cloudbase.Prelude.{
  ℕ, zero, suc, ◌+◌, ◌-◌, ◌*◌, ◌≤◌, ◌<◌, min, max, String, ◌≡◌, refl, sym, ap, ◌∙◌, ◌≢◌, ◌↔◌, ◌⊎◌,
  inl, inr, Bool, true, false, not, ◌&&◌, ◌||◌, Option, none, some, List, [], ◌∷◌, ◌++◌, map, arith,
  str_eq, eq_iff, ltb, leb, ◌==◌, ==_iff, if◌then◌else◌, Bool-cases, Option-cases, some-eq, is_some,
  is_some-none, All, length, select, find, any, all, update_where, count_where, length-append, take,
  order_by, find-holds, has_text, starts_with, contains, lower, ends_with, text_length, strip,
  starts_with_comparable, starts_with_apart, starts_with_shorter, starts_with_of_eq, eq_apart,
}
use cloudbase.Prelude.Result.{
  Result, ok, raise, raise_if, is_ok, bind-ok, raise_if-ok, Result-cases,
}
use cloudbase.Prelude.Search.{first_clear}
use cloudbase.Nodes.{Application, Store}
use cloudbase.Apps.Work.{or_num}

-- Of an application that may be left out: `Application.id != exclude_app_id if exclude_app_id else True`.
abbrev pub is_other : Option ℕ → Application → Bool
is_other none a = true
is_other (some id) a = id == 0 || not (a.id == id)

abbrev pub on_node : ℕ → Option ℕ → Bool
on_node node_id none = true
on_node node_id (some k) = k == node_id

-- The ports of a column without its nulls.
abbrev pub known_ports : List (Option ℕ) → List ℕ
known_ports [] = []
known_ports (none ∷ ps) = known_ports ps
known_ports (some p ∷ ps) = p ∷ known_ports ps

abbrev pub has_port : ℕ → List ℕ → Bool
has_port p ps = any (λ q. q == p) ps

-- The set `used` of `_assign_external_port`.
unfoldable pub used_ports : ℕ → Option ℕ → Store → List ℕ
used_ports node_id exclude s =
    known_ports (
      map (λ a. a.external_port)
        (select (λ a. on_node node_id a.node_id && is_other exclude a) s.apps))
    ++ known_ports (map (λ r. r.external_port) (select (λ r. on_node node_id r.node_id) s.replicas))

-- `pick_free_external_port` of backend/docker_manager.py, which raises past the last port. `active` are
-- the ports of the host's sockets.
unfoldable pub pick_free_external_port : (ℕ → Bool) → ℕ → ℕ → List ℕ → Option ℕ
pick_free_external_port active first last used =
    first_clear (λ p. has_port p used || active p) (suc last - first) first

-- The ports of the host and of the configuration.
pub record PortRange : Type 0 where
  pub active : ℕ → Bool
  pub first : ℕ
  pub last : ℕ

-- `_assign_external_port`
unfoldable pub assign_external_port : PortRange → Option ℕ → ℕ → Option ℕ → Store → Result ℕ
unfolding used_ports pick_free_external_port
assign_external_port range requested node_id exclude s =
    let used = used_ports node_id exclude s in
    if or_num requested 0 == 0
    then elim (pick_free_external_port range.active range.first range.last used) [
      | none ↦ raise 500
      | some p ↦ ok p
    ]
    else if has_port (or_num requested 0) used
    then raise 400
    else ok (or_num requested 0)

abbrev pub normal_domain : String → String
normal_domain d = lower (strip d)

-- The domains of a list that are not empty, as they are compared.
abbrev pub clean_domains : List String → List String
clean_domains [] = []
clean_domains (d ∷ ds) =
    if str_eq (strip d) "" then clean_domains ds else normal_domain d ∷ clean_domains ds

abbrev pub stored_domains : List String → List String
stored_domains [] = []
stored_domains (d ∷ ds) =
    if str_eq d "" then stored_domains ds else normal_domain d ∷ stored_domains ds

abbrev pub primary_domain : Option String → List String
primary_domain none = []
primary_domain (some d) = if str_eq d "" then [] else normal_domain d ∷ []

-- What the row of another application holds.
unfoldable pub domains_of : Application → List String
domains_of a =
    primary_domain a.domain ++ (stored_domains a.extra_domains ++ stored_domains a.redirect_domains)

unfoldable pub clashes : List String → Application → Bool
unfolding domains_of
clashes clean a = any (λ d. has_text d (domains_of a)) clean

-- `_check_domain_conflicts`
unfoldable pub check_domain_conflicts : List String → Option ℕ → Store → Result (Unit {0})
check_domain_conflicts domains exclude s =
    if length (clean_domains domains) == 0
    then ok tt
    else raise_if (any (λ a. is_other exclude a && clashes (clean_domains domains) a) s.apps) 400
