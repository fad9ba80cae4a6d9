-- ===== src/Config.antt =====
-- backend/config.py: the settings of config.yaml, with their defaults.
pub mod Ranges
mod Tests
use cloudbase.Prelude.{
  ℕ, zero, suc, ◌+◌, ◌-◌, ◌*◌, ◌≤◌, ◌<◌, min, max, String, ◌≡◌, refl, sym, ap, ◌∙◌, ◌≢◌, ◌↔◌, ◌⊎◌,
  inl, inr, Bool, true, false, not, ◌&&◌, ◌||◌, Option, none, some, List, [], ◌∷◌, ◌++◌, map, arith,
  str_eq, eq_iff, ltb, leb, ◌==◌, ==_iff, if◌then◌else◌, Bool-cases, Option-cases, some-eq, is_some,
  is_some-none, All, length, select, find, any, all, update_where, count_where, length-append, take,
  order_by, find-holds, has_text, starts_with, contains, lower, ends_with, text_length, strip,
  starts_with_comparable, starts_with_apart, starts_with_shorter, starts_with_of_eq, eq_apart,
}
use cloudbase.Prelude.Result.{
  Result, ok, raise, ◌>>=◌, ◌>>◌, raise_if, is_ok, bind-ok, raise_if-ok, Result-cases,
}

-- A value under a section, and what stands under a key of the file: a section, or something else.
pub data Value : Type 0 where
  number : ℕ → Value
  text : String → Value

abbrev pub Section : Type 0
Section = List (String × Value)

pub data Setting : Type 0 where
  section : Section → Setting
  other : Setting

abbrev pub Settings : Type 0
Settings = List (String × Setting)

module _ {A : Type 0} where
  -- d.get(key)
  abbrev pub lookup : String → List (String × A) → Option A
  lookup key [] = none
  lookup key ((k, v) ∷ d) = if str_eq k key then some v else lookup key d

  -- d[key] = value
  abbrev pub set_key : String → A → List (String × A) → List (String × A)
  set_key key v [] = (key, v) ∷ []
  set_key key v ((k, old) ∷ d) = if str_eq k key then (k, v) ∷ d else (k, old) ∷ set_key key v d

  -- d.update(values)
  pub update : List (String × A) → List (String × A) → List (String × A)
  update d [] = d
  update d ((k, v) ∷ values) = update (set_key k v d) values

-- `_DEFAULTS`
abbrev pub default_ports : Section
default_ports =
    ("instance_min", number 8000)
    ∷ ("instance_max", number 17999)
    ∷ ("tunnel_min", number 18000)
    ∷ ("tunnel_max", number 27999)
    ∷ []

abbrev pub default_limits : Section
default_limits =
    ("max_apps", number 1000)
    ∷ ("max_instances", number 10000)
    ∷ ("max_nodes", number 100)
    ∷ ("max_restarts_per_window", number 5)
    ∷ ("restart_window_seconds", number 60)
    ∷ []

abbrev pub defaults : Settings
defaults =
    ("server", section (("port", number 7823) ∷ []))
    ∷ ("auth", section (("token_expire_seconds", number 3600) ∷ []))
    ∷ ("ports", section default_ports)
    ∷ ("limits", section default_limits)
    ∷ []

-- One section of the file over the settings so far.
pub merge_entry : String → Setting → Settings → Settings
unfolding update
merge_entry name (section values) result = elim (lookup name result) [
  | some (section old) ↦ set_key name (section (update old values)) result
  | some other ↦ set_key name (section values) result
  | none ↦ set_key name (section values) result
]
merge_entry name other result = set_key name other result

pub merge_all : Settings → Settings → Settings
unfolding merge_entry
merge_all [] result = result
merge_all ((name, entry) ∷ file) result = merge_all file (merge_entry name entry result)

-- `_load`; a file that does not exist has no file.
unfoldable pub load : Settings → Settings
unfolding merge_all
load file = merge_all file defaults

abbrev pub get_section : String → Settings → Option Section
get_section name config = elim (lookup name config) [
  | none ↦ some []
  | some (section values) ↦ some values
  | some other ↦ none
]

abbrev pub default_number : String → Section → ℕ
default_number key values = elim (lookup key values) [
  | some (number n) ↦ n
  | some (text s) ↦ 0
  | none ↦ 0
]

-- `int(config.get(name, {}).get(key, default))`: a text that is no number raises.
abbrev pub get_number : String → String → ℕ → Settings → Option ℕ
get_number name key default config = elim (get_section name config) [
  | none ↦ none
  | some values ↦ elim (lookup key values) [
    | none ↦ some default
    | some (number n) ↦ some n
    | some (text s) ↦ none
  ]
]

-- `get_limit`, `get_port` and `get_server_port`
unfoldable pub get_limit : String → Settings → Option ℕ
get_limit key = get_number "limits" key (default_number key default_limits)

unfoldable pub get_port : String → Settings → Option ℕ
get_port key = get_number "ports" key (default_number key default_ports)

unfoldable pub get_server_port : Settings → Option ℕ
get_server_port = get_number "server" "port" 7823

-- `file.setdefault(name, {}).update(values)`, which raises where the file has no section.
pub save_entry : String → Setting → Settings → Result Settings
unfolding update
save_entry name (section values) file = elim (lookup name file) [
  | some (section old) ↦ ok (set_key name (section (update old values)) file)
  | some other ↦ raise 500
  | none ↦ ok (set_key name (section (update [] values)) file)
]
save_entry name other file = ok (set_key name other file)

-- `save_config_sections`: the new contents of the file. What raises leaves the file as it was.
unfoldable pub save_config_sections : Settings → Settings → Result Settings
unfolding save_entry
save_config_sections [] file = ok file
save_config_sections ((name, entry) ∷ sections) file = do
  file' ← save_entry name entry file
  save_config_sections sections file'

-- `save_server_config`
unfoldable pub save_server_config : Section → Settings → Result Settings
unfolding save_entry
save_server_config fields file = save_entry "server" (section fields) file

-- The problems that `validate` reports, in its order.
pub data Warning : Type 0 where
  few_instance_ports : Warning
  few_app_ports : Warning
  few_tunnel_ports : Warning
  ranges_overlap : Warning
  server_port_inside : Warning

pub record Numbers : Type 0 where
  pub instance_min : ℕ
  pub instance_max : ℕ
  pub tunnel_min : ℕ
  pub tunnel_max : ℕ
  pub max_instances : ℕ
  pub max_apps : ℕ
  pub server_port : ℕ

abbrev pub warn : Bool → Warning → List Warning
warn test w = if test then w ∷ [] else []

-- `last - first + 1 < count`, on whole numbers.
abbrev pub short : ℕ → ℕ → ℕ → Bool
short first last count = ltb (suc last) (first + count)

abbrev pub within : ℕ → ℕ → ℕ → Bool
within first last p = leb first p && leb p last

unfoldable pub validate : Numbers → List Warning
validate n =
    (if short n.instance_min n.instance_max n.max_instances
      then few_instance_ports ∷ []
      else warn (short n.instance_min n.instance_max n.max_apps) few_app_ports)
    ++ (warn (short n.tunnel_min n.tunnel_max n.max_instances) few_tunnel_ports
        ++ (warn (leb n.instance_min n.tunnel_max && leb n.tunnel_min n.instance_max) ranges_overlap
            ++ warn
                (within n.instance_min n.instance_max n.server_port
                  || within n.tunnel_min n.tunnel_max n.server_port)
                server_port_inside))
