-- ===== src/Sites.antt =====
-- backend/nginx_manager.py: the files of the sites, how one is written, and when others are disabled.
mod Names
pub mod Careful
mod Tests
use cloudbase.Prelude.{
  ℕ, zero, suc, ◌+◌, ◌-◌, ◌*◌, ◌≤◌, ◌<◌, min, max, String, ◌≡◌, refl, sym, ap, ◌∙◌, ◌≢◌, ◌↔◌, ◌⊎◌,
  inl, inr, Bool, true, false, not, ◌&&◌, ◌||◌, Option, none, some, List, [], ◌∷◌, ◌++◌, map, arith,
  str_eq, eq_iff, ltb, leb, ◌==◌, ==_iff, if◌then◌else◌, Bool-cases, Option-cases, some-eq, is_some,
  is_some-none, All, length, select, find, any, all, update_where, count_where, length-append, take,
  order_by, find-holds, has_text, starts_with, contains, lower, ends_with, text_length, strip,
  starts_with_comparable, starts_with_apart, starts_with_shorter, starts_with_of_eq, eq_apart,
}
use cloudbase.Prelude.Result.{
  Result, ok, raise, ◌>>=◌, ◌>>◌, raise_if, is_ok, bind-ok, raise_if-ok, Result-cases,
}
use cloudbase.Sites.Names.{safe_name}

-- What an entry of sites-enabled is: a link to a file of sites-available, or a file of its own.
pub data Entry : Type 0 where
  link_to : String → Entry
  own_file : String → Entry

-- The two directories, and the sites that nginx serves since it last took them over.
pub record Sites : Type 0 where
  pub available : String → Option String
  pub enabled : String → Option Entry
  pub served : Option ((String → Option String) × (String → Option Entry))

-- The answers of the commands: the message of a `tee` or an `ln` that failed, whether `rm` of an entry
-- and of a file and the reload succeed, the message of an `nginx -t` that refuses the sites, the paths
-- that the regular expressions find in it, and the names that `os.listdir` gives. A command that failed
-- has changed nothing.
pub record Shell : Type 0 where
  pub has_sudo : Bool
  pub tee_error : Option String
  pub ln_error : Option String
  pub rm_works : String → Bool
  pub rm_available : String → Bool
  pub reload_works : Bool
  pub nginx_test : (String → Option String) → (String → Option Entry) → Option String
  pub bad_paths : String → List String
  pub listing : Sites → List String

-- What a function returns beside the sites: whether it succeeded, and the message.
abbrev pub Answer : Type 0
Answer = Sites × (Bool × String)

-- `r.stderr or default`
abbrev pub message_or : String → String → String
message_or stderr default = if str_eq stderr "" then default else stderr

-- `d[name] = value`
abbrev pub put : {A : Type 0} → String → A → (String → A) → String → A
put name value f k = if str_eq k name then value else f k

-- `open(symlink).read()`, none when it raises.
abbrev pub read_entry : (String → Option String) → Option Entry → Option String
read_entry available none = none
read_entry available (some (link_to name)) = available name
read_entry available (some (own_file content)) = some content

abbrev pub read_enabled : Sites → String → Option String
read_enabled s name = read_entry s.available (s.enabled name)

-- Whether a site's text has one of the paths, false when it cannot be read.
abbrev pub mentions : List String → Option String → Bool
mentions paths none = false
mentions paths (some content) = any (contains content) paths

-- One turn of the loop of `_disable_broken_configs`: whether the entry is removed.
abbrev pub is_broken : String → List String → Sites → String → Bool
is_broken current paths s name = not (str_eq name current) && mentions paths (read_enabled s name)

module _ (shell : Shell) where
  abbrev pub disable_one : String → List String → Sites → String → Sites × Bool
  disable_one current paths s name =
      if is_broken current paths s name && shell.rm_works name
      then (record s { enabled = put name none s.enabled }, true)
      else (s, false)

  abbrev pub disable_each : String → List String → List String → Sites → Sites × Bool
  disable_each current paths [] s = (s, false)
  disable_each current paths (name ∷ names) s =
      let one = disable_one current paths s name in
      let rest = disable_each current paths names one.0 in (rest.0, one.1 || rest.1)

  -- `_disable_broken_configs`
  unfoldable pub disable_broken_configs : String → String → Sites → Sites × Bool
  disable_broken_configs current stderr s =
      disable_each current (shell.bad_paths stderr) (shell.listing s) s

  -- `sudo systemctl reload nginx`, whose result is only logged.
  abbrev pub reload : Sites → Sites
  reload s = if shell.reload_works then record s { served = some (s.available, s.enabled) } else s

  -- `nginx -t`
  abbrev pub test_sites : Sites → Option String
  test_sites s = shell.nginx_test s.available s.enabled

  abbrev pub accept : Option String → Sites → Answer
  accept none s = (reload s, (true, "OK"))
  accept (some stderr) s = (s, (false, stderr))

  -- The second `nginx -t`, when a site was disabled.
  abbrev pub retry : String → Sites × Bool → Answer
  retry stderr (s, true) = accept (test_sites s) s
  retry stderr (s, false) = (s, (false, stderr))

  abbrev pub tested : String → Option String → Sites → Answer
  tested safe none s = accept none s
  tested safe (some stderr) s = retry stderr (disable_broken_configs safe stderr s)

  abbrev pub linked : String → Sites → Sites
  linked safe s = record s { enabled = put safe (some (link_to safe)) s.enabled }

  -- The link is made again when it is there already, and then the result of `ln` is not looked at.
  abbrev pub enable : String → Bool → Option String → Sites → Answer
  enable safe there none s = let s' = linked safe s in tested safe (test_sites s') s'
  enable safe true (some stderr) s = tested safe (test_sites s) s
  enable safe false (some stderr) s = (s, (false, message_or stderr "Failed to enable nginx site"))

  abbrev pub written : String → String → Option String → Sites → Answer
  written safe config (some stderr) s =
      (s, (false, message_or stderr "Failed to write nginx config"))
  written safe config none s =
      let s' = record s { available = put safe (some config) s.available } in
      enable safe (is_some (read_enabled s' safe)) shell.ln_error s'

  -- `write_nginx_config`
  unfoldable pub write_nginx_config : String → String → Sites → Answer
  write_nginx_config app_name config s =
      if shell.has_sudo
      then written (safe_name app_name) config shell.tee_error s
      else (s, (false, "nginx not found  -  install nginx first (sudo apt install nginx)"))

  abbrev pub removed_entry : String → Sites → Sites × Bool
  removed_entry safe s =
      if shell.rm_works safe
      then (record s { enabled = put safe none s.enabled }, true)
      else (s, false)

  abbrev pub removed_file : String → Sites → Sites × Bool
  removed_file safe s =
      if shell.rm_available safe
      then (record s { available = put safe none s.available }, true)
      else (s, false)

  -- `remove_nginx_config`, none when it raises.
  unfoldable pub remove_nginx_config : String → Sites → Option (Sites × Bool)
  remove_nginx_config app_name s =
      let entry = removed_entry (safe_name app_name) s in
      let file = removed_file (safe_name app_name) entry.0 in
      if shell.has_sudo
      then some (if entry.1 || file.1 then (reload file.0, true) else (file.0, false))
      else none

-- `config_uses_restart_page`
abbrev pub config_uses_restart_page : String → Bool
config_uses_restart_page content = contains content "try_files /restart.html"

-- `config_uses_starting_page`
abbrev pub config_uses_starting_page : String → Bool
config_uses_starting_page content = contains content "try_files /starting.html"
