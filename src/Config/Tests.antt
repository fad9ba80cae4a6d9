-- ===== src/Config/Tests.antt =====
-- The settings that the program comes with, and one that is changed.
use cloudbase.Prelude.{String, ◌≡◌, refl, ◌↔◌, some, List, [], ◌∷◌, arith}
use cloudbase.Prelude.Result.{Result, ok}
use cloudbase.Config.{
  number, Setting, section, Numbers, load, get_limit, get_port, save_config_sections, validate,
  few_instance_ports, few_tunnel_ports,
}
use cloudbase.Config.Ranges.{Sound, validate-Sound}

abbrev shipped : Numbers
shipped = record {
  instance_min = 8000;
  instance_max = 17999;
  tunnel_min = 18000;
  tunnel_max = 27999;
  max_instances = 10000;
  max_apps = 1000;
  server_port = 7823;
}

quiet-eq : validate shipped ≡ []
unfolding validate
quiet-eq = refl

too_many-eq :
    validate (record shipped { max_instances = 10001 }) ≡ few_instance_ports ∷ few_tunnel_ports ∷ []
unfolding validate
too_many-eq = refl

validate-Sound_example : (validate shipped ≡ []) ↔ Sound shipped
validate-Sound_example = validate-Sound shipped (omega arith) (omega arith)

-- One saved limit is read, and the others keep their defaults.
abbrev changed : Result (List (String × Setting))
changed = save_config_sections (("limits", section (("max_apps", number 5) ∷ [])) ∷ []) []

changed-eq : changed ≡ ok (("limits", section (("max_apps", number 5) ∷ [])) ∷ [])
unfolding save_config_sections
changed-eq = refl

abbrev small_file : List (String × Setting)
small_file = ("limits", section (("max_apps", number 5) ∷ [])) ∷ []

limit-eq : get_limit "max_apps" (load small_file) ≡ some 5
unfolding get_limit load
limit-eq = refl

default-eq : get_limit "max_nodes" (load small_file) ≡ some 100
unfolding get_limit load
default-eq = refl

port-eq : get_port "tunnel_min" (load small_file) ≡ some 18000
unfolding get_port load
port-eq = refl
