-- ===== src/Sites/Tests.antt =====
-- A site that is written beside one whose certificate is gone.
use cloudbase.Prelude.{
  String, ◌≡◌, refl, ◌≢◌, Bool, true, false, Option, none, some, List, [], ◌∷◌, eq_iff, lower,
}
use cloudbase.Sites.Names.{safe_name}
use cloudbase.Sites.{
  Entry, link_to, Sites, Shell, put, read_enabled, write_nginx_config, remove_nginx_config,
  disable_broken_configs,
}
use cloudbase.Sites.Careful.{Careful, write_nginx_config-Careful}

abbrev before : Sites
before = record {
  available = put "blog" (some "server blog") (put "old" (some "server old /gone.pem") (λ k. none));
  enabled = put "blog" (some (link_to "blog")) (put "old" (some (link_to "old")) (λ k. none));
  served = none;
}

abbrev refuses : Option Entry → Option String
refuses none = none
refuses (some e) = some "cannot load certificate \"/gone.pem\""

abbrev shell : Shell
shell = record {
  has_sudo = true;
  tee_error = none;
  ln_error = none;
  rm_works = λ k. true;
  rm_available = λ k. true;
  reload_works = true;
  nginx_test = λ available enabled. refuses (enabled "old");
  bad_paths = λ stderr. "/gone.pem" ∷ [];
  listing = λ s. "blog" ∷ "my_app" ∷ "old" ∷ [];
}

-- Two names of applications, one file.
safe_name-shared : (safe_name "My App" ≡ "my_app") × (safe_name "my_app" ≡ "my_app")
unfolding safe_name lower
safe_name-shared = (refl, refl)

after : List (Option String)
unfolding write_nginx_config disable_broken_configs safe_name lower
after =
    let out = (write_nginx_config shell "My App" "server app" before).0 in
    read_enabled out "blog" ∷ read_enabled out "old" ∷ read_enabled out "my_app" ∷ []

after-eq : after ≡ (some "server blog" ∷ none ∷ some "server app" ∷ [])
unfolding after
after-eq = refl

removed : Option (Sites × Bool) → Option String
removed none = some "raised"
removed (some out) = read_enabled out.0 "blog"

removed-eq : removed (remove_nginx_config shell "blog" before) ≡ none
unfolding remove_nginx_config safe_name lower removed
removed-eq = refl

blog-apart : "blog" ≢ safe_name "My App"
unfolding safe_name lower
blog-apart e = let h : false ≡ true = (eq_iff "blog" (safe_name "My App")).1 e in absurd cc

write_nginx_config-Careful_example :
    Careful shell "blog"
      (safe_name "My App")
      "server app"
      before
      (write_nginx_config shell "My App" "server app" before)
write_nginx_config-Careful_example =
    write_nginx_config-Careful shell "My App" "server app" before "blog" blog-apart
