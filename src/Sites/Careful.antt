-- ===== src/Sites/Careful.antt =====
-- Writing a site: what it does to the other sites, and what its answer says.
use cloudbase.Prelude.{
  String, ◌≡◌, refl, sym, ap, ◌∙◌, ◌≢◌, ◌⊎◌, inl, inr, Bool, true, false, ◌&&◌, Option, none, some,
  List, [], ◌∷◌, arith, str_eq, eq_iff, Bool-cases, is_some,
}
use cloudbase.Sites.Names.{safe_name}
use cloudbase.Sites.{
  message_or, Entry, link_to, Sites, Shell, Answer, put, read_entry, read_enabled, mentions,
  is_broken, disable_one, disable_each, disable_broken_configs, test_sites, accept, retry, tested,
  linked, enable, written, write_nginx_config,
}

put_other :
    {A : Type 0} (name k : String) (value : A) (f : String → A)
    → str_eq k name ≡ false
    → put name value f k ≡ f k
put_other name k value f e = rw e refl

module _ (shell : Shell) (current : String) (paths : List String) where
  -- What the loop leaves, for one entry.
  abbrev Left : String → Sites → Sites → Type 0
  Left name s t =
      (t.available ≡ s.available)
      × (t.enabled current ≡ s.enabled current)
      × ((t.enabled name ≡ s.enabled name) ⊎ (mentions paths (read_enabled s name) ≡ true))

  removed-Left :
      (name broken : String) (s : Sites)
      → is_broken current paths s broken ≡ true
      → Left name s (record s { enabled = put broken none s.enabled })
  removed-Left name broken s h =
      let apart : str_eq current broken ≡ false =
        ground (arith, eq_iff current broken, eq_iff broken current) in
      let own = put_other broken current none s.enabled apart in
      elim (Bool-cases (str_eq name broken)) [
        | inl e ↦ let same = (eq_iff name broken).0 e in (refl, own, inr (rw same (ground arith)))
        | inr e ↦ (refl, own, inl (put_other broken name none s.enabled e))
      ]

  disable_one-Left :
      (name broken : String) (s : Sites) → Left name s (disable_one shell current paths s broken).0
  disable_one-Left name broken s =
      elim (Bool-cases (is_broken current paths s broken && shell.rm_works broken)) [
        | inl e ↦ rw e (removed-Left name broken s (ground arith))
        | inr e ↦ rw e (refl, refl, inl refl)
      ]

  Left-trans : (name : String) (s t u : Sites) → Left name s t → Left name t u → Left name s u
  Left-trans name s t u (a, c, inr h) (b, d, later) = (b ∙ a, d ∙ c, inr h)
  Left-trans name s t u (a, c, inl e) (b, d, inl k) = (b ∙ a, d ∙ c, inl (k ∙ e))
  Left-trans name s t u (a, c, inl e) (b, d, inr h) = (
    b ∙ a,
    d ∙ c,
    inr (
        sym (
          ap (λ f. mentions paths (read_entry f (t.enabled name))) a
          ∙ ap (λ o. mentions paths (read_entry s.available o)) e)
        ∙ h),
  )

  disable_each-Left :
      (name : String) (names : List String) (s : Sites)
      → Left name s (disable_each shell current paths names s).0
  disable_each-Left name [] s = (refl, refl, inl refl)
  disable_each-Left name (n ∷ ns) s =
      let t = (disable_one shell current paths s n).0 in
      Left-trans name s t (disable_each shell current paths ns t).0 (disable_one-Left name n s)
        (disable_each-Left name ns t)

read_there :
    (f : String → Option String) (o : Option Entry)
    → is_some (read_entry f o) ≡ true
    → is_some o ≡ true
read_there f none h = absurd cc
read_there f (some x) h = refl

put_same : {A : Type 0} (name : String) (value : A) (f : String → A) → put name value f name ≡ value
put_same name value f = rw ((eq_iff name name).1 refl) refl

module _ (shell : Shell) (name safe config : String) (s : Sites) where
  abbrev with_file : String → Option String
  with_file = put safe (some config) s.available

  -- Nginx refused the written site with a message that names a path in the entry.
  abbrev pub Blamed : Type 0
  Blamed =
      (v : Sites) × (stderr : String) × (v.available ≡ with_file)
      × (test_sites shell v ≡ some stderr)
      × (mentions (shell.bad_paths stderr) (read_entry v.available (s.enabled name)) ≡ true)

  -- Nginx takes the sites, and the written one is among them.
  abbrev pub Accepted : Sites → Type 0
  Accepted t =
      (test_sites shell t ≡ none)
      × (t.available safe ≡ some config)
      × (is_some (t.enabled safe) ≡ true)

  abbrev Spared : Sites → Type 0
  Spared t = (t.enabled name ≡ s.enabled name) ⊎ Blamed

  abbrev pub Careful : Answer → Type 0
  Careful (t, (success, message)) =
      (t.available name ≡ s.available name) × Spared t × ((success ≡ false) ⊎ Accepted t)

  module _ (apart : str_eq name safe ≡ false) where
    file_kept : (t : Sites) → t.available ≡ with_file → t.available name ≡ s.available name
    file_kept t a = ap (λ f. f name) a ∙ put_other safe name (some config) s.available apart

    refused-Careful :
        (t : Sites) (message : String)
        → t.available ≡ with_file
        → Spared t
        → Careful (t, (false, message))
    refused-Careful t message a spared = (file_kept t a, spared, inl refl)

    accept-Careful :
        (t : Sites) (answer : Option String)
        → test_sites shell t ≡ answer
        → t.available ≡ with_file
        → is_some (t.enabled safe) ≡ true
        → Spared t
        → Careful (accept shell answer t)
    accept-Careful t (some stderr) e a there spared = refused-Careful t stderr a spared
    accept-Careful t none e a there spared =
        let file = ap (λ f. f safe) a ∙ put_same safe (some config) s.available in
        elim (Bool-cases shell.reload_works) [
          | inl on ↦ rw on (file_kept t a, spared, inr (e, file, there))
          | inr off ↦ rw off (file_kept t a, spared, inr (e, file, there))
        ]

    retry-Careful :
        (v t : Sites) (stderr : String) (disabled : Bool)
        → test_sites shell v ≡ some stderr
        → v.available ≡ with_file
        → v.enabled name ≡ s.enabled name
        → is_some (v.enabled safe) ≡ true
        → Left shell safe (shell.bad_paths stderr) name v t
        → Careful (retry shell stderr (t, disabled))
    retry-Careful v t stderr disabled e a same there (files, own, left) =
        let spared : Spared t = elim left [
          | inl k ↦ inl (k ∙ same)
          | inr h ↦ inr (
            v,
            stderr,
            a,
            e,
            sym (ap (λ o. mentions (shell.bad_paths stderr) (read_entry v.available o)) same) ∙ h,
          )
        ] in
        elim (Bool-cases disabled) [
          | inl on ↦ rw on (
              accept-Careful t (test_sites shell t) refl (files ∙ a) (ap is_some own ∙ there)
                spared)
          | inr off ↦ rw off (refused-Careful t stderr (files ∙ a) spared)
        ]

    tested-Careful :
        (v : Sites) (answer : Option String)
        → test_sites shell v ≡ answer
        → v.available ≡ with_file
        → v.enabled name ≡ s.enabled name
        → is_some (v.enabled safe) ≡ true
        → Careful (tested shell safe answer v)
    unfolding disable_broken_configs
    tested-Careful v none e a same there = accept-Careful v none e a there (inl same)
    tested-Careful v (some stderr) e a same there =
        let paths = shell.bad_paths stderr in
        let left = disable_each shell safe paths (shell.listing v) v in
        retry-Careful v left.0 stderr left.1 e a same there
          (disable_each-Left shell safe paths name (shell.listing v) v)

    enable-Careful :
        (v : Sites) (there : Bool) (failed : Option String)
        → (there ≡ true → is_some (v.enabled safe) ≡ true)
        → v.available ≡ with_file
        → v.enabled name ≡ s.enabled name
        → Careful (enable shell safe there failed v)
    enable-Careful v there none old a same =
        let v' = linked shell safe v in
        tested-Careful v' (test_sites shell v') refl a
          (put_other safe name (some (link_to safe)) v.enabled apart ∙ same)
          (ap is_some (put_same safe (some (link_to safe)) v.enabled))
    enable-Careful v true (some stderr) old a same =
        tested-Careful v (test_sites shell v) refl a same (old refl)
    enable-Careful v false (some stderr) old a same =
        refused-Careful v (message_or stderr "Failed to enable nginx site") a (inl same)

    written-Careful : (failed : Option String) → Careful (written shell safe config failed s)
    written-Careful (some stderr) = (refl, inl refl, inl refl)
    written-Careful none =
        let v = record s { available = with_file } in
        enable-Careful v (is_some (read_enabled v safe)) shell.ln_error
          (read_there v.available (v.enabled safe)) refl refl

-- Whatever the commands answer, writing the site of an application leaves the file of every other site
-- as it was, and its entry too, unless nginx refused the written site and the text of the entry has one
-- of the paths in its message. When it succeeds, nginx takes the sites as they are left, the
-- application's file has the new text, and there is an entry of its name.
pub write_nginx_config-Careful :
    (shell : Shell) (app_name config : String) (s : Sites) (name : String)
    → name ≢ safe_name app_name
    → Careful shell name (safe_name app_name) config s (write_nginx_config shell app_name config s)
unfolding write_nginx_config
write_nginx_config-Careful shell app_name config s name apart =
    let safe = safe_name app_name in
    let differ : str_eq name safe ≡ false = elim (Bool-cases (str_eq name safe)) [
      | inl e ↦ absurd (apart ((eq_iff name safe).0 e))
      | inr e ↦ e
    ] in
    elim (Bool-cases shell.has_sudo) [
      | inl e ↦ simp e (written-Careful shell name safe config s differ shell.tee_error)
      | inr e ↦ simp e (refl, inl refl, inl refl)
    ]
