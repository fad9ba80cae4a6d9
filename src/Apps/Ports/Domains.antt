-- ===== src/Apps/Ports/Domains.antt =====
-- When the domains of an application are refused.
use cloudbase.Prelude.{
  ◌≢◌, lower, strip, ℕ, String, ◌≡◌, refl, sym, ap, ◌∙◌, ◌↔◌, ◌⊎◌, inl, inr, Bool, true, false,
  ◌&&◌, Option, List, [], ◌∷◌, arith, str_eq, eq_iff, ◌==◌, Bool-cases, All, length, any, has_text,
}
use cloudbase.Prelude.Result.{ok, raise_if, raise_if-ok}
use cloudbase.Nodes.{Application, Store}
use cloudbase.Apps.Ports.Compared.{
  HasDomain, Asked, clean_domains-has, clean_domains-from, domains_of-has, domains_of-from,
}
use cloudbase.Apps.Ports.{is_other, clean_domains, domains_of, clashes, check_domain_conflicts}

List-cases {ℓ} : {A : Type ℓ} (xs : List A) → (xs ≡ []) ⊎ ((x : A) × (ys : List A) × (xs ≡ x ∷ ys))
List-cases [] = inl refl
List-cases (x ∷ ys) = inr (x, ys, refl)

module _ {ℓ} {A : Type ℓ} (p : A → Bool) where
  any-false : (xs : List A) → any p xs ≡ false → All (λ x. p x ≡ false) xs
  any-false [] e = tt
  any-false (x ∷ xs) e = (ground arith, any-false xs (ground arith))

  any-All : (xs : List A) → All (λ x. p x ≡ false) xs → any p xs ≡ false
  any-All [] h = refl
  any-All (x ∷ xs) (h, hs) = rw (h, any-All xs hs) refl

-- No domain of the one list is in the other.
abbrev pub Apart : List String → List String → Type 0
Apart ds ds' = (d : String) → has_text d ds ≡ true → has_text d ds' ≡ false

shared-Apart : (ds ds' : List String) → any (λ d. has_text d ds') ds ≡ false → Apart ds ds'
shared-Apart [] ds' e d h = cc
shared-Apart (x ∷ ds) ds' e d h = elim (Bool-cases (str_eq d x)) [
  | inl same ↦ rw ((eq_iff d x).0 same) (ground arith)
  | inr other ↦ shared-Apart ds ds' (ground arith) d (ground arith)
]

Apart-shared : (ds ds' : List String) → Apart ds ds' → any (λ d. has_text d ds') ds ≡ false
Apart-shared [] ds' h = refl
Apart-shared (x ∷ ds) ds' h =
    let first = h x (ground (arith, eq_iff x x)) in
    let rest = Apart-shared ds ds' (λ d listed. h d (ground arith)) in rw (first, rest) refl

-- What another application's row must not have: no domain that was asked for is one of its domains,
-- up to case and surrounding white space.
abbrev pub Unshared : List String → Option ℕ → Application → Type 0
Unshared domains exclude a =
    is_other exclude a ≡ true
    → (d d' : String) → Asked domains d
    → HasDomain a d'
    → lower (strip d) ≢ lower (strip d')

Apart-Unshared :
    (domains : List String) (exclude : Option ℕ) (a : Application)
    → (is_other exclude a ≡ true → Apart (clean_domains domains) (domains_of a))
    → Unshared domains exclude a
Apart-Unshared domains exclude a apart other d d' asked held same = absurd (
    cc (
      apart other (lower (strip d)) (clean_domains-has d domains asked),
      same,
      domains_of-has a d' held,
    ))

Unshared-Apart :
    (domains : List String) (exclude : Option ℕ) (a : Application)
    → Unshared domains exclude a
    → is_other exclude a ≡ true
    → Apart (clean_domains domains) (domains_of a)
Unshared-Apart domains exclude a unshared other y listed =
    elim (Bool-cases (has_text y (domains_of a))) [
      | inr e ↦ e
      | inl e ↦
          let (d, asked, same) = clean_domains-from y domains listed in
          let (d', held, same') = domains_of-from a y e in
          absurd (unshared other d d' asked held (sym same ∙ same'))
    ]

module _ (domains : List String) (exclude : Option ℕ) where
  abbrev clash : Application → Bool
  clash a = is_other exclude a && clashes (clean_domains domains) a

  Unshared-All :
      (xs : List Application) → All (λ a. clash a ≡ false) xs → All (Unshared domains exclude) xs
  unfolding clashes
  Unshared-All [] h = tt
  Unshared-All (a ∷ xs) (h, hs) = (
    Apart-Unshared domains exclude a
        (λ other. shared-Apart (clean_domains domains) (domains_of a) (rw other at h)),
    Unshared-All xs hs,
  )

  clash-All :
      (xs : List Application) → All (Unshared domains exclude) xs → All (λ a. clash a ≡ false) xs
  unfolding clashes
  clash-All [] h = tt
  clash-All (a ∷ xs) (h, hs) = (
    elim (Bool-cases (is_other exclude a)) [
      | inl e ↦ rw e (
          Apart-shared (clean_domains domains) (domains_of a)
            (Unshared-Apart domains exclude a h e))
      | inr e ↦ rw e refl
    ],
    clash-All xs hs,
  )

  nothing_clashes :
      (xs : List Application) → (length (clean_domains domains) == 0) ≡ true → any clash xs ≡ false
  unfolding clashes
  nothing_clashes [] e = refl
  nothing_clashes (a ∷ xs) e = elim (List-cases (clean_domains domains)) [
    | inl none_left ↦ elim (Bool-cases (is_other exclude a)) [
      | inl other ↦ rw (other, none_left) (nothing_clashes xs e)
      | inr same ↦ rw same (nothing_clashes xs e)
    ]
    | inr (d, ds, some_left) ↦ absurd (ground (arith, ap length some_left))
  ]

  -- The test for an empty list changes nothing.
  check-any :
      (s : Store) → check_domain_conflicts domains exclude s ≡ raise_if (any clash s.apps) 400
  unfolding check_domain_conflicts
  check-any s = elim (Bool-cases (length (clean_domains domains) == 0)) [
    | inl e ↦
        let result : check_domain_conflicts domains exclude s ≡ ok tt =
          rw (check_domain_conflicts, e) refl in
        result ∙ sym (ap (λ b. raise_if b 400) (nothing_clashes s.apps e))
    | inr e ↦ rw (check_domain_conflicts, e) refl
  ]

-- The domains of an application are accepted exactly when no other application has one of them, as its
-- domain, an extra one or a redirected one, whatever the case and the surrounding white space. Blank
-- domains of the request and empty ones of the rows do not count.
pub check_domain_conflicts-Unshared :
    (domains : List String) (exclude : Option ℕ) (s : Store)
    → (check_domain_conflicts domains exclude s ≡ ok tt) ↔ All (Unshared domains exclude) s.apps
check_domain_conflicts-Unshared domains exclude s =
    let test = clash domains exclude in
    (
      λ accepted.
          let quiet =
            raise_if-ok (any test s.apps) 400 (sym (check-any domains exclude s) ∙ accepted) in
          Unshared-All domains exclude s.apps (any-false test s.apps quiet),
      λ unshared.
          let quiet = any-All test s.apps (clash-All domains exclude s.apps unshared) in
          check-any domains exclude s ∙ ap (λ b. raise_if b 400) quiet,
    )
