-- ===== src/Apps/Ports/Compared.antt =====
-- The lists of domains that `_check_domain_conflicts` compares, and the domains that they come from.
use cloudbase.Prelude.{
  ◌≢◌, lower, strip, none, some, ◌||◌, ◌++◌, String, ◌≡◌, refl, sym, ap, ◌∙◌, ◌⊎◌, inl, inr, true,
  false, Option, List, [], ◌∷◌, arith, str_eq, eq_iff, Bool-cases, has_text,
}
use cloudbase.Nodes.{Application}
use cloudbase.Apps.Ports.{stored_domains, primary_domain, clean_domains, domains_of}

-- The row of an application has the domain, as it was stored.
abbrev pub HasDomain : Application → String → Type 0
HasDomain a d =
    (d ≢ "")
    × ((a.domain ≡ some d)
        ⊎ (has_text d a.extra_domains ≡ true)
        ⊎ (has_text d a.redirect_domains ≡ true))

-- A domain of a request that is not blank.
abbrev pub Asked : List String → String → Type 0
Asked domains d = (has_text d domains ≡ true) × (strip d ≢ "")

-- The lists that the code compares, one by one.
pub clean_domains-has :
    (d : String) (ds : List String)
    → Asked ds d
    → has_text (lower (strip d)) (clean_domains ds) ≡ true
clean_domains-has d [] (h, some_text) = cc
clean_domains-has d (x ∷ ds) (h, some_text) = elim (Bool-cases (str_eq d x)) [
  | inl e ↦
      let same = (eq_iff d x).0 e in
      let shown : str_eq (strip x) "" ≡ false = rw (← same) (ground (arith, eq_iff (strip d) "")) in
      rw (shown, same, (eq_iff (lower (strip x)) (lower (strip x))).1 refl) refl
  | inr e ↦
      let rest = clean_domains-has d ds (ground arith, some_text) in
      elim (Bool-cases (str_eq (strip x) "")) [
        | inl blank ↦ rw blank rest
        | inr shown ↦ rw shown (ground arith)
      ]
]

pub clean_domains-from :
    (y : String) (ds : List String)
    → has_text y (clean_domains ds) ≡ true
    → (d : String) × Asked ds d × (y ≡ lower (strip d))
clean_domains-from y [] h = absurd cc
clean_domains-from y (x ∷ ds) h = elim (Bool-cases (str_eq (strip x) "")) [
  | inl blank ↦
      let (d, (listed, some_text), same) = clean_domains-from y ds (rw blank at h) in
      (d, (ground arith, some_text), same)
  | inr shown ↦ elim (Bool-cases (str_eq y (lower (strip x)))) [
    | inl e ↦ (
      x,
      (rw ((eq_iff x x).1 refl) refl, ground (arith, eq_iff (strip x) "")),
      (eq_iff y (lower (strip x))).0 e,
    )
    | inr e ↦
        let (d, (listed, some_text), same) = clean_domains-from y ds (ground arith) in
        (d, (ground arith, some_text), same)
  ]
]

stored_domains-has :
    (d : String) (ds : List String)
    → d ≢ ""
    → has_text d ds ≡ true
    → has_text (lower (strip d)) (stored_domains ds) ≡ true
stored_domains-has d [] some_text h = cc
stored_domains-has d (x ∷ ds) some_text h = elim (Bool-cases (str_eq d x)) [
  | inl e ↦
      let same = (eq_iff d x).0 e in
      let shown : str_eq x "" ≡ false = rw (← same) (ground (arith, eq_iff d "")) in
      rw (shown, same, (eq_iff (lower (strip x)) (lower (strip x))).1 refl) refl
  | inr e ↦
      let rest = stored_domains-has d ds some_text (ground arith) in
      elim (Bool-cases (str_eq x "")) [
        | inl blank ↦ rw blank rest
        | inr shown ↦ rw shown (ground arith)
      ]
]

stored_domains-from :
    (y : String) (ds : List String)
    → has_text y (stored_domains ds) ≡ true
    → (d : String) × (d ≢ "") × (has_text d ds ≡ true) × (y ≡ lower (strip d))
stored_domains-from y [] h = absurd cc
stored_domains-from y (x ∷ ds) h = elim (Bool-cases (str_eq x "")) [
  | inl blank ↦
      let (d, some_text, listed, same) = stored_domains-from y ds (rw blank at h) in
      (d, some_text, ground arith, same)
  | inr shown ↦ elim (Bool-cases (str_eq y (lower (strip x)))) [
    | inl e ↦ (
      x,
      ground (arith, eq_iff x ""),
      rw ((eq_iff x x).1 refl) refl,
      (eq_iff y (lower (strip x))).0 e,
    )
    | inr e ↦
        let (d, some_text, listed, same) = stored_domains-from y ds (ground arith) in
        (d, some_text, ground arith, same)
  ]
]

has_text-append :
    (d : String) (xs ys : List String) → has_text d (xs ++ ys) ≡ (has_text d xs || has_text d ys)
has_text-append d [] ys = refl
has_text-append d (x ∷ xs) ys = ground (arith, has_text-append d xs ys)

primary_domain-has :
    (d : String) (o : Option String)
    → d ≢ ""
    → o ≡ some d
    → has_text (lower (strip d)) (primary_domain o) ≡ true
primary_domain-has d o some_text e =
    let shown : str_eq d "" ≡ false = ground (arith, eq_iff d "") in
    rw (e, shown, (eq_iff (lower (strip d)) (lower (strip d))).1 refl) refl

primary_domain-from :
    (y : String) (o : Option String)
    → has_text y (primary_domain o) ≡ true
    → (d : String) × (d ≢ "") × (o ≡ some d) × (y ≡ lower (strip d))
primary_domain-from y none h = absurd cc
primary_domain-from y (some x) h = elim (Bool-cases (str_eq x "")) [
  | inl blank ↦ absurd (cc (rw blank at h))
  | inr shown ↦
      (x, ground (arith, eq_iff x ""), refl, (eq_iff y (lower (strip x))).0 (ground arith))
]

module _ (a : Application) where
  split :
      (y : String)
      → has_text y (domains_of a) ≡ (
          has_text y (primary_domain a.domain)
          || (has_text y (stored_domains a.extra_domains)
              || has_text y (stored_domains a.redirect_domains)))
  unfolding domains_of
  split y =
      has_text-append y (primary_domain a.domain)
        (stored_domains a.extra_domains ++ stored_domains a.redirect_domains)
      ∙ ap (λ b. has_text y (primary_domain a.domain) || b)
          (has_text-append y (stored_domains a.extra_domains) (stored_domains a.redirect_domains))

  pub domains_of-has :
      (d : String) → HasDomain a d → has_text (lower (strip d)) (domains_of a) ≡ true
  domains_of-has d (some_text, inl e) =
      split (lower (strip d)) ∙ ground (arith, primary_domain-has d a.domain some_text e)
  domains_of-has d (some_text, inr (inl e)) =
      split (lower (strip d)) ∙ ground (arith, stored_domains-has d a.extra_domains some_text e)
  domains_of-has d (some_text, inr (inr e)) =
      split (lower (strip d)) ∙ ground (arith, stored_domains-has d a.redirect_domains some_text e)

  pub domains_of-from :
      (y : String)
      → has_text y (domains_of a) ≡ true
      → (d : String) × HasDomain a d × (y ≡ lower (strip d))
  domains_of-from y h =
      let any_of = sym (split y) ∙ h in
      elim (Bool-cases (has_text y (primary_domain a.domain))) [
        | inl e ↦
            let (d, some_text, listed, same) = primary_domain-from y a.domain e in
            (d, (some_text, inl listed), same)
        | inr e ↦ elim (Bool-cases (has_text y (stored_domains a.extra_domains))) [
          | inl f ↦
              let (d, some_text, listed, same) = stored_domains-from y a.extra_domains f in
              (d, (some_text, inr (inl listed)), same)
          | inr f ↦
              let (d, some_text, listed, same) =
                stored_domains-from y a.redirect_domains (ground arith) in
              (d, (some_text, inr (inr listed)), same)
        ]
      ]
