-- ===== src/Config/Ranges.antt =====
-- When the ranges of ports and the limits go together.
use cloudbase.Prelude.{
  ℕ, suc, ◌+◌, ◌≤◌, max, ◌≡◌, refl, ◌↔◌, inl, inr, Bool, true, false, ◌&&◌, ◌||◌, List, [], ◌∷◌,
  ◌++◌, arith, leb, if◌then◌else◌, Bool-cases,
}
use cloudbase.Config.{
  Numbers, Warning, few_instance_ports, few_app_ports, few_tunnel_ports, ranges_overlap,
  server_port_inside, warn, short, within, validate,
}

-- There are ports for all instances, all applications and all tunnels; no port is in both ranges, and
-- that of the server is in none.
abbrev pub Sound : Numbers → Type 0
Sound n =
    (n.instance_min + n.max_instances ≤ suc n.instance_max)
    × (n.instance_min + n.max_apps ≤ suc n.instance_max)
    × (n.tunnel_min + n.max_instances ≤ suc n.tunnel_max)
    × ((p : ℕ)
        → within n.instance_min n.instance_max p ≡ true
        → within n.tunnel_min n.tunnel_max p ≡ false)
    × (within n.instance_min n.instance_max n.server_port ≡ false)
    × (within n.tunnel_min n.tunnel_max n.server_port ≡ false)

append-nil-left : {A : Type 0} (xs ys : List A) → xs ++ ys ≡ [] → (xs ≡ []) × (ys ≡ [])
append-nil-left [] ys e = (refl, e)
append-nil-left (x ∷ xs) ys e = absurd (cc e)

warn-quiet : (test : Bool) (w : Warning) → warn test w ≡ [] → test ≡ false
warn-quiet false w e = refl
warn-quiet true w e = absurd (cc e)

module _ (n : Numbers) where
  abbrev overlap : Bool
  overlap = leb n.instance_min n.tunnel_max && leb n.tunnel_min n.instance_max

  abbrev inside : Bool
  inside =
      within n.instance_min n.instance_max n.server_port
      || within n.tunnel_min n.tunnel_max n.server_port

  abbrev enough : List Warning
  enough =
      if short n.instance_min n.instance_max n.max_instances
      then few_instance_ports ∷ []
      else warn (short n.instance_min n.instance_max n.max_apps) few_app_ports

  enough-quiet :
      enough ≡ []
      → (short n.instance_min n.instance_max n.max_instances ≡ false)
        × (short n.instance_min n.instance_max n.max_apps ≡ false)
  enough-quiet e = elim (Bool-cases (short n.instance_min n.instance_max n.max_instances)) [
    | inl h ↦ absurd (cc (rw h at e))
    | inr h ↦
        (h, warn-quiet (short n.instance_min n.instance_max n.max_apps) few_app_ports (rw h at e))
  ]

  -- Ranges that overlap share the larger of their first ports.
  apart-overlap :
      n.instance_min ≤ n.instance_max
      → n.tunnel_min ≤ n.tunnel_max
      → ((p : ℕ)
          → within n.instance_min n.instance_max p ≡ true
          → within n.tunnel_min n.tunnel_max p ≡ false)
      → overlap ≡ false
  apart-overlap instances tunnels apart = elim (Bool-cases overlap) [
    | inl e ↦
        let p = max n.instance_min n.tunnel_min in
        let one : within n.instance_min n.instance_max p ≡ true = ground arith in
        let two : within n.tunnel_min n.tunnel_max p ≡ true = ground arith in
        absurd (cc (apart p one, two))
    | inr e ↦ e
  ]

  quiet-Sound : validate n ≡ [] → Sound n
  unfolding validate
  quiet-Sound e =
      let (first, rest) = append-nil-left enough _ e in
      let (few, apps) = enough-quiet first in
      let (second, rest') =
        append-nil-left (warn (short n.tunnel_min n.tunnel_max n.max_instances) few_tunnel_ports) _
          rest in
      let tunnels =
        warn-quiet (short n.tunnel_min n.tunnel_max n.max_instances) few_tunnel_ports second in
      let (third, fourth) = append-nil-left (warn overlap ranges_overlap) _ rest' in
      let apart = warn-quiet overlap ranges_overlap third in
      let out = warn-quiet inside server_port_inside fourth in
      (ground arith, ground arith, ground arith, λ p one. ground arith, ground arith, ground arith)

-- Where no range is empty, no problem is reported exactly when the settings are sound.
pub validate-Sound :
    (n : Numbers)
    → n.instance_min ≤ n.instance_max
    → n.tunnel_min ≤ n.tunnel_max
    → (validate n ≡ []) ↔ Sound n
unfolding validate
validate-Sound n instances tunnels = (
  quiet-Sound n,
  λ (few, apps, tuns, apart, one, two).
      let a : short n.instance_min n.instance_max n.max_instances ≡ false = ground arith in
      let b : short n.instance_min n.instance_max n.max_apps ≡ false = ground arith in
      let c : short n.tunnel_min n.tunnel_max n.max_instances ≡ false = ground arith in
      let d = apart-overlap n instances tunnels apart in rw (validate, a, b, c, d, one, two) refl,
)
