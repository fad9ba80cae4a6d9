-- ===== src/Tunnel/Ports.antt =====
-- Which port a new tunnel gets.
use cloudbase.Prelude.{
  ℕ, zero, suc, ◌+◌, ◌-◌, ◌≤◌, ◌<◌, ◌≡◌, ◌↔◌, inl, inr, true, false, Option, none, some, arith,
  ◌==◌, ==_iff, Bool-cases, Option-cases,
}
use cloudbase.Tunnel.{Tunnels, port_used, first_free, next_free_port}

-- What the loop finds in the `count` ports from `low` on.
abbrev pub FirstFree : Tunnels → ℕ → ℕ → Option ℕ → Type 0
FirstFree t count low none = (q : ℕ) → low ≤ q → q < low + count → port_used t q ≡ true
FirstFree t count low (some p) =
    (low ≤ p)
    × (p < low + count)
    × (port_used t p ≡ false)
    × ((q : ℕ) → low ≤ q → q < p → port_used t q ≡ true)

used_below :
    (t : Tunnels) (low q : ℕ)
    → port_used t low ≡ true
    → (low < q → port_used t q ≡ true)
    → low ≤ q
    → port_used t q ≡ true
used_below t low q here above le = elim (Bool-cases (low == q)) [
  | inl e ↦ rw (← (==_iff low q).0 e) here
  | inr e ↦ above (ground arith)
]

extend :
    (t : Tunnels) (count low : ℕ) (found : Option ℕ)
    → port_used t low ≡ true
    → FirstFree t count (suc low) found
    → FirstFree t (suc count) low found
extend t count low none here rest =
    λ q le lt. used_below t low q here (λ above. rest q (omega arith) (omega arith)) le
extend t count low (some p) here rest =
    let (le, lt, free, below) = rest in
    (
      omega arith,
      omega arith,
      free,
      λ q low_q q_p. used_below t low q here (λ above. below q (omega arith) q_p) low_q,
    )

pub first_free-FirstFree :
    (t : Tunnels) (count low : ℕ) → FirstFree t count low (first_free t count low)
unfolding first_free
first_free-FirstFree t zero low = λ q le lt. absurd (omega arith)
first_free-FirstFree t (suc count) low = elim (Bool-cases (port_used t low)) [
  | inl e ↦
      rw e (
        extend t count low (first_free t count (suc low)) e
          (first_free-FirstFree t count (suc low)))
  | inr e ↦ rw e (omega arith, omega arith, e, λ q le lt. absurd (omega arith))
]

-- A new tunnel gets the lowest port of the range that no tunnel uses; it gets none exactly when every
-- port of the range is used.
pub lowest_port :
    (port_min port_max : ℕ) (t : Tunnels)
    → ((p : ℕ)
        → next_free_port port_min port_max t ≡ some p
        → (port_min ≤ p)
          × (p ≤ port_max)
          × (port_used t p ≡ false)
          × ((q : ℕ) → port_min ≤ q → q < p → port_used t q ≡ true))
      × ((next_free_port port_min port_max t ≡ none)
          ↔ ((q : ℕ) → port_min ≤ q → q ≤ port_max → port_used t q ≡ true))
unfolding next_free_port
lowest_port port_min port_max t =
    let count = port_max + 1 - port_min in
    let found = first_free-FirstFree t count port_min in
    (
      λ p e. let (le, lt, free, below) = rw e at found in (le, omega (arith, le, lt), free, below),
      (
        λ e q le lt. (rw e at found) q le (omega arith),
        λ full. elim (Option-cases (first_free t count port_min)) [
          | inl e ↦ e
          | inr (p, e) ↦
              let (le, lt, free, below) = rw e at found in
              absurd (cc (free, full p le (omega (arith, le, lt))))
        ],
      ),
    )
