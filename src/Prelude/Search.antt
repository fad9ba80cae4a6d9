-- ===== src/Prelude/Search.antt =====
-- The search for the lowest number of a range that is not taken, as the loops over ports make it.
use mathlib.Core.Path.{◌≡◌}
use mathlib.Core.Bool.{Bool, true, false}
use mathlib.Core.Logic.{inl, inr}
use mathlib.Core.Option.{Option, none, some}
use Prim.Native.Nat.{ℕ, zero, suc, ◌+◌, ◌≤◌, ◌<◌}
use native.Mathlib.Omega.{arith}
use cloudbase.Prelude.Tests.{◌==◌, ==_iff, if◌then◌else◌, Bool-cases}

-- The first of the `count` numbers from `low` on that is not taken.
unfoldable pub first_clear : (ℕ → Bool) → ℕ → ℕ → Option ℕ
first_clear taken zero low = none
first_clear taken (suc count) low =
    let rest = first_clear taken count (suc low) in if taken low then rest else some low

-- The number is in the range and the lowest one that is not taken; without one, all are taken.
abbrev pub Lowest : (ℕ → Bool) → ℕ → ℕ → Option ℕ → Type 0
Lowest taken count low none = (q : ℕ) → low ≤ q → q < low + count → taken q ≡ true
Lowest taken count low (some p) =
    (low ≤ p) × (p < low + count) × (taken p ≡ false) × ((q : ℕ) → low ≤ q → q < p → taken q ≡ true)

module _ (taken : ℕ → Bool) where
  from_low : (low q : ℕ) → taken low ≡ true → (low < q → taken q ≡ true) → low ≤ q → taken q ≡ true
  from_low low q here above le = elim (Bool-cases (low == q)) [
    | inl e ↦ rw (← (==_iff low q).0 e) here
    | inr e ↦ above (ground arith)
  ]

  widen :
      (count low : ℕ) (found : Option ℕ)
      → taken low ≡ true
      → Lowest taken count (suc low) found
      → Lowest taken (suc count) low found
  widen count low none here rest =
      λ q le lt. from_low low q here (λ above. rest q (omega arith) (omega arith)) le
  widen count low (some p) here (le, lt, clear, below) = (
    omega arith,
    omega arith,
    clear,
    λ q low_q q_p. from_low low q here (λ above. below q (omega arith) q_p) low_q,
  )

  pub first_clear-Lowest : (count low : ℕ) → Lowest taken count low (first_clear taken count low)
  unfolding first_clear
  first_clear-Lowest zero low = λ q le lt. absurd (omega arith)
  first_clear-Lowest (suc count) low = elim (Bool-cases (taken low)) [
    | inl e ↦
        rw e (
          widen count low (first_clear taken count (suc low)) e
            (first_clear-Lowest count (suc low)))
    | inr e ↦ rw e (omega arith, omega arith, e, λ q le lt. absurd (omega arith))
  ]
