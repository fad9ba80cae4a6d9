-- ===== src/Prelude/Counts.antt =====
-- How many rows of a table meet a condition, after one row was changed or removed.
use Prim.Native.Nat.{ℕ, ◌+◌, ◌≤◌}
use mathlib.Core.Bool.{Bool, true, false, not}
use mathlib.Core.Path.{◌≡◌, refl, ap}
use mathlib.Core.Option.{none, some}
use mathlib.Core.List.{List, [], ◌∷◌}
use mathlib.Core.Logic.{inl, inr}
use native.Mathlib.Omega.{arith}
use cloudbase.Prelude.Tests.{Bool-cases}
use cloudbase.Prelude.Lists.{select, find, update_where, count_where}

abbrev pub flag : Bool → ℕ
flag true = 1
flag false = 0

module _ {ℓ} {A : Type ℓ} (p : A → Bool) where
  pub count-find-none : (xs : List A) → find p xs ≡ none → count_where p xs ≡ 0
  count-find-none [] e = refl
  count-find-none (x ∷ xs) e = ground (arith, count-find-none xs)

  pub count-find-some : (xs : List A) (x : A) → find p xs ≡ some x → 1 ≤ count_where p xs
  count-find-some [] x e = absurd (cc)
  count-find-some (y ∷ xs) x e = ground (arith, count-find-some xs x)

  pub update_absent : (f : A → A) (xs : List A) → count_where p xs ≡ 0 → update_where p f xs ≡ xs
  update_absent f [] e = refl
  update_absent f (x ∷ xs) e = elim (Bool-cases (p x)) [
    | inl h ↦ absurd (ground arith)
    | inr h ↦ rw h (ap (λ zs. x ∷ zs) (update_absent f xs (ground arith)))
  ]

  pub remove_absent : (xs : List A) → count_where p xs ≡ 0 → select (λ x. not (p x)) xs ≡ xs
  remove_absent [] e = refl
  remove_absent (x ∷ xs) e = elim (Bool-cases (p x)) [
    | inl h ↦ absurd (ground arith)
    | inr h ↦ rw h (ap (λ zs. x ∷ zs) (remove_absent xs (ground arith)))
  ]

module _ {ℓ} {A : Type ℓ} (p q : A → Bool) where
  -- One row is changed: a count loses it and gains what it has become.
  pub count-update_one :
      (x y : A) (xs : List A)
      → find p xs ≡ some x
      → count_where p xs ≤ 1
      → count_where q (update_where p (λ a. y) xs) + flag (q x) ≡ count_where q xs + flag (q y)
  count-update_one x y [] found one = absurd (cc)
  count-update_one x y (z ∷ xs) found one = elim (Bool-cases (p z)) [
    | inl h ↦
        let same : z ≡ x = ground arith in
        rw (h, update_absent p (λ a. y) xs (ground arith), same) (ground arith)
    | inr h ↦
        let rest = count-update_one x y xs (ground arith) (ground arith) in
        rw h (ground (arith, rest))
  ]

  pub count-remove_one :
      (x : A) (xs : List A)
      → find p xs ≡ some x
      → count_where p xs ≤ 1
      → count_where q (select (λ a. not (p a)) xs) + flag (q x) ≡ count_where q xs
  count-remove_one x [] found one = absurd (cc)
  count-remove_one x (z ∷ xs) found one = elim (Bool-cases (p z)) [
    | inl h ↦
        let same : z ≡ x = ground arith in
        rw (h, remove_absent p xs (ground arith), same) (ground arith)
    | inr h ↦
        let rest = count-remove_one x xs (ground arith) (ground arith) in
        rw h (ground (arith, rest))
  ]

  -- The row that another query found is the one row that meets a condition.
  pub find_unique :
      (x : A) (xs : List A)
      → find q xs ≡ some x
      → p x ≡ true
      → count_where p xs ≤ 1
      → find p xs ≡ some x
  find_unique x [] found holds one = absurd (cc)
  find_unique x (z ∷ xs) found holds one = elim (Bool-cases (q z)) [
    | inl h ↦ let same : z ≡ x = ground arith in rw (same, holds)
    | inr h ↦
        let later : find q xs ≡ some x = ground arith in
        elim (Bool-cases (p z)) [
          | inl e ↦
              let rest = find_unique x xs later holds (ground arith) in
              absurd (ground (arith, count-find-some p xs x rest))
          | inr e ↦ rw e (find_unique x xs later holds (ground arith))
        ]
  ]
