-- ===== src/Prelude/Rows.antt =====
-- Laws of the queries on rows: what holds of every row, keys that are distinct, counts.
use Prim.Native.Nat.{ℕ, zero, suc, ◌+◌, ◌≤◌}
use mathlib.Core.Option.{none, some}
use mathlib.Core.Path.{ap, refl, ◌≡◌, sym}
use mathlib.Core.Logic.{◌≢◌, inl, inr}
use mathlib.Core.Bool.{Bool, true, false}
use mathlib.Core.List.{List, [], ◌∷◌, ◌++◌}
use native.Mathlib.Omega.{arith}
use cloudbase.Prelude.Tests.{leb, ◌==◌, ==_iff, Bool-cases}
use cloudbase.Prelude.Lists.{
  All, select, find, update_where, take, insert_by, order_by, length, count_where,
}

module _ {ℓ} {A : Type ℓ} (P : A → Type 0) where
  pub All-select : (p : A → Bool) (xs : List A) → All P xs → All P (select p xs)
  All-select p [] h = tt
  All-select p (x ∷ xs) (h, hs) = elim (Bool-cases (p x)) [
    | inl e ↦ rw e (h, All-select p xs hs)
    | inr e ↦ rw e (All-select p xs hs)
  ]

  pub All-take : (n : ℕ) (xs : List A) → All P xs → All P (take n xs)
  All-take zero xs h = tt
  All-take (suc n) [] h = tt
  All-take (suc n) (x ∷ xs) (h, hs) = (h, All-take n xs hs)

  pub All-insert_by :
      (key : A → ℕ) (a : A) (xs : List A) → P a → All P xs → All P (insert_by key a xs)
  unfolding insert_by
  All-insert_by key a [] h hs = (h, tt)
  All-insert_by key a (x ∷ xs) h (hx, hs) = elim (Bool-cases (leb (key a) (key x))) [
    | inl e ↦ rw e (h, (hx, hs))
    | inr e ↦ rw e (hx, All-insert_by key a xs h hs)
  ]

  pub All-order_by : (key : A → ℕ) (xs : List A) → All P xs → All P (order_by key xs)
  unfolding order_by
  All-order_by key [] h = tt
  All-order_by key (x ∷ xs) (h, hs) =
      All-insert_by key x (order_by key xs) h (All-order_by key xs hs)

module _ {ℓ} {A : Type ℓ} (P Q : A → Type 0) where
  pub All-map : (xs : List A) → ((x : A) → P x → Q x) → All P xs → All Q xs
  All-map [] f h = tt
  All-map (x ∷ xs) f (h, hs) = (f x h, All-map xs f hs)

module _ {ℓ} {A : Type ℓ} (id : A → ℕ) where
  -- A column without two equal values.
  abbrev pub Distinct : List A → Type 0
  Distinct [] = Unit
  Distinct (x ∷ xs) = All (λ y. id y ≢ id x) xs × Distinct xs

  pub Distinct-select : (p : A → Bool) (xs : List A) → Distinct xs → Distinct (select p xs)
  Distinct-select p [] h = tt
  Distinct-select p (x ∷ xs) (h, hs) = elim (Bool-cases (p x)) [
    | inl e ↦ rw e (All-select (λ y. id y ≢ id x) p xs h, Distinct-select p xs hs)
    | inr e ↦ rw e (Distinct-select p xs hs)
  ]

  pub Distinct-take : (n : ℕ) (xs : List A) → Distinct xs → Distinct (take n xs)
  Distinct-take zero xs h = tt
  Distinct-take (suc n) [] h = tt
  Distinct-take (suc n) (x ∷ xs) (h, hs) =
      (All-take (λ y. id y ≢ id x) n xs h, Distinct-take n xs hs)

  Distinct-insert_by :
      (key : A → ℕ) (a : A) (xs : List A)
      → All (λ y. id y ≢ id a) xs
      → Distinct xs
      → Distinct (insert_by key a xs)
  unfolding insert_by
  Distinct-insert_by key a [] h d = (tt, tt)
  Distinct-insert_by key a (x ∷ xs) (hx, hs) (dx, ds) = elim (Bool-cases (leb (key a) (key x))) [
    | inl e ↦ rw e ((hx, hs), (dx, ds))
    | inr e ↦ rw e (
      All-insert_by (λ y. id y ≢ id x) key a xs (λ same. hx (sym same)) dx,
      Distinct-insert_by key a xs hs ds,
    )
  ]

  pub Distinct-order_by : (key : A → ℕ) (xs : List A) → Distinct xs → Distinct (order_by key xs)
  unfolding order_by
  Distinct-order_by key [] h = tt
  Distinct-order_by key (x ∷ xs) (h, hs) =
      Distinct-insert_by key x (order_by key xs) (All-order_by (λ y. id y ≢ id x) key xs h)
        (Distinct-order_by key xs hs)

module _ {ℓ} {A : Type ℓ} (p : A → Bool) where
  pub length-update : (f : A → A) (xs : List A) → length (update_where p f xs) ≡ length xs
  length-update f [] = refl
  length-update f (x ∷ xs) = ap suc (length-update f xs)

  pub select-append : (xs ys : List A) → select p (xs ++ ys) ≡ select p xs ++ select p ys
  select-append [] ys = refl
  select-append (x ∷ xs) ys = elim (Bool-cases (p x)) [
    | inl e ↦ rw e (ap (λ zs. x ∷ zs) (select-append xs ys))
    | inr e ↦ rw e (select-append xs ys)
  ]

  pub count_where-append :
      (xs ys : List A) → count_where p (xs ++ ys) ≡ count_where p xs + count_where p ys
  count_where-append [] ys = omega arith
  count_where-append (x ∷ xs) ys = ground (arith, count_where-append xs ys)

  pub length-take-le : (n : ℕ) (xs : List A) → length (take n xs) ≤ n
  length-take-le zero xs = omega arith
  length-take-le (suc n) [] = omega arith
  length-take-le (suc n) (x ∷ xs) = omega (arith, length-take-le n xs)

module _ {ℓ} {A : Type ℓ} (p : A → Bool) where
  -- The rows that a query selects meet its condition.
  pub select-holds : (xs : List A) → All (λ x. p x ≡ true) (select p xs)
  select-holds [] = tt
  select-holds (x ∷ xs) = elim (Bool-cases (p x)) [
    | inl e ↦ rw e (e, select-holds xs)
    | inr e ↦ rw e (select-holds xs)
  ]

module _ {ℓ} {A : Type ℓ} (id : A → ℕ) (f : A → A) (keeps : (x : A) → id (f x) ≡ id x) where
  -- An update of the rows with one id, read at that id and at another.
  pub find-update_self :
      (j : ℕ) (xs : List A)
      → find (λ x. id x == j) (update_where (λ x. id x == j) f xs)
        ≡ elim (find (λ x. id x == j) xs) [ none ↦ none | some x ↦ some (f x) ]
  find-update_self j [] = refl
  find-update_self j (x ∷ xs) = elim (Bool-cases (id x == j)) [
    | inl e ↦ rw (e, keeps x, e)
    | inr e ↦ rw (e, e) (find-update_self j xs)
  ]

  pub find-update_ne :
      (j k : ℕ) (xs : List A)
      → j ≢ k
      → find (λ x. id x == k) (update_where (λ x. id x == j) f xs) ≡ find (λ x. id x == k) xs
  find-update_ne j k [] ne = refl
  find-update_ne j k (x ∷ xs) ne = elim (Bool-cases (id x == j)) [
    | inl e ↦
        let other : (id x == k) ≡ false = ground arith in
        rw (e, keeps x, other) (find-update_ne j k xs ne)
    | inr e ↦ rw e (ground (arith, find-update_ne j k xs ne))
  ]

module _ {ℓ} {A : Type ℓ} (P : A → Type 0) (p : A → Bool) (f : A → A) where
  pub All-update_where :
      (xs : List A) → ((x : A) → P x → P (f x)) → All P xs → All P (update_where p f xs)
  All-update_where [] keep h = tt
  All-update_where (x ∷ xs) keep (h, hs) = elim (Bool-cases (p x)) [
    | inl e ↦ rw e (keep x h, All-update_where xs keep hs)
    | inr e ↦ rw e (h, All-update_where xs keep hs)
  ]

-- One row is written anew; `id` is its unique column.
module _ {ℓ} {A : Type ℓ} (id : A → ℕ) where
  pub find-replace :
      (j : ℕ) (d e : A) (xs : List A)
      → id e ≡ j
      → find (λ x. id x == j) xs ≡ some d
      → find (λ x. id x == j) (update_where (λ x. id x == j) (λ x. e) xs) ≡ some e
  find-replace j d e [] same found = absurd (cc)
  find-replace j d e (x ∷ xs) same found = elim (Bool-cases (id x == j)) [
    | inl h ↦ rw (h, (==_iff (id e) j).1 same)
    | inr h ↦ rw (h, h) (find-replace j d e xs same (ground arith))
  ]

  pub find-replace_ne :
      (j k : ℕ) (e : A) (xs : List A)
      → id e ≡ j
      → j ≢ k
      → find (λ x. id x == k) (update_where (λ x. id x == j) (λ x. e) xs) ≡ find (λ x. id x == k) xs
  find-replace_ne j k e [] same ne = refl
  find-replace_ne j k e (x ∷ xs) same ne = elim (Bool-cases (id x == j)) [
    | inl h ↦
        let new : (id e == k) ≡ false = ground arith in
        let old : (id x == k) ≡ false = ground arith in
        rw (h, new, old) (find-replace_ne j k e xs same ne)
    | inr h ↦ rw h (ground (arith, find-replace_ne j k e xs same ne))
  ]
