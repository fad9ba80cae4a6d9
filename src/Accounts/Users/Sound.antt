-- ===== src/Accounts/Users/Sound.antt =====
-- What adding, changing and removing a row keeps of the table of users.
use cloudbase.Prelude.{
  ℕ, ◌≤◌, String, ◌≡◌, ◌⊎◌, inl, inr, Bool, false, not, none, some, List, [], ◌∷◌, ◌++◌, arith,
  str_eq, eq_iff, ◌==◌, ==_iff, Bool-cases, select, find, update_where, count_where,
}
use cloudbase.Prelude.Counts.{count-find-none, count-update_one, count-remove_one}
use cloudbase.Prelude.Rows.{count_where-append}
use cloudbase.Accounts.{User}
use cloudbase.Accounts.Users.{is_root}

abbrev pub id_count : ℕ → List User → ℕ
id_count k users = count_where (λ u. u.id == k) users

abbrev pub name_count : String → List User → ℕ
name_count n users = count_where (λ u. str_eq u.username n) users

-- Ids and names are unique, and the root account is there.
abbrev pub UsersSound : List User → Type 0
UsersSound users =
    ((k : ℕ) → id_count k users ≤ 1)
    × ((n : String) → name_count n users ≤ 1)
    × (name_count "admin" users ≡ 1)

-- What a change of a row may do to its name.
abbrev pub NameKept : List User → User → User → Type 0
NameKept users x y =
    (y.username ≡ x.username)
    ⊎ ((is_root x ≡ false) × (find (λ u. str_eq u.username y.username) users ≡ none))

module _ (k : ℕ) (x y : User) (users : List User) (found : find (λ u. u.id == k) users ≡ some x)
    (sound : UsersSound users) where
  pub put-UsersSound :
      y.id ≡ x.id → NameKept users x y → UsersSound (update_where (λ u. u.id == k) (λ u. y) users)
  put-UsersSound same_id kept =
      let (ids, names, root) = sound in
      let changed =
        λ (q : User → Bool). count-update_one (λ u. u.id == k) q x y users found (ids k) in
      elim kept [
        | inl same ↦ (
          λ j. ground (arith, changed (λ u. u.id == j), ids j, same_id),
          λ n. ground (arith, rw same at (changed (λ u. str_eq u.username n)), names n),
          ground (arith, rw same at (changed (λ u. str_eq u.username "admin"))),
        )
        | inr (plain, free) ↦ (
          λ j. ground (arith, changed (λ u. u.id == j), ids j, same_id),
          λ n. elim (Bool-cases (str_eq y.username n)) [
            | inl is_n ↦
                let none_yet : name_count n users ≡ 0 =
                  rw (← (eq_iff y.username n).0 is_n) (count-find-none _ users free) in
                ground (arith, changed (λ u. str_eq u.username n), none_yet)
            | inr other ↦ ground (arith, changed (λ u. str_eq u.username n), names n)
          ],
          elim (Bool-cases (str_eq y.username "admin")) [
            | inl is_admin ↦
                let none_yet : name_count "admin" users ≡ 0 =
                  rw (← (eq_iff y.username "admin").0 is_admin) (count-find-none _ users free) in
                absurd (omega (arith, none_yet, root))
            | inr other ↦ ground (arith, changed (λ u. str_eq u.username "admin"))
          ],
        )
      ]

  pub remove-UsersSound : is_root x ≡ false → UsersSound (select (λ u. not (u.id == k)) users)
  remove-UsersSound plain =
      let (ids, names, root) = sound in
      let removed =
        λ (q : User → Bool). count-remove_one (λ u. u.id == k) q x users found (ids k) in
      (
        λ j. omega (arith, removed (λ u. u.id == j), ids j),
        λ n. omega (arith, removed (λ u. str_eq u.username n), names n),
        ground (arith, removed (λ u. str_eq u.username "admin")),
      )

pub append-UsersSound :
    (y : User) (users : List User)
    → id_count y.id users ≡ 0
    → name_count y.username users ≡ 0
    → UsersSound users
    → UsersSound (users ++ y ∷ [])
append-UsersSound y users fresh free (ids, names, root) = (
  λ k. rw count_where-append (elim (Bool-cases (y.id == k)) [
    | inl e ↦ ground (arith, rw ((==_iff y.id k).0 e) at fresh)
    | inr e ↦ ground (arith, ids k)
  ]),
  λ n. rw count_where-append (elim (Bool-cases (str_eq y.username n)) [
    | inl e ↦ ground (arith, rw ((eq_iff y.username n).0 e) at free)
    | inr e ↦ ground (arith, names n)
  ]),
  rw count_where-append (elim (Bool-cases (str_eq y.username "admin")) [
    | inl e ↦ absurd (omega (arith, rw ((eq_iff y.username "admin").0 e) at free, root))
    | inr e ↦ ground (arith, root)
  ]),
)
