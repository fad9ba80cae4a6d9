-- ===== src/Accounts/Roles/Sound.antt =====
-- What adding, changing and removing a row keeps of the table of roles.
use cloudbase.Prelude.{
  ℕ, ◌+◌, ◌≤◌, String, ◌≡◌, refl, ap, ◌⊎◌, inl, inr, Bool, true, false, not, ◌&&◌, Option, none,
  some, List, [], ◌∷◌, ◌++◌, arith, str_eq, eq_iff, ◌==◌, ==_iff, Bool-cases, All, select, find,
  any, update_where, count_where, find-holds, has_text,
}
use cloudbase.Prelude.Counts.{flag, count-find-none, count-update_one, count-remove_one}
use cloudbase.Prelude.Rows.{count_where-append}
use cloudbase.Accounts.{Role, User}
use cloudbase.Accounts.Roles.{is_builtin, has_role}

abbrev pub role_count : ℕ → List Role → ℕ
role_count k roles = count_where (λ r. r.id == k) roles

abbrev pub role_name_count : String → List Role → ℕ
role_name_count n roles = count_where (λ r. str_eq r.name n) roles

-- Ids and names are unique, and the built-in roles are there.
abbrev pub RolesSound : List Role → Type 0
RolesSound roles =
    ((k : ℕ) → role_count k roles ≤ 1)
    × ((n : String) → role_name_count n roles ≤ 1)
    × (role_name_count "Administrator" roles ≡ 1)
    × (role_name_count "Viewer" roles ≡ 1)

abbrev pub Assigned : List Role → Option ℕ → Type 0
Assigned roles none = Unit {0}
Assigned roles (some k) = 1 ≤ role_count k roles

-- Every role that a user has exists.
abbrev pub AllAssigned : List Role → List User → Type 0
AllAssigned roles users = All (λ u. Assigned roles u.role_id) users

-- What a change of a row may do to its name.
abbrev pub NameKept : ℕ → List Role → Role → Role → Type 0
NameKept k roles x y =
    (y.name ≡ x.name)
    ⊎ ((is_builtin x ≡ false) × (find (λ r. str_eq r.name y.name && not (r.id == k)) roles ≡ none))

count-select :
    {A : Type 0} (p q : A → Bool) (xs : List A)
    → count_where q (select p xs) ≡ count_where (λ x. q x && p x) xs
count-select p q [] = refl
count-select p q (x ∷ xs) = ground (arith, count-select p q xs)

module _ (k : ℕ) (x : Role) (roles : List Role) (found : find (λ r. r.id == k) roles ≡ some x)
    (sound : RolesSound roles) where
  -- A name that no other row has is only the row's own.
  own_name :
      (n : String)
      → find (λ r. str_eq r.name n && not (r.id == k)) roles ≡ none
      → role_name_count n roles ≡ flag (str_eq x.name n)
  own_name n free =
      let removed =
        count-remove_one (λ r. r.id == k) (λ r. str_eq r.name n) x roles found (sound.0 k) in
      let others = count-select (λ r. not (r.id == k)) (λ r. str_eq r.name n) roles in
      omega (arith, removed, others, count-find-none _ roles free)

  module _ (y : Role) (same_id : y.id ≡ x.id) where
    changed_names :
        (n : String)
        → role_name_count n (update_where (λ r. r.id == k) (λ r. y) roles) + flag (str_eq x.name n)
          ≡ role_name_count n roles + flag (str_eq y.name n)
    changed_names n =
        count-update_one (λ r. r.id == k) (λ r. str_eq r.name n) x y roles found (sound.0 k)

    pub put-role_count :
        (j : ℕ) → role_count j (update_where (λ r. r.id == k) (λ r. y) roles) ≡ role_count j roles
    put-role_count j = ground (
      arith,
      count-update_one (λ r. r.id == k) (λ r. r.id == j) x y roles found (sound.0 k),
      same_id,
    )

    names_of_put :
        NameKept k roles x y
        → (n : String) → role_name_count n (update_where (λ r. r.id == k) (λ r. y) roles) ≤ 1
    names_of_put (inl same) n =
        let as_before : flag (str_eq y.name n) ≡ flag (str_eq x.name n) =
          ap (λ m. flag (str_eq m n)) same in
        omega (arith, changed_names n, as_before, sound.1 n)
    names_of_put (inr (plain, free)) n = elim (Bool-cases (str_eq y.name n)) [
      | inl e ↦
          let is_n = (eq_iff y.name n).0 e in
          ground (arith, changed_names n, own_name n (rw is_n at free))
      | inr e ↦ ground (arith, changed_names n, sound.1 n)
    ]

    builtin_of_put :
        NameKept k roles x y
        → (n : String) → has_text n ("Administrator" ∷ "Viewer" ∷ []) ≡ true
        → role_name_count n roles ≡ 1
        → role_name_count n (update_where (λ r. r.id == k) (λ r. y) roles) ≡ 1
    builtin_of_put (inl same) n builtin one =
        let as_before : flag (str_eq y.name n) ≡ flag (str_eq x.name n) =
          ap (λ m. flag (str_eq m n)) same in
        omega (arith, changed_names n, as_before, one)
    builtin_of_put (inr (plain, free)) n builtin one =
        let other : str_eq x.name n ≡ false = elim (Bool-cases (str_eq x.name n)) [
          | inl e ↦ absurd (cc (rw ((eq_iff x.name n).0 e) at plain, builtin))
          | inr e ↦ e
        ] in
        elim (Bool-cases (str_eq y.name n)) [
          | inl e ↦
              let none_yet = own_name n (rw ((eq_iff y.name n).0 e) at free) in
              absurd (ground (arith, none_yet, other, one))
          | inr e ↦ ground (arith, changed_names n, other, one)
        ]

    pub put-RolesSound :
        NameKept k roles x y → RolesSound (update_where (λ r. r.id == k) (λ r. y) roles)
    put-RolesSound kept =
        let (ids, names, administrator, viewer) = sound in
        (
          λ j. rw (put-role_count j) (ids j),
          names_of_put kept,
          builtin_of_put kept "Administrator" refl administrator,
          builtin_of_put kept "Viewer" refl viewer,
        )

  pub remove-RolesSound : is_builtin x ≡ false → RolesSound (select (λ r. not (r.id == k)) roles)
  remove-RolesSound plain =
      let (ids, names, administrator, viewer) = sound in
      let removed =
        λ (q : Role → Bool). count-remove_one (λ r. r.id == k) q x roles found (ids k) in
      (
        λ j. omega (arith, removed (λ r. r.id == j), ids j),
        λ n. omega (arith, removed (λ r. str_eq r.name n), names n),
        ground (arith, removed (λ r. str_eq r.name "Administrator")),
        ground (arith, removed (λ r. str_eq r.name "Viewer")),
      )

  remove-Assigned :
      (role_id : Option ℕ)
      → has_role k role_id ≡ false
      → Assigned roles role_id
      → Assigned (select (λ r. not (r.id == k)) roles) role_id
  remove-Assigned none unused a = a
  remove-Assigned (some j) unused a =
      let own : x.id ≡ k = (==_iff x.id k).0 (find-holds (λ r. r.id == k) roles x found) in
      let other : (x.id == j) ≡ false = ground arith in
      let removed = count-remove_one (λ r. r.id == k) (λ r. r.id == j) x roles found (sound.0 k) in
      ground (arith, removed, other, a)

  pub remove-AllAssigned :
      (users : List User)
      → any (λ u. has_role k u.role_id) users ≡ false
      → AllAssigned roles users
      → AllAssigned (select (λ r. not (r.id == k)) roles) users
  remove-AllAssigned [] unused assigned = tt
  remove-AllAssigned (u ∷ users) unused (a, assigned) =
      (remove-Assigned u.role_id (ground arith) a, remove-AllAssigned users (ground arith) assigned)

append-one :
    (y : Role) (roles : List Role)
    → role_name_count y.name roles ≡ 0
    → (n : String) → role_name_count n roles ≡ 1
    → role_name_count n (roles ++ y ∷ []) ≡ 1
append-one y roles free n one = rw count_where-append (elim (Bool-cases (str_eq y.name n)) [
  | inl e ↦ absurd (omega (arith, rw ((eq_iff y.name n).0 e) at free, one))
  | inr e ↦ ground (arith, one)
])

pub append-RolesSound :
    (y : Role) (roles : List Role)
    → role_count y.id roles ≡ 0
    → role_name_count y.name roles ≡ 0
    → RolesSound roles
    → RolesSound (roles ++ y ∷ [])
append-RolesSound y roles fresh free (ids, names, administrator, viewer) = (
  λ k. rw count_where-append (elim (Bool-cases (y.id == k)) [
    | inl e ↦ ground (arith, rw ((==_iff y.id k).0 e) at fresh)
    | inr e ↦ ground (arith, ids k)
  ]),
  λ n. rw count_where-append (elim (Bool-cases (str_eq y.name n)) [
    | inl e ↦ ground (arith, rw ((eq_iff y.name n).0 e) at free)
    | inr e ↦ ground (arith, names n)
  ]),
  append-one y roles free "Administrator" administrator,
  append-one y roles free "Viewer" viewer,
)
