-- ===== src/Nodes/Local/One.antt =====
-- There is one row of the server's own host.
use cloudbase.Prelude.{
  ℕ, ◌≡◌, refl, ap, ◌∙◌, ◌≢◌, inl, inr, Bool, true, false, Option, none, some, List, [], ◌∷◌, ◌++◌,
  arith, str_eq, ◌==◌, Bool-cases, Option-cases, All, select, update_where,
}
use cloudbase.Prelude.Result.{ok, bind-ok}
use mathlib.Core.Path.{subst}
use cloudbase.Prelude.Rows.{select-holds, All-select, Distinct, select-append}
use cloudbase.Nodes.{Node, Store, scalar_one_or_none}
use cloudbase.Nodes.Local.{
  System, back_online, with_public_ip, needs_info, refreshed, next_node_id, new_local, place_local,
  ensure_local_node,
}

ok-eq : {A : Type 0} {a b : A} → ok a ≡ ok b → a ≡ b
ok-eq e = cc

only : (n : Node) → n.is_local ≡ true → select (λ m. m.is_local) (n ∷ []) ≡ n ∷ []
only n e = simp e refl

-- A row of this host that is online.
abbrev pub Ready : Node → Type 0
Ready n = (n.is_local ≡ true) × (n.status ≡ "online")

SameRow : Node → Node → Type 0
SameRow n n' = (n'.id ≡ n.id) × (n'.is_local ≡ n.is_local) × (n'.status ≡ n.status)

with_public_ip-SameRow : (system : System) (n : Node) → SameRow n (with_public_ip system n)
unfolding SameRow
with_public_ip-SameRow system n = elim (Option-cases system.public_ip) [
  | inl e ↦ rw e (refl, refl, refl)
  | inr (ip, e) ↦ elim (Bool-cases (str_eq ip "")) [
    | inl h ↦ rw (e, h) (refl, refl, refl)
    | inr h ↦ rw (e, h) (refl, refl, refl)
  ]
]

refreshed-SameRow :
    (last : ℕ) (system : System) (n : Node) → SameRow (back_online n) (refreshed last system n).0
unfolding refreshed SameRow
refreshed-SameRow last system n = elim (Bool-cases (needs_info last system n)) [
  | inl e ↦ rw e (with_public_ip-SameRow system (back_online n))
  | inr e ↦ rw e (refl, refl, refl)
]

absent-update :
    (k : ℕ) (y : Node) (ns : List Node)
    → All (λ m. m.id ≢ k) ns
    → update_where (λ m. m.id == k) (λ m. y) ns ≡ ns
absent-update k y [] h = refl
absent-update k y (n ∷ ns) (h, hs) =
    let other : (n.id == k) ≡ false = ground arith in
    rw other (ap (λ zs. n ∷ zs) (absent-update k y ns hs))

cons-eq : {A : Type 0} (x y : A) (xs ys : List A) → x ∷ xs ≡ y ∷ ys → (x ≡ y) × (xs ≡ ys)
cons-eq x y xs ys e = (cc, cc)

-- The one row that a condition finds is written anew.
one-update :
    (p : Node → Bool) (x y : Node) (ns : List Node)
    → Distinct (λ n. n.id) ns
    → select p ns ≡ x ∷ []
    → p y ≡ true
    → select p (update_where (λ m. m.id == x.id) (λ m. y) ns) ≡ y ∷ []
one-update p x y [] d e here = absurd (cc e)
one-update p x y (n ∷ ns) (d, ds) e here = elim (Bool-cases (p n)) [
  | inl h ↦
      let (same, rest) = cons-eq n x (select p ns) [] (rw h at e) in
      let mine : (n.id == x.id) ≡ true = ground (arith, ap (λ m. m.id) same) in
      let others = subst (λ k. All (λ m. m.id ≢ k) ns) (ap (λ m. m.id) same) d in
      rw (mine, here, absent-update x.id y ns others) (ap (λ zs. y ∷ zs) rest)
  | inr h ↦
      let later : select p ns ≡ x ∷ [] = rw h at e in
      let apart = subst (All (λ m. m.id ≢ n.id)) later (All-select (λ m. m.id ≢ n.id) p ns d) in
      let other : (n.id == x.id) ≡ false = ground (arith, apart.0) in
      rw (other, h) (one-update p x y ns ds later here)
]

some-single : (ns : List Node) (x : Node) → scalar_one_or_none ns ≡ ok (some x) → ns ≡ x ∷ []
some-single [] x e = absurd (cc e)
some-single (n ∷ []) x e = ap (λ m. m ∷ []) (cc e)
some-single (n ∷ m ∷ ns) x e = absurd (cc e)

none-empty : (ns : List Node) → scalar_one_or_none ns ≡ ok none → ns ≡ []
none-empty [] e = refl
none-empty (n ∷ []) e = absurd (cc e)
none-empty (n ∷ m ∷ ns) e = absurd (cc e)

-- What the host's row is once it was asked for.
abbrev pub OneLocal : Node × Store × ℕ → Type 0
OneLocal (n, s, last) = Ready n × (select (λ m. m.is_local) s.nodes ≡ n ∷ [])

place_local-OneLocal :
    (now last : ℕ) (system : System) (found : Option Node) (s : Store)
    → Distinct (λ n. n.id) s.nodes
    → scalar_one_or_none (select (λ n. n.is_local) s.nodes) ≡ ok found
    → OneLocal (place_local now last system found s)
unfolding place_local SameRow
place_local-OneLocal now last system (some n) s d e =
    let single = some-single (select (λ m. m.is_local) s.nodes) n e in
    let local =
      (subst (All (λ m. m.is_local ≡ true)) single (select-holds (λ m. m.is_local) s.nodes)).0 in
    let (same_id, same_local, same_status) = refreshed-SameRow last system n in
    let n' = (refreshed last system n).0 in
    (
      (same_local ∙ local, same_status),
      ap (λ k. select (λ m. m.is_local) (update_where (λ m. m.id == k) (λ m. n') s.nodes)) same_id
          ∙ one-update (λ m. m.is_local) n n' s.nodes d single (same_local ∙ local),
    )
place_local-OneLocal now last system none s d e =
    let n = new_local now (next_node_id s.nodes) in
    let n' = with_public_ip system n in
    let (same_id, same_local, same_status) = with_public_ip-SameRow system n in
    (
      (same_local, same_status),
      select-append (λ m. m.is_local) s.nodes (n' ∷ [])
          ∙ ap (λ zs. zs ++ select (λ m. m.is_local) (n' ∷ []))
              (none-empty (select (λ m. m.is_local) s.nodes) e)
          ∙ only n' same_local,
    )

-- Where node ids are distinct, a request for the row of the server's own host that returns leaves
-- exactly one row of this host: the one that it returns, which is online.
pub ensure_local_node-OneLocal :
    (now last : ℕ) (system : System) (s : Store) (end : Node × Store × ℕ)
    → Distinct (λ n. n.id) s.nodes
    → ensure_local_node now last system s ≡ ok end
    → OneLocal end
unfolding ensure_local_node
ensure_local_node-OneLocal now last system s end d e =
    let (found, looked, placed) =
      bind-ok (scalar_one_or_none (select (λ n. n.is_local) s.nodes))
        (λ found. ok (place_local now last system found s)) e in
    subst OneLocal (ok-eq placed) (place_local-OneLocal now last system found s d looked)
