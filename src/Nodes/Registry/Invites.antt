-- ===== src/Nodes/Registry/Invites.antt =====
-- An invite lets one node in.
use cloudbase.Prelude.{
  ℕ, suc, ◌≤◌, String, ◌≡◌, refl, inl, inr, Bool, Option, none, some, List, [], ◌∷◌, arith, str_eq,
  ltb, leb, Bool-cases, is_some, is_some-none, length, find, update_where, length-append,
}
use cloudbase.Prelude.Result.{ok, raise, raise_if, bind-ok, raise_if-ok}
use cloudbase.Nodes.{NodeInvite, Store, Effect}
use cloudbase.Nodes.Registry.{
  RegisterRequest, Drawn, invite_with, some_invite, use_invite, node_named, join_node, node_of,
  register_node,
}

some_invite-ok : (o : Option NodeInvite) (i : NodeInvite) → some_invite o ≡ ok i → o ≡ some i
some_invite-ok none i e = cc
some_invite-ok (some j) i e = ground arith

find-update_with :
    (p : NodeInvite → Bool) (f : NodeInvite → NodeInvite)
    → ((i : NodeInvite) → p (f i) ≡ p i)
    → (xs : List NodeInvite) (x : NodeInvite) → find p xs ≡ some x
    → find p (update_where p f xs) ≡ some (f x)
find-update_with p f keeps [] x found = absurd cc
find-update_with p f keeps (y ∷ xs) x found = elim (Bool-cases (p y)) [
  | inl e ↦ let same : y ≡ x = ground arith in rw (e, keeps y, e, same)
  | inr e ↦ rw (e, e) (find-update_with p f keeps xs x (ground arith))
]

used_invite :
    (max_nodes now : ℕ) (drawn : Drawn) (req : RegisterRequest) (s : Store) (i : NodeInvite) (t : ℕ)
    → invite_with req.invite_code s ≡ some i
    → i.used_at ≡ some t
    → register_node max_nodes now drawn req s ≡ raise 400
unfolding register_node
used_invite max_nodes now drawn req s i t found used = rw (found, used)

abbrev pub OpenInvite : ℕ → String → Store → Type 0
OpenInvite now code s =
    (i : NodeInvite) × (invite_with code s ≡ some i) × (i.used_at ≡ none) × (now ≤ i.expires_at)

-- A registration that succeeds shows an invite that was not used and has not expired, and uses it up:
-- from then on its code is refused, whatever else is sent and whatever the limit. One node is added,
-- within the limit.
pub invite_once :
    (max_nodes now : ℕ) (drawn : Drawn) (req : RegisterRequest) (s s' : Store)
    (effects : List Effect)
    → register_node max_nodes now drawn req s ≡ ok (s', effects)
    → OpenInvite now req.invite_code s
      × ((max_nodes' now' : ℕ) (drawn' : Drawn) (req' : RegisterRequest)
          → req'.invite_code ≡ req.invite_code
          → register_node max_nodes' now' drawn' req' s' ≡ raise 400)
      × (length s'.nodes ≡ suc (length s.nodes))
      × (length s'.nodes ≤ max_nodes)
unfolding register_node
invite_once max_nodes now drawn req s s' effects e =
    let code = req.invite_code in
    let (i, shown, e₁) = bind-ok (some_invite (invite_with code s)) _ e in
    let (u₁, open_still, e₂) = bind-ok (raise_if (is_some i.used_at) 400) _ e₁ in
    let (u₂, in_time, e₃) = bind-ok (raise_if (ltb i.expires_at now) 400) _ e₂ in
    let (u₃, free, e₄) = bind-ok (raise_if (is_some (node_named req.name s)) 400) _ e₃ in
    let (u₄, room, e₅) = bind-ok (raise_if (leb max_nodes (length s.nodes)) 400) _ e₄ in
    let same : join_node now drawn req i s ≡ s' = ground arith in
    let found = some_invite-ok (invite_with code s) i shown in
    let grown : length s'.nodes ≡ suc (length s.nodes) =
      rw (← same) (omega (arith, length-append s.nodes (node_of now drawn req ∷ []))) in
    let few = raise_if-ok (leb max_nodes (length s.nodes)) 400 room in
    (
      (
        i,
        found,
        is_some-none i.used_at (raise_if-ok _ 400 open_still),
        ground (arith, raise_if-ok (ltb i.expires_at now) 400 in_time),
      ),
      λ max_nodes' now' drawn' req' again.
          used_invite max_nodes' now' drawn' req' s' (use_invite now drawn.id i) now
            (rw (again, ← same)
              (find-update_with (λ j. str_eq j.code code) (use_invite now drawn.id) (λ j. refl)
                s.invites i found))
            refl,
      grown,
      ground (arith, grown, few),
    )
