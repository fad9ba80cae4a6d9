-- ===== src/Tunnel/Opening.antt =====
-- What opening a tunnel changes, and what it leaves alone.
use cloudbase.Prelude.{
  ℕ, ◌≡◌, refl, ◌∙◌, ◌≢◌, inl, inr, Bool, false, not, ◌&&◌, none, some, [], ◌∷◌, ◌++◌, arith, ◌==◌,
  ==_iff, if◌then◌else◌, Bool-cases, Option-cases, is_some, select, find,
}
use cloudbase.Tunnel.{
  Entry, Tunnels, has_replica, entry_of, next_free_port, put_entry, fresh_entry, close_tunnel,
  register, open_tunnel, get_tunnel_port, is_active_tunnel,
}

find-append :
    (p : Entry → Bool) (t : Tunnels) (e : Entry)
    → find p t ≡ none
    → find p (t ++ e ∷ []) ≡ (if p e then some e else none)
find-append p [] e absent = refl
find-append p (d ∷ t) e absent = ground (arith, find-append p t e)

find-append_ne :
    (p : Entry → Bool) (t : Tunnels) (e : Entry) → p e ≡ false → find p (t ++ e ∷ []) ≡ find p t
find-append_ne p [] e other = rw other refl
find-append_ne p (d ∷ t) e other = ground (arith, find-append_ne p t e other)

find-remove_self : (p : Entry → Bool) (t : Tunnels) → find p (select (λ d. not (p d)) t) ≡ none
find-remove_self p [] = refl
find-remove_self p (d ∷ t) = elim (Bool-cases (p d)) [
  | inl e ↦ rw e (find-remove_self p t)
  | inr e ↦ rw (e, e) (find-remove_self p t)
]

find-remove_ne :
    (j k : ℕ) (t : Tunnels)
    → j ≢ k
    → find (has_replica k) (select (λ d. not (has_replica j d)) t) ≡ find (has_replica k) t
find-remove_ne j k [] ne = refl
find-remove_ne j k (d ∷ t) ne = elim (Bool-cases (d.replica_id == j)) [
  | inl e ↦
      let other : (d.replica_id == k) ≡ false = ground arith in
      rw (e, other) (find-remove_ne j k t ne)
  | inr e ↦ rw e (ground (arith, find-remove_ne j k t ne))
]

close-entry_of :
    (j : ℕ) (t : Tunnels)
    → (entry_of j (close_tunnel j t).0 ≡ none)
      × ((k : ℕ) → j ≢ k → entry_of k (close_tunnel j t).0 ≡ entry_of k t)
unfolding close_tunnel
close-entry_of j t = elim (Option-cases (entry_of j t)) [
  | inl e ↦ rw (e, close_tunnel) (e, λ k ne. refl)
  | inr (d, e) ↦
      rw (e, close_tunnel) (find-remove_self (has_replica j) t, λ k ne. find-remove_ne j k t ne)
]

put-entry_of :
    (e : Entry) (t : Tunnels)
    → entry_of e.replica_id t ≡ none
    → (entry_of e.replica_id (put_entry e t) ≡ some e)
      × ((k : ℕ) → e.replica_id ≢ k → entry_of k (put_entry e t) ≡ entry_of k t)
put-entry_of e t absent =
    rw (absent, put_entry)
      (
        rw (
          find-append (has_replica e.replica_id) t e absent,
          (==_iff e.replica_id e.replica_id).1 refl,
        ),
        λ k ne. find-append_ne (has_replica k) t e (ground arith),
      )

-- After a tunnel was opened it listens on the port that was returned, its socket is the one active
-- socket of its replica, and the replica has no tunnel if no port was returned. The tunnels of other
-- replicas are as they were.
pub open_replaces :
    (port_min port_max replica_id ws : ℕ) (t : Tunnels)
    → let result = open_tunnel port_min port_max replica_id ws t in
      (get_tunnel_port replica_id result.1 ≡ result.0)
      × ((w : ℕ) → is_active_tunnel replica_id w result.1 ≡ (is_some result.0 && ws == w))
      × ((k : ℕ) → replica_id ≢ k → entry_of k result.1 ≡ entry_of k t)
unfolding open_tunnel register
open_replaces port_min port_max replica_id ws t =
    let t' = (close_tunnel replica_id t).0 in
    let (gone, kept) = close-entry_of replica_id t in
    elim (Option-cases (next_free_port port_min port_max t')) [
      | inl e ↦
          rw (e, register)
            (rw (gone, get_tunnel_port) refl, λ w. rw (gone, is_active_tunnel) refl, kept)
      | inr (p, e) ↦
          let (put, others) = put-entry_of (fresh_entry replica_id p ws) t' gone in
          rw (e, register)
            (
              rw (put, get_tunnel_port) refl,
              λ w. rw (put, is_active_tunnel) refl,
              λ k ne. others k ne ∙ kept k ne,
            )
    ]
