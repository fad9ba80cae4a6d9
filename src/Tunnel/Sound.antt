-- ===== src/Tunnel/Sound.antt =====
-- What the table of tunnels keeps, in whatever order tunnels are opened and closed.
use cloudbase.Prelude.{
  ℕ, ◌≤◌, ◌≡◌, refl, inl, inr, Bool, false, not, [], ◌∷◌, ◌++◌, arith, ◌==◌, ==_iff, Bool-cases,
  Option-cases, All, count_where, find-holds,
}
use cloudbase.Prelude.Counts.{count-find-none, count-update_one, count-remove_one}
use cloudbase.Prelude.Rows.{All-select, All-update_where, count_where-append}
use cloudbase.Tunnel.{
  Entry, Tunnels, has_replica, entry_of, port_used, next_free_port, put_entry, fresh_entry,
  close_tunnel, register,
}
use cloudbase.Tunnel.Ports.{lowest_port}

abbrev pub at_port : ℕ → Entry → Bool
at_port port e = e.local_port == port

abbrev pub InRange : ℕ → ℕ → Entry → Type 0
InRange port_min port_max e = (port_min ≤ e.local_port) × (e.local_port ≤ port_max)

-- One tunnel for each replica, one for each port, and every port in the range.
abbrev pub TunnelsSound : ℕ → ℕ → Tunnels → Type 0
TunnelsSound port_min port_max t =
    ((k : ℕ) → count_where (has_replica k) t ≤ 1)
    × ((p : ℕ) → count_where (at_port p) t ≤ 1)
    × All (InRange port_min port_max) t

unused-count : (t : Tunnels) (p : ℕ) → port_used t p ≡ false → count_where (at_port p) t ≡ 0
unused-count [] p e = refl
unused-count (d ∷ t) p e = ground (arith, unused-count t p)

All-of_append : (P : Entry → Type 0) (t : Tunnels) (e : Entry) → All P t → P e → All P (t ++ e ∷ [])
All-of_append P [] e all_of h = (h, tt)
All-of_append P (d ∷ t) e (p, all_of) h = (p, All-of_append P t e all_of h)

module _ (port_min port_max : ℕ) where
  -- An entry that takes the place of its replica's, or is new, with its old port or a free one.
  put-TunnelsSound :
      (e : Entry) (t : Tunnels)
      → InRange port_min port_max e
      → count_where (at_port e.local_port) t ≡ 0
      → TunnelsSound port_min port_max t
      → TunnelsSound port_min port_max (put_entry e t)
  put-TunnelsSound e t range free (keys, ports, ranges) =
      elim (Option-cases (entry_of e.replica_id t)) [
        | inl none_yet ↦
            let absent = count-find-none (has_replica e.replica_id) t none_yet in
            rw (none_yet, put_entry)
              (
                λ k. rw count_where-append (elim (Bool-cases (e.replica_id == k)) [
                  | inl h ↦ ground (arith, rw ((==_iff e.replica_id k).0 h) at absent)
                  | inr h ↦ ground (arith, keys k)
                ]),
                λ p. rw count_where-append (elim (Bool-cases (e.local_port == p)) [
                  | inl h ↦ ground (arith, rw ((==_iff e.local_port p).0 h) at free)
                  | inr h ↦ ground (arith, ports p)
                ]),
                All-of_append (InRange port_min port_max) t e ranges range,
              )
        | inr (d, found) ↦
            let changed = λ (q : Entry → Bool).
              count-update_one (has_replica e.replica_id) q d e t found (keys e.replica_id) in
            let own : d.replica_id ≡ e.replica_id =
              (==_iff d.replica_id e.replica_id).0
                (find-holds (has_replica e.replica_id) t d found) in
            rw (found, put_entry)
              (
                λ k. ground (arith, changed (has_replica k), keys k, own),
                λ p. elim (Bool-cases (e.local_port == p)) [
                  | inl h ↦
                      ground (arith, changed (at_port p), rw ((==_iff e.local_port p).0 h) at free)
                  | inr h ↦ ground (arith, changed (at_port p), ports p)
                ],
                All-update_where (InRange port_min port_max) (has_replica e.replica_id) (λ d. e) t
                    (λ d h. range) ranges,
              )
      ]

  register-TunnelsSound :
      (replica_id ws : ℕ) (t : Tunnels)
      → TunnelsSound port_min port_max t
      → TunnelsSound port_min port_max (register port_min port_max replica_id ws t).1
  unfolding register
  register-TunnelsSound replica_id ws t sound =
      elim (Option-cases (next_free_port port_min port_max t)) [
        | inl e ↦ rw (e, register) sound
        | inr (p, e) ↦
            let (low, high, free, below) = (lowest_port port_min port_max t).0 p e in
            rw (e, register)
              (put-TunnelsSound (fresh_entry replica_id p ws) t (low, high) (unused-count t p free)
                sound)
      ]

  close-TunnelsSound :
      (replica_id : ℕ) (t : Tunnels)
      → TunnelsSound port_min port_max t
      → TunnelsSound port_min port_max (close_tunnel replica_id t).0
  unfolding close_tunnel
  close-TunnelsSound replica_id t (keys, ports, ranges) =
      elim (Option-cases (entry_of replica_id t)) [
        | inl e ↦ rw (e, close_tunnel) (keys, ports, ranges)
        | inr (d, found) ↦
            let removed = λ (q : Entry → Bool).
              count-remove_one (has_replica replica_id) q d t found (keys replica_id) in
            rw (found, close_tunnel)
              (
                λ k. omega (arith, removed (has_replica k), keys k),
                λ p. omega (arith, removed (at_port p), ports p),
                All-select (InRange port_min port_max) (λ d. not (has_replica replica_id d)) t
                    ranges,
              )
      ]

  -- The steps between which other coroutines may run. `open_tunnel` is a close and then a register.
  pub data TunnelStep : Tunnels → Tunnels → Type 0 where
    closes : (replica_id : ℕ) (t : Tunnels) → TunnelStep t (close_tunnel replica_id t).0
    registers :
        (replica_id ws : ℕ) (t : Tunnels)
        → TunnelStep t (register port_min port_max replica_id ws t).1

  pub data TunnelSteps : Tunnels → Tunnels → Type 0 where
    done : {t : Tunnels} → TunnelSteps t t
    step : {t t' t'' : Tunnels} → TunnelStep t t' → TunnelSteps t' t'' → TunnelSteps t t''

  step-TunnelsSound :
      {t t' : Tunnels}
      → TunnelStep t t'
      → TunnelsSound port_min port_max t
      → TunnelsSound port_min port_max t'
  step-TunnelsSound (closes replica_id t) sound = close-TunnelsSound replica_id t sound
  step-TunnelsSound (registers replica_id ws t) sound = register-TunnelsSound replica_id ws t sound

  -- In whatever order the closing and the registering of tunnels interleave, there is one tunnel at
  -- most for each replica and for each port, and every port is in the range.
  pub tunnels_stay_sound :
      {t t' : Tunnels}
      → TunnelSteps t t'
      → TunnelsSound port_min port_max t
      → TunnelsSound port_min port_max t'
  tunnels_stay_sound done sound = sound
  tunnels_stay_sound (step s steps) sound = tunnels_stay_sound steps (step-TunnelsSound s sound)
