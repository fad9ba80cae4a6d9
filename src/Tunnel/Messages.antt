-- ===== src/Tunnel/Messages.antt =====
-- What a message of an agent changes, and what it leaves alone.
use cloudbase.Prelude.{
  ℕ, String, ◌≡◌, refl, sym, ap, ◌∙◌, ◌≢◌, inl, inr, Bool, true, false, not, ◌||◌, some, List, [],
  ◌∷◌, str_eq, eq_iff, ==_iff, Bool-cases, Option-cases, some-eq, select, update_where, find-holds,
  has_text,
}
use cloudbase.Prelude.Rows.{find-replace, find-replace_ne}
use cloudbase.Tunnel.{
  Entry, Tunnels, Message, data_of, close_of, other_of, conn_of, has_replica, entry_of, put_entry,
  dispatch_message, dispatch_entry, deliver, drop_conn,
}

put-existing :
    (j : ℕ) (d e : Entry) (t : Tunnels)
    → e.replica_id ≡ j
    → entry_of j t ≡ some d
    → put_entry e t ≡ update_where (has_replica j) (λ c. e) t
put-existing j d e t same found =
    let found' : entry_of e.replica_id t ≡ some d = rw same found in
    rw (found', put_entry) (ap (λ i. update_where (has_replica i) (λ c. e) t) same)

-- What a message may change of its tunnel's entry.
abbrev pub OnlyConn : Message → Entry → Entry → Type 0
OnlyConn m e e' =
    (e'.replica_id ≡ e.replica_id)
    × (e'.local_port ≡ e.local_port)
    × (e'.ws ≡ e.ws)
    × ((c : String) → conn_of m ≢ c → has_text c e'.conns ≡ has_text c e.conns)

has_text_of_select :
    (c d : String) (cs : List String)
    → d ≢ c
    → has_text c (select (λ b. not (str_eq b d)) cs) ≡ has_text c cs
has_text_of_select c d [] ne = refl
has_text_of_select c d (b ∷ cs) ne = elim (Bool-cases (str_eq b d)) [
  | inl e ↦
      let b_is_d = (eq_iff b d).0 e in
      let other : str_eq c b ≡ false = elim (Bool-cases (str_eq c b)) [
        | inl h ↦ absurd (ne (sym ((eq_iff c b).0 h ∙ b_is_d)))
        | inr h ↦ h
      ] in
      rw (e, other) (has_text_of_select c d cs ne)
  | inr e ↦ rw e (ap (λ rest. str_eq c b || rest) (has_text_of_select c d cs ne))
]

kept : (m : Message) (e : Entry) → OnlyConn m e e
kept m e = (refl, refl, refl, λ c ne. refl)

dropped : (m : Message) (e : Entry) → OnlyConn m e (drop_conn (conn_of m) e)
dropped m e = (refl, refl, refl, λ c ne. has_text_of_select c (conn_of m) e.conns ne)

deliver-OnlyConn : (written : Bool) (m : Message) (e : Entry) → OnlyConn m e (deliver written m e).0
unfolding deliver
deliver-OnlyConn true (data_of c bytes) e = elim (Bool-cases (has_text c e.conns)) [
  | inl h ↦ rw h (kept (data_of c bytes) e)
  | inr h ↦ rw h (kept (data_of c bytes) e)
]
deliver-OnlyConn false (data_of c bytes) e = elim (Bool-cases (has_text c e.conns)) [
  | inl h ↦ rw h (dropped (data_of c bytes) e)
  | inr h ↦ rw h (kept (data_of c bytes) e)
]
deliver-OnlyConn written (close_of c) e = elim (Bool-cases (has_text c e.conns)) [
  | inl h ↦ rw h (dropped (close_of c) e)
  | inr h ↦ rw h (kept (close_of c) e)
]
deliver-OnlyConn written (other_of c) e = kept (other_of c) e

dispatch_entry-OnlyConn :
    (written : Bool) (m : Message) (e : Entry) → OnlyConn m e (dispatch_entry written m e).0
unfolding dispatch_entry
dispatch_entry-OnlyConn written m e = elim (Bool-cases (str_eq (conn_of m) "")) [
  | inl h ↦ rw h (kept m e)
  | inr h ↦ rw h (deliver-OnlyConn written m e)
]

-- A message of an agent changes nothing of the tunnels of other replicas. Its own tunnel keeps its port
-- and its socket, and every connection but the one that the message names stays open or closed as it
-- was.
pub dispatch_only :
    (replica_id : ℕ) (written : Bool) (m : Message) (t : Tunnels)
    → let t' = (dispatch_message replica_id written m t).0 in
      ((k : ℕ) → replica_id ≢ k → entry_of k t' ≡ entry_of k t)
      × ((e : Entry)
          → entry_of replica_id t ≡ some e
          → (e' : Entry) × (entry_of replica_id t' ≡ some e') × OnlyConn m e e')
unfolding dispatch_message
dispatch_only replica_id written m t = elim (Option-cases (entry_of replica_id t)) [
  | inl none_yet ↦ rw (none_yet, dispatch_message) (λ k ne. refl, λ e found. absurd cc)
  | inr (d, found) ↦
      let d' = (dispatch_entry written m d).0 in
      let only = dispatch_entry-OnlyConn written m d in
      let own : d.replica_id ≡ replica_id =
        (==_iff d.replica_id replica_id).0 (find-holds (has_replica replica_id) t d found) in
      let own' : d'.replica_id ≡ replica_id = only.0 ∙ own in
      rw (found, dispatch_message, put-existing replica_id d d' t own' found)
        (
          λ k ne. find-replace_ne (λ c. c.replica_id) replica_id k d' t own' ne,
          λ e found_e. (
            d',
            find-replace (λ c. c.replica_id) replica_id d d' t own' found,
            rw (← some-eq found_e) only,
          ),
        )
]
