-- ===== src/Tunnel/Tests.antt =====
-- Tunnels on a range of three ports.
use cloudbase.Prelude.{
  ℕ, ◌≤◌, ◌<◌, ◌≡◌, refl, ◌≢◌, ◌↔◌, true, false, ◌&&◌, none, some, [], ◌∷◌, arith, ◌==◌, is_some,
}
use cloudbase.Tunnel.{
  close_of, dispatch_message, Entry, Tunnels, entry_of, port_used, next_free_port, close_tunnel,
  open_tunnel, register, get_tunnel_port, is_active_tunnel,
}
use cloudbase.Tunnel.Ports.{lowest_port}
use cloudbase.Tunnel.Sound.{
  TunnelsSound, TunnelSteps, done, step, closes, registers, tunnels_stay_sound,
}
use cloudbase.Tunnel.Opening.{open_replaces}
use cloudbase.Tunnel.Messages.{OnlyConn, dispatch_only}

abbrev two : Tunnels
two =
    record { replica_id = 1; local_port = 9100; ws = 11; conns = "c1" ∷ [] }
    ∷ record { replica_id = 2; local_port = 9102; ws = 12; conns = [] }
    ∷ []

next_port : next_free_port 9100 9102 two ≡ some 9101
unfolding next_free_port
next_port = refl

lowest_port_example :
    ((p : ℕ)
      → next_free_port 9100 9102 two ≡ some p
      → (9100 ≤ p)
        × (p ≤ 9102)
        × (port_used two p ≡ false)
        × ((q : ℕ) → 9100 ≤ q → q < p → port_used two q ≡ true))
    × ((next_free_port 9100 9102 two ≡ none)
        ↔ ((q : ℕ) → 9100 ≤ q → q ≤ 9102 → port_used two q ≡ true))
lowest_port_example = lowest_port 9100 9102 two

-- Two sockets of replica 1 register one after the other, then replica 2 and its end.
abbrev raced : Tunnels
raced =
    (register 9100 9102 2 12
      (register 9100 9102 1 13 (register 9100 9102 1 11 (close_tunnel 1 []).0).1).1).1

run : TunnelSteps 9100 9102 [] (close_tunnel 2 raced).0
run = step (closes 1 []) (
    step (registers 1 11 _)
      (step (registers 1 13 _) (step (registers 2 12 _) (step (closes 2 _) done))))

tunnels_stay_sound_example : TunnelsSound 9100 9102 (close_tunnel 2 raced).0
tunnels_stay_sound_example =
    tunnels_stay_sound 9100 9102 run ((λ k. omega arith), (λ p. omega arith), tt)

open_replaces_example :
    let result = open_tunnel 9100 9102 1 13 two in
    (get_tunnel_port 1 result.1 ≡ result.0)
    × ((w : ℕ) → is_active_tunnel 1 w result.1 ≡ (is_some result.0 && 13 == w))
    × ((k : ℕ) → 1 ≢ k → entry_of k result.1 ≡ entry_of k two)
open_replaces_example = open_replaces 9100 9102 1 13 two

dispatch_only_example :
    let t' = (dispatch_message 1 true (close_of "c1") two).0 in
    ((k : ℕ) → 1 ≢ k → entry_of k t' ≡ entry_of k two)
    × ((e : Entry)
        → entry_of 1 two ≡ some e
        → (e' : Entry) × (entry_of 1 t' ≡ some e') × OnlyConn (close_of "c1") e e')
dispatch_only_example = dispatch_only 1 true (close_of "c1") two
