-- ===== src/Ping/Silence.antt =====
-- How long the client waits before it gives the connection up.
use yolanda.Outcome.{ok, fault, exited}
use yolanda.Ping.{
  Wakeup, client_round, client_start, Client, socket_ready, timed_out, input_ready, keep_alive_time,
  keep_alive_interval, select_failed, keep_alive_probetimes,
}
use yolanda.Memory.{Bytes}
use yolanda.Prelude.{◌+◌, ◌-◌, ◌*◌, ◌≤◌, ◌≡◌, refl, ℕ, arith, ◌↔◌, true, Option}

-- The time that a round takes, and whether it met data from the server.
unfoldable pub waited : Wakeup → ℕ → ℕ
waited select_failed tv = 0
waited (timed_out sends) tv = tv
waited (socket_ready n left) tv = tv - left
waited (input_ready left) tv = tv - left

-- A wakeup leaves at most the timeout that it was given.
abbrev pub IsTimely : Wakeup → ℕ → Type 0
IsTimely (socket_ready n left) tv = left ≤ tv
IsTimely (input_ready left) tv = left ≤ tv
IsTimely _ tv = Unit {0}

unfoldable pub silence : Wakeup → ℕ → ℕ → ℕ
silence (socket_ready n left) tv since = 0
silence e tv since = since + waited e tv

-- A run of the client, with the time since it started or since the last data.
pub data Running (junk : Bytes) : Client → ℕ → Type 0 where
  begins : Running junk (client_start junk) 0
  after :
      {c c' : Client} {since : ℕ} (e : Wakeup) (sent : Option Bytes)
      → Running junk c since
      → IsTimely e c.tv
      → client_round e c ≡ ok (sent, c')
      → Running junk c' (silence e c.tv since)

pub record OnTime (c : Client) (since : ℕ) : Type 0 where
  pub clock : since + c.tv ≡ keep_alive_time + keep_alive_interval * c.heartbeats
  pub probes : c.heartbeats ≤ keep_alive_probetimes

round-OnTime :
    (c c' : Client) (since : ℕ) (e : Wakeup) (sent : Option Bytes)
    → OnTime c since
    → IsTimely e c.tv
    → client_round e c ≡ ok (sent, c')
    → OnTime c' (silence e c.tv since)
unfolding client_round silence waited
round-OnTime c c' since select_failed sent v t h = cc
round-OnTime c c' since (timed_out sends) sent v t h = ground (arith, v.clock)
round-OnTime c c' since (socket_ready n left) sent v t h = ground (arith, v.clock)
round-OnTime c c' since (input_ready left) sent v t h = ground (arith, v.clock)

Running-OnTime : {junk : Bytes} {c : Client} {since : ℕ} → Running junk c since → OnTime c since
unfolding client_start
Running-OnTime begins = record { clock = refl; probes = omega arith }
Running-OnTime (after {c} {c'} {since} e sent r t h) =
    round-OnTime c c' since e sent (Running-OnTime r) t h

pub gives_up :
    {junk : Bytes} {c : Client} {since : ℕ}
    → Running junk c since
    → (client_round (timed_out true) c ≡ fault (exited 1)) ↔ (since + c.tv ≡ 19)
unfolding client_round
gives_up r = let v = Running-OnTime r in ground (arith, v.clock, v.probes)
