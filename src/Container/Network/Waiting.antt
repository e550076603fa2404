-- ===== src/Container/Network/Waiting.antt =====
-- container.go: the rounds of the wait for an address, against the clock.
use go_lxc.Base.{ℕ, zero, suc, ◌+◌, ◌*◌, ◌≤◌, ◌<◌, none, ◌≢◌, arith}
use go_lxc.Liblxc.{Liblxc}
use go_lxc.Container.{State}
use go_lxc.Container.Network.{wait_loop, wait_ip_addresses, slept, second_ns}

module _ (L : Liblxc) where
  open L use {World, host}

  -- A sleep takes at least as long as was asked for.
  abbrev pub SleepsLong : Type 0
  SleepsLong = (d : ℕ) (w : World) → host.now w + d ≤ host.now (host.sleep d w)

  wait_loop-ends :
      SleepsLong
      → (fuel since timeout : ℕ) (s : State L)
      → since + timeout ≤ host.now s.world + suc fuel * second_ns L
      → (wait_loop L (suc fuel) since timeout s).0 ≢ none
  unfolding wait_loop
  wait_loop-ends long zero since timeout s h = ground (arith, long (second_ns L) s.world)
  wait_loop-ends long (suc fuel) since timeout s h =
      ground (arith, long (second_ns L) s.world, wait_loop-ends long fuel since timeout (slept L s))

  -- `WaitIPAddresses` ends: as many rounds as the timeout has seconds, and one more, are enough,
  -- where a sleep takes at least as long as was asked for.
  pub wait_ip_addresses-ends :
      SleepsLong
      → (fuel timeout : ℕ) (s : State L) → timeout < suc fuel * second_ns L
      → (wait_ip_addresses L (suc fuel) timeout s).0 ≢ none
  unfolding wait_ip_addresses
  wait_ip_addresses-ends long fuel timeout s h =
      wait_loop-ends long fuel (host.now s.world) timeout s (omega arith)
