-- ===== src/Tests/Stress.antt =====
-- The theorem on the example concurrent_stress, on the small library.
use go_lxc.Base.{true, false, some, codes, [], ◌≡◌, ◌≢◌, ◌⊎◌, ◌-◌, refl, arith, All, length, take}
use go_lxc.Global.{Made, new_container}
use go_lxc.Examples.Concurrent.{returned}
use go_lxc.Examples.Concurrent.Balance.{IsCounted}
use go_lxc.Examples.Stress.{
  Flags, creates, System, Reach, start, later, iterates, begins_mode, spawns, waits, opens, passes,
  counts, skips,
}
use go_lxc.Examples.Stress.Phases.{planned, current, rounds, given}
use go_lxc.Examples.Stress.Barrier.{stress-IsCounted}
use go_lxc.Tests.Sim.{sim, naturals, resting, empty_heap}

-- Containers are started and stopped, and there is one goroutine for each mode.
abbrev flags : Flags
flags = record {
  lxcpath = codes "/var/lib/lxc";
  iteration = 1;
  threads = 1;
  template = codes "busybox";
  quiet = true;
  startstop = true;
  createdestroy = false;
  cpus = 4;
}

abbrev Reached : Type 1
Reached = (s : System sim) × Reach sim naturals flags resting empty_heap s

abbrev made : Made sim
made = record { handle = some 1; verbosity = 1 }

unfoldable creating : Reached
unfolding new_container
creating = (
  _,
  later
      (later
        (later (later start refl (iterates 0 refl (omega arith))) refl
          (begins_mode 0 0 refl (omega arith)))
        refl (spawns 0 0 0 refl (omega arith)))
      refl (opens [] [] creates 0 made resting refl refl),
)

unfoldable starting : Reached
unfolding creating skips
starting = (
  _,
  later
      (later
        (later
          (later (later creating.1 refl (passes [] [] creates 0 made refl refl)) refl
            (counts [] [] creates 0 made refl))
          refl (waits 0 0 1 refl (omega arith) refl))
        refl (begins_mode 0 1 refl (omega arith)))
      refl (spawns 0 1 0 refl (omega arith)),
)

stress-IsCounted_example :
    (given starting.0.goroutines ≡ planned flags starting.0.position)
    × All IsCounted (
        take
          (length starting.0.goroutines - current flags starting.0.position)
          starting.0.goroutines)
    × ((starting.0.process ≢ returned)
        ⊎ ((given starting.0.goroutines ≡ rounds flags 1) × All IsCounted starting.0.goroutines))
unfolding starting creating
stress-IsCounted_example = stress-IsCounted sim naturals flags starting.1
