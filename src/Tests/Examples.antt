-- ===== src/Tests/Examples.antt =====
-- The theorems on the example programs, on the small library.
use go_lxc.Base.{some, Text, codes, [], ◌≡◌, refl, arith, All, length, true}
use go_lxc.Container.Operations.{run}
use go_lxc.Examples.Exit.{destroy, request_of, opened, Ends, main_of, main_of-Ends}
use go_lxc.Examples.Looking.{stats, OnlyReleased, look_main, look_main-OnlyReleased}
use go_lxc.Container.{make_sure}
use go_lxc.Container.Lifecycle
use go_lxc.Global.{new_container}
use go_lxc.Examples.Concurrent.{
  starts, System, Reach, start, later, spawns, opens, prints, works_well, counts, returns, works,
}
use go_lxc.Examples.Concurrent.Balance.{IsCounted}
use go_lxc.Examples.Concurrent.Waiting.{returned-IsCounted}
use go_lxc.Tests.Sim.{sim, naturals, resting, empty_heap}

main_of-Ends_example :
    Ends sim naturals 1
      (run sim naturals
        (request_of sim naturals destroy)
        (opened sim naturals 1 resting empty_heap)).0
      (main_of sim naturals destroy (codes "rubik") (codes "/var/lib/lxc") resting empty_heap)
main_of-Ends_example =
    main_of-Ends sim naturals destroy (codes "rubik") (codes "/var/lib/lxc") resting empty_heap 1
      resting refl (λ v e. cc)

look_main-OnlyReleased_example :
    OnlyReleased sim naturals
      (opened sim naturals 1 resting empty_heap)
      (look_main sim naturals stats
        (codes "rubik")
        (codes "/var/lib/lxc")
        resting
        empty_heap).1.container
look_main-OnlyReleased_example =
    look_main-OnlyReleased sim naturals stats (codes "rubik") (codes "/var/lib/lxc") resting
      empty_heap 1 resting refl

abbrev path : Text
path = codes "/var/lib/lxc"

-- One goroutine, up to the return of main.
abbrev Reached : Type 1
Reached = (t : System sim) × Reach sim naturals starts path 1 resting empty_heap t

unfoldable one_opened : Reached
unfolding new_container
one_opened = (
  _,
  later (later start refl (spawns (omega arith))) refl
      (opens [] [] 0 (record { handle = some 1; verbosity = 1 }) resting refl refl),
)

unfoldable one_worked : Reached
unfolding one_opened works run Lifecycle.start make_sure
one_worked = (
  _,
  later (later one_opened.1 refl (prints [] [] 0 (record { handle = some 1; verbosity = 1 }) refl))
      refl
      (works_well [] [] 0 (record { handle = some 1; verbosity = 1 })
        (opened sim naturals 1 (record resting { is_running = true }) empty_heap) refl refl),
)

unfoldable one_returned : Reached
unfolding one_worked
one_returned = (
  _,
  later (later one_worked.1 refl (counts [] [] 0 (record { handle = some 1; verbosity = 1 }) refl))
      refl (returns refl refl),
)

returned-IsCounted_example :
    (length one_returned.0.goroutines ≡ 1) × All IsCounted one_returned.0.goroutines
unfolding one_returned one_worked one_opened
returned-IsCounted_example = returned-IsCounted sim naturals starts path 1 one_returned.1 refl
