-- ===== src/Container/Lifecycle/Arguments.antt =====
-- container.go: the arrays that `StartWithArgs` and `StartExecute` make.
use go_lxc.Base.{suc, length, true, false, none, some, List, map, Text, ◌≡◌, arith}
use go_lxc.Base.Strings.{c_string}
use go_lxc.Liblxc.{Liblxc}
use go_lxc.Memory.{make_null_terminated_args, argv_texts}
use go_lxc.Memory.Arrays.{argv_texts-make}
use go_lxc.Container.{State, make_sure, is_not_running, make_args, argv}
use go_lxc.Container.Lifecycle.{start_with_args, start_execute}

module _ (L : Liblxc) where
  open L use {Ptr, World, life, host}

  -- The library starts the container with the arguments that were given, each up to its first NUL; and
  -- the array that holds them is still in C's heap when `StartWithArgs` and `StartExecute` have
  -- returned, whatever the library answers. The container is not released and does not run, and there
  -- is room for the array.
  pub start_with_args-leaks :
      (args : List Text) (p : Ptr) (s : State L)
      → s.handle ≡ some p
      → make_sure L is_not_running s ≡ none
      → host.can_calloc (suc (length args)) s.world ≡ true
      → ((start_with_args L args s).1.world
          ≡ (life.start p false (some (map c_string args)) s.world).1)
        × (argv_texts s.heap.next (start_with_args L args s).1.heap ≡ map c_string args)
        × ((start_execute L args s).1.world
            ≡ (life.start p true (some (map c_string args)) s.world).1)
        × (argv_texts s.heap.next (start_execute L args s).1.heap ≡ map c_string args)
  unfolding start_with_args start_execute make_args argv make_null_terminated_args
  start_with_args-leaks args p s e met room =
      ground (arith, e, met, room, argv_texts-make args s.heap)
