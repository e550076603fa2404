-- ===== src/Container/Operations/Released.antt =====
-- Requests on a container that was released.
use go_lxc.Base.{ℕ, Option, none, some, List, [], ◌∷◌, ◌≡◌, sym, refl, ◌⊎◌, minus_one, Text, arith}
use mathlib.Core.Path.{subst}
use go_lxc.Exec.{◌>>=◌, unless, null_dereference}
use go_lxc.Errors.{
  sentinel, about, err_create_failed, err_not_defined, err_not_running, err_release_failed,
  err_insufficient_number_of_arguments, err_allocation_failed,
}
use go_lxc.Options.{TemplateOptions}
use go_lxc.Container.Create.{create_with, create_given, create_call, create, create_args}
use go_lxc.Liblxc.{Liblxc}
use go_lxc.Floats.{Floats}
use go_lxc.Memory.{CHeap}
use go_lxc.Container.{State, with_string}
use go_lxc.Container.Operations.{Request, Reply, done, failed, broken, ended, run}

-- `Create`, which tests no pointer, by the arguments that it makes.
abbrev pub EndsCreate : Option (List Text) → Reply → Type 0
EndsCreate none r = r ≡ failed (sentinel err_insufficient_number_of_arguments)
EndsCreate (some []) r = r ≡ broken null_dereference
EndsCreate (some (a ∷ args)) r =
    (r ≡ broken null_dereference) ⊎ (r ≡ failed (sentinel err_allocation_failed))

-- How a request ends on a container that was released. Almost every method tests the pointer first.
-- `Clone` and the setters of the limits do not, and meet the test of `makeSure`, which names a container
-- without a name; `SetVerbosity`, `Wait` and `ClearConfig` return no error.
unfoldable pub EndsReleased : {F : Type 0} → Request F → Reply → Type 0
unfolding create_args
EndsReleased Request.release r = r ≡ failed (sentinel err_release_failed)
EndsReleased (Request.set_verbosity x) r = r ≡ done
EndsReleased (Request.wait x y) r = r ≡ done
EndsReleased Request.clear_config r = r ≡ done
EndsReleased (Request.clone x y) r = r ≡ failed (about err_not_defined [])
EndsReleased (Request.set_memory_limit x) r = r ≡ failed (about err_not_running [])
EndsReleased (Request.set_soft_memory_limit x) r = r ≡ failed (about err_not_running [])
EndsReleased (Request.set_kernel_memory_limit x) r = r ≡ failed (about err_not_running [])
EndsReleased (Request.set_memory_swap_limit x) r = r ≡ failed (about err_not_running [])
EndsReleased (Request.run_command_no_wait [] y) r =
    r ≡ failed (sentinel err_insufficient_number_of_arguments)
EndsReleased (Request.run_command_no_wait (a ∷ x) y) r = r ≡ failed (about err_not_running [])
EndsReleased (Request.run_command_status [] y) r = r ≡ failed (sentinel err_not_defined)
EndsReleased (Request.create x) r = EndsCreate (create_args x) r
EndsReleased _ r = r ≡ failed (sentinel err_not_defined)

module _ (L : Liblxc) (R : Floats) where
  open L use {World, host}
  open R use {Float}

  abbrev released : ℕ → World → CHeap → State L
  released v w h = record { handle = none; verbosity = v; world = w; heap = h }

  -- The library refuses to drop a reference that is null, and changes nothing.
  abbrev pub PutRefusesNull : Type 0
  PutRefusesNull = (w : World) → host.container_put none w ≡ (minus_one, w)

  -- The container has no pointer, and the library's state is as it was.
  abbrev pub Kept : State L → World → Type 0
  Kept t w = (t.handle ≡ none) × (t.world ≡ w)

  create_with-released :
      (o : TemplateOptions) (args : Option (List Text)) (v : ℕ) (w : World) (h : CHeap)
      → EndsCreate args
          (ended (
            (create_with L o args >>= λ made. unless made tt (sentinel err_create_failed))
              (released v w h))).0
        × Kept
            (ended (
              (create_with L o args >>= λ made. unless made tt (sentinel err_create_failed))
                (released v w h))).1
            w
  unfolding create_with create_given with_string create_call
  create_with-released o none v w h = (refl, (refl, refl))
  create_with-released o (some []) v w h = (refl, (refl, refl))
  create_with-released o (some (a ∷ args)) v w h = ground arith

  run-released :
      PutRefusesNull
      → (q : Request Float) (v : ℕ) (w : World) (h : CHeap)
      → EndsReleased q (run L R q (released v w h)).0 × Kept (run L R q (released v w h)).1 w
  unfolding run EndsReleased
  run-released p Request.release v w h = ground (arith, p w)
  run-released p (Request.want_daemonize x) v w h = (refl, (refl, refl))
  run-released p (Request.want_close_all_fds x) v w h = (refl, (refl, refl))
  run-released p (Request.set_verbosity x) v w h = (refl, (refl, refl))
  run-released p Request.init_pid_fd v w h = (refl, (refl, refl))
  run-released p Request.devpts_fd v w h = (refl, (refl, refl))
  run-released p Request.seccomp_notify_fd v w h = (refl, (refl, refl))
  run-released p Request.seccomp_notify_fd_active v w h = (refl, (refl, refl))
  run-released p Request.freeze v w h = (refl, (refl, refl))
  run-released p Request.unfreeze v w h = (refl, (refl, refl))
  run-released p Request.start v w h = (refl, (refl, refl))
  run-released p (Request.start_with_args x) v w h = (refl, (refl, refl))
  run-released p (Request.start_execute x) v w h = (refl, (refl, refl))
  run-released p Request.stop v w h = (refl, (refl, refl))
  run-released p Request.reboot v w h = (refl, (refl, refl))
  run-released p (Request.shutdown x) v w h = (refl, (refl, refl))
  run-released p Request.destroy v w h = (refl, (refl, refl))
  run-released p Request.destroy_with_all_snapshots v w h = (refl, (refl, refl))
  run-released p (Request.clone x y) v w h = (refl, (refl, refl))
  run-released p (Request.rename x) v w h = (refl, (refl, refl))
  run-released p (Request.wait x y) v w h = (refl, (refl, refl))
  run-released p (Request.create x) v w h =
      unfold create in create_with-released x (create_args x) v w h
  run-released p (Request.set_config_item x y) v w h = (refl, (refl, refl))
  run-released p (Request.set_cgroup_item x y) v w h = (refl, (refl, refl))
  run-released p Request.clear_config v w h = (refl, (refl, refl))
  run-released p (Request.clear_config_item x) v w h = (refl, (refl, refl))
  run-released p (Request.load_config_file x) v w h = (refl, (refl, refl))
  run-released p (Request.save_config_file x) v w h = (refl, (refl, refl))
  run-released p (Request.set_config_path x) v w h = (refl, (refl, refl))
  run-released p (Request.set_log_file x) v w h = (refl, (refl, refl))
  run-released p (Request.set_log_level x) v w h = (refl, (refl, refl))
  run-released p Request.create_snapshot v w h = (refl, (refl, refl))
  run-released p (Request.restore_snapshot x y) v w h = (refl, (refl, refl))
  run-released p (Request.destroy_snapshot x) v w h = (refl, (refl, refl))
  run-released p Request.destroy_all_snapshots v w h = (refl, (refl, refl))
  run-released p Request.snapshots v w h = (refl, (refl, refl))
  run-released p (Request.set_memory_limit x) v w h = (refl, (refl, refl))
  run-released p (Request.set_soft_memory_limit x) v w h = (refl, (refl, refl))
  run-released p (Request.set_kernel_memory_limit x) v w h = (refl, (refl, refl))
  run-released p (Request.set_memory_swap_limit x) v w h = (refl, (refl, refl))
  run-released p (Request.console_fd x) v w h = (refl, (refl, refl))
  run-released p (Request.console x) v w h = (refl, (refl, refl))
  run-released p (Request.attach_shell x) v w h = (refl, (refl, refl))
  run-released p (Request.run_command_status [] y) v w h = (refl, (refl, refl))
  run-released p (Request.run_command_status (a ∷ x) y) v w h = (refl, (refl, refl))
  run-released p (Request.run_command_no_wait [] y) v w h = (refl, (refl, refl))
  run-released p (Request.run_command_no_wait (a ∷ x) y) v w h = (refl, (refl, refl))
  run-released p (Request.run_command [] y) v w h = (refl, (refl, refl))
  run-released p (Request.run_command (a ∷ x) y) v w h = (refl, (refl, refl))
  run-released p (Request.console_log x) v w h = (refl, (refl, refl))
  run-released p (Request.add_device_node x y) v w h = (refl, (refl, refl))
  run-released p (Request.remove_device_node x y) v w h = (refl, (refl, refl))
  run-released p (Request.checkpoint x) v w h = (refl, (refl, refl))
  run-released p (Request.restore x) v w h = (refl, (refl, refl))
  run-released p (Request.migrate x y) v w h = (refl, (refl, refl))
  run-released p (Request.attach_interface x y) v w h = (refl, (refl, refl))
  run-released p (Request.detach_interface x) v w h = (refl, (refl, refl))
  run-released p (Request.detach_interface_rename x y) v w h = (refl, (refl, refl))

  pub run-EndsReleased :
      PutRefusesNull
      → (q : Request Float) (s : State L) → s.handle ≡ none
      → EndsReleased q (run L R q s).0 × Kept (run L R q s).1 s.world
  run-EndsReleased p q s gone =
      subst
        (λ o.
          EndsReleased q (run L R q (record s { handle = o })).0
          × Kept (run L R q (record s { handle = o })).1 s.world)
        (sym gone) (run-released p q s.verbosity s.world s.heap)
