-- ===== src/Container/Operations/Refused.antt =====
-- container.go: requests that `makeSure` refuses, and the state after them.
use go_lxc.Base.{◌≡◌, sym, Text, arith}
use mathlib.Core.Path.{subst}
use go_lxc.Errors.{LxcError, Error, about}
use go_lxc.Exec.{Result, ok, err, fault}
use go_lxc.Liblxc.{Liblxc}
use go_lxc.Floats.{Floats}
use go_lxc.Options.{}
use go_lxc.Container.{State, Method}
use go_lxc.Container.Effects.{NamesContainer, Refusal, Gentle}
use go_lxc.Container.Operations.{Request, run, failed, reply_of}
use go_lxc.Container.Operations.Gentle.{
  want_daemonize-Gentle, want_close_all_fds-Gentle, init_pid_fd-Gentle, devpts_fd-Gentle,
  seccomp_notify_fd-Gentle, seccomp_notify_fd_active-Gentle, freeze-Gentle, unfreeze-Gentle,
  start-Gentle, start_with_args-Gentle, start_execute-Gentle, stop-Gentle, reboot-Gentle,
  shutdown-Gentle, destroy-Gentle, destroy_with_all_snapshots-Gentle, clone-Gentle, rename-Gentle,
  create-Gentle, set_config_item-Gentle, set_cgroup_item-Gentle, clear_config_item-Gentle,
  load_config_file-Gentle, save_config_file-Gentle, set_config_path-Gentle, create_snapshot-Gentle,
  restore_snapshot-Gentle, destroy_snapshot-Gentle, destroy_all_snapshots-Gentle, snapshots-Gentle,
  console_fd-Gentle, console-Gentle, attach_shell-Gentle, run_command_status-Gentle,
  run_command_no_wait-Gentle, console_log-Gentle, add_device_node-Gentle, remove_device_node-Gentle,
  checkpoint-Gentle, restore-Gentle, migrate-Gentle, attach_interface-Gentle,
  detach_interface-Gentle, detach_interface_rename-Gentle, run_command-Gentle, write_size-Gentle,
}

module _ (L : Liblxc) (R : Floats) where
  open R use {Float}

  error_of : (x : Error) {y : Error} → failed x ≡ failed y → x ≡ y
  error_of x h = cc

  Refusal-of :
      {V A : Type 0} (r : Result V A) {e : LxcError} {n : Text}
      → reply_of r ≡ failed (about e n)
      → Refusal r
  Refusal-of (ok a) h = cc
  Refusal-of (fault x) h = cc
  Refusal-of (err v x) h = subst NamesContainer (sym (error_of x h)) tt

  Gentle-reply :
      {V A : Type 0} (m : Method L V A) (s : State L) {e : LxcError} {n : Text}
      → Gentle m
      → reply_of (m s).0 ≡ failed (about e n)
      → (m s).1 ≡ s
  Gentle-reply m s g h = g.at s (Refusal-of (m s).0 h)

  -- A request that ends with one of the errors of `makeSure` that name the container (not defined,
  -- already defined, not running, already running) has changed nothing: not the container, not the
  -- library's state, and not C's heap.
  pub run_refused :
      (q : Request Float) (s : State L) {e : LxcError} {n : Text}
      → (run L R q s).0 ≡ failed (about e n)
      → (run L R q s).1 ≡ s
  run_refused Request.release s h = unfold run in ground arith
  run_refused (Request.want_daemonize x) s h =
      unfold run in Gentle-reply _ s (want_daemonize-Gentle x) h
  run_refused (Request.want_close_all_fds x) s h =
      unfold run in Gentle-reply _ s (want_close_all_fds-Gentle x) h
  run_refused (Request.set_verbosity x) s h = unfold run in cc h
  run_refused Request.init_pid_fd s h = unfold run in Gentle-reply _ s init_pid_fd-Gentle h
  run_refused Request.devpts_fd s h = unfold run in Gentle-reply _ s devpts_fd-Gentle h
  run_refused Request.seccomp_notify_fd s h =
      unfold run in Gentle-reply _ s seccomp_notify_fd-Gentle h
  run_refused Request.seccomp_notify_fd_active s h =
      unfold run in Gentle-reply _ s seccomp_notify_fd_active-Gentle h
  run_refused Request.freeze s h = unfold run in Gentle-reply _ s freeze-Gentle h
  run_refused Request.unfreeze s h = unfold run in Gentle-reply _ s unfreeze-Gentle h
  run_refused Request.start s h = unfold run in Gentle-reply _ s start-Gentle h
  run_refused (Request.start_with_args x) s h =
      unfold run in Gentle-reply _ s (start_with_args-Gentle x) h
  run_refused (Request.start_execute x) s h =
      unfold run in Gentle-reply _ s (start_execute-Gentle x) h
  run_refused Request.stop s h = unfold run in Gentle-reply _ s stop-Gentle h
  run_refused Request.reboot s h = unfold run in Gentle-reply _ s reboot-Gentle h
  run_refused (Request.shutdown x) s h = unfold run in Gentle-reply _ s (shutdown-Gentle x) h
  run_refused Request.destroy s h = unfold run in Gentle-reply _ s destroy-Gentle h
  run_refused Request.destroy_with_all_snapshots s h =
      unfold run in Gentle-reply _ s destroy_with_all_snapshots-Gentle h
  run_refused (Request.clone x y) s h = unfold run in Gentle-reply _ s (clone-Gentle x y) h
  run_refused (Request.rename x) s h = unfold run in Gentle-reply _ s (rename-Gentle x) h
  run_refused (Request.wait x y) s h = unfold run in cc h
  run_refused (Request.create x) s h = unfold run in Gentle-reply _ s (create-Gentle x) h
  run_refused (Request.set_config_item x y) s h =
      unfold run in Gentle-reply _ s (set_config_item-Gentle x y) h
  run_refused (Request.set_cgroup_item x y) s h =
      unfold run in Gentle-reply _ s (set_cgroup_item-Gentle x y) h
  run_refused Request.clear_config s h = unfold run in cc h
  run_refused (Request.clear_config_item x) s h =
      unfold run in Gentle-reply _ s (clear_config_item-Gentle x) h
  run_refused (Request.load_config_file x) s h =
      unfold run in Gentle-reply _ s (load_config_file-Gentle x) h
  run_refused (Request.save_config_file x) s h =
      unfold run in Gentle-reply _ s (save_config_file-Gentle x) h
  run_refused (Request.set_config_path x) s h =
      unfold run in Gentle-reply _ s (set_config_path-Gentle x) h
  run_refused (Request.set_log_file x) s h =
      unfold run in Gentle-reply _ s (set_config_item-Gentle _ x) h
  run_refused (Request.set_log_level x) s h =
      unfold run in Gentle-reply _ s (set_config_item-Gentle _ _) h
  run_refused Request.create_snapshot s h = unfold run in Gentle-reply _ s create_snapshot-Gentle h
  run_refused (Request.restore_snapshot x y) s h =
      unfold run in Gentle-reply _ s (restore_snapshot-Gentle x y) h
  run_refused (Request.destroy_snapshot x) s h =
      unfold run in Gentle-reply _ s (destroy_snapshot-Gentle x) h
  run_refused Request.destroy_all_snapshots s h =
      unfold run in Gentle-reply _ s destroy_all_snapshots-Gentle h
  run_refused Request.snapshots s h = unfold run in Gentle-reply _ s snapshots-Gentle h
  run_refused (Request.set_memory_limit x) s h =
      unfold run in Gentle-reply _ s (write_size-Gentle R _ _ x) h
  run_refused (Request.set_soft_memory_limit x) s h =
      unfold run in Gentle-reply _ s (write_size-Gentle R _ _ x) h
  run_refused (Request.set_kernel_memory_limit x) s h =
      unfold run in Gentle-reply _ s (write_size-Gentle R _ _ x) h
  run_refused (Request.set_memory_swap_limit x) s h =
      unfold run in Gentle-reply _ s (write_size-Gentle R _ _ x) h
  run_refused (Request.console_fd x) s h = unfold run in Gentle-reply _ s (console_fd-Gentle x) h
  run_refused (Request.console x) s h = unfold run in Gentle-reply _ s (console-Gentle x) h
  run_refused (Request.attach_shell x) s h =
      unfold run in Gentle-reply _ s (attach_shell-Gentle x) h
  run_refused (Request.run_command_status x y) s h =
      unfold run in Gentle-reply _ s (run_command_status-Gentle x y) h
  run_refused (Request.run_command_no_wait x y) s h =
      unfold run in Gentle-reply _ s (run_command_no_wait-Gentle x y) h
  run_refused (Request.run_command x y) s h =
      unfold run in Gentle-reply _ s (run_command-Gentle x y) h
  run_refused (Request.console_log x) s h = unfold run in Gentle-reply _ s (console_log-Gentle x) h
  run_refused (Request.add_device_node x y) s h =
      unfold run in Gentle-reply _ s (add_device_node-Gentle x y) h
  run_refused (Request.remove_device_node x y) s h =
      unfold run in Gentle-reply _ s (remove_device_node-Gentle x y) h
  run_refused (Request.checkpoint x) s h = unfold run in Gentle-reply _ s (checkpoint-Gentle x) h
  run_refused (Request.restore x) s h = unfold run in Gentle-reply _ s (restore-Gentle x) h
  run_refused (Request.migrate x y) s h = unfold run in Gentle-reply _ s (migrate-Gentle x y) h
  run_refused (Request.attach_interface x y) s h =
      unfold run in Gentle-reply _ s (attach_interface-Gentle x y) h
  run_refused (Request.detach_interface x) s h =
      unfold run in Gentle-reply _ s (detach_interface-Gentle x) h
  run_refused (Request.detach_interface_rename x y) s h =
      unfold run in Gentle-reply _ s (detach_interface_rename-Gentle x y) h
