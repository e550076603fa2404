-- ===== src/Container/Calls/Steady/Fields.antt =====
-- container.go: the fields `container` and `verbosity` over the methods that can change a state.
use go_lxc.Base.{◌⊎◌, inl, ℕ, none, ◌≡◌, refl, arith}
use go_lxc.Liblxc.{Liblxc}
use go_lxc.Floats.{Floats}
use go_lxc.Options.{}
use go_lxc.Container.{State}
use go_lxc.Container.Handle
use go_lxc.Container.Operations.{Request, run}
use go_lxc.Container.Calls.Steady.{SameFields}
use go_lxc.Container.Calls.Steady.Life.{
  want_daemonize-IsSteady, want_close_all_fds-IsSteady, init_pid_fd-IsSteady, devpts_fd-IsSteady,
  seccomp_notify_fd-IsSteady, seccomp_notify_fd_active-IsSteady, freeze-IsSteady, unfreeze-IsSteady,
  start-IsSteady, start_with_args-IsSteady, start_execute-IsSteady, stop-IsSteady, reboot-IsSteady,
  shutdown-IsSteady, destroy-IsSteady, destroy_with_all_snapshots-IsSteady, clone-IsSteady,
  rename-IsSteady, create-IsSteady, set_config_item-IsSteady, set_cgroup_item-IsSteady,
  clear_config_item-IsSteady, load_config_file-IsSteady, save_config_file-IsSteady,
  set_config_path-IsSteady, create_snapshot-IsSteady, restore_snapshot-IsSteady,
  destroy_snapshot-IsSteady, destroy_all_snapshots-IsSteady, snapshots-IsSteady,
}
use go_lxc.Container.Calls.Steady.Commands.{
  console_fd-IsSteady, console-IsSteady, attach_shell-IsSteady, run_command_status-IsSteady,
  run_command_no_wait-IsSteady, console_log-IsSteady, add_device_node-IsSteady,
  remove_device_node-IsSteady, checkpoint-IsSteady, restore-IsSteady, migrate-IsSteady,
  attach_interface-IsSteady, detach_interface-IsSteady, detach_interface_rename-IsSteady,
  run_command-IsSteady, write_size-IsSteady,
}

-- What a request does to the fields: `Release` may drop the pointer, `SetVerbosity` sets the
-- verbosity, and no other method assigns either.
pub data Assigned : Type 0 where
  pointer : Assigned
  verbosity_to : ℕ → Assigned
  neither : Assigned

abbrev pub assigned_by : {F : Type 0} → Request F → Assigned
assigned_by Request.release = pointer
assigned_by (Request.set_verbosity v) = verbosity_to v
assigned_by _ = neither

abbrev pub AssignsOnly : {L : Liblxc} → Assigned → State L → State L → Type 0
AssignsOnly pointer s t = ((t.handle ≡ s.handle) ⊎ (t.handle ≡ none)) × (t.verbosity ≡ s.verbosity)
AssignsOnly (verbosity_to v) s t = (t.handle ≡ s.handle) × (t.verbosity ≡ v)
AssignsOnly neither s t = SameFields s t

abbrev pub Assigns : {L : Liblxc} {F : Type 0} → Request F → State L → State L → Type 0
Assigns q s t = AssignsOnly (assigned_by q) s t

module _ (L : Liblxc) (R : Floats) where
  open R use {Float}

  release-Assigns : (s : State L) → Assigns {F = Float} Request.release s (Handle.release L s).1
  unfolding Handle.release
  release-Assigns s = ground arith

  -- `Release` alone may drop a Container's pointer, and `SetVerbosity` alone sets its verbosity: every
  -- other request, however it ends, leaves both fields as they were.
  pub run-Assigns : (q : Request Float) (s : State L) → Assigns q s (run L R q s).1
  run-Assigns Request.release s = unfold run in release-Assigns s
  run-Assigns (Request.want_daemonize x) s = unfold run in (want_daemonize-IsSteady x).at s
  run-Assigns (Request.want_close_all_fds x) s = unfold run in (want_close_all_fds-IsSteady x).at s
  run-Assigns (Request.set_verbosity x) s = unfold run in (refl, refl)
  run-Assigns Request.init_pid_fd s = unfold run in init_pid_fd-IsSteady.at s
  run-Assigns Request.devpts_fd s = unfold run in devpts_fd-IsSteady.at s
  run-Assigns Request.seccomp_notify_fd s = unfold run in seccomp_notify_fd-IsSteady.at s
  run-Assigns Request.seccomp_notify_fd_active s =
      unfold run in seccomp_notify_fd_active-IsSteady.at s
  run-Assigns Request.freeze s = unfold run in freeze-IsSteady.at s
  run-Assigns Request.unfreeze s = unfold run in unfreeze-IsSteady.at s
  run-Assigns Request.start s = unfold run in start-IsSteady.at s
  run-Assigns (Request.start_with_args x) s = unfold run in (start_with_args-IsSteady x).at s
  run-Assigns (Request.start_execute x) s = unfold run in (start_execute-IsSteady x).at s
  run-Assigns Request.stop s = unfold run in stop-IsSteady.at s
  run-Assigns Request.reboot s = unfold run in reboot-IsSteady.at s
  run-Assigns (Request.shutdown x) s = unfold run in (shutdown-IsSteady x).at s
  run-Assigns Request.destroy s = unfold run in destroy-IsSteady.at s
  run-Assigns Request.destroy_with_all_snapshots s =
      unfold run in destroy_with_all_snapshots-IsSteady.at s
  run-Assigns (Request.clone x y) s = unfold run in (clone-IsSteady x y).at s
  run-Assigns (Request.rename x) s = unfold run in (rename-IsSteady x).at s
  run-Assigns (Request.wait x y) s = unfold run in ground arith
  run-Assigns (Request.create x) s = unfold run in (create-IsSteady x).at s
  run-Assigns (Request.set_config_item x y) s = unfold run in (set_config_item-IsSteady x y).at s
  run-Assigns (Request.set_cgroup_item x y) s = unfold run in (set_cgroup_item-IsSteady x y).at s
  run-Assigns Request.clear_config s = unfold run in ground arith
  run-Assigns (Request.clear_config_item x) s = unfold run in (clear_config_item-IsSteady x).at s
  run-Assigns (Request.load_config_file x) s = unfold run in (load_config_file-IsSteady x).at s
  run-Assigns (Request.save_config_file x) s = unfold run in (save_config_file-IsSteady x).at s
  run-Assigns (Request.set_config_path x) s = unfold run in (set_config_path-IsSteady x).at s
  run-Assigns (Request.set_log_file x) s = unfold run in (set_config_item-IsSteady _ x).at s
  run-Assigns (Request.set_log_level x) s = unfold run in (set_config_item-IsSteady _ _).at s
  run-Assigns Request.create_snapshot s = unfold run in create_snapshot-IsSteady.at s
  run-Assigns (Request.restore_snapshot x y) s = unfold run in (restore_snapshot-IsSteady x y).at s
  run-Assigns (Request.destroy_snapshot x) s = unfold run in (destroy_snapshot-IsSteady x).at s
  run-Assigns Request.destroy_all_snapshots s = unfold run in destroy_all_snapshots-IsSteady.at s
  run-Assigns Request.snapshots s = unfold run in snapshots-IsSteady.at s
  run-Assigns (Request.set_memory_limit x) s = unfold run in (write_size-IsSteady R _ _ x).at s
  run-Assigns (Request.set_soft_memory_limit x) s = unfold run in (write_size-IsSteady R _ _ x).at s
  run-Assigns (Request.set_kernel_memory_limit x) s =
      unfold run in (write_size-IsSteady R _ _ x).at s
  run-Assigns (Request.set_memory_swap_limit x) s = unfold run in (write_size-IsSteady R _ _ x).at s
  run-Assigns (Request.console_fd x) s = unfold run in (console_fd-IsSteady x).at s
  run-Assigns (Request.console x) s = unfold run in (console-IsSteady x).at s
  run-Assigns (Request.attach_shell x) s = unfold run in (attach_shell-IsSteady x).at s
  run-Assigns (Request.run_command_status x y) s =
      unfold run in (run_command_status-IsSteady x y).at s
  run-Assigns (Request.run_command_no_wait x y) s =
      unfold run in (run_command_no_wait-IsSteady x y).at s
  run-Assigns (Request.run_command x y) s = unfold run in (run_command-IsSteady x y).at s
  run-Assigns (Request.console_log x) s = unfold run in (console_log-IsSteady x).at s
  run-Assigns (Request.add_device_node x y) s = unfold run in (add_device_node-IsSteady x y).at s
  run-Assigns (Request.remove_device_node x y) s =
      unfold run in (remove_device_node-IsSteady x y).at s
  run-Assigns (Request.checkpoint x) s = unfold run in (checkpoint-IsSteady x).at s
  run-Assigns (Request.restore x) s = unfold run in (restore-IsSteady x).at s
  run-Assigns (Request.migrate x y) s = unfold run in (migrate-IsSteady x y).at s
  run-Assigns (Request.attach_interface x y) s = unfold run in (attach_interface-IsSteady x y).at s
  run-Assigns (Request.detach_interface x) s = unfold run in (detach_interface-IsSteady x).at s
  run-Assigns (Request.detach_interface_rename x y) s =
      unfold run in (detach_interface_rename-IsSteady x y).at s

  points_by :
      (k : Assigned) (s t : State L) → AssignsOnly k s t → (t.handle ≡ s.handle) ⊎ (t.handle ≡ none)
  points_by pointer s t h = h.0
  points_by (verbosity_to v) s t h = inl h.0
  points_by neither s t h = inl h.0

  pub run-points :
      (q : Request Float) (s : State L)
      → ((run L R q s).1.handle ≡ s.handle) ⊎ ((run L R q s).1.handle ≡ none)
  run-points q s = points_by (assigned_by q) s (run L R q s).1 (run-Assigns q s)
