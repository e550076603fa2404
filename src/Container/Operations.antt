-- ===== src/Container/Operations.antt =====
-- The methods of container.go that can change a state, as one alphabet of requests: a program that
-- uses a container makes a sequence of them. Each request runs the method of its name. `Execute` is
-- not among them: it works on the host's files and processes.
pub mod Released
mod Gentle
pub mod Refused
use go_lxc.Base.{ℕ, ℤ, Bool, true, false, Option, List, [], ◌∷◌, Text, ◌≡◌, refl}
use go_lxc.Errors.{Error}
use go_lxc.Exec.{Fault, Result, ok, err, fault}
use go_lxc.Liblxc.{Liblxc}
use go_lxc.Floats.{Floats}
use go_lxc.Options.{
  AttachOptions, TemplateOptions, ConsoleOptions, CloneOptions, CheckpointOptions, RestoreOptions,
  MigrateOptions, ConsoleLogOptions,
}
use go_lxc.Container.{State}
use go_lxc.Container.Handle
use go_lxc.Container.Lifecycle
use go_lxc.Container.Create
use go_lxc.Container.Config
use go_lxc.Container.Snapshots
use go_lxc.Container.Snapshots.{Snapshot}
use go_lxc.Container.Cgroups.Memory
use go_lxc.Container.Attach
use go_lxc.Container.Devices

-- The requests; `F` is the type of floats.
pub data Request (F : Type 0) : Type 0 where
  release : Request F
  want_daemonize : Bool → Request F
  want_close_all_fds : Bool → Request F
  set_verbosity : ℕ → Request F
  init_pid_fd : Request F
  devpts_fd : Request F
  seccomp_notify_fd : Request F
  seccomp_notify_fd_active : Request F
  freeze : Request F
  unfreeze : Request F
  start : Request F
  start_with_args : List Text → Request F
  start_execute : List Text → Request F
  stop : Request F
  reboot : Request F
  shutdown : ℤ → Request F
  destroy : Request F
  destroy_with_all_snapshots : Request F
  clone : Text → CloneOptions → Request F
  rename : Text → Request F
  wait : ℕ → ℤ → Request F
  create : TemplateOptions → Request F
  set_config_item : Text → Text → Request F
  set_cgroup_item : Text → Text → Request F
  clear_config : Request F
  clear_config_item : Text → Request F
  load_config_file : Text → Request F
  save_config_file : Text → Request F
  set_config_path : Text → Request F
  set_log_file : Text → Request F
  set_log_level : ℕ → Request F
  create_snapshot : Request F
  restore_snapshot : Snapshot → Text → Request F
  destroy_snapshot : Snapshot → Request F
  destroy_all_snapshots : Request F
  snapshots : Request F
  set_memory_limit : F → Request F
  set_soft_memory_limit : F → Request F
  set_kernel_memory_limit : F → Request F
  set_memory_swap_limit : F → Request F
  console_fd : ℤ → Request F
  console : ConsoleOptions → Request F
  attach_shell : AttachOptions → Request F
  run_command_status : List Text → AttachOptions → Request F
  run_command_no_wait : List Text → AttachOptions → Request F
  run_command : List Text → AttachOptions → Request F
  console_log : ConsoleLogOptions → Request F
  add_device_node : Text → List Text → Request F
  remove_device_node : Text → List Text → Request F
  checkpoint : CheckpointOptions → Request F
  restore : RestoreOptions → Request F
  migrate : ℕ → MigrateOptions → Request F
  attach_interface : Text → Text → Request F
  detach_interface : Text → Request F
  detach_interface_rename : Text → Text → Request F

-- How a request ended, without the values that it returned.
pub data Reply : Type 0 where
  done : Reply
  failed : Error → Reply
  broken : Fault → Reply

abbrev pub reply_of : {V A : Type 0} → Result V A → Reply
reply_of (ok _) = done
reply_of (err _ e) = failed e
reply_of (fault x) = broken x

abbrev pub ended : {V A S : Type 0} → Result V A × S → Reply × S
ended (r, s) = (reply_of r, s)

module _ (L : Liblxc) (R : Floats) where
  open R use {Float}

  unfoldable pub run : Request Float → State L → Reply × State L
  unfolding Handle.release Handle.want_daemonize Handle.want_close_all_fds Handle.set_verbosity
      Handle.init_pid_fd Handle.devpts_fd Handle.seccomp_notify_fd Handle.seccomp_notify_fd_active
      Lifecycle.freeze Lifecycle.unfreeze Lifecycle.start Lifecycle.start_with_args
      Lifecycle.start_execute Lifecycle.stop Lifecycle.reboot Lifecycle.shutdown Lifecycle.destroy
      Lifecycle.destroy_with_all_snapshots Lifecycle.clone Lifecycle.rename Lifecycle.wait
      Create.create Config.set_config_item Config.set_cgroup_item Config.clear_config
      Config.clear_config_item Config.load_config_file Config.save_config_file
      Config.set_config_path Config.set_log_file Config.set_log_level Snapshots.create_snapshot
      Snapshots.restore_snapshot Snapshots.destroy_snapshot Snapshots.destroy_all_snapshots
      Snapshots.snapshots Memory.set_memory_limit Memory.set_soft_memory_limit
      Memory.set_kernel_memory_limit Memory.set_memory_swap_limit Attach.console_fd Attach.console
      Attach.attach_shell Attach.run_command_status Attach.run_command_no_wait Attach.run_command
      Attach.console_log Devices.add_device_node Devices.remove_device_node Devices.checkpoint
      Devices.restore Devices.migrate Devices.attach_interface Devices.detach_interface
      Devices.detach_interface_rename
  run release s = ended (Handle.release L s)
  run (want_daemonize x) s = ended (Handle.want_daemonize L x s)
  run (want_close_all_fds x) s = ended (Handle.want_close_all_fds L x s)
  run (set_verbosity x) s = ended (Handle.set_verbosity L x s)
  run init_pid_fd s = ended (Handle.init_pid_fd L s)
  run devpts_fd s = ended (Handle.devpts_fd L s)
  run seccomp_notify_fd s = ended (Handle.seccomp_notify_fd L s)
  run seccomp_notify_fd_active s = ended (Handle.seccomp_notify_fd_active L s)
  run freeze s = ended (Lifecycle.freeze L s)
  run unfreeze s = ended (Lifecycle.unfreeze L s)
  run start s = ended (Lifecycle.start L s)
  run (start_with_args x) s = ended (Lifecycle.start_with_args L x s)
  run (start_execute x) s = ended (Lifecycle.start_execute L x s)
  run stop s = ended (Lifecycle.stop L s)
  run reboot s = ended (Lifecycle.reboot L s)
  run (shutdown x) s = ended (Lifecycle.shutdown L x s)
  run destroy s = ended (Lifecycle.destroy L s)
  run destroy_with_all_snapshots s = ended (Lifecycle.destroy_with_all_snapshots L s)
  run (clone x y) s = ended (Lifecycle.clone L x y s)
  run (rename x) s = ended (Lifecycle.rename L x s)
  run (wait x y) s = (done, (Lifecycle.wait L x y s).1)
  run (create x) s = ended (Create.create L x s)
  run (set_config_item x y) s = ended (Config.set_config_item L x y s)
  run (set_cgroup_item x y) s = ended (Config.set_cgroup_item L x y s)
  run clear_config s = (done, Config.clear_config L s)
  run (clear_config_item x) s = ended (Config.clear_config_item L x s)
  run (load_config_file x) s = ended (Config.load_config_file L x s)
  run (save_config_file x) s = ended (Config.save_config_file L x s)
  run (set_config_path x) s = ended (Config.set_config_path L x s)
  run (set_log_file x) s = ended (Config.set_log_file L x s)
  run (set_log_level x) s = ended (Config.set_log_level L x s)
  run create_snapshot s = ended (Snapshots.create_snapshot L s)
  run (restore_snapshot x y) s = ended (Snapshots.restore_snapshot L x y s)
  run (destroy_snapshot x) s = ended (Snapshots.destroy_snapshot L x s)
  run destroy_all_snapshots s = ended (Snapshots.destroy_all_snapshots L s)
  run snapshots s = ended (Snapshots.snapshots L s)
  run (set_memory_limit x) s = ended (Memory.set_memory_limit L R x s)
  run (set_soft_memory_limit x) s = ended (Memory.set_soft_memory_limit L R x s)
  run (set_kernel_memory_limit x) s = ended (Memory.set_kernel_memory_limit L R x s)
  run (set_memory_swap_limit x) s = ended (Memory.set_memory_swap_limit L R x s)
  run (console_fd x) s = ended (Attach.console_fd L x s)
  run (console x) s = ended (Attach.console L x s)
  run (attach_shell x) s = ended (Attach.attach_shell L x s)
  run (run_command_status x y) s = ended (Attach.run_command_status L x y s)
  run (run_command_no_wait x y) s = ended (Attach.run_command_no_wait L x y s)
  run (run_command x y) s = ended (Attach.run_command L x y s)
  run (console_log x) s = ended (Attach.console_log L x s)
  run (add_device_node x y) s = ended (Devices.add_device_node L x y s)
  run (remove_device_node x y) s = ended (Devices.remove_device_node L x y s)
  run (checkpoint x) s = ended (Devices.checkpoint L x s)
  run (restore x) s = ended (Devices.restore L x s)
  run (migrate x y) s = ended (Devices.migrate L x y s)
  run (attach_interface x y) s = ended (Devices.attach_interface L x y s)
  run (detach_interface x) s = ended (Devices.detach_interface L x s)
  run (detach_interface_rename x y) s = ended (Devices.detach_interface_rename L x y s)
