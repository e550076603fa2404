-- ===== src/Container/Calls/Steady/Life.antt =====
-- container.go: methods that assign no field: the handle, the life cycle, creation, the configuration and the snapshots.
use go_lxc.Base.{suc, zero, ℕ, ℤ, pos, negsuc, Bool, Option, none, some, List, [], ◌∷◌, Text}
use go_lxc.Liblxc.{Liblxc, CSnapshot}
use go_lxc.Options.{TemplateOptions, CloneOptions}
use go_lxc.Container.{argv}
use go_lxc.Container.Handle
use go_lxc.Container.Lifecycle
use go_lxc.Container.Create
use go_lxc.Container.Config
use go_lxc.Container.Snapshots
use go_lxc.Container.Snapshots.{Snapshot}
use go_lxc.Container.Attach
use go_lxc.Container.Devices
use go_lxc.Container.Calls.Steady.{
  IsSteady, IsSteady-fail, IsSteady-panic, IsSteady-with_string, IsSteady-pure, steady_rules,
}

module _ {L : Liblxc} where
  pub file_of-IsSteady : (fd : ℤ) → IsSteady (Handle.file_of L fd)
  file_of-IsSteady (pos n) = IsSteady-pure _
  file_of-IsSteady (negsuc n) = IsSteady-fail _ _

  pub made-IsSteady : (n : ℤ) → IsSteady (Snapshots.made L n)
  unfolding Snapshots.made
  made-IsSteady (pos n) = IsSteady-pure _
  made-IsSteady (negsuc n) = IsSteady-fail _ _

  pub listed-IsSteady : (n : ℤ) (found : List CSnapshot) → IsSteady (Snapshots.listed L n found)
  unfolding Snapshots.listed
  listed-IsSteady (pos n) found = search steady_rules
  listed-IsSteady (negsuc n) found = IsSteady-panic _

  pub migrated-IsSteady : (n : ℤ) → IsSteady (Devices.migrated L n)
  unfolding Devices.migrated
  migrated-IsSteady (pos n) = search steady_rules
  migrated-IsSteady (negsuc n) = IsSteady-fail _ _

  go_bytes-IsSteady : (bytes : Option Text) (n : ℕ) → IsSteady (Attach.go_bytes L bytes n)
  unfolding Attach.go_bytes
  go_bytes-IsSteady bytes zero = IsSteady-pure _
  go_bytes-IsSteady none (suc n) = IsSteady-panic _
  go_bytes-IsSteady (some bytes) (suc n) = IsSteady-pure _

  pub log_read-IsSteady :
      (n : ℤ) (count : ℕ) (bytes : Option Text) → IsSteady (Attach.log_read L n count bytes)
  unfolding Attach.log_read
  log_read-IsSteady (pos n) count bytes = search (steady_rules, go_bytes-IsSteady)
  log_read-IsSteady (negsuc n) count bytes = IsSteady-fail _ _

  pub create_call-IsSteady :
      (o : TemplateOptions) (argv : Option (List Text)) → IsSteady (Create.create_call L o argv)
  unfolding Create.create_call
  create_call-IsSteady o argv = search steady_rules depth 8

  create_given-IsSteady :
      (o : TemplateOptions) (args : List Text) → IsSteady (Create.create_given L o args)
  unfolding Create.create_given
  create_given-IsSteady o [] = create_call-IsSteady o none
  create_given-IsSteady o (a ∷ args) = search (steady_rules, create_call-IsSteady)

  pub create_with-IsSteady :
      (o : TemplateOptions) (args : Option (List Text)) → IsSteady (Create.create_with L o args)
  unfolding Create.create_with
  create_with-IsSteady o none = IsSteady-fail _ _
  create_with-IsSteady o (some args) =
      IsSteady-with_string _ _ (IsSteady-with_string _ _ (create_given-IsSteady o args))

  pub want_daemonize-IsSteady : (x : Bool) → IsSteady (Handle.want_daemonize L x)
  unfolding Handle.want_daemonize
  want_daemonize-IsSteady x = search steady_rules depth 12

  pub want_close_all_fds-IsSteady : (x : Bool) → IsSteady (Handle.want_close_all_fds L x)
  unfolding Handle.want_close_all_fds
  want_close_all_fds-IsSteady x = search steady_rules depth 12

  pub init_pid_fd-IsSteady : IsSteady (Handle.init_pid_fd L)
  unfolding Handle.init_pid_fd
  init_pid_fd-IsSteady = search (steady_rules, file_of-IsSteady) depth 12

  pub devpts_fd-IsSteady : IsSteady (Handle.devpts_fd L)
  unfolding Handle.devpts_fd
  devpts_fd-IsSteady = search (steady_rules, file_of-IsSteady) depth 12

  pub seccomp_notify_fd-IsSteady : IsSteady (Handle.seccomp_notify_fd L)
  unfolding Handle.seccomp_notify_fd
  seccomp_notify_fd-IsSteady = search (steady_rules, file_of-IsSteady) depth 12

  pub seccomp_notify_fd_active-IsSteady : IsSteady (Handle.seccomp_notify_fd_active L)
  unfolding Handle.seccomp_notify_fd_active
  seccomp_notify_fd_active-IsSteady = search (steady_rules, file_of-IsSteady) depth 12

  pub freeze-IsSteady : IsSteady (Lifecycle.freeze L)
  unfolding Lifecycle.freeze
  freeze-IsSteady = search steady_rules depth 12

  pub unfreeze-IsSteady : IsSteady (Lifecycle.unfreeze L)
  unfolding Lifecycle.unfreeze
  unfreeze-IsSteady = search steady_rules depth 12

  pub start-IsSteady : IsSteady (Lifecycle.start L)
  unfolding Lifecycle.start
  start-IsSteady = search steady_rules depth 12

  pub start_with_args-IsSteady : (x : List Text) → IsSteady (Lifecycle.start_with_args L x)
  unfolding Lifecycle.start_with_args
  start_with_args-IsSteady x = search steady_rules depth 12

  pub start_execute-IsSteady : (x : List Text) → IsSteady (Lifecycle.start_execute L x)
  unfolding Lifecycle.start_execute
  start_execute-IsSteady x = search steady_rules depth 12

  pub stop-IsSteady : IsSteady (Lifecycle.stop L)
  unfolding Lifecycle.stop
  stop-IsSteady = search steady_rules depth 12

  pub reboot-IsSteady : IsSteady (Lifecycle.reboot L)
  unfolding Lifecycle.reboot
  reboot-IsSteady = search steady_rules depth 12

  pub shutdown-IsSteady : (x : ℤ) → IsSteady (Lifecycle.shutdown L x)
  unfolding Lifecycle.shutdown
  shutdown-IsSteady x = search steady_rules depth 12

  pub destroy-IsSteady : IsSteady (Lifecycle.destroy L)
  unfolding Lifecycle.destroy
  destroy-IsSteady = search steady_rules depth 12

  pub destroy_with_all_snapshots-IsSteady : IsSteady (Lifecycle.destroy_with_all_snapshots L)
  unfolding Lifecycle.destroy_with_all_snapshots
  destroy_with_all_snapshots-IsSteady = search steady_rules depth 12

  pub clone-IsSteady : (x : Text) (y : CloneOptions) → IsSteady (Lifecycle.clone L x y)
  unfolding Lifecycle.clone
  clone-IsSteady x y = search steady_rules depth 12

  pub rename-IsSteady : (x : Text) → IsSteady (Lifecycle.rename L x)
  unfolding Lifecycle.rename
  rename-IsSteady x = search steady_rules depth 12

  pub create-IsSteady : (x : TemplateOptions) → IsSteady (Create.create L x)
  unfolding Create.create
  create-IsSteady x = search (steady_rules, create_with-IsSteady) depth 12

  pub set_config_item-IsSteady : (x : Text) (y : Text) → IsSteady (Config.set_config_item L x y)
  unfolding Config.set_config_item
  set_config_item-IsSteady x y = search steady_rules depth 12

  pub set_cgroup_item-IsSteady : (x : Text) (y : Text) → IsSteady (Config.set_cgroup_item L x y)
  unfolding Config.set_cgroup_item
  set_cgroup_item-IsSteady x y = search steady_rules depth 12

  pub clear_config_item-IsSteady : (x : Text) → IsSteady (Config.clear_config_item L x)
  unfolding Config.clear_config_item
  clear_config_item-IsSteady x = search steady_rules depth 12

  pub load_config_file-IsSteady : (x : Text) → IsSteady (Config.load_config_file L x)
  unfolding Config.load_config_file
  load_config_file-IsSteady x = search steady_rules depth 12

  pub save_config_file-IsSteady : (x : Text) → IsSteady (Config.save_config_file L x)
  unfolding Config.save_config_file
  save_config_file-IsSteady x = search steady_rules depth 12

  pub set_config_path-IsSteady : (x : Text) → IsSteady (Config.set_config_path L x)
  unfolding Config.set_config_path
  set_config_path-IsSteady x = search steady_rules depth 12

  pub create_snapshot-IsSteady : IsSteady (Snapshots.create_snapshot L)
  unfolding Snapshots.create_snapshot
  create_snapshot-IsSteady = search (steady_rules, made-IsSteady) depth 12

  pub restore_snapshot-IsSteady :
      (x : Snapshot) (y : Text) → IsSteady (Snapshots.restore_snapshot L x y)
  unfolding Snapshots.restore_snapshot
  restore_snapshot-IsSteady x y = search steady_rules depth 12

  pub destroy_snapshot-IsSteady : (x : Snapshot) → IsSteady (Snapshots.destroy_snapshot L x)
  unfolding Snapshots.destroy_snapshot
  destroy_snapshot-IsSteady x = search steady_rules depth 12

  pub destroy_all_snapshots-IsSteady : IsSteady (Snapshots.destroy_all_snapshots L)
  unfolding Snapshots.destroy_all_snapshots
  destroy_all_snapshots-IsSteady = search steady_rules depth 12

  pub snapshots-IsSteady : IsSteady (Snapshots.snapshots L)
  unfolding Snapshots.snapshots
  snapshots-IsSteady = search (steady_rules, listed-IsSteady) depth 12
