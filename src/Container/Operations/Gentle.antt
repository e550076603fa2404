-- ===== src/Container/Operations/Gentle.antt =====
-- container.go: the methods that can change a state, where `makeSure` refuses them: rules for the
-- requests, one for each method.
use go_lxc.Base.{
  zero, suc, ℕ, ℤ, Bool, pos, negsuc, Option, none, some, List, [], ◌∷◌, ◌≡◌, Text, arith,
}
use go_lxc.Errors.{LxcError}
use go_lxc.Exec.{Result, ok, err, fault}
use go_lxc.Liblxc.{Liblxc, CSnapshot}
use go_lxc.Floats.{Floats}
use go_lxc.Options.{
  AttachOptions, TemplateOptions, ConsoleOptions, CloneOptions, CheckpointOptions, RestoreOptions,
  MigrateOptions, ConsoleLogOptions,
}
use go_lxc.Container.{State}
use go_lxc.Container.Effects.{
  Refusal, Unrefused, Gentle, Gentle-of_Still, Gentle-of_Unrefused, Gentle-bind, Unrefused-pure,
  Unrefused-errno, Unrefused-sentinel, Unrefused-panic, Unrefused-with_string, Unrefused-migration,
  effect_rules,
}
use go_lxc.Container.Handle
use go_lxc.Container.Lifecycle
use go_lxc.Container.Create
use go_lxc.Container.Config
use go_lxc.Container.Snapshots
use go_lxc.Container.Snapshots.{Snapshot}
use go_lxc.Container.Cgroups
use go_lxc.Container.Cgroups.Memory
use go_lxc.Container.Attach
use go_lxc.Container.Devices

ruleset gentle_rules = (Gentle-bind, Gentle-of_Still, Gentle-of_Unrefused, effect_rules)

module _ {L : Liblxc} where
  pub file_of-Unrefused : (fd : ℤ) → Unrefused (Handle.file_of L fd)
  file_of-Unrefused (pos n) = Unrefused-pure _
  file_of-Unrefused (negsuc n) = Unrefused-errno _ _

  pub made-Unrefused : (n : ℤ) → Unrefused (Snapshots.made L n)
  unfolding Snapshots.made
  made-Unrefused (pos n) = Unrefused-pure _
  made-Unrefused (negsuc n) = Unrefused-sentinel _ _

  pub listed-Unrefused : (n : ℤ) (found : List CSnapshot) → Unrefused (Snapshots.listed L n found)
  unfolding Snapshots.listed
  listed-Unrefused (pos n) found = search effect_rules
  listed-Unrefused (negsuc n) found = Unrefused-panic _

  pub migrated-Unrefused : (n : ℤ) → Unrefused (Devices.migrated L n)
  unfolding Devices.migrated
  migrated-Unrefused (pos n) = search effect_rules
  migrated-Unrefused (negsuc n) = Unrefused-migration _ _

  go_bytes-Unrefused : (bytes : Option Text) (n : ℕ) → Unrefused (Attach.go_bytes L bytes n)
  unfolding Attach.go_bytes
  go_bytes-Unrefused bytes zero = Unrefused-pure _
  go_bytes-Unrefused none (suc n) = Unrefused-panic _
  go_bytes-Unrefused (some bytes) (suc n) = Unrefused-pure _

  pub log_read-Unrefused :
      (n : ℤ) (count : ℕ) (bytes : Option Text) → Unrefused (Attach.log_read L n count bytes)
  unfolding Attach.log_read
  log_read-Unrefused (pos n) count bytes = search (effect_rules, go_bytes-Unrefused)
  log_read-Unrefused (negsuc n) count bytes = search effect_rules

  pub create_call-Unrefused :
      (o : TemplateOptions) (argv : Option (List Text)) → Unrefused (Create.create_call L o argv)
  unfolding Create.create_call
  create_call-Unrefused o argv = search effect_rules depth 8

  create_given-Unrefused :
      (o : TemplateOptions) (args : List Text) → Unrefused (Create.create_given L o args)
  unfolding Create.create_given
  create_given-Unrefused o [] = create_call-Unrefused o none
  create_given-Unrefused o (a ∷ args) = search (effect_rules, create_call-Unrefused)

  pub create_with-Unrefused :
      (o : TemplateOptions) (args : Option (List Text)) → Unrefused (Create.create_with L o args)
  unfolding Create.create_with
  create_with-Unrefused o none = Unrefused-sentinel _ _
  create_with-Unrefused o (some args) =
      Unrefused-with_string _ _ (Unrefused-with_string _ _ (create_given-Unrefused o args))

  pub want_daemonize-Gentle : (x : Bool) → Gentle (Handle.want_daemonize L x)
  unfolding Handle.want_daemonize
  want_daemonize-Gentle x = search gentle_rules depth 12

  pub want_close_all_fds-Gentle : (x : Bool) → Gentle (Handle.want_close_all_fds L x)
  unfolding Handle.want_close_all_fds
  want_close_all_fds-Gentle x = search gentle_rules depth 12

  pub init_pid_fd-Gentle : Gentle (Handle.init_pid_fd L)
  unfolding Handle.init_pid_fd
  init_pid_fd-Gentle = search (gentle_rules, file_of-Unrefused) depth 12

  pub devpts_fd-Gentle : Gentle (Handle.devpts_fd L)
  unfolding Handle.devpts_fd
  devpts_fd-Gentle = search (gentle_rules, file_of-Unrefused) depth 12

  pub seccomp_notify_fd-Gentle : Gentle (Handle.seccomp_notify_fd L)
  unfolding Handle.seccomp_notify_fd
  seccomp_notify_fd-Gentle = search (gentle_rules, file_of-Unrefused) depth 12

  pub seccomp_notify_fd_active-Gentle : Gentle (Handle.seccomp_notify_fd_active L)
  unfolding Handle.seccomp_notify_fd_active
  seccomp_notify_fd_active-Gentle = search (gentle_rules, file_of-Unrefused) depth 12

  pub freeze-Gentle : Gentle (Lifecycle.freeze L)
  unfolding Lifecycle.freeze
  freeze-Gentle = search gentle_rules depth 12

  pub unfreeze-Gentle : Gentle (Lifecycle.unfreeze L)
  unfolding Lifecycle.unfreeze
  unfreeze-Gentle = search gentle_rules depth 12

  pub start-Gentle : Gentle (Lifecycle.start L)
  unfolding Lifecycle.start
  start-Gentle = search gentle_rules depth 12

  pub start_with_args-Gentle : (x : List Text) → Gentle (Lifecycle.start_with_args L x)
  unfolding Lifecycle.start_with_args
  start_with_args-Gentle x = search gentle_rules depth 12

  pub start_execute-Gentle : (x : List Text) → Gentle (Lifecycle.start_execute L x)
  unfolding Lifecycle.start_execute
  start_execute-Gentle x = search gentle_rules depth 12

  pub stop-Gentle : Gentle (Lifecycle.stop L)
  unfolding Lifecycle.stop
  stop-Gentle = search gentle_rules depth 12

  pub reboot-Gentle : Gentle (Lifecycle.reboot L)
  unfolding Lifecycle.reboot
  reboot-Gentle = search gentle_rules depth 12

  pub shutdown-Gentle : (x : ℤ) → Gentle (Lifecycle.shutdown L x)
  unfolding Lifecycle.shutdown
  shutdown-Gentle x = search gentle_rules depth 12

  pub destroy-Gentle : Gentle (Lifecycle.destroy L)
  unfolding Lifecycle.destroy
  destroy-Gentle = search gentle_rules depth 12

  pub destroy_with_all_snapshots-Gentle : Gentle (Lifecycle.destroy_with_all_snapshots L)
  unfolding Lifecycle.destroy_with_all_snapshots
  destroy_with_all_snapshots-Gentle = search gentle_rules depth 12

  pub clone-Gentle : (x : Text) (y : CloneOptions) → Gentle (Lifecycle.clone L x y)
  unfolding Lifecycle.clone
  clone-Gentle x y = search gentle_rules depth 12

  pub rename-Gentle : (x : Text) → Gentle (Lifecycle.rename L x)
  unfolding Lifecycle.rename
  rename-Gentle x = search gentle_rules depth 12

  pub create-Gentle : (x : TemplateOptions) → Gentle (Create.create L x)
  unfolding Create.create
  create-Gentle x = search (gentle_rules, create_with-Unrefused) depth 12

  pub set_config_item-Gentle : (x : Text) (y : Text) → Gentle (Config.set_config_item L x y)
  unfolding Config.set_config_item
  set_config_item-Gentle x y = search gentle_rules depth 12

  pub set_cgroup_item-Gentle : (x : Text) (y : Text) → Gentle (Config.set_cgroup_item L x y)
  unfolding Config.set_cgroup_item
  set_cgroup_item-Gentle x y = search gentle_rules depth 12

  pub clear_config_item-Gentle : (x : Text) → Gentle (Config.clear_config_item L x)
  unfolding Config.clear_config_item
  clear_config_item-Gentle x = search gentle_rules depth 12

  pub load_config_file-Gentle : (x : Text) → Gentle (Config.load_config_file L x)
  unfolding Config.load_config_file
  load_config_file-Gentle x = search gentle_rules depth 12

  pub save_config_file-Gentle : (x : Text) → Gentle (Config.save_config_file L x)
  unfolding Config.save_config_file
  save_config_file-Gentle x = search gentle_rules depth 12

  pub set_config_path-Gentle : (x : Text) → Gentle (Config.set_config_path L x)
  unfolding Config.set_config_path
  set_config_path-Gentle x = search gentle_rules depth 12

  pub create_snapshot-Gentle : Gentle (Snapshots.create_snapshot L)
  unfolding Snapshots.create_snapshot
  create_snapshot-Gentle = search (gentle_rules, made-Unrefused) depth 12

  pub restore_snapshot-Gentle :
      (x : Snapshot) (y : Text) → Gentle (Snapshots.restore_snapshot L x y)
  unfolding Snapshots.restore_snapshot
  restore_snapshot-Gentle x y = search gentle_rules depth 12

  pub destroy_snapshot-Gentle : (x : Snapshot) → Gentle (Snapshots.destroy_snapshot L x)
  unfolding Snapshots.destroy_snapshot
  destroy_snapshot-Gentle x = search gentle_rules depth 12

  pub destroy_all_snapshots-Gentle : Gentle (Snapshots.destroy_all_snapshots L)
  unfolding Snapshots.destroy_all_snapshots
  destroy_all_snapshots-Gentle = search gentle_rules depth 12

  pub snapshots-Gentle : Gentle (Snapshots.snapshots L)
  unfolding Snapshots.snapshots
  snapshots-Gentle = search (gentle_rules, listed-Unrefused) depth 12

  pub console_fd-Gentle : (x : ℤ) → Gentle (Attach.console_fd L x)
  unfolding Attach.console_fd
  console_fd-Gentle x = search gentle_rules depth 12

  pub console-Gentle : (x : ConsoleOptions) → Gentle (Attach.console L x)
  unfolding Attach.console
  console-Gentle x = search gentle_rules depth 12

  pub attach_shell-Gentle : (x : AttachOptions) → Gentle (Attach.attach_shell L x)
  unfolding Attach.attach_shell
  attach_shell-Gentle x = search gentle_rules depth 12

  pub run_command_status-Gentle :
      (x : List Text) (y : AttachOptions) → Gentle (Attach.run_command_status L x y)
  unfolding Attach.run_command_status
  run_command_status-Gentle [] y = search gentle_rules depth 8
  run_command_status-Gentle (a ∷ x) y = search gentle_rules depth 16

  pub run_command_no_wait-Gentle :
      (x : List Text) (y : AttachOptions) → Gentle (Attach.run_command_no_wait L x y)
  unfolding Attach.run_command_no_wait
  run_command_no_wait-Gentle [] y = search gentle_rules depth 8
  run_command_no_wait-Gentle (a ∷ x) y = search gentle_rules depth 16

  pub console_log-Gentle : (x : ConsoleLogOptions) → Gentle (Attach.console_log L x)
  unfolding Attach.console_log
  console_log-Gentle x = search (gentle_rules, log_read-Unrefused) depth 12

  pub add_device_node-Gentle : (x : Text) (y : List Text) → Gentle (Devices.add_device_node L x y)
  unfolding Devices.add_device_node
  add_device_node-Gentle x y = search gentle_rules depth 12

  pub remove_device_node-Gentle :
      (x : Text) (y : List Text) → Gentle (Devices.remove_device_node L x y)
  unfolding Devices.remove_device_node
  remove_device_node-Gentle x y = search gentle_rules depth 12

  pub checkpoint-Gentle : (x : CheckpointOptions) → Gentle (Devices.checkpoint L x)
  unfolding Devices.checkpoint
  checkpoint-Gentle x = search gentle_rules depth 12

  pub restore-Gentle : (x : RestoreOptions) → Gentle (Devices.restore L x)
  unfolding Devices.restore
  restore-Gentle x = search gentle_rules depth 12

  pub migrate-Gentle : (x : ℕ) (y : MigrateOptions) → Gentle (Devices.migrate L x y)
  unfolding Devices.migrate
  migrate-Gentle x y = search (gentle_rules, migrated-Unrefused) depth 12

  pub attach_interface-Gentle : (x : Text) (y : Text) → Gentle (Devices.attach_interface L x y)
  unfolding Devices.attach_interface
  attach_interface-Gentle x y = search gentle_rules depth 12

  pub detach_interface-Gentle : (x : Text) → Gentle (Devices.detach_interface L x)
  unfolding Devices.detach_interface
  detach_interface-Gentle x = search gentle_rules depth 12

  pub detach_interface_rename-Gentle :
      (x : Text) (y : Text) → Gentle (Devices.detach_interface_rename L x y)
  unfolding Devices.detach_interface_rename
  detach_interface_rename-Gentle x y = search gentle_rules depth 12

  as_success-gentle :
      (p : Result ℤ ℤ × State L) {s : State L}
      → (Refusal p.0 → p.1 ≡ s)
      → Refusal (Attach.as_success L p).0
      → (Attach.as_success L p).1 ≡ s
  unfolding Attach.as_success
  as_success-gentle (ok (pos n), t) h c = absurd c
  as_success-gentle (ok (negsuc n), t) h c = absurd c
  as_success-gentle (err v e, t) h c = h c
  as_success-gentle (fault x, t) h c = absurd c

  pub run_command-Gentle : (x : List Text) (y : AttachOptions) → Gentle (Attach.run_command L x y)
  unfolding Attach.run_command
  run_command-Gentle x y = record {
    at = λ s c.
        as_success-gentle (Attach.run_command_status L x y s) ((run_command_status-Gentle x y).at s)
          c;
  }

module _ {L : Liblxc} (R : Floats) where
  open R use {Float}

  -- `setCgroupItemWithByteSize` makes its own error of any that it meets.
  set_cgroup_item_with_byte_size-Unrefused :
      (filename : Text) (limit : Float) (e : LxcError)
      → Unrefused (Cgroups.set_cgroup_item_with_byte_size L R filename limit e)
  unfolding Cgroups.set_cgroup_item_with_byte_size
  set_cgroup_item_with_byte_size-Unrefused filename limit e = record { at = λ s c. ground arith }

  pub write_size-Gentle :
      (filename : Text) (e : LxcError) (limit : Float)
      → Gentle (Memory.write_size L R filename e limit)
  unfolding Memory.write_size
  write_size-Gentle filename e limit =
      search (gentle_rules, set_cgroup_item_with_byte_size-Unrefused) depth 8
