-- ===== src/Container/Calls/Steady/Commands.antt =====
-- container.go: methods that assign no field: consoles, commands, devices, limits and Execute.
use go_lxc.Base.{ℕ, ℤ, pos, negsuc, List, [], ◌∷◌, Text, refl, arith}
use go_lxc.Errors.{LxcError}
use go_lxc.Exec.{Result, ok, err, fault}
use go_lxc.Liblxc.{Liblxc}
use go_lxc.Floats.{Floats}
use go_lxc.Options.{
  AttachOptions, ConsoleOptions, CheckpointOptions, RestoreOptions, MigrateOptions,
  ConsoleLogOptions,
}
use go_lxc.Container.{State, Method}
use go_lxc.Container.Config
use go_lxc.Container.Cgroups
use go_lxc.Container.Cgroups.Memory
use go_lxc.Container.Attach
use go_lxc.Container.Devices
use go_lxc.Container.Execute
use go_lxc.Container.Calls.Steady.{SameFields, IsSteady, steady_rules}
use go_lxc.Container.Calls.Steady.Life.{
  migrated-IsSteady, log_read-IsSteady, save_config_file-IsSteady,
}

module _ {L : Liblxc} where
  pub console_fd-IsSteady : (x : ℤ) → IsSteady (Attach.console_fd L x)
  unfolding Attach.console_fd
  console_fd-IsSteady x = search steady_rules depth 12

  pub console-IsSteady : (x : ConsoleOptions) → IsSteady (Attach.console L x)
  unfolding Attach.console
  console-IsSteady x = search steady_rules depth 12

  pub attach_shell-IsSteady : (x : AttachOptions) → IsSteady (Attach.attach_shell L x)
  unfolding Attach.attach_shell
  attach_shell-IsSteady x = search steady_rules depth 12

  pub run_command_status-IsSteady :
      (x : List Text) (y : AttachOptions) → IsSteady (Attach.run_command_status L x y)
  unfolding Attach.run_command_status
  run_command_status-IsSteady [] y = search steady_rules depth 8
  run_command_status-IsSteady (a ∷ x) y = search steady_rules depth 16

  pub run_command_no_wait-IsSteady :
      (x : List Text) (y : AttachOptions) → IsSteady (Attach.run_command_no_wait L x y)
  unfolding Attach.run_command_no_wait
  run_command_no_wait-IsSteady [] y = search steady_rules depth 8
  run_command_no_wait-IsSteady (a ∷ x) y = search steady_rules depth 16

  pub console_log-IsSteady : (x : ConsoleLogOptions) → IsSteady (Attach.console_log L x)
  unfolding Attach.console_log
  console_log-IsSteady x = search (steady_rules, log_read-IsSteady) depth 12

  pub add_device_node-IsSteady :
      (x : Text) (y : List Text) → IsSteady (Devices.add_device_node L x y)
  unfolding Devices.add_device_node
  add_device_node-IsSteady x y = search steady_rules depth 12

  pub remove_device_node-IsSteady :
      (x : Text) (y : List Text) → IsSteady (Devices.remove_device_node L x y)
  unfolding Devices.remove_device_node
  remove_device_node-IsSteady x y = search steady_rules depth 12

  pub checkpoint-IsSteady : (x : CheckpointOptions) → IsSteady (Devices.checkpoint L x)
  unfolding Devices.checkpoint
  checkpoint-IsSteady x = search steady_rules depth 12

  pub restore-IsSteady : (x : RestoreOptions) → IsSteady (Devices.restore L x)
  unfolding Devices.restore
  restore-IsSteady x = search steady_rules depth 12

  pub migrate-IsSteady : (x : ℕ) (y : MigrateOptions) → IsSteady (Devices.migrate L x y)
  unfolding Devices.migrate
  migrate-IsSteady x y = search (steady_rules, migrated-IsSteady) depth 12

  pub attach_interface-IsSteady : (x : Text) (y : Text) → IsSteady (Devices.attach_interface L x y)
  unfolding Devices.attach_interface
  attach_interface-IsSteady x y = search steady_rules depth 12

  pub detach_interface-IsSteady : (x : Text) → IsSteady (Devices.detach_interface L x)
  unfolding Devices.detach_interface
  detach_interface-IsSteady x = search steady_rules depth 12

  pub detach_interface_rename-IsSteady :
      (x : Text) (y : Text) → IsSteady (Devices.detach_interface_rename L x y)
  unfolding Devices.detach_interface_rename
  detach_interface_rename-IsSteady x y = search steady_rules depth 12

  as_success-fields :
      (p : Result ℤ ℤ × State L) (s : State L)
      → SameFields s p.1
      → SameFields s (Attach.as_success L p).1
  unfolding Attach.as_success
  as_success-fields (ok (pos n), t) s h = h
  as_success-fields (ok (negsuc n), t) s h = h
  as_success-fields (err v e, t) s h = h
  as_success-fields (fault x, t) s h = h

  pub run_command-IsSteady :
      (x : List Text) (y : AttachOptions) → IsSteady (Attach.run_command L x y)
  unfolding Attach.run_command
  run_command-IsSteady x y = record {
    at = λ s.
        as_success-fields (Attach.run_command_status L x y s) s
          ((run_command_status-IsSteady x y).at s);
  }

module _ {L : Liblxc} (R : Floats) where
  open R use {Float}

  pub set_cgroup_item_with_byte_size-IsSteady :
      (filename : Text) (limit : Float) (e : LxcError)
      → IsSteady (Cgroups.set_cgroup_item_with_byte_size L R filename limit e)
  unfolding Cgroups.set_cgroup_item_with_byte_size Config.set_cgroup_item
  set_cgroup_item_with_byte_size-IsSteady filename limit e = record { at = λ s. ground arith }

  pub write_size-IsSteady :
      (filename : Text) (e : LxcError) (limit : Float)
      → IsSteady (Memory.write_size L R filename e limit)
  unfolding Memory.write_size
  write_size-IsSteady filename e limit =
      search (steady_rules, set_cgroup_item_with_byte_size-IsSteady) depth 8

module _ {L : Liblxc} where
  pub tell-IsSteady : {V : Type 0} (f : L.World → L.World) → IsSteady (Execute.tell L {V = V} f)
  tell-IsSteady f = record { at = λ s. (refl, refl) }

  pub ignore_error-IsSteady :
      {V : Type 0} (m : Method L (Unit {0}) (Unit {0}))
      → IsSteady m
      → IsSteady (Execute.ignore_error L {V = V} m)
  ignore_error-IsSteady m h = record { at = λ s. h.at s }

  pub execute-IsSteady : (args : List Text) → IsSteady (Execute.execute L args)
  unfolding Execute.execute
  execute-IsSteady args =
      search (steady_rules, tell-IsSteady, ignore_error-IsSteady, save_config_file-IsSteady) depth
        16
