-- ===== src/Container/Devices.antt =====
-- container.go: device nodes, network devices, checkpoints and migration.
pub mod Migration
use go_lxc.Base.{
  to_uint32, ℤ, ℕ, pos, negsuc, false, Option, none, some, List, [], ◌∷◌, Text, ◌==◌, if◌then◌else◌,
  bit_or,
}
use go_lxc.Base.Strings.{c_string}
use go_lxc.Errors.{
  migration_failed, err_add_device_node_failed, err_remove_device_node_failed,
  err_checkpoint_failed, err_restore_failed, err_attach_interface_failed,
  err_detach_interface_failed,
}
use go_lxc.Exec.{pure, fail, ◌>>=◌, ◌>>◌}
use go_lxc.Liblxc.{Liblxc, MigrateOpts}
use go_lxc.Types.{migrate_restore}
use go_lxc.Options.{CheckpointOptions, RestoreOptions, MigrateOptions}
use go_lxc.Binding.{
  go_lxc_checkpoint, go_lxc_restore, go_lxc_migrate, go_lxc_attach_interface,
  go_lxc_detach_interface,
}
use go_lxc.Container.{
  Action, is_not_defined, is_running, is_privileged, is_at_least_lxc11, is_at_least_lxc20,
  handle_or, sure, call, must, make_sure,
}

-- The one destination, if exactly one is given.
abbrev one_destination : List Text → Option Text
one_destination (d ∷ []) = some (c_string d)
one_destination _ = none

abbrev path_or_null : Text → Option Text
path_or_null [] = none
path_or_null (c ∷ s) = some (c_string (c ∷ s))

module _ (L : Liblxc) where
  open L use {device}

  -- `AddDeviceNode`
  unfoldable pub add_device_node : Text → List Text → Action L
  unfolding make_sure
  add_device_node source destination = do
    p ← handle_or tt
    sure tt (bit_or is_running is_privileged)
    must tt err_add_device_node_failed
        (device.add_device_node p (c_string source) (one_destination destination))

  -- `RemoveDeviceNode`
  unfoldable pub remove_device_node : Text → List Text → Action L
  unfolding make_sure
  remove_device_node source destination = do
    p ← handle_or tt
    sure tt (bit_or is_running is_privileged)
    must tt err_remove_device_node_failed
        (device.remove_device_node p (c_string source) (one_destination destination))

  -- `Checkpoint`
  unfoldable pub checkpoint : CheckpointOptions → Action L
  unfolding make_sure go_lxc_checkpoint
  checkpoint o = do
    p ← handle_or tt
    sure tt (bit_or is_running is_at_least_lxc11)
    must tt err_checkpoint_failed (go_lxc_checkpoint L p (c_string o.directory) o.stop o.verbose)

  -- `Restore`
  unfoldable pub restore : RestoreOptions → Action L
  unfolding make_sure go_lxc_restore
  restore o = do
    p ← handle_or tt
    sure tt is_at_least_lxc11
    must tt err_restore_failed (go_lxc_restore L p (c_string o.directory) o.verbose)

  -- `copts` of `Migrate`: the fields that every version has.
  abbrev common_options : MigrateOptions → MigrateOpts
  common_options o = record {
    directory = c_string o.directory;
    verbose = o.verbose;
    stop = o.stop;
    predump_dir = path_or_null o.predump_dir;
    preserves_inodes = false;
    action_script = none;
    ghost_limit = 0;
    features_to_check = 0;
  }

  -- With the fields of `extras`.
  abbrev extra_options : MigrateOptions → MigrateOpts
  extra_options o = record (common_options o) {
    preserves_inodes = o.preserves_inodes;
    action_script = path_or_null o.action_script;
    ghost_limit = o.ghost_limit;
    features_to_check = o.features_to_check;
  }

  -- What `Migrate` makes of the result: `ret != 0` is an error.
  unfoldable pub migrated : ℤ → Action L
  migrated (pos n) = if n == 0 then pure tt else fail tt (migration_failed (pos n))
  migrated (negsuc n) = fail tt (migration_failed (negsuc n))

  -- `Migrate`; C is given the command in 32 bits.
  unfoldable pub migrate : ℕ → MigrateOptions → Action L
  unfolding make_sure migrated go_lxc_migrate to_uint32
  migrate cmd o = do
    p ← handle_or tt
    sure tt (bit_or is_not_defined is_at_least_lxc20)
    if cmd == migrate_restore then pure tt else sure tt is_running
    ret ← call (go_lxc_migrate L p (to_uint32 (pos cmd)) (common_options o) (extra_options o))
    migrated ret

  -- `AttachInterface`
  unfoldable pub attach_interface : Text → Text → Action L
  unfolding make_sure go_lxc_attach_interface
  attach_interface source destination = do
    p ← handle_or tt
    sure tt (bit_or (bit_or is_running is_privileged) is_at_least_lxc11)
    must tt err_attach_interface_failed
        (go_lxc_attach_interface L p (c_string source) (c_string destination))

  -- `DetachInterface`
  unfoldable pub detach_interface : Text → Action L
  unfolding make_sure go_lxc_detach_interface
  detach_interface source = do
    p ← handle_or tt
    sure tt (bit_or (bit_or is_running is_privileged) is_at_least_lxc11)
    must tt err_detach_interface_failed (go_lxc_detach_interface L p (c_string source) none)

  -- `DetachInterfaceRename`
  unfoldable pub detach_interface_rename : Text → Text → Action L
  unfolding make_sure go_lxc_detach_interface
  detach_interface_rename source target = do
    p ← handle_or tt
    sure tt (bit_or (bit_or is_running is_privileged) is_at_least_lxc11)
    must tt err_detach_interface_failed
        (go_lxc_detach_interface L p (c_string source) (some (c_string target)))
