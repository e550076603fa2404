-- ===== src/Errors.antt =====
-- error.go: the sentinel errors with their messages, and the other errors that the methods return.
pub mod Messages
use Prim.Native.String.{String}
use go_lxc.Base.{ℕ, ℤ, Text, codes}

-- The constants `Err…` of error.go.
pub data LxcError : Type 0 where
  err_add_device_node_failed err_allocation_failed err_already_defined err_already_frozen : LxcError
  err_already_running err_attach_failed err_attach_interface_failed err_blkio_usage : LxcError
  err_checkpoint_failed err_clearing_config_item_failed err_clearing_cgroup_item_failed : LxcError
  err_clone_failed err_close_all_fds_failed err_create_failed err_create_snapshot_failed : LxcError
  err_daemonize_failed err_destroy_all_snapshots_failed err_destroy_failed : LxcError
  err_destroy_snapshot_failed err_destroy_with_all_snapshots_failed : LxcError
  err_detach_interface_failed err_execute_failed err_freeze_failed : LxcError
  err_insufficient_number_of_arguments err_interfaces err_ip_addresses err_ip_address : LxcError
  err_ipv4_addresses err_ipv6_addresses err_kmem_limit err_load_config_failed err_mem_limit :
      LxcError
  err_memory_swap_limit err_method_not_allowed err_new_failed err_no_snapshot : LxcError
  err_not_defined err_not_frozen err_not_running err_not_supported err_reboot_failed : LxcError
  err_remove_device_node_failed err_rename_failed err_restore_failed : LxcError
  err_restore_snapshot_failed err_save_config_failed err_setting_cgroup_item_failed : LxcError
  err_setting_config_item_failed err_setting_config_path_failed : LxcError
  err_setting_kmemory_limit_failed err_setting_memory_limit_failed : LxcError
  err_setting_memory_swap_limit_failed err_setting_soft_memory_limit_failed : LxcError
  err_shutdown_failed err_soft_mem_limit err_start_failed err_stop_failed : LxcError
  err_template_not_allowed err_unfreeze_failed err_unknown_backend_store err_release_failed :
      LxcError

-- The text of the constant, which is its value: `type lxcError string`.
unfoldable pub message : LxcError → Text
message err_add_device_node_failed = codes "adding device to container failed"
message err_allocation_failed = codes "allocating memory failed"
message err_already_defined = codes "container already defined"
message err_already_frozen = codes "container is already frozen"
message err_already_running = codes "container is already running"
message err_attach_failed = codes "attaching to the container failed"
message err_attach_interface_failed = codes "attaching specified netdev to the container failed"
message err_blkio_usage = codes "BlkioUsage for the container failed"
message err_checkpoint_failed = codes "checkpoint failed"
message err_clearing_config_item_failed = codes "clearing config item for the container failed"
message err_clearing_cgroup_item_failed = codes "clearing cgroup item for the container failed"
message err_clone_failed = codes "cloning the container failed"
message err_close_all_fds_failed = codes "setting close_all_fds flag for container failed"
message err_create_failed = codes "creating the container failed"
message err_create_snapshot_failed = codes "snapshotting the container failed"
message err_daemonize_failed = codes "setting daemonize flag for container failed"
message err_destroy_all_snapshots_failed = codes "destroying all snapshots failed"
message err_destroy_failed = codes "destroying the container failed"
message err_destroy_snapshot_failed = codes "destroying the snapshot failed"
message err_destroy_with_all_snapshots_failed =
    codes "destroying the container with all snapshots failed"
message err_detach_interface_failed = codes "detaching specified netdev to the container failed"
message err_execute_failed = codes "executing the command in a temporary container failed"
message err_freeze_failed = codes "freezing the container failed"
message err_insufficient_number_of_arguments =
    codes "insufficient number of arguments were supplied"
message err_interfaces = codes "getting interface names for the container failed"
message err_ip_addresses = codes "getting IP addresses of the container failed"
message err_ip_address = codes "getting IP address on the interface of the container failed"
message err_ipv4_addresses = codes "getting IPv4 addresses of the container failed"
message err_ipv6_addresses = codes "getting IPv6 addresses of the container failed"
message err_kmem_limit = codes "your kernel does not support cgroup kernel memory controller"
message err_load_config_failed = codes "loading config file for the container failed"
message err_mem_limit = codes "your kernel does not support cgroup memory controller"
message err_memory_swap_limit = codes "your kernel does not support cgroup swap controller"
message err_method_not_allowed =
    codes "the requested method is not currently supported with unprivileged containers"
message err_new_failed = codes "allocating the container failed"
message err_no_snapshot = codes "container has no snapshot"
message err_not_defined = codes "container is not defined"
message err_not_frozen = codes "container is not frozen"
message err_not_running = codes "container is not running"
message err_not_supported = codes "method is not supported by this LXC version"
message err_reboot_failed = codes "rebooting the container failed"
message err_remove_device_node_failed = codes "removing device from container failed"
message err_rename_failed = codes "renaming the container failed"
message err_restore_failed = codes "restore failed"
message err_restore_snapshot_failed = codes "restoring the container failed"
message err_save_config_failed = codes "saving config file for the container failed"
message err_setting_cgroup_item_failed = codes "setting cgroup item for the container failed"
message err_setting_config_item_failed = codes "setting config item for the container failed"
message err_setting_config_path_failed = codes "setting config file for the container failed"
message err_setting_kmemory_limit_failed =
    codes "setting kernel memory limit for the container failed"
message err_setting_memory_limit_failed = codes "setting memory limit for the container failed"
message err_setting_memory_swap_limit_failed =
    codes "setting memory+swap limit for the container failed"
message err_setting_soft_memory_limit_failed =
    codes "setting soft memory limit for the container failed"
message err_shutdown_failed = codes "shutting down the container failed"
message err_soft_mem_limit = codes "your kernel does not support cgroup memory controller"
message err_start_failed = codes "starting the container failed"
message err_stop_failed = codes "stopping the container failed"
message err_template_not_allowed =
    codes "unprivileged users only allowed to use \"download\" template"
message err_unfreeze_failed = codes "unfreezing the container failed"
message err_unknown_backend_store = codes "unknown backend type"
message err_release_failed = codes "releasing the container failed"

-- Everything that a method returns as its `error`.
pub data Error : Type 0 where
  -- One of the constants above.
  sentinel : LxcError → Error
  -- `fmt.Errorf("%s: %q", constant, name)`
  about : LxcError → Text → Error
  -- `errors.New(text)`
  plain : Text → Error
  -- A number that package strconv did not accept.
  bad_number : Text → Error
  -- `syscall.Errno(n)`
  errno : ℕ → Error
  -- `fmt.Errorf("migration failed %d", ret)`
  migration_failed : ℤ → Error
  -- A file that could not be read.
  unreadable : Text → Error
