-- ===== src/Errors/Messages.antt =====
-- The texts of the sentinel errors: Go compares the constants by these texts, so two constants
-- with one text are one value.
use go_lxc.Base.{◌≡◌, refl, ap, ◌∙◌, sym, Text, Option, some, List, [], ◌∷◌, lookup}
use go_lxc.Errors.{
  LxcError, message, err_add_device_node_failed, err_allocation_failed, err_already_defined,
  err_already_frozen, err_already_running, err_attach_failed, err_attach_interface_failed,
  err_blkio_usage, err_checkpoint_failed, err_clearing_config_item_failed,
  err_clearing_cgroup_item_failed, err_clone_failed, err_close_all_fds_failed, err_create_failed,
  err_create_snapshot_failed, err_daemonize_failed, err_destroy_all_snapshots_failed,
  err_destroy_failed, err_destroy_snapshot_failed, err_destroy_with_all_snapshots_failed,
  err_detach_interface_failed, err_execute_failed, err_freeze_failed,
  err_insufficient_number_of_arguments, err_interfaces, err_ip_addresses, err_ip_address,
  err_ipv4_addresses, err_ipv6_addresses, err_kmem_limit, err_load_config_failed, err_mem_limit,
  err_memory_swap_limit, err_method_not_allowed, err_new_failed, err_no_snapshot, err_not_defined,
  err_not_frozen, err_not_running, err_not_supported, err_reboot_failed,
  err_remove_device_node_failed, err_rename_failed, err_restore_failed, err_restore_snapshot_failed,
  err_save_config_failed, err_setting_cgroup_item_failed, err_setting_config_item_failed,
  err_setting_config_path_failed, err_setting_kmemory_limit_failed, err_setting_memory_limit_failed,
  err_setting_memory_swap_limit_failed, err_setting_soft_memory_limit_failed, err_shutdown_failed,
  err_soft_mem_limit, err_start_failed, err_stop_failed, err_template_not_allowed,
  err_unfreeze_failed, err_unknown_backend_store, err_release_failed,
}

abbrev all_errors : List (Text × LxcError)
unfolding message
all_errors =
    (message err_add_device_node_failed, err_add_device_node_failed)
    ∷ (message err_allocation_failed, err_allocation_failed)
    ∷ (message err_already_defined, err_already_defined)
    ∷ (message err_already_frozen, err_already_frozen)
    ∷ (message err_already_running, err_already_running)
    ∷ (message err_attach_failed, err_attach_failed)
    ∷ (message err_attach_interface_failed, err_attach_interface_failed)
    ∷ (message err_blkio_usage, err_blkio_usage)
    ∷ (message err_checkpoint_failed, err_checkpoint_failed)
    ∷ (message err_clearing_config_item_failed, err_clearing_config_item_failed)
    ∷ (message err_clearing_cgroup_item_failed, err_clearing_cgroup_item_failed)
    ∷ (message err_clone_failed, err_clone_failed)
    ∷ (message err_close_all_fds_failed, err_close_all_fds_failed)
    ∷ (message err_create_failed, err_create_failed)
    ∷ (message err_create_snapshot_failed, err_create_snapshot_failed)
    ∷ (message err_daemonize_failed, err_daemonize_failed)
    ∷ (message err_destroy_all_snapshots_failed, err_destroy_all_snapshots_failed)
    ∷ (message err_destroy_failed, err_destroy_failed)
    ∷ (message err_destroy_snapshot_failed, err_destroy_snapshot_failed)
    ∷ (message err_destroy_with_all_snapshots_failed, err_destroy_with_all_snapshots_failed)
    ∷ (message err_detach_interface_failed, err_detach_interface_failed)
    ∷ (message err_execute_failed, err_execute_failed)
    ∷ (message err_freeze_failed, err_freeze_failed)
    ∷ (message err_insufficient_number_of_arguments, err_insufficient_number_of_arguments)
    ∷ (message err_interfaces, err_interfaces)
    ∷ (message err_ip_addresses, err_ip_addresses)
    ∷ (message err_ip_address, err_ip_address)
    ∷ (message err_ipv4_addresses, err_ipv4_addresses)
    ∷ (message err_ipv6_addresses, err_ipv6_addresses)
    ∷ (message err_kmem_limit, err_kmem_limit)
    ∷ (message err_load_config_failed, err_load_config_failed)
    ∷ (message err_mem_limit, err_mem_limit)
    ∷ (message err_memory_swap_limit, err_memory_swap_limit)
    ∷ (message err_method_not_allowed, err_method_not_allowed)
    ∷ (message err_new_failed, err_new_failed)
    ∷ (message err_no_snapshot, err_no_snapshot)
    ∷ (message err_not_defined, err_not_defined)
    ∷ (message err_not_frozen, err_not_frozen)
    ∷ (message err_not_running, err_not_running)
    ∷ (message err_not_supported, err_not_supported)
    ∷ (message err_reboot_failed, err_reboot_failed)
    ∷ (message err_remove_device_node_failed, err_remove_device_node_failed)
    ∷ (message err_rename_failed, err_rename_failed)
    ∷ (message err_restore_failed, err_restore_failed)
    ∷ (message err_restore_snapshot_failed, err_restore_snapshot_failed)
    ∷ (message err_save_config_failed, err_save_config_failed)
    ∷ (message err_setting_cgroup_item_failed, err_setting_cgroup_item_failed)
    ∷ (message err_setting_config_item_failed, err_setting_config_item_failed)
    ∷ (message err_setting_config_path_failed, err_setting_config_path_failed)
    ∷ (message err_setting_kmemory_limit_failed, err_setting_kmemory_limit_failed)
    ∷ (message err_setting_memory_limit_failed, err_setting_memory_limit_failed)
    ∷ (message err_setting_memory_swap_limit_failed, err_setting_memory_swap_limit_failed)
    ∷ (message err_setting_soft_memory_limit_failed, err_setting_soft_memory_limit_failed)
    ∷ (message err_shutdown_failed, err_shutdown_failed)
    ∷ (message err_soft_mem_limit, err_soft_mem_limit)
    ∷ (message err_start_failed, err_start_failed)
    ∷ (message err_stop_failed, err_stop_failed)
    ∷ (message err_template_not_allowed, err_template_not_allowed)
    ∷ (message err_unfreeze_failed, err_unfreeze_failed)
    ∷ (message err_unknown_backend_store, err_unknown_backend_store)
    ∷ (message err_release_failed, err_release_failed)
    ∷ []

-- The constant of a text; the first of those that share it.
unfoldable pub error_of : Text → Option LxcError
unfolding lookup message
error_of s = lookup s all_errors

abbrev same_text : LxcError → LxcError
same_text err_soft_mem_limit = err_mem_limit
same_text e = e

error_of-message : (e : LxcError) → error_of (message e) ≡ some (same_text e)
unfolding error_of
error_of-message err_add_device_node_failed = refl
error_of-message err_allocation_failed = refl
error_of-message err_already_defined = refl
error_of-message err_already_frozen = refl
error_of-message err_already_running = refl
error_of-message err_attach_failed = refl
error_of-message err_attach_interface_failed = refl
error_of-message err_blkio_usage = refl
error_of-message err_checkpoint_failed = refl
error_of-message err_clearing_config_item_failed = refl
error_of-message err_clearing_cgroup_item_failed = refl
error_of-message err_clone_failed = refl
error_of-message err_close_all_fds_failed = refl
error_of-message err_create_failed = refl
error_of-message err_create_snapshot_failed = refl
error_of-message err_daemonize_failed = refl
error_of-message err_destroy_all_snapshots_failed = refl
error_of-message err_destroy_failed = refl
error_of-message err_destroy_snapshot_failed = refl
error_of-message err_destroy_with_all_snapshots_failed = refl
error_of-message err_detach_interface_failed = refl
error_of-message err_execute_failed = refl
error_of-message err_freeze_failed = refl
error_of-message err_insufficient_number_of_arguments = refl
error_of-message err_interfaces = refl
error_of-message err_ip_addresses = refl
error_of-message err_ip_address = refl
error_of-message err_ipv4_addresses = refl
error_of-message err_ipv6_addresses = refl
error_of-message err_kmem_limit = refl
error_of-message err_load_config_failed = refl
error_of-message err_mem_limit = refl
error_of-message err_memory_swap_limit = refl
error_of-message err_method_not_allowed = refl
error_of-message err_new_failed = refl
error_of-message err_no_snapshot = refl
error_of-message err_not_defined = refl
error_of-message err_not_frozen = refl
error_of-message err_not_running = refl
error_of-message err_not_supported = refl
error_of-message err_reboot_failed = refl
error_of-message err_remove_device_node_failed = refl
error_of-message err_rename_failed = refl
error_of-message err_restore_failed = refl
error_of-message err_restore_snapshot_failed = refl
error_of-message err_save_config_failed = refl
error_of-message err_setting_cgroup_item_failed = refl
error_of-message err_setting_config_item_failed = refl
error_of-message err_setting_config_path_failed = refl
error_of-message err_setting_kmemory_limit_failed = refl
error_of-message err_setting_memory_limit_failed = refl
error_of-message err_setting_memory_swap_limit_failed = refl
error_of-message err_setting_soft_memory_limit_failed = refl
error_of-message err_shutdown_failed = refl
error_of-message err_soft_mem_limit = refl
error_of-message err_start_failed = refl
error_of-message err_stop_failed = refl
error_of-message err_template_not_allowed = refl
error_of-message err_unfreeze_failed = refl
error_of-message err_unknown_backend_store = refl
error_of-message err_release_failed = refl

some_injective : {a b : LxcError} → some a ≡ some b → a ≡ b
some_injective h = cc

-- Two constants with one text are the same constant, or the two memory limits.
message_injective : (d e : LxcError) → message d ≡ message e → same_text d ≡ same_text e
message_injective d e h =
    some_injective (sym (error_of-message d) ∙ ap error_of h ∙ error_of-message e)
