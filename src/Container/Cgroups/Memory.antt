-- ===== src/Container/Cgroups/Memory.antt =====
-- container.go: the memory limits and counters, each over its cgroup file.
use go_lxc.Base.{Text, codes, minus_one}
use go_lxc.Errors.{
  LxcError, err_mem_limit, err_setting_memory_limit_failed, err_soft_mem_limit,
  err_setting_soft_memory_limit_failed, err_kmem_limit, err_setting_kmemory_limit_failed,
  err_memory_swap_limit, err_setting_memory_swap_limit_failed,
}
use go_lxc.Exec.{◌>>◌}
use go_lxc.Liblxc.{Liblxc}
use go_lxc.Floats.{Floats}
use go_lxc.Container.{Action, Method, is_running, sure, make_sure}
use go_lxc.Container.Cgroups.{cgroup_item_as_byte_size, set_cgroup_item_with_byte_size}

module _ (L : Liblxc) (R : Floats) where
  open R use {Float, of_ℤ}

  -- The body that the methods which read a file share.
  unfoldable pub read_size : Text → LxcError → Method L Float Float
  unfolding make_sure cgroup_item_as_byte_size
  read_size filename missing = do
    sure (of_ℤ minus_one) is_running
    cgroup_item_as_byte_size L R filename missing

  -- The body that the methods which write a file share.
  unfoldable pub write_size : Text → LxcError → Float → Action L
  unfolding make_sure set_cgroup_item_with_byte_size
  write_size filename missing limit = do
    sure tt is_running
    set_cgroup_item_with_byte_size L R filename limit missing

  -- `MemoryUsage`
  unfoldable pub memory_usage : Method L Float Float
  unfolding read_size
  memory_usage = read_size (codes "memory.usage_in_bytes") err_mem_limit

  -- `MemoryLimit`
  unfoldable pub memory_limit : Method L Float Float
  unfolding read_size
  memory_limit = read_size (codes "memory.limit_in_bytes") err_mem_limit

  -- `SetMemoryLimit`
  unfoldable pub set_memory_limit : Float → Action L
  unfolding write_size
  set_memory_limit = write_size (codes "memory.limit_in_bytes") err_setting_memory_limit_failed

  -- `SoftMemoryLimit`
  unfoldable pub soft_memory_limit : Method L Float Float
  unfolding read_size
  soft_memory_limit = read_size (codes "memory.soft_limit_in_bytes") err_soft_mem_limit

  -- `SetSoftMemoryLimit`
  unfoldable pub set_soft_memory_limit : Float → Action L
  unfolding write_size
  set_soft_memory_limit =
      write_size (codes "memory.soft_limit_in_bytes") err_setting_soft_memory_limit_failed

  -- `KernelMemoryUsage`
  unfoldable pub kernel_memory_usage : Method L Float Float
  unfolding read_size
  kernel_memory_usage = read_size (codes "memory.kmem.usage_in_bytes") err_kmem_limit

  -- `KernelMemoryLimit`
  unfoldable pub kernel_memory_limit : Method L Float Float
  unfolding read_size
  kernel_memory_limit = read_size (codes "memory.kmem.limit_in_bytes") err_kmem_limit

  -- `SetKernelMemoryLimit`
  unfoldable pub set_kernel_memory_limit : Float → Action L
  unfolding write_size
  set_kernel_memory_limit =
      write_size (codes "memory.kmem.limit_in_bytes") err_setting_kmemory_limit_failed

  -- `MemorySwapUsage`
  unfoldable pub memory_swap_usage : Method L Float Float
  unfolding read_size
  memory_swap_usage = read_size (codes "memory.memsw.usage_in_bytes") err_memory_swap_limit

  -- `MemorySwapLimit`
  unfoldable pub memory_swap_limit : Method L Float Float
  unfolding read_size
  memory_swap_limit = read_size (codes "memory.memsw.limit_in_bytes") err_memory_swap_limit

  -- `SetMemorySwapLimit`
  unfoldable pub set_memory_swap_limit : Float → Action L
  unfolding write_size
  set_memory_swap_limit =
      write_size (codes "memory.memsw.limit_in_bytes") err_setting_memory_swap_limit_failed
