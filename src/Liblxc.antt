-- ===== src/Liblxc.antt =====
-- The C library liblxc and the host, which the bindings only call: parameters of the model. Each
-- field is a member of `struct lxc_container` of lxc/lxccontainer.h, or a function of that header,
-- over pointers `P` and a state `W` of the library and the host together. A query reads the state,
-- a command may change it. A null `char *` is `none`; a null list of strings too.
pub mod Laws
use go_lxc.Base.{ℕ, ℤ, Bool, Text, List, Option}

-- A call that answers with success or failure.
abbrev pub Command : Type 0 → Type 0
Command W = W → Bool × W

-- A call that answers with a number, negative for an error.
abbrev pub Numbered : Type 0 → Type 0
Numbered W = W → ℤ × W

-- The macros `LXC_VERSION_…` and `LXC_DEVEL` of lxc/version.h.
pub record Version : Type 0 where
  pub major : ℕ
  pub minor : ℕ
  pub micro : ℕ
  pub devel : Bool

-- What a `char *` that is not null leads to: a string, or memory that was given back.
pub data CString : Type 0 where
  valid : Text → CString
  freed : CString

-- `struct bdev_specs`
pub record BdevSpecs : Type 0 where
  pub fstype : Option CString
  pub fssize : ℕ
  pub zfsroot : Option CString
  pub vg : Option CString
  pub thinpool : Option CString
  pub rbdname : Option CString
  pub rbdpool : Option CString
  pub dir : Option CString

-- `struct lxc_snapshot`
pub record CSnapshot : Type 0 where
  pub name : Option Text
  pub comment_pathname : Option Text
  pub timestamp : Option Text
  pub lxcpath : Option Text

-- `struct migrate_opts`
pub record MigrateOpts : Type 0 where
  pub directory : Text
  pub verbose : Bool
  pub stop : Bool
  pub predump_dir : Option Text
  pub preserves_inodes : Bool
  pub action_script : Option Text
  pub ghost_limit : ℕ
  pub features_to_check : ℕ

-- `lxc_attach_options_t`, as far as the bindings set it.
pub record AttachSettings : Type 0 where
  pub attach_flags : ℕ
  pub clear_env : Bool
  pub namespaces : ℤ
  pub personality : ℤ
  pub uid : ℕ
  pub gid : ℕ
  pub groups : Option (List ℕ)
  pub stdin_fd : ℤ
  pub stdout_fd : ℤ
  pub stderr_fd : ℤ
  pub initial_cwd : Text
  pub extra_env_vars : List Text
  pub extra_keep_env : List Text

-- The constants `LXC_ATTACH_…` of lxc/attach_options.h and `LXC_CLONE_…`, `LXC_CREATE_QUIET`.
pub record Constants : Type 0 where
  pub attach_move_to_cgroup : ℕ
  pub attach_drop_capabilities : ℕ
  pub attach_lsm_exec : ℕ
  pub attach_remount_proc_sys : ℕ
  pub attach_setgroups : ℕ
  pub attach_default : ℕ
  pub clone_keepname : ℕ
  pub clone_keepmacaddr : ℕ
  pub clone_snapshot : ℕ
  pub create_quiet : ℕ

pub record InfoCalls (P W : Type 0) : Type 0 where
  pub name : P → W → Option Text
  pub is_defined : P → W → Bool
  pub is_running : P → W → Bool
  pub may_control : P → W → Bool
  pub state : P → W → Option Text
  pub init_pid : P → W → ℤ
  pub init_pidfd : P → Numbered W
  pub devpts_fd : P → Numbered W
  pub seccomp_notify_fd : P → Numbered W
  pub seccomp_notify_fd_active : P → Numbered W
  pub daemonize : P → W → Bool
  pub want_daemonize : P → Bool → Command W
  pub want_close_all_fds : P → Bool → Command W
  pub error_num : P → W → ℤ

pub record LifeCalls (P W : Type 0) : Type 0 where
  pub freeze : P → Command W
  pub unfreeze : P → Command W
  pub create : P → Option Text → Text → Option BdevSpecs → Bool → Option (List Text) → Command W
  pub start : P → Bool → Option (List Text) → Command W
  pub stop : P → Command W
  pub reboot : P → Command W
  pub shutdown : P → ℤ → Command W
  pub destroy : P → Command W
  pub destroy_with_snapshots : P → Command W
  pub clone : P → Text → Option Text → ℕ → Text → W → Option P × W
  pub rename : P → Text → Command W
  pub wait : P → Text → ℤ → Command W

pub record ConfigCalls (P W : Type 0) : Type 0 where
  pub config_file_name : P → W → Option Text
  -- The text that a call with a large enough buffer gives; `none` for a negative length.
  pub get_config_item : P → Text → W → Option Text
  pub get_cgroup_item : P → Text → W → Option Text
  pub get_keys : P → Option Text → W → Option Text
  pub get_running_config_item : P → Text → W → Option Text
  pub set_config_item : P → Text → Text → Command W
  pub set_cgroup_item : P → Text → Text → Command W
  pub clear_config : P → W → W
  pub clear_config_item : P → Text → Command W
  pub load_config : P → Text → Command W
  pub save_config : P → Text → Command W
  pub get_config_path : P → W → Option Text
  pub set_config_path : P → Text → Command W

pub record SnapshotCalls (P W : Type 0) : Type 0 where
  pub snapshot : P → Numbered W
  -- The number of snapshots, and the array.
  pub snapshot_list : P → W → (ℤ × List CSnapshot) × W
  pub snapshot_restore : P → Text → Text → Command W
  pub snapshot_destroy : P → Text → Command W
  pub snapshot_destroy_all : P → Command W

pub record DeviceCalls (P W : Type 0) : Type 0 where
  pub get_interfaces : P → W → Option (List Text)
  pub get_ips : P → Option Text → Option Text → ℕ → W → Option (List Text)
  pub add_device_node : P → Text → Option Text → Command W
  pub remove_device_node : P → Text → Option Text → Command W
  pub attach_interface : P → Text → Text → Command W
  pub detach_interface : P → Text → Option Text → Command W
  pub checkpoint : P → Text → Bool → Bool → Command W
  pub restore : P → Text → Bool → Command W
  pub migrate : P → ℕ → MigrateOpts → Numbered W

-- How `waitpid` returns: -1 with EINTR, -1 with another error, or a pid with its wait status.
pub data WaitAnswer : Type 0 where
  interrupted failed : WaitAnswer
  reaped : ℕ → ℕ → WaitAnswer

pub record AttachCalls (P W : Type 0) : Type 0 where
  -- The result, and the console's file descriptor.
  pub console_getfd : P → ℤ → W → (ℤ × ℤ) × W
  pub console : P → ℤ → ℤ → ℤ → ℤ → ℕ → Numbered W
  -- The result, the number of bytes read, and the bytes, or a null pointer, for the given clear, read
  -- and read_max.
  pub console_log : P → Bool → Bool → ℕ → W → (ℤ × ℕ × Option Text) × W
  -- Whether `malloc` finds room for a number.
  pub can_malloc : W → Bool
  -- `lxc_attach_run_shell`: the result, and the pid of the attached process.
  pub attach_shell : P → AttachSettings → W → (ℤ × ℕ) × W
  -- `lxc_attach_run_command` of a program with its arguments.
  pub attach_command : P → AttachSettings → List Text → W → (ℤ × ℕ) × W
  pub attach_run_wait : P → AttachSettings → List Text → Numbered W
  -- `waitpid` for a process.
  pub waitpid : ℕ → W → WaitAnswer × W
  -- A number of calls of `waitpid` that is enough to learn how the process ended.
  pub wait_rounds : ℕ → W → ℕ

pub record HostCalls (P W : Type 0) : Type 0 where
  pub container_new : Text → Option Text → W → Option P × W
  pub container_get : Option P → Numbered W
  pub container_put : Option P → Numbered W
  pub get_version : Text
  pub get_global_config_item : Text → W → Option Text
  -- The number of names, and the array.
  pub list_all_containers : Option Text → W → ℤ × List Text
  pub list_defined_containers : Option Text → W → ℤ × List Text
  pub list_active_containers : Option Text → W → ℤ × List Text
  pub config_item_is_supported : Text → Bool
  pub has_api_extension : Text → Bool
  pub geteuid : W → ℕ
  -- `ioutil.ReadFile`; none for an error.
  pub read_file : Text → W → Option Text
  -- `os.MkdirAll` and `os.RemoveAll`, whose errors nobody reads.
  pub mkdir_all : Text → W → W
  pub remove_all : Text → W → W
  -- `exec.Command(…).CombinedOutput()`: the output, and whether there was no error.
  pub combined_output : List Text → W → (Text × Bool) × W
  -- `time.Now()` in nanoseconds, and `time.Sleep`.
  pub now : W → ℕ
  pub sleep : ℕ → W → W
  -- Whether `calloc` finds room for so many pointers.
  pub can_calloc : ℕ → W → Bool

pub record Liblxc : Type 1 where
  pub Ptr : Type 0
  pub World : Type 0
  pub version : Version
  pub constants : Constants
  pub info : InfoCalls Ptr World
  pub life : LifeCalls Ptr World
  pub config : ConfigCalls Ptr World
  pub snaps : SnapshotCalls Ptr World
  pub device : DeviceCalls Ptr World
  pub attach : AttachCalls Ptr World
  pub host : HostCalls Ptr World
