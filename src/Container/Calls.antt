-- ===== src/Container/Calls.antt =====
-- container.go: the calls that goroutines make of one Container, with the lock that each takes in its
-- first line: `mu.RLock` or `mu.Lock`, given back when the method returns. `ErrorNum` takes none.
-- `WaitIPAddresses`, which sleeps while it shares the lock, goes at most as many rounds as its timeout
-- has seconds, and one more.
pub mod Steady
pub mod Reading
pub mod Interleaved
pub mod Unlocked
pub mod Linear
use go_lxc.Base.{ℕ, suc, ◌/◌, ℤ, Bool, Option, List, Text}
use go_lxc.Exec.{Result}
use go_lxc.Liblxc.{Liblxc}
use go_lxc.Floats.{Floats}
use go_lxc.Locking.{Mode, shared, exclusive}
use go_lxc.Container.{State, Method, name, defined, running}
use go_lxc.Container.Handle
use go_lxc.Container.Config
use go_lxc.Container.Cgroups
use go_lxc.Container.Cgroups.Memory
use go_lxc.Container.Network
use go_lxc.Container.Network.{Statistics}
use go_lxc.Container.Execute
use go_lxc.Container.Operations.{Request, Reply, run}

-- The methods that only answer.
pub data Query : Type 0 where
  name_of string_of is_defined is_running is_controllable state_of : Query
  init_pid is_daemonized config_file_name config_path : Query
  config_item running_config_item cgroup_item : Text → Query
  config_keys : List Text → Query
  memory_usage memory_limit soft_memory_limit : Query
  kernel_memory_usage kernel_memory_limit memory_swap_usage memory_swap_limit : Query
  blkio_usage cpu_time cpu_time_per_cpu cpu_stats : Query
  interfaces interface_stats ip_addresses ipv4_addresses ipv6_addresses : Query
  ip_address ipv4_address ipv6_address : Text → Query
  log_file log_level : Query

-- What a call returns, by the type that Go gives it; of a request, how it ended.
pub data Answer (F : Type 0) : Type 0 where
  replied : Reply → Answer F
  text : Text → Answer F
  texts : List Text → Answer F
  truth : Bool → Answer F
  constant : ℕ → Answer F
  number : ℤ → Answer F
  size : Result F F → Answer F
  time : Result ℤ ℤ → Answer F
  times : Result (List (ℕ × ℤ)) (List (ℕ × ℤ)) → Answer F
  counters : Result (List (Text × ℤ)) (List (Text × ℤ)) → Answer F
  statistics : Result Statistics Statistics → Answer F
  names : Result (List Text) (List Text) → Answer F
  file : Result Text Text → Answer F
  level : Result ℕ ℕ → Answer F
  output : Result (Option Text) (Option Text) → Answer F
  addresses : Option (Result (List Text) (List Text)) → Answer F

pub data Call (F : Type 0) : Type 0 where
  asks : Query → Call F
  requests : Request F → Call F
  executes : List Text → Call F
  awaits : ℕ → Call F

-- The lock that the method takes in its first line.
unfoldable pub lock_of : {F : Type 0} → Call F → Mode
lock_of (asks q) = shared
lock_of (awaits timeout) = shared
lock_of (executes args) = exclusive
lock_of (requests Request.init_pid_fd) = shared
lock_of (requests Request.devpts_fd) = shared
lock_of (requests Request.seccomp_notify_fd) = shared
lock_of (requests Request.seccomp_notify_fd_active) = shared
lock_of (requests Request.snapshots) = shared
lock_of (requests _) = exclusive

abbrev tells : {S F A : Type 0} → A → S → (A → Answer F) → Answer F × S
tells a s f = (f a, s)

abbrev gives : {S F V B : Type 0} → Result V B × S → (Result V B → Answer F) → Answer F × S
gives (r, t) f = (f r, t)

module _ (L : Liblxc) where
  -- The rounds of `WaitIPAddresses` for a timeout.
  abbrev pub most_rounds : ℕ → ℕ
  most_rounds timeout = suc (timeout / Network.second_ns L)

module _ (L : Liblxc) (R : Floats) where
  open R use {Float}

  -- The methods of container.go that only answer, as they are called from outside.
  unfoldable pub read : Query → State L → Answer Float × State L
  unfolding Handle.state Handle.controllable Handle.init_pid Handle.daemonize
      Config.config_file_name Config.config_path Config.config_item Config.running_config_item
      Config.cgroup_item Config.config_keys Execute.string Memory.memory_usage Memory.memory_limit
      Memory.soft_memory_limit Memory.kernel_memory_usage Memory.kernel_memory_limit
      Memory.memory_swap_usage Memory.memory_swap_limit Cgroups.blkio_usage Cgroups.cpu_time
      Cgroups.cpu_time_per_cpu Cgroups.cpu_stats Network.interfaces Network.interface_stats
      Network.ip_addresses Network.ipv4_addresses Network.ipv6_addresses Network.ip_address
      Network.ipv4_address Network.ipv6_address Config.log_file Config.log_level
  read name_of s = tells (name L s) s text
  read string_of s = tells (Execute.string L s) s text
  read is_defined s = tells (defined L s) s truth
  read is_running s = tells (running L s) s truth
  read is_controllable s = tells (Handle.controllable L s) s truth
  read state_of s = tells (Handle.state L s) s constant
  read init_pid s = tells (Handle.init_pid L s) s number
  read is_daemonized s = tells (Handle.daemonize L s) s truth
  read config_file_name s = tells (Config.config_file_name L s) s text
  read config_path s = tells (Config.config_path L s) s text
  read (config_item k) s = tells (Config.config_item L k s) s texts
  read (running_config_item k) s = tells (Config.running_config_item L k s) s texts
  read (cgroup_item k) s = tells (Config.cgroup_item L k s) s texts
  read (config_keys ks) s = tells (Config.config_keys L ks s) s texts
  read memory_usage s = gives (Memory.memory_usage L R s) size
  read memory_limit s = gives (Memory.memory_limit L R s) size
  read soft_memory_limit s = gives (Memory.soft_memory_limit L R s) size
  read kernel_memory_usage s = gives (Memory.kernel_memory_usage L R s) size
  read kernel_memory_limit s = gives (Memory.kernel_memory_limit L R s) size
  read memory_swap_usage s = gives (Memory.memory_swap_usage L R s) size
  read memory_swap_limit s = gives (Memory.memory_swap_limit L R s) size
  read blkio_usage s = gives (Cgroups.blkio_usage L R s) size
  read cpu_time s = gives (Cgroups.cpu_time L s) time
  read cpu_time_per_cpu s = gives (Cgroups.cpu_time_per_cpu L s) times
  read cpu_stats s = gives (Cgroups.cpu_stats L s) counters
  read interfaces s = gives (Network.interfaces L s) names
  read interface_stats s = gives (Network.interface_stats L s) statistics
  read ip_addresses s = gives (Network.ip_addresses L s) names
  read ipv4_addresses s = gives (Network.ipv4_addresses L s) names
  read ipv6_addresses s = gives (Network.ipv6_addresses L s) names
  read (ip_address i) s = gives (Network.ip_address L i s) names
  read (ipv4_address i) s = gives (Network.ipv4_address L i s) names
  read (ipv6_address i) s = gives (Network.ipv6_address L i s) names
  read log_file s = gives (Config.log_file L s) file
  read log_level s = gives (Config.log_level L s) level

  -- A call from its first line to its return.
  unfoldable pub run_call : Call Float → State L → Answer Float × State L
  unfolding read run Execute.execute Network.wait_ip_addresses
  run_call (asks q) s = read q s
  run_call (requests q) s = let (r, t) = run L R q s in (replied r, t)
  run_call (executes args) s = gives (Execute.execute L args s) output
  run_call (awaits timeout) s =
      let (r, t) = Network.wait_ip_addresses L (most_rounds L timeout) timeout s in (addresses r, t)
