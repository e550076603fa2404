-- ===== src/Container/Calls/Reading.antt =====
-- container.go: the methods that only answer, and what they leave of the state.
use go_lxc.Base.{ℕ, zero, suc, Option, List, [], ◌∷◌, Text, codes, text_eq, ◌≡◌, refl, ◌∙◌, arith}
use go_lxc.Errors.{LxcError}
use go_lxc.Exec.{Result, ok, err, fault, ◌>>=◌}
use go_lxc.Liblxc.{Liblxc}
use go_lxc.Floats.{Floats}
use go_lxc.Container.{State, Method}
use go_lxc.Base.Strings.{split}
use go_lxc.Container.Effects.{Still, Still-if, Still-pure, Still-fail, effect_rules}
use go_lxc.Container.Config
use go_lxc.Container.Config.{first, running_config_item}
use go_lxc.Container.Cgroups
use go_lxc.Container.Cgroups.Memory
use go_lxc.Container.Network
use go_lxc.Container.Network.{Statistics}
use go_lxc.Container.Calls.{Query, read}

module _ {L : Liblxc} {V : Type 0} where
  -- Steps that leave the state alone, one after the other.
  Still-bind :
      {A B : Type 0} (m : Method L V A) (k : A → Method L V B)
      → Still m
      → ((a : A) → Still (k a))
      → Still (m >>= k)
  Still-bind m k hm hk = record { at = λ s. after (m s) s (hm.at s) }
    where
      after : (x : Result V _ × State L) (s : State L) → x.1 ≡ s → (((λ t. x) >>= k) s).1 ≡ s
      after (ok a, t) s e = (hk a).at t ∙ e
      after (err v x, t) s e = e
      after (fault x, t) s e = e

  Still-first : (items : List Text) → Still (first {S = State L} {V = V} items)
  Still-first [] = record { at = λ s. refl }
  Still-first (t ∷ items) = record { at = λ s. refl }

  Still-first_of : (f : State L → List Text) → Still {L = L} {V = V} (λ s. first (f s) s)
  Still-first_of f = record { at = λ s. (Still-first (f s)).at s }

  Still-look : {A : Type 0} (f : State L → A) → Still {L = L} {V = V} (λ s. (ok (f s), s))
  Still-look f = record { at = λ s. refl }

ruleset still_rules = (Still-bind, Still-first, Still-first_of, Still-look, effect_rules)

module _ {L : Liblxc} (R : Floats) where
  cgroup_item_as_byte_size-Still :
      (filename : Text) (missing : LxcError)
      → Still (Cgroups.cgroup_item_as_byte_size L R filename missing)
  unfolding Cgroups.cgroup_item_as_byte_size
  cgroup_item_as_byte_size-Still filename missing = record { at = λ s. ground arith }

  pub read_size-Still :
      (filename : Text) (missing : LxcError) → Still (Memory.read_size L R filename missing)
  unfolding Memory.read_size
  read_size-Still filename missing = search (still_rules, cgroup_item_as_byte_size-Still) depth 8

  blkio_used-Still : (b : List Text) → Still (Cgroups.blkio_used L R b)
  blkio_used-Still b = record { at = λ s. ground arith }

  total_of-Still : (lines : List Text) → Still (Cgroups.total_of L R lines)
  unfolding Cgroups.total_of
  total_of-Still [] = Still-fail _ _
  total_of-Still (v ∷ vs) = Still-bind (first (split v b' ')) _ (Still-first (split v b' ')) λ head.
      Still-if (text_eq head (codes "Total")) _ _ (blkio_used-Still (split v b' '))
        (total_of-Still vs)

  pub blkio_usage-Still : Still (Cgroups.blkio_usage L R)
  unfolding Cgroups.blkio_usage
  blkio_usage-Still = search (still_rules, total_of-Still) depth 10

module _ {L : Liblxc} where
  pub cpu_time-Still : Still (Cgroups.cpu_time L)
  unfolding Cgroups.cpu_time
  cpu_time-Still = record { at = λ s. ground arith }

  parse_int_or-Still : {V : Type 0} (v : V) (t : Text) → Still {L = L} (Cgroups.parse_int_or v t)
  parse_int_or-Still v t = record { at = λ s. ground arith }

  per_cpu-Still : (i : ℕ) (vs : List Text) → Still (Cgroups.per_cpu L i vs)
  unfolding Cgroups.per_cpu
  per_cpu-Still i [] = Still-pure _
  per_cpu-Still i (v ∷ vs) =
      Still-bind (Cgroups.parse_int_or [] v) _ (parse_int_or-Still [] v) λ usage.
        Still-bind (Cgroups.per_cpu L (suc i) vs) _ (per_cpu-Still (suc i) vs) λ times. Still-pure _

  pub cpu_time_per_cpu-Still : Still (Cgroups.cpu_time_per_cpu L)
  unfolding Cgroups.cpu_time_per_cpu
  cpu_time_per_cpu-Still = search (still_rules, per_cpu-Still) depth 10

  pub cpu_stats-Still : Still (Cgroups.cpu_stats L)
  unfolding Cgroups.cpu_stats
  cpu_stats-Still = record { at = λ s. ground arith }

  pub addresses-Still :
      (interface family : Option Text) (e : LxcError)
      → Still (Network.addresses L interface family e)
  unfolding Network.addresses
  addresses-Still interface family e = record { at = λ s. ground arith }

  pub interfaces-Still : Still (Network.interfaces L)
  unfolding Network.interfaces
  interfaces-Still = record { at = λ s. ground arith }

  count_bytes-Still : (name v : Text) (st : Statistics) → Still (Network.count_bytes L name v st)
  unfolding Network.count_bytes
  count_bytes-Still name v st = record { at = λ s. ground arith }

  -- The part of a round that knows the key of the interface's name.
  named-Still : (key : Text) (st : Statistics) → Still (Network.count_named L key st)
  named-Still key st = search (still_rules, count_bytes-Still) depth 10

  round_of-Still :
      (prefix : Text) (i : ℕ) (st : Statistics) (items : List Text)
      → Still (Network.round_of L prefix i st items)
  unfolding Network.round_of
  round_of-Still prefix i st [] = Still-pure _
  round_of-Still prefix i st (type ∷ items) = named-Still _ st

  interface_round-Still :
      (prefix : Text) (i : ℕ) (st : Statistics) → Still (Network.interface_round L prefix i st)
  unfolding Network.interface_round
  interface_round-Still prefix i st = record { at = λ s. (round_of-Still prefix i st _).at s }

  interface_loop-Still :
      (prefix : Text) (left i : ℕ) (st : Statistics)
      → Still (Network.interface_loop L prefix left i st)
  unfolding Network.interface_loop
  interface_loop-Still prefix zero i st = Still-pure _
  interface_loop-Still prefix (suc left) i st =
      Still-bind _ _ (interface_round-Still prefix i st)
        λ next. interface_loop-Still prefix left (suc i) next

  pub interface_stats-Still : Still (Network.interface_stats L)
  unfolding Network.interface_stats
  interface_stats-Still = search (still_rules, interface_loop-Still) depth 10

module _ {L : Liblxc} where
  log_file-Still : Still (Config.log_file L)
  unfolding Config.log_file
  log_file-Still = Still-first_of _

  log_level-Still : Still (Config.log_level L)
  unfolding Config.log_level
  log_level-Still = search still_rules depth 6

module _ (L : Liblxc) (R : Floats) where
  -- A method that only answers changes nothing: not the container, not the library, not the arrays that
  -- the package makes; those that the library hands over are in Container/Network/Returned.
  pub read-same : (q : Query) (s : State L) → (read L R q s).1 ≡ s
  unfolding read
  read-same Query.name_of s = refl
  read-same Query.string_of s = refl
  read-same Query.is_defined s = refl
  read-same Query.is_running s = refl
  read-same Query.is_controllable s = refl
  read-same Query.state_of s = refl
  read-same Query.init_pid s = refl
  read-same Query.is_daemonized s = refl
  read-same Query.config_file_name s = refl
  read-same Query.config_path s = refl
  read-same (Query.config_item k) s = refl
  read-same (Query.running_config_item k) s = refl
  read-same (Query.cgroup_item k) s = refl
  read-same (Query.config_keys ks) s = refl
  read-same Query.memory_usage s = unfold Memory.memory_usage in (read_size-Still R _ _).at s
  read-same Query.memory_limit s = unfold Memory.memory_limit in (read_size-Still R _ _).at s
  read-same Query.soft_memory_limit s =
      unfold Memory.soft_memory_limit in (read_size-Still R _ _).at s
  read-same Query.kernel_memory_usage s =
      unfold Memory.kernel_memory_usage in (read_size-Still R _ _).at s
  read-same Query.kernel_memory_limit s =
      unfold Memory.kernel_memory_limit in (read_size-Still R _ _).at s
  read-same Query.memory_swap_usage s =
      unfold Memory.memory_swap_usage in (read_size-Still R _ _).at s
  read-same Query.memory_swap_limit s =
      unfold Memory.memory_swap_limit in (read_size-Still R _ _).at s
  read-same Query.blkio_usage s = (blkio_usage-Still R).at s
  read-same Query.cpu_time s = cpu_time-Still.at s
  read-same Query.cpu_time_per_cpu s = cpu_time_per_cpu-Still.at s
  read-same Query.cpu_stats s = cpu_stats-Still.at s
  read-same Query.interfaces s = interfaces-Still.at s
  read-same Query.interface_stats s = interface_stats-Still.at s
  read-same Query.ip_addresses s = unfold Network.ip_addresses in (addresses-Still _ _ _).at s
  read-same Query.ipv4_addresses s = unfold Network.ipv4_addresses in (addresses-Still _ _ _).at s
  read-same Query.ipv6_addresses s = unfold Network.ipv6_addresses in (addresses-Still _ _ _).at s
  read-same (Query.ip_address i) s = unfold Network.ip_address in (addresses-Still _ _ _).at s
  read-same (Query.ipv4_address i) s = unfold Network.ipv4_address in (addresses-Still _ _ _).at s
  read-same (Query.ipv6_address i) s = unfold Network.ipv6_address in (addresses-Still _ _ _).at s
  read-same Query.log_file s = log_file-Still.at s
  read-same Query.log_level s = log_level-Still.at s
