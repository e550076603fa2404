-- ===== src/Container/Cgroups/Limits.antt =====
-- container.go: what is set as a memory limit is what is read as the limit.
use go_lxc.Base.{ℕ, true, none, some, ◌++◌, Text, codes, ◌≡◌, refl, ap, ◌∙◌, arith}
use go_lxc.Base.Strings.{c_string}
use go_lxc.Base.Decimal.{format}
use go_lxc.Base.Decimal.RoundTrip.{format-Lacks}
use go_lxc.Errors.{LxcError}
use go_lxc.Exec.{ok}
use go_lxc.Liblxc.{Liblxc}
use go_lxc.Floats.{Floats}
use go_lxc.Container.{State, Action, Method, make_sure, is_running}
use go_lxc.Container.Config.{set_cgroup_item}
use go_lxc.Container.Cgroups.{cgroup_item_as_byte_size, set_cgroup_item_with_byte_size}
use go_lxc.Container.Cgroups.Memory.{
  read_size, write_size, memory_limit, set_memory_limit, soft_memory_limit, set_soft_memory_limit,
  kernel_memory_limit, set_kernel_memory_limit, memory_swap_limit, set_memory_swap_limit,
}
use go_lxc.Container.Cgroups.Figures.{cgroup_item-line, format-Head, format-Last}

-- The limits that have a setter and a getter.
pub data Limit : Type 0 where
  whole : Limit
  soft : Limit
  kernel : Limit
  swap : Limit

module _ (L : Liblxc) (R : Floats) where
  open L use {Ptr, World, config}
  open R use {Float, parse_float, print_whole}

  -- The file of the limit.
  abbrev pub file_of : Limit → Text
  file_of whole = codes "memory.limit_in_bytes"
  file_of soft = codes "memory.soft_limit_in_bytes"
  file_of kernel = codes "memory.kmem.limit_in_bytes"
  file_of swap = codes "memory.memsw.limit_in_bytes"

  -- In this state the kernel keeps a number that is written to the file, and prints it with a newline
  -- after it.
  abbrev KeepsNumber : Text → ℕ → Ptr → World → Type 0
  KeepsNumber key n p w =
      (config.set_cgroup_item p (c_string key) (c_string (format n)) w).0 ≡ true
      → config.get_cgroup_item p (c_string key)
          (config.set_cgroup_item p (c_string key) (c_string (format n)) w).1
        ≡ some (format n ++ codes "\n")

  -- It does so for the file of the limit, where the number is a whole number of pages.
  abbrev pub KeepsLimit : Limit → ℕ → Ptr → World → Type 0
  KeepsLimit l n p w = KeepsNumber (file_of l) n p w

  -- A float64 that is the natural number, as far as it is printed and parsed.
  abbrev pub IsNumber : Float → ℕ → Type 0
  IsNumber x n = (print_whole x ≡ format n) × (parse_float (format n) ≡ some x)

  write_size_ok :
      (key : Text) (missing : LxcError) (n : ℕ) (x : Float) (p : Ptr) (s : State L)
      → IsNumber x n
      → s.handle ≡ some p
      → (write_size L R key missing x s).0 ≡ ok tt
      → ((config.set_cgroup_item p (c_string key) (c_string (format n)) s.world).0 ≡ true)
        × ((write_size L R key missing x s).1.handle ≡ some p)
        × ((write_size L R key missing x s).1.world
            ≡ (config.set_cgroup_item p (c_string key) (c_string (format n)) s.world).1)
  unfolding write_size set_cgroup_item_with_byte_size set_cgroup_item
  write_size_ok key missing n x p s number e done = ground (arith, number.0, e, done)

  size_kept :
      (key : Text) (missing failed : LxcError) (n : ℕ) (x : Float) (p : Ptr) (s : State L)
      → KeepsNumber key n p s.world
      → IsNumber x n
      → s.handle ≡ some p
      → (write_size L R key failed x s).0 ≡ ok tt
      → make_sure L is_running (write_size L R key failed x s).1 ≡ none
      → (read_size L R key missing (write_size L R key failed x s).1).0 ≡ ok x
  unfolding read_size cgroup_item_as_byte_size
  size_kept key missing failed n x p s keeps number e done runs =
      let (was, same, w) = write_size_ok key failed n x p s number e done in
      let line =
        cgroup_item-line L (write_size L R key failed x s).1 p key (format n) (codes "\n")
          (same, ap (config.get_cgroup_item p (c_string key)) w ∙ keeps was, (refl, tt))
          (format-Head n) (format-Last n) (format-Lacks b'\n' n (omega arith)) in
      ground (arith, runs, line, number.1)

  -- The setter and the getter of a limit.
  unfoldable pub setter : Limit → Float → Action L
  unfolding set_memory_limit set_soft_memory_limit set_kernel_memory_limit set_memory_swap_limit
  setter whole = set_memory_limit L R
  setter soft = set_soft_memory_limit L R
  setter kernel = set_kernel_memory_limit L R
  setter swap = set_memory_swap_limit L R

  unfoldable pub getter : Limit → Method L Float Float
  unfolding memory_limit soft_memory_limit kernel_memory_limit memory_swap_limit
  getter whole = memory_limit L R
  getter soft = soft_memory_limit L R
  getter kernel = kernel_memory_limit L R
  getter swap = memory_swap_limit L R

  -- A memory limit, soft memory limit, kernel memory limit or memory and swap limit that its setter
  -- set without an error is what its getter reads, if the container then runs. The container was
  -- not released; the limit is a natural number that ParseFloat reads from the text that "%.f" prints,
  -- and that the kernel keeps as it is in
  -- the file of that limit.
  pub limit_read_back :
      (l : Limit) (n : ℕ) (x : Float) (p : Ptr) (s : State L)
      → KeepsLimit l n p s.world
      → IsNumber x n
      → s.handle ≡ some p
      → (setter l x s).0 ≡ ok tt
      → make_sure L is_running (setter l x s).1 ≡ none
      → (getter l (setter l x s).1).0 ≡ ok x
  unfolding setter getter
  limit_read_back whole n x p s keeps number e = size_kept _ _ _ n x p s keeps number e
  limit_read_back soft n x p s keeps number e = size_kept _ _ _ n x p s keeps number e
  limit_read_back kernel n x p s keeps number e = size_kept _ _ _ n x p s keeps number e
  limit_read_back swap n x p s keeps number e = size_kept _ _ _ n x p s keeps number e
