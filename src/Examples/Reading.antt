-- ===== src/Examples/Reading.antt =====
-- examples: the programs that only look at a Container (stats, interfaces, ipaddress, list_keys), and those
-- that go through all of them (list, list_snapshots, destroy_snapshots).
use go_lxc.Base.{ℕ, ◌+◌, none, List, [], ◌∷◌, ◌++◌, Text, codes}
use go_lxc.Base.Decimal.{format}
use go_lxc.Exec.{ok, err, fault}
use go_lxc.Liblxc.{Liblxc}
use go_lxc.Floats.{Floats}
use go_lxc.Memory.{CHeap}
use go_lxc.Types.State.{state_string}
use go_lxc.Container.{State, Method, name}
use go_lxc.Container.Handle.{state}
use go_lxc.Container.Config.{config_item, config_keys}
use go_lxc.Container.Cgroups
use go_lxc.Container.Cgroups.Memory
use go_lxc.Container.Network
use go_lxc.Container.Snapshots.{Snapshot, snapshots, destroy_snapshot}
use go_lxc.Global.{Made, containers, defined_containers, active_containers}
use go_lxc.Examples.{
  Session, Program, Ending, goes_on, crashes, says, shows, complains, go_on, print, must, each,
  let_go, with_container, ◌>>=◌, ◌>>◌,
}
use go_lxc.Examples.Commands.{Main}

module _ (L : Liblxc) where
  open L use {World}

  -- A method with `log.Fatalf` for its error, and a line with its value.
  abbrev pub show : {V A : Type 0} → Text → Method L V A → Program L (Unit {0})
  show label m = must m >>= λ a. print (shows label a)

  -- `for i, v := range vs { log.Printf("%d) %s\n", i, v) }`
  abbrev pub numbered : ℕ → List Text → Program L (Unit {0})
  numbered i [] = go_on
  numbered i (v ∷ vs) =
      let rest = numbered (i + 1) vs in print (says (format i ++ (codes ") " ++ v))) >> rest

  -- A method that returns strings, with `log.Fatalf` for its error, and its strings with numbers.
  abbrev pub show_numbered : {V : Type 0} → Method L V (List Text) → Program L (Unit {0})
  show_numbered m = must m >>= λ vs. numbered 0 vs

  -- The state of a Container, in the program.
  abbrev pub container_now : Program L (State L)
  container_now s = (goes_on s.container, s)

  -- ipaddress, after its beginning
  unfoldable pub ip_address_rest : Program L (Unit {0})
  unfolding Network.ip_address Network.ip_addresses Network.ipv4_addresses Network.ipv6_addresses
      format
  ip_address_rest = do
    print (says (codes "IPAddress(\"lo\")"))
    show_numbered (Network.ip_address L (codes "lo"))
    print (says (codes "IPAddresses()"))
    show_numbered (Network.ip_addresses L)
    print (says (codes "IPv4Addresses()"))
    show_numbered (Network.ipv4_addresses L)
    print (says (codes "IPv6Addresses()"))
    show_numbered (Network.ipv6_addresses L)

  -- interfaces, after its beginning
  unfoldable pub interfaces_rest : Program L (Unit {0})
  unfolding Network.interfaces format
  interfaces_rest = do print (says (codes "Interfaces")); show_numbered (Network.interfaces L)

  -- The strings of a slice as `%s` prints them.
  abbrev pub spaced : List Text → Text
  spaced [] = []
  spaced (v ∷ []) = v
  spaced (v ∷ w ∷ vs) = v ++ (b' ' ∷ spaced (w ∷ vs))

  -- list_keys, after its beginning
  unfoldable pub list_keys_rest : Program L (Unit {0})
  unfolding config_keys config_item
  list_keys_rest = container_now >>= λ s.
      each (λ k. print (says (k ++ (codes " -> [" ++ (spaced (config_item L k s) ++ codes "]")))))
        (config_keys L [] s)

  -- The Container that is in hand from here on.
  abbrev take_up : Made L → Program L (Unit {0})
  take_up c s = (
    goes_on tt,
    record s { container = record s.container { handle = c.handle; verbosity = c.verbosity } },
  )

  abbrev release_now : Program L (Unit {0})
  release_now s = (goes_on tt, let_go L s)

  -- `for i := range c`, with `c[i].Release()` at the end of a round.
  unfoldable pub each_container : Program L (Unit {0}) → List (Made L) → Program L (Unit {0})
  each_container body cs = each (λ c. do take_up c; body; release_now) cs

  -- A call that lists containers.
  abbrev listing :
      (List Text → World → List (Made L) × World) → List Text → Program L (List (Made L))
  listing f lxcpath s =
      let (cs, w) = f lxcpath s.container.world in
      (goes_on cs, record s { container = record s.container { world = w } })

  abbrev from_nothing : Program L (Unit {0}) → World → CHeap → Ending (Unit {0}) × Session L
  from_nothing m w h = m (record {
    container = record { handle = none; verbosity = 0; world = w; heap = h };
    printed = [];
  })

  -- `log.Printf("%s (%s)\n", c[i].Name(), c[i].State())`
  unfoldable pub name_and_state : Program L (Unit {0})
  unfolding name state state_string
  name_and_state = container_now >>= λ s.
      print (says (name L s ++ (codes " (" ++ (state_string (state L s) ++ codes ")"))))

  -- list
  unfoldable pub list_main : Text → World → CHeap → Ending (Unit {0}) × Session L
  unfolding each_container name_and_state defined_containers active_containers
  list_main lxcpath = from_nothing (do
    print (says (codes "Defined containers:"))
    defined ← listing (defined_containers L) (lxcpath ∷ [])
    each_container name_and_state defined
    print (says [])
    print (says (codes "Active containers:"))
    active ← listing (active_containers L) (lxcpath ∷ [])
    each_container name_and_state active
    print (says [])
    print (says (codes "Active and Defined containers:"))
    both ← listing (active_containers L) (lxcpath ∷ [])
    each_container name_and_state both)

  -- `log.Printf("%s\n", c[i].Name())`
  abbrev print_name : Program L (Unit {0})
  print_name = container_now >>= λ s. print (says (name L s))

  -- destroy_snapshots
  unfoldable pub destroy_snapshots_main : World → CHeap → Ending (Unit {0}) × Session L
  unfolding each_container containers name snapshots destroy_snapshot
  destroy_snapshots_main = from_nothing (do
    cs ← listing (containers L) []
    each_container
        (do
          print_name
          l ← must (snapshots L)
          each
              (λ t. do
                print (says (codes "Destroying Snaphot: " ++ t.name))
                must (destroy_snapshot L t))
              l)
        cs)

  -- A call of `Snapshots` whose error is printed: the snapshots, nil with an error.
  unfoldable pub snapshots_or_none : Program L (List Snapshot)
  unfolding snapshots
  snapshots_or_none s =
      let (r, t) = snapshots L s.container in
      elim r [
        | ok l ↦ (goes_on l, record s { container = t })
        | err l e ↦ (goes_on l, record s { container = t; printed = s.printed ++ complains e ∷ [] })
        | fault x ↦ (crashes x, record s { container = t })
      ]

  -- list_snapshots
  unfoldable pub list_snapshots_main : World → CHeap → Ending (Unit {0}) × Session L
  unfolding each_container containers name snapshots_or_none
  list_snapshots_main = from_nothing (do
    cs ← listing (containers L) []
    each_container
        (do
          print_name
          l ← snapshots_or_none
          each
              (λ t. do
                print (says (codes "Name: " ++ t.name))
                print (says (codes "Comment path: " ++ t.comment_path))
                print (says (codes "Timestamp: " ++ t.timestamp))
                print (says (codes "LXC path: " ++ t.path))
                print (says []))
              l)
        cs)

module _ (L : Liblxc) (R : Floats) where
  -- stats, after its beginning
  unfoldable pub stats_rest : Program L (Unit {0})
  unfolding Memory.memory_usage Memory.memory_limit Memory.kernel_memory_usage
      Memory.kernel_memory_limit Memory.memory_swap_usage Memory.memory_swap_limit
      Cgroups.blkio_usage Cgroups.cpu_time Cgroups.cpu_time_per_cpu Cgroups.cpu_stats
      Network.interface_stats
  stats_rest = do
    show L (codes "MemoryUsage: ") (Memory.memory_usage L R)
    show L (codes "MemoryLimit: ") (Memory.memory_limit L R)
    show L (codes "KernelMemoryUsage: ") (Memory.kernel_memory_usage L R)
    show L (codes "KernelMemoryLimit: ") (Memory.kernel_memory_limit L R)
    show L (codes "MemorySwapUsage: ") (Memory.memory_swap_usage L R)
    show L (codes "MemorySwapLimit: ") (Memory.memory_swap_limit L R)
    show L (codes "BlkioUsage: ") (Cgroups.blkio_usage L R)
    show L (codes "cpuacct.usage: ") (Cgroups.cpu_time L)
    show L (codes "cpuacct.usageerrpercpu: ") (Cgroups.cpu_time_per_cpu L)
    show L (codes "cpuacct.stat: ") (Cgroups.cpu_stats L)
    show L (codes "InterfaceStats: ") (Network.interface_stats L)

  -- stats, interfaces, ipaddress and list_keys
  unfoldable pub stats_main : Main L
  unfolding with_container stats_rest
  stats_main name lxcpath = with_container L name lxcpath stats_rest

  unfoldable pub interfaces_main : Main L
  unfolding with_container interfaces_rest
  interfaces_main name lxcpath = with_container L name lxcpath (interfaces_rest L)

  unfoldable pub ip_address_main : Main L
  unfolding with_container ip_address_rest
  ip_address_main name lxcpath = with_container L name lxcpath (ip_address_rest L)

  unfoldable pub list_keys_main : Main L
  unfolding with_container list_keys_rest
  list_keys_main name lxcpath = with_container L name lxcpath (list_keys_rest L)
