-- ===== src/Container/Network.antt =====
-- container.go: network interfaces and addresses, and the wait for an address.
-- `interfaces` to `ipv6_addresses` are what these methods answer, on lists; the methods with the array that
-- the library makes for them, which they leave on C's heap, are `list_with` in Network/Returned.
pub mod Waiting
pub mod Returned
use go_lxc.Base.{
  ℕ, zero, suc, ◌+◌, ◌-◌, ℤ, pos, negsuc, Bool, true, false, not, leb, ltb, Option, none, some,
  List, [], ◌∷◌, ◌++◌, Text, codes, text_eq, if◌then◌else◌, length,
}
use go_lxc.Base.Strings.{c_string, split}
use go_lxc.Base.Decimal.{format, atoi}
use go_lxc.Errors.{
  Error, LxcError, sentinel, bad_number, unreadable, err_interfaces, err_ip_address,
  err_ipv4_addresses, err_ipv6_addresses, err_ip_addresses,
}
use go_lxc.Exec.{Exec, Result, ok, err, fault, pure, fail, ◌>>=◌, ◌>>◌}
use go_lxc.Liblxc.{Liblxc}
use go_lxc.Container.{
  State, Method, is_running, handle_or, sure, ask, get, make_sure, version_at_least,
}
use go_lxc.Container.Config.{first, config_item, running_config_item}

abbrev pub Texts : Liblxc → Type 0
Texts L = Method L (List Text) (List Text)

-- `map[string]ByteSize` and `map[string]map[string]ByteSize`, the entries in the order in which they
-- were made. A byte count is an int64 here.
abbrev pub Counts : Type 0
Counts = List (Text × ℤ)

abbrev pub Statistics : Type 0
Statistics = List (Text × Counts)

unfoldable pub insert : Text → ℤ → Counts → Counts
unfolding text_eq
insert k v [] = (k, v) ∷ []
insert k v ((j, w) ∷ m) = if text_eq j k then (j, v) ∷ m else (j, w) ∷ insert k v m

-- `statistics[name][v] = n`, with the inner map made where it is missing.
unfoldable pub record_count : Text → Text → ℤ → Statistics → Statistics
unfolding insert
record_count name v n [] = (name, (v, n) ∷ []) ∷ []
record_count name v n ((j, m) ∷ rest) =
    if text_eq j name then (j, insert v n m) ∷ rest else (j, m) ∷ record_count name v n rest

module _ (L : Liblxc) where
  open L use {Ptr, World, version, device, host}

  -- A list that the library made, or an error for a null pointer.
  abbrev list_or : LxcError → Option (List Text) → Texts L
  list_or e none = fail [] (sentinel e)
  list_or e (some names) = pure names

  -- `Interfaces`
  unfoldable pub interfaces : Texts L
  unfolding make_sure
  interfaces = do
    p ← handle_or []
    sure [] is_running
    result ← ask (device.get_interfaces p)
    list_or err_interfaces result

  -- The body of the methods for addresses.
  unfoldable pub addresses : Option Text → Option Text → LxcError → Texts L
  unfolding make_sure
  addresses interface family e = do
    p ← handle_or []
    sure [] is_running
    result ← ask (device.get_ips p interface family 0)
    list_or e result

  -- `IPAddress`
  unfoldable pub ip_address : Text → Texts L
  unfolding addresses
  ip_address interface = addresses (some (c_string interface)) none err_ip_address

  -- `IPv4Address`
  unfoldable pub ipv4_address : Text → Texts L
  unfolding addresses
  ipv4_address interface =
      addresses (some (c_string interface)) (some (codes "inet")) err_ipv4_addresses

  -- `IPv6Address`
  unfoldable pub ipv6_address : Text → Texts L
  unfolding addresses
  ipv6_address interface =
      addresses (some (c_string interface)) (some (codes "inet6")) err_ipv6_addresses

  -- `ipAddresses`, and `IPAddresses`
  unfoldable pub ip_addresses : Texts L
  unfolding addresses
  ip_addresses = addresses none none err_ip_addresses

  -- `IPv4Addresses`
  unfoldable pub ipv4_addresses : Texts L
  unfolding addresses
  ipv4_addresses = addresses none (some (codes "inet")) err_ipv4_addresses

  -- `IPv6Addresses`
  unfoldable pub ipv6_addresses : Texts L
  unfolding addresses
  ipv6_addresses = addresses none (some (codes "inet6")) err_ipv6_addresses

  -- A second in nanoseconds.
  abbrev pub second_ns : ℕ
  second_ns = 1000000000

  abbrev pub slept : State L → State L
  slept s = record s { world = host.sleep second_ns s.world }

  -- The loop of `WaitIPAddresses`, begun at `since`; none where the fuel runs out. Times are at
  -- least 0, so a timeout that is not positive has passed after the first round, like 0.
  unfoldable pub wait_loop : ℕ → ℕ → ℕ → State L → Option (Result (List Text) (List Text)) × State L
  wait_loop zero since timeout s = (none, s)
  wait_loop (suc fuel) since timeout s =
      let again = wait_loop fuel since timeout (slept s) in
      let late : Option (Result (List Text) (List Text)) × State L =
        if leb timeout (host.now (slept s).world - since)
        then (some (err [] (sentinel err_ip_addresses)), slept s)
        else again in
      elim (ip_addresses s).0 [
        | ok [] ↦ late
        | ok (a ∷ found) ↦ (some (ok (a ∷ found)), s)
        | err _ _ ↦ late
        | fault x ↦ (some (fault x), s)
      ]

  -- `WaitIPAddresses`
  unfoldable pub wait_ip_addresses :
      ℕ → ℕ → State L → Option (Result (List Text) (List Text)) × State L
  unfolding wait_loop
  wait_ip_addresses fuel timeout s = wait_loop fuel (host.now s.world) timeout s

  abbrev pub Counting : Type 0
  Counting = Method L Statistics Statistics

  -- One round of the inner loop of `InterfaceStats`, for `v` of "rx" and "tx".
  unfoldable pub count_bytes : Text → Text → Statistics → Counting
  unfolding split atoi record_count
  count_bytes name v statistics = do
    let path = codes "/sys/class/net/" ++ (name ++ (codes "/statistics/" ++ (v ++ codes "_bytes")))
    content ← ask (host.read_file path)
    elim content [
      | none ↦ fail [] (unreadable path)
      | some text ↦ do
        line ← first (split text b'\n')
        elim (atoi line) [
          | none ↦ fail [] (bad_number line)
          | some bytes ↦ pure (record_count name v bytes statistics)
        ]
    ]

  -- `fmt.Sprintf("%s.%d.type", netPrefix, i)` and the like.
  unfoldable pub net_key : Text → ℕ → Text → Text
  unfolding format
  net_key prefix i item = prefix ++ (codes "." ++ (format i ++ (codes "." ++ item)))

  -- The part of a round after the test of the type: the name, and the two counts.
  abbrev pub count_named : Text → Statistics → Counting
  count_named key statistics = do
    name ← λ t. first (running_config_item L key t) t
    received ← count_bytes name (codes "rx") statistics
    count_bytes name (codes "tx") received

  -- A round for what `runningConfigItem` says of the type; it is skipped for nil.
  unfoldable pub round_of : Text → ℕ → Statistics → List Text → Counting
  unfolding count_bytes net_key running_config_item text_eq
  round_of prefix i statistics [] = pure statistics
  round_of prefix i statistics (type ∷ _) =
      count_named
        (net_key prefix i (if text_eq type (codes "veth") then codes "veth.pair" else codes "link"))
        statistics

  -- One round of the loop of `InterfaceStats`.
  unfoldable pub interface_round : Text → ℕ → Statistics → Counting
  unfolding net_key running_config_item round_of
  interface_round prefix i statistics s =
      round_of prefix i statistics (running_config_item L (net_key prefix i (codes "type")) s) s

  -- The loop from round `i` on, with `left` rounds to go.
  unfoldable pub interface_loop : Text → ℕ → ℕ → Statistics → Counting
  unfolding interface_round
  interface_loop prefix zero i statistics = pure statistics
  interface_loop prefix (suc left) i statistics = do
    next ← interface_round prefix i statistics
    interface_loop prefix left (suc i) next

  -- `InterfaceStats`
  unfoldable pub interface_stats : Counting
  unfolding make_sure interface_loop config_item version_at_least
  interface_stats = do
    sure [] is_running
    let prefix = if version_at_least version 2 1 0 then codes "lxc.net" else codes "lxc.network"
    s ← get
    interface_loop prefix (length (config_item L prefix s)) 0 []
