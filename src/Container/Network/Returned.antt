-- ===== src/Container/Network/Returned.antt =====
-- container.go: the arrays that `Interfaces` and the methods for addresses are handed over.
use go_lxc.Base.{
  length, ◌≤◌, ℕ, Option, none, some, List, [], Text, codes, ◌≡◌, sym, ap, ◌∙◌, arith, map,
}
use go_lxc.Base.Strings.{c_string}
use go_lxc.Errors.{
  LxcError, sentinel, err_interfaces, err_ip_address, err_ipv4_addresses, err_ipv6_addresses,
  err_ip_addresses,
}
use go_lxc.Exec.{fail, panic, index_out_of_range, ok, ◌>>=◌, ◌>>◌}
use go_lxc.Liblxc.{Liblxc}
use go_lxc.Memory.{argv_texts}
use go_lxc.Memory.Returned.{Hand, HandsOver, most_pointers, convert_args, convert_args-argv_texts}
use go_lxc.Container.{State, is_running, make_sure, handle_or, sure, ask}
use go_lxc.Container.Network.{
  Texts, addresses, interfaces, ip_address, ipv4_address, ipv6_address, ip_addresses,
  ipv4_addresses, ipv6_addresses,
}

-- The methods that return what the library lists of a running container.
pub data Listing : Type 0 where
  interfaces_of ip_addresses_of ipv4_addresses_of ipv6_addresses_of : Listing
  ip_address_of ipv4_address_of ipv6_address_of : Text → Listing

abbrev pub error_of : Listing → LxcError
error_of interfaces_of = err_interfaces
error_of ip_addresses_of = err_ip_addresses
error_of ipv4_addresses_of = err_ipv4_addresses
error_of ipv6_addresses_of = err_ipv6_addresses
error_of (ip_address_of i) = err_ip_address
error_of (ipv4_address_of i) = err_ipv4_addresses
error_of (ipv6_address_of i) = err_ipv6_addresses

module _ (L : Liblxc) where
  open L use {Ptr, World, device}

  -- The call of the library.
  abbrev pub listed : Listing → Ptr → World → Option (List Text)
  listed interfaces_of p = device.get_interfaces p
  listed ip_addresses_of p = device.get_ips p none none 0
  listed ipv4_addresses_of p = device.get_ips p none (some (codes "inet")) 0
  listed ipv6_addresses_of p = device.get_ips p none (some (codes "inet6")) 0
  listed (ip_address_of i) p = device.get_ips p (some (c_string i)) none 0
  listed (ipv4_address_of i) p = device.get_ips p (some (c_string i)) (some (codes "inet")) 0
  listed (ipv6_address_of i) p = device.get_ips p (some (c_string i)) (some (codes "inet6")) 0

  -- The method on lists, without the array.
  abbrev pub plain : Listing → Texts L
  plain interfaces_of = interfaces L
  plain ip_addresses_of = ip_addresses L
  plain ipv4_addresses_of = ipv4_addresses L
  plain ipv6_addresses_of = ipv6_addresses L
  plain (ip_address_of i) = ip_address L i
  plain (ipv4_address_of i) = ipv4_address L i
  plain (ipv6_address_of i) = ipv6_address L i

  -- `convertArgs` on what the library made in the heap; a read past the array is a fault.
  abbrev convert_or_panic : Option (List Text) → Texts L
  convert_or_panic none s = panic index_out_of_range s
  convert_or_panic (some names) s = (ok names, s)

  -- The nil test of the result, and `convertArgs(result)`.
  unfoldable pub take_over : Hand → LxcError → Option (List Text) → Texts L
  unfolding convert_args
  take_over hand e none s = fail [] (sentinel e) s
  take_over hand e (some names) s =
      let (p, h) = hand names s.heap in
      convert_or_panic (convert_args (some p) h) (record s { heap = h })

  -- The method, with the array in the heap.
  unfoldable pub list_with : Hand → Listing → Texts L
  unfolding make_sure take_over
  list_with hand l = do
    p ← handle_or []
    sure [] is_running
    result ← ask (listed l p)
    take_over hand (error_of l) result

  -- The array of the strings lies at an address that was not given out before the call.
  abbrev pub IsLeft : List Text → State L → State L → Type 0
  IsLeft names s t = (q : ℕ) × (s.heap.next ≤ q) × (argv_texts q t.heap ≡ map c_string names)

  plain-names :
      (l : Listing) (names : List Text) (p : Ptr) (s : State L)
      → s.handle ≡ some p
      → make_sure L is_running s ≡ none
      → listed l p s.world ≡ some names
      → plain l s ≡ (ok names, s)
  unfolding interfaces ip_address ipv4_address ipv6_address ip_addresses ipv4_addresses
      ipv6_addresses addresses
  plain-names interfaces_of names p s e r a = ground (arith, e, r, a)
  plain-names ip_addresses_of names p s e r a = ground (arith, e, r, a)
  plain-names ipv4_addresses_of names p s e r a = ground (arith, e, r, a)
  plain-names ipv6_addresses_of names p s e r a = ground (arith, e, r, a)
  plain-names (ip_address_of i) names p s e r a = ground (arith, e, r, a)
  plain-names (ipv4_address_of i) names p s e r a = ground (arith, e, r, a)
  plain-names (ipv6_address_of i) names p s e r a = ground (arith, e, r, a)

  list_with-holds :
      (hand : Hand) (l : Listing) (names : List Text) (p : Ptr) (s : State L)
      → HandsOver hand
      → s.handle ≡ some p
      → make_sure L is_running s ≡ none
      → listed l p s.world ≡ some names
      → length names ≤ most_pointers
      → list_with hand l s ≡ (ok (map c_string names), record s { heap = (hand names s.heap).1 })
  unfolding list_with take_over
  list_with-holds hand l names p s laws e r a few = ground (
    arith,
    e,
    r,
    a,
    convert_args-argv_texts (hand names s.heap).0 (length names) (hand names s.heap).1
        (laws.has_null names s.heap) (laws.counts names s.heap) few,
    laws.holds names s.heap,
  )

  -- `Interfaces` and the methods for addresses, for a container that was not released and runs, where
  -- the library hands over an array of names that are C strings, at most `most_pointers`: the answer is the one of the method on
  -- lists, and the array, which lies at an address that was not given out before the call, still holds
  -- the names when the method returns.
  pub list_with-IsLeft :
      (hand : Hand) (l : Listing) (names : List Text) (p : Ptr) (s : State L)
      → HandsOver hand
      → s.handle ≡ some p
      → make_sure L is_running s ≡ none
      → listed l p s.world ≡ some names
      → length names ≤ most_pointers
      → map c_string names ≡ names
      → ((list_with hand l s).0 ≡ (plain l s).0) × IsLeft names s (list_with hand l s).1
  list_with-IsLeft hand l names p s laws e r a few c =
      let q = list_with-holds hand l names p s laws e r a few in
      (
        ap (λ x. x.0) q ∙ ap ok c ∙ ap (λ x. x.0) (sym (plain-names l names p s e r a)),
        (
          (hand names s.heap).0,
          laws.at_new names s.heap,
          ap (λ x. argv_texts (hand names s.heap).0 x.1.heap) q ∙ laws.holds names s.heap,
        ),
      )
