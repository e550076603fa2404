-- ===== src/Container.antt =====
-- container.go: the state of a `Container`, the guards that its methods share, and what they do
-- with a call of the library. The methods are in the modules below this one, by what they are for.
-- A method that holds the lock `mu` from its first line to its return is one action on the state.
pub mod Guards
pub mod Handle
pub mod Lifecycle
pub mod Create
pub mod Config
pub mod Snapshots
pub mod Cgroups
pub mod Effects
pub mod Operations
pub mod Network
pub mod Execute
pub mod Devices
pub mod Attach
pub mod Calls
pub mod Arrays
use go_lxc.Base.{
  ℕ, suc, length, [], Bool, true, false, ◌&&◌, ◌||◌, not, Option, none, some, List, Text, ltb, ◌==◌,
  if◌then◌else◌, bit_and, bit_or,
}
use go_lxc.Base.Strings.{go_string, c_string}
use go_lxc.Errors.{
  Error, sentinel, about, err_not_defined, err_already_defined, err_not_running,
  err_already_running, err_method_not_allowed, err_not_supported, LxcError, err_allocation_failed,
}
use go_lxc.Exec.{Exec, Result, ok, err, pure, fail, panic, null_dereference, unless, ◌>>=◌, ◌>>◌}
use go_lxc.Liblxc.{Liblxc, Version, Command}
use go_lxc.Memory.{
  CHeap, string, alloc, free, make_null_terminated_args, free_null_terminated_args, argv_texts,
}

-- The method's container, with the library and C's heap: `handle` is the field `container`.
pub record State (L : Liblxc) : Type 0 where
  pub handle : Option L.Ptr
  pub verbosity : ℕ
  pub world : L.World
  pub heap : CHeap

-- `isDefined` and so on: 1 << iota.
abbrev pub is_defined : ℕ
is_defined = 1

abbrev pub is_not_defined : ℕ
is_not_defined = 2

abbrev pub is_running : ℕ
is_running = 4

abbrev pub is_not_running : ℕ
is_not_running = 8

abbrev pub is_privileged : ℕ
is_privileged = 16

abbrev pub is_unprivileged : ℕ
is_unprivileged = 32

abbrev pub is_at_least_lxc11 : ℕ
is_at_least_lxc11 = 64

abbrev pub is_at_least_lxc20 : ℕ
is_at_least_lxc20 = 128

-- `flags&flag != 0`
abbrev pub asks : ℕ → ℕ → Bool
asks flags flag = not (bit_and flags flag == 0)

-- `VersionAtLeast` of lxc-binding.go
unfoldable pub version_at_least : Version → ℕ → ℕ → ℕ → Bool
version_at_least v major minor micro =
    if v.devel
    then true
    else if ltb v.major major
    then false
    else if major == v.major && ltb v.minor minor
    then false
    else if major == v.major && minor == v.minor && ltb v.micro micro
    then false
    else true

module _ (L : Liblxc) where
  open L use {Ptr, World, version, info, host}

  unfoldable pub name : State L → Text
  name s = elim s.handle [ none ↦ [] | some p ↦ go_string (info.name p s.world) ]

  unfoldable pub defined : State L → Bool
  defined s = elim s.handle [ none ↦ false | some p ↦ info.is_defined p s.world ]

  unfoldable pub running : State L → Bool
  running s = elim s.handle [ none ↦ false | some p ↦ info.is_running p s.world ]

  -- `makeSure`: the error, or none.
  unfoldable pub make_sure : ℕ → State L → Option Error
  unfolding name defined running version_at_least
  make_sure flags s =
      if asks flags is_defined && not (defined s)
      then some (about err_not_defined (name s))
      else if asks flags is_not_defined && defined s
      then some (about err_already_defined (name s))
      else if asks flags is_running && not (running s)
      then some (about err_not_running (name s))
      else if asks flags is_not_running && running s
      then some (about err_already_running (name s))
      else if asks flags is_privileged && not (host.geteuid s.world == 0)
      then some (sentinel err_method_not_allowed)
      else if asks flags is_at_least_lxc11 && not (version_at_least version 1 1 0)
      then some (sentinel err_not_supported)
      else if asks flags is_at_least_lxc20 && not (version_at_least version 2 0 0)
      then some (sentinel err_not_supported)
      else none

  -- An action of a method that returns a `V`.
  abbrev pub Method : Type 0 → Type 0 → Type 0
  Method V A = Exec (State L) V A

  -- An action of a method that returns an error alone.
  abbrev pub Action : Type 0
  Action = Method (Unit {0}) (Unit {0})

module _ {L : Liblxc} {V : Type 0} where
  open L use {Ptr, World, host}

  -- `if c.container == nil { return v, ErrNotDefined }`, and else the pointer.
  abbrev pub handle_or : V → Method L V Ptr
  handle_or v s = elim s.handle [
    | none ↦ (err v (sentinel err_not_defined), s)
    | some p ↦ (ok p, s)
  ]

  -- The pointer for a wrapper that follows it without a test.
  abbrev pub follow : Method L V Ptr
  follow s = elim s.handle [ none ↦ panic null_dereference s | some p ↦ (ok p, s) ]

  -- `if err := c.makeSure(flags); err != nil { return v, err }`
  abbrev pub sure : V → ℕ → Method L V (Unit {0})
  sure v flags s = elim (make_sure L flags s) [ none ↦ (ok tt, s) | some e ↦ (err v e, s) ]

  abbrev pub get : Method L V (State L)
  get s = (ok s, s)

  -- A call that may change the library's state.
  abbrev pub call : {A : Type 0} → (World → A × World) → Method L V A
  call f s = let (a, w) = f s.world in (ok a, record s { world = w })

  -- A call that only reads it.
  abbrev pub ask : {A : Type 0} → (World → A) → Method L V A
  ask f s = (ok (f s.world), s)

  -- `if !bool(C.f(…)) { return v, e }`
  abbrev pub must : V → LxcError → Command World → Method L V (Unit {0})
  must v e f s =
      let (done, w) = f s.world in
      if done then (ok tt, record s { world = w }) else (err v (sentinel e), record s { world = w })

  -- The test of the array that was made, of `n` strings, with the return of ErrAllocationFailed; and
  -- the rest `k` of the method, which is given what the library reads of the array. The array is
  -- freed when `k` returns.
  unfoldable pub lend :
      {A : Type 0} → V → ℕ → (List Text → Method L V A) → Option ℕ × CHeap → Method L V A
  lend v n k (none, h) s = (err v (sentinel err_allocation_failed), record s { heap = h })
  lend v n k (some p, h) s =
      let (r, t) = k (argv_texts p h) (record s { heap = h }) in
      (r, record t { heap = free_null_terminated_args p n t.heap })

  -- `cargs := makeNullTerminatedArgs(args)`, the test for nil, and
  -- `defer freeNullTerminatedArgs(cargs, len(args))` round the rest of the method.
  unfoldable pub with_args :
      {A : Type 0} → V → List Text → (List Text → Method L V A) → Method L V A
  unfolding lend
  with_args v args k s =
      lend v (length args) k
        (make_null_terminated_args (host.can_calloc (suc (length args)) s.world) args s.heap) s

  -- `C.CString(text)`, which does not fail, and `defer C.free` of it round the rest of the method.
  unfoldable pub with_string : {A : Type 0} → Text → Method L V A → Method L V A
  unfolding alloc free
  with_string text m s =
      let (p, h) = alloc (string (c_string text)) s.heap in
      let (r, t) = m (record s { heap = h }) in (r, record t { heap = free p t.heap })

  -- `makeNullTerminatedArgs(args)`, which is nil if `calloc` finds no room.
  unfoldable pub make_args : List Text → Method L V (Option ℕ)
  make_args args s =
      let (p, h) =
        make_null_terminated_args (host.can_calloc (suc (length args)) s.world) args s.heap in
      (ok p, record s { heap = h })

  -- What the library reads of such an array; of a null pointer, no arguments.
  unfoldable pub argv : Option ℕ → Method L V (Option (List Text))
  argv none s = (ok none, s)
  argv (some p) s = (ok (some (argv_texts p s.heap)), s)
