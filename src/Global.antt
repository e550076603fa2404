-- ===== src/Global.antt =====
-- lxc-binding.go: containers by name, the global configuration, and versions.
pub mod Versions
use go_lxc.Base.{
  ℕ, zero, suc, ℤ, pos, negsuc, minus_one, Bool, true, false, ◌&&◌, Option, none, some, List, [],
  ◌∷◌, ◌++◌, Text, codes, text_eq, ltb, if◌then◌else◌, take,
}
use go_lxc.Base.Strings.{c_string, go_string, split, replace_first, strip_suffix}
use go_lxc.Base.Decimal.{atoi}
use go_lxc.Errors.{Error, sentinel, err_new_failed}
use go_lxc.Exec.{Result, ok, err, fault}
use go_lxc.Liblxc.{Liblxc}
use go_lxc.Memory.{CHeap}
use go_lxc.Types.{quiet}
use go_lxc.Binding.{go_lxc_config_item_is_supported, go_lxc_has_api_extension}
use go_lxc.Container.{State, version_at_least}
use go_lxc.Container.Handle.{release}

module _ (L : Liblxc) where
  open L use {Ptr, World, version, host}

  -- The one path, if exactly one is given.
  abbrev pub one_path : List Text → Option Text
  one_path (path ∷ []) = some (c_string path)
  one_path _ = none

  -- A `*Container` as it is made: the pointer and the verbosity.
  abbrev pub Made : Type 0
  Made = record { handle : Option Ptr; verbosity : ℕ }

  -- `NewContainer`
  unfoldable pub new_container : Text → List Text → World → Result (Unit {0}) Made × World
  new_container name lxcpath w =
      let (container, w') = host.container_new (c_string name) (one_path lxcpath) w in
      elim container [
        | none ↦ (err tt (sentinel err_new_failed), w')
        | some p ↦ (ok (record { handle = some p; verbosity = quiet }), w')
      ]

  -- `Acquire`
  unfoldable pub acquire : State L → Bool × State L
  acquire s =
      let (ret, w) = host.container_get s.handle s.world in
      (elim ret [ pos (suc zero) ↦ true | _ ↦ false ], record s { world = w })

  -- The function `Release`
  unfoldable pub release_container : State L → Bool × State L
  unfolding release
  release_container s =
      let (r, t) = release L s in
      elim r [ ok _ ↦ (true, t) | err _ _ ↦ (false, t) | fault _ ↦ (false, t) ]

  -- `VersionNumber`
  unfoldable pub version_number : ℕ × ℕ
  version_number = (version.major, version.minor)

  -- `Version`
  unfoldable pub version_text : Text
  unfolding strip_suffix
  version_text = elim (strip_suffix (codes "-devel") host.get_version) [
    | none ↦ host.get_version
    | some front ↦ front ++ codes " (devel)"
  ]

  -- `GlobalConfigItem`
  unfoldable pub global_config_item : Text → World → Text
  global_config_item name w = go_string (host.get_global_config_item (c_string name) w)

  -- `DefaultConfigPath`, `DefaultLvmVg` and `DefaultZfsRoot`
  unfoldable pub default_config_path : World → Text
  unfolding global_config_item
  default_config_path = global_config_item (codes "lxc.lxcpath")

  unfoldable pub default_lvm_vg : World → Text
  unfolding global_config_item
  default_lvm_vg = global_config_item (codes "lxc.bdev.lvm.vg")

  unfoldable pub default_zfs_root : World → Text
  unfolding global_config_item
  default_zfs_root = global_config_item (codes "lxc.bdev.zfs.root")

  -- The names that a listing gives: none unless their number is positive.
  abbrev pub listed : ℤ × List Text → List Text
  listed (pos n, names) = if ltb n 1 then [] else take n names
  listed (negsuc n, names) = []

  -- `ContainerNames`, `DefinedContainerNames` and `ActiveContainerNames`
  unfoldable pub container_names : List Text → World → List Text
  container_names lxcpath w = listed (host.list_all_containers (one_path lxcpath) w)

  unfoldable pub defined_container_names : List Text → World → List Text
  defined_container_names lxcpath w = listed (host.list_defined_containers (one_path lxcpath) w)

  unfoldable pub active_container_names : List Text → World → List Text
  active_container_names lxcpath w = listed (host.list_active_containers (one_path lxcpath) w)

  -- The loop of `Containers`: those that could be made.
  unfoldable pub containers_of : List Text → List Text → World → List Made × World
  unfolding new_container
  containers_of lxcpath [] w = ([], w)
  containers_of lxcpath (v ∷ names) w =
      let (r, w') = new_container v lxcpath w in
      let (rest, w'') = containers_of lxcpath names w' in
      (elim r [ ok c ↦ c ∷ rest | err _ _ ↦ rest | fault _ ↦ rest ], w'')

  -- `Containers`, `DefinedContainers` and `ActiveContainers`
  unfoldable pub containers : List Text → World → List Made × World
  unfolding containers_of container_names
  containers lxcpath w = containers_of lxcpath (container_names lxcpath w) w

  unfoldable pub defined_containers : List Text → World → List Made × World
  unfolding containers_of defined_container_names
  defined_containers lxcpath w = containers_of lxcpath (defined_container_names lxcpath w) w

  unfoldable pub active_containers : List Text → World → List Made × World
  unfolding containers_of active_container_names
  active_containers lxcpath w = containers_of lxcpath (active_container_names lxcpath w) w

  -- `IsSupportedConfigItem`
  unfoldable pub is_supported_config_item : Text → Bool
  unfolding go_lxc_config_item_is_supported
  is_supported_config_item key = go_lxc_config_item_is_supported L (c_string key)

-- The numbers of the first three parts; a part that is missing is -1, none for one that is no number.
unfoldable pub parse_parts : List Text → Option (ℤ × ℤ × ℤ)
unfolding atoi
parse_parts [] = some (minus_one, minus_one, minus_one)
parse_parts (a ∷ []) = elim (atoi a) [ none ↦ none | some x ↦ some (x, minus_one, minus_one) ]
parse_parts (a ∷ b ∷ []) = elim (atoi a) [
  | none ↦ none
  | some x ↦ elim (atoi b) [ none ↦ none | some y ↦ some (x, y, minus_one) ]
]
parse_parts (a ∷ b ∷ c ∷ _) = elim (atoi a) [
  | none ↦ none
  | some x ↦ elim (atoi b) [
    | none ↦ none
    | some y ↦ elim (atoi c) [ none ↦ none | some z ↦ some (x, y, z) ]
  ]
]

-- `n > m` and `n < m` of a part and a number that is asked for.
abbrev above : ℤ → ℕ → Bool
above (pos n) m = ltb m n
above (negsuc n) m = false

abbrev below : ℤ → ℕ → Bool
below (pos n) m = ltb n m
below (negsuc n) m = true

unfoldable pub compare_parts : ℤ × ℤ × ℤ → ℕ → ℕ → ℕ → Bool
compare_parts (maj, min, mic) major minor micro =
    if above maj major
    then true
    else if below maj major
    then false
    else if above min minor
    then true
    else if below min minor
    then false
    else if above mic micro
    then true
    else if below mic micro
    then false
    else true

-- The last part is of the form "…-devel", with one dash.
abbrev pub is_devel_part : List Text → Bool
is_devel_part (_ ∷ suffix ∷ []) = text_eq suffix (codes "devel")
is_devel_part _ = false

abbrev pub head_of : List Text → Text
head_of [] = []
head_of (t ∷ _) = t

abbrev pub last_of : List Text → Text
last_of [] = []
last_of (t ∷ []) = t
last_of (t ∷ u ∷ ts) = last_of (u ∷ ts)

-- `RuntimeLiblxcVersionAtLeast`
unfoldable pub runtime_liblxc_version_at_least : Text → ℕ → ℕ → ℕ → Bool
unfolding split replace_first parse_parts compare_parts text_eq
runtime_liblxc_version_at_least version major minor micro =
    let stripped = head_of (split version b'~') in
    let parts = split (replace_first stripped (codes " (devel)") (codes "-devel")) b'.' in
    if is_devel_part (split (last_of parts) b'-') then true else elim (parse_parts parts) [
      | none ↦ false
      | some numbers ↦ compare_parts numbers major minor micro
    ]

module _ (L : Liblxc) where
  -- `HasAPIExtension`, and `HasApiExtension`
  unfoldable pub has_api_extension : Text → Bool
  unfolding runtime_liblxc_version_at_least version_text go_lxc_has_api_extension
  has_api_extension extension =
      if runtime_liblxc_version_at_least (version_text L) 3 1 0
      then go_lxc_has_api_extension L (c_string extension)
      else false
