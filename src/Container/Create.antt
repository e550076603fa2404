-- ===== src/Container/Create.antt =====
-- container.go: `Create`, with the command line that it makes for the template, and `buildBdevSpecs`.
pub mod Arguments
pub mod Specs
use Prim.Native.String.{String}
use go_lxc.Base.{
  ℕ, Bool, true, false, ◌||◌, Option, none, some, List, [], ◌∷◌, ◌++◌, Text, codes, text_eq, ◌==◌,
  if◌then◌else◌,
}
use go_lxc.Base.Strings.{c_string}
use go_lxc.Errors.{sentinel, err_insufficient_number_of_arguments, err_create_failed}
use go_lxc.Exec.{ok, err, pure, fail, unless, ◌>>=◌, ◌>>◌}
use go_lxc.Liblxc.{Liblxc, BdevSpecs, CString, freed}
use go_lxc.Types.Backend.{backend_string}
use go_lxc.Options.{TemplateOptions, BackendStoreSpecs}
use go_lxc.Binding.{go_lxc_create}
use go_lxc.Container.{
  State, Action, Method, is_not_defined, follow, sure, get, call, with_args, with_string, make_sure,
}
use go_lxc.Container.Lifecycle.{backend_or_directory}

-- A field that is set if the text is not empty. The string is freed when `buildBdevSpecs` returns.
abbrev pub field : Text → Option CString
field [] = none
field (c ∷ s) = some freed

abbrev pub dir_field : Option Text → Option CString
dir_field none = none
dir_field (some d) = some freed

-- `buildBdevSpecs`; a nil pointer stays one. Its deferred calls of `C.free` run when it returns, so each
-- string that it made is gone before the library reads it.
unfoldable pub build_bdev_specs : Option BackendStoreSpecs → Option BdevSpecs
build_bdev_specs none = none
build_bdev_specs (some o) = some (record {
  fstype = field o.fs_type;
  fssize = o.fs_size;
  zfsroot = field o.zfs_root;
  vg = field o.lvm_vg;
  thinpool = field o.lvm_thinpool;
  rbdname = field o.rbd_name;
  rbdpool = field o.rbd_pool;
  dir = dir_field o.dir;
})

abbrev is_empty : Text → Bool
is_empty [] = true
is_empty (_ ∷ _) = false

-- `args = append(args, flag, value)` if the value is not empty.
abbrev pub with_value : String → Text → List Text
with_value flag [] = []
with_value flag (c ∷ s) = codes flag ∷ (c ∷ s) ∷ []

-- `args = append(args, flag)` if the option is on.
abbrev pub with_flag : String → Bool → List Text
with_flag flag true = codes flag ∷ []
with_flag flag false = []

-- The template's name, or "download" if it is not set.
unfoldable pub template_or_download : Text → Text
template_or_download [] = codes "download"
template_or_download (c ∷ s) = c ∷ s

-- The arguments of the "download" template, where the three that it requires are given.
unfoldable pub download_args : TemplateOptions → List Text
download_args o =
    (codes "--dist" ∷ o.distro ∷ codes "--release" ∷ o.release ∷ codes "--arch" ∷ o.arch ∷ [])
    ++ (with_value "--variant" o.variant
        ++ (with_value "--server" o.server
            ++ (with_value "--keyid" o.key_id
                ++ (with_value "--keyserver" o.key_server
                    ++ (with_flag "--no-validate" o.disable_gpg_validation
                        ++ (with_flag "--flush-cache" o.flush_cache
                            ++ with_flag "--force-cache" o.force_cache))))))

-- The arguments of any other template.
unfoldable pub other_args : TemplateOptions → List Text
other_args o =
    with_value "--release" o.release
    ++ (with_value "--arch" o.arch ++ with_flag "--flush-cache" o.flush_cache)

-- `args`, or none where an argument that is required is missing.
unfoldable pub create_args : TemplateOptions → Option (List Text)
unfolding template_or_download download_args other_args text_eq
create_args o =
    if text_eq (template_or_download o.template) (codes "download")
    then if is_empty o.distro || is_empty o.release || is_empty o.arch
      then none
      else some (download_args o ++ o.extra_args)
    else some (other_args o ++ o.extra_args)

module _ (L : Liblxc) where
  -- The call of the library, with the array of arguments; with none, a null pointer. The wrapper
  -- follows the container's pointer, which nothing has tested.
  unfoldable pub create_call : TemplateOptions → Option (List Text) → Method L (Unit {0}) Bool
  unfolding go_lxc_create build_bdev_specs backend_string
  create_call o argv = do
    p ← follow
    s ← get
    call (
        go_lxc_create L p (c_string (template_or_download o.template))
          (backend_string (backend_or_directory o.backend)) (build_bdev_specs o.backend_specs)
          s.verbosity argv)

  -- The part of `Create` after the strings of the template and the backend were made. No arguments are a
  -- nil slice.
  unfoldable pub create_given : TemplateOptions → List Text → Method L (Unit {0}) Bool
  unfolding create_call with_args
  create_given o [] = create_call o none
  create_given o (a ∷ args) = with_args tt (a ∷ args) (λ argv. create_call o (some argv))

  -- The part of `Create` from the arguments on, up to the test of what the library answers.
  unfoldable pub create_with : TemplateOptions → Option (List Text) → Method L (Unit {0}) Bool
  unfolding create_given with_string
  create_with o none = fail tt (sentinel err_insufficient_number_of_arguments)
  create_with o (some args) =
      with_string (template_or_download o.template)
        (with_string (backend_string (backend_or_directory o.backend)) (create_given o args))

  -- `Create`
  unfoldable pub create : TemplateOptions → Action L
  unfolding make_sure create_args create_with
  create o = do
    sure tt is_not_defined
    done ← create_with o (create_args o)
    unless done tt (sentinel err_create_failed)
