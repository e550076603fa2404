-- ===== src/Examples/Settings.antt =====
-- examples: the programs config, limit, attach, execute and create.
use go_lxc.Base.{text_eq, none, some, ℕ, pos, Bool, if◌then◌else◌, [], ◌∷◌, ◌++◌, Text, codes}
use go_lxc.Exec.{Result, ok}
use go_lxc.Liblxc.{Liblxc}
use go_lxc.Floats.{Floats}
use go_lxc.Types.{x86}
use go_lxc.Types.LogLevel.{debug}
use go_lxc.Types.Backend.{set_backend}
use go_lxc.Types.ByteSize.{Unicode, parse_bytes}
use go_lxc.Options.{AttachOptions, no_template_options, default_attach_options}
use go_lxc.Container.Config.{config_item, first}
use go_lxc.Container.Cgroups.Memory.{memory_limit, memory_swap_limit}
use go_lxc.Container.Execute.{execute}
use go_lxc.Container.Operations.{Request}
use go_lxc.Global.{default_config_path}
use go_lxc.Examples.{
  Program, says, print, must, perform, attempt, drop_error, report, with_container, ◌>>=◌, ◌>>◌,
}
use go_lxc.Examples.Commands.{Main, be_verbose}
use go_lxc.Examples.Reading.{show, container_now}

module _ (L : Liblxc) (R : Floats) where
  open R use {Float, of_ℤ, div}

  -- `x / 4`
  abbrev pub quarter : Float → Float
  quarter x = div x (of_ℤ (pos 4))

  -- config, with the flag `hostname`; `[0]` of no items is a panic
  unfoldable pub config_main : Text → Main L
  unfolding with_container perform config_item
  config_main hostname name lxcpath = with_container L name lxcpath (do
    perform L R (Request.set_config_item (codes "lxc.utsname") hostname)
    s ← container_now L
    rootfs ← must (first {V = Text} (config_item L (codes "lxc.rootfs") s))
    print (says (codes "Root FS: " ++ rootfs)))

  -- limit, after its beginning
  unfoldable pub limit_rest : Program L (Unit {0})
  unfolding perform memory_limit memory_swap_limit
  limit_rest = do
    limit ← must (memory_limit L R)
    swap ← must (memory_swap_limit L R)
    perform L R (Request.set_memory_limit (quarter limit))
    perform L R (Request.set_memory_swap_limit (quarter swap))

  -- limit
  unfoldable pub limit_main : Main L
  unfolding with_container limit_rest
  limit_main name lxcpath = with_container L name lxcpath limit_rest

  -- The options of attach for the flags `clear`, `x86` and `regular`.
  unfoldable pub attach_options : Bool → Bool → Bool → AttachOptions
  attach_options clear old regular =
      let o = record default_attach_options { clear_env = clear } in
      let p = if old then record o { arch = pos x86 } else o in
      if regular then record p { uid = pos 1000; gid = pos 1000 } else p

  -- attach
  unfoldable pub attach_main : Bool → Bool → Bool → Main L
  unfolding with_container perform attach_options
  attach_main clear old regular name lxcpath = with_container L name lxcpath (do
    print (says (codes "AttachShell"))
    perform L R (Request.attach_shell (attach_options clear old regular))
    print (says (codes "RunCommand"))
    perform L R (Request.run_command (codes "id" ∷ []) (attach_options clear old regular)))

  -- execute
  unfoldable pub execute_main : Main L
  unfolding with_container attempt default_config_path execute
  execute_main name lxcpath = with_container L name lxcpath (do
    s ← container_now L
    drop_error L R (Request.load_config_file (default_config_path L s.world))
    show L [] (execute L (codes "uname" ∷ codes "-a" ∷ [])))

module _ (L : Liblxc) (R : Floats) (U : Unicode) where
  open R use {Float, of_ℤ}

  -- The size of the flag `fssize`, which is 0 where the flag is empty.
  abbrev pub size_or_zero : Text → Result Float Float
  size_or_zero fssize = if text_eq fssize [] then ok (of_ℤ (pos 0)) else parse_bytes U R fssize

  -- A result that the program has, with `log.Fatalf` for its error.
  abbrev settled : {V A : Type 0} → Result V A → Program L A
  settled r = must (λ s. (r, s))

  -- create, with its flags; `to_uint64` is Go's conversion of a float64. `*t` is 0 before `Set`.
  unfoldable pub create_main :
      (Float → ℕ)
      → (template distro release arch : Text) (verbosely flush validation : Bool)
        (fssize bdevtype : Text)
      → Main L
  unfolding with_container perform attempt set_backend parse_bytes text_eq
  create_main to_uint64 template distro release arch verbosely flush validation fssize bdevtype name
        lxcpath =
      with_container L name lxcpath (do
        print (says (codes "Creating container..."))
        be_verbose L R verbosely
        backend ← settled (set_backend 0 bdevtype)
        size ← settled (size_or_zero fssize)
        let options = record no_template_options {
          template = template;
          distro = distro;
          release = release;
          arch = arch;
          flush_cache = flush;
          disable_gpg_validation = validation;
          backend = backend;
          backend_specs = some (record {
            fs_type = [];
            fs_size = to_uint64 size;
            dir = none;
            zfs_root = [];
            lvm_vg = [];
            lvm_lv = [];
            lvm_thinpool = [];
            rbd_name = [];
            rbd_pool = [];
          });
        }
        drop_error L R (Request.set_log_file (codes "log"))
        drop_error L R (Request.set_log_level debug)
        report L R (Request.create options))
