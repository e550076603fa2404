-- ===== src/Tests/Sim.antt =====
-- A small library for the tests: one container on a host, whose state says whether it is defined,
-- runs and is frozen, with a log level, snapshots, a clock and a wait status. Floats are natural numbers.
use go_lxc.Base.{
  ℕ, ◌+◌, ◌*◌, ◌/◌, leb, ℤ, pos, negsuc, minus_one, Bool, true, false, none, some, [], ◌∷◌, Text,
  codes, ◌≡◌, refl, sym, ◌==◌, arith,
}
use go_lxc.Base.Decimal.{format, atoi}
use go_lxc.Types.State.{state_of, frozen}
use go_lxc.Liblxc.{Liblxc, Version, Constants, reaped}
use go_lxc.Liblxc.Laws.{IsLawful, is_frozen}
use go_lxc.Floats.{Floats}
use go_lxc.Memory.{CHeap}
use go_lxc.Container.{State}

pub record Host : Type 0 where
  pub is_defined : Bool
  pub is_running : Bool
  pub is_frozen : Bool
  pub level : Text
  -- What `snapshot_list` answers.
  pub count : ℤ
  pub clock : ℕ
  pub status : ℕ

abbrev pub lxc4 : Version
lxc4 = record { major = 4; minor = 0; micro = 12; devel = false }

abbrev pub header : Constants
header = record {
  attach_move_to_cgroup = 1;
  attach_drop_capabilities = 2;
  attach_lsm_exec = 8;
  attach_remount_proc_sys = 65536;
  attach_setgroups = 1048576;
  attach_default = 15;
  clone_keepname = 1;
  clone_keepmacaddr = 2;
  clone_snapshot = 4;
  create_quiet = 1;
}

-- A command that changes nothing, and succeeds or fails.
abbrev yes : Host → Bool × Host
yes w = (true, w)

abbrev no : Host → Bool × Host
no w = (false, w)

abbrev state_name : Bool → Bool → Text
state_name _ true = codes "FROZEN"
state_name true false = codes "RUNNING"
state_name false false = codes "STOPPED"

-- A command that succeeds under a condition.
abbrev when : Bool → Host → Host → Bool × Host
when true w' w = (true, w')
when false w' w = (false, w)

abbrev pub sim : Liblxc
sim = record {
  Ptr = ℕ;
  World = Host;
  version = lxc4;
  constants = header;
  info = record {
    name = λ _ _. some (codes "box");
    is_defined = λ _ w. w.is_defined;
    is_running = λ _ w. w.is_running;
    may_control = λ _ _. true;
    state = λ _ w. some (state_name w.is_running w.is_frozen);
    init_pid = λ _ _. pos 42;
    init_pidfd = λ _ w. (pos 5, w);
    devpts_fd = λ _ w. (pos 6, w);
    seccomp_notify_fd = λ _ w. (minus_one, w);
    seccomp_notify_fd_active = λ _ w. (minus_one, w);
    daemonize = λ _ _. true;
    want_daemonize = λ _ _. yes;
    want_close_all_fds = λ _ _. yes;
    error_num = λ _ _. pos 0;
  };
  life = record {
    freeze = λ _ w. when w.is_running (record w { is_frozen = true }) w;
    unfreeze = λ _ w. (true, record w { is_frozen = false });
    create = λ _ _ _ _ _ _ w.
        (true, record w { is_defined = true; is_running = false; is_frozen = false });
    start = λ _ _ _ w. (true, record w { is_running = true; is_frozen = false });
    stop = λ _ w. (true, record w { is_running = false; is_frozen = false });
    reboot = λ _. yes;
    shutdown = λ _ _ w. (true, record w { is_running = false; is_frozen = false });
    destroy = λ _ w. (true, record w { is_defined = false });
    destroy_with_snapshots = λ _. no;
    clone = λ _ _ _ _ _ w. (none, w);
    rename = λ _ _. yes;
    wait = λ _ _ _. yes;
  };
  config = record {
    config_file_name = λ _ _. some (codes "/var/lib/lxc/box/config");
    get_config_item = λ _ _ w. some w.level;
    get_cgroup_item = λ _ _ _. none;
    get_keys = λ _ _ _. none;
    get_running_config_item = λ _ _ _. none;
    set_config_item = λ _ _ v w. (true, record w { level = v });
    set_cgroup_item = λ _ _ _. no;
    clear_config = λ _ w. w;
    clear_config_item = λ _ _. yes;
    load_config = λ _ _. yes;
    save_config = λ _ _. yes;
    get_config_path = λ _ _. some (codes "/var/lib/lxc");
    set_config_path = λ _ _. yes;
  };
  snaps = record {
    snapshot = λ _ w. (pos 0, w);
    snapshot_list = λ _ w. ((w.count, []), w);
    snapshot_restore = λ _ _ _. yes;
    snapshot_destroy = λ _ _. yes;
    snapshot_destroy_all = λ _. yes;
  };
  device = record {
    get_interfaces = λ _ _. some (codes "eth0" ∷ []);
    get_ips = λ _ _ _ _ _. some [];
    add_device_node = λ _ _ _. yes;
    remove_device_node = λ _ _ _. yes;
    attach_interface = λ _ _ _. yes;
    detach_interface = λ _ _ _. yes;
    checkpoint = λ _ _ _ _. yes;
    restore = λ _ _ _. yes;
    migrate = λ _ _ _ w. (pos 0, w);
  };
  attach = record {
    console_getfd = λ _ _ w. ((pos 0, pos 7), w);
    console = λ _ _ _ _ _ _ w. (pos 0, w);
    console_log = λ _ _ _ _ w. ((pos 0, 0, none), w);
    can_malloc = λ _. true;
    attach_shell = λ _ _ w. ((pos 0, 43), w);
    attach_command = λ _ _ _ w. ((pos 0, 43), w);
    attach_run_wait = λ _ _ _ w. (pos w.status, w);
    waitpid = λ p w. (reaped p w.status, w);
    wait_rounds = λ _ _. 1;
  };
  host = record {
    container_new = λ _ _ w. (some 1, w);
    container_get = λ _ w. (pos 1, w);
    container_put = λ o w. (elim o [ none ↦ minus_one | some _ ↦ pos 1 ], w);
    get_version = codes "4.0.12";
    get_global_config_item = λ _ _. none;
    list_all_containers = λ _ _. (pos 0, []);
    list_defined_containers = λ _ _. (pos 0, []);
    list_active_containers = λ _ _. (pos 0, []);
    config_item_is_supported = λ _. true;
    has_api_extension = λ _. false;
    geteuid = λ _. 0;
    read_file = λ _ _. none;
    mkdir_all = λ _ w. w;
    remove_all = λ _ w. w;
    combined_output = λ _ w. (([], true), w);
    now = λ w. w.clock;
    sleep = λ d w. record w { clock = w.clock + d };
    can_calloc = λ _ _. true;
  };
}

-- What the state's name says, and what `freeze` does, by whether the container runs.
thawed_by : (b : Bool) → (state_of (state_name b false) == frozen) ≡ false
unfolding state_of
thawed_by true = refl
thawed_by false = refl

froze_by : (b : Bool) → (state_of (state_name b true) == frozen) ≡ true
unfolding state_of
froze_by true = refl
froze_by false = refl

freeze_by :
    (w : Host) (b : Bool)
    → b ≡ w.is_running
    → (when b (record w { is_frozen = true }) w).0 ≡ true
    → (w.is_running ≡ true)
      × ((when b (record w { is_frozen = true }) w).1.is_running ≡ true)
      × (is_frozen sim 1 (when b (record w { is_frozen = true }) w).1 ≡ true)
freeze_by w true e h = (sym e, sym e, froze_by w.is_running)
freeze_by w false e h = ground arith

pub sim-IsLawful : IsLawful sim
unfolding state_of
sim-IsLawful = record {
  create_made = λ p t b x q args w h. (refl, refl);
  start_ran = λ p i args w d h. (refl, refl);
  start_defined = λ p i args w. refl;
  stop_stopped = λ p w h. refl;
  stop_defined = λ p w. refl;
  freeze_froze = λ p w h. freeze_by w w.is_running refl h;
  freeze_defined = λ p w. ground arith;
  unfreeze_thawed = λ p w h. (refl, thawed_by w.is_running);
  unfreeze_defined = λ p w. refl;
  destroy_undefined = λ p w h. refl;
}

-- The natural number of an integer, 0 for a negative one.
abbrev of : ℤ → ℕ
of (pos n) = n
of (negsuc n) = 0

abbrev pub naturals : Floats
naturals = record {
  Float = ℕ;
  parse_float = λ s. elim (atoi s) [ none ↦ none | some n ↦ some (of n) ];
  of_ℤ = of;
  mul = ◌*◌;
  div = ◌/◌;
  leb = leb;
  print_whole = format;
  print_cents = format;
}

-- A container that is defined and stopped.
abbrev pub resting : Host
resting = record {
  is_defined = true;
  is_running = false;
  is_frozen = false;
  level = codes "INFO";
  count = pos 0;
  clock = 0;
  status = 0;
}

abbrev pub empty_heap : CHeap
empty_heap = record { next = 1; cell = λ _. none }

abbrev pub held : Host → State sim
held w = record { handle = some 1; verbosity = 0; world = w; heap = empty_heap }

abbrev pub let_go : State sim
let_go = record { handle = none; verbosity = 0; world = resting; heap = empty_heap }
