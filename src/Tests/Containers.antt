-- ===== src/Tests/Containers.antt =====
-- The theorems on a container's methods, at concrete inputs.
use go_lxc.Base.{
  pos, true, false, none, some, List, [], ◌∷◌, Text, codes, ◌≡◌, ◌≢◌, ◌↔◌, refl, arith,
}
use go_lxc.Base.Strings.{c_string}
use go_lxc.Errors.{sentinel, about, err_not_defined, err_already_defined, err_already_running}
use go_lxc.Exec.{ok, err, fault, null_dereference, index_out_of_range}
use go_lxc.Memory.{make_null_terminated_args, free_null_terminated_args, argv_texts}
use go_lxc.Memory.Arrays.{free-make}
use go_lxc.Memory.Returned.{convert_args, convert_args-make}
use go_lxc.Options.{
  no_template_options, busybox_template_options, download_template_options, default_attach_options,
  MigrateOptions, BackendStoreSpecs,
}
use go_lxc.Container.{make_sure, is_not_running}
use go_lxc.Container.Lifecycle.{start_with_args, start_execute}
use go_lxc.Container.Lifecycle.Phases.Diagram.{perform-Edge}
use go_lxc.Container.Lifecycle.Phases.{Edge, perform, phase, stopped, running}
use go_lxc.Container.Lifecycle.Phases
use go_lxc.Container.Lifecycle.Arguments.{start_with_args-leaks}
use go_lxc.Container.Operations.{Request, run, failed}
use go_lxc.Container.Operations.Released.{EndsReleased, run-EndsReleased}
use go_lxc.Container.Operations.Refused.{run_refused}
use go_lxc.Container.Attach.{attach_shell, run_command_no_wait, run_command_status, run_command}
use go_lxc.Container.Attach.Status.{run_command-exited, run_command-killed}
use go_lxc.Container.Arrays.{IsTidy, commands-IsTidy}
use go_lxc.Container.Network.{wait_ip_addresses}
use go_lxc.Container.Network.Waiting.{wait_ip_addresses-ends}
use go_lxc.Container.Config.{set_log_level, log_level, log_file}
use go_lxc.Container.Config.LogItems.{log_level-set_log_level}
use go_lxc.Container.Create.{create_args, create}
use go_lxc.Container.Create.Specs.{with_specs, create-same}
use go_lxc.Container.Create.Arguments.{
  create-refused_iff, refused, released_faults, Downloads, LacksOne,
}
use go_lxc.Container.Devices.{migrate}
use go_lxc.Container.Devices.Migration.{migrate-defined}
use go_lxc.Tests.Sim.{sim, sim-IsLawful, naturals, resting, empty_heap, held, let_go, Host}

abbrev busy : Host
busy = record resting { is_running = true }

perform-Edge_example :
    Edge Phases.start stopped (phase sim (perform sim Phases.start (held resting)).1)
unfolding perform go_lxc.Container.Lifecycle.start
perform-Edge_example = perform-Edge sim sim-IsLawful Phases.start 1 (held resting) refl refl refl

run-EndsReleased_example :
    ((run sim naturals Request.freeze let_go).0 ≡ failed (sentinel err_not_defined))
    × (((run sim naturals Request.freeze let_go).1.handle ≡ none)
        × ((run sim naturals Request.freeze let_go).1.world ≡ resting))
unfolding EndsReleased
run-EndsReleased_example = run-EndsReleased sim naturals (λ w. refl) Request.freeze let_go refl

run_refused_example : (run sim naturals Request.start (held busy)).1 ≡ held busy
unfolding run make_sure
run_refused_example =
    run_refused sim naturals Request.start (held busy) {e = err_already_running} {n = codes "box"}
      refl

abbrev command : List Text
command = codes "ls" ∷ codes "-l" ∷ []

convert_args-make_example :
    convert_args (some 1) (make_null_terminated_args true command empty_heap).1 ≡ some command
unfolding c_string
convert_args-make_example = convert_args-make command empty_heap (omega arith)

free-make_example :
    (free_null_terminated_args 1 2 (make_null_terminated_args true command empty_heap).1).cell 2
    ≡ none
free-make_example = free-make command empty_heap (λ r h. refl) 2

start_with_args-leaks_example :
    ((start_with_args sim command (held resting)).1.world ≡ busy)
    × (argv_texts 1 (start_with_args sim command (held resting)).1.heap ≡ command)
    × ((start_execute sim command (held resting)).1.world ≡ busy)
    × (argv_texts 1 (start_execute sim command (held resting)).1.heap ≡ command)
unfolding c_string make_sure
start_with_args-leaks_example = start_with_args-leaks sim command 1 (held resting) refl refl refl

abbrev exited_3 : Host
exited_3 = record busy { status = 768 }

run_command-exited_example :
    ((run_command_status sim command default_attach_options (held exited_3)).0 ≡ ok (pos 3))
    × ((run_command sim command default_attach_options (held exited_3)).0 ≡ ok false)
unfolding make_sure
run_command-exited_example =
    run_command-exited sim 1 (codes "ls") (codes "-l" ∷ []) default_attach_options (held exited_3) 3
      refl refl (λ n. refl) (omega arith) refl

abbrev killed_9 : Host
killed_9 = record busy { status = 9 }

run_command-killed_example :
    (run_command sim command default_attach_options (held killed_9)).0 ≡ ok true
unfolding make_sure
run_command-killed_example =
    run_command-killed sim 1 (codes "ls") (codes "-l" ∷ []) default_attach_options (held killed_9) 9
      refl refl (λ n. refl) (omega arith) (omega arith) refl

wait_ip_addresses-ends_example : (wait_ip_addresses sim 3 2000000000 (held busy)).0 ≢ none
wait_ip_addresses-ends_example =
    wait_ip_addresses-ends sim (λ d w. omega arith) 2 2000000000 (held busy) (omega arith)

log_level-set_log_level_example : (log_level sim (set_log_level sim 1 (held resting)).1).0 ≡ ok 1
unfolding set_log_level
log_level-set_log_level_example =
    log_level-set_log_level sim 1 1 (held resting) (λ h. refl) (omega arith) refl refl

abbrev undefined : Host
undefined = record resting { is_defined = false }

create-refused_iff_example :
    (create sim no_template_options (held undefined) ≡ refused sim (held undefined))
    ↔ (Downloads no_template_options × LacksOne no_template_options)
unfolding make_sure
create-refused_iff_example = create-refused_iff sim no_template_options 1 (held undefined) refl refl

abbrev thin : Text → BackendStoreSpecs
thin pool = record {
  fs_type = codes "ext4";
  fs_size = 1000;
  zfs_root = [];
  lvm_vg = [];
  lvm_lv = pool;
  lvm_thinpool = pool;
  rbd_name = [];
  rbd_pool = [];
  dir = none;
}

create-same_example :
    create sim (with_specs sim busybox_template_options (thin (codes "fast")))
    ≡ create sim (with_specs sim busybox_template_options (thin (codes "slow")))
create-same_example =
    create-same sim busybox_template_options (thin (codes "fast")) (thin (codes "slow")) (record {
      fs_type_alike = tt;
      fs_size_same = refl;
      zfs_root_alike = tt;
      lvm_vg_alike = tt;
      lvm_thinpool_alike = tt;
      rbd_name_alike = tt;
      rbd_pool_alike = tt;
      dir_alike = tt;
    })

released_faults_example :
    ((create sim busybox_template_options let_go).0 ≡ fault null_dereference)
    × ((log_file sim let_go).0 ≡ fault index_out_of_range)
unfolding create_args
released_faults_example = released_faults sim busybox_template_options [] let_go refl refl refl

abbrev dumped : MigrateOptions
dumped = record {
  directory = codes "/tmp/dump";
  predump_dir = [];
  action_script = [];
  verbose = true;
  stop = true;
  preserves_inodes = false;
  ghost_limit = 0;
  features_to_check = 0;
}

migrate-defined_example :
    migrate sim 1 dumped (held busy) ≡ (err tt (about err_already_defined (codes "box")), held busy)
unfolding go_lxc.Container.name go_lxc.Container.defined
migrate-defined_example = migrate-defined sim 1 dumped 1 (held busy) refl refl

commands-IsTidy_example :
    IsTidy (attach_shell sim default_attach_options)
    × IsTidy (run_command_status sim command default_attach_options)
    × IsTidy (run_command_no_wait sim command default_attach_options)
    × IsTidy (run_command sim command default_attach_options)
    × IsTidy (create sim download_template_options)
commands-IsTidy_example =
    commands-IsTidy sim command default_attach_options download_template_options
