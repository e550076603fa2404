-- ===== src/Examples/Commands.antt =====
-- examples: the programs that call one or two methods of a Container which change something. The
-- flags of a program are arguments of its main function.
use go_lxc.Base.{
  ℕ, ◌*◌, ℤ, pos, Bool, false, none, some, if◌then◌else◌, ◌++◌, ◌==◌, [], Text, codes,
}
use go_lxc.Errors.{sentinel, err_unknown_backend_store, err_ip_addresses}
use go_lxc.Exec.{ok, err, fault}
use go_lxc.Liblxc.{Liblxc}
use go_lxc.Floats.{Floats}
use go_lxc.Memory.{CHeap}
use go_lxc.Types.{verbose}
use go_lxc.Types.State.{running, frozen}
use go_lxc.Types.LogLevel.{trace}
use go_lxc.Types.Backend.{backend_string}
use go_lxc.Options.{default_console_options}
use go_lxc.Container.Snapshots.{Snapshot}
use go_lxc.Container.Network.{wait_ip_addresses}
use go_lxc.Container.Operations.{Request, done, failed, broken}
use go_lxc.Examples.{
  Session, Program, Ending, goes_on, crashes, says, go_on, print, fatal, perform, attempt,
  drop_error, report, with_container, ◌>>=◌, ◌>>◌,
}

-- Seconds as a `time.Duration`.
abbrev pub seconds : ℕ → ℤ
seconds n = pos (n * 1000000000)

module _ (L : Liblxc) where
  open L use {World}

  -- A main function with the flags `name` and `lxcpath`.
  abbrev pub Main : Type 1
  Main = Text → Text → World → CHeap → Ending (Unit {0}) × Session L

module _ (L : Liblxc) (R : Floats) where
  open L use {World, host}
  open R use {Float}

  -- `log.Printf`, and one method with `log.Fatalf` for its error.
  abbrev pub one_call : Text → Request Float → Program L (Unit {0})
  one_call line q = do print (says line); perform L R q

  -- destroy
  unfoldable pub destroy_main : Main L
  unfolding with_container perform
  destroy_main name lxcpath =
      with_container L name lxcpath (one_call (codes "Destroying container...") Request.destroy)

  -- reboot
  unfoldable pub reboot_main : Main L
  unfolding with_container perform
  reboot_main name lxcpath =
      with_container L name lxcpath (one_call (codes "Rebooting the container...") Request.reboot)

  -- console
  unfoldable pub console_main : Main L
  unfolding with_container perform
  console_main name lxcpath = with_container L name lxcpath (
      one_call (codes "Attaching to container's console...")
        (Request.console default_console_options))

  -- create_snapshot
  unfoldable pub create_snapshot_main : Main L
  unfolding with_container perform
  create_snapshot_main name lxcpath =
      with_container L name lxcpath
        (one_call (codes "Snapshoting the container...") Request.create_snapshot)

  -- `lxc.Snapshot{Name: "snap0"}`
  abbrev pub snap0 : Snapshot
  snap0 = record { name = codes "snap0"; comment_path = []; timestamp = []; path = [] }

  -- restore_snapshot
  unfoldable pub restore_snapshot_main : Main L
  unfolding with_container perform
  restore_snapshot_main name lxcpath = with_container L name lxcpath (
      one_call (codes "Restoring the container...")
        (Request.restore_snapshot snap0 (codes "rubik-restore")))

  -- The calls that set the log, whose errors are dropped.
  abbrev trace_log : Text → Program L (Unit {0})
  trace_log name = do
    drop_error L R (Request.set_log_file (codes "/tmp/" ++ (name ++ codes ".log")))
    drop_error L R (Request.set_log_level trace)

  -- `c.WaitIPAddresses(5 * time.Second)` with `log.Fatalf` for its error. The rounds of 5 seconds
  -- and one more are enough.
  unfoldable pub wait_five : Program L (Unit {0})
  unfolding wait_ip_addresses
  wait_five s =
      let (r, t) = wait_ip_addresses L 6 5000000000 s.container in
      elim r [
        | none ↦ fatal (sentinel err_ip_addresses) (record s { container = t })
        | some r' ↦ elim r' [
          | ok found ↦ (goes_on tt, record s { container = t })
          | err _ e ↦ fatal e (record s { container = t })
          | fault x ↦ (crashes x, record s { container = t })
        ]
      ]

  -- start
  unfoldable pub start_main : Main L
  unfolding with_container perform attempt wait_five
  start_main name lxcpath = with_container L name lxcpath (do
    trace_log name
    print (says (codes "Starting the container..."))
    perform L R Request.start
    print (says (codes "Waiting container to startup networking..."))
    wait_five)

  -- stop
  unfoldable pub stop_main : Main L
  unfolding with_container perform attempt
  stop_main name lxcpath = with_container L name lxcpath (do
    trace_log name
    print (says (codes "Stopping the container..."))
    perform L R Request.stop)

  -- freeze
  unfoldable pub freeze_main : Main L
  unfolding with_container perform attempt
  freeze_main name lxcpath = with_container L name lxcpath (do
    one_call (codes "Freezing the container...") Request.freeze
    drop_error L R (Request.wait frozen (seconds 10)))

  -- unfreeze
  unfoldable pub unfreeze_main : Main L
  unfolding with_container perform attempt
  unfreeze_main name lxcpath = with_container L name lxcpath (do
    one_call (codes "Unfreezing the container...") Request.unfreeze
    drop_error L R (Request.wait running (seconds 10)))

  -- `Stop` where `Shutdown` failed.
  unfoldable pub shutdown_or_stop : Program L (Unit {0})
  unfolding perform attempt
  shutdown_or_stop = do
    r ← attempt L R (Request.shutdown (seconds 30))
    elim r [ done ↦ go_on | failed e ↦ perform L R Request.stop | broken x ↦ go_on ]

  -- shutdown
  unfoldable pub shutdown_main : Main L
  unfolding with_container shutdown_or_stop
  shutdown_main name lxcpath =
      with_container L name lxcpath
        (do print (says (codes "Shutting down the container...")); shutdown_or_stop)

  -- rename, with the flag `newname`
  unfoldable pub rename_main : Text → Main L
  unfolding with_container attempt
  rename_main newname name lxcpath = with_container L name lxcpath (do
    print (says (codes "Renaming container to " ++ (newname ++ codes "...")))
    report L R (Request.rename newname))

  -- clone, with the flag `backend`, which is 0 where it is not given
  unfoldable pub clone_main : ℕ → Main L
  unfolding with_container perform
  clone_main backend name lxcpath = with_container L name lxcpath (
      if backend == 0 then fatal (sentinel err_unknown_backend_store) else (do
        print (
            says (
              codes "Cloning the container using "
              ++ (backend_string backend ++ codes " backend...")))
        perform L R (
            Request.clone (name ++ (codes "_" ++ backend_string backend)) (record {
              backend = backend;
              config_path = [];
              keep_name = false;
              keep_mac = false;
              snapshot = false;
            }))))

  -- `if verbose { c.SetVerbosity(lxc.Verbose) }`
  abbrev pub be_verbose : Bool → Program L (Unit {0})
  be_verbose v = if v then drop_error L R (Request.set_verbosity verbose) else go_on

  -- checkpoint, with the flags `directory`, `verbose` and `stop`
  unfoldable pub checkpoint_main : Text → Bool → Bool → Main L
  unfolding with_container attempt
  checkpoint_main directory v stop name lxcpath = with_container L name lxcpath (do
    be_verbose v
    report L R (Request.checkpoint (record { directory = directory; stop = stop; verbose = v })))

  -- `time.Sleep` of the milliseconds.
  abbrev sleep_ms : ℕ → Program L (Unit {0})
  sleep_ms n s = (
    goes_on tt,
    record s {
      container = record s.container { world = host.sleep (n * 1000000) s.container.world };
    },
  )

  -- device_add_remove
  unfoldable pub device_main : Main L
  unfolding with_container perform
  device_main name lxcpath = with_container L name lxcpath (do
    perform L R (Request.add_device_node (codes "/dev/network_latency") [])
    sleep_ms 10000
    perform L R (Request.remove_device_node (codes "/dev/network_latency") []))
