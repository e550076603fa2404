-- ===== src/Examples/Exit.antt =====
-- examples: how the programs that call one method end: destroy, reboot, console, create_snapshot and
-- restore_snapshot.
use go_lxc.Base.{none, some, [], ◌∷◌, Text, codes, minus_one, ◌≡◌, ◌≢◌, ◌⊎◌, inl, inr, refl, arith}
use go_lxc.Base.Strings.{c_string}
use go_lxc.Errors.{Error}
use go_lxc.Exec.{Fault}
use go_lxc.Liblxc.{Liblxc}
use go_lxc.Floats.{Floats}
use go_lxc.Memory.{CHeap}
use go_lxc.Types.{quiet}
use go_lxc.Options.{default_console_options}
use go_lxc.Container.{State}
use go_lxc.Container.Handle.{release}
use go_lxc.Container.Operations.{Request, Reply, done, failed, broken, run}
use go_lxc.Container.Calls.Steady.{SameFields}
use go_lxc.Container.Calls.Steady.Fields.{run-Assigns}
use go_lxc.Global.{new_container}
use go_lxc.Examples.{
  Session, Ending, goes_on, exits, crashes, Line, says, complains, deferred, with_container,
  perform,
}
use go_lxc.Examples.Commands.{
  Main, one_call, snap0, destroy_main, reboot_main, console_main, create_snapshot_main,
  restore_snapshot_main,
}

-- The programs.
pub data OneCall : Type 0 where
  destroy reboot console create_snapshot restore_snapshot : OneCall

module _ (L : Liblxc) (R : Floats) where
  open L use {Ptr, World, host}
  open R use {Float}

  unfoldable pub main_of : OneCall → Main L
  unfolding destroy_main reboot_main console_main create_snapshot_main restore_snapshot_main
  main_of destroy = destroy_main L R
  main_of reboot = reboot_main L R
  main_of console = console_main L R
  main_of create_snapshot = create_snapshot_main L R
  main_of restore_snapshot = restore_snapshot_main L R

  -- The method that the program is for.
  unfoldable pub request_of : OneCall → Request Float
  request_of destroy = Request.destroy
  request_of reboot = Request.reboot
  request_of console = Request.console default_console_options
  request_of create_snapshot = Request.create_snapshot
  request_of restore_snapshot = Request.restore_snapshot (snap0 L R) (codes "rubik-restore")

  -- The Container that `NewContainer` makes.
  abbrev pub opened : Ptr → World → CHeap → State L
  opened p w h = record { handle = some p; verbosity = quiet; world = w; heap = h }

  -- How the process ends for the reply `r` of the method: with status 0 and the Container released; with
  -- status 1, the error as the last line, and the Container not released; or in the method's crash.
  abbrev pub Ends : Ptr → Reply → Ending (Unit {0}) × Session L → Type 1
  Ends p r e =
      ((r ≡ done) × (e.0 ≡ goes_on tt) × (e.1.container.handle ≡ none))
      ⊎ ((x : Error) × (line : Line) × (r ≡ failed x)
          × (e.0 ≡ exits)
          × (e.1.printed ≡ line ∷ complains x ∷ [])
          × (e.1.container.handle ≡ some p))
      ⊎ ((x : Fault) × (r ≡ broken x) × (e.0 ≡ crashes x))

  -- The line that the program prints first.
  unfoldable line_of : OneCall → Line
  line_of destroy = says (codes "Destroying container...")
  line_of reboot = says (codes "Rebooting the container...")
  line_of console = says (codes "Attaching to container's console...")
  line_of create_snapshot = says (codes "Snapshoting the container...")
  line_of restore_snapshot = says (codes "Restoring the container...")

  -- The end of main after the method.
  abbrev after : Line → Reply × State L → Ending (Unit {0}) × Session L
  after l (done, t) = deferred L (goes_on tt, record { container = t; printed = l ∷ [] })
  after l (failed e, t) = (exits, record { container = t; printed = l ∷ complains e ∷ [] })
  after l (broken x, t) = deferred L (crashes x, record { container = t; printed = l ∷ [] })

  one_call-after :
      (name lxcpath : Text) (w : World) (h : CHeap) (p : Ptr) (w' : World)
      → host.container_new (c_string name) (some (c_string lxcpath)) w ≡ (some p, w')
      → (line : Text) (q : Request Float)
      → with_container L name lxcpath (one_call L R line q) w h
        ≡ after (says line) (run L R q (opened p w' h))
  unfolding with_container perform new_container
  one_call-after name lxcpath w h p w' e line q = ground (arith, e)

  main_of-after :
      (c : OneCall) (name lxcpath : Text) (w : World) (h : CHeap) (p : Ptr) (w' : World)
      → host.container_new (c_string name) (some (c_string lxcpath)) w ≡ (some p, w')
      → main_of c name lxcpath w h ≡ after (line_of c) (run L R (request_of c) (opened p w' h))
  unfolding main_of with_container perform request_of line_of
  main_of-after destroy name lxcpath w h p w' e =
      one_call-after name lxcpath w h p w' e _ Request.destroy
  main_of-after reboot name lxcpath w h p w' e =
      one_call-after name lxcpath w h p w' e _ Request.reboot
  main_of-after console name lxcpath w h p w' e =
      one_call-after name lxcpath w h p w' e _ (Request.console default_console_options)
  main_of-after create_snapshot name lxcpath w h p w' e =
      one_call-after name lxcpath w h p w' e _ Request.create_snapshot
  main_of-after restore_snapshot name lxcpath w h p w' e =
      one_call-after name lxcpath w h p w' e _
        (Request.restore_snapshot (snap0 L R) (codes "rubik-restore"))

  Ends-after :
      (l : Line) (p : Ptr) (r : Reply) (t : State L)
      → ((v : World) → (host.container_put (some p) v).0 ≢ minus_one)
      → t.handle ≡ some p
      → Ends p r (after l (r, t))
  unfolding deferred release
  Ends-after l p done t put e = inl (refl, refl, ground (arith, e, put t.world))
  Ends-after l p (failed x) t put e = inr (inl (x, l, refl, refl, refl, e))
  Ends-after l p (broken Fault.index_out_of_range) t put e = inr (inr (_, refl, refl))
  Ends-after l p (broken Fault.null_dereference) t put e = inr (inr (_, refl, refl))

  request_of-SameFields : (c : OneCall) (s : State L) → SameFields s (run L R (request_of c) s).1
  unfolding request_of
  request_of-SameFields destroy s = run-Assigns L R Request.destroy s
  request_of-SameFields reboot s = run-Assigns L R Request.reboot s
  request_of-SameFields console s = run-Assigns L R (Request.console default_console_options) s
  request_of-SameFields create_snapshot s = run-Assigns L R Request.create_snapshot s
  request_of-SameFields restore_snapshot s =
      run-Assigns L R (Request.restore_snapshot (snap0 L R) (codes "rubik-restore")) s

  -- The examples destroy, reboot, console, create_snapshot and restore_snapshot, where `NewContainer`
  -- gives a Container and the library can drop a reference that is held: the process ends with status
  -- 0 exactly where the method returned no error, and then the Container is released; where the method
  -- returned an error, it is the last line printed, the status is 1 and the Container is not released;
  -- and where the method crashed, the process crashes.
  pub main_of-Ends :
      (c : OneCall) (name lxcpath : Text) (w : World) (h : CHeap) (p : Ptr) (w' : World)
      → host.container_new (c_string name) (some (c_string lxcpath)) w ≡ (some p, w')
      → ((v : World) → (host.container_put (some p) v).0 ≢ minus_one)
      → Ends p (run L R (request_of c) (opened p w' h)).0 (main_of c name lxcpath w h)
  main_of-Ends c name lxcpath w h p w' e put =
      rw (main_of-after c name lxcpath w h p w' e)
        (Ends-after (line_of c) p _ _ put (request_of-SameFields c (opened p w' h)).0)
