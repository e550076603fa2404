-- ===== src/Container/Calls/Interleaved.antt =====
-- container.go: the methods of a Container under its lock, for any way in which their bodies are cut into
-- the steps that other goroutines can come between.
use go_lxc.Base.{ℕ, zero, suc, arith, false, List, ◌≡◌, ◌⊎◌, inl, inr, refl, none, ◌∙◌, ap, All}
use go_lxc.Liblxc.{Liblxc}
use go_lxc.Floats.{Floats}
use go_lxc.Locking.{shared, Locked, Body, whole, EachStep, System, Reach}
use go_lxc.Locking.Serial.{Serial, begins, calls_whole, reads_on, Reach-Settled}
use go_lxc.Locking.Progress.{IsFinished, Next, goes_on_or_IsFinished}
use go_lxc.Container.{State}
use go_lxc.Container.Network.{wait_loop, wait_ip_addresses, slept}
use go_lxc.Container.Operations.{Request, run}
use go_lxc.Container.Calls.{
  Call, asks, requests, executes, awaits, Answer, lock_of, run_call, most_rounds,
}
use go_lxc.Container.Calls.Steady.{SameFields}
use go_lxc.Container.Calls.Steady.Fields.{run-Assigns, run-points}
use go_lxc.Container.Calls.Steady.Commands.{execute-IsSteady}
use go_lxc.Container.Calls.Reading.{read-same}

-- The rounds of `WaitIPAddresses` leave the fields of the Container as they were.
wait_loop-SameFields :
    (L : Liblxc) (fuel since timeout : ℕ) (s : State L)
    → SameFields s (wait_loop L fuel since timeout s).1
unfolding wait_loop
wait_loop-SameFields L zero since timeout s = (refl, refl)
wait_loop-SameFields L (suc fuel) since timeout s =
    let rest = wait_loop-SameFields L fuel since timeout (slept L s) in ground arith

module _ (L : Liblxc) (R : Floats) where
  open R use {Float}

  request-SameFields :
      (q : Request Float) (s : State L)
      → lock_of (requests q) ≡ shared
      → SameFields s (run L R q s).1
  unfolding lock_of
  request-SameFields Request.release s l = cc
  request-SameFields (Request.want_daemonize x) s l = cc
  request-SameFields (Request.want_close_all_fds x) s l = cc
  request-SameFields (Request.set_verbosity x) s l = cc
  request-SameFields Request.init_pid_fd s l = run-Assigns L R Request.init_pid_fd s
  request-SameFields Request.devpts_fd s l = run-Assigns L R Request.devpts_fd s
  request-SameFields Request.seccomp_notify_fd s l = run-Assigns L R Request.seccomp_notify_fd s
  request-SameFields Request.seccomp_notify_fd_active s l =
      run-Assigns L R Request.seccomp_notify_fd_active s
  request-SameFields Request.freeze s l = cc
  request-SameFields Request.unfreeze s l = cc
  request-SameFields Request.start s l = cc
  request-SameFields (Request.start_with_args x) s l = cc
  request-SameFields (Request.start_execute x) s l = cc
  request-SameFields Request.stop s l = cc
  request-SameFields Request.reboot s l = cc
  request-SameFields (Request.shutdown x) s l = cc
  request-SameFields Request.destroy s l = cc
  request-SameFields Request.destroy_with_all_snapshots s l = cc
  request-SameFields (Request.clone x y) s l = cc
  request-SameFields (Request.rename x) s l = cc
  request-SameFields (Request.wait x y) s l = cc
  request-SameFields (Request.create x) s l = cc
  request-SameFields (Request.set_config_item x y) s l = cc
  request-SameFields (Request.set_cgroup_item x y) s l = cc
  request-SameFields Request.clear_config s l = cc
  request-SameFields (Request.clear_config_item x) s l = cc
  request-SameFields (Request.load_config_file x) s l = cc
  request-SameFields (Request.save_config_file x) s l = cc
  request-SameFields (Request.set_config_path x) s l = cc
  request-SameFields (Request.set_log_file x) s l = cc
  request-SameFields (Request.set_log_level x) s l = cc
  request-SameFields Request.create_snapshot s l = cc
  request-SameFields (Request.restore_snapshot x y) s l = cc
  request-SameFields (Request.destroy_snapshot x) s l = cc
  request-SameFields Request.destroy_all_snapshots s l = cc
  request-SameFields Request.snapshots s l = run-Assigns L R Request.snapshots s
  request-SameFields (Request.set_memory_limit x) s l = cc
  request-SameFields (Request.set_soft_memory_limit x) s l = cc
  request-SameFields (Request.set_kernel_memory_limit x) s l = cc
  request-SameFields (Request.set_memory_swap_limit x) s l = cc
  request-SameFields (Request.console_fd x) s l = cc
  request-SameFields (Request.console x) s l = cc
  request-SameFields (Request.attach_shell x) s l = cc
  request-SameFields (Request.run_command_status x y) s l = cc
  request-SameFields (Request.run_command_no_wait x y) s l = cc
  request-SameFields (Request.run_command x y) s l = cc
  request-SameFields (Request.console_log x) s l = cc
  request-SameFields (Request.add_device_node x y) s l = cc
  request-SameFields (Request.remove_device_node x y) s l = cc
  request-SameFields (Request.checkpoint x) s l = cc
  request-SameFields (Request.restore x) s l = cc
  request-SameFields (Request.migrate x y) s l = cc
  request-SameFields (Request.attach_interface x y) s l = cc
  request-SameFields (Request.detach_interface x) s l = cc
  request-SameFields (Request.detach_interface_rename x y) s l = cc

  -- A method that takes the lock only for reading leaves the fields of the Container as they were.
  pub shared-SameFields :
      (c : Call Float) (s : State L) → lock_of c ≡ shared → SameFields s (run_call L R c s).1
  unfolding run_call lock_of wait_ip_addresses
  shared-SameFields (asks q) s l =
      (ap (λ t. t.handle) (read-same L R q s), ap (λ t. t.verbosity) (read-same L R q s))
  shared-SameFields (requests q) s l = request-SameFields q s l
  shared-SameFields (executes args) s l = cc
  shared-SameFields (awaits timeout) s l =
      wait_loop-SameFields L (most_rounds L timeout) (L.host.now s.world) timeout s

  -- A way to cut the methods into steps: together the steps do what the method does, and the steps of
  -- a method that shares the lock assign no field.
  pub record Cut : Type 0 where
    pub body : Call Float → Body (State L) (Answer Float)
    pub body_whole : (c : Call Float) (s : State L) → whole (body c) s ≡ run_call L R c s
    pub body_shared : (c : Call Float) → lock_of c ≡ shared → EachStep SameFields (body c)

  -- The methods of a Container under its lock.
  abbrev pub methods : Cut → Locked
  methods cut = record {
    State = State L;
    Call = Call Float;
    Answer = Answer Float;
    run = run_call L R;
    lock_of = lock_of;
    Keeps = SameFields;
    body = cut.body;
    body_whole = cut.body_whole;
    body_shared = cut.body_shared;
  }

module _ (L : Liblxc) (R : Floats) (cut : Cut L R) where
  open R use {Float}

  abbrev M : Locked
  M = methods L R cut

  -- However the goroutines' calls are interleaved, and however the methods are cut into steps: while no
  -- method has the lock alone, whole calls and steps that assign no field of the Container lead to its
  -- state. Such a step may change the library's state and the heap in any way.
  calls-Serial :
      {s : State L} {css : List (List (Call Float))} {t : System M}
      → Reach M s css t
      → t.writing ≡ false
      → Serial M s t.state
  calls-Serial r w = (Reach-Settled M r).state_serial w

  -- The pointer of a Container is the one that it began with, or none.
  abbrev PointsAs : State L → State L → Type 0
  PointsAs s t = (t.handle ≡ s.handle) ⊎ (t.handle ≡ none)

  points_on : (s t u : State L) → u.handle ≡ t.handle → PointsAs s t → PointsAs s u
  points_on s t u e (inl p) = inl (e ∙ p)
  points_on s t u e (inr p) = inr (e ∙ p)

  points_or : (s t u : State L) → PointsAs t u → PointsAs s t → PointsAs s u
  points_or s t u (inl e) p = points_on s t u e p
  points_or s t u (inr e) p = inr e

  run_call-points : (c : Call Float) (t : State L) → PointsAs t (run_call L R c t).1
  unfolding run_call wait_ip_addresses
  run_call-points (asks q) t = inl (ap (λ u. u.handle) (read-same L R q t))
  run_call-points (requests q) t = run-points L R q t
  run_call-points (executes args) t = inl ((execute-IsSteady args).at t).0
  run_call-points (awaits timeout) t =
      inl (wait_loop-SameFields L (most_rounds L timeout) (L.host.now t.world) timeout t).0

  Serial-points : {s t : State L} → Serial M s t → PointsAs s t
  Serial-points begins = inl refl
  Serial-points {s} (calls_whole c {t} l h) =
      points_or s t (run_call L R c t).1 (run_call-points c t) (Serial-points h)
  Serial-points {s} (reads_on {t} {u} k h) = points_on s t u k.0 (Serial-points h)

  -- Whatever the goroutines call, and however their calls are interleaved, the Container never points to
  -- another container of the library: while no method has the lock alone, its pointer is the one that it
  -- began with, or null.
  pub pointer_kept :
      {s : State L} {css : List (List (Call Float))} {t : System M}
      → Reach M s css t
      → t.writing ≡ false
      → (t.state.handle ≡ s.handle) ⊎ (t.state.handle ≡ none)
  pointer_kept r w = Serial-points (calls-Serial r w)

  -- No deadlock: in every state that the goroutines can reach, each has made its calls or one of them
  -- has a next step, also where the lock lets no reader in while a writer waits.
  calls_go_on :
      {s : State L} {css : List (List (Call Float))} {t : System M}
      → Reach M s css t
      → All (IsFinished M) t.threads ⊎ Next M t
  calls_go_on r = goes_on_or_IsFinished M r
