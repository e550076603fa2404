-- ===== src/Container/Lifecycle.antt =====
-- container.go: the methods that move a container through its life.
pub mod Phases
pub mod Arguments
use go_lxc.Base.{
  to_int32, ℕ, ◌/◌, zero, suc, ℤ, pos, negsuc, Bool, true, false, not, Option, none, some, List, [],
  ◌∷◌, Text, ◌==◌, if◌then◌else◌, bit_or,
}
use go_lxc.Base.Strings.{c_string}
use go_lxc.Errors.{
  sentinel, err_already_frozen, err_freeze_failed, err_not_frozen, err_unfreeze_failed,
  err_start_failed, err_stop_failed, err_reboot_failed, err_shutdown_failed, err_destroy_failed,
  err_destroy_with_all_snapshots_failed, err_clone_failed, err_rename_failed,
}
use go_lxc.Exec.{unless, ◌>>=◌, ◌>>◌}
use go_lxc.Liblxc.{Liblxc}
use go_lxc.Types.State.{frozen, state_string}
use go_lxc.Types.Backend.{directory, backend_string}
use go_lxc.Options.{CloneOptions}
use go_lxc.Binding.{go_lxc_destroy_with_snapshots, go_lxc_clone}
use go_lxc.Container.{
  State, Action, is_defined, is_running, is_not_running, is_at_least_lxc11, handle_or, follow, sure,
  get, must, make_args, argv, make_sure,
}
use go_lxc.Container.Handle.{state}

-- `C.int(timeout.Seconds())` of a `time.Duration` in nanoseconds: whole seconds, towards 0, in
-- 32 bits.
unfoldable pub whole_seconds : ℤ → ℤ
unfolding to_int32
whole_seconds (pos n) = to_int32 (pos (n / 1000000000))
whole_seconds (negsuc n) = to_int32 (elim (suc n / 1000000000) [ zero ↦ pos 0 | suc m ↦ negsuc m ])

-- `options.Backend`, or `Directory` if it is not set.
abbrev pub backend_or_directory : ℕ → ℕ
backend_or_directory backend = if backend == 0 then directory else backend

module _ (L : Liblxc) where
  open L use {Ptr, World, constants, life}

  -- `Freeze`
  unfoldable pub freeze : Action L
  unfolding state
  freeze = do
    p ← handle_or tt
    s ← get
    unless (not (state L s == frozen)) tt (sentinel err_already_frozen)
    must tt err_freeze_failed (life.freeze p)

  -- `Unfreeze`
  unfoldable pub unfreeze : Action L
  unfolding state make_sure
  unfreeze = do
    p ← handle_or tt
    sure tt is_running
    s ← get
    unless (state L s == frozen) tt (sentinel err_not_frozen)
    must tt err_unfreeze_failed (life.unfreeze p)

  -- `Start`
  unfoldable pub start : Action L
  unfolding make_sure
  start = do
    p ← handle_or tt
    sure tt is_not_running
    must tt err_start_failed (life.start p false none)

  -- `StartWithArgs`; the array is not freed, and a null one is passed on.
  unfoldable pub start_with_args : List Text → Action L
  unfolding make_sure make_args argv
  start_with_args args = do
    p ← handle_or tt
    sure tt is_not_running
    cargs ← make_args args
    given ← argv cargs
    must tt err_start_failed (life.start p false given)

  -- `StartExecute`; the array is not freed, and a null one is passed on.
  unfoldable pub start_execute : List Text → Action L
  unfolding make_sure make_args argv
  start_execute args = do
    p ← handle_or tt
    sure tt is_not_running
    cargs ← make_args args
    given ← argv cargs
    must tt err_start_failed (life.start p true given)

  -- `Stop`
  unfoldable pub stop : Action L
  unfolding make_sure
  stop = do p ← handle_or tt; sure tt is_running; must tt err_stop_failed (life.stop p)

  -- `Reboot`
  unfoldable pub reboot : Action L
  unfolding make_sure
  reboot = do p ← handle_or tt; sure tt is_running; must tt err_reboot_failed (life.reboot p)

  -- `Shutdown`
  unfoldable pub shutdown : ℤ → Action L
  unfolding make_sure
  shutdown timeout = do
    p ← handle_or tt
    sure tt is_running
    must tt err_shutdown_failed (life.shutdown p (whole_seconds timeout))

  -- `Destroy`
  unfoldable pub destroy : Action L
  unfolding make_sure
  destroy = do
    p ← handle_or tt
    sure tt (bit_or is_defined is_not_running)
    must tt err_destroy_failed (life.destroy p)

  -- `DestroyWithAllSnapshots`
  unfoldable pub destroy_with_all_snapshots : Action L
  unfolding make_sure go_lxc_destroy_with_snapshots
  destroy_with_all_snapshots = do
    p ← handle_or tt
    sure tt (bit_or (bit_or is_defined is_not_running) is_at_least_lxc11)
    must tt err_destroy_with_all_snapshots_failed (go_lxc_destroy_with_snapshots L p)

  -- The `flags` of `Clone`.
  unfoldable pub clone_flags : CloneOptions → ℕ
  clone_flags o =
      let named : ℕ = if o.keep_name then constants.clone_keepname else 0 in
      let addressed : ℕ = if o.keep_mac then bit_or named constants.clone_keepmacaddr else named in
      if o.snapshot then bit_or addressed constants.clone_snapshot else addressed

  abbrev text_or_null : Text → Option Text
  text_or_null [] = none
  text_or_null (c ∷ s) = some (c_string (c ∷ s))

  -- `Clone`. It tests no pointer: a released container is not defined.
  unfoldable pub clone : Text → CloneOptions → Action L
  unfolding make_sure clone_flags go_lxc_clone backend_string
  clone name o = do
    sure tt (bit_or is_defined is_not_running)
    p ← follow
    must tt err_clone_failed (
        go_lxc_clone L p (c_string name) (text_or_null o.config_path) (clone_flags o)
          (backend_string (backend_or_directory o.backend)))

  -- `Rename`
  unfoldable pub rename : Text → Action L
  unfolding make_sure
  rename name = do
    p ← handle_or tt
    sure tt (bit_or is_defined is_not_running)
    must tt err_rename_failed (life.rename p (c_string name))

  -- `Wait`, which returns a Boolean alone.
  unfoldable pub wait : ℕ → ℤ → State L → Bool × State L
  unfolding state_string
  wait target timeout s = elim s.handle [
    | none ↦ (false, s)
    | some p ↦
        let (reached, w) = life.wait p (state_string target) (whole_seconds timeout) s.world in
        (reached, record s { world = w })
  ]
