-- ===== src/Container/Attach.antt =====
-- container.go: consoles, and commands that are run in a container.
pub mod Status
pub mod Numbers
pub mod Shell
use go_lxc.Base.{
  ℕ, zero, suc, ◌-◌, ◌/◌, ◌%◌, ℤ, pos, negsuc, minus_one, is_neg, to_uint32, to_int32, Bool, true,
  false, not, ltb, leb, take, ◌==◌, Option, none, some, List, [], ◌∷◌, Text, if◌then◌else◌, bit_and,
  bit_or,
}
use go_lxc.Base.Strings.{c_string}
use go_lxc.Errors.{Error, sentinel, errno, err_attach_failed, err_insufficient_number_of_arguments}
use go_lxc.Exec.{
  Result, ok, err, fault, pure, fail, panic, null_dereference, index_out_of_range, unless, ◌>>=◌,
  ◌>>◌,
}
use go_lxc.Liblxc.{Liblxc, AttachSettings}
use go_lxc.Options.{AttachOptions, ConsoleOptions, ConsoleLogOptions}
use go_lxc.Binding.{
  go_lxc_console_getfd, go_lxc_console, go_lxc_console_log, go_lxc_attach, go_lxc_attach_run_wait,
  go_lxc_attach_no_wait,
}
use go_lxc.Container.{
  State, Action, Method, is_running, handle_or, follow, sure, get, ask, call, must, with_args,
  with_string, make_sure,
}

-- `flags &^ mask`
abbrev pub clear_bits : ℕ → ℕ → ℕ
clear_bits flags mask = flags - bit_and flags mask

abbrev enomem : ℕ
enomem = 12

abbrev erange : ℕ
erange = 34

-- `makeGroups`
unfoldable pub make_groups : List ℤ → List ℕ
unfolding to_uint32
make_groups [] = []
make_groups (g ∷ groups) = to_uint32 g ∷ make_groups groups

module _ (L : Liblxc) where
  open L use {Ptr, World, constants, attach}

  -- `ConsoleFd`
  unfoldable pub console_fd : ℤ → Method L ℤ ℤ
  unfolding make_sure go_lxc_console_getfd
  console_fd ttynum = do
    p ← handle_or minus_one
    sure minus_one is_running
    ret ← call (go_lxc_console_getfd L p (to_int32 ttynum))
    if is_neg ret then fail ret (sentinel err_attach_failed) else pure ret

  -- `Console`
  unfoldable pub console : ConsoleOptions → Action L
  unfolding make_sure go_lxc_console
  console o = do
    p ← handle_or tt
    sure tt is_running
    must tt err_attach_failed (
        go_lxc_console L p (to_int32 o.tty) (to_int32 (pos o.stdin_fd)) (to_int32 (pos o.stdout_fd))
          (to_int32 (pos o.stderr_fd)) o.escape_character)

  -- `attachFlags`
  unfoldable pub attach_flags : AttachOptions → ℕ
  attach_flags o =
      let flags =
        if o.remount_sys_proc
        then bit_or constants.attach_default constants.attach_remount_proc_sys
        else constants.attach_default in
      if o.elevated_privileges
      then clear_bits flags (
          bit_or (bit_or constants.attach_move_to_cgroup constants.attach_drop_capabilities)
            constants.attach_lsm_exec)
      else flags

  -- The settings that the three wrappers are given, with what the library reads of the arrays. The
  -- group list of `makeGroups` is an argument of its own.
  unfoldable pub attach_settings : AttachOptions → List Text → List Text → AttachSettings
  unfolding attach_flags to_uint32 to_int32
  attach_settings o env keep = record {
    attach_flags = attach_flags o;
    clear_env = o.clear_env;
    namespaces = to_int32 o.namespaces;
    personality = o.arch;
    uid = to_uint32 o.uid;
    gid = to_uint32 o.gid;
    groups = none;
    stdin_fd = to_int32 (pos o.stdin_fd);
    stdout_fd = to_int32 (pos o.stdout_fd);
    stderr_fd = to_int32 (pos o.stderr_fd);
    initial_cwd = c_string o.cwd;
    extra_env_vars = env;
    extra_keep_env = keep;
  }

  -- `AttachShell`
  unfoldable pub attach_shell : AttachOptions → Action L
  unfolding make_sure with_args with_string attach_settings go_lxc_attach
  attach_shell o = do
    p ← handle_or tt
    sure tt is_running
    with_args tt o.env λ env. with_args tt o.env_to_keep λ keep. with_string o.cwd do
      ret ← call (go_lxc_attach L p (attach_settings o env keep) (make_groups o.groups))
      if is_neg ret then fail tt (sentinel err_attach_failed) else pure tt

  -- `(ret & 0xFF00) >> 8` of a result that is not negative
  unfoldable pub status_of : ℕ → ℕ
  status_of ret = ret % 65536 / 256

  -- The call of `runCommandStatus`, and what it makes of the result.
  unfoldable pub run_and_wait : Ptr → AttachSettings → List ℕ → List Text → Method L ℤ ℤ
  unfolding go_lxc_attach_run_wait status_of
  run_and_wait p a groups argv = do
    ret ← call (go_lxc_attach_run_wait L p a groups argv)
    pure (elim ret [ pos n ↦ pos (status_of n) | negsuc n ↦ negsuc n ])

  -- `runCommandStatus`, and `RunCommandStatus`
  unfoldable pub run_command_status : List Text → AttachOptions → Method L ℤ ℤ
  unfolding make_sure with_args with_string attach_settings run_and_wait
  run_command_status [] o = do
    _ ← handle_or minus_one
    fail minus_one (sentinel err_insufficient_number_of_arguments)
  run_command_status (a ∷ args) o = do
    p ← handle_or minus_one
    sure minus_one is_running
    with_args minus_one (a ∷ args) λ argv. with_args minus_one o.env λ env.
        with_args minus_one o.env_to_keep λ keep.
          with_string o.cwd
            (run_and_wait p (attach_settings o env keep) (make_groups o.groups) argv)

  -- `RunCommandNoWait`
  unfoldable pub run_command_no_wait : List Text → AttachOptions → Method L ℤ ℤ
  unfolding make_sure with_args with_string attach_settings go_lxc_attach_no_wait
  run_command_no_wait [] o = fail minus_one (sentinel err_insufficient_number_of_arguments)
  run_command_no_wait (a ∷ args) o = do
    sure minus_one is_running
    p ← follow
    with_args minus_one (a ∷ args) λ argv. with_args minus_one o.env λ env.
        with_args minus_one o.env_to_keep λ keep. with_string o.cwd do
          r ←
              call
                (go_lxc_attach_no_wait L p (attach_settings o env keep) (make_groups o.groups) argv)
          if is_neg r.0 then fail r.0 (sentinel err_attach_failed) else pure (pos r.1)

  -- What `RunCommand` makes of what `runCommandStatus` returns.
  unfoldable pub as_success : Result ℤ ℤ × State L → Result Bool Bool × State L
  as_success (ok (pos n), t) = (ok (n == 0), t)
  as_success (ok (negsuc n), t) = (err false (sentinel err_attach_failed), t)
  as_success (err v e, t) = (err false e, t)
  as_success (fault x, t) = (fault x, t)

  -- `RunCommand`
  unfoldable pub run_command : List Text → AttachOptions → Method L Bool Bool
  unfolding run_command_status as_success
  run_command args o s = as_success (run_command_status args o s)

  -- `C.GoBytes(data, n)` of a number that is not negative: nothing is read for 0.
  unfoldable pub go_bytes : Option Text → ℕ → Method L (Option Text) (Option Text)
  go_bytes bytes zero = pure (some [])
  go_bytes none (suc n) = panic null_dereference
  go_bytes (some bytes) (suc n) = pure (some (take (suc n) bytes))

  -- What `ConsoleLog` makes of the result. `C.int` of the number of bytes, a uint64, must give it back;
  -- it does for a number that is congruent to a negative one, for which `C.GoBytes` panics.
  unfoldable pub log_read : ℤ → ℕ → Option Text → Method L (Option Text) (Option Text)
  unfolding go_bytes
  log_read (pos _) count bytes =
      if ltb count 0x8000_0000
      then go_bytes bytes count
      else if leb 0xffff_ffff_8000_0000 count
      then panic index_out_of_range
      else fail none (errno erange)
  log_read (negsuc n) count bytes = fail none (errno (suc n))

  -- `ConsoleLog`
  unfoldable pub console_log : ConsoleLogOptions → Method L (Option Text) (Option Text)
  unfolding log_read go_lxc_console_log
  console_log o = do
    p ← handle_or none
    room ← ask attach.can_malloc
    unless room none (errno enomem)
    r ← call (go_lxc_console_log L p o.clear_log o.read_log o.read_max)
    log_read r.0 r.1 r.2
