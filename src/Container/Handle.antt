-- ===== src/Container/Handle.antt =====
-- container.go: the reference that a `Container` holds, and what can be asked of it.
use go_lxc.Base.{ℕ, zero, ℤ, pos, negsuc, minus_one, Bool, false, Option, none, some}
use go_lxc.Base.Strings.{go_string}
use go_lxc.Errors.{
  sentinel, errno, err_release_failed, err_daemonize_failed, err_close_all_fds_failed,
}
use go_lxc.Exec.{ok, err, pure, fail, ◌>>=◌}
use go_lxc.Liblxc.{Liblxc}
use go_lxc.Types.State.{state_of, stopped}
use go_lxc.Binding.{
  go_lxc_init_pidfd, go_lxc_devpts_fd, go_lxc_seccomp_notify_fd, go_lxc_seccomp_notify_fd_active,
}
use go_lxc.Container.{State, Method, Action, handle_or, call, must}

-- `*os.File`: the descriptor; its name is a label.
abbrev pub File : Type 0
File = ℕ

abbrev ebadf : ℕ
ebadf = 9

module _ (L : Liblxc) where
  open L use {Ptr, World, info, host}

  -- `Release`
  unfoldable pub release : Action L
  release s =
      let (ret, w) = host.container_put s.handle s.world in
      elim ret [
        | negsuc zero ↦ (err tt (sentinel err_release_failed), record s { world = w })
        | _ ↦ (ok tt, record s { handle = none; world = w })
      ]

  -- `state`
  unfoldable pub state : State L → ℕ
  state s = elim s.handle [ none ↦ stopped | some p ↦ state_of (go_string (info.state p s.world)) ]

  -- `Controllable`
  unfoldable pub controllable : State L → Bool
  controllable s = elim s.handle [ none ↦ false | some p ↦ info.may_control p s.world ]

  -- `InitPid`
  unfoldable pub init_pid : State L → ℤ
  init_pid s = elim s.handle [ none ↦ minus_one | some p ↦ info.init_pid p s.world ]

  -- `Daemonize`
  unfoldable pub daemonize : State L → Bool
  daemonize s = elim s.handle [ none ↦ false | some p ↦ info.daemonize p s.world ]

  -- `ErrorNum`
  unfoldable pub error_num : State L → ℤ
  error_num s = elim s.handle [ none ↦ minus_one | some p ↦ info.error_num p s.world ]

  -- A descriptor as a file, or EBADF for a negative one.
  abbrev pub file_of : ℤ → Method L (Option File) (Option File)
  file_of (pos fd) = pure (some fd)
  file_of (negsuc n) = fail none (errno ebadf)

  -- `InitPidFd`
  unfoldable pub init_pid_fd : Method L (Option File) (Option File)
  unfolding go_lxc_init_pidfd
  init_pid_fd = do p ← handle_or none; fd ← call (go_lxc_init_pidfd L p); file_of fd

  -- `DevptsFd`
  unfoldable pub devpts_fd : Method L (Option File) (Option File)
  unfolding go_lxc_devpts_fd
  devpts_fd = do p ← handle_or none; fd ← call (go_lxc_devpts_fd L p); file_of fd

  -- `SeccompNotifyFd`
  unfoldable pub seccomp_notify_fd : Method L (Option File) (Option File)
  unfolding go_lxc_seccomp_notify_fd
  seccomp_notify_fd = do p ← handle_or none; fd ← call (go_lxc_seccomp_notify_fd L p); file_of fd

  -- `SeccompNotifyFdActive`
  unfoldable pub seccomp_notify_fd_active : Method L (Option File) (Option File)
  unfolding go_lxc_seccomp_notify_fd_active
  seccomp_notify_fd_active = do
    p ← handle_or none
    fd ← call (go_lxc_seccomp_notify_fd_active L p)
    file_of fd

  -- `WantDaemonize`
  unfoldable pub want_daemonize : Bool → Action L
  want_daemonize state = do
    p ← handle_or tt
    must tt err_daemonize_failed (info.want_daemonize p state)

  -- `WantCloseAllFds`
  unfoldable pub want_close_all_fds : Bool → Action L
  want_close_all_fds state = do
    p ← handle_or tt
    must tt err_close_all_fds_failed (info.want_close_all_fds p state)

  -- `SetVerbosity`
  unfoldable pub set_verbosity : ℕ → Action L
  set_verbosity verbosity s = (ok tt, record s { verbosity = verbosity })
