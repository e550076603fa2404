-- ===== src/Container/Attach/Shell.antt =====
-- container.go and lxc-binding.c: how AttachShell waits for the shell.
use go_lxc.Base.{
  ℕ, zero, suc, ◌<◌, ◌==◌, ℤ, pos, negsuc, minus_one, is_neg, length, true, false, none,
  if◌then◌else◌, List, Text, ◌≡◌, ◌∙◌, arith, some, map,
}
use go_lxc.Liblxc.{Liblxc, WaitAnswer, interrupted, failed, reaped}
use go_lxc.Errors.{sentinel, err_attach_failed}
use go_lxc.Exec.{Result, ok, err, fail, pure, ◌>>=◌}
use go_lxc.Options.{AttachOptions}
use go_lxc.Base.Strings.{c_string}
use go_lxc.Memory.{CHeap, alloc, make_null_terminated_args}
use go_lxc.Memory.Arrays.{argv_texts-make}
use go_lxc.Container.{State, Action, make_sure, is_running, call, with_args, with_string, lend}
use go_lxc.Container.Attach.{attach_shell, attach_settings, make_groups}
use go_lxc.Container.Attach.Status.{with_args-room, HasRoom, settings}
use go_lxc.Binding.{wait_round, go_lxc_attach, with_groups, exited, exit_status}

module _ (L : Liblxc) where
  open L use {Ptr, World, attach, host}

  -- The answer is not the end of the process, nor an error.
  abbrev pub IsOther : ℕ → WaitAnswer → Type 0
  IsOther pid interrupted = Unit
  IsOther pid failed = ⊥
  IsOther pid (reaped q status) = (q == pid) ≡ false

  -- `waitpid` comes back so many times, with EINTR or for another process, before it tells how the
  -- process ended, or fails.
  pub data Waits (pid : ℕ) : World → ℕ → ℤ → World → Type 0 where
    ends :
        {n : ℕ} {r : ℤ} {w w' : World} (status : ℕ)
        → n ≡ 0
        → r ≡ pos status
        → attach.waitpid pid w ≡ (reaped pid status, w')
        → Waits pid w n r w'
    fails :
        {n : ℕ} {r : ℤ} {w w' : World}
        → n ≡ 0
        → r ≡ minus_one
        → attach.waitpid pid w ≡ (failed, w')
        → Waits pid w n r w'
    again :
        {n m : ℕ} {r : ℤ} {w w' : World} (a : WaitAnswer) (v : World)
        → n ≡ suc m
        → attach.waitpid pid w ≡ (a, v)
        → IsOther pid a
        → Waits pid v m r w'
        → Waits pid w n r w'

  wait_round-Waits :
      (pid rounds : ℕ) {n : ℕ} {r : ℤ} (w : World) {w' : World}
      → Waits pid w n r w'
      → n < rounds
      → wait_round L rounds pid w ≡ (r, w')
  unfolding wait_round
  wait_round-Waits pid zero w h l = absurd (omega arith)
  wait_round-Waits pid (suc rounds) w (ends status z e t) l = ground (arith, t, e)
  wait_round-Waits pid (suc rounds) w (fails z e t) l = ground (arith, t, e)
  wait_round-Waits pid (suc rounds) w (again interrupted v z t o h) l =
      ground (arith, t, wait_round-Waits pid rounds v h (omega arith))
  wait_round-Waits pid (suc rounds) w (again failed v z t o h) l = absurd o
  wait_round-Waits pid (suc rounds) w (again (reaped q status) v z t o h) l =
      ground (arith, t, o, wait_round-Waits pid rounds v h (omega arith))

  -- What the library answers to a shell, run with the settings of the options, the groups folded in:
  -- a result that is not negative, and the pid.
  abbrev pub Attaches : Ptr → AttachOptions → World → ℕ → World → Type 0
  Attaches p o w pid w' =
      (n : ℕ) × (attach.attach_shell p (with_groups L (make_groups o.groups) (settings L o)) w
        ≡ ((pos n, pid), w'))

  -- What AttachShell returns for what `wait_for_pid_status` returns.
  abbrev pub returned : ℤ → Result (Unit {0}) (Unit {0})
  returned (pos status) = ok tt
  returned (negsuc n) = err tt (sentinel err_attach_failed)

  -- What the wrapper makes of the wait status.
  abbrev shell_status : ℤ → ℤ
  shell_status (pos n) = pos (if exited L n then exit_status L n else n)
  shell_status (negsuc n) = negsuc n

  go_lxc_attach-Waits :
      (p : Ptr) (o : AttachOptions) (u : World) (pid n : ℕ) (r : ℤ) (v w : World)
      → Attaches p o u pid v
      → Waits pid v n r w
      → n < attach.wait_rounds pid v
      → go_lxc_attach L p (settings L o) (make_groups o.groups) u ≡ (shell_status r, w)
  unfolding go_lxc_attach
  go_lxc_attach-Waits p o u pid n (pos k) v w (m, a) h l =
      ground (arith, a, wait_round-Waits pid (attach.wait_rounds pid v) v h l)
  go_lxc_attach-Waits p o u pid n (negsuc k) v w (m, a) h l =
      ground (arith, a, wait_round-Waits pid (attach.wait_rounds pid v) v h l)

  -- The part of AttachShell that holds the two arrays, and what it comes to.
  abbrev attaching : Ptr → AttachOptions → List Text → List Text → Action L
  attaching p o env keep = with_string o.cwd do
    ret ← call (go_lxc_attach L p (attach_settings L o env keep) (make_groups o.groups))
    if is_neg ret then fail tt (sentinel err_attach_failed) else pure tt

  Ran : Result (Unit {0}) (Unit {0}) × State L → Result (Unit {0}) (Unit {0}) → World → Type 0
  Ran e r w = (e.0 ≡ r) × (e.1.world ≡ w)

  attaching-Ran :
      (p : Ptr) (o : AttachOptions) (s : State L) (pid n : ℕ) (r : ℤ) (v w : World)
      → Attaches p o s.world pid v
      → Waits pid v n r w
      → n < attach.wait_rounds pid v
      → Ran (attaching p o (map c_string o.env) (map c_string o.env_to_keep) s) (returned r) w
  unfolding Ran with_string
  attaching-Ran p o s pid n (pos k) v w a h l =
      ground (arith, go_lxc_attach-Waits p o s.world pid n (pos k) v w a h l)
  attaching-Ran p o s pid n (negsuc k) v w a h l =
      ground (arith, go_lxc_attach-Waits p o s.world pid n (negsuc k) v w a h l)

  with_args-world :
      (args : List Text) (k : List Text → Action L) (s : State L)
      → host.can_calloc (suc (length args)) s.world ≡ true
      → (with_args tt args k s).1.world
        ≡ (k
            (map c_string args)
            (record s { heap = (make_null_terminated_args true args s.heap).1 })).1.world
  unfolding with_args lend make_null_terminated_args alloc
  with_args-world args k s room = ground (arith, room, argv_texts-make args s.heap)

  with_args-Ran :
      (args : List Text) (k : List Text → Action L) (s : State L) (r : Result (Unit {0}) (Unit {0}))
      (w : World)
      → HasRoom L s.world
      → ((h : CHeap) → Ran (k (map c_string args) (record s { heap = h })) r w)
      → Ran (with_args tt args k s) r w
  unfolding Ran
  with_args-Ran args k s r w room h =
      (with_args-room tt args k s (room _) ∙ (h _).0, with_args-world args k s (room _) ∙ (h _).1)

  -- AttachShell of a container that was not released and runs, with room for its arrays, where the
  -- library attaches a shell: it waits until `waitpid` tells how the shell ended, or fails, and returns
  -- an error only where it failed. The shell's exit status is dropped. `wait_rounds` is above the
  -- number of times that `waitpid` comes back before.
  pub attach_shell-Waits :
      (p : Ptr) (o : AttachOptions) (s : State L) (pid n : ℕ) (r : ℤ) (v w : World)
      → s.handle ≡ some p
      → make_sure L is_running s ≡ none
      → HasRoom L s.world
      → Attaches p o s.world pid v
      → Waits pid v n r w
      → n < attach.wait_rounds pid v
      → ((attach_shell L o s).0 ≡ returned r) × ((attach_shell L o s).1.world ≡ w)
  unfolding attach_shell Ran
  attach_shell-Waits p o s pid n r v w e sure_ok room a h l = ground (
    arith,
    e,
    sure_ok,
    with_args-Ran o.env (λ env. with_args tt o.env_to_keep λ keep. attaching p o env keep) s
        (returned r) w room
        (λ (g : CHeap).
          with_args-Ran o.env_to_keep (λ keep. attaching p o (map c_string o.env) keep)
            (record s { heap = g }) (returned r) w room
            (λ (i : CHeap). attaching-Ran p o (record s { heap = i }) pid n r v w a h l)),
  )
