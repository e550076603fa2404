-- ===== src/Tests/Piping.antt =====
-- The theorems on the example attach_with_pipes, on the small library.
use go_lxc.Base.{none, some, false, true, codes, refl}
use go_lxc.Errors.{errno}
use go_lxc.Container.{State, make_sure}
use go_lxc.Container.Attach
use go_lxc.Container.Operations.{run}
use go_lxc.Global.{Made, new_container}
use go_lxc.Examples.Pipes
use go_lxc.Examples.Pipes.{System, Reach, start, later}
use go_lxc.Examples.Pipes.Copying.{IsCounted}
use go_lxc.Examples.Pipes.Sharing.{pipes-IsCounted, lost_error, Loses}
use go_lxc.Tests.Sim.{sim, naturals, resting, empty_heap, Host}

abbrev busy : Host
busy = record resting { is_running = true }

abbrev flags : Pipes.Flags
flags = record {
  lxcpath = codes "/var/lib/lxc";
  name = codes "rubik";
  clear = false;
  x86 = false;
  regular = false;
  stdin_fd = 0;
  stdout_fd = 4;
  stderr_fd = 6;
}

abbrev Reached : Type 1
Reached = (s : System sim) × Reach sim naturals flags busy empty_heap s

abbrev made : Made sim
made = record { handle = some 1; verbosity = 1 }

-- Both goroutines have begun.
unfoldable copying : Reached
unfolding new_container
copying = (
  _,
  later
      (later (later (later start refl (Pipes.opens made busy refl refl)) refl (Pipes.pipes refl))
        refl (Pipes.starts_output refl))
      refl (Pipes.starts_error refl),
)

abbrev shelled : State sim
shelled = (Pipes.shells sim naturals flags copying.0.container).1

-- The shell has ended, and main is about to run its command.
unfoldable commanding : Reached
unfolding copying Pipes.shells run Attach.attach_shell make_sure
    go_lxc.Memory.make_null_terminated_args
commanding = (
  _,
  later
      (later (later copying.1 refl (Pipes.says_shell refl)) refl
        (Pipes.shell_ends shelled refl refl))
      refl (Pipes.says_command refl),
)

abbrev commanded : State sim
commanded = (Pipes.commands sim naturals flags commanding.0.container).1

-- A goroutine cannot write what it copies, and has set `err`.
unfoldable failing : Reached
unfolding commanding copying
failing = (_, later commanding.1 refl (Pipes.copies_not Pipes.standard_error (errno 5) refl))

lost_error_example :
    Loses sim naturals flags busy empty_heap Pipes.standard_error (errno 5) failing.0
unfolding failing commanding copying Pipes.commands run Attach.run_command make_sure
    go_lxc.Memory.make_null_terminated_args
lost_error_example =
    lost_error sim naturals flags Pipes.standard_error (errno 5) commanded failing.1 refl refl refl
      refl

-- Main has closed both writers.
unfoldable closed : Reached
unfolding commanding copying Pipes.commands run Attach.run_command make_sure
    go_lxc.Memory.make_null_terminated_args
closed =
    let tested =
      later (later commanding.1 refl (Pipes.command_ends commanded refl refl)) refl
        (Pipes.tests Pipes.closes_stdout refl refl) in
    let once =
      later (later tested refl (Pipes.closes_output none refl)) refl
        (Pipes.tests Pipes.closes_stderr refl refl) in
    (
      _,
      later (later once refl (Pipes.closes_error none refl)) refl
          (Pipes.tests Pipes.waits refl refl),
    )

unfoldable waited : Reached
unfolding closed commanding copying
waited =
    let first =
      later (later closed.1 refl (Pipes.copies Pipes.standard_output refl refl)) refl
        (Pipes.counts Pipes.standard_output none refl refl) in
    let second =
      later (later first refl (Pipes.copies Pipes.standard_error refl refl)) refl
        (Pipes.counts Pipes.standard_error none refl refl) in
    (_, later second refl (Pipes.returns refl refl))

pipes-IsCounted_example :
    IsCounted (waited.0.copier Pipes.standard_output)
    × IsCounted (waited.0.copier Pipes.standard_error)
unfolding waited closed
pipes-IsCounted_example = pipes-IsCounted sim naturals flags waited.1 refl
