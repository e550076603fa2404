-- ===== src/Examples/Pipes.antt =====
-- examples/attach_with_pipes: main attaches a shell and runs a command with two pipes for their output,
-- and two goroutines copy what comes out of them. The three share main's variable `err`; they come
-- between one another's steps, and a method is one step. An error of the operating system is any Error.
pub mod Copying
pub mod Sharing
use go_lxc.Base.{
  ℕ, suc, ◌-◌, pos, Bool, true, false, Option, none, some, List, [], ◌∷◌, ◌++◌, Text, codes, ◌≡◌,
}
use go_lxc.Errors.{Error}
use go_lxc.Exec.{Fault, ok, err}
use go_lxc.Liblxc.{Liblxc}
use go_lxc.Floats.{Floats}
use go_lxc.Memory.{CHeap}
use go_lxc.Options.{AttachOptions}
use go_lxc.Container.{State}
use go_lxc.Container.Handle.{release}
use go_lxc.Container.Operations.{Request, Reply, done, failed, broken, run}
use go_lxc.Global.{Made, new_container}
use go_lxc.Examples.{Line, says, complains, in_hand}
use go_lxc.Examples.Settings.{attach_options}
use go_lxc.Examples.Concurrent.{Process, runs, returned, exited, crashed}

-- The flags, and the descriptors of os.Stdin and of the pipes' writers.
pub record Flags : Type 0 where
  pub lxcpath : Text
  pub name : Text
  pub clear : Bool
  pub x86 : Bool
  pub regular : Bool
  pub stdin_fd : ℕ
  pub stdout_fd : ℕ
  pub stderr_fd : ℕ

pub data Stream : Type 0 where
  standard_output standard_error : Stream

abbrev pub put {ℓ} : {A : Type ℓ} → Stream → A → (Stream → A) → Stream → A
put standard_output a f standard_output = a
put standard_output a f standard_error = f standard_error
put standard_error a f standard_output = f standard_output
put standard_error a f standard_error = a

-- A goroutine: not started, in `io.Copy`, before its test of `err`, and after `wg.Done()`, with the error
-- that `io.Copy` returned.
pub data Copier : Type 0 where
  absent copying : Copier
  copied counted : Option Error → Copier

-- What main is about to do; at `ran_command`, `closed_stdout` and `closed_stderr` it is to test `err`.
pub data Position : Type 0 where
  opens_container makes_pipes starts_first starts_second : Position
  announces_shell attaches announces_command runs_command ran_command : Position
  closes_stdout closed_stdout closes_stderr closed_stderr waits : Position

-- Where main goes on from a test.
abbrev pub after_test : Position → Option Position
after_test ran_command = some closes_stdout
after_test closed_stdout = some closes_stderr
after_test closed_stderr = some waits
after_test _ = none

module _ (L : Liblxc) where
  -- `problem` is the variable `err`, and `counter` that of the wait group.
  pub record System : Type 1 where
    pub container : State L
    pub lines : List Line
    pub position : Position
    pub problem : Option Error
    pub counter : ℕ
    pub copier : Stream → Copier
    pub writer_open : Stream → Bool
    pub process : Process L

module _ (L : Liblxc) (R : Floats) (f : Flags) where
  open L use {World}

  -- `options`
  abbrev pub pipe_options : AttachOptions
  pipe_options = record (attach_options L R f.clear f.x86 f.regular) {
    stdin_fd = f.stdin_fd;
    stdout_fd = f.stdout_fd;
    stderr_fd = f.stderr_fd;
  }

  -- `c.AttachShell(options)` and `c.RunCommand([]string{"uname", "-a"}, options)`
  unfoldable pub shells : State L → Reply × State L
  unfolding run
  shells s = run L R (Request.attach_shell pipe_options) s

  unfoldable pub commands : State L → Reply × State L
  unfolding run
  commands s = run L R (Request.run_command (codes "uname" ∷ codes "-a" ∷ []) pipe_options) s

  -- `log.Fatalf("ERROR: %s\n", err.Error())`
  abbrev pub fails : Error → System L → System L
  fails e s = record s { lines = s.lines ++ complains e ∷ []; process = exited }

  pub data Step (s : System L) : System L → Type 1 where
    opens :
        (c : Made L) (w : World)
        → s.position ≡ opens_container
        → new_container L f.name (f.lxcpath ∷ []) s.container.world ≡ (ok c, w)
        → Step s (record s {
          container = in_hand L c w s.container.heap;
          problem = none;
          position = makes_pipes;
        })
    opens_not :
        (e : Error) (w : World)
        → s.position ≡ opens_container
        → new_container L f.name (f.lxcpath ∷ []) s.container.world ≡ (err tt e, w)
        → Step s (fails e (record s { container = record s.container { world = w } }))
    -- Both calls of `os.Pipe`, or the first that fails.
    pipes :
        s.position ≡ makes_pipes
        → Step s (record s { problem = none; writer_open = λ x. true; position = starts_first })
    pipes_not : (e : Error) → s.position ≡ makes_pipes → Step s (fails e s)
    -- `wg.Add(1)` and the go statement
    starts_output :
        s.position ≡ starts_first
        → Step s (record s {
          counter = suc s.counter;
          copier = put standard_output copying s.copier;
          position = starts_second;
        })
    starts_error :
        s.position ≡ starts_second
        → Step s (record s {
          counter = suc s.counter;
          copier = put standard_error copying s.copier;
          position = announces_shell;
        })
    says_shell :
        s.position ≡ announces_shell
        → Step s
            (record s { lines = s.lines ++ says (codes "AttachShell") ∷ []; position = attaches })
    -- This error is one of the if statement, and not the shared one.
    shell_ends :
        (t : State L)
        → s.position ≡ attaches
        → shells s.container ≡ (done, t)
        → Step s (record s { container = t; position = announces_command })
    shell_fails :
        (e : Error) (t : State L)
        → s.position ≡ attaches
        → shells s.container ≡ (failed e, t)
        → Step s (fails e (record s { container = t }))
    shell_crashes :
        (x : Fault) (t : State L)
        → s.position ≡ attaches
        → shells s.container ≡ (broken x, t)
        → Step s (record s { container = t; process = crashed })
    says_command :
        s.position ≡ announces_command
        → Step s (record s {
          lines = s.lines ++ says (codes "RunCommand") ∷ [];
          position = runs_command;
        })
    -- `_, err = c.RunCommand(…)`
    command_ends :
        (t : State L)
        → s.position ≡ runs_command
        → commands s.container ≡ (done, t)
        → Step s (record s { container = t; problem = none; position = ran_command })
    command_fails :
        (e : Error) (t : State L)
        → s.position ≡ runs_command
        → commands s.container ≡ (failed e, t)
        → Step s (record s { container = t; problem = some e; position = ran_command })
    command_crashes :
        (x : Fault) (t : State L)
        → s.position ≡ runs_command
        → commands s.container ≡ (broken x, t)
        → Step s (record s { container = t; process = crashed })
    -- `if err != nil` of main
    tests :
        (p : Position)
        → after_test s.position ≡ some p
        → s.problem ≡ none
        → Step s (record s { position = p })
    tests_not :
        (p : Position) (e : Error)
        → after_test s.position ≡ some p
        → s.problem ≡ some e
        → Step s (fails e s)
    -- `err = stdoutWriter.Close()`, and that of the other writer; what it returns does not matter for the
    -- descriptor, which is given back.
    closes_output :
        (r : Option Error)
        → s.position ≡ closes_stdout
        → Step s (record s {
          problem = r;
          writer_open = put standard_output false s.writer_open;
          position = closed_stdout;
        })
    closes_error :
        (r : Option Error)
        → s.position ≡ closes_stderr
        → Step s (record s {
          problem = r;
          writer_open = put standard_error false s.writer_open;
          position = closed_stderr;
        })
    -- `_, err = io.Copy(…)`, which comes to an end of the pipe only after main has closed the writer.
    copies :
        (x : Stream)
        → s.copier x ≡ copying
        → s.writer_open x ≡ false
        → Step s (record s { problem = none; copier = put x (copied none) s.copier })
    copies_not :
        (x : Stream) (e : Error)
        → s.copier x ≡ copying
        → Step s (record s { problem = some e; copier = put x (copied (some e)) s.copier })
    -- `if err != nil` of a goroutine, and the deferred `wg.Done()`
    counts :
        (x : Stream) (r : Option Error)
        → s.copier x ≡ copied r
        → s.problem ≡ none
        → Step s (record s { counter = s.counter - 1; copier = put x (counted r) s.copier })
    counts_not :
        (x : Stream) (r : Option Error) (e : Error)
        → s.copier x ≡ copied r
        → s.problem ≡ some e
        → Step s (fails e s)
    -- `wg.Wait()`, and the deferred `Release`
    returns :
        s.position ≡ waits
        → s.counter ≡ 0
        → Step s (record s { container = (release L s.container).1; process = returned })

  -- What main can come to: no step follows the end of the process.
  pub data Reach (w : World) (h : CHeap) : System L → Type 1 where
    start : Reach w h (record {
      container = record { handle = none; verbosity = 0; world = w; heap = h };
      lines = [];
      position = opens_container;
      problem = none;
      counter = 0;
      copier = λ x. absent;
      writer_open = λ x. false;
      process = runs;
    })
    later : {s t : System L} → Reach w h s → s.process ≡ runs → Step s t → Reach w h t
