-- ===== src/Examples/Concurrent.antt =====
-- examples: concurrent_create, concurrent_start, concurrent_stop, concurrent_shutdown and
-- concurrent_destroy. Main starts `count` goroutines, each with a Container of its own, and waits for a
-- sync.WaitGroup. The goroutines come between one another's steps, and a method is one step.
pub mod Balance
pub mod Waiting
use go_lxc.Base.{
  ℕ, zero, suc, ◌<◌, ◌+◌, ◌-◌, Option, none, some, List, [], ◌∷◌, ◌++◌, Text, codes, ◌≡◌,
}
use go_lxc.Base.Decimal.{format}
use go_lxc.Errors.{Error}
use go_lxc.Exec.{Fault, Result, ok, err, fault}
use go_lxc.Liblxc.{Liblxc}
use go_lxc.Floats.{Floats}
use go_lxc.Memory.{CHeap}
use go_lxc.Options.{busybox_template_options}
use go_lxc.Container.{State}
use go_lxc.Container.Handle.{release}
use go_lxc.Container.Operations.{Request, Reply, done, failed, broken, run}
use go_lxc.Global.{Made, new_container}
use go_lxc.Examples.{Line, says, complains, in_hand}
use go_lxc.Examples.Commands.{seconds}

-- The programs.
pub data Concurrent : Type 0 where
  creates starts stops shuts_down destroys : Concurrent

-- The line that a goroutine prints before its method.
abbrev pub announced : Concurrent → Text
announced creates = codes "Creating the container ("
announced starts = codes "Starting the container ("
announced stops = codes "Stoping the container ("
announced shuts_down = codes "Shutting down the container ("
announced destroys = codes "Destroying the container ("

module _ (L : Liblxc) where
  open L use {World}

  -- Where a goroutine is: before `NewContainer`, before its line, before its method, before `wg.Done()`,
  -- before the deferred `Release`, and at its end.
  pub data Stage : Type 0 where
    begins : Stage
    opened : Made L → Stage
    printed : Made L → Stage
    worked : Made L → Stage
    counted : Made L → Stage
    gone : Stage

  -- The process: it runs, main has returned, `log.Fatalf` has ended it, or it crashed.
  pub data Process : Type 0 where
    runs returned exited crashed : Process

  -- `next` is the loop variable of main, and `counter` that of the wait group.
  pub record System : Type 1 where
    pub world : World
    pub heap : CHeap
    pub lines : List Line
    pub next : ℕ
    pub counter : ℕ
    pub goroutines : List (ℕ × Stage)
    pub process : Process

  -- A goroutine's state, for its Container.
  abbrev pub at_work : System → Made L → State L
  at_work s c = in_hand L c s.world s.heap

  -- The Container of a state.
  abbrev pub made_of : State L → Made L
  made_of t = record { handle = t.handle; verbosity = t.verbosity }

module _ (L : Liblxc) (R : Floats) where
  open L use {World}

  -- `Stop` where `Shutdown` failed.
  abbrev pub or_stop : Reply × State L → Reply × State L
  or_stop (done, t) = (done, t)
  or_stop (failed e, t) = run L R Request.stop t
  or_stop (broken x, t) = (broken x, t)

  -- The method that a goroutine calls.
  unfoldable pub works : Concurrent → State L → Reply × State L
  unfolding run
  works creates s = run L R (Request.create busybox_template_options) s
  works starts s = run L R Request.start s
  works stops s = run L R Request.stop s
  works shuts_down s = or_stop (run L R (Request.shutdown (seconds 30)) s)
  works destroys s = run L R Request.destroy s

  module _ (program : Concurrent) (lxcpath : Text) (count : ℕ) where
    pub data Step (s : System L) : System L → Type 1 where
      -- `wg.Add(1)` and the go statement
      spawns :
          s.next < count
          → Step s (record s {
            next = suc s.next;
            counter = suc s.counter;
            goroutines = s.goroutines ++ (s.next, begins) ∷ [];
          })
      opens :
          (before after : List (ℕ × Stage L)) (i : ℕ) (c : Made L) (w : World)
          → s.goroutines ≡ before ++ (i, begins) ∷ after
          → new_container L (format i) (lxcpath ∷ []) s.world ≡ (ok c, w)
          → Step s (record s { world = w; goroutines = before ++ (i, opened c) ∷ after })
      opens_not :
          (before after : List (ℕ × Stage L)) (i : ℕ) (e : Error) (w : World)
          → s.goroutines ≡ before ++ (i, begins) ∷ after
          → new_container L (format i) (lxcpath ∷ []) s.world ≡ (err tt e, w)
          → Step s (record s { world = w; lines = s.lines ++ complains e ∷ []; process = exited })
      prints :
          (before after : List (ℕ × Stage L)) (i : ℕ) (c : Made L)
          → s.goroutines ≡ before ++ (i, opened c) ∷ after
          → Step s (record s {
            lines = s.lines ++ says (announced program ++ (format i ++ codes ")...")) ∷ [];
            goroutines = before ++ (i, printed c) ∷ after;
          })
      works_well :
          (before after : List (ℕ × Stage L)) (i : ℕ) (c : Made L) (t : State L)
          → s.goroutines ≡ before ++ (i, printed c) ∷ after
          → works program (at_work L s c) ≡ (done, t)
          → Step s (record s {
            world = t.world;
            heap = t.heap;
            goroutines = before ++ (i, worked (made_of L t)) ∷ after;
          })
      works_not :
          (before after : List (ℕ × Stage L)) (i : ℕ) (c : Made L) (e : Error) (t : State L)
          → s.goroutines ≡ before ++ (i, printed c) ∷ after
          → works program (at_work L s c) ≡ (failed e, t)
          → Step s (record s {
            world = t.world;
            heap = t.heap;
            lines = s.lines ++ complains e ∷ [];
            process = exited;
          })
      crashes :
          (before after : List (ℕ × Stage L)) (i : ℕ) (c : Made L) (x : Fault) (t : State L)
          → s.goroutines ≡ before ++ (i, printed c) ∷ after
          → works program (at_work L s c) ≡ (broken x, t)
          → Step s (record s { world = t.world; heap = t.heap; process = crashed })
      -- `wg.Done()`
      counts :
          (before after : List (ℕ × Stage L)) (i : ℕ) (c : Made L)
          → s.goroutines ≡ before ++ (i, worked c) ∷ after
          → Step s
              (record s { counter = s.counter - 1; goroutines = before ++ (i, counted c) ∷ after })
      releases :
          (before after : List (ℕ × Stage L)) (i : ℕ) (c : Made L)
          → s.goroutines ≡ before ++ (i, counted c) ∷ after
          → Step s (record s {
            world = (release L (at_work L s c)).1.world;
            goroutines = before ++ (i, gone) ∷ after;
          })
      -- `wg.Wait()` and the end of main
      returns : s.next ≡ count → s.counter ≡ 0 → Step s (record s { process = returned })

    -- What main can come to from the state `w` of the library: no step follows the end of the process.
    pub data Reach (w : World) (h : CHeap) : System L → Type 1 where
      start : Reach w h (record {
        world = w;
        heap = h;
        lines = [];
        next = 0;
        counter = 0;
        goroutines = [];
        process = runs;
      })
      later : {s t : System L} → Reach w h s → s.process ≡ runs → Step s t → Reach w h t

-- What main of each program can come to, for its flags `lxcpath` and `count`.
module _ (L : Liblxc) (R : Floats) (lxcpath : Text) (count : ℕ) where
  open L use {World}

  abbrev pub CreateReaches : World → CHeap → System L → Type 1
  CreateReaches = Reach L R creates lxcpath count

  abbrev pub StartReaches : World → CHeap → System L → Type 1
  StartReaches = Reach L R starts lxcpath count

  abbrev pub StopReaches : World → CHeap → System L → Type 1
  StopReaches = Reach L R stops lxcpath count

  abbrev pub ShutdownReaches : World → CHeap → System L → Type 1
  ShutdownReaches = Reach L R shuts_down lxcpath count

  abbrev pub DestroyReaches : World → CHeap → System L → Type 1
  DestroyReaches = Reach L R destroys lxcpath count
