-- ===== src/Examples/Stress.antt =====
-- examples/concurrent_stress: main goes through iterations, each of four modes. In a mode it starts
-- `threads` goroutines, each with a Container of its own, and waits for a sync.WaitGroup. The goroutines
-- come between one another's and main's steps, and a method is one step.
pub mod Phases
pub mod Barrier
use go_lxc.Base.{
  ℕ, zero, suc, ◌<◌, ◌≤◌, ◌-◌, Bool, true, false, Option, none, some, List, [], ◌∷◌, ◌++◌, Text,
  codes, if◌then◌else◌, ◌≡◌,
}
use go_lxc.Base.Decimal.{format}
use go_lxc.Errors.{Error}
use go_lxc.Exec.{Fault, ok, err}
use go_lxc.Liblxc.{Liblxc}
use go_lxc.Floats.{Floats}
use go_lxc.Memory.{CHeap}
use go_lxc.Options.{busybox_template_options, TemplateOptions}
use go_lxc.Container.{State}
use go_lxc.Container.Handle.{release}
use go_lxc.Container.Operations.{Request, Reply, done, failed, broken, run}
use go_lxc.Global.{Made, new_container}
use go_lxc.Examples.{Line, says, complains, in_hand}
use go_lxc.Examples.Concurrent.{
  Stage, begins, opened, printed, worked, counted, gone, made_of, Process, runs, returned, exited,
  crashed,
}

pub data Mode : Type 0 where
  creates starts stops destroys : Mode

-- The slice that the loop over modes goes through has four.
abbrev pub mode_at : ℕ → Mode
mode_at zero = creates
mode_at (suc zero) = starts
mode_at (suc (suc zero)) = stops
mode_at (suc (suc (suc _))) = destroys

abbrev pub mode_name : Mode → Text
mode_name creates = codes "CREATE"
mode_name starts = codes "START"
mode_name stops = codes "STOP"
mode_name destroys = codes "DESTROY"

-- The line that a goroutine prints before its method.
abbrev pub announced : Mode → ℕ → Text
announced creates j = codes "Creating the container (" ++ (format j ++ codes ")...")
announced starts j = codes "Starting the container (" ++ (format j ++ codes ")...")
announced stops j = codes "Stoping the container (" ++ (format j ++ codes ")...")
announced destroys j = codes "Destroying the container (" ++ (format j ++ codes ")...")

-- The flags, and what runtime.NumCPU answers. A negative number of iterations or goroutines is a 0 here.
pub record Flags : Type 0 where
  pub lxcpath : Text
  pub iteration : ℕ
  pub threads : ℕ
  pub template : Text
  pub quiet : Bool
  pub startstop : Bool
  pub createdestroy : Bool
  pub cpus : ℕ

-- The modes in which a goroutine calls nothing.
unfoldable pub skips : Flags → Mode → Bool
skips f creates = f.startstop
skips f starts = f.createdestroy
skips f stops = f.createdestroy
skips f destroys = f.startstop

-- `options`, with its template
abbrev pub stress_options : Flags → TemplateOptions
stress_options f = record busybox_template_options { template = f.template }

-- A line with the number of tabs before it, which package log prints or discards.
abbrev pub log_line : Flags → ℕ → Line → List (ℕ × Line) → List (ℕ × Line)
log_line f tabs l lines = if f.quiet then lines else lines ++ (tabs, l) ∷ []

-- Where main is: at the test of the outer loop, at that of the loop over modes, or at that of the loop
-- that starts goroutines, with the iteration, the index of the mode and the loop variable `j`.
pub data Position : Type 0 where
  at_iteration : ℕ → Position
  at_mode : ℕ → ℕ → Position
  at_thread : ℕ → ℕ → ℕ → Position

-- What a goroutine is given: the mode and `j`.
abbrev pub Task : Type 0
Task = Mode × ℕ

module _ (L : Liblxc) where
  open L use {World}

  -- `counter` is that of the wait group.
  pub record System : Type 1 where
    pub world : World
    pub heap : CHeap
    pub lines : List (ℕ × Line)
    pub position : Position
    pub counter : ℕ
    pub goroutines : List (Task × Stage L)
    pub process : Process L

module _ (L : Liblxc) (R : Floats) (f : Flags) where
  open L use {World}

  -- The method that a goroutine calls.
  unfoldable pub works : Mode → State L → Reply × State L
  unfolding run
  works creates s = run L R (Request.create (stress_options f)) s
  works starts s = run L R Request.start s
  works stops s = run L R Request.stop s
  works destroys s = run L R Request.destroy s

  pub data Step (s : System L) : System L → Type 1 where
    iterates :
        (i : ℕ)
        → s.position ≡ at_iteration i
        → i < f.iteration
        → Step s (record s {
          position = at_mode i 0;
          lines =
              log_line f 0
                (says (codes "-- ITERATION " ++ (format (suc i) ++ codes " --")))
                s.lines;
        })
    begins_mode :
        (i k : ℕ)
        → s.position ≡ at_mode i k
        → k < 4
        → Step s (record s {
          position = at_thread i k 0;
          lines =
              log_line f 1 (says (codes "-- " ++ (mode_name (mode_at k) ++ codes " --"))) s.lines;
        })
    ends_iteration :
        (i k : ℕ)
        → s.position ≡ at_mode i k
        → 4 ≤ k
        → Step s (record s { position = at_iteration (suc i) })
    -- `wg.Add(1)` and the go statement
    spawns :
        (i k j : ℕ)
        → s.position ≡ at_thread i k j
        → j < f.threads
        → Step s (record s {
          position = at_thread i k (suc j);
          counter = suc s.counter;
          goroutines = s.goroutines ++ ((mode_at k, j), begins) ∷ [];
        })
    -- `wg.Wait()`
    waits :
        (i k j : ℕ)
        → s.position ≡ at_thread i k j
        → f.threads ≤ j
        → s.counter ≡ 0
        → Step s (record s { position = at_mode i (suc k) })
    returns :
        (i : ℕ)
        → s.position ≡ at_iteration i
        → f.iteration ≤ i
        → Step s (record s { process = returned })
    opens :
        (before after : List (Task × Stage L)) (m : Mode) (j : ℕ) (c : Made L) (w : World)
        → s.goroutines ≡ before ++ ((m, j), begins) ∷ after
        → new_container L (format j) (f.lxcpath ∷ []) s.world ≡ (ok c, w)
        → Step s (record s { world = w; goroutines = before ++ ((m, j), opened c) ∷ after })
    opens_not :
        (before after : List (Task × Stage L)) (m : Mode) (j : ℕ) (e : Error) (w : World)
        → s.goroutines ≡ before ++ ((m, j), begins) ∷ after
        → new_container L (format j) (f.lxcpath ∷ []) s.world ≡ (err tt e, w)
        → Step s
            (record s { world = w; lines = log_line f 0 (complains e) s.lines; process = exited })
    prints :
        (before after : List (Task × Stage L)) (m : Mode) (j : ℕ) (c : Made L)
        → s.goroutines ≡ before ++ ((m, j), opened c) ∷ after
        → skips f m ≡ false
        → Step s (record s {
          lines = log_line f 2 (says (announced m j)) s.lines;
          goroutines = before ++ ((m, j), printed c) ∷ after;
        })
    works_well :
        (before after : List (Task × Stage L)) (m : Mode) (j : ℕ) (c : Made L) (t : State L)
        → s.goroutines ≡ before ++ ((m, j), printed c) ∷ after
        → works m (in_hand L c s.world s.heap) ≡ (done, t)
        → Step s (record s {
          world = t.world;
          heap = t.heap;
          goroutines = before ++ ((m, j), worked (made_of L t)) ∷ after;
        })
    works_not :
        (before after : List (Task × Stage L)) (m : Mode) (j : ℕ) (c : Made L) (e : Error)
        (t : State L)
        → s.goroutines ≡ before ++ ((m, j), printed c) ∷ after
        → works m (in_hand L c s.world s.heap) ≡ (failed e, t)
        → Step s (record s {
          world = t.world;
          heap = t.heap;
          lines = log_line f 3 (complains e) s.lines;
          process = exited;
        })
    crashes :
        (before after : List (Task × Stage L)) (m : Mode) (j : ℕ) (c : Made L) (x : Fault)
        (t : State L)
        → s.goroutines ≡ before ++ ((m, j), printed c) ∷ after
        → works m (in_hand L c s.world s.heap) ≡ (broken x, t)
        → Step s (record s { world = t.world; heap = t.heap; process = crashed })
    -- A goroutine whose mode the flags leave out.
    passes :
        (before after : List (Task × Stage L)) (m : Mode) (j : ℕ) (c : Made L)
        → s.goroutines ≡ before ++ ((m, j), opened c) ∷ after
        → skips f m ≡ true
        → Step s (record s { goroutines = before ++ ((m, j), worked c) ∷ after })
    -- `wg.Done()`
    counts :
        (before after : List (Task × Stage L)) (m : Mode) (j : ℕ) (c : Made L)
        → s.goroutines ≡ before ++ ((m, j), worked c) ∷ after
        → Step s (record s {
          counter = s.counter - 1;
          goroutines = before ++ ((m, j), counted c) ∷ after;
        })
    releases :
        (before after : List (Task × Stage L)) (m : Mode) (j : ℕ) (c : Made L)
        → s.goroutines ≡ before ++ ((m, j), counted c) ∷ after
        → Step s (record s {
          world = (release L (in_hand L c s.world s.heap)).1.world;
          goroutines = before ++ ((m, j), gone) ∷ after;
        })

  -- What main can come to from the state `w` of the library: no step follows the end of the process.
  pub data Reach (w : World) (h : CHeap) : System L → Type 1 where
    start : Reach w h (record {
      world = w;
      heap = h;
      lines = log_line f 0 (says (codes "Using " ++ (format f.cpus ++ codes " GOMAXPROCS"))) [];
      position = at_iteration 0;
      counter = 0;
      goroutines = [];
      process = runs;
    })
    later : {s t : System L} → Reach w h s → s.process ≡ runs → Step s t → Reach w h t
