-- ===== src/Examples.antt =====
-- examples: what the example programs share. A program works on one Container at a time, prints lines
-- with package log, and ends when its main function returns, by `log.Fatalf`, or by a crash.
pub mod Commands
pub mod Reading
pub mod Concurrent
pub mod Stress
pub mod Pipes
pub mod Exit
pub mod Looking
pub mod Settings
use go_lxc.Base.{Option, none, some, List, [], ◌∷◌, ◌++◌, Text}
use go_lxc.Errors.{Error}
use go_lxc.Exec.{Fault, index_out_of_range, null_dereference, Result, ok, err, fault}
use go_lxc.Liblxc.{Liblxc}
use go_lxc.Memory.{CHeap}
use go_lxc.Container.{State, Method}
use go_lxc.Container.Handle.{release}
use go_lxc.Container.Operations.{Request, Reply, done, failed, broken, run}
use go_lxc.Floats.{Floats}
use go_lxc.Global.{Made, new_container}

-- What is printed: a line of text, a label with a value that is not a string, or "ERROR: " and what an
-- error says.
pub data Line : Type 1 where
  says : Text → Line
  shows : {A : Type 0} → Text → A → Line
  complains : Error → Line

-- How a piece of a program ends: it goes on, the process exits with status 1, or it crashes.
pub data Ending (A : Type 0) : Type 0 where
  goes_on : A → Ending A
  exits : Ending A
  crashes : Fault → Ending A

module _ (L : Liblxc) where
  open L use {World, host}

  -- The Container in hand with the library and the heap, and what was printed.
  pub record Session : Type 1 where
    pub container : State L
    pub printed : List Line

  abbrev pub Program : Type 0 → Type 1
  Program A = Session → Ending A × Session

module _ {L : Liblxc} where
  infixl 5 ◌>>=◌ ◌>>◌
  abbrev pub ◌>>=◌ : {A B : Type 0} → Program L A → (A → Program L B) → Program L B
  ◌>>=◌ m f s =
      let (r, t) = m s in
      elim r [ goes_on a ↦ f a t | exits ↦ (exits, t) | crashes x ↦ (crashes x, t) ]

  abbrev pub ◌>>◌ : {B : Type 0} → Program L (Unit {0}) → Program L B → Program L B
  m >> k = m >>= λ _. k

  abbrev pub go_on : Program L (Unit {0})
  go_on s = (goes_on tt, s)

  -- `log.Printf`
  abbrev pub print : Line → Program L (Unit {0})
  print l s = (goes_on tt, record s { printed = s.printed ++ l ∷ [] })

  -- `log.Fatalf("ERROR: %s\n", err.Error())`: the line, and `os.Exit(1)`, which runs nothing deferred.
  abbrev pub fatal : {A : Type 0} → Error → Program L A
  fatal e s = (exits, record s { printed = s.printed ++ complains e ∷ [] })

  -- A call of a method with `log.Fatalf` for its error.
  abbrev pub must : {V A : Type 0} → Method L V A → Program L A
  must m s =
      let (r, t) = m s.container in
      elim r [
        | ok a ↦ (goes_on a, record s { container = t })
        | err v e ↦ fatal e (record s { container = t })
        | fault x ↦ (crashes x, record s { container = t })
      ]

  -- `for i, v := range vs`, from index `i` on.
  abbrev pub each : {A : Type 0} → (A → Program L (Unit {0})) → List A → Program L (Unit {0})
  each f [] = go_on
  each f (v ∷ vs) = let rest = each f vs in f v >> rest

module _ (L : Liblxc) (R : Floats) where
  open R use {Float}

  -- A method that changes a state, with `log.Fatalf` for its error.
  unfoldable pub perform : Request Float → Program L (Unit {0})
  unfolding run
  perform q s =
      let (r, t) = run L R q s.container in
      elim r [
        | done ↦ (goes_on tt, record s { container = t })
        | failed e ↦ fatal e (record s { container = t })
        | broken x ↦ (crashes x, record s { container = t })
      ]

  -- Such a method, whose error is given to the program: the reply.
  unfoldable pub attempt : Request Float → Program L Reply
  unfolding run
  attempt q s =
      let (r, t) = run L R q s.container in
      elim r [
        | done ↦ (goes_on done, record s { container = t })
        | failed e ↦ (goes_on (failed e), record s { container = t })
        | broken x ↦ (crashes x, record s { container = t })
      ]

  -- Such a method, whose error is dropped.
  abbrev pub drop_error : Request Float → Program L (Unit {0})
  drop_error q = attempt q >>= λ _. go_on

  -- Such a method, whose error is printed.
  abbrev pub report : Request Float → Program L (Unit {0})
  report q =
      attempt q >>= λ r. elim r [ done ↦ go_on | failed e ↦ print (complains e) | broken x ↦ go_on ]

module _ (L : Liblxc) where
  open L use {World}

  -- `c.Release()`
  abbrev pub let_go : Session L → Session L
  let_go s = record s { container = (release L s.container).1 }

  -- `defer c.Release()` round the rest of main, which a panic of Go runs, and neither `os.Exit` nor a
  -- crash in C.
  unfoldable pub deferred : Ending (Unit {0}) × Session L → Ending (Unit {0}) × Session L
  unfolding release
  deferred (goes_on u, s) = (goes_on u, let_go s)
  deferred (exits, s) = (exits, s)
  deferred (crashes index_out_of_range, s) = (crashes index_out_of_range, let_go s)
  deferred (crashes null_dereference, s) = (crashes null_dereference, s)

  -- A Container that was made, with the state of the library and the heap of the process.
  abbrev pub in_hand : Made L → World → CHeap → State L
  in_hand c w h = record { handle = c.handle; verbosity = c.verbosity; world = w; heap = h }

  -- The beginning that the programs share: `NewContainer`, with `log.Fatalf` for its error, and
  -- `defer c.Release()` before the rest.
  unfoldable pub with_container :
      Text → Text → Program L (Unit {0}) → World → CHeap → Ending (Unit {0}) × Session L
  unfolding new_container deferred
  with_container name lxcpath rest w h =
      let (r, w') = new_container L name (lxcpath ∷ []) w in
      let nothing : State L = record { handle = none; verbosity = 0; world = w'; heap = h } in
      elim r [
        | ok c ↦ deferred (rest (record { container = in_hand c w' h; printed = [] }))
        | err _ e ↦ fatal e (record { container = nothing; printed = [] })
        | fault x ↦ (crashes x, record { container = nothing; printed = [] })
      ]
