-- ===== src/Container/Calls/Steady.antt =====
-- container.go: rules for `search` on the two fields of a Container, `container` and `verbosity`, by the
-- ways in which a method is built.
mod Life
pub mod Commands
pub mod Fields
use go_lxc.Base.{
  ℕ, zero, suc, ℤ, pos, negsuc, Bool, true, false, Option, none, some, List, [], ◌∷◌, Text, ◌≡◌,
  ◌≢◌, refl, sym, ◌∙◌, arith, if◌then◌else◌,
}
use go_lxc.Errors.{LxcError, Error}
use go_lxc.Exec.{Fault, Result, ok, err, fault, pure, fail, panic, unless, ◌>>=◌}
use go_lxc.Liblxc.{Liblxc, CSnapshot, Command}
use go_lxc.Floats.{Floats}
use go_lxc.Options.{
  AttachOptions, TemplateOptions, ConsoleOptions, CloneOptions, CheckpointOptions, RestoreOptions,
  MigrateOptions, ConsoleLogOptions,
}
use go_lxc.Base.Strings.{c_string}
use go_lxc.Memory.{CHeap, string, alloc, argv_texts}
use go_lxc.Container.{
  State, Method, handle_or, follow, sure, get, ask, call, must, with_args, with_string, lend,
  make_args, argv, make_sure,
}
use go_lxc.Container.Handle
use go_lxc.Container.Lifecycle
use go_lxc.Container.Create
use go_lxc.Container.Config
use go_lxc.Container.Snapshots
use go_lxc.Container.Snapshots.{Snapshot}
use go_lxc.Container.Cgroups
use go_lxc.Container.Cgroups.Memory
use go_lxc.Container.Attach
use go_lxc.Container.Devices
use go_lxc.Container.Execute
use go_lxc.Container.Operations.{Request, run}
use go_lxc.Container.Operations

-- The two fields that a method may assign.
abbrev pub SameFields : {L : Liblxc} → State L → State L → Type 0
SameFields s t = (t.handle ≡ s.handle) × (t.verbosity ≡ s.verbosity)

-- A method that assigns neither.
pub record IsSteady {L : Liblxc} {V A : Type 0} (m : Method L V A) : Type 0 where
  pub at : (s : State L) → SameFields s (m s).1

module _ {L : Liblxc} {V : Type 0} where
  open L use {Ptr, World, host}

  pub IsSteady-handle_or : (v : V) → IsSteady (handle_or {L = L} v)
  IsSteady-handle_or v = record { at = λ s. ground arith }

  pub IsSteady-follow : IsSteady (follow {L = L} {V = V})
  IsSteady-follow = record { at = λ s. ground arith }

  pub IsSteady-sure : (v : V) (flags : ℕ) → IsSteady (sure {L = L} v flags)
  IsSteady-sure v flags = record { at = λ s. ground arith }

  pub IsSteady-get : IsSteady (get {L = L} {V = V})
  IsSteady-get = record { at = λ s. (refl, refl) }

  pub IsSteady-ask : {A : Type 0} (f : World → A) → IsSteady (ask {L = L} {V = V} f)
  IsSteady-ask f = record { at = λ s. (refl, refl) }

  pub IsSteady-call : {A : Type 0} (f : World → A × World) → IsSteady (call {L = L} {V = V} f)
  IsSteady-call f = record { at = λ s. (refl, refl) }

  pub IsSteady-must : (v : V) (e : LxcError) (f : Command World) → IsSteady (must {L = L} v e f)
  IsSteady-must v e f = record { at = λ s. ground arith }

  pub IsSteady-pure : {A : Type 0} (a : A) → IsSteady {L = L} {V = V} (pure a)
  IsSteady-pure a = record { at = λ s. (refl, refl) }

  pub IsSteady-fail : {A : Type 0} (v : V) (e : Error) → IsSteady {L = L} {A = A} (fail v e)
  IsSteady-fail v e = record { at = λ s. (refl, refl) }

  pub IsSteady-panic : {A : Type 0} (x : Fault) → IsSteady {L = L} {V = V} {A = A} (panic x)
  IsSteady-panic x = record { at = λ s. (refl, refl) }

  pub IsSteady-unless : (b : Bool) (v : V) (e : Error) → IsSteady {L = L} (unless b v e)
  IsSteady-unless true v e = record { at = λ s. (refl, refl) }
  IsSteady-unless false v e = record { at = λ s. (refl, refl) }

  pub IsSteady-if :
      {A : Type 0} (b : Bool) (m n : Method L V A)
      → IsSteady m
      → IsSteady n
      → IsSteady (if b then m else n)
  IsSteady-if true m n hm hn = hm
  IsSteady-if false m n hm hn = hn

  pub IsSteady-make_args : (args : List Text) → IsSteady (make_args {L = L} {V = V} args)
  unfolding make_args
  IsSteady-make_args args = record { at = λ s. (refl, refl) }

  pub IsSteady-argv : (p : Option ℕ) → IsSteady (argv {L = L} {V = V} p)
  unfolding argv
  IsSteady-argv none = record { at = λ s. (refl, refl) }
  IsSteady-argv (some p) = record { at = λ s. (refl, refl) }

  pub IsSteady-lend :
      {A : Type 0} (v : V) (n : ℕ) (k : List Text → Method L V A) (made : Option ℕ × CHeap)
      → ((a : List Text) → IsSteady (k a))
      → IsSteady (lend v n k made)
  unfolding lend
  IsSteady-lend v n k (none, x) h = record { at = λ s. (refl, refl) }
  IsSteady-lend v n k (some p, x) h = record {
    at = λ s. (h (argv_texts p x)).at (record s { heap = x });
  }

  pub IsSteady-with_string :
      {A : Type 0} (text : Text) (m : Method L V A) → IsSteady m → IsSteady (with_string text m)
  unfolding with_string
  IsSteady-with_string text m h = record {
    at = λ s. h.at (record s { heap = (alloc (string (c_string text)) s.heap).1 });
  }

  pub IsSteady-with_args :
      {A : Type 0} (v : V) (args : List Text) (k : List Text → Method L V A)
      → ((a : List Text) → IsSteady (k a))
      → IsSteady (with_args v args k)
  unfolding with_args
  IsSteady-with_args v args k h = record { at = λ s. (IsSteady-lend v _ k _ h).at s }

  pub IsSteady-bind :
      {A B : Type 0} (m : Method L V A) (k : A → Method L V B)
      → IsSteady m
      → ((a : A) → IsSteady (k a))
      → IsSteady (m >>= k)
  IsSteady-bind m k hm hk = record { at = λ s. after (m s) s (hm.at s) }
    where
      after :
          (x : Result V _ × State L) (s : State L)
          → SameFields s x.1
          → SameFields s (((λ (u : State L). x) >>= k) s).1
      after (ok a, t) s e = let f = (hk a).at t in (f.0 ∙ e.0, f.1 ∙ e.1)
      after (err v x, t) s e = e
      after (fault x, t) s e = e

pub ruleset steady_rules = (
  IsSteady-bind, IsSteady-handle_or, IsSteady-follow, IsSteady-sure, IsSteady-get, IsSteady-ask,
  IsSteady-call, IsSteady-must, IsSteady-pure, IsSteady-fail, IsSteady-panic, IsSteady-unless,
  IsSteady-if, IsSteady-make_args, IsSteady-argv, IsSteady-with_args, IsSteady-with_string,
)
