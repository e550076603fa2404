-- ===== src/Container/Effects.antt =====
-- What a method may do to the state, by the ways in which a method is built: rules for `search`.
use go_lxc.Base.{
  ℕ, ℤ, Bool, true, false, Option, none, some, List, Text, ◌≡◌, refl, ◌∙◌, if◌then◌else◌, arith,
}
use go_lxc.Errors.{LxcError, Error, sentinel, about, errno, migration_failed}
use go_lxc.Exec.{Fault, Result, ok, err, fault, pure, fail, panic, unless, ◌>>=◌}
use go_lxc.Liblxc.{Liblxc, Command}
use go_lxc.Base.Strings.{c_string}
use go_lxc.Memory.{CHeap, string, alloc, argv_texts}
use go_lxc.Container.{
  State, Method, handle_or, follow, sure, get, ask, call, must, with_args, with_string, lend,
  make_args, argv,
}

-- The error names the container: only `makeSure` makes one.
abbrev pub NamesContainer : Error → Type 0
NamesContainer (about e n) = Unit
NamesContainer _ = ⊥

abbrev pub Refusal : {V A : Type 0} → Result V A → Type 0
Refusal (ok a) = ⊥
Refusal (err v e) = NamesContainer e
Refusal (fault x) = ⊥

-- The method never changes the state.
pub record Still {L : Liblxc} {V A : Type 0} (m : Method L V A) : Type 0 where
  pub at : (s : State L) → (m s).1 ≡ s

-- The method is never refused.
pub record Unrefused {L : Liblxc} {V A : Type 0} (m : Method L V A) : Type 0 where
  pub at : (s : State L) → ¬ Refusal (m s).0

-- Where the method is refused it has not changed the state.
pub record Gentle {L : Liblxc} {V A : Type 0} (m : Method L V A) : Type 0 where
  pub at : (s : State L) → Refusal (m s).0 → (m s).1 ≡ s

module _ {L : Liblxc} {V : Type 0} where
  open L use {Ptr, World, host}

  pub Still-handle_or : (v : V) → Still (handle_or {L = L} v)
  Still-handle_or v = record { at = λ s. ground arith }

  pub Still-follow : Still (follow {L = L} {V = V})
  Still-follow = record { at = λ s. ground arith }

  pub Still-sure : (v : V) (flags : ℕ) → Still (sure {L = L} v flags)
  Still-sure v flags = record { at = λ s. ground arith }

  pub Still-get : Still (get {L = L} {V = V})
  Still-get = record { at = λ s. refl }

  pub Still-ask : {A : Type 0} (f : World → A) → Still (ask {L = L} {V = V} f)
  Still-ask f = record { at = λ s. refl }

  pub Still-pure : {A : Type 0} (a : A) → Still {L = L} {V = V} (pure a)
  Still-pure a = record { at = λ s. refl }

  pub Still-fail : {A : Type 0} (v : V) (e : Error) → Still {L = L} {A = A} (fail v e)
  Still-fail v e = record { at = λ s. refl }

  pub Still-panic : {A : Type 0} (x : Fault) → Still {L = L} {V = V} {A = A} (panic x)
  Still-panic x = record { at = λ s. refl }

  pub Still-unless : (b : Bool) (v : V) (e : Error) → Still {L = L} (unless b v e)
  Still-unless true v e = record { at = λ s. refl }
  Still-unless false v e = record { at = λ s. refl }

  pub Still-if :
      {A : Type 0} (b : Bool) (m n : Method L V A) → Still m → Still n → Still (if b then m else n)
  Still-if true m n hm hn = hm
  Still-if false m n hm hn = hn

  pub Gentle-of_Still : {A : Type 0} (m : Method L V A) → Still m → Gentle m
  Gentle-of_Still m h = record { at = λ s _. h.at s }

  pub Gentle-of_Unrefused : {A : Type 0} (m : Method L V A) → Unrefused m → Gentle m
  Gentle-of_Unrefused m h = record { at = λ s r. absurd (h.at s r) }

  after_still :
      {A B : Type 0} (f : A → Method L V B) (r : Result V A) (s t : State L)
      → t ≡ s
      → ((a : A) → Gentle (f a))
      → Refusal (((λ u. (r, t)) >>= f) s).0
      → (((λ u. (r, t)) >>= f) s).1 ≡ s
  after_still f (ok a) s t e h c = (h a).at t c ∙ e
  after_still f (err v x) s t e h c = e
  after_still f (fault x) s t e h c = e

  -- A method that first does what leaves the state alone.
  pub Gentle-bind :
      {A B : Type 0} (m : Method L V A) (f : A → Method L V B)
      → Still m
      → ((a : A) → Gentle (f a))
      → Gentle (m >>= f)
  Gentle-bind m f hm hf = record {
    at = λ s c. let (r, t) = m s in after_still f r s t (hm.at s) hf c;
  }

  Unrefused-result :
      {A B : Type 0} (f : A → Method L V B) (r : Result V A) (s t : State L)
      → ¬ Refusal r
      → ((a : A) → Unrefused (f a))
      → ¬ Refusal (((λ u. (r, t)) >>= f) s).0
  Unrefused-result f (ok a) s t n h c = (h a).at t c
  Unrefused-result f (err v e) s t n h c = n c
  Unrefused-result f (fault x) s t n h c = c

  pub Unrefused-bind :
      {A B : Type 0} (m : Method L V A) (f : A → Method L V B)
      → Unrefused m
      → ((a : A) → Unrefused (f a))
      → Unrefused (m >>= f)
  Unrefused-bind m f hm hf = record {
    at = λ s c. let (r, t) = m s in Unrefused-result f r s t (hm.at s) hf c;
  }

  pub Unrefused-pure : {A : Type 0} (a : A) → Unrefused {L = L} {V = V} (pure a)
  Unrefused-pure a = record { at = λ s c. c }

  pub Unrefused-sentinel :
      {A : Type 0} (v : V) (e : LxcError) → Unrefused {L = L} {A = A} (fail v (sentinel e))
  Unrefused-sentinel v e = record { at = λ s c. c }

  pub Unrefused-errno : {A : Type 0} (v : V) (n : ℕ) → Unrefused {L = L} {A = A} (fail v (errno n))
  Unrefused-errno v n = record { at = λ s c. c }

  pub Unrefused-migration :
      {A : Type 0} (v : V) (n : ℤ) → Unrefused {L = L} {A = A} (fail v (migration_failed n))
  Unrefused-migration v n = record { at = λ s c. c }

  pub Unrefused-panic : {A : Type 0} (x : Fault) → Unrefused {L = L} {V = V} {A = A} (panic x)
  Unrefused-panic x = record { at = λ s c. c }

  pub Unrefused-get : Unrefused (get {L = L} {V = V})
  Unrefused-get = record { at = λ s c. c }

  pub Unrefused-ask : {A : Type 0} (f : World → A) → Unrefused (ask {L = L} {V = V} f)
  Unrefused-ask f = record { at = λ s c. c }

  pub Unrefused-call : {A : Type 0} (f : World → A × World) → Unrefused (call {L = L} {V = V} f)
  Unrefused-call f = record { at = λ s c. c }

  pub Unrefused-follow : Unrefused (follow {L = L} {V = V})
  Unrefused-follow = record { at = λ s c. ground arith }

  pub Unrefused-handle_or : (v : V) → Unrefused (handle_or {L = L} v)
  Unrefused-handle_or v = record { at = λ s c. ground arith }

  pub Unrefused-unless :
      (b : Bool) (v : V) (e : LxcError) → Unrefused {L = L} (unless b v (sentinel e))
  Unrefused-unless true v e = record { at = λ s c. c }
  Unrefused-unless false v e = record { at = λ s c. c }

  pub Unrefused-must : (v : V) (e : LxcError) (f : Command World) → Unrefused {L = L} (must v e f)
  Unrefused-must v e f = record { at = λ s c. ground arith }

  pub Unrefused-if :
      {A : Type 0} (b : Bool) (m n : Method L V A)
      → Unrefused m
      → Unrefused n
      → Unrefused (if b then m else n)
  Unrefused-if true m n hm hn = hm
  Unrefused-if false m n hm hn = hn

  pub Unrefused-make_args : (args : List Text) → Unrefused (make_args {L = L} {V = V} args)
  unfolding make_args
  Unrefused-make_args args = record { at = λ s c. c }

  pub Unrefused-argv : (p : Option ℕ) → Unrefused (argv {L = L} {V = V} p)
  unfolding argv
  Unrefused-argv none = record { at = λ s c. c }
  Unrefused-argv (some p) = record { at = λ s c. c }

  Unrefused-lend :
      {A : Type 0} (v : V) (n : ℕ) (k : List Text → Method L V A) (made : Option ℕ × CHeap)
      → ((argv : List Text) → Unrefused (k argv))
      → Unrefused (lend v n k made)
  unfolding lend
  Unrefused-lend v n k (none, x) h = record { at = λ s c. c }
  Unrefused-lend v n k (some p, x) h = record {
    at = λ s c. (h (argv_texts p x)).at (record s { heap = x }) c;
  }

  pub Unrefused-with_string :
      {A : Type 0} (text : Text) (m : Method L V A) → Unrefused m → Unrefused (with_string text m)
  unfolding with_string
  Unrefused-with_string text m h = record {
    at = λ s c. h.at (record s { heap = (alloc (string (c_string text)) s.heap).1 }) c;
  }

  pub Unrefused-with_args :
      {A : Type 0} (v : V) (args : List Text) (k : List Text → Method L V A)
      → ((argv : List Text) → Unrefused (k argv))
      → Unrefused (with_args v args k)
  unfolding with_args
  Unrefused-with_args v args k h = record { at = λ s c. (Unrefused-lend v _ k _ h).at s c }

pub ruleset effect_rules = (
  Still-handle_or, Still-follow, Still-sure, Still-get, Still-ask, Still-pure, Still-fail,
  Still-panic, Still-unless, Still-if, Unrefused-bind, Unrefused-pure, Unrefused-sentinel,
  Unrefused-errno, Unrefused-migration, Unrefused-panic, Unrefused-get, Unrefused-ask,
  Unrefused-call, Unrefused-follow, Unrefused-handle_or, Unrefused-unless, Unrefused-must,
  Unrefused-if, Unrefused-make_args, Unrefused-argv, Unrefused-with_args, Unrefused-with_string,
)
