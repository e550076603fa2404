-- ===== src/Container/Arrays.antt =====
-- container.go: what the methods that make arrays of C strings leave of those arrays. The heap here holds
-- the arrays that `makeNullTerminatedArgs` makes and the strings in them, the working directory of an
-- attach, and the template and the backend of `Create`. The strings of `buildBdevSpecs`, which are freed
-- when it returns, are not in it.
use mathlib.Core.Path.{subst}
use go_lxc.Errors.{Error, sentinel, err_create_failed}
use go_lxc.Base.{
  ℕ, pos, negsuc, ◌∙◌, ap, if◌then◌else◌, suc, length, Bool, true, false, none, some, List, [], ◌∷◌,
  Text, ◌≡◌, refl, arith, ℤ, Option,
}
use go_lxc.Base.Strings.{c_string}
use go_lxc.Exec.{Result, ok, err, fault, pure, fail, unless, ◌>>=◌}
use go_lxc.Liblxc.{Liblxc, AttachSettings}
use go_lxc.Memory.{CHeap, string, make_null_terminated_args, alloc, free}
use go_lxc.Memory.Arrays.{IsFresh, SameCells, make-IsFresh, free-make-SameCells}
use go_lxc.Options.{AttachOptions, TemplateOptions}
use go_lxc.Container.{
  State, Method, lend, with_args, with_string, is_not_defined, handle_or, follow, sure, get, call,
}
use go_lxc.Container.Attach.{
  attach_shell, run_command_status, run_command_no_wait, run_and_wait, run_command, as_success,
}
use go_lxc.Container.Create.{create, create_with, create_given, create_call, create_args}

-- A method that leaves the heap of the arrays as it was.
pub record IsTidy {L : Liblxc} {V A : Type 0} (m : Method L V A) : Type 0 where
  pub same : (s : State L) → IsFresh s.heap → SameCells (m s).1.heap s.heap

module _ {L : Liblxc} {V A : Type 0} where
  lend-same :
      (room : Bool) (v : V) (args : List Text) (k : List Text → Method L V A) (s : State L)
      → ((argv : List Text) → IsTidy (k argv))
      → IsFresh s.heap
      → SameCells
          (lend v (length args) k (make_null_terminated_args room args s.heap) s).1.heap
          s.heap
  unfolding lend make_null_terminated_args alloc
  lend-same false v args k s tidy fresh r = refl
  lend-same true v args k s tidy fresh r =
      free-make-SameCells args s.heap _ fresh
        ((tidy _).same (record s { heap = (make_null_terminated_args true args s.heap).1 })
          (make-IsFresh args s.heap fresh))
        r

  with_args-IsTidy :
      (v : V) (args : List Text) (k : List Text → Method L V A)
      → ((argv : List Text) → IsTidy (k argv))
      → IsTidy (with_args v args k)
  unfolding with_args
  with_args-IsTidy v args k tidy = record {
    same =
        λ s fresh. lend-same (L.host.can_calloc (suc (length args)) s.world) v args k s tidy fresh;
  }

  with_string-cells :
      (text : Text) (m : Method L V A) (s : State L)
      → IsTidy m
      → IsFresh s.heap
      → SameCells (with_string text m s).1.heap s.heap
  unfolding with_string alloc free
  with_string-cells text m s tidy fresh r =
      let made = (alloc (string (c_string text)) s.heap).1 in
      let same = tidy.same (record s { heap = made }) (λ q far. ground (arith, far, fresh q)) in
      ground (arith, same r, fresh r)

  with_string-IsTidy : (text : Text) (m : Method L V A) → IsTidy m → IsTidy (with_string text m)
  with_string-IsTidy text m tidy = record {
    same = λ s fresh. with_string-cells text m s tidy fresh;
  }

-- A method that does not touch C's heap at all.
record Untouched {L : Liblxc} {V A : Type 0} (m : Method L V A) : Type 0 where
  heap_same : (s : State L) → (m s).1.heap ≡ s.heap

module _ {L : Liblxc} {V : Type 0} where
  open L use {World}

  Untouched-handle_or : (v : V) → Untouched (handle_or {L = L} v)
  Untouched-handle_or v = record { heap_same = λ s. ground arith }

  Untouched-follow : Untouched (follow {L = L} {V = V})
  Untouched-follow = record { heap_same = λ s. ground arith }

  Untouched-sure : (v : V) (flags : ℕ) → Untouched (sure {L = L} v flags)
  Untouched-sure v flags = record { heap_same = λ s. ground arith }

  Untouched-get : Untouched (get {L = L} {V = V})
  Untouched-get = record { heap_same = λ s. refl }

  Untouched-call : {A : Type 0} (f : World → A × World) → Untouched (call {L = L} {V = V} f)
  Untouched-call f = record { heap_same = λ s. refl }

  Untouched-pure : {A : Type 0} (a : A) → Untouched {L = L} {V = V} (pure a)
  Untouched-pure a = record { heap_same = λ s. refl }

  Untouched-fail : {A : Type 0} (v : V) (e : Error) → Untouched {L = L} {A = A} (fail v e)
  Untouched-fail v e = record { heap_same = λ s. refl }

  Untouched-unless : (b : Bool) (v : V) (e : Error) → Untouched {L = L} (unless b v e)
  Untouched-unless true v e = record { heap_same = λ s. refl }
  Untouched-unless false v e = record { heap_same = λ s. refl }

  Untouched-if :
      {A : Type 0} (b : Bool) (m n : Method L V A)
      → Untouched m
      → Untouched n
      → Untouched (if b then m else n)
  Untouched-if true m n hm hn = hm
  Untouched-if false m n hm hn = hn

  IsTidy-of_Untouched : {A : Type 0} (m : Method L V A) → Untouched m → IsTidy m
  IsTidy-of_Untouched m u = record { same = λ s fresh r. ap (λ h. h.cell r) (u.heap_same s) }

  -- The rest of a method, after a step that ended in `x`.
  abbrev next : {A B : Type 0} → (A → Method L V B) → Result V A × State L → Result V B × State L
  next k (r, t) = elim r [ ok a ↦ k a t | err v e ↦ (err v e, t) | fault x ↦ (fault x, t) ]

  next-same :
      {A B : Type 0} (x : Result V A × State L) (k : A → Method L V B) (h : CHeap)
      → x.1.heap ≡ h
      → ((a : A) → IsTidy (k a))
      → IsFresh h
      → SameCells (next k x).1.heap h
  next-same (ok a, t) k h e tidy =
      subst (λ g. IsFresh g → SameCells (k a t).1.heap g) e ((tidy a).same t)
  next-same (err v x, t) k h e tidy = λ fresh r. ap (λ g. g.cell r) e
  next-same (fault x, t) k h e tidy = λ fresh r. ap (λ g. g.cell r) e

  -- A step that leaves the heap alone, before steps that are tidy.
  IsTidy-bind :
      {A B : Type 0} (m : Method L V A) (k : A → Method L V B)
      → Untouched m
      → ((a : A) → IsTidy (k a))
      → IsTidy (m >>= k)
  IsTidy-bind m k u tidy = record { same = λ s. next-same (m s) k s.heap (u.heap_same s) tidy }

  then-same :
      {A B : Type 0} (x : Result V A × State L) (k : A → Method L V B)
      → ((a : A) → Untouched (k a))
      → (next k x).1.heap ≡ x.1.heap
  then-same (ok a, t) k u = (u a).heap_same t
  then-same (err v e, t) k u = refl
  then-same (fault y, t) k u = refl

  -- Tidy steps, before a step that leaves the heap alone.
  IsTidy-then :
      {A B : Type 0} (m : Method L V A) (k : A → Method L V B)
      → IsTidy m
      → ((a : A) → Untouched (k a))
      → IsTidy (m >>= k)
  IsTidy-then m k tidy u = record {
    same = λ s fresh r. ap (λ h. h.cell r) (then-same (m s) k u) ∙ tidy.same s fresh r;
  }

ruleset untouched_rules = (
  Untouched-handle_or, Untouched-follow, Untouched-sure, Untouched-get, Untouched-call,
  Untouched-pure, Untouched-fail, Untouched-unless, Untouched-if,
)

ruleset tidy_rules =
    (IsTidy-bind, with_string-IsTidy, with_args-IsTidy, IsTidy-of_Untouched, untouched_rules)

module _ (L : Liblxc) where
  open L use {Ptr}

  run_and_wait-IsTidy :
      (p : Ptr) (a : AttachSettings) (groups : List ℕ) (argv : List Text)
      → IsTidy (run_and_wait L p a groups argv)
  unfolding run_and_wait
  run_and_wait-IsTidy p a groups argv = search tidy_rules depth 8

  attach_shell-IsTidy : (o : AttachOptions) → IsTidy (attach_shell L o)
  unfolding attach_shell
  attach_shell-IsTidy o = search tidy_rules depth 12

  run_command_status-IsTidy :
      (args : List Text) (o : AttachOptions) → IsTidy (run_command_status L args o)
  unfolding run_command_status
  run_command_status-IsTidy [] o = search tidy_rules depth 8
  run_command_status-IsTidy (a ∷ args) o = search (tidy_rules, run_and_wait-IsTidy) depth 12

  run_command_no_wait-IsTidy :
      (args : List Text) (o : AttachOptions) → IsTidy (run_command_no_wait L args o)
  unfolding run_command_no_wait
  run_command_no_wait-IsTidy [] o = search tidy_rules depth 8
  run_command_no_wait-IsTidy (a ∷ args) o = search tidy_rules depth 12

  create_call-IsTidy :
      (o : TemplateOptions) (argv : Option (List Text)) → IsTidy (create_call L o argv)
  unfolding create_call
  create_call-IsTidy o argv = search tidy_rules depth 8

  create_given-IsTidy : (o : TemplateOptions) (args : List Text) → IsTidy (create_given L o args)
  unfolding create_given
  create_given-IsTidy o [] = create_call-IsTidy o none
  create_given-IsTidy o (a ∷ args) = search (tidy_rules, create_call-IsTidy) depth 6

  create_with-IsTidy :
      (o : TemplateOptions) (args : Option (List Text)) → IsTidy (create_with L o args)
  unfolding create_with
  create_with-IsTidy o none = search tidy_rules depth 4
  create_with-IsTidy o (some args) =
      with_string-IsTidy _ _ (with_string-IsTidy _ _ (create_given-IsTidy o args))

  create-IsTidy : (o : TemplateOptions) → IsTidy (create L o)
  unfolding create
  create-IsTidy o = IsTidy-bind _ _ (Untouched-sure tt is_not_defined) (λ _.
      IsTidy-then _ _ (create_with-IsTidy o (create_args o))
        (λ done. Untouched-unless done tt (sentinel err_create_failed)))

  as_success-heap : (x : Result ℤ ℤ × State L) → (as_success L x).1.heap ≡ x.1.heap
  unfolding as_success
  as_success-heap (ok (pos n), t) = refl
  as_success-heap (ok (negsuc n), t) = refl
  as_success-heap (err v e, t) = refl
  as_success-heap (fault y, t) = refl

  run_command-IsTidy : (args : List Text) (o : AttachOptions) → IsTidy (run_command L args o)
  unfolding run_command
  run_command-IsTidy args o = record {
    same = λ s fresh r.
        ap (λ h. h.cell r) (as_success-heap (run_command_status L args o s))
        ∙ (run_command_status-IsTidy args o).same s fresh r;
  }

  -- `AttachShell`, `RunCommandStatus`, `RunCommandNoWait`, `RunCommand` and `Create` give back every array
  -- that `makeNullTerminatedArgs` makes for them, with the strings in it, the working directory, and
  -- the template and the backend of `Create`, however they end: on every path every address of the heap that holds these
  -- holds what it held before the call, if there was nothing at the addresses that were not given out. Of
  -- other memory of C it says nothing.
  pub commands-IsTidy :
      (args : List Text) (o : AttachOptions) (t : TemplateOptions)
      → IsTidy (attach_shell L o)
        × IsTidy (run_command_status L args o)
        × IsTidy (run_command_no_wait L args o)
        × IsTidy (run_command L args o)
        × IsTidy (create L t)
  commands-IsTidy args o t = (
    attach_shell-IsTidy o,
    run_command_status-IsTidy args o,
    run_command_no_wait-IsTidy args o,
    run_command-IsTidy args o,
    create-IsTidy t,
  )
