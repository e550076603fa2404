-- ===== src/Container/Lifecycle/Phases/Creation.antt =====
-- container.go: what `Create` has done where it reports success.
use go_lxc.Base.{ℕ, Bool, true, Option, none, some, List, [], ◌∷◌, Text, ◌≡◌, refl, arith}
use go_lxc.Exec.{Result, ok, unless, ◌>>=◌}
use go_lxc.Liblxc.{Liblxc, BdevSpecs}
use go_lxc.Options.{TemplateOptions}
use go_lxc.Errors.{Error}
use go_lxc.Memory.{CHeap}
use go_lxc.Container.{State, Method, lend, sure, make_sure}
use go_lxc.Container.Create

ok_injective : {V A : Type 0} {a b : A} → ◌≡◌ {A = Result V A} (ok a) (ok b) → a ≡ b
ok_injective h = cc

module _ (L : Liblxc) (p : L.Ptr) (v : ℕ) (w : L.World) where
  open L use {World, life}

  -- The state with the pointer in it, and with a heap.
  abbrev pub with_heap : CHeap → State L
  with_heap h = record { handle = some p; verbosity = v; world = w; heap = h }

  module _ (Q : World → Type 0) (o : TemplateOptions) where
    -- The library's answer to any creation that succeeds has the property.
    abbrev pub Creates : Type 0
    Creates =
        (n : Option Text) (b : Text) (x : Option BdevSpecs) (q : Bool) (argv : Option (List Text))
        → (life.create p n b x q argv w).0 ≡ true
        → Q (life.create p n b x q argv w).1

    -- The pointer is still there, and the library's state has the property.
    abbrev pub Reached : State L → Type 0
    Reached t = (t.handle ≡ some p) × Q t.world

    create_call_ok :
        (argv : Option (List Text)) (h : CHeap)
        → Creates
        → (Create.create_call L o argv (with_heap h)).0 ≡ ok true
        → Reached (Create.create_call L o argv (with_heap h)).1
    unfolding Create.create_call
    create_call_ok argv h all c = (refl, all _ _ _ _ argv (ok_injective c))

    lend_ok :
        (n : ℕ) (made : Option ℕ × CHeap) (h : CHeap)
        → Creates
        → (lend tt n (λ argv. Create.create_call L o (some argv)) made (with_heap h)).0 ≡ ok true
        → Reached (lend tt n (λ argv. Create.create_call L o (some argv)) made (with_heap h)).1
    unfolding lend
    lend_ok n (none, x) h all c = cc
    lend_ok n (some q, x) h all c = create_call_ok _ x all c

    create_given_ok :
        (args : List Text) (h : CHeap)
        → Creates
        → (Create.create_given L o args (with_heap h)).0 ≡ ok true
        → Reached (Create.create_given L o args (with_heap h)).1
    unfolding Create.create_given
    create_given_ok [] h all c = create_call_ok none h all c
    create_given_ok (a ∷ args) h all c = lend_ok _ _ h all c

    pub create_with_ok :
        (args : Option (List Text)) (h : CHeap)
        → Creates
        → (Create.create_with L o args (with_heap h)).0 ≡ ok true
        → Reached (Create.create_with L o args (with_heap h)).1
    unfolding Create.create_with
    create_with_ok none h all c = cc
    create_with_ok (some args) h all c = create_given_ok args _ all c

-- A method that is guarded, and succeeds if its last step answers true.
pub guarded_ok :
    {L : Liblxc} (flags : ℕ) (m : Method L (Unit {0}) Bool) (e : Error) (s : State L)
    → ((sure tt flags >>= λ _. m >>= λ yes'. unless yes' tt e) s).0 ≡ ok tt
    → (make_sure L flags s ≡ none)
      × ((m s).0 ≡ ok true)
      × (((sure tt flags >>= λ _. m >>= λ yes'. unless yes' tt e) s).1 ≡ (m s).1)
guarded_ok flags m e s h = ground arith
