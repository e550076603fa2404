-- ===== src/Container/Calls/Unlocked.antt =====
-- container.go: `ErrorNum`, which takes no lock, in the two steps that another goroutine can come between.
use go_lxc.Base.{ℤ, minus_one, Bool, true, false, none, some, ◌≡◌, arith}
use go_lxc.Exec.{Result, ok, fault, null_dereference}
use go_lxc.Liblxc.{Liblxc}
use go_lxc.Container.{State}
use go_lxc.Container.Handle.{error_num, release}

module _ (L : Liblxc) where
  open L use {Ptr, info}

  -- `if c.container == nil`: whether the method returns there.
  unfoldable pub error_num_tests : State L → Bool
  error_num_tests s = elim s.handle [ none ↦ true | some p ↦ false ]

  -- `C.go_lxc_error_num(c.container)`, which reads the field again, and follows it.
  unfoldable pub error_num_calls : State L → Result (Unit {0}) ℤ
  error_num_calls s = elim s.handle [
    | none ↦ fault null_dereference
    | some p ↦ ok (info.error_num p s.world)
  ]

  -- `ErrorNum` with what another goroutine does to the state between its two steps.
  unfoldable pub error_num_around : (State L → State L) → State L → Result (Unit {0}) ℤ
  unfolding error_num_tests error_num_calls
  error_num_around others s = elim (error_num_tests s) [
    | true ↦ ok minus_one
    | false ↦ error_num_calls (others s)
  ]

  -- Alone, `ErrorNum` in steps is `ErrorNum`. Where another goroutine releases the Container between its
  -- two steps, without an error, it follows a null pointer.
  pub error_num-release :
      (p : Ptr) (s : State L)
      → s.handle ≡ some p
      → (release L s).0 ≡ ok tt
      → (error_num_around (λ t. t) s ≡ ok (error_num L s))
        × (error_num_around (λ t. (release L t).1) s ≡ fault null_dereference)
  unfolding error_num_around error_num_tests error_num_calls error_num release
  error_num-release p s e done = ground (arith, e, done)
