-- ===== src/Examples/Concurrent/Balance.antt =====
-- examples, concurrent_*: the stages of goroutines, each with what it was given, and those that the wait
-- group has still to wait for.
use go_lxc.Base.{ℕ, zero, suc, ◌≤◌, ◌+◌, List, [], ◌∷◌, ◌++◌, ◌≡◌, arith, All, take}
use go_lxc.Liblxc.{Liblxc}
use go_lxc.Examples.Concurrent.{Stage, begins, opened, printed, worked, counted, gone}

module _ {L : Liblxc} where
  -- 1 before `wg.Done()`
  abbrev pub weight : Stage L → ℕ
  weight (counted c) = 0
  weight gone = 0
  weight _ = 1

module _ {L : Liblxc} {A : Type 0} where
  -- The goroutine has called its method, which returned no error, and `wg.Done()`.
  abbrev pub IsCounted : A × Stage L → Type 0
  IsCounted (i, counted c) = Unit
  IsCounted (i, gone) = Unit
  IsCounted _ = ⊥

  -- How many goroutines the wait group has still to wait for.
  unfoldable pub pending : List (A × Stage L) → ℕ
  pending [] = 0
  pending ((i, g) ∷ gs) = weight g + pending gs

  pub pending-append : (gs hs : List (A × Stage L)) → pending (gs ++ hs) ≡ pending gs + pending hs
  unfolding pending
  pending-append [] hs = omega arith
  pending-append ((i, g) ∷ gs) hs = let e = pending-append gs hs in omega arith

  IsCounted-by : (i : A) (g : Stage L) → weight g ≡ 0 → IsCounted (i, g)
  IsCounted-by i begins e = absurd (omega arith)
  IsCounted-by i (opened c) e = absurd (omega arith)
  IsCounted-by i (printed c) e = absurd (omega arith)
  IsCounted-by i (worked c) e = absurd (omega arith)
  IsCounted-by i (counted c) e = tt
  IsCounted-by i gone e = tt

  pub All-IsCounted : (gs : List (A × Stage L)) → pending gs ≡ 0 → All IsCounted gs
  unfolding pending
  All-IsCounted [] e = tt
  All-IsCounted ((i, g) ∷ gs) e = (IsCounted-by i g (omega arith), All-IsCounted gs (omega arith))

  -- The goroutines among the first `n`, after one of them went to a stage that is no heavier.
  pub pending-take :
      (n : ℕ) (before after : List (A × Stage L)) (i : A) (g g' : Stage L)
      → weight g' ≤ weight g
      → pending (take n (before ++ (i, g') ∷ after)) ≤ pending (take n (before ++ (i, g) ∷ after))
  unfolding pending
  pending-take zero before after i g g' l = omega arith
  pending-take (suc n) [] after i g g' l = omega arith
  pending-take (suc n) ((k, x) ∷ before) after i g g' l =
      let r = pending-take n before after i g g' l in omega arith

  pub pending-take_le : (n : ℕ) (gs : List (A × Stage L)) → pending (take n gs) ≤ pending gs
  unfolding pending
  pending-take_le zero gs = omega arith
  pending-take_le (suc n) [] = omega arith
  pending-take_le (suc n) ((i, g) ∷ gs) = let r = pending-take_le n gs in omega arith
