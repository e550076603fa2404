-- ===== src/Examples/Concurrent/Waiting.antt =====
-- examples, concurrent_*: when main returns.
use go_lxc.Base.{
  ℕ, suc, ◌≤◌, ◌-◌, List, [], ◌∷◌, ◌++◌, Text, ◌≡◌, refl, ap, ◌∙◌, arith, All, length,
  length-append,
}
use go_lxc.Liblxc.{Liblxc}
use go_lxc.Floats.{Floats}
use go_lxc.Memory.{CHeap}
use go_lxc.Examples.Concurrent.Balance.{IsCounted, weight, pending, pending-append, All-IsCounted}
use go_lxc.Examples.Concurrent.{
  Concurrent, Stage, begins, opened, printed, worked, counted, gone, System, made_of, runs,
  returned, Step, spawns, opens, opens_not, prints, works_well, works_not, crashes, counts,
  releases, returns, Reach, start, later,
}

module _ (L : Liblxc) where
  -- The counter of the wait group and the loop variable of main, for the goroutines.
  abbrev Balanced : ℕ → ℕ → List (ℕ × Stage L) → Type 0
  Balanced counter next gs = (counter ≡ pending gs) × (next ≡ length gs)

  -- One goroutine goes from a stage to another.
  Balanced-at :
      (counter counter' next : ℕ) (gs before after : List (ℕ × Stage L)) (i : ℕ) (g g' : Stage L)
      → weight g' ≤ weight g
      → gs ≡ before ++ (i, g) ∷ after
      → Balanced counter next gs
      → counter' ≡ counter - (weight g - weight g')
      → Balanced counter' next (before ++ (i, g') ∷ after)
  unfolding pending
  Balanced-at counter counter' next gs before after i g g' l e b c =
      let p = ap pending e ∙ pending-append before ((i, g) ∷ after) in
      let q = pending-append before ((i, g') ∷ after) in
      let m = ap (λ xs. length xs) e ∙ length-append before ((i, g) ∷ after) in
      let n = length-append before ((i, g') ∷ after) in (omega arith, omega arith)

  Balanced-spawned :
      (counter next i : ℕ) (gs : List (ℕ × Stage L))
      → Balanced counter next gs
      → Balanced (suc counter) (suc next) (gs ++ (i, begins) ∷ [])
  unfolding pending
  Balanced-spawned counter next i gs b =
      let p = pending-append gs ((i, begins) ∷ []) in
      let m = length-append gs ((i, begins) ∷ []) in (omega arith, omega arith)

module _ (L : Liblxc) (R : Floats) (program : Concurrent) (lxcpath : Text) (count : ℕ) where
  open L use {World}

  -- Main has returned only after the loop, and with the counter at 0.
  abbrev IsOver : System L → Type 0
  IsOver s = s.process ≡ returned → (s.next ≡ count) × (s.counter ≡ 0)

  abbrev Sound : System L → Type 0
  Sound s = Balanced L s.counter s.next s.goroutines × IsOver s

  on : {P : Type 0} (s : System L) → s.process ≡ runs → s.process ≡ returned → P
  on s e f = absurd cc

  Step-Sound :
      (s t : System L) → s.process ≡ runs → Sound s → Step L R program lxcpath count s t → Sound t
  Step-Sound s t r (h, o) (spawns l) =
      (Balanced-spawned L s.counter s.next s.next s.goroutines h, on s r)
  Step-Sound s t r (h, o) (opens before after i c w e n) = (
    Balanced-at L s.counter s.counter s.next s.goroutines before after i begins (opened c)
        (omega arith) e h (omega arith),
    on s r,
  )
  Step-Sound s t r (h, o) (opens_not before after i x w e n) = (h, λ f. absurd cc)
  Step-Sound s t r (h, o) (prints before after i c e) = (
    Balanced-at L s.counter s.counter s.next s.goroutines before after i (opened c) (printed c)
        (omega arith) e h (omega arith),
    on s r,
  )
  Step-Sound s t r (h, o) (works_well before after i c u e n) = (
    Balanced-at L s.counter s.counter s.next s.goroutines before after i (printed c)
        (worked (made_of L u)) (omega arith) e h (omega arith),
    on s r,
  )
  Step-Sound s t r (h, o) (works_not before after i c x u e n) = (h, λ f. absurd cc)
  Step-Sound s t r (h, o) (crashes before after i c x u e n) = (h, λ f. absurd cc)
  Step-Sound s t r (h, o) (counts before after i c e) = (
    Balanced-at L s.counter (s.counter - 1) s.next s.goroutines before after i (worked c)
        (counted c) (omega arith) e h (omega arith),
    on s r,
  )
  Step-Sound s t r (h, o) (releases before after i c e) = (
    Balanced-at L s.counter s.counter s.next s.goroutines before after i (counted c) gone
        (omega arith) e h (omega arith),
    on s r,
  )
  Step-Sound s t r (h, o) (returns a b) = (h, λ f. (a, b))

  Reach-Sound :
      {w : World} {h : CHeap} {s : System L} → Reach L R program lxcpath count w h s → Sound s
  unfolding pending
  Reach-Sound start = ((refl, refl), λ f. absurd cc)
  Reach-Sound (later {s} {t} r e d) = Step-Sound s t e (Reach-Sound r) d

  -- The examples concurrent_create, concurrent_start, concurrent_stop, concurrent_shutdown and
  -- concurrent_destroy: whatever the order of the goroutines' steps, main returns only after as many
  -- goroutines as `count` have called their method, which returned no error, and `wg.Done()`.
  pub returned-IsCounted :
      {w : World} {h : CHeap} {s : System L}
      → Reach L R program lxcpath count w h s
      → s.process ≡ returned
      → (length s.goroutines ≡ count) × All IsCounted s.goroutines
  returned-IsCounted {w} {h} {s} r e =
      let (b, o) = Reach-Sound r in
      let (n, z) = o e in (omega arith, All-IsCounted s.goroutines (omega arith))
