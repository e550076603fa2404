-- ===== src/Examples/Stress/Barrier.antt =====
-- examples/concurrent_stress: the wait group as a barrier between the modes.
use mathlib.Core.Path.{subst}
use go_lxc.Base.{◌-◌, ◌≡◌, ◌≢◌, ◌⊎◌, inl, inr, refl, ap, ◌∙◌, arith, All, length, take}
use go_lxc.Liblxc.{Liblxc}
use go_lxc.Floats.{Floats}
use go_lxc.Memory.{CHeap}
use go_lxc.Examples.Concurrent.{
  begins, opened, printed, worked, counted, gone, made_of, runs, returned, exited, crashed, Process,
}
use go_lxc.Examples.Concurrent.Balance.{IsCounted, All-IsCounted, pending}
use go_lxc.Examples.Stress.{
  Flags, at_iteration, System, Step, iterates, begins_mode, ends_iteration, spawns, waits, returns,
  opens, opens_not, prints, works_well, works_not, crashes, passes, counts, releases, Reach, start,
  later,
}
use go_lxc.Examples.Stress.Phases.{
  planned, current, rounds, given, take-length, Ordered, Ordered-at, Ordered-spawned,
  Ordered-waited, Ordered-iterated, Ordered-begun, Ordered-ended,
}

module _ (L : Liblxc) (R : Floats) (f : Flags) where
  open L use {World}

  -- Main has returned only after the last iteration.
  abbrev IsOver : System L → Type 0
  IsOver s = s.process ≡ returned → s.position ≡ at_iteration f.iteration

  abbrev Sound : System L → Type 0
  Sound s = Ordered L f s.position s.counter s.goroutines × IsOver s

  on : {P : Type 0} (s : System L) → s.process ≡ runs → s.process ≡ returned → P
  on s e g = absurd cc

  Step-Sound : (s t : System L) → s.process ≡ runs → Sound s → Step L R f s t → Sound t
  Step-Sound s t r (o, v) (iterates i e l) =
      (Ordered-iterated L f i _ _ (subst (λ p. Ordered L f p s.counter s.goroutines) e o) l, on s r)
  Step-Sound s t r (o, v) (begins_mode i k e l) =
      (Ordered-begun L f i k _ _ (subst (λ p. Ordered L f p s.counter s.goroutines) e o) l, on s r)
  Step-Sound s t r (o, v) (ends_iteration i k e l) =
      (Ordered-ended L f i k _ _ (subst (λ p. Ordered L f p s.counter s.goroutines) e o) l, on s r)
  Step-Sound s t r (o, v) (spawns i k j e l) = (
    Ordered-spawned L f i k j _ _ (subst (λ p. Ordered L f p s.counter s.goroutines) e o) l,
    on s r,
  )
  Step-Sound s t r (o, v) (waits i k j e l z) = (
    Ordered-waited L f i k j _ _ (subst (λ p. Ordered L f p s.counter s.goroutines) e o) l z,
    on s r,
  )
  Step-Sound s t r (o, v) (returns i e l) =
      let b = (subst (λ p. Ordered L f p s.counter s.goroutines) e o).in_range in
      let last : i ≡ f.iteration = omega arith in (o, λ g. e ∙ ap at_iteration last)
  Step-Sound s t r (o, v) (opens before after m j c w e n) = (
    Ordered-at L f s.position s.counter s.counter s.goroutines before after (m, j) begins (opened c)
        (omega arith) e o (omega arith),
    on s r,
  )
  Step-Sound s t r (o, v) (opens_not before after m j x w e n) = (o, λ g. absurd cc)
  Step-Sound s t r (o, v) (prints before after m j c e n) = (
    Ordered-at L f s.position s.counter s.counter s.goroutines before after (m, j) (opened c)
        (printed c) (omega arith) e o (omega arith),
    on s r,
  )
  Step-Sound s t r (o, v) (works_well before after m j c u e n) = (
    Ordered-at L f s.position s.counter s.counter s.goroutines before after (m, j) (printed c)
        (worked (made_of L u)) (omega arith) e o (omega arith),
    on s r,
  )
  Step-Sound s t r (o, v) (works_not before after m j c x u e n) = (o, λ g. absurd cc)
  Step-Sound s t r (o, v) (crashes before after m j c x u e n) = (o, λ g. absurd cc)
  Step-Sound s t r (o, v) (passes before after m j c e n) = (
    Ordered-at L f s.position s.counter s.counter s.goroutines before after (m, j) (opened c)
        (worked c) (omega arith) e o (omega arith),
    on s r,
  )
  Step-Sound s t r (o, v) (counts before after m j c e) = (
    Ordered-at L f s.position s.counter (s.counter - 1) s.goroutines before after (m, j) (worked c)
        (counted c) (omega arith) e o (omega arith),
    on s r,
  )
  Step-Sound s t r (o, v) (releases before after m j c e) = (
    Ordered-at L f s.position s.counter s.counter s.goroutines before after (m, j) (counted c) gone
        (omega arith) e o (omega arith),
    on s r,
  )

  Reach-Sound : {w : World} {h : CHeap} {s : System L} → Reach L R f w h s → Sound s
  unfolding pending
  Reach-Sound start = (
    record {
      in_range = omega arith;
      balance = refl;
      in_order = refl;
      fits = omega arith;
      through = refl;
    },
    λ g. absurd cc,
  )
  Reach-Sound (later {s} {t} r e d) = Step-Sound s t e (Reach-Sound r) d

  stress_returned-IsCounted :
      {w : World} {h : CHeap} {s : System L}
      → Reach L R f w h s
      → s.process ≡ returned
      → (given s.goroutines ≡ rounds f f.iteration) × All IsCounted s.goroutines
  stress_returned-IsCounted {w} {h} {s} r e =
      let (o, v) = Reach-Sound r in
      let whole : length s.goroutines - 0 ≡ length s.goroutines = omega arith in
      let all =
        ap (λ p. take (length s.goroutines - current f p) s.goroutines) (v e)
        ∙ ap (λ n. take n s.goroutines) whole
        ∙ take-length s.goroutines in
      (o.in_order ∙ ap (planned f) (v e), subst (All IsCounted) all (All-IsCounted _ o.through))

  returned_or : (p : Process L) → (p ≢ returned) ⊎ (p ≡ returned)
  returned_or runs = inl λ e. cc
  returned_or returned = inr refl
  returned_or exited = inl λ e. cc
  returned_or crashed = inl λ e. cc

  -- The example concurrent_stress, whatever the order of the goroutines' and main's steps and whatever
  -- its flags: main starts the goroutines iteration by iteration, and in each mode by mode in the order
  -- of the modes; at any time all but those of the mode that main has begun and not waited for have
  -- called their method without an error, or are of a mode that the flags leave out, and have called
  -- `wg.Done()`; and either main has not returned, or the goroutines are those of all iterations, and
  -- all of them have come so far.
  pub stress-IsCounted :
      {w : World} {h : CHeap} {s : System L}
      → Reach L R f w h s
      → (given s.goroutines ≡ planned f s.position)
        × All IsCounted (take (length s.goroutines - current f s.position) s.goroutines)
        × ((s.process ≢ returned)
            ⊎ ((given s.goroutines ≡ rounds f f.iteration) × All IsCounted s.goroutines))
  stress-IsCounted {w} {h} {s} r =
      let (o, v) = Reach-Sound r in
      (
        o.in_order,
        All-IsCounted _ o.through,
        elim (returned_or s.process) [
          | inl n ↦ inl n
          | inr e ↦ inr (stress_returned-IsCounted r e)
        ],
      )
