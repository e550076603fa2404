-- ===== src/Examples/Stress/Phases.antt =====
-- examples/concurrent_stress: the goroutines of a mode begin when those of the modes before are through.
use go_lxc.Base.{
  ℕ, zero, suc, ◌≤◌, ◌<◌, ◌-◌, List, [], ◌∷◌, ◌++◌, ◌≡◌, refl, sym, ap, ◌∙◌, arith, length,
  length-append, take, map, append_assoc, append-nil,
}
use go_lxc.Liblxc.{Liblxc}
use go_lxc.Examples.Concurrent.{Stage, begins}
use go_lxc.Examples.Concurrent.Balance.{
  weight, pending, pending-append, pending-take, pending-take_le,
}
use go_lxc.Examples.Stress.{Mode, mode_at, Flags, Position, at_iteration, at_mode, at_thread, Task}

-- The first goroutines of a mode.
abbrev pub tasks : Mode → ℕ → List Task
tasks m zero = []
tasks m (suc j) = tasks m j ++ (m, j) ∷ []

module _ (f : Flags) where
  -- The goroutines of the first modes of an iteration.
  abbrev pub phases : ℕ → List Task
  phases zero = []
  phases (suc k) = phases k ++ tasks (mode_at k) f.threads

  -- Those of the first iterations.
  abbrev pub rounds : ℕ → List Task
  rounds zero = []
  rounds (suc i) = rounds i ++ phases 4

  -- The goroutines that main has started where it is, in their order.
  abbrev pub planned : Position → List Task
  planned (at_iteration i) = rounds i
  planned (at_mode i k) = rounds i ++ phases k
  planned (at_thread i k j) = (rounds i ++ phases k) ++ tasks (mode_at k) j

  -- How many of them are of the mode that has not been waited for.
  abbrev pub current : Position → ℕ
  current (at_iteration i) = 0
  current (at_mode i k) = 0
  current (at_thread i k j) = j

  abbrev pub InRange : Position → Type 0
  InRange (at_iteration i) = i ≤ f.iteration
  InRange (at_mode i k) = (i < f.iteration) × (k ≤ 4)
  InRange (at_thread i k j) = (i < f.iteration) × (k < 4) × (j ≤ f.threads)

module _ {L : Liblxc} where
  -- What the goroutines were given.
  abbrev pub given : List (Task × Stage L) → List Task
  given gs = map (λ g. g.0) gs

  given-at :
      (before after : List (Task × Stage L)) (i : Task) (g g' : Stage L)
      → given (before ++ (i, g') ∷ after) ≡ given (before ++ (i, g) ∷ after)
  given-at [] after i g g' = refl
  given-at (x ∷ before) after i g g' = ap (λ ts. x.0 ∷ ts) (given-at before after i g g')

  given-append :
      (gs : List (Task × Stage L)) (i : Task) (g : Stage L)
      → given (gs ++ (i, g) ∷ []) ≡ given gs ++ i ∷ []
  given-append [] i g = refl
  given-append (x ∷ gs) i g = ap (λ ts. x.0 ∷ ts) (given-append gs i g)

  take-append_le :
      (n : ℕ) (gs hs : List (Task × Stage L)) → n ≤ length gs → take n (gs ++ hs) ≡ take n gs
  take-append_le zero gs hs l = refl
  take-append_le (suc n) [] hs l = absurd (omega arith)
  take-append_le (suc n) (x ∷ gs) hs l = ap (λ xs. x ∷ xs) (take-append_le n gs hs (omega arith))

  pub take-length : (gs : List (Task × Stage L)) → take (length gs) gs ≡ gs
  take-length [] = refl
  take-length (x ∷ gs) = ap (λ xs. x ∷ xs) (take-length gs)

module _ (L : Liblxc) (f : Flags) where
  -- The goroutines are those that main has started, and those of the modes before are counted.
  pub record Ordered (p : Position) (counter : ℕ) (gs : List (Task × Stage L)) : Type 0 where
    pub in_range : InRange f p
    pub balance : counter ≡ pending gs
    pub in_order : given gs ≡ planned f p
    pub fits : current f p ≤ length gs
    pub through : pending (take (length gs - current f p) gs) ≡ 0

  -- One goroutine goes from a stage to another.
  pub Ordered-at :
      (p : Position) (counter counter' : ℕ) (gs before after : List (Task × Stage L)) (i : Task)
      (g g' : Stage L)
      → weight g' ≤ weight g
      → gs ≡ before ++ (i, g) ∷ after
      → Ordered p counter gs
      → counter' ≡ counter - (weight g - weight g')
      → Ordered p counter' (before ++ (i, g') ∷ after)
  unfolding pending
  Ordered-at p counter counter' gs before after i g g' l e o c =
      let same : length (before ++ (i, g') ∷ after) ≡ length gs =
        length-append before ((i, g') ∷ after)
        ∙ sym (length-append before ((i, g) ∷ after))
        ∙ sym (ap (λ xs. length xs) e) in
      let n = length gs - current f p in
      let now = ap (λ xs. pending (take n xs)) e in
      let less = pending-take n before after i g g' l in
      let had = ap pending e ∙ pending-append before ((i, g) ∷ after) in
      let has = pending-append before ((i, g') ∷ after) in
      let h = o.balance in
      let t = o.through in
      let r = o.fits in
      let none_left : pending (take n (before ++ (i, g') ∷ after)) ≡ 0 = omega arith in
      record {
        in_range = o.in_range;
        balance = omega arith;
        in_order = given-at before after i g g' ∙ sym (ap given e) ∙ o.in_order;
        fits = omega arith;
        through =
            ap (λ m. pending (take (m - current f p) (before ++ (i, g') ∷ after))) same ∙ none_left;
      }

  pub Ordered-spawned :
      (i k j counter : ℕ) (gs : List (Task × Stage L))
      → Ordered (at_thread i k j) counter gs
      → j < f.threads
      → Ordered (at_thread i k (suc j)) (suc counter) (gs ++ ((mode_at k, j), begins) ∷ [])
  unfolding pending
  Ordered-spawned i k j counter gs o l =
      let p = pending-append gs (((mode_at k, j), begins) ∷ []) in
      let m = length-append gs (((mode_at k, j), begins) ∷ []) in
      let b = o.balance in
      let r = o.fits in
      let n : length (gs ++ ((mode_at k, j), begins) ∷ []) - suc j ≡ length gs - j = omega arith in
      record {
        in_range = (o.in_range.0, o.in_range.1, omega arith);
        balance = omega arith;
        in_order =
            given-append gs (mode_at k, j) begins
            ∙ ap (λ ts. ts ++ (mode_at k, j) ∷ []) o.in_order
            ∙ append_assoc (rounds f i ++ phases f k) (tasks (mode_at k) j) ((mode_at k, j) ∷ []);
        fits = omega arith;
        through =
            ap (λ x. pending (take x (gs ++ ((mode_at k, j), begins) ∷ []))) n
            ∙ ap pending (take-append_le (length gs - j) gs _ (omega arith))
            ∙ o.through;
      }

  -- Main goes on, where the goroutines that it has started are the same.
  pub Ordered-waited :
      (i k j counter : ℕ) (gs : List (Task × Stage L))
      → Ordered (at_thread i k j) counter gs
      → f.threads ≤ j
      → counter ≡ 0
      → Ordered (at_mode i (suc k)) counter gs
  Ordered-waited i k j counter gs o l z =
      let b = o.balance in
      let r = o.in_range.2 in
      let t = pending-take_le (length gs - current f (at_mode i (suc k))) gs in
      let full : j ≡ f.threads = omega arith in
      record {
        in_range = (o.in_range.0, omega arith);
        balance = b;
        in_order =
            o.in_order
            ∙ append_assoc (rounds f i) (phases f k) (tasks (mode_at k) j)
            ∙ ap (λ x. rounds f i ++ (phases f k ++ tasks (mode_at k) x)) full;
        fits = omega arith;
        through = omega arith;
      }

  pub Ordered-iterated :
      (i counter : ℕ) (gs : List (Task × Stage L))
      → Ordered (at_iteration i) counter gs
      → i < f.iteration
      → Ordered (at_mode i 0) counter gs
  Ordered-iterated i counter gs o l = record {
    in_range = (l, omega arith);
    balance = o.balance;
    in_order = o.in_order ∙ sym (append-nil (rounds f i));
    fits = omega arith;
    through = o.through;
  }

  pub Ordered-begun :
      (i k counter : ℕ) (gs : List (Task × Stage L))
      → Ordered (at_mode i k) counter gs
      → k < 4
      → Ordered (at_thread i k 0) counter gs
  Ordered-begun i k counter gs o l = record {
    in_range = (o.in_range.0, l, omega arith);
    balance = o.balance;
    in_order = o.in_order ∙ sym (append-nil _);
    fits = omega arith;
    through = o.through;
  }

  pub Ordered-ended :
      (i k counter : ℕ) (gs : List (Task × Stage L))
      → Ordered (at_mode i k) counter gs
      → 4 ≤ k
      → Ordered (at_iteration (suc i)) counter gs
  Ordered-ended i k counter gs o l =
      let r = o.in_range.1 in
      let four : k ≡ 4 = omega arith in
      record {
        in_range = o.in_range.0;
        balance = o.balance;
        in_order = o.in_order ∙ ap (λ x. rounds f i ++ phases f x) four;
        fits = omega arith;
        through = o.through;
      }
