-- ===== src/Examples/Pipes/Copying.antt =====
-- examples/attach_with_pipes: the goroutines that main has started, and the wait group's counter.
use mathlib.Core.Path.{subst}
use go_lxc.Base.{ℕ, suc, ◌+◌, ◌-◌, ◌≤◌, Bool, true, false, some, ◌≡◌, refl, ap, ◌∙◌, arith}
use go_lxc.Examples.Pipes

-- How many times a goroutine is still to call `wg.Done()`.
abbrev pub weight : Pipes.Copier → ℕ
weight Pipes.absent = 0
weight Pipes.copying = 1
weight (Pipes.copied r) = 1
weight (Pipes.counted r) = 0

-- Whether main has started the goroutine.
abbrev pub begun : Pipes.Position → Pipes.Stream → Bool
begun Pipes.opens_container x = false
begun Pipes.makes_pipes x = false
begun Pipes.starts_first x = false
begun Pipes.starts_second Pipes.standard_output = true
begun Pipes.starts_second Pipes.standard_error = false
begun _ x = true

abbrev pub IsBegun : Bool → Pipes.Copier → Type 0
IsBegun false c = c ≡ Pipes.absent
IsBegun true Pipes.absent = ⊥
IsBegun true _ = Unit

-- The goroutine has called `wg.Done()`.
abbrev pub IsCounted : Pipes.Copier → Type 0
IsCounted (Pipes.counted r) = Unit
IsCounted _ = ⊥

pub IsCounted-by : (c : Pipes.Copier) → weight c ≡ 0 → IsBegun true c → IsCounted c
IsCounted-by Pipes.absent w b = b
IsCounted-by Pipes.copying w b = absurd (omega arith)
IsCounted-by (Pipes.copied r) w b = absurd (omega arith)
IsCounted-by (Pipes.counted r) w b = tt

each_stream :
    (P : Pipes.Stream → Type 0)
    → P Pipes.standard_output
    → P Pipes.standard_error
    → (x : Pipes.Stream) → P x
each_stream P p q Pipes.standard_output = p
each_stream P p q Pipes.standard_error = q

-- The counter and the goroutines, for the place where main is.
pub record Placed (p : Pipes.Position) (n : ℕ) (f : Pipes.Stream → Pipes.Copier) : Type 0 where
  pub balance : n ≡ weight (f Pipes.standard_output) + weight (f Pipes.standard_error)
  pub in_place : (x : Pipes.Stream) → IsBegun (begun p x) (f x)

IsBegun-turned :
    (b : Bool) (c d : Pipes.Copier) → IsBegun true c → IsBegun true d → IsBegun b c → IsBegun b d
IsBegun-turned false c d h k e = absurd (subst (IsBegun true) e h)
IsBegun-turned true c d h k e = k

-- A goroutine that was started goes on.
pub Placed-turned :
    (p : Pipes.Position) (n m : ℕ) (f : Pipes.Stream → Pipes.Copier) (x : Pipes.Stream)
    (c d : Pipes.Copier)
    → Placed p n f
    → f x ≡ c
    → IsBegun true c
    → IsBegun true d
    → weight d ≤ weight c
    → m ≡ n - (weight c - weight d)
    → Placed p m (Pipes.put x d f)
Placed-turned p n m f Pipes.standard_output c d o e h k l q =
    let b = o.balance in
    let w = ap weight e in
    record {
      balance = omega arith;
      in_place =
          each_stream _
            (IsBegun-turned (begun p Pipes.standard_output) c d h k (
              subst (IsBegun (begun p Pipes.standard_output)) e (o.in_place Pipes.standard_output)))
            (o.in_place Pipes.standard_error);
    }
Placed-turned p n m f Pipes.standard_error c d o e h k l q =
    let b = o.balance in
    let w = ap weight e in
    record {
      balance = omega arith;
      in_place = each_stream _ (o.in_place Pipes.standard_output) (
          IsBegun-turned (begun p Pipes.standard_error) c d h k
            (subst (IsBegun (begun p Pipes.standard_error)) e (o.in_place Pipes.standard_error)));
    }

-- Main goes on, and has started the same goroutines.
pub Placed-moved :
    (p r q : Pipes.Position) (n : ℕ) (f : Pipes.Stream → Pipes.Copier)
    → Placed p n f
    → p ≡ r
    → ((x : Pipes.Stream) → begun r x ≡ begun q x)
    → Placed q n f
Placed-moved p r q n f o e b = record {
  balance = o.balance;
  in_place = λ x. subst (λ t. IsBegun t (f x)) (ap (λ t. begun t x) e ∙ b x) (o.in_place x);
}

-- Main goes on from a test.
pub begun-after_test :
    (p q : Pipes.Position)
    → Pipes.after_test p ≡ some q
    → (x : Pipes.Stream) → begun p x ≡ begun q x
begun-after_test Pipes.ran_command q e x =
    let s : Pipes.closes_stdout ≡ q = cc in ap (λ t. begun t x) s
begun-after_test Pipes.closed_stdout q e x =
    let s : Pipes.closes_stderr ≡ q = cc in ap (λ t. begun t x) s
begun-after_test Pipes.closed_stderr q e x = let s : Pipes.waits ≡ q = cc in ap (λ t. begun t x) s
begun-after_test Pipes.opens_container q e x = absurd cc
begun-after_test Pipes.makes_pipes q e x = absurd cc
begun-after_test Pipes.starts_first q e x = absurd cc
begun-after_test Pipes.starts_second q e x = absurd cc
begun-after_test Pipes.announces_shell q e x = absurd cc
begun-after_test Pipes.attaches q e x = absurd cc
begun-after_test Pipes.announces_command q e x = absurd cc
begun-after_test Pipes.runs_command q e x = absurd cc
begun-after_test Pipes.closes_stdout q e x = absurd cc
begun-after_test Pipes.closes_stderr q e x = absurd cc
begun-after_test Pipes.waits q e x = absurd cc

-- Main starts the goroutines.
pub Placed-first :
    (p : Pipes.Position) (n : ℕ) (f : Pipes.Stream → Pipes.Copier)
    → Placed p n f
    → p ≡ Pipes.starts_first
    → Placed Pipes.starts_second (suc n) (Pipes.put Pipes.standard_output Pipes.copying f)
Placed-first p n f o e =
    let at_start = Placed-moved p Pipes.starts_first Pipes.starts_first n f o e (λ x. refl) in
    let b = o.balance in
    let w = ap weight (at_start.in_place Pipes.standard_output) in
    record {
      balance = omega arith;
      in_place = each_stream _ (tt) (at_start.in_place Pipes.standard_error);
    }

pub Placed-second :
    (p : Pipes.Position) (n : ℕ) (f : Pipes.Stream → Pipes.Copier)
    → Placed p n f
    → p ≡ Pipes.starts_second
    → Placed Pipes.announces_shell (suc n) (Pipes.put Pipes.standard_error Pipes.copying f)
Placed-second p n f o e =
    let at_start = Placed-moved p Pipes.starts_second Pipes.starts_second n f o e (λ x. refl) in
    let b = o.balance in
    let w = ap weight (at_start.in_place Pipes.standard_error) in
    record {
      balance = omega arith;
      in_place = each_stream _ (at_start.in_place Pipes.standard_output) (tt);
    }
