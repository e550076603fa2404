-- ===== src/Examples/Pipes/Sharing.antt =====
-- examples/attach_with_pipes: what main waits for, and the variable `err` that the goroutines share.
use go_lxc.Base.{◌-◌, none, some, ◌≡◌, refl, arith}
use go_lxc.Errors.{Error}
use go_lxc.Liblxc.{Liblxc}
use go_lxc.Floats.{Floats}
use go_lxc.Memory.{CHeap}
use go_lxc.Container.{State}
use go_lxc.Container.Operations.{done}
use go_lxc.Examples.Concurrent.{runs, returned}
use go_lxc.Examples.Pipes
use go_lxc.Examples.Pipes.{System, Step, Reach}
use go_lxc.Examples.Pipes.Copying.{
  IsCounted, IsCounted-by, Placed, Placed-moved, Placed-turned, Placed-first, Placed-second,
  begun-after_test,
}

module _ (L : Liblxc) (R : Floats) (f : Pipes.Flags) where
  open L use {World}

  -- Main has returned only from its wait, and with the counter at 0.
  abbrev IsOver : System L → Type 0
  IsOver s = s.process ≡ returned → (s.position ≡ Pipes.waits) × (s.counter ≡ 0)

  abbrev Sound : System L → Type 0
  Sound s = Placed s.position s.counter s.copier × IsOver s

  on : {P : Type 0} (s : System L) → s.process ≡ runs → s.process ≡ returned → P
  on s e g = absurd cc

  Step-Sound : (s t : System L) → s.process ≡ runs → Sound s → Step L R f s t → Sound t
  Step-Sound s t r (o, v) (Pipes.opens c w e n) =
      (Placed-moved s.position Pipes.opens_container Pipes.makes_pipes _ _ o e λ x. refl, on s r)
  Step-Sound s t r (o, v) (Pipes.opens_not x w e n) = (o, λ g. absurd cc)
  Step-Sound s t r (o, v) (Pipes.pipes e) =
      (Placed-moved s.position Pipes.makes_pipes Pipes.starts_first _ _ o e λ x. refl, on s r)
  Step-Sound s t r (o, v) (Pipes.pipes_not x e) = (o, λ g. absurd cc)
  Step-Sound s t r (o, v) (Pipes.starts_output e) = (Placed-first s.position _ _ o e, on s r)
  Step-Sound s t r (o, v) (Pipes.starts_error e) = (Placed-second s.position _ _ o e, on s r)
  Step-Sound s t r (o, v) (Pipes.says_shell e) =
      (Placed-moved s.position Pipes.announces_shell Pipes.attaches _ _ o e λ x. refl, on s r)
  Step-Sound s t r (o, v) (Pipes.shell_ends u e n) =
      (Placed-moved s.position Pipes.attaches Pipes.announces_command _ _ o e λ x. refl, on s r)
  Step-Sound s t r (o, v) (Pipes.shell_fails x u e n) = (o, λ g. absurd cc)
  Step-Sound s t r (o, v) (Pipes.shell_crashes x u e n) = (o, λ g. absurd cc)
  Step-Sound s t r (o, v) (Pipes.says_command e) =
      (Placed-moved s.position Pipes.announces_command Pipes.runs_command _ _ o e λ x. refl, on s r)
  Step-Sound s t r (o, v) (Pipes.command_ends u e n) =
      (Placed-moved s.position Pipes.runs_command Pipes.ran_command _ _ o e λ x. refl, on s r)
  Step-Sound s t r (o, v) (Pipes.command_fails x u e n) =
      (Placed-moved s.position Pipes.runs_command Pipes.ran_command _ _ o e λ x. refl, on s r)
  Step-Sound s t r (o, v) (Pipes.command_crashes x u e n) = (o, λ g. absurd cc)
  Step-Sound s t r (o, v) (Pipes.tests p e n) =
      (Placed-moved s.position s.position p _ _ o refl (begun-after_test s.position p e), on s r)
  Step-Sound s t r (o, v) (Pipes.tests_not p x e n) = (o, λ g. absurd cc)
  Step-Sound s t r (o, v) (Pipes.closes_output x e) =
      (Placed-moved s.position Pipes.closes_stdout Pipes.closed_stdout _ _ o e λ x. refl, on s r)
  Step-Sound s t r (o, v) (Pipes.closes_error x e) =
      (Placed-moved s.position Pipes.closes_stderr Pipes.closed_stderr _ _ o e λ x. refl, on s r)
  Step-Sound s t r (o, v) (Pipes.copies x e n) = (
    Placed-turned s.position s.counter s.counter s.copier x Pipes.copying (Pipes.copied none) o e tt
        tt (omega arith) (omega arith),
    on s r,
  )
  Step-Sound s t r (o, v) (Pipes.copies_not x y e) = (
    Placed-turned s.position s.counter s.counter s.copier x Pipes.copying (Pipes.copied (some y)) o
        e tt tt (omega arith) (omega arith),
    on s r,
  )
  Step-Sound s t r (o, v) (Pipes.counts x y e n) = (
    Placed-turned s.position s.counter (s.counter - 1) s.copier x (Pipes.copied y) (Pipes.counted y)
        o e tt tt (omega arith) (omega arith),
    on s r,
  )
  Step-Sound s t r (o, v) (Pipes.counts_not x y z e n) = (o, λ g. absurd cc)
  Step-Sound s t r (o, v) (Pipes.returns e z) = (o, λ g. (e, z))

  Reach-Sound : {w : World} {h : CHeap} {s : System L} → Reach L R f w h s → Sound s
  Reach-Sound Pipes.start = (record { balance = refl; in_place = λ x. refl }, λ g. absurd cc)
  Reach-Sound (Pipes.later {s} {t} r e d) = Step-Sound s t e (Reach-Sound r) d

  -- The example attach_with_pipes, whatever the order of the steps: main returns only after both
  -- goroutines have come out of `io.Copy` and called `wg.Done()`.
  pub pipes-IsCounted :
      {w : World} {h : CHeap} {s : System L}
      → Reach L R f w h s
      → s.process ≡ returned
      → IsCounted (s.copier Pipes.standard_output) × IsCounted (s.copier Pipes.standard_error)
  pipes-IsCounted {w} {h} {s} r e =
      let (o, v) = Reach-Sound r in
      let (p, z) = v e in
      let b = o.balance in
      let waiting = Placed-moved s.position Pipes.waits Pipes.waits _ _ o p (λ x. refl) in
      (
        IsCounted-by (s.copier Pipes.standard_output) (omega arith)
            (waiting.in_place Pipes.standard_output),
        IsCounted-by (s.copier Pipes.standard_error) (omega arith)
            (waiting.in_place Pipes.standard_error),
      )

  -- The process goes on, prints no line, and a goroutine whose `io.Copy` returned `e` is through.
  abbrev pub Loses : World → CHeap → Pipes.Stream → Error → System L → Type 1
  Loses w h x e s =
      (t : System L) × Reach L R f w h t
      × (t.process ≡ runs)
      × (t.copier x ≡ Pipes.counted (some e))
      × (t.lines ≡ s.lines)

  -- In attach_with_pipes, where a goroutine has set `err` to the error of its `io.Copy` while main is to
  -- run its command, and the command returns no error, the program can go on without a word of that
  -- error: main's assignment of nil comes between the goroutine's assignment and its test.
  pub lost_error :
      {w : World} {h : CHeap} {s : System L} (x : Pipes.Stream) (e : Error) (u : State L)
      → Reach L R f w h s
      → s.process ≡ runs
      → s.position ≡ Pipes.runs_command
      → s.copier x ≡ Pipes.copied (some e)
      → Pipes.commands L R f s.container ≡ (done, u)
      → Loses w h x e s
  lost_error {w} {h} {s} x e u r n p c d = (
    _,
    Pipes.later (Pipes.later r n (Pipes.command_ends u p d)) n (Pipes.counts x (some e) c refl),
    n,
    put_same x _ s.copier,
    refl,
  )
    where
      put_same :
          (y : Pipes.Stream) (k : Pipes.Copier) (g : Pipes.Stream → Pipes.Copier)
          → Pipes.put y k g y ≡ k
      put_same Pipes.standard_output k g = refl
      put_same Pipes.standard_error k g = refl
