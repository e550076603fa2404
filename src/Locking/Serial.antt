-- ===== src/Locking/Serial.antt =====
-- Interleaved calls against whole calls, one after the other.
use go_lxc.Base.{
  ℕ, ◌+◌, Bool, true, false, List, [], ◌∷◌, ◌++◌, ◌≡◌, refl, sym, ap, ◌∙◌, arith, All, All-append,
}
use mathlib.Core.Path.{subst}
use go_lxc.Locking.{
  Mode, shared, exclusive, Locked, Body, returns, step, whole, EachStep, Thread, idle, waiting,
  inside, System, Step, calls, locks, shares, works, unlocks, unshares, goroutines, begin, Reach,
  start, later,
}
use go_lxc.Locking.Exclusion.{
  Inv, is_exclusive, is_shared, writes, reads, count, flag, count-append, Reach-Inv,
}

module _ (M : Locked) where
  open M use {State, Call, Answer, run, lock_of, Keeps, body}

  -- The states that whole calls of the methods that have the lock alone lead to, one after the other,
  -- with steps of the methods that share it in between.
  pub data Serial (s : State) : State → Type 0 where
    begins : Serial s s
    calls_whole : (c : Call) {t : State} → lock_of c ≡ exclusive → Serial s t → Serial s (run c t).1
    reads_on : {t u : State} → Keeps t u → Serial s t → Serial s u

  -- What a call that is inside has done so far: what remains leads where the whole call leads from the
  -- state that it found; or it shares the lock.
  abbrev pub FitsBy : State → Mode → Call → State → Body State Answer → State → Type 0
  FitsBy s exclusive c found b now = (whole b now ≡ run c found) × Serial s found
  FitsBy s shared c found b now = EachStep Keeps b

  abbrev pub Fits : State → State → Thread M → Type 0
  Fits s now (idle cs) = Unit
  Fits s now (waiting c cs) = Unit
  Fits s now (inside c b found cs) = FitsBy s (lock_of c) c found b now

  pub All-split {ℓ} :
      {A : Type ℓ} (P : A → Type 0) (xs ys : List A) → All P (xs ++ ys) → All P xs × All P ys
  All-split P [] ys h = (tt, h)
  All-split P (x ∷ xs) ys h = let rest = All-split P xs ys h.1 in ((h.0, rest.0), rest.1)

  -- One goroutine moves on, and the others stay as they are.
  pub All-moved :
      (P : Thread M → Type 0) (before : List (Thread M)) (t u : Thread M)
      (after ts : List (Thread M))
      → ts ≡ before ++ t ∷ after
      → All P ts
      → (P t → P u)
      → All P (before ++ u ∷ after)
  All-moved P before t u after ts e h f =
      let parts = All-split P before (t ∷ after) (subst (All P) e h) in
      All-append P before (u ∷ after) parts.0 (f parts.1.0, parts.1.1)

  FitsBy-elsewhere :
      (s now then' : State) (m : Mode) (c : Call) (found : State) (b : Body State Answer)
      → m ≡ shared
      → FitsBy s m c found b now
      → FitsBy s m c found b then'
  FitsBy-elsewhere s now then' shared c found b e h = h
  FitsBy-elsewhere s now then' exclusive c found b e h = cc

  others-fit :
      (s now then' : State) (ts : List (Thread M))
      → count M (writes M) ts ≡ 0
      → All (Fits s now) ts
      → All (Fits s then') ts
  others-fit s now then' [] z h = tt
  others-fit s now then' (idle cs ∷ ts) z h = (tt, others-fit s now then' ts (omega (arith, z)) h.1)
  others-fit s now then' (waiting c cs ∷ ts) z h =
      (tt, others-fit s now then' ts (omega (arith, z)) h.1)
  others-fit s now then' (inside c b found cs ∷ ts) z h = (
    FitsBy-elsewhere s now then' (lock_of c) c found b (not_exclusive (lock_of c) _ z) h.0,
    others-fit s now then' ts (omega (arith, z)) h.1,
  )
    where
      not_exclusive : (m : Mode) (n : ℕ) → is_exclusive M m + n ≡ 0 → m ≡ shared
      not_exclusive shared n e = refl
      not_exclusive exclusive n e = absurd (omega (arith, e))

  -- While no call has the lock alone the state is one of those; and every call that is inside fits.
  pub record Settled (s : State) (t : System M) : Type 0 where
    pub state_serial : t.writing ≡ false → Serial s t.state
    pub all_fit : All (Fits s t.state) t.threads

  begin-Settled : (s : State) (css : List (List Call)) → Settled s (begin M s css)
  begin-Settled s css = record { state_serial = λ h. begins; all_fit = idle_fit css }
    where
      idle_fit : (css' : List (List Call)) → All (Fits s s) (goroutines M css')
      idle_fit [] = tt
      idle_fit (cs ∷ css') = (tt, idle_fit css')

  enter_fits :
      (s now : State) (c : Call) (m : Mode)
      → lock_of c ≡ m
      → (m ≡ exclusive → Serial s now)
      → FitsBy s m c now (body c) now
  enter_fits s now c exclusive e h = (M.body_whole c now, h refl)
  enter_fits s now c shared e h = M.body_shared c e

  -- A step of a body: the state, if it shares the lock, and what fits now.
  work_fits :
      (s now : State) (c : Call) (found : State) (f : State → State) (k : State → Body State Answer)
      (m : Mode)
      → FitsBy s m c found (step f k) now
      → FitsBy s m c found (k now) (f now)
  unfolding whole EachStep
  work_fits s now c found f k exclusive h = h
  work_fits s now c found f k shared h = (h now).1

  pub work_keeps :
      (s now : State) (c : Call) (found : State) (f : State → State) (k : State → Body State Answer)
      (m : Mode)
      → m ≡ shared
      → FitsBy s m c found (step f k) now
      → Keeps now (f now)
  unfolding EachStep
  work_keeps s now c found f k exclusive e h = cc
  work_keeps s now c found f k shared e h = (h now).0

  return-Serial :
      (s now : State) (c : Call) (a : Answer) (found : State) (m : Mode)
      → m ≡ exclusive
      → lock_of c ≡ exclusive
      → FitsBy s m c found (returns a) now
      → Serial s now
  unfolding whole
  return-Serial s now c a found shared e l h = cc
  return-Serial s now c a found exclusive e l h =
      subst (Serial s) (sym (ap (λ p. p.1) h.0)) (calls_whole c l h.1)

  -- While a goroutine is inside, no other one has the lock alone.
  record Alone (t : System M) (before after : List (Thread M)) (m : Mode) : Type 0 where
    none_before : count M (writes M) before ≡ 0
    none_after : count M (writes M) after ≡ 0
    by_mode : t.writing ≡ true → m ≡ exclusive
    by_writing : t.writing ≡ false → m ≡ shared

  alone_by :
      (m : Mode) (writing : Bool) (readers wb wa rb ra : ℕ)
      → wb + (is_exclusive M m + wa) ≡ flag M writing
      → rb + (is_shared M m + ra) ≡ readers
      → (writing ≡ true → readers ≡ 0)
      → (wb ≡ 0) × (wa ≡ 0) × (writing ≡ true → m ≡ exclusive) × (writing ≡ false → m ≡ shared)
  alone_by shared true readers wb wa rb ra ew er alone = absurd (omega (arith, alone refl))
  alone_by shared false readers wb wa rb ra ew er alone =
      (omega arith, omega arith, λ h. cc, λ h. refl)
  alone_by exclusive true readers wb wa rb ra ew er alone =
      (omega arith, omega arith, λ h. refl, λ h. cc)
  alone_by exclusive false readers wb wa rb ra ew er alone = absurd (omega arith)

  Alone-at :
      {t : System M} (before after : List (Thread M)) (c : Call) (b : Body State Answer)
      (found : State) (cs : List Call)
      → Inv M t
      → t.threads ≡ before ++ inside c b found cs ∷ after
      → Alone t before after (lock_of c)
  Alone-at {t} before after c b found cs v e =
      let (z, y, x, w) =
        alone_by (lock_of c) t.writing t.readers (count M (writes M) before)
          (count M (writes M) after) (count M (reads M) before) (count M (reads M) after)
          (sym (count-append M (writes M) before (inside c b found cs) after)
            ∙ sym (ap (count M (writes M)) e)
            ∙ v.writers_counted)
          (sym (count-append M (reads M) before (inside c b found cs) after)
            ∙ sym (ap (count M (reads M)) e)
            ∙ v.readers_counted)
          v.writer_alone in
      record { none_before = z; none_after = y; by_mode = x; by_writing = w }

  -- Every step keeps the account of what was done.
  Step-Settled : {s : State} {t u : System M} → Step M t u → Inv M t → Settled s t → Settled s u
  Step-Settled {s} {t} (calls before after c cs e) v h = record {
    state_serial = h.state_serial;
    all_fit =
        All-moved (Fits s t.state) before _ (waiting c cs) after t.threads e h.all_fit (λ x. tt);
  }
  Step-Settled {s} {t} (locks before after c cs l w r e) v h = record {
    state_serial = λ x. cc;
    all_fit =
        All-moved (Fits s t.state) before _ (inside c (body c) t.state cs) after t.threads e
          h.all_fit (λ x. enter_fits s t.state c (lock_of c) refl (λ y. h.state_serial w));
  }
  Step-Settled {s} {t} (shares before after c cs l w e) v h = record {
    state_serial = h.state_serial;
    all_fit =
        All-moved (Fits s t.state) before _ (inside c (body c) t.state cs) after t.threads e
          h.all_fit (λ x. enter_fits s t.state c (lock_of c) refl (λ y. h.state_serial w));
  }
  Step-Settled {s} {t} (works before after c f k found cs e) v h =
      let alone = Alone-at before after c (step f k) found cs v e in
      let parts =
        All-split (Fits s t.state) before (inside c (step f k) found cs ∷ after)
          (subst (All (Fits s t.state)) e h.all_fit) in
      record {
        state_serial = λ w.
            reads_on (work_keeps s t.state c found f k (lock_of c) (alone.by_writing w) parts.1.0)
              (h.state_serial w);
        all_fit =
            All-append (Fits s (f t.state)) before (inside c (k t.state) found cs ∷ after)
              (others-fit s t.state (f t.state) before alone.none_before parts.0)
              (
                work_fits s t.state c found f k (lock_of c) parts.1.0,
                others-fit s t.state (f t.state) after alone.none_after parts.1.1,
              );
      }
  Step-Settled {s} {t} (unlocks before after c a found cs l e) v h =
      let parts =
        All-split (Fits s t.state) before (inside c (returns a) found cs ∷ after)
          (subst (All (Fits s t.state)) e h.all_fit) in
      record {
        state_serial = λ w. return-Serial s t.state c a found (lock_of c) l l parts.1.0;
        all_fit =
            All-moved (Fits s t.state) before _ (idle cs) after t.threads e h.all_fit (λ x. tt);
      }
  Step-Settled {s} {t} (unshares before after c a found cs l e) v h = record {
    state_serial = h.state_serial;
    all_fit = All-moved (Fits s t.state) before _ (idle cs) after t.threads e h.all_fit (λ x. tt);
  }

  pub Reach-Settled :
      {s : State} {css : List (List Call)} {t : System M} → Reach M s css t → Settled s t
  Reach-Settled {s} {css} start = begin-Settled s css
  Reach-Settled (later r d) = Step-Settled d (Reach-Inv M r) (Reach-Settled r)

  -- The answer of a call that has the lock alone and returns.
  answer_by :
      (s now : State) (c : Call) (a : Answer) (found : State) (m : Mode)
      → m ≡ exclusive
      → FitsBy s m c found (returns a) now
      → ((a, now) ≡ run c found) × Serial s found
  unfolding whole
  answer_by s now c a found shared e h = cc
  answer_by s now c a found exclusive e h = h

  pub returns_whole :
      {s : State} {css : List (List Call)} {t : System M} (before after : List (Thread M))
      (c : Call) (a : Answer) (found : State) (cs : List Call)
      → Reach M s css t
      → lock_of c ≡ exclusive
      → t.threads ≡ before ++ inside c (returns a) found cs ∷ after
      → ((a, t.state) ≡ run c found) × Serial s found
  returns_whole {s} {css} {t} before after c a found cs r l e =
      answer_by s t.state c a found (lock_of c) l
        (All-split (Fits s t.state) before (inside c (returns a) found cs ∷ after)
          (subst (All (Fits s t.state)) e (Reach-Settled r).all_fit)).1.0
