-- ===== src/Locking/Atomic.antt =====
-- Methods that share the lock and change nothing: each answers as the whole call does.
use go_lxc.Base.{
  ℕ, ◌+◌, Bool, true, false, List, [], ◌∷◌, ◌++◌, ◌≡◌, refl, sym, ap, ◌∙◌, arith, All, All-append,
}
use mathlib.Core.Path.{subst}
use go_lxc.Locking.{
  Mode, shared, exclusive, Locked, Body, returns, step, whole, Thread, idle, waiting, inside,
  System, Step, calls, locks, shares, works, unlocks, unshares, goroutines, Reach, start, later,
}
use go_lxc.Locking.Exclusion.{
  Inv, is_exclusive, is_shared, writes, reads, count, flag, count-append, Reach-Inv,
}
use go_lxc.Locking.Serial.{Fits, All-split, All-moved, work_keeps, Settled, Reach-Settled}

module _ (M : Locked) where
  open M use {State, Call, Answer, run, lock_of, Keeps, body}

  -- What remains of a call that shares the lock leads where the whole call leads from here.
  abbrev Answers : State → Thread M → Type 0
  Answers now (idle cs) = Unit
  Answers now (waiting c cs) = Unit
  Answers now (inside c b found cs) = lock_of c ≡ shared → whole b now ≡ run c now

  -- No call that is inside shares the lock.
  others_answer :
      (now : State) (ts : List (Thread M)) → count M (reads M) ts ≡ 0 → All (Answers now) ts
  others_answer now [] z = tt
  others_answer now (idle cs ∷ ts) z = (tt, others_answer now ts (omega (arith, z)))
  others_answer now (waiting c cs ∷ ts) z = (tt, others_answer now ts (omega (arith, z)))
  others_answer now (inside c b found cs ∷ ts) z =
      (λ l. absurd (omega (arith, z, ap (is_shared M) l)), others_answer now ts (omega (arith, z)))

  no_readers :
      (m : Mode) (writing : Bool) (readers wb wa rb ra : ℕ)
      → m ≡ exclusive
      → wb + (is_exclusive M m + wa) ≡ flag M writing
      → rb + (is_shared M m + ra) ≡ readers
      → (writing ≡ true → readers ≡ 0)
      → (rb ≡ 0) × (ra ≡ 0)
  no_readers shared writing readers wb wa rb ra e ew er alone = cc
  no_readers exclusive true readers wb wa rb ra e ew er alone =
      let none = alone refl in (omega arith, omega arith)
  no_readers exclusive false readers wb wa rb ra e ew er alone = absurd (omega arith)

  no_readers-at :
      {t : System M} (before after : List (Thread M)) (c : Call) (b : Body State Answer)
      (found : State) (cs : List Call)
      → Inv M t
      → t.threads ≡ before ++ inside c b found cs ∷ after
      → lock_of c ≡ exclusive
      → (count M (reads M) before ≡ 0) × (count M (reads M) after ≡ 0)
  no_readers-at {t} before after c b found cs v e l =
      no_readers (lock_of c) t.writing t.readers (count M (writes M) before)
        (count M (writes M) after) (count M (reads M) before) (count M (reads M) after) l
        (sym (count-append M (writes M) before (inside c b found cs) after)
          ∙ sym (ap (count M (writes M)) e)
          ∙ v.writers_counted)
        (sym (count-append M (reads M) before (inside c b found cs) after)
          ∙ sym (ap (count M (reads M)) e)
          ∙ v.readers_counted)
        v.writer_alone

  idle_answer : (s : State) (css : List (List Call)) → All (Answers s) (goroutines M css)
  idle_answer s [] = tt
  idle_answer s (cs ∷ css) = (tt, idle_answer s css)

  module _ (same : (s t : State) → Keeps s t → s ≡ t) where
    -- A step of a body, by the lock that the call has.
    works_answer :
        (t : System M) (before after : List (Thread M)) (c : Call) (f : State → State)
        (k : State → Body State Answer) (found : State) (cs : List Call) (m : Mode)
        → lock_of c ≡ m
        → (m ≡ shared → t.state ≡ f t.state)
        → (m ≡ exclusive → (count M (reads M) before ≡ 0) × (count M (reads M) after ≡ 0))
        → All (Answers t.state) before
          × (Answers t.state (inside c (step f k) found cs) × All (Answers t.state) after)
        → All (Answers (f t.state)) (before ++ inside c (k t.state) found cs ∷ after)
    unfolding whole
    works_answer t before after c f k found cs exclusive e kept none h =
        All-append (Answers (f t.state)) before (inside c (k t.state) found cs ∷ after)
          (others_answer (f t.state) before (none refl).0)
          (λ l. cc, others_answer (f t.state) after (none refl).1)
    works_answer t before after c f k found cs shared e kept none h =
        All-append (Answers (f t.state)) before (inside c (k t.state) found cs ∷ after)
          (subst (λ s. All (Answers s) before) (kept refl) h.0)
          (
            λ l. h.1.0 l ∙ ap (run c) (kept refl),
            subst (λ s. All (Answers s) after) (kept refl) h.1.1,
          )

    Step-Answers :
        {s : State} {t u : System M}
        → Step M t u
        → Inv M t
        → Settled M s t
        → All (Answers t.state) t.threads
        → All (Answers u.state) u.threads
    Step-Answers {s} {t} (calls before after c cs e) v w h =
        All-moved M (Answers t.state) before _ (waiting c cs) after t.threads e h (λ x. tt)
    Step-Answers {s} {t} (locks before after c cs l z r e) v w h =
        All-moved M (Answers t.state) before _ (inside c (body c) t.state cs) after t.threads e h
          (λ x y. M.body_whole c t.state)
    Step-Answers {s} {t} (shares before after c cs l z e) v w h =
        All-moved M (Answers t.state) before _ (inside c (body c) t.state cs) after t.threads e h
          (λ x y. M.body_whole c t.state)
    Step-Answers {s} {t} (works before after c f k found cs e) v w h =
        let fits =
          All-split M (Fits M s t.state) before (inside c (step f k) found cs ∷ after)
            (subst (All (Fits M s t.state)) e w.all_fit) in
        works_answer t before after c f k found cs (lock_of c) refl
          (λ l.
            same t.state (f t.state) (work_keeps M s t.state c found f k (lock_of c) l fits.1.0))
          (λ l. no_readers-at before after c (step f k) found cs v e l)
          (All-split M (Answers t.state) before (inside c (step f k) found cs ∷ after)
            (subst (All (Answers t.state)) e h))
    Step-Answers {s} {t} (unlocks before after c a found cs l e) v w h =
        All-moved M (Answers t.state) before _ (idle cs) after t.threads e h (λ x. tt)
    Step-Answers {s} {t} (unshares before after c a found cs l e) v w h =
        All-moved M (Answers t.state) before _ (idle cs) after t.threads e h (λ x. tt)

    Reach-Answers :
        {s : State} {css : List (List Call)} {t : System M}
        → Reach M s css t
        → All (Answers t.state) t.threads
    Reach-Answers {s} {css} start = idle_answer s css
    Reach-Answers (later r d) = Step-Answers d (Reach-Inv M r) (Reach-Settled M r) (Reach-Answers r)

    -- A call that shares the lock returns the answer of the whole call, made in the state that it
    -- leaves, where the methods that share the lock change nothing.
    pub answers_whole :
        {s : State} {css : List (List Call)} {t : System M} (before after : List (Thread M))
        (c : Call) (a : Answer) (found : State) (cs : List Call)
        → Reach M s css t
        → lock_of c ≡ shared
        → t.threads ≡ before ++ inside c (returns a) found cs ∷ after
        → (a, t.state) ≡ run c t.state
    unfolding whole
    answers_whole {s} {css} {t} before after c a found cs r l e =
        (All-split M (Answers t.state) before (inside c (returns a) found cs ∷ after)
            (subst (All (Answers t.state)) e (Reach-Answers r))).1.0
          l

  sharing_by :
      (m : Mode) (writing : Bool) (readers rb ra : ℕ)
      → m ≡ shared
      → rb + (is_shared M m + ra) ≡ readers
      → (writing ≡ true → readers ≡ 0)
      → writing ≡ false
  sharing_by exclusive writing readers rb ra e er alone = cc
  sharing_by shared false readers rb ra e er alone = refl
  sharing_by shared true readers rb ra e er alone = absurd (omega (arith, alone refl))

  -- While a call shares the lock, no one has it alone.
  pub sharing :
      {s : State} {css : List (List Call)} {t : System M} (before after : List (Thread M))
      (c : Call) (b : Body State Answer) (found : State) (cs : List Call)
      → Reach M s css t
      → lock_of c ≡ shared
      → t.threads ≡ before ++ inside c b found cs ∷ after
      → t.writing ≡ false
  sharing {s} {css} {t} before after c b found cs r l e =
      let v = Reach-Inv M r in
      sharing_by (lock_of c) t.writing t.readers (count M (reads M) before)
        (count M (reads M) after) l
        (sym (count-append M (reads M) before (inside c b found cs) after)
          ∙ sym (ap (count M (reads M)) e)
          ∙ v.readers_counted)
        v.writer_alone
