-- ===== src/Locking/Exclusion.antt =====
-- The goroutines that are inside a method, counted by the lock that they hold.
use go_lxc.Base.{ℕ, ◌+◌, Bool, true, false, List, [], ◌∷◌, ◌++◌, ◌≡◌, refl, ap, arith}
use go_lxc.Locking.{
  Mode, shared, exclusive, Locked, Thread, idle, waiting, inside, System, Step, calls, locks,
  shares, works, unlocks, unshares, goroutines, begin, Reach, start, later,
}

module _ (M : Locked) where
  open M use {State, Call, lock_of}

  abbrev pub is_exclusive : Mode → ℕ
  is_exclusive shared = 0
  is_exclusive exclusive = 1

  abbrev pub is_shared : Mode → ℕ
  is_shared shared = 1
  is_shared exclusive = 0

  -- 1 for a goroutine that has the lock alone, and for one that shares it.
  abbrev pub writes : Thread M → ℕ
  writes (idle cs) = 0
  writes (waiting c cs) = 0
  writes (inside c b s cs) = is_exclusive (lock_of c)

  abbrev pub reads : Thread M → ℕ
  reads (idle cs) = 0
  reads (waiting c cs) = 0
  reads (inside c b s cs) = is_shared (lock_of c)

  abbrev pub count : (Thread M → ℕ) → List (Thread M) → ℕ
  count w [] = 0
  count w (t ∷ ts) = w t + count w ts

  pub count-append :
      (w : Thread M → ℕ) (before : List (Thread M)) (t : Thread M) (after : List (Thread M))
      → count w (before ++ t ∷ after) ≡ count w before + (w t + count w after)
  count-append w [] t after = omega arith
  count-append w (u ∷ before) t after = omega (arith, count-append w before t after)

  abbrev pub flag : Bool → ℕ
  flag true = 1
  flag false = 0

  -- The lock counts the goroutines that hold it, and a writer is alone with it.
  pub record Inv (s : System M) : Type 0 where
    pub writers_counted : count writes s.threads ≡ flag s.writing
    pub readers_counted : count reads s.threads ≡ s.readers
    pub writer_alone : s.writing ≡ true → s.readers ≡ 0

  count-goroutines :
      (w : Thread M → ℕ)
      → ((cs : List Call) → w (idle cs) ≡ 0)
      → (css : List (List Call)) → count w (goroutines M css) ≡ 0
  count-goroutines w none_idle [] = refl
  count-goroutines w none_idle (cs ∷ css) =
      omega (arith, none_idle cs, count-goroutines w none_idle css)

  begin-Inv : (s : State) (css : List (List Call)) → Inv (begin M s css)
  begin-Inv s css = record {
    writers_counted = count-goroutines writes (λ cs. refl) css;
    readers_counted = count-goroutines reads (λ cs. refl) css;
    writer_alone = λ h. cc;
  }

  -- The count where one goroutine of the list has moved on.
  count-moved :
      (w : Thread M → ℕ) (before : List (Thread M)) (t u : Thread M) (after : List (Thread M))
      (ts : List (Thread M))
      → ts ≡ before ++ t ∷ after
      → count w (before ++ u ∷ after) + w t ≡ count w ts + w u
  count-moved w before t u after ts e =
      omega (arith, count-append w before t after, count-append w before u after, ap (count w) e)

  -- Every step keeps the lock's account.
  pub Step-Inv : {s t : System M} → Step M s t → Inv s → Inv t
  Step-Inv {s} (calls before after c cs e) v = record {
    writers_counted =
        ground
          (arith, v.writers_counted, count-moved writes before _ (waiting c cs) after s.threads e);
    readers_counted =
        ground
          (arith, v.readers_counted, count-moved reads before _ (waiting c cs) after s.threads e);
    writer_alone = v.writer_alone;
  }
  Step-Inv {s} (locks before after c cs l w r e) v = record {
    writers_counted = ground (
      arith,
      l,
      w,
      v.writers_counted,
      count-moved writes before _ (inside c (M.body c) s.state cs) after s.threads e,
    );
    readers_counted = ground (
      arith,
      l,
      v.readers_counted,
      count-moved reads before _ (inside c (M.body c) s.state cs) after s.threads e,
    );
    writer_alone = λ h. r;
  }
  Step-Inv {s} (shares before after c cs l w e) v = record {
    writers_counted = ground (
      arith,
      l,
      v.writers_counted,
      count-moved writes before _ (inside c (M.body c) s.state cs) after s.threads e,
    );
    readers_counted = ground (
      arith,
      l,
      v.readers_counted,
      count-moved reads before _ (inside c (M.body c) s.state cs) after s.threads e,
    );
    writer_alone = λ h. cc;
  }
  Step-Inv {s} (works before after c f k found cs e) v = record {
    writers_counted = ground (
      arith,
      v.writers_counted,
      count-moved writes before _ (inside c (k s.state) found cs) after s.threads e,
    );
    readers_counted = ground (
      arith,
      v.readers_counted,
      count-moved reads before _ (inside c (k s.state) found cs) after s.threads e,
    );
    writer_alone = v.writer_alone;
  }
  Step-Inv {s} (unlocks before after c a found cs l e) v = record {
    writers_counted =
        ground
          (arith, l, v.writers_counted, count-moved writes before _ (idle cs) after s.threads e);
    readers_counted =
        ground
          (arith, l, v.readers_counted, count-moved reads before _ (idle cs) after s.threads e);
    writer_alone = λ h. cc;
  }
  Step-Inv {s} (unshares before after c a found cs l e) v = record {
    writers_counted =
        ground
          (arith, l, v.writers_counted, count-moved writes before _ (idle cs) after s.threads e);
    readers_counted =
        ground
          (arith, l, v.readers_counted, count-moved reads before _ (idle cs) after s.threads e);
    writer_alone = λ h. ground (arith, v.writer_alone h);
  }

  pub Reach-Inv : {s : State} {css : List (List Call)} {t : System M} → Reach M s css t → Inv t
  Reach-Inv {s} {css} start = begin-Inv s css
  Reach-Inv (later r d) = Step-Inv d (Reach-Inv r)
