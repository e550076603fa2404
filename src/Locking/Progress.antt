-- ===== src/Locking/Progress.antt =====
-- Goroutines that can go on: while a call is left, one of them has a next step.
use go_lxc.Base.{
  ℕ, Bool, true, false, List, [], ◌∷◌, ◌++◌, ◌≡◌, ◌⊎◌, inl, inr, refl, sym, ap, ◌∙◌, arith, All,
}
use mathlib.Core.Path.{subst}
use go_lxc.Locking.{
  Mode, shared, exclusive, Locked, Body, returns, step, Thread, idle, waiting, inside, System, Step,
  calls, locks, shares, works, unlocks, unshares, Reach, LetsShare, IsPrompt,
}
use go_lxc.Locking.Exclusion.{Inv, writes, reads, count, flag, Reach-Inv}

module _ (M : Locked) where
  open M use {State, Call, Answer, lock_of, body}

  -- The goroutine has made its calls.
  abbrev pub IsFinished : Thread M → Type 0
  IsFinished (idle []) = Unit
  IsFinished (idle (c ∷ cs)) = ⊥
  IsFinished (waiting c cs) = ⊥
  IsFinished (inside c b found cs) = ⊥

  -- A step that does not let a reader in while a writer waits.
  abbrev pub Next : System M → Type 0
  Next s = (t : System M) × (d : Step M s t) × IsPrompt M d

  -- A list in which one item is told apart.
  abbrev Has {ℓ} : {A : Type ℓ} → (A → Type 0) → List A → Type ℓ
  Has {A} P xs = (before : List A) × (x : A) × (after : List A) × (xs ≡ before ++ x ∷ after) × P x

  -- Every item is of one kind, or one is of the other.
  All-or :
      {A : Type 0} (P Q : A → Type 0) → ((x : A) → P x ⊎ Q x) → (xs : List A) → Has P xs ⊎ All Q xs
  All-or P Q dec [] = inr tt
  All-or P Q dec (x ∷ xs) = elim (dec x) [
    | inl p ↦ inl ([], x, xs, refl, p)
    | inr q ↦ elim (All-or P Q dec xs) [
      | inl (before, y, after, e, p) ↦ inl (x ∷ before, y, after, ap (λ t. x ∷ t) e, p)
      | inr rest ↦ inr (q, rest)
    ]
  ]

  abbrev IsInside : Thread M → Type 0
  IsInside (inside c b found cs) = Unit
  IsInside _ = ⊥

  abbrev IsOutside : Thread M → Type 0
  IsOutside (inside c b found cs) = ⊥
  IsOutside _ = Unit

  IsInside-or : (t : Thread M) → IsInside t ⊎ IsOutside t
  IsInside-or (idle cs) = inr tt
  IsInside-or (waiting c cs) = inr tt
  IsInside-or (inside c b found cs) = inl tt

  -- The goroutine waits to have the lock alone.
  abbrev Wants : Thread M → Type 0
  Wants (waiting c cs) = lock_of c ≡ exclusive
  Wants _ = ⊥

  Wants-by :
      (c : Call) (cs : List Call) (m : Mode)
      → lock_of c ≡ m
      → Wants (waiting c cs) ⊎ LetsShare M (waiting c cs)
  Wants-by c cs exclusive e = inl e
  Wants-by c cs shared e = inr e

  Wants-or : (t : Thread M) → Wants t ⊎ LetsShare M t
  Wants-or (idle cs) = inr tt
  Wants-or (waiting c cs) = Wants-by c cs (lock_of c) refl
  Wants-or (inside c b found cs) = inr tt

  abbrev IsBusy : Thread M → Type 0
  IsBusy (idle []) = ⊥
  IsBusy _ = Unit

  IsBusy-or : (t : Thread M) → IsBusy t ⊎ IsFinished t
  IsBusy-or (idle []) = inr tt
  IsBusy-or (idle (c ∷ cs)) = inl tt
  IsBusy-or (waiting c cs) = inl tt
  IsBusy-or (inside c b found cs) = inl tt

  -- A call that is inside goes on, or gives the lock back.
  goes_on :
      (s : System M) (before after : List (Thread M)) (c : Call) (b : Body State Answer)
      (found : State) (cs : List Call) (m : Mode)
      → lock_of c ≡ m
      → s.threads ≡ before ++ inside c b found cs ∷ after
      → Next s
  goes_on s before after c (step f k) found cs m l e = (_, works before after c f k found cs e, tt)
  goes_on s before after c (returns a) found cs exclusive l e =
      (_, unlocks before after c a found cs l e, tt)
  goes_on s before after c (returns a) found cs shared l e =
      (_, unshares before after c a found cs l e, tt)

  count-outside :
      (w : Thread M → ℕ)
      → ((t : Thread M) → IsOutside t → w t ≡ 0)
      → (ts : List (Thread M)) → All IsOutside ts
      → count M w ts ≡ 0
  count-outside w none_out [] h = refl
  count-outside w none_out (t ∷ ts) h =
      omega (arith, none_out t h.0, count-outside w none_out ts h.1)

  writes_out : (t : Thread M) → IsOutside t → writes M t ≡ 0
  writes_out (idle cs) h = refl
  writes_out (waiting c cs) h = refl
  writes_out (inside c b found cs) h = absurd h

  reads_out : (t : Thread M) → IsOutside t → reads M t ≡ 0
  reads_out (idle cs) h = refl
  reads_out (waiting c cs) h = refl
  reads_out (inside c b found cs) h = absurd h

  flag_zero : (b : Bool) → flag M b ≡ 0 → b ≡ false
  flag_zero false e = refl
  flag_zero true e = absurd (omega (arith, e))

  -- With nobody inside the lock is free.
  free_outside :
      (s : System M) → Inv M s → All IsOutside s.threads → (s.writing ≡ false) × (s.readers ≡ 0)
  free_outside s v h = (
    flag_zero s.writing (sym v.writers_counted ∙ count-outside (writes M) writes_out s.threads h),
    sym v.readers_counted ∙ count-outside (reads M) reads_out s.threads h,
  )

  -- With nobody inside, and no writer that waits, a goroutine that has a call left goes on.
  comes_in :
      (s : System M) (before after : List (Thread M)) (t : Thread M)
      → s.writing ≡ false
      → All (LetsShare M) s.threads
      → s.threads ≡ before ++ t ∷ after
      → LetsShare M t
      → IsOutside t
      → IsBusy t
      → Next s
  comes_in s before after (idle []) w all e h o b = absurd b
  comes_in s before after (idle (c ∷ cs)) w all e h o b = (_, calls before after c cs e, tt)
  comes_in s before after (waiting c cs) w all e h o b = (_, shares before after c cs h w e, all)
  comes_in s before after (inside c x found cs) w all e h o b = absurd o

  All-at :
      (P : Thread M → Type 0) (before : List (Thread M)) (t : Thread M) (after ts : List (Thread M))
      → ts ≡ before ++ t ∷ after
      → All P ts
      → P t
  All-at P before t after ts e h = part before (subst (All P) e h)
    where
      part : (b : List (Thread M)) → All P (b ++ t ∷ after) → P t
      part [] x = x.0
      part (u ∷ b) x = part b x.1

  Next-outside :
      (s : System M) → Inv M s → All IsOutside s.threads → All IsFinished s.threads ⊎ Next s
  Next-outside s v out =
      let (w, r) = free_outside s v out in
      elim (All-or Wants (LetsShare M) Wants-or s.threads) [
        | inl (before, waiting c cs, after, e, l) ↦ inr (_, locks before after c cs l w r e, tt)
        | inl (before, idle cs, after, e, l) ↦ absurd l
        | inl (before, inside c b found cs, after, e, l) ↦ absurd l
        | inr lets ↦ elim (All-or IsBusy IsFinished IsBusy-or s.threads) [
          | inl (before, t, after, e, b) ↦ inr (
              comes_in s before after t w lets e
                (All-at (LetsShare M) before t after s.threads e lets)
                (All-at IsOutside before t after s.threads e out) b)
          | inr all ↦ inl all
        ]
      ]

  Next-by :
      (s : System M)
      → Inv M s
      → Has IsInside s.threads ⊎ All IsOutside s.threads
      → All IsFinished s.threads ⊎ Next s
  Next-by s v (inl (before, inside c b found cs, after, e, i)) =
      inr (goes_on s before after c b found cs (lock_of c) refl e)
  Next-by s v (inl (before, idle cs, after, e, i)) = absurd i
  Next-by s v (inl (before, waiting c cs, after, e, i)) = absurd i
  Next-by s v (inr out) = Next-outside s v out

  pub goes_on_or_IsFinished :
      {s : State} {css : List (List Call)} {t : System M}
      → Reach M s css t
      → All IsFinished t.threads ⊎ Next t
  goes_on_or_IsFinished {t} r =
      Next-by t (Reach-Inv M r) (All-or IsInside IsOutside IsInside-or t.threads)
