-- ===== src/Locking.antt =====
-- The lock `mu` of a Container (container.go), a sync.RWMutex: goroutines that call methods of one
-- container, each of which takes the lock in its first line and gives it back when it returns. The
-- lock is that of Go's documentation: readers share it, and a writer has it alone. Go lets a reader in
-- only in some orders while a writer waits; the steps here allow every order.
pub mod Exclusion
pub mod Serial
pub mod Progress
pub mod Atomic
use go_lxc.Base.{ℕ, suc, ◌-◌, Bool, true, false, List, [], ◌∷◌, ◌++◌, ◌≡◌, All}

-- `mu.RLock` or `mu.Lock`
pub data Mode : Type 0 where
  shared exclusive : Mode

-- The rest of a method's body, cut into the steps that other goroutines can come between: a step
-- changes the state, and what follows depends on the state that it found.
pub data Body (S A : Type 0) : Type 0 where
  returns : A → Body S A
  step : (S → S) → (S → Body S A) → Body S A

-- The body without interruption.
unfoldable pub whole : {S A : Type 0} → Body S A → S → A × S
whole (returns a) s = (a, s)
whole (step f k) s = whole (k s) (f s)

-- Every step of the body, wherever it is taken, leads from a state to one that it is related to.
unfoldable pub EachStep : {S A : Type 0} → (S → S → Type 0) → Body S A → Type 0
EachStep P (returns a) = Unit
EachStep {S} P (step f k) = (s : S) → P s (f s) × EachStep P (k s)

-- A type with methods under one lock: what a call does from its first line to its return, the lock
-- that it takes, and what it may do to the state while it shares the lock.
pub record Locked : Type 1 where
  pub State : Type 0
  pub Call : Type 0
  pub Answer : Type 0
  pub run : Call → State → Answer × State
  pub lock_of : Call → Mode
  pub Keeps : State → State → Type 0
  -- Any cut of the bodies into steps.
  pub body : Call → Body State Answer
  pub body_whole : (c : Call) (s : State) → whole (body c) s ≡ run c s
  pub body_shared : (c : Call) → lock_of c ≡ shared → EachStep Keeps (body c)

module _ (M : Locked) where
  open M use {State, Call, Answer, run, lock_of, Keeps, body}

  -- A goroutine with the calls that it has still to make. `inside` holds the rest of the body, and the
  -- state that the call found when it was given the lock, which no step reads.
  pub data Thread : Type 0 where
    idle : List Call → Thread
    waiting : Call → List Call → Thread
    inside : Call → Body State Answer → State → List Call → Thread

  pub record System : Type 0 where
    pub state : State
    pub writing : Bool
    pub readers : ℕ
    pub threads : List Thread

  pub data Step (s : System) : System → Type 0 where
    calls :
        (before after : List Thread) (c : Call) (cs : List Call)
        → s.threads ≡ before ++ idle (c ∷ cs) ∷ after
        → Step s (record s { threads = before ++ waiting c cs ∷ after })
    locks :
        (before after : List Thread) (c : Call) (cs : List Call)
        → lock_of c ≡ exclusive
        → s.writing ≡ false
        → s.readers ≡ 0
        → s.threads ≡ before ++ waiting c cs ∷ after
        → Step s
            (record s { writing = true; threads = before ++ inside c (body c) s.state cs ∷ after })
    shares :
        (before after : List Thread) (c : Call) (cs : List Call)
        → lock_of c ≡ shared
        → s.writing ≡ false
        → s.threads ≡ before ++ waiting c cs ∷ after
        → Step s (record s {
          readers = suc s.readers;
          threads = before ++ inside c (body c) s.state cs ∷ after;
        })
    works :
        (before after : List Thread) (c : Call) (f : State → State) (k : State → Body State Answer)
        (found : State) (cs : List Call)
        → s.threads ≡ before ++ inside c (step f k) found cs ∷ after
        → Step s (record s {
          state = f s.state;
          threads = before ++ inside c (k s.state) found cs ∷ after;
        })
    unlocks :
        (before after : List Thread) (c : Call) (a : Answer) (found : State) (cs : List Call)
        → lock_of c ≡ exclusive
        → s.threads ≡ before ++ inside c (returns a) found cs ∷ after
        → Step s (record s { writing = false; threads = before ++ idle cs ∷ after })
    unshares :
        (before after : List Thread) (c : Call) (a : Answer) (found : State) (cs : List Call)
        → lock_of c ≡ shared
        → s.threads ≡ before ++ inside c (returns a) found cs ∷ after
        → Step s (record s { readers = s.readers - 1; threads = before ++ idle cs ∷ after })

  -- The goroutine does not wait to have the lock alone.
  abbrev pub LetsShare : Thread → Type 0
  LetsShare (idle cs) = Unit
  LetsShare (waiting c cs) = lock_of c ≡ shared
  LetsShare (inside c b s cs) = Unit

  -- The step lets no reader in while a writer waits.
  abbrev pub IsPrompt : {s t : System} → Step s t → Type 0
  IsPrompt {s} (shares before after c cs l w e) = All LetsShare s.threads
  IsPrompt _ = Unit

  -- Goroutines that have made no call yet.
  abbrev pub goroutines : List (List Call) → List Thread
  goroutines [] = []
  goroutines (cs ∷ css) = idle cs ∷ goroutines css

  abbrev pub begin : State → List (List Call) → System
  begin s css = record { state = s; writing = false; readers = 0; threads = goroutines css }

  pub data Reach (s : State) (css : List (List Call)) : System → Type 0 where
    start : Reach s css (begin s css)
    later : {t u : System} → Reach s css t → Step t u → Reach s css u
