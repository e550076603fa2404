-- ===== src/Tests/Goroutines.antt =====
-- The theorems on goroutines, with two of them on one Container, and methods that are one step each.
use go_lxc.Base.{none, some, List, [], ◌∷◌, ◌≡◌, ◌⊎◌, inl, inr, refl, sym, ap}
use go_lxc.Exec.{ok, fault, null_dereference}
use go_lxc.Locking.{
  Body, returns, step, whole, EachStep, System, idle, calls, locks, works, unlocks, Reach, start,
  later, begin,
}
use go_lxc.Container.{State}
use go_lxc.Container.Handle.{error_num, release}
use go_lxc.Container.Operations.{Request, done, run}
use go_lxc.Container.Calls.{Call, asks, requests, Query, Answer, replied, lock_of, run_call}
use go_lxc.Container.Calls.Steady.{SameFields}
use go_lxc.Container.Calls.Steady.Fields.{Assigns, run-Assigns}
use go_lxc.Container.Calls.Reading.{read-same}
use go_lxc.Container.Calls.Interleaved.{Cut, methods, shared-SameFields, pointer_kept}
use go_lxc.Container.Calls.Linear.{
  answers, looks, quiet, Plain, PlainCut, plain_methods, OneByOne, plain_calls-OneByOne, IsAtomic,
  plain_calls-IsAtomic,
}
use go_lxc.Container.Calls.Unlocked.{error_num_around, error_num-release}
use go_lxc.Tests.Sim.{sim, naturals, resting, held}

-- A method as one step.
abbrev one_step : Call (naturals.Float) → Body (State sim) (Answer (naturals.Float))
one_step c = step (λ s. (run_call sim naturals c s).1) (λ s. returns (run_call sim naturals c s).0)

uncut : Cut sim naturals
unfolding whole EachStep
uncut = record {
  body = one_step;
  body_whole = λ c s. refl;
  body_shared = λ c l s. (shared-SameFields sim naturals c s l, tt);
}

abbrev starts : Call (naturals.Float)
starts = requests Request.start

abbrev plan : List (List (Call (naturals.Float)))
plan = (starts ∷ []) ∷ (asks Query.state_of ∷ []) ∷ []

abbrev two : System (methods sim naturals uncut)
two = begin (methods sim naturals uncut) (held resting) plan

-- The first goroutine calls `Start`.
unfoldable called :
    (t : System (methods sim naturals uncut)) × Reach
      (methods sim naturals uncut)
      (held resting)
      plan
      t
called = (_, later start (calls [] (idle (asks Query.state_of ∷ []) ∷ []) starts [] refl))

pointer_kept_example : (called.0.state.handle ≡ some 1) ⊎ (called.0.state.handle ≡ none)
unfolding called
pointer_kept_example = pointer_kept sim naturals uncut called.1 refl

shared-SameFields_example :
    SameFields
      (held resting)
      (run_call sim naturals (requests Request.init_pid_fd) (held resting)).1
unfolding lock_of
shared-SameFields_example =
    shared-SameFields sim naturals (requests Request.init_pid_fd) (held resting) refl

run-Assigns_example :
    Assigns {F = naturals.Float}
      (Request.set_verbosity 2)
      (held resting)
      (run sim naturals (Request.set_verbosity 2) (held resting)).1
run-Assigns_example = run-Assigns sim naturals (Request.set_verbosity 2) (held resting)

error_num-release_example :
    (error_num_around sim (λ t. t) (held resting) ≡ ok (error_num sim (held resting)))
    × (error_num_around sim (λ t. (release sim t).1) (held resting) ≡ fault null_dereference)
unfolding release
error_num-release_example = error_num-release sim 1 (held resting) refl refl

asked_same : (q : Query) (s : State sim) → (run_call sim naturals (asks q) s).1 ≡ s
unfolding run_call
asked_same q s = read-same sim naturals q s

-- The plain methods: a query looks once, and the others are one step each.
looks_once : PlainCut sim naturals
unfolding whole quiet
looks_once = record {
  looking = λ q. looks (λ s. answers (run_call sim naturals (asks q) s).0);
  looking_whole = λ q s. ap (λ t. ((run_call sim naturals (asks q) s).0, t)) (sym (asked_same q s));
  working = one_step;
  working_whole = λ c s. refl;
}

-- The calls of the two goroutines.
abbrev IsPlanned : Call (naturals.Float) → Type 0
IsPlanned c = (c ≡ starts) ⊎ (c ≡ asks Query.state_of)

abbrev starts_plain : Plain IsPlanned
starts_plain = (starts, (tt, inl refl))

abbrev asks_plain : Plain IsPlanned
asks_plain = (asks Query.state_of, (tt, inr refl))

abbrev plain_plan : List (List (Plain IsPlanned))
plain_plan = (starts_plain ∷ []) ∷ (asks_plain ∷ []) ∷ []

-- The first goroutine calls `Start`, is given the lock, and does its one step.
unfoldable started :
    (t : System (plain_methods sim naturals IsPlanned looks_once)) × Reach
      (plain_methods sim naturals IsPlanned looks_once)
      (held resting)
      plain_plan
      t
unfolding lock_of looks_once
started = (
  _,
  later
      (later (later start (calls [] (idle (asks_plain ∷ []) ∷ []) starts_plain [] refl))
        (locks [] (idle (asks_plain ∷ []) ∷ []) starts_plain [] refl refl refl refl))
      (works [] (idle (asks_plain ∷ []) ∷ []) starts_plain (λ s. (run_call sim naturals starts s).1)
        (λ s. returns (run_call sim naturals starts s).0) (held resting) [] refl),
)

-- And it returns.
unfoldable returned :
    (t : System (plain_methods sim naturals IsPlanned looks_once)) × Reach
      (plain_methods sim naturals IsPlanned looks_once)
      (held resting)
      plain_plan
      t
unfolding lock_of started run_call run go_lxc.Container.Lifecycle.start
returned = (
  _,
  later started.1 (
      unlocks [] (idle (asks_plain ∷ []) ∷ []) starts_plain (replied done) (held resting) [] refl
        refl),
)

plain_calls-OneByOne_example : OneByOne sim naturals IsPlanned (held resting) returned.0.state
unfolding returned
plain_calls-OneByOne_example =
    plain_calls-OneByOne sim naturals IsPlanned looks_once returned.1 refl

plain_calls-IsAtomic_example :
    IsAtomic sim naturals IsPlanned looks_once
      (held resting)
      starts_plain
      (replied done)
      started.0.state
unfolding started lock_of run_call run go_lxc.Container.Lifecycle.start
plain_calls-IsAtomic_example =
    plain_calls-IsAtomic sim naturals IsPlanned looks_once [] (idle (asks_plain ∷ []) ∷ [])
      starts_plain (replied done) (held resting) [] started.1 refl
