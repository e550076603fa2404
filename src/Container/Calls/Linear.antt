-- ===== src/Container/Calls/Linear.antt =====
-- container.go: the methods that change the state have the lock alone, and the ones that share it look
-- on. What goroutines that call them on one Container come to.
use go_lxc.Base.{List, [], ◌∷◌, ◌++◌, ◌≡◌, refl, sym, ap, ◌∙◌, false, All}
use go_lxc.Liblxc.{Liblxc}
use go_lxc.Floats.{Floats}
use go_lxc.Locking.{
  Mode, shared, exclusive, Locked, Body, returns, step, whole, EachStep, System, Thread, inside,
  Reach,
}
use go_lxc.Locking.Serial.{Serial, begins, calls_whole, reads_on, Reach-Settled, returns_whole}
use go_lxc.Locking.Atomic.{sharing, answers_whole}
use go_lxc.Container.{State}
use go_lxc.Container.Operations.{Request}
use go_lxc.Container.Calls.{
  Call, asks, requests, executes, awaits, Query, Answer, lock_of, run_call,
}

-- The calls that either have the lock alone or change nothing. The rest share the lock and yet open a
-- file, wait, mount a file system for a moment, or leave an array on C's heap.
abbrev pub IsPlain : {F : Type 0} → Call F → Type 0
IsPlain (asks Query.interfaces) = ⊥
IsPlain (asks Query.ip_addresses) = ⊥
IsPlain (asks Query.ipv4_addresses) = ⊥
IsPlain (asks Query.ipv6_addresses) = ⊥
IsPlain (asks (Query.ip_address i)) = ⊥
IsPlain (asks (Query.ipv4_address i)) = ⊥
IsPlain (asks (Query.ipv6_address i)) = ⊥
IsPlain (asks _) = Unit
IsPlain (executes args) = Unit
IsPlain (awaits timeout) = ⊥
IsPlain (requests Request.init_pid_fd) = ⊥
IsPlain (requests Request.devpts_fd) = ⊥
IsPlain (requests Request.seccomp_notify_fd) = ⊥
IsPlain (requests Request.seccomp_notify_fd_active) = ⊥
IsPlain (requests Request.snapshots) = ⊥
IsPlain (requests _) = Unit

-- A body whose steps look at the state and cannot change it.
pub data Looking (S A : Type 0) : Type 0 where
  answers : A → Looking S A
  looks : (S → Looking S A) → Looking S A

-- Such a body, with the steps as ones that could.
unfoldable pub quiet : {S A : Type 0} → Looking S A → Body S A
quiet (answers a) = returns a
quiet (looks k) = step (λ s. s) (λ s. quiet (k s))

quiet-EachStep : {S A : Type 0} (b : Looking S A) → EachStep (λ s t. s ≡ t) (quiet b)
unfolding quiet EachStep
quiet-EachStep (answers a) = tt
quiet-EachStep (looks k) = λ s. (refl, quiet-EachStep (k s))

module _ {F : Type 0} where
  -- Every plain request takes `mu.Lock`.
  plain-exclusive : (q : Request F) → IsPlain (requests q) → lock_of (requests q) ≡ exclusive
  unfolding lock_of
  plain-exclusive Request.release l = refl
  plain-exclusive (Request.want_daemonize x) l = refl
  plain-exclusive (Request.want_close_all_fds x) l = refl
  plain-exclusive (Request.set_verbosity x) l = refl
  plain-exclusive Request.init_pid_fd l = absurd l
  plain-exclusive Request.devpts_fd l = absurd l
  plain-exclusive Request.seccomp_notify_fd l = absurd l
  plain-exclusive Request.seccomp_notify_fd_active l = absurd l
  plain-exclusive Request.freeze l = refl
  plain-exclusive Request.unfreeze l = refl
  plain-exclusive Request.start l = refl
  plain-exclusive (Request.start_with_args x) l = refl
  plain-exclusive (Request.start_execute x) l = refl
  plain-exclusive Request.stop l = refl
  plain-exclusive Request.reboot l = refl
  plain-exclusive (Request.shutdown x) l = refl
  plain-exclusive Request.destroy l = refl
  plain-exclusive Request.destroy_with_all_snapshots l = refl
  plain-exclusive (Request.clone x y) l = refl
  plain-exclusive (Request.rename x) l = refl
  plain-exclusive (Request.wait x y) l = refl
  plain-exclusive (Request.create x) l = refl
  plain-exclusive (Request.set_config_item x y) l = refl
  plain-exclusive (Request.set_cgroup_item x y) l = refl
  plain-exclusive Request.clear_config l = refl
  plain-exclusive (Request.clear_config_item x) l = refl
  plain-exclusive (Request.load_config_file x) l = refl
  plain-exclusive (Request.save_config_file x) l = refl
  plain-exclusive (Request.set_config_path x) l = refl
  plain-exclusive (Request.set_log_file x) l = refl
  plain-exclusive (Request.set_log_level x) l = refl
  plain-exclusive Request.create_snapshot l = refl
  plain-exclusive (Request.restore_snapshot x y) l = refl
  plain-exclusive (Request.destroy_snapshot x) l = refl
  plain-exclusive Request.destroy_all_snapshots l = refl
  plain-exclusive Request.snapshots l = absurd l
  plain-exclusive (Request.set_memory_limit x) l = refl
  plain-exclusive (Request.set_soft_memory_limit x) l = refl
  plain-exclusive (Request.set_kernel_memory_limit x) l = refl
  plain-exclusive (Request.set_memory_swap_limit x) l = refl
  plain-exclusive (Request.console_fd x) l = refl
  plain-exclusive (Request.console x) l = refl
  plain-exclusive (Request.attach_shell x) l = refl
  plain-exclusive (Request.run_command_status x y) l = refl
  plain-exclusive (Request.run_command_no_wait x y) l = refl
  plain-exclusive (Request.run_command x y) l = refl
  plain-exclusive (Request.console_log x) l = refl
  plain-exclusive (Request.add_device_node x y) l = refl
  plain-exclusive (Request.remove_device_node x y) l = refl
  plain-exclusive (Request.checkpoint x) l = refl
  plain-exclusive (Request.restore x) l = refl
  plain-exclusive (Request.migrate x y) l = refl
  plain-exclusive (Request.attach_interface x y) l = refl
  plain-exclusive (Request.detach_interface x) l = refl
  plain-exclusive (Request.detach_interface_rename x y) l = refl

-- The plain calls among some calls, those that the goroutines make.
abbrev pub Plain : {F : Type 0} → (Call F → Type 0) → Type 0
Plain {F} Made = (c : Call F) × (IsPlain c × Made c)

module _ (L : Liblxc) (R : Floats) where
  open R use {Float}

  -- A way to cut the plain methods into steps: together the steps do what the method does. The steps
  -- of the others may do anything.
  pub record PlainCut : Type 0 where
    pub looking : Query → Looking (State L) (Answer Float)
    pub looking_whole :
        (q : Query) (s : State L) → whole (quiet (looking q)) s ≡ run_call L R (asks q) s
    pub working : Call Float → Body (State L) (Answer Float)
    pub working_whole : (c : Call Float) (s : State L) → whole (working c) s ≡ run_call L R c s

  abbrev pub plain_body : PlainCut → Call Float → Body (State L) (Answer Float)
  plain_body cut (asks q) = quiet (cut.looking q)
  plain_body cut (requests q) = cut.working (requests q)
  plain_body cut (executes args) = cut.working (executes args)
  plain_body cut (awaits timeout) = cut.working (awaits timeout)

  pub plain_body-whole :
      (cut : PlainCut) (c : Call Float) (s : State L)
      → whole (plain_body cut c) s ≡ run_call L R c s
  plain_body-whole cut (asks q) s = cut.looking_whole q s
  plain_body-whole cut (requests q) s = cut.working_whole (requests q) s
  plain_body-whole cut (executes args) s = cut.working_whole (executes args) s
  plain_body-whole cut (awaits timeout) s = cut.working_whole (awaits timeout) s

  -- Of the plain methods, the ones that share the lock keep the whole state in every step.
  pub plain_body-shared :
      (cut : PlainCut) (c : Call Float)
      → IsPlain c
      → lock_of c ≡ shared
      → EachStep (λ s t. s ≡ t) (plain_body cut c)
  unfolding lock_of
  plain_body-shared cut (asks q) p l = quiet-EachStep (cut.looking q)
  plain_body-shared cut (requests q) p l = let alone = plain-exclusive q p in cc
  plain_body-shared cut (executes args) p l = cc
  plain_body-shared cut (awaits timeout) p l = absurd p

  module _ (Made : Call Float → Type 0) where
    -- The plain methods of a Container under its lock.
    abbrev pub plain_methods : PlainCut → Locked
    plain_methods cut = record {
      State = State L;
      Call = Plain Made;
      Answer = Answer Float;
      run = λ c. run_call L R c.0;
      lock_of = λ c. lock_of c.0;
      Keeps = λ s t. s ≡ t;
      body = λ c. plain_body cut c.0;
      body_whole = λ c s. plain_body-whole cut c.0 s;
      body_shared = λ c l. plain_body-shared cut c.0 c.1.0 l;
    }

    -- The state after whole calls, one after the other; the last call stands first.
    unfoldable pub after_calls : List (Plain Made) → State L → State L
    after_calls [] s = s
    after_calls (c ∷ cs) s = (run_call L R c.0 (after_calls cs s)).1

    abbrev pub HasLockAlone : Plain Made → Type 0
    HasLockAlone c = lock_of c.0 ≡ exclusive

    -- Whole calls that have the lock alone lead from the one state to the other.
    abbrev pub OneByOne : State L → State L → Type 0
    OneByOne s t = (cs : List (Plain Made)) × All HasLockAlone cs × (t ≡ after_calls cs s)

module _ (L : Liblxc) (R : Floats) (Made : Call (R.Float) → Type 0) (cut : PlainCut L R) where
  open R use {Float}

  abbrev M : Locked
  M = plain_methods L R Made cut

  Serial-OneByOne : {s t : State L} → Serial M s t → OneByOne L R Made s t
  unfolding after_calls
  Serial-OneByOne begins = ([], tt, refl)
  Serial-OneByOne (calls_whole c l h) =
      let (cs, alone, e) = Serial-OneByOne h in
      (c ∷ cs, (l, alone), ap (λ t. (run_call L R c.0 t).1) e)
  Serial-OneByOne (reads_on k h) = let (cs, alone, e) = Serial-OneByOne h in (cs, alone, sym k ∙ e)

  -- Goroutines make plain calls of one Container, all of which are `Made`, in any interleaving of the
  -- methods' steps: while no method has the lock alone, the Container, the library's state and the heap
  -- of arrays are what whole calls that are `Made` and have the lock alone leave of the state at the
  -- start, one after the other.
  pub plain_calls-OneByOne :
      {s : State L} {css : List (List (Plain Made))} {t : System M}
      → Reach M s css t
      → t.writing ≡ false
      → OneByOne L R Made s t.state
  plain_calls-OneByOne r w = Serial-OneByOne ((Reach-Settled M r).state_serial w)

  -- A call whose answer and state are those of the whole call, made in a state that whole calls lead to.
  abbrev pub IsAtomic : State L → Plain Made → Answer Float → State L → Type 0
  IsAtomic s c a t = (from : State L) × OneByOne L R Made s from × ((a, t) ≡ run_call L R c.0 from)

  returns_by :
      {s : State L} {css : List (List (Plain Made))} {t : System M} (before after : List (Thread M))
      (c : Plain Made) (a : Answer Float) (found : State L) (cs : List (Plain Made)) (m : Mode)
      → Reach M s css t
      → lock_of c.0 ≡ m
      → t.threads ≡ before ++ inside c (returns a) found cs ∷ after
      → IsAtomic s c a t.state
  returns_by before after c a found cs exclusive r l e =
      let (same, serial) = returns_whole M before after c a found cs r l e in
      (found, Serial-OneByOne serial, same)
  returns_by {t = t} before after c a found cs shared r l e = (
    t.state,
    plain_calls-OneByOne r (sharing M before after c (returns a) found cs r l e),
    answers_whole M (λ s u h. h) before after c a found cs r l e,
  )

  pub plain_calls-IsAtomic :
      {s : State L} {css : List (List (Plain Made))} {t : System M} (before after : List (Thread M))
      (c : Plain Made) (a : Answer Float) (found : State L) (cs : List (Plain Made))
      → Reach M s css t
      → t.threads ≡ before ++ inside c (returns a) found cs ∷ after
      → IsAtomic s c a t.state
  plain_calls-IsAtomic before after c a found cs r e =
      returns_by before after c a found cs (lock_of c.0) r refl e
