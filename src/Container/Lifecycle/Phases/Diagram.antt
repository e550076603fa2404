-- ===== src/Container/Lifecycle/Phases/Diagram.antt =====
-- container.go: the methods of the life cycle, against the diagram.
use go_lxc.Base.{true, false, none, some, ◌≡◌, refl, sym, arith}
use go_lxc.Exec.{ok}
use go_lxc.Liblxc.{Liblxc}
use go_lxc.Liblxc.Laws.{IsLawful}
use go_lxc.Options.{TemplateOptions}
use mathlib.Core.Path.{subst}
use go_lxc.Container.Guards.{make_sure_iff}
use go_lxc.Errors.{sentinel, err_create_failed}
use go_lxc.Container.{State, Action, Method, lend, sure, make_sure, is_not_defined}
use go_lxc.Container.Lifecycle
use go_lxc.Container.Create
use go_lxc.Container.Lifecycle.Phases.{Move, Edge, phase_at, phase, perform}
use go_lxc.Container.Lifecycle.Phases.{create, start, stop, freeze, unfreeze, destroy}
use go_lxc.Container.Lifecycle.Phases.Edges.{
  start_edge, stop_edge, freeze_edge, unfreeze_edge, destroy_edge, create_edge,
}
use go_lxc.Container.Lifecycle.Phases.Steps.{
  held, start_ok, stop_ok, freeze_ok, unfreeze_ok, destroy_ok,
}
use go_lxc.Container.Lifecycle.Phases.Creation.{create_with_ok, guarded_ok}

module _ (L : Liblxc) (laws : IsLawful L) (p : L.Ptr) (s : State L) where
  open L use {Ptr, World, info, life}

  phase_with : (t : State L) → t.handle ≡ some p → phase L t ≡ phase_at L p t.world
  phase_with t e = ground arith

  undefined_of :
      make_sure L is_not_defined (held L p s s.world) ≡ none → info.is_defined p s.world ≡ false
  unfolding go_lxc.Container.defined
  undefined_of h =
      ((make_sure_iff L is_not_defined (held L p s s.world)).0 h).is_not_defined_met refl

  create_ok :
      (o : TemplateOptions)
      → (Create.create L o (held L p s s.world)).0 ≡ ok tt
      → (make_sure L is_not_defined (held L p s s.world) ≡ none)
        × ((Create.create_with L o (Create.create_args o) (held L p s s.world)).0 ≡ ok true)
        × ((Create.create L o (held L p s s.world)).1
            ≡ (Create.create_with L o (Create.create_args o) (held L p s s.world)).1)
  unfolding Create.create make_sure
  create_ok o h =
      guarded_ok is_not_defined (Create.create_with L o (Create.create_args o))
        (sentinel err_create_failed) (held L p s s.world) h

  create_move :
      (o : TemplateOptions)
      → (Create.create L o (held L p s s.world)).0 ≡ ok tt
      → Edge (create o) (phase_at L p s.world) (phase L (Create.create L o (held L p s s.world)).1)
  create_move o h =
      let (fresh, answered, e) = create_ok o h in
      let (there, after) =
        create_with_ok L p s.verbosity s.world
          (λ w. (info.is_defined p w ≡ true) × (info.is_running p w ≡ false)) o
          (Create.create_args o) s.heap
          (λ n b x q argv done. laws.create_made p n b x q argv s.world done) answered in
      rw
        (e, phase_with (Create.create_with L o (Create.create_args o) (held L p s s.world)).1 there)
        (create_edge o _ _ _ _ _ _ (undefined_of fresh) after.0 after.1)

  start_move :
      info.daemonize p s.world ≡ true
      → (Lifecycle.start L (held L p s s.world)).0 ≡ ok tt
      → Edge start (phase_at L p s.world) (phase L (Lifecycle.start L (held L p s s.world)).1)
  start_move d h =
      let (still, done, e) = start_ok L p s s.world h in
      let (runs, awake) = laws.start_ran p false none s.world d done in
      rw (e, laws.start_defined p false none s.world) (start_edge _ _ _ _ _ still runs awake)

  stop_move :
      (Lifecycle.stop L (held L p s s.world)).0 ≡ ok tt
      → Edge stop (phase_at L p s.world) (phase L (Lifecycle.stop L (held L p s s.world)).1)
  stop_move h =
      let (ran, done, e) = stop_ok L p s s.world h in
      rw (e, laws.stop_defined p s.world)
        (stop_edge _ _ _ _ _ ran (laws.stop_stopped p s.world done))

  freeze_move :
      (Lifecycle.freeze L (held L p s s.world)).0 ≡ ok tt
      → Edge freeze (phase_at L p s.world) (phase L (Lifecycle.freeze L (held L p s s.world)).1)
  freeze_move h =
      let (awake, done, e) = freeze_ok L p s s.world h in
      let (ran, runs, cold) = laws.freeze_froze p s.world done in
      rw (e, laws.freeze_defined p s.world) (freeze_edge _ _ _ _ _ ran awake runs cold)

  unfreeze_move :
      (Lifecycle.unfreeze L (held L p s s.world)).0 ≡ ok tt
      → Edge unfreeze (phase_at L p s.world) (phase L (Lifecycle.unfreeze L (held L p s s.world)).1)
  unfreeze_move h =
      let (ran, cold, done, e) = unfreeze_ok L p s s.world h in
      let (same, warm) = laws.unfreeze_thawed p s.world done in
      rw (e, laws.unfreeze_defined p s.world, same) (unfreeze_edge _ _ _ _ ran cold warm)

  destroy_move :
      (Lifecycle.destroy L (held L p s s.world)).0 ≡ ok tt
      → Edge destroy (phase_at L p s.world) (phase L (Lifecycle.destroy L (held L p s s.world)).1)
  destroy_move h =
      let (was, still, done, e) = destroy_ok L p s s.world h in
      rw e (destroy_edge _ _ _ _ _ _ was still (laws.destroy_undefined p s.world done))

  held_follows :
      (m : Move)
      → info.daemonize p s.world ≡ true
      → (perform L m (held L p s s.world)).0 ≡ ok tt
      → Edge m (phase_at L p s.world) (phase L (perform L m (held L p s s.world)).1)
  unfolding perform
  held_follows (create o) d h = create_move o h
  held_follows start d h = start_move d h
  held_follows stop d h = stop_move h
  held_follows freeze d h = freeze_move h
  held_follows unfreeze d h = unfreeze_move h
  held_follows destroy d h = destroy_move h

module _ (L : Liblxc) (laws : IsLawful L) where
  open L use {Ptr, World, info, life}

  -- Over a library that does what it reports, a method of the diagram that returns no error leads a
  -- container that was not released, and is started as a daemon, along an edge of the diagram.
  pub perform-Edge :
      (m : Move) (p : Ptr) (s : State L)
      → s.handle ≡ some p
      → info.daemonize p s.world ≡ true
      → (perform L m s).0 ≡ ok tt
      → Edge m (phase L s) (phase L (perform L m s).1)
  perform-Edge m p s e =
      subst
        (λ o.
          info.daemonize p s.world ≡ true
          → (perform L m (record s { handle = o })).0 ≡ ok tt
          → Edge m (phase L (record s { handle = o }))
              (phase L (perform L m (record s { handle = o })).1))
        (sym e) (held_follows L laws p s m)
