-- ===== src/Container/Lifecycle/Phases/Edges.antt =====
-- The edges of the life cycle's diagram, by what the library answers before and after a method.
use go_lxc.Base.{Bool, true, false, ◌≡◌}
use go_lxc.Options.{TemplateOptions}
use go_lxc.Container.Lifecycle.Phases.{Edge, phase_by}
use go_lxc.Container.Lifecycle.Phases.{
  create, start, stop, freeze, unfreeze, destroy, made, started, started_absent, ended,
  ended_frozen, ended_absent, froze, froze_absent, thawed, thawed_absent, destroyed,
}

-- What the answers before and after say of the phases.
pub start_edge :
    (d r f r' f' : Bool)
    → r ≡ false
    → r' ≡ true
    → f' ≡ false
    → Edge start (phase_by d r f) (phase_by d r' f')
start_edge true false f true false _ _ _ = started
start_edge false r f r' f' _ _ _ = started_absent
start_edge true true f r' f' h _ _ = cc
start_edge true false f false f' _ h _ = cc
start_edge true false f true true _ _ h = cc

pub stop_edge :
    (d r f r' f' : Bool) → r ≡ true → r' ≡ false → Edge stop (phase_by d r f) (phase_by d r' f')
stop_edge true true false false f' _ _ = ended
stop_edge true true true false f' _ _ = ended_frozen
stop_edge false r f r' f' _ _ = ended_absent
stop_edge true false f r' f' h _ = cc
stop_edge true true f true f' _ h = cc

pub freeze_edge :
    (d r f r' f' : Bool)
    → r ≡ true
    → f ≡ false
    → r' ≡ true
    → f' ≡ true
    → Edge freeze (phase_by d r f) (phase_by d r' f')
freeze_edge true true false true true _ _ _ _ = froze
freeze_edge false r f r' f' _ _ _ _ = froze_absent
freeze_edge true false f r' f' h _ _ _ = cc
freeze_edge true true true r' f' _ h _ _ = cc
freeze_edge true true false false f' _ _ h _ = cc
freeze_edge true true false true false _ _ _ h = cc

pub unfreeze_edge :
    (d r f f' : Bool)
    → r ≡ true
    → f ≡ true
    → f' ≡ false
    → Edge unfreeze (phase_by d r f) (phase_by d r f')
unfreeze_edge true true true false _ _ _ = thawed
unfreeze_edge false r f f' _ _ _ = thawed_absent
unfreeze_edge true false f f' h _ _ = cc
unfreeze_edge true true false f' _ h _ = cc
unfreeze_edge true true true true _ _ h = cc

pub destroy_edge :
    (d r f d' r' f' : Bool)
    → d ≡ true
    → r ≡ false
    → d' ≡ false
    → Edge destroy (phase_by d r f) (phase_by d' r' f')
destroy_edge true false f false r' f' _ _ _ = destroyed
destroy_edge false r f d' r' f' h _ _ = cc
destroy_edge true true f d' r' f' _ h _ = cc
destroy_edge true false f true r' f' _ _ h = cc

pub create_edge :
    (o : TemplateOptions) (d r f d' r' f' : Bool)
    → d ≡ false
    → d' ≡ true
    → r' ≡ false
    → Edge (create o) (phase_by d r f) (phase_by d' r' f')
create_edge o false r f true false f' _ _ _ = made o
create_edge o true r f d' r' f' h _ _ = cc
create_edge o false r f false r' f' _ h _ = cc
create_edge o false r f true true f' _ _ h = cc
