-- ===== src/Container/Lifecycle/Phases.antt =====
-- The life cycle as a diagram: what a container is to its caller, and where a method that reports
-- success can lead.
mod Edges
mod Creation
mod Steps
pub mod Diagram
use go_lxc.Base.{
  ℕ, Bool, true, false, not, Option, none, some, List, [], ◌∷◌, Text, ◌≡◌, refl, sym, arith, ◌==◌,
  if◌then◌else◌,
}
use go_lxc.Base.Strings.{go_string}
use go_lxc.Exec.{Result, ok, err, fault, unless, ◌>>=◌}
use go_lxc.Liblxc.{Liblxc, BdevSpecs}
use go_lxc.Liblxc.Laws.{IsLawful, is_frozen}
use go_lxc.Options.{TemplateOptions}
use mathlib.Core.Path.{subst}
use go_lxc.Container.Guards.{make_sure_iff}
use go_lxc.Errors.{Error, sentinel, err_create_failed}
use go_lxc.Memory.{CHeap}
use go_lxc.Container.{State, Action, Method, lend, sure, make_sure, is_not_defined}
use go_lxc.Container.Lifecycle
use go_lxc.Container.Create

pub data Phase : Type 0 where
  absent stopped running frozen : Phase

-- The methods of the diagram.
pub data Move : Type 0 where
  create : TemplateOptions → Move
  start stop freeze unfreeze destroy : Move

-- A container that is not defined can still be started and stopped, and stays absent.
pub data Edge : Move → Phase → Phase → Type 0 where
  made : (o : TemplateOptions) → Edge (create o) absent stopped
  started : Edge start stopped running
  started_absent : Edge start absent absent
  ended : Edge stop running stopped
  ended_frozen : Edge stop frozen stopped
  ended_absent : Edge stop absent absent
  froze : Edge freeze running frozen
  froze_absent : Edge freeze absent absent
  thawed : Edge unfreeze frozen running
  thawed_absent : Edge unfreeze absent absent
  destroyed : Edge destroy stopped absent

-- The phase by the three answers.
abbrev pub phase_by : Bool → Bool → Bool → Phase
phase_by false r f = absent
phase_by true false f = stopped
phase_by true true false = running
phase_by true true true = frozen

module _ (L : Liblxc) where
  open L use {Ptr, World, info, life}

  abbrev pub phase_at : Ptr → World → Phase
  phase_at p w = phase_by (info.is_defined p w) (info.is_running p w) (is_frozen L p w)

  abbrev pub phase : State L → Phase
  phase s = elim s.handle [ none ↦ absent | some p ↦ phase_at p s.world ]

  unfoldable pub perform : Move → Action L
  perform (create o) = Create.create L o
  perform start = Lifecycle.start L
  perform stop = Lifecycle.stop L
  perform freeze = Lifecycle.freeze L
  perform unfreeze = Lifecycle.unfreeze L
  perform destroy = Lifecycle.destroy L
