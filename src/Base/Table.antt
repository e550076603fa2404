-- ===== src/Base/Table.antt =====
-- Go's map literals with text keys: association lists, with the zero value for a missing key.
use mathlib.Core.List.{List, [], ◌∷◌}
use mathlib.Core.Option.{Option, none, some}
use go_lxc.Base.Logic.{if◌then◌else◌}
use go_lxc.Base.Strings.{Text, text_eq}

module _ {ℓ} {V : Type ℓ} where
  -- `v, ok := m[k]`
  unfoldable pub lookup : Text → List (Text × V) → Option V
  unfolding text_eq
  lookup k [] = none
  lookup k ((j, v) ∷ m) = if text_eq j k then some v else lookup k m
