-- ===== src/Types/State.antt =====
-- type.go, `State`: the constants, `StateMap` and `String`.
use go_lxc.Base.{
  ℕ, ◌≤◌, ◌≡◌, refl, zero, suc, none, some, List, [], ◌∷◌, Text, codes, ◌==◌, if◌then◌else◌, lookup,
  arith,
}

abbrev pub stopped : ℕ
stopped = 1

abbrev pub starting : ℕ
starting = 2

abbrev pub running : ℕ
running = 3

abbrev pub stopping : ℕ
stopping = 4

abbrev pub aborting : ℕ
aborting = 5

abbrev pub freezing : ℕ
freezing = 6

abbrev pub frozen : ℕ
frozen = 7

abbrev pub thawed : ℕ
thawed = 8

-- `State.String`
unfoldable pub state_string : ℕ → Text
state_string t =
    if t == stopped
    then codes "STOPPED"
    else if t == starting
    then codes "STARTING"
    else if t == running
    then codes "RUNNING"
    else if t == stopping
    then codes "STOPPING"
    else if t == aborting
    then codes "ABORTING"
    else if t == freezing
    then codes "FREEZING"
    else if t == frozen
    then codes "FROZEN"
    else if t == thawed
    then codes "THAWED"
    else []

-- `StateMap`
abbrev pub state_map : List (Text × ℕ)
state_map =
    (codes "STOPPED", stopped)
    ∷ (codes "STARTING", starting)
    ∷ (codes "RUNNING", running)
    ∷ (codes "STOPPING", stopping)
    ∷ (codes "ABORTING", aborting)
    ∷ (codes "FREEZING", freezing)
    ∷ (codes "FROZEN", frozen)
    ∷ (codes "THAWED", thawed)
    ∷ []

-- `StateMap[name]`, which is 0 for a name that the map lacks.
unfoldable pub state_of : Text → ℕ
unfolding lookup
state_of name = elim (lookup name state_map) [ some s ↦ s | none ↦ 0 ]

-- The name of each of the eight states leads back to it.
pub state_of-state_string : (s : ℕ) → 1 ≤ s → s ≤ 8 → state_of (state_string s) ≡ s
unfolding state_of state_string
state_of-state_string zero h k = absurd (omega arith)
state_of-state_string (suc zero) h k = refl
state_of-state_string (suc (suc zero)) h k = refl
state_of-state_string (suc (suc (suc zero))) h k = refl
state_of-state_string (suc (suc (suc (suc zero)))) h k = refl
state_of-state_string (suc (suc (suc (suc (suc zero))))) h k = refl
state_of-state_string (suc (suc (suc (suc (suc (suc zero)))))) h k = refl
state_of-state_string (suc (suc (suc (suc (suc (suc (suc zero))))))) h k = refl
state_of-state_string (suc (suc (suc (suc (suc (suc (suc (suc zero)))))))) h k = refl
state_of-state_string (suc (suc (suc (suc (suc (suc (suc (suc (suc n))))))))) h k =
    absurd (omega arith)
