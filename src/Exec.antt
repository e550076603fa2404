-- ===== src/Exec.antt =====
-- How a Go function ends, and the methods as actions on a state: a result with a nil error, values
-- that come with an error, or a fault. `V` is the type of the values that the function returns.
use go_lxc.Base.{Bool, true, false}
use go_lxc.Errors.{Error}

-- What stops the program: a Go panic by an index out of range, a null pointer that C follows.
pub data Fault : Type 0 where
  index_out_of_range null_dereference : Fault

pub data Result (V : Type 0) (A : Type 0) : Type 0 where
  ok : A → Result V A
  err : V → Error → Result V A
  fault : Fault → Result V A

-- An action of a function that returns a `V`, on states `S`.
abbrev pub Exec : Type 0 → Type 0 → Type 0 → Type 0
Exec S V A = S → Result V A × S

abbrev pub pure : {S V A : Type 0} → A → Exec S V A
pure a s = (ok a, s)

-- `return v, e`
abbrev pub fail : {S V A : Type 0} → V → Error → Exec S V A
fail v e s = (err v e, s)

abbrev pub panic : {S V A : Type 0} → Fault → Exec S V A
panic f s = (fault f, s)

infixl 5 ◌>>=◌ ◌>>◌
abbrev pub ◌>>=◌ : {S V A B : Type 0} → Exec S V A → (A → Exec S V B) → Exec S V B
◌>>=◌ m f s =
    let (r, s') = m s in
    elim r [ ok a ↦ f a s' | err v e ↦ (err v e, s') | fault x ↦ (fault x, s') ]

abbrev pub ◌>>◌ : {S V B : Type 0} → Exec S V (Unit {0}) → Exec S V B → Exec S V B
m >> k = m >>= λ _. k

-- `if !b { return v, e }`
abbrev pub unless : {S V : Type 0} → Bool → V → Error → Exec S V (Unit {0})
unless true v e = pure tt
unless false v e = fail v e
