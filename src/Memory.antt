-- ===== src/Memory.antt =====
-- util.go: arrays of C strings in C's heap, as the functions that make, read and free them use it.
pub mod Arrays
pub mod Returned
use go_lxc.Base.{
  ℕ, zero, suc, ◌+◌, ◌≤◌, Bool, true, false, Option, none, some, List, [], ◌∷◌, map, Text, ◌==◌,
  length, take, if◌then◌else◌, ◌≡◌,
}
use go_lxc.Base.Strings.{c_string}

-- What an address holds: a string, or an array of pointers to strings.
pub data Cell : Type 0 where
  string : Text → Cell
  array : List (Option ℕ) → Cell

-- Addresses are given out in order, and none is given out twice.
pub record CHeap : Type 0 where
  pub next : ℕ
  pub cell : ℕ → Option Cell

abbrev pub update : (ℕ → Option Cell) → ℕ → Option Cell → ℕ → Option Cell
update f p v q = if p == q then v else f q

unfoldable pub alloc : Cell → CHeap → ℕ × CHeap
alloc c h = (h.next, record { next = suc h.next; cell = update h.cell h.next (some c) })

-- `free(p)`
unfoldable pub free : ℕ → CHeap → CHeap
free p h = record h { cell = update h.cell p none }

abbrev pub set_at : List (Option ℕ) → ℕ → Option ℕ → List (Option ℕ)
set_at [] i v = []
set_at (x ∷ xs) zero v = v ∷ xs
set_at (x ∷ xs) (suc i) v = x ∷ set_at xs i v

abbrev pub nulls : ℕ → List (Option ℕ)
nulls zero = []
nulls (suc n) = none ∷ nulls n

-- The pointers of the array at an address.
abbrev pub pointers : Option Cell → List (Option ℕ)
pointers (some (array ps)) = ps
pointers _ = []

-- `setArrayString`: array[n] = string
unfoldable pub set_array_string : ℕ → Option ℕ → ℕ → CHeap → CHeap
set_array_string p s n h = record h {
  cell = update h.cell p (some (array (set_at (pointers (h.cell p)) n s)));
}

-- The loop of `makeNullTerminatedArgs` from index `i`, and the write after it.
unfoldable pub fill : ℕ → List Text → ℕ → CHeap → CHeap
unfolding alloc set_array_string
fill p [] i h = set_array_string p none i h
fill p (a ∷ args) i h =
    let (q, h') = alloc (string (c_string a)) h in
    fill p args (suc i) (set_array_string p (some q) i h')

-- `makeNullTerminatedArgs`; the flag says whether `calloc` finds room.
unfoldable pub make_null_terminated_args : Bool → List Text → CHeap → Option ℕ × CHeap
unfolding fill
make_null_terminated_args false args h = (none, h)
make_null_terminated_args true args h =
    let (p, h') = alloc (array (nulls (suc (length args)))) h in (some p, fill p args 0 h')

-- The loop of `freeCharArray` over the pointers; `free` of a null pointer does nothing.
unfoldable pub free_all : List (Option ℕ) → CHeap → CHeap
unfolding free
free_all [] h = h
free_all (none ∷ ps) h = free_all ps h
free_all (some q ∷ ps) h = free_all ps (free q h)

-- `freeNullTerminatedArgs`: the `length + 1` entries and the array.
unfoldable pub free_null_terminated_args : ℕ → ℕ → CHeap → CHeap
unfolding free_all
free_null_terminated_args p len h = free p (free_all (take (suc len) (pointers (h.cell p))) h)

abbrev pub text_at : Option Cell → Text
text_at (some (string s)) = s
text_at _ = []

-- The strings up to the first null pointer, which is what C takes an `argv` to hold.
abbrev pub until_null : List (Option ℕ) → CHeap → List Text
until_null [] h = []
until_null (none ∷ ps) h = []
until_null (some q ∷ ps) h = text_at (h.cell q) ∷ until_null ps h

-- The strings of the array at an address, as C takes them.
unfoldable pub argv_texts : ℕ → CHeap → List Text
argv_texts p h = until_null (pointers (h.cell p)) h
