-- ===== src/Memory/Returned.antt =====
-- util.go: `convertArgs` and `convertNArgs`, on arrays of C strings that the library hands over.
use mathlib.Core.Path.{subst}
use go_lxc.Base.{
  ℕ, zero, suc, ◌≤◌, ℤ, pos, negsuc, Option, none, some, List, [], ◌∷◌, Text, ◌≡◌, refl, sym, ◌∙◌,
  true, length, ap, map, arith, leb, if◌then◌else◌,
}
use go_lxc.Base.Strings.{c_string}
use go_lxc.Memory.{
  CHeap, pointers, text_at, until_null, argv_texts, make_null_terminated_args, alloc,
}
use go_lxc.Memory.Arrays.{row, make-Filled, argv_texts-make}

-- One more than a number that was counted.
abbrev pub one_more : Option ℕ → Option ℕ
one_more none = none
one_more (some n) = some (suc n)

-- How many pointers stand before the first null pointer; none for a read past the array.
abbrev pub before_null : List (Option ℕ) → Option ℕ
before_null [] = none
before_null (none ∷ ps) = some 0
before_null (some q ∷ ps) = one_more (before_null ps)

-- `getArrayLength`
unfoldable pub get_array_length : ℕ → CHeap → Option ℕ
get_array_length p h = before_null (pointers (h.cell p))

-- `C.GoString(s)` of a pointer.
abbrev pub go_string_at : Option ℕ → CHeap → Text
go_string_at none h = []
go_string_at (some q) h = text_at (h.cell q)

abbrev pub followed_by : Text → Option (List Text) → Option (List Text)
followed_by v none = none
followed_by v (some vs) = some (v ∷ vs)

-- The loop of `convertNArgs`; none for a read past the array.
unfoldable pub read_n : ℕ → List (Option ℕ) → CHeap → Option (List Text)
read_n zero ps h = some []
read_n (suc n) [] h = none
read_n (suc n) (p ∷ ps) h = followed_by (go_string_at p h) (read_n n ps h)

-- The length of the array type that `convertNArgs` takes a slice of.
abbrev pub most_pointers : ℕ
most_pointers = 0x1fff_ffff

-- `convertNArgs`; a slice that is longer than that array is a panic.
unfoldable pub convert_n_args : Option ℕ → ℤ → CHeap → Option (List Text)
unfolding read_n
convert_n_args none size h = some []
convert_n_args (some p) (pos n) h =
    let strings = read_n n (pointers (h.cell p)) h in if leb n most_pointers then strings else none
convert_n_args (some p) (negsuc n) h = some []

-- The call of `convertNArgs` for a length that was counted.
abbrev pub convert_counted : ℕ → Option ℕ → CHeap → Option (List Text)
convert_counted p none h = none
convert_counted p (some n) h = convert_n_args (some p) (pos n) h

-- `convertArgs`
unfoldable pub convert_args : Option ℕ → CHeap → Option (List Text)
unfolding convert_n_args get_array_length
convert_args none h = some []
convert_args (some p) h = convert_counted p (get_array_length p h) h

-- The array ends with a null pointer, or has one.
abbrev pub HasNull : List (Option ℕ) → Type 0
HasNull [] = ⊥
HasNull (none ∷ ps) = Unit
HasNull (some q ∷ ps) = HasNull ps

-- The two loops, for the pointers.
abbrev reads : Option ℕ → List (Option ℕ) → CHeap → Option (List Text)
reads none ps h = none
reads (some n) ps h = read_n n ps h

reads-one_more :
    (m : Option ℕ) (q : ℕ) (ps : List (Option ℕ)) (h : CHeap)
    → reads (one_more m) (some q ∷ ps) h ≡ followed_by (text_at (h.cell q)) (reads m ps h)
unfolding read_n
reads-one_more none q ps h = refl
reads-one_more (some n) q ps h = refl

reads-before_null :
    (ps : List (Option ℕ)) (h : CHeap)
    → HasNull ps
    → reads (before_null ps) ps h ≡ some (until_null ps h)
unfolding read_n
reads-before_null [] h e = absurd e
reads-before_null (none ∷ ps) h e = refl
reads-before_null (some q ∷ ps) h e =
    reads-one_more (before_null ps) q ps h
    ∙ ap (followed_by (text_at (h.cell q))) (reads-before_null ps h e)

convert_counted-reads :
    (p : ℕ) (m : Option ℕ) (n : ℕ) (h : CHeap)
    → m ≡ some n
    → n ≤ most_pointers
    → convert_counted p m h ≡ reads m (pointers (h.cell p)) h
unfolding convert_n_args
convert_counted-reads p none n h e l = refl
convert_counted-reads p (some k) n h e l = ground (arith, e, l)

-- Of an array that has a null pointer after at most `most_pointers` others, the two passes of
-- `convertArgs`, one that counts and one that reads, come to one pass up to the null pointer, and do not
-- read past the array.
pub convert_args-argv_texts :
    (p n : ℕ) (h : CHeap)
    → HasNull (pointers (h.cell p))
    → get_array_length p h ≡ some n
    → n ≤ most_pointers
    → convert_args (some p) h ≡ some (argv_texts p h)
unfolding convert_args argv_texts get_array_length
convert_args-argv_texts p n h e c l =
    convert_counted-reads p _ n h c l ∙ reads-before_null (pointers (h.cell p)) h e

HasNull-row : (n q : ℕ) → HasNull (row n q)
HasNull-row zero q = tt
HasNull-row (suc n) q = HasNull-row n (suc q)

-- The arrays that the package makes have a null pointer.
pub make-HasNull :
    (args : List Text) (h : CHeap)
    → HasNull (pointers ((make_null_terminated_args true args h).1.cell h.next))
unfolding alloc
make-HasNull args h =
    subst (λ c. HasNull (pointers c)) (sym (make-Filled args h).array_made)
      (HasNull-row (length args) (suc h.next))

before_null-row : (n q : ℕ) → before_null (row n q) ≡ some n
before_null-row zero q = refl
before_null-row (suc n) q = ap one_more (before_null-row n (suc q))

pub get_array_length-make :
    (args : List Text) (h : CHeap)
    → get_array_length h.next (make_null_terminated_args true args h).1 ≡ some (length args)
unfolding get_array_length alloc
get_array_length-make args h =
    ap (λ c. before_null (pointers c)) (make-Filled args h).array_made
    ∙ before_null-row (length args) (suc h.next)

-- What `convertArgs` makes of an array that `makeNullTerminatedArgs` made, where `calloc` finds room: the
-- strings, each up to its first NUL, if there are at most as many as the slice of `convertNArgs` holds.
pub convert_args-make :
    (args : List Text) (h : CHeap)
    → length args ≤ most_pointers
    → convert_args (some h.next) (make_null_terminated_args true args h).1
      ≡ some (map c_string args)
convert_args-make args h few =
    convert_args-argv_texts h.next (length args) (make_null_terminated_args true args h).1
      (make-HasNull args h) (get_array_length-make args h) few
    ∙ ap some (argv_texts-make args h)

-- What the library does to hand over an array of strings that ends with a null pointer.
abbrev pub Hand : Type 0
Hand = List Text → CHeap → ℕ × CHeap

-- The array lies at an address that was not given out, has a null pointer after as many others as there
-- are strings, and holds the strings; the caller has to free it.
pub record HandsOver (hand : Hand) : Type 0 where
  pub at_new : (names : List Text) (h : CHeap) → h.next ≤ (hand names h).0
  pub has_null :
      (names : List Text) (h : CHeap) → HasNull (pointers ((hand names h).1.cell (hand names h).0))
  pub counts :
      (names : List Text) (h : CHeap)
      → get_array_length (hand names h).0 (hand names h).1 ≡ some (length names)
  pub holds :
      (names : List Text) (h : CHeap)
      → argv_texts (hand names h).0 (hand names h).1 ≡ map c_string names
