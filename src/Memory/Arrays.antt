-- ===== src/Memory/Arrays.antt =====
-- util.go: what C reads of an array of strings that was made, and what freeing it leaves.
use go_lxc.Base.{
  ℕ, zero, suc, ◌+◌, ◌≤◌, ◌<◌, true, Option, none, some, List, [], ◌∷◌, map, Text, ◌==◌, length,
  take, if◌then◌else◌, ◌≡◌, ◌≢◌, ◌⊎◌, inl, inr, sym, refl, arith, ◌∙◌, ap, ◌++◌,
}
use go_lxc.Base.Strings.{c_string}
use go_lxc.Memory.{
  Cell, string, array, CHeap, alloc, free, set_at, nulls, pointers, set_array_string, fill,
  make_null_terminated_args, free_all, free_null_terminated_args, until_null, argv_texts,
}

-- The addresses that `n` strings are given from `q` on, and the null pointer after them.
abbrev pub row : ℕ → ℕ → List (Option ℕ)
row zero q = none ∷ []
row (suc n) q = some q ∷ row n (suc q)

-- The heap holds the texts one after the other from `q` on, as C reads them.
abbrev Holds : List Text → ℕ → CHeap → Type 0
Holds [] q h = Unit
Holds (a ∷ args) q h = (h.cell q ≡ some (string (c_string a))) × Holds args (suc q) h

until_null-row :
    (args : List Text) (q : ℕ) (h : CHeap)
    → Holds args q h
    → until_null (row (length args) q) h ≡ map c_string args
until_null-row [] q h k = refl
until_null-row (a ∷ args) q h k = ground (arith, k.0, until_null-row args (suc q) h k.1)

set_at-length :
    (f : List (Option ℕ)) (x : Option ℕ) (xs : List (Option ℕ)) (v : Option ℕ)
    → set_at (f ++ x ∷ xs) (length f) v ≡ f ++ v ∷ xs
set_at-length [] x xs v = refl
set_at-length (y ∷ f) x xs v = ap (λ t. y ∷ t) (set_at-length f x xs v)

snoc_append :
    (f : List (Option ℕ)) (x : Option ℕ) (xs : List (Option ℕ)) → (f ++ x ∷ []) ++ xs ≡ f ++ x ∷ xs
snoc_append [] x xs = refl
snoc_append (y ∷ f) x xs = ap (λ t. y ∷ t) (snoc_append f x xs)

length-snoc : (f : List (Option ℕ)) (x : Option ℕ) → length (f ++ x ∷ []) ≡ suc (length f)
length-snoc [] x = refl
length-snoc (y ∷ f) x = ap suc (length-snoc f x)

-- What the loop of `makeNullTerminatedArgs` leaves, where it begins with the entries `f` set.
pub record Filled (p : ℕ) (f : List (Option ℕ)) (args : List Text) (h k : CHeap) : Type 0 where
  pub array_made : k.cell p ≡ some (array (f ++ row (length args) h.next))
  strings_made : Holds args h.next k
  next_after : k.next ≡ h.next + length args
  others_kept : (q : ℕ) → q ≢ p → (q < h.next) ⊎ (h.next + length args ≤ q) → k.cell q ≡ h.cell q

set_array_string-at :
    (p i : ℕ) (f : List (Option ℕ)) (x : Option ℕ) (xs : List (Option ℕ)) (v : Option ℕ) (h : CHeap)
    → i ≡ length f
    → h.cell p ≡ some (array (f ++ x ∷ xs))
    → (set_array_string p v i h).cell p ≡ some (array (f ++ v ∷ xs))
unfolding set_array_string
set_array_string-at p i f x xs v h l e = ground (arith, e, l, set_at-length f x xs v)

set_array_string-other :
    (p q i : ℕ) (v : Option ℕ) (h : CHeap) → q ≢ p → (set_array_string p v i h).cell q ≡ h.cell q
unfolding set_array_string
set_array_string-other p q i v h ne = ground arith

alloc-other : (c : Cell) (h : CHeap) (q : ℕ) → q ≢ h.next → (alloc c h).1.cell q ≡ h.cell q
unfolding alloc
alloc-other c h q ne = ground arith

alloc-here : (c : Cell) (h : CHeap) → (alloc c h).1.cell h.next ≡ some c
unfolding alloc
alloc-here c h = ground arith

-- The heap after one round of the loop.
unfoldable round : ℕ → Text → ℕ → CHeap → CHeap
unfolding alloc set_array_string
round p a i h = set_array_string p (some h.next) i (alloc (string (c_string a)) h).1

round-array :
    (p i : ℕ) (f xs : List (Option ℕ)) (x : Option ℕ) (a : Text) (h : CHeap)
    → p < h.next
    → i ≡ length f
    → h.cell p ≡ some (array (f ++ x ∷ xs))
    → (round p a i h).cell p ≡ some (array ((f ++ some h.next ∷ []) ++ xs))
unfolding round
round-array p i f xs x a h lt l e =
    set_array_string-at p i f x xs (some h.next) (alloc (string (c_string a)) h).1 l
      (alloc-other _ h p (omega arith) ∙ e)
    ∙ ap (λ t. some (array t)) (sym (snoc_append f (some h.next) xs))

round-string :
    (p i : ℕ) (a : Text) (h : CHeap)
    → p < h.next
    → (round p a i h).cell h.next ≡ some (string (c_string a))
unfolding round
round-string p i a h lt =
    set_array_string-other p h.next i _ (alloc (string (c_string a)) h).1 (omega arith)
    ∙ alloc-here (string (c_string a)) h

round-other :
    (p i : ℕ) (a : Text) (h : CHeap) (q : ℕ)
    → q ≢ p
    → q ≢ h.next
    → (round p a i h).cell q ≡ h.cell q
unfolding round
round-other p i a h q ne far =
    set_array_string-other p q i _ (alloc (string (c_string a)) h).1 ne ∙ alloc-other _ h q far

fill-Filled :
    (p i : ℕ) (f : List (Option ℕ)) (args : List Text) (h : CHeap)
    → p < h.next
    → i ≡ length f
    → h.cell p ≡ some (array (f ++ nulls (suc (length args))))
    → Filled p f args h (fill p args i h)
unfolding fill round alloc set_array_string
fill-Filled p i f [] h lt l e = record {
  array_made = set_array_string-at p i f none [] none h l e;
  strings_made = tt;
  next_after = omega arith;
  others_kept = λ q ne far. set_array_string-other p q i none h ne;
}
fill-Filled p i f (a ∷ args) h lt l e =
    let after =
      fill-Filled p (suc i) (f ++ some h.next ∷ []) args (round p a i h) (omega arith)
        (ap suc l ∙ sym (length-snoc f _)) (round-array p i f _ none a h lt l e) in
    record {
      array_made = after.array_made ∙ ap (λ t. some (array t)) (snoc_append f _ _);
      strings_made = (
        after.others_kept h.next (omega arith) (inl (omega arith)) ∙ round-string p i a h lt,
        after.strings_made,
      );
      next_after = ground (arith, after.next_after);
      others_kept = λ q ne far.
          after.others_kept q ne (ground arith) ∙ round-other p i a h q ne (ground arith);
    }

-- What `makeNullTerminatedArgs` makes, where `calloc` finds room.
pub make-Filled :
    (args : List Text) (h : CHeap)
    → Filled h.next [] args
        (alloc (array (nulls (suc (length args)))) h).1
        (make_null_terminated_args true args h).1
unfolding make_null_terminated_args alloc
make-Filled args h = fill-Filled h.next 0 [] args _ (omega arith) refl (alloc-here _ h)

-- What C reads of an array that `makeNullTerminatedArgs` made, where `calloc` finds room, is the list of
-- the strings, each up to its first NUL.
pub argv_texts-make :
    (args : List Text) (h : CHeap)
    → argv_texts h.next (make_null_terminated_args true args h).1 ≡ map c_string args
unfolding argv_texts alloc
argv_texts-make args h =
    let made = make-Filled args h in
    ap (λ c. until_null (pointers c) (make_null_terminated_args true args h).1) made.array_made
    ∙ until_null-row args (suc h.next) _ made.strings_made

-- The loop of `freeCharArray` over such entries frees the strings, and nothing else.
free_all-row :
    (n q : ℕ) (k : CHeap) (r : ℕ)
    → ((q ≤ r) × (r < q + n) → (free_all (row n q) k).cell r ≡ none)
      × ((r < q) ⊎ (q + n ≤ r) → (free_all (row n q) k).cell r ≡ k.cell r)
unfolding free_all
free_all-row zero q k r = (λ h. absurd (omega arith), λ h. refl)
free_all-row (suc n) q k r = unfold free in ground (arith, free_all-row n (suc q) (free q k) r)

take-row : (n q : ℕ) → take (suc n) (row n q) ≡ row n q
take-row zero q = refl
take-row (suc n) q = ap (λ t. some q ∷ t) (take-row n (suc q))

-- Nothing lies at an address that was not given out.
abbrev pub IsFresh : CHeap → Type 0
IsFresh h = (r : ℕ) → h.next ≤ r → h.cell r ≡ none

free-cell : (p : ℕ) (k : CHeap) (r : ℕ) → (free p k).cell r ≡ (if p == r then none else k.cell r)
unfolding free
free-cell p k r = refl

module _ (args : List Text) (h : CHeap) where
  abbrev after_make : CHeap
  after_make = (make_null_terminated_args true args h).1

  free_null_terminated_args-make :
      free_null_terminated_args h.next (length args) after_make
      ≡ free h.next (free_all (row (length args) (suc h.next)) after_make)
  unfolding free_null_terminated_args alloc
  free_null_terminated_args-make =
      ap (λ c. free h.next (free_all (take (suc (length args)) (pointers c)) after_make))
        (make-Filled args h).array_made
      ∙ ap (λ t. free h.next (free_all t after_make)) (take-row (length args) (suc h.next))

  make-other :
      (r : ℕ) → (r < h.next) ⊎ (suc h.next + length args ≤ r) → after_make.cell r ≡ h.cell r
  unfolding alloc
  make-other r far =
      (make-Filled args h).others_kept r (ground arith) (ground arith)
      ∙ alloc-other _ h r (ground arith)

  -- `freeNullTerminatedArgs` after `makeNullTerminatedArgs`, where `calloc` finds room, leaves no string
  -- and no array behind: every address holds what it held before the array was made, if there was
  -- nothing at the addresses that were not given out.
  pub free-make :
      IsFresh h
      → (r : ℕ) → (free_null_terminated_args h.next (length args) after_make).cell r ≡ h.cell r
  free-make fresh r =
      let rows = free_all-row (length args) (suc h.next) after_make r in
      rw
        (
          free_null_terminated_args-make,
          free-cell h.next (free_all (row (length args) (suc h.next)) after_make) r,
        )
        (ground (arith, rows.0, rows.1, make-other r, fresh r))

-- Two heaps that hold the same at every address.
abbrev pub SameCells : CHeap → CHeap → Type 0
SameCells k m = (r : ℕ) → k.cell r ≡ m.cell r

free_all-SameCells :
    (ps : List (Option ℕ)) (k m : CHeap) → SameCells k m → SameCells (free_all ps k) (free_all ps m)
unfolding free_all
free_all-SameCells [] k m same = same
free_all-SameCells (none ∷ ps) k m same = free_all-SameCells ps k m same
free_all-SameCells (some q ∷ ps) k m same =
    free_all-SameCells ps (free q k) (free q m)
      (λ r. free-cell q k r ∙ ap (λ c. if q == r then none else c) (same r) ∙ sym (free-cell q m r))

free_null_terminated_args-SameCells :
    (p len : ℕ) (k m : CHeap)
    → SameCells k m
    → SameCells (free_null_terminated_args p len k) (free_null_terminated_args p len m)
unfolding free_null_terminated_args
free_null_terminated_args-SameCells p len k m same r =
    free-cell p (free_all (take (suc len) (pointers (k.cell p))) k) r
    ∙ ap (λ c. if p == r then none else c)
        (ap (λ c. (free_all (take (suc len) (pointers c)) k).cell r) (same p)
          ∙ free_all-SameCells (take (suc len) (pointers (m.cell p))) k m same r)
    ∙ sym (free-cell p (free_all (take (suc len) (pointers (m.cell p))) m) r)

make-next :
    (args : List Text) (h : CHeap)
    → (make_null_terminated_args true args h).1.next ≡ suc h.next + length args
unfolding alloc
make-next args h = (make-Filled args h).next_after

-- After the array is made there is nothing where nothing was given out.
pub make-IsFresh :
    (args : List Text) (h : CHeap) → IsFresh h → IsFresh (make_null_terminated_args true args h).1
make-IsFresh args h fresh r far =
    let next = make-next args h in make-other args h r (inr (omega arith)) ∙ fresh r (omega arith)

-- An array that is freed after a heap with the same cells was worked on.
pub free-make-SameCells :
    (args : List Text) (h k : CHeap)
    → IsFresh h
    → SameCells k (make_null_terminated_args true args h).1
    → SameCells (free_null_terminated_args h.next (length args) k) h
free-make-SameCells args h k fresh same r =
    free_null_terminated_args-SameCells h.next (length args) k _ same r ∙ free-make args h fresh r
