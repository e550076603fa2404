-- ===== src/Base/Strings.antt =====
-- Go's strings as lists of code points (of valid UTF-8), and what the sources use of the package
-- `strings`: TrimSpace, Split, Replace with n = 1, HasSuffix. C's strings end at the first NUL.
pub mod Laws
pub mod Trim
use Prim.Native.Nat.{ℕ, zero, suc, pred}
use Prim.Native.Char.{code}
use Prim.Native.String.{String}
use mathlib.Core.Path.{◌≡◌, refl}
use mathlib.Core.Bool.{Bool, true, false, ◌&&◌, ◌||◌}
use mathlib.Core.List.{List, [], ◌∷◌, ◌++◌, reverse}
use mathlib.Core.Option.{Option, none, some}
use native.Mathlib.Omega.{arith}
use go_lxc.Base.Lists.{length}
use go_lxc.Base.Logic.{leb, ◌==◌, if◌then◌else◌}

abbrev pub Text : Type 0
Text = List ℕ

-- The code points of a literal.
abbrev pub codes : String → Text
codes String.[] = []
codes (String.◌∷◌ c s) = code c ∷ codes s

unfoldable pub text_eq : Text → Text → Bool
text_eq [] [] = true
text_eq [] (d ∷ t) = false
text_eq (c ∷ s) [] = false
text_eq (c ∷ s) (d ∷ t) = c == d && text_eq s t

pub text_eq_refl : (s : Text) → text_eq s s ≡ true
unfolding text_eq
text_eq_refl [] = refl
text_eq_refl (c ∷ s) = ground (arith, text_eq_refl s)

pub text_eq_sound : (s t : Text) → text_eq s t ≡ true → s ≡ t
unfolding text_eq
text_eq_sound [] [] h = refl
text_eq_sound [] (d ∷ t) h = ground arith
text_eq_sound (c ∷ s) [] h = ground arith
text_eq_sound (c ∷ s) (d ∷ t) h = ground (arith, text_eq_sound s t)

-- What C reads of `C.CString(s)`: the text up to the first NUL.
unfoldable pub c_string : Text → Text
c_string [] = []
c_string (c ∷ s) = let rest = c_string s in if c == 0 then [] else c ∷ rest

-- `C.GoString(p)`; of a null pointer it is the empty string.
abbrev pub go_string : Option Text → Text
go_string none = []
go_string (some s) = s

-- `unicode.IsSpace`
unfoldable pub is_space : ℕ → Bool
is_space c =
    (leb 9 c && leb c 13)
    || c == 32
    || c == 0x85
    || c == 0xa0
    || c == 0x1680
    || (leb 0x2000 c && leb c 0x200a)
    || c == 0x2028
    || c == 0x2029
    || c == 0x202f
    || c == 0x205f
    || c == 0x3000

unfoldable pub trim_left : Text → Text
trim_left [] = []
trim_left (c ∷ s) = let rest = trim_left s in if is_space c then rest else c ∷ s

-- The text without its trailing spaces.
unfoldable pub trim_right : Text → Text
trim_right [] = []
trim_right (c ∷ s) = elim (trim_right s) [
  | [] ↦ if is_space c then [] else c ∷ []
  | d ∷ t ↦ c ∷ d ∷ t
]

-- `strings.TrimSpace`
unfoldable pub trim_space : Text → Text
unfolding trim_left trim_right is_space
trim_space s = trim_right (trim_left s)

-- `strings.Split(s, sep)` for a separator of one character; `cur` holds the part read so far.
unfoldable pub split_from : ℕ → Text → Text → List Text
split_from sep cur [] = cur ∷ []
split_from sep cur (c ∷ s) = elim (c == sep) [
  | true ↦ cur ∷ split_from sep [] s
  | false ↦ split_from sep (cur ++ c ∷ []) s
]

unfoldable pub split : Text → ℕ → List Text
unfolding split_from
split s sep = split_from sep [] s

-- What follows the prefix `p` of `s`, if `s` begins with it.
unfoldable pub strip_prefix : Text → Text → Option Text
strip_prefix [] s = some s
strip_prefix (d ∷ p) [] = none
strip_prefix (d ∷ p) (c ∷ s) = let rest = strip_prefix p s in if c == d then rest else none

-- `strings.Replace(s, old, new, 1)` for a text `old` that is not empty.
unfoldable pub replace_first : Text → Text → Text → Text
unfolding strip_prefix
replace_first [] old new = []
replace_first (c ∷ s) old new = elim (strip_prefix old (c ∷ s)) [
  | none ↦ c ∷ replace_first s old new
  | some rest ↦ new ++ rest
]

-- `strings.HasSuffix(s, suffix)`, and then `s[:len(s)-len(suffix)]`.
unfoldable pub strip_suffix : Text → Text → Option Text
unfolding text_eq
strip_suffix suffix [] = elim suffix [ [] ↦ some [] | _ ↦ none ]
strip_suffix suffix (c ∷ s) =
    if text_eq suffix (c ∷ s)
    then some []
    else elim (strip_suffix suffix s) [ none ↦ none | some front ↦ some (c ∷ front) ]

-- `strings.Split(s, sep)` for a separator that is not empty; `skip` characters of one are left.
unfoldable pub split_text_from : Text → ℕ → Text → Text → List Text
unfolding strip_prefix
split_text_from sep skip cur [] = cur ∷ []
split_text_from sep (suc skip) cur (c ∷ s) = split_text_from sep skip cur s
split_text_from sep zero cur (c ∷ s) = elim (strip_prefix sep (c ∷ s)) [
  | none ↦ split_text_from sep zero (cur ++ c ∷ []) s
  | some _ ↦ cur ∷ split_text_from sep (pred (length sep)) [] s
]

unfoldable pub split_text : Text → Text → List Text
unfolding split_text_from
split_text sep s = split_text_from sep 0 [] s
