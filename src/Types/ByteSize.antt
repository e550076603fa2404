-- ===== src/Types/ByteSize.antt =====
-- type.go, `ByteSize`: the units, `String` and `ParseBytes`, over Go's float64 and the tables of the
-- package unicode, which are parameters.
pub mod Parsing
use Prim.Native.String.{String}
use go_lxc.Base.{
  ℕ, ◌^◌, pos, Bool, true, false, Option, none, some, List, [], ◌∷◌, ◌++◌, Text, codes, lookup,
  if◌then◌else◌,
}
use go_lxc.Base.Strings.{trim_space}
use go_lxc.Errors.{Error, plain, bad_number}
use go_lxc.Exec.{Result, ok, err}
use go_lxc.Floats.{Floats}

-- `unicode.IsDigit` and `strings.ToUpper`
pub record Unicode : Type 0 where
  pub is_digit : ℕ → Bool
  pub to_upper : Text → Text

-- The constant `B` is `iota`, which is 0 there.
abbrev pub bytes : ℕ
bytes = 0

-- The unit number `k`, from `KB`, number 1, on: 1 << (10 * iota).
abbrev pub unit_at : ℕ → ℕ
unit_at k = 1024 ^ k

-- `unitMap`
abbrev pub unit_map : List (Text × ℕ)
unit_map =
    (codes "B", bytes)
    ∷ (codes "BYTE", bytes)
    ∷ (codes "BYTES", bytes)
    ∷ (codes "KB", unit_at 1)
    ∷ (codes "KILOBYTE", unit_at 1)
    ∷ (codes "KILOBYTES", unit_at 1)
    ∷ (codes "MB", unit_at 2)
    ∷ (codes "MEGABYTE", unit_at 2)
    ∷ (codes "MEGABYTES", unit_at 2)
    ∷ (codes "GB", unit_at 3)
    ∷ (codes "GIGABYTE", unit_at 3)
    ∷ (codes "GIGABYTES", unit_at 3)
    ∷ (codes "TB", unit_at 4)
    ∷ (codes "TERABYTE", unit_at 4)
    ∷ (codes "TERABYTES", unit_at 4)
    ∷ (codes "PB", unit_at 5)
    ∷ (codes "PETABYTE", unit_at 5)
    ∷ (codes "PETABYTES", unit_at 5)
    ∷ (codes "EB", unit_at 6)
    ∷ (codes "EXABYTE", unit_at 6)
    ∷ (codes "EXABYTES", unit_at 6)
    ∷ []

module _ (U : Unicode) where
  -- The parts of the text before and from the first character that is no digit on.
  unfoldable pub split_number : Text → Option (Text × Text)
  split_number [] = none
  split_number (c ∷ s) =
      let rest = split_number s in
      if U.is_digit c
      then elim rest [ none ↦ none | some parts ↦ some (c ∷ parts.0, parts.1) ]
      else some ([], c ∷ s)

module _ (U : Unicode) (R : Floats) where
  open R use {Float, parse_float, of_ℤ, mul, div, leb, print_cents}

  -- What `ParseBytes` makes of the number's text and the unit.
  unfoldable pub scaled : Text → ℕ → Result Float Float
  scaled number unit = elim (parse_float number) [
    | none ↦ err (of_ℤ (pos 0)) (bad_number number)
    | some value ↦ ok (mul value (of_ℤ (pos unit)))
  ]

  -- What it makes of the number's text and the suffix, for the suffix's place in `unitMap`.
  unfoldable pub with_unit : Text → Text → Option ℕ → Result Float Float
  unfolding scaled
  with_unit number suffix none =
      err (of_ℤ (pos 0)) (plain (codes "Unrecognized size suffix " ++ suffix))
  with_unit number suffix (some unit) = scaled number unit

  -- What it makes of the parts of the text.
  unfoldable pub of_parts : Option (Text × Text) → Result Float Float
  unfolding trim_space with_unit lookup
  of_parts none = err (of_ℤ (pos 0)) (plain (codes "Unrecognized size suffix"))
  of_parts (some (number, suffix)) =
      with_unit (trim_space number) (trim_space suffix)
        (lookup (U.to_upper (trim_space suffix)) unit_map)

  -- `ParseBytes`
  unfoldable pub parse_bytes : Text → Result Float Float
  unfolding trim_space split_number of_parts
  parse_bytes s = of_parts (split_number U (trim_space s))

module _ (R : Floats) where
  open R use {Float, of_ℤ, div, leb, print_cents}

  -- A unit that `String` prints in, if the size reaches it, and else what follows.
  abbrev printed : Float → ℕ → String → Text → Text
  printed b unit name rest =
      let u = of_ℤ (pos unit) in if leb u b then print_cents (div b u) ++ codes name else rest

  -- `ByteSize.String`
  unfoldable pub byte_size_string : Float → Text
  byte_size_string b = printed b (unit_at 8) "YB" (
      printed b (unit_at 7) "ZB" (
        printed b (unit_at 6) "EB" (
          printed b (unit_at 5) "PB" (
            printed b (unit_at 4) "TB" (
              printed b (unit_at 3) "GB" (
                printed b (unit_at 2) "MB"
                  (printed b (unit_at 1) "KB" (print_cents b ++ codes "B"))))))))
