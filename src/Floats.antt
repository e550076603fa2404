-- ===== src/Floats.antt =====
-- Go's float64, as a parameter: package strconv's ParseFloat, the verbs %.f and %.2f, and the
-- arithmetic that the byte sizes need.
use go_lxc.Base.{ℤ, Bool, Text, Option}

pub record Floats : Type 1 where
  pub Float : Type 0
  -- `strconv.ParseFloat(s, 64)`; none for an error.
  pub parse_float : Text → Option Float
  -- A constant or an int64 as a float64.
  pub of_ℤ : ℤ → Float
  pub mul : Float → Float → Float
  pub div : Float → Float → Float
  -- `a <= b`
  pub leb : Float → Float → Bool
  -- `fmt.Sprintf("%.f", x)` and `fmt.Sprintf("%.2f", x)`
  pub print_whole : Float → Text
  pub print_cents : Float → Text
