-- ===== src/Base/Decimal.antt =====
-- Package strconv and the verb %d of package fmt, on numbers in decimal.
pub mod RoundTrip
use Prim.Native.Nat.{ℕ, zero, suc, ◌+◌, ◌-◌, ◌*◌, ◌/◌, ◌%◌, ◌<◌}
use mathlib.Core.Bool.{◌||◌}
use mathlib.Core.List.{List, [], ◌∷◌, ◌++◌}
use mathlib.Core.Option.{Option, none, some}
use native.Mathlib.Omega.{arith}
use go_lxc.Base.Logic.{ltb, ◌==◌, if◌then◌else◌}
use go_lxc.Base.Integer.{ℤ, pos, negsuc}
use go_lxc.Base.Strings.{Text}

-- The digits of `n`, in front of `out`. Each round divides by ten, so `n` rounds and one suffice.
unfoldable pub digits : ℕ → ℕ → Text → Text
digits zero n out = out
digits (suc f) n out =
    let rest = digits f (n / 10) ((b'0' + n % 10) ∷ out) in
    if ltb n 10 then (b'0' + n) ∷ out else rest

-- `fmt.Sprintf("%d", n)`
unfoldable pub format : ℕ → Text
unfolding digits
format n = digits (suc n) n []

-- The loop of `strconv.Atoi` over the digits; `bound` is the first value out of range.
unfoldable pub scan : ℕ → Text → ℕ → Option ℕ
scan bound [] n = if ltb n bound then some n else none
scan bound (c ∷ s) n =
    let rest = scan bound s (n * 10 + (c - b'0')) in if ltb c b'0' || ltb b'9' c then none else rest

abbrev signed : Option ℕ → Option ℤ
signed none = none
signed (some zero) = some (pos 0)
signed (some (suc n)) = some (negsuc n)

abbrev unsigned : Option ℕ → Option ℤ
unsigned none = none
unsigned (some n) = some (pos n)

-- The digits after the sign; there must be one.
abbrev digits_of : ℕ → Text → Option ℕ
digits_of bound [] = none
digits_of bound (c ∷ s) = scan bound (c ∷ s) 0

-- `strconv.Atoi(s)` and `strconv.ParseInt(s, 10, 64)`, on 64 bits: the number, if there is one.
unfoldable pub atoi : Text → Option ℤ
unfolding scan
atoi [] = none
atoi (c ∷ s) =
    if c == b'-'
    then signed (digits_of 9223372036854775809 s)
    else if c == b'+'
    then unsigned (digits_of 9223372036854775808 s)
    else unsigned (digits_of 9223372036854775808 (c ∷ s))
