-- ===== src/Base/Decimal/RoundTrip.antt =====
-- Numbers that are printed in decimal, and read.
use Prim.Native.Nat.{ℕ, zero, suc, ◌+◌, ◌-◌, ◌*◌, ◌/◌, ◌%◌, ◌≤◌, ◌<◌}
use mathlib.Core.Path.{◌≡◌, refl, ◌∙◌, ap}
use mathlib.Core.Logic.{◌≢◌, ◌⊎◌}
use mathlib.Core.List.{[], ◌∷◌}
use mathlib.Core.Option.{some}
use native.Mathlib.Omega.{arith}
use go_lxc.Base.Lists.{All}
use go_lxc.Base.Integer.{pos}
use go_lxc.Base.Strings.{Text}
use go_lxc.Base.Strings.Laws.{Lacks}
use go_lxc.Base.Decimal.{digits, format, scan, atoi}

-- A decimal digit.
abbrev pub IsDigit : ℕ → Type 0
IsDigit c = (b'0' ≤ c) × (c ≤ b'9')

scan-digits :
    (bound f n : ℕ) (out : Text) → n < f → scan bound (digits f n out) 0 ≡ scan bound out n
unfolding digits scan
scan-digits bound zero n out h = absurd (omega arith)
scan-digits bound (suc f) n out h = ground (
  arith,
  scan-digits bound f (n / 10) ((b'0' + n % 10) ∷ out),
  ap (scan bound out) (lead n),
  ap (scan bound out) (join n),
)
  where
    lead : (m : ℕ) → 0 * 10 + (b'0' + m - b'0') ≡ m
    lead m = omega arith

    join : (m : ℕ) → m / 10 * 10 + (b'0' + m % 10 - b'0') ≡ m
    join m = omega arith

digits-IsDigit : (f n : ℕ) (out : Text) → All IsDigit out → All IsDigit (digits f n out)
unfolding digits
digits-IsDigit zero n out h = h
digits-IsDigit (suc f) n out h = ground (arith, digits-IsDigit f (n / 10) ((b'0' + n % 10) ∷ out))

pub format-IsDigit : (n : ℕ) → All IsDigit (format n)
unfolding format
format-IsDigit n = digits-IsDigit (suc n) n [] tt

digits-ne-nil : (f n : ℕ) (out : Text) → n < f → digits f n out ≢ []
unfolding digits
digits-ne-nil zero n out h = absurd (omega arith)
digits-ne-nil (suc f) n out h = ground (arith, digits-ne-nil f (n / 10) ((b'0' + n % 10) ∷ out))

pub format-ne-nil : (n : ℕ) → format n ≢ []
unfolding format
format-ne-nil n = digits-ne-nil (suc n) n [] (omega arith)

atoi_of_digits :
    (s : Text) (n : ℕ)
    → s ≢ []
    → All IsDigit s
    → scan 9223372036854775808 s 0 ≡ some n
    → atoi s ≡ some (pos n)
unfolding atoi
atoi_of_digits [] n e h r = absurd (e refl)
atoi_of_digits (c ∷ s) n e h r = ground arith

-- `strconv.Atoi` reads what `%d` prints, for every number that an int64 holds.
pub atoi-format : (n : ℕ) → n < 9223372036854775808 → atoi (format n) ≡ some (pos n)
unfolding format
atoi-format n h =
    atoi_of_digits (format n) n (format-ne-nil n) (format-IsDigit n)
      (scan-digits _ (suc n) n [] (omega arith) ∙ read)
  where
    read : scan 9223372036854775808 [] n ≡ some n
    read = unfold scan in ground arith

-- A character that is no digit stands in no number.
pub digits-Lacks : (d : ℕ) (s : Text) → (d < b'0') ⊎ (b'9' < d) → All IsDigit s → Lacks d s
digits-Lacks d [] big h = tt
digits-Lacks d (c ∷ s) big h = (omega arith, digits-Lacks d s big h.1)

pub format-Lacks : (d n : ℕ) → (d < b'0') ⊎ (b'9' < d) → Lacks d (format n)
format-Lacks d n big = digits-Lacks d (format n) big (format-IsDigit n)
