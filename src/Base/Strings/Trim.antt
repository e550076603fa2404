-- ===== src/Base/Strings/Trim.antt =====
-- `trim_space` on texts whose first and last characters are no spaces.
use Prim.Native.Nat.{ℕ}
use mathlib.Core.Path.{◌≡◌, refl, ap, ◌∙◌}
use mathlib.Core.Logic.{◌≢◌}
use mathlib.Core.Bool.{true, false}
use mathlib.Core.List.{[], ◌∷◌, ◌++◌}
use native.Mathlib.Omega.{arith}
use go_lxc.Base.Lists.{All}
use go_lxc.Base.Strings.{Text, is_space, trim_left, trim_right, trim_space}
use go_lxc.Base.Decimal.RoundTrip.{IsDigit}

-- A character that is no space, and one that is.
abbrev pub IsSolid : ℕ → Type 0
IsSolid c = is_space c ≡ false

abbrev pub IsBlank : ℕ → Type 0
IsBlank c = is_space c ≡ true

-- The first, and the last character of a text that is not empty.
abbrev pub Head : (ℕ → Type 0) → Text → Type 0
Head P [] = ⊥
Head P (c ∷ s) = P c

abbrev pub Last : (ℕ → Type 0) → Text → Type 0
Last P [] = ⊥
Last P (c ∷ []) = P c
Last P (c ∷ d ∷ s) = Last P (d ∷ s)

pub digit-IsSolid : (s : Text) → All IsDigit s → All IsSolid s
unfolding is_space
digit-IsSolid [] h = tt
digit-IsSolid (c ∷ s) h = (ground arith, digit-IsSolid s h.1)

pub All-Head : (P : ℕ → Type 0) (s : Text) → s ≢ [] → All P s → Head P s
All-Head P [] ne h = ne refl
All-Head P (c ∷ s) ne h = h.0

pub All-Last : (P : ℕ → Type 0) (s : Text) → s ≢ [] → All P s → Last P s
All-Last P [] ne h = ne refl
All-Last P (c ∷ []) ne h = h.0
All-Last P (c ∷ d ∷ s) ne h = All-Last P (d ∷ s) (λ e. cc) h.1

pub Head-append : (P : ℕ → Type 0) (s t : Text) → Head P s → Head P (s ++ t)
Head-append P [] t h = absurd h
Head-append P (c ∷ s) t h = h

pub Last-append : (P : ℕ → Type 0) (s t : Text) → Last P t → Last P (s ++ t)
Last-append P [] t h = h
Last-append P (c ∷ s) [] h = absurd h
Last-append P (c ∷ []) (d ∷ t) h = h
Last-append P (c ∷ e ∷ s) (d ∷ t) h = Last-append P (e ∷ s) (d ∷ t) h

trim_left-Head : (s : Text) → Head IsSolid s → trim_left s ≡ s
unfolding trim_left
trim_left-Head [] h = absurd h
trim_left-Head (c ∷ s) h = ground (arith, h)

trim_right-blank : (w : Text) → All IsBlank w → trim_right w ≡ []
unfolding trim_right
trim_right-blank [] h = refl
trim_right-blank (c ∷ w) h = ground (arith, h.0, trim_right-blank w h.1)

trim_right-Last : (s w : Text) → Last IsSolid s → All IsBlank w → trim_right (s ++ w) ≡ s
unfolding trim_right
trim_right-Last [] w h b = absurd h
trim_right-Last (c ∷ []) w h b = ground (arith, h, trim_right-blank w b)
trim_right-Last (c ∷ d ∷ s) w h b = ground (arith, trim_right-Last (d ∷ s) w h b)

-- Spaces after such a text are taken away, and nothing else.
pub trim_space-append :
    (s w : Text) → Head IsSolid s → Last IsSolid s → All IsBlank w → trim_space (s ++ w) ≡ s
unfolding trim_space
trim_space-append s w h l b =
    ap trim_right (trim_left-Head (s ++ w) (Head-append IsSolid s w h)) ∙ trim_right-Last s w l b
