-- ===== src/Base/Strings/Laws.antt =====
-- Laws of the text functions.
use Prim.Native.Nat.{ℕ}
use mathlib.Core.Path.{◌≡◌, refl, ap, sym}
use mathlib.Core.Logic.{◌≢◌}
use mathlib.Core.List.{[], ◌∷◌, ◌++◌, append-nil, append_assoc}
use native.Mathlib.Omega.{arith}
use go_lxc.Base.Lists.{All}
use go_lxc.Base.Strings.{
  Text, c_string, split_from, split, replace_first, split_text_from, strip_prefix,
}

-- A text with no NUL reaches C unchanged.
pub c_string_whole : (s : Text) → All (λ c. c ≢ 0) s → c_string s ≡ s
unfolding c_string
c_string_whole [] h = refl
c_string_whole (c ∷ s) h = ground (arith, c_string_whole s)

-- No character of the text is the separator.
abbrev pub Lacks : ℕ → Text → Type 0
Lacks sep = All (λ c. c ≢ sep)

split_from-Lacks : (sep : ℕ) (cur s : Text) → Lacks sep s → split_from sep cur s ≡ (cur ++ s) ∷ []
unfolding split_from
split_from-Lacks sep cur [] h = ap (λ t. t ∷ []) (sym (append-nil cur))
split_from-Lacks sep cur (c ∷ s) h =
    ground (arith, split_from-Lacks sep (cur ++ c ∷ []) s h.1, append_assoc cur (c ∷ []) s)

-- A text that lacks the separator is one part.
pub split-Lacks : (s : Text) (sep : ℕ) → Lacks sep s → split s sep ≡ s ∷ []
unfolding split
split-Lacks s sep h = split_from-Lacks sep [] s h

split_from-part :
    (sep : ℕ) (cur s rest : Text)
    → Lacks sep s
    → split_from sep cur (s ++ (sep ∷ rest)) ≡ (cur ++ s) ∷ split_from sep [] rest
unfolding split_from
split_from-part sep cur [] rest h = ground (arith, append-nil cur)
split_from-part sep cur (c ∷ s) rest h =
    ground (arith, split_from-part sep (cur ++ c ∷ []) s rest h.1, append_assoc cur (c ∷ []) s)

-- The part before the first separator, and the parts of the rest.
pub split-part :
    (s rest : Text) (sep : ℕ) → Lacks sep s → split (s ++ (sep ∷ rest)) sep ≡ s ∷ split rest sep
unfolding split
split-part s rest sep h = split_from-part sep [] s rest h

-- A text that lacks the first character of `old` is left alone.
pub replace_first-Lacks :
    (s : Text) (d : ℕ) (old new : Text) → Lacks d s → replace_first s (d ∷ old) new ≡ s
unfolding replace_first
replace_first-Lacks [] d old new h = refl
replace_first-Lacks (c ∷ s) d old new h = ground (arith, replace_first-Lacks s d old new h.1)

-- No part holds the separator, and there is a part.
pub split_from-ne-nil : (sep : ℕ) (cur s : Text) → split_from sep cur s ≢ []
unfolding split_from
split_from-ne-nil sep cur [] = ground arith
split_from-ne-nil sep cur (c ∷ s) = ground (arith, split_from-ne-nil sep (cur ++ c ∷ []) s)

pub split-ne-nil : (s : Text) (sep : ℕ) → split s sep ≢ []
unfolding split
split-ne-nil s sep = split_from-ne-nil sep [] s

-- A text that lacks the first character of the separator is one part.
pub split_text_from-Lacks :
    (d : ℕ) (sep cur s : Text) → Lacks d s → split_text_from (d ∷ sep) 0 cur s ≡ (cur ++ s) ∷ []
unfolding split_text_from strip_prefix
split_text_from-Lacks d sep cur [] h = ap (λ t. t ∷ []) (sym (append-nil cur))
split_text_from-Lacks d sep cur (c ∷ s) h =
    ground (arith, split_text_from-Lacks d sep (cur ++ c ∷ []) s h.1, append_assoc cur (c ∷ []) s)
