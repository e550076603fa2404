-- ===== src/Types/ByteSize/Parsing.antt =====
-- type.go: `ParseBytes` on a number with the name of a unit.
use go_lxc.Base.{
  ℕ, ◌≤◌, true, false, some, [], ◌∷◌, ◌++◌, Text, ◌≡◌, ◌≢◌, refl, ap, sym, append-nil, ◌∙◌, All,
  All-append, arith, lookup,
}
use go_lxc.Base.Strings.{is_space, trim_space}
use go_lxc.Base.Strings.Trim.{IsSolid, digit-IsSolid, All-Last, trim_space-append}
use go_lxc.Base.Decimal.{format}
use go_lxc.Base.Decimal.RoundTrip.{IsDigit, format-IsDigit}
use go_lxc.Floats.{Floats}
use go_lxc.Types.ByteSize.{
  Unicode, unit_map, split_number, scaled, with_unit, of_parts, parse_bytes,
}

-- A letter from A to Z.
abbrev pub IsUpper : ℕ → Type 0
IsUpper c = (b'A' ≤ c) × (c ≤ b'Z')

-- What the tables of the package unicode say of ASCII.
pub record IsAscii (U : Unicode) : Type 0 where
  pub digits_are : (c : ℕ) → IsDigit c → U.is_digit c ≡ true
  pub letters_are_not : (c : ℕ) → IsUpper c → U.is_digit c ≡ false
  pub upper_stays : (s : Text) → All IsUpper s → U.to_upper s ≡ s

upper-IsSolid : (s : Text) → All IsUpper s → All IsSolid s
unfolding is_space
upper-IsSolid [] h = tt
upper-IsSolid (c ∷ s) h = (ground arith, upper-IsSolid s h.1)

trim_space-IsSolid : (s : Text) → All IsSolid s → trim_space s ≡ s
unfolding trim_space
trim_space-IsSolid [] h = refl
trim_space-IsSolid (c ∷ s) h =
    ap trim_space (sym (append-nil (c ∷ s)))
    ∙ trim_space-append (c ∷ s) [] h.0 (All-Last IsSolid (c ∷ s) (λ e. cc) h) tt

split_number-parts :
    (U : Unicode)
    → IsAscii U
    → (s t : Text) → All IsDigit s
    → t ≢ []
    → All IsUpper t
    → split_number U (s ++ t) ≡ some (s, t)
unfolding split_number
split_number-parts U ascii [] [] h ne k = absurd (ne refl)
split_number-parts U ascii [] (c ∷ t) h ne k = ground (arith, ascii.letters_are_not c k.0)
split_number-parts U ascii (c ∷ s) t h ne k =
    ground (arith, ascii.digits_are c h.0, split_number-parts U ascii s t h.1 ne k)

module _ (U : Unicode) (R : Floats) (ascii : IsAscii U) where
  pub parse_bytes-format :
      (n : ℕ) (name : Text) (unit : ℕ)
      → name ≢ []
      → All IsUpper name
      → lookup name unit_map ≡ some unit
      → parse_bytes U R (format n ++ name) ≡ scaled U R (format n) unit
  unfolding parse_bytes of_parts with_unit
  parse_bytes-format n name unit ne upper known =
      let number = digit-IsSolid (format n) (format-IsDigit n) in
      let letters = upper-IsSolid name upper in
      ap (λ s. of_parts U R (split_number U s))
        (trim_space-IsSolid (format n ++ name) (All-append _ (format n) name number letters))
      ∙ ap (of_parts U R) (split_number-parts U ascii (format n) name (format-IsDigit n) ne upper)
      ∙ ap (λ s. with_unit U R s (trim_space name) (lookup (U.to_upper (trim_space name)) unit_map))
          (trim_space-IsSolid (format n) number)
      ∙ ap (λ s. with_unit U R (format n) s (lookup (U.to_upper s) unit_map))
          (trim_space-IsSolid name letters)
      ∙ ap (with_unit U R (format n) name)
          (ap (λ s. lookup s unit_map) (ascii.upper_stays name upper) ∙ known)
