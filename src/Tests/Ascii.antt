-- ===== src/Tests/Ascii.antt =====
-- The theorem on byte sizes, with the tables of the package unicode cut down to ASCII.
use go_lxc.Base.{
  ℕ, ◌-◌, zero, suc, Bool, ◌&&◌, leb, some, List, [], ◌∷◌, ◌++◌, map, Text, codes, ◌≡◌, ◌≢◌, refl,
  ap, ◌∙◌, All, arith, if◌then◌else◌, lookup,
}
use go_lxc.Base.Decimal.{format}
use go_lxc.Types.ByteSize.{Unicode, parse_bytes, unit_map}
use go_lxc.Types.ByteSize.Parsing.{IsAscii, IsUpper, parse_bytes-format}
use go_lxc.Exec.{ok}
use go_lxc.Tests.Sim.{naturals}

abbrev upper_of : ℕ → ℕ
upper_of c = if leb b'a' c && leb c b'z' then c - 32 else c

abbrev ascii : Unicode
ascii = record { is_digit = λ c. leb b'0' c && leb c b'9'; to_upper = map upper_of }

upper_same : (c : ℕ) → IsUpper c → upper_of c ≡ c
upper_same c h = ground arith

map-upper_of : (s : Text) → All IsUpper s → map upper_of s ≡ s
map-upper_of [] h = refl
map-upper_of (c ∷ s) h =
    ap (λ d. d ∷ map upper_of s) (upper_same c h.0) ∙ ap (λ t. c ∷ t) (map-upper_of s h.1)

ascii-IsAscii : IsAscii ascii
ascii-IsAscii = record {
  digits_are = λ c h. ground arith;
  letters_are_not = λ c h. ground arith;
  upper_stays = map-upper_of;
}

kb_ne_nil : codes "KB" ≢ []
kb_ne_nil h = cc

parse_bytes-format_example : parse_bytes ascii naturals (format 12 ++ codes "KB") ≡ ok 12288
unfolding lookup go_lxc.Types.ByteSize.scaled format go_lxc.Base.Decimal.atoi
parse_bytes-format_example =
    parse_bytes-format ascii naturals ascii-IsAscii 12 (codes "KB") 1024 kb_ne_nil
      ((omega arith, omega arith), ((omega arith, omega arith), tt)) refl
