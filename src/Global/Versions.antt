-- ===== src/Global/Versions.antt =====
-- The three version tests: `VersionAtLeast` of lxc-binding.go, the macro of lxc-binding.h, and
-- `RuntimeLiblxcVersionAtLeast`, against the lexicographic order.
use go_lxc.Base.{
  ℕ, ◌<◌, ◌≤◌, true, some, [], ◌∷◌, ◌++◌, ◌≡◌, ◌≢◌, ◌↔◌, ◌⊎◌, ◌∙◌, sym, ap, arith, Text, codes,
  All-append, pos,
}
use go_lxc.Base.Strings.{split}
use go_lxc.Base.Strings.Laws.{Lacks, split-Lacks, split-part, replace_first-Lacks}
use go_lxc.Base.Decimal.{format}
use go_lxc.Base.Decimal.RoundTrip.{format-Lacks, atoi-format}
use go_lxc.Liblxc.{Version}
use go_lxc.Binding.{version_at_least_macro}
use go_lxc.Container.{version_at_least}
use go_lxc.Global.{runtime_liblxc_version_at_least, compare_parts, parse_parts}

-- (a, b, c) comes before (x, y, z) or is equal to it.
abbrev pub NotAfter : ℕ → ℕ → ℕ → ℕ → ℕ → ℕ → Type 0
NotAfter a b c x y z = (a < x) ⊎ ((a ≡ x) × ((b < y) ⊎ ((b ≡ y) × (c ≤ z))))

at_least_sound :
    (v : Version) (a b c : ℕ)
    → version_at_least v a b c ≡ true
    → (v.devel ≡ true) ⊎ NotAfter a b c v.major v.minor v.micro
unfolding version_at_least
at_least_sound v a b c h = ground arith

at_least_complete :
    (v : Version) (a b c : ℕ)
    → (v.devel ≡ true) ⊎ NotAfter a b c v.major v.minor v.micro
    → version_at_least v a b c ≡ true
unfolding version_at_least
at_least_complete v a b c h = ground arith

version_at_least_iff :
    (v : Version) (a b c : ℕ)
    → (version_at_least v a b c ≡ true)
      ↔ ((v.devel ≡ true) ⊎ NotAfter a b c v.major v.minor v.micro)
version_at_least_iff v a b c = (at_least_sound v a b c, at_least_complete v a b c)

version_at_least-macro :
    (v : Version) (a b c : ℕ) → version_at_least v a b c ≡ version_at_least_macro v a b c
unfolding version_at_least version_at_least_macro
version_at_least-macro v a b c = ground arith

-- `VersionAtLeast`, and the macro of C's wrappers, say whether the version that is asked for does not
-- come after that of the headers, in the lexicographic order; a development version has every version.
pub version_tests_iff :
    (v : Version) (a b c : ℕ)
    → ((version_at_least v a b c ≡ true)
        ↔ ((v.devel ≡ true) ⊎ NotAfter a b c v.major v.minor v.micro))
      × (version_at_least_macro v a b c ≡ version_at_least v a b c)
version_tests_iff v a b c = (version_at_least_iff v a b c, sym (version_at_least-macro v a b c))

-- How liblxc writes a release: "x.y.z".
unfoldable pub dotted : ℕ → ℕ → ℕ → Text
unfolding format
dotted x y z = format x ++ (b'.' ∷ (format y ++ (b'.' ∷ format z)))

dotted-Lacks : (d x y z : ℕ) → (d < b'0') ⊎ (b'9' < d) → d ≢ b'.' → Lacks d (dotted x y z)
unfolding dotted
dotted-Lacks d x y z big ne = All-append _ (format x) _ (format-Lacks d x big) (
  λ e. ne (sym e),
  All-append _ (format y) _ (format-Lacks d y big) (λ e. ne (sym e), format-Lacks d z big),
)

split-dotted : (x y z : ℕ) → split (dotted x y z) b'.' ≡ format x ∷ format y ∷ format z ∷ []
unfolding dotted
split-dotted x y z =
    split-part (format x) _ b'.' (format-Lacks _ x (omega arith))
    ∙ ap (λ t. format x ∷ t)
        (split-part (format y) _ b'.' (format-Lacks _ y (omega arith))
          ∙ ap (λ t. format y ∷ t) (split-Lacks (format z) b'.' (format-Lacks _ z (omega arith))))

abbrev int_bound : ℕ
int_bound = 9223372036854775808

parse_parts-format :
    (x y z : ℕ)
    → x < int_bound
    → y < int_bound
    → z < int_bound
    → parse_parts (format x ∷ format y ∷ format z ∷ []) ≡ some (pos x, pos y, pos z)
unfolding parse_parts
parse_parts-format x y z hx hy hz =
    ground (arith, atoi-format x hx, atoi-format y hy, atoi-format z hz)

compare_parts_iff :
    (x y z a b c : ℕ) → (compare_parts (pos x, pos y, pos z) a b c ≡ true) ↔ NotAfter a b c x y z
unfolding compare_parts
compare_parts_iff x y z a b c = (λ h. ground arith, λ h. ground arith)

runtime-compare_parts :
    (x y z a b c : ℕ)
    → x < int_bound
    → y < int_bound
    → z < int_bound
    → runtime_liblxc_version_at_least (dotted x y z) a b c
      ≡ compare_parts (pos x, pos y, pos z) a b c
unfolding runtime_liblxc_version_at_least
runtime-compare_parts x y z a b c hx hy hz = rw (
  split-Lacks (dotted x y z) b'~' (dotted-Lacks _ x y z (omega arith) (omega arith)),
  replace_first-Lacks (dotted x y z) b' ' (codes "(devel)") (codes "-devel")
      (dotted-Lacks _ x y z (omega arith) (omega arith)),
  split-dotted x y z,
  split-Lacks (format z) b'-' (format-Lacks _ z (omega arith)),
  parse_parts-format x y z hx hy hz,
)

-- Of a release "x.y.z", whose numbers an int64 holds, `RuntimeLiblxcVersionAtLeast` says whether the
-- version that is asked for does not come after it in the lexicographic order.
pub runtime_version_iff :
    (x y z a b c : ℕ)
    → x < int_bound
    → y < int_bound
    → z < int_bound
    → (runtime_liblxc_version_at_least (dotted x y z) a b c ≡ true) ↔ NotAfter a b c x y z
runtime_version_iff x y z a b c hx hy hz =
    rw (runtime-compare_parts x y z a b c hx hy hz) (compare_parts_iff x y z a b c)
