-- ===== src/Base/Paths.antt =====
-- `filepath.Clean` and `filepath.Join` on Unix.
use Prim.Native.Nat.{ℕ}
use mathlib.Core.Bool.{Bool, false, not}
use mathlib.Core.List.{List, [], ◌∷◌, ◌++◌, reverse}
use go_lxc.Base.Logic.{◌==◌, if◌then◌else◌}
use go_lxc.Base.Strings.{Text, text_eq, split}

abbrev slash : ℕ
slash = b'/'

abbrev dots : Text
dots = b'.' ∷ b'.' ∷ []

abbrev is_rooted : Text → Bool
is_rooted [] = false
is_rooted (c ∷ s) = c == slash

-- The elements that stay, the last one first: "" and "." go, ".." takes an element back, if one is
-- there that is not ".."; at the root it goes.
unfoldable pub resolve : Bool → List Text → List Text → List Text
unfolding text_eq
resolve rooted out [] = out
resolve rooted out (e ∷ es) =
    resolve rooted
      (if text_eq e []
        then out
        else if text_eq e (b'.' ∷ [])
        then out
        else if not (text_eq e dots)
        then e ∷ out
        else elim out [
          | [] ↦ if rooted then [] else dots ∷ []
          | top ∷ below ↦ if text_eq top dots then dots ∷ top ∷ below else below
        ])
      es

unfoldable pub join_with : ℕ → List Text → Text
join_with sep [] = []
join_with sep (e ∷ []) = e
join_with sep (e ∷ d ∷ es) = e ++ (sep ∷ join_with sep (d ∷ es))

-- `filepath.Clean`
unfoldable pub clean : Text → Text
unfolding resolve join_with split
clean s =
    let rooted = is_rooted s in
    let kept = join_with slash (reverse (resolve rooted [] (split s slash))) in
    if rooted then slash ∷ kept else elim kept [ [] ↦ b'.' ∷ [] | c ∷ t ↦ c ∷ t ]

unfoldable pub drop_empty : List Text → List Text
drop_empty [] = []
drop_empty ([] ∷ es) = drop_empty es
drop_empty ((c ∷ e) ∷ es) = (c ∷ e) ∷ drop_empty es

-- `filepath.Join`; of empty elements alone it is empty.
unfoldable pub join_path : List Text → Text
unfolding drop_empty clean
join_path es = elim (drop_empty es) [ [] ↦ [] | e ∷ rest ↦ clean (join_with slash (e ∷ rest)) ]
