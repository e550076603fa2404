-- ===== src/Types/Backend.antt =====
-- type.go, `BackendStore`: the constants, `String`, `backendStoreMap` and `Set`.
use go_lxc.Base.{
  ℕ, ◌≤◌, ◌≡◌, refl, zero, suc, none, some, List, [], ◌∷◌, Text, codes, ◌==◌, if◌then◌else◌, lookup,
  arith,
}
use go_lxc.Errors.{sentinel, err_unknown_backend_store}
use go_lxc.Exec.{Result, ok, err}

abbrev pub btrfs : ℕ
btrfs = 1

abbrev pub directory : ℕ
directory = 2

abbrev pub lvm : ℕ
lvm = 3

abbrev pub zfs : ℕ
zfs = 4

abbrev pub aufs : ℕ
aufs = 5

abbrev pub overlayfs : ℕ
overlayfs = 6

abbrev pub loopback : ℕ
loopback = 7

abbrev pub best : ℕ
best = 8

-- `BackendStore.String`
unfoldable pub backend_string : ℕ → Text
backend_string t =
    if t == directory
    then codes "dir"
    else if t == zfs
    then codes "zfs"
    else if t == btrfs
    then codes "btrfs"
    else if t == lvm
    then codes "lvm"
    else if t == aufs
    then codes "aufs"
    else if t == overlayfs
    then codes "overlayfs"
    else if t == loopback
    then codes "loop"
    else if t == best
    then codes "best"
    else []

-- `backendStoreMap`
abbrev pub backend_store_map : List (Text × ℕ)
backend_store_map =
    (codes "dir", directory)
    ∷ (codes "zfs", zfs)
    ∷ (codes "btrfs", btrfs)
    ∷ (codes "lvm", lvm)
    ∷ (codes "aufs", aufs)
    ∷ (codes "overlayfs", overlayfs)
    ∷ (codes "loopback", loopback)
    ∷ (codes "best", best)
    ∷ []

-- `BackendStore.Set`: the new value of `*t`, which keeps its old value `t` on an error.
unfoldable pub set_backend : ℕ → Text → Result ℕ ℕ
unfolding lookup
set_backend t value = elim (lookup value backend_store_map) [
  | some backend ↦ ok backend
  | none ↦ err t (sentinel err_unknown_backend_store)
]

-- What the flag value is printed as can be set again, for every backend but `loopback`; that one is
-- printed as "loop", which is refused. The old value `t` does not matter.
pub set_backend-backend_string :
    (t b : ℕ)
    → 1 ≤ b
    → b ≤ 8
    → set_backend t (backend_string b)
      ≡ (if b == loopback then err t (sentinel err_unknown_backend_store) else ok b)
unfolding set_backend backend_string
set_backend-backend_string t zero h k = absurd (omega arith)
set_backend-backend_string t (suc zero) h k = refl
set_backend-backend_string t (suc (suc zero)) h k = refl
set_backend-backend_string t (suc (suc (suc zero))) h k = refl
set_backend-backend_string t (suc (suc (suc (suc zero)))) h k = refl
set_backend-backend_string t (suc (suc (suc (suc (suc zero))))) h k = refl
set_backend-backend_string t (suc (suc (suc (suc (suc (suc zero)))))) h k = refl
set_backend-backend_string t (suc (suc (suc (suc (suc (suc (suc zero))))))) h k = refl
set_backend-backend_string t (suc (suc (suc (suc (suc (suc (suc (suc zero)))))))) h k = refl
set_backend-backend_string t (suc (suc (suc (suc (suc (suc (suc (suc (suc n))))))))) h k =
    absurd (omega arith)
