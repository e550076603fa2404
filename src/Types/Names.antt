-- ===== src/Types/Names.antt =====
-- type.go: the names of the enumerations, printed and read back.
use go_lxc.Base.{ℕ, ◌≤◌, ◌≡◌, if◌then◌else◌, ◌==◌, leb}
use go_lxc.Errors.{sentinel, err_unknown_backend_store}
use go_lxc.Exec.{ok, err}
use go_lxc.Types.Backend.{set_backend, backend_string, loopback, set_backend-backend_string}
use go_lxc.Types.State.{state_of, state_string, state_of-state_string}
use go_lxc.Types.LogLevel.{
  log_level_of, log_level_string, fatal, trace, log_level_of-log_level_string,
}

-- What a flag of one of the eight backends is printed as can be set again, whatever its old value,
-- for every backend but `loopback`; that one is printed as "loop", which is refused. The name of each of
-- the eight states leads back to it. The name of a log level leads back to it, and the name "NOTSET" of
-- any other value to `TRACE`.
pub names_read_back :
    (t b s l : ℕ)
    → 1 ≤ b
    → b ≤ 8
    → 1 ≤ s
    → s ≤ 8
    → (set_backend t (backend_string b)
        ≡ (if b == loopback then err t (sentinel err_unknown_backend_store) else ok b))
      × (state_of (state_string s) ≡ s)
      × (log_level_of (log_level_string l) ≡ (if leb l fatal then l else trace))
names_read_back t b s l h i j k = (
  set_backend-backend_string t b h i,
  state_of-state_string s j k,
  log_level_of-log_level_string l,
)
