-- ===== src/Tests/Values.antt =====
-- The theorems on versions, constants and messages, at concrete inputs.
use go_lxc.Base.{true, false, ◌≡◌, ◌↔◌, ◌⊎◌, arith}
use go_lxc.Exec.{ok}
use go_lxc.Types.Backend.{set_backend, backend_string, lvm}
use go_lxc.Types.State.{state_of, state_string}
use go_lxc.Types.Names.{names_read_back}
use go_lxc.Types.LogLevel.{log_level_of, log_level_string}
use go_lxc.Binding.{version_at_least_macro}
use go_lxc.Container.{version_at_least}
use go_lxc.Global.{runtime_liblxc_version_at_least}
use go_lxc.Global.Versions.{version_tests_iff, runtime_version_iff, dotted, NotAfter}
use go_lxc.Tests.Sim.{lxc4}

version_tests_iff_example :
    ((version_at_least lxc4 3 1 0 ≡ true) ↔ ((false ≡ true) ⊎ NotAfter 3 1 0 4 0 12))
    × (version_at_least_macro lxc4 3 1 0 ≡ version_at_least lxc4 3 1 0)
version_tests_iff_example = version_tests_iff lxc4 3 1 0

runtime_version_iff_example :
    (runtime_liblxc_version_at_least (dotted 4 0 12) 3 1 0 ≡ true) ↔ NotAfter 3 1 0 4 0 12
runtime_version_iff_example =
    runtime_version_iff 4 0 12 3 1 0 (omega arith) (omega arith) (omega arith)

names_read_back_example :
    (set_backend 1 (backend_string lvm) ≡ ok lvm)
    × (state_of (state_string 7) ≡ 7)
    × (log_level_of (log_level_string 5) ≡ 5)
names_read_back_example =
    names_read_back 1 lvm 7 5 (omega arith) (omega arith) (omega arith) (omega arith)
