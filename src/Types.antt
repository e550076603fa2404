-- ===== src/Types.antt =====
-- type.go: its enumerations are Go integers; each has a module of its own below this one, and the
-- plain constants stand here.
pub mod Backend
pub mod ByteSize
pub mod State
pub mod LogLevel
pub mod Names
use go_lxc.Base.{ℕ}

-- `Verbosity`
abbrev pub quiet : ℕ
quiet = 1

abbrev pub verbose : ℕ
verbose = 2

-- `Personality`
abbrev pub x86 : ℕ
x86 = 0x0008

abbrev pub x86_64 : ℕ
x86_64 = 0x0000

-- The commands of `Migrate`.
abbrev pub migrate_pre_dump : ℕ
migrate_pre_dump = 0

abbrev pub migrate_dump : ℕ
migrate_dump = 1

abbrev pub migrate_restore : ℕ
migrate_restore = 2

abbrev pub migrate_feature_check : ℕ
migrate_feature_check = 3
