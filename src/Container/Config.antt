-- ===== src/Container/Config.antt =====
-- container.go: the configuration items, the cgroup items and the configuration files.
pub mod LogItems
use go_lxc.Base.{ℕ, Option, none, some, List, [], ◌∷◌, Text, codes, if◌then◌else◌}
use go_lxc.Base.Strings.{c_string, go_string, trim_space, split}
use go_lxc.Errors.{
  err_setting_config_item_failed, err_setting_cgroup_item_failed, err_clearing_config_item_failed,
  err_load_config_failed, err_save_config_failed, err_setting_config_path_failed,
}
use go_lxc.Exec.{Exec, pure, panic, index_out_of_range, ◌>>=◌}
use go_lxc.Liblxc.{Liblxc}
use go_lxc.Types.LogLevel.{log_level_of, log_level_string}
use go_lxc.Binding.{go_lxc_get_config_item, go_lxc_get_keys, go_lxc_get_cgroup_item}
use go_lxc.Container.{State, Action, Method, handle_or, must, version_at_least}

-- The lines of what the library answers: trimmed, and split at the newlines.
abbrev pub lines_of : Option Text → List Text
lines_of answer = split (trim_space (go_string answer)) b'\n'

-- `items[0]`: of a nil slice, a panic.
abbrev pub first : {S V : Type 0} → List Text → Exec S V Text
first [] = panic index_out_of_range
first (t ∷ _) = pure t

module _ (L : Liblxc) where
  open L use {Ptr, World, version, config}

  -- `ConfigFileName`
  unfoldable pub config_file_name : State L → Text
  config_file_name s = elim s.handle [
    | none ↦ []
    | some p ↦ go_string (config.config_file_name p s.world)
  ]

  -- `configItem`; nil for a released container.
  unfoldable pub config_item : Text → State L → List Text
  unfolding go_lxc_get_config_item trim_space split
  config_item key s = elim s.handle [
    | none ↦ []
    | some p ↦ lines_of (go_lxc_get_config_item L p (c_string key) s.world)
  ]

  -- `setConfigItem`
  unfoldable pub set_config_item : Text → Text → Action L
  set_config_item key value = do
    p ← handle_or tt
    must tt err_setting_config_item_failed
        (config.set_config_item p (c_string key) (c_string value))

  -- `runningConfigItem`
  unfoldable pub running_config_item : Text → State L → List Text
  unfolding trim_space split
  running_config_item key s = elim s.handle [
    | none ↦ []
    | some p ↦ lines_of (config.get_running_config_item p (c_string key) s.world)
  ]

  -- `cgroupItem`
  unfoldable pub cgroup_item : Text → State L → List Text
  unfolding go_lxc_get_cgroup_item trim_space split
  cgroup_item key s = elim s.handle [
    | none ↦ []
    | some p ↦ lines_of (go_lxc_get_cgroup_item L p (c_string key) s.world)
  ]

  -- `setCgroupItem`
  unfoldable pub set_cgroup_item : Text → Text → Action L
  set_cgroup_item key value = do
    p ← handle_or tt
    must tt err_setting_cgroup_item_failed
        (config.set_cgroup_item p (c_string key) (c_string value))

  -- `ClearConfig`, which returns nothing.
  unfoldable pub clear_config : State L → State L
  clear_config s = elim s.handle [
    | none ↦ s
    | some p ↦ record s { world = config.clear_config p s.world }
  ]

  -- `ClearConfigItem`
  unfoldable pub clear_config_item : Text → Action L
  clear_config_item key = do
    p ← handle_or tt
    must tt err_clearing_config_item_failed (config.clear_config_item p (c_string key))

  -- The one key, if exactly one is given.
  abbrev one_key : List Text → Option Text
  one_key (key ∷ []) = some (c_string key)
  one_key _ = none

  -- `ConfigKeys`
  unfoldable pub config_keys : List Text → State L → List Text
  unfolding go_lxc_get_keys trim_space split
  config_keys keys s = elim s.handle [
    | none ↦ []
    | some p ↦ lines_of (go_lxc_get_keys L p (one_key keys) s.world)
  ]

  -- `LoadConfigFile`
  unfoldable pub load_config_file : Text → Action L
  load_config_file path = do
    p ← handle_or tt
    must tt err_load_config_failed (config.load_config p (c_string path))

  -- `saveConfigFile`, and `SaveConfigFile`
  unfoldable pub save_config_file : Text → Action L
  save_config_file path = do
    p ← handle_or tt
    must tt err_save_config_failed (config.save_config p (c_string path))

  -- `configPath`
  unfoldable pub config_path : State L → Text
  config_path s = elim s.handle [
    | none ↦ []
    | some p ↦ go_string (config.get_config_path p s.world)
  ]

  -- `SetConfigPath`
  unfoldable pub set_config_path : Text → Action L
  set_config_path path = do
    p ← handle_or tt
    must tt err_setting_config_path_failed (config.set_config_path p (c_string path))

  -- The key of an item that was renamed in version 2.1.
  abbrev pub since_2_1 : {A : Type 0} → A → A → A
  since_2_1 now before = if version_at_least version 2 1 0 then now else before

  -- `LogFile`
  unfoldable pub log_file : Method L Text Text
  unfolding config_item version_at_least
  log_file s = first (config_item (since_2_1 (codes "lxc.log.file") (codes "lxc.logfile")) s) s

  -- `SetLogFile`
  unfoldable pub set_log_file : Text → Action L
  unfolding set_config_item version_at_least
  set_log_file filename =
      set_config_item (since_2_1 (codes "lxc.log.file") (codes "lxc.logfile")) filename

  -- `LogLevel`
  unfoldable pub log_level : Method L ℕ ℕ
  unfolding config_item version_at_least log_level_of
  log_level = do
    level ← λ s. first (config_item (since_2_1 (codes "lxc.log.level") (codes "lxc.loglevel")) s) s
    pure (log_level_of level)

  -- `SetLogLevel`
  unfoldable pub set_log_level : ℕ → Action L
  unfolding set_config_item version_at_least log_level_string
  set_log_level level =
      set_config_item (since_2_1 (codes "lxc.log.level") (codes "lxc.loglevel"))
        (log_level_string level)
