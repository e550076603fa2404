-- ===== src/Options.antt =====
-- options.go: the options that the methods take. A Go field that may be nil is an `Option`; a nil
-- slice and an empty one are told apart nowhere in the methods that read them.
use go_lxc.Base.{ℕ, ℤ, minus_one, Bool, false, Option, none, List, [], Text, codes}
use go_lxc.Types.Backend.{directory}

pub record AttachOptions : Type 0 where
  pub namespaces : ℤ
  pub arch : ℤ
  pub cwd : Text
  pub uid : ℤ
  pub gid : ℤ
  pub groups : List ℤ
  pub clear_env : Bool
  pub env : List Text
  pub env_to_keep : List Text
  pub stdin_fd : ℕ
  pub stdout_fd : ℕ
  pub stderr_fd : ℕ
  pub remount_sys_proc : Bool
  pub elevated_privileges : Bool

-- `DefaultAttachOptions`; the standard descriptors are 0, 1 and 2.
abbrev pub default_attach_options : AttachOptions
default_attach_options = record {
  namespaces = minus_one;
  arch = minus_one;
  cwd = codes "/";
  uid = minus_one;
  gid = minus_one;
  groups = [];
  clear_env = false;
  env = [];
  env_to_keep = [];
  stdin_fd = 0;
  stdout_fd = 1;
  stderr_fd = 2;
  remount_sys_proc = false;
  elevated_privileges = false;
}

pub record BackendStoreSpecs : Type 0 where
  pub fs_type : Text
  pub fs_size : ℕ
  pub dir : Option Text
  pub zfs_root : Text
  pub lvm_vg : Text
  pub lvm_lv : Text
  pub lvm_thinpool : Text
  pub rbd_name : Text
  pub rbd_pool : Text

pub record TemplateOptions : Type 0 where
  pub template : Text
  pub backend : ℕ
  pub backend_specs : Option BackendStoreSpecs
  pub distro : Text
  pub release : Text
  pub arch : Text
  pub variant : Text
  pub server : Text
  pub key_id : Text
  pub key_server : Text
  pub disable_gpg_validation : Bool
  pub flush_cache : Bool
  pub force_cache : Bool
  pub extra_args : List Text

abbrev pub no_template_options : TemplateOptions
no_template_options = record {
  template = [];
  backend = 0;
  backend_specs = none;
  distro = [];
  release = [];
  arch = [];
  variant = [];
  server = [];
  key_id = [];
  key_server = [];
  disable_gpg_validation = false;
  flush_cache = false;
  force_cache = false;
  extra_args = [];
}

-- `DownloadTemplateOptions`
abbrev pub download_template_options : TemplateOptions
download_template_options = record no_template_options {
  template = codes "download";
  distro = codes "ubuntu";
  release = codes "trusty";
  arch = codes "amd64";
}

-- `BusyboxTemplateOptions`
abbrev pub busybox_template_options : TemplateOptions
busybox_template_options = record no_template_options { template = codes "busybox" }

-- `UbuntuTemplateOptions`
abbrev pub ubuntu_template_options : TemplateOptions
ubuntu_template_options = record no_template_options { template = codes "ubuntu" }

pub record ConsoleOptions : Type 0 where
  pub tty : ℤ
  pub stdin_fd : ℕ
  pub stdout_fd : ℕ
  pub stderr_fd : ℕ
  pub escape_character : ℕ

-- `DefaultConsoleOptions`
abbrev pub default_console_options : ConsoleOptions
default_console_options = record {
  tty = minus_one;
  stdin_fd = 0;
  stdout_fd = 1;
  stderr_fd = 2;
  escape_character = b'a';
}

pub record CloneOptions : Type 0 where
  pub backend : ℕ
  pub config_path : Text
  pub keep_name : Bool
  pub keep_mac : Bool
  pub snapshot : Bool

-- `DefaultCloneOptions`
abbrev pub default_clone_options : CloneOptions
default_clone_options = record {
  backend = directory;
  config_path = [];
  keep_name = false;
  keep_mac = false;
  snapshot = false;
}

pub record CheckpointOptions : Type 0 where
  pub directory : Text
  pub stop : Bool
  pub verbose : Bool

pub record RestoreOptions : Type 0 where
  pub directory : Text
  pub verbose : Bool

pub record MigrateOptions : Type 0 where
  pub directory : Text
  pub predump_dir : Text
  pub action_script : Text
  pub verbose : Bool
  pub stop : Bool
  pub preserves_inodes : Bool
  pub ghost_limit : ℕ
  pub features_to_check : ℕ

pub record ConsoleLogOptions : Type 0 where
  pub clear_log : Bool
  pub read_log : Bool
  pub read_max : ℕ
  pub write_to_log_file : Bool
