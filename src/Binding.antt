-- ===== src/Binding.antt =====
-- lxc-binding.c and the macro VERSION_AT_LEAST of lxc-binding.h: the C wrappers that choose by the
-- version of the headers, or do more than to call the member of the same name.
use go_lxc.Base.{
  ℕ, zero, suc, ◌/◌, ◌%◌, ℤ, pos, negsuc, minus_one, is_neg, Bool, true, false, ◌&&◌, ◌||◌, not,
  Option, none, some, List, [], ◌∷◌, Text, codes, ltb, ◌==◌, if◌then◌else◌, bit_and, length,
}
use go_lxc.Base.Strings.{strip_prefix}
use go_lxc.Liblxc.{
  Liblxc, Version, BdevSpecs, MigrateOpts, AttachSettings, Command, Numbered, interrupted, failed,
  reaped,
}

-- `VERSION_AT_LEAST(major, minor, micro)`
unfoldable pub version_at_least_macro : Version → ℕ → ℕ → ℕ → Bool
version_at_least_macro v major minor micro =
    v.devel
    || not (
        ltb v.major major
        || (major == v.major && ltb v.minor minor)
        || (major == v.major && minor == v.minor && ltb v.micro micro))

-- A reply that costs the library no call.
abbrev answer : {A W : Type 0} → A → W → A × W
answer a w = (a, w)

abbrev enosys : ℤ
enosys = negsuc 37

module _ (L : Liblxc) where
  open L use {Ptr, World, version, constants, info, life, snaps, device, config, attach, host}

  abbrev since : ℕ → ℕ → ℕ → Bool
  since = version_at_least_macro version

  unfoldable pub go_lxc_init_pidfd : Ptr → Numbered World
  unfolding version_at_least_macro
  go_lxc_init_pidfd p w = if since 4 0 0 then info.init_pidfd p w else (enosys, w)

  unfoldable pub go_lxc_seccomp_notify_fd : Ptr → Numbered World
  unfolding version_at_least_macro
  go_lxc_seccomp_notify_fd p w = if since 4 0 0 then info.seccomp_notify_fd p w else (enosys, w)

  unfoldable pub go_lxc_seccomp_notify_fd_active : Ptr → Numbered World
  unfolding version_at_least_macro
  go_lxc_seccomp_notify_fd_active p w =
      if since 4 0 5 then info.seccomp_notify_fd_active p w else (enosys, w)

  unfoldable pub go_lxc_devpts_fd : Ptr → Numbered World
  unfolding version_at_least_macro
  go_lxc_devpts_fd p w = if since 4 0 5 then info.devpts_fd p w else (enosys, w)

  -- `strncmp(t, "none", strlen(t)) == 0`
  unfoldable pub names_none : Text → Bool
  unfolding strip_prefix
  names_none t = elim (strip_prefix t (codes "none")) [ some _ ↦ true | none ↦ false ]

  unfoldable pub go_lxc_create :
      Ptr → Text → Text → Option BdevSpecs → ℕ → Option (List Text) → Command World
  unfolding names_none
  go_lxc_create p t bdevtype specs flags argv =
      let is_quiet = not (bit_and flags constants.create_quiet == 0) in
      life.create p (if names_none t then none else some t) bdevtype specs is_quiet argv

  unfoldable pub go_lxc_destroy_with_snapshots : Ptr → Command World
  unfolding version_at_least_macro
  go_lxc_destroy_with_snapshots p w =
      if since 1 1 0 then life.destroy_with_snapshots p w else (false, w)

  unfoldable pub go_lxc_snapshot_destroy_all : Ptr → Command World
  unfolding version_at_least_macro
  go_lxc_snapshot_destroy_all p w =
      if since 1 1 0 then snaps.snapshot_destroy_all p w else (false, w)

  -- The wrappers that ask for the length, fetch the text into a buffer of that length, and give a
  -- null pointer for an empty text.
  abbrev pub not_empty : Option Text → Option Text
  not_empty none = none
  not_empty (some []) = none
  not_empty (some (c ∷ s)) = some (c ∷ s)

  unfoldable pub go_lxc_get_config_item : Ptr → Text → World → Option Text
  go_lxc_get_config_item p key w = not_empty (config.get_config_item p key w)

  unfoldable pub go_lxc_get_keys : Ptr → Option Text → World → Option Text
  go_lxc_get_keys p key w = not_empty (config.get_keys p key w)

  unfoldable pub go_lxc_get_cgroup_item : Ptr → Text → World → Option Text
  go_lxc_get_cgroup_item p key w = not_empty (config.get_cgroup_item p key w)

  -- The reference to the copy is dropped at once.
  unfoldable pub go_lxc_clone : Ptr → Text → Option Text → ℕ → Text → Command World
  go_lxc_clone p newname lxcpath flags bdevtype w =
      let (copy, w') = life.clone p newname lxcpath flags bdevtype w in
      elim copy [
        | none ↦ (false, w')
        | some c2 ↦ let (_, w'') = host.container_put (some c2) w' in (true, w'')
      ]

  unfoldable pub go_lxc_console_getfd : Ptr → ℤ → Numbered World
  go_lxc_console_getfd p ttynum w =
      let (r, w') = attach.console_getfd p ttynum w in
      let (ret, mainfd) = r in (if is_neg ret then ret else mainfd, w')

  unfoldable pub go_lxc_console : Ptr → ℤ → ℤ → ℤ → ℤ → ℕ → Command World
  go_lxc_console p ttynum stdinfd stdoutfd stderrfd escape w =
      let (ret, w') = attach.console p ttynum stdinfd stdoutfd stderrfd escape w in
      (elim ret [ pos n ↦ n == 0 | negsuc n ↦ false ], w')

  unfoldable pub go_lxc_checkpoint : Ptr → Text → Bool → Bool → Command World
  unfolding version_at_least_macro
  go_lxc_checkpoint p directory stop verbose w =
      if since 1 1 0 then device.checkpoint p directory stop verbose w else (false, w)

  unfoldable pub go_lxc_restore : Ptr → Text → Bool → Command World
  unfolding version_at_least_macro
  go_lxc_restore p directory verbose w =
      if since 1 1 0 then device.restore p directory verbose w else (false, w)

  unfoldable pub go_lxc_attach_interface : Ptr → Text → Text → Command World
  unfolding version_at_least_macro
  go_lxc_attach_interface p dev dst w =
      if since 1 1 0 then device.attach_interface p dev dst w else (false, w)

  unfoldable pub go_lxc_detach_interface : Ptr → Text → Option Text → Command World
  unfolding version_at_least_macro
  go_lxc_detach_interface p dev dst w =
      if since 1 1 0 then device.detach_interface p dev dst w else (false, w)

  -- The extra options reach the structure from the versions on that know them.
  unfoldable pub go_lxc_migrate : Ptr → ℕ → MigrateOpts → MigrateOpts → Numbered World
  unfolding version_at_least_macro
  go_lxc_migrate p cmd opts extras w =
      let o = record opts {
        features_to_check =
            if since 3 0 0 then extras.features_to_check else opts.features_to_check;
        action_script = if since 2 0 4 then extras.action_script else opts.action_script;
        ghost_limit = if since 2 0 4 then extras.ghost_limit else opts.ghost_limit;
        preserves_inodes = if since 2 0 1 then extras.preserves_inodes else opts.preserves_inodes;
      } in
      if since 2 0 0 then device.migrate p cmd o w else (negsuc 21, w)

  -- What the three attach wrappers do with the groups.
  unfoldable pub with_groups : List ℕ → AttachSettings → AttachSettings
  unfolding version_at_least_macro
  with_groups groups a =
      if since 4 0 9 && ltb 0 (length groups)
      then record a {
        groups = some groups;
        attach_flags = bit_and a.attach_flags constants.attach_setgroups;
      }
      else a

  -- `WIFEXITED` and `WEXITSTATUS` of <sys/wait.h>, on a wait status.
  abbrev pub exited : ℕ → Bool
  exited status = status % 128 == 0

  abbrev pub exit_status : ℕ → ℕ
  exit_status status = status / 256 % 256

  -- The rounds of `wait_for_pid_status`; -1 where they are not enough.
  unfoldable pub wait_round : ℕ → ℕ → Numbered World
  wait_round zero pid w = (minus_one, w)
  wait_round (suc rounds) pid w =
      let (a, w') = attach.waitpid pid w in
      let again = wait_round rounds pid w' in
      elim a [
        | interrupted ↦ again
        | failed ↦ (minus_one, w')
        | reaped ret status ↦ if ret == pid then (pos status, w') else again
      ]

  -- `wait_for_pid_status`
  unfoldable pub wait_for_pid_status : ℕ → Numbered World
  unfolding wait_round
  wait_for_pid_status pid w = wait_round (attach.wait_rounds pid w) pid w

  unfoldable pub go_lxc_attach : Ptr → AttachSettings → List ℕ → Numbered World
  unfolding with_groups wait_for_pid_status
  go_lxc_attach p a groups w =
      let (r, w') = attach.attach_shell p (with_groups groups a) w in
      let (ret, pid) = r in
      if is_neg ret
      then (ret, w')
      else let (status, w'') = wait_for_pid_status pid w' in
        (
          elim status [ pos n ↦ pos (if exited n then exit_status n else n) | negsuc n ↦ negsuc n ],
          w'',
        )

  -- The result, and the pid of the attached process.
  unfoldable pub go_lxc_attach_no_wait :
      Ptr → AttachSettings → List ℕ → List Text → World → (ℤ × ℕ) × World
  unfolding with_groups
  go_lxc_attach_no_wait p a groups argv w =
      let (r, w') = attach.attach_command p (with_groups groups a) argv w in
      let (ret, pid) = r in ((if is_neg ret then ret else pos 0, pid), w')

  unfoldable pub go_lxc_attach_run_wait : Ptr → AttachSettings → List ℕ → List Text → Numbered World
  unfolding with_groups
  go_lxc_attach_run_wait p a groups argv w =
      let (ret, w') = attach.attach_run_wait p (with_groups groups a) argv w in
      (
        elim ret [
          | pos n ↦ if exited n && exit_status n == 255 then minus_one else pos n
          | negsuc n ↦ negsuc n
        ],
        w',
      )

  unfoldable pub go_lxc_config_item_is_supported : Text → Bool
  unfolding version_at_least_macro
  go_lxc_config_item_is_supported key =
      if since 2 1 0 then host.config_item_is_supported key else false

  unfoldable pub go_lxc_has_api_extension : Text → Bool
  unfolding version_at_least_macro
  go_lxc_has_api_extension extension =
      if since 3 1 0 then host.has_api_extension extension else false

  -- Below version 3 the wrapper answers `false`, that is 0, and leaves the number of bytes and the null pointer.
  unfoldable pub go_lxc_console_log : Ptr → Bool → Bool → ℕ → World → (ℤ × ℕ × Option Text) × World
  unfolding version_at_least_macro
  go_lxc_console_log p clear_log read_log read_max w =
      if since 3 0 0
      then attach.console_log p clear_log read_log read_max w
      else ((pos 0, read_max, none), w)
