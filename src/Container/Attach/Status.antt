-- ===== src/Container/Attach/Status.antt =====
-- container.go and lxc-binding.c: the exit status that RunCommandStatus and RunCommand return, and
-- the attach flags where groups are given.
use go_lxc.Base.{
  ℕ, suc, ◌*◌, ◌%◌, ◌<◌, ℤ, pos, true, false, List, [], ◌∷◌, Text, ◌≡◌, ◌==◌, arith, none, some,
  bit_and, length, map, minus_one, ◌∙◌, ◌⊎◌,
}
use go_lxc.Exec.{ok}
use go_lxc.Liblxc.{Liblxc, AttachSettings}
use go_lxc.Binding.{go_lxc_attach_run_wait, with_groups, version_at_least_macro}
use go_lxc.Base.Strings.{c_string}
use go_lxc.Memory.{alloc, make_null_terminated_args}
use go_lxc.Memory.Arrays.{argv_texts-make}
use go_lxc.Options.{AttachOptions}
use go_lxc.Container.{State, Method, is_running, make_sure, with_args, with_string, lend}
use go_lxc.Container.Attach.{
  run_and_wait, status_of, as_success, attach_settings, make_groups, run_command_status,
  run_command,
}

-- The rest of the method runs on what the library reads of the array.
pub with_args-room :
    {L : Liblxc} {V A : Type 0} (v : V) (args : List Text) (k : List Text → Method L V A)
    (s : State L)
    → L.host.can_calloc (suc (length args)) s.world ≡ true
    → (with_args v args k s).0
      ≡ (k
          (map c_string args)
          (record s { heap = (make_null_terminated_args true args s.heap).1 })).0
unfolding with_args lend make_null_terminated_args alloc
with_args-room v args k s room = ground (arith, room, argv_texts-make args s.heap)

module _ (L : Liblxc) where
  open L use {Ptr, World, version, constants, attach, host}

  -- What the library answers to a command, run with the settings of the options, the groups folded in.
  abbrev pub answer : Ptr → Text → List Text → AttachOptions → World → ℤ
  answer p a args o w =
      (attach.attach_run_wait p
        (with_groups L (make_groups o.groups)
          (attach_settings L o (map c_string o.env) (map c_string o.env_to_keep)))
        (map c_string (a ∷ args)) w).0

  -- `C` finds room for every array of pointers.
  abbrev pub HasRoom : World → Type 0
  HasRoom w = (n : ℕ) → host.can_calloc n w ≡ true

  abbrev pub settings : AttachOptions → AttachSettings
  settings o = attach_settings L o (map c_string o.env) (map c_string o.env_to_keep)

  -- The part of `runCommandStatus` that holds the three arrays.
  abbrev with_arrays : Ptr → Text → List Text → AttachOptions → Method L ℤ ℤ
  with_arrays p a args o = with_args minus_one (a ∷ args) λ argv. with_args minus_one o.env λ env.
      with_args minus_one o.env_to_keep λ keep.
        with_string o.cwd
          (run_and_wait L p (attach_settings L o env keep) (make_groups o.groups) argv)

  arrays_reach :
      (p : Ptr) (a : Text) (args : List Text) (o : AttachOptions) (s : State L)
      → HasRoom s.world
      → (with_arrays p a args o s).0
        ≡ (run_and_wait L p (settings o) (make_groups o.groups) (map c_string (a ∷ args)) s).0
  unfolding run_and_wait with_string
  arrays_reach p a args o s room =
      with_args-room minus_one (a ∷ args) _ s (room _)
      ∙ with_args-room minus_one o.env _ _ (room _)
      ∙ with_args-room minus_one o.env_to_keep _ _ (room _)

  -- The command reaches the library whole.
  reaches :
      (p : Ptr) (a : Text) (args : List Text) (o : AttachOptions) (s : State L)
      → s.handle ≡ some p
      → make_sure L is_running s ≡ none
      → HasRoom s.world
      → (run_command_status L (a ∷ args) o s).0
        ≡ (run_and_wait L p (settings o) (make_groups o.groups) (map c_string (a ∷ args)) s).0
  unfolding run_command_status
  reaches p a args o s e sure_ok room = ground (arith, e, sure_ok, arrays_reach p a args o s room)

  -- The process exited with a status below 255: `RunCommandStatus` returns that status, and
  -- `RunCommand` says whether it is 0. The container is not released and runs, and there is room for
  -- the arrays; `answer` is what the library gives for the command, the environment and the groups.
  pub run_command-exited :
      (p : Ptr) (a : Text) (args : List Text) (o : AttachOptions) (s : State L) (k : ℕ)
      → s.handle ≡ some p
      → make_sure L is_running s ≡ none
      → HasRoom s.world
      → k < 255
      → answer p a args o s.world ≡ pos (k * 256)
      → ((run_command_status L (a ∷ args) o s).0 ≡ ok (pos k))
        × ((run_command L (a ∷ args) o s).0 ≡ ok (k == 0))
  unfolding run_command as_success run_and_wait go_lxc_attach_run_wait status_of
  run_command-exited p a args o s k e sure_ok room small same =
      ground (arith, reaches p a args o s e sure_ok room, same)

  -- The process was killed by a signal: the wait status holds the signal in its low byte, and
  -- `RunCommand` returns true without an error.
  pub run_command-killed :
      (p : Ptr) (a : Text) (args : List Text) (o : AttachOptions) (s : State L) (k : ℕ)
      → s.handle ≡ some p
      → make_sure L is_running s ≡ none
      → HasRoom s.world
      → k < 256
      → 0 < k % 128
      → answer p a args o s.world ≡ pos k
      → (run_command L (a ∷ args) o s).0 ≡ ok true
  unfolding run_command as_success run_and_wait go_lxc_attach_run_wait status_of
  run_command-killed p a args o s k e sure_ok room small signal same =
      ground (arith, reaches p a args o s e sure_ok room, same)

  -- With groups, and a library that knows them, of the attach flags only the one for groups can stay;
  -- without groups, or with an older library, the settings are as they were.
  pub with_groups-masks :
      (a : AttachSettings) (groups : List ℕ)
      → ((version_at_least_macro version 4 0 9 ≡ true) × (0 < length groups)
          → (with_groups L groups a).attach_flags
            ≡ bit_and a.attach_flags constants.attach_setgroups)
        × ((version_at_least_macro version 4 0 9 ≡ false) ⊎ (groups ≡ [])
            → with_groups L groups a ≡ a)
  unfolding with_groups
  with_groups-masks a [] = (λ h. absurd (omega arith), λ h. ground arith)
  with_groups-masks a (g ∷ groups) = (λ h. ground arith, λ h. ground arith)
