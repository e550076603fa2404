-- ===== src/Container/Attach/Numbers.antt =====
-- container.go: the numbers of the attach options as C's types of 32 bits.
use go_lxc.Base.{
  Bool, true, false, bit_and, length, ◌⊎◌, inl, inr, refl, ℕ, suc, ◌+◌, ◌-◌, ◌%◌, ◌<◌, ℤ, pos,
  negsuc, to_uint32, to_int32, two_to_32, List, [], ◌∷◌, Text, ◌≡◌, arith,
}
use go_lxc.Liblxc.{Liblxc, AttachSettings}
use go_lxc.Binding.{with_groups, version_at_least_macro}
use go_lxc.Container.Attach.Status.{with_groups-masks}
use go_lxc.Options.{AttachOptions}
use go_lxc.Container.Attach.{attach_settings, attach_flags, make_groups}

-- The word of 32 bits that is congruent to an integer.
abbrev pub IsWrapped : ℤ → ℕ → Type 0
IsWrapped (pos n) u = (u < two_to_32) × (n % two_to_32 ≡ u)
IsWrapped (negsuc n) u = (u < two_to_32) × ((u + suc n) % two_to_32 ≡ 0)

-- The `int` of 32 bits whose word that is.
abbrev pub IsInt32 : ℤ → ℤ → Type 0
IsInt32 z (pos n) = (n < 0x8000_0000) × IsWrapped z n
IsInt32 z (negsuc n) = (n < 0x8000_0000) × IsWrapped z (two_to_32 - suc n)

to_uint32-IsWrapped : (z : ℤ) → IsWrapped z (to_uint32 z)
unfolding to_uint32
to_uint32-IsWrapped (pos n) = omega arith
to_uint32-IsWrapped (negsuc n) = omega arith

to_int32-IsInt32 : (z : ℤ) → IsInt32 z (to_int32 z)
unfolding to_int32
to_int32-IsInt32 (pos n) = ground arith
to_int32-IsInt32 (negsuc n) = ground arith

-- Item by item.
abbrev pub AreWrapped : List ℤ → List ℕ → Type 0
AreWrapped [] [] = Unit
AreWrapped (z ∷ zs) (u ∷ us) = IsWrapped z u × AreWrapped zs us
AreWrapped _ _ = ⊥

make_groups-AreWrapped : (zs : List ℤ) → AreWrapped zs (make_groups zs)
unfolding make_groups
make_groups-AreWrapped [] = tt
make_groups-AreWrapped (z ∷ zs) = (to_uint32-IsWrapped z, make_groups-AreWrapped zs)

-- The numbers that C is given for the options.
pub record Fits (o : AttachOptions) (a : AttachSettings) (groups : List ℕ) : Type 0 where
  pub uid_wrapped : IsWrapped o.uid a.uid
  pub gid_wrapped : IsWrapped o.gid a.gid
  pub groups_wrapped : AreWrapped o.groups groups
  pub namespaces_int : IsInt32 o.namespaces a.namespaces
  pub stdin_int : IsInt32 (pos o.stdin_fd) a.stdin_fd
  pub stdout_int : IsInt32 (pos o.stdout_fd) a.stdout_fd
  pub stderr_int : IsInt32 (pos o.stderr_fd) a.stderr_fd

attach_settings-Fits :
    (L : Liblxc) (o : AttachOptions) (env keep : List Text)
    → Fits o (attach_settings L o env keep) (make_groups o.groups)
unfolding attach_settings
attach_settings-Fits L o env keep = record {
  uid_wrapped = to_uint32-IsWrapped o.uid;
  gid_wrapped = to_uint32-IsWrapped o.gid;
  groups_wrapped = make_groups-AreWrapped o.groups;
  namespaces_int = to_int32-IsInt32 o.namespaces;
  stdin_int = to_int32-IsInt32 (pos o.stdin_fd);
  stdout_int = to_int32-IsInt32 (pos o.stdout_fd);
  stderr_int = to_int32-IsInt32 (pos o.stderr_fd);
}

module _ (L : Liblxc) where
  open L use {version, constants}

  -- The library knows groups, and is given some.
  abbrev pub TakesGroups : List ℕ → Type 0
  TakesGroups groups = (version_at_least_macro version 4 0 9 ≡ true) × (0 < length groups)

  abbrev pub LacksGroups : List ℕ → Type 0
  LacksGroups groups = (version_at_least_macro version 4 0 9 ≡ false) ⊎ (groups ≡ [])

  -- What `with_groups` does, by the test of its first line.
  masked_by :
      (b : Bool) (a : AttachSettings) (groups : List ℕ)
      → version_at_least_macro version 4 0 9 ≡ b
      → (TakesGroups groups
          × ((with_groups L groups a).attach_flags
              ≡ bit_and a.attach_flags constants.attach_setgroups))
        ⊎ (LacksGroups groups × (with_groups L groups a ≡ a))
  masked_by false a groups e = inr (inl e, (with_groups-masks L a groups).1 (inl e))
  masked_by true a [] e = inr (inr refl, (with_groups-masks L a []).1 (inr refl))
  masked_by true a (g ∷ groups) e =
      let takes : TakesGroups (g ∷ groups) = (e, omega arith) in
      inl (takes, (with_groups-masks L a (g ∷ groups)).0 takes)

  with_groups-Fits :
      (o : AttachOptions) (a : AttachSettings) (groups gs : List ℕ)
      → Fits o a gs
      → Fits o (with_groups L groups a) gs
  unfolding with_groups
  with_groups-Fits o a groups gs h = record {
    uid_wrapped = ground (arith, h.uid_wrapped);
    gid_wrapped = ground (arith, h.gid_wrapped);
    groups_wrapped = h.groups_wrapped;
    namespaces_int = ground (arith, h.namespaces_int);
    stdin_int = ground (arith, h.stdin_int);
    stdout_int = ground (arith, h.stdout_int);
    stderr_int = ground (arith, h.stderr_int);
  }

  pub settings_given :
      (o : AttachOptions) (env keep : List Text)
      → Fits o
          (with_groups L (make_groups o.groups) (attach_settings L o env keep))
          (make_groups o.groups)
        × ((TakesGroups (make_groups o.groups)
              × ((with_groups L (make_groups o.groups) (attach_settings L o env keep)).attach_flags
                  ≡ bit_and (attach_flags L o) constants.attach_setgroups))
            ⊎ (LacksGroups (make_groups o.groups)
                × (with_groups L (make_groups o.groups) (attach_settings L o env keep)
                    ≡ attach_settings L o env keep)))
  unfolding attach_settings
  settings_given o env keep = (
    with_groups-Fits o _ (make_groups o.groups) _ (attach_settings-Fits L o env keep),
    masked_by _ (attach_settings L o env keep) (make_groups o.groups) refl,
  )
