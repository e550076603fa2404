-- ===== src/Container/Cgroups.antt =====
-- container.go: the limits and counters that are read from and written to cgroup files.
pub mod Memory
pub mod Figures
pub mod Stats
pub mod Limits
use go_lxc.Base.{
  ℕ, zero, suc, ◌+◌, ℤ, pos, negsuc, minus_one, Bool, true, false, Option, none, some, List, [],
  ◌∷◌, Text, codes, text_eq, if◌then◌else◌,
}
use go_lxc.Base.Strings.{split, split_text}
use go_lxc.Base.Decimal.{atoi}
use go_lxc.Errors.{Error, LxcError, sentinel, bad_number, err_blkio_usage}
use go_lxc.Exec.{Exec, ok, err, fault, pure, fail, panic, index_out_of_range, ◌>>=◌, ◌>>◌}
use go_lxc.Liblxc.{Liblxc}
use go_lxc.Floats.{Floats}
use go_lxc.Container.{State, Action, Method, is_running, sure, make_sure}
use go_lxc.Container.Config.{first, cgroup_item, set_cgroup_item}

-- `items[1]`
abbrev pub second : {S V : Type 0} → List Text → Exec S V Text
second (_ ∷ t ∷ _) = pure t
second _ = panic index_out_of_range

-- `strconv.ParseInt(s, 10, 64)` with the return of its error.
abbrev pub parse_int_or : {S V : Type 0} → V → Text → Exec S V ℤ
parse_int_or v s = elim (atoi s) [ none ↦ fail v (bad_number s) | some n ↦ pure n ]

module _ (L : Liblxc) (R : Floats) where
  open R use {Float, parse_float, of_ℤ, print_whole}

  -- `cgroupItemAsByteSize`
  unfoldable pub cgroup_item_as_byte_size : Text → LxcError → Method L Float Float
  unfolding cgroup_item
  cgroup_item_as_byte_size filename missing = do
    item ← λ s. first (cgroup_item L filename s) s
    elim (parse_float item) [
      | none ↦ fail (of_ℤ minus_one) (sentinel missing)
      | some size ↦ pure size
    ]

  -- `setCgroupItemWithByteSize`: any error becomes `missing`.
  unfoldable pub set_cgroup_item_with_byte_size : Text → Float → LxcError → Action L
  unfolding set_cgroup_item
  set_cgroup_item_with_byte_size filename limit missing s =
      let (r, t) = set_cgroup_item L filename (print_whole limit) s in
      elim r [ ok u ↦ (ok u, t) | err _ _ ↦ (err tt (sentinel missing), t) | fault x ↦ panic x t ]

  -- What `BlkioUsage` returns at the line that begins with "Total".
  abbrev pub blkio_used : List Text → Method L Float Float
  blkio_used b = do
    number ← second b
    elim (parse_float number) [ none ↦ fail (of_ℤ minus_one) (bad_number number) | some n ↦ pure n ]

  -- The loop of `BlkioUsage` over the lines.
  unfoldable pub total_of : List Text → Method L Float Float
  unfolding split text_eq
  total_of [] = fail (of_ℤ minus_one) (sentinel err_blkio_usage)
  total_of (v ∷ vs) =
      let others = total_of vs in
      do
        head ← first (split v b' ')
        if text_eq head (codes "Total") then blkio_used (split v b' ') else others

  -- `BlkioUsage`
  unfoldable pub blkio_usage : Method L Float Float
  unfolding make_sure cgroup_item total_of
  blkio_usage = do
    sure (of_ℤ minus_one) is_running
    items ← λ s. (ok (cgroup_item L (codes "blkio.throttle.io_service_bytes") s), s)
    head ← first items
    if text_eq head [] then pure (of_ℤ (pos 0)) else total_of items

module _ (L : Liblxc) where
  -- `CPUTime`
  unfoldable pub cpu_time : Method L ℤ ℤ
  unfolding make_sure cgroup_item atoi text_eq
  cpu_time = do
    sure minus_one is_running
    usage ← λ s. first (cgroup_item L (codes "cpuacct.usage") s) s
    if text_eq usage [] then pure (pos 0) else parse_int_or minus_one usage

  -- The loop of `CPUTimePerCPU` from CPU `i` on; the map in the order of its keys.
  unfoldable pub per_cpu : ℕ → List Text → Method L (List (ℕ × ℤ)) (List (ℕ × ℤ))
  unfolding atoi
  per_cpu i [] = pure []
  per_cpu i (v ∷ vs) =
      let rest = per_cpu (suc i) vs in
      do usage ← parse_int_or [] v; times ← rest; pure ((i, usage) ∷ times)

  -- `CPUTimePerCPU`
  unfoldable pub cpu_time_per_cpu : Method L (List (ℕ × ℤ)) (List (ℕ × ℤ))
  unfolding make_sure cgroup_item per_cpu split text_eq
  cpu_time_per_cpu = do
    sure [] is_running
    usage ← λ s. first (cgroup_item L (codes "cpuacct.usage_percpu") s) s
    if text_eq usage [] then pure ((0, pos 0) ∷ []) else per_cpu 0 (split usage b' ')

  -- `CPUStats`
  unfoldable pub cpu_stats : Method L (List (Text × ℤ)) (List (Text × ℤ))
  unfolding make_sure cgroup_item split_text atoi text_eq
  cpu_stats = do
    sure [] is_running
    stat ← λ s. (ok (cgroup_item L (codes "cpuacct.stat") s), s)
    head ← first stat
    if text_eq head [] then pure ((codes "user", pos 0) ∷ (codes "system", pos 0) ∷ []) else do
      user_text ← second (split_text (codes "user ") head)
      user ← parse_int_or [] user_text
      line ← second stat
      system_text ← second (split_text (codes "system ") line)
      system ← parse_int_or [] system_text
      pure ((codes "user", user) ∷ (codes "system", system) ∷ [])
