-- ===== src/Container/Cgroups/Stats.antt =====
-- container.go: what the kernel prints into cpuacct.stat, and the CPU figures together.
use go_lxc.Base.{
  ℕ, ℤ, pos, none, List, [], ◌∷◌, ◌++◌, Text, codes, ◌≡◌, refl, ap, ◌∙◌, arith, All, All-append,
}
use go_lxc.Base.Strings.{split, split_text, split_text_from, strip_prefix}
use go_lxc.Base.Strings.Laws.{Lacks, split-Lacks, split-part, split_text_from-Lacks}
use go_lxc.Base.Strings.Trim.{IsSolid, Last, Last-append}
use go_lxc.Base.Decimal.{format}
use go_lxc.Base.Decimal.RoundTrip.{format-Lacks, atoi-format}
use go_lxc.Exec.{ok}
use go_lxc.Liblxc.{Liblxc}
use go_lxc.Container.{State, make_sure, is_running}
use go_lxc.Container.Cgroups.{cpu_time, cpu_time_per_cpu, cpu_stats}
use go_lxc.Container.Cgroups.Figures.{
  row, numbered, Prints, IsInt64, format-Last, cgroup_item-text, cpu_time-Prints,
  cpu_time_per_cpu-Prints,
}

-- The two lines of cpuacct.stat.
abbrev pub user_line : ℕ → Text
user_line u = codes "user " ++ format u

abbrev pub system_line : ℕ → Text
system_line v = codes "system " ++ format v

-- cpuacct.stat, without what follows the last number.
abbrev pub stat_text : ℕ → ℕ → Text
stat_text u v = user_line u ++ (b'\n' ∷ system_line v)

user_line-Lacks : (u : ℕ) → Lacks b'\n' (user_line u)
user_line-Lacks u =
    All-append _ (codes "user ") (format u)
      (omega arith, (omega arith, (omega arith, (omega arith, (omega arith, tt)))))
      (format-Lacks b'\n' u (omega arith))

system_line-Lacks : (v : ℕ) → Lacks b'\n' (system_line v)
system_line-Lacks v =
    All-append _ (codes "system ") (format v)
      (
        omega arith,
        (
          omega arith,
          (omega arith, (omega arith, (omega arith, (omega arith, (omega arith, tt))))),
        ),
      )
      (format-Lacks b'\n' v (omega arith))

stat_text-lines : (u v : ℕ) → split (stat_text u v) b'\n' ≡ user_line u ∷ system_line v ∷ []
stat_text-lines u v =
    split-part (user_line u) (system_line v) b'\n' (user_line-Lacks u)
    ∙ ap (λ t. user_line u ∷ t) (split-Lacks (system_line v) b'\n' (system_line-Lacks v))

stat_text-Last : (u v : ℕ) → Last IsSolid (stat_text u v)
stat_text-Last u v =
    Last-append IsSolid (user_line u) (b'\n' ∷ system_line v)
      (Last-append IsSolid (b'\n' ∷ codes "system ") (format v) (format-Last v))

-- What stands after "user " and "system ".
split_text-user : (u : ℕ) → split_text (codes "user ") (user_line u) ≡ [] ∷ format u ∷ []
unfolding split_text split_text_from strip_prefix
split_text-user u =
    ap (λ t. [] ∷ t)
      (split_text_from-Lacks b'u' (codes "ser ") [] (format u) (format-Lacks b'u' u (omega arith)))

split_text-system : (v : ℕ) → split_text (codes "system ") (system_line v) ≡ [] ∷ format v ∷ []
unfolding split_text split_text_from strip_prefix
split_text-system v =
    ap (λ t. [] ∷ t)
      (split_text_from-Lacks b's' (codes "ystem ") [] (format v)
        (format-Lacks b's' v (omega arith)))

module _ (L : Liblxc) where
  open L use {Ptr}

  -- What `CPUStats` returns for the two numbers.
  abbrev pub counted : ℕ → ℕ → List (Text × ℤ)
  counted u v = (codes "user", pos u) ∷ (codes "system", pos v) ∷ []

  -- `CPUStats` of a container that was not released and runs is the two numbers that the kernel prints
  -- in decimal into "cpuacct.stat", each in its line after "user " and "system ".
  cpu_stats-Prints :
      (s : State L) (p : Ptr) (u v : ℕ) (end : Text)
      → make_sure L is_running s ≡ none
      → Prints L s p (codes "cpuacct.stat") (stat_text u v) end
      → IsInt64 L u
      → IsInt64 L v
      → cpu_stats L s ≡ (ok (counted u v), s)
  unfolding cpu_stats
  cpu_stats-Prints s p u v end r h a b =
      let lines =
        cgroup_item-text L s p (codes "cpuacct.stat") (stat_text u v) end h refl
          (stat_text-Last u v)
        ∙ stat_text-lines u v in
      ground
        (arith, r, lines, split_text-user u, split_text-system v, atoi-format u a, atoi-format v b)

  -- Of a container that was not released and runs, where the kernel prints numbers in decimal, each of
  -- which an int64 holds, into the three files of cpuacct, with spaces or a newline after the last:
  -- `CPUTimePerCPU` gives to each processor, from 0 on, its number in "cpuacct.usage_percpu", which has
  -- a space between two; `CPUTime` is the number in "cpuacct.usage"; and `CPUStats` is the two numbers
  -- in "cpuacct.stat", each in its line after "user " and "system ". None changes the state.
  pub cpu_figures_read :
      (s : State L) (p : Ptr) (n : ℕ) (ns : List ℕ) (total u v : ℕ) (end end' end'' : Text)
      → make_sure L is_running s ≡ none
      → Prints L s p (codes "cpuacct.usage_percpu") (row n ns) end
      → Prints L s p (codes "cpuacct.usage") (format total) end'
      → Prints L s p (codes "cpuacct.stat") (stat_text u v) end''
      → All (IsInt64 L) (total ∷ u ∷ v ∷ n ∷ ns)
      → (cpu_time_per_cpu L s ≡ (ok (numbered L 0 (n ∷ ns)), s))
        × (cpu_time L s ≡ (ok (pos total), s))
        × (cpu_stats L s ≡ (ok (counted u v), s))
  cpu_figures_read s p n ns total u v end end' end'' r each whole stat (a, (b, (c, d))) = (
    cpu_time_per_cpu-Prints L s p n ns end r each d,
    cpu_time-Prints L s p total end' r whole a,
    cpu_stats-Prints s p u v end'' r stat b c,
  )
