-- ===== src/Tests/Figures.antt =====
-- The theorems on cgroup figures, over the small library with two cgroup files.
use go_lxc.Base.{true, some, [], ◌∷◌, ◌++◌, codes, text_eq, if◌then◌else◌, ◌≡◌, refl, arith, pos}
use go_lxc.Base.Strings.{c_string, is_space}
use go_lxc.Base.Decimal.{format, atoi}
use go_lxc.Exec.{ok}
use go_lxc.Liblxc.{Liblxc}
use go_lxc.Container.{State, make_sure}
use go_lxc.Container.Cgroups.{cpu_time_per_cpu, cpu_time, cpu_stats}
use go_lxc.Container.Cgroups.Figures.{row, numbered}
use go_lxc.Container.Cgroups.Stats.{counted, cpu_figures_read}
use go_lxc.Container.Cgroups.Limits.{whole, setter, getter, limit_read_back}
use go_lxc.Tests.Sim.{sim, naturals, resting, empty_heap}

abbrev metered : Liblxc
metered = record sim {
  config = record sim.config {
    get_cgroup_item = λ _ key w.
        if text_eq key (codes "cpuacct.usage")
        then some (codes "1234\n")
        else if text_eq key (codes "cpuacct.stat")
        then some (codes "user 50\nsystem 8\n")
        else some (codes "7 0 1200 \n");
  };
}

abbrev busy : State metered
busy = record {
  handle = some 1;
  verbosity = 0;
  world = record resting { is_running = true };
  heap = empty_heap;
}

cpu_figures_read_example :
    (cpu_time_per_cpu metered busy ≡ (ok ((0, pos 7) ∷ (1, pos 0) ∷ (2, pos 1200) ∷ []), busy))
    × (cpu_time metered busy ≡ (ok (pos 1234), busy))
    × (cpu_stats metered busy ≡ (ok (counted metered 50 8), busy))
unfolding make_sure text_eq c_string format is_space row numbered
cpu_figures_read_example =
    cpu_figures_read metered busy 1 7 (0 ∷ 1200 ∷ []) 1234 50 8 (codes " \n") (codes "\n")
      (codes "\n") refl (refl, refl, (refl, (refl, tt))) (refl, refl, (refl, tt))
      (refl, refl, (refl, tt))
      (omega arith, (omega arith, (omega arith, (omega arith, (omega arith, (omega arith, tt))))))

-- The last cgroup item that was set is kept, with a newline after it.
abbrev keeping : Liblxc
keeping = record sim {
  config = record sim.config {
    get_cgroup_item = λ _ _ w. some w.level;
    set_cgroup_item = λ _ _ v w. (true, record w { level = v ++ codes "\n" });
  };
}

abbrev limited : State keeping
limited = record {
  handle = some 1;
  verbosity = 0;
  world = record resting { is_running = true };
  heap = empty_heap;
}

limit_read_back_example :
    (getter keeping naturals whole (setter keeping naturals whole 4096 limited).1).0 ≡ ok 4096
unfolding setter c_string format atoi
limit_read_back_example =
    limit_read_back keeping naturals whole 4096 4096 1 limited (λ h. refl) (refl, refl) refl refl
      refl
