-- ===== src/Tests/Handed.antt =====
-- The theorems on AttachShell and on arrays that the library hands over, at concrete inputs.
use go_lxc.Binding.{with_groups}
use go_lxc.Base.{
  bit_and, ◌⊎◌, pos, minus_one, some, [], ◌∷◌, codes, ◌≡◌, refl, arith, ◌==◌, if◌then◌else◌, true,
}
use go_lxc.Base.Strings.{c_string}
use go_lxc.Exec.{ok}
use go_lxc.Liblxc.{Liblxc, interrupted, reaped}
use go_lxc.Memory.{make_null_terminated_args}
use go_lxc.Memory.Arrays.{argv_texts-make}
use go_lxc.Memory.Returned.{Hand, HandsOver, make-HasNull, get_array_length-make}
use go_lxc.Options.{AttachOptions, default_attach_options}
use go_lxc.Container.{State, make_sure}
use go_lxc.Container.Attach.{attach_shell, attach_settings, attach_flags, make_groups}
use go_lxc.Container.Attach.Numbers.{Fits, TakesGroups, LacksGroups, settings_given}
use go_lxc.Container.Attach.Shell.{attach_shell-Waits, Waits, ends, again}
use go_lxc.Container.Network.Returned.{interfaces_of, list_with, plain, IsLeft, list_with-IsLeft}
use go_lxc.Tests.Sim.{sim, resting, empty_heap, held, Host}

-- Options with a group and a user that is -1.
abbrev grouped : AttachOptions
grouped = record default_attach_options { uid = minus_one; groups = pos 100 ∷ [] }

settings_given_example :
    Fits grouped
      (with_groups sim (make_groups grouped.groups) (attach_settings sim grouped [] []))
      (make_groups grouped.groups)
    × ((TakesGroups sim (make_groups grouped.groups)
          × ((with_groups sim
                (make_groups grouped.groups)
                (attach_settings sim grouped [] [])).attach_flags
              ≡ bit_and (attach_flags sim grouped) 1048576))
        ⊎ (LacksGroups sim (make_groups grouped.groups)
            × (with_groups sim (make_groups grouped.groups) (attach_settings sim grouped [] [])
                ≡ attach_settings sim grouped [] [])))
settings_given_example = settings_given sim grouped [] []

-- `waitpid` is interrupted where the clock is at 0.
abbrev patient : Liblxc
patient = record sim {
  attach = record sim.attach {
    waitpid = λ p w.
        if w.clock == 0 then (interrupted, record w { clock = 1 }) else (reaped p w.status, w);
    wait_rounds = λ _ _. 2;
  };
}

abbrev busy : Host
busy = record resting { is_running = true; status = 768 }

abbrev at_hand : State patient
at_hand = record { handle = some 1; verbosity = 0; world = busy; heap = empty_heap }

interrupted_once : Waits patient 43 busy 1 (pos 768) (record busy { clock = 1 })
interrupted_once =
    again interrupted (record busy { clock = 1 }) refl refl tt (ends 768 refl refl refl)

attach_shell-Waits_example :
    ((attach_shell patient default_attach_options at_hand).0 ≡ ok tt)
    × ((attach_shell patient default_attach_options at_hand).1.world ≡ record busy { clock = 1 })
unfolding make_sure make_groups
attach_shell-Waits_example =
    attach_shell-Waits patient 1 default_attach_options at_hand 43 1 (pos 768) busy
      (record busy { clock = 1 }) refl refl (λ n. refl) (0, refl) interrupted_once (omega arith)

-- A library that makes an array as the package does.
abbrev hand : Hand
hand names h = (h.next, (make_null_terminated_args true names h).1)

hand-HandsOver : HandsOver hand
hand-HandsOver = record {
  at_new = λ names h. omega arith;
  has_null = make-HasNull;
  counts = get_array_length-make;
  holds = argv_texts-make;
}

list_with-IsLeft_example :
    ((list_with sim hand interfaces_of (held busy)).0 ≡ (plain sim interfaces_of (held busy)).0)
    × IsLeft sim (codes "eth0" ∷ []) (held busy) (list_with sim hand interfaces_of (held busy)).1
unfolding make_sure c_string
list_with-IsLeft_example =
    list_with-IsLeft sim hand interfaces_of (codes "eth0" ∷ []) 1 (held busy) hand-HandsOver refl
      refl refl (omega arith) refl
