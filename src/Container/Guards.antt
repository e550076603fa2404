-- ===== src/Container/Guards.antt =====
-- What `makeSure` guards, told without the order of its tests. The flag `isUnprivileged` that
-- container.go declares has no test in `makeSure`, and no method asks for it.
use go_lxc.Base.{ℕ, true, false, none, ◌≡◌, ◌↔◌, arith}
use go_lxc.Liblxc.{Liblxc}
use go_lxc.Container.{
  State, make_sure, asks, is_defined, is_not_defined, is_running, is_not_running, is_privileged,
  is_at_least_lxc11, is_at_least_lxc20, defined, running, version_at_least,
}

module _ (L : Liblxc) where
  open L use {host, version}

  -- What each flag asks for, if it is among the flags.
  pub record Meets (flags : ℕ) (s : State L) : Type 0 where
    pub is_defined_met : asks flags is_defined ≡ true → defined L s ≡ true
    pub is_not_defined_met : asks flags is_not_defined ≡ true → defined L s ≡ false
    pub is_running_met : asks flags is_running ≡ true → running L s ≡ true
    pub is_not_running_met : asks flags is_not_running ≡ true → running L s ≡ false
    pub is_privileged_met : asks flags is_privileged ≡ true → host.geteuid s.world ≡ 0
    pub lxc11_met : asks flags is_at_least_lxc11 ≡ true → version_at_least version 1 1 0 ≡ true
    pub lxc20_met : asks flags is_at_least_lxc20 ≡ true → version_at_least version 2 0 0 ≡ true

  make_sure_sound : (flags : ℕ) (s : State L) → make_sure L flags s ≡ none → Meets flags s
  unfolding make_sure
  make_sure_sound flags s h = ground arith

  make_sure_complete : (flags : ℕ) (s : State L) → Meets flags s → make_sure L flags s ≡ none
  unfolding make_sure
  make_sure_complete flags s m = ground arith

  pub make_sure_iff : (flags : ℕ) (s : State L) → (make_sure L flags s ≡ none) ↔ Meets flags s
  make_sure_iff flags s = (make_sure_sound flags s, make_sure_complete flags s)
