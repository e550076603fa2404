-- ===== src/Container/Devices/Migration.antt =====
-- container.go: what `Migrate` does with the containers that it is meant for.
use go_lxc.Base.{ℕ, true, ◌≡◌, arith, some}
use go_lxc.Errors.{about, err_already_defined}
use go_lxc.Exec.{err}
use go_lxc.Liblxc.{Liblxc}
use go_lxc.Options.{MigrateOptions}
use go_lxc.Container.{State, make_sure, defined, name}
use go_lxc.Container.Devices.{migrate}

module _ (L : Liblxc) where
  open L use {Ptr}

  -- `Migrate` refuses every container that is defined, whatever the command and the options: it returns
  -- that the container is already defined, and no call reaches the library.
  pub migrate-defined :
      (cmd : ℕ) (o : MigrateOptions) (p : Ptr) (s : State L)
      → s.handle ≡ some p
      → defined L s ≡ true
      → migrate L cmd o s ≡ (err tt (about err_already_defined (name L s)), s)
  unfolding migrate make_sure
  migrate-defined cmd o p s e d = ground (arith, e, d)
