-- ===== src/Container/Execute.antt =====
-- container.go: `String` and `Execute`.
use go_lxc.Base.{Option, none, some, List, [], ◌∷◌, ◌++◌, Text, codes, ltb, length, if◌then◌else◌}
use go_lxc.Base.Paths.{join_path}
use go_lxc.Errors.{sentinel, err_execute_failed}
use go_lxc.Exec.{ok, pure, fail, ◌>>=◌, ◌>>◌}
use go_lxc.Liblxc.{Liblxc}
use go_lxc.Container.{State, Method, is_not_defined, sure, call, get, name, make_sure}
use go_lxc.Container.Config.{config_path, save_config_file}

module _ (L : Liblxc) where
  open L use {World, host}

  -- `String`
  unfoldable pub string : State L → Text
  unfolding join_path config_path name
  string s = join_path (config_path L s ∷ name L s ∷ [])

  -- A call that returns nothing.
  abbrev pub tell : {V : Type 0} → (World → World) → Method L V (Unit {0})
  tell f s = (ok tt, record s { world = f s.world })

  -- `c.saveConfigFile(…)`, whose error is dropped.
  abbrev pub ignore_error : {V : Type 0} → Method L (Unit {0}) (Unit {0}) → Method L V (Unit {0})
  ignore_error m s = (ok tt, (m s).1)

  -- The command line of lxc-execute.
  unfoldable pub execute_args : List Text → State L → List Text
  unfolding config_path name
  execute_args args s =
      (codes "lxc-execute" ∷ codes "-n" ∷ name L s ∷ codes "-P" ∷ config_path L s ∷ codes "--" ∷ [])
      ++ args

  -- `Execute`; the directory is removed on each return after it was made.
  unfoldable pub execute : List Text → Method L (Option Text) (Option Text)
  unfolding make_sure string execute_args save_config_file
  execute args = do
    sure none is_not_defined
    s ← get
    let dir = join_path (config_path L s ∷ name L s ∷ [])
    tell (host.mkdir_all dir)
    ignore_error (save_config_file L (join_path (config_path L s ∷ name L s ∷ codes "config" ∷ [])))
    t ← get
    ran ← call (host.combined_output (execute_args args t))
    tell (host.remove_all dir)
    if ran.1
        then pure (some ran.0)
        else if ltb 1 (length ran.0)
        then fail (some ran.0) (sentinel err_execute_failed)
        else fail none (sentinel err_execute_failed)
