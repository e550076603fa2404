-- ===== src/Container/Lifecycle/Phases/Steps.antt =====
-- container.go: what a method of the life cycle that reports success has seen and done.
use go_lxc.Base.{true, false, none, some, ◌≡◌, arith}
use go_lxc.Exec.{ok}
use go_lxc.Liblxc.{Liblxc}
use go_lxc.Liblxc.Laws.{is_frozen}
use go_lxc.Container.{State}
use go_lxc.Container.Lifecycle

module _ (L : Liblxc) (p : L.Ptr) (s : State L) where
  open L use {Ptr, World, info, life}

  -- The state with the pointer in it, and with a state of the library.
  abbrev pub held : World → State L
  held w = record s { handle = some p; world = w }

  -- What a method that reports success has seen and done.
  pub start_ok :
      (w : World)
      → (Lifecycle.start L (held w)).0 ≡ ok tt
      → (info.is_running p w ≡ false)
        × ((life.start p false none w).0 ≡ true)
        × ((Lifecycle.start L (held w)).1 ≡ held (life.start p false none w).1)
  unfolding Lifecycle.start
  start_ok w h = ground arith

  pub stop_ok :
      (w : World)
      → (Lifecycle.stop L (held w)).0 ≡ ok tt
      → (info.is_running p w ≡ true)
        × ((life.stop p w).0 ≡ true)
        × ((Lifecycle.stop L (held w)).1 ≡ held (life.stop p w).1)
  unfolding Lifecycle.stop
  stop_ok w h = ground arith

  pub freeze_ok :
      (w : World)
      → (Lifecycle.freeze L (held w)).0 ≡ ok tt
      → (is_frozen L p w ≡ false)
        × ((life.freeze p w).0 ≡ true)
        × ((Lifecycle.freeze L (held w)).1 ≡ held (life.freeze p w).1)
  unfolding Lifecycle.freeze
  freeze_ok w h = ground arith

  pub unfreeze_ok :
      (w : World)
      → (Lifecycle.unfreeze L (held w)).0 ≡ ok tt
      → (info.is_running p w ≡ true)
        × (is_frozen L p w ≡ true)
        × ((life.unfreeze p w).0 ≡ true)
        × ((Lifecycle.unfreeze L (held w)).1 ≡ held (life.unfreeze p w).1)
  unfolding Lifecycle.unfreeze
  unfreeze_ok w h = ground arith

  pub destroy_ok :
      (w : World)
      → (Lifecycle.destroy L (held w)).0 ≡ ok tt
      → (info.is_defined p w ≡ true)
        × (info.is_running p w ≡ false)
        × ((life.destroy p w).0 ≡ true)
        × ((Lifecycle.destroy L (held w)).1 ≡ held (life.destroy p w).1)
  unfolding Lifecycle.destroy
  destroy_ok w h = ground arith
