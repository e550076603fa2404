-- ===== src/Liblxc/Laws.antt =====
-- What the properties of the life cycle assume of liblxc: what a call that reports success has done,
-- by the answers of `is_defined`, `is_running` and `state`, where no other process intervenes.
use go_lxc.Base.{◌≡◌, Bool, true, false, Text, List, Option, ◌==◌}
use go_lxc.Base.Strings.{go_string}
use go_lxc.Types.State.{state_of, frozen}
use go_lxc.Liblxc.{Liblxc, BdevSpecs}

module _ (L : Liblxc) where
  open L use {Ptr, World, info, life}

  -- Whether the library reports the state "FROZEN".
  abbrev pub is_frozen : Ptr → World → Bool
  is_frozen p w = state_of (go_string (info.state p w)) == frozen

  pub record IsLawful : Type 0 where
    -- A container that was created is defined, and does not run.
    pub create_made :
        (p : Ptr) (t : Option Text) (b : Text) (x : Option BdevSpecs) (q : Bool)
        (args : Option (List Text)) (w : World)
        → (life.create p t b x q args w).0 ≡ true
        → (info.is_defined p (life.create p t b x q args w).1 ≡ true)
          × (info.is_running p (life.create p t b x q args w).1 ≡ false)
    -- A container that was started as a daemon runs, and is not frozen.
    pub start_ran :
        (p : Ptr) (i : Bool) (args : Option (List Text)) (w : World)
        → info.daemonize p w ≡ true
        → (life.start p i args w).0 ≡ true
        → (info.is_running p (life.start p i args w).1 ≡ true)
          × (is_frozen p (life.start p i args w).1 ≡ false)
    pub start_defined :
        (p : Ptr) (i : Bool) (args : Option (List Text)) (w : World)
        → info.is_defined p (life.start p i args w).1 ≡ info.is_defined p w
    pub stop_stopped :
        (p : Ptr) (w : World)
        → (life.stop p w).0 ≡ true
        → info.is_running p (life.stop p w).1 ≡ false
    pub stop_defined :
        (p : Ptr) (w : World) → info.is_defined p (life.stop p w).1 ≡ info.is_defined p w
    -- Only a container that runs can be frozen; it goes on to count as running.
    pub freeze_froze :
        (p : Ptr) (w : World)
        → (life.freeze p w).0 ≡ true
        → (info.is_running p w ≡ true)
          × (info.is_running p (life.freeze p w).1 ≡ true)
          × (is_frozen p (life.freeze p w).1 ≡ true)
    pub freeze_defined :
        (p : Ptr) (w : World) → info.is_defined p (life.freeze p w).1 ≡ info.is_defined p w
    pub unfreeze_thawed :
        (p : Ptr) (w : World)
        → (life.unfreeze p w).0 ≡ true
        → (info.is_running p (life.unfreeze p w).1 ≡ info.is_running p w)
          × (is_frozen p (life.unfreeze p w).1 ≡ false)
    pub unfreeze_defined :
        (p : Ptr) (w : World) → info.is_defined p (life.unfreeze p w).1 ≡ info.is_defined p w
    pub destroy_undefined :
        (p : Ptr) (w : World)
        → (life.destroy p w).0 ≡ true
        → info.is_defined p (life.destroy p w).1 ≡ false
