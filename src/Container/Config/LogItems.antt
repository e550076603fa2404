-- ===== src/Container/Config/LogItems.antt =====
-- container.go: the log file and the log level, which are configuration items.
use go_lxc.Base.{
  ℕ, zero, suc, true, ◌≤◌, ◌≡◌, ◌↔◌, refl, arith, ap, ◌∙◌, Option, none, some, Text, codes, List,
  [], ◌∷◌, ◌≢◌,
}
use go_lxc.Base.Strings.{c_string, go_string, split, trim_space}
use go_lxc.Base.Strings.Laws.{split-ne-nil}
use go_lxc.Exec.{Result, ok, fault, index_out_of_range, pure, ◌>>=◌}
use go_lxc.Liblxc.{Liblxc}
use go_lxc.Types.LogLevel.{log_level_of, log_level_string}
use go_lxc.Binding.{go_lxc_get_config_item, not_empty}
use go_lxc.Container.{State}
use go_lxc.Container.Config.{
  first, log_file, log_level, set_log_level, config_item, set_config_item, lines_of, since_2_1,
}

module _ (L : Liblxc) where
  open L use {Ptr, World, config}

  first_of :
      (items : List Text) (s : State L)
      → items ≢ []
      → (first {V = Text} items s).0 ≢ fault index_out_of_range
  first_of [] s ne = absurd (ne refl)
  first_of (t ∷ items) s ne = ground arith

  config_item-ne-nil :
      (key : Text) (p : Ptr) (s : State L) → s.handle ≡ some p → config_item L key s ≢ []
  unfolding config_item
  config_item-ne-nil key p s e = rw e (
      split-ne-nil (trim_space (go_string (go_lxc_get_config_item L p (c_string key) s.world)))
        b'\n')

  item_fault_by :
      (key : Text) (s : State L) (o : Option Ptr)
      → s.handle ≡ o
      → ((first {V = Text} (config_item L key s) s).0 ≡ fault index_out_of_range)
        ↔ (s.handle ≡ none)
  unfolding config_item
  item_fault_by key s none e = (λ h. e, λ h. ground (arith, e))
  item_fault_by key s (some p) e =
      (λ h. absurd (first_of (config_item L key s) s (config_item-ne-nil key p s e) h), λ h. cc)

  -- `LogFile` indexes an empty slice, and panics, exactly when the container was released.
  pub log_file-fault :
      (s : State L) → ((log_file L s).0 ≡ fault index_out_of_range) ↔ (s.handle ≡ none)
  unfolding log_file
  log_file-fault s = item_fault_by _ s s.handle refl

  -- The level that `LogLevel` makes of the item's text.
  abbrev level_in : Text → Result ℕ ℕ
  level_in v =
      ((first {S = Unit {0}} {V = ℕ} (lines_of (not_empty L (some v))) >>= λ level.
      pure (log_level_of level))
        tt).0

  level_read : (l : ℕ) → l ≤ 8 → level_in (c_string (log_level_string l)) ≡ ok l
  unfolding log_level_of log_level_string c_string trim_space split
  level_read zero h = refl
  level_read (suc zero) h = refl
  level_read (suc (suc zero)) h = refl
  level_read (suc (suc (suc zero))) h = refl
  level_read (suc (suc (suc (suc zero)))) h = refl
  level_read (suc (suc (suc (suc (suc zero))))) h = refl
  level_read (suc (suc (suc (suc (suc (suc zero)))))) h = refl
  level_read (suc (suc (suc (suc (suc (suc (suc zero))))))) h = refl
  level_read (suc (suc (suc (suc (suc (suc (suc (suc zero)))))))) h = refl
  level_read (suc (suc (suc (suc (suc (suc (suc (suc (suc n))))))))) h = absurd (omega arith)

  abbrev pub level_key : Text
  level_key = c_string (since_2_1 L (codes "lxc.log.level") (codes "lxc.loglevel"))

  abbrev pub level_text : ℕ → Text
  level_text l = c_string (log_level_string l)

  -- In this state the library keeps the name of the level as the item for the log level, once it has said
  -- that it was set.
  abbrev pub KeepsLevel : ℕ → Ptr → World → Type 0
  KeepsLevel l p w =
      (config.set_config_item p level_key (level_text l) w).0 ≡ true
      → config.get_config_item p level_key (config.set_config_item p level_key (level_text l) w).1
        ≡ some (level_text l)

  set_log_level_ok :
      (l : ℕ) (p : Ptr) (s : State L)
      → s.handle ≡ some p
      → (set_log_level L l s).0 ≡ ok tt
      → ((config.set_config_item p level_key (level_text l) s.world).0 ≡ true)
        × ((set_log_level L l s).1.handle ≡ some p)
        × ((set_log_level L l s).1.world
            ≡ (config.set_config_item p level_key (level_text l) s.world).1)
  unfolding set_log_level set_config_item
  set_log_level_ok l p s e done = ground (arith, e, done)

  -- The level of the first of some lines.
  abbrev level_first : {S : Type 0} → List Text → S → Result ℕ ℕ
  level_first items s = ((first {V = ℕ} items >>= λ level. pure (log_level_of level)) s).0

  level_first_same : (items : List Text) (s : State L) → level_first items s ≡ level_first items tt
  level_first_same [] s = refl
  level_first_same (t ∷ items) s = refl

  config_item_at :
      (key : Text) (p : Ptr) (s : State L) (v : Text)
      → s.handle ≡ some p
      → config.get_config_item p (c_string key) s.world ≡ some v
      → config_item L key s ≡ lines_of (not_empty L (some v))
  unfolding config_item go_lxc_get_config_item
  config_item_at key p s v e held = rw (e, held) refl

  log_level_at :
      (p : Ptr) (s : State L) (v : Text)
      → s.handle ≡ some p
      → config.get_config_item p level_key s.world ≡ some v
      → (log_level L s).0 ≡ level_in v
  unfolding log_level config_item go_lxc_get_config_item
  log_level_at p s v e held =
      level_first_same
        (config_item L (since_2_1 L (codes "lxc.log.level") (codes "lxc.loglevel")) s) s
      ∙ ap (λ items. level_first items tt) (config_item_at _ p s v e held)

  -- A log level that `SetLogLevel` set without an error is the one that `LogLevel` reads, for the nine
  -- levels that have names, where the library keeps the item for the log level that it says it has set.
  pub log_level-set_log_level :
      (l : ℕ) (p : Ptr) (s : State L)
      → KeepsLevel l p s.world
      → l ≤ 8
      → s.handle ≡ some p
      → (set_log_level L l s).0 ≡ ok tt
      → (log_level L (set_log_level L l s).1).0 ≡ ok l
  log_level-set_log_level l p s keeps small e done =
      let (was, same, w) = set_log_level_ok l p s e done in
      log_level_at p _ (level_text l) same (ap (config.get_config_item p level_key) w ∙ keeps was)
      ∙ level_read l small
