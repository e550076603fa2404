-- ===== src/Container/Create/Specs.antt =====
-- container.go: what the library can see of the options of a backend.
use go_lxc.Base.{Bool, Option, none, some, List, [], ◌∷◌, Text, ◌≡◌, refl, ap}
use go_lxc.Errors.{sentinel, err_create_failed}
use go_lxc.Exec.{unless, ◌>>=◌, ◌>>◌}
use go_lxc.Types.Backend.{backend_string}
use go_lxc.Liblxc.{Liblxc, BdevSpecs}
use go_lxc.Base.Strings.{c_string}
use go_lxc.Binding.{go_lxc_create}
use go_lxc.Options.{TemplateOptions, BackendStoreSpecs}
use go_lxc.Container.{Method, is_not_defined, follow, sure, get, call, with_args, with_string}
use go_lxc.Container.Lifecycle.{backend_or_directory}
use go_lxc.Container.Create.{
  field, dir_field, build_bdev_specs, create_call, create_with, create_given, create, create_args,
  template_or_download,
}

-- Both texts are empty, or neither is.
abbrev pub AlikeText : Text → Text → Type 0
AlikeText [] [] = Unit
AlikeText (_ ∷ _) (_ ∷ _) = Unit
AlikeText _ _ = ⊥

abbrev pub AlikeDir : Option Text → Option Text → Type 0
AlikeDir none none = Unit
AlikeDir (some _) (some _) = Unit
AlikeDir _ _ = ⊥

-- The same options are set, and the size is the same.
pub record Alike (a b : BackendStoreSpecs) : Type 0 where
  pub fs_type_alike : AlikeText a.fs_type b.fs_type
  pub fs_size_same : a.fs_size ≡ b.fs_size
  pub zfs_root_alike : AlikeText a.zfs_root b.zfs_root
  pub lvm_vg_alike : AlikeText a.lvm_vg b.lvm_vg
  pub lvm_thinpool_alike : AlikeText a.lvm_thinpool b.lvm_thinpool
  pub rbd_name_alike : AlikeText a.rbd_name b.rbd_name
  pub rbd_pool_alike : AlikeText a.rbd_pool b.rbd_pool
  pub dir_alike : AlikeDir a.dir b.dir

field-same : (s t : Text) → AlikeText s t → field s ≡ field t
field-same [] [] h = refl
field-same (c ∷ s) (d ∷ t) h = refl
field-same [] (d ∷ t) h = absurd h
field-same (c ∷ s) [] h = absurd h

dir_field-same : (s t : Option Text) → AlikeDir s t → dir_field s ≡ dir_field t
dir_field-same none none h = refl
dir_field-same (some s) (some t) h = refl
dir_field-same none (some t) h = absurd h
dir_field-same (some s) none h = absurd h

build_bdev_specs-same :
    (a b : BackendStoreSpecs) → Alike a b → build_bdev_specs (some a) ≡ build_bdev_specs (some b)
unfolding build_bdev_specs
build_bdev_specs-same a b h =
    rw
      (
        field-same a.fs_type b.fs_type h.fs_type_alike,
        h.fs_size_same,
        field-same a.zfs_root b.zfs_root h.zfs_root_alike,
        field-same a.lvm_vg b.lvm_vg h.lvm_vg_alike,
        field-same a.lvm_thinpool b.lvm_thinpool h.lvm_thinpool_alike,
        field-same a.rbd_name b.rbd_name h.rbd_name_alike,
        field-same a.rbd_pool b.rbd_pool h.rbd_pool_alike,
        dir_field-same a.dir b.dir h.dir_alike,
      )
      refl

module _ (L : Liblxc) (o : TemplateOptions) where
  -- The options with others for the backend.
  abbrev pub with_specs : BackendStoreSpecs → TemplateOptions
  with_specs a = record o { backend_specs = some a }

  module _ (a b : BackendStoreSpecs) (h : Alike a b) where
    -- The call for some specs.
    abbrev call_for : Option (List Text) → Option BdevSpecs → Method L (Unit {0}) Bool
    call_for argv z = do
      p ← follow
      s ← get
      call (
          go_lxc_create L p (c_string (template_or_download o.template))
            (backend_string (backend_or_directory o.backend)) z s.verbosity argv)

    create_call-same :
        (argv : Option (List Text))
        → create_call L (with_specs a) argv ≡ create_call L (with_specs b) argv
    unfolding create_call
    create_call-same argv = ap (call_for argv) (build_bdev_specs-same a b h)

    create_given-same :
        (args : List Text) → create_given L (with_specs a) args ≡ create_given L (with_specs b) args
    unfolding create_given
    create_given-same [] = create_call-same none
    create_given-same (c ∷ args) =
        ap (with_args tt (c ∷ args)) (λ i argv. create_call-same (some argv) i)

    create_with-same :
        (args : Option (List Text))
        → create_with L (with_specs a) args ≡ create_with L (with_specs b) args
    unfolding create_with
    create_with-same none = refl
    create_with-same (some args) =
        ap
          (λ (m : Method L (Unit {0}) Bool).
            with_string {L = L} (template_or_download o.template)
              (with_string {L = L} (backend_string (backend_or_directory o.backend)) m))
          (create_given-same args)

    pub create-same : create L (with_specs a) ≡ create L (with_specs b)
    unfolding create create_args
    create-same =
        ap
          (λ (m : Method L (Unit {0}) Bool).
            sure {L = L} tt is_not_defined
            >> (m >>= λ done. unless done tt (sentinel err_create_failed)))
          (create_with-same (create_args o))
