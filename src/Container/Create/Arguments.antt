-- ===== src/Container/Create/Arguments.antt =====
-- container.go: what `Create` requires of its options, and of its container.
use go_lxc.Base.{
  Option, Bool, true, none, some, List, [], ◌∷◌, Text, codes, ◌≡◌, ◌↔◌, ◌⊎◌, inl, inr, refl, ap,
  arith, suc, length,
}
use go_lxc.Base.Strings.{text_eq, text_eq_sound}
use go_lxc.Errors.{sentinel, err_insufficient_number_of_arguments}
use go_lxc.Exec.{Result, err, fault, null_dereference, index_out_of_range}
use go_lxc.Liblxc.{Liblxc}
use go_lxc.Memory.{make_null_terminated_args}
use go_lxc.Options.{TemplateOptions}
use go_lxc.Container.{State, is_not_defined, make_sure, defined, with_args, with_string, lend}
use go_lxc.Container.Create.{
  create, create_args, create_with, create_given, create_call, template_or_download,
}
use go_lxc.Container.Config.{log_file}
use go_lxc.Container.Config.LogItems.{log_file-fault}

-- The distribution, the release or the architecture is not given.
abbrev pub LacksOne : TemplateOptions → Type 0
LacksOne o = (o.distro ≡ []) ⊎ ((o.release ≡ []) ⊎ (o.arch ≡ []))

-- The template is "download", or is not given.
abbrev pub Downloads : TemplateOptions → Type 0
Downloads o = (o.template ≡ []) ⊎ (o.template ≡ codes "download")

named_download :
    (t : Text)
    → (text_eq (template_or_download t) (codes "download") ≡ true)
      ↔ ((t ≡ []) ⊎ (t ≡ codes "download"))
unfolding template_or_download text_eq
named_download [] = (λ h. inl refl, λ h. refl)
named_download (c ∷ t) = (
  λ h. inr (text_eq_sound (c ∷ t) (codes "download") h),
  λ h. elim h [
    | inl e ↦ cc
    | inr e ↦ ap (λ u. text_eq (template_or_download u) (codes "download")) e
  ],
)

create_args_by :
    (o : TemplateOptions) (b : Bool)
    → text_eq (template_or_download o.template) (codes "download") ≡ b
    → (create_args o ≡ none) ↔ ((b ≡ true) × LacksOne o)
unfolding create_args
create_args_by o b e = ground (arith, e)

create_args-none_iff : (o : TemplateOptions) → (create_args o ≡ none) ↔ (Downloads o × LacksOne o)
create_args-none_iff o =
    let by = create_args_by o _ refl in
    let named = named_download o.template in
    (λ h. (named.0 (by.0 h).0, (by.0 h).1), λ h. by.1 (named.1 h.0, h.1))

module _ (L : Liblxc) where
  open L use {Ptr, host}

  -- The outcome that `Create` has for options that lack an argument.
  abbrev pub refused : State L → Result (Unit {0}) (Unit {0}) × State L
  refused s = (err tt (sentinel err_insufficient_number_of_arguments), s)

  create-refused_by :
      (o : TemplateOptions) (args : Option (List Text)) (p : Ptr) (s : State L)
      → s.handle ≡ some p
      → make_sure L is_not_defined s ≡ none
      → create_args o ≡ args
      → (create L o s ≡ refused s) ↔ (create_args o ≡ none)
  unfolding create create_with create_given with_string create_call with_args lend
      make_null_terminated_args
  create-refused_by o none p s e met given = (λ h. given, λ h. ground (arith, met, given))
  create-refused_by o (some []) p s e met given = (λ h. ground (arith, h, e, met, given), λ h. cc)
  create-refused_by o (some (a ∷ args)) p s e met given =
      (λ h. ground (arith, h, e, met, given), λ h. cc)

  -- `Create` of a container that was not released and is not defined fails with
  -- ErrInsufficientNumberOfArguments, and changes nothing, exactly for the "download" template, which is
  -- meant where none is named, without a distribution, a release or an architecture.
  pub create-refused_iff :
      (o : TemplateOptions) (p : Ptr) (s : State L)
      → s.handle ≡ some p
      → make_sure L is_not_defined s ≡ none
      → (create L o s ≡ refused s) ↔ (Downloads o × LacksOne o)
  create-refused_iff o p s e met =
      let by = create-refused_by o (create_args o) p s e met refl in
      let missing = create_args-none_iff o in (λ h. missing.0 (by.0 h), λ h. by.1 (missing.1 h))

  -- `Create` of a container that was released: where the options are complete and there is room for the
  -- arguments, the wrapper follows a null pointer.
  create-released :
      (o : TemplateOptions) (args : List Text) (s : State L)
      → s.handle ≡ none
      → create_args o ≡ some args
      → host.can_calloc (suc (length args)) s.world ≡ true
      → (create L o s).0 ≡ fault null_dereference
  unfolding create create_with create_given with_string create_call make_sure defined with_args lend
      make_null_terminated_args
  create-released o [] s e given room = ground (arith, e, given)
  create-released o (a ∷ args) s e given room = ground (arith, e, given, room)

  -- Of a container that was released, `Create` with complete options and room for the arguments follows
  -- a null pointer in C, and `LogFile` panics, since it indexes an empty slice.
  pub released_faults :
      (o : TemplateOptions) (args : List Text) (s : State L)
      → s.handle ≡ none
      → create_args o ≡ some args
      → host.can_calloc (suc (length args)) s.world ≡ true
      → ((create L o s).0 ≡ fault null_dereference) × ((log_file L s).0 ≡ fault index_out_of_range)
  released_faults o args s e given room =
      (create-released o args s e given room, (log_file-fault L s).1 e)
