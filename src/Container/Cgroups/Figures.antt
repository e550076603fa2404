-- ===== src/Container/Cgroups/Figures.antt =====
-- container.go: the figures that the kernel prints into the cgroup files, and what the methods read.
use go_lxc.Base.{
  ℕ, suc, ◌<◌, ℤ, pos, false, none, some, List, [], ◌∷◌, ◌++◌, Text, codes, ◌≡◌, refl, ap, ◌∙◌,
  arith, All, All-append, text_eq, map,
}
use go_lxc.Base.Strings.{split, c_string}
use go_lxc.Base.Strings.Laws.{Lacks, split-Lacks, split-part}
use go_lxc.Base.Strings.Trim.{
  IsSolid, IsBlank, Head, Last, digit-IsSolid, All-Head, All-Last, Head-append, Last-append,
  trim_space-append,
}
use go_lxc.Base.Decimal.{format}
use go_lxc.Base.Decimal.RoundTrip.{format-IsDigit, format-ne-nil, format-Lacks, atoi-format}
use go_lxc.Exec.{ok}
use go_lxc.Liblxc.{Liblxc}
use go_lxc.Binding.{go_lxc_get_cgroup_item, not_empty}
use go_lxc.Container.{State, make_sure, is_running}
use go_lxc.Container.Config.{cgroup_item, lines_of}
use go_lxc.Container.Cgroups.{cpu_time, cpu_time_per_cpu, per_cpu}

pub format-Head : (n : ℕ) → Head IsSolid (format n)
format-Head n =
    All-Head IsSolid (format n) (format-ne-nil n) (digit-IsSolid (format n) (format-IsDigit n))

pub format-Last : (n : ℕ) → Last IsSolid (format n)
format-Last n =
    All-Last IsSolid (format n) (format-ne-nil n) (digit-IsSolid (format n) (format-IsDigit n))

-- The numbers in decimal, with a space between two.
unfoldable pub row : ℕ → List ℕ → Text
unfolding format
row n [] = format n
row n (m ∷ ns) = format n ++ (b' ' ∷ row m ns)

row-Head : (n : ℕ) (ns : List ℕ) → Head IsSolid (row n ns)
unfolding row
row-Head n [] = format-Head n
row-Head n (m ∷ ns) = Head-append IsSolid (format n) _ (format-Head n)

row-Last : (n : ℕ) (ns : List ℕ) → Last IsSolid (row n ns)
unfolding row
row-Last n [] = format-Last n
row-Last n (m ∷ ns) =
    Last-append IsSolid (format n) (b' ' ∷ row m ns)
      (Last-append IsSolid (b' ' ∷ []) (row m ns) (row-Last m ns))

row-Lacks : (n : ℕ) (ns : List ℕ) → Lacks b'\n' (row n ns)
unfolding row
row-Lacks n [] = format-Lacks b'\n' n (omega arith)
row-Lacks n (m ∷ ns) =
    All-append _ (format n) (b' ' ∷ row m ns) (format-Lacks b'\n' n (omega arith))
      (omega arith, row-Lacks m ns)

split-row : (n : ℕ) (ns : List ℕ) → split (row n ns) b' ' ≡ map format (n ∷ ns)
unfolding row
split-row n [] = split-Lacks (format n) b' ' (format-Lacks b' ' n (omega arith))
split-row n (m ∷ ns) =
    split-part (format n) (row m ns) b' ' (format-Lacks b' ' n (omega arith))
    ∙ ap (λ t. format n ∷ t) (split-row m ns)

module _ (L : Liblxc) where
  open L use {Ptr, World, config}

  not_empty-Head : (s w : Text) → Head IsSolid s → not_empty L (some (s ++ w)) ≡ some (s ++ w)
  not_empty-Head [] w h = absurd h
  not_empty-Head (c ∷ s) w h = refl

  -- What the library finds in a cgroup file: a text, with spaces or a newline after it.
  abbrev pub Prints : State L → Ptr → Text → Text → Text → Type 0
  Prints s p key line end =
      (s.handle ≡ some p)
      × (config.get_cgroup_item p (c_string key) s.world ≡ some (line ++ end))
      × All IsBlank end

  pub cgroup_item-text :
      (s : State L) (p : Ptr) (key text end : Text)
      → Prints s p key text end
      → Head IsSolid text
      → Last IsSolid text
      → cgroup_item L key s ≡ split text b'\n'
  unfolding cgroup_item go_lxc_get_cgroup_item
  cgroup_item-text s p key text end h a b =
      rw (h.0, h.1) (ap lines_of (not_empty-Head text end a))
      ∙ ap (λ t. split t b'\n') (trim_space-append text end a b h.2)

  pub cgroup_item-line :
      (s : State L) (p : Ptr) (key line end : Text)
      → Prints s p key line end
      → Head IsSolid line
      → Last IsSolid line
      → Lacks b'\n' line
      → cgroup_item L key s ≡ line ∷ []
  cgroup_item-line s p key line end h a b c =
      cgroup_item-text s p key line end h a b ∙ split-Lacks line b'\n' c

  pub text_eq-Head : (s : Text) → Head IsSolid s → text_eq s [] ≡ false
  unfolding text_eq
  text_eq-Head [] h = absurd h
  text_eq-Head (c ∷ s) h = refl

  -- `CPUTime` of a container that was not released and runs is the number that the kernel prints
  -- in decimal into "cpuacct.usage", with spaces or a newline after it, if an int64 holds it.
  pub cpu_time-Prints :
      (s : State L) (p : Ptr) (n : ℕ) (end : Text)
      → make_sure L is_running s ≡ none
      → Prints s p (codes "cpuacct.usage") (format n) end
      → n < 9223372036854775808
      → cpu_time L s ≡ (ok (pos n), s)
  unfolding cpu_time
  cpu_time-Prints s p n end r h b =
      let line =
        cgroup_item-line s p (codes "cpuacct.usage") (format n) end h (format-Head n)
          (format-Last n) (format-Lacks b'\n' n (omega arith)) in
      ground (arith, r, line, text_eq-Head (format n) (format-Head n), atoi-format n b)

  -- The numbers with their places from `i` on.
  unfoldable pub numbered : ℕ → List ℕ → List (ℕ × ℤ)
  numbered i [] = []
  numbered i (n ∷ ns) = (i, pos n) ∷ numbered (suc i) ns

  abbrev pub IsInt64 : ℕ → Type 0
  IsInt64 n = n < 9223372036854775808

  per_cpu-numbered :
      (i : ℕ) (ns : List ℕ) (s : State L)
      → All IsInt64 ns
      → per_cpu L i (map format ns) s ≡ (ok (numbered i ns), s)
  unfolding per_cpu numbered
  per_cpu-numbered i [] s b = refl
  per_cpu-numbered i (n ∷ ns) s b =
      ground (arith, atoi-format n b.0, per_cpu-numbered (suc i) ns s b.1)

  -- `CPUTimePerCPU` of a container that was not released and runs gives to each processor, from 0
  -- on, the number that the kernel prints for it into "cpuacct.usage_percpu": numbers in decimal with
  -- a space between two, and spaces or a newline after the last, each of which an int64 holds.
  pub cpu_time_per_cpu-Prints :
      (s : State L) (p : Ptr) (n : ℕ) (ns : List ℕ) (end : Text)
      → make_sure L is_running s ≡ none
      → Prints s p (codes "cpuacct.usage_percpu") (row n ns) end
      → All IsInt64 (n ∷ ns)
      → cpu_time_per_cpu L s ≡ (ok (numbered 0 (n ∷ ns)), s)
  unfolding cpu_time_per_cpu
  cpu_time_per_cpu-Prints s p n ns end r h b =
      let line =
        cgroup_item-line s p (codes "cpuacct.usage_percpu") (row n ns) end h (row-Head n ns)
          (row-Last n ns) (row-Lacks n ns) in
      ground (
        arith,
        r,
        line,
        text_eq-Head (row n ns) (row-Head n ns),
        split-row n ns,
        per_cpu-numbered 0 (n ∷ ns) s b,
      )
