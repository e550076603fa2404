-- ===== src/Examples/Looking.antt =====
-- examples: stats and list_keys only look at the Container. The methods that interfaces and ipaddress
-- call leave an array of the library's on C's heap, and are not here.
use go_lxc.Base.{ℕ, ◌+◌, some, List, [], ◌∷◌, Text, ◌≡◌, ◌⊎◌, inl, inr, refl, arith, ◌∙◌, ap}
use go_lxc.Base.Strings.{c_string}
use go_lxc.Exec.{Fault, Result, ok, err, fault}
use go_lxc.Liblxc.{Liblxc}
use go_lxc.Floats.{Floats}
use go_lxc.Memory.{CHeap}
use go_lxc.Container.{State, Method}
use go_lxc.Container.Config.{config_keys}
use go_lxc.Container.Handle.{release}
use go_lxc.Container.Cgroups.Memory
use go_lxc.Container.Effects.{Still}
use go_lxc.Container.Calls.Reading.{
  read_size-Still, blkio_usage-Still, cpu_time-Still, cpu_time_per_cpu-Still, cpu_stats-Still,
  interface_stats-Still,
}
use go_lxc.Global.{new_container}
use go_lxc.Examples.{
  Session, Program, Ending, goes_on, exits, crashes, Line, go_on, print, must, each, deferred,
  with_container, ◌>>=◌, ◌>>◌,
}
use go_lxc.Examples.Commands.{Main}
use go_lxc.Examples.Exit.{opened}
use go_lxc.Examples.Reading.{
  show, numbered, show_numbered, stats_rest, list_keys_rest, stats_main, list_keys_main,
}

-- The piece of a program leaves the Container, the library's state and the heap as they were.
record Looks {L : Liblxc} {A : Type 0} (m : Program L A) : Type 1 where
  at : (s : Session L) → (m s).1.container ≡ s.container

module _ {L : Liblxc} where
  Looks-print : (l : Line) → Looks (print {L = L} l)
  Looks-print l = record { at = λ s. refl }

  Looks-go_on : Looks (go_on {L = L})
  Looks-go_on = record { at = λ s. refl }

  after :
      {A B : Type 0} (k : A → Program L B)
      → ((a : A) → Looks (k a))
      → (e : Ending A × Session L) (s : Session L) → e.1.container ≡ s.container
      → (((λ _. e) >>= k) s).1.container ≡ s.container
  after k hk (goes_on a, t) s h = (hk a).at t ∙ h
  after k hk (exits, t) s h = h
  after k hk (crashes x, t) s h = h

  Looks-bind :
      {A B : Type 0} (m : Program L A) (k : A → Program L B)
      → Looks m
      → ((a : A) → Looks (k a))
      → Looks (m >>= k)
  Looks-bind m k hm hk = record { at = λ s. after k hk (m s) s (hm.at s) }

  Looks-then :
      {B : Type 0} (m : Program L (Unit {0})) (k : Program L B) → Looks m → Looks k → Looks (m >> k)
  Looks-then m k hm hk = Looks-bind m (λ _. k) hm (λ _. hk)

  called :
      {V A : Type 0} (p : Result V A × State L) (s : Session L)
      → p.1 ≡ s.container
      → (must (λ _. p) s).1.container ≡ s.container
  called (ok a, t) s h = h
  called (err v e, t) s h = h
  called (fault x, t) s h = h

  Looks-must : {V A : Type 0} (m : Method L V A) → Still m → Looks (must m)
  Looks-must m h = record { at = λ s. called (m s.container) s (h.at s.container) }

  Looks-each :
      {A : Type 0} (f : A → Program L (Unit {0})) (vs : List A)
      → ((v : A) → Looks (f v))
      → Looks (each f vs)
  Looks-each f [] h = Looks-go_on
  Looks-each f (v ∷ vs) h = Looks-then (f v) (each f vs) (h v) (Looks-each f vs h)

  Looks-numbered : (i : ℕ) (vs : List Text) → Looks (numbered L i vs)
  Looks-numbered i [] = Looks-go_on
  Looks-numbered i (v ∷ vs) = Looks-then _ _ (Looks-print _) (Looks-numbered (i + 1) vs)

  Looks-show : {V A : Type 0} (label : Text) (m : Method L V A) → Still m → Looks (show L label m)
  Looks-show label m h = Looks-bind (must m) _ (Looks-must m h) λ a. Looks-print _

  Looks-show_numbered :
      {V : Type 0} (m : Method L V (List Text)) → Still m → Looks (show_numbered L m)
  Looks-show_numbered m h = Looks-bind (must m) _ (Looks-must m h) λ vs. Looks-numbered 0 vs

ruleset looks_rules = (Looks-print, Looks-then, Looks-show, Looks-show_numbered)

-- The programs.
pub data Look : Type 0 where
  stats list_keys : Look

module _ (L : Liblxc) (R : Floats) where
  open L use {Ptr, World, host}

  list_keys_rest-Looks : Looks (list_keys_rest L)
  unfolding list_keys_rest
  list_keys_rest-Looks = record {
    at = λ s. (Looks-each _ (config_keys L [] s.container) (λ k. Looks-print _)).at s;
  }

  stats_rest-Looks : Looks (stats_rest L R)
  unfolding stats_rest Memory.memory_usage Memory.memory_limit Memory.kernel_memory_usage
      Memory.kernel_memory_limit Memory.memory_swap_usage Memory.memory_swap_limit
  stats_rest-Looks =
      search
        (
          looks_rules, read_size-Still, blkio_usage-Still, cpu_time-Still, cpu_time_per_cpu-Still,
          cpu_stats-Still, interface_stats-Still,
        )
        depth 40

  unfoldable pub look_main : Look → Main L
  unfolding stats_main list_keys_main
  look_main stats = stats_main L R
  look_main list_keys = list_keys_main L R

  -- The container as it was opened, or released right after.
  abbrev pub OnlyReleased : State L → State L → Type 0
  OnlyReleased s t = (t ≡ s) ⊎ (t ≡ (release L s).1)

  deferred-OnlyReleased :
      (e : Ending (Unit {0}) × Session L) (s : State L)
      → e.1.container ≡ s
      → OnlyReleased s (deferred L e).1.container
  unfolding deferred
  deferred-OnlyReleased (goes_on u, t) s h = inr (ap (λ c. (release L c).1) h)
  deferred-OnlyReleased (exits, t) s h = inl h
  deferred-OnlyReleased (crashes Fault.index_out_of_range, t) s h =
      inr (ap (λ c. (release L c).1) h)
  deferred-OnlyReleased (crashes Fault.null_dereference, t) s h = inl h

  with_container-deferred :
      (rest : Program L (Unit {0})) (name lxcpath : Text) (w : World) (h : CHeap) (p : Ptr)
      (w' : World)
      → host.container_new (c_string name) (some (c_string lxcpath)) w ≡ (some p, w')
      → with_container L name lxcpath rest w h
        ≡ deferred L (rest (record { container = opened L R p w' h; printed = [] }))
  unfolding with_container new_container
  with_container-deferred rest name lxcpath w h p w' e = ground (arith, e)

  with_container-OnlyReleased :
      (rest : Program L (Unit {0}))
      → Looks rest
      → (name lxcpath : Text) (w : World) (h : CHeap) (p : Ptr) (w' : World)
      → host.container_new (c_string name) (some (c_string lxcpath)) w ≡ (some p, w')
      → OnlyReleased (opened L R p w' h) (with_container L name lxcpath rest w h).1.container
  with_container-OnlyReleased rest looks name lxcpath w h p w' e =
      rw (with_container-deferred rest name lxcpath w h p w' e)
        (deferred-OnlyReleased _ (opened L R p w' h) (looks.at _))

  -- The examples stats and list_keys, where `NewContainer` gives a Container: on
  -- every path, errors and crashes included, the Container, the library's state and the heap are at the
  -- end what `NewContainer` made, or what a `Release` of that leaves.
  pub look_main-OnlyReleased :
      (l : Look) (name lxcpath : Text) (w : World) (h : CHeap) (p : Ptr) (w' : World)
      → host.container_new (c_string name) (some (c_string lxcpath)) w ≡ (some p, w')
      → OnlyReleased (opened L R p w' h) (look_main l name lxcpath w h).1.container
  unfolding look_main stats_main list_keys_main
  look_main-OnlyReleased stats = with_container-OnlyReleased _ stats_rest-Looks
  look_main-OnlyReleased list_keys = with_container-OnlyReleased _ list_keys_rest-Looks
