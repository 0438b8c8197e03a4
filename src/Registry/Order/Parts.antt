-- ===== src/Registry/Order/Parts.antt =====
-- The parts of `resolve_order`: the phase check, and the joining of the three phases.
use mathlib.Core.List.{append-nil, append_assoc}
use recon_platform.Prelude.{
  ℕ, ◌≤◌, ◌≡◌, refl, ◌⊎◌, inl, inr, String, eq_iff, Bool, true, false, ◌&&◌, some, List, [], ◌∷◌,
  ◌++◌, ok, arith, All, All-append, keep, ◌>>=◌, Bool-cases,
}
use recon_platform.Prelude.Names.{contains, contains-append, for_each}
use recon_platform.Prelude.Loops.{for_each-post}
use recon_platform.Registry.{
  Registry, ReconModule, Phase, phase_rank, installed, get_module, check_dependency, check_phases,
  in_phase,
}
use recon_platform.Registry.Pull.{Has, Always, All-Always}
use recon_platform.Registry.Sort.{Distinct, Topo}

pub contains-keep :
    (p : String → Bool) (xs : List String) (n : String)
    → contains (keep p xs) n ≡ (contains xs n && p n)
unfolding contains
contains-keep p [] n = refl
contains-keep p (x ∷ xs) n = elim (Bool-cases (p x)) [
  | inl inside ↦ rw inside (ground (arith, contains-keep p xs n, eq_iff x n))
  | inr outside ↦ rw outside (ground (arith, contains-keep p xs n, eq_iff x n))
]

pub installed-name :
    (reg : Registry) (n : String) (m : ReconModule) → installed reg n ≡ some m → m.name ≡ n
installed-name [] n m h = cc
installed-name (x ∷ reg) n m h = ground (arith, eq_iff x.name n, installed-name reg n m)

pub in_phase_lem :
    (reg : Registry) (p : Phase) (n : String)
    → in_phase reg p n ≡ true
    → (m : ReconModule) × (installed reg n ≡ some m) × (m.phase ≡ p)
in_phase_lem reg p n h = ground arith

-- What the phase check ensures for each dependency of a module.
abbrev pub Allowed : Registry → ReconModule → String → Type 0
Allowed reg m d =
    (d' : ReconModule) × (installed reg d ≡ some d') × (phase_rank d'.phase ≤ phase_rank m.phase)

check_dependency_lem :
    (reg : Registry) (m : ReconModule) (d : String) (s t : Unit {0})
    → check_dependency reg m d s ≡ ok t
    → Allowed reg m d
unfolding check_dependency get_module
check_dependency_lem reg m d s t h = ground arith

pub get_module_ok :
    (reg : Registry) (n : String) (m : ReconModule)
    → installed reg n ≡ some m
    → get_module reg n ≡ ok m
unfolding get_module
get_module_ok reg n m is = ground arith

pub ok_get_module :
    (reg : Registry) (n : String) (m : ReconModule)
    → get_module reg n ≡ ok m
    → installed reg n ≡ some m
unfolding get_module
ok_get_module reg n m h = ground arith

module_phases :
    (reg : Registry) (n : String) (t : Unit {0})
    → (get_module reg n >>= λ m. for_each (check_dependency reg m) m.depends_on tt) ≡ ok t
    → (m : ReconModule) → installed reg n ≡ some m
    → All (Allowed reg m) m.depends_on
module_phases reg n t e m is =
    for_each-post (check_dependency reg m) Always (λ _ _. Unit {0}) (λ _. tt) (λ _ _ _ _ _. tt)
      (λ _ _ _ _ _. tt) (λ d _. Allowed reg m d) (λ d s t _ e. check_dependency_lem reg m d s t e)
      (λ _ _ _ _ q. q) m.depends_on tt t (All-Always m.depends_on)
      (rw (get_module_ok reg n m is) at e)

pub check_phases_lem :
    (reg : Registry) (wanted : List String) (u : Unit {0})
    → check_phases reg wanted ≡ ok u
    → All
        (λ n. (m : ReconModule) → installed reg n ≡ some m → All (Allowed reg m) m.depends_on)
        wanted
unfolding check_phases get_module
check_phases_lem reg wanted u h =
    for_each-post _ Always (λ _ _. Unit {0}) (λ _. tt) (λ _ _ _ _ _. tt) (λ _ _ _ _ _. tt)
      (λ n _. (m : ReconModule) → installed reg n ≡ some m → All (Allowed reg m) m.depends_on)
      (λ n s t _ e. module_phases reg n t e) (λ _ _ _ _ q. q) wanted tt u (All-Always wanted) h

-- Each name stands behind all that it depends on.
abbrev pub DepsFirst : Registry → List String → List String → Type 0
DepsFirst reg seen [] = Unit
DepsFirst reg seen (n ∷ rest) =
    ((m : ReconModule) → installed reg n ≡ some m → All (Has seen) m.depends_on)
    × DepsFirst reg (seen ++ n ∷ []) rest

pub DepsFirst-append :
    (reg : Registry) (seen xs ys : List String)
    → DepsFirst reg seen xs
    → DepsFirst reg (seen ++ xs) ys
    → DepsFirst reg seen (xs ++ ys)
DepsFirst-append reg seen [] ys d e = rw append-nil at e
DepsFirst-append reg seen (x ∷ xs) ys (a, d) e =
    (a, DepsFirst-append reg (seen ++ x ∷ []) xs ys d (rw append_assoc e))

-- A dependency is in an earlier phase, or in the one that is sorted.
abbrev pub Covered : Registry → List String → List String → String → Type 0
Covered reg before subset n =
    (m : ReconModule)
    → installed reg n ≡ some m
    → All (λ d. Has before d ⊎ Has subset d) m.depends_on

pub Topo-DepsFirst :
    (reg : Registry) (before subset seen ns : List String)
    → Topo reg subset seen ns
    → All (Covered reg before subset) ns
    → DepsFirst reg (before ++ seen) ns
Topo-DepsFirst reg before subset seen [] t c = tt
Topo-DepsFirst reg before subset seen (n ∷ ns) (a, t) (c, cs) = (
  λ m is. both m.depends_on (c m is) (a m is),
  rw append_assoc (Topo-DepsFirst reg before subset (seen ++ n ∷ []) ns t cs),
)
  where
    both :
        (ds : List String)
        → All (λ d. Has before d ⊎ Has subset d) ds
        → All (λ d. Has subset d → Has seen d) ds
        → All (Has (before ++ seen)) ds
    both [] h k = tt
    both (d ∷ ds) (h, hs) (k, ks) = (ground (arith, contains-append before seen d), both ds hs ks)

pub Distinct-append :
    (xs ys : List String)
    → Distinct xs
    → Distinct ys
    → ((n : String) → Has xs n → contains ys n ≡ false)
    → Distinct (xs ++ ys)
unfolding contains
Distinct-append [] ys d e apart = e
Distinct-append (x ∷ xs) ys (new, d) e apart = (
  ground (arith, contains-append xs ys x, apart x, eq_iff x x),
  Distinct-append xs ys d e (λ n h. apart n (ground arith)),
)

-- No name stands before one of an earlier phase.
abbrev pub NoLater : Registry → String → String → Type 0
NoLater reg n k =
    (m m' : ReconModule)
    → installed reg n ≡ some m
    → installed reg k ≡ some m'
    → phase_rank m.phase ≤ phase_rank m'.phase

abbrev pub NamesSorted : Registry → List String → Type 0
NamesSorted reg [] = Unit
NamesSorted reg (n ∷ rest) = All (NoLater reg n) rest × NamesSorted reg rest

abbrev pub Between : Registry → ℕ → ℕ → String → Type 0
Between reg lo hi n =
    (m : ReconModule)
    → installed reg n ≡ some m
    → (lo ≤ phase_rank m.phase) × (phase_rank m.phase ≤ hi)

later_than :
    (reg : Registry) (lo mid hi : ℕ) (n : String) (ys : List String)
    → Between reg lo mid n
    → All (Between reg mid hi) ys
    → All (NoLater reg n) ys
later_than reg lo mid hi n [] b c = tt
later_than reg lo mid hi n (y ∷ ys) b (c, cs) =
    (λ m m' is is'. omega (arith, b m is, c m' is'), later_than reg lo mid hi n ys b cs)

-- Names of one phase are sorted.
pub same-NamesSorted :
    (reg : Registry) (r : ℕ) (xs : List String) → All (Between reg r r) xs → NamesSorted reg xs
same-NamesSorted reg r [] h = tt
same-NamesSorted reg r (x ∷ xs) (b, h) =
    (later_than reg r r r x xs b h, same-NamesSorted reg r xs h)

pub NamesSorted-append :
    (reg : Registry) (lo mid hi : ℕ) (xs ys : List String)
    → NamesSorted reg xs
    → NamesSorted reg ys
    → All (Between reg lo mid) xs
    → All (Between reg mid hi) ys
    → NamesSorted reg (xs ++ ys)
NamesSorted-append reg lo mid hi [] ys s t b c = t
NamesSorted-append reg lo mid hi (x ∷ xs) ys (a, s) t (b, bs) c = (
  All-append (NoLater reg x) xs ys a (later_than reg lo mid hi x ys b c),
  NamesSorted-append reg lo mid hi xs ys s t bs c,
)
