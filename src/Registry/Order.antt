-- ===== src/Registry/Order.antt =====
-- `resolve_order` of registry.py: what an order that it returns promises to the scan.
mod Parts
mod Join
use mathlib.Core.List.{append-nil, append_assoc}
use recon_platform.Prelude.{
  ◌≢◌, ◌<◌, ap, Bool-cases, ◌&&◌, ◌∙◌, ℕ, zero, suc, ◌+◌, ◌≤◌, ◌≡◌, refl, sym, ◌⊎◌, inl, inr,
  String, eq_iff, Bool, true, false, Option, none, some, List, [], ◌∷◌, ◌++◌, map, ok, err, arith,
  All, All-append, keep, find, length, ◌>>=◌, >>=-eq-ok,
}
use recon_platform.Prelude.Names.{contains, contains-append, for_each}
use recon_platform.Prelude.Loops.{All-contains, contains-All}
use recon_platform.Registry.{
  Registry, ReconModule, RegistryError, Phase, osint, passive, active, phase_rank, is_phase,
  installed, get_module, check_phases, toposort, in_phase, resolve_names, get_modules,
  resolve_order, pull,
}
use recon_platform.Registry.Pull.{IsClosed, Has, All-map, Grows, pull-All}
use recon_platform.Registry.Sort.{Distinct, Topo, toposort_lem}
use Parts.{
  contains-keep, check_phases_lem, DepsFirst, DepsFirst-append, Topo-DepsFirst, Distinct-append,
  in_phase_lem, installed-name, ok_get_module, NamesSorted, NoLater, NamesSorted-append,
  same-NamesSorted, Between, Covered, Allowed,
}
use Join.{old_or_new, joined-DepsFirst, joined-Distinct, joined-NamesSorted, joined-Has}

abbrev pub names_of : List ReconModule → List String
names_of = map (λ m. m.name)

-- Each module stands behind all that it depends on.
abbrev pub ModulesFirst : List String → List ReconModule → Type 0
ModulesFirst seen [] = Unit
ModulesFirst seen (m ∷ rest) = All (Has seen) m.depends_on × ModulesFirst (seen ++ m.name ∷ []) rest

-- No module stands before one of an earlier phase.
abbrev pub PhaseSorted : List ReconModule → Type 0
PhaseSorted [] = Unit
PhaseSorted (m ∷ rest) = All (λ k. phase_rank m.phase ≤ phase_rank k.phase) rest × PhaseSorted rest

pub record IsRunOrder (names : List String) (ms : List ReconModule) : Type 0 where
  pub requested : All (Has (names_of ms)) names
  pub distinct : Distinct (names_of ms)
  pub dependencies : ModulesFirst [] ms
  pub phases : PhaseSorted ms

-- `names` are the names of the modules `ms`, as they are installed.
abbrev Named : Registry → List String → List ReconModule → Type 0
Named reg [] [] = Unit
Named reg (n ∷ ns) (m ∷ ms) = (installed reg n ≡ some m) × (m.name ≡ n) × Named reg ns ms
Named reg _ _ = ⊥

get_modules_lem :
    (reg : Registry) (ns : List String) (ms : List ReconModule)
    → get_modules reg ns ≡ ok ms
    → Named reg ns ms
unfolding get_modules
get_modules_lem reg [] [] h = tt
get_modules_lem reg [] (m ∷ ms) h = cc
get_modules_lem reg (n ∷ ns) ms h =
    let (m, found, h') = >>=-eq-ok (get_module reg n) _ h in
    let (rest, more, e) = >>=-eq-ok (get_modules reg ns) _ h' in
    let e' : m ∷ rest ≡ ms = cc in
    let is = ok_get_module reg n m found in
    rw (← e') (is, installed-name reg n m is, get_modules_lem reg ns rest more)

names_of-Named :
    (reg : Registry) (ns : List String) (ms : List ReconModule) → Named reg ns ms → names_of ms ≡ ns
names_of-Named reg [] [] h = refl
names_of-Named reg [] (m ∷ ms) h = absurd h
names_of-Named reg (n ∷ ns) [] h = absurd h
names_of-Named reg (n ∷ ns) (m ∷ ms) (is, name, h) = cc (name, names_of-Named reg ns ms h)

ModulesFirst-Named :
    (reg : Registry) (seen ns : List String) (ms : List ReconModule)
    → Named reg ns ms
    → DepsFirst reg seen ns
    → ModulesFirst seen ms
ModulesFirst-Named reg seen [] [] h d = tt
ModulesFirst-Named reg seen [] (m ∷ ms) h d = absurd h
ModulesFirst-Named reg seen (n ∷ ns) [] h d = absurd h
ModulesFirst-Named reg seen (n ∷ ns) (m ∷ ms) (is, name, h) (a, d) =
    (a m is, rw name (ModulesFirst-Named reg (seen ++ n ∷ []) ns ms h d))

PhaseSorted-Named :
    (reg : Registry) (ns : List String) (ms : List ReconModule)
    → Named reg ns ms
    → NamesSorted reg ns
    → PhaseSorted ms
PhaseSorted-Named reg [] [] h d = tt
PhaseSorted-Named reg [] (m ∷ ms) h d = absurd h
PhaseSorted-Named reg (n ∷ ns) [] h d = absurd h
PhaseSorted-Named reg (n ∷ ns) (m ∷ ms) (is, name, h) (a, d) =
    (go ns ms h a, PhaseSorted-Named reg ns ms h d)
  where
    go :
        (ks : List String) (ps : List ReconModule)
        → Named reg ks ps
        → All (NoLater reg n) ks
        → All (λ k. phase_rank m.phase ≤ phase_rank k.phase) ps
    go [] [] g b = tt
    go [] (p ∷ ps) g b = absurd g
    go (k ∷ ks) [] g b = absurd g
    go (k ∷ ks) (p ∷ ps) (is', _, g) (b, bs) = (b m p is is', go ks ps g bs)

resolve_names_lem :
    (reg : Registry) (names out : List String)
    → resolve_names reg names ≡ ok out
    → All (Has out) names × Distinct out × DepsFirst reg [] out × NamesSorted reg out
unfolding resolve_names
resolve_names_lem reg names out h =
    let (wanted, pulled, h1) = >>=-eq-ok (for_each _ names []) _ h in
    let (u, checked, h2) = >>=-eq-ok (check_phases reg wanted) _ h1 in
    let (a, ra, h3) = >>=-eq-ok (toposort reg (keep (in_phase reg osint) wanted)) _ h2 in
    let (b, rb, h4) = >>=-eq-ok (toposort reg (keep (in_phase reg passive) wanted)) _ h3 in
    let (c, rc, h5) = >>=-eq-ok (toposort reg (keep (in_phase reg active) wanted)) _ h4 in
    let (grown, asked) = pull-All reg (length reg + 1) names wanted pulled in
    let closed : (n : String) → Has wanted n → IsClosed reg wanted n =
      λ n k. old_or_new n (grown.closed n k) in
    let allowed = contains-All _ wanted (check_phases_lem reg wanted u checked) in
    let sa = toposort_lem reg (keep (in_phase reg osint) wanted) a ra in
    let sb = toposort_lem reg (keep (in_phase reg passive) wanted) b rb in
    let sc = toposort_lem reg (keep (in_phase reg active) wanted) c rc in
    let e : a ++ b ++ c ≡ out = cc in
    rw (← e) (
      All-contains _ names (λ n k.
          let w = contains-All _ names asked n k in
          let (m, is) = old_or_new n (grown.known n w) in
          joined-Has reg wanted closed allowed a b c sa sb sc n m w is),
      joined-Distinct reg wanted closed allowed a b c sa sb sc,
      joined-DepsFirst reg wanted closed allowed a b c sa sb sc,
      joined-NamesSorted reg wanted closed allowed a b c sa sb sc,
    )

-- What `resolve_order` returns runs every requested module, each once, behind all that it depends
-- on, and no module before one of an earlier phase.
pub resolve_order-IsRunOrder :
    (reg : Registry) (names : List String) (ms : List ReconModule)
    → resolve_order reg names ≡ ok ms
    → IsRunOrder names ms
unfolding resolve_order
resolve_order-IsRunOrder reg names ms h =
    let (out, resolved, h') = >>=-eq-ok (resolve_names reg names) _ h in
    let named = get_modules_lem reg out ms h' in
    let r = resolve_names_lem reg names out resolved in
    let e = names_of-Named reg out ms named in
    record {
      requested = rw e r.0;
      distinct = rw e r.1;
      dependencies = ModulesFirst-Named reg [] out ms named r.2;
      phases = PhaseSorted-Named reg out ms named r.3;
    }

-- A requested module with a dependency that is not installed makes `resolve_order` raise, though
-- `_pull` passes such a dependency over.
pub resolve_order-missing_dependency :
    (reg : Registry) (names : List String) (n d : String) (m : ReconModule) (ms : List ReconModule)
    → Has names n
    → installed reg n ≡ some m
    → Has m.depends_on d
    → installed reg d ≡ none
    → resolve_order reg names ≢ ok ms
unfolding resolve_order resolve_names
resolve_order-missing_dependency reg names n d m ms asked is dep missing h =
    let (out, resolved, _) = >>=-eq-ok (resolve_names reg names) _ h in
    let (wanted, pulled, h1) = >>=-eq-ok (for_each _ names []) _ resolved in
    let (u, checked, _) = >>=-eq-ok (check_phases reg wanted) _ h1 in
    let w = contains-All _ names (pull-All reg (length reg + 1) names wanted pulled).1 n asked in
    let allowed = contains-All _ wanted (check_phases_lem reg wanted u checked) n w m is in
    let (d', found, _) = contains-All _ m.depends_on allowed d dep in cc
