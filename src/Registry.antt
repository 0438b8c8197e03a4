-- ===== src/Registry.antt =====
-- recon/modules/registry.py: the registered modules and the order in which a scan runs them.
mod Pull
mod Sort
pub mod Fuel
pub mod Order
mod Tests
use recon_platform.Prelude.{
  ℕ, zero, suc, ◌+◌, String, str_eq, Bool, true, false, Option, none, some, List, [], ◌∷◌, ◌++◌,
  Result, ok, err, ◌>>=◌, ◌>>◌, find, keep, length, ltb, if◌then◌else◌,
}
use recon_platform.Prelude.Names.{contains, sorted, for_each}

pub data Phase : Type 0 where
  osint passive active : Phase

-- `MODULE_PHASE_RANK`
abbrev pub phase_rank : Phase → ℕ
phase_rank osint = 0
phase_rank passive = 1
phase_rank active = 2

abbrev pub is_phase : Phase → Phase → Bool
is_phase osint osint = true
is_phase passive passive = true
is_phase active active = true
is_phase _ _ = false

pub record ReconModule : Type 0 where
  pub name : String
  pub phase : Phase
  pub depends_on : List String
  pub max_runtime_seconds : Option ℕ

-- `MODULES`, a dictionary by the module's name.
abbrev pub Registry : Type 0
Registry = List ReconModule

pub data RegistryError : Type 0 where
  no_name : RegistryError
  duplicate_name unknown_module missing_dependency cycle : String → RegistryError
  later_phase : String → String → RegistryError
  out_of_fuel : RegistryError

abbrev pub installed : Registry → String → Option ReconModule
installed reg n = find (λ m. str_eq m.name n) reg

unfoldable pub register : ReconModule → Registry → Result RegistryError Registry
register m reg = if str_eq m.name "" then err no_name else elim (installed reg m.name) [
  | some _ ↦ err (duplicate_name m.name)
  | none ↦ ok (reg ++ m ∷ [])
]

-- `MODULES[n]`
unfoldable pub get_module : Registry → String → Result RegistryError ReconModule
get_module reg n = elim (installed reg n) [ none ↦ err (missing_dependency n) | some m ↦ ok m ]

-- `_pull`: the set `wanted` grows by `n` and by what it depends on, as far as that is installed.
-- The fuel bounds the depth of the calls.
unfoldable pub pull :
    Registry → ℕ → Bool → String → List String → Result RegistryError (List String)
pull reg zero required n wanted = err out_of_fuel
pull reg (suc fuel) required n wanted =
    let deeper = pull reg fuel false in
    if contains wanted n then ok wanted else elim (installed reg n) [
      | none ↦ if required then err (unknown_module n) else ok wanted
      | some m ↦ for_each deeper m.depends_on (wanted ++ n ∷ [])
    ]

-- One round of the check that no module depends on one of a later phase.
check_dependency : Registry → ReconModule → String → Unit {0} → Result RegistryError (Unit {0})
unfolding get_module
check_dependency reg m dep _ = do
  d ← get_module reg dep
  if ltb (phase_rank m.phase) (phase_rank d.phase) then err (later_phase m.name dep) else ok tt

unfoldable pub check_phases : Registry → List String → Result RegistryError (Unit {0})
unfolding check_dependency get_module
check_phases reg wanted =
    for_each (λ n _. get_module reg n >>= λ m. for_each (check_dependency reg m) m.depends_on tt)
      wanted tt

-- `_visit`. What a call adds to `visiting` it discards again, so `visiting` is an argument.
unfoldable pub visit :
    Registry
    → List String
    → ℕ
    → List String
    → String
    → List String
    → Result RegistryError (List String)
unfolding get_module
visit reg subset zero visiting n out = err out_of_fuel
visit reg subset (suc fuel) visiting n out =
    let deeper = visit reg subset fuel (n ∷ visiting) in
    if contains out n then ok out else if contains visiting n then err (cycle n) else do
      m ← get_module reg n
      out' ←
          for_each (λ dep o. if contains subset dep then deeper dep o else ok o)
            (sorted m.depends_on) out
      ok (out' ++ n ∷ [])

unfoldable pub toposort : Registry → List String → Result RegistryError (List String)
toposort reg subset = for_each (visit reg subset (length subset + 1) []) (sorted subset) []

abbrev pub in_phase : Registry → Phase → String → Bool
in_phase reg p n = elim (installed reg n) [ none ↦ false | some m ↦ is_phase p m.phase ]

-- The names in the order of the run: the body of `resolve_order` up to its last line.
unfoldable pub resolve_names : Registry → List String → Result RegistryError (List String)
resolve_names reg names = do
  wanted ← for_each (pull reg (length reg + 1) true) names []
  check_phases reg wanted
  first ← toposort reg (keep (in_phase reg osint) wanted)
  second ← toposort reg (keep (in_phase reg passive) wanted)
  third ← toposort reg (keep (in_phase reg active) wanted)
  ok (first ++ second ++ third)

get_modules : Registry → List String → Result RegistryError (List ReconModule)
get_modules reg [] = ok []
get_modules reg (n ∷ names) = do m ← get_module reg n; rest ← get_modules reg names; ok (m ∷ rest)

unfoldable pub resolve_order : Registry → List String → Result RegistryError (List ReconModule)
unfolding get_modules get_module
resolve_order reg names = do ordered ← resolve_names reg names; get_modules reg ordered
