-- ===== src/Registry/Tests.antt =====
-- Runs of registry.py, and the theorems of its modules at concrete registries.
use recon_platform.Prelude.{◌≡◌, ◌≢◌, refl, none, some, [], ◌∷◌, ok, err}
use recon_platform.Prelude.Names.{contains, sorted, for_each}
use recon_platform.Registry.{
  Registry, ReconModule, osint, passive, active, unknown_module, out_of_fuel, resolve_order,
  resolve_names, pull, check_phases, toposort, visit,
}
use recon_platform.Registry.Order.{
  IsRunOrder, resolve_order-IsRunOrder, resolve_order-missing_dependency,
}
use recon_platform.Registry.Fuel.{resolve_order-ne-out_of_fuel}

abbrev dns : ReconModule
dns = record { name = "dns"; phase = passive; depends_on = []; max_runtime_seconds = none }

abbrev crawler : ReconModule
crawler = record {
  name = "crawler";
  phase = passive;
  depends_on = "probe_http" ∷ "dns" ∷ [];
  max_runtime_seconds = none;
}

abbrev probe_http : ReconModule
probe_http = record {
  name = "probe_http";
  phase = passive;
  depends_on = "dns" ∷ [];
  max_runtime_seconds = none;
}

abbrev rdap : ReconModule
rdap = record { name = "rdap"; phase = osint; depends_on = []; max_runtime_seconds = none }

abbrev port_scan : ReconModule
port_scan = record {
  name = "port_scan";
  phase = active;
  depends_on = "dns" ∷ [];
  max_runtime_seconds = some 7200;
}

abbrev dns_axfr : ReconModule
dns_axfr = record {
  name = "dns_axfr";
  phase = active;
  depends_on = "zone_walk" ∷ [];
  max_runtime_seconds = none;
}

abbrev builtin : Registry
builtin = port_scan ∷ crawler ∷ dns_axfr ∷ rdap ∷ probe_http ∷ dns ∷ []

builtin_order :
    resolve_order builtin ("port_scan" ∷ "crawler" ∷ "rdap" ∷ [])
    ≡ ok (rdap ∷ dns ∷ probe_http ∷ crawler ∷ port_scan ∷ [])
unfolding resolve_order resolve_names pull check_phases toposort visit for_each contains sorted
builtin_order = refl

unknown : resolve_order builtin ("nope" ∷ []) ≡ err (unknown_module "nope")
unfolding resolve_order resolve_names pull for_each contains
unknown = refl

resolve_order-IsRunOrder_example :
    IsRunOrder
      ("port_scan" ∷ "crawler" ∷ "rdap" ∷ [])
      (rdap ∷ dns ∷ probe_http ∷ crawler ∷ port_scan ∷ [])
resolve_order-IsRunOrder_example =
    resolve_order-IsRunOrder builtin ("port_scan" ∷ "crawler" ∷ "rdap" ∷ [])
      (rdap ∷ dns ∷ probe_http ∷ crawler ∷ port_scan ∷ []) builtin_order

resolve_order-ne-out_of_fuel_example : resolve_order builtin ("crawler" ∷ []) ≢ err out_of_fuel
resolve_order-ne-out_of_fuel_example = resolve_order-ne-out_of_fuel builtin ("crawler" ∷ [])

resolve_order-missing_dependency_example :
    resolve_order builtin ("dns_axfr" ∷ []) ≢ ok (dns_axfr ∷ [])
unfolding contains
resolve_order-missing_dependency_example =
    resolve_order-missing_dependency builtin ("dns_axfr" ∷ []) "dns_axfr" "zone_walk" dns_axfr
      (dns_axfr ∷ []) refl refl refl refl
