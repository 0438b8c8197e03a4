-- ===== src/Registry/Fuel.antt =====
-- The fuel of registry.py's recursions is enough: `resolve_order` never runs out of it.
mod Measure
use recon_platform.Prelude.{
  ap, ℕ, zero, suc, ◌+◌, ◌≤◌, ◌<◌, ◌≡◌, ◌≢◌, refl, sym, ◌⊎◌, inl, inr, String, eq_iff, str_eq, Bool,
  true, false, Option, none, some, List, [], ◌∷◌, ◌++◌, map, ok, err, Result, arith, All, keep,
  find, length, ◌>>=◌, ◌>>◌, >>=-eq-ok, >>=-eq-err, Bool-cases, Option-cases, if◌then◌else◌,
}
use recon_platform.Prelude.Names.{contains, contains-snoc, contains-sorted, sorted, for_each}
use recon_platform.Prelude.Loops.{All-contains}
use recon_platform.Registry.{
  Registry, ReconModule, RegistryError, out_of_fuel, installed, get_module, check_dependency,
  check_phases, visit, toposort, in_phase, resolve_names, get_modules, resolve_order, pull, osint,
  passive, active,
}
use recon_platform.Registry.Pull.{Has, Has-snoc, pull_lem, snoc_mono, Always, All-Always}
use recon_platform.Registry.Sort.{dep_step}
use Measure.{fresh, fresh_mono, fresh-le-length, fresh-lt, for_each-safe}

Has-map :
    (reg : Registry) (n : String) (m : ReconModule)
    → installed reg n ≡ some m
    → Has (map (λ k. k.name) reg) n
unfolding contains
Has-map [] n m h = cc
Has-map (k ∷ reg) n m h = ground (arith, Has-map reg n m)

length-names : (reg : Registry) → length (map (λ m. m.name) reg) ≡ length reg
length-names [] = refl
length-names (m ∷ reg) = ap suc (length-names reg)

module _ (reg : Registry) where
  abbrev all_names : List String
  all_names = map (λ m. m.name) reg

  pull-ne-out_of_fuel :
      (fuel : ℕ) (required : Bool) (n : String) (w : List String)
      → fresh all_names w < fuel
      → pull reg fuel required n w ≢ err out_of_fuel
  unfolding pull
  pull-ne-out_of_fuel zero required n w lt h = absurd (omega arith)
  pull-ne-out_of_fuel (suc fuel) required n w lt h = elim (Bool-cases (contains w n)) [
    | inl old ↦ ground arith
    | inr new ↦ elim (Option-cases (installed reg n)) [
      | inl missing ↦ ground arith
      | inr (m, is) ↦
          for_each-safe (pull reg fuel false) out_of_fuel Always (λ s. fresh all_names s < fuel)
            (λ d s _ i. pull-ne-out_of_fuel fuel false d s i)
            (λ d s t _ i e. smaller s t i (pull_lem reg fuel false d s t e).0.mono) m.depends_on
            (w ++ n ∷ []) (All-Always m.depends_on) (step_down m is new) (ground arith)
    ]
  ]
    where
      smaller :
          (s t : List String)
          → fresh all_names s < fuel
          → ((k : String) → Has s k → Has t k)
          → fresh all_names t < fuel
      smaller s t i up = omega (arith, fresh_mono all_names s t up)

      step_down :
          (m : ReconModule)
          → installed reg n ≡ some m
          → contains w n ≡ false
          → fresh all_names (w ++ n ∷ []) < fuel
      step_down m is new = omega (
        arith,
        fresh-lt all_names w (w ++ n ∷ []) n (snoc_mono w n) (Has-snoc w n) (Has-map reg n m is)
            new,
      )

  get_module-ne-out_of_fuel : (n : String) → get_module reg n ≢ err out_of_fuel
  unfolding get_module
  get_module-ne-out_of_fuel n h = ground arith

  module _ (subset : List String) (fuel : ℕ)
      (ih : (v : List String) (n : String) (out : List String)
        → fresh subset v < fuel
        → Has subset n
        → visit reg subset fuel v n out ≢ err out_of_fuel) where
    dep_step-safe :
        (v : List String) (d : String) (s : List String)
        → fresh subset v < fuel
        → dep_step reg subset (visit reg subset fuel v) d s ≢ err out_of_fuel
    dep_step-safe v d s lt h = elim (Bool-cases (contains subset d)) [
      | inl inside ↦ ih v d s lt inside (rw inside at h)
      | inr outside ↦ ground arith
    ]

    visit_new-safe :
        (v : List String) (n : String) (out : List String)
        → fresh subset v < suc fuel
        → Has subset n
        → contains v n ≡ false
        → (get_module reg n >>= λ m.
            for_each (dep_step reg subset (visit reg subset fuel (n ∷ v))) (sorted m.depends_on) out
            >>= λ o. ok (o ++ n ∷ []))
          ≢ err out_of_fuel
    unfolding contains
    visit_new-safe v n out lt inside free h = elim (>>=-eq-err (get_module reg n) _ h) [
      | inl missing ↦ get_module-ne-out_of_fuel n missing
      | inr (m, found, h') ↦ elim (>>=-eq-err (for_each _ (sorted m.depends_on) out) _ h') [
        | inl looped ↦
            for_each-safe (dep_step reg subset (visit reg subset fuel (n ∷ v))) out_of_fuel Always
              (λ _. Unit {0})
              (λ d s _ _. dep_step-safe (n ∷ v) d s (
                omega (
                  arith,
                  fresh-lt subset v (n ∷ v) n (λ k e. ground arith) (ground (arith, eq_iff n n))
                      inside free,
                )))
              (λ _ _ _ _ _ _. tt) (sorted m.depends_on) out (All-Always (sorted m.depends_on)) tt
              looped
        | inr (o, _, e) ↦ cc
      ]
    ]

  visit-ne-out_of_fuel :
      (subset : List String) (fuel : ℕ) (v : List String) (n : String) (out : List String)
      → fresh subset v < fuel
      → Has subset n
      → visit reg subset fuel v n out ≢ err out_of_fuel
  unfolding visit
  visit-ne-out_of_fuel subset zero v n out lt inside h = absurd (omega arith)
  visit-ne-out_of_fuel subset (suc fuel) v n out lt inside h = elim (Bool-cases (contains out n)) [
    | inl old ↦ ground arith
    | inr new ↦ elim (Bool-cases (contains v n)) [
      | inl again ↦ ground arith
      | inr free ↦
          visit_new-safe subset fuel (visit-ne-out_of_fuel subset fuel) v n out lt inside free
            (rw (new, free) at h)
    ]
  ]

  toposort-ne-out_of_fuel : (subset : List String) → toposort reg subset ≢ err out_of_fuel
  unfolding toposort
  toposort-ne-out_of_fuel subset h =
      for_each-safe (visit reg subset (length subset + 1) []) out_of_fuel (Has subset)
        (λ _. Unit {0})
        (λ n s i _.
          visit-ne-out_of_fuel subset (length subset + 1) [] n s
            (omega (arith, fresh-le-length subset [])) i)
        (λ _ _ _ _ _ _. tt) (sorted subset) []
        (All-contains (Has subset) (sorted subset) (λ n k. rw contains-sorted at k)) tt h

  check_phases-ne-out_of_fuel : (wanted : List String) → check_phases reg wanted ≢ err out_of_fuel
  unfolding check_phases
  check_phases-ne-out_of_fuel wanted h =
      for_each-safe _ out_of_fuel Always (λ _. Unit {0}) (λ n s _ _. one n) (λ _ _ _ _ _ _. tt)
        wanted tt (All-Always wanted) tt h
    where
      dep :
          (m : ReconModule) (d : String) (s : Unit {0})
          → check_dependency reg m d s ≢ err out_of_fuel
      dep m d s e = ground arith

      one :
          (n : String)
          → (get_module reg n >>= λ m. for_each (check_dependency reg m) m.depends_on tt)
            ≢ err out_of_fuel
      one n e = elim (>>=-eq-err (get_module reg n) _ e) [
        | inl missing ↦ get_module-ne-out_of_fuel n missing
        | inr (m, _, e') ↦
            for_each-safe (check_dependency reg m) out_of_fuel Always (λ _. Unit {0})
              (λ d s _ _. dep m d s) (λ _ _ _ _ _ _. tt) m.depends_on tt (All-Always m.depends_on)
              tt e'
      ]

  get_modules-ne-out_of_fuel : (ns : List String) → get_modules reg ns ≢ err out_of_fuel
  unfolding get_modules
  get_modules-ne-out_of_fuel [] h = cc
  get_modules-ne-out_of_fuel (n ∷ ns) h = elim (>>=-eq-err (get_module reg n) _ h) [
    | inl missing ↦ get_module-ne-out_of_fuel n missing
    | inr (m, _, h') ↦ elim (>>=-eq-err (get_modules reg ns) _ h') [
      | inl more ↦ get_modules-ne-out_of_fuel ns more
      | inr (ms, _, e) ↦ cc
    ]
  ]

  names-ne-out_of_fuel : (names : List String) → resolve_names reg names ≢ err out_of_fuel
  unfolding resolve_names
  names-ne-out_of_fuel names h = elim (>>=-eq-err (for_each _ names []) _ h) [
    | inl pulled ↦
        for_each-safe (pull reg (length reg + 1) true) out_of_fuel Always
          (λ s. fresh all_names s < length reg + 1)
          (λ n s _ i. pull-ne-out_of_fuel (length reg + 1) true n s i)
          (λ n s t _ i e.
            omega
              (arith, fresh_mono all_names s t (pull_lem reg (length reg + 1) true n s t e).0.mono))
          names [] (All-Always names) room pulled
    | inr (w, _, h1) ↦ elim (>>=-eq-err (check_phases reg w) _ h1) [
      | inl checked ↦ check_phases-ne-out_of_fuel w checked
      | inr (_, _, h2) ↦ elim (>>=-eq-err (toposort reg (keep (in_phase reg osint) w)) _ h2) [
        | inl a ↦ toposort-ne-out_of_fuel _ a
        | inr (_, _, h3) ↦ elim (>>=-eq-err (toposort reg (keep (in_phase reg passive) w)) _ h3) [
          | inl b ↦ toposort-ne-out_of_fuel _ b
          | inr (_, _, h4) ↦ elim (>>=-eq-err (toposort reg (keep (in_phase reg active) w)) _ h4) [
            | inl c ↦ toposort-ne-out_of_fuel _ c
            | inr (_, _, e) ↦ cc
          ]
        ]
      ]
    ]
  ]
    where
      room : fresh all_names [] < length reg + 1
      room = omega (arith, fresh-le-length all_names [], length-names reg)

-- `resolve_order` never stops for want of fuel: it returns an order or one of the code's errors.
pub resolve_order-ne-out_of_fuel :
    (reg : Registry) (names : List String) → resolve_order reg names ≢ err out_of_fuel
unfolding resolve_order
resolve_order-ne-out_of_fuel reg names h = elim (>>=-eq-err (resolve_names reg names) _ h) [
  | inl resolved ↦ names-ne-out_of_fuel reg names resolved
  | inr (ns, _, more) ↦ get_modules-ne-out_of_fuel reg ns more
]
