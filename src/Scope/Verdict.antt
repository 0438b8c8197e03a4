-- ===== src/Scope/Verdict.antt =====
-- recon/core/scope.py, `classify`: its verdict is what the rules of engagement say, exclusions first.
use recon_platform.Prelude.{
  ◌≡◌, refl, Option, none, some, List, ◌∷◌, ok, ◌↔◌, inl, inr, arith, Result-cases, sym,
}
use recon_platform.Prelude.Text.{Text}
use recon_platform.Scope.Ip.{Address}
use recon_platform.Scope.{
  in_scope, flagged, excluded, Rules, Reason, ScopeDecision, extract_host, candidates, listed,
  classify, verdict, allowed_verdict,
}
use recon_platform.Scope.Covers.{Covers, listed_sound, listed_complete}

-- What the rules say of a host and its addresses: excluded if the exclusions cover it, in scope if
-- only the list in scope does, flagged if neither does.
abbrev pub Follows : Rules → ScopeDecision → List Address → Type 0
Follows roe d ips =
    ((d.status ≡ excluded) ↔ Covers roe.barred d.host ips)
    × ((d.status ≡ in_scope) ↔ ((¬ Covers roe.barred d.host ips) × Covers roe.allowed d.host ips))
    × ((d.status ≡ flagged)
        ↔ ((¬ Covers roe.barred d.host ips) × (¬ Covers roe.allowed d.host ips)))

found-Follows :
    (roe : Rules) (target host : Text) (resolved : List Text) (found : Option Reason)
    → ¬ Covers roe.barred host (candidates (host ∷ resolved))
    → listed roe.allowed host resolved ≡ ok found
    → Follows roe (allowed_verdict target host found) (candidates (host ∷ resolved))
found-Follows roe target host resolved none bars h =
    let nor = listed_complete roe.allowed host resolved h in
    (
      (λ e. cc, λ k. elim (bars k) [ ]),
      (λ e. cc, λ k. elim (nor k.1) [ ]),
      (λ e. (bars, nor), λ k. refl),
    )
found-Follows roe target host resolved (some reason) bars h =
    let allows = listed_sound roe.allowed host resolved reason h in
    (
      (λ e. cc, λ k. elim (bars k) [ ]),
      (λ e. (bars, allows), λ k. refl),
      (λ e. cc, λ k. elim (k.1 allows) [ ]),
    )

barred-Follows :
    (roe : Rules) (target host : Text) (reason : Reason) {ips : List Address}
    → Covers roe.barred host ips
    → Follows roe (verdict excluded target host reason) ips
barred-Follows roe target host reason bars = (
  (λ e. bars, λ k. refl),
  (λ e. cc, λ k. elim (k.0 bars) [ ]),
  (λ e. cc, λ k. elim (k.0 bars) [ ]),
)

-- Without a ValueError, `classify` decides about the host that `extract_host` finds, and as the rules
-- say: excluded exactly if the excluded hosts, patterns or networks cover the host, one of its
-- addresses counting too; in scope exactly if the lists in scope cover it and the exclusions do
-- not; flagged exactly if neither covers it.
pub classify-Follows :
    (roe : Rules) (target : Text) (resolved : List Text) (d : ScopeDecision)
    → classify roe target resolved ≡ ok d
    → (extract_host target ≡ ok d.host) × Follows roe d (candidates (d.host ∷ resolved))
unfolding classify
classify-Follows roe target resolved d h = elim (Result-cases (extract_host target)) [
  | inr (e, q) ↦ ground arith
  | inl (host, q) ↦ elim (Result-cases (listed roe.barred host resolved)) [
    | inr (e, b) ↦ ground arith
    | inl (some reason, b) ↦
        let same : verdict excluded target host reason ≡ d = ground arith in
        rw (sym same) (
          q,
          barred-Follows roe target host reason (listed_sound roe.barred host resolved reason b),
        )
    | inl (none, b) ↦ elim (Result-cases (listed roe.allowed host resolved)) [
      | inr (e, a) ↦ ground arith
      | inl (found, a) ↦
          let same : allowed_verdict target host found ≡ d = ground arith in
          rw (sym same) (
            q,
            found-Follows roe target host resolved found
                (listed_complete roe.barred host resolved b) a,
          )
    ]
  ]
]

-- The verdict names the target that was asked about.
pub classify-target :
    (roe : Rules) (target : Text) (resolved : List Text) (d : ScopeDecision)
    → classify roe target resolved ≡ ok d
    → d.target ≡ target
unfolding classify
classify-target roe target resolved d h = elim (Result-cases (extract_host target)) [
  | inr (e, q) ↦ ground arith
  | inl (host, q) ↦ elim (Result-cases (listed roe.barred host resolved)) [
    | inr (e, b) ↦ ground arith
    | inl (some reason, b) ↦
        let same : verdict excluded target host reason ≡ d = ground arith in rw (sym same) refl
    | inl (none, b) ↦ elim (Result-cases (listed roe.allowed host resolved)) [
      | inr (e, a) ↦ ground arith
      | inl (found, a) ↦
          let same : allowed_verdict target host found ≡ d = ground arith in rw (sym same) refl
    ]
  ]
]
