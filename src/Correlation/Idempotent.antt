-- ===== src/Correlation/Idempotent.antt =====
-- recon/correlation/engine.py: `_upsert_asset` again, with the same evidence, changes no asset.
use recon_platform.Prelude.{
  ℕ, ◌≤◌, ◌≡◌, refl, ap, ◌∙◌, ==_iff, max, true, Option, none, some, List, [], ◌∷◌, All, Bool-cases,
  inl, inr, arith,
}
use recon_platform.Prelude.Text.{Text, text_eq_iff}
use recon_platform.Scope.{ScopeStatus}
use recon_platform.Correlation.{
  AssetType, InterestLevel, informational, notable, high_value, max_interest, Evidence,
}
use recon_platform.Correlation.Interest.{interest}
use recon_platform.Correlation.Upsert.{
  Asset, is_asset, type_number, latest, earliest, later, earlier, first_time, score, new_asset,
  raised_asset, upsert_asset,
}

earlier-le : (t : ℕ) (o : Option ℕ) → earlier t o ≤ t
earlier-le t none = omega arith
earlier-le t (some u) = omega arith

pub earliest-le : (t : ℕ) (es : List Evidence) → earliest t es ≤ t
unfolding earliest
earliest-le t [] = omega arith
earliest-le t (e ∷ es) =
    omega (arith, earliest-le (earlier t e.discovered_at) es, earlier-le t e.discovered_at)

earlier-absorbs : (x t : ℕ) (o : Option ℕ) → x ≤ earlier t o → earlier x o ≡ x
earlier-absorbs x t none h = refl
earlier-absorbs x t (some u) h = omega (arith, h)

earliest-All :
    (t : ℕ) (es : List Evidence)
    → All (λ e. earlier (earliest t es) e.discovered_at ≡ earliest t es) es
unfolding earliest
earliest-All t [] = tt
earliest-All t (e ∷ es) =
    let s = earlier t e.discovered_at in
    (earlier-absorbs (earliest s es) t e.discovered_at (earliest-le s es), earliest-All s es)

earliest-fixed :
    (x : ℕ) (es : List Evidence) → All (λ e. earlier x e.discovered_at ≡ x) es → earliest x es ≡ x
unfolding earliest
earliest-fixed x [] h = refl
earliest-fixed x (e ∷ es) (p, h) = rw p (earliest-fixed x es h)

later-le : (t : ℕ) (o : Option ℕ) → t ≤ later t o
later-le t none = omega arith
later-le t (some u) = omega arith

pub latest-le : (t : ℕ) (es : List Evidence) → t ≤ latest t es
unfolding latest
latest-le t [] = omega arith
latest-le t (e ∷ es) =
    omega (arith, latest-le (later t e.discovered_at) es, later-le t e.discovered_at)

later-absorbs : (x t : ℕ) (o : Option ℕ) → later t o ≤ x → later x o ≡ x
later-absorbs x t none h = refl
later-absorbs x t (some u) h = omega (arith, h)

latest-All :
    (t : ℕ) (es : List Evidence) → All (λ e. later (latest t es) e.discovered_at ≡ latest t es) es
unfolding latest
latest-All t [] = tt
latest-All t (e ∷ es) =
    let s = later t e.discovered_at in
    (later-absorbs (latest s es) t e.discovered_at (latest-le s es), latest-All s es)

latest-fixed :
    (x : ℕ) (es : List Evidence) → All (λ e. later x e.discovered_at ≡ x) es → latest x es ≡ x
unfolding latest
latest-fixed x [] h = refl
latest-fixed x (e ∷ es) (p, h) = rw p (latest-fixed x es h)

max_interest-absorbs : (a b : InterestLevel) → max_interest (max_interest a b) b ≡ max_interest a b
unfolding max_interest
max_interest-absorbs informational informational = refl
max_interest-absorbs informational notable = refl
max_interest-absorbs informational high_value = refl
max_interest-absorbs notable informational = refl
max_interest-absorbs notable notable = refl
max_interest-absorbs notable high_value = refl
max_interest-absorbs high_value informational = refl
max_interest-absorbs high_value notable = refl
max_interest-absorbs high_value high_value = refl

max_interest-same : (a : InterestLevel) → max_interest a a ≡ a
unfolding max_interest
max_interest-same informational = refl
max_interest-same notable = refl
max_interest-same high_value = refl

raised_again :
    (type : AssetType) (value : Text) (evs : List Evidence) (status : ScopeStatus) (a : Asset)
    → raised_asset type value evs status (raised_asset type value evs status a)
      ≡ raised_asset type value evs status a
unfolding raised_asset
raised_again type value evs status a =
    let most : max (max a.confidence_score (score evs)) (score evs)
        ≡ max a.confidence_score (score evs) =
      omega arith in
    rw
      (
        most,
        max_interest-absorbs a.interest_level (interest type value evs),
        earliest-fixed (earliest a.first_seen evs) evs (earliest-All a.first_seen evs),
        latest-fixed (latest a.last_seen evs) evs (latest-All a.last_seen evs),
      )
      refl

raised_new :
    (now : ℕ) (type : AssetType) (value : Text) (evs : List Evidence) (status : ScopeStatus)
    → raised_asset type value evs status (new_asset now type value evs status)
      ≡ new_asset now type value evs status
unfolding raised_asset new_asset
raised_new now type value evs status =
    let most : max (score evs) (score evs) ≡ score evs = omega arith in
    let first = first_time now evs in
    rw
      (
        most,
        max_interest-same (interest type value evs),
        earliest-fixed (earliest first evs) evs (earliest-All first evs),
        latest-fixed (latest first evs) evs (latest-All first evs),
      )
      refl

new_asset-is_asset :
    (now : ℕ) (type : AssetType) (value : Text) (evs : List Evidence) (status : ScopeStatus)
    → is_asset type value (new_asset now type value evs status) ≡ true
unfolding new_asset
new_asset-is_asset now type value evs status =
    rw ((==_iff (type_number type) (type_number type)).1 refl) ((text_eq_iff value value).1 refl)

pub raised_asset-is_asset :
    (type : AssetType) (value : Text) (evs : List Evidence) (status : ScopeStatus) (a : Asset)
    → is_asset type value (raised_asset type value evs status a) ≡ is_asset type value a
unfolding raised_asset
raised_asset-is_asset type value evs status a = refl

-- An asset that was upserted, and is upserted again with the same evidence and the same verdict of the
-- scope, at whatever time: the table of assets stays as it is.
pub upsert_asset-again :
    (now later_on : ℕ) (type : AssetType) (value : Text) (evs : List Evidence)
    (status : ScopeStatus) (assets : List Asset)
    → upsert_asset later_on type value evs status (upsert_asset now type value evs status assets)
      ≡ upsert_asset now type value evs status assets
unfolding upsert_asset
upsert_asset-again now later_on type value evs status [] =
    rw (new_asset-is_asset now type value evs status, raised_new now type value evs status) refl
upsert_asset-again now later_on type value evs status (a ∷ assets) =
    elim (Bool-cases (is_asset type value a)) [
      | inl hit ↦
          rw
            (
              hit,
              raised_asset-is_asset type value evs status a ∙ hit,
              raised_again type value evs status a,
            )
            refl
      | inr miss ↦
          rw (miss, miss)
            (ap (λ rest. a ∷ rest) (upsert_asset-again now later_on type value evs status assets))
    ]
