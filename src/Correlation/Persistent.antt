-- ===== src/Correlation/Persistent.antt =====
-- recon/correlation/engine.py: what an upsert has settled about one asset, later upserts leave settled.
use recon_platform.Prelude.{
  ℕ, ◌≤◌, ◌≡◌, refl, ap, max, Bool, true, false, if◌then◌else◌, Option, none, some, List, [], ◌∷◌,
  Bool-cases, inl, inr, arith,
}
use recon_platform.Prelude.Text.{Text}
use recon_platform.Scope.{ScopeStatus}
use recon_platform.Correlation.{
  AssetType, InterestLevel, informational, notable, high_value, max_interest, Evidence,
}
use recon_platform.Correlation.Interest.{interest}
use recon_platform.Correlation.Upsert.{
  Asset, is_asset, latest, earliest, later, earlier, score, raised_asset, upsert_asset,
}
use recon_platform.Correlation.Idempotent.{earliest-le, latest-le}

max_interest_keeps :
    (a e f : InterestLevel)
    → max_interest a e ≡ a
    → max_interest (max_interest a f) e ≡ max_interest a f
unfolding max_interest
max_interest_keeps informational e informational h = h
max_interest_keeps informational informational notable h = refl
max_interest_keeps informational notable notable h = refl
max_interest_keeps informational high_value notable h = cc
max_interest_keeps informational informational high_value h = refl
max_interest_keeps informational notable high_value h = refl
max_interest_keeps informational high_value high_value h = refl
max_interest_keeps notable e informational h = h
max_interest_keeps notable e notable h = h
max_interest_keeps notable informational high_value h = refl
max_interest_keeps notable notable high_value h = refl
max_interest_keeps notable high_value high_value h = refl
max_interest_keeps high_value e informational h = h
max_interest_keeps high_value e notable h = h
max_interest_keeps high_value e high_value h = h

earlier_keeps : (x y : ℕ) (o : Option ℕ) → y ≤ x → x ≤ earlier x o → earlier y o ≡ y
earlier_keeps x y none le h = refl
earlier_keeps x y (some u) le h = omega (arith, le, h)

later_keeps : (x y : ℕ) (o : Option ℕ) → x ≤ y → later x o ≤ x → later y o ≡ y
later_keeps x y none le h = refl
later_keeps x y (some u) le h = omega (arith, le, h)

earlier_below : (x : ℕ) (o : Option ℕ) → earlier x o ≤ x
earlier_below x none = omega arith
earlier_below x (some u) = omega arith

later_above : (x : ℕ) (o : Option ℕ) → x ≤ later x o
later_above x none = omega arith
later_above x (some u) = omega arith

earliest_keeps : (x y : ℕ) (es : List Evidence) → y ≤ x → x ≤ earliest x es → earliest y es ≡ y
unfolding earliest
earliest_keeps x y [] le h = refl
earliest_keeps x y (e ∷ es) le h =
    let below = earliest-le (earlier x e.discovered_at) es in
    let near = earlier_below x e.discovered_at in
    let same : earlier x e.discovered_at ≡ x = omega (arith, below, near, h) in
    rw (earlier_keeps x y e.discovered_at le (omega (arith, same)))
      (earliest_keeps x y es le (rw⁻¹ (ap (λ t. earliest t es) same) h))

latest_keeps : (x y : ℕ) (es : List Evidence) → x ≤ y → latest x es ≤ x → latest y es ≡ y
unfolding latest
latest_keeps x y [] le h = refl
latest_keeps x y (e ∷ es) le h =
    let above = latest-le (later x e.discovered_at) es in
    let near = later_above x e.discovered_at in
    let same : later x e.discovered_at ≡ x = omega (arith, above, near, h) in
    rw (later_keeps x y e.discovered_at le (omega (arith, same)))
      (latest_keeps x y es le (rw⁻¹ (ap (λ t. latest t es) same) h))

-- A row that evidence has settled stays settled for it when other evidence raises it.
raised_keeps :
    (type type' : AssetType) (value value' : Text) (evs es : List Evidence) (status : ScopeStatus)
    (a : Asset)
    → raised_asset type value evs status a ≡ a
    → raised_asset type value evs status (raised_asset type' value' es status a)
      ≡ raised_asset type' value' es status a
unfolding raised_asset
raised_keeps type type' value value' evs es status a h =
    let sure = ap (λ (x : Asset). x.confidence_score) h in
    let most : max (max a.confidence_score (score es)) (score evs)
        ≡ max a.confidence_score (score es) =
      omega (arith, sure) in
    let first = ap (λ (x : Asset). x.first_seen) h in
    let last = ap (λ (x : Asset). x.last_seen) h in
    rw
      (
        most,
        max_interest_keeps a.interest_level (interest type value evs) (interest type' value' es)
            (ap (λ (x : Asset). x.interest_level) h),
        earliest_keeps a.first_seen (earliest a.first_seen es) evs (earliest-le a.first_seen es)
            (omega (arith, first)),
        latest_keeps a.last_seen (latest a.last_seen es) evs (latest-le a.last_seen es)
            (omega (arith, last)),
      )
      refl

head_eq : (a b : Asset) (xs ys : List Asset) → ◌≡◌ {A = List Asset} (a ∷ xs) (b ∷ ys) → a ≡ b
head_eq a b xs ys h = cc

tail_eq : (a b : Asset) (xs ys : List Asset) → ◌≡◌ {A = List Asset} (a ∷ xs) (b ∷ ys) → xs ≡ ys
tail_eq a b xs ys h = cc

raised-is_asset :
    (type type' : AssetType) (value value' : Text) (es : List Evidence) (status : ScopeStatus)
    (a : Asset)
    → is_asset type value (raised_asset type' value' es status a) ≡ is_asset type value a
unfolding raised_asset
raised-is_asset type type' value value' es status a = refl

if_true :
    {b : Bool} (xs ys : List Asset) {zs : List Asset}
    → b ≡ true
    → (if b then xs else ys) ≡ zs
    → xs ≡ zs
if_true xs ys e h = ground (arith, e, h)

if_false :
    {b : Bool} (xs ys : List Asset) {zs : List Asset}
    → b ≡ false
    → (if b then xs else ys) ≡ zs
    → ys ≡ zs
if_false xs ys e h = ground (arith, e, h)

-- An upsert with this evidence, at this time, leaves the table as it is.
abbrev pub IsFixed : ℕ → AssetType → Text → List Evidence → ScopeStatus → List Asset → Type 0
IsFixed now type value evs status assets = upsert_asset now type value evs status assets ≡ assets

pub upsert_asset-IsFixed :
    (now later_on : ℕ) (type type' : AssetType) (value value' : Text) (evs es : List Evidence)
    (status status' : ScopeStatus) (assets : List Asset)
    → ((a : Asset)
        → is_asset type value a ≡ true
        → is_asset type' value' a ≡ true
        → status' ≡ status)
    → IsFixed later_on type value evs status assets
    → IsFixed later_on type value evs status (upsert_asset now type' value' es status' assets)
unfolding upsert_asset
upsert_asset-IsFixed now later_on type type' value value' evs es status status' [] one h = cc
upsert_asset-IsFixed now later_on type type' value value' evs es status status' (a ∷ assets) one h =
    elim (Bool-cases (is_asset type value a)) [
      | inl hit ↦
          let same : raised_asset type value evs status a ≡ a =
            head_eq _ _ assets assets (if_true _ _ hit h) in
          elim (Bool-cases (is_asset type' value' a)) [
            | inl hit' ↦
                rw
                  (
                    hit',
                    raised-is_asset type type' value value' es status' a,
                    hit,
                    one a hit hit',
                    raised_keeps type type' value value' evs es status a same,
                  )
                  refl
            | inr miss' ↦ rw (miss', hit, same) refl
          ]
      | inr miss ↦
          let rest : IsFixed later_on type value evs status assets =
            tail_eq a a _ assets (if_false _ _ miss h) in
          elim (Bool-cases (is_asset type' value' a)) [
            | inl hit' ↦
                rw (hit', raised-is_asset type type' value value' es status' a, miss)
                  (ap (λ r. raised_asset type' value' es status' a ∷ r) rest)
            | inr miss' ↦
                rw (miss', miss)
                  (ap (λ r. a ∷ r)
                    (upsert_asset-IsFixed now later_on type type' value value' evs es status status'
                      assets one rest))
          ]
    ]
