-- ===== src/Correlation/Upsert.antt =====
-- recon/correlation/engine.py, `_upsert_asset`: the row of an asset is made, or raised.
use recon_platform.Prelude.{
  ℕ, ◌==◌, min, max, Bool, ◌&&◌, Option, none, some, List, [], ◌∷◌, if◌then◌else◌,
}
use recon_platform.Prelude.Text.{Text, text_eq, is_empty}
use recon_platform.Scope.{ScopeStatus}
use recon_platform.Correlation.{
  AssetType, domain, subdomain, ip, url, service, finding, organization, person, email, repository,
  netblock, document, social, InterestLevel, max_interest, Evidence, distinct_sources, confidence,
}
use recon_platform.Correlation.Interest.{interest}

pub record Asset : Type 0 where
  pub asset_type : AssetType
  pub value : Text
  pub confidence_score : ℕ
  pub interest_level : InterestLevel
  pub in_scope_status : ScopeStatus
  pub first_seen : ℕ
  pub last_seen : ℕ

abbrev pub type_number : AssetType → ℕ
type_number domain = 0
type_number subdomain = 1
type_number ip = 2
type_number url = 3
type_number service = 4
type_number finding = 5
type_number organization = 6
type_number person = 7
type_number email = 8
type_number repository = 9
type_number netblock = 10
type_number document = 11
type_number social = 12

abbrev pub is_asset : AssetType → Text → Asset → Bool
is_asset type value a = type_number a.asset_type == type_number type && text_eq a.value value

abbrev pub later : ℕ → Option ℕ → ℕ
later t none = t
later t (some u) = max t u

abbrev pub earlier : ℕ → Option ℕ → ℕ
earlier t none = t
earlier t (some u) = min t u

-- `max([last, *times])`
unfoldable pub latest : ℕ → List Evidence → ℕ
latest t [] = t
latest t (e ∷ es) = latest (later t e.discovered_at) es

-- `min([first, *times])`
unfoldable pub earliest : ℕ → List Evidence → ℕ
earliest t [] = t
earliest t (e ∷ es) = earliest (earlier t e.discovered_at) es

-- The first time, or the clock's.
unfoldable pub first_time : ℕ → List Evidence → ℕ
first_time now [] = now
first_time now (e ∷ es) = elim e.discovered_at [ none ↦ first_time now es | some t ↦ t ]

-- The score of the evidence: 0.3 without any.
abbrev pub score : List Evidence → ℕ
score evs = if is_empty evs then 6 else confidence (distinct_sources evs)

unfoldable pub new_asset : ℕ → AssetType → Text → List Evidence → ScopeStatus → Asset
unfolding earliest latest first_time confidence distinct_sources interest
new_asset now type value evs status = record {
  asset_type = type;
  value = value;
  confidence_score = score evs;
  interest_level = interest type value evs;
  in_scope_status = status;
  first_seen = earliest (first_time now evs) evs;
  last_seen = latest (first_time now evs) evs;
}

unfoldable pub raised_asset : AssetType → Text → List Evidence → ScopeStatus → Asset → Asset
unfolding earliest latest confidence distinct_sources interest max_interest
raised_asset type value evs status a = record a {
  confidence_score = max a.confidence_score (score evs);
  interest_level = max_interest a.interest_level (interest type value evs);
  in_scope_status = status;
  first_seen = earliest a.first_seen evs;
  last_seen = latest a.last_seen evs;
}

-- `_upsert_asset`, with the scope's verdict on the asset.
unfoldable pub upsert_asset :
    ℕ → AssetType → Text → List Evidence → ScopeStatus → List Asset → List Asset
unfolding new_asset raised_asset text_eq
upsert_asset now type value evs status [] = new_asset now type value evs status ∷ []
upsert_asset now type value evs status (a ∷ assets) =
    let rest = upsert_asset now type value evs status assets in
    if is_asset type value a then raised_asset type value evs status a ∷ assets else a ∷ rest
