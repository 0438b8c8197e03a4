-- ===== src/Correlation/Graph/Tables/Invariant.antt =====
-- recon/correlation/engine.py: the invariant of the tables of a correlation, and the keys of assets.
use recon_platform.Prelude.{
  ℕ, ltb, ◌==◌, ==_iff, ◌≡◌, refl, sym, ap, ◌∙◌, Bool, true, false, ◌&&◌, ◌||◌, List, [], ◌∷◌, any,
  All, ok, Bool-cases, inl, inr, arith,
}
use recon_platform.Prelude.Text.{Text, text_eq, text_eq_iff}
use recon_platform.Scope.{ScopeStatus, not_applicable, Rules}
use recon_platform.Correlation.{
  AssetType, domain, subdomain, ip, url, service, finding, organization, person, email, repository,
  netblock, document, social, Evidence,
}
use recon_platform.Correlation.Upsert.{
  Asset, is_asset, type_number, new_asset, raised_asset, upsert_asset,
}
use recon_platform.Correlation.Route.{Row, AssetKey, key, same_key, RelHint}
use recon_platform.Correlation.Graph.{Edge, same_edge, Graph, classify_asset, has_asset}

-- An asset that is no scan target: a finding, or what OSINT found about the organisation.
abbrev pub is_intel : AssetType → Bool
is_intel domain = false
is_intel subdomain = false
is_intel ip = false
is_intel url = false
is_intel service = false
is_intel _ = true

-- Intelligence gets no verdict of the scope.
abbrev pub IsApart : Asset → Type 0
IsApart a = is_intel a.asset_type ≡ true → a.in_scope_status ≡ not_applicable

abbrev pub IsHeld : List Asset → AssetKey → Type 0
IsHeld assets k = has_asset k assets ≡ true

-- No earlier row has the key of a later one.
abbrev pub HasKeys : List Asset → Type 0
HasKeys [] = Unit {0}
HasKeys (a ∷ assets) = (has_asset (key a.asset_type a.value) assets ≡ false) × HasKeys assets

abbrev pub HasEdges : List Edge → Type 0
HasEdges [] = Unit {0}
HasEdges (e ∷ edges) = (any (same_edge e) edges ≡ false) × HasEdges edges

abbrev pub IsProper : List Asset → Edge → Type 0
IsProper assets e =
    (same_key e.source e.target ≡ false) × IsHeld assets e.source × IsHeld assets e.target

pub record IsSound (g : Graph) : Type 0 where
  pub apart : All IsApart g.assets
  pub keys : HasKeys g.assets
  pub distinct : HasEdges g.edges
  pub proper : All (IsProper g.assets) g.edges
  pub known : All (IsHeld g.assets) g.asset_ids
  pub linked : All (λ (l : Row × AssetKey). IsHeld g.assets l.1) g.links

pub classify_asset-intel :
    (rules : Rules) (hints : List RelHint) (type : AssetType) (value : Text) {status : ScopeStatus}
    → classify_asset rules hints type value ≡ ok status
    → is_intel type ≡ true
    → status ≡ not_applicable
unfolding classify_asset
classify_asset-intel rules hints domain value h i = cc
classify_asset-intel rules hints subdomain value h i = cc
classify_asset-intel rules hints ip value h i = cc
classify_asset-intel rules hints url value h i = cc
classify_asset-intel rules hints service value h i = cc
classify_asset-intel rules hints finding value h i = ground (arith, h)
classify_asset-intel rules hints organization value h i = ground (arith, h)
classify_asset-intel rules hints person value h i = ground (arith, h)
classify_asset-intel rules hints email value h i = ground (arith, h)
classify_asset-intel rules hints repository value h i = ground (arith, h)
classify_asset-intel rules hints netblock value h i = ground (arith, h)
classify_asset-intel rules hints document value h i = ground (arith, h)
classify_asset-intel rules hints social value h i = ground (arith, h)

pub and_parts : (a b : Bool) → (a && b) ≡ true → (a ≡ true) × (b ≡ true)
and_parts a b h = ground arith

pub same_key_left : (a b c : AssetKey) → same_key a b ≡ true → same_key a c ≡ same_key b c
same_key_left a b c h =
    let (types, values) = and_parts _ _ h in
    ap (λ (n : ℕ). n == type_number c.asset_type && text_eq a.value c.value)
      ((==_iff (type_number a.asset_type) (type_number b.asset_type)).0 types)
    ∙ ap (λ (s : Text). type_number b.asset_type == type_number c.asset_type && text_eq s c.value)
        ((text_eq_iff a.value b.value).0 values)

-- The same rows have the key after an upsert, and one more.
pub has_asset-upsert_asset :
    (now : ℕ) (k : AssetKey) (evs : List Evidence) (status : ScopeStatus) (j : AssetKey)
    (assets : List Asset)
    → has_asset j (upsert_asset now k.asset_type k.value evs status assets)
      ≡ (has_asset j assets || same_key k j)
unfolding upsert_asset new_asset raised_asset
has_asset-upsert_asset now k evs status j [] = ground arith
has_asset-upsert_asset now k evs status j (a ∷ assets) =
    elim (Bool-cases (is_asset k.asset_type k.value a)) [
      | inl hit ↦ rw hit (ground (arith, same_key_left (key a.asset_type a.value) k j hit))
      | inr miss ↦ rw miss (ground (arith, has_asset-upsert_asset now k evs status j assets))
    ]

pub same_key_sym : (a b : AssetKey) → same_key a b ≡ same_key b a
same_key_sym a b = ground (arith, text_eq_iff a.value b.value, text_eq_iff b.value a.value)

pub or_false : (a b : Bool) → (a || b) ≡ false → (a ≡ false) × (b ≡ false)
or_false a b h = ground arith

-- Keys that are the same are held together.
pub has_asset-same :
    (j k : AssetKey) (assets : List Asset)
    → same_key j k ≡ true
    → has_asset j assets ≡ has_asset k assets
has_asset-same j k [] same = refl
has_asset-same j k (a ∷ assets) same =
    let a_key = key a.asset_type a.value in
    ground (
      arith,
      same_key_sym a_key j,
      same_key_sym a_key k,
      same_key_left j k a_key same,
      has_asset-same j k assets same,
    )

pub is_intel_number : (type : AssetType) → is_intel type ≡ ltb 4 (type_number type)
is_intel_number domain = refl
is_intel_number subdomain = refl
is_intel_number ip = refl
is_intel_number url = refl
is_intel_number service = refl
is_intel_number finding = refl
is_intel_number organization = refl
is_intel_number person = refl
is_intel_number email = refl
is_intel_number repository = refl
is_intel_number netblock = refl
is_intel_number document = refl
is_intel_number social = refl

pub is_intel_same :
    (k : AssetKey) (a : Asset)
    → is_asset k.asset_type k.value a ≡ true
    → is_intel a.asset_type ≡ is_intel k.asset_type
is_intel_same k a hit =
    is_intel_number a.asset_type
    ∙ ap (λ (n : ℕ). ltb 4 n)
        ((==_iff (type_number a.asset_type) (type_number k.asset_type)).0 (and_parts _ _ hit).0)
    ∙ sym (is_intel_number k.asset_type)
