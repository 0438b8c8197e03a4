-- ===== src/Correlation/Graph/Tables.antt =====
-- recon/correlation/engine.py: when the tables of assets and relationships are sound, and what an
-- upsert keeps of them.
mod Invariant
unfoldable pub use Invariant.*
use recon_platform.Prelude.{
  ℕ, ltb, ◌==◌, ==_iff, ◌≡◌, refl, sym, ap, ◌∙◌, Bool, true, false, ◌&&◌, ◌||◌, List, [], ◌∷◌, ◌++◌,
  map, any, All, ok, Bool-cases, inl, inr, arith,
}
use recon_platform.Prelude.Text.{Text, text_eq, text_eq_iff}
use recon_platform.Scope.{ScopeStatus, not_applicable, Rules}
use recon_platform.Correlation.{
  AssetType, domain, subdomain, ip, url, service, finding, organization, person, email, repository,
  netblock, document, social, Evidence,
}
use recon_platform.Correlation.Upsert.{
  Asset, is_asset, type_number, new_asset, raised_asset, upsert_asset,
}
use recon_platform.Correlation.Route.{Row, AssetKey, key, same_key, RelHint}
use recon_platform.Correlation.Graph.{
  relation_number, Edge, same_edge, Graph, classify_asset, has_asset, evidence_of,
}

module _ (now : ℕ) (k : AssetKey) (evs : List Evidence) (status : ScopeStatus)
    (intel : is_intel k.asset_type ≡ true → status ≡ not_applicable) where
  pub upsert_asset-IsApart :
      (assets : List Asset)
      → All IsApart assets
      → All IsApart (upsert_asset now k.asset_type k.value evs status assets)
  unfolding upsert_asset raised_asset new_asset
  upsert_asset-IsApart [] h = (intel, tt)
  upsert_asset-IsApart (a ∷ assets) (p, h) = elim (Bool-cases (is_asset k.asset_type k.value a)) [
    | inl hit ↦ rw hit (λ i. intel (sym (is_intel_same k a hit) ∙ i), h)
    | inr miss ↦ rw miss (p, upsert_asset-IsApart assets h)
  ]

  pub upsert_asset-HasKeys :
      (assets : List Asset)
      → HasKeys assets
      → HasKeys (upsert_asset now k.asset_type k.value evs status assets)
  unfolding upsert_asset raised_asset new_asset
  upsert_asset-HasKeys [] h = (refl, tt)
  upsert_asset-HasKeys (a ∷ assets) (p, h) = elim (Bool-cases (is_asset k.asset_type k.value a)) [
    | inl hit ↦ rw hit (p, h)
    | inr miss ↦ rw miss (
      has_asset-upsert_asset now k evs status (key a.asset_type a.value) assets
          ∙ ground (arith, same_key_sym k (key a.asset_type a.value)),
      upsert_asset-HasKeys assets h,
    )
  ]

-- What one table holds another holds.
abbrev pub IsWithin : List Asset → List Asset → Type 0
IsWithin assets more = (k : AssetKey) → has_asset k assets ≡ true → has_asset k more ≡ true

pub All-imp {ℓ κ κ'} :
    {A : Type ℓ} (P : A → Type κ) (Q : A → Type κ') (xs : List A)
    → ((a : A) → P a → Q a)
    → All P xs
    → All Q xs
All-imp P Q [] f h = tt
All-imp P Q (x ∷ xs) f (p, h) = (f x p, All-imp P Q xs f h)

-- Tables that grow, with the other parts as they are, are sound.
pub grown-IsSound :
    (g : Graph) (assets : List Asset)
    → IsSound g
    → All IsApart assets
    → HasKeys assets
    → IsWithin g.assets assets
    → IsSound (record g { assets = assets })
grown-IsSound g assets h apart keys grows = record {
  apart = apart;
  keys = keys;
  distinct = h.distinct;
  proper =
      All-imp (IsProper g.assets) (IsProper assets) g.edges
        (λ e p. (p.0, grows e.source p.1, grows e.target p.2)) h.proper;
  known = All-imp (IsHeld g.assets) (IsHeld assets) g.asset_ids (λ k p. grows k p) h.known;
  linked =
      All-imp (λ (l : Row × AssetKey). IsHeld g.assets l.1)
        (λ (l : Row × AssetKey). IsHeld assets l.1) g.links (λ l p. grows l.1 p) h.linked;
}

pub link-All :
    (assets : List Asset) (k : AssetKey) (rows : List Row)
    → IsHeld assets k
    → All (λ (l : Row × AssetKey). IsHeld assets l.1) (map (λ (row : Row). (row, k)) rows)
link-All assets k [] h = tt
link-All assets k (row ∷ rows) h = (h, link-All assets k rows h)

-- A step keeps what is known, and the graph is sound behind it.
abbrev pub IsStep : Graph → Graph → Type 0
IsStep g g' = IsSound g' × IsWithin g.assets g'.assets

abbrev pub upserted : ℕ → AssetKey → List Row → ScopeStatus → Graph → Graph
upserted now k rows status g = record g {
  assets = upsert_asset now k.asset_type k.value (evidence_of rows) status g.assets;
  asset_ids = k ∷ g.asset_ids;
}

pub same_key_self : (k : AssetKey) → same_key k k ≡ true
same_key_self k = ground (arith, text_eq_iff k.value k.value)

pub upserted-IsStep :
    (now : ℕ) (k : AssetKey) (rows : List Row) (status : ScopeStatus) (g : Graph)
    → (is_intel k.asset_type ≡ true → status ≡ not_applicable)
    → IsSound g
    → IsStep g (upserted now k rows status g) × IsHeld (upserted now k rows status g).assets k
upserted-IsStep now k rows status g intel h =
    let evs = evidence_of rows in
    let assets = upsert_asset now k.asset_type k.value evs status g.assets in
    let grows : IsWithin g.assets assets =
      λ j held. ground (arith, has_asset-upsert_asset now k evs status j g.assets, held) in
    let held : IsHeld assets k =
      ground (arith, has_asset-upsert_asset now k evs status k g.assets, same_key_self k) in
    let sound : IsSound (record g { assets = assets }) =
      grown-IsSound g assets h (upsert_asset-IsApart now k evs status intel g.assets h.apart)
        (upsert_asset-HasKeys now k evs status intel g.assets h.keys) grows in
    (
      (
        record {
          apart = sound.apart;
          keys = sound.keys;
          distinct = sound.distinct;
          proper = sound.proper;
          known = (held, sound.known);
          linked = sound.linked;
        },
        grows,
      ),
      held,
    )

pub same_edge_sym : (a b : Edge) → same_edge a b ≡ same_edge b a
same_edge_sym a b = ground (
  arith,
  same_key_sym a.source b.source,
  same_key_sym a.target b.target,
  ==_iff (relation_number a.relation) (relation_number b.relation),
  ==_iff (relation_number b.relation) (relation_number a.relation),
)

pub any-edge-concat :
    (p : Edge → Bool) (edges : List Edge) (e : Edge)
    → any p (edges ++ e ∷ []) ≡ (any p edges || p e)
any-edge-concat p [] e = ground arith
any-edge-concat p (x ∷ edges) e = ground (arith, any-edge-concat p edges e)

-- The tables of an engagement.
abbrev pub tables : List Asset → List Edge → Graph
tables assets edges = record { assets = assets; edges = edges; asset_ids = []; links = [] }
