-- ===== src/Correlation/Graph/Replay.antt =====
-- recon/correlation/engine.py: a correlation that meets the tables it left behind takes the same steps.
use recon_platform.Prelude.{
  ℕ, ◌≡◌, refl, sym, ap, subst, ◌∙◌, Bool, true, ◌==◌, not, if◌then◌else◌, List, [], ◌∷◌, any,
  Result, ok, err, >>=-eq-ok, >>=-eq-err, ok_inj, Bool-cases, Result-cases, inl, inr, arith,
}
use recon_platform.Prelude.Text.{Text, text, has_text, text_eq_iff}
use recon_platform.Scope.{ScopeStatus, Rules, extract_host}
use recon_platform.Scope.Urls.{ValueError}
use recon_platform.Correlation.{
  AssetType, domain, subdomain, ip, url, service, finding, organization, person, email, repository,
  netblock, document, social,
}
use recon_platform.Correlation.Upsert.{Asset, is_asset, type_number, upsert_asset}
use recon_platform.Correlation.Idempotent.{upsert_asset-again}
use recon_platform.Correlation.Persistent.{upsert_asset-IsFixed}
use recon_platform.Correlation.Route.{Row, AssetKey, RelHint}
use recon_platform.Correlation.Graph.{
  Edge, same_edge, Graph, Summary, classify_asset, evidence_of, has_asset, upsert, group_step,
  upsert_groups, first_known, host_keys, match_attribute_parent,
}

-- The ids are the same, and the tables are those that were left behind.
pub record IsReplay (assets : List Asset) (edges : List Edge) (g h : Graph) : Type 0 where
  pub table : h.assets ≡ assets
  pub edge_table : h.edges ≡ edges
  pub ids : h.asset_ids ≡ g.asset_ids

pub first_known-ids :
    (ks : List AssetKey) (g h : Graph)
    → h.asset_ids ≡ g.asset_ids
    → first_known ks h ≡ first_known ks g
first_known-ids [] g h e = refl
first_known-ids (k ∷ ks) g h e = rw (first_known-ids ks g h e, e) refl

pub match-ids :
    (ref : Text) (g h : Graph)
    → h.asset_ids ≡ g.asset_ids
    → match_attribute_parent ref h ≡ match_attribute_parent ref g
unfolding match_attribute_parent
match-ids ref g h e = elim (Bool-cases (has_text ref (text "://"))) [
  | inr bare ↦ rw bare (ap (λ k. ok k) (first_known-ids (host_keys ref) g h e))
  | inl whole ↦ elim (Result-cases (extract_host ref)) [
    | inr (x, bad) ↦ rw (whole, bad, e) refl
    | inl (host, good) ↦ rw (whole, good, first_known-ids (host_keys host) g h e, e) refl
  ]
]

-- The type with a number.
abbrev number_type : ℕ → AssetType
number_type n =
    if n == 0
    then domain
    else if n == 1
    then subdomain
    else if n == 2
    then ip
    else if n == 3
    then url
    else if n == 4
    then service
    else if n == 5
    then finding
    else if n == 6
    then organization
    else if n == 7
    then person
    else if n == 8
    then email
    else if n == 9
    then repository
    else if n == 10
    then netblock
    else if n == 11
    then document
    else social

number_type-type_number : (t : AssetType) → number_type (type_number t) ≡ t
number_type-type_number domain = refl
number_type-type_number subdomain = refl
number_type-type_number ip = refl
number_type-type_number url = refl
number_type-type_number service = refl
number_type-type_number finding = refl
number_type-type_number organization = refl
number_type-type_number person = refl
number_type-type_number email = refl
number_type-type_number repository = refl
number_type-type_number netblock = refl
number_type-type_number document = refl
number_type-type_number social = refl

type_number_inj : (t u : AssetType) → type_number t ≡ type_number u → t ≡ u
type_number_inj t u h =
    sym (number_type-type_number t) ∙ ap (λ n. number_type n) h ∙ number_type-type_number u

is_asset-type :
    (type : AssetType) (value : Text) (a : Asset)
    → is_asset type value a ≡ true
    → type_number a.asset_type ≡ type_number type
is_asset-type type value a h = ground (arith, h)

is_asset-value :
    (type : AssetType) (value : Text) (a : Asset) → is_asset type value a ≡ true → a.value ≡ value
is_asset-value type value a h = (text_eq_iff a.value value).0 (ground (arith, h))

module _ (rules : Rules) (hints : List RelHint) where
  -- What an upsert of this asset with these rows does is done.
  abbrev pub IsDone : AssetKey → List Row → List Asset → Type 0
  IsDone k rows assets =
      (later_on : ℕ) (status : ScopeStatus)
      → classify_asset rules hints k.asset_type k.value ≡ ok status
      → upsert_asset later_on k.asset_type k.value (evidence_of rows) status assets ≡ assets

  -- What is done in a graph is done in these tables.
  pub record IsLeft (assets : List Asset) (edges : List Edge) (g : Graph) : Type 0 where
    pub done : (k : AssetKey) (rows : List Row) → IsDone k rows g.assets → IsDone k rows assets
    pub held : (e : Edge) → any (same_edge e) g.edges ≡ true → any (same_edge e) edges ≡ true

  pub IsLeft-self : (g : Graph) → IsLeft g.assets g.edges g
  IsLeft-self g = record { done = λ k rows d. d; held = λ e h. h }

  pub IsLeft-trans :
      (assets : List Asset) (edges : List Edge) (f g : Graph)
      → IsLeft g.assets g.edges f
      → IsLeft assets edges g
      → IsLeft assets edges f
  IsLeft-trans assets edges f g p q = record {
    done = λ k rows d. q.done k rows (p.done k rows d);
    held = λ e h. q.held e (p.held e h);
  }

  status_eq :
      (j k : AssetKey) (a : Asset) {status status' : ScopeStatus}
      → classify_asset rules hints j.asset_type j.value ≡ ok status
      → classify_asset rules hints k.asset_type k.value ≡ ok status'
      → is_asset j.asset_type j.value a ≡ true
      → is_asset k.asset_type k.value a ≡ true
      → status' ≡ status
  status_eq j k a p q hj hk =
      let types : k.asset_type ≡ j.asset_type =
        type_number_inj k.asset_type j.asset_type (
          sym (is_asset-type k.asset_type k.value a hk)
          ∙ is_asset-type j.asset_type j.value a hj) in
      let values : k.value ≡ j.value =
        sym (is_asset-value k.asset_type k.value a hk) ∙ is_asset-value j.asset_type j.value a hj in
      ok_inj (
        sym q
        ∙ ap (λ t. classify_asset rules hints t k.value) types
        ∙ ap (λ v. classify_asset rules hints j.asset_type v) values
        ∙ p)

  pub upsert-IsLeft :
      (now : ℕ) (k : AssetKey) (rows : List Row) (g : Graph) {up : Graph × Bool}
      → upsert now rules hints k rows g ≡ ok up
      → IsLeft up.0.assets up.0.edges g × IsDone k rows up.0.assets
  unfolding upsert
  upsert-IsLeft now k rows g e =
      let (status', verdict, rest) =
        >>=-eq-ok (classify_asset rules hints k.asset_type k.value) _ e in
      subst (λ (x : Graph × Bool). IsLeft x.0.assets x.0.edges g × IsDone k rows x.0.assets)
        (ok_inj rest)
        (
          record {
            done = λ j rows' d later_on status p.
                upsert_asset-IsFixed now later_on j.asset_type k.asset_type j.value k.value
                  (evidence_of rows') (evidence_of rows) status status' g.assets
                  (λ a hj hk. status_eq j k a p verdict hj hk) (d later_on status p);
            held = λ x h. h;
          },
          λ later_on status p.
              subst
                (λ st.
                  upsert_asset later_on k.asset_type k.value (evidence_of rows) st
                    (upsert_asset now k.asset_type k.value (evidence_of rows) status' g.assets)
                  ≡ upsert_asset now k.asset_type k.value (evidence_of rows) status' g.assets)
                (ok_inj (sym verdict ∙ p))
                (upsert_asset-again now later_on k.asset_type k.value (evidence_of rows) status'
                  g.assets),
        )

  group_step-IsLeft :
      (now : ℕ) (k : AssetKey) (rows : List Row) (r : Result ValueError (Graph × Bool))
      (gs : Graph × Summary)
      → upsert now rules hints k rows gs.0 ≡ r
      → IsLeft (group_step k rows r gs).0.assets (group_step k rows r gs).0.edges gs.0
  unfolding group_step
  group_step-IsLeft now k rows (err x) gs e = IsLeft-self gs.0
  group_step-IsLeft now k rows (ok up) gs e = (upsert-IsLeft now k rows gs.0 e).0

  pub upsert_groups-IsLeft :
      (now : ℕ) (groups : List (AssetKey × List Row)) (gs : Graph × Summary)
      → IsLeft
          (upsert_groups now rules hints groups gs).0.assets
          (upsert_groups now rules hints groups gs).0.edges
          gs.0
  unfolding upsert_groups
  upsert_groups-IsLeft now [] gs = IsLeft-self gs.0
  upsert_groups-IsLeft now ((k, rows) ∷ groups) gs =
      let next = group_step k rows (upsert now rules hints k rows gs.0) gs in
      IsLeft-trans _ _ gs.0 next.0
        (group_step-IsLeft now k rows (upsert now rules hints k rows gs.0) gs refl)
        (upsert_groups-IsLeft now groups next)

  -- A verdict that raises does so again.
  upsert-fails :
      (now later_on : ℕ) (k : AssetKey) (rows : List Row) (g h : Graph) {x : ValueError}
      → upsert now rules hints k rows g ≡ err x
      → upsert later_on rules hints k rows h ≡ err x
  unfolding upsert
  upsert-fails now later_on k rows g h e =
      elim (>>=-eq-err (classify_asset rules hints k.asset_type k.value) _ e) [
        | inl bad ↦ rw bad refl
        | inr (status, fine, other) ↦ cc
      ]

  module _ (now later_on : ℕ) (assets : List Asset) (edges : List Edge) where
    pub upsert-replays :
        (k : AssetKey) (rows : List Row) (g h : Graph) {up : Graph × Bool}
        → upsert now rules hints k rows g ≡ ok up
        → IsDone k rows assets
        → IsReplay assets edges g h
        → (up' : Graph × Bool) × (upsert later_on rules hints k rows h ≡ ok up')
          × IsReplay assets edges up.0 up'.0
    unfolding upsert
    upsert-replays k rows g h e done r =
        let (status, verdict, rest) =
          >>=-eq-ok (classify_asset rules hints k.asset_type k.value) _ e in
        subst
          (λ (x : Graph × Bool).
            (up' : Graph × Bool) × (upsert later_on rules hints k rows h ≡ ok up')
            × IsReplay assets edges x.0 up'.0)
          (ok_inj rest)
          (
            (
              record h {
                assets =
                    upsert_asset later_on k.asset_type k.value (evidence_of rows) status h.assets;
                asset_ids = k ∷ h.asset_ids;
              },
              not (has_asset k h.assets),
            ),
            rw verdict refl,
            record {
              table =
                  ap (λ t. upsert_asset later_on k.asset_type k.value (evidence_of rows) status t)
                    r.table
                  ∙ done later_on status verdict;
              edge_table = r.edge_table;
              ids = ap (λ is. k ∷ is) r.ids;
            },
          )

    -- The same step of the first loop, with an asset or without.
    group_step-replays :
        (k : AssetKey) (rows : List Row) (r : Result ValueError (Graph × Bool))
        (gs hs : Graph × Summary)
        → upsert now rules hints k rows gs.0 ≡ r
        → IsLeft assets edges (group_step k rows r gs).0
        → IsReplay assets edges gs.0 hs.0
        → IsReplay assets edges
            (group_step k rows r gs).0
            (group_step k rows (upsert later_on rules hints k rows hs.0) hs).0
    unfolding group_step
    group_step-replays k rows (err x) gs hs e left r =
        rw (upsert-fails now later_on k rows gs.0 hs.0 e) r
    group_step-replays k rows (ok up) gs hs e left r =
        let (_, done) = upsert-IsLeft now k rows gs.0 e in
        let (up', same, r') = upsert-replays k rows gs.0 hs.0 e (left.done k rows done) r in
        rw same (record { table = r'.table; edge_table = r'.edge_table; ids = r'.ids })

    pub upsert_groups-replays :
        (groups : List (AssetKey × List Row)) (gs hs : Graph × Summary)
        → IsLeft assets edges (upsert_groups now rules hints groups gs).0
        → IsReplay assets edges gs.0 hs.0
        → IsReplay assets edges
            (upsert_groups now rules hints groups gs).0
            (upsert_groups later_on rules hints groups hs).0
    unfolding upsert_groups
    upsert_groups-replays [] gs hs left r = r
    upsert_groups-replays ((k, rows) ∷ groups) gs hs left r =
        let next = group_step k rows (upsert now rules hints k rows gs.0) gs in
        upsert_groups-replays groups next _ left (
          group_step-replays k rows (upsert now rules hints k rows gs.0) gs hs refl
            (IsLeft-trans assets edges next.0 (upsert_groups now rules hints groups next).0
              (upsert_groups-IsLeft now groups next) left)
            r)
