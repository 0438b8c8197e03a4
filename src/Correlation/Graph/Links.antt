-- ===== src/Correlation/Graph/Links.antt =====
-- recon/correlation/engine.py: the evidence that a correlation links to assets.
use recon_platform.Prelude.{
  ℕ, ◌+◌, ◌≡◌, refl, ap, subst, ◌∙◌, Option, none, some, List, [], ◌∷◌, ◌++◌, map, length, Result,
  ok, err, ◌>>=◌, >>=-eq-ok, ok_inj, Bool-cases, inl, inr, arith, Bool, ◌||◌, any,
}
use recon_platform.Prelude.Text.{Text}
use recon_platform.Scope.{Rules}
use recon_platform.Scope.Urls.{ValueError}
use recon_platform.Correlation.Upsert.{Asset}
use recon_platform.Correlation.Route.{Row, AssetKey, same_key, RelHint, Routing, collect_evidence}
use recon_platform.Correlation.Graph.{
  RelationshipType, relationship_type, Edge, same_edge, Graph, Summary, classify_asset, upsert,
  link, group_step, upsert_groups, has_id, match_attribute_parent, infer_parent_type, parent_or_new,
  attach_attributes, resolve_asset_id, source_key, target_key, add_edge, materialise_one,
  materialise_relationships, no_routing, summary_of, correlate,
}
use recon_platform.Correlation.Graph.Tables.{tables}

abbrev pub rows_in : {A : Type 0} → List (A × List Row) → ℕ
rows_in [] = 0
rows_in ((_, rows) ∷ more) = length rows + rows_in more

-- The rows of evidence that the routing gives to an asset or to its attributes.
abbrev pub routed : Routing → ℕ
routed r = rows_in r.groups + rows_in r.attributes

length-links :
    (k : AssetKey) (links : List (Row × AssetKey)) (rows : List Row)
    → length (links ++ map (λ (row : Row). (row, k)) rows) ≡ length links + length rows
length-links k [] [] = refl
length-links k [] (row ∷ rows) = let h = length-links k [] rows in omega (arith, h)
length-links k (l ∷ links) rows = let h = length-links k links rows in omega (arith, h)

length-link :
    (k : AssetKey) (rows : List Row) (g : Graph)
    → length (link k rows g).links ≡ length g.links + length rows
length-link k rows g = length-links k g.links rows

add_edge-links : (e : Edge) (g : Graph) → (add_edge e g).0.links ≡ g.links
unfolding add_edge
add_edge-links e g = elim (Bool-cases (same_key e.source e.target || any (same_edge e) g.edges)) [
  | inl skip ↦ rw skip refl
  | inr fresh ↦ rw fresh refl
]

module _ (now : ℕ) (rules : Rules) (hints : List RelHint) where
  upsert-links :
      (k : AssetKey) (rows : List Row) (g : Graph) {up : Graph × Bool}
      → upsert now rules hints k rows g ≡ ok up
      → up.0.links ≡ g.links
  unfolding upsert
  upsert-links k rows g e =
      let (status, verdict, rest) =
        >>=-eq-ok (classify_asset rules hints k.asset_type k.value) _ e in
      subst (λ (x : Graph × Bool). x.0.links ≡ g.links) (ok_inj rest) refl

  group_step-links :
      (k : AssetKey) (rows : List Row) (r : Result ValueError (Graph × Bool)) (gs : Graph × Summary)
      → upsert now rules hints k rows gs.0 ≡ r
      → length (group_step k rows r gs).0.links + (group_step k rows r gs).1.skipped_evidence
        ≡ length gs.0.links + gs.1.skipped_evidence + length rows
  unfolding group_step
  group_step-links k rows (err _) (g, s) e = omega arith
  group_step-links k rows (ok (g', created)) (g, s) e =
      let same = ap (λ (ls : List (Row × AssetKey)). length ls) (upsert-links k rows g e) in
      omega (arith, length-link k rows g', same)

  upsert_groups-links :
      (groups : List (AssetKey × List Row)) (gs : Graph × Summary)
      → length (upsert_groups now rules hints groups gs).0.links
          + (upsert_groups now rules hints groups gs).1.skipped_evidence
        ≡ length gs.0.links + gs.1.skipped_evidence + rows_in groups
  unfolding upsert_groups
  upsert_groups-links [] gs = omega arith
  upsert_groups-links ((k, rows) ∷ groups) gs =
      let h = group_step-links k rows (upsert now rules hints k rows gs.0) gs refl in
      omega (arith, h, upsert_groups-links groups _)

  parent-links :
      (ref : Text) (rows : List Row) (found : Option AssetKey) (g : Graph) {g' : Graph}
      → parent_or_new now rules hints ref rows found g ≡ ok g'
      → length g'.links ≡ length g.links + length rows
  unfolding parent_or_new
  parent-links ref rows (some k) g e =
      subst (λ (x : Graph). length x.links ≡ length g.links + length rows) (ok_inj e)
        (length-link k rows g)
  parent-links ref rows none g e =
      let k = infer_parent_type ref in
      let (up, upped, rest) = >>=-eq-ok (upsert now rules hints k [] g) _ e in
      let same = ap (λ (ls : List (Row × AssetKey)). length ls) (upsert-links k [] g upped) in
      subst (λ (x : Graph). length x.links ≡ length g.links + length rows) (ok_inj rest)
        (omega (arith, length-link k rows up.0, same))

  attach_attributes-links :
      (attributes : List (Text × List Row)) (g : Graph) {g' : Graph}
      → attach_attributes now rules hints attributes g ≡ ok g'
      → length g'.links ≡ length g.links + rows_in attributes
  unfolding attach_attributes
  attach_attributes-links [] g e =
      subst (λ (x : Graph). length x.links ≡ length g.links + 0) (ok_inj e) (omega arith)
  attach_attributes-links ((ref, rows) ∷ more) g e =
      let (found, matched, rest) = >>=-eq-ok (match_attribute_parent ref g) _ e in
      let (g1, linked, rest') = >>=-eq-ok (parent_or_new now rules hints ref rows found g) _ rest in
      let h = parent-links ref rows found g linked in
      omega (arith, h, attach_attributes-links more g1 rest')

  resolve-links :
      (k : AssetKey) (g : Graph) {g' : Graph}
      → resolve_asset_id now rules hints k g ≡ ok g'
      → g'.links ≡ g.links
  unfolding resolve_asset_id
  resolve-links k g {g'} e = elim (Bool-cases (has_id k g)) [
    | inl known ↦
        let same : g ≡ g' = ground arith in subst (λ (x : Graph). x.links ≡ g.links) same refl
    | inr new ↦
        let chain : (upsert now rules hints k [] g >>= λ up. ok up.0) ≡ ok g' = ground arith in
        let (up, upped, rest) = >>=-eq-ok (upsert now rules hints k [] g) _ chain in
        subst (λ (x : Graph). x.links ≡ g.links) (ok_inj rest) (upsert-links k [] g upped)
  ]

  materialise_one-links :
      (hint : RelHint) (relation : Option RelationshipType) (g : Graph) {step : Graph × ℕ}
      → materialise_one now rules hints hint relation g ≡ ok step
      → step.0.links ≡ g.links
  unfolding materialise_one
  materialise_one-links hint none g e =
      subst (λ (x : Graph × ℕ). x.0.links ≡ g.links) (ok_inj e) refl
  materialise_one-links hint (some relation) g e =
      let (g1, first, rest) =
        >>=-eq-ok (resolve_asset_id now rules hints (source_key hint) g) _ e in
      let (g2, second, rest') =
        >>=-eq-ok (resolve_asset_id now rules hints (target_key hint) g1) _ rest in
      subst (λ (x : Graph × ℕ). x.0.links ≡ g.links) (ok_inj rest')
        (add_edge-links _ g2
          ∙ resolve-links (target_key hint) g1 second
          ∙ resolve-links (source_key hint) g first)

  materialise-links :
      (hs : List RelHint) (created : ℕ) (g : Graph) {done : Graph × ℕ}
      → materialise_relationships now rules hints hs created g ≡ ok done
      → done.0.links ≡ g.links
  unfolding materialise_relationships
  materialise-links [] created g e = subst (λ (x : Graph × ℕ). x.0.links ≡ g.links) (ok_inj e) refl
  materialise-links (hint ∷ hs) created g e =
      let relation = relationship_type hint.relation in
      let (step, one, rest) = >>=-eq-ok (materialise_one now rules hints hint relation g) _ e in
      materialise-links hs (created + step.1) step.0 rest
      ∙ materialise_one-links hint relation g one

pub correlate-links :
    (now : ℕ) (rules : Rules) (rows : List Row) (assets : List Asset) (edges : List Edge)
    {done : Graph × Summary}
    → correlate now rules rows assets edges ≡ ok done
    → length done.0.links + done.1.skipped_evidence ≡ routed (collect_evidence rows no_routing)
unfolding correlate
correlate-links now rules rows assets edges e =
    let r = collect_evidence rows no_routing in
    let start : Graph × Summary = (tables assets edges, summary_of r.processed) in
    let gs = upsert_groups now rules r.rel_hints r.groups start in
    let (g, attached, rest) =
      >>=-eq-ok (attach_attributes now rules r.rel_hints r.attributes gs.0) _ e in
    let (made, one, rest') =
      >>=-eq-ok (materialise_relationships now rules r.rel_hints r.rel_hints 0 g) _ rest in
    let grouped = upsert_groups-links now rules r.rel_hints r.groups start in
    let more = attach_attributes-links now rules r.rel_hints r.attributes gs.0 attached in
    let same =
      ap (λ (ls : List (Row × AssetKey)). length ls)
        (materialise-links now rules r.rel_hints r.rel_hints 0 g one) in
    subst (λ (x : Graph × Summary). length x.0.links + x.1.skipped_evidence ≡ routed r)
      (ok_inj rest') (omega (arith, grouped, more, same))
