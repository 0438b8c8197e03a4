-- ===== src/Correlation/Graph/Rerun.antt =====
-- recon/correlation/engine.py: a correlation of the same evidence again leaves the assets and the
-- relationships as they are.
use recon_platform.Prelude.{
  ℕ, ◌+◌, ◌≡◌, refl, sym, ap, subst, ◌∙◌, true, ◌||◌, Option, none, some, List, [], ◌∷◌, any,
  Result, ok, ◌>>=◌, >>=-eq-ok, ok_inj, Bool-cases, inl, inr, arith,
}
use recon_platform.Prelude.Text.{Text}
use recon_platform.Scope.{Rules}
use recon_platform.Scope.Urls.{ValueError}
use recon_platform.Correlation.{}
use recon_platform.Correlation.Upsert.{Asset}
use recon_platform.Correlation.Route.{Row, AssetKey, same_key, RelHint, collect_evidence}
use recon_platform.Correlation.Graph.{
  RelationshipType, relationship_type, Edge, same_edge, Graph, Summary, upsert, link, upsert_groups,
  has_id, match_attribute_parent, infer_parent_type, parent_or_new, attach_attributes,
  resolve_asset_id, source_key, target_key, add_edge, materialise_one, materialise_relationships,
  correlate, no_routing, summary_of,
}
use recon_platform.Correlation.Graph.Replay.{
  IsReplay, IsDone, IsLeft, IsLeft-self, IsLeft-trans, match-ids, upsert-IsLeft, upsert-replays,
  upsert_groups-replays,
}
use recon_platform.Correlation.Graph.Left.{
  add_edge-ids, add_edge-skips, add_edge-held, attach-IsLeft, resolve-IsLeft, add_edge-IsLeft,
  materialise-IsLeft,
}
use recon_platform.Correlation.Graph.Tables.{tables}

module _ (rules : Rules) (hints : List RelHint) where
  module _ (now later_on : ℕ) (assets : List Asset) (edges : List Edge) where
    -- The same call again returns, to the same ids.
    abbrev Again : Graph → Result ValueError Graph → Type 0
    Again g r = (h : Graph) × (r ≡ ok h) × IsReplay assets edges g h

    parent-replays :
        (ref : Text) (rows : List Row) (found : Option AssetKey) (g h : Graph) {g' : Graph}
        → parent_or_new now rules hints ref rows found g ≡ ok g'
        → IsLeft rules hints assets edges g'
        → IsReplay assets edges g h
        → Again g' (parent_or_new later_on rules hints ref rows found h)
    unfolding parent_or_new
    parent-replays ref rows (some k) g h e left r =
        subst (λ (x : Graph). Again x (ok (link k rows h))) (ok_inj e)
          (link k rows h, refl, record { table = r.table; edge_table = r.edge_table; ids = r.ids })
    parent-replays ref rows none g h {g'} e left r =
        let k = infer_parent_type ref in
        let (up, upped, rest) = >>=-eq-ok (upsert now rules hints k [] g) _ e in
        let same : link k rows up.0 ≡ g' = ok_inj rest in
        let done : IsDone rules hints k [] assets = left.done k [] (
          subst (λ (x : Graph). IsDone rules hints k [] x.assets) same
            (upsert-IsLeft rules hints now k [] g upped).1) in
        let (up', again, r') =
          upsert-replays rules hints now later_on assets edges k [] g h upped done r in
        (
          link k rows up'.0,
          rw again refl,
          subst (λ (x : Graph). IsReplay assets edges x (link k rows up'.0)) same
              (record { table = r'.table; edge_table = r'.edge_table; ids = r'.ids }),
        )

    attach-replays :
        (attributes : List (Text × List Row)) (g h : Graph) {g' : Graph}
        → attach_attributes now rules hints attributes g ≡ ok g'
        → IsLeft rules hints assets edges g'
        → IsReplay assets edges g h
        → Again g' (attach_attributes later_on rules hints attributes h)
    unfolding attach_attributes
    attach-replays [] g h e left r = subst (λ (x : Graph). Again x (ok h)) (ok_inj e) (h, refl, r)
    attach-replays ((ref, rows) ∷ more) g h {g'} e left r =
        let (found, matched, rest) = >>=-eq-ok (match_attribute_parent ref g) _ e in
        let (g1, linked, rest') =
          >>=-eq-ok (parent_or_new now rules hints ref rows found g) _ rest in
        let (h1, again, r1) =
          parent-replays ref rows found g h linked
            (IsLeft-trans rules hints assets edges g1 g'
              (attach-IsLeft rules hints now more g1 rest') left)
            r in
        let (h2, again2, r2) = attach-replays more g1 h1 rest' left r1 in
        (h2, rw (match-ids ref g h r.ids ∙ matched) (rw again again2), r2)

    resolve-replays :
        (k : AssetKey) (g h : Graph) {g' : Graph}
        → resolve_asset_id now rules hints k g ≡ ok g'
        → IsLeft rules hints assets edges g'
        → IsReplay assets edges g h
        → Again g' (resolve_asset_id later_on rules hints k h)
    unfolding resolve_asset_id
    resolve-replays k g h {g'} e left r =
        let ids : has_id k h ≡ has_id k g = ap (λ ks. any (same_key k) ks) r.ids in
        elim (Bool-cases (has_id k g)) [
          | inl known ↦
              let same : g ≡ g' = ground arith in
              (h, rw (ids ∙ known) refl, subst (λ (x : Graph). IsReplay assets edges x h) same r)
          | inr new ↦
              let chain : (upsert now rules hints k [] g >>= λ up. ok up.0) ≡ ok g' =
                ground arith in
              let (up, upped, rest) = >>=-eq-ok (upsert now rules hints k [] g) _ chain in
              let same : up.0 ≡ g' = ok_inj rest in
              let done : IsDone rules hints k [] assets = left.done k [] (
                subst (λ (x : Graph). IsDone rules hints k [] x.assets) same
                  (upsert-IsLeft rules hints now k [] g upped).1) in
              let (up', again, r') =
                upsert-replays rules hints now later_on assets edges k [] g h upped done r in
              (
                up'.0,
                rw (ids ∙ new) (rw again refl),
                subst (λ (x : Graph). IsReplay assets edges x up'.0) same r',
              )
        ]

    abbrev AgainOne : Graph → Result ValueError (Graph × ℕ) → Type 0
    AgainOne g r = (h : Graph) × (r ≡ ok (h, 0)) × IsReplay assets edges g h

    materialise_one-replays :
        (hint : RelHint) (relation : Option RelationshipType) (g h : Graph) {step : Graph × ℕ}
        → materialise_one now rules hints hint relation g ≡ ok step
        → IsLeft rules hints assets edges step.0
        → IsReplay assets edges g h
        → AgainOne step.0 (materialise_one later_on rules hints hint relation h)
    unfolding materialise_one
    materialise_one-replays hint none g h e left r =
        subst (λ (x : Graph × ℕ). AgainOne x.0 (ok (h, 0))) (ok_inj e) (h, refl, r)
    materialise_one-replays hint (some relation) g h {step} e left r =
        let s = source_key hint in
        let t = target_key hint in
        let (g1, first, rest) = >>=-eq-ok (resolve_asset_id now rules hints s g) _ e in
        let (g2, second, rest') = >>=-eq-ok (resolve_asset_id now rules hints t g1) _ rest in
        let edge : Edge = record { source = s; target = t; relation = relation } in
        let same : add_edge edge g2 ≡ step = ok_inj rest' in
        let left3 : IsLeft rules hints assets edges (add_edge edge g2).0 =
          subst (λ (x : Graph × ℕ). IsLeft rules hints assets edges x.0) (sym same) left in
        let left2 =
          IsLeft-trans rules hints assets edges g2 (add_edge edge g2).0
            (add_edge-IsLeft rules hints edge g2) left3 in
        let left1 =
          IsLeft-trans rules hints assets edges g1 g2 (resolve-IsLeft rules hints now t g1 second)
            left2 in
        let (h1, again1, r1) = resolve-replays s g h first left1 r in
        let (h2, again2, r2) = resolve-replays t g1 h1 second left2 r1 in
        let there : (same_key s t || any (same_edge edge) h2.edges) ≡ true =
          ground (arith, add_edge-held rules hints edge g2, left3.held edge, r2.edge_table) in
        (
          h2,
          rw (again1, again2) (add_edge-skips edge h2 there),
          subst (λ (x : Graph × ℕ). IsReplay assets edges x.0 h2) same
              (record {
                table = r2.table;
                edge_table = r2.edge_table;
                ids = r2.ids ∙ sym (add_edge-ids edge g2);
              }),
        )

    materialise-replays :
        (hs : List RelHint) (created : ℕ) (g h : Graph) {made : Graph × ℕ}
        → materialise_relationships now rules hints hs created g ≡ ok made
        → IsLeft rules hints assets edges made.0
        → IsReplay assets edges g h
        → AgainOne made.0 (materialise_relationships later_on rules hints hs 0 h)
    unfolding materialise_relationships
    materialise-replays [] created g h e left r =
        subst (λ (x : Graph × ℕ). AgainOne x.0 (ok (h, 0))) (ok_inj e) (h, refl, r)
    materialise-replays (hint ∷ hs) created g h {made} e left r =
        let relation = relationship_type hint.relation in
        let (step, one, rest) = >>=-eq-ok (materialise_one now rules hints hint relation g) _ e in
        let next = materialise-IsLeft rules hints now hs (created + step.1) step.0 rest in
        let (h1, again, r1) =
          materialise_one-replays hint relation g h one
            (IsLeft-trans rules hints assets edges step.0 made.0 next left) r in
        let (h2, again2, r2) = materialise-replays hs (created + step.1) step.0 h1 rest left r1 in
        (h2, rw again again2, r2)

-- A correlation that returns, and then another one of the same evidence with the same rules, at
-- whatever time, which takes the hints in the same order: the second one returns as well, leaves the
-- assets and the relationships as they are after the first, and creates no relationship.
pub correlate-again :
    (now later_on : ℕ) (rules : Rules) (rows : List Row) (assets : List Asset) (edges : List Edge)
    {done : Graph × Summary}
    → correlate now rules rows assets edges ≡ ok done
    → (again : Graph × Summary) × (correlate later_on rules rows done.0.assets done.0.edges
        ≡ ok again)
      × (again.0.assets ≡ done.0.assets)
      × (again.0.edges ≡ done.0.edges)
      × (again.1.relationships_created ≡ 0)
unfolding correlate
correlate-again now later_on rules rows assets edges {done} e =
    let r = collect_evidence rows no_routing in
    let hints = r.rel_hints in
    let start : Graph × Summary = (tables assets edges, summary_of r.processed) in
    let gs = upsert_groups now rules hints r.groups start in
    let (g, attached, rest) = >>=-eq-ok (attach_attributes now rules hints r.attributes gs.0) _ e in
    let (made, one, rest') =
      >>=-eq-ok (materialise_relationships now rules hints hints 0 g) _ rest in
    let as1 = made.0.assets in
    let es1 = made.0.edges in
    let left2 : IsLeft rules hints as1 es1 g = materialise-IsLeft rules hints now hints 0 g one in
    let left1 : IsLeft rules hints as1 es1 gs.0 =
      IsLeft-trans rules hints as1 es1 gs.0 g
        (attach-IsLeft rules hints now r.attributes gs.0 attached) left2 in
    let begin : Graph × Summary = (tables as1 es1, summary_of r.processed) in
    let hs = upsert_groups later_on rules hints r.groups begin in
    let r1 =
      upsert_groups-replays rules hints now later_on as1 es1 r.groups start begin left1
        (record { table = refl; edge_table = refl; ids = refl }) in
    let (h, again, r2) =
      attach-replays rules hints now later_on as1 es1 r.attributes gs.0 hs.0 attached left2 r1 in
    let (h', again', r3) =
      materialise-replays rules hints now later_on as1 es1 hints 0 g h one
        (IsLeft-self rules hints made.0) r2 in
    subst
      (λ (x : Graph × Summary).
        (again : Graph × Summary) × (correlate later_on rules rows x.0.assets x.0.edges ≡ ok again)
        × (again.0.assets ≡ x.0.assets)
        × (again.0.edges ≡ x.0.edges)
        × (again.1.relationships_created ≡ 0))
      (ok_inj rest')
      (
        (h', record hs.1 { relationships_created = 0 }),
        rw again (rw again' refl),
        r3.table,
        r3.edge_table,
        refl,
      )
