-- ===== src/Correlation/Graph/Left.antt =====
-- recon/correlation/engine.py: what a step of a correlation has done stays done.
use recon_platform.Prelude.{
  ℕ, ◌+◌, ◌≡◌, refl, subst, ◌∙◌, ==_iff, true, ◌||◌, Option, none, some, List, [], ◌∷◌, any, Result,
  ok, ◌>>=◌, >>=-eq-ok, ok_inj, Bool-cases, inl, inr, arith,
}
use recon_platform.Prelude.Text.{Text}
use recon_platform.Scope.{Rules}
use recon_platform.Scope.Urls.{ValueError}
use recon_platform.Correlation.{}
use recon_platform.Correlation.Route.{Row, AssetKey, same_key, RelHint}
use recon_platform.Correlation.Graph.{
  RelationshipType, relation_number, relationship_type, Edge, same_edge, Graph, upsert, has_id,
  match_attribute_parent, infer_parent_type, parent_or_new, attach_attributes, resolve_asset_id,
  source_key, target_key, add_edge, materialise_one, materialise_relationships,
}
use recon_platform.Correlation.Graph.Replay.{IsLeft, IsLeft-self, IsLeft-trans, upsert-IsLeft}
use recon_platform.Correlation.Graph.Tables.{any-edge-concat, same_key_self}

same_edge_self : (e : Edge) → same_edge e e ≡ true
same_edge_self e = ground (
  arith,
  same_key_self e.source,
  same_key_self e.target,
  ==_iff (relation_number e.relation) (relation_number e.relation),
)

pub add_edge-ids : (e : Edge) (g : Graph) → (add_edge e g).0.asset_ids ≡ g.asset_ids
unfolding add_edge
add_edge-ids e g = elim (Bool-cases (same_key e.source e.target || any (same_edge e) g.edges)) [
  | inl skip ↦ rw skip refl
  | inr fresh ↦ rw fresh refl
]

pub add_edge-skips :
    (e : Edge) (g : Graph)
    → (same_key e.source e.target || any (same_edge e) g.edges) ≡ true
    → ◌≡◌ {A = Result ValueError (Graph × ℕ)} (ok (add_edge e g)) (ok (g, 0))
unfolding add_edge
add_edge-skips e g skip = rw skip refl

module _ (rules : Rules) (hints : List RelHint) where
  pub parent-IsLeft :
      (now : ℕ) (ref : Text) (rows : List Row) (found : Option AssetKey) (g : Graph) {g' : Graph}
      → parent_or_new now rules hints ref rows found g ≡ ok g'
      → IsLeft rules hints g'.assets g'.edges g
  unfolding parent_or_new
  parent-IsLeft now ref rows (some k) g e =
      subst (λ (x : Graph). IsLeft rules hints x.assets x.edges g) (ok_inj e)
        (IsLeft-self rules hints g)
  parent-IsLeft now ref rows none g e =
      let k = infer_parent_type ref in
      let (up, upped, rest) = >>=-eq-ok (upsert now rules hints k [] g) _ e in
      subst (λ (x : Graph). IsLeft rules hints x.assets x.edges g) (ok_inj rest)
        (upsert-IsLeft rules hints now k [] g upped).0

  pub attach-IsLeft :
      (now : ℕ) (attributes : List (Text × List Row)) (g : Graph) {g' : Graph}
      → attach_attributes now rules hints attributes g ≡ ok g'
      → IsLeft rules hints g'.assets g'.edges g
  unfolding attach_attributes
  attach-IsLeft now [] g e =
      subst (λ (x : Graph). IsLeft rules hints x.assets x.edges g) (ok_inj e)
        (IsLeft-self rules hints g)
  attach-IsLeft now ((ref, rows) ∷ more) g e =
      let (found, matched, rest) = >>=-eq-ok (match_attribute_parent ref g) _ e in
      let (g1, linked, rest') = >>=-eq-ok (parent_or_new now rules hints ref rows found g) _ rest in
      IsLeft-trans rules hints _ _ g g1 (parent-IsLeft now ref rows found g linked)
        (attach-IsLeft now more g1 rest')

  pub resolve-IsLeft :
      (now : ℕ) (k : AssetKey) (g : Graph) {g' : Graph}
      → resolve_asset_id now rules hints k g ≡ ok g'
      → IsLeft rules hints g'.assets g'.edges g
  unfolding resolve_asset_id
  resolve-IsLeft now k g {g'} e = elim (Bool-cases (has_id k g)) [
    | inl known ↦
        let same : g ≡ g' = ground arith in
        subst (λ (x : Graph). IsLeft rules hints x.assets x.edges g) same
          (IsLeft-self rules hints g)
    | inr new ↦
        let chain : (upsert now rules hints k [] g >>= λ up. ok up.0) ≡ ok g' = ground arith in
        let (up, upped, rest) = >>=-eq-ok (upsert now rules hints k [] g) _ chain in
        subst (λ (x : Graph). IsLeft rules hints x.assets x.edges g) (ok_inj rest)
          (upsert-IsLeft rules hints now k [] g upped).0
  ]

  -- An edge that was added, or that was there, is there; the others stay.
  pub add_edge-IsLeft :
      (e : Edge) (g : Graph) → IsLeft rules hints (add_edge e g).0.assets (add_edge e g).0.edges g
  unfolding add_edge
  add_edge-IsLeft e g =
      elim (Bool-cases (same_key e.source e.target || any (same_edge e) g.edges)) [
        | inl skip ↦ rw skip (IsLeft-self rules hints g)
        | inr fresh ↦ rw fresh (record {
          done = λ k rows d. d;
          held = λ x h. any-edge-concat (same_edge x) g.edges e ∙ rw h refl;
        })
      ]

  pub add_edge-held :
      (e : Edge) (g : Graph)
      → (same_key e.source e.target || any (same_edge e) (add_edge e g).0.edges) ≡ true
  unfolding add_edge
  add_edge-held e g = elim (Bool-cases (same_key e.source e.target || any (same_edge e) g.edges)) [
    | inl skip ↦ rw skip skip
    | inr fresh ↦
        rw fresh (ground (arith, any-edge-concat (same_edge e) g.edges e, same_edge_self e))
  ]

  pub materialise_one-IsLeft :
      (now : ℕ) (hint : RelHint) (relation : Option RelationshipType) (g : Graph) {step : Graph × ℕ}
      → materialise_one now rules hints hint relation g ≡ ok step
      → IsLeft rules hints step.0.assets step.0.edges g
  unfolding materialise_one
  materialise_one-IsLeft now hint none g e =
      subst (λ (x : Graph × ℕ). IsLeft rules hints x.0.assets x.0.edges g) (ok_inj e)
        (IsLeft-self rules hints g)
  materialise_one-IsLeft now hint (some relation) g e =
      let s = source_key hint in
      let t = target_key hint in
      let (g1, first, rest) = >>=-eq-ok (resolve_asset_id now rules hints s g) _ e in
      let (g2, second, rest') = >>=-eq-ok (resolve_asset_id now rules hints t g1) _ rest in
      let edge : Edge = record { source = s; target = t; relation = relation } in
      subst (λ (x : Graph × ℕ). IsLeft rules hints x.0.assets x.0.edges g) (ok_inj rest')
        (IsLeft-trans rules hints _ _ g g2
          (IsLeft-trans rules hints _ _ g g1 (resolve-IsLeft now s g first)
            (resolve-IsLeft now t g1 second))
          (add_edge-IsLeft edge g2))

  pub materialise-IsLeft :
      (now : ℕ) (hs : List RelHint) (created : ℕ) (g : Graph) {made : Graph × ℕ}
      → materialise_relationships now rules hints hs created g ≡ ok made
      → IsLeft rules hints made.0.assets made.0.edges g
  unfolding materialise_relationships
  materialise-IsLeft now [] created g e =
      subst (λ (x : Graph × ℕ). IsLeft rules hints x.0.assets x.0.edges g) (ok_inj e)
        (IsLeft-self rules hints g)
  materialise-IsLeft now (hint ∷ hs) created g e =
      let relation = relationship_type hint.relation in
      let (step, one, rest) = >>=-eq-ok (materialise_one now rules hints hint relation g) _ e in
      IsLeft-trans rules hints _ _ g step.0 (materialise_one-IsLeft now hint relation g one)
        (materialise-IsLeft now hs (created + step.1) step.0 rest)
