-- ===== src/Correlation/Graph/Sound.antt =====
-- recon/correlation/engine.py: the asset graph is sound after each correlation.
use recon_platform.Prelude.{
  ℕ, ◌+◌, ◌≡◌, refl, subst, ◌∙◌, Bool, true, false, ◌||◌, Option, none, some, List, [], ◌∷◌, ◌++◌,
  any, length, All, All-append, All-concat, Result, ok, err, ◌>>=◌, >>=-eq-ok, ok_inj, Bool-cases,
  inl, inr, arith,
}
use recon_platform.Prelude.Text.{Text, text, has_text}
use recon_platform.Scope.{Rules, extract_host}
use recon_platform.Scope.Urls.{ValueError}
use recon_platform.Correlation.{url}
use recon_platform.Correlation.Canon.{canon_url}
use recon_platform.Correlation.Upsert.{Asset}
use recon_platform.Correlation.Route.{Row, AssetKey, key, same_key, RelHint, collect_evidence}
use recon_platform.Correlation.Graph.{
  RelationshipType, relationship_type, Edge, same_edge, Graph, Summary, classify_asset, upsert,
  link, group_step, upsert_groups, has_id, first_known, host_keys, match_attribute_parent,
  infer_parent_type, parent_or_new, attach_attributes, resolve_asset_id, source_key, target_key,
  add_edge, materialise_one, materialise_relationships, correlate, no_routing, summary_of,
}
use recon_platform.Correlation.Graph.Tables.{
  tables, same_edge_sym, any-edge-concat, IsHeld, HasEdges, IsProper, IsSound, classify_asset-intel,
  or_false, has_asset-same, link-All, IsStep, upserted-IsStep,
}
use recon_platform.Correlation.Graph.Links.{routed, correlate-links}

module _ (now : ℕ) (rules : Rules) (hints : List RelHint) where
  upsert-IsStep :
      (k : AssetKey) (rows : List Row) (g : Graph) {g' : Graph} {created : Bool}
      → IsSound g
      → upsert now rules hints k rows g ≡ ok (g', created)
      → IsStep g g' × IsHeld g'.assets k
  unfolding upsert
  upsert-IsStep k rows g h e =
      let (status, verdict, rest) =
        >>=-eq-ok (classify_asset rules hints k.asset_type k.value) _ e in
      subst (λ x. IsStep g x × IsHeld x.assets k) (cc rest)
        (upserted-IsStep now k rows status g
          (classify_asset-intel rules hints k.asset_type k.value verdict) h)

  link-IsSound :
      (k : AssetKey) (rows : List Row) (g : Graph)
      → IsSound g
      → IsHeld g.assets k
      → IsSound (link k rows g)
  link-IsSound k rows g h held = record {
    apart = h.apart;
    keys = h.keys;
    distinct = h.distinct;
    proper = h.proper;
    known = h.known;
    linked =
        All-append (λ (l : Row × AssetKey). IsHeld g.assets l.1) g.links _ h.linked
          (link-All g.assets k rows held);
  }

  group_step-IsSound :
      (k : AssetKey) (rows : List Row) (r : Result ValueError (Graph × Bool)) (gs : Graph × Summary)
      → upsert now rules hints k rows gs.0 ≡ r
      → IsSound gs.0
      → IsSound (group_step k rows r gs).0
  unfolding group_step
  group_step-IsSound k rows (err _) (g, s) e h = h
  group_step-IsSound k rows (ok (g', created)) (g, s) e h =
      let (step, held) = upsert-IsStep k rows g h e in link-IsSound k rows g' step.0 held

  upsert_groups-IsSound :
      (groups : List (AssetKey × List Row)) (gs : Graph × Summary)
      → IsSound gs.0
      → IsSound (upsert_groups now rules hints groups gs).0
  unfolding upsert_groups
  upsert_groups-IsSound [] gs h = h
  upsert_groups-IsSound ((k, rows) ∷ groups) gs h =
      upsert_groups-IsSound groups _
        (group_step-IsSound k rows (upsert now rules hints k rows gs.0) gs refl h)

  -- An id that was looked up is that of an asset.
  has_id-IsHeld :
      (k : AssetKey) (assets : List Asset) (ids : List AssetKey)
      → All (IsHeld assets) ids
      → any (same_key k) ids ≡ true
      → IsHeld assets k
  has_id-IsHeld k assets [] h e = cc
  has_id-IsHeld k assets (j ∷ ids) (p, h) e = elim (Bool-cases (same_key k j)) [
    | inl same ↦ has_asset-same k j assets same ∙ p
    | inr other ↦ has_id-IsHeld k assets ids h (ground arith)
  ]

  first_known-IsHeld :
      (ks : List AssetKey) (g : Graph) {k : AssetKey}
      → IsSound g
      → first_known ks g ≡ some k
      → IsHeld g.assets k
  first_known-IsHeld [] g h e = cc
  first_known-IsHeld (j ∷ ks) g {k} h e = elim (Bool-cases (has_id j g)) [
    | inl known ↦
        let same : j ≡ k = ground arith in
        subst (IsHeld g.assets) same (has_id-IsHeld j g.assets g.asset_ids h.known known)
    | inr new ↦ first_known-IsHeld ks g h (ground arith)
  ]

  match-IsHeld :
      (ref : Text) (g : Graph) {k : AssetKey}
      → IsSound g
      → match_attribute_parent ref g ≡ ok (some k)
      → IsHeld g.assets k
  unfolding match_attribute_parent
  match-IsHeld ref g {k} h e = elim (Bool-cases (has_text ref (text "://"))) [
    | inr bare ↦ first_known-IsHeld (host_keys ref) g h (ground arith)
    | inl whole ↦ elim (Bool-cases (has_id (key url (canon_url ref)) g)) [
      | inl known ↦
          let same : key url (canon_url ref) ≡ k = ground arith in
          subst (IsHeld g.assets) same
            (has_id-IsHeld (key url (canon_url ref)) g.assets g.asset_ids h.known known)
      | inr new ↦
          let chain : (extract_host ref >>= λ host. ok (first_known (host_keys host) g))
              ≡ ok (some k) =
            ground arith in
          let (host, _, rest) = >>=-eq-ok (extract_host ref) _ chain in
          first_known-IsHeld (host_keys host) g h (ok_inj rest)
    ]
  ]

  IsStep-trans : (f g h : Graph) → IsStep f g → IsStep g h → IsStep f h
  IsStep-trans f g h (_, p) (sound, q) = (sound, λ k held. q k (p k held))

  parent-IsSound :
      (ref : Text) (rows : List Row) (found : Option AssetKey) (g : Graph) {g' : Graph}
      → match_attribute_parent ref g ≡ ok found
      → IsSound g
      → parent_or_new now rules hints ref rows found g ≡ ok g'
      → IsSound g'
  unfolding parent_or_new
  parent-IsSound ref rows (some k) g m h e =
      subst IsSound (ok_inj e) (link-IsSound k rows g h (match-IsHeld ref g h m))
  parent-IsSound ref rows none g m h e =
      let k = infer_parent_type ref in
      let (up, upped, rest) = >>=-eq-ok (upsert now rules hints k [] g) _ e in
      let (step, held) = upsert-IsStep k [] g h upped in
      subst IsSound (ok_inj rest) (link-IsSound k rows up.0 step.0 held)

  attach_attributes-IsSound :
      (attributes : List (Text × List Row)) (g : Graph) {g' : Graph}
      → IsSound g
      → attach_attributes now rules hints attributes g ≡ ok g'
      → IsSound g'
  unfolding attach_attributes
  attach_attributes-IsSound [] g h e = subst IsSound (ok_inj e) h
  attach_attributes-IsSound ((ref, rows) ∷ more) g h e =
      let (found, matched, rest) = >>=-eq-ok (match_attribute_parent ref g) _ e in
      let (g1, linked, rest') = >>=-eq-ok (parent_or_new now rules hints ref rows found g) _ rest in
      attach_attributes-IsSound more g1 (parent-IsSound ref rows found g matched h linked) rest'

  resolve-IsStep :
      (k : AssetKey) (g : Graph) {g' : Graph}
      → IsSound g
      → resolve_asset_id now rules hints k g ≡ ok g'
      → IsStep g g' × IsHeld g'.assets k
  unfolding resolve_asset_id
  resolve-IsStep k g {g'} h e = elim (Bool-cases (has_id k g)) [
    | inl known ↦
        let same : g ≡ g' = ground arith in
        subst (λ x. IsStep g x × IsHeld x.assets k) same
          ((h, λ j held. held), has_id-IsHeld k g.assets g.asset_ids h.known known)
    | inr new ↦
        let chain : (upsert now rules hints k [] g >>= λ up. ok up.0) ≡ ok g' = ground arith in
        let (up, upped, rest) = >>=-eq-ok (upsert now rules hints k [] g) _ chain in
        subst (λ x. IsStep g x × IsHeld x.assets k) (ok_inj rest) (upsert-IsStep k [] g h upped)
  ]

  HasEdges-concat :
      (edges : List Edge) (e : Edge)
      → HasEdges edges
      → any (same_edge e) edges ≡ false
      → HasEdges (edges ++ e ∷ [])
  HasEdges-concat [] e h n = (refl, tt)
  HasEdges-concat (x ∷ edges) e (p, h) n =
      let (n1, n2) = or_false (same_edge e x) (any (same_edge e) edges) n in
      let other : same_edge x e ≡ false = same_edge_sym x e ∙ n1 in
      (any-edge-concat (same_edge x) edges e ∙ rw (p, other) refl, HasEdges-concat edges e h n2)

  add_edge-IsSound :
      (e : Edge) (g : Graph)
      → IsSound g
      → IsHeld g.assets e.source
      → IsHeld g.assets e.target
      → IsSound (add_edge e g).0
  unfolding add_edge
  add_edge-IsSound e g h p q =
      elim (Bool-cases (same_key e.source e.target || any (same_edge e) g.edges)) [
        | inl skip ↦ rw skip h
        | inr fresh ↦
            let loop : same_key e.source e.target ≡ false = ground arith in
            rw fresh (record {
              apart = h.apart;
              keys = h.keys;
              distinct = HasEdges-concat g.edges e h.distinct (ground arith);
              proper = All-concat (IsProper g.assets) g.edges h.proper (loop, p, q);
              known = h.known;
              linked = h.linked;
            })
      ]

  materialise_one-IsSound :
      (hint : RelHint) (relation : Option RelationshipType) (g : Graph) {step : Graph × ℕ}
      → IsSound g
      → materialise_one now rules hints hint relation g ≡ ok step
      → IsSound step.0
  unfolding materialise_one
  materialise_one-IsSound hint none g h e = subst (λ (x : Graph × ℕ). IsSound x.0) (ok_inj e) h
  materialise_one-IsSound hint (some relation) g h e =
      let s = source_key hint in
      let t = target_key hint in
      let (g1, first, rest) = >>=-eq-ok (resolve_asset_id now rules hints s g) _ e in
      let ((h1, _), held_s) = resolve-IsStep s g h first in
      let (g2, second, rest') = >>=-eq-ok (resolve_asset_id now rules hints t g1) _ rest in
      let ((h2, grows), held_t) = resolve-IsStep t g1 h1 second in
      subst (λ (x : Graph × ℕ). IsSound x.0) (ok_inj rest')
        (add_edge-IsSound (record { source = s; target = t; relation = relation }) g2 h2
          (grows s held_s) held_t)

  materialise-IsSound :
      (hs : List RelHint) (created : ℕ) (g : Graph) {done : Graph × ℕ}
      → IsSound g
      → materialise_relationships now rules hints hs created g ≡ ok done
      → IsSound done.0
  unfolding materialise_relationships
  materialise-IsSound [] created g h e = subst (λ (x : Graph × ℕ). IsSound x.0) (ok_inj e) h
  materialise-IsSound (hint ∷ hs) created g h e =
      let relation = relationship_type hint.relation in
      let (step, one, rest) = >>=-eq-ok (materialise_one now rules hints hint relation g) _ e in
      materialise-IsSound hs (created + step.1) step.0
        (materialise_one-IsSound hint relation g h one) rest

correlate-tables :
    (now : ℕ) (rules : Rules) (rows : List Row) (assets : List Asset) (edges : List Edge)
    {done : Graph × Summary}
    → IsSound (tables assets edges)
    → correlate now rules rows assets edges ≡ ok done
    → IsSound done.0
unfolding correlate
correlate-tables now rules rows assets edges h e =
    let r = collect_evidence rows no_routing in
    let gs =
      upsert_groups now rules r.rel_hints r.groups (tables assets edges, summary_of r.processed) in
    let h1 : IsSound gs.0 =
      upsert_groups-IsSound now rules r.rel_hints r.groups
        (tables assets edges, summary_of r.processed) h in
    let (g, attached, rest) =
      >>=-eq-ok (attach_attributes now rules r.rel_hints r.attributes gs.0) _ e in
    let h2 : IsSound g =
      attach_attributes-IsSound now rules r.rel_hints r.attributes gs.0 h1 attached in
    let (made, one, rest') =
      >>=-eq-ok (materialise_relationships now rules r.rel_hints r.rel_hints 0 g) _ rest in
    subst (λ (x : Graph × Summary). IsSound x.0) (ok_inj rest')
      (materialise-IsSound now rules r.rel_hints r.rel_hints 0 g h2 one)

-- If the tables are sound, they are sound after a correlation of any evidence that returns, and so are
-- the ids that it gave out: a type and value has one row, a relationship has one row, joins two
-- different assets of the table and does not join one to itself, each link of a row of evidence is to
-- an asset of the table, and no finding and nothing that OSINT found about the organisation is in
-- scope. The links are as many as the rows that the routing gave to assets and to attributes, less
-- those that the summary counts as skipped.
pub correlate-IsSound :
    (now : ℕ) (rules : Rules) (rows : List Row) (assets : List Asset) (edges : List Edge)
    {done : Graph × Summary}
    → IsSound (tables assets edges)
    → correlate now rules rows assets edges ≡ ok done
    → IsSound done.0
      × (length done.0.links + done.1.skipped_evidence ≡ routed (collect_evidence rows no_routing))
correlate-IsSound now rules rows assets edges h e = (
  correlate-tables now rules rows assets edges h e,
  correlate-links now rules rows assets edges e,
)
