-- ===== src/Correlation/Graph/Edges.antt =====
-- recon/correlation/engine.py: the relationships that a correlation adds.
use recon_platform.Prelude.{
  ℕ, ◌+◌, ==_iff, ◌≡◌, refl, sym, ap, subst, ◌∙◌, Bool, true, false, ◌&&◌, ◌||◌, not, Option, none,
  some, List, [], ◌∷◌, any, length, length-append, Result, ok, err, ◌>>=◌, >>=-eq-ok, ok_inj,
  Bool-cases, inl, inr, arith,
}
use recon_platform.Prelude.Text.{Text}
use recon_platform.Scope.{Rules}
use recon_platform.Scope.Urls.{ValueError}
use recon_platform.Correlation.Upsert.{Asset}
use recon_platform.Correlation.Route.{Row, AssetKey, same_key, RelHint, collect_evidence}
use recon_platform.Correlation.Graph.{
  RelationshipType, relation_number, relationship_type, Edge, same_edge, Graph, Summary,
  classify_asset, upsert, group_step, upsert_groups, has_id, match_attribute_parent,
  infer_parent_type, parent_or_new, attach_attributes, resolve_asset_id, source_key, target_key,
  add_edge, materialise_one, materialise_relationships, correlate, no_routing, summary_of,
}
use recon_platform.Correlation.Graph.Tables.{same_key_left, and_parts, any-edge-concat, tables}

-- The relationship of a hint, which is given under its own condition.
abbrev hinted : RelHint → RelationshipType → Edge
hinted h relation = record { source = source_key h; target = target_key h; relation = relation }

abbrev gives_one : Edge → RelHint → Option RelationshipType → Bool
gives_one e h none = false
gives_one e h (some relation) =
    not (same_key (source_key h) (target_key h)) && same_edge e (hinted h relation)

-- The hint names a relationship of the program, from one asset to another, and this is it.
abbrev pub gives : Edge → RelHint → Bool
gives e h = gives_one e h (relationship_type h.relation)

module _ (now : ℕ) (rules : Rules) (hints : List RelHint) where
  upsert-edges :
      (k : AssetKey) (rows : List Row) (g : Graph) {up : Graph × Bool}
      → upsert now rules hints k rows g ≡ ok up
      → g.edges ≡ up.0.edges
  unfolding upsert
  upsert-edges k rows g e =
      let (status, _, rest) = >>=-eq-ok (classify_asset rules hints k.asset_type k.value) _ e in
      ap (λ (x : Graph × Bool). x.0.edges) (ok_inj rest)

  group_step-edges :
      (k : AssetKey) (rows : List Row) (r : Result ValueError (Graph × Bool)) (gs : Graph × Summary)
      → upsert now rules hints k rows gs.0 ≡ r
      → gs.0.edges ≡ (group_step k rows r gs).0.edges
  unfolding group_step
  group_step-edges k rows (err _) (g, s) e = refl
  group_step-edges k rows (ok up) (g, s) e = upsert-edges k rows g e

  upsert_groups-edges :
      (groups : List (AssetKey × List Row)) (gs : Graph × Summary)
      → gs.0.edges ≡ (upsert_groups now rules hints groups gs).0.edges
  unfolding upsert_groups
  upsert_groups-edges [] gs = refl
  upsert_groups-edges ((k, rows) ∷ groups) gs =
      group_step-edges k rows (upsert now rules hints k rows gs.0) gs refl
      ∙ upsert_groups-edges groups (group_step k rows (upsert now rules hints k rows gs.0) gs)

  parent-edges :
      (ref : Text) (rows : List Row) (found : Option AssetKey) (g : Graph) {g' : Graph}
      → parent_or_new now rules hints ref rows found g ≡ ok g'
      → g.edges ≡ g'.edges
  unfolding parent_or_new
  parent-edges ref rows (some k) g e = ap (λ (x : Graph). x.edges) (ok_inj e)
  parent-edges ref rows none g e =
      let k = infer_parent_type ref in
      let (up, upped, rest) = >>=-eq-ok (upsert now rules hints k [] g) _ e in
      upsert-edges k [] g upped ∙ ap (λ (x : Graph). x.edges) (ok_inj rest)

  attach_attributes-edges :
      (attributes : List (Text × List Row)) (g : Graph) {g' : Graph}
      → attach_attributes now rules hints attributes g ≡ ok g'
      → g.edges ≡ g'.edges
  unfolding attach_attributes
  attach_attributes-edges [] g e = ap (λ (x : Graph). x.edges) (ok_inj e)
  attach_attributes-edges ((ref, rows) ∷ more) g e =
      let (found, _, rest) = >>=-eq-ok (match_attribute_parent ref g) _ e in
      let (g1, linked, rest') = >>=-eq-ok (parent_or_new now rules hints ref rows found g) _ rest in
      parent-edges ref rows found g linked ∙ attach_attributes-edges more g1 rest'

  resolve-edges :
      (k : AssetKey) (g : Graph) {g' : Graph}
      → resolve_asset_id now rules hints k g ≡ ok g'
      → g.edges ≡ g'.edges
  unfolding resolve_asset_id
  resolve-edges k g {g'} e = elim (Bool-cases (has_id k g)) [
    | inl known ↦ let same : g ≡ g' = ground arith in ap (λ (x : Graph). x.edges) same
    | inr new ↦
        let chain : (upsert now rules hints k [] g >>= λ up. ok up.0) ≡ ok g' = ground arith in
        let (up, upped, rest) = >>=-eq-ok (upsert now rules hints k [] g) _ chain in
        upsert-edges k [] g upped ∙ ap (λ (x : Graph). x.edges) (ok_inj rest)
  ]

same_edge_left : (a b c : Edge) → same_edge a b ≡ true → same_edge a c ≡ same_edge b c
same_edge_left a b c h =
    let (ends, relations) = and_parts _ _ h in
    let (sources, targets) = and_parts _ _ ends in
    rw
      (
        same_key_left a.source b.source c.source sources,
        same_key_left a.target b.target c.target targets,
        (==_iff (relation_number a.relation) (relation_number b.relation)).0 relations,
      )
      refl

or_assoc : (a b c : Bool) → ((a || b) || c) ≡ (a || (b || c))
or_assoc a b c = ground arith

any-same :
    (x e : Edge) (edges : List Edge)
    → same_edge x e ≡ true
    → any (same_edge x) edges ≡ any (same_edge e) edges
any-same x e [] same = refl
any-same x e (y ∷ edges) same = ground (arith, same_edge_left x e y same, any-same x e edges same)

any-add_edge :
    (x e : Edge) (g : Graph)
    → any (same_edge x) (add_edge e g).0.edges
      ≡ (any (same_edge x) g.edges || not (same_key e.source e.target) && same_edge x e)
unfolding add_edge
any-add_edge x e g = elim (Bool-cases (same_key e.source e.target)) [
  | inl loop ↦ rw loop (ground arith)
  | inr proper ↦ elim (Bool-cases (any (same_edge e) g.edges)) [
    | inl old ↦ rw (proper, old) (ground (arith, any-same x e g.edges))
    | inr new ↦ rw (proper, new) (any-edge-concat (same_edge x) g.edges e)
  ]
]

length-add_edge :
    (e : Edge) (g : Graph) → length (add_edge e g).0.edges ≡ length g.edges + (add_edge e g).1
unfolding add_edge
length-add_edge e g = elim (Bool-cases (same_key e.source e.target || any (same_edge e) g.edges)) [
  | inl skip ↦ rw skip (omega arith)
  | inr fresh ↦ rw fresh (length-append g.edges (e ∷ []))
]

module _ (now : ℕ) (rules : Rules) (hints : List RelHint) where
  -- What a graph has more than another one: a number of relationships, among them one or not.
  abbrev Adds : Edge → Graph → Graph → Bool → ℕ → Type 0
  Adds x g g' given n =
      (any (same_edge x) g'.edges ≡ (any (same_edge x) g.edges || given))
      × (length g'.edges ≡ length g.edges + n)

  materialise_one-Adds :
      (x : Edge) (h : RelHint) (relation : Option RelationshipType) (g : Graph) {step : Graph × ℕ}
      → materialise_one now rules hints h relation g ≡ ok step
      → Adds x g step.0 (gives_one x h relation) step.1
  unfolding materialise_one
  materialise_one-Adds x h none g e =
      subst (λ (y : Graph × ℕ). Adds x g y.0 false y.1) (ok_inj e) (ground arith, omega arith)
  materialise_one-Adds x h (some relation) g e =
      let edge = hinted h relation in
      let given = gives_one x h (some relation) in
      let (g1, first, rest) = >>=-eq-ok (resolve_asset_id now rules hints (source_key h) g) _ e in
      let (g2, second, rest') =
        >>=-eq-ok (resolve_asset_id now rules hints (target_key h) g1) _ rest in
      let same : g2.edges ≡ g.edges = sym (
        resolve-edges now rules hints (source_key h) g first
        ∙ resolve-edges now rules hints (target_key h) g1 second) in
      subst (λ (y : Graph × ℕ). Adds x g y.0 given y.1) (ok_inj rest')
        (
          any-add_edge x edge g2 ∙ ap (λ (es : List Edge). any (same_edge x) es || given) same,
          length-add_edge edge g2 ∙ ap (λ (es : List Edge). length es + (add_edge edge g2).1) same,
        )

  materialise-Adds :
      (x : Edge) (hs : List RelHint) (created : ℕ) (g : Graph) {done : Graph × ℕ}
      → materialise_relationships now rules hints hs created g ≡ ok done
      → (n : ℕ) × Adds x g done.0 (any (gives x) hs) n × (done.1 ≡ created + n)
  unfolding materialise_relationships
  materialise-Adds x [] created g e =
      subst (λ (y : Graph × ℕ). (n : ℕ) × Adds x g y.0 false n × (y.1 ≡ created + n)) (ok_inj e)
        (0, (ground arith, omega arith), omega arith)
  materialise-Adds x (h ∷ hs) created g e =
      let relation = relationship_type h.relation in
      let (step, one, rest) = >>=-eq-ok (materialise_one now rules hints h relation g) _ e in
      let (p, q) = materialise_one-Adds x h relation g one in
      let (n, (r, s), t) = materialise-Adds x hs (created + step.1) step.0 rest in
      (
        step.1 + n,
        (
          r
              ∙ ap (λ b. b || any (gives x) hs) p
              ∙ or_assoc (any (same_edge x) g.edges) (gives x h) _,
          omega (arith, q, s),
        ),
        omega (arith, t),
      )

-- A relationship is in the table after a correlation that returns exactly if it was before, or if one
-- of the hints that were routed gives it: the hint names one of the program's relationships, and joins
-- two different assets. So it does not matter in which order the set of the hints is walked, and the
-- summary counts the new rows.
pub correlate-Adds :
    (now : ℕ) (rules : Rules) (rows : List Row) (assets : List Asset) (edges : List Edge) (x : Edge)
    {done : Graph × Summary}
    → correlate now rules rows assets edges ≡ ok done
    → (any (same_edge x) done.0.edges
        ≡ (any (same_edge x) edges || any (gives x) (collect_evidence rows no_routing).rel_hints))
      × (length done.0.edges ≡ length edges + done.1.relationships_created)
unfolding correlate
correlate-Adds now rules rows assets edges x e =
    let r = collect_evidence rows no_routing in
    let hints = r.rel_hints in
    let start : Graph × Summary = (tables assets edges, summary_of r.processed) in
    let gs = upsert_groups now rules hints r.groups start in
    let (g, attached, rest) = >>=-eq-ok (attach_attributes now rules hints r.attributes gs.0) _ e in
    let (made, one, rest') =
      >>=-eq-ok (materialise_relationships now rules hints hints 0 g) _ rest in
    let same : edges ≡ g.edges =
      upsert_groups-edges now rules hints r.groups start
      ∙ attach_attributes-edges now rules hints r.attributes gs.0 attached in
    let (n, (p, q), t) = materialise-Adds now rules hints x hints 0 g one in
    subst
      (λ (y : Graph × Summary).
        (any (same_edge x) y.0.edges ≡ (any (same_edge x) edges || any (gives x) hints))
        × (length y.0.edges ≡ length edges + y.1.relationships_created))
      (ok_inj rest')
      (
        p ∙ ap (λ (es : List Edge). any (same_edge x) es || any (gives x) hints) (sym same),
        q ∙ (let l = ap (λ (es : List Edge). length es) same in omega (arith, l, t)),
      )
